-- ===== src/Sched/Sample.antt =====
-- A table of 500 free slots, on which the properties are tried.
use gpu_virtmem.Prelude.{
  ℕ, zero, suc, ◌≡◌, ◌≢◌, refl, false, ℤ, pos, replicate, length-replicate, arith,
}
use gpu_virtmem.Sched.Data.{
  Timeval, ProcState, inactive, Slot, SchedulerData, occurrences, IsWellFormed,
}

abbrev pub zero_time : Timeval
zero_time = record { tv_sec = 0; tv_usec = 0 }

abbrev pub slot_of : ℕ → ProcState → ℤ → Slot
slot_of pid state penalty = record {
  process = pid;
  share_unit = 50;
  signal_num = 34;
  state = state;
  app_type = 0;
  allocated_time = zero_time;
  execution_time = zero_time;
  penalty_epochs = penalty;
  gpu_binding = 0;
  priority = pos 0;
  sends_l2_feedback = false;
  valid = false;
}

abbrev pub empty : SchedulerData
empty = record { slots = replicate 500 (slot_of 0 inactive (pos 0)); count = 499 }

unused : (pid n : ℕ) → pid ≢ 0 → occurrences pid (replicate n (slot_of 0 inactive (pos 0))) ≡ 0
unfolding occurrences
unused pid zero h = refl
unused pid (suc n) h = ground (arith, unused pid n h)

pub empty-IsWellFormed : IsWellFormed empty
empty-IsWellFormed = record {
  full = length-replicate 500 (slot_of 0 inactive (pos 0));
  in_range = omega arith;
  once = λ pid h. omega (arith, unused pid 500 h);
}
