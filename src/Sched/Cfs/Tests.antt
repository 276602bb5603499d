-- ===== src/Sched/Cfs/Tests.antt =====
-- The turns of a table with a free slot between two processes.
use gpu_virtmem.Prelude.{ℕ, ◌≡◌, true, false, Bool, [], ◌∷◌, some, pos, take, arith}
use gpu_virtmem.Sched.Data.{active, Slot, SchedulerData}
use gpu_virtmem.Sched.Cfs.{cfs_rounds}
use gpu_virtmem.Sched.Cfs.RoundRobin.{turns, cfs_rounds_lem}

abbrev slot_with : ℕ → Bool → Slot
slot_with pid valid = record {
  process = pid;
  share_unit = 20;
  signal_num = 35;
  state = active;
  app_type = 0;
  allocated_time = record { tv_sec = 0; tv_usec = 0 };
  execution_time = record { tv_sec = 0; tv_usec = 0 };
  penalty_epochs = pos 0;
  gpu_binding = 0;
  priority = pos 0;
  sends_l2_feedback = false;
  valid = valid;
}

abbrev table : SchedulerData
table = record {
  slots = slot_with 7 true ∷ slot_with 0 false ∷ slot_with 8 true ∷ slot_with 9 false ∷ [];
  count = 3;
}

cfs_rounds_lem_example : cfs_rounds 3 table 0 ≡ some (turns (take 3 table.slots), 0)
cfs_rounds_lem_example = cfs_rounds_lem table (ground arith) (omega arith)
