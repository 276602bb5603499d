-- ===== src/Sched/Fair/Tests.antt =====
-- The properties of the fair share scheduler at a table with two processes.
use gpu_virtmem.Prelude.{
  ◌≡◌, refl, true, false, List, false, [], ◌∷◌, some, pos, negsuc, get_elem?, ◌%◌, ◌^◌,
}
use gpu_virtmem.Sched.Data.{active, Slot, Request, add_q, IsWellFormed}
use gpu_virtmem.Sched.Sample.{zero_time, slot_of, empty, empty-IsWellFormed}
use gpu_virtmem.Sched.Fair.{
  FloatOps, fs_listen, fs_register_process, fs_calculate_timeslice, ControlThread, Locals, running,
  fs_control,
}
use gpu_virtmem.Sched.Fair.Control.{fs_register_process-stops}
use gpu_virtmem.Sched.Fair.Listener.{fs_listen-IsWellFormed}
use gpu_virtmem.Sched.Fair.Slices.{sum_shares, sliced_slot, fs_calculate_timeslice_lem}

abbrev two : List Slot
two = slot_of 7 active (pos 0) ∷ slot_of 8 active (negsuc 0) ∷ []

abbrev asked : Request
asked = record {
  pid = 9;
  share_unit = 50;
  action = add_q;
  app_type = 0;
  gpuid = 0;
  execution_time = zero_time;
}

-- An epoch of 100 ms cut into `n` parts.
abbrev by_shares : FloatOps
by_shares = record { usec_of = λ n. 1000 }

fs_listen-IsWellFormed_example : IsWellFormed (fs_listen true 0 34 0 asked empty).0
fs_listen-IsWellFormed_example = fs_listen-IsWellFormed true 0 34 0 asked empty empty-IsWellFormed

abbrev locals : Locals
locals = record { share_unit = 1; index = 0; told_paging = false }

abbrev last : ControlThread
last = record { sched = empty; thid = 0; locked = false }

fs_register_process-stops_example :
    let full = record last { sched = fs_register_process 9 34 0 0 50 last.sched } in
    fs_control by_shares 0 locals full ≡ running full
fs_register_process-stops_example =
    fs_register_process-stops by_shares 0 locals last 9 34 0 0 50 empty-IsWellFormed refl

fs_calculate_timeslice_lem_example :
    get_elem? (fs_calculate_timeslice by_shares 0 two) 1
    ≡ some (sliced_slot by_shares 0 (sum_shares 0 two % 2 ^ 32) (slot_of 8 active (negsuc 0)))
fs_calculate_timeslice_lem_example =
    fs_calculate_timeslice_lem by_shares 0 two 1 (slot_of 8 active (negsuc 0)) refl
