-- ===== src/Sched/Las/Tests.antt =====
-- The priorities of three processes, of which two are on the GPU.
use gpu_virtmem.Prelude.{false, ℕ, ◌≡◌, refl, true, false, [], ◌∷◌, some, pos, get_elem?, arith}
use gpu_virtmem.Sched.Sample.{zero_time, empty, empty-IsWellFormed}
use gpu_virtmem.Sched.Las.Listener.{las_listen-IsWellFormed}
use gpu_virtmem.Sched.Data.{Request, add_q, already_added, IsWellFormed, active, Slot}
use gpu_virtmem.Sched.Las.{
  las_listen, las_register_process, index_of, on_las_gpu, las_control, priority_high,
}
use gpu_virtmem.Sched.Las.Least.{IsLeast, las_control_lem}

abbrev after_seconds : ℕ → ℕ → Slot
after_seconds gpu n = record {
  process = 7;
  share_unit = 0;
  signal_num = 0;
  state = active;
  app_type = 0;
  allocated_time = record { tv_sec = 0; tv_usec = 0 };
  execution_time = record { tv_sec = n; tv_usec = 5 };
  penalty_epochs = pos 0;
  gpu_binding = gpu;
  priority = pos 0;
  sends_l2_feedback = false;
  valid = true;
}

las_control_lem_example :
    let after = las_control 0 (record {
      slots = after_seconds 0 3 ∷ after_seconds 1 1 ∷ after_seconds 0 2 ∷ [];
      count = 3;
    }) in
    (u : Slot) × (get_elem? after.slots 2 ≡ some u)
    × (IsLeast 0
          (after_seconds 0 3)
          (after_seconds 0 3 ∷ after_seconds 1 1 ∷ after_seconds 0 2 ∷ [])
          (record { tv_sec = 2; tv_usec = 5 })
        → u.priority ≡ priority_high)
    × (u.priority ≡ priority_high
        → IsLeast 0
            (after_seconds 0 3)
            (after_seconds 0 3 ∷ after_seconds 1 1 ∷ after_seconds 0 2 ∷ [])
            (record { tv_sec = 2; tv_usec = 5 }))
unfolding on_las_gpu
las_control_lem_example =
    las_control_lem 0 3 (after_seconds 0 3) (after_seconds 1 1 ∷ after_seconds 0 2 ∷ []) 2
      (after_seconds 0 2) (ground arith) refl refl

abbrev asked : Request
asked = record {
  pid = 9;
  share_unit = 0;
  action = add_q;
  app_type = 0;
  gpuid = 0;
  execution_time = zero_time;
}

las_listen-IsWellFormed_example : IsWellFormed (las_register_process 9 0 0 false empty).0
unfolding las_listen already_added
las_listen-IsWellFormed_example =
    las_listen-IsWellFormed true 0 asked empty {d' = (las_register_process 9 0 0 false empty).0}
      {reply = index_of 9 499} empty-IsWellFormed refl
