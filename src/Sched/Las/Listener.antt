-- ===== src/Sched/Las/Listener.antt =====
-- l2scheduler/las_scheduler.c: what a round of the listener does to the table.
use gpu_virtmem.Prelude.{
  ℕ, ◌+◌, ◌%◌, ◌≤◌, ◌≡◌, ◌≢◌, refl, sym, subst, ◌∙◌, Bool, true, false, List, [], ◌∷◌, some, length,
  set, get_elem?-some, pos, arith, Bool-cases, inl, inr,
}
use gpu_virtmem.Sched.Data.{
  Timeval, Slot, SchedulerData, Request, Action, add_q, rem_q, notify_sched, get_signum,
  get_priority, get_l2_data, other, already_added, occurrences, IsWellFormed, max_controller_count,
}
use gpu_virtmem.Sched.Fair.Listener.{set-IsWellFormed}
use gpu_virtmem.Sched.Las.{
  LasReply, las_register_process, las_rem_from, las_notify_from, las_listen,
}

occurrences-las_rem_from :
    (pid gpu p : ℕ) (slots : List Slot)
    → p ≢ 0
    → occurrences p (las_rem_from pid gpu slots) ≤ occurrences p slots
unfolding las_rem_from occurrences
occurrences-las_rem_from pid gpu p [] h = omega arith
occurrences-las_rem_from pid gpu p (s ∷ slots) h =
    ground (arith, occurrences-las_rem_from pid gpu p slots h)

length-las_rem_from :
    (pid gpu : ℕ) (slots : List Slot) → length (las_rem_from pid gpu slots) ≡ length slots
unfolding las_rem_from
length-las_rem_from pid gpu [] = refl
length-las_rem_from pid gpu (s ∷ slots) = ground (arith, length-las_rem_from pid gpu slots)

occurrences-las_notify_from :
    (pid gpu p : ℕ) (time : Timeval) (slots : List Slot)
    → occurrences p (las_notify_from pid gpu time slots) ≡ occurrences p slots
unfolding las_notify_from occurrences
occurrences-las_notify_from pid gpu p time [] = refl
occurrences-las_notify_from pid gpu p time (s ∷ slots) =
    ground (arith, occurrences-las_notify_from pid gpu p time slots)

length-las_notify_from :
    (pid gpu : ℕ) (time : Timeval) (slots : List Slot)
    → length (las_notify_from pid gpu time slots) ≡ length slots
unfolding las_notify_from
length-las_notify_from pid gpu time [] = refl
length-las_notify_from pid gpu time (s ∷ slots) =
    ground (arith, length-las_notify_from pid gpu time slots)

las_register-IsWellFormed :
    (pid gpuid app_type : ℕ) (to_mark : Bool) (d : SchedulerData)
    → already_added pid d.slots ≡ false
    → IsWellFormed d
    → IsWellFormed (las_register_process pid gpuid app_type to_mark d).0
unfolding las_register_process
las_register-IsWellFormed pid gpuid app_type to_mark d fresh w =
    let (s, e) = get_elem?-some d.slots d.count (ground (arith, w.in_range, w.full)) in
    let new = record s {
      process = pid;
      valid = true;
      gpu_binding = gpuid;
      priority = pos 0;
      sends_l2_feedback = to_mark;
    } in
    let eq : (las_register_process pid gpuid app_type to_mark d).0
        ≡ record { slots = set d.slots d.count new; count = (d.count + 1) % max_controller_count } =
      ground (arith, e) in
    subst IsWellFormed (sym eq) (set-IsWellFormed d s new e fresh w)

las_rem-IsWellFormed :
    (pid gpu : ℕ) (d : SchedulerData)
    → IsWellFormed d
    → IsWellFormed (record d { slots = las_rem_from pid gpu d.slots })
las_rem-IsWellFormed pid gpu d w = record {
  full = length-las_rem_from pid gpu d.slots ∙ w.full;
  in_range = w.in_range;
  once = λ p h. omega (arith, occurrences-las_rem_from pid gpu p d.slots h, w.once p h);
}

las_notify-IsWellFormed :
    (pid gpu : ℕ) (time : Timeval) (d : SchedulerData)
    → IsWellFormed d
    → IsWellFormed (record d { slots = las_notify_from pid gpu time d.slots })
las_notify-IsWellFormed pid gpu time d w = record {
  full = length-las_notify_from pid gpu time d.slots ∙ w.full;
  in_range = w.in_range;
  once = λ p h. omega (arith, occurrences-las_notify_from pid gpu p time d.slots, w.once p h);
}

las_listen_by :
    (a : Action) (gpu : ℕ) (pcd : Request) (d : SchedulerData) {d' : SchedulerData}
    {reply : LasReply}
    → a ≡ pcd.action
    → IsWellFormed d
    → las_listen true gpu pcd d ≡ some (d', reply)
    → IsWellFormed d'
unfolding las_listen
las_listen_by add_q gpu pcd d f w e = elim (Bool-cases (already_added pcd.pid d.slots)) [
  | inl g ↦ subst IsWellFormed {x = d} (ground arith) w
  | inr g ↦
      subst IsWellFormed {x = (las_register_process pcd.pid pcd.gpuid pcd.app_type false d).0}
        (ground arith) (las_register-IsWellFormed pcd.pid pcd.gpuid pcd.app_type false d g w)
]
las_listen_by rem_q gpu pcd d f w e =
    subst IsWellFormed {x = record d { slots = las_rem_from pcd.pid gpu d.slots }} (ground arith)
      (las_rem-IsWellFormed pcd.pid gpu d w)
las_listen_by notify_sched gpu pcd d f w e =
    subst IsWellFormed
      {x = record d { slots = las_notify_from pcd.pid gpu pcd.execution_time d.slots }}
      (ground arith) (las_notify-IsWellFormed pcd.pid gpu pcd.execution_time d w)
las_listen_by get_signum gpu pcd d f w e = subst IsWellFormed {x = d} (ground arith) w
las_listen_by get_priority gpu pcd d f w e = subst IsWellFormed {x = d} (ground arith) w
las_listen_by get_l2_data gpu pcd d f w e = subst IsWellFormed {x = d} (ground arith) w
las_listen_by other gpu pcd d f w e = subst IsWellFormed {x = d} (ground arith) w

-- Whatever request the LAS listener of a GPU reads, a well-formed table stays well formed, as long as
-- no read leaves the arrays.
pub las_listen-IsWellFormed :
    (got : Bool) (gpu : ℕ) (pcd : Request) (d : SchedulerData) {d' : SchedulerData}
    {reply : LasReply}
    → IsWellFormed d
    → las_listen got gpu pcd d ≡ some (d', reply)
    → IsWellFormed d'
unfolding las_listen
las_listen-IsWellFormed true gpu pcd d w e = las_listen_by pcd.action gpu pcd d refl w e
las_listen-IsWellFormed false gpu pcd d w e = subst IsWellFormed {x = d} (ground arith) w
