-- ===== src/Sched/Las.antt =====
-- l2scheduler/las_scheduler.c: the scheduler that gives the least attained service its way.
pub mod Least
pub mod Listener
mod Tests
use gpu_virtmem.Prelude.{
  ℕ, zero, suc, ◌+◌, ◌-◌, ◌%◌, Bool, true, false, not, ◌&&◌, ◌||◌, List, [], ◌∷◌, ℤ, pos, negsuc,
  ltb, leb, ◌==◌, if◌then◌else◌, map, set, get_elem?, Option, none, some,
}
use gpu_virtmem.Sched.Data.{
  Timeval, Slot, SchedulerData, Request, Action, add_q, rem_q, notify_sched, get_priority,
  get_l2_data, invalid_process, already_added, max_controller_count,
}

-- `timercmp(a, b, <)` and `timercmp(a, b, !=)`
pub timer_lt : Timeval → Timeval → Bool
timer_lt a b = if a.tv_sec == b.tv_sec then ltb a.tv_usec b.tv_usec else ltb a.tv_sec b.tv_sec

pub timer_ne : Timeval → Timeval → Bool
timer_ne a b = not (a.tv_sec == b.tv_sec) || not (a.tv_usec == b.tv_usec)

-- `timeradd`
pub timer_add : Timeval → Timeval → Timeval
timer_add a b =
    let usec = a.tv_usec + b.tv_usec in
    let sec = a.tv_sec + b.tv_sec in
    if leb 1000000 usec
    then record { tv_sec = sec + 1; tv_usec = usec - 1000000 }
    else record { tv_sec = sec; tv_usec = usec }

-- `las_register_process`: the new table, and the index that the process got.
pub las_register_process : ℕ → ℕ → ℕ → Bool → SchedulerData → SchedulerData × ℕ
las_register_process pid gpuid app_type to_mark d = elim (get_elem? d.slots d.count) [
  | none ↦ (d, d.count)
  | some s ↦ (
    record {
      slots = set d.slots d.count (record s {
        process = pid;
        valid = true;
        gpu_binding = gpuid;
        priority = pos 0;
        sends_l2_feedback = to_mark;
      });
      count = (d.count + 1) % max_controller_count;
    },
    d.count,
  )
]

-- The loop of `REM_Q`.
pub las_rem_from : ℕ → ℕ → List Slot → List Slot
las_rem_from pid gpu [] = []
las_rem_from pid gpu (s ∷ slots) =
    let rest = s ∷ las_rem_from pid gpu slots in
    if pid == s.process && gpu == s.gpu_binding
    then record s { process = invalid_process; valid = false } ∷ slots
    else rest

-- The loop of `NOTIFY_SCHED`: the first slot of the process on the GPU has attained more service.
pub las_notify_from : ℕ → ℕ → Timeval → List Slot → List Slot
las_notify_from pid gpu time [] = []
las_notify_from pid gpu time (s ∷ slots) =
    let rest = s ∷ las_notify_from pid gpu time slots in
    if s.process == pid && gpu == s.gpu_binding
    then record s { execution_time = timer_add s.execution_time time } ∷ slots
    else rest

-- What the listener sends to the client or prints.
pub data LasReply : Type 0 where
  index_of : ℕ → ℕ → LasReply
  priority_of : ℕ → ℤ → LasReply
  l2_data : ℕ → ℕ → Timeval → Bool → LasReply
  unlink_fifos : ℕ → LasReply
  quiet : LasReply
  illegal : LasReply

-- One round of `las_listen_thread` for the GPU `gpu`, built without L2 feedback, so that no process
-- is marked. `none` is a read outside the arrays, which the client's index may ask for.
pub las_listen : Bool → ℕ → Request → SchedulerData → Option (SchedulerData × LasReply)
unfolding las_register_process las_rem_from las_notify_from
las_listen got gpu pcd d =
    let (added, index) = las_register_process pcd.pid pcd.gpuid pcd.app_type false d in
    let removed = record d { slots = las_rem_from pcd.pid gpu d.slots } in
    let notified = record d { slots = las_notify_from pcd.pid gpu pcd.execution_time d.slots } in
    if not got then some (d, illegal) else elim pcd.action [
      | add_q ↦
          if already_added pcd.pid d.slots
          then some (d, illegal)
          else some (added, index_of pcd.pid index)
      | rem_q ↦ some (removed, unlink_fifos pcd.pid)
      | notify_sched ↦ some (notified, quiet)
      | get_priority ↦ elim (get_elem? d.slots pcd.gpuid) [
        | none ↦ none
        | some s ↦ some (d, priority_of pcd.pid s.priority)
      ]
      | get_l2_data ↦ elim (get_elem? d.slots pcd.gpuid) [
        | none ↦ none
        | some s ↦ some (d, l2_data pcd.pid s.app_type s.execution_time s.sends_l2_feedback)
      ]
      | _ ↦ some (d, illegal)
    ]

-- Whether a control thread reads the slot.
unfoldable pub on_las_gpu : ℕ → Slot → Bool
on_las_gpu gpu s = s.gpu_binding == gpu && s.valid

-- The first loop of `las_control_thread`, from the value of `minval` on.
pub least_from : ℕ → List Slot → Timeval → Timeval
unfolding on_las_gpu timer_lt
least_from gpu [] minval = minval
least_from gpu (s ∷ slots) minval =
    if on_las_gpu gpu s && timer_lt s.execution_time minval
    then least_from gpu slots s.execution_time
    else least_from gpu slots minval

abbrev pub priority_normal : ℤ
priority_normal = pos 19

abbrev pub priority_high : ℤ
priority_high = negsuc 19

-- The second loop, on one slot.
pub prioritise : ℕ → Timeval → Slot → Slot
unfolding timer_ne
prioritise gpu minval s =
    if on_las_gpu gpu s
    then if timer_ne s.execution_time minval
      then record s { priority = priority_normal }
      else record s { priority = priority_high }
    else s

-- One round of `las_control_thread`.
pub las_control : ℕ → SchedulerData → SchedulerData
unfolding least_from prioritise
las_control gpu d = elim d.slots [
  | [] ↦ d
  | first ∷ rest ↦ if d.count == 0 then d else record d {
    slots =
        map (prioritise gpu (least_from gpu (first ∷ rest) first.execution_time)) (first ∷ rest);
  }
]
