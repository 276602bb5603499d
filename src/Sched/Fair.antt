-- ===== src/Sched/Fair.antt =====
-- l2scheduler/fair_share_sched.c: the fair share scheduler, its listener, its time slices and its
-- control loop.
pub mod Listener
pub mod Slices
pub mod Control
mod Tests
use gpu_virtmem.Prelude.{
  as_size_t, to_int, ℕ, zero, suc, ◌+◌, ◌-◌, ◌*◌, ◌/◌, ◌%◌, ◌^◌, Bool, true, false, not, ◌&&◌, ◌||◌,
  List, [], ◌∷◌, ◌++◌, ℤ, pos, negsuc, ◌-ℤ◌, ltb, ltb_ℤ, ◌==◌, if◌then◌else◌, set, get_elem?,
  Option, none, some, map, ◌>>=◌,
}
use gpu_virtmem.Sched.Data.{
  Timeval, ProcState, active, inactive, paging, waiting, Slot, SchedulerData, Request, Action,
  add_q, rem_q, invalid_process, is_active, already_added, max_controller_count,
}

-- `fs_register_process`: the process goes to the slot of the counter, which steps on modulo 500. An
-- access behind the arrays would change nothing; the counter never reaches there. The parameter
-- `share_unit` is an `int`.
pub fs_register_process : ℕ → ℕ → ℕ → ℕ → ℕ → SchedulerData → SchedulerData
fs_register_process pid signum app_type gpuid share d = elim (get_elem? d.slots d.count) [
  | none ↦ d
  | some s ↦ record {
    slots = set d.slots d.count (record s {
      process = pid;
      share_unit = as_size_t (share % 2 ^ 32);
      signal_num = signum;
      state = active;
      app_type = app_type;
      penalty_epochs = pos 0;
      gpu_binding = gpuid;
    });
    count = (d.count + 1) % max_controller_count;
  }
]

-- What the listener does besides: on the pipes of a client, and by signals.
pub data ListenEvent : Type 0 where
  send_signum : ℕ → ℕ → ListenEvent
  read_reply : ℕ → ListenEvent
  sleep_process : ℕ → ListenEvent
  unlink_fifos : ℕ → ListenEvent
  illegal : ListenEvent

-- The loop of `REM_Q`: the first slot of the process on the listener's GPU is given up.
unfoldable pub rem_from : ℕ → ℕ → List Slot → List Slot
rem_from pid gpu [] = []
rem_from pid gpu (s ∷ slots) =
    let rest = s ∷ rem_from pid gpu slots in
    if s.process == pid && gpu == s.gpu_binding
    then record s { process = invalid_process; state = inactive } ∷ slots
    else rest

abbrev pub is_add : Action → Bool
is_add add_q = true
is_add _ = false

abbrev pub is_rem : Action → Bool
is_rem rem_q = true
is_rem _ = false

-- One round of `fs_listen_thread`, for the GPU `gpu` of the thread. `got` says whether the read gave
-- a request, `sigsched` is the number `SIGSCHED`, and `err` is the client's reply.
pub fs_listen : Bool → ℕ → ℕ → ℕ → Request → SchedulerData → SchedulerData × List ListenEvent
unfolding fs_register_process rem_from
fs_listen got gpu sigsched err pcd d =
    let added = fs_register_process pcd.pid sigsched pcd.app_type pcd.gpuid pcd.share_unit d in
    let asked : List ListenEvent = send_signum pcd.pid sigsched ∷ read_reply pcd.pid ∷ [] in
    if got && is_add pcd.action && not (already_added pcd.pid d.slots)
    then if err == 0 then (added, asked ++ (sleep_process pcd.pid ∷ [])) else (d, asked)
    else if got && is_rem pcd.action
    then (record d { slots = rem_from pcd.pid gpu d.slots }, unlink_fifos pcd.pid ∷ [])
    else (d, illegal ∷ [])

-- `(tv_sec * 1000) + ((tv_usec + 500) / 1000)`, as an `unsigned long`.
pub to_ms : Timeval → ℕ
to_ms t = (t.tv_sec * 1000 + (t.tv_usec + 500) / 1000) % 2 ^ 64

abbrev is_minus_one : ℤ → Bool
is_minus_one (negsuc zero) = true
is_minus_one _ = false

abbrev is_zero : ℤ → Bool
is_zero (pos zero) = true
is_zero _ = false

abbrev is_waiting : ProcState → Bool
is_waiting waiting = true
is_waiting _ = false

abbrev pub on_gpu : ℕ → Slot → Bool
on_gpu gpu s = s.gpu_binding == gpu && is_active s.state

-- The first three `if`s of the first loop of `fs_calculate_timeslice`, in order, on one slot.
charge : ℕ → Slot → Slot
unfolding to_ms
charge gpu s =
    if on_gpu gpu s && is_minus_one s.penalty_epochs && not (to_ms s.allocated_time == 0)
    then record s { penalty_epochs = to_int (to_ms s.execution_time / to_ms s.allocated_time) }
    else s

wake : ℕ → Slot → Slot
wake gpu s =
    if s.gpu_binding == gpu && is_waiting s.state && is_minus_one s.penalty_epochs
    then record s { state = active }
    else s

rearm : ℕ → Slot → Slot
rearm gpu s =
    if on_gpu gpu s && is_zero s.penalty_epochs then record s { penalty_epochs = negsuc 0 } else s

pub settle : ℕ → Slot → Slot
unfolding charge wake rearm
settle gpu s = rearm gpu (wake gpu (charge gpu s))

-- `active_count` and `total_shares`, the latter as the bit pattern of an `int`.
pub tally : ℕ → List Slot → ℕ × ℕ
tally gpu [] = (0, 0)
tally gpu (s ∷ slots) =
    let (n, shares) = tally gpu slots in
    if on_gpu gpu s then (suc n, (shares + s.share_unit) % 2 ^ 32) else (n, shares)

-- The second loop: `usec` is `base_share * 1000`.
pub allot : ℕ → ℕ → Slot → Slot
allot gpu usec s =
    if on_gpu gpu s then record s { allocated_time = record { tv_sec = 0; tv_usec = usec } } else s

-- The arithmetic of `float`: `usec_of n` is `(float) EPOCH_LENGTH / (float) n * 1000`, as a number of
-- microseconds.
pub record FloatOps : Type 0 where
  pub usec_of : ℤ → ℕ

-- `fs_calculate_timeslice`, between its two calls on the mutex.
pub fs_calculate_timeslice : FloatOps → ℕ → List Slot → List Slot
fs_calculate_timeslice fl gpu slots =
    let settled = map (settle gpu) slots in
    let (n, shares) = tally gpu settled in
    if n == 0 || shares == 0 then settled else map (allot gpu (fl.usec_of (to_int shares))) settled

-- A control thread: the slot that it looks at, and whether the mutex `sched_index_mut` is held.
pub record ControlThread : Type 0 where
  pub sched : SchedulerData
  pub thid : ℕ
  pub locked : Bool

-- What the memory of the thread's local variables `share_unit` and `i` held, as they are never set,
-- and whether the signal that ends a slice was the one that announces paging.
pub record Locals : Type 0 where
  pub share_unit : ℕ
  pub index : ℕ
  pub told_paging : Bool

-- A round of the loop goes on to the next, or waits for a mutex for ever: the table that it leaves
-- then, and the signals that it has sent; or it has written outside the arrays at an unset index.
pub data Round : Type 0 where
  running : ControlThread → Round
  blocked : SchedulerData → List (ℕ × Timeval) → Round
  fault : Round

-- `thid = (thid + 1) % MAX_CONTROLLER_COUNT`, and new time slices when it has come round.
advance : FloatOps → ℕ → ControlThread → Round
unfolding fs_calculate_timeslice
advance fl gpu k =
    let next = (k.thid + 1) % max_controller_count in
    let sliced = record k.sched { slots = fs_calculate_timeslice fl gpu k.sched.slots } in
    if ltb next k.thid
    then if k.locked then blocked k.sched [] else running (record k { sched = sliced; thid = next })
    else running (record k { thid = next })

-- `Scheduler_Data.state[i] = PROC_PAGING`; `none` is a write outside the array.
pub mark_paging : ℕ → SchedulerData → Option SchedulerData
mark_paging i d = do
  s ← get_elem? d.slots i
  some (record d { slots = set d.slots i (record s { state = paging }) })

-- From the first lock of the mutex on. The process is signalled with its time slice, and the second
-- call is `pthread_mutex_lock` again, by the thread that holds the mutex.
dispatch : Locals → Slot → ControlThread → Round
unfolding mark_paging
dispatch v s k =
    let marked = if v.told_paging then mark_paging v.index k.sched else some k.sched in
    let sent : List (ℕ × Timeval) = (s.process, s.allocated_time) ∷ [] in
    if k.locked
    then blocked k.sched []
    else if is_active s.state
    then elim marked [ none ↦ fault | some d ↦ blocked d sent ]
    else blocked k.sched []

-- One round of the loop of `fs_control_thread` on the GPU `gpu`.
pub fs_control : FloatOps → ℕ → Locals → ControlThread → Round
unfolding advance dispatch
fs_control fl gpu v k =
    if k.sched.count == 0 then running k else elim (get_elem? k.sched.slots k.thid) [
      | none ↦ blocked k.sched []
      | some s ↦
          let paid = record s { penalty_epochs = s.penalty_epochs -ℤ pos 1 } in
          let charged = record k.sched { slots = set k.sched.slots k.thid paid } in
          if not (is_active s.state) || not (s.gpu_binding == gpu)
          then advance fl gpu k
          else if ltb_ℤ (pos 0) s.penalty_epochs
          then advance fl gpu (record k { sched = charged })
          else if v.share_unit == 0
          then advance fl gpu k
          else dispatch v s k
    ]
