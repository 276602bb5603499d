-- ===== src/Sched/Cfs.antt =====
-- l2scheduler/cfs_scheduler.c: the scheduler that gives each process its share in turn.
pub mod RoundRobin
mod Tests
use gpu_virtmem.Prelude.{
  ℕ, zero, suc, ◌+◌, ◌-◌, ◌*◌, ◌%◌, ◌^◌, Bool, true, false, not, ◌&&◌, List, [], ◌∷◌, ◌++◌, Option,
  none, some, ◌>>=◌, ltb, ◌==◌, if◌then◌else◌, get_elem?, set,
}
use gpu_virtmem.Sched.Data.{
  Slot, SchedulerData, Request, Action, add_q, rem_q, invalid_process, already_added,
}
use gpu_virtmem.Sched.Fair.{is_add, is_rem}

-- `register_process`; `none` is a write behind the arrays, as nothing bounds the counter.
pub register_process : ℕ → ℕ → ℕ → SchedulerData → Option SchedulerData
register_process pid signum share d = do
  s ← get_elem? d.slots d.count
  some (record {
    slots =
        set d.slots d.count
          (record s { process = pid; share_unit = share; signal_num = signum; valid = true });
    count = d.count + 1;
  })

-- What the threads send to a process, and their sleep between two signals, in nanoseconds.
pub data CfsEvent : Type 0 where
  send_signum : ℕ → ℕ → CfsEvent
  read_reply : ℕ → CfsEvent
  signal : ℕ → ℕ → CfsEvent
  pause : ℕ → CfsEvent
  unlink_fifos : ℕ → CfsEvent
  illegal : CfsEvent

-- The loop of `REM_Q`.
pub cfs_rem_from : ℕ → List Slot → List Slot
cfs_rem_from pid [] = []
cfs_rem_from pid (s ∷ slots) =
    let rest = s ∷ cfs_rem_from pid slots in
    if pid == s.process then record s { process = invalid_process; valid = false } ∷ slots else rest

-- The state of the listener: the table, and `RT_signal_indx`.
pub record CfsState : Type 0 where
  pub sched : SchedulerData
  pub signal_index : ℕ

-- One round of `listen_thread`; `rtmin` is `SIGRTMIN` and `err` the client's reply. The branch for
-- `REM_Q` does not ask whether anything was read.
pub cfs_listen : Bool → ℕ → ℕ → Request → CfsState → Option (CfsState × List CfsEvent)
unfolding register_process cfs_rem_from
cfs_listen got rtmin err pcd k =
    let signum = rtmin + k.signal_index in
    let asked = record k { signal_index = k.signal_index + 1 } in
    let sent : List CfsEvent = send_signum pcd.pid signum ∷ read_reply pcd.pid ∷ [] in
    let removed = record k.sched { slots = cfs_rem_from pcd.pid k.sched.slots } in
    if got && is_add pcd.action && not (already_added pcd.pid k.sched.slots)
    then if err == 0
      then register_process pcd.pid signum pcd.share_unit k.sched
        >>= (λ d. some (record asked { sched = d }, sent ++ (signal pcd.pid signum ∷ [])))
      else some (asked, sent)
    else if is_rem pcd.action
    then some (record k { sched = removed }, unlink_fifos pcd.pid ∷ [])
    else some (k, illegal ∷ [])

-- The two signals of a process's turn, and the sleep between them.
pub turn : Slot → List CfsEvent
turn s =
    if s.process == invalid_process
    then []
    else signal s.process s.signal_num
      ∷ pause (1000000 * s.share_unit % 2 ^ 64)
      ∷ signal s.process s.signal_num
      ∷ []

-- `thid++; if(thid > polling_thread_count-1) thid = 0;`
pub step_on : ℕ → ℕ → ℕ
step_on count thid = if ltb (count - 1) (thid + 1) then 0 else thid + 1

-- One round of `control_thread` at the slot `thid`, with the slot that comes next.
pub cfs_control : SchedulerData → ℕ → Option (List CfsEvent × ℕ)
unfolding turn step_on
cfs_control d thid =
    if d.count == 0
    then some ([], thid)
    else get_elem? d.slots thid
      >>= (λ s. some (if s.valid then turn s else [], step_on d.count thid))

-- That many rounds.
pub cfs_rounds : ℕ → SchedulerData → ℕ → Option (List CfsEvent × ℕ)
unfolding cfs_control
cfs_rounds zero d thid = some ([], thid)
cfs_rounds (suc n) d thid =
    cfs_control d thid
    >>= (λ (now, next). cfs_rounds n d next >>= (λ (later, last). some (now ++ later, last)))
