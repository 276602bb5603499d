-- ===== src/Sched/Data.antt =====
-- l2scheduler/sched_commons.h: the scheduler's table of processes, and the requests that it reads.
use gpu_virtmem.Prelude.{
  ℕ, zero, suc, ◌+◌, ◌≤◌, ◌<◌, ◌≡◌, ◌≢◌, refl, Bool, true, false, List, [], ◌∷◌, ℤ, ◌==◌,
  if◌then◌else◌, length, set, get_elem?, some, arith,
}

abbrev pub max_controller_count : ℕ
max_controller_count = 500

-- `struct timeval`
pub record Timeval : Type 0 where
  pub tv_sec : ℕ
  pub tv_usec : ℕ

-- `PROC_ACTIVE`, `PROC_INACTIVE`, `PROC_PAGING`, `PROC_WAITING`
pub data ProcState : Type 0 where
  active inactive paging waiting : ProcState

-- The entries of the arrays of `scheduler_data` at one index.
pub record Slot : Type 0 where
  pub process : ℕ
  pub share_unit : ℕ
  pub signal_num : ℕ
  pub state : ProcState
  pub app_type : ℕ
  pub allocated_time : Timeval
  pub execution_time : Timeval
  pub penalty_epochs : ℤ
  pub gpu_binding : ℕ
  pub priority : ℤ
  pub sends_l2_feedback : Bool
  pub valid : Bool

-- `scheduler_data`; `count` is `polling_thread_count`.
pub record SchedulerData : Type 0 where
  pub slots : List Slot
  pub count : ℕ

-- The actions of a request; `other` stands for any further value.
pub data Action : Type 0 where
  add_q rem_q notify_sched get_signum get_priority get_l2_data other : Action

-- `process_credit_data`
pub record Request : Type 0 where
  pub pid : ℕ
  pub share_unit : ℕ
  pub action : Action
  pub app_type : ℕ
  pub gpuid : ℕ
  pub execution_time : Timeval

abbrev pub invalid_process : ℕ
invalid_process = 0

abbrev pub is_active : ProcState → Bool
is_active active = true
is_active _ = false

-- `already_added` and `las_already_added`: the loop over the process list.
unfoldable pub already_added : ℕ → List Slot → Bool
already_added pid [] = false
already_added pid (s ∷ slots) = if s.process == pid then true else already_added pid slots

-- How often a process is in the list.
unfoldable pub occurrences : ℕ → List Slot → ℕ
occurrences pid [] = 0
occurrences pid (s ∷ slots) =
    let rest = occurrences pid slots in if s.process == pid then suc rest else rest

abbrev pub hit : ℕ → Slot → ℕ
hit pid s = if s.process == pid then 1 else 0

pub occurrences-set :
    (pid : ℕ) (slots : List Slot) (i : ℕ) (old new : Slot)
    → get_elem? slots i ≡ some old
    → occurrences pid (set slots i new) + hit pid old ≡ occurrences pid slots + hit pid new
unfolding occurrences
occurrences-set pid [] i old new e = absurd (ground arith)
occurrences-set pid (s ∷ slots) zero old new e = ground arith
occurrences-set pid (s ∷ slots) (suc i) old new e =
    ground (arith, occurrences-set pid slots i old new e)

pub already_added-false :
    (pid : ℕ) (slots : List Slot) → already_added pid slots ≡ false → occurrences pid slots ≡ 0
unfolding already_added occurrences
already_added-false pid [] e = refl
already_added-false pid (s ∷ slots) e = ground (arith, already_added-false pid slots)

pub already_added-true :
    (pid : ℕ) (slots : List Slot) → already_added pid slots ≡ true → 0 < occurrences pid slots
unfolding already_added occurrences
already_added-true pid [] e = absurd (ground arith)
already_added-true pid (s ∷ slots) e = ground (arith, already_added-true pid slots)

-- The table has its size, the counter names one of its slots, and no process is in it twice.
pub record IsWellFormed (d : SchedulerData) : Type 0 where
  pub full : length d.slots ≡ max_controller_count
  pub in_range : d.count < max_controller_count
  pub once : (pid : ℕ) → pid ≢ 0 → occurrences pid d.slots ≤ 1
