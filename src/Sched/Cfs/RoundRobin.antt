-- ===== src/Sched/Cfs/RoundRobin.antt =====
-- l2scheduler/cfs_scheduler.c: the order of the turns.
use gpu_virtmem.Prelude.{
  subst, ℕ, zero, suc, ◌+◌, ◌-◌, ◌≤◌, ◌≡◌, ◌≢◌, ap, ◌∙◌, List, [], ◌∷◌, ◌++◌, some, if◌then◌else◌,
  get_elem?, get_elem?-some, length, take, drop, append-nil, arith,
}
use gpu_virtmem.Sched.Data.{Slot, SchedulerData}
use gpu_virtmem.Sched.Cfs.{CfsEvent, turn, step_on, cfs_control, cfs_rounds}

-- The turns of the valid slots, in their order.
pub turns : List Slot → List CfsEvent
turns [] = []
turns (s ∷ slots) = (if s.valid then turn s else []) ++ turns slots

drop-cons :
    (slots : List Slot) (i : ℕ) (s : Slot)
    → get_elem? slots i ≡ some s
    → drop i slots ≡ s ∷ drop (suc i) slots
drop-cons [] i s e = absurd (ground arith)
drop-cons (t ∷ slots) zero s e = ground arith
drop-cons (t ∷ slots) (suc i) s e = drop-cons slots i s e

drop-next :
    (slots : List Slot) (i : ℕ) (s : Slot)
    → get_elem? slots i ≡ some s
    → drop i slots ≡ s ∷ drop (i + 1) slots
drop-next slots i s e = drop-cons slots i s e ∙ ap (λ j. s ∷ drop j slots) {x = suc i} (omega arith)

cfs_control-some :
    (d : SchedulerData) (thid : ℕ) (s : Slot)
    → d.count ≢ 0
    → get_elem? d.slots thid ≡ some s
    → cfs_control d thid ≡ some (if s.valid then turn s else [], step_on d.count thid)
unfolding cfs_control
cfs_control-some d thid s c e = ground (arith, e)

rounds_from :
    (n : ℕ) (d : SchedulerData) (thid : ℕ)
    → thid + suc n ≡ d.count
    → d.count ≤ length d.slots
    → cfs_rounds (suc n) d thid ≡ some (turns (take (suc n) (drop thid d.slots)), 0)
unfolding cfs_rounds turns step_on
rounds_from zero d thid c h =
    let (s, e) = get_elem?-some d.slots thid (omega arith) in
    ground (
      arith,
      cfs_control-some d thid s (omega arith) e,
      drop-next d.slots thid s e,
      append-nil (if s.valid then turn s else []),
    )
rounds_from (suc n) d thid c h =
    let (s, e) = get_elem?-some d.slots thid (omega arith) in
    ground (
      arith,
      cfs_control-some d thid s (omega arith) e,
      drop-next d.slots thid s e,
      rounds_from n d (thid + 1) (omega arith) h,
    )

-- The scheduler is fair: with a table of at least as many slots as have been registered, and one at
-- least, as many rounds from slot 0 give each valid process of these slots its turn, exactly once and
-- in the order of the slots, and end at slot 0.
pub cfs_rounds_lem :
    (d : SchedulerData)
    → d.count ≢ 0
    → d.count ≤ length d.slots
    → cfs_rounds d.count d 0 ≡ some (turns (take d.count d.slots), 0)
cfs_rounds_lem d c h =
    subst (λ n. cfs_rounds n d 0 ≡ some (turns (take n d.slots), 0)) {x = suc (d.count - 1)}
      (omega arith) (rounds_from (d.count - 1) d 0 (omega arith) h)
