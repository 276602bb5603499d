-- ===== src/Sched/Fair/Slices.antt =====
-- l2scheduler/fair_share_sched.c: the time slices and the penalties of `fs_calculate_timeslice`.
use gpu_virtmem.Prelude.{
  to_int, ℕ, zero, suc, ◌+◌, ◌/◌, ◌%◌, ◌^◌, ◌≡◌, ◌≢◌, refl, ap, ◌∙◌, Bool, true, ◌&&◌, not, List,
  [], ◌∷◌, map, ◌==◌, ℤ, pos, negsuc, get_elem?, some, Bool-cases, ℤ-cases, arith, inl, inr,
  if◌then◌else◌, subst, ◌||◌, sym,
}
use gpu_virtmem.Sched.Data.{ProcState, active, inactive, paging, waiting, Slot, is_active}
use gpu_virtmem.Sched.Fair.{
  FloatOps, to_ms, charge, wake, rearm, settle, tally, allot, on_gpu, fs_calculate_timeslice,
}

abbrev nonzero_penalty : ℤ → ℤ
nonzero_penalty (pos zero) = negsuc 0
nonzero_penalty z = z

-- The penalty of a process of the GPU after the first loop, from its state and penalty and the
-- milliseconds that it was given and has used: an active process whose slice has run, which -1 says,
-- pays as many epochs as whole slices it has used, and one that has paid is back at -1.
pub penalty_after : ProcState → ℤ → ℕ → ℕ → ℤ
penalty_after active (negsuc zero) zero actual = negsuc 0
penalty_after active (negsuc zero) (suc devoted) actual =
    nonzero_penalty (to_int (actual / suc devoted))
penalty_after active (negsuc (suc k)) devoted actual = negsuc (suc k)
penalty_after active (pos zero) devoted actual = negsuc 0
penalty_after active (pos (suc k)) devoted actual = pos (suc k)
penalty_after inactive p devoted actual = p
penalty_after paging p devoted actual = p
penalty_after waiting p devoted actual = p

-- A waiting process without penalty becomes active.
pub state_after : ProcState → ℤ → ProcState
state_after active p = active
state_after inactive p = inactive
state_after paging p = paging
state_after waiting (negsuc zero) = active
state_after waiting (negsuc (suc k)) = waiting
state_after waiting (pos k) = waiting

-- What the first loop makes of a slot.
pub settled_slot : ℕ → Slot → Slot
settled_slot gpu s =
    if s.gpu_binding == gpu
    then record s {
      state = state_after s.state s.penalty_epochs;
      penalty_epochs =
          penalty_after s.state s.penalty_epochs (to_ms s.allocated_time) (to_ms s.execution_time);
    }
    else s

-- The slot takes part in the next epoch of the GPU.
pub takes_part : ℕ → Slot → Bool
takes_part gpu s = s.gpu_binding == gpu && is_active (state_after s.state s.penalty_epochs)

-- The sum of the shares of the slots that take part.
pub sum_shares : ℕ → List Slot → ℕ
sum_shares gpu [] = 0
sum_shares gpu (s ∷ slots) = (if takes_part gpu s then s.share_unit else 0) + sum_shares gpu slots

-- What becomes of a slot, for `total` the sum of the shares as an `int`.
pub sliced_slot : FloatOps → ℕ → ℕ → Slot → Slot
sliced_slot fl gpu total s =
    let u = settled_slot gpu s in
    if takes_part gpu s && not (total == 0)
    then record u { allocated_time = record { tv_sec = 0; tv_usec = fl.usec_of (to_int total) } }
    else u

settled_by :
    (gpu : ℕ) (s : Slot) (devoted : ℕ) (st : ProcState) (p : ℤ)
    → to_ms s.allocated_time ≡ devoted
    → settle gpu (record s { state = st; penalty_epochs = p })
      ≡ settled_slot gpu (record s { state = st; penalty_epochs = p })
unfolding settle charge wake rearm settled_slot penalty_after state_after
settled_by gpu s zero active (negsuc zero) e = ground (arith, e)
settled_by gpu s (suc devoted) active (negsuc zero) e =
    elim (ℤ-cases (to_int (to_ms s.execution_time / suc devoted))) [
      | inl (k, z) ↦ ground (arith, e, z)
      | inr (inl z) ↦ ground (arith, e, z)
      | inr (inr (k, z)) ↦ ground (arith, e, z)
    ]
settled_by gpu s devoted active (negsuc (suc k)) e = ground arith
settled_by gpu s devoted active (pos zero) e = ground arith
settled_by gpu s devoted active (pos (suc k)) e = ground arith
settled_by gpu s devoted inactive p e = ground arith
settled_by gpu s devoted paging p e = ground arith
settled_by gpu s devoted waiting (negsuc zero) e = ground arith
settled_by gpu s devoted waiting (negsuc (suc k)) e = ground arith
settled_by gpu s devoted waiting (pos k) e = ground arith

settle_lem : (gpu : ℕ) (s : Slot) → settle gpu s ≡ settled_slot gpu s
settle_lem gpu s = settled_by gpu s (to_ms s.allocated_time) s.state s.penalty_epochs refl

on_gpu-settled_slot : (gpu : ℕ) (s : Slot) → on_gpu gpu (settled_slot gpu s) ≡ takes_part gpu s
unfolding settled_slot takes_part
on_gpu-settled_slot gpu s = ground arith

share_unit-settled_slot : (gpu : ℕ) (s : Slot) → (settled_slot gpu s).share_unit ≡ s.share_unit
unfolding settled_slot
share_unit-settled_slot gpu s = ground arith

-- The code's running sum is the sum of the shares, as an `int`.
tally-sum_shares :
    (gpu : ℕ) (slots : List Slot)
    → (tally gpu (map (settle gpu) slots)).1 ≡ sum_shares gpu slots % 2 ^ 32
unfolding tally sum_shares
tally-sum_shares gpu [] = refl
tally-sum_shares gpu (s ∷ slots) =
    let on : on_gpu gpu (settle gpu s) ≡ takes_part gpu s =
      ap (on_gpu gpu) (settle_lem gpu s) ∙ on_gpu-settled_slot gpu s in
    let share : (settle gpu s).share_unit ≡ s.share_unit =
      ap (λ (t : Slot). t.share_unit) (settle_lem gpu s) ∙ share_unit-settled_slot gpu s in
    elim (Bool-cases (takes_part gpu s)) [
      | inl b ↦ ground (arith, on, share, b, tally-sum_shares gpu slots)
      | inr b ↦ ground (arith, on, share, b, tally-sum_shares gpu slots)
    ]

tally-active :
    (gpu : ℕ) (slots : List Slot) (i : ℕ) (s : Slot)
    → get_elem? slots i ≡ some s
    → on_gpu gpu s ≡ true
    → (tally gpu slots).0 ≢ 0
unfolding tally
tally-active gpu [] i s e h = absurd (ground arith)
tally-active gpu (t ∷ slots) zero s e h = ground arith
tally-active gpu (t ∷ slots) (suc i) s e h = ground (arith, tally-active gpu slots i s)

get_elem?-map :
    (f : Slot → Slot) (slots : List Slot) (i : ℕ) (s : Slot)
    → get_elem? slots i ≡ some s
    → get_elem? (map f slots) i ≡ some (f s)
get_elem?-map f [] i s e = absurd (ground arith)
get_elem?-map f (t ∷ slots) zero s e = ground arith
get_elem?-map f (t ∷ slots) (suc i) s e = get_elem?-map f slots i s e

-- `fs_calculate_timeslice` for a GPU makes of each slot what `sliced_slot` says: a slot of another GPU
-- stays as it is; one of the GPU is woken where it waits at penalty -1, pays as many epochs as slices it
-- has used, or is back at -1; and if it then is active and the sum of the shares of all such slots is
-- not zero, as an `int`, it has the slice of this sum, whatever its own share is.
pub fs_calculate_timeslice_lem :
    (fl : FloatOps) (gpu : ℕ) (slots : List Slot) (i : ℕ) (s : Slot)
    → get_elem? slots i ≡ some s
    → get_elem? (fs_calculate_timeslice fl gpu slots) i
      ≡ some (sliced_slot fl gpu (sum_shares gpu slots % 2 ^ 32) s)
unfolding fs_calculate_timeslice sliced_slot allot
fs_calculate_timeslice_lem fl gpu slots i s e =
    let u = settle gpu s in
    let settled = map (settle gpu) slots in
    let n = (tally gpu settled).0 in
    let shares = (tally gpu settled).1 in
    let eu : get_elem? settled i ≡ some u = get_elem?-map (settle gpu) slots i s e in
    let f : Slot → Slot = allot gpu (fl.usec_of (to_int shares)) in
    let ev : get_elem? (map f settled) i ≡ some (f u) = get_elem?-map f settled i u eu in
    let on : on_gpu gpu u ≡ takes_part gpu s =
      ap (on_gpu gpu) (settle_lem gpu s) ∙ on_gpu-settled_slot gpu s in
    let total : shares ≡ sum_shares gpu slots % 2 ^ 32 = tally-sum_shares gpu slots in
    let few : takes_part gpu s ≡ true → n ≢ 0 = λ h. tally-active gpu settled i u eu (on ∙ h) in
    let t = sliced_slot fl gpu (sum_shares gpu slots % 2 ^ 32) s in
    elim (Bool-cases (n == 0 || shares == 0)) [
      | inl g ↦
          let same : u ≡ t = elim (Bool-cases (takes_part gpu s)) [
            | inl b ↦ ground (arith, g, b, few b, total, settle_lem gpu s)
            | inr b ↦ ground (arith, b, settle_lem gpu s)
          ] in
          subst (λ b. get_elem? (if b then settled else map f settled) i ≡ some t) (sym g)
            (eu ∙ ap some same)
      | inr g ↦
          let same : f u ≡ t = elim (Bool-cases (takes_part gpu s)) [
            | inl b ↦ ground (arith, g, b, on, total, settle_lem gpu s)
            | inr b ↦ ground (arith, b, on, settle_lem gpu s)
          ] in
          subst (λ b. get_elem? (if b then settled else map f settled) i ≡ some t) (sym g)
            (ev ∙ ap some same)
    ]
