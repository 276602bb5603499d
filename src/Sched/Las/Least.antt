-- ===== src/Sched/Las/Least.antt =====
-- l2scheduler/las_scheduler.c: which processes get the high priority.
use gpu_virtmem.Prelude.{
  ℕ, zero, suc, ◌≡◌, ◌≢◌, ◌⊎◌, inl, inr, refl, ap, ◌∙◌, true, false, List, [], ◌∷◌, map, get_elem?,
  some, arith, Bool-cases, ◌&&◌,
}
use gpu_virtmem.Sched.Data.{Timeval, Slot}
use gpu_virtmem.Sched.Las.{
  timer_lt, timer_ne, on_las_gpu, priority_high, least_from, prioritise, las_control,
}

timer_trans : (a b c : Timeval) → timer_lt b a ≡ false → timer_lt c b ≡ false → timer_lt c a ≡ false
unfolding timer_lt
timer_trans a b c f g = ground arith

timer_irrefl : (a : Timeval) → timer_lt a a ≡ false
unfolding timer_lt
timer_irrefl a = ground arith

timer_asym : (a b : Timeval) → timer_lt a b ≡ true → timer_lt b a ≡ false
unfolding timer_lt
timer_asym a b f = ground arith

least_from-start :
    (gpu : ℕ) (slots : List Slot) (m : Timeval) → timer_lt m (least_from gpu slots m) ≡ false
unfolding least_from
least_from-start gpu [] m = timer_irrefl m
least_from-start gpu (s ∷ slots) m =
    let t = s.execution_time in
    let after_s = least_from-start gpu slots t in
    ground (
      arith,
      after_s,
      least_from-start gpu slots m,
      timer_asym t m,
      timer_trans (least_from gpu slots t) t m,
    )

least_from-least :
    (gpu : ℕ) (slots : List Slot) (m : Timeval) (i : ℕ) (s : Slot)
    → get_elem? slots i ≡ some s
    → on_las_gpu gpu s ≡ true
    → timer_lt s.execution_time (least_from gpu slots m) ≡ false
unfolding least_from
least_from-least gpu [] m i s e f = absurd (ground arith)
least_from-least gpu (t ∷ slots) m zero s e f =
    let u = s.execution_time in
    ground (
      arith,
      e,
      f,
      least_from-start gpu slots u,
      least_from-start gpu slots m,
      timer_trans (least_from gpu slots m) m u,
    )
least_from-least gpu (t ∷ slots) m (suc i) s e f = ground (
  arith,
  least_from-least gpu slots m i s e f,
  least_from-least gpu slots t.execution_time i s e f,
)

-- The least time is the one that the search began with, or that of a slot of the GPU.
least_from-attained :
    (gpu : ℕ) (slots : List Slot) (m : Timeval)
    → (least_from gpu slots m ≡ m)
      ⊎ ((i : ℕ) × (s : Slot) × (get_elem? slots i ≡ some s)
          × (on_las_gpu gpu s ≡ true)
          × (least_from gpu slots m ≡ s.execution_time))
unfolding least_from
least_from-attained gpu [] m = inl refl
least_from-attained gpu (t ∷ slots) m =
    let u = t.execution_time in
    elim (Bool-cases (on_las_gpu gpu t && timer_lt u m)) [
      | inl f ↦ elim (least_from-attained gpu slots u) [
        | inl g ↦ inr (zero, t, refl, ground arith, ground arith)
        | inr (i, s, e, on, g) ↦ inr (suc i, s, e, on, ground arith)
      ]
      | inr f ↦ elim (least_from-attained gpu slots m) [
        | inl g ↦ inl (ground arith)
        | inr (i, s, e, on, g) ↦ inr (suc i, s, e, on, ground arith)
      ]
    ]

-- No process on the GPU, and not the one of slot 0 either, has attained less than `time`.
pub record IsLeast (gpu : ℕ) (first : Slot) (slots : List Slot) (time : Timeval) : Type 0 where
  pub first_slot : timer_lt first.execution_time time ≡ false
  pub others :
      (i : ℕ) (s : Slot)
      → get_elem? slots i ≡ some s
      → on_las_gpu gpu s ≡ true
      → timer_lt s.execution_time time ≡ false

timer_eq : (a b : Timeval) → timer_lt a b ≡ false → timer_lt b a ≡ false → timer_ne a b ≡ false
unfolding timer_lt timer_ne
timer_eq a b f g = ground arith

timer_lt-eq : (a b c : Timeval) → timer_ne a b ≡ false → timer_lt c a ≡ timer_lt c b
unfolding timer_lt timer_ne
timer_lt-eq a b c f = ground arith

IsLeast-high :
    (gpu : ℕ) (first : Slot) (slots : List Slot) (j : ℕ) (s : Slot)
    → get_elem? slots j ≡ some s
    → on_las_gpu gpu s ≡ true
    → IsLeast gpu first slots s.execution_time
    → (prioritise gpu (least_from gpu slots first.execution_time) s).priority ≡ priority_high
unfolding prioritise
IsLeast-high gpu first slots j s q on l =
    let m = least_from gpu slots first.execution_time in
    let not_less : timer_lt m s.execution_time ≡ false =
      elim (least_from-attained gpu slots first.execution_time) [
        | inl g ↦ ap (λ t. timer_lt t s.execution_time) g ∙ l.first_slot
        | inr (i, t, e, f, g) ↦ ap (λ t. timer_lt t s.execution_time) g ∙ l.others i t e f
      ] in
    let eq =
      timer_eq s.execution_time m (least_from-least gpu slots first.execution_time j s q on)
        not_less in
    ground (arith, on, eq)

high-IsLeast :
    (gpu : ℕ) (first : Slot) (slots : List Slot) (s : Slot)
    → on_las_gpu gpu s ≡ true
    → (prioritise gpu (least_from gpu slots first.execution_time) s).priority ≡ priority_high
    → IsLeast gpu first slots s.execution_time
unfolding prioritise
high-IsLeast gpu first slots s on h =
    let m = least_from gpu slots first.execution_time in
    let same : timer_ne s.execution_time m ≡ false = ground (arith, on, h) in
    record {
      first_slot =
          timer_lt-eq s.execution_time m first.execution_time same
          ∙ least_from-start gpu slots first.execution_time;
      others = λ i t e f.
          timer_lt-eq s.execution_time m t.execution_time same
          ∙ least_from-least gpu slots first.execution_time i t e f;
    }

get_elem?-map :
    (f : Slot → Slot) (slots : List Slot) (i : ℕ) (s : Slot)
    → get_elem? slots i ≡ some s
    → get_elem? (map f slots) i ≡ some (f s)
get_elem?-map f [] i s e = absurd (ground arith)
get_elem?-map f (t ∷ slots) zero s e = ground arith
get_elem?-map f (t ∷ slots) (suc i) s e = get_elem?-map f slots i s e

-- After a round of the control thread of a GPU, with the counter not at 0, a slot of that GPU has
-- the high priority exactly if no slot of the GPU has attained less service than it, and slot 0
-- has not either, even where slot 0 is of another GPU or not in use.
pub las_control_lem :
    (gpu count : ℕ) (first : Slot) (rest : List Slot) (i : ℕ) (s : Slot)
    → count ≢ 0
    → get_elem? (first ∷ rest) i ≡ some s
    → on_las_gpu gpu s ≡ true
    → let after = las_control gpu (record { slots = first ∷ rest; count = count }) in
      (u : Slot) × (get_elem? after.slots i ≡ some u)
      × (IsLeast gpu first (first ∷ rest) s.execution_time → u.priority ≡ priority_high)
      × (u.priority ≡ priority_high → IsLeast gpu first (first ∷ rest) s.execution_time)
unfolding las_control
las_control_lem gpu count first rest i s c e on =
    let slots = first ∷ rest in
    let f : Slot → Slot = prioritise gpu (least_from gpu slots first.execution_time) in
    (
      f s,
      ground (arith, get_elem?-map f slots i s e, c),
      IsLeast-high gpu first slots i s e on,
      high-IsLeast gpu first slots s on,
    )
