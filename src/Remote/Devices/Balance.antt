-- ===== src/Remote/Devices/Balance.antt =====
-- remote/remote_api_wrapper.c: the choice of a device spreads the threads evenly.
use gpu_virtmem.Prelude.{
  ℕ, zero, suc, ◌+◌, ◌<◌, ◌≤◌, ◌≡◌, ◌≢◌, refl, sym, ap, ◌∙◌, subst, some, List, get_elem?,
  get_elem?-some, get_elem?-lt, get_elem?-set_self, get_elem?-set_ne, set, length, ℤ, pos, ◌+ℤ◌,
  ltb_ℤ, ◌≤ℤ◌, arith, Bool-cases, inl, inr, ℕ_discrete,
}
use gpu_virtmem.Remote.Devices.{min_from, count_up, get_next_device}

-- No device below `n` has fewer threads than `c`.
pub AtMost : ℤ → ℕ → List ℤ → Type 0
AtMost c n counts = (j : ℕ) (x : ℤ) → j < n → get_elem? counts j ≡ some x → c ≤ℤ x

AtMost-next :
    (c b a : ℤ) (i : ℕ) (counts : List ℤ)
    → c ≤ℤ b
    → c ≤ℤ a
    → get_elem? counts i ≡ some a
    → AtMost b i counts
    → AtMost c (i + 1) counts
unfolding AtMost
AtMost-next c b a i counts h k f l j x p q = elim (ℕ_discrete j i) [
  | yes r ↦ ground (arith, ap (get_elem? counts) r, q, f)
  | no r ↦ ground (arith, l j x (omega arith) q)
]

AtMost-zero : (c : ℤ) (counts : List ℤ) → AtMost c 0 counts
unfolding AtMost
AtMost-zero c counts j x h = absurd (omega arith)

min_from_lem :
    (n i min : ℕ) (counts : List ℤ) (b : ℤ)
    → get_elem? counts min ≡ some b
    → i + n ≤ length counts
    → min < i + n
    → AtMost b i counts
    → (m : ℕ) × (c : ℤ) × (min_from n i min counts ≡ some m)
      × (m < i + n)
      × (get_elem? counts m ≡ some c)
      × AtMost c (i + n) counts
unfolding min_from AtMost
min_from_lem zero i min counts b e h k l = (min, b, refl, k, e, λ j x f q. l j x (omega arith) q)
min_from_lem (suc n) i min counts b e h k l =
    let (a, f) = get_elem?-some counts i (omega arith) in
    elim (Bool-cases (ltb_ℤ a b)) [
      | inl g ↦
          let (m, c, r, s, t, u) =
            min_from_lem n (i + 1) i counts a f (omega arith) (omega arith)
              (AtMost-next a b a i counts (ground arith) (ground arith) f l) in
          (m, c, ground (arith, e, f, r), omega arith, t, λ j x p q. u j x (omega arith) q)
      | inr g ↦
          let (m, c, r, s, t, u) =
            min_from_lem n (i + 1) min counts b e (omega arith) (omega arith)
              (AtMost-next b b a i counts (ground arith) (ground arith) f l) in
          (m, c, ground (arith, e, f, r), omega arith, t, λ j x p q. u j x (omega arith) q)
    ]

-- The numbers of threads on the first `devices` devices differ by one at most.
pub IsBalanced : ℕ → List ℤ → Type 0
IsBalanced devices counts =
    (i j : ℕ) (x y : ℤ)
    → i < devices
    → j < devices
    → get_elem? counts i ≡ some x
    → get_elem? counts j ≡ some y
    → x ≤ℤ y +ℤ pos 1

-- The counts after one more thread on a device that has the fewest.
IsBalanced-set :
    (devices m : ℕ) (c : ℤ) (counts : List ℤ)
    → get_elem? counts m ≡ some c
    → m < devices
    → AtMost c devices counts
    → IsBalanced devices counts
    → IsBalanced devices (set counts m (c +ℤ pos 1))
unfolding AtMost IsBalanced
IsBalanced-set devices m c counts e h l b i j x y p q f g =
    let inside = get_elem?-lt counts m e in
    let new = get_elem?-set_self counts m (c +ℤ pos 1) inside in
    elim (ℕ_discrete m i) [
      | yes r ↦ elim (ℕ_discrete m j) [
        | yes t ↦ ground (arith, ap (get_elem? (set counts m (c +ℤ pos 1))) (sym r ∙ t), f, g)
        | no t ↦
            let g' = sym (get_elem?-set_ne counts (c +ℤ pos 1) t) ∙ g in
            ground (arith, l j y q g', ap (get_elem? (set counts m (c +ℤ pos 1))) r, new, f)
      ]
      | no r ↦ elim (ℕ_discrete m j) [
        | yes t ↦
            let f' = sym (get_elem?-set_ne counts (c +ℤ pos 1) r) ∙ f in
            ground (arith, b i m x c p h f' e, ap (get_elem? (set counts m (c +ℤ pos 1))) t, new, g)
        | no t ↦
            b i j x y p q (sym (get_elem?-set_ne counts (c +ℤ pos 1) r) ∙ f)
              (sym (get_elem?-set_ne counts (c +ℤ pos 1) t) ∙ g)
      ]
    ]

-- `get_next_device`, where there is a device and an entry for each, chooses one of them, on which no
-- more threads run than on any other, counts the new thread there alone, and keeps the devices
-- balanced.
pub get_next_device_lem :
    (devices : ℕ) (counts : List ℤ)
    → devices ≢ 0
    → devices ≤ length counts
    → (m : ℕ) × (c : ℤ) × (get_next_device devices counts ≡ some (m, set counts m (c +ℤ pos 1)))
      × (m < devices)
      × (get_elem? counts m ≡ some c)
      × AtMost c devices counts
      × (IsBalanced devices counts → IsBalanced devices (set counts m (c +ℤ pos 1)))
unfolding get_next_device count_up
get_next_device_lem devices counts h k =
    let (b, e) = get_elem?-some counts 0 (omega arith) in
    let (m, c, r, s, t, u) =
      min_from_lem devices 0 0 counts b e (omega arith) (omega arith) (AtMost-zero b counts) in
    let u' : AtMost c devices counts =
      subst (λ n. AtMost c n counts) {x = 0 + devices} (omega arith) u in
    let s' : m < devices = omega arith in
    (m, c, ground (arith, r, t), s', t, u', IsBalanced-set devices m c counts t s' u')
