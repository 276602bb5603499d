-- ===== src/Sched/Pager/Victims.antt =====
-- l2scheduler/pager.c: the pager chooses one row, again and again.
use gpu_virtmem.Prelude.{
  dec_lt, ℕ, zero, suc, ◌+◌, ◌*◌, ◌%◌, ◌^◌, ◌<◌, ◌≤◌, ◌≡◌, refl, ap, inl, inr, List, [], ◌∷◌, ◌++◌,
  some, take, arith, ltb, get_elem?, replicate, as_size_t, done, Bool-cases, length-replicate,
}
use gpu_virtmem.Vmem.Row.{MemMap}
use gpu_virtmem.Sched.Pager.{
  max_memory, minus_one, PagerData, scan_from, chosen_from, with_row, add_victim, choose_from,
  choose_victims_least_frequently_used,
}

-- The row that the scan gives, and its size, positive as an `int`.
pub record IsChoice (table : List MemMap) (max row min : ℕ) (r : MemMap) : Type 0 where
  pub scanned : scan_from 0 (take max table) minus_one 0 ≡ (min, row)
  pub there : get_elem? table row ≡ some r
  pub positive : 0 < min
  pub small : min < 2 ^ 31

-- The requests for a row, `n` times.
unfoldable pub times : ℕ → ℕ → ℕ → List PagerData
times zero pid row = []
times (suc n) pid row = record { reqarr = replicate (suc n) row; pid = pid } ∷ []

replicate-end {ℓ} : {A : Type ℓ} (n : ℕ) (a : A) → replicate n a ++ (a ∷ []) ≡ replicate (suc n) a
replicate-end zero a = refl
replicate-end (suc n) a = ap (λ t. a ∷ t) (replicate-end n a)

add_victim-times :
    (n pid row : ℕ)
    → n < max_memory
    → add_victim (times n pid row) pid row ≡ some (times (suc n) pid row)
unfolding add_victim times chosen_from with_row
add_victim-times zero pid row h = ground arith
add_victim-times (suc n) pid row h =
    ground (arith, length-replicate {A = ℕ} n row, replicate-end n row)

mul_le : (a b c : ℕ) → a ≤ b → a * c ≤ b * c
mul_le zero b c h = omega arith
mul_le (suc a) zero c h = absurd (omega arith)
mul_le (suc a) (suc b) c h = omega (arith, mul_le a b c (omega arith))

few_rounds : (n m min mem : ℕ) → n * min < mem → mem ≤ m * min → n < m
few_rounds n m min mem h k = elim (dec_lt n m) [
  | yes l ↦ l
  | no l ↦ absurd (omega (arith, h, k, mul_le m n min (omega arith)))
]

choose_from-times :
    (fuel : ℕ) (table : List MemMap) (max mem row min n sat : ℕ) (r : MemMap)
    → IsChoice table max row min r
    → sat ≡ n * min
    → mem ≤ sat + fuel
    → mem ≤ max_memory * min
    → sat < mem + min
    → mem < 2 ^ 63
    → (k : ℕ) × (choose_from fuel table max mem sat (times n r.pid row) ≡ done (times k r.pid row))
      × (mem ≤ k * min)
      × (k * min < mem + min)
unfolding choose_from
choose_from-times zero table max mem row min n sat r c q f few last b =
    (n, ground arith, omega arith, omega arith)
choose_from-times (suc fuel) table max mem row min n sat r c q f few last b =
    elim (Bool-cases (ltb sat mem)) [
      | inl t ↦
          let less : sat < mem = ground (arith, t) in
          let room = few_rounds n max_memory min mem (omega (arith, less, q)) few in
          let next : (sat + as_size_t min) % 2 ^ 64 ≡ sat + min =
            ground (arith, c.small, less, b) in
          let (k, e, u, v) =
            choose_from-times fuel table max mem row min (suc n) (sat + min) r c (omega arith)
              (omega (arith, c.positive)) few (omega arith) b in
          (
            k,
            ground (arith, t, c.scanned, c.there, add_victim-times n r.pid row room, next, e),
            u,
            v,
          )
      | inr t ↦ (n, ground (arith, t), ground (arith, t, q), omega arith)
    ]

-- The pager's choice ends, on as much fuel as memory is asked for, when the scan finds a row of
-- positive size below 2 GB, of which 10000 are enough: it is one process, if any, and this one row
-- over and over, as often as it takes for its size to add up to the memory asked for.
pub choose_victims_lem :
    (table : List MemMap) (max mem row min : ℕ) (r : MemMap)
    → IsChoice table max row min r
    → mem ≤ max_memory * min
    → mem < 2 ^ 63
    → (k : ℕ) × (choose_victims_least_frequently_used mem table max mem ≡ done (times k r.pid row))
      × (mem ≤ k * min)
      × (k * min < mem + min)
unfolding choose_victims_least_frequently_used times
choose_victims_lem table max mem row min r c few b =
    choose_from-times mem table max mem row min 0 0 r c (omega arith) (omega arith) few
      (omega (arith, c.positive)) b
