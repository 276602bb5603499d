-- ===== src/Sched/Pager.antt =====
-- l2scheduler/pager.c: which rows of the memory map the pager chooses to page out.
pub mod Victims
mod Tests
use gpu_virtmem.Prelude.{
  ℕ, zero, suc, ◌+◌, ◌-◌, ◌%◌, ◌^◌, Bool, true, false, ◌&&◌, List, [], ◌∷◌, ◌++◌, Option, none,
  some, ◌>>=◌, length, take, ltb, leb, ◌==◌, if◌then◌else◌, get_elem?, as_size_t, Outcome, done,
  fault, no_fuel, or_fault,
}
use gpu_virtmem.Vmem.Row.{VmemStatus, init, ready, modified, MemMap}

abbrev pub max_memory : ℕ
max_memory = 10000

abbrev pub max_victims : ℕ
max_victims = 500

-- -1, as the bit pattern of an `int`
abbrev pub minus_one : ℕ
minus_one = 2 ^ 32 - 1

-- `struct pager_data`, with `reqarr` up to `len`
pub record PagerData : Type 0 where
  pub reqarr : List ℕ
  pub pid : ℕ

-- The states in which a row has device memory.
unfoldable pub is_resident : VmemStatus → Bool
is_resident init = true
is_resident ready = true
is_resident modified = true
is_resident _ = false

-- The scan from row `i` on, with `min`, the bit pattern of an `int`, and `minindex`. `last_smallest`
-- is 0 and stays so.
unfoldable pub scan_from : ℕ → List MemMap → ℕ → ℕ → ℕ × ℕ
scan_from i [] min minindex = (min, minindex)
scan_from i (r ∷ rs) min minindex =
    if r.valid && (min == minus_one)
    then scan_from (suc i) rs (r.size % 2 ^ 32) i
    else if r.valid && leb r.size (as_size_t min) && leb 0 r.size && is_resident r.status
    then scan_from (suc i) rs (r.size % 2 ^ 32) i
    else scan_from (suc i) rs min minindex

-- `chosen_id`, the last element with the process, if there is one; `i` counts the elements.
unfoldable pub chosen_from : ℕ → ℕ → List PagerData → Option ℕ → Option ℕ
chosen_from pid i [] found = found
chosen_from pid i (d ∷ ds) found =
    chosen_from pid (suc i) ds (if d.pid == pid then some i else found)

-- A further row of a process, where there is room for it.
unfoldable pub with_row : ℕ → List PagerData → ℕ → Option (List PagerData)
with_row i [] row = none
with_row zero (d ∷ ds) row =
    if ltb (length d.reqarr) max_memory
    then some (record d { reqarr = d.reqarr ++ (row ∷ []) } ∷ ds)
    else none
with_row (suc i) (d ∷ ds) row = with_row i ds row >>= (λ rest. some (d ∷ rest))

unfoldable pub add_victim : List PagerData → ℕ → ℕ → Option (List PagerData)
add_victim pd pid row = elim (chosen_from pid 0 pd none) [
  | some i ↦ with_row i pd row
  | none ↦
      if ltb (length pd) max_victims
      then some (pd ++ (record { reqarr = row ∷ []; pid = pid } ∷ []))
      else none
]

-- The loop of `choose_victims_least_frequetly_used`, on fuel, over the first `max` rows of the map;
-- `satisfied` and `mem` are 64 bits wide and compared without a sign.
unfoldable pub choose_from : ℕ → List MemMap → ℕ → ℕ → ℕ → List PagerData → Outcome (List PagerData)
choose_from zero table max mem satisfied pd = if ltb satisfied mem then no_fuel else done pd
choose_from (suc n) table max mem satisfied pd =
    if ltb satisfied mem
    then (let (min, row) = scan_from 0 (take max table) minus_one 0 in
        or_fault (get_elem? table row) (λ r.
          or_fault (add_victim pd r.pid row)
            (λ new. choose_from n table max mem ((satisfied + as_size_t min) % 2 ^ 64) new)))
    else done pd

unfoldable pub choose_victims_least_frequently_used :
    ℕ → List MemMap → ℕ → ℕ → Outcome (List PagerData)
choose_victims_least_frequently_used fuel table max mem = choose_from fuel table max mem 0 []
