-- ===== src/Vmem/Map/Find.antt =====
-- `mem_map_find_entry` and `mem_map_init`: what the loops over the table compute.
use gpu_virtmem.Prelude.{
  ℕ, zero, suc, ◌+◌, ◌≤◌, ◌<◌, ◌≡◌, refl, Bool, true, false, List, [], ◌∷◌, none, some, dec_lt,
  length, ℤ, pos, negsuc, arith, ◌⊎◌, inl, inr, Bool-cases, drop, ◌++◌,
}
use gpu_virtmem.Vmem.Row.{Table, AppPtr}
use gpu_virtmem.Vmem.Map.{
  cleared, init_rows, mem_map_init, same_handle, find_from, mem_map_find_entry,
}

-- The index names the row whose handle the pointer is.
abbrev pub matches : AppPtr → ℤ → Bool
matches p (negsuc k) = false
matches p (pos k) = same_handle p k

-- Position `j` of the indices is the first one that matches.
abbrev pub IsFirst : AppPtr → List ℤ → ℕ → Type 0
IsFirst p [] j = ⊥
IsFirst p (i ∷ indexes) zero = matches p i ≡ true
IsFirst p (i ∷ indexes) (suc j) = (matches p i ≡ false) × IsFirst p indexes j

abbrev pub NoMatch : AppPtr → List ℤ → Type 0
NoMatch p [] = Unit
NoMatch p (i ∷ indexes) = (matches p i ≡ false) × NoMatch p indexes

find_from_lem :
    (i : ℕ) (indexes : List ℤ) (p : AppPtr)
    → ((j : ℕ) × (find_from i indexes p ≡ pos (i + j)) × IsFirst p indexes j)
      ⊎ ((find_from i indexes p ≡ negsuc 0) × NoMatch p indexes)
unfolding find_from
find_from_lem i [] p = inr (refl, tt)
find_from_lem i (negsuc k ∷ indexes) p = elim (find_from_lem (i + 1) indexes p) [
  | inl (j, e, f) ↦ inl (suc j, ground arith, (refl, f))
  | inr (e, f) ↦ inr (e, (refl, f))
]
find_from_lem i (pos k ∷ indexes) p = elim (Bool-cases (same_handle p k)) [
  | inl h ↦ inl (0, ground arith, h)
  | inr h ↦ elim (find_from_lem (i + 1) indexes p) [
    | inl (j, e, f) ↦ inl (suc j, ground arith, (h, f))
    | inr (e, f) ↦ inr (ground arith, (h, f))
  ]
]

-- `mem_map_find_entry` returns the position of the first index that is not negative and whose row's
-- handle the pointer points to, or -1 where there is none.
pub mem_map_find_entry_lem :
    (indexes : List ℤ) (p : AppPtr)
    → ((j : ℕ) × (mem_map_find_entry indexes p ≡ pos j) × IsFirst p indexes j)
      ⊎ ((mem_map_find_entry indexes p ≡ negsuc 0) × NoMatch p indexes)
unfolding mem_map_find_entry
mem_map_find_entry_lem indexes p = elim (find_from_lem 0 indexes p) [
  | inl (j, e, f) ↦ inl (j, ground arith, f)
  | inr (e, f) ↦ inr (e, f)
]

-- The rows `i .. i + n` of a table that was just set up.
abbrev pub cleared_rows : ℕ → ℕ → ℕ → Table
cleared_rows pid i zero = []
cleared_rows pid i (suc n) = cleared pid i ∷ cleared_rows pid (i + 1) n

init_rows_lem :
    (pid i n : ℕ) (table : Table)
    → n ≤ length table
    → init_rows pid i n table ≡ some (cleared_rows pid i n ++ drop n table)
unfolding init_rows
init_rows_lem pid i zero table h = refl
init_rows_lem pid i (suc n) [] h = absurd (omega arith)
init_rows_lem pid i (suc n) (r ∷ table) h = ground (arith, init_rows_lem pid (i + 1) n table)

init_rows-none : (pid i n : ℕ) (table : Table) → length table < n → init_rows pid i n table ≡ none
unfolding init_rows
init_rows-none pid i zero table h = absurd (omega arith)
init_rows-none pid i (suc n) [] h = refl
init_rows-none pid i (suc n) (r ∷ table) h = ground (arith, init_rows-none pid (i + 1) n table)

-- `mem_map_init` sets up the first `size` rows, each free, with the process's id and its own index
-- for a handle, and keeps the others; it faults exactly if the table has fewer rows.
pub mem_map_init_lem :
    (pid : ℕ) (table : Table) (size : ℕ)
    → ((size ≤ length table)
        × (mem_map_init pid table size ≡ some (cleared_rows pid 0 size ++ drop size table)))
      ⊎ ((length table < size) × (mem_map_init pid table size ≡ none))
unfolding mem_map_init
mem_map_init_lem pid table size = elim (dec_lt (length table) size) [
  | yes h ↦ inr (h, init_rows-none pid 0 size table h)
  | no h ↦ inl (omega arith, init_rows_lem pid 0 size table (omega arith))
]

find_from-IsFirst :
    (i : ℕ) (indexes : List ℤ) (p : AppPtr) (j : ℕ)
    → IsFirst p indexes j
    → find_from i indexes p ≡ pos (i + j)
unfolding find_from
find_from-IsFirst i [] p j h = absurd h
find_from-IsFirst i (negsuc k ∷ indexes) p zero h = cc
find_from-IsFirst i (negsuc k ∷ indexes) p (suc j) h =
    ground (arith, find_from-IsFirst (i + 1) indexes p j h.1)
find_from-IsFirst i (pos k ∷ indexes) p zero h = ground arith
find_from-IsFirst i (pos k ∷ indexes) p (suc j) h =
    ground (arith, find_from-IsFirst (i + 1) indexes p j h.1)

pub mem_map_find_entry-IsFirst :
    (indexes : List ℤ) (p : AppPtr) (j : ℕ)
    → IsFirst p indexes j
    → mem_map_find_entry indexes p ≡ pos j
unfolding mem_map_find_entry
mem_map_find_entry-IsFirst indexes p j h = ground (arith, find_from-IsFirst 0 indexes p j h)

find_from-NoMatch :
    (i : ℕ) (indexes : List ℤ) (p : AppPtr) → NoMatch p indexes → find_from i indexes p ≡ negsuc 0
unfolding find_from
find_from-NoMatch i [] p h = refl
find_from-NoMatch i (negsuc k ∷ indexes) p h = find_from-NoMatch (i + 1) indexes p h.1
find_from-NoMatch i (pos k ∷ indexes) p h = ground (arith, find_from-NoMatch (i + 1) indexes p h.1)

pub mem_map_find_entry-NoMatch :
    (indexes : List ℤ) (p : AppPtr) → NoMatch p indexes → mem_map_find_entry indexes p ≡ negsuc 0
unfolding mem_map_find_entry
mem_map_find_entry-NoMatch indexes p h = find_from-NoMatch 0 indexes p h

pub IsFirst-append :
    (indexes : List ℤ) (p : AppPtr) (i : ℤ)
    → NoMatch p indexes
    → matches p i ≡ true
    → IsFirst p (indexes ++ (i ∷ [])) (length indexes)
IsFirst-append [] p i h m = m
IsFirst-append (x ∷ indexes) p i h m = (h.0, IsFirst-append indexes p i h.1 m)
