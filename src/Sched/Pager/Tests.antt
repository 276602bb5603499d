-- ===== src/Sched/Pager/Tests.antt =====
-- Two rows of two processes, the second the smaller one.
use gpu_virtmem.Prelude.{
  ℕ, ◌+◌, ◌*◌, ◌≤◌, ◌<◌, ◌≡◌, refl, true, List, [], ◌∷◌, none, some, arith, done,
}
use gpu_virtmem.Vmem.Row.{ready, MemMap}
use gpu_virtmem.Sched.Pager.{is_resident, scan_from, choose_victims_least_frequently_used}
use gpu_virtmem.Sched.Pager.Victims.{IsChoice, times, choose_victims_lem}

abbrev row_of : ℕ → ℕ → MemMap
row_of pid size = record {
  valid = true;
  handle = 0;
  actual_devptr = some 4096;
  swap = none;
  size = size;
  status = ready;
  pid = pid;
  freq = 0;
}

abbrev two_rows : List MemMap
two_rows = row_of 11 10 ∷ row_of 22 4 ∷ []

second_row : IsChoice two_rows 2 1 4 (row_of 22 4)
unfolding scan_from is_resident
second_row = record { scanned = refl; there = refl; positive = omega arith; small = omega arith }

choose_victims_lem_example :
    (k : ℕ) × (choose_victims_least_frequently_used 9 two_rows 2 9 ≡ done (times k 22 1))
    × (9 ≤ k * 4)
    × (k * 4 < 9 + 4)
choose_victims_lem_example =
    choose_victims_lem two_rows 2 9 1 4 (row_of 22 4) second_row (omega arith) (omega arith)
