-- ===== src/Vmem/Sample.antt =====
-- A device with room for one allocation, at address 1, on which the properties are tried.
use gpu_virtmem.Prelude.{
  ℕ, zero, suc, ◌≤◌, ◌≡◌, refl, sym, ap, ◌∙◌, true, false, List, [], ◌∷◌, ◌++◌, Option, none, some,
  length, take, drop, replicate, arith, length-append, length-take, length-drop, length-replicate,
  take-take,
}
use gpu_virtmem.Vmem.Row.{noalloc, ready, memwait, MemMap, Cuda, CudaLaws}
use gpu_virtmem.Vmem.Map.{Placed}

abbrev pub one_malloc : List ℕ → ℕ → Option ℕ × List ℕ
one_malloc [] n = (some 1, replicate n 0)
one_malloc (b ∷ bs) n = (none, b ∷ bs)

abbrev pub one_device : Cuda
one_device = record {
  Device = List ℕ;
  malloc = one_malloc;
  free = λ d p. [];
  upload = λ d p bs. bs ++ drop (length bs) d;
  download = λ d p n. take n d;
}

pub take-prefix : (m n : ℕ) (xs : List ℕ) → m ≤ n → take m (take n xs) ≡ take m xs
take-prefix zero n xs h = refl
take-prefix (suc m) zero xs h = absurd (omega arith)
take-prefix (suc m) (suc n) [] h = refl
take-prefix (suc m) (suc n) (x ∷ xs) h = ap (λ l. x ∷ l) (take-prefix m n xs (omega arith))

pub take-front : (m : ℕ) (xs ys : List ℕ) → m ≤ length xs → take m (xs ++ ys) ≡ take m xs
take-front zero xs ys h = refl
take-front (suc m) [] ys h = absurd (omega arith)
take-front (suc m) (x ∷ xs) ys h = ap (λ l. x ∷ l) (take-front m xs ys (omega arith))

pub one_malloc-room :
    (d : List ℕ) (n p : ℕ) → (one_malloc d n).0 ≡ some p → n ≤ length (one_malloc d n).1
one_malloc-room [] n p e = omega (arith, length-replicate {A = ℕ} n 0)
one_malloc-room (b ∷ d) n p e = absurd (ground arith)

abbrev pub one_device_laws : CudaLaws one_device
one_device_laws = record {
  Holds = λ d p n. n ≤ length d;
  malloc-Holds = one_malloc-room;
  upload-Holds = λ d p q n bs h.
      omega (arith, h, length-append bs (drop (length bs) d), length-drop (length bs) d);
  length-download = λ d p n m h k. omega (arith, h, k, length-take m d);
  download_upload = λ d p n bs h k m l.
      take-take m (bs ++ drop (length bs) d) ∙ take-front m bs (drop (length bs) d) l;
  download-prefix = λ d p n m h. take-prefix m n d h ∙ sym (take-take m d);
}

-- A free row, as `mem_map_init` leaves it.
abbrev pub free_row_at : ℕ → MemMap
free_row_at i = record {
  valid = false;
  handle = i;
  actual_devptr = none;
  swap = none;
  size = 0;
  status = noalloc;
  pid = 42;
  freq = 0;
}

-- A row of three bytes that are on the device, and its device.
abbrev pub ready_row : MemMap
ready_row = record {
  valid = true;
  handle = 0;
  actual_devptr = some 1;
  swap = some (0 ∷ 0 ∷ 0 ∷ []);
  size = 3;
  status = ready;
  pid = 42;
  freq = 0;
}

abbrev pub ready_placed : Placed one_device
ready_placed = record { row = ready_row; device = 4 ∷ 5 ∷ 6 ∷ [] }

-- A row whose bytes are in the swap space alone.
abbrev pub waiting_row : MemMap
waiting_row = record ready_row {
  actual_devptr = none;
  swap = some (7 ∷ 8 ∷ 9 ∷ []);
  status = memwait;
}
