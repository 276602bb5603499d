-- ===== src/Remote/Registry/Sample.antt =====
-- A server with one fat binary, and GLib's removal on lists.
use gpu_virtmem.Prelude.{
  ℕ, zero, suc, ◌≡◌, refl, true, List, [], ◌∷◌, ◌++◌, none, some, length, arith,
}
use gpu_virtmem.Interposer.Bytes.{null}
use gpu_virtmem.Interposer.Fields.{CharPtr}
use gpu_virtmem.Interposer.Fields.Laws.{StrFits}
use gpu_virtmem.Interposer.FatBinary.Unpack.{Received}
use gpu_virtmem.Interposer.FatBinary.Second.{FatCudaBinary2}
use gpu_virtmem.Interposer.FatBinary.Second.RoundTrip.{Binary2Fits}
use gpu_virtmem.Interposer.Fatcubin.{FatcubinInfo}
use gpu_virtmem.Remote.Registry.{cleared_info, elements}
use gpu_virtmem.Remote.Registry.Remove.{IsFastRemoval}
use gpu_virtmem.Remote.Registry.Reach.{fat_binary, Reach, start, next}
use gpu_virtmem.Remote.Registry.Launch.{registered_fat_binary}

-- GLib's removal, on lists.
last_or {ℓ} : {A : Type ℓ} → A → List A → A
last_or a [] = a
last_or a (x ∷ xs) = last_or x xs

but_last {ℓ} : {A : Type ℓ} → List A → List A
but_last [] = []
but_last (x ∷ []) = []
but_last (x ∷ y ∷ xs) = x ∷ but_last (y ∷ xs)

tail_removed : {A : Type 0} → List A → List A
tail_removed [] = []
tail_removed (y ∷ ys) = last_or y ys ∷ but_last (y ∷ ys)

pub fast : {A : Type 0} → List A → ℕ → List A
unfolding last_or but_last tail_removed
fast [] i = []
fast (x ∷ xs) zero = tail_removed xs
fast (x ∷ xs) (suc i) = x ∷ fast xs i

last_or-append : {A : Type 0} (x l : A) (xs : List A) → last_or x (xs ++ (l ∷ [])) ≡ l
unfolding last_or
last_or-append x l [] = refl
last_or-append x l (y ∷ ys) = last_or-append y l ys

but_last-append : {A : Type 0} (l : A) (xs : List A) → but_last (xs ++ (l ∷ [])) ≡ xs
unfolding but_last
but_last-append l [] = refl
but_last-append l (x ∷ []) = refl
but_last-append l (x ∷ y ∷ ys) = ground (arith, but_last-append l (y ∷ ys))

fast-last : {A : Type 0} (xs : List A) (a : A) → fast (xs ++ (a ∷ [])) (length xs) ≡ xs
unfolding fast tail_removed
fast-last [] a = refl
fast-last (x ∷ xs) a = ground (arith, fast-last xs a)

fast-inner :
    {A : Type 0} (xs ys : List A) (a l : A)
    → fast (xs ++ (a ∷ (ys ++ (l ∷ [])))) (length xs) ≡ xs ++ (l ∷ ys)
unfolding fast tail_removed last_or but_last
fast-inner [] [] a l = refl
fast-inner [] (y ∷ ys) a l = ground (arith, last_or-append y l ys, but_last-append l (y ∷ ys))
fast-inner (x ∷ xs) ys a l = ground (arith, fast-inner xs ys a l)

pub fast-IsFastRemoval : IsFastRemoval {A = FatcubinInfo} fast
fast-IsFastRemoval = record { last = fast-last; inner = fast-inner }

abbrev empty_binary : FatCudaBinary2 CharPtr
empty_binary = record {
  magic = 1180844977;
  version = 1;
  fatbin_data = record { magic = 3126193488; version = 1; length = 0; base = [] };
  f = null;
}

empty_binary-Binary2Fits : Binary2Fits empty_binary
unfolding StrFits
empty_binary-Binary2Fits = record {
  magic = omega arith;
  version = omega arith;
  header_magic = omega arith;
  header_version = omega arith;
  len = omega arith;
  base = omega arith;
  f = omega arith;
}

-- CUDA gives the handle 5000.
abbrev pub handle_5000 : FatCudaBinary2 Received → ℕ
handle_5000 b = 5000

pub one_reached : Reach (λ n. true) handle_5000 fast (some (cleared_info 5000 ∷ []))
unfolding elements
one_reached =
    let (bs, q) =
      registered_fat_binary (λ n. true) handle_5000 none empty_binary 4096 (λ n. refl)
        (ground arith) empty_binary-Binary2Fits in
    next start (fat_binary (bs ++ []) 5000 (cleared_info 5000 ∷ []) q)
