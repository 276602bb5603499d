-- ===== src/Vmem/Map/Inv.antt =====
-- The invariant of a row of the memory map, which every operation on a row keeps.
use gpu_virtmem.Prelude.{
  ℕ, ◌≡◌, ◌≢◌, refl, Bool, true, false, List, Option, none, some, Option-cases, inl, inr, ap, take,
  drop, length, arith, length-append, length-take, length-drop,
}
use gpu_virtmem.Vmem.Row.{
  VmemStatus, noalloc, init, ready, modified, memwait, deferred, MemMap, memcpy, buffer_length,
  Cuda,
}
use gpu_virtmem.Vmem.Map.{
  Placed, CopyType, h2d, d2h, neither, creat_row, delete_row, copy_row, copy_in, fetch, copy_out_by,
}

-- The states in which the row has memory on the device.
abbrev pub on_device : VmemStatus → Bool
on_device init = true
on_device ready = true
on_device modified = true
on_device _ = false

abbrev pub is_some : Option ℕ → Bool
is_some none = false
is_some (some p) = true

-- The device pointer is set exactly in the states with device memory, the swap space of a valid row
-- has the size that was asked for, and the row is in a state that some operation assigns.
pub record IsWellFormed (r : MemMap) : Type 0 where
  pub placed : is_some r.actual_devptr ≡ on_device r.status
  pub backed : r.valid ≡ true → buffer_length r.swap ≡ some r.size
  pub assigned : (r.status ≢ modified) × (r.status ≢ deferred)

pub length-memcpy :
    (dst : List ℕ) (src out : List ℕ) (n : ℕ)
    → memcpy (some dst) src n ≡ some out
    → length out ≡ length dst
length-memcpy dst src out n h =
    ground (arith, length-append (take n src) (drop n dst), length-take n src, length-drop n dst)

-- What a successful `memcpy` over a swap space leaves of its size.
pub buffer_length-memcpy :
    (dst : Option (List ℕ)) (src out : List ℕ) (n : ℕ)
    → memcpy dst src n ≡ some out
    → buffer_length (some out) ≡ buffer_length dst
buffer_length-memcpy none src out n h = cc
buffer_length-memcpy (some dst) src out n h = ap some (length-memcpy dst src out n h)

module _ (c : Cuda) where
  -- A new allocation, with a host `malloc` that succeeds, is well formed: its state says whether
  -- the device had room.
  pub creat_row-IsWellFormed :
      (b : List ℕ) (size : ℕ) (s : Placed c)
      → length b ≡ size
      → IsWellFormed (creat_row c (some b) size s).row
  unfolding creat_row
  creat_row-IsWellFormed b size s h = elim (Option-cases (c.malloc s.device size).0) [
    | inl e ↦ rw e (record { placed = refl; backed = λ _. ap some h; assigned = ground arith })
    | inr (p, e) ↦ rw e (record { placed = refl; backed = λ _. ap some h; assigned = ground arith })
  ]

  pub delete_row-IsWellFormed : (s : Placed c) → IsWellFormed (delete_row c s).row
  unfolding delete_row
  delete_row-IsWellFormed s = ground arith

  pub valid-delete_row : (s : Placed c) → (delete_row c s).row.valid ≡ false
  unfolding delete_row
  valid-delete_row s = refl

  pub size-creat_row :
      (buf : Option (List ℕ)) (size : ℕ) (s : Placed c) → (creat_row c buf size s).row.size ≡ size
  unfolding creat_row
  size-creat_row buf size s = refl

  pub valid-creat_row :
      (buf : Option (List ℕ)) (size : ℕ) (s : Placed c) → (creat_row c buf size s).row.valid ≡ true
  unfolding creat_row
  valid-creat_row buf size s = refl

  copy_in-IsWellFormed :
      (s : Placed c) (src : List ℕ) (n : ℕ) {s' : Placed c}
      → IsWellFormed s.row
      → copy_in c s src n ≡ some s'
      → IsWellFormed s'.row
  unfolding copy_in
  copy_in-IsWellFormed s src n w e = elim (Option-cases (memcpy s.row.swap src n)) [
    | inl f ↦ absurd (ground arith)
    | inr (b, f) ↦ ground (arith, buffer_length-memcpy s.row.swap src b n f)
  ]

  fetch-row :
      (s : Placed c) (dest : List ℕ) (n : ℕ) {s' : Placed c} {out : List ℕ}
      → fetch c s dest n ≡ some (s', out)
      → (s'.row.actual_devptr ≡ s.row.actual_devptr)
        × (s'.row.size ≡ s.row.size)
        × (s'.row.valid ≡ s.row.valid)
        × (s'.row.status ≡ ready)
        × (buffer_length s'.row.swap ≡ buffer_length s.row.swap)
  unfolding fetch
  fetch-row s dest n e = elim (Option-cases s.row.actual_devptr) [
    | inl f ↦ ground arith
    | inr (p, f) ↦ elim (Option-cases (memcpy s.row.swap (c.download s.device p n) n)) [
      | inl g ↦ absurd (ground arith)
      | inr (b, g) ↦ ground (arith, buffer_length-memcpy s.row.swap (c.download s.device p n) b n g)
    ]
  ]

  copy_out_by-IsWellFormed :
      (st : VmemStatus) (s : Placed c) (dest : List ℕ) (n : ℕ) {s' : Placed c} {out : List ℕ}
      → st ≡ s.row.status
      → IsWellFormed s.row
      → copy_out_by c st s dest n ≡ some (s', out)
      → IsWellFormed s'.row
  unfolding copy_out_by
  copy_out_by-IsWellFormed noalloc s dest n f w e = ground arith
  copy_out_by-IsWellFormed init s dest n f w e = ground arith
  copy_out_by-IsWellFormed ready s dest n f w e = ground (arith, fetch-row s dest n e)
  copy_out_by-IsWellFormed modified s dest n f w e = ground arith
  copy_out_by-IsWellFormed memwait s dest n f w e = ground arith
  copy_out_by-IsWellFormed deferred s dest n f w e = ground arith

  -- `mem_map_memcpy` keeps a row well formed, in each direction and from each state, when no access
  -- leaves a buffer.
  pub copy_row-IsWellFormed :
      (s : Placed c) (dest src : List ℕ) (n : ℕ) (k : CopyType) {s' : Placed c} {out : List ℕ}
      → IsWellFormed s.row
      → copy_row c s dest src n k ≡ some (s', out)
      → IsWellFormed s'.row
  unfolding copy_row
  copy_row-IsWellFormed s dest src n h2d w e = elim (Option-cases (copy_in c s src n)) [
    | inl f ↦ absurd (ground arith)
    | inr (t, f) ↦ ground (arith, copy_in-IsWellFormed s src n w f)
  ]
  copy_row-IsWellFormed s dest src n d2h w e =
      copy_out_by-IsWellFormed s.row.status s dest n refl w e
  copy_row-IsWellFormed s dest src n neither w e = ground arith
