-- ===== src/Vmem/Server/Laws.antt =====
-- What an application sees of the handlers: allocate, copy, free, set up an argument.
use gpu_virtmem.Prelude.{
  int_size_small, ◌^◌, ℕ, suc, ◌+◌, ◌≤◌, ◌<◌, ◌≡◌, true, false, List, [], ◌∷◌, ◌++◌, Option, none,
  some, ◌>>=◌, pos, negsuc, length, get_elem?, set, arith, take, drop, get_elem?-some,
  get_elem?-append_end, Option-cases, inl, inr, get_elem?-set_self, length-set,
}
use gpu_virtmem.Vmem.Row.{noalloc, MemMap, Table, AppPtr, handle_of, Cuda, CudaLaws}
use gpu_virtmem.Vmem.Map.{Placed, creat_row, delete_row, free_if, h2d, d2h, copy_row}
use gpu_virtmem.Vmem.Map.Inv.{creat_row-IsWellFormed, size-creat_row, valid-creat_row}
use gpu_virtmem.Vmem.Map.Transfer.{copy_both_lem, creat_row-IsBacked}
use gpu_virtmem.Vmem.Map.Find.{
  IsFirst, NoMatch, mem_map_find_entry-IsFirst, mem_map_find_entry-NoMatch, IsFirst-append,
}
use gpu_virtmem.Vmem.Server.{
  CudaError, Session, success, malloc_srv, free_srv, setup_argument_srv, memcpy_srv,
}

module _ (c : Cuda) where
  -- The device after the memory of a row was freed, if it had any.
  pub device_without : Option ℕ → c.Device → c.Device
  device_without none d = d
  device_without (some p) d = c.free d p

  -- A pointer found at a later position `suc j`, for a row `r` at `k` in the table, is freed: the
  -- device memory of the row is given back, the row has no device memory, no swap space and no size
  -- left, is not valid and in the state D_NOALLOC, the index is -1, the code is `cudaSuccess`, and
  -- nothing else of the session has changed.
  pub free_srv_lem :
      (e : CudaError) (p : AppPtr) (s : Session c) (j k : ℕ) (r : MemMap)
      → IsFirst p s.local_arr (suc j)
      → get_elem? s.local_arr (suc j) ≡ some (pos k)
      → get_elem? s.table k ≡ some r
      → free_srv c e p s
        ≡ some (
          record s {
            table = set s.table k (record r {
              actual_devptr = none;
              swap = none;
              size = 0;
              status = noalloc;
              valid = false;
            });
            device = device_without r.actual_devptr s.device;
            local_arr = set s.local_arr (suc j) (negsuc 0);
            err = success;
          },
          true,
        )
  unfolding free_srv delete_row free_if device_without
  free_srv_lem e p s j k r first at there = elim (Option-cases r.actual_devptr) [
    | inl n ↦ ground (arith, n, mem_map_find_entry-IsFirst s.local_arr p (suc j) first, at, there)
    | inr (q, n) ↦
        ground (arith, n, mem_map_find_entry-IsFirst s.local_arr p (suc j) first, at, there)
  ]

  -- An argument that is no device pointer cannot be set up: `vmapped_local_arr[-1]` is read.
  pub setup_argument_srv-none :
      (p : AppPtr) (arg size offset : ℕ) (s : Session c)
      → NoMatch p s.local_arr
      → setup_argument_srv c p arg size offset s ≡ none
  unfolding setup_argument_srv
  setup_argument_srv-none p arg size offset s h =
      ground (arith, mem_map_find_entry-NoMatch s.local_arr p h)

  -- The session after an allocation that succeeds, in the row that the shared counter names.
  abbrev pub allocated : Session c → List ℕ → ℕ → MemMap → Session c
  allocated s b size r =
      let new = creat_row c (some b) size (record { row = r; device = s.device }) in
      record s {
        table = set s.table s.vmap_index new.row;
        device = new.device;
        vmap_index = s.vmap_index + 1;
        local_arr = s.local_arr ++ (pos s.vmap_index ∷ []);
        err = success;
      }

  malloc_srv_lem :
      (s : Session c) (b : List ℕ) (size : ℕ) (r : MemMap)
      → get_elem? s.table s.vmap_index ≡ some r
      → length s.local_arr < 10000
      → malloc_srv c true (some b) size s ≡ some (allocated s b size r, true)
  unfolding malloc_srv
  malloc_srv_lem s b size r e h = ground arith

module _ (c : Cuda) (laws : CudaLaws c) where
  -- An allocation, and a copy in and back under the address of the row's handle, in that order.
  abbrev pub round_trip : Session c → List ℕ → List ℕ → List ℕ → ℕ → ℕ → Option (Session c × List ℕ)
  round_trip s b src dest size n = do
    (s₁, ok) ← malloc_srv c true (some b) size s
    (s₂, unused) ← memcpy_srv c (handle_of s.vmap_index) [] src n h2d s₁
    memcpy_srv c (handle_of s.vmap_index) dest [] n d2h s₂

  -- What is copied to the row of a new allocation, under the address of its handle, is read back: with
  -- a row left in the table, room among the process's indices, a host `malloc` that gives `size`
  -- bytes, and no earlier index of the process for that row, `n ≤ size` bytes of `src`, fewer than
  -- 2 ^ 31, come back at the front of `dest`, whether the device had room or not. The address is given:
  -- `mem_map_creat` does not return it.
  pub round_trip_lem :
      (s : Session c) (b src dest : List ℕ) (size n : ℕ)
      → s.vmap_index < length s.table
      → length s.local_arr < 10000
      → NoMatch (handle_of s.vmap_index) s.local_arr
      → length b ≡ size
      → n ≤ size
      → n < 2 ^ 31
      → n ≤ length src
      → n ≤ length dest
      → (s' : Session c) × (round_trip s b src dest size n ≡ some (s', take n src ++ drop n dest))
  unfolding memcpy_srv
  round_trip_lem s b src dest size n room slots fresh hb hn small hs hd =
      let (r, e) = get_elem?-some s.table s.vmap_index room in
      let new : Placed c = creat_row c (some b) size (record { row = r; device = s.device }) in
      let v = s.vmap_index in
      let size-new : new.row.size ≡ size = size-creat_row c (some b) size _ in
      let (t, f) =
        copy_both_lem c laws new src dest n (creat_row-IsWellFormed c b size _ hb)
          (creat_row-IsBacked c laws (some b) size _) (valid-creat_row c (some b) size _)
          (omega arith) hs hd in
      elim (Option-cases (copy_row c new [] src n h2d)) [
        | inl g ↦ absurd (ground arith)
        | inr ((u, unused), g) ↦
            let s₁ = allocated c s b size r in
            let table₁ : Table = set s₁.table v u.row in
            (
              record s₁ { table = set table₁ v t.row; device = t.device; err = success },
              ground (
                arith,
                malloc_srv_lem c s b size r e slots,
                int_size_small n small,
                mem_map_find_entry-IsFirst s₁.local_arr (handle_of v) (length s.local_arr)
                    (IsFirst-append s.local_arr (handle_of v) (pos v) fresh (ground arith)),
                get_elem?-append_end s.local_arr (pos v),
                get_elem?-set_self s.table v new.row room,
                get_elem?-set_self s₁.table v u.row (omega (arith, length-set s.table v new.row)),
                f,
                g,
              ),
            )
      ]
