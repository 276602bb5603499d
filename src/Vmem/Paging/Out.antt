-- ===== src/Vmem/Paging/Out.antt =====
-- How paging in and out treat the rows that they are asked for.
use gpu_virtmem.Prelude.{
  ℕ, ◌≤◌, ◌≡◌, refl, sym, true, List, [], ◌++◌, none, some, take, drop, length, arith, Option-cases,
  inl, inr, take_append_of_le,
}
use gpu_virtmem.Vmem.Row.{
  VmemStatus, noalloc, init, ready, modified, memwait, deferred, Cuda, CudaLaws, memcpy,
}
use gpu_virtmem.Vmem.Map.{Placed, d2h, copy_row}
use gpu_virtmem.Vmem.Map.Inv.{buffer_length-memcpy, IsWellFormed}
use gpu_virtmem.Vmem.Map.Transfer.{fetch_lem, IsBacked, memcpy_fits, length-overwrite}
use gpu_virtmem.Vmem.Paging.{page_out_row, page_out_by, free_row}

module _ (c : Cuda) (laws : CudaLaws c) where
  free_row_lem :
      (s : Placed c) (b : List ℕ) (p : ℕ)
      → laws.Holds s.device p s.row.size
      → s.row.actual_devptr ≡ some p
      → s.row.swap ≡ some b
      → length b ≡ s.row.size
      → let z = take s.row.size (c.download s.device p s.row.size) ++ drop s.row.size b in
        free_row c s
        ≡ some (record {
          row = record s.row { swap = some z; actual_devptr = none; status = memwait };
          device = c.free s.device p;
        })
  unfolding free_row
  free_row_lem s b p holds f g hb =
      ground (arith, laws.length-download s.device p s.row.size s.row.size holds)

  -- Both copies of `n` bytes, one from the row as it is and one after it was paged out.
  pub record SameBytes (s : Placed c) (dest : List ℕ) (n : ℕ) : Type 0 where
    pub paged : Placed c
    pub before : Placed c
    pub after : Placed c
    pub out : List ℕ
    pub page_out-eq : page_out_row c s ≡ some paged
    pub before-eq : copy_row c s dest [] n d2h ≡ some (before, out)
    pub after-eq : copy_row c paged dest [] n d2h ≡ some (after, out)

  SameBytes-on_device :
      (s : Placed c) (dest b : List ℕ) (n p : ℕ)
      → laws.Holds s.device p s.row.size
      → s.row.actual_devptr ≡ some p
      → s.row.swap ≡ some b
      → length b ≡ s.row.size
      → n ≤ s.row.size
      → n ≤ length dest
      → s.row.status ≡ ready
      → SameBytes s dest n
  unfolding copy_row page_out_row
  SameBytes-on_device s dest b n p holds f g hb hn hd st =
      let z : List ℕ = take s.row.size (c.download s.device p s.row.size) ++ drop s.row.size b in
      let t : Placed c = record {
        row = record s.row { swap = some z; actual_devptr = none; status = memwait };
        device = c.free s.device p;
      } in
      let (u, e) = fetch_lem c laws s dest b n p holds f g hb hn hd in
      record {
        paged = t;
        before = u;
        after = t;
        out = take n (c.download s.device p n) ++ drop n dest;
        page_out-eq = ground (arith, free_row_lem s b p holds f g hb);
        before-eq = ground (arith, e);
        after-eq = ground (
          arith,
          memcpy_fits dest z n,
          length-overwrite b (c.download s.device p s.row.size) s.row.size,
          laws.length-download s.device p s.row.size s.row.size holds,
          take_append_of_le n s.row.size (c.download s.device p s.row.size) (drop s.row.size b),
          laws.download-prefix s.device p s.row.size n hn,
        );
      }

  SameBytes-by :
      (st : VmemStatus) (s : Placed c) (dest b : List ℕ) (n : ℕ)
      → st ≡ s.row.status
      → IsWellFormed s.row
      → IsBacked c laws s
      → s.row.swap ≡ some b
      → length b ≡ s.row.size
      → n ≤ s.row.size
      → n ≤ length dest
      → SameBytes s dest n
  unfolding copy_row page_out_row
  SameBytes-by ready s dest b n e w backed g hb hn hd = elim (Option-cases s.row.actual_devptr) [
    | inl f ↦ absurd (ground arith)
    | inr (p, f) ↦ SameBytes-on_device s dest b n p (backed p f) f g hb hn hd (sym e)
  ]
  SameBytes-by modified s dest b n e w backed g hb hn hd = absurd (w.assigned.0 (sym e))
  SameBytes-by deferred s dest b n e w backed g hb hn hd = absurd (w.assigned.1 (sym e))
  SameBytes-by noalloc s dest b n e w backed g hb hn hd = record {
    paged = s;
    before = s;
    after = s;
    out = dest;
    page_out-eq = ground arith;
    before-eq = ground arith;
    after-eq = ground arith;
  }
  SameBytes-by init s dest b n e w backed g hb hn hd = record {
    paged = s;
    before = s;
    after = s;
    out = dest;
    page_out-eq = ground arith;
    before-eq = ground arith;
    after-eq = ground arith;
  }
  SameBytes-by memwait s dest b n e w backed g hb hn hd = record {
    paged = s;
    before = s;
    after = s;
    out = take n b ++ drop n dest;
    page_out-eq = ground arith;
    before-eq = ground (arith, memcpy_fits dest b n);
    after-eq = ground (arith, memcpy_fits dest b n);
  }

  -- Paging a valid row out loses none of its data: on a well-formed row whose device pointer, if
  -- it has one, is an allocation of its size, it succeeds, and a copy of `n` bytes from the row
  -- to the application gives the same bytes before and after, from whichever state the row is in,
  -- for `n` up to the lengths of the row and of `dest`.
  pub page_out-SameBytes :
      (s : Placed c) (dest : List ℕ) (n : ℕ)
      → IsWellFormed s.row
      → IsBacked c laws s
      → s.row.valid ≡ true
      → n ≤ s.row.size
      → n ≤ length dest
      → SameBytes s dest n
  page_out-SameBytes s dest n w backed v hn hd = elim (Option-cases s.row.swap) [
    | inl f ↦ absurd (ground (arith, w.backed v))
    | inr (b, f) ↦
        SameBytes-by s.row.status s dest b n refl w backed f (ground (arith, w.backed v)) hn hd
  ]

  free_row-IsWellFormed :
      (s : Placed c) {s' : Placed c}
      → IsWellFormed s.row
      → free_row c s ≡ some s'
      → IsWellFormed s'.row
  unfolding free_row
  free_row-IsWellFormed s w e = elim (Option-cases s.row.actual_devptr) [
    | inl f ↦ ground arith
    | inr (p, f) ↦
        let loaded = c.download s.device p s.row.size in
        elim (Option-cases (memcpy s.row.swap loaded s.row.size)) [
          | inl g ↦ absurd (ground arith)
          | inr (b, g) ↦ ground (arith, buffer_length-memcpy s.row.swap loaded b s.row.size g)
        ]
  ]

  page_out_by-IsWellFormed :
      (st : VmemStatus) (s : Placed c) {s' : Placed c}
      → st ≡ s.row.status
      → IsWellFormed s.row
      → page_out_by c st s ≡ some s'
      → IsWellFormed s'.row
  unfolding page_out_by
  page_out_by-IsWellFormed ready s f w e = free_row-IsWellFormed s w e
  page_out_by-IsWellFormed modified s f w e = free_row-IsWellFormed s w e
  page_out_by-IsWellFormed noalloc s f w e = ground arith
  page_out_by-IsWellFormed init s f w e = ground arith
  page_out_by-IsWellFormed memwait s f w e = ground arith
  page_out_by-IsWellFormed deferred s f w e = ground arith

  -- Paging out, where no access leaves a buffer, keeps a row well formed.
  pub page_out_row-IsWellFormed :
      (s : Placed c) {s' : Placed c}
      → IsWellFormed s.row
      → page_out_row c s ≡ some s'
      → IsWellFormed s'.row
  unfolding page_out_row
  page_out_row-IsWellFormed s w e = page_out_by-IsWellFormed s.row.status s refl w e
