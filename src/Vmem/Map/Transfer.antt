-- ===== src/Vmem/Map/Transfer.antt =====
-- What a copy to a row and a copy back return, whichever state the row is in.
use gpu_virtmem.Prelude.{
  ℕ, ◌≤◌, ◌≡◌, refl, ap, ◌∙◌, true, List, [], ◌++◌, Option, some, take, drop, length, ◌>>=◌, arith,
  length-append, length-take, length-drop, Option-cases, inl, inr, take_append_of_length, take-take,
}
use gpu_virtmem.Vmem.Row.{VmemStatus, ready, memwait, memcpy, Cuda, CudaLaws}
use gpu_virtmem.Vmem.Map.{creat_row, Placed, h2d, d2h, copy_row, copy_in, fetch, copy_out_by}
use gpu_virtmem.Vmem.Map.Inv.{IsWellFormed}

pub memcpy_fits :
    (dst src : List ℕ) (n : ℕ)
    → n ≤ length src
    → n ≤ length dst
    → memcpy (some dst) src n ≡ some (take n src ++ drop n dst)
memcpy_fits dst src n h k = ground arith

-- The first `n` bytes after a `memcpy` of `n` bytes.
pub take-overwrite :
    (dst src : List ℕ) (n : ℕ) → n ≤ length src → take n (take n src ++ drop n dst) ≡ take n src
take-overwrite dst src n h =
    take_append_of_length n (take n src) (drop n dst) (omega (arith, length-take n src))

pub length-overwrite :
    (dst src : List ℕ) (n : ℕ)
    → n ≤ length src
    → n ≤ length dst
    → length (take n src ++ drop n dst) ≡ length dst
length-overwrite dst src n h k =
    omega (arith, length-append (take n src) (drop n dst), length-take n src, length-drop n dst)

module _ (c : Cuda) (laws : CudaLaws c) where
  -- The row's device pointer, if it has one, is an allocation of the row's size.
  abbrev pub IsBacked : Placed c → Type 0
  IsBacked s = (p : ℕ) → s.row.actual_devptr ≡ some p → laws.Holds s.device p s.row.size

  abbrev pub copy_both : Placed c → List ℕ → List ℕ → ℕ → Option (Placed c × List ℕ)
  copy_both s src dest n = do (s', unused) ← copy_row c s [] src n h2d; copy_row c s' dest [] n d2h

  pub fetch_lem :
      (s : Placed c) (dest b : List ℕ) (n p : ℕ)
      → laws.Holds s.device p s.row.size
      → s.row.actual_devptr ≡ some p
      → s.row.swap ≡ some b
      → length b ≡ s.row.size
      → n ≤ s.row.size
      → n ≤ length dest
      → (t : Placed c) × (fetch c s dest n
          ≡ some (t, take n (c.download s.device p n) ++ drop n dest))
  unfolding fetch
  fetch_lem s dest b n p holds f g hb hn hd =
      let z : List ℕ = take n (c.download s.device p n) ++ drop n b in
      (
        record s { row = record s.row { swap = some z; status = ready } },
        ground (
          arith,
          laws.length-download s.device p s.row.size n holds hn,
          length-overwrite b (c.download s.device p n) n,
          take-overwrite b (c.download s.device p n) n,
        ),
      )

  -- A copy in, from a state with device memory at `p`, and the copy back through the device.
  through_device :
      (s : Placed c) (src dest b : List ℕ) (n p : ℕ)
      → laws.Holds s.device p s.row.size
      → s.row.actual_devptr ≡ some p
      → s.row.swap ≡ some b
      → length b ≡ s.row.size
      → n ≤ s.row.size
      → n ≤ length src
      → n ≤ length dest
      → let b' = take n src ++ drop n b in
        (t : Placed c) × (fetch c
            (record {
              row = record s.row { swap = some b'; status = ready };
              device = c.upload s.device p (take n b');
            })
            dest
            n
          ≡ some (t, take n src ++ drop n dest))
  through_device s src dest b n p holds f g hb hn hs hd =
      let b' : List ℕ = take n src ++ drop n b in
      let s' : Placed c = record {
        row = record s.row { swap = some b'; status = ready };
        device = c.upload s.device p (take n b');
      } in
      let k : length (take n b') ≡ n =
        omega (arith, ap length (take-overwrite b src n hs), length-take n src) in
      let (t, e) =
        fetch_lem s' dest b' n p (laws.upload-Holds s.device p p s.row.size (take n b') holds) f
          refl (length-overwrite b src n hs (omega arith) ∙ hb) hn hd in
      (
        t,
        e
            ∙ ap (λ (l : List ℕ). some (t, l ++ drop n dest))
                (laws.download_upload s.device p s.row.size (take n b') holds (omega arith) n
                    (omega arith)
                  ∙ take-take n b'
                  ∙ take-overwrite b src n hs),
      )

  copy_both_by :
      (st : VmemStatus) (s : Placed c) (src dest b : List ℕ) (n : ℕ)
      → st ≡ s.row.status
      → IsWellFormed s.row
      → IsBacked s
      → s.row.swap ≡ some b
      → length b ≡ s.row.size
      → n ≤ s.row.size
      → n ≤ length src
      → n ≤ length dest
      → (t : Placed c) × (copy_both s src dest n ≡ some (t, take n src ++ drop n dest))
  unfolding copy_row copy_in copy_out_by
  copy_both_by st s src dest b n e w backed g hb hn hs hd =
      elim (Option-cases s.row.actual_devptr) [
        | inl f ↦ (
          record s {
            row = record s.row { swap = some (take n src ++ drop n b); status = memwait };
          },
          ground (
            arith,
            memcpy_fits b src n hs,
            memcpy_fits dest (take n src ++ drop n b) n,
            take-overwrite b src n hs,
            length-overwrite b src n hs,
          ),
        )
        | inr (p, f) ↦
            let (t, q) = through_device s src dest b n p (backed p f) f g hb hn hs hd in
            (t, ground (arith, q))
      ]

  -- What the application copies to a valid row it reads back: on a well-formed row whose device
  -- pointer, if it has one, is an allocation of its size, after `mem_map_memcpy` of `n` bytes of
  -- `src` to the row, a copy of `n` bytes from the row succeeds and leaves them at the front of
  -- `dest`, whether the bytes went to the device or only to the swap space, for `n` up to the
  -- lengths of `src`, `dest` and the row.
  pub copy_both_lem :
      (s : Placed c) (src dest : List ℕ) (n : ℕ)
      → IsWellFormed s.row
      → IsBacked s
      → s.row.valid ≡ true
      → n ≤ s.row.size
      → n ≤ length src
      → n ≤ length dest
      → (t : Placed c) × (copy_both s src dest n ≡ some (t, take n src ++ drop n dest))
  copy_both_lem s src dest n w backed v hn hs hd = elim (Option-cases s.row.swap) [
    | inl f ↦ absurd (ground (arith, w.backed v))
    | inr (b, f) ↦
        copy_both_by s.row.status s src dest b n refl w backed f (ground (arith, w.backed v)) hn hs
          hd
  ]

  -- A row just created is backed: its pointer is what `cudaMalloc` returned for its size.
  pub creat_row-IsBacked :
      (buf : Option (List ℕ)) (size : ℕ) (s : Placed c) → IsBacked (creat_row c buf size s)
  unfolding creat_row
  creat_row-IsBacked buf size s p h = laws.malloc-Holds s.device size p h
