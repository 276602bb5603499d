-- ===== src/Vmem/Paging/In.antt =====
-- `gvirt_page_in` on the requests that `gvirt_is_paging_required` makes.
use gpu_virtmem.Prelude.{
  subst, ℕ, zero, suc, ◌≡◌, refl, true, ◌&&◌, List, [], ◌∷◌, ◌++◌, Option, none, some, ℤ, pos,
  negsuc, get_elem?, arith, Option-cases, Bool-cases, inl, inr, Outcome, done, fault, no_fuel, ltb,
  length, Each, Each-get_elem?,
}
use gpu_virtmem.Vmem.Row.{
  VmemStatus, noalloc, init, ready, modified, memwait, deferred, MemMap, Table, Cuda,
}
use gpu_virtmem.Vmem.Map.Inv.{IsWellFormed, is_some, on_device}
use gpu_virtmem.Vmem.Kernels.{KernelArg, Kmap}
use gpu_virtmem.Vmem.Paging.{
  needs_page_in, add_request, needs_loop, give_request, gvirt_is_paging_required, World, stop_timer,
  notify_scheduler, make_fifo, pager_fifo, client_fifo, write_request, await_pager, page_in_row,
  fill_row, page_in_rows, gvirt_page_in,
}

abbrev pub AllWellFormed : Table → Type 0
AllWellFormed table = Each IsWellFormed table

-- Every requested row is in the table and needs paging in.
abbrev pub AllNeed : Table → List ℕ → Type 0
AllNeed table [] = Unit
AllNeed table (k ∷ ks) =
    ((r : MemMap) × (get_elem? table k ≡ some r) × (needs_page_in r.status ≡ true))
    × AllNeed table ks

AllNeed-append :
    (table : Table) (ks : List ℕ) (k : ℕ) (r : MemMap)
    → AllNeed table ks
    → get_elem? table k ≡ some r
    → needs_page_in r.status ≡ true
    → AllNeed table (ks ++ (k ∷ []))
AllNeed-append table [] k r h e n = ((r, e, n), tt)
AllNeed-append table (j ∷ ks) k r h e n = (h.0, AllNeed-append table ks k r h.1 e n)

add_request-AllNeed :
    (table : Table) (i : ℤ) (acc : List ℕ) {out : List ℕ}
    → AllNeed table acc
    → add_request table i acc ≡ some out
    → AllNeed table out
add_request-AllNeed table (negsuc k) acc h e = subst (AllNeed table) (ground arith) h
add_request-AllNeed table (pos k) acc h e = elim (Option-cases (get_elem? table k)) [
  | inl f ↦ absurd (ground arith)
  | inr (r, f) ↦ elim (Bool-cases (r.valid && needs_page_in r.status)) [
    | inl g ↦ elim (Bool-cases (ltb (length acc) 50)) [
      | inl l ↦
          subst (AllNeed table) (ground arith) (AllNeed-append table acc k r h f (ground arith))
      | inr l ↦ absurd (ground arith)
    ]
    | inr g ↦ subst (AllNeed table) (ground arith) h
  ]
]

needs_loop-AllNeed :
    (fuel : ℕ) (table : Table) (nodes : List KernelArg) (cur : Option ℕ) (acc : List ℕ)
    {out : List ℕ}
    → AllNeed table acc
    → needs_loop fuel table nodes cur acc ≡ done out
    → AllNeed table out
unfolding needs_loop
needs_loop-AllNeed zero table nodes none acc h e = subst (AllNeed table) (ground arith) h
needs_loop-AllNeed (suc fuel) table nodes none acc h e = subst (AllNeed table) (ground arith) h
needs_loop-AllNeed zero table nodes (some i) acc h e = absurd (ground arith)
needs_loop-AllNeed (suc fuel) table nodes (some i) acc h e =
    elim (Option-cases (get_elem? nodes i)) [
      | inl f ↦ absurd (ground arith)
      | inr (iter, f) ↦ elim (Option-cases (add_request table iter.mem_map_index acc)) [
        | inl g ↦ absurd (ground arith)
        | inr (more, g) ↦
            needs_loop-AllNeed fuel table nodes iter.next more
              (add_request-AllNeed table iter.mem_map_index acc h g) (ground arith)
      ]
    ]

-- A list that is not empty and whose first row needs paging in.
abbrev StartsWithNeed : Table → List ℕ → Type 0
StartsWithNeed table [] = ⊥
StartsWithNeed table (k ∷ ks) =
    (r : MemMap) × (get_elem? table k ≡ some r) × (needs_page_in r.status ≡ true)

give_request-StartsWithNeed :
    (table : Table) (o : Outcome (List ℕ)) {reqarr : List ℕ}
    → ((ks : List ℕ) → o ≡ done ks → AllNeed table ks)
    → give_request o ≡ done reqarr
    → StartsWithNeed table reqarr
unfolding give_request
give_request-StartsWithNeed table (done []) all e = cc
give_request-StartsWithNeed table (done (k ∷ ks)) all e =
    subst (StartsWithNeed table) {x = k ∷ ks} (ground arith) (all (k ∷ ks) refl).0
give_request-StartsWithNeed table fault all e = cc
give_request-StartsWithNeed table no_fuel all e = cc

required-StartsWithNeed :
    (k : Kmap) (kindex : ℕ) (table : Table) {reqarr : List ℕ}
    → gvirt_is_paging_required k kindex table ≡ done reqarr
    → StartsWithNeed table reqarr
unfolding gvirt_is_paging_required
required-StartsWithNeed k kindex table e = elim (Option-cases (get_elem? k.kobjects kindex)) [
  | inl f ↦ absurd (ground arith)
  | inr (object, f) ↦
      let args = object.arg_list in
      give_request-StartsWithNeed table
        (needs_loop (length args.nodes) table args.nodes args.head [])
        (λ ks g. needs_loop-AllNeed (length args.nodes) table args.nodes args.head [] tt g)
        (ground arith)
]

needed :
    (st : VmemStatus) (p : Option ℕ) → is_some p ≡ on_device st → needs_page_in st ≡ true → p ≡ none
needed memwait p h n = ground arith
needed deferred p h n = ground arith
needed noalloc p h n = cc
needed init p h n = cc
needed ready p h n = cc
needed modified p h n = cc

-- A well-formed row that needs paging in has no memory on the device.
actual_devptr-needs :
    (r : MemMap) → IsWellFormed r → needs_page_in r.status ≡ true → r.actual_devptr ≡ none
actual_devptr-needs r w n = needed r.status r.actual_devptr w.placed n

module _ (c : Cuda) where
  page_in_rows-none :
      (reqarr : List ℕ) (w : World c)
      → AllWellFormed w.table
      → StartsWithNeed w.table reqarr
      → page_in_rows c reqarr w ≡ none
  unfolding page_in_rows page_in_row fill_row
  page_in_rows-none [] w g h = absurd h
  page_in_rows-none (k ∷ ks) w g (r, e, n) =
      let empty : r.actual_devptr ≡ none =
        actual_devptr-needs r (Each-get_elem? IsWellFormed w.table k r g e) n in
      ground (arith, e, n, empty)

  -- In a table whose rows are all well formed, and with the semaphore there, `gvirt_page_in` cannot page
  -- in the rows that `gvirt_is_paging_required` finds for a kernel: it stops the timer, notifies the
  -- scheduler, sends the request and waits for the pager, and then reads through the NULL pointer of
  -- the first of these rows, with nothing reported back.
  pub gvirt_page_in_fault :
      (k : Kmap) (kindex gpu pid : ℕ) (w : World c) {reqarr : List ℕ}
      → AllWellFormed w.table
      → gvirt_is_paging_required k kindex w.table ≡ done reqarr
      → gvirt_page_in c true gpu pid reqarr w ≡ (
        stop_timer
            ∷ notify_scheduler gpu
            ∷ make_fifo pager_fifo
            ∷ make_fifo (client_fifo pid)
            ∷ write_request reqarr pid
            ∷ await_pager pid
            ∷ [],
        none,
      )
  unfolding gvirt_page_in
  gvirt_page_in_fault k kindex gpu pid w {reqarr} g e =
      rw (page_in_rows-none reqarr w g (required-StartsWithNeed k kindex w.table e))
