-- ===== src/Vmem/Paging.antt =====
-- virtmem/cuda_vmem.c: what a launch needs paged in, paging in and out, and the launch itself.
pub mod Needs
pub mod In
pub mod Out
pub mod Launch
mod Tests
use gpu_virtmem.Prelude.{
  ℕ, zero, suc, ◌+◌, ◌%◌, ◌^◌, Bool, true, false, ◌&&◌, List, [], ◌∷◌, ◌++◌, Option, none, some,
  ltb, ◌==◌, take, ◌>>=◌, ℤ, pos, negsuc, length, get_elem?, set, if◌then◌else◌, Outcome, done,
  fault, no_fuel, or_fault,
}
use gpu_virtmem.Vmem.Row.{
  VmemStatus, noalloc, init, ready, modified, memwait, deferred, MemMap, Table, Cuda,
}
use gpu_virtmem.Vmem.Map.{Placed, from_device}
use gpu_virtmem.Vmem.Kernels.{KernelArg, KernelNode, Kmap, Dim3}

-- `(status == D_MEMWAIT) || (status == D_DEFERRED)`
abbrev pub needs_page_in : VmemStatus → Bool
needs_page_in memwait = true
needs_page_in deferred = true
needs_page_in _ = false

-- One round of the loop of `gvirt_is_paging_required`: `reqarr` has room for 50 indices.
abbrev add_request : Table → ℤ → List ℕ → Option (List ℕ)
add_request table (negsuc k) reqarr = some reqarr
add_request table (pos k) reqarr = do
  r ← get_elem? table k
  if r.valid && needs_page_in r.status
      then if ltb (length reqarr) 50 then some (reqarr ++ (k ∷ [])) else none
      else some reqarr

-- `while (iter) { …; iter = iter->next; }`
needs_loop : ℕ → Table → List KernelArg → Option ℕ → List ℕ → Outcome (List ℕ)
needs_loop fuel table nodes none reqarr = done reqarr
needs_loop zero table nodes (some i) reqarr = no_fuel
needs_loop (suc fuel) table nodes (some i) reqarr = or_fault (get_elem? nodes i) λ iter.
    or_fault (add_request table iter.mem_map_index reqarr)
      λ more. needs_loop fuel table nodes iter.next more

-- The end of `gvirt_is_paging_required`: where no page is required `reqsize` is NULL when
-- `*reqsize = len` is executed.
pub give_request : Outcome (List ℕ) → Outcome (List ℕ)
give_request (done []) = fault
give_request (done (i ∷ reqarr)) = done (i ∷ reqarr)
give_request fault = fault
give_request no_fuel = no_fuel

-- `gvirt_is_paging_required`, with the array that it fills in where it returns 1. The array and its
-- length go to the function's own copies of its pointer arguments, not to the caller's.
pub gvirt_is_paging_required : Kmap → ℕ → Table → Outcome (List ℕ)
unfolding needs_loop give_request
gvirt_is_paging_required k kindex table = or_fault (get_elem? k.kobjects kindex) λ object.
    give_request (
      needs_loop (length object.arg_list.nodes) table object.arg_list.nodes object.arg_list.head [])

-- The messages of a paging request: the named pipes, the signals and the timer.
pub data Fifo : Type 0 where
  pager_fifo : Fifo
  client_fifo : ℕ → Fifo

pub data PagingEvent : Type 0 where
  stop_timer : PagingEvent
  notify_scheduler : ℕ → PagingEvent
  make_fifo : Fifo → PagingEvent
  write_request : List ℕ → ℕ → PagingEvent
  await_pager : ℕ → PagingEvent
  await_request : ℕ → PagingEvent
  report_done : ℕ → PagingEvent

module _ (c : Cuda) where
  -- The memory map, the device that it manages, and the pointers in the memory of the host: `words a`
  -- is the one that stands at the address `a`, `none` where the process has no memory.
  pub record World : Type 0 where
    pub table : Table
    pub device : c.Device
    pub words : ℕ → Option ℕ

  -- The copy of the swap space to the device; with a NULL swap `cudaMemcpy` only returns an error.
  upload_swap : MemMap → c.Device → ℕ → c.Device
  upload_swap r d p = elim r.swap [ none ↦ d | some bytes ↦ c.upload d p (take r.size bytes) ]

  -- The body of the branch of `gvirt_page_in`. `cudaMalloc` is given the value of `actual_devptr` as the
  -- place where to store the new address, and the copy goes to the address that then stands there; a
  -- NULL pointer, or one to where the process has no memory, is not read through. Where `cudaMalloc`
  -- fails the word stays as it was. The row's pointer is not assigned.
  fill_row : MemMap → World → Option (MemMap × World)
  unfolding upload_swap
  fill_row r w = do
    place ← r.actual_devptr
    old ← w.words place
    let (given, d) = c.malloc w.device r.size in
        some (
          record r { status = ready },
          elim given [
            | none ↦ record w { device = upload_swap r d old }
            | some p ↦ record w {
              device = upload_swap r d p;
              words = λ a. if a == place then some p else w.words a;
            }
          ],
        )

  -- One round of its loop.
  page_in_row : MemMap → World → Option (MemMap × World)
  unfolding fill_row
  page_in_row r w = if needs_page_in r.status then fill_row r w else some (r, w)

  page_in_rows : List ℕ → World → Option World
  page_in_rows [] w = some w
  page_in_rows (k ∷ reqarr) w = do
    r ← get_elem? w.table k
    (r', w') ← page_in_row r w
    page_in_rows reqarr (record w' { table = set w.table k r' })

  -- `gvirt_page_in` with `reqarr[0 .. len)` in the process `pid` on the device `gpu`; `sem` says
  -- whether `semget` succeeds. Where it fails the function returns with nothing paged in.
  pub gvirt_page_in : Bool → ℕ → ℕ → List ℕ → World → List PagingEvent × Option World
  unfolding page_in_rows page_in_row
  gvirt_page_in sem gpu pid reqarr w =
      let start : List PagingEvent =
        stop_timer
        ∷ notify_scheduler gpu
        ∷ make_fifo pager_fifo
        ∷ make_fifo (client_fifo pid)
        ∷ [] in
      let asked = start ++ (write_request reqarr pid ∷ await_pager pid ∷ []) in
      if sem
      then elim (page_in_rows reqarr w) [
        | none ↦ (asked, none)
        | some w' ↦ (asked ++ (report_done pid ∷ []), some w')
      ]
      else (start, some w)

  -- The body of the branch of `gvirt_page_out` for a row with data on the device.
  free_row : Placed c → Option (Placed c)
  free_row s = do
    swap ← from_device c s.device s.row.actual_devptr s.row.swap s.row.size
    some (record {
      row = record s.row { swap = swap; actual_devptr = none; status = memwait };
      device = elim s.row.actual_devptr [ none ↦ s.device | some p ↦ c.free s.device p ];
    })

  page_out_by : VmemStatus → Placed c → Option (Placed c)
  page_out_by ready s = free_row s
  page_out_by modified s = free_row s
  page_out_by _ s = some s

  -- One round of the loop of `gvirt_page_out`.
  pub page_out_row : Placed c → Option (Placed c)
  unfolding page_out_by free_row
  page_out_row s = page_out_by s.row.status s

  page_out_rows : List ℕ → World → Option World
  page_out_rows [] w = some w
  page_out_rows (k ∷ reqarr) w = do
    r ← get_elem? w.table k
    s ← page_out_row (record { row = r; device = w.device })
    page_out_rows reqarr (record w { table = set w.table k s.row; device = s.device })

  -- `gvirt_page_out`, where the pager sends the indices `reqarr[0 .. len)` to the process `pid`.
  pub gvirt_page_out : ℕ → List ℕ → World → List PagingEvent × Option World
  unfolding page_out_rows page_out_row
  gvirt_page_out pid reqarr w =
      let start : List PagingEvent = make_fifo (client_fifo pid) ∷ await_request pid ∷ [] in
      elim (page_out_rows reqarr w) [
        | none ↦ (start, none)
        | some w' ↦ (start ++ (report_done pid ∷ []), some w')
      ]

-- The calls that a launch makes of the CUDA runtime.
pub data ArgValue : Type 0 where
  device_ptr : Option ℕ → ArgValue
  host_value : ℕ → ArgValue

pub data LaunchCall : Type 0 where
  configure : Dim3 → Dim3 → ℕ → ℕ → LaunchCall
  setup_argument : ArgValue → ℕ → ℕ → LaunchCall
  launch : List ℕ → LaunchCall

-- One round of the loop of `gvirt_cuda_launch_index`, for the argument `arg` that names the row `i`,
-- if any: the value that is set up, and the row's use count.
pub launch_arg : Table → ℤ → ℕ → Option (Table × ArgValue)
launch_arg table (negsuc k) arg = some (table, host_value arg)
launch_arg table (pos k) arg = do
  r ← get_elem? table k
  some (set table k (record r { freq = (r.freq + 1) % 2 ^ 32 }), device_ptr r.actual_devptr)

-- The loop, in which `iter` keeps its value. The calls made so far are `calls`.
pub launch_loop :
    ℕ → List KernelArg → Option ℕ → Table → List LaunchCall → Outcome (Table × List LaunchCall)
unfolding launch_arg
launch_loop fuel nodes none table calls = done (table, calls)
launch_loop zero nodes (some i) table calls = no_fuel
launch_loop (suc fuel) nodes (some i) table calls = or_fault (get_elem? nodes i) λ iter.
    or_fault (launch_arg table iter.mem_map_index iter.arg) λ (table', v).
      launch_loop fuel nodes (some i) table'
        (calls ++ (setup_argument v iter.size iter.offset ∷ []))

-- `gvirt_cuda_launch_index`, with `fuel` rounds of the loop.
pub gvirt_cuda_launch_index : ℕ → Kmap → ℕ → Table → Outcome (Table × List LaunchCall)
unfolding launch_loop
gvirt_cuda_launch_index fuel k index table = or_fault (get_elem? k.kobjects index) λ node.
    let start : List LaunchCall =
      configure node.grid_dim node.block_dim node.shared_mem node.stream ∷ [] in
    elim (launch_loop fuel node.arg_list.nodes node.arg_list.head table start) [
      | done (table', calls) ↦ done (table', calls ++ (launch node.func ∷ []))
      | fault ↦ fault
      | no_fuel ↦ no_fuel
    ]
