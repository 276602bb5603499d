-- ===== src/Vmem/Server.antt =====
-- remote/remote_api_wrapper.c, the `_srv` handlers as they are with `PAGER` defined: the calls of one
-- process on the memory map and on the kernel map.
pub mod Laws
mod Tests
use gpu_virtmem.Prelude.{
  ℕ, zero, suc, ◌+◌, Bool, true, false, List, [], ◌∷◌, ◌++◌, Option, none, some, ◌>>=◌, ℤ, pos,
  negsuc, int_size, length, get_elem?, set, ltb, if◌then◌else◌,
}
use gpu_virtmem.Vmem.Row.{MemMap, Table, AppPtr, Cuda}
use gpu_virtmem.Vmem.Map.{
  Placed, creat_row, delete_row, mem_map_find_entry, CopyType, h2d, d2h, neither, copy_row,
}
use gpu_virtmem.Vmem.Kernels.{Kmap, Dim3, kmap_add_arg, kmap_add_config}

abbrev pub max_memory : ℕ
max_memory = 10000

-- `packet->ret_ex_val.err`: `cudaSuccess` or another code.
pub data CudaError : Type 0 where
  success : CudaError
  failure : ℕ → CudaError

module _ (c : Cuda) where
  -- `local_arr` is `vmapped_local_arr[0 .. localindex)`, of a process whose packets name `table` as
  -- `vmmap` and `kmap` as `kmap`; `vmap_index` is the counter that the processes share, and
  -- `err` the code in the packet of the call.
  pub record Session : Type 0 where
    pub table : Table
    pub device : c.Device
    pub kmap : Kmap
    pub vmap_index : ℕ
    pub local_arr : List ℤ
    pub err : CudaError

  -- `nvbackCudaMalloc_srv`; `sem` says whether `semget` succeeds, `buf` what `malloc` returns in
  -- `mem_map_creat`. The result says whether the function returns `OK`.
  pub malloc_srv : Bool → Option (List ℕ) → ℕ → Session → Option (Session × Bool)
  malloc_srv false buf size s = some (s, false)
  malloc_srv true buf size s = do
    r ← get_elem? s.table s.vmap_index
    let new = creat_row c buf size (record { row = r; device = s.device })
    arr ←
        if ltb (length s.local_arr) max_memory
        then some (s.local_arr ++ (pos s.vmap_index ∷ []))
        else none
    some (
      record s {
        table = set s.table s.vmap_index new.row;
        device = new.device;
        vmap_index = s.vmap_index + 1;
        local_arr = arr;
        err = success;
      },
      true,
    )

  -- `vmapped_local_arr[id]` as an index of the table.
  abbrev pub local_row : List ℤ → ℤ → Option ℤ
  local_row arr (negsuc k) = none
  local_row arr (pos j) = get_elem? arr j

  abbrev pub row_at : Table → ℤ → Option MemMap
  row_at table (negsuc k) = none
  row_at table (pos j) = get_elem? table j

  abbrev pub set_row : Table → ℤ → MemMap → Table
  set_row table (negsuc k) r = table
  set_row table (pos j) r = set table j r

  pub is_success : CudaError → Bool
  is_success success = true
  is_success (failure k) = false

  -- The branch `id > 0` of `nvbackCudaFree_srv`.
  free_found : ℕ → Session → Option (Session × Bool)
  free_found id s = do
    index ← get_elem? s.local_arr id
    r ← row_at s.table index
    let gone = delete_row c (record { row = r; device = s.device })
    some (
      record s {
        table = set_row s.table index gone.row;
        device = gone.device;
        local_arr = set s.local_arr id (negsuc 0);
        err = success;
      },
      true,
    )

  free_by : ℤ → Session → Option (Session × Bool)
  unfolding free_found is_success
  free_by (negsuc k) s = some (s, is_success s.err)
  free_by (pos zero) s = some (s, is_success s.err)
  free_by (pos (suc id)) s = free_found (suc id) s

  -- `nvbackCudaFree_srv`; `err` is the code in the packet, as it was sent.
  pub free_srv : CudaError → AppPtr → Session → Option (Session × Bool)
  unfolding free_by
  free_srv err p s = free_by (mem_map_find_entry s.local_arr p) (record s { err = err })

  -- `nvbackCudaSetupArgument_srv`, where the bytes of the argument, read as a pointer, are `p` and,
  -- read as a number, `arg`.
  pub setup_argument_srv : AppPtr → ℕ → ℕ → ℕ → Session → Option (Session × Bool)
  setup_argument_srv p arg size offset s = do
    index ← local_row s.local_arr (mem_map_find_entry s.local_arr p)
    k ← kmap_add_arg s.kmap arg size offset index
    some (record s { kmap = k; err = success }, true)

  -- `nvbackCudaConfigureCall_srv`
  pub configure_call_srv : Dim3 → Dim3 → ℕ → ℕ → Session → Option (Session × Bool)
  configure_call_srv grid block shared stream s = do
    k ← kmap_add_config s.kmap grid block shared stream
    some (record s { kmap = k; err = success }, true)

  -- The end of `nvbackCudaMemcpy_srv`, from the call of `mem_map_find_entry` on, for `p` the device
  -- side of the copy; `dest` and `src` are the bytes of its host side. For a copy within the device
  -- `id` is not set when it is read. The size is passed as an `int`.
  pub memcpy_srv : AppPtr → List ℕ → List ℕ → ℕ → CopyType → Session → Option (Session × List ℕ)
  memcpy_srv p dest src size neither s = none
  memcpy_srv p dest src size kind s = do
    index ← local_row s.local_arr (mem_map_find_entry s.local_arr p)
    r ← row_at s.table index
    (t, out) ← copy_row c (record { row = r; device = s.device }) dest src (int_size size) kind
    some (record s { table = set_row s.table index t.row; device = t.device; err = success }, out)
