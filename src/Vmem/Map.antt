-- ===== src/Vmem/Map.antt =====
-- virtmem/cuda_vmem.c: the operations on the memory map, `mem_map_init` to `mem_map_memcpy`.
pub mod Inv
pub mod Transfer
pub mod Find
mod Tests
use gpu_virtmem.Prelude.{
  ℕ, zero, suc, ◌+◌, Bool, true, false, List, [], ◌∷◌, Option, none, some, ◌==◌, take, get_elem?,
  set, ◌>>=◌, ℤ, pos, negsuc, if◌then◌else◌,
}
use gpu_virtmem.Vmem.Row.{
  VmemStatus, noalloc, init, ready, modified, memwait, deferred, MemMap, Table, AppPtr, null,
  handle_of, other, memcpy, Cuda,
}

abbrev cleared : ℕ → ℕ → MemMap
cleared pid i = record {
  valid = false;
  handle = i;
  actual_devptr = none;
  swap = none;
  size = 0;
  status = noalloc;
  pid = pid;
  freq = 0;
}

-- The rounds of the loop from row `i` on.
init_rows : ℕ → ℕ → ℕ → Table → Option Table
init_rows pid i zero rows = some rows
init_rows pid i (suc n) [] = none
init_rows pid i (suc n) (r ∷ rows) = do
  rest ← init_rows pid (i + 1) n rows
  some (cleared pid i ∷ rest)

-- `pid` is what `getpid()` returns.
pub mem_map_init : ℕ → Table → ℕ → Option Table
unfolding init_rows
mem_map_init pid table size = init_rows pid 0 size table

-- `&table[k]->handle`
abbrev same_handle : AppPtr → ℕ → Bool
same_handle null k = false
same_handle (handle_of j) k = j == k
same_handle (other p) k = false

-- The search returns the position in `indexes`, or -1. The list is `indexes[i .. len)`.
find_from : ℕ → List ℤ → AppPtr → ℤ
find_from i [] devptr = negsuc 0
find_from i (negsuc k ∷ indexes) devptr = find_from (i + 1) indexes devptr
find_from i (pos k ∷ indexes) devptr =
    let rest = find_from (i + 1) indexes devptr in if same_handle devptr k then pos i else rest

pub mem_map_find_entry : List ℤ → AppPtr → ℤ
unfolding find_from
mem_map_find_entry indexes devptr = find_from 0 indexes devptr

-- The third argument of `mem_map_memcpy`; its other values fall through the `switch`.
pub data CopyType : Type 0 where
  h2d d2h neither : CopyType

module _ (c : Cuda) where
  -- A row with the device that its pointers refer to.
  pub record Placed : Type 0 where
    pub row : MemMap
    pub device : c.Device

  -- `mem_map_creat` on the row `table[index]`. `buf` is what the host's `malloc(size)` returns.
  -- The assignments to `devptr` change the parameter alone, so the caller's pointer is not set.
  pub creat_row : Option (List ℕ) → ℕ → Placed → Placed
  creat_row buf size s = record {
    row = record s.row {
      actual_devptr = allocated.0;
      status = elim allocated.0 [ some p ↦ init | none ↦ noalloc ];
      swap = buf;
      size = size;
      valid = true;
    };
    device = allocated.1;
  }
    where
      allocated : Option ℕ × c.Device
      allocated = c.malloc s.device size

  unfoldable pub free_if : Option ℕ → c.Device → c.Device
  free_if none d = d
  free_if (some p) d = c.free d p

  -- `mem_map_delete` on the row.
  unfoldable pub delete_row : Placed → Placed
  unfolding free_if
  delete_row s = record {
    row = record s.row {
      actual_devptr = none;
      swap = none;
      size = 0;
      status = noalloc;
      valid = false;
    };
    device = free_if s.row.actual_devptr s.device;
  }

  -- `cudaMemcpy(devptr, …, cudaMemcpyHostToDevice)`: at NULL it returns an error that is ignored.
  abbrev pub to_device : c.Device → Option ℕ → List ℕ → c.Device
  to_device d none bs = d
  to_device d (some p) bs = c.upload d p bs

  -- `cudaMemcpy(swap, devptr, n, cudaMemcpyDeviceToHost)`
  abbrev pub from_device : c.Device → Option ℕ → Option (List ℕ) → ℕ → Option (Option (List ℕ))
  from_device d none swap n = some swap
  from_device d (some p) swap n = do b ← memcpy swap (c.download d p n) n; some (some b)

  after_upload : VmemStatus → VmemStatus
  after_upload init = ready
  after_upload ready = ready
  after_upload modified = ready
  after_upload noalloc = memwait
  after_upload memwait = memwait
  after_upload deferred = deferred

  uploaded : VmemStatus → c.Device → Option ℕ → List ℕ → c.Device
  uploaded init d p bs = to_device d p bs
  uploaded ready d p bs = to_device d p bs
  uploaded modified d p bs = to_device d p bs
  uploaded _ d p bs = d

  -- The case `CUDA_MEMCPY_H2D`: `src` goes to the swap space, and on to the device if it has one.
  copy_in : Placed → List ℕ → ℕ → Option Placed
  unfolding after_upload uploaded
  copy_in s src size = do
    b ← memcpy s.row.swap src size
    some (record {
      row = record s.row { swap = some b; status = after_upload s.row.status };
      device = uploaded s.row.status s.device s.row.actual_devptr (take size b);
    })

  abbrev read_swap : Placed → List ℕ → ℕ → Option (Placed × List ℕ)
  read_swap s dest size = do b ← s.row.swap; out ← memcpy (some dest) b size; some (s, out)

  pub fetch : Placed → List ℕ → ℕ → Option (Placed × List ℕ)
  fetch s dest size = do
    swap ← from_device s.device s.row.actual_devptr s.row.swap size
    b ← swap
    out ← memcpy (some dest) b size
    some (record s { row = record s.row { swap = swap; status = ready } }, out)

  -- The case `CUDA_MEMCPY_D2H`, with the bytes of `dest` afterwards.
  unfoldable pub copy_out_by : VmemStatus → Placed → List ℕ → ℕ → Option (Placed × List ℕ)
  copy_out_by noalloc s dest size = some (s, dest)
  copy_out_by init s dest size = some (s, dest)
  copy_out_by ready s dest size = fetch s dest size
  copy_out_by modified s dest size = fetch s dest size
  copy_out_by memwait s dest size = read_swap s dest size
  copy_out_by deferred s dest size = read_swap s dest size

  -- `mem_map_memcpy` on the row, with the bytes behind `dest` and `src`: the handle that stands for
  -- the row itself is not read through. Returned are the row, the device and the bytes of `dest`.
  unfoldable pub copy_row : Placed → List ℕ → List ℕ → ℕ → CopyType → Option (Placed × List ℕ)
  unfolding copy_in copy_out_by fetch
  copy_row s dest src size h2d = do s' ← copy_in s src size; some (s', dest)
  copy_row s dest src size d2h = copy_out_by s.row.status s dest size
  copy_row s dest src size neither = some (s, dest)
