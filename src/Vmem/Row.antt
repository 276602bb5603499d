-- ===== src/Vmem/Row.antt =====
-- virtmem/cuda_vmem.h: the rows of the memory map, host buffers, and the CUDA runtime as a parameter.
use gpu_virtmem.Prelude.{
  ℕ, ◌≤◌, ◌≡◌, Bool, List, ◌++◌, Option, none, some, ◌&&◌, leb, length, take, drop, if◌then◌else◌,
}
use mathlib.Core.Option

-- `enum vmem_status`.
pub data VmemStatus : Type 0 where
  noalloc init ready modified memwait deferred : VmemStatus

-- `struct mem_map`: `none` is a NULL pointer, and a host buffer is the list of its bytes.
pub record MemMap : Type 0 where
  pub valid : Bool
  pub handle : ℕ
  pub actual_devptr : Option ℕ
  pub swap : Option (List ℕ)
  pub size : ℕ
  pub status : VmemStatus
  pub pid : ℕ
  pub freq : ℕ

-- `struct mem_map ** table`: the rows that the array of pointers names.
abbrev pub Table : Type 0
Table = List MemMap

-- A device pointer of the application: `cudaMalloc` hands out the address of a row's `handle`.
pub data AppPtr : Type 0 where
  null : AppPtr
  handle_of : ℕ → AppPtr
  other : ℕ → AppPtr

-- `memcpy(dst, src, n)` between host buffers; `none` is an access outside one of them.
abbrev pub memcpy : Option (List ℕ) → List ℕ → ℕ → Option (List ℕ)
memcpy none src n = none
memcpy (some dst) src n =
    if leb n (length src) && leb n (length dst) then some (take n src ++ drop n dst) else none

abbrev pub buffer_length : Option (List ℕ) → Option ℕ
buffer_length = Option.map length

-- The calls of the CUDA runtime that the memory map makes, over the state of one device.
-- `upload` and `download` are `cudaMemcpy` to and from the device, `none` is `cudaMalloc` failing.
pub record Cuda : Type 1 where
  pub Device : Type 0
  pub malloc : Device → ℕ → Option ℕ × Device
  pub free : Device → ℕ → Device
  pub upload : Device → ℕ → List ℕ → Device
  pub download : Device → ℕ → ℕ → List ℕ

-- What the CUDA documentation promises of them. `Holds d p n`: at `p` the device `d` has an
-- allocation of at least `n` bytes.
pub record CudaLaws (c : Cuda) : Type 1 where
  pub Holds : c.Device → ℕ → ℕ → Type 0
  pub malloc-Holds :
      (d : c.Device) (n p : ℕ) → (c.malloc d n).0 ≡ some p → Holds (c.malloc d n).1 p n
  pub upload-Holds :
      (d : c.Device) (p q n : ℕ) (bs : List ℕ) → Holds d q n → Holds (c.upload d p bs) q n
  pub length-download :
      (d : c.Device) (p n m : ℕ) → Holds d p n → m ≤ n → length (c.download d p m) ≡ m
  pub download_upload :
      (d : c.Device) (p n : ℕ) (bs : List ℕ)
      → Holds d p n
      → length bs ≤ n
      → (m : ℕ) → m ≤ length bs
      → take m (c.download (c.upload d p bs) p m) ≡ take m bs
  pub download-prefix :
      (d : c.Device) (p n m : ℕ) → m ≤ n → take m (c.download d p n) ≡ take m (c.download d p m)
