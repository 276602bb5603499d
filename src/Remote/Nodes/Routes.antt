-- ===== src/Remote/Nodes/Routes.antt =====
-- interposer/libci.c, the functions `cuda...` that the application calls: `cudaSetDevice` asks the
-- global scheduler for a device, and the others go to the node of the thread's device.
use gpu_virtmem.Prelude.{
  ℕ, Bool, List, Option, none, some, ◌>>=◌, ◌==◌, get_elem?, set, if◌then◌else◌,
}
use gpu_virtmem.Interposer.Vars.{HashTable}
use gpu_virtmem.Remote.Client.{Memory, Exchange}
use gpu_virtmem.Remote.Entry.{Entry}
use gpu_virtmem.Remote.Entry.Calls.{
  rcuda_thread_exit, rcuda_thread_synchronize, rcuda_get_device_properties, rcuda_set_device,
  rcuda_get_device, rcuda_setup_argument, rcuda_launch, rcuda_malloc, rcuda_free, rcuda_memcpy,
  rcuda_memcpy_to_symbol, rcuda_memcpy_from_symbol,
}
use gpu_virtmem.Remote.Nodes.{DeviceTables}

-- A thread of the application: its connection to the scheduler, the servers that it is connected to,
-- the memory, and `*CUR_DEV`, which begins with 0.
pub record AppThread (T N : Type 0) : Type 0 where
  pub scheduler : T
  pub nodes : List N
  pub memory : Memory
  pub cur_dev : ℕ

-- What a call leaves, the code that it returns, and what it stores through its pointer.
pub record AppResult (T N : Type 0) : Type 0 where
  pub thread : AppThread T N
  pub ret : ℕ
  pub stored : Option ℕ

-- `device_DRR` after `rcudaGetDevice`, which leaves it where it fails.
unfoldable pub device_drr : ℕ → Option ℕ → ℕ
device_drr backend_devices none = backend_devices
device_drr backend_devices (some d) = d

module _ {T N : Type 0} (sched : Exchange T) (node : Exchange N) (alloc : Bool)
    (tables : DeviceTables) (backend_devices first_local application_share : ℕ) where
  -- A call to a node, by its index.
  unfoldable pub call_node : ℕ → Entry N → AppThread T N → Option (AppResult T N)
  call_node i call a = get_elem? a.nodes i >>= (λ s. call s a.memory >>= (λ r. some (record {
    thread = record a { nodes = set a.nodes i r.state; memory = r.memory };
    ret = r.cuda_err;
    stored = r.stored;
  })))

  -- A call to the node of the current device.
  unfoldable pub call_current : Entry N → AppThread T N → Option (AppResult T N)
  call_current call a = get_elem? tables.dev_to_index a.cur_dev >>= (λ i. call_node i call a)

  -- `cudaSetDevice` after `rcudaGetDevice`: `d` is `device_DRR`.
  unfoldable pub enter_device : ℕ → AppThread T N → Option (AppResult T N)
  enter_device d a = get_elem? tables.dev_to_localdev d >>= (λ local.
      get_elem? tables.dev_to_index d >>= (λ i.
        call_node i (rcuda_set_device node alloc local 0 application_share) a >>= (λ r.
          some (if r.ret == 0 then record r { thread = record r.thread { cur_dev = d } } else r))))

  -- `cudaSetDevice`, for which `device` does not matter.
  unfoldable pub cuda_set_device_routed : ℕ → AppThread T N → Option (AppResult T N)
  cuda_set_device_routed device a =
      rcuda_get_device sched alloc backend_devices first_local 0 a.scheduler a.memory >>= (λ r.
        enter_device (device_drr backend_devices r.stored)
          (record a { scheduler = r.state; memory = r.memory }))

  -- `cudaGetDevice`
  unfoldable pub cuda_get_device_routed : AppThread T N → Option (AppResult T N)
  cuda_get_device_routed a = some (record { thread = a; ret = 0; stored = some a.cur_dev })

  -- `cudaGetDeviceCount`
  unfoldable pub cuda_get_device_count_routed : AppThread T N → Option (AppResult T N)
  cuda_get_device_count_routed a =
      some (record { thread = a; ret = 0; stored = some backend_devices })

  -- `cudaGetDeviceProperties`
  unfoldable pub cuda_get_device_properties_routed :
      ℕ → ℕ → ℕ → AppThread T N → Option (AppResult T N)
  cuda_get_device_properties_routed prop device size a =
      get_elem? tables.dev_to_localdev device >>= (λ local.
        get_elem? tables.dev_to_index device
        >>= (λ i. call_node i (rcuda_get_device_properties node alloc prop local size) a))

  -- `cudaThreadExit`
  unfoldable pub cuda_thread_exit_routed : AppThread T N → Option (AppResult T N)
  cuda_thread_exit_routed = call_current (rcuda_thread_exit node alloc)

  -- `cudaThreadSynchronize`
  unfoldable pub cuda_thread_synchronize_routed : AppThread T N → Option (AppResult T N)
  cuda_thread_synchronize_routed = call_current (rcuda_thread_synchronize node alloc)

  -- `cudaSetupArgument`
  unfoldable pub cuda_setup_argument_routed : ℕ → ℕ → ℕ → AppThread T N → Option (AppResult T N)
  cuda_setup_argument_routed arg size offset =
      call_current (rcuda_setup_argument node alloc arg size offset)

  -- `cudaLaunch`
  unfoldable pub cuda_launch_routed : ℕ → AppThread T N → Option (AppResult T N)
  cuda_launch_routed entry = call_current (rcuda_launch node alloc entry)

  -- `cudaMalloc`
  unfoldable pub cuda_malloc_routed : ℕ → ℕ → AppThread T N → Option (AppResult T N)
  cuda_malloc_routed dev_ptr size = call_current (rcuda_malloc node alloc dev_ptr size)

  -- `cudaFree`
  unfoldable pub cuda_free_routed : ℕ → AppThread T N → Option (AppResult T N)
  cuda_free_routed dev_ptr = call_current (rcuda_free node alloc dev_ptr)

  -- `cudaMemcpy`
  unfoldable pub cuda_memcpy_routed : ℕ → ℕ → ℕ → ℕ → AppThread T N → Option (AppResult T N)
  cuda_memcpy_routed dst src count kind = call_current (rcuda_memcpy node alloc dst src count kind)

  -- `cudaMemcpyToSymbol`
  unfoldable pub cuda_memcpy_to_symbol_routed :
      (g : HashTable)
      → (ℕ → List ℕ)
      → Option g.Table
      → Option ℕ
      → ℕ
      → ℕ
      → ℕ
      → ℕ
      → AppThread T N
      → Option (AppResult T N)
  cuda_memcpy_to_symbol_routed g string_at tab symbol src count offset kind =
      call_current (rcuda_memcpy_to_symbol node alloc g string_at tab symbol src count offset kind)

  -- `cudaMemcpyFromSymbol`
  unfoldable pub cuda_memcpy_from_symbol_routed :
      (g : HashTable)
      → (ℕ → List ℕ)
      → Option g.Table
      → Option ℕ
      → ℕ
      → ℕ
      → ℕ
      → ℕ
      → AppThread T N
      → Option (AppResult T N)
  cuda_memcpy_from_symbol_routed g string_at tab symbol dst count offset kind =
      call_current
        (rcuda_memcpy_from_symbol node alloc g string_at tab symbol dst count offset kind)
