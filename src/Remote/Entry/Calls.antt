-- ===== src/Remote/Entry/Calls.antt =====
-- interposer/libci.c: the functions `rcuda...` and `r__cuda...` over a connection.
use gpu_virtmem.Prelude.{ℕ, Bool, true, List, Option, none, some, ◌>>=◌, if◌then◌else◌}
use gpu_virtmem.Remote.Rpc.{
  unknown, cuda_malloc, cuda_free, cuda_setup_argument, cuda_launch, cuda_get_device_count,
  cuda_get_device_properties, cuda_get_device, cuda_set_device, cuda_thread_synchronize,
  cuda_thread_exit, cuda_memcpy_to_symbol, cuda_memcpy_from_symbol, cuda_register_function,
  cuda_register_variable, Rpkt,
}
use gpu_virtmem.Remote.Client.{
  Args, Exchange, get_device_count_rpc, get_device_properties_rpc, get_device_rpc, set_device_rpc,
  free_rpc, malloc_rpc, setup_argument_rpc, launch_rpc, memcpy_rpc, thread_synchronize_rpc,
  thread_exit_rpc, memcpy_to_symbol_rpc, memcpy_from_symbol_rpc, register_function_rpc,
  register_var_rpc,
}
use gpu_virtmem.Interposer.Vars.{HashTable, g_vars_find}
use gpu_virtmem.Remote.Entry.{
  cuda_error_memory_allocation, cuda_error_invalid_symbol, init_packet, Entry, status_of,
  async_status_of, fail_with, leave,
}

-- The arguments that the functions put into the packet.
abbrev pub with_args : Rpkt Args → ℕ → ℕ → ℕ → ℕ → Rpkt Args
with_args p a b c d = record p { args = record p.args { arg0 = a; arg1 = b; arg2 = c; arg3 = d } }

abbrev pub copying : Rpkt Args → Rpkt Args
copying p = record p { args = record p.args { copy_type = true } }

abbrev pub with_offset : Rpkt Args → ℕ → Rpkt Args
with_offset p offset = record p { args = record p.args { arg2_offset = offset } }

module _ {S : Type 0} (exchange : Exchange S) (alloc : Bool) where
  no_packet : Entry S
  unfolding fail_with
  no_packet s mem = fail_with cuda_error_memory_allocation s mem

  -- `rcudaThreadExit`, without the feedback, which no response brings.
  unfoldable pub rcuda_thread_exit : Entry S
  unfolding no_packet
  rcuda_thread_exit s mem =
      if alloc
      then thread_exit_rpc exchange s mem (init_packet cuda_thread_exit)
        >>= (λ r. leave r (status_of r) none)
      else no_packet s mem

  -- `rcudaThreadSynchronize`
  unfoldable pub rcuda_thread_synchronize : Entry S
  unfolding no_packet
  rcuda_thread_synchronize s mem =
      if alloc
      then thread_synchronize_rpc exchange s mem (init_packet cuda_thread_synchronize)
        >>= (λ r. leave r (status_of r) none)
      else no_packet s mem

  -- `rcudaGetDeviceCount`
  unfoldable pub rcuda_get_device_count : Entry S
  unfolding no_packet
  rcuda_get_device_count s mem =
      if alloc
      then get_device_count_rpc exchange s mem (init_packet cuda_get_device_count)
        >>= (λ r. leave r (status_of r) (if r.ok then some r.packet.args.arg0 else none))
      else no_packet s mem

  -- `rcudaGetDeviceProperties`; `size` is that of `struct cudaDeviceProp`.
  unfoldable pub rcuda_get_device_properties : ℕ → ℕ → ℕ → Entry S
  unfolding no_packet
  rcuda_get_device_properties prop device size s mem =
      if alloc
      then get_device_properties_rpc exchange s mem
          (copying (with_args (init_packet cuda_get_device_properties) prop device size 0))
        >>= (λ r. leave r (status_of r) none)
      else no_packet s mem

  -- `rcudaSetDevice`
  unfoldable pub rcuda_set_device : ℕ → ℕ → ℕ → Entry S
  unfolding no_packet
  rcuda_set_device device is_local application_share s mem =
      if alloc
      then set_device_rpc exchange s mem
          (with_args (init_packet cuda_set_device) device is_local application_share 0)
        >>= (λ r. leave r (async_status_of r) none)
      else no_packet s mem

  -- `rcudaGetDevice`
  unfoldable pub rcuda_get_device : ℕ → ℕ → ℕ → Entry S
  unfolding no_packet
  rcuda_get_device device first_local node_id s mem =
      if alloc
      then get_device_rpc exchange s mem
          (with_args (init_packet cuda_get_device) device first_local node_id 0)
        >>= (λ r. leave r (status_of r) (if r.ok then some r.packet.args.arg0 else none))
      else no_packet s mem

  -- `rcudaSetupArgument`
  unfoldable pub rcuda_setup_argument : ℕ → ℕ → ℕ → Entry S
  unfolding no_packet
  rcuda_setup_argument arg size offset s mem =
      if alloc
      then setup_argument_rpc exchange s mem
          (copying (with_args (init_packet cuda_setup_argument) arg size offset 0))
        >>= (λ r. leave r (async_status_of r) none)
      else no_packet s mem

  -- `rcudaLaunch`
  unfoldable pub rcuda_launch : ℕ → Entry S
  unfolding no_packet
  rcuda_launch entry s mem =
      if alloc
      then launch_rpc exchange s mem (with_args (init_packet cuda_launch) entry 0 0 0)
        >>= (λ r. leave r (async_status_of r) none)
      else no_packet s mem

  -- `rcudaMalloc`, which stores NULL if the remote call fails.
  unfoldable pub rcuda_malloc : ℕ → ℕ → Entry S
  unfolding no_packet
  rcuda_malloc dev_ptr size s mem =
      if alloc
      then malloc_rpc exchange s mem (with_args (init_packet cuda_malloc) dev_ptr size 0 0)
        >>= (λ r.
            if r.ok
            then leave r r.packet.err (some r.packet.args.arg0)
            else leave r cuda_error_memory_allocation (some 0))
      else no_packet s mem

  -- `rcudaFree`
  unfoldable pub rcuda_free : ℕ → Entry S
  unfolding no_packet
  rcuda_free dev_ptr s mem =
      if alloc
      then free_rpc exchange s mem (with_args (init_packet cuda_free) dev_ptr 0 0 0)
        >>= (λ r. leave r (async_status_of r) none)
      else no_packet s mem

  -- `rcudaMemcpy`
  unfoldable pub rcuda_memcpy : ℕ → ℕ → ℕ → ℕ → Entry S
  unfolding no_packet
  rcuda_memcpy dst src count kind s mem =
      if alloc
      then memcpy_rpc exchange s mem
          (copying (with_args (init_packet (unknown 65535)) dst src count kind))
        >>= (λ r. leave r (status_of r) none)
      else no_packet s mem

  -- `r__cudaRegisterFunction`, from the call of `l_remoteInitMetThrReq` on; `p` is the packed call and
  -- `size` its size. Without memory the program exits. Likewise `r__cudaRegisterVar`.
  unfoldable pub r_cuda_register_function : ℕ → ℕ → Entry S
  r_cuda_register_function p size s mem =
      if alloc
      then register_function_rpc exchange s mem
          (copying (with_args (init_packet cuda_register_function) p size 0 0))
        >>= (λ r. leave r (status_of r) none)
      else none

  unfoldable pub r_cuda_register_var : ℕ → ℕ → Entry S
  r_cuda_register_var p size s mem =
      if alloc
      then register_var_rpc exchange s mem
          (copying (with_args (init_packet cuda_register_variable) p size 0 0))
        >>= (λ r. leave r (status_of r) none)
      else none

module _ {S : Type 0} (exchange : Exchange S) (alloc : Bool) (g : HashTable) where
  -- `rcudaMemcpyToSymbol`, with `regHostVarsTab` and the strings in memory.
  unfoldable pub rcuda_memcpy_to_symbol :
      (ℕ → List ℕ) → Option g.Table → Option ℕ → ℕ → ℕ → ℕ → ℕ → Entry S
  unfolding fail_with
  rcuda_memcpy_to_symbol string_at tab symbol src count offset kind s mem =
      elim (g_vars_find g string_at tab symbol) [
        | none ↦ fail_with cuda_error_invalid_symbol s mem
        | some host_var ↦
            if alloc
            then memcpy_to_symbol_rpc exchange s mem (
                copying (
                  with_offset
                    (with_args (init_packet cuda_memcpy_to_symbol) host_var src count kind) offset))
              >>= (λ r. leave r (status_of r) none)
            else fail_with cuda_error_memory_allocation s mem
      ]

  -- `rcudaMemcpyFromSymbol`
  unfoldable pub rcuda_memcpy_from_symbol :
      (ℕ → List ℕ) → Option g.Table → Option ℕ → ℕ → ℕ → ℕ → ℕ → Entry S
  unfolding fail_with
  rcuda_memcpy_from_symbol string_at tab symbol dst count offset kind s mem =
      elim (g_vars_find g string_at tab symbol) [
        | none ↦ fail_with cuda_error_invalid_symbol s mem
        | some host_var ↦
            if alloc
            then memcpy_from_symbol_rpc exchange s mem (
                copying (
                  with_offset
                    (with_args (init_packet cuda_memcpy_from_symbol) host_var dst count kind)
                    offset))
              >>= (λ r. leave r (status_of r) none)
            else fail_with cuda_error_memory_allocation s mem
      ]
