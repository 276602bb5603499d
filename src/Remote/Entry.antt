-- ===== src/Remote/Entry.antt =====
-- interposer/libci.c, the functions `rcuda...` and `r__cuda...`: what a CUDA call of the application
-- does that is executed remotely. `alloc` says whether there is memory for the packet.
pub mod Calls
pub mod Expected
pub mod Laws
mod Tests
use gpu_virtmem.Prelude.{
  ℕ, zero, suc, Bool, true, false, List, [], ◌∷◌, Option, none, some, ◌>>=◌, if◌then◌else◌,
}
use gpu_virtmem.Remote.Rpc.{
  Method, unknown, cuda_malloc, cuda_free, cuda_setup_argument, cuda_launch, cuda_get_device_count,
  cuda_get_device_properties, cuda_get_device, cuda_set_device, cuda_thread_synchronize,
  cuda_thread_exit, cuda_memcpy_to_symbol, cuda_memcpy_from_symbol, cuda_register_function,
  cuda_register_variable, cuda_unregister_fat_binary, Rpkt,
}
use gpu_virtmem.Remote.Client.{
  Args, Memory, Reply, Exchange, Stub, get_device_count_rpc, get_device_properties_rpc,
  get_device_rpc, set_device_rpc, free_rpc, malloc_rpc, setup_argument_rpc, launch_rpc, memcpy_rpc,
  thread_synchronize_rpc, thread_exit_rpc, memcpy_to_symbol_rpc, memcpy_from_symbol_rpc,
  register_function_rpc, register_var_rpc, unregister_fat_binary_rpc,
}
use gpu_virtmem.Interposer.Vars.{HashTable, g_vars_find}

abbrev pub cuda_success : ℕ
cuda_success = 0

abbrev pub cuda_error_memory_allocation : ℕ
cuda_error_memory_allocation = 2

abbrev pub cuda_error_invalid_symbol : ℕ
cuda_error_invalid_symbol = 13

abbrev pub cuda_error_unknown : ℕ
cuda_error_unknown = 30

-- `l_remoteInitMetThrReq` where there is memory: the packet is clear but for its method and its error.
unfoldable pub init_packet : Method → Rpkt Args
init_packet m = record {
  method_id = m;
  has_error = false;
  err = cuda_error_unknown;
  args = record {
    arg0 = 0;
    arg1 = 0;
    arg2 = 0;
    arg2_offset = 0;
    arg3 = 0;
    copy_type = false;
    addr_shared = false;
  };
}

-- What a call leaves: the server, the memory, the code that it returns, and what it stores through
-- the pointer that it was given, if anything.
pub record CallResult (S : Type 0) : Type 0 where
  pub state : S
  pub memory : Memory
  pub cuda_err : ℕ
  pub stored : Option ℕ

abbrev pub Entry : Type 0 → Type 0
Entry S = S → Memory → Option (CallResult S)

-- The error code that the functions make of what the remote call returns: the packet's code, or none
-- where the call is asynchronous.
unfoldable pub status_of : {S : Type 0} → Reply S → ℕ
status_of r = if r.ok then r.packet.err else cuda_error_unknown

unfoldable pub async_status_of : {S : Type 0} → Reply S → ℕ
async_status_of r = if r.ok then cuda_success else cuda_error_unknown

-- Without memory for the packet, and for a symbol that is not known.
unfoldable pub fail_with : {S : Type 0} → ℕ → Entry S
fail_with err s mem = some (record { state = s; memory = mem; cuda_err = err; stored = none })

unfoldable pub leave : {S : Type 0} → Reply S → ℕ → Option ℕ → Option (CallResult S)
leave r err stored =
    some (record { state = r.state; memory = r.memory; cuda_err = err; stored = stored })
