-- ===== src/Remote/Client/Called.antt =====
-- interposer/libci.c: which of the functions `..._rpc` it calls with which packet.
use gpu_virtmem.Prelude.{ℕ, ◌≡◌, false}
use gpu_virtmem.Remote.Rpc.{
  cuda_memcpy_h2d, cuda_memcpy_d2h, cuda_memcpy_d2d, cuda_memcpy_to_symbol, cuda_memcpy_from_symbol,
  cuda_malloc, cuda_free, cuda_setup_argument, cuda_launch, cuda_get_device_count,
  cuda_get_device_properties, cuda_get_device, cuda_set_device, cuda_configure_call,
  cuda_thread_synchronize, cuda_thread_exit, cuda_register_function, cuda_register_variable,
  cuda_unregister_fat_binary, Rpkt,
}
use gpu_virtmem.Remote.Client.{
  Args, Exchange, Stub, get_device_count_rpc, get_device_properties_rpc, get_device_rpc,
  set_device_rpc, free_rpc, malloc_rpc, setup_argument_rpc, configure_call_rpc, launch_rpc,
  thread_synchronize_rpc, memcpy_rpc, memcpy_to_symbol_rpc, memcpy_from_symbol_rpc,
  cuda_memcpy_host_to_device, cuda_memcpy_device_to_host, cuda_memcpy_device_to_device,
  thread_exit_rpc, register_function_rpc, register_var_rpc, unregister_fat_binary_rpc,
}

-- The functions that `libci.c` calls with a packet `p`, by the method of `p` and, where they copy, the
-- direction: the packet that is sent, the address and the size of the request, and of the buffer for
-- the response.
pub data CalledWith {S : Type 0} (exchange : Exchange S) (p : Rpkt Args)
    : Stub S → Rpkt Args → ℕ → ℕ → ℕ → ℕ → Type 0 where
  for_device_count :
      p.method_id ≡ cuda_get_device_count
      → CalledWith exchange p (get_device_count_rpc exchange) p 0 0 0 0
  for_device_properties :
      p.method_id ≡ cuda_get_device_properties
      → CalledWith exchange p (get_device_properties_rpc exchange) p 0 0 p.args.arg0 p.args.arg2
  for_device :
      p.method_id ≡ cuda_get_device → CalledWith exchange p (get_device_rpc exchange) p 0 0 0 0
  for_set_device :
      p.method_id ≡ cuda_set_device → CalledWith exchange p (set_device_rpc exchange) p 0 0 0 0
  for_free : p.method_id ≡ cuda_free → CalledWith exchange p (free_rpc exchange) p 0 0 0 0
  for_malloc : p.method_id ≡ cuda_malloc → CalledWith exchange p (malloc_rpc exchange) p 0 0 0 0
  for_argument :
      p.method_id ≡ cuda_setup_argument
      → CalledWith exchange p (setup_argument_rpc exchange) p p.args.arg0 p.args.arg1 0 0
  for_configuration :
      p.method_id ≡ cuda_configure_call
      → CalledWith exchange p (configure_call_rpc exchange) p 0 0 0 0
  for_launch : p.method_id ≡ cuda_launch → CalledWith exchange p (launch_rpc exchange) p 0 0 0 0
  for_synchronize :
      p.method_id ≡ cuda_thread_synchronize
      → CalledWith exchange p (thread_synchronize_rpc exchange) p 0 0 0 0
  for_thread_exit :
      p.method_id ≡ cuda_thread_exit → CalledWith exchange p (thread_exit_rpc exchange) p 0 0 0 0
  for_function :
      p.method_id ≡ cuda_register_function
      → CalledWith exchange p (register_function_rpc exchange) p p.args.arg0 p.args.arg1 0 0
  for_variable :
      p.method_id ≡ cuda_register_variable
      → CalledWith exchange p (register_var_rpc exchange) p p.args.arg0 p.args.arg1 0 0
  for_unregister :
      p.method_id ≡ cuda_unregister_fat_binary
      → CalledWith exchange p (unregister_fat_binary_rpc exchange) p 0 0 0 0
  for_upload :
      p.args.arg3 ≡ cuda_memcpy_host_to_device
      → CalledWith exchange p
          (memcpy_rpc exchange)
          (record p { method_id = cuda_memcpy_h2d })
          p.args.arg1
          p.args.arg2
          0
          0
  for_download :
      p.args.arg3 ≡ cuda_memcpy_device_to_host
      → CalledWith exchange p
          (memcpy_rpc exchange)
          (record p { method_id = cuda_memcpy_d2h })
          0
          0
          p.args.arg0
          p.args.arg2
  for_device_copy :
      p.args.arg3 ≡ cuda_memcpy_device_to_device
      → CalledWith exchange p
          (memcpy_rpc exchange)
          (record p {
            method_id = cuda_memcpy_d2d;
            args = record p.args { copy_type = false; addr_shared = false };
          })
          0
          0
          0
          0
  for_symbol_upload :
      p.method_id ≡ cuda_memcpy_to_symbol
      → p.args.arg3 ≡ cuda_memcpy_host_to_device
      → CalledWith exchange p (memcpy_to_symbol_rpc exchange) p p.args.arg1 p.args.arg2 0 0
  for_symbol_download :
      p.method_id ≡ cuda_memcpy_from_symbol
      → p.args.arg3 ≡ cuda_memcpy_device_to_host
      → CalledWith exchange p (memcpy_from_symbol_rpc exchange) p 0 0 p.args.arg1 p.args.arg2
