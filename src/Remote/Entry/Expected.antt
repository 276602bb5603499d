-- ===== src/Remote/Entry/Expected.antt =====
-- interposer/libci.c: the calls of an application by the packets that they send, and what they are
-- to return.
use gpu_virtmem.Prelude.{ℕ, true, Option, none, some, ◌==◌, if◌then◌else◌}
use gpu_virtmem.Remote.Rpc.{
  Method, unknown, cuda_malloc, cuda_free, cuda_setup_argument, cuda_launch, cuda_get_device_count,
  cuda_get_device_properties, cuda_get_device, cuda_set_device, cuda_thread_synchronize,
  cuda_thread_exit, cuda_register_function, cuda_register_variable, cuda_memcpy_h2d,
  cuda_memcpy_d2h, Rpkt, expects_response,
}
use gpu_virtmem.Remote.Client.{Args, Exchange}
use gpu_virtmem.Remote.Entry.{cuda_error_memory_allocation, cuda_error_unknown, init_packet, Entry}
use gpu_virtmem.Remote.Entry.Calls.{
  with_args, copying, rcuda_thread_exit, rcuda_thread_synchronize, rcuda_get_device_count,
  rcuda_get_device_properties, rcuda_set_device, rcuda_get_device, rcuda_setup_argument,
  rcuda_launch, rcuda_malloc, rcuda_free, rcuda_memcpy, r_cuda_register_function,
  r_cuda_register_var,
}

-- A call of the application for whose packet there is memory: the packet that is sent for it, the
-- address and the size of the request, and of the buffer for the response.
pub data IsCall {S : Type 0} (exchange : Exchange S)
    : Entry S → Rpkt Args → ℕ → ℕ → ℕ → ℕ → Type 0 where
  call_thread_exit :
      IsCall exchange (rcuda_thread_exit exchange true) (init_packet cuda_thread_exit) 0 0 0 0
  call_synchronize :
      IsCall exchange
        (rcuda_thread_synchronize exchange true)
        (init_packet cuda_thread_synchronize)
        0
        0
        0
        0
  call_device_count :
      IsCall exchange
        (rcuda_get_device_count exchange true)
        (init_packet cuda_get_device_count)
        0
        0
        0
        0
  call_device_properties :
      (prop device size : ℕ)
      → IsCall exchange
          (rcuda_get_device_properties exchange true prop device size)
          (copying (with_args (init_packet cuda_get_device_properties) prop device size 0))
          0
          0
          prop
          size
  call_set_device :
      (device local share : ℕ)
      → IsCall exchange
          (rcuda_set_device exchange true device local share)
          (with_args (init_packet cuda_set_device) device local share 0)
          0
          0
          0
          0
  call_device :
      (device local node : ℕ)
      → IsCall exchange
          (rcuda_get_device exchange true device local node)
          (with_args (init_packet cuda_get_device) device local node 0)
          0
          0
          0
          0
  call_argument :
      (arg size offset : ℕ)
      → IsCall exchange
          (rcuda_setup_argument exchange true arg size offset)
          (copying (with_args (init_packet cuda_setup_argument) arg size offset 0))
          arg
          size
          0
          0
  call_launch :
      (entry : ℕ)
      → IsCall exchange
          (rcuda_launch exchange true entry)
          (with_args (init_packet cuda_launch) entry 0 0 0)
          0
          0
          0
          0
  call_malloc :
      (ptr size : ℕ)
      → IsCall exchange
          (rcuda_malloc exchange true ptr size)
          (with_args (init_packet cuda_malloc) ptr size 0 0)
          0
          0
          0
          0
  call_free :
      (ptr : ℕ)
      → IsCall exchange
          (rcuda_free exchange true ptr)
          (with_args (init_packet cuda_free) ptr 0 0 0)
          0
          0
          0
          0
  call_upload :
      (dst src count : ℕ)
      → IsCall exchange
          (rcuda_memcpy exchange true dst src count 1)
          (record (copying (with_args (init_packet (unknown 65535)) dst src count 1)) {
            method_id = cuda_memcpy_h2d;
          })
          src
          count
          0
          0
  call_download :
      (dst src count : ℕ)
      → IsCall exchange
          (rcuda_memcpy exchange true dst src count 2)
          (record (copying (with_args (init_packet (unknown 65535)) dst src count 2)) {
            method_id = cuda_memcpy_d2h;
          })
          0
          0
          dst
          count
  call_function :
      (p size : ℕ)
      → IsCall exchange
          (r_cuda_register_function exchange true p size)
          (copying (with_args (init_packet cuda_register_function) p size 0 0))
          p
          size
          0
          0
  call_variable :
      (p size : ℕ)
      → IsCall exchange
          (r_cuda_register_var exchange true p size)
          (copying (with_args (init_packet cuda_register_variable) p size 0 0))
          p
          size
          0
          0

-- The code that a call returns, by the method and the code of the server.
unfoldable pub error_of : Method → ℕ → ℕ
error_of cuda_thread_exit e = cuda_error_unknown
error_of cuda_malloc e = if e == 0 then 0 else cuda_error_memory_allocation
error_of m e = if expects_response m then (if e == 0 then 0 else cuda_error_unknown) else 0

-- What it stores through its pointer, by the method and the packet of the server.
unfoldable pub stored_of : Method → Rpkt Args → Option ℕ
stored_of cuda_malloc q = if q.err == 0 then some q.args.arg0 else some 0
stored_of cuda_get_device_count q = if q.err == 0 then some q.args.arg0 else none
stored_of cuda_get_device q = if q.err == 0 then some q.args.arg0 else none
stored_of m q = none
