-- ===== src/Remote/Entry/Laws.antt =====
-- interposer/libci.c, with the server at the other end: what an application gets for its calls.
use gpu_virtmem.Prelude.{
  ℕ, ◌≤◌, ◌≡◌, refl, ap, ◌∙◌, List, Option, some, ◌>>=◌, length, if◌then◌else◌, arith,
}
use gpu_virtmem.Remote.Rpc.{
  unknown, cuda_malloc, cuda_free, cuda_setup_argument, cuda_launch, cuda_get_device_count,
  cuda_get_device_properties, cuda_get_device, cuda_set_device, cuda_thread_synchronize,
  cuda_thread_exit, cuda_register_function, cuda_register_variable, cuda_memcpy_h2d,
  cuda_memcpy_d2h, Rpkt, Handlers, expects_response, pkt_execute,
}
use gpu_virtmem.Remote.Client.{Args, Memory, read_bytes, write_bytes, Reply, Stub}
use gpu_virtmem.Remote.Client.Called.{
  CalledWith, for_thread_exit, for_synchronize, for_device_count, for_device_properties,
  for_set_device, for_device, for_argument, for_launch, for_malloc, for_free, for_upload,
  for_download, for_function, for_variable,
}
use gpu_virtmem.Remote.Client.Laws.{IsBuffer, connected, reply_of, stub_lem}
use gpu_virtmem.Remote.Entry.{init_packet, CallResult, Entry, status_of, async_status_of, leave}
use gpu_virtmem.Remote.Entry.Expected.{
  IsCall, call_thread_exit, call_synchronize, call_device_count, call_device_properties,
  call_set_device, call_device, call_argument, call_launch, call_malloc, call_free, call_upload,
  call_download, call_function, call_variable, error_of, stored_of,
}
use gpu_virtmem.Remote.Entry.Calls.{
  with_args, copying, rcuda_thread_exit, rcuda_thread_synchronize, rcuda_get_device_count,
  rcuda_get_device_properties, rcuda_set_device, rcuda_get_device, rcuda_setup_argument,
  rcuda_launch, rcuda_malloc, rcuda_free, rcuda_memcpy, r_cuda_register_function,
  r_cuda_register_var,
}

module _ {S : Type 0} (h : Handlers Args S) where
  -- What a function leaves that settles a served call.
  pub served :
      (s t : S) (mem : Memory) (p sent q : Rpkt Args) (bytes : List ℕ) (f : Stub S)
      (req n rsp m : ℕ) (settle : Reply S → Option (CallResult S))
      → CalledWith (connected h) p f sent req n rsp m
      → pkt_execute h s sent (read_bytes mem req n) ≡ some (t, q, bytes)
      → q.method_id ≡ sent.method_id
      → length bytes ≤ m
      → IsBuffer req n
      → IsBuffer rsp m
      → (f s mem p >>= settle) ≡ settle (reply_of h mem rsp sent t q bytes)
  served s t mem p sent q bytes f req n rsp m settle w e k b u v =
      ap (λ o. o >>= settle) (stub_lem h s t mem p sent q bytes f req n rsp m w e k b u v)

  pub entry_lem :
      (s t : S) (mem : Memory) (sent q : Rpkt Args) (bytes : List ℕ) (call : Entry S)
      (req n rsp m : ℕ)
      → IsCall (connected h) call sent req n rsp m
      → pkt_execute h s sent (read_bytes mem req n) ≡ some (t, q, bytes)
      → q.method_id ≡ sent.method_id
      → length bytes ≤ m
      → IsBuffer req n
      → IsBuffer rsp m
      → call s mem
        ≡ some (record {
          state = t;
          memory = if expects_response sent.method_id then write_bytes mem rsp bytes else mem;
          cuda_err = error_of sent.method_id q.err;
          stored = stored_of sent.method_id q;
        })
  unfolding rcuda_thread_exit rcuda_thread_synchronize rcuda_get_device_count
      rcuda_get_device_properties rcuda_set_device rcuda_get_device rcuda_setup_argument
      rcuda_launch rcuda_malloc rcuda_free rcuda_memcpy r_cuda_register_function r_cuda_register_var
      status_of async_status_of leave reply_of error_of stored_of expects_response init_packet
  entry_lem s t mem _ q bytes _ _ _ _ _ call_thread_exit e k b u v =
      served s t mem (init_packet cuda_thread_exit) (init_packet cuda_thread_exit) q bytes _ 0 0 0 0
        _ (for_thread_exit refl) e k b u v
      ∙ ground arith
  entry_lem s t mem _ q bytes _ _ _ _ _ call_synchronize e k b u v =
      served s t mem (init_packet cuda_thread_synchronize) (init_packet cuda_thread_synchronize) q
        bytes _ 0 0 0 0 _ (for_synchronize refl) e k b u v
      ∙ ground arith
  entry_lem s t mem _ q bytes _ _ _ _ _ call_device_count e k b u v =
      served s t mem (init_packet cuda_get_device_count) (init_packet cuda_get_device_count) q bytes
        _ 0 0 0 0 _ (for_device_count refl) e k b u v
      ∙ ground arith
  entry_lem s t mem _ q bytes _ _ _ _ _ (call_device_properties prop device size) e k b u v =
      served s t mem
        (copying (with_args (init_packet cuda_get_device_properties) prop device size 0))
        (copying (with_args (init_packet cuda_get_device_properties) prop device size 0)) q bytes _
        0 0 prop size _ (for_device_properties refl) e k b u v
      ∙ ground arith
  entry_lem s t mem _ q bytes _ _ _ _ _ (call_set_device device local share) e k b u v =
      served s t mem (with_args (init_packet cuda_set_device) device local share 0)
        (with_args (init_packet cuda_set_device) device local share 0) q bytes _ 0 0 0 0 _
        (for_set_device refl) e k b u v
      ∙ ground arith
  entry_lem s t mem _ q bytes _ _ _ _ _ (call_device device local node) e k b u v =
      served s t mem (with_args (init_packet cuda_get_device) device local node 0)
        (with_args (init_packet cuda_get_device) device local node 0) q bytes _ 0 0 0 0 _
        (for_device refl) e k b u v
      ∙ ground arith
  entry_lem s t mem _ q bytes _ _ _ _ _ (call_argument arg size offset) e k b u v =
      served s t mem (copying (with_args (init_packet cuda_setup_argument) arg size offset 0))
        (copying (with_args (init_packet cuda_setup_argument) arg size offset 0)) q bytes _ arg size
        0 0 _ (for_argument refl) e k b u v
      ∙ ground arith
  entry_lem s t mem _ q bytes _ _ _ _ _ (call_launch entry) e k b u v =
      served s t mem (with_args (init_packet cuda_launch) entry 0 0 0)
        (with_args (init_packet cuda_launch) entry 0 0 0) q bytes _ 0 0 0 0 _ (for_launch refl) e k
        b u v
      ∙ ground arith
  entry_lem s t mem _ q bytes _ _ _ _ _ (call_malloc ptr size) e k b u v =
      served s t mem (with_args (init_packet cuda_malloc) ptr size 0 0)
        (with_args (init_packet cuda_malloc) ptr size 0 0) q bytes _ 0 0 0 0 _ (for_malloc refl) e k
        b u v
      ∙ ground arith
  entry_lem s t mem _ q bytes _ _ _ _ _ (call_free ptr) e k b u v =
      served s t mem (with_args (init_packet cuda_free) ptr 0 0 0)
        (with_args (init_packet cuda_free) ptr 0 0 0) q bytes _ 0 0 0 0 _ (for_free refl) e k b u v
      ∙ ground arith
  entry_lem s t mem _ q bytes _ _ _ _ _ (call_upload dst src count) e k b u v =
      served s t mem (copying (with_args (init_packet (unknown 65535)) dst src count 1))
        (record (copying (with_args (init_packet (unknown 65535)) dst src count 1)) {
          method_id = cuda_memcpy_h2d;
        })
        q bytes _ src count 0 0 _ (for_upload refl) e k b u v
      ∙ ground arith
  entry_lem s t mem _ q bytes _ _ _ _ _ (call_download dst src count) e k b u v =
      served s t mem (copying (with_args (init_packet (unknown 65535)) dst src count 2))
        (record (copying (with_args (init_packet (unknown 65535)) dst src count 2)) {
          method_id = cuda_memcpy_d2h;
        })
        q bytes _ 0 0 dst count _ (for_download refl) e k b u v
      ∙ ground arith
  entry_lem s t mem _ q bytes _ _ _ _ _ (call_function p size) e k b u v =
      served s t mem (copying (with_args (init_packet cuda_register_function) p size 0 0))
        (copying (with_args (init_packet cuda_register_function) p size 0 0)) q bytes _ p size 0 0 _
        (for_function refl) e k b u v
      ∙ ground arith
  entry_lem s t mem _ q bytes _ _ _ _ _ (call_variable p size) e k b u v =
      served s t mem (copying (with_args (init_packet cuda_register_variable) p size 0 0))
        (copying (with_args (init_packet cuda_register_variable) p size 0 0)) q bytes _ p size 0 0 _
        (for_variable refl) e k b u v
      ∙ ground arith
