-- ===== src/Remote/Rpc.antt =====
-- remote/remote_packet.c, remote/remote_packet_types.h, include/method_id.h and
-- include/packetheader.h: packets, and how the server executes them. `A` is what a packet holds beside
-- its method, its flags and its result, and `S` the state that the handlers work on.
pub mod Session
pub mod Laws
mod Tests
use gpu_virtmem.Prelude.{
  ℕ, zero, suc, ◌+◌, ◌-◌, Bool, true, false, ◌||◌, List, [], ◌∷◌, ◌++◌, Option, none, some, ◌>>=◌,
  ltb, leb, ◌==◌, if◌then◌else◌, get_elem?,
}

-- `METHOD_ID`, and the numbers that are no method.
pub data Method : Type 0 where
  cuda_malloc : Method
  cuda_free : Method
  cuda_memcpy_h2d : Method
  cuda_memcpy_d2h : Method
  cuda_memcpy_h2h : Method
  cuda_memcpy_d2d : Method
  cuda_setup_argument : Method
  cuda_launch : Method
  cuda_get_device_count : Method
  cuda_get_device_properties : Method
  cuda_get_device : Method
  cuda_set_device : Method
  cuda_configure_call : Method
  fe_be_pin_pages : Method
  cuda_thread_synchronize : Method
  cuda_thread_exit : Method
  cuda_memset : Method
  cuda_unbind_texture : Method
  cuda_bind_texture_to_array : Method
  cuda_free_host : Method
  cuda_memcpy_to_symbol : Method
  cuda_memcpy_from_symbol : Method
  cuda_malloc_array : Method
  cuda_free_array : Method
  cuda_memcpy_to_array_d2d : Method
  cuda_memcpy_to_array_h2d : Method
  cuda_memcpy_to_array_d2h : Method
  cuda_memcpy_to_array_h2h : Method
  cuda_memcpy_2d_to_array_d2d : Method
  cuda_memcpy_2d_to_array_h2d : Method
  cuda_memcpy_2d_to_array_d2h : Method
  cuda_memcpy_2d_to_array_h2h : Method
  cuda_register_fat_binary : Method
  cuda_register_function : Method
  cuda_register_variable : Method
  cuda_register_texture : Method
  cuda_register_shared : Method
  cuda_unregister_fat_binary : Method
  unknown : ℕ → Method

-- `rpkt_t`: the method, the flag `CUDA_error`, `ret_ex_val.err`, and the other fields.
pub record Rpkt (A : Type 0) : Type 0 where
  pub method_id : Method
  pub has_error : Bool
  pub err : ℕ
  pub args : A

-- `strm_t`, with the packets that are there.
pub record Strm (A : Type 0) : Type 0 where
  pub batch_size : ℕ
  pub num_cuda_pkts : ℕ
  pub data_size : ℕ
  pub rpkts : List (Rpkt A)

-- What a handler does: the new state, the packet, and the response buffer; `none` stops the program.
-- It gets the state, the packet and the request buffer.
abbrev pub Handler : Type 0 → Type 0 → Type 0
Handler A S = S → Rpkt A → List ℕ → Option (S × Rpkt A × List ℕ)

-- The functions `nvbackCuda..._srv` and `__nvback_cuda..._srv`; `clear_flags` clears the flags that
-- `A` holds.
pub record Handlers (A S : Type 0) : Type 0 where
  pub malloc : Handler A S
  pub get_device_count : Handler A S
  pub get_device_properties : Handler A S
  pub get_device : Handler A S
  pub set_device : Handler A S
  pub free : Handler A S
  pub setup_argument : Handler A S
  pub configure_call : Handler A S
  pub launch : Handler A S
  pub memcpy : Handler A S
  pub memcpy_to_symbol : Handler A S
  pub memcpy_from_symbol : Handler A S
  pub thread_synchronize : Handler A S
  pub thread_exit : Handler A S
  pub register_fat_binary2 : Handler A S
  pub register_function : Handler A S
  pub register_var : Handler A S
  pub unregister_fat_binary : Handler A S
  pub clear_flags : A → A

abbrev pub cuda_error_invalid_value : ℕ
cuda_error_invalid_value = 11

-- The methods that send a response.
unfoldable pub expects_response : Method → Bool
expects_response cuda_register_fat_binary = true
expects_response cuda_register_function = true
expects_response cuda_register_shared = true
expects_response cuda_register_texture = true
expects_response cuda_register_variable = true
expects_response cuda_bind_texture_to_array = true
expects_response cuda_unbind_texture = true
expects_response cuda_malloc = true
expects_response cuda_malloc_array = true
expects_response cuda_memcpy_h2h = true
expects_response cuda_memcpy_h2d = true
expects_response cuda_memcpy_d2h = true
expects_response cuda_memcpy_d2d = true
expects_response cuda_memcpy_to_array_h2h = true
expects_response cuda_memcpy_to_array_h2d = true
expects_response cuda_memcpy_to_array_d2h = true
expects_response cuda_memcpy_to_array_d2d = true
expects_response cuda_memcpy_to_symbol = true
expects_response cuda_memcpy_from_symbol = true
expects_response cuda_memcpy_2d_to_array_h2h = true
expects_response cuda_memcpy_2d_to_array_h2d = true
expects_response cuda_memcpy_2d_to_array_d2h = true
expects_response cuda_memcpy_2d_to_array_d2d = true
expects_response cuda_get_device_count = true
expects_response cuda_get_device_properties = true
expects_response cuda_get_device = true
expects_response cuda_thread_synchronize = true
expects_response m = false

-- `strm_full`
unfoldable pub strm_full : {A : Type 0} → Strm A → Bool
strm_full strm = leb strm.batch_size strm.num_cuda_pkts

-- `strm_expects_response`; `none` is a read outside the array, as in a stream without packets
unfoldable pub strm_expects_response : {A : Type 0} → Strm A → Option Bool
strm_expects_response strm =
    if strm.num_cuda_pkts == 0
    then none
    else get_elem? strm.rpkts (strm.num_cuda_pkts - 1)
      >>= (λ p. some (expects_response p.method_id))

-- `strm_flush_needed`
unfoldable pub strm_flush_needed : {A : Type 0} → Strm A → Option Bool
strm_flush_needed strm = if strm_full strm then some true else strm_expects_response strm

-- The cases of `pkt_execute`.
unfoldable pub handler_of : {A S : Type 0} → Handlers A S → Method → Option (Handler A S)
handler_of h cuda_malloc = some h.malloc
handler_of h cuda_get_device_count = some h.get_device_count
handler_of h cuda_get_device_properties = some h.get_device_properties
handler_of h cuda_get_device = some h.get_device
handler_of h cuda_set_device = some h.set_device
handler_of h cuda_free = some h.free
handler_of h cuda_setup_argument = some h.setup_argument
handler_of h cuda_configure_call = some h.configure_call
handler_of h cuda_launch = some h.launch
handler_of h cuda_memcpy_h2h = some h.memcpy
handler_of h cuda_memcpy_h2d = some h.memcpy
handler_of h cuda_memcpy_d2h = some h.memcpy
handler_of h cuda_memcpy_d2d = some h.memcpy
handler_of h cuda_memcpy_to_symbol = some h.memcpy_to_symbol
handler_of h cuda_memcpy_from_symbol = some h.memcpy_from_symbol
handler_of h cuda_thread_synchronize = some h.thread_synchronize
handler_of h cuda_thread_exit = some h.thread_exit
handler_of h cuda_register_fat_binary = some h.register_fat_binary2
handler_of h cuda_register_function = some h.register_function
handler_of h cuda_register_variable = some h.register_var
handler_of h cuda_unregister_fat_binary = some h.unregister_fat_binary
handler_of h m = none

-- `pkt_execute`; for an unknown method `CUDA_error` is the only flag left.
unfoldable pub pkt_execute : {A S : Type 0} → Handlers A S → Handler A S
pkt_execute h s p buffer = elim (handler_of h p.method_id) [
  | some f ↦ f s p buffer
  | none ↦ some (
    s,
    record p { has_error = true; err = cuda_error_invalid_value; args = h.clear_flags p.args },
    [],
  )
]
