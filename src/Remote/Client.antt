-- ===== src/Remote/Client.antt =====
-- remote/remote_api_wrapper.c, the functions `..._rpc`: what the interposer calls for a remote CUDA
-- call. `exchange` is the connection with the server behind it: it takes what is sent, and gives the
-- state that the server is left in and what arrives.
pub mod Called
pub mod Laws
mod Tests
use gpu_virtmem.Prelude.{
  ℕ, zero, suc, ◌+◌, ◌-◌, ◌^◌, ℤ, pos, negsuc, to_int, Bool, true, false, List, [], ◌∷◌, Option,
  none, some, ◌>>=◌, ◌==◌, if◌then◌else◌,
}
use gpu_virtmem.Remote.Rpc.{Rpkt, cuda_memcpy_h2d, cuda_memcpy_d2h, cuda_memcpy_d2d}
use gpu_virtmem.Remote.Rpc.Session.{Msg, header, packets, Call, Answer, send_call, receive_answer}

-- `args[0 .. 3]` of a packet, each a number or an address, the second number of `args[2]`, and two of
-- its flags: `CUDA_Copytype` and `CUDA_Addrshared`.
pub record Args : Type 0 where
  pub arg0 : ℕ
  pub arg1 : ℕ
  pub arg2 : ℕ
  pub arg2_offset : ℕ
  pub arg3 : ℕ
  pub copy_type : Bool
  pub addr_shared : Bool

-- The memory of the client: the byte at an address.
abbrev pub Memory : Type 0
Memory = ℕ → ℕ

unfoldable pub read_bytes : Memory → ℕ → ℕ → List ℕ
read_bytes mem p zero = []
read_bytes mem p (suc n) = mem p ∷ read_bytes mem (suc p) n

unfoldable pub write_bytes : Memory → ℕ → List ℕ → Memory
write_bytes mem p [] = mem
write_bytes mem p (b ∷ bs) = write_bytes (λ q. if q == p then b else mem q) (suc p) bs

-- What a function leaves, and whether it returns `OK`.
pub record Reply (S : Type 0) : Type 0 where
  pub state : S
  pub memory : Memory
  pub packet : Rpkt Args
  pub ok : Bool

abbrev pub Exchange : Type 0 → Type 0
Exchange S = S → List (Msg Args) → Option (S × List (Msg Args))

abbrev pub Stub : Type 0 → Type 0
Stub S = S → Memory → Rpkt Args → Option (Reply S)

abbrev pub cuda_memcpy_host_to_device : ℕ
cuda_memcpy_host_to_device = 1

abbrev pub cuda_memcpy_device_to_host : ℕ
cuda_memcpy_device_to_host = 2

abbrev pub cuda_memcpy_device_to_device : ℕ
cuda_memcpy_device_to_device = 3

abbrev pub cuda_error_invalid_memcpy_direction : ℕ
cuda_error_invalid_memcpy_direction = 21

-- `return OK`, and `return (packet->ret_ex_val.err == cudaSuccess) ? OK : ERROR`
unfoldable pub returns_ok : {S : Type 0} → Reply S → Option (Reply S)
returns_ok r = some (record r { ok = true })

unfoldable pub returns_status : {S : Type 0} → Reply S → Option (Reply S)
returns_status r = some (record r { ok = r.packet.err == 0 })

-- `reqbuf` with its size, an `int`.
unfoldable pub request_bytes : Memory → ℕ → ℤ → List ℕ
request_bytes mem req (pos n) = read_bytes mem req n
request_bytes mem req (negsuc n) = []

-- What is sent: a header with the size as an unsigned number, the packet, and the buffer if the size
-- is above zero, when the buffer must not be NULL.
unfoldable pub request_messages : Call Args → ℕ → ℤ → Option (List (Msg Args))
request_messages c req (pos zero) = some (send_call c)
request_messages c req (pos (suc n)) = if req == 0 then none else some (send_call c)
request_messages c req (negsuc n) = some (header 1 (2 ^ 32 - suc n) ∷ packets (c.packet ∷ []) ∷ [])

-- The largest response that the assertions about `rspbuf` and `rspbuf_size` allow.
unfoldable pub capacity : ℕ → ℤ → ℕ
capacity rsp (pos m) = if rsp == 0 then 0 else m
capacity rsp (negsuc m) = 0

module _ {S : Type 0} (exchange : Exchange S) where
  -- `l_do_cuda_rpc`: the request is at `req` and the buffer for the response at `rsp`, with the sizes
  -- `n` and `m`. `none`: the connection breaks, or an assertion fails.
  unfoldable pub l_do_cuda_rpc : ℕ → ℕ → ℕ → ℕ → Stub S
  l_do_cuda_rpc req n rsp m s mem p =
      let c : Call Args = record {
        packet = p;
        reqbuf = request_bytes mem req (to_int n);
        rspbuf_size = capacity rsp (to_int m);
      } in
      request_messages c req (to_int n) >>= (λ ms. exchange s ms >>= (λ t.
        receive_answer c t.1 >>= (λ a. some (record {
          state = t.0;
          memory = write_bytes mem rsp a.0.response;
          packet = a.0.packet;
          ok = true;
        }))))

  unfoldable pub get_device_count_rpc : Stub S
  get_device_count_rpc s mem p = l_do_cuda_rpc 0 0 0 0 s mem p >>= returns_status

  unfoldable pub get_device_properties_rpc : Stub S
  get_device_properties_rpc s mem p =
      l_do_cuda_rpc 0 0 p.args.arg0 p.args.arg2 s mem p >>= returns_status

  unfoldable pub get_device_rpc : Stub S
  get_device_rpc s mem p = l_do_cuda_rpc 0 0 0 0 s mem p >>= returns_status

  unfoldable pub set_device_rpc : Stub S
  set_device_rpc s mem p = l_do_cuda_rpc 0 0 0 0 s mem p >>= returns_ok

  unfoldable pub free_rpc : Stub S
  free_rpc s mem p = l_do_cuda_rpc 0 0 0 0 s mem p >>= returns_ok

  unfoldable pub malloc_rpc : Stub S
  malloc_rpc s mem p = l_do_cuda_rpc 0 0 0 0 s mem p >>= returns_status

  unfoldable pub setup_argument_rpc : Stub S
  setup_argument_rpc s mem p = l_do_cuda_rpc p.args.arg0 p.args.arg1 0 0 s mem p >>= returns_ok

  unfoldable pub configure_call_rpc : Stub S
  configure_call_rpc s mem p = l_do_cuda_rpc 0 0 0 0 s mem p >>= returns_ok

  unfoldable pub launch_rpc : Stub S
  launch_rpc s mem p = l_do_cuda_rpc 0 0 0 0 s mem p >>= returns_ok

  -- The other directions: nothing is sent, and the packet gets an error.
  unfoldable pub wrong_direction : Stub S
  wrong_direction s mem p = some (record {
    state = s;
    memory = mem;
    packet = record p { err = cuda_error_invalid_memcpy_direction };
    ok = true;
  })

  unfoldable pub memcpy_rpc : Stub S
  memcpy_rpc s mem p =
      (if p.args.arg3 == cuda_memcpy_host_to_device
        then l_do_cuda_rpc p.args.arg1 p.args.arg2 0 0 s mem
            (record p { method_id = cuda_memcpy_h2d })
        else if p.args.arg3 == cuda_memcpy_device_to_host
        then l_do_cuda_rpc 0 0 p.args.arg0 p.args.arg2 s mem
            (record p { method_id = cuda_memcpy_d2h })
        else if p.args.arg3 == cuda_memcpy_device_to_device
        then l_do_cuda_rpc 0 0 0 0 s mem (record p {
          method_id = cuda_memcpy_d2d;
          args = record p.args { copy_type = false; addr_shared = false };
        })
        else wrong_direction s mem p)
      >>= returns_status

  unfoldable pub thread_synchronize_rpc : Stub S
  thread_synchronize_rpc s mem p = l_do_cuda_rpc 0 0 0 0 s mem p >>= returns_status

  unfoldable pub thread_exit_rpc : Stub S
  thread_exit_rpc s mem p = l_do_cuda_rpc 0 0 0 0 s mem p >>= returns_ok

  -- `return ERROR` of the two functions below.
  unfoldable pub unsupported : Stub S
  unsupported s mem p = some (record { state = s; memory = mem; packet = p; ok = false })

  unfoldable pub memcpy_to_symbol_rpc : Stub S
  memcpy_to_symbol_rpc s mem p =
      if p.args.arg3 == cuda_memcpy_host_to_device
      then l_do_cuda_rpc p.args.arg1 p.args.arg2 0 0 s mem p >>= returns_status
      else if p.args.arg3 == cuda_memcpy_device_to_device
      then l_do_cuda_rpc 0 0 0 0 s mem p >>= returns_status
      else unsupported s mem p

  unfoldable pub memcpy_from_symbol_rpc : Stub S
  memcpy_from_symbol_rpc s mem p =
      if p.args.arg3 == cuda_memcpy_device_to_device
      then l_do_cuda_rpc 0 0 0 0 s mem p >>= returns_status
      else if p.args.arg3 == cuda_memcpy_device_to_host
      then l_do_cuda_rpc 0 0 p.args.arg1 p.args.arg2 s mem p >>= returns_status
      else unsupported s mem p

  unfoldable pub register_function_rpc : Stub S
  register_function_rpc s mem p =
      l_do_cuda_rpc p.args.arg0 p.args.arg1 0 0 s mem p >>= returns_status

  unfoldable pub register_var_rpc : Stub S
  register_var_rpc s mem p = l_do_cuda_rpc p.args.arg0 p.args.arg1 0 0 s mem p >>= returns_status

  unfoldable pub unregister_fat_binary_rpc : Stub S
  unregister_fat_binary_rpc s mem p = l_do_cuda_rpc 0 0 0 0 s mem p >>= returns_ok
