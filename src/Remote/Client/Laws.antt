-- ===== src/Remote/Client/Laws.antt =====
-- remote/remote_api_wrapper.c, with backend/backend.c at the other end: what the functions `..._rpc`
-- make of a call that the server serves.
use gpu_virtmem.Prelude.{
  bind_of, ℕ, zero, suc, ◌^◌, ◌<◌, ◌≤◌, ◌≡◌, ◌≢◌, ◌⊎◌, sym, pos, to_int, refl, ◌∙◌, inl, inr, List,
  [], ◌++◌, some, ◌>>=◌, length, true, false, arith, if◌then◌else◌, ◌==◌, Bool-cases, subst,
  append-nil, ap,
}
use gpu_virtmem.Remote.Rpc.{Rpkt, Handlers, expects_response, pkt_execute}
use gpu_virtmem.Remote.Rpc.Session.{Msg, Call, send_call, serve, serve_all, respond}
use gpu_virtmem.Remote.Rpc.Laws.{answer_of, receive_answer_lem, serve_lem}
use gpu_virtmem.Remote.Client.Called.{
  CalledWith, for_device_count, for_device_properties, for_device, for_set_device, for_free,
  for_malloc, for_argument, for_configuration, for_launch, for_synchronize, for_thread_exit,
  for_function, for_variable, for_unregister, for_upload, for_download, for_device_copy,
  for_symbol_upload, for_symbol_download,
}
use gpu_virtmem.Remote.Client.{
  Args, Memory, read_bytes, write_bytes, Reply, Exchange, Stub, returns_ok, returns_status,
  request_bytes, request_messages, capacity, l_do_cuda_rpc, get_device_count_rpc,
  get_device_properties_rpc, get_device_rpc, set_device_rpc, free_rpc, malloc_rpc,
  setup_argument_rpc, configure_call_rpc, launch_rpc, thread_synchronize_rpc, memcpy_rpc,
  memcpy_to_symbol_rpc, memcpy_from_symbol_rpc, thread_exit_rpc, register_function_rpc,
  register_var_rpc, unregister_fat_binary_rpc,
}

-- A buffer that `l_do_cuda_rpc` takes: empty, or not NULL and of a size that an `int` can hold.
abbrev pub IsBuffer : ℕ → ℕ → Type 0
IsBuffer p n = (n ≡ 0) ⊎ ((p ≢ 0) × (n < 2 ^ 31))

IsBuffer-lt : (p n : ℕ) → IsBuffer p n → n < 2 ^ 31
IsBuffer-lt p n (inl e) = omega arith
IsBuffer-lt p n (inr (u, v)) = v

to_int-small : (n : ℕ) → n < 2 ^ 31 → to_int n ≡ pos n
to_int-small n h = ground arith

request_bytes_lem :
    (mem : Memory) (req n : ℕ)
    → IsBuffer req n
    → request_bytes mem req (to_int n) ≡ read_bytes mem req n
unfolding request_bytes
request_bytes_lem mem req n u = ap (request_bytes mem req) (to_int-small n (IsBuffer-lt req n u))

capacity_lem : (rsp m : ℕ) → IsBuffer rsp m → capacity rsp (to_int m) ≡ m
unfolding capacity
capacity_lem rsp m (inl e) = subst (λ k. capacity rsp (to_int k) ≡ k) (sym e) (ground arith)
capacity_lem rsp m (inr (u, v)) = ap (capacity rsp) (to_int-small m v) ∙ ground (arith, u)

module _ {S : Type 0} (h : Handlers Args S) where
  -- The connection to a server that executes the calls with `h`.
  unfoldable pub connected : Exchange S
  connected s ms = serve_all 1 h s ms

  -- What a served call leaves: with a response, the packet of the handler, which says whether `OK` is
  -- returned, and its bytes in the memory; without one, what was there.
  unfoldable pub reply_of : Memory → ℕ → Rpkt Args → S → Rpkt Args → List ℕ → Reply S
  reply_of mem rsp p t q bytes =
      if expects_response p.method_id
      then record { state = t; memory = write_bytes mem rsp bytes; packet = q; ok = q.err == 0 }
      else record { state = t; memory = mem; packet = p; ok = true }

  request_messages_lem :
      (c : Call Args) (req n : ℕ)
      → IsBuffer req n
      → request_messages c req (to_int n) ≡ some (send_call c)
  unfolding request_messages
  request_messages_lem c req zero u = refl
  request_messages_lem c req (suc n) (inl u) = absurd (omega arith)
  request_messages_lem c req (suc n) (inr (u, v)) =
      let e : to_int (suc n) ≡ pos (suc n) = to_int-small (suc n) v in
      subst (λ z. request_messages c req z ≡ some (send_call c)) (sym e) (ground (arith, u))

  l_do_cuda_rpc_lem :
      (s t : S) (mem : Memory) (p q : Rpkt Args) (bytes : List ℕ) (req n rsp m : ℕ)
      → pkt_execute h s p (read_bytes mem req n) ≡ some (t, q, bytes)
      → q.method_id ≡ p.method_id
      → length bytes ≤ m
      → IsBuffer req n
      → IsBuffer rsp m
      → l_do_cuda_rpc connected req n rsp m s mem p
        ≡ some (record (reply_of mem rsp p t q bytes) { ok = true })
  unfolding l_do_cuda_rpc connected serve_all answer_of reply_of write_bytes send_call
  l_do_cuda_rpc_lem s t mem p q bytes req n rsp m e k b u v =
      let sent : request_bytes mem req (to_int n) ≡ read_bytes mem req n =
        request_bytes_lem mem req n u in
      let room : capacity rsp (to_int m) ≡ m = capacity_lem rsp m v in
      let c : Call Args = record {
        packet = p;
        reqbuf = request_bytes mem req (to_int n);
        rspbuf_size = capacity rsp (to_int m);
      } in
      let ec : pkt_execute h s p c.reqbuf ≡ some (t, q, bytes) =
        subst (λ l. pkt_execute h s p l ≡ some (t, q, bytes)) (sym sent) e in
      let bc : length bytes ≤ c.rspbuf_size = omega (arith, room) in
      let answer : List (Msg Args) = respond (expects_response p.method_id) q bytes in
      let served : serve h s (send_call c) ≡ some (record { state = t; out = answer; rest = [] }) =
        subst (λ l. serve h s l ≡ some (record { state = t; out = answer; rest = [] }))
          {x = send_call c ++ []} (append-nil (send_call c)) (serve_lem h s t c q bytes [] ec k) in
      let exchanged : connected s (send_call c) ≡ some (t, answer ++ []) = bind_of _ served in
      let left : Reply S = record {
        state = t;
        memory = write_bytes mem rsp (answer_of c q bytes).response;
        packet = (answer_of c q bytes).packet;
        ok = true;
      } in
      let reply : left ≡ record (reply_of mem rsp p t q bytes) { ok = true } =
        elim (Bool-cases (expects_response p.method_id)) [
          | inl y ↦ ground (arith, y)
          | inr y ↦ ground (arith, y)
        ] in
      bind_of _ (request_messages_lem c req n u)
      ∙ bind_of _ exchanged
      ∙ bind_of _ (receive_answer_lem c q bytes [] bc)
      ∙ ap some reply

  module _ (s t : S) (mem : Memory) (p q : Rpkt Args) (bytes : List ℕ) (req n rsp m : ℕ)
      (e : pkt_execute h s p (read_bytes mem req n) ≡ some (t, q, bytes))
      (k : q.method_id ≡ p.method_id) (b : length bytes ≤ m) (u : IsBuffer req n)
      (v : IsBuffer rsp m) where
    returns_status_lem :
        expects_response p.method_id ≡ true
        → (l_do_cuda_rpc connected req n rsp m s mem p >>= returns_status)
          ≡ some (reply_of mem rsp p t q bytes)
    unfolding returns_status reply_of
    returns_status_lem y =
        bind_of returns_status (l_do_cuda_rpc_lem s t mem p q bytes req n rsp m e k b u v)
        ∙ ground (arith, y)

    returns_ok_lem :
        expects_response p.method_id ≡ false
        → (l_do_cuda_rpc connected req n rsp m s mem p >>= returns_ok)
          ≡ some (reply_of mem rsp p t q bytes)
    unfolding returns_ok reply_of
    returns_ok_lem y =
        bind_of returns_ok (l_do_cuda_rpc_lem s t mem p q bytes req n rsp m e k b u v)
        ∙ ground (arith, y)

  -- A function `..._rpc` that is called with a packet as libci.c does, and whose handler keeps the
  -- method and leaves a response within the buffer for it, ends with the state of the handler, where the
  -- buffers are as `IsBuffer` says: empty, or not NULL and smaller than 2 GB. If the method has a
  -- response, then the packet is the handler's, the response is in the memory, and `OK`
  -- is returned exactly for the error code 0; otherwise the packet and the memory are as they were
  -- when it was sent, and `OK` is returned.
  pub stub_lem :
      (s t : S) (mem : Memory) (p sent q : Rpkt Args) (bytes : List ℕ) (f : Stub S)
      (req n rsp m : ℕ)
      → CalledWith connected p f sent req n rsp m
      → pkt_execute h s sent (read_bytes mem req n) ≡ some (t, q, bytes)
      → q.method_id ≡ sent.method_id
      → length bytes ≤ m
      → IsBuffer req n
      → IsBuffer rsp m
      → f s mem p ≡ some (reply_of mem rsp sent t q bytes)
  unfolding get_device_count_rpc get_device_properties_rpc get_device_rpc set_device_rpc free_rpc
      malloc_rpc setup_argument_rpc configure_call_rpc launch_rpc thread_synchronize_rpc
      thread_exit_rpc register_function_rpc register_var_rpc unregister_fat_binary_rpc
      expects_response memcpy_rpc memcpy_to_symbol_rpc memcpy_from_symbol_rpc
  stub_lem s t mem p _ q bytes _ req n rsp m (for_device_count i) e k b u v =
      returns_status_lem s t mem p q bytes req n rsp m e k b u v (ap expects_response i)
  stub_lem s t mem p _ q bytes _ req n rsp m (for_device_properties i) e k b u v =
      returns_status_lem s t mem p q bytes req n rsp m e k b u v (ap expects_response i)
  stub_lem s t mem p _ q bytes _ req n rsp m (for_device i) e k b u v =
      returns_status_lem s t mem p q bytes req n rsp m e k b u v (ap expects_response i)
  stub_lem s t mem p _ q bytes _ req n rsp m (for_set_device i) e k b u v =
      returns_ok_lem s t mem p q bytes req n rsp m e k b u v (ap expects_response i)
  stub_lem s t mem p _ q bytes _ req n rsp m (for_free i) e k b u v =
      returns_ok_lem s t mem p q bytes req n rsp m e k b u v (ap expects_response i)
  stub_lem s t mem p _ q bytes _ req n rsp m (for_malloc i) e k b u v =
      returns_status_lem s t mem p q bytes req n rsp m e k b u v (ap expects_response i)
  stub_lem s t mem p _ q bytes _ req n rsp m (for_argument i) e k b u v =
      returns_ok_lem s t mem p q bytes req n rsp m e k b u v (ap expects_response i)
  stub_lem s t mem p _ q bytes _ req n rsp m (for_configuration i) e k b u v =
      returns_ok_lem s t mem p q bytes req n rsp m e k b u v (ap expects_response i)
  stub_lem s t mem p _ q bytes _ req n rsp m (for_launch i) e k b u v =
      returns_ok_lem s t mem p q bytes req n rsp m e k b u v (ap expects_response i)
  stub_lem s t mem p _ q bytes _ req n rsp m (for_synchronize i) e k b u v =
      returns_status_lem s t mem p q bytes req n rsp m e k b u v (ap expects_response i)
  stub_lem s t mem p _ q bytes _ req n rsp m (for_thread_exit i) e k b u v =
      returns_ok_lem s t mem p q bytes req n rsp m e k b u v (ap expects_response i)
  stub_lem s t mem p _ q bytes _ req n rsp m (for_function i) e k b u v =
      returns_status_lem s t mem p q bytes req n rsp m e k b u v (ap expects_response i)
  stub_lem s t mem p _ q bytes _ req n rsp m (for_variable i) e k b u v =
      returns_status_lem s t mem p q bytes req n rsp m e k b u v (ap expects_response i)
  stub_lem s t mem p _ q bytes _ req n rsp m (for_unregister i) e k b u v =
      returns_ok_lem s t mem p q bytes req n rsp m e k b u v (ap expects_response i)
  stub_lem s t mem p sent q bytes _ req n rsp m (for_upload i) e k b u v =
      ground (arith, i, returns_status_lem s t mem sent q bytes req n rsp m e k b u v refl)
  stub_lem s t mem p sent q bytes _ req n rsp m (for_download i) e k b u v =
      ground (arith, i, returns_status_lem s t mem sent q bytes req n rsp m e k b u v refl)
  stub_lem s t mem p sent q bytes _ req n rsp m (for_device_copy i) e k b u v =
      ground (arith, i, returns_status_lem s t mem sent q bytes req n rsp m e k b u v refl)
  stub_lem s t mem p sent q bytes _ req n rsp m (for_symbol_upload j i) e k b u v = ground (
    arith,
    i,
    returns_status_lem s t mem sent q bytes req n rsp m e k b u v (ap expects_response j),
  )
  stub_lem s t mem p sent q bytes _ req n rsp m (for_symbol_download j i) e k b u v = ground (
    arith,
    i,
    returns_status_lem s t mem sent q bytes req n rsp m e k b u v (ap expects_response j),
  )
