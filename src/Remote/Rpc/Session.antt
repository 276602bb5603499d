-- ===== src/Remote/Rpc/Session.antt =====
-- remote/remote_api_wrapper.c, remote/connection.c and backend/backend.c: a remote call, from the
-- client through the connection to the server and back. A connection carries, in each direction, what
-- the calls of `put` have sent; a `get` of anything but the next of these is `none`.
use gpu_virtmem.Prelude.{
  ℕ, zero, suc, Bool, true, false, ◌&&◌, List, [], ◌∷◌, ◌++◌, Option, none, some, ◌>>=◌, length,
  leb, ◌==◌, if◌then◌else◌, set,
}
use gpu_virtmem.Remote.Rpc.{
  Rpkt, Strm, Handlers, expects_response, strm_expects_response, pkt_execute,
}

-- A `strm_hdr_t`, an array of packets, or the bytes of a buffer.
pub data Msg (A : Type 0) : Type 0 where
  header : ℕ → ℕ → Msg A
  packets : List (Rpkt A) → Msg A
  buffer : List ℕ → Msg A

abbrev pub max_remote_batch_size : ℕ
max_remote_batch_size = 1024

unfoldable pub get_header :
    {A R : Type 0} → List (Msg A) → (ℕ → ℕ → List (Msg A) → Option R) → Option R
get_header (header n size ∷ ms) k = k n size ms
get_header ms k = none

-- `get` of `n` packets into an array of `MAX_REMOTE_BATCH_SIZE`.
unfoldable pub get_packets :
    {A R : Type 0} → ℕ → List (Msg A) → (List (Rpkt A) → List (Msg A) → Option R) → Option R
get_packets n (packets ps ∷ ms) k =
    if length ps == n && leb n max_remote_batch_size then k ps ms else none
get_packets n ms k = none

-- `get` of a buffer, when there is one.
unfoldable pub get_buffer :
    {A R : Type 0} → ℕ → List (Msg A) → (List ℕ → List (Msg A) → Option R) → Option R
get_buffer zero ms k = k [] ms
get_buffer (suc n) (buffer bs ∷ ms) k = if length bs == suc n then k bs ms else none
get_buffer (suc n) ms k = none

-- `put` of a buffer, when there is one.
unfoldable pub put_buffer : {A : Type 0} → List ℕ → List (Msg A)
put_buffer [] = []
put_buffer (b ∷ bs) = buffer (b ∷ bs) ∷ []

-- The arguments of `l_do_cuda_rpc`: the packet, the request buffer, and the size of the buffer for the
-- response.
pub record Call (A : Type 0) : Type 0 where
  pub packet : Rpkt A
  pub reqbuf : List ℕ
  pub rspbuf_size : ℕ

-- What the call leaves: the packet, and what the response buffer got.
pub record Answer (A : Type 0) : Type 0 where
  pub packet : Rpkt A
  pub response : List ℕ

-- The first half of `l_do_cuda_rpc`: what is sent.
unfoldable pub send_call : {A : Type 0} → Call A → List (Msg A)
send_call c = header 1 (length c.reqbuf) ∷ packets (c.packet ∷ []) ∷ put_buffer c.reqbuf

unfoldable pub first_packet : {A R : Type 0} → List (Rpkt A) → (Rpkt A → Option R) → Option R
first_packet [] k = none
first_packet (p ∷ ps) k = k p

-- The second half of `l_do_cuda_rpc`: the answer, and what else has arrived.
unfoldable pub receive_answer :
    {A : Type 0} → Call A → List (Msg A) → Option (Answer A × List (Msg A))
receive_answer c ms =
    if expects_response c.packet.method_id
    then get_header ms (λ n size ms₁. get_packets n ms₁ (λ ps ms₂.
      if n == 1 && leb size c.rspbuf_size
      then first_packet ps
          (λ p. get_buffer size ms₂ (λ bs ms₃. some (record { packet = p; response = bs }, ms₃)))
      else none))
    else some (record { packet = c.packet; response = [] }, ms)

-- What one round of the loop of `backend_thread` leaves.
pub record Served (A S : Type 0) : Type 0 where
  pub state : S
  pub out : List (Msg A)
  pub rest : List (Msg A)

-- The response, when the last packet expects one.
unfoldable pub respond : {A : Type 0} → Bool → Rpkt A → List ℕ → List (Msg A)
respond true p rsp = header 1 (length rsp) ∷ packets (p ∷ []) ∷ put_buffer rsp
respond false p rsp = []

-- `pConn->strm`, as it was received.
unfoldable pub batch : {A : Type 0} → ℕ → ℕ → List (Rpkt A) → Strm A
batch n size ps = record { batch_size = 0; num_cuda_pkts = n; data_size = size; rpkts = ps }

-- One round of the loop of `backend_thread`: a header without packets is ignored, and of a batch the
-- first packet is executed.
unfoldable pub serve : {A S : Type 0} → Handlers A S → S → List (Msg A) → Option (Served A S)
serve h s ms = get_header ms (λ n size ms₁.
    if n == 0
    then some (record { state = s; out = []; rest = ms₁ })
    else get_packets n ms₁ (λ ps ms₂. get_buffer size ms₂ (λ bs ms₃. first_packet ps (λ p.
      pkt_execute h s p bs >>= (λ r.
        strm_expects_response (batch n size (set ps 0 r.1))
        >>= (λ e. some (record { state = r.0; out = respond e r.1 r.2; rest = ms₃ })))))))

-- The loop, for at most `n` rounds; it ends when the client has closed the connection.
unfoldable pub serve_all :
    {A S : Type 0} → ℕ → Handlers A S → S → List (Msg A) → Option (S × List (Msg A))
serve_all n h s [] = some (s, [])
serve_all zero h s (m ∷ ms) = none
serve_all (suc n) h s (m ∷ ms) =
    serve h s (m ∷ ms) >>= (λ r. serve_all n h r.state r.rest >>= (λ t. some (t.0, r.out ++ t.1)))

-- The calls of a client, one after the other: what is sent for them, and what they leave.
unfoldable pub send_calls : {A : Type 0} → List (Call A) → List (Msg A)
send_calls [] = []
send_calls (c ∷ cs) = send_call c ++ send_calls cs

unfoldable pub receive_answers :
    {A : Type 0} → List (Call A) → List (Msg A) → Option (List (Answer A) × List (Msg A))
receive_answers [] ms = some ([], ms)
receive_answers (c ∷ cs) ms =
    receive_answer c ms >>= (λ a. receive_answers cs a.1 >>= (λ t. some (a.0 ∷ t.0, t.1)))
