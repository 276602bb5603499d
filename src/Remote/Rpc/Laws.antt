-- ===== src/Remote/Rpc/Laws.antt =====
-- remote/remote_api_wrapper.c and backend/backend.c: a remote call is a call of the handler.
use gpu_virtmem.Prelude.{
  ℕ, ◌≤◌, ◌≡◌, refl, ◌∙◌, inl, inr, List, [], ◌∷◌, ◌++◌, Option, some, ◌>>=◌, length, set, arith,
  if◌then◌else◌, Bool-cases,
}
use gpu_virtmem.Remote.Rpc.{Rpkt, Handlers, expects_response, strm_expects_response, pkt_execute}
use gpu_virtmem.Remote.Rpc.Session.{
  Msg, get_header, get_packets, get_buffer, put_buffer, Call, Answer, send_call, first_packet,
  receive_answer, Served, respond, batch, serve, serve_all, send_calls, receive_answers,
}

-- The answer to a call after which the handler has left a packet and a response.
unfoldable pub answer_of : {A : Type 0} → Call A → Rpkt A → List ℕ → Answer A
answer_of c p rsp =
    if expects_response c.packet.method_id
    then record { packet = p; response = rsp }
    else record { packet = c.packet; response = [] }

-- The handlers execute the calls one after the other, where the client is: each keeps the method of
-- its packet, and its response fits the buffer for it.
pub data Runs {A S : Type 0} (h : Handlers A S)
    : S → List (Call A) → S → List (Answer A) → Type 0 where
  stop : {s : S} → Runs h s [] s []
  run :
      {s t u : S} {c : Call A} {cs : List (Call A)} {answers : List (Answer A)} {p : Rpkt A}
      {rsp : List ℕ}
      → pkt_execute h s c.packet c.reqbuf ≡ some (t, p, rsp)
      → p.method_id ≡ c.packet.method_id
      → length rsp ≤ c.rspbuf_size
      → Runs h t cs u answers
      → Runs h s (c ∷ cs) u (answer_of c p rsp ∷ answers)

module _ {A : Type 0} where
  get_buffer_lem :
      {R : Type 0} (bs : List ℕ) (ms : List (Msg A)) (k : List ℕ → List (Msg A) → Option R)
      → get_buffer (length bs) (put_buffer bs ++ ms) k ≡ k bs ms
  unfolding get_buffer put_buffer
  get_buffer_lem [] ms k = refl
  get_buffer_lem (b ∷ bs) ms k = ground arith

  pub receive_answer_lem :
      (c : Call A) (p : Rpkt A) (rsp : List ℕ) (ms : List (Msg A))
      → length rsp ≤ c.rspbuf_size
      → receive_answer c (respond (expects_response c.packet.method_id) p rsp ++ ms)
        ≡ some (answer_of c p rsp, ms)
  unfolding receive_answer respond answer_of get_header get_packets first_packet
  receive_answer_lem c p rsp ms h = elim (Bool-cases (expects_response c.packet.method_id)) [
    | inl e ↦
        let k : List ℕ → List (Msg A) → Option (Answer A × List (Msg A)) =
          λ bs ms₃. some (record { packet = p; response = bs }, ms₃) in
        ground (arith, e, h, get_buffer_lem rsp ms k)
    | inr e ↦ ground (arith, e)
  ]

  pub serve_lem :
      {S : Type 0} (h : Handlers A S) (s t : S) (c : Call A) (p : Rpkt A) (rsp : List ℕ)
      (ms : List (Msg A))
      → pkt_execute h s c.packet c.reqbuf ≡ some (t, p, rsp)
      → p.method_id ≡ c.packet.method_id
      → serve h s (send_call c ++ ms)
        ≡ some (record {
          state = t;
          out = respond (expects_response c.packet.method_id) p rsp;
          rest = ms;
        })
  unfolding serve send_call get_header get_packets first_packet strm_expects_response batch
  serve_lem {S} h s t c p rsp ms e m =
      let k : List ℕ → List (Msg A) → Option (Served A S) = λ bs ms₃.
        first_packet (c.packet ∷ []) (λ p. pkt_execute h s p bs >>= (λ r.
          strm_expects_response (batch 1 (length c.reqbuf) (set (c.packet ∷ []) 0 r.1))
          >>= (λ e. some (record { state = r.0; out = respond e r.1 r.2; rest = ms₃ })))) in
      get_buffer_lem c.reqbuf ms k ∙ ground (arith, e, m)

  -- A sequence of remote calls is served as if the handlers ran where the client is: where they execute
  -- the calls one after the other, each keeping the method of its packet and leaving a response within
  -- the buffer for it, the server, after one round for each call, is in the state that they leave, and
  -- the client has the answer to each call, in their order, with no message left over.
  pub receive_answers_lem :
      {S : Type 0} (h : Handlers A S) (s t : S) (cs : List (Call A)) (answers : List (Answer A))
      → Runs h s cs t answers
      → (out : List (Msg A)) × (serve_all (length cs) h s (send_calls cs) ≡ some (t, out))
        × (receive_answers cs out ≡ some (answers, []))
  unfolding serve_all send_calls receive_answers send_call
  receive_answers_lem h s t [] _ stop = ([], refl, refl)
  receive_answers_lem h s t (c ∷ cs) _ (run {t = u} {answers} {p} {rsp} e m n r) =
      let (out, served, received) = receive_answers_lem h u t cs answers r in
      (
        respond (expects_response c.packet.method_id) p rsp ++ out,
        ground (arith, serve_lem h s u c p rsp (send_calls cs) e m, served),
        ground (arith, receive_answer_lem c p rsp out n, received),
      )
