-- ===== src/Remote/Rpc/Tests.antt =====
-- Two remote calls, of which the first one has a response.
use gpu_virtmem.Prelude.{ℕ, suc, ◌≡◌, refl, false, List, [], ◌∷◌, some, arith}
use gpu_virtmem.Remote.Rpc.{
  cuda_malloc, cuda_free, expects_response, handler_of, pkt_execute, Handler, Handlers,
}
use gpu_virtmem.Remote.Sample.{all_by}
use gpu_virtmem.Remote.Rpc.Session.{Msg, Call, Answer, serve_all, send_calls, receive_answers}
use gpu_virtmem.Remote.Rpc.Laws.{answer_of, Runs, stop, run, receive_answers_lem}

-- The state counts the calls, and every answer has the count and two bytes.
abbrev counting : Handler ℕ ℕ
counting s p bs = some (suc s, record p { args = s }, 1 ∷ 2 ∷ [])

abbrev counters : Handlers ℕ ℕ
counters = all_by counting

abbrev malloc_call : Call ℕ
malloc_call = record {
  packet = record { method_id = cuda_malloc; has_error = false; err = 0; args = 0 };
  reqbuf = 7 ∷ [];
  rspbuf_size = 2;
}

abbrev free_call : Call ℕ
free_call = record {
  packet = record { method_id = cuda_free; has_error = false; err = 0; args = 9 };
  reqbuf = [];
  rspbuf_size = 2;
}

abbrev two_answers : List (Answer ℕ)
two_answers =
    record {
      packet = record { method_id = cuda_malloc; has_error = false; err = 0; args = 5 };
      response = 1 ∷ 2 ∷ [];
    }
    ∷ record { packet = free_call.packet; response = [] }
    ∷ []

two_calls_served : Runs counters 5 (malloc_call ∷ free_call ∷ []) 7 two_answers
unfolding pkt_execute handler_of answer_of expects_response
two_calls_served =
    run {t = 6} {answers = record { packet = free_call.packet; response = [] } ∷ []}
      {p = record { method_id = cuda_malloc; has_error = false; err = 0; args = 5 }}
      {rsp = 1 ∷ 2 ∷ []} refl refl (omega arith)
      (run {t = 7} {answers = []}
        {p = record { method_id = cuda_free; has_error = false; err = 0; args = 6 }}
        {rsp = 1 ∷ 2 ∷ []} refl refl (omega arith) stop)

receive_answers_lem_example :
    (out : List (Msg ℕ)) × (serve_all 2 counters 5 (send_calls (malloc_call ∷ free_call ∷ []))
      ≡ some (7, out))
    × (receive_answers (malloc_call ∷ free_call ∷ []) out ≡ some (two_answers, []))
receive_answers_lem_example =
    receive_answers_lem counters 5 7 (malloc_call ∷ free_call ∷ []) two_answers two_calls_served
