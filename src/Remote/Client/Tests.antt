-- ===== src/Remote/Client/Tests.antt =====
-- A copy of two bytes from the device, through the connection.
use gpu_virtmem.Prelude.{inl, inr, ℕ, suc, ◌≡◌, refl, true, false, [], ◌∷◌, some, arith}
use gpu_virtmem.Remote.Rpc.{cuda_memcpy_d2h, Handler, Rpkt, handler_of, pkt_execute}
use gpu_virtmem.Remote.Sample.{all_by}
use gpu_virtmem.Remote.Client.{Args, memcpy_rpc}
use gpu_virtmem.Remote.Client.Called.{for_download}
use gpu_virtmem.Remote.Client.Laws.{connected, reply_of, stub_lem}

-- The state counts the calls, and every answer has two bytes.
abbrev reading : Handler Args ℕ
reading s p bs = some (suc s, record p { err = 0 }, 8 ∷ 9 ∷ [])

abbrev download : Rpkt Args
download = record {
  method_id = cuda_memcpy_d2h;
  has_error = false;
  err = 4;
  args = record {
    arg0 = 100;
    arg1 = 7;
    arg2 = 2;
    arg2_offset = 0;
    arg3 = 2;
    copy_type = true;
    addr_shared = false;
  };
}

stub_lem_example :
    memcpy_rpc (connected (all_by reading)) 5 (λ q. 0) download
    ≡ some (
        reply_of
          (all_by reading)
          (λ q. 0)
          100
          download
          6
          (record download { err = 0 })
          (8 ∷ 9 ∷ []))
unfolding pkt_execute handler_of
stub_lem_example =
    stub_lem (all_by reading) 5 6 (λ q. 0) download download (record download { err = 0 })
      (8 ∷ 9 ∷ []) (memcpy_rpc (connected (all_by reading))) 0 0 100 2 (for_download refl) refl refl
      (omega arith) (inl refl) (inr (omega arith, omega arith))
