-- ===== src/Remote/Entry/Tests.antt =====
-- A copy of two bytes from a device, as an application calls it.
use gpu_virtmem.Prelude.{ℕ, suc, [], ◌∷◌, some}
use gpu_virtmem.Remote.Rpc.{unknown, cuda_memcpy_d2h, Handler, Rpkt}
use gpu_virtmem.Remote.Client.{Args}
use gpu_virtmem.Remote.Entry.{init_packet}
use gpu_virtmem.Remote.Entry.Calls.{with_args, copying}

-- The state counts the calls, and every answer has two bytes.
abbrev reading : Handler Args ℕ
reading s p bs = some (suc s, record p { err = 0 }, 8 ∷ 9 ∷ [])

abbrev sent : Rpkt Args
sent = record (copying (with_args (init_packet (unknown 65535)) 100 7 2 2)) {
  method_id = cuda_memcpy_d2h;
}
