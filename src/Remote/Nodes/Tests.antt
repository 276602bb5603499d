-- ===== src/Remote/Nodes/Tests.antt =====
-- A copy of two bytes from the device of the second of two nodes.
use gpu_virtmem.Prelude.{ℕ, suc, [], ◌∷◌, some, none}
use gpu_virtmem.Remote.Rpc.{unknown, cuda_memcpy_d2h, Handler, Rpkt}
use gpu_virtmem.Remote.Client.{Args, Exchange}
use gpu_virtmem.Remote.Entry.{init_packet}
use gpu_virtmem.Remote.Entry.Calls.{with_args, copying}
use gpu_virtmem.Remote.Nodes.{DeviceTables}
use gpu_virtmem.Remote.Nodes.Routes.{AppThread}

-- The state of a node counts its calls, and every answer has two bytes.
abbrev reading : Handler Args ℕ
reading s p bs = some (suc s, record p { err = 0 }, 8 ∷ 9 ∷ [])

abbrev sent : Rpkt Args
sent = record (copying (with_args (init_packet (unknown 65535)) 100 7 2 2)) {
  method_id = cuda_memcpy_d2h;
}

abbrev three_devices : DeviceTables
three_devices = record { dev_to_index = 0 ∷ 0 ∷ 1 ∷ []; dev_to_localdev = 0 ∷ 1 ∷ 0 ∷ [] }

-- No scheduler is asked.
abbrev silent : Exchange ℕ
silent s ms = none

abbrev on_third : AppThread ℕ ℕ
on_third = record { scheduler = 4; nodes = 5 ∷ 5 ∷ []; memory = λ q. 0; cur_dev = 2 }
