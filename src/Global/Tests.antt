-- ===== src/Global/Tests.antt =====
-- A scheduler for two devices, with one connection that is made, served and closed.
use gpu_virtmem.Prelude.{
  ℕ, ◌+◌, ◌≤◌, ◌≡◌, refl, true, List, [], ◌∷◌, none, some, pos, negsuc, sub_ℕ, set, arith, ◌-ℤ◌,
}
use gpu_virtmem.Remote.Rpc.{Rpkt, Handler, Handlers, pkt_execute, handler_of}
use gpu_virtmem.Remote.Rpc.Session.{Msg, send_call}
use gpu_virtmem.Remote.Sample.{all_by}
use gpu_virtmem.Remote.Client.{Args}
use gpu_virtmem.Remote.Client.Laws.{connected}
use gpu_virtmem.Remote.Devices.{get_next_device_rr}
use gpu_virtmem.Remote.Entry.{init_packet}
use gpu_virtmem.Remote.Entry.Calls.{rcuda_get_device}
use gpu_virtmem.Global.{
  Shared, Thread, get_device_srv, dec_thread_count_per_device, fresh, closed, Global, device_of,
  handle_req,
}
use gpu_virtmem.Global.Reach.{
  accept, give, close, Reach, start, next, times, ended, Reach-balanced, Reach-counts,
}
use gpu_virtmem.Remote.Nodes.{DeviceTables, place, place_from, place_nodes}
use gpu_virtmem.Remote.Nodes.Tables.{sum}
use gpu_virtmem.Global.Cluster.{set_packet, TakesDevice, cuda_set_device_lem}
use gpu_virtmem.Global.Entry.{with_devices, ask, moved_on, given_and_closed}

abbrev idle : Shared
idle = record { dev_rr = 0; counts = pos 0 ∷ pos 0 ∷ [] }

abbrev after : Shared
after = record { dev_rr = 1; counts = negsuc 0 ∷ pos 0 ∷ [] }

abbrev one_closed : Global
one_closed = record { shared = after; conns = closed 0 ∷ []; given = 0 ∷ [] }

abbrev answer : Rpkt Args
answer = record (ask 2 0 0) { err = 0; args = record (ask 2 0 0).args { arg0 = 0 } }

one_closed_reached : Reach 2 2 one_closed
unfolding get_device_srv get_next_device_rr dec_thread_count_per_device device_of init_packet
one_closed_reached =
    next
      (next (next start accept) (
        give 0 0 fresh none (ask 2 0 0) answer [] (record idle { dev_rr = 1 }) refl refl refl refl))
      (close 0 0 after refl refl)

Reach-balanced_example : times 0 (0 ∷ []) ≤ times 1 (0 ∷ []) + 1
Reach-balanced_example =
    Reach-balanced 2 2 one_closed 0 1 one_closed_reached (omega arith) (omega arith)

Reach-counts_example : negsuc 0 ≡ sub_ℕ 0 (ended 0 (closed 0 ∷ []))
Reach-counts_example = Reach-counts 2 2 one_closed 0 (negsuc 0) one_closed_reached refl

abbrev nothing : Handler Args Thread
nothing t p bs = some (t, p, [])

given_and_closed_example :
    (rcuda_get_device (connected (with_devices (all_by nothing))) true 2 0 0 (idle, none) (λ p. 0)
      ≡ some (record {
        state = (moved_on idle 2, some 0);
        memory = λ p. 0;
        cuda_err = 0;
        stored = some 0;
      }))
    × (out : List (Msg Args)) × (handle_req 1
          (all_by nothing)
          (idle, none)
          (send_call (record { packet = ask 2 0 0; reqbuf = []; rspbuf_size = 0 }))
        ≡ some (
          (record (moved_on idle 2) { counts = set idle.counts 0 (pos 0 -ℤ pos 1) }, some 0),
          out,
        ))
given_and_closed_example =
    given_and_closed (all_by nothing) idle 2 0 0 (omega arith) (λ p. 0) (pos 0) refl

-- A cluster of two nodes, the first with two devices, with room for four devices in the tables.
abbrev two_nodes : List ℕ
two_nodes = 2 ∷ 1 ∷ []

abbrev empty_tables : DeviceTables
empty_tables = record { dev_to_index = 0 ∷ 0 ∷ 0 ∷ 0 ∷ []; dev_to_localdev = 0 ∷ 0 ∷ 0 ∷ 0 ∷ [] }

abbrev made_tables : DeviceTables
made_tables = record { dev_to_index = 0 ∷ 0 ∷ 1 ∷ 0 ∷ []; dev_to_localdev = 0 ∷ 1 ∷ 0 ∷ 0 ∷ [] }

made : place_nodes two_nodes 0 0 0 empty_tables ≡ some (made_tables, sum two_nodes)
unfolding place_nodes place_from place sum
made = refl

sum-two_nodes : sum two_nodes ≡ 3
unfolding sum
sum-two_nodes = refl

-- A server that counts its calls.
abbrev counting : Handlers Args ℕ
counting = all_by (λ s p bs. some (s + 1, p, []))

counted :
    (s local : ℕ)
    → pkt_execute counting s (set_packet 1 local) [] ≡ some (s + 1, set_packet 1 local, [])
unfolding pkt_execute handler_of init_packet
counted s local = refl

abbrev at_last : Shared
at_last = record { dev_rr = 2; counts = pos 0 ∷ pos 0 ∷ pos 0 ∷ [] }

cuda_set_device_lem_example :
    TakesDevice
      (all_by nothing)
      counting
      1
      two_nodes
      made_tables
      0
      7
      at_last
      none
      (0 ∷ 0 ∷ [])
      (λ p. 0)
      0
unfolding init_packet
cuda_set_device_lem_example =
    cuda_set_device_lem (all_by nothing) counting 1 4 two_nodes empty_tables made_tables 0 7 at_last
      none (0 ∷ 0 ∷ []) (λ p. 0) 0 (record { index_size = refl; localdev_size = refl })
      (omega (arith, sum-two_nodes)) made (omega (arith, sum-two_nodes)) refl
      (λ s local. (s + 1, set_packet 1 local, counted s local, refl))
