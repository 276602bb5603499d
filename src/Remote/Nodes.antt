-- ===== src/Remote/Nodes.antt =====
-- interposer/libci.c, `__cudaRegisterFatBinary`: the tables that give each device of the cluster its
-- node and its number there. Routes is about the functions `cuda...` that use them.
pub mod Tables
pub mod Routes
pub mod Calls
mod Tests
use gpu_virtmem.Prelude.{
  ℕ, zero, suc, ◌+◌, ◌-◌, ◌&&◌, List, [], ◌∷◌, Option, none, some, ◌>>=◌, length, ltb, set,
  get_elem?, if◌then◌else◌,
}

-- `DEV_TO_INDEX` and `DEV_TO_LOCALDEV`
pub record DeviceTables : Type 0 where
  pub dev_to_index : List ℕ
  pub dev_to_localdev : List ℕ

-- One round of the inner loop for device `k`; `none` is a write behind an array.
unfoldable pub place : ℕ → ℕ → ℕ → DeviceTables → Option DeviceTables
place k node local t =
    if ltb k (length t.dev_to_index) && ltb k (length t.dev_to_localdev)
    then some (record {
      dev_to_index = set t.dev_to_index k node;
      dev_to_localdev = set t.dev_to_localdev k local;
    })
    else none

-- The inner loop, with the number of rounds first, then `k`, the node, `BACKEND_DEVICES` and
-- `DEVICES_IN_NODE[i]`.
unfoldable pub place_from : ℕ → ℕ → ℕ → ℕ → ℕ → DeviceTables → Option DeviceTables
place_from zero k node total n t = some t
place_from (suc m) k node total n t =
    place k node (k - (total - n)) t >>= (λ u. place_from m (suc k) node total n u)

-- The loop over the nodes, with what `rcudaGetDeviceCount` leaves in `DEVICES_IN_NODE`, from node `i`,
-- with `k` and `BACKEND_DEVICES` so far. It gives the tables and `BACKEND_DEVICES`.
unfoldable pub place_nodes : List ℕ → ℕ → ℕ → ℕ → DeviceTables → Option (DeviceTables × ℕ)
place_nodes [] i k total t = some (t, total)
place_nodes (n ∷ ns) i k total t =
    place_from ((total + n) - k) k i (total + n) n t
    >>= (λ u. place_nodes ns (suc i) (k + ((total + n) - k)) (total + n) u)

-- `CUMMULATIVE_FREQ_DEV`
unfoldable pub cumulative : List ℕ → ℕ → List ℕ
cumulative [] acc = acc ∷ []
cumulative (n ∷ ns) acc = acc ∷ cumulative ns (acc + n)

-- `first_local`, from `first_node`.
unfoldable pub first_local : List ℕ → ℕ → Option ℕ
first_local counts first_node = get_elem? (cumulative counts 0) first_node
