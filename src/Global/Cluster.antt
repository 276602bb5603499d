-- ===== src/Global/Cluster.antt =====
-- interposer/libci.c with Global_Sched/global_sched.c and the servers of all nodes: an application
-- takes a device of the cluster.
use gpu_virtmem.Prelude.{
  inl, refl, ℕ, ◌+◌, ◌≤◌, ◌<◌, ◌≡◌, ◌≢◌, sym, ◌∙◌, subst, true, List, [], Option, none, some, ◌>>=◌,
  length, get_elem?, set, get_elem?-some, get_elem?-lt, get_elem?-set_self, bind_of, arith,
}
use gpu_virtmem.Remote.Rpc.{cuda_set_device, Rpkt, Handlers, pkt_execute, expects_response}
use gpu_virtmem.Remote.Client.{Args, Memory, read_bytes}
use gpu_virtmem.Remote.Client.Laws.{connected}
use gpu_virtmem.Remote.Entry.{init_packet, Entry}
use gpu_virtmem.Remote.Entry.Calls.{with_args, rcuda_set_device}
use gpu_virtmem.Remote.Entry.Expected.{call_set_device, error_of, stored_of}
use gpu_virtmem.Remote.Entry.Laws.{entry_lem}
use gpu_virtmem.Remote.Nodes.{DeviceTables, place_nodes, first_local}
use gpu_virtmem.Remote.Nodes.Tables.{HasSize, IsPlaced, sum, device_tables_lem}
use gpu_virtmem.Remote.Nodes.Routes.{
  AppThread, device_drr, call_node, call_current, enter_device, cuda_set_device_routed,
}
use gpu_virtmem.Global.{Shared, Thread}
use gpu_virtmem.Global.Entry.{with_devices, moved_on, device_given}

-- The packet that `cudaSetDevice` sends to the node, for the device's number there.
abbrev pub set_packet : ℕ → ℕ → Rpkt Args
set_packet share local = with_args (init_packet cuda_set_device) local 0 share 0

module _ {N : Type 0} (hs : Handlers Args Thread) (hn : Handlers Args N) (share : ℕ) where
  set_on_node :
      (s t : N) (mem : Memory) (local : ℕ) (p : Rpkt Args)
      → pkt_execute hn s (set_packet share local) [] ≡ some (t, p, [])
      → p.method_id ≡ cuda_set_device
      → rcuda_set_device (connected hn) true local 0 share s mem
        ≡ some (record { state = t; memory = mem; cuda_err = 0; stored = none })
  unfolding init_packet error_of stored_of expects_response read_bytes
  set_on_node s t mem local p e k =
      entry_lem hn s t mem (set_packet share local) p []
        (rcuda_set_device (connected hn) true local 0 share) 0 0 0 0 (call_set_device local 0 share)
        e k (omega arith) (inl refl) (inl refl)

  -- `cudaSetDevice` where the device that is next in turn is number `local` of node `q`.
  entered :
      (tables : DeviceTables) (devices fl device q local : ℕ) (shared : Shared) (old : Option ℕ)
      (nodes : List N) (mem : Memory) (cur : ℕ) (s t : N) (p : Rpkt Args)
      → devices ≢ 0
      → IsPlaced tables shared.dev_rr q local
      → get_elem? nodes q ≡ some s
      → pkt_execute hn s (set_packet share local) [] ≡ some (t, p, [])
      → p.method_id ≡ cuda_set_device
      → cuda_set_device_routed
          (connected (with_devices hs))
          (connected hn)
          true
          tables
          devices
          fl
          share
          device
          (record { scheduler = (shared, old); nodes = nodes; memory = mem; cur_dev = cur })
        ≡ some (record {
          thread = record {
            scheduler = (moved_on shared devices, some shared.dev_rr);
            nodes = set nodes q t;
            memory = mem;
            cur_dev = shared.dev_rr;
          };
          ret = 0;
          stored = none;
        })
  unfolding cuda_set_device_routed enter_device call_node device_drr
  entered tables devices fl device q local shared old nodes mem cur s t p some_device at there e k =
      bind_of _ (device_given hs shared devices fl 0 some_device old mem)
      ∙ ground (arith, at.localdev_there, at.index_there, there, set_on_node s t mem local p e k)

  -- The tables that the loop has made are those of `device_tables_lem`.
  next_device :
      (size : ℕ) (counts : List ℕ) (t₀ tables : DeviceTables) (d : ℕ)
      → HasSize size t₀
      → sum counts ≤ size
      → place_nodes counts 0 0 0 t₀ ≡ some (tables, sum counts)
      → d < sum counts
      → (q : ℕ) × (n : ℕ) × (base : ℕ) × (local : ℕ) × (get_elem? counts q ≡ some n)
        × (first_local counts q ≡ some base)
        × (local < n)
        × (base + local ≡ d)
        × IsPlaced tables d q local
  next_device size counts t₀ tables d s h made few =
      let (u, e, placed, owners) = device_tables_lem size counts t₀ s h in
      let same : u ≡ tables = ground (arith, sym e ∙ made) in
      let (q, n, base, local, f, g, l, at) = owners d few in
      (
        q,
        n,
        base,
        local,
        f,
        g,
        l,
        at,
        subst (λ x. IsPlaced x d q local) same
            (subst (λ k. IsPlaced u k q local) at (placed q n base local f g l)),
      )

  -- The thread of the application before and after `cudaSetDevice`.
  abbrev pub before : Shared → Option ℕ → List N → Memory → ℕ → AppThread Thread N
  before shared old nodes mem cur = record {
    scheduler = (shared, old);
    nodes = nodes;
    memory = mem;
    cur_dev = cur;
  }

  abbrev pub after : Shared → ℕ → List N → Memory → AppThread Thread N
  after shared devices nodes mem = record {
    scheduler = (moved_on shared devices, some shared.dev_rr);
    nodes = nodes;
    memory = mem;
    cur_dev = shared.dev_rr;
  }

  -- `cudaSetDevice` takes the device whose turn it is, number `local` of `count` of a node: the server
  -- of the node executes `cudaSetDevice` for `local`, and any call that follows is made to it.
  pub record TakesDevice (counts : List ℕ) (tables : DeviceTables) (fl device : ℕ) (shared : Shared)
      (old : Option ℕ) (nodes : List N) (mem : Memory) (cur : ℕ) : Type 0 where
    pub index : ℕ
    pub count : ℕ
    pub base : ℕ
    pub local : ℕ
    pub unset : N
    pub ready : N
    pub answer : Rpkt Args
    pub has_count : get_elem? counts index ≡ some count
    pub has_base : first_local counts index ≡ some base
    pub local_few : local < count
    pub in_turn : base + local ≡ shared.dev_rr
    pub has_server : get_elem? nodes index ≡ some unset
    pub executed : pkt_execute hn unset (set_packet share local) [] ≡ some (ready, answer, [])
    pub returned :
        cuda_set_device_routed
          (connected (with_devices hs))
          (connected hn)
          true
          tables
          (sum counts)
          fl
          share
          device
          (before shared old nodes mem cur)
        ≡ some (record {
          thread = after shared (sum counts) (set nodes index ready) mem;
          ret = 0;
          stored = none;
        })
    pub calls :
        (call : Entry N)
        → call_current
            (connected (with_devices hs))
            (connected hn)
            true
            tables
            (sum counts)
            fl
            share
            call
            (after shared (sum counts) (set nodes index ready) mem)
          ≡ (call ready mem >>= (λ r. some (record {
            thread = after shared (sum counts) (set (set nodes index ready) index r.state) r.memory;
            ret = r.cuda_err;
            stored = r.stored;
          })))

  -- `cudaSetDevice` in a cluster whose tables were made from the counts of devices of its nodes, with a
  -- server for each node that answers `cudaSetDevice` in whatever state it is, and with the turn of
  -- the scheduler at a device: it ends with 0, whatever device it was called with. The device whose
  -- turn it was is number `local` of a node, and becomes the current one. The server of the node has
  -- executed `cudaSetDevice` for `local`, no other server has changed, the turn has passed on, and the
  -- next call is made to the server of the node.
  pub cuda_set_device_lem :
      (size : ℕ) (counts : List ℕ) (t₀ tables : DeviceTables) (fl device : ℕ) (shared : Shared)
      (old : Option ℕ) (nodes : List N) (mem : Memory) (cur : ℕ)
      → HasSize size t₀
      → sum counts ≤ size
      → place_nodes counts 0 0 0 t₀ ≡ some (tables, sum counts)
      → shared.dev_rr < sum counts
      → length nodes ≡ length counts
      → ((s : N) (local : ℕ)
          → (t : N) × (p : Rpkt Args) × (pkt_execute hn s (set_packet share local) []
              ≡ some (t, p, []))
            × (p.method_id ≡ cuda_set_device))
      → TakesDevice counts tables fl device shared old nodes mem cur
  unfolding call_current call_node
  cuda_set_device_lem size counts t₀ tables fl device shared old nodes mem cur sized h made few
        served answers =
      let (q, n, base, local, f, g, l, at, placed) =
        next_device size counts t₀ tables shared.dev_rr sized h made few in
      let inside : q < length nodes = omega (arith, get_elem?-lt counts q f) in
      let (s, there) = get_elem?-some nodes q inside in
      let (t, p, e, k) = answers s local in
      record {
        index = q;
        count = n;
        base = base;
        local = local;
        unset = s;
        ready = t;
        answer = p;
        has_count = f;
        has_base = g;
        local_few = l;
        in_turn = at;
        has_server = there;
        executed = e;
        returned =
            entered tables (sum counts) fl device q local shared old nodes mem cur s t p
              (omega arith) placed there e k;
        calls =
            λ call. bind_of _ placed.index_there ∙ bind_of _ (get_elem?-set_self nodes q t inside);
      }
