-- ===== src/Vmem/Kernels.antt =====
-- virtmem/cuda_vmem.c: the kernel map, which collects the calls that make up a kernel launch.
pub mod Args
pub mod Init
pub mod Calls
mod Tests
use gpu_virtmem.Prelude.{
  ℕ, zero, suc, ◌+◌, ◌*◌, ◌≡◌, Bool, true, false, ◌&&◌, List, [], ◌∷◌, ◌++◌, Option, none, some,
  leb, ◌>>=◌, ℤ, length, take, get_elem?, set, if◌then◌else◌,
}

-- `dim3`
pub record Dim3 : Type 0 where
  pub x : ℕ
  pub y : ℕ
  pub z : ℕ

-- `struct kernel_arg_node`, with the pointer-sized value behind `arg`; `next` numbers a node.
pub record KernelArg : Type 0 where
  pub arg : ℕ
  pub size : ℕ
  pub offset : ℕ
  pub mem_map_index : ℤ
  pub next : Option ℕ

-- `struct kernel_args`, with the nodes that `malloc` has given for it, in that order.
pub record ArgList : Type 0 where
  pub nodes : List KernelArg
  pub head : Option ℕ
  pub tail : Option ℕ

-- `struct kmap_node`; `func` is the memory that the pointer `func` names.
pub record KernelNode : Type 0 where
  pub valid : Bool
  pub launch_pending : Bool
  pub grid_dim : Dim3
  pub block_dim : Dim3
  pub shared_mem : ℕ
  pub stream : ℕ
  pub arg_list : ArgList
  pub func : List ℕ

-- `struct kmap`
pub record Kmap : Type 0 where
  pub kobjects : List KernelNode
  pub index : ℕ

abbrev pub max_kernels : ℕ
max_kernels = 10000

-- The sizes of the two structures on a 64-bit machine: 8 + 4 and padding; 2 * 4 + 2 * 12 + 5 * 8.
abbrev pub sizeof_kmap : ℕ
sizeof_kmap = 16

abbrev pub sizeof_kmap_node : ℕ
sizeof_kmap_node = 72

-- Where the assignments to `arg_list` end in a node, before `func`.
abbrev pub arg_list_end : ℕ
arg_list_end = 64

abbrev no_args : ArgList
no_args = record { nodes = []; head = none; tail = none }

-- The assignments of a round of `kmap_init`; the other fields keep what the memory held, `m`.
abbrev pub blank : KernelNode → KernelNode
blank m = record m { valid = false; launch_pending = false; arg_list = no_args }

-- The loop of `kmap_init` from round `i` on, in a block of `bytes` bytes whose contents, read as
-- nodes, are `memory i`; `none` is a write behind the end of the block. A round writes nothing behind
-- `arg_list`.
init_nodes : (ℕ → KernelNode) → ℕ → ℕ → ℕ → Option (List KernelNode)
init_nodes memory bytes i zero = some []
init_nodes memory bytes i (suc n) =
    let rest = init_nodes memory bytes (i + 1) n in
    if leb (i * sizeof_kmap_node + arg_list_end) bytes
    then (do nodes ← rest; some (blank (memory i) ∷ nodes))
    else none

-- `kmap_init` with a block of `bytes` bytes.
pub kmap_init_in : (ℕ → KernelNode) → ℕ → Option Kmap
kmap_init_in memory bytes = do
  nodes ← init_nodes memory bytes 0 max_kernels
  some (record { kobjects = nodes; index = 0 })

-- `kmap_init`: the block is `MAX_KERNELS * sizeof(struct kmap)` bytes.
pub kmap_init : (ℕ → KernelNode) → Option Kmap
kmap_init memory = kmap_init_in memory (max_kernels * sizeof_kmap)

-- `table->kobjects[table->index]`, updated in place; `none` is an access behind the array.
abbrev update_current : Kmap → (KernelNode → Option KernelNode) → Option Kmap
update_current k f = do
  node ← get_elem? k.kobjects k.index
  node' ← f node
  some (record k { kobjects = set k.kobjects k.index node' })

pub kmap_add_config : Kmap → Dim3 → Dim3 → ℕ → ℕ → Option Kmap
kmap_add_config k grid block shared stream = update_current k λ node.
    some (record node { grid_dim = grid; block_dim = block; shared_mem = shared; stream = stream })

abbrev is_null : Option ℕ → Bool
is_null none = true
is_null (some p) = false

-- `tail->next = node; tail = node`, with the new node numbered `fresh`.
behind_tail : List KernelArg → ℕ → ArgList → Option ArgList
behind_tail nodes fresh l = do
  t ← l.tail
  last ← get_elem? nodes t
  some (record l { nodes = set nodes t (record last { next = some fresh }); tail = some fresh })

-- The list part of `kmap_add_arg`: the new node goes behind `tail`, or makes up an empty list.
pub push_arg : KernelArg → ArgList → Option ArgList
unfolding behind_tail
push_arg node l =
    let fresh = length l.nodes in
    let nodes = l.nodes ++ (node ∷ []) in
    if is_null l.head && is_null l.tail
    then some (record { nodes = nodes; head = some fresh; tail = some fresh })
    else behind_tail nodes fresh l

pub kmap_add_arg : Kmap → ℕ → ℕ → ℕ → ℤ → Option Kmap
unfolding push_arg
kmap_add_arg k arg size offset vindex = update_current k λ node. do
  args ←
      push_arg
        (record { arg = arg; size = size; offset = offset; mem_map_index = vindex; next = none })
        node.arg_list
  some (record node { arg_list = args })

-- `kfun` is the C string with its terminator; `sizeof(*kfun)` is the size of one `char`.
pub kmap_add_kernel : Kmap → List ℕ → Option (Kmap × ℕ)
kmap_add_kernel k kfun = do
  k' ←
      update_current k
        λ node. some (record node { func = take 1 kfun; valid = true; launch_pending = true })
  some (record k' { index = k'.index + 1 }, k'.index)
