-- ===== src/Vmem/Kernels/Args.antt =====
-- The linked list of a kernel's arguments holds them in the order of the calls that set them up.
use gpu_virtmem.Prelude.{
  ℕ, suc, ◌+◌, ◌≡◌, refl, ap, List, [], ◌∷◌, ◌++◌, Option, none, some, ℤ, arith, get_elem?, set,
  length, length-append, subst,
}
use native.Mathlib.Nat.{add-zero, zero-add}
use gpu_virtmem.Vmem.Kernels.{KernelArg, ArgList, push_arg}

-- One call of `cudaSetupArgument`, without the list's link.
pub record Argument : Type 0 where
  pub arg : ℕ
  pub size : ℕ
  pub offset : ℕ
  pub mem_map_index : ℤ

abbrev pub node : Argument → Option ℕ → KernelArg
node a next = record {
  arg = a.arg;
  size = a.size;
  offset = a.offset;
  mem_map_index = a.mem_map_index;
  next = next;
}

abbrev pub next_of : ℕ → List Argument → Option ℕ
next_of i [] = none
next_of i (a ∷ xs) = some (i + 1)

-- The nodes of a list of arguments, numbered from `i` on.
abbrev pub linked : ℕ → List Argument → List KernelArg
linked i [] = []
linked i (a ∷ xs) = node a (next_of i xs) ∷ linked (i + 1) xs

-- The list that holds the arguments `xs` and nothing else.
abbrev pub arg_list : List Argument → ArgList
arg_list [] = record { nodes = []; head = none; tail = none }
arg_list (a ∷ xs) = record { nodes = linked 0 (a ∷ xs); head = some 0; tail = some (length xs) }

pub length-linked : (i : ℕ) (xs : List Argument) → length (linked i xs) ≡ length xs
length-linked i [] = refl
length-linked i (a ∷ xs) = ap suc (length-linked (i + 1) xs)

last_node :
    (i : ℕ) (a : Argument) (xs : List Argument) (x : KernelArg)
    → (l : KernelArg) × (get_elem? (linked i (a ∷ xs) ++ (x ∷ [])) (length xs) ≡ some l)
last_node i a [] x = (node a none, refl)
last_node i a (b ∷ xs) x = last_node (i + 1) b xs x

-- Setting the last node's link and appending a node is the list with one argument more.
relink :
    (i j : ℕ) (a : Argument) (xs : List Argument) (b : Argument) (l : KernelArg)
    → get_elem? (linked i (a ∷ xs) ++ (node b none ∷ [])) (length xs) ≡ some l
    → j ≡ i + length xs + 1
    → set (linked i (a ∷ xs) ++ (node b none ∷ [])) (length xs) (record l { next = some j })
      ≡ linked i (a ∷ xs ++ (b ∷ []))
relink i j a [] b l e f = ground arith
relink i j a (c ∷ xs) b l e f =
    ap (λ r. node a (some (i + 1)) ∷ r) (relink (i + 1) j c xs b l e (omega arith))

-- `kmap_add_arg` appends: on the list of the arguments `xs` it gives the list of `xs` and then `b`.
pub push_arg_lem :
    (xs : List Argument) (b : Argument)
    → push_arg (node b none) (arg_list xs) ≡ some (arg_list (xs ++ (b ∷ [])))
unfolding push_arg
push_arg_lem [] b = refl
push_arg_lem (a ∷ xs) b =
    let (l, e) = last_node 0 a xs (node b none) in
    ground (
      arith,
      e,
      relink 0 (length (linked 0 (a ∷ xs))) a xs b l e (omega (arith, length-linked 1 xs)),
      length-linked 1 xs,
      length-append xs (b ∷ []),
    )

-- From node `i` on, the nodes hold the arguments `xs`.
abbrev pub HoldsFrom : List KernelArg → ℕ → List Argument → Type 0
HoldsFrom nodes i xs = (k : ℕ) → get_elem? nodes (i + k) ≡ get_elem? (linked i xs) k

pub HoldsFrom-head :
    (nodes : List KernelArg) (i : ℕ) (a : Argument) (xs : List Argument)
    → HoldsFrom nodes i (a ∷ xs)
    → get_elem? nodes i ≡ some (node a (next_of i xs))
HoldsFrom-head nodes i a xs h =
    subst (λ j. get_elem? nodes j ≡ some (node a (next_of i xs))) (add-zero i) (h 0)

pub HoldsFrom-tail :
    (nodes : List KernelArg) (i : ℕ) (a : Argument) (xs : List Argument)
    → HoldsFrom nodes i (a ∷ xs)
    → HoldsFrom nodes (i + 1) xs
HoldsFrom-tail nodes i a xs h k =
    subst (λ j. get_elem? nodes j ≡ get_elem? (linked (i + 1) xs) k) (omega arith) (h (suc k))

pub HoldsFrom-start : (xs : List Argument) → HoldsFrom (linked 0 xs) 0 xs
HoldsFrom-start xs k = ap (get_elem? (linked 0 xs)) (zero-add k)

-- Where a walk of the list of `xs` from node `i` begins.
abbrev pub start_of : ℕ → List Argument → Option ℕ
start_of i [] = none
start_of i (a ∷ xs) = some i

pub next_of-eq-start_of : (i : ℕ) (xs : List Argument) → next_of i xs ≡ start_of (i + 1) xs
next_of-eq-start_of i [] = refl
next_of-eq-start_of i (a ∷ xs) = refl
