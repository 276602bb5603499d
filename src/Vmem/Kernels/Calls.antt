-- ===== src/Vmem/Kernels/Calls.antt =====
-- virtmem/cuda_vmem.c: the calls that set up one launch, one after the other.
use gpu_virtmem.Prelude.{
  ℕ, ◌+◌, ◌<◌, ◌≡◌, ◌≢◌, refl, sym, ap, ◌∙◌, true, List, [], ◌∷◌, ◌++◌, Option, none, some, ◌>>=◌,
  length, get_elem?, set, take, get_elem?-lt, get_elem?-set_self, get_elem?-set_ne, append_assoc,
  append-nil, arith,
}
use gpu_virtmem.Vmem.Kernels.{
  Dim3, KernelNode, Kmap, kmap_add_config, kmap_add_arg, kmap_add_kernel, push_arg,
}
use gpu_virtmem.Vmem.Kernels.Args.{Argument, node, arg_list, push_arg_lem}

-- The calls of `cudaSetupArgument` for a launch.
abbrev pub add_args : Kmap → List Argument → Option Kmap
add_args k [] = some k
add_args k (a ∷ xs) =
    kmap_add_arg k a.arg a.size a.offset a.mem_map_index >>= (λ k'. add_args k' xs)

-- The calls for a launch: `cudaConfigureCall`, those for the arguments, and the kernel's entry.
abbrev pub set_up : Kmap → Dim3 → Dim3 → ℕ → ℕ → List Argument → List ℕ → Option (Kmap × ℕ)
set_up k grid block shared stream xs kfun =
    kmap_add_config k grid block shared stream
    >>= (λ k₁. add_args k₁ xs >>= (λ k₂. kmap_add_kernel k₂ kfun))

-- The kernel map with the current object replaced.
abbrev with_current : Kmap → KernelNode → Kmap
with_current k n = record k { kobjects = set k.kobjects k.index n }

kmap_add_arg_lem :
    (k : Kmap) (n : KernelNode) (ys : List Argument) (a : Argument)
    → get_elem? k.kobjects k.index ≡ some n
    → n.arg_list ≡ arg_list ys
    → kmap_add_arg k a.arg a.size a.offset a.mem_map_index
      ≡ some (with_current k (record n { arg_list = arg_list (ys ++ (a ∷ [])) }))
unfolding kmap_add_arg
kmap_add_arg_lem k n ys a e f =
    let g : push_arg (node a none) n.arg_list ≡ some (arg_list (ys ++ (a ∷ []))) =
      ap (push_arg (node a none)) f ∙ push_arg_lem ys a in
    ground (arith, e, g)

add_args_lem :
    (xs ys : List Argument) (k : Kmap) (n : KernelNode)
    → get_elem? k.kobjects k.index ≡ some n
    → n.arg_list ≡ arg_list ys
    → (k' : Kmap) × (add_args k xs ≡ some k')
      × (k'.index ≡ k.index)
      × (get_elem? k'.kobjects k.index ≡ some (record n { arg_list = arg_list (ys ++ xs) }))
      × ((i : ℕ) → k.index ≢ i → get_elem? k'.kobjects i ≡ get_elem? k.kobjects i)
add_args_lem [] ys k n e f = (
  k,
  refl,
  refl,
  e ∙ ap (λ l. some (record n { arg_list = l })) (f ∙ ap arg_list (sym (append-nil ys))),
  λ i h. refl,
)
add_args_lem (a ∷ xs) ys k n e f =
    let n₁ = record n { arg_list = arg_list (ys ++ (a ∷ [])) } in
    let k₁ = with_current k n₁ in
    let inside = get_elem?-lt k.kobjects k.index e in
    let (k', g, h, there, others) =
      add_args_lem xs (ys ++ (a ∷ [])) k₁ n₁ (get_elem?-set_self k.kobjects k.index n₁ inside)
        refl in
    (
      k',
      ground (arith, kmap_add_arg_lem k n ys a e f, g),
      h,
      there ∙ ap (λ l. some (record n { arg_list = arg_list l })) (append_assoc ys (a ∷ []) xs),
      λ i j. others i j ∙ get_elem?-set_ne k.kobjects n₁ j,
    )

-- The calls of one launch, with an object without arguments at the map's index: they succeed,
-- return that index and step it on, and the object holds the configuration, the arguments in the
-- order of the calls and the first byte of the kernel's name, ready to be launched; every other
-- object stays.
pub set_up_lem :
    (k : Kmap) (n : KernelNode) (grid block : Dim3) (shared stream : ℕ) (xs : List Argument)
    (kfun : List ℕ)
    → get_elem? k.kobjects k.index ≡ some n
    → n.arg_list ≡ arg_list []
    → (k' : Kmap) × (set_up k grid block shared stream xs kfun ≡ some (k', k.index))
      × (k'.index ≡ k.index + 1)
      × (get_elem? k'.kobjects k.index
          ≡ some (record {
            valid = true;
            launch_pending = true;
            grid_dim = grid;
            block_dim = block;
            shared_mem = shared;
            stream = stream;
            arg_list = arg_list xs;
            func = take 1 kfun;
          }))
      × ((i : ℕ) → k.index ≢ i → get_elem? k'.kobjects i ≡ get_elem? k.kobjects i)
unfolding kmap_add_config kmap_add_kernel
set_up_lem k n grid block shared stream xs kfun e f =
    let n₁ : KernelNode = record n {
      grid_dim = grid;
      block_dim = block;
      shared_mem = shared;
      stream = stream;
    } in
    let k₁ : Kmap = with_current k n₁ in
    let inside = get_elem?-lt k.kobjects k.index e in
    let (k₂, g, h, there, others) =
      add_args_lem xs [] k₁ n₁ (get_elem?-set_self k.kobjects k.index n₁ inside) f in
    let done : KernelNode = record n₁ {
      arg_list = arg_list xs;
      func = take 1 kfun;
      valid = true;
      launch_pending = true;
    } in
    let there' : get_elem? k₂.kobjects k₂.index ≡ some (record n₁ { arg_list = arg_list xs }) =
      ap (get_elem? k₂.kobjects) h ∙ there in
    let inside' : k.index < length k₂.kobjects = get_elem?-lt k₂.kobjects k.index there in
    (
      record { kobjects = set k₂.kobjects k.index done; index = k.index + 1 },
      ground (arith, e, g, h, there'),
      refl,
      get_elem?-set_self k₂.kobjects k.index done inside',
      λ i j. get_elem?-set_ne k₂.kobjects done j ∙ others i j ∙ get_elem?-set_ne k.kobjects n₁ j,
    )
