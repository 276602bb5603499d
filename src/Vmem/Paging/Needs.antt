-- ===== src/Vmem/Paging/Needs.antt =====
-- What `gvirt_is_paging_required` finds for a launch.
use gpu_virtmem.Prelude.{
  get_elem?-some, ℕ, zero, suc, ◌+◌, ◌≤◌, ◌<◌, ◌≡◌, refl, sym, ap, subst, ◌∙◌, ◌&&◌, List, [], ◌∷◌,
  ◌++◌, Option, none, some, ℤ, pos, negsuc, length, length-append, get_elem?, if◌then◌else◌, done,
  fault, arith,
}
use mathlib.Core.List.{append-nil, append_assoc}
use gpu_virtmem.Vmem.Row.{MemMap, Table}
use gpu_virtmem.Vmem.Kernels.{KernelArg, KernelNode, Kmap}
use gpu_virtmem.Vmem.Kernels.Args.{
  Argument, arg_list, linked, start_of, next_of-eq-start_of, HoldsFrom, HoldsFrom-head,
  HoldsFrom-tail, HoldsFrom-start, length-linked,
}
use gpu_virtmem.Vmem.Paging.{needs_page_in, add_request, needs_loop, gvirt_is_paging_required}

abbrev pub wanted : Option MemMap → ℕ → List ℕ
wanted none k = []
wanted (some r) k = if r.valid && needs_page_in r.status then k ∷ [] else []

abbrev pub needed_by : Table → ℤ → List ℕ
needed_by table (negsuc k) = []
needed_by table (pos k) = wanted (get_elem? table k) k

-- The rows that the arguments name, are valid and have their data in the swap space alone, in the
-- order of the arguments.
abbrev pub needed : Table → List Argument → List ℕ
needed table [] = []
needed table (a ∷ xs) = needed_by table a.mem_map_index ++ needed table xs

-- The row that an argument names is in the table, if it names one.
abbrev pub IsMapped : Table → ℤ → Type 0
IsMapped table (negsuc k) = Unit
IsMapped table (pos k) = k < length table

abbrev pub AllMapped : Table → List Argument → Type 0
AllMapped table [] = Unit
AllMapped table (a ∷ xs) = IsMapped table a.mem_map_index × AllMapped table xs

add_request_lem :
    (table : Table) (i : ℤ) (acc : List ℕ)
    → IsMapped table i
    → length (acc ++ needed_by table i) ≤ 50
    → add_request table i acc ≡ some (acc ++ needed_by table i)
add_request_lem table (negsuc k) acc m h = ap some (sym (append-nil acc))
add_request_lem table (pos k) acc m h =
    let (r, e) = get_elem?-some table k m in
    ground (arith, e, append-nil acc, length-append acc (k ∷ []))

needs_loop_lem :
    (xs : List Argument) (fuel : ℕ) (table : Table) (nodes : List KernelArg) (i : ℕ) (acc : List ℕ)
    → HoldsFrom nodes i xs
    → length xs ≤ fuel
    → AllMapped table xs
    → length (acc ++ needed table xs) ≤ 50
    → needs_loop fuel table nodes (start_of i xs) acc ≡ done (acc ++ needed table xs)
unfolding needs_loop
needs_loop_lem [] zero table nodes i acc at f m h = ground (arith, append-nil acc)
needs_loop_lem [] (suc fuel) table nodes i acc at f m h = ground (arith, append-nil acc)
needs_loop_lem (a ∷ xs) zero table nodes i acc at f m h = absurd (omega arith)
needs_loop_lem (a ∷ xs) (suc fuel) table nodes i acc at f m h =
    let here : List ℕ = needed_by table a.mem_map_index in
    let assoc : (acc ++ here) ++ needed table xs ≡ acc ++ (here ++ needed table xs) =
      append_assoc acc here (needed table xs) in
    rw
      (
        HoldsFrom-head nodes i a xs at,
        add_request_lem table a.mem_map_index acc m.0
            (omega (arith, ap length assoc, length-append (acc ++ here) (needed table xs))),
        next_of-eq-start_of i xs,
      )
      (needs_loop_lem xs fuel table nodes (i + 1) (acc ++ here) (HoldsFrom-tail nodes i a xs at)
          (omega arith) m.1 (omega (arith, ap length assoc))
        ∙ ap done assoc)

-- The loop over the whole list of the arguments `xs`, from its head.
whole_list :
    (xs : List Argument) (table : Table)
    → AllMapped table xs
    → length (needed table xs) ≤ 50
    → needs_loop (length (arg_list xs).nodes) table (arg_list xs).nodes (arg_list xs).head []
      ≡ done (needed table xs)
unfolding needs_loop
whole_list [] table m h = refl
whole_list (a ∷ xs) table m h =
    needs_loop_lem (a ∷ xs) (length (linked 0 (a ∷ xs))) table (linked 0 (a ∷ xs)) 0 []
      (HoldsFrom-start (a ∷ xs)) (omega (arith, length-linked 0 (a ∷ xs))) m h

-- For the launch of a kernel whose arguments were set up as `xs`, each naming a row of the table if
-- any, and of which at most 50 need paging in: `gvirt_is_paging_required` finds exactly the rows that
-- need it, in the order of the arguments, and where there is none it writes through a NULL pointer.
pub gvirt_is_paging_required_lem :
    (k : Kmap) (kindex : ℕ) (table : Table) (xs : List Argument) {object : KernelNode}
    → get_elem? k.kobjects kindex ≡ some object
    → object.arg_list ≡ arg_list xs
    → AllMapped table xs
    → length (needed table xs) ≤ 50
    → gvirt_is_paging_required k kindex table
      ≡ elim (needed table xs) [ [] ↦ fault | i ∷ reqarr ↦ done (i ∷ reqarr) ]
unfolding gvirt_is_paging_required
gvirt_is_paging_required_lem k kindex table xs {object} e f m h =
    let args = object.arg_list in
    let whole : needs_loop (length args.nodes) table args.nodes args.head []
        ≡ done (needed table xs) =
      subst (λ l. needs_loop (length l.nodes) table l.nodes l.head [] ≡ done (needed table xs))
        (sym f) (whole_list xs table m h) in
    ground (arith, e, whole)
