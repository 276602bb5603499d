-- ===== src/Vmem/Paging/Launch.antt =====
-- `gvirt_cuda_launch_index`: a kernel without arguments is launched, one with arguments never is.
use gpu_virtmem.Prelude.{
  get_elem?-some, subst, sym, ◌%◌, ◌^◌, ℕ, zero, suc, ◌+◌, ◌≡◌, refl, List, [], ◌∷◌, ◌++◌, some, ℤ,
  pos, negsuc, get_elem?, set, length-set, arith, done, no_fuel,
}
use gpu_virtmem.Vmem.Row.{MemMap, Table}
use gpu_virtmem.Vmem.Kernels.{KernelArg, KernelNode, Kmap}
use gpu_virtmem.Vmem.Kernels.Args.{Argument, arg_list, node, next_of}
use gpu_virtmem.Vmem.Paging.{
  ArgValue, host_value, device_ptr, setup_argument, LaunchCall, configure, launch, launch_arg,
  launch_loop, gvirt_cuda_launch_index,
}
use gpu_virtmem.Vmem.Paging.Needs.{IsMapped}

-- A round of the loop succeeds and leaves the rows of the table where they are.
launch_arg-some :
    (table : Table) (i : ℤ) (arg : ℕ)
    → IsMapped table i
    → (t : Table) × (v : ArgValue) × (launch_arg table i arg ≡ some (t, v)) × IsMapped t i
unfolding launch_arg
launch_arg-some table (negsuc k) arg m = (table, host_value arg, refl, tt)
launch_arg-some table (pos k) arg m =
    let (r, e) = get_elem?-some table k m in
    let r' : MemMap = record r { freq = (r.freq + 1) % 2 ^ 32 } in
    (
      set table k r',
      device_ptr r.actual_devptr,
      ground arith,
      omega (arith, length-set {0} table k r'),
    )

-- The loop runs through any fuel.
launch_loop-no_fuel :
    (fuel : ℕ) (nodes : List KernelArg) (i : ℕ) (iter : KernelArg) (table : Table)
    (calls : List LaunchCall)
    → get_elem? nodes i ≡ some iter
    → IsMapped table iter.mem_map_index
    → launch_loop fuel nodes (some i) table calls ≡ no_fuel
unfolding launch_loop
launch_loop-no_fuel zero nodes i iter table calls e m = refl
launch_loop-no_fuel (suc fuel) nodes i iter table calls e m =
    let (t, v, f, m') = launch_arg-some table iter.mem_map_index iter.arg m in
    ground (
      arith,
      e,
      f,
      launch_loop-no_fuel fuel nodes i iter t
          (calls ++ (setup_argument v iter.size iter.offset ∷ [])) e m',
    )

-- A kernel that was set up with at least one argument is never launched, whatever the fuel: the loop
-- over its arguments does not move on from the first.
pub launch_with_args :
    (fuel : ℕ) (k : Kmap) (index : ℕ) (table : Table) (a : Argument) (xs : List Argument)
    {object : KernelNode}
    → get_elem? k.kobjects index ≡ some object
    → object.arg_list ≡ arg_list (a ∷ xs)
    → IsMapped table a.mem_map_index
    → gvirt_cuda_launch_index fuel k index table ≡ no_fuel
unfolding gvirt_cuda_launch_index
launch_with_args fuel k index table a xs {object} e f m =
    let start : List LaunchCall =
      configure object.grid_dim object.block_dim object.shared_mem object.stream ∷ [] in
    let stuck : launch_loop fuel object.arg_list.nodes object.arg_list.head table start ≡ no_fuel =
      subst (λ l. launch_loop fuel l.nodes l.head table start ≡ no_fuel) (sym f)
        (launch_loop-no_fuel fuel (arg_list (a ∷ xs)).nodes 0 (node a (next_of 0 xs)) table start
          refl m) in
    ground (arith, e, stuck)

-- A kernel without arguments is configured and launched, with the table unchanged and no fuel used.
pub launch_without_args :
    (fuel : ℕ) (k : Kmap) (index : ℕ) (table : Table) {object : KernelNode}
    → get_elem? k.kobjects index ≡ some object
    → object.arg_list ≡ arg_list []
    → gvirt_cuda_launch_index fuel k index table
      ≡ done (
        table,
        configure object.grid_dim object.block_dim object.shared_mem object.stream
            ∷ launch object.func
            ∷ [],
      )
unfolding gvirt_cuda_launch_index
launch_without_args zero k index table e f = ground arith
launch_without_args (suc fuel) k index table e f = ground arith
