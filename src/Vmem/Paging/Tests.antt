-- ===== src/Vmem/Paging/Tests.antt =====
-- The properties of paging and of the launch at a kernel with two arguments.
use gpu_virtmem.Prelude.{
  ◌≡◌, refl, true, List, [], ◌∷◌, none, pos, negsuc, some, if◌then◌else◌, ◌==◌, Each, arith, done,
  no_fuel,
}
use gpu_virtmem.Vmem.Row.{Table}
use gpu_virtmem.Vmem.Sample.{one_device, one_device_laws, ready_row, ready_placed, waiting_row}
use gpu_virtmem.Vmem.Map.Inv.{IsWellFormed}
use gpu_virtmem.Vmem.Kernels.{KernelNode, Kmap}
use gpu_virtmem.Vmem.Kernels.Args.{Argument, arg_list}
use gpu_virtmem.Vmem.Paging.{
  World, gvirt_is_paging_required, gvirt_page_in, stop_timer, notify_scheduler, make_fifo,
  pager_fifo, client_fifo, write_request, await_pager, gvirt_cuda_launch_index,
}
use gpu_virtmem.Vmem.Paging.Needs.{gvirt_is_paging_required_lem}
use gpu_virtmem.Vmem.Paging.In.{AllWellFormed, gvirt_page_in_fault}
use gpu_virtmem.Vmem.Paging.Out.{SameBytes, page_out-SameBytes}
use gpu_virtmem.Vmem.Paging.Launch.{launch_with_args}

abbrev number_arg : Argument
number_arg = record { arg = 17; size = 4; offset = 0; mem_map_index = negsuc 0 }

abbrev pointer_arg : Argument
pointer_arg = record { arg = 3; size = 8; offset = 8; mem_map_index = pos 1 }

abbrev kernel : List Argument → KernelNode
kernel xs = record {
  valid = true;
  launch_pending = true;
  grid_dim = record { x = 2; y = 1; z = 1 };
  block_dim = record { x = 64; y = 1; z = 1 };
  shared_mem = 0;
  stream = 0;
  arg_list = arg_list xs;
  func = 97 ∷ [];
}

abbrev kernels : List Argument → Kmap
kernels xs = record { kobjects = kernel xs ∷ []; index = 1 }

-- Row 0 is on the device, row 1 is not.
abbrev rows : Table
rows = ready_row ∷ waiting_row ∷ []

gvirt_is_paging_required_lem_example :
    gvirt_is_paging_required (kernels (number_arg ∷ pointer_arg ∷ [])) 0 rows ≡ done (1 ∷ [])
gvirt_is_paging_required_lem_example =
    gvirt_is_paging_required_lem (kernels (number_arg ∷ pointer_arg ∷ [])) 0 rows
      (number_arg ∷ pointer_arg ∷ []) {object = kernel (number_arg ∷ pointer_arg ∷ [])} refl refl
      (tt, (omega arith, tt)) (omega arith)

row_1_required :
    gvirt_is_paging_required (kernels (number_arg ∷ pointer_arg ∷ [])) 0 rows ≡ done (1 ∷ [])
row_1_required =
    gvirt_is_paging_required_lem (kernels (number_arg ∷ pointer_arg ∷ [])) 0 rows
      (number_arg ∷ pointer_arg ∷ []) {object = kernel (number_arg ∷ pointer_arg ∷ [])} refl refl
      (tt, (omega arith, tt)) (omega arith)

ready_row-placed : IsWellFormed ready_row
ready_row-placed = record { placed = refl; backed = λ _. refl; assigned = ground arith }

abbrev world : World one_device
world = record { table = rows; device = []; words = λ a. if a == 4096 then some 0 else none }

waiting_row-IsWellFormed : IsWellFormed waiting_row
waiting_row-IsWellFormed = record { placed = refl; backed = λ _. refl; assigned = ground arith }

rows-AllWellFormed : AllWellFormed rows
unfolding Each
rows-AllWellFormed = (ready_row-placed, (waiting_row-IsWellFormed, tt))

gvirt_page_in_fault_example : gvirt_page_in one_device true 0 42 (1 ∷ []) (world) ≡ (
  stop_timer
      ∷ notify_scheduler 0
      ∷ make_fifo pager_fifo
      ∷ make_fifo (client_fifo 42)
      ∷ write_request (1 ∷ []) 42
      ∷ await_pager 42
      ∷ [],
  none,
)
gvirt_page_in_fault_example =
    gvirt_page_in_fault one_device (kernels (number_arg ∷ pointer_arg ∷ [])) 0 0 42 world
      {reqarr = 1 ∷ []} rows-AllWellFormed row_1_required

page_out-SameBytes_example : SameBytes one_device one_device_laws ready_placed (0 ∷ 0 ∷ []) 2
page_out-SameBytes_example =
    page_out-SameBytes one_device one_device_laws ready_placed (0 ∷ 0 ∷ []) 2 ready_row-placed
      (λ p e. omega arith) refl (omega arith) (omega arith)

launch_with_args_example : gvirt_cuda_launch_index 100 (kernels (number_arg ∷ [])) 0 rows ≡ no_fuel
launch_with_args_example =
    launch_with_args 100 (kernels (number_arg ∷ [])) 0 rows number_arg []
      {object = kernel (number_arg ∷ [])} refl refl tt
