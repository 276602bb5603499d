-- ===== src/Vmem/Kernels/Tests.antt =====
-- The properties of the kernel map at small argument lists and blocks.
use gpu_virtmem.Prelude.{
  false, refl, get_elem?, ◌≢◌, ℕ, ◌≤◌, ◌<◌, ◌≡◌, ◌⊎◌, true, [], ◌∷◌, none, some, pos, negsuc,
  length,
}
use gpu_virtmem.Vmem.Kernels.Calls.{set_up, set_up_lem}
use gpu_virtmem.Vmem.Kernels.{Dim3, KernelNode, Kmap, kmap_init_in, max_kernels}
use gpu_virtmem.Vmem.Kernels.Args.{Argument, arg_list}
use gpu_virtmem.Vmem.Kernels.Init.{room_needed, kmap_init_in_lem}

abbrev pub pointer_arg : Argument
pointer_arg = record { arg = 3; size = 8; offset = 0; mem_map_index = pos 0 }

abbrev pub number_arg : Argument
number_arg = record { arg = 17; size = 4; offset = 8; mem_map_index = negsuc 0 }

-- A node as `malloc` may have left it.
abbrev pub stale : ℕ → KernelNode
stale i = record {
  valid = true;
  launch_pending = true;
  grid_dim = record { x = i; y = 0; z = 0 };
  block_dim = record { x = 1; y = 1; z = 1 };
  shared_mem = 0;
  stream = 0;
  arg_list = record { nodes = []; head = none; tail = some 5 };
  func = 97 ∷ 0 ∷ [];
}

abbrev one_block : Dim3
one_block = record { x = 1; y = 1; z = 1 }

-- An object that `kmap_init` has set up.
abbrev free : KernelNode
free = record (stale 0) {
  valid = false;
  launch_pending = false;
  arg_list = record { nodes = []; head = none; tail = none };
}

kmap_init_in_lem_example :
    ((room_needed ≤ 100)
      × ((k : Kmap) × (kmap_init_in stale 100 ≡ some k)
          × (length k.kobjects ≡ max_kernels)
          × (k.index ≡ 0)))
    ⊎ ((100 < room_needed) × (kmap_init_in stale 100 ≡ none))
kmap_init_in_lem_example = kmap_init_in_lem stale 100

set_up_lem_example :
    (k : Kmap) × (set_up
        (record { kobjects = free ∷ free ∷ []; index = 1 })
        one_block
        one_block
        0
        0
        (pointer_arg ∷ number_arg ∷ [])
        (97 ∷ 98 ∷ 0 ∷ [])
      ≡ some (k, 1))
    × (k.index ≡ 2)
    × (get_elem? k.kobjects 1
        ≡ some (record {
          valid = true;
          launch_pending = true;
          grid_dim = one_block;
          block_dim = one_block;
          shared_mem = 0;
          stream = 0;
          arg_list = arg_list (pointer_arg ∷ number_arg ∷ []);
          func = 97 ∷ [];
        }))
    × ((i : ℕ) → 1 ≢ i → get_elem? k.kobjects i ≡ get_elem? (free ∷ free ∷ []) i)
set_up_lem_example =
    set_up_lem (record { kobjects = free ∷ free ∷ []; index = 1 }) free one_block one_block 0 0
      (pointer_arg ∷ number_arg ∷ []) (97 ∷ 98 ∷ 0 ∷ []) refl refl
