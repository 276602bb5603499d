-- ===== src/Vmem/Server/Tests.antt =====
-- The properties of the handlers at a process with a table of two rows.
use gpu_virtmem.Prelude.{none, false, ◌≡◌, refl, true, false, [], ◌∷◌, some, pos, negsuc, arith}
use gpu_virtmem.Vmem.Row.{noalloc, handle_of}
use gpu_virtmem.Vmem.Kernels.{Kmap}
use gpu_virtmem.Vmem.Sample.{one_device, one_device_laws, free_row_at, ready_row}
use gpu_virtmem.Vmem.Server.{Session, success, failure, free_srv}
use gpu_virtmem.Vmem.Server.Laws.{device_without, free_srv_lem, round_trip, round_trip_lem}

abbrev no_kernels : Kmap
no_kernels = record { kobjects = []; index = 0 }

-- Two free rows.
abbrev fresh : Session one_device
fresh = record {
  table = free_row_at 0 ∷ free_row_at 1 ∷ [];
  device = [];
  kmap = no_kernels;
  vmap_index = 1;
  local_arr = pos 0 ∷ [];
  err = success;
}

-- Two allocations, the second of them at row 0.
abbrev in_use : Session one_device
in_use = record {
  table = ready_row ∷ free_row_at 1 ∷ [];
  device = 4 ∷ 5 ∷ 6 ∷ [];
  kmap = no_kernels;
  vmap_index = 1;
  local_arr = pos 1 ∷ pos 0 ∷ [];
  err = success;
}

round_trip_lem_example :
    (s : Session one_device) × (round_trip one_device one_device_laws fresh
        (0 ∷ 0 ∷ 0 ∷ [])
        (7 ∷ 8 ∷ [])
        (9 ∷ 9 ∷ 9 ∷ [])
        3
        2
      ≡ some (s, 7 ∷ 8 ∷ 9 ∷ []))
round_trip_lem_example =
    round_trip_lem one_device one_device_laws fresh (0 ∷ 0 ∷ 0 ∷ []) (7 ∷ 8 ∷ []) (9 ∷ 9 ∷ 9 ∷ []) 3
      2 (omega arith) (omega arith) (refl, tt) refl (omega arith) (omega arith) (omega arith)
      (omega arith)

free_srv_lem_example :
    free_srv one_device (failure 30) (handle_of 0) in_use
    ≡ some (
      record in_use {
        table =
            record ready_row {
              actual_devptr = none;
              swap = none;
              size = 0;
              status = noalloc;
              valid = false;
            }
            ∷ free_row_at 1
            ∷ [];
        device = device_without one_device ready_row.actual_devptr (4 ∷ 5 ∷ 6 ∷ []);
        local_arr = pos 1 ∷ negsuc 0 ∷ [];
        err = success;
      },
      true,
    )
free_srv_lem_example =
    free_srv_lem one_device (failure 30) (handle_of 0) in_use 0 0 ready_row (refl, refl) refl refl
