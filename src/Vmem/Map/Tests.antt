-- ===== src/Vmem/Map/Tests.antt =====
-- The properties of the memory map at a row on a device.
use gpu_virtmem.Prelude.{◌≡◌, refl, [], ◌∷◌, some, arith}
use gpu_virtmem.Vmem.Sample.{one_device, one_device_laws, ready_row, ready_placed}
use gpu_virtmem.Vmem.Map.{Placed}
use gpu_virtmem.Vmem.Map.Inv.{IsWellFormed}
use gpu_virtmem.Vmem.Map.Transfer.{copy_both, copy_both_lem}

ready_row-IsWellFormed : IsWellFormed ready_row
ready_row-IsWellFormed = record { placed = refl; backed = λ _. refl; assigned = ground arith }

copy_both_lem_example :
    (t : Placed one_device) × (copy_both one_device one_device_laws ready_placed
        (1 ∷ 2 ∷ [])
        (9 ∷ 9 ∷ 9 ∷ [])
        2
      ≡ some (t, 1 ∷ 2 ∷ 9 ∷ []))
copy_both_lem_example =
    copy_both_lem one_device one_device_laws ready_placed (1 ∷ 2 ∷ []) (9 ∷ 9 ∷ 9 ∷ []) 2
      ready_row-IsWellFormed (λ p e. omega arith) refl (omega arith) (omega arith) (omega arith)
