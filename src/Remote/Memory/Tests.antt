-- ===== src/Remote/Memory/Tests.antt =====
-- Two bytes that are copied to the device and back.
use gpu_virtmem.Prelude.{inr, ◌≡◌, refl, true, [], ◌∷◌, some, arith, pos, replicate}
use gpu_virtmem.Vmem.Row.{handle_of}
use gpu_virtmem.Vmem.Sample.{one_device, one_device_laws, free_row_at}
use gpu_virtmem.Vmem.Server.{Session, success}
use gpu_virtmem.Remote.Rpc.{Handler, Handlers}
use gpu_virtmem.Remote.Sample.{all_by}
use gpu_virtmem.Remote.Client.{Args, Memory, read_bytes, Reply, malloc_rpc, memcpy_rpc}
use gpu_virtmem.Remote.Client.Laws.{connected}
use gpu_virtmem.Remote.Memory.{Server, on_memory, malloc_packet, memcpy_packet}
use gpu_virtmem.Remote.Memory.Laws.{remote_copy_lem}

abbrev sample : Server
sample = record {
  host_malloc = λ n. some (replicate n 0);
  app_ptr = handle_of;
  req_buffer = 500;
  rsp_buffer = 600;
}

-- Two free rows.
abbrev fresh : Session one_device
fresh = record {
  table = free_row_at 0 ∷ free_row_at 1 ∷ [];
  device = [];
  kmap = record { kobjects = []; index = 0 };
  vmap_index = 1;
  local_arr = pos 0 ∷ [];
  err = success;
}

abbrev idle : Handler Args (Session one_device)
idle s p bs = some (s, p, [])

-- The server, with idle handlers for the other methods.
abbrev handlers : Handlers Args (Session one_device)
handlers = on_memory one_device sample (all_by idle)

-- The byte at an address is the address.
abbrev numbered : Memory
numbered p = p

remote_copy_lem_example :
    (r₁ r₂ r₃ : Reply (Session one_device)) × (malloc_rpc
        (connected handlers)
        fresh
        numbered
        (malloc_packet 50 2)
      ≡ some r₁)
    × (memcpy_rpc (connected handlers) r₁.state r₁.memory (memcpy_packet 1 40 2 1) ≡ some r₂)
    × (memcpy_rpc (connected handlers) r₂.state r₂.memory (memcpy_packet 70 1 2 2) ≡ some r₃)
    × (r₁.ok ≡ true)
    × (r₁.packet.args.arg0 ≡ 50)
    × (r₂.ok ≡ true)
    × (r₃.ok ≡ true)
    × (read_bytes r₃.memory 70 2 ≡ read_bytes numbered 40 2)
remote_copy_lem_example =
    remote_copy_lem one_device one_device_laws sample (all_by idle) fresh numbered (0 ∷ 0 ∷ []) 50 1
      2 40 70 refl refl refl (omega arith) (omega arith) (refl, tt) (omega arith)
      (inr (omega arith, omega arith)) (inr (omega arith, omega arith))
