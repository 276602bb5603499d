-- ===== src/Remote/Memory.antt =====
-- remote/remote_api_wrapper.c: the whole of `nvbackCudaMalloc_srv` and `nvbackCudaMemcpy_srv`, with
-- what they do to the packet and to the buffers of the connection.
pub mod Laws
mod Tests
use gpu_virtmem.Prelude.{
  ℕ, true, false, List, [], ◌∷◌, Option, none, some, ◌>>=◌, ◌==◌, if◌then◌else◌, length, int_size,
}
use gpu_virtmem.Vmem.Row.{AppPtr, Cuda}
use gpu_virtmem.Vmem.Map.{h2d, d2h, neither}
use gpu_virtmem.Vmem.Server.{Session, malloc_srv, memcpy_srv}
use gpu_virtmem.Remote.Rpc.{
  Rpkt, Method, Handler, Handlers, unknown, cuda_malloc, cuda_memcpy_h2h, cuda_memcpy_h2d,
  cuda_memcpy_d2h,
}
use gpu_virtmem.Remote.Client.{Args}

abbrev cuda_error_unknown : ℕ
cuda_error_unknown = 30

-- The packets of `rcudaMalloc` and of `rcudaMemcpy`, the latter with the method `ERROR` at first.
unfoldable pub malloc_packet : ℕ → ℕ → Rpkt Args
malloc_packet ptr size = record {
  method_id = cuda_malloc;
  has_error = false;
  err = cuda_error_unknown;
  args = record {
    arg0 = ptr;
    arg1 = size;
    arg2 = 0;
    arg2_offset = 0;
    arg3 = 0;
    copy_type = false;
    addr_shared = false;
  };
}

unfoldable pub memcpy_packet : ℕ → ℕ → ℕ → ℕ → Rpkt Args
memcpy_packet dst src count kind = record {
  method_id = unknown 65535;
  has_error = false;
  err = cuda_error_unknown;
  args = record {
    arg0 = dst;
    arg1 = src;
    arg2 = count;
    arg2_offset = 0;
    arg3 = kind;
    copy_type = true;
    addr_shared = false;
  };
}

-- The server's memory: what `malloc` returns in `mem_map_creat` and for the buffer of a response, the
-- handle or other thing that a number points to, and the addresses of the two buffers.
pub record Server : Type 0 where
  pub host_malloc : ℕ → Option (List ℕ)
  pub app_ptr : ℕ → AppPtr
  pub req_buffer : ℕ
  pub rsp_buffer : ℕ

module _ (c : Cuda) (server : Server) where
  -- `nvbackCudaMalloc_srv`, with the semaphore there. `mem_map_creat` assigns the address of the row's
  -- handle to its own parameter, so `args[0]` stays as it was sent.
  unfoldable pub malloc_handler : Handler Args (Session c)
  malloc_handler s p bs =
      malloc_srv c true (server.host_malloc p.args.arg1) p.args.arg1 s
      >>= (λ r. some (r.0, record p { err = 0 }, []))

  -- The cases of `nvbackCudaMemcpy_srv`. `none` stands for the failing assertion of the first, for a
  -- response from NULL in the second, and for the index that a copy within the device does not set.
  unfoldable pub memcpy_by : Method → Handler Args (Session c)
  memcpy_by cuda_memcpy_h2h s p bs = some (s, p, [])
  memcpy_by cuda_memcpy_h2d s p bs =
      if length bs == p.args.arg2
      then memcpy_srv c (server.app_ptr p.args.arg0) [] bs p.args.arg2 h2d s >>= (λ r.
        some (r.0, record p { err = 0; args = record p.args { arg1 = server.req_buffer } }, []))
      else none
  memcpy_by cuda_memcpy_d2h s p bs = server.host_malloc (int_size p.args.arg2) >>= (λ b.
      memcpy_srv c (server.app_ptr p.args.arg1) b [] p.args.arg2 d2h s >>= (λ r.
        some (r.0, record p { err = 0; args = record p.args { arg0 = server.rsp_buffer } }, r.1)))
  memcpy_by m s p bs = none

  unfoldable pub memcpy_handler : Handler Args (Session c)
  memcpy_handler s p bs = memcpy_by p.method_id s p bs

  -- Handlers with these two among them.
  abbrev pub on_memory : Handlers Args (Session c) → Handlers Args (Session c)
  on_memory h = record h { malloc = malloc_handler; memcpy = memcpy_handler }
