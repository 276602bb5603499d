-- ===== src/Global.antt =====
-- Global_Sched/global_sched.c, `handle_req`, and remote/remote_api_wrapper.c, what it calls: the global
-- scheduler, which gives each application its device. It is built without L2 feedback.
pub mod Reach
pub mod Entry
pub mod Cluster
mod Tests
use gpu_virtmem.Prelude.{
  ℕ, zero, suc, ◌+◌, List, [], ◌∷◌, ◌++◌, Option, none, some, ◌>>=◌, ◌==◌, if◌then◌else◌, ℤ, pos,
  ◌-ℤ◌, get_elem?, set,
}
use gpu_virtmem.Remote.Rpc.{Handler, Handlers}
use gpu_virtmem.Remote.Rpc.Session.{Msg, serve_all}
use gpu_virtmem.Remote.Client.{Args}
use gpu_virtmem.Remote.Devices.{get_next_device_rr}

-- `DEV_RR` and `thread_count_per_device`, which the threads share.
pub record Shared : Type 0 where
  pub dev_rr : ℕ
  pub counts : List ℤ

-- A thread: what is shared, and its `DEVICE_ASSIGNED`, with NULL as `none`.
abbrev pub Thread : Type 0
Thread = Shared × Option ℕ

-- `nvbackCudaGetDevice_srv`; `none` is a division by zero.
unfoldable pub get_device_srv : Handler Args Thread
get_device_srv t p bs = get_next_device_rr p.args.arg0 t.0.dev_rr >>= (λ r. some (
  (record t.0 { dev_rr = r.1 }, some r.0),
  record p { err = 0; args = record p.args { arg0 = r.0 } },
  [],
))

-- `dec_thread_count_per_device`; `none` is a read through NULL or outside the array.
unfoldable pub dec_thread_count_per_device : Thread → Option Thread
dec_thread_count_per_device (shared, none) = none
dec_thread_count_per_device (shared, some d) =
    get_elem? shared.counts d
    >>= (λ c. some (record shared { counts = set shared.counts d (c -ℤ pos 1) }, some d))

-- `handle_req` for at most `n` messages: the loop, up to the end of the connection, and the call after
-- it.
unfoldable pub handle_req :
    ℕ → Handlers Args Thread → Thread → List (Msg Args) → Option (Thread × List (Msg Args))
handle_req n h t ms =
    serve_all n (record h { get_device = get_device_srv }) t ms
    >>= (λ r. dec_thread_count_per_device r.0 >>= (λ u. some (u, r.1)))

-- Where a connection stands: no device yet, a device, or closed with the device it had.
pub data Conn : Type 0 where
  fresh : Conn
  assigned : ℕ → Conn
  closed : ℕ → Conn

-- All connections, and the devices that were given, the latest first.
pub record Global : Type 0 where
  pub shared : Shared
  pub conns : List Conn
  pub given : List ℕ

-- `DEVICE_ASSIGNED` of the thread of an open connection.
unfoldable pub device_of : Conn → Option (Option ℕ)
device_of fresh = some none
device_of (assigned d) = some (some d)
device_of (closed d) = none
