-- ===== src/Remote/Nodes/Calls.antt =====
-- interposer/libci.c, the functions `cuda...` with the servers of the nodes at the other end.
use gpu_virtmem.Prelude.{ℕ, true, Option}
use gpu_virtmem.Remote.Rpc.{Handlers}
use gpu_virtmem.Remote.Client.{Args, Exchange}
use gpu_virtmem.Remote.Client.Laws.{connected}
use gpu_virtmem.Remote.Entry.{Entry}
use gpu_virtmem.Remote.Entry.Calls.{
  rcuda_thread_exit, rcuda_thread_synchronize, rcuda_setup_argument, rcuda_launch, rcuda_malloc,
  rcuda_free, rcuda_memcpy,
}
use gpu_virtmem.Remote.Nodes.{DeviceTables}
use gpu_virtmem.Remote.Nodes.Routes.{
  AppThread, AppResult, cuda_thread_exit_routed, cuda_thread_synchronize_routed,
  cuda_setup_argument_routed, cuda_launch_routed, cuda_malloc_routed, cuda_free_routed,
  cuda_memcpy_routed,
}

module _ {T N : Type 0} (sched : Exchange T) (h : Handlers Args N) (tables : DeviceTables)
    (backend_devices first_local share : ℕ) where
  -- A function of the application, and the remote call that it makes.
  pub data IsRouted : (AppThread T N → Option (AppResult T N)) → Entry N → Type 0 where
    routed_thread_exit :
        IsRouted
          (cuda_thread_exit_routed sched
            (connected h)
            true
            tables
            backend_devices
            first_local
            share)
          (rcuda_thread_exit (connected h) true)
    routed_synchronize :
        IsRouted
          (cuda_thread_synchronize_routed sched
            (connected h)
            true
            tables
            backend_devices
            first_local
            share)
          (rcuda_thread_synchronize (connected h) true)
    routed_argument :
        (arg size offset : ℕ)
        → IsRouted
            (cuda_setup_argument_routed sched
              (connected h)
              true
              tables
              backend_devices
              first_local
              share
              arg
              size
              offset)
            (rcuda_setup_argument (connected h) true arg size offset)
    routed_launch :
        (entry : ℕ)
        → IsRouted
            (cuda_launch_routed sched
              (connected h)
              true
              tables
              backend_devices
              first_local
              share
              entry)
            (rcuda_launch (connected h) true entry)
    routed_malloc :
        (ptr size : ℕ)
        → IsRouted
            (cuda_malloc_routed sched
              (connected h)
              true
              tables
              backend_devices
              first_local
              share
              ptr
              size)
            (rcuda_malloc (connected h) true ptr size)
    routed_free :
        (ptr : ℕ)
        → IsRouted
            (cuda_free_routed sched (connected h) true tables backend_devices first_local share ptr)
            (rcuda_free (connected h) true ptr)
    routed_memcpy :
        (dst src count kind : ℕ)
        → IsRouted
            (cuda_memcpy_routed sched
              (connected h)
              true
              tables
              backend_devices
              first_local
              share
              dst
              src
              count
              kind)
            (rcuda_memcpy (connected h) true dst src count kind)
