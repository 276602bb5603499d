-- ===== src/Global/Entry.antt =====
-- Global_Sched/global_sched.c with interposer/libci.c: an application asks for its device.
use gpu_virtmem.Prelude.{
  inl, bind_of, ℕ, ◌+◌, ◌%◌, ◌≡◌, ◌≢◌, refl, ◌∙◌, true, List, [], ◌++◌, Option, none, some, ℤ, pos,
  ◌-ℤ◌, get_elem?, set, arith,
}
use gpu_virtmem.Remote.Rpc.{
  cuda_get_device, expects_response, handler_of, Rpkt, Handlers, pkt_execute,
}
use gpu_virtmem.Remote.Rpc.Session.{Msg, Call, send_call, put_buffer, serve, serve_all, respond}
use gpu_virtmem.Remote.Rpc.Laws.{serve_lem}
use gpu_virtmem.Remote.Client.{Args, Memory, read_bytes, write_bytes}
use gpu_virtmem.Remote.Client.Laws.{connected}
use gpu_virtmem.Remote.Devices.{get_next_device_rr}
use gpu_virtmem.Remote.Entry.{init_packet}
use gpu_virtmem.Remote.Entry.Calls.{with_args, rcuda_get_device}
use gpu_virtmem.Remote.Entry.Expected.{call_device, error_of, stored_of}
use gpu_virtmem.Remote.Entry.Laws.{entry_lem}
use gpu_virtmem.Global.{Shared, Thread, get_device_srv, dec_thread_count_per_device, handle_req}

abbrev pub with_devices : Handlers Args Thread → Handlers Args Thread
with_devices h = record h { get_device = get_device_srv }

abbrev pub ask : ℕ → ℕ → ℕ → Rpkt Args
ask devices first_local node = with_args (init_packet cuda_get_device) devices first_local node 0

-- What is shared after a device was given.
abbrev pub moved_on : Shared → ℕ → Shared
moved_on shared devices = record shared { dev_rr = (shared.dev_rr + 1) % devices }

module _ (h : Handlers Args Thread) (shared : Shared) (devices first_local node : ℕ)
    (some_device : devices ≢ 0) where
  answered : Rpkt Args
  answered = record (ask devices first_local node) {
    err = 0;
    args = record (ask devices first_local node).args { arg0 = shared.dev_rr };
  }

  get_device_executed :
      (old : Option ℕ)
      → pkt_execute (with_devices h) (shared, old) (ask devices first_local node) []
        ≡ some ((moved_on shared devices, some shared.dev_rr), answered, [])
  unfolding pkt_execute handler_of init_packet get_device_srv get_next_device_rr answered
  get_device_executed old = ground (arith, some_device)

  -- A device is given, whatever the thread had before.
  pub device_given :
      (old : Option ℕ) (mem : Memory)
      → rcuda_get_device
          (connected (with_devices h))
          true
          devices
          first_local
          node
          (shared, old)
          mem
        ≡ some (record {
          state = (moved_on shared devices, some shared.dev_rr);
          memory = mem;
          cuda_err = 0;
          stored = some shared.dev_rr;
        })
  unfolding answered init_packet error_of stored_of expects_response write_bytes read_bytes
  device_given old mem =
      entry_lem (with_devices h) (shared, old) (moved_on shared devices, some shared.dev_rr) mem
        (ask devices first_local node) answered []
        (rcuda_get_device (connected (with_devices h)) true devices first_local node) 0 0 0 0
        (call_device devices first_local node) (get_device_executed old) refl (omega arith)
        (inl refl) (inl refl)

  -- An application that asks for its device, where there is one, gets the next in turn and no error.
  -- When it then closes its connection, the thread of the connection ends with the turn passed on, and
  -- with one thread less on the device, which was never counted there.
  pub given_and_closed :
      (mem : Memory) (c : ℤ)
      → get_elem? shared.counts shared.dev_rr ≡ some c
      → (rcuda_get_device
            (connected (with_devices h))
            true
            devices
            first_local
            node
            (shared, none)
            mem
          ≡ some (record {
            state = (moved_on shared devices, some shared.dev_rr);
            memory = mem;
            cuda_err = 0;
            stored = some shared.dev_rr;
          }))
        × (out : List (Msg Args)) × (handle_req 1 h
              (shared, none)
              (send_call
                (record { packet = ask devices first_local node; reqbuf = []; rspbuf_size = 0 }))
            ≡ some (
              (
                record (moved_on shared devices) {
                  counts = set shared.counts shared.dev_rr (c -ℤ pos 1);
                },
                some shared.dev_rr,
              ),
              out,
            ))
  unfolding handle_req put_buffer respond dec_thread_count_per_device serve_all send_call answered
      init_packet error_of stored_of expects_response write_bytes read_bytes
  given_and_closed mem c counted =
      let call : Call Args = record {
        packet = ask devices first_local node;
        reqbuf = [];
        rspbuf_size = 0;
      } in
      let out : List (Msg Args) = respond (expects_response cuda_get_device) answered [] in
      let served : serve (with_devices h) (shared, none) (send_call call)
          ≡ some (record {
            state = (moved_on shared devices, some shared.dev_rr);
            out = out;
            rest = [];
          }) =
        serve_lem (with_devices h) (shared, none) (moved_on shared devices, some shared.dev_rr) call
          answered [] [] (get_device_executed none) refl in
      (device_given none mem, out ++ [], bind_of _ (bind_of _ served) ∙ ground (arith, counted))
