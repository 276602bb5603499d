-- ===== src/Remote/Sample.antt =====
-- Handlers for the tests of the remote calls.
use gpu_virtmem.Remote.Rpc.{Handler, Handlers}

-- The same handler for every method.
abbrev pub all_by : {A S : Type 0} → Handler A S → Handlers A S
all_by f = record {
  malloc = f;
  get_device_count = f;
  get_device_properties = f;
  get_device = f;
  set_device = f;
  free = f;
  setup_argument = f;
  configure_call = f;
  launch = f;
  memcpy = f;
  memcpy_to_symbol = f;
  memcpy_from_symbol = f;
  thread_synchronize = f;
  thread_exit = f;
  register_fat_binary2 = f;
  register_function = f;
  register_var = f;
  unregister_fat_binary = f;
  clear_flags = λ a. a;
}
