-- ===== src/Remote/Registry/Tests.antt =====
-- A server with one fat binary, to which one function is registered.
use gpu_virtmem.Prelude.{
  subst, ◌-◌, ℕ, zero, suc, ◌≡◌, refl, true, List, [], ◌∷◌, Option, some, length, get_elem?, arith,
  ◌<◌, ◌^◌, ◌==◌, if◌then◌else◌, replicate, length-replicate,
}
use gpu_virtmem.Interposer.Bytes.{null, at, le}
use gpu_virtmem.Interposer.Fields.{pack_triple}
use gpu_virtmem.Interposer.Fields.Laws.{StrFits, TripleFits, IntFits, PtrFits, str_bytes, ptr_bytes}
use gpu_virtmem.Interposer.Calls.{
  RegFuncCall, RegFuncArgs, Malloc, l_get_size_reg_func_args, pack_reg_func_args,
}
use gpu_virtmem.Interposer.Calls.RegFunc.{FuncFits, reg_func_bytes, reg_func_sent}
use gpu_virtmem.Interposer.Fatcubin.{FatcubinInfo}
use gpu_virtmem.Remote.Registry.{
  cleared_info, fn_from, register_function_srv, search_from, launched_function,
}
use gpu_virtmem.Remote.Registry.Sample.{fast, fast-IsFastRemoval, handle_5000, one_reached}
use gpu_virtmem.Remote.Registry.Invariant.{IsRegistry, some-injective}
use gpu_virtmem.Remote.Registry.Reach.{Reach-IsRegistry, Reach-launched_function}
use gpu_virtmem.Remote.Registry.Launch.{HasRoom, registered_function_launched}

Reach-IsRegistry_example : IsRegistry (some (cleared_info 5000 ∷ []))
Reach-IsRegistry_example =
    Reach-IsRegistry (λ n. true) handle_5000 fast (some (cleared_info 5000 ∷ [])) fast-IsFastRemoval
      one_reached

Reach-launched_function_example :
    (r : Option RegFuncArgs) × (launched_function (some (cleared_info 5000 ∷ [])) 6000 ≡ some r)
    × ((f : RegFuncArgs) → r ≡ some f → f.host_fe_addr ≡ 6000)
Reach-launched_function_example =
    Reach-launched_function (λ n. true) handle_5000 fast (cleared_info 5000 ∷ []) 6000
      fast-IsFastRemoval one_reached

-- `malloc` at address 4096, of zeroed memory.
abbrev zeroed : Malloc
zeroed n = some (4096, replicate n 0)

abbrev kernel_call : RegFuncCall
kernel_call = record {
  fat_cubin_handle = 5000;
  host_fun = at 6000 (97 ∷ 98 ∷ []);
  device_fun = at 6100 (99 ∷ []);
  device_name = null;
  thread_limit = 2 ^ 32 - 1;
  tid = null;
  bid = null;
  b_dim = null;
  g_dim = at 7100 (record { x = 300; y = 1; z = 1 });
  w_size = null;
}

kernel_call-FuncFits : FuncFits kernel_call
unfolding StrFits PtrFits TripleFits IntFits
kernel_call-FuncFits = record {
  handle = omega arith;
  host_fun = omega arith;
  addr = omega arith;
  device_fun = omega arith;
  device_name = omega arith;
  thread_limit = omega arith;
  tid = tt;
  bid = tt;
  b_dim = tt;
  g_dim = (omega arith, omega arith, (omega arith, omega arith, omega arith));
  w_size = tt;
}

kernel_call-short : length (reg_func_bytes kernel_call) < 2 ^ 31
unfolding reg_func_bytes str_bytes ptr_bytes pack_triple le
kernel_call-short = omega arith

only_fresh :
    (j : ℕ) (e : FatcubinInfo)
    → get_elem? (cleared_info 5000 ∷ []) j ≡ some e
    → e.fat_cubin_handle ≡ 5000
    → (e.num_reg_fns < 10) × (length e.reg_fns ≡ 10)
unfolding cleared_info
only_fresh zero e q h =
    subst (λ (e : FatcubinInfo). (e.num_reg_fns < 10) × (length e.reg_fns ≡ 10))
      {x = cleared_info 5000} (some-injective (cleared_info 5000) e q) (omega arith, refl)
only_fresh (suc j) e q h = absurd (ground (arith, q))

cleared_info-HasRoom : HasRoom 5000 6000 (cleared_info 5000 ∷ [])
unfolding cleared_info launched_function search_from fn_from
cleared_info-HasRoom = record {
  short = omega arith;
  index = 0;
  element = cleared_info 5000;
  there = refl;
  has = refl;
  free = only_fresh;
  unknown = refl;
}

registered_function_launched_example :
    (bs : List ℕ) × (new : List FatcubinInfo) × (pack_reg_func_args zeroed kernel_call
      ≡ some (record { size = l_get_size_reg_func_args kernel_call; bytes = some bs }))
    × (register_function_srv (λ n. true) (some (cleared_info 5000 ∷ [])) bs ≡ some new)
    × ((arg : ℕ)
        → launched_function (some new) arg ≡ (
            if 6000 == arg
            then some (some (reg_func_sent kernel_call))
            else launched_function (some (cleared_info 5000 ∷ [])) arg))
registered_function_launched_example =
    registered_function_launched (λ n. true) zeroed kernel_call 4096
      (replicate (l_get_size_reg_func_args kernel_call) 0) (cleared_info 5000 ∷ []) (λ n. refl) refl
      (ground arith) (length-replicate {A = ℕ} (l_get_size_reg_func_args kernel_call) 0)
      kernel_call-FuncFits kernel_call-short cleared_info-HasRoom
