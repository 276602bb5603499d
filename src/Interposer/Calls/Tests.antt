-- ===== src/Interposer/Calls/Tests.antt =====
-- The round trips of two small calls.
use gpu_virtmem.Prelude.{
  ℕ, ◌≡◌, refl, true, List, [], ◌∷◌, some, length, replicate, length-replicate, arith, ◌<◌, ◌^◌,
  ◌-◌,
}
use gpu_virtmem.Interposer.Bytes.{null, at, le}
use gpu_virtmem.Interposer.Fields.{pack_triple}
use gpu_virtmem.Interposer.Fields.Laws.{StrFits, TripleFits, IntFits, PtrFits, str_bytes, ptr_bytes}
use gpu_virtmem.Interposer.Calls.{
  RegFuncCall, RegVarCall, Malloc, l_get_size_reg_func_args, l_get_size_reg_var, pack_reg_func_args,
  pack_reg_var, unpack_reg_func_args, unpack_reg_var,
}
use gpu_virtmem.Interposer.Calls.RegFunc.{
  FuncFits, reg_func_bytes, reg_func_sent, reg_func_round_trip,
}
use gpu_virtmem.Interposer.Calls.RegVar.{VarFits, reg_var_bytes, reg_var_sent, reg_var_round_trip}

-- `malloc` at address 4096, of zeroed memory.
abbrev zeroed : Malloc
zeroed n = some (4096, replicate n 0)

abbrev func_call : RegFuncCall
func_call = record {
  fat_cubin_handle = 5000;
  host_fun = at 6000 (97 ∷ 98 ∷ []);
  device_fun = at 6100 (99 ∷ []);
  device_name = null;
  thread_limit = 2 ^ 32 - 1;
  tid = null;
  bid = at 7000 (record { x = 1; y = 2; z = 3 });
  b_dim = null;
  g_dim = at 7100 (record { x = 300; y = 1; z = 1 });
  w_size = at 7200 32;
}

abbrev var_call : RegVarCall
var_call = record {
  fat_cubin_handle = 5000;
  host_var = 6000;
  device_address = at 6100 (99 ∷ []);
  device_name = at 6200 [];
  ext = 0;
  vsize = 400;
  constant = 1;
  global = 0;
}

func_call-FuncFits : FuncFits func_call
unfolding StrFits PtrFits TripleFits IntFits
func_call-FuncFits = record {
  handle = omega arith;
  host_fun = omega arith;
  addr = omega arith;
  device_fun = omega arith;
  device_name = omega arith;
  thread_limit = omega arith;
  tid = tt;
  bid = (omega arith, omega arith, (omega arith, omega arith, omega arith));
  b_dim = tt;
  g_dim = (omega arith, omega arith, (omega arith, omega arith, omega arith));
  w_size = (omega arith, omega arith, omega arith);
}

func_call-short : length (reg_func_bytes func_call) < 2 ^ 31
unfolding reg_func_bytes str_bytes ptr_bytes pack_triple le
func_call-short = omega arith

var_call-VarFits : VarFits var_call
unfolding StrFits
var_call-VarFits = record {
  handle = omega arith;
  host_var = omega arith;
  device_address = omega arith;
  device_name = omega arith;
  ext = omega arith;
  vsize = omega arith;
  constant = omega arith;
  global = omega arith;
}

var_call-short : length (reg_var_bytes var_call) < 2 ^ 31
unfolding reg_var_bytes str_bytes le
var_call-short = omega arith

reg_func_round_trip_example :
    (bs : List ℕ) × (pack_reg_func_args zeroed func_call
      ≡ some (record { size = l_get_size_reg_func_args func_call; bytes = some bs }))
    × (unpack_reg_func_args (λ n. true) bs ≡ some (some (reg_func_sent func_call)))
reg_func_round_trip_example =
    reg_func_round_trip (λ n. true) zeroed func_call 4096
      (replicate (l_get_size_reg_func_args func_call) 0) (λ n. refl) refl (ground arith)
      (length-replicate {A = ℕ} (l_get_size_reg_func_args func_call) 0) func_call-FuncFits
      func_call-short

reg_var_round_trip_example :
    (bs : List ℕ) × (pack_reg_var zeroed var_call
      ≡ some (record { size = l_get_size_reg_var var_call; bytes = some bs }))
    × (unpack_reg_var (λ n. true) bs ≡ some (some (reg_var_sent var_call)))
reg_var_round_trip_example =
    reg_var_round_trip (λ n. true) zeroed var_call 4096 (replicate (l_get_size_reg_var var_call) 0)
      (λ n. refl) refl (ground arith) (length-replicate {A = ℕ} (l_get_size_reg_var var_call) 0)
      var_call-VarFits var_call-short
