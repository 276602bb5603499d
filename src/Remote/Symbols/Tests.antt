-- ===== src/Remote/Symbols/Tests.antt =====
-- A server with one fat binary and one variable of it.
use gpu_virtmem.Prelude.{
  inr, ℕ, ◌≡◌, ◌≢◌, ◌⊎◌, none, ◌<◌, ◌^◌, refl, true, false, List, [], ◌∷◌, Option, some, length,
  replicate, arith, length-replicate,
}
use gpu_virtmem.Interposer.Bytes.{null, le}
use gpu_virtmem.Interposer.Fields.Laws.{StrFits, str_bytes}
use gpu_virtmem.Interposer.Calls.{RegVarCall, Malloc, l_get_size_reg_var, unpack_reg_var}
use gpu_virtmem.Interposer.Calls.RegVar.{VarFits, reg_var_bytes, reg_var_sent, reg_var_round_trip}
use gpu_virtmem.Interposer.Fatcubin.HostVar.{NoElement, IsLast}
use gpu_virtmem.Interposer.Vars.{VarsVal, g_vars_val_new}
use gpu_virtmem.Interposer.Vars.Laws.{IsRegistered}
use gpu_virtmem.Interposer.Vars.Sample.{pairs, pairs_laws}
use gpu_virtmem.Remote.Sample.{all_by}
use gpu_virtmem.Remote.Client.Laws.{connected}
use gpu_virtmem.Remote.Entry.{CallResult}
use gpu_virtmem.Remote.Entry.Calls.{rcuda_memcpy_to_symbol, rcuda_memcpy_from_symbol}
use gpu_virtmem.Remote.Symbols.Copies.{SymbolLaws, with_symbols, symbol_copies_lem}
use gpu_virtmem.Interposer.Fatcubin.{FatcubinInfo, g_fcia_idx, g_fcia_elidx, idx_from}
use gpu_virtmem.Remote.Rpc.{Rpkt, Handlers, cuda_memcpy_to_symbol, cuda_memcpy_from_symbol}
use gpu_virtmem.Remote.Client.{Args, read_bytes}
use gpu_virtmem.Remote.Registry.{
  cleared_info, elements, element_of, add_variable, with_variable, register_var_srv,
}
use gpu_virtmem.Remote.Registry.Sample.{fast, fast-IsFastRemoval, handle_5000, one_reached}
use gpu_virtmem.Remote.Registry.Reach.{Reach, next, var}
use gpu_virtmem.Remote.Symbols.{SymbolCuda, State, memcpy_to_symbol_srv, memcpy_from_symbol_srv}
use gpu_virtmem.Remote.Symbols.Laws.{
  ToResult, FromResult, Reach-memcpy_to_symbol_srv, Reach-memcpy_from_symbol_srv,
}

-- `malloc` at address 4096, of zeroed memory.
abbrev zeroed : Malloc
zeroed n = some (4096, replicate n 0)

abbrev var_call : RegVarCall
var_call = record {
  fat_cubin_handle = 5000;
  host_var = 6000;
  device_address = null;
  device_name = null;
  ext = 0;
  vsize = 400;
  constant = 1;
  global = 0;
}

var_call-VarFits : VarFits var_call
unfolding StrFits
var_call-VarFits = record {
  handle = omega arith;
  host_var = omega arith;
  device_address = omega arith;
  device_name = omega arith;
  ext = omega arith;
  vsize = omega arith;
  constant = omega arith;
  global = omega arith;
}

var_call-short : length (reg_var_bytes var_call) < 2 ^ 31
unfolding reg_var_bytes str_bytes le
var_call-short = omega arith

-- The array after the registration.
one_variable : List FatcubinInfo
unfolding with_variable cleared_info reg_var_sent
one_variable = with_variable (cleared_info 5000) (reg_var_sent var_call) ∷ []

registered_var :
    (bs : List ℕ)
    → unpack_reg_var (λ n. true) bs ≡ some (some (reg_var_sent var_call))
    → register_var_srv (λ n. true) (some (cleared_info 5000 ∷ [])) bs ≡ some one_variable
unfolding register_var_srv element_of elements add_variable with_variable g_fcia_elidx g_fcia_idx
    idx_from cleared_info reg_var_sent one_variable
registered_var bs h = ground (arith, h)

variable_reached : Reach (λ n. true) handle_5000 fast (some one_variable)
variable_reached =
    let (bs, packed, unpacked) =
      reg_var_round_trip (λ n. true) zeroed var_call 4096
        (replicate (l_get_size_reg_var var_call) 0) (λ n. refl) refl (ground arith)
        (length-replicate {A = ℕ} (l_get_size_reg_var var_call) 0) var_call-VarFits
        var_call-short in
    next one_reached (var bs one_variable (registered_var bs unpacked))

-- The device is the bytes of one variable.
abbrev one_symbol : SymbolCuda
one_symbol = record {
  Device = List ℕ;
  to_symbol = λ d v bs offset. (0, bs);
  from_symbol = λ d v count offset. (0, d);
}

abbrev two_bytes : ℕ → Option (List ℕ)
two_bytes n = some (0 ∷ 0 ∷ [])

abbrev to_6000 : Rpkt Args
to_6000 = record {
  method_id = cuda_memcpy_to_symbol;
  has_error = false;
  err = 30;
  args = record {
    arg0 = 6000;
    arg1 = 40;
    arg2 = 2;
    arg2_offset = 0;
    arg3 = 1;
    copy_type = true;
    addr_shared = false;
  };
}

abbrev from_6000 : Rpkt Args
from_6000 = record to_6000 {
  method_id = cuda_memcpy_from_symbol;
  args = record to_6000.args { arg3 = 2 };
}

Reach-memcpy_to_symbol_srv_example :
    (d : List ℕ) × (q : Rpkt Args) × (memcpy_to_symbol_srv one_symbol two_bytes 500 600
        (some one_variable, 1 ∷ 2 ∷ [])
        to_6000
        (7 ∷ 8 ∷ [])
      ≡ some ((some one_variable, d), q, []))
    × (q.method_id ≡ cuda_memcpy_to_symbol)
    × ToResult one_symbol two_bytes 500 600 one_variable (1 ∷ 2 ∷ []) to_6000 (7 ∷ 8 ∷ []) d q.err
Reach-memcpy_to_symbol_srv_example =
    Reach-memcpy_to_symbol_srv one_symbol two_bytes 500 600 (λ n. true) handle_5000 fast
      one_variable (1 ∷ 2 ∷ []) to_6000 (7 ∷ 8 ∷ []) fast-IsFastRemoval variable_reached refl

Reach-memcpy_from_symbol_srv_example :
    (q : Rpkt Args) × (response : List ℕ) × (memcpy_from_symbol_srv one_symbol two_bytes 500 600
        (some one_variable, 1 ∷ 2 ∷ [])
        from_6000
        []
      ≡ some ((some one_variable, 1 ∷ 2 ∷ []), q, response))
    × (q.method_id ≡ cuda_memcpy_from_symbol)
    × FromResult one_symbol two_bytes 500 600 one_variable
        (1 ∷ 2 ∷ [])
        from_6000
        (0 ∷ 0 ∷ [])
        q.err
        response
Reach-memcpy_from_symbol_srv_example =
    Reach-memcpy_from_symbol_srv one_symbol two_bytes 500 600 (λ n. true) handle_5000 fast
      one_variable (1 ∷ 2 ∷ []) from_6000 [] (0 ∷ 0 ∷ []) fast-IsFastRemoval variable_reached
      (omega arith) refl

-- The table of the client, with the same variable.
abbrev variable_6000 : VarsVal
variable_6000 = g_vars_val_new 6000 (97 ∷ [])

variable_6000-IsRegistered :
    IsRegistered pairs pairs_laws ((5000, variable_6000 ∷ []) ∷ []) variable_6000
variable_6000-IsRegistered = record {
  handle = 5000;
  vars = variable_6000 ∷ [];
  index = 0;
  has_handle = pairs_laws.lookup-insert_self [] 5000 (variable_6000 ∷ []);
  there = refl;
}

abbrev one_symbol_laws : SymbolLaws one_symbol
one_symbol_laws = record { from-to = λ d v bs offset e. refl }

-- The other handlers do nothing.
abbrev idle : Handlers Args (State one_symbol two_bytes 500 600)
idle = all_by (λ s p bs. some (s, p, []))

abbrev served_symbols : Handlers Args (State one_symbol two_bytes 500 600)
served_symbols =
    with_symbols one_symbol one_symbol_laws two_bytes 500 600 (λ n. true) handle_5000 fast pairs
      pairs_laws idle

symbol_copies_lem_example :
    (r : CallResult (State one_symbol two_bytes 500 600)) × (rcuda_memcpy_to_symbol
        (connected served_symbols)
        true
        pairs
        (λ p. [])
        (some ((5000, variable_6000 ∷ []) ∷ []))
        (some 6000)
        40
        2
        0
        1
        (some one_variable, 1 ∷ 2 ∷ [])
        (λ p. p)
      ≡ some r)
    × ((NoElement 6000 one_variable
          × (r ≡ record {
            state = (some one_variable, 1 ∷ 2 ∷ []);
            memory = λ p. p;
            cuda_err = 30;
            stored = none;
          }))
        ⊎ ((i : ℕ) × (last : IsLast 6000 one_variable i) × (((◌≢◌ {A = ℕ} 0 0) × (r.cuda_err ≡ 30))
              ⊎ ((r.cuda_err ≡ 0)
                  × (q : CallResult (State one_symbol two_bytes 500 600))
                  × (rcuda_memcpy_from_symbol
                        (connected served_symbols)
                        true
                        pairs
                        (λ p. [])
                        (some ((5000, variable_6000 ∷ []) ∷ []))
                        (some 6000)
                        80
                        2
                        0
                        2
                        r.state
                        r.memory
                      ≡ some q)
                  × (q.cuda_err ≡ 0)
                  × (read_bytes q.memory 80 2 ≡ read_bytes (λ p. p) 40 2)))))
unfolding g_vars_val_new
symbol_copies_lem_example =
    symbol_copies_lem one_symbol one_symbol_laws two_bytes 500 600 (λ n. true) handle_5000 fast
      pairs pairs_laws idle one_variable (1 ∷ 2 ∷ []) (λ p. p) (λ p. [])
      ((5000, variable_6000 ∷ []) ∷ []) variable_6000 40 80 2 0 (0 ∷ 0 ∷ []) fast-IsFastRemoval
      variable_reached variable_6000-IsRegistered (omega arith) (inr (omega arith, omega arith))
      (inr (omega arith, omega arith)) refl
