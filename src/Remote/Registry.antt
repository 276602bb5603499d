-- ===== src/Remote/Registry.antt =====
-- remote/remote_api_wrapper.c: the handlers that register a fat binary, its functions and its
-- variables, and the search of a launch in what is registered. The array `fatCInfoArr` is passed
-- along, with NULL as `none`; the handles that CUDA gives and GLib's removal from an array are
-- parameters. A handler's result is `none` where the program stops: at a failed assertion, an exit, a
-- NULL pointer or a read behind the packet.
pub mod Find
pub mod Invariant
pub mod Remove
pub mod Sample
pub mod Reach
pub mod Launch
mod Tests
use gpu_virtmem.Prelude.{
  ℕ, zero, suc, ◌+◌, Bool, List, [], ◌∷◌, ◌++◌, Option, none, some, ◌>>=◌, length, replicate, ltb,
  ◌==◌, if◌then◌else◌, get_elem?, set, ℤ, pos, negsuc,
}
use gpu_virtmem.Interposer.Calls.{RegFuncArgs, RegVarArgs, unpack_reg_func_args, unpack_reg_var}
use gpu_virtmem.Interposer.FatBinary.Unpack.{Received}
use gpu_virtmem.Interposer.FatBinary.Second.{FatCudaBinary2, unpack_fat_binary_4}
use gpu_virtmem.Interposer.Fatcubin.{FatcubinInfo, g_fcia_elidx}

abbrev pub max_registered_funcs : ℕ
max_registered_funcs = 10

abbrev pub max_registered_vars : ℕ
max_registered_vars = 10

-- An element that `calloc` has cleared, with its handle.
unfoldable pub cleared_info : ℕ → FatcubinInfo
cleared_info handle = record {
  fat_cubin_handle = handle;
  num_reg_vars = 0;
  variables = replicate max_registered_vars none;
  num_reg_fns = 0;
  reg_fns = replicate max_registered_funcs none;
}

-- The elements of an array that is made when there is none.
unfoldable pub elements : Option (List FatcubinInfo) → List FatcubinInfo
elements none = []
elements (some arr) = arr

-- `__nvback_cudaRegisterFatBinary2_srv`: the handle, and the array. `register` stands for
-- `__cudaRegisterFatBinary`.
unfoldable pub register_fat_binary2_srv :
    (ℕ → Bool)
    → (FatCudaBinary2 Received → ℕ)
    → Option (List FatcubinInfo)
    → List ℕ
    → Option (ℕ × List FatcubinInfo)
register_fat_binary2_srv alloc register arr buffer = unpack_fat_binary_4 alloc buffer >>= (λ b.
    let handle = register b.0 in some (handle, elements arr ++ (cleared_info handle ∷ [])))

-- `pFcI`, and where it stands in the array.
unfoldable pub element_of : Option (List FatcubinInfo) → ℕ → Option (FatcubinInfo × ℕ)
element_of arr handle =
    let found = g_fcia_elidx arr handle in
    found.0 >>= (λ e. elim found.1 [ pos i ↦ some (e, i) | negsuc n ↦ none ])

-- The element with one function more, and with one variable more.
unfoldable pub with_function : FatcubinInfo → RegFuncArgs → FatcubinInfo
with_function e a = record e {
  reg_fns = set e.reg_fns e.num_reg_fns (some a);
  num_reg_fns = suc e.num_reg_fns;
}

unfoldable pub with_variable : FatcubinInfo → RegVarArgs → FatcubinInfo
with_variable e a = record e {
  variables = set e.variables e.num_reg_vars (some a);
  num_reg_vars = suc e.num_reg_vars;
}

-- The assertions that there is a free slot.
unfoldable pub add_function : FatcubinInfo → RegFuncArgs → Option FatcubinInfo
add_function e a = if ltb e.num_reg_fns max_registered_funcs then some (with_function e a) else none

unfoldable pub add_variable : FatcubinInfo → RegVarArgs → Option FatcubinInfo
add_variable e a = if ltb e.num_reg_vars max_registered_vars then some (with_variable e a) else none

-- `__nvback_cudaRegisterFunction_srv`. After an `ERROR` of `unpackRegFuncArgs`, the handler would go
-- on with fields that were never set.
unfoldable pub register_function_srv :
    (ℕ → Bool) → Option (List FatcubinInfo) → List ℕ → Option (List FatcubinInfo)
register_function_srv alloc arr buffer = do
  unpacked ← unpack_reg_func_args alloc buffer
  a ← unpacked
  found ← element_of arr a.fat_cubin_handle
  e ← add_function found.0 a
  some (set (elements arr) found.1 e)

-- `__nvback_cudaRegisterVar_srv`
unfoldable pub register_var_srv :
    (ℕ → Bool) → Option (List FatcubinInfo) → List ℕ → Option (List FatcubinInfo)
register_var_srv alloc arr buffer = do
  unpacked ← unpack_reg_var alloc buffer
  a ← unpacked
  found ← element_of arr a.fat_cubin_handle
  e ← add_variable found.0 a
  some (set (elements arr) found.1 e)

-- `__nvback_cudaUnregisterFatBinary_srv`; `remove` stands for `g_array_remove_index_fast`. The element
-- names a structure of CUDA 4, which `freeFatBinary` in `cleanFatCubinInfo` reads as a longer one of
-- CUDA 3 and whose fields it frees: what it does depends on the words that the heap holds behind the
-- structure. `cleaned` says whether it comes back with nothing freed but what belongs to the element.
unfoldable pub unregister_fat_binary_srv :
    (FatcubinInfo → Bool)
    → (List FatcubinInfo → ℕ → List FatcubinInfo)
    → Option (List FatcubinInfo)
    → ℕ
    → Option (List FatcubinInfo)
unregister_fat_binary_srv cleaned remove arr handle =
    element_of arr handle
    >>= (λ found. if cleaned found.0 then some (remove (elements arr) found.1) else none)

-- The inner loop of `nvbackCudaLaunch_srv` with `n` rounds to go, and its outer loop: the function
-- that is launched for the entry `arg`, `none` inside when none is.
unfoldable pub fn_from : ℕ → ℕ → List (Option RegFuncArgs) → Option (Option RegFuncArgs)
fn_from arg zero fs = some none
fn_from arg (suc n) [] = none
fn_from arg (suc n) (none ∷ fs) = fn_from arg n fs
fn_from arg (suc n) (some f ∷ fs) =
    if f.host_fe_addr == arg then some (some f) else fn_from arg n fs

unfoldable pub search_from : ℕ → List FatcubinInfo → Option (Option RegFuncArgs)
search_from arg [] = some none
search_from arg (p ∷ ps) =
    fn_from arg p.num_reg_fns p.reg_fns
    >>= (λ r. elim r [ none ↦ search_from arg ps | some f ↦ some (some f) ])

unfoldable pub launched_function : Option (List FatcubinInfo) → ℕ → Option (Option RegFuncArgs)
launched_function none arg = none
launched_function (some arr) arg = search_from arg arr
