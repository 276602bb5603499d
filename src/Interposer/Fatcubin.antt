-- ===== src/Interposer/Fatcubin.antt =====
-- interposer/libciutils.c: the lookups in the array of registered fat binaries, and
-- include/fatcubininfo.h: its elements.
pub mod Handle
pub mod HostVar
use gpu_virtmem.Prelude.{
  ℕ, zero, suc, ◌+◌, Bool, true, false, List, [], ◌∷◌, Option, none, some, ◌>>=◌, ◌==◌,
  if◌then◌else◌, get_elem?, ℤ, pos, negsuc, to_int,
}
use gpu_virtmem.Interposer.Calls.{RegFuncArgs, RegVarArgs}

-- `fatcubin_info_t`, with the fields that the lookups read; NULL in `variables` and in `reg_fns` is
-- `none`.
pub record FatcubinInfo : Type 0 where
  pub fat_cubin_handle : ℕ
  pub num_reg_vars : ℕ
  pub variables : List (Option RegVarArgs)
  pub num_reg_fns : ℕ
  pub reg_fns : List (Option RegFuncArgs)

unfoldable pub idx_from : ℕ → ℕ → List FatcubinInfo → ℤ
idx_from handle i [] = negsuc 0
idx_from handle i (e ∷ es) =
    if e.fat_cubin_handle == handle then to_int i else idx_from handle (suc i) es

-- `g_fcia_idx`; `none` is a NULL array.
unfoldable pub g_fcia_idx : Option (List FatcubinInfo) → ℕ → ℤ
unfolding idx_from
g_fcia_idx none handle = negsuc 0
g_fcia_idx (some arr) handle = idx_from handle 0 arr

-- `g_fcia_elidx`: the element and `*pIndex`.
unfoldable pub g_fcia_elidx : Option (List FatcubinInfo) → ℕ → Option FatcubinInfo × ℤ
g_fcia_elidx none handle = (none, negsuc 0)
g_fcia_elidx (some arr) handle = elim (g_fcia_idx (some arr) handle) [
  | negsuc n ↦ (none, negsuc n)
  | pos i ↦ (get_elem? arr i, pos i)
]

-- `g_fcia_elem`
pub g_fcia_elem : Option (List FatcubinInfo) → ℕ → Option FatcubinInfo
g_fcia_elem arr handle = (g_fcia_elidx arr handle).0

-- The inner loop of `g_fcia_host_var` from `j` on, with `n` rounds to go; the outer `none` is a read
-- behind the array `variables`.
pub var_from : ℕ → ℕ → ℕ → List (Option RegVarArgs) → Option (Option ℕ)
var_from host_var j zero vs = some none
var_from host_var j (suc n) [] = none
var_from host_var j (suc n) (none ∷ vs) = var_from host_var (suc j) n vs
var_from host_var j (suc n) (some v ∷ vs) =
    if v.host_var == host_var then some (some j) else var_from host_var (suc j) n vs

-- Its outer loop, which goes on after a match.
pub host_var_from :
    ℕ → List FatcubinInfo → Option FatcubinInfo × ℤ → Option (Option FatcubinInfo × ℤ)
host_var_from host_var [] found = some found
host_var_from host_var (p ∷ ps) found =
    var_from host_var 0 p.num_reg_vars p.variables
    >>= (λ r. host_var_from host_var ps (elim r [ none ↦ found | some j ↦ (some p, pos j) ]))

-- `g_fcia_host_var`: the element and `*pIndex`.
pub g_fcia_host_var : Option (List FatcubinInfo) → ℕ → Option (Option FatcubinInfo × ℤ)
unfolding host_var_from var_from
g_fcia_host_var none host_var = some (none, negsuc 0)
g_fcia_host_var (some arr) host_var = host_var_from host_var arr (none, negsuc 0)
