-- ===== src/Interposer/Vars.antt =====
-- interposer/libciutils.c, the table of registered variables, and interposer/libci.c, its use in
-- `r__cudaRegisterVar` and `r__cudaUnregisterFatBinary`. The hash tables are GLib's, a parameter.
pub mod Laws
pub mod Remember
pub mod Sample
mod Tests
use gpu_virtmem.Prelude.{
  ℕ, ◌≡◌, ◌≢◌, Bool, true, false, ◌&&◌, List, [], ◌∷◌, ◌++◌, Option, none, some, ◌==◌,
  if◌then◌else◌,
}

-- `vars_val_t`
pub record VarsVal : Type 0 where
  pub host_var : ℕ
  pub device_name : List ℕ

-- A `GHashTable` from handles to arrays. `insert` also stands for a change of the array in place, and
-- `find` is `g_hash_table_find` with a predicate that, where it holds, adds a pointer to `user_data`.
pub record HashTable : Type 1 where
  pub Table : Type 0
  pub new : Table
  pub lookup : Table → ℕ → Option (List VarsVal)
  pub insert : Table → ℕ → List VarsVal → Table
  pub remove : Table → ℕ → Table
  pub find : Table → (List VarsVal → Option ℕ) → Option ℕ

-- What GLib documents of them; the order in which `find` goes through the table is left open.
pub record HashTableLaws (g : HashTable) : Type 1 where
  pub lookup-new : (k : ℕ) → g.lookup g.new k ≡ none
  pub lookup-insert_self :
      (t : g.Table) (k : ℕ) (vs : List VarsVal) → g.lookup (g.insert t k vs) k ≡ some vs
  pub lookup-insert_ne :
      (t : g.Table) (k j : ℕ) (vs : List VarsVal)
      → k ≢ j
      → g.lookup (g.insert t k vs) j ≡ g.lookup t j
  pub lookup-remove_self : (t : g.Table) (k : ℕ) → g.lookup (g.remove t k) k ≡ none
  pub lookup-remove_ne : (t : g.Table) (k j : ℕ) → k ≢ j → g.lookup (g.remove t k) j ≡ g.lookup t j
  pub find-some :
      (t : g.Table) (f : List VarsVal → Option ℕ) (a : ℕ)
      → g.find t f ≡ some a
      → (k : ℕ) × (vs : List VarsVal) × (g.lookup t k ≡ some vs) × (f vs ≡ some a)
  pub find-none :
      (t : g.Table) (f : List VarsVal → Option ℕ) (k : ℕ) (vs : List VarsVal)
      → g.find t f ≡ none
      → g.lookup t k ≡ some vs
      → f vs ≡ none

-- `strcmp(...) == 0`
unfoldable pub str_eq : List ℕ → List ℕ → Bool
str_eq [] [] = true
str_eq (a ∷ rest) (b ∷ bs) = (a == b) && str_eq rest bs
str_eq [] (b ∷ bs) = false
str_eq (a ∷ rest) [] = false

-- The loops of `l_g_vars_find_hostVar` and `l_g_vars_find_deviceName` around their tests.
unfoldable pub first_var : (VarsVal → Bool) → List VarsVal → Option ℕ
first_var test [] = none
first_var test (v ∷ vs) = if test v then some v.host_var else first_var test vs

-- `l_g_vars_find_hostVar`
unfoldable pub l_g_vars_find_host_var : ℕ → List VarsVal → Option ℕ
l_g_vars_find_host_var symbol vs = first_var (λ v. v.host_var == symbol) vs

-- `l_g_vars_find_deviceName`, where `symbol` points to the string `name`.
unfoldable pub l_g_vars_find_device_name : List ℕ → List VarsVal → Option ℕ
l_g_vars_find_device_name name vs = first_var (λ v. str_eq v.device_name name) vs

-- `g_vars_val_new`
unfoldable pub g_vars_val_new : ℕ → List ℕ → VarsVal
g_vars_val_new host_var device_name = record { host_var = host_var; device_name = device_name }

module _ (g : HashTable) where
  -- `g_vars_insert`; NULL is `none`.
  unfoldable pub g_vars_insert : g.Table → Option ℕ → Option VarsVal → g.Table
  g_vars_insert t none value = t
  g_vars_insert t (some handle) none = t
  g_vars_insert t (some handle) (some v) = elim (g.lookup t handle) [
    | none ↦ g.insert t handle (v ∷ [])
    | some vs ↦ g.insert t handle (vs ++ (v ∷ []))
  ]

  -- `g_vars_remove`
  unfoldable pub g_vars_remove : Option g.Table → Option ℕ → Option g.Table
  g_vars_remove none handle = none
  g_vars_remove (some t) none = some t
  g_vars_remove (some t) (some handle) = some (g.remove t handle)

  -- `g_vars_find`: the host variable of a symbol, an address, in a memory where the string at an
  -- address is `string_at`.
  unfoldable pub g_vars_find : (ℕ → List ℕ) → Option g.Table → Option ℕ → Option ℕ
  g_vars_find string_at none symbol = none
  g_vars_find string_at (some t) none = none
  g_vars_find string_at (some t) (some p) = elim (g.find t (l_g_vars_find_host_var p)) [
    | some a ↦ some a
    | none ↦ g.find t (l_g_vars_find_device_name (string_at p))
  ]

  -- What `r__cudaRegisterVar` does with `regHostVarsTab`.
  unfoldable pub remember_var : Option g.Table → ℕ → ℕ → List ℕ → Option g.Table
  remember_var none handle host_var device_name =
      some (g_vars_insert g.new (some handle) (some (g_vars_val_new host_var device_name)))
  remember_var (some t) handle host_var device_name =
      some (g_vars_insert t (some handle) (some (g_vars_val_new host_var device_name)))

  -- What `r__cudaUnregisterFatBinary` does with it where the remote call returns `OK`: the removal of
  -- the handle is compiled out.
  unfoldable pub forget_vars : Option g.Table → ℕ → Option g.Table
  forget_vars tab handle = none
