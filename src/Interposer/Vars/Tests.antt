-- ===== src/Interposer/Vars/Tests.antt =====
-- A table with two variables of one handle.
use gpu_virtmem.Prelude.{ℕ, ◌≡◌, ◌≢◌, ◌⊎◌, ◌↔◌, List, [], ◌∷◌, none, some}
use gpu_virtmem.Interposer.Vars.{VarsVal, g_vars_val_new, g_vars_find, remember_var}
use gpu_virtmem.Interposer.Vars.Laws.{IsRegistered, g_vars_find_lem}
use gpu_virtmem.Interposer.Vars.Remember.{Remembers, remember_var_lem}
use gpu_virtmem.Interposer.Vars.Sample.{Pairs, pairs, pairs_laws}

-- Two variables of one fat binary.
abbrev two_vars : Pairs
two_vars = (5, g_vars_val_new 40 (97 ∷ []) ∷ g_vars_val_new 44 (98 ∷ []) ∷ []) ∷ []

abbrev b_at : ℕ → List ℕ
b_at p = 98 ∷ []

g_vars_find_lem_example :
    ((v : VarsVal) × IsRegistered pairs pairs_laws two_vars v
      × (v.host_var ≡ 60)
      × (g_vars_find pairs b_at (some two_vars) (some 60) ≡ some 60))
    ⊎ (((v : VarsVal) → IsRegistered pairs pairs_laws two_vars v → v.host_var ≢ 60)
        × (((v : VarsVal) × IsRegistered pairs pairs_laws two_vars v
              × (v.device_name ≡ 98 ∷ [])
              × (g_vars_find pairs b_at (some two_vars) (some 60) ≡ some v.host_var))
            ⊎ (((v : VarsVal) → IsRegistered pairs pairs_laws two_vars v → v.device_name ≢ 98 ∷ [])
                × (g_vars_find pairs b_at (some two_vars) (some 60) ≡ none))))
g_vars_find_lem_example = g_vars_find_lem pairs pairs_laws b_at two_vars 60

remember_var_lem_example :
    Remembers pairs pairs_laws
      (remember_var pairs (some two_vars) 5 48 (99 ∷ []))
      (g_vars_val_new 48 (99 ∷ []))
    ↔ ((g_vars_val_new 48 (99 ∷ []) ≡ g_vars_val_new 48 (99 ∷ []))
        ⊎ Remembers pairs pairs_laws (some two_vars) (g_vars_val_new 48 (99 ∷ [])))
remember_var_lem_example =
    remember_var_lem pairs pairs_laws (some two_vars) 5 48 (99 ∷ []) (g_vars_val_new 48 (99 ∷ []))
