-- ===== src/Remote/Registry/Invariant.antt =====
-- remote/remote_api_wrapper.c: the array of registered fat binaries, whatever is registered and
-- unregistered in whatever order.
use gpu_virtmem.Prelude.{
  bind_some, ℤ, ℕ, suc, ◌<◌, ◌≤◌, ◌≡◌, refl, sym, ap, ◌∙◌, subst, inl, inr, Bool, List, [], ◌∷◌,
  ◌++◌, Option, none, some, ◌>>=◌, length, get_elem?, set, arith, ltb, Bool-cases, Option-cases,
  length-set, Each, Each-append, pos, negsuc, get_elem?-set_self, get_elem?-set_ne, ℕ_discrete,
}
use gpu_virtmem.Interposer.Calls.{RegFuncArgs, RegVarArgs, unpack_reg_func_args, unpack_reg_var}
use gpu_virtmem.Interposer.Fatcubin.{FatcubinInfo, g_fcia_elidx, g_fcia_idx}
use gpu_virtmem.Remote.Registry.{
  max_registered_funcs, max_registered_vars, cleared_info, elements, element_of, add_function,
  with_function, add_variable, with_variable, register_function_srv, register_var_srv,
}

-- The first `n` slots of an array are set.
pub AreSet : {A : Type 0} → ℕ → List (Option A) → Type 0
AreSet {A} n slots = (j : ℕ) → j < n → (a : A) × (get_elem? slots j ≡ some (some a))

pub record IsEntry (e : FatcubinInfo) : Type 0 where
  pub fns_few : e.num_reg_fns ≤ max_registered_funcs
  pub fns_long : length e.reg_fns ≡ max_registered_funcs
  pub fns_set : AreSet e.num_reg_fns e.reg_fns
  pub vars_few : e.num_reg_vars ≤ max_registered_vars
  pub vars_long : length e.variables ≡ max_registered_vars
  pub vars_set : AreSet e.num_reg_vars e.variables

cleared_info-IsEntry : (handle : ℕ) → IsEntry (cleared_info handle)
unfolding cleared_info AreSet
cleared_info-IsEntry handle = record {
  fns_few = omega arith;
  fns_long = refl;
  fns_set = λ j h. absurd (omega arith);
  vars_few = omega arith;
  vars_long = refl;
  vars_set = λ j h. absurd (omega arith);
}

AreSet-set :
    {A : Type 0} (n : ℕ) (slots : List (Option A)) (a : A)
    → n < length slots
    → AreSet n slots
    → AreSet (suc n) (set slots n (some a))
unfolding AreSet
AreSet-set n slots a h f j b = elim (ℕ_discrete j n) [
  | yes q ↦ (a, ap (get_elem? (set slots n (some a))) q ∙ get_elem?-set_self slots n (some a) h)
  | no d ↦
      let (v, q) = f j (omega arith) in (v, get_elem?-set_ne slots (some a) (λ e. d (sym e)) ∙ q)
]

with_function-IsEntry :
    (e : FatcubinInfo) (a : RegFuncArgs)
    → e.num_reg_fns < max_registered_funcs
    → IsEntry e
    → IsEntry (with_function e a)
unfolding with_function
with_function-IsEntry e a b h = record {
  fns_few = omega arith;
  fns_long = length-set e.reg_fns e.num_reg_fns (some a) ∙ h.fns_long;
  fns_set = AreSet-set e.num_reg_fns e.reg_fns a (omega (arith, h.fns_long)) h.fns_set;
  vars_few = h.vars_few;
  vars_long = h.vars_long;
  vars_set = h.vars_set;
}

with_variable-IsEntry :
    (e : FatcubinInfo) (a : RegVarArgs)
    → e.num_reg_vars < max_registered_vars
    → IsEntry e
    → IsEntry (with_variable e a)
unfolding with_variable
with_variable-IsEntry e a b h = record {
  fns_few = h.fns_few;
  fns_long = h.fns_long;
  fns_set = h.fns_set;
  vars_few = omega arith;
  vars_long = length-set e.variables e.num_reg_vars (some a) ∙ h.vars_long;
  vars_set = AreSet-set e.num_reg_vars e.variables a (omega (arith, h.vars_long)) h.vars_set;
}

pub add_function-IsEntry :
    (e d : FatcubinInfo) (a : RegFuncArgs) → add_function e a ≡ some d → IsEntry e → IsEntry d
unfolding add_function
add_function-IsEntry e d a q h = elim (Bool-cases (ltb e.num_reg_fns max_registered_funcs)) [
  | inl b ↦
      let same : with_function e a ≡ d = ground (arith, q, b) in
      subst IsEntry same (with_function-IsEntry e a (ground (arith, b)) h)
  | inr b ↦ absurd (ground (arith, q, b))
]

pub add_variable-IsEntry :
    (e d : FatcubinInfo) (a : RegVarArgs) → add_variable e a ≡ some d → IsEntry e → IsEntry d
unfolding add_variable
add_variable-IsEntry e d a q h = elim (Bool-cases (ltb e.num_reg_vars max_registered_vars)) [
  | inl b ↦
      let same : with_variable e a ≡ d = ground (arith, q, b) in
      subst IsEntry same (with_variable-IsEntry e a (ground (arith, b)) h)
  | inr b ↦ absurd (ground (arith, q, b))
]

unfoldable pub IsRegistry : Option (List FatcubinInfo) → Type 0
IsRegistry s = Each IsEntry (elements s)

picked :
    (arr : List FatcubinInfo) (z : ℤ) (e : FatcubinInfo) (i : ℕ)
    → (let found = elim z as (λ x. Option FatcubinInfo × ℤ) [
      | negsuc n ↦ (none, negsuc n)
      | pos i ↦ (get_elem? arr i, pos i)
    ] in
        found.0 >>= (λ e. elim found.1 as (λ x. Option (FatcubinInfo × ℕ)) [
          | pos i ↦ some (e, i)
          | negsuc n ↦ none
        ]))
      ≡ some (e, i)
    → get_elem? arr i ≡ some e
picked arr (negsuc n) e i h = absurd (ground (arith, h))
picked arr (pos k) e i h = elim (Option-cases (get_elem? arr k)) [
  | inl n ↦ absurd (ground (arith, h, n))
  | inr (d, q) ↦ ground (arith, h, q)
]

-- The element that a handler goes on with is the array's.
pub element_of_lem :
    (s : Option (List FatcubinInfo)) (handle : ℕ) (e : FatcubinInfo) (i : ℕ)
    → element_of s handle ≡ some (e, i)
    → get_elem? (elements s) i ≡ some e
unfolding element_of elements g_fcia_elidx
element_of_lem none handle e i h = absurd (ground (arith, h))
element_of_lem (some arr) handle e i h = picked arr (g_fcia_idx (some arr) handle) e i h

pub some-injective {ℓ} : {A : Type ℓ} (a b : A) → some a ≡ some b → a ≡ b
some-injective a b h = ground (arith, h)

-- What a registration that succeeds has put into the array.
pub register_function_srv-parts :
    (alloc : ℕ → Bool) (s : Option (List FatcubinInfo)) (buffer : List ℕ) (arr : List FatcubinInfo)
    → register_function_srv alloc s buffer ≡ some arr
    → (a : RegFuncArgs) × (e : FatcubinInfo) × (d : FatcubinInfo) × (i : ℕ) × (get_elem?
          (elements s)
          i
        ≡ some e)
      × (add_function e a ≡ some d)
      × (set (elements s) i d ≡ arr)
unfolding register_function_srv
register_function_srv-parts alloc s buffer arr h =
    let (o, p, h₁) = bind_some (unpack_reg_func_args alloc buffer) _ arr h in
    let (a, q, h₂) = bind_some o _ arr h₁ in
    let ((e, i), r, h₃) = bind_some (element_of s a.fat_cubin_handle) _ arr h₂ in
    let (d, t, h₄) = bind_some (add_function e a) _ arr h₃ in
    (
      a,
      e,
      d,
      i,
      element_of_lem s a.fat_cubin_handle e i r,
      t,
      some-injective (set (elements s) i d) arr h₄,
    )

pub register_var_srv-parts :
    (alloc : ℕ → Bool) (s : Option (List FatcubinInfo)) (buffer : List ℕ) (arr : List FatcubinInfo)
    → register_var_srv alloc s buffer ≡ some arr
    → (a : RegVarArgs) × (e : FatcubinInfo) × (d : FatcubinInfo) × (i : ℕ) × (get_elem?
          (elements s)
          i
        ≡ some e)
      × (add_variable e a ≡ some d)
      × (set (elements s) i d ≡ arr)
unfolding register_var_srv
register_var_srv-parts alloc s buffer arr h =
    let (o, p, h₁) = bind_some (unpack_reg_var alloc buffer) _ arr h in
    let (a, q, h₂) = bind_some o _ arr h₁ in
    let ((e, i), r, h₃) = bind_some (element_of s a.fat_cubin_handle) _ arr h₂ in
    let (d, t, h₄) = bind_some (add_variable e a) _ arr h₃ in
    (
      a,
      e,
      d,
      i,
      element_of_lem s a.fat_cubin_handle e i r,
      t,
      some-injective (set (elements s) i d) arr h₄,
    )

pub Each-cleared_info :
    (s : Option (List FatcubinInfo)) (handle : ℕ)
    → IsRegistry s
    → Each IsEntry (elements s ++ (cleared_info handle ∷ []))
unfolding Each IsRegistry
Each-cleared_info s handle h =
    Each-append IsEntry (elements s) (cleared_info handle ∷ []) h (cleared_info-IsEntry handle, tt)
