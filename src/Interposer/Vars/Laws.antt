-- ===== src/Interposer/Vars/Laws.antt =====
-- interposer/libciutils.c: which host variable a symbol stands for.
use gpu_virtmem.Prelude.{
  ℕ, zero, suc, ◌≡◌, ◌≢◌, refl, sym, ap, ◌∙◌, subst, ◌⊎◌, inl, inr, Bool, true, false, List, [],
  ◌∷◌, none, some, ◌==◌, get_elem?, arith, Bool-cases, Option-cases,
}
use gpu_virtmem.Interposer.Vars.{
  VarsVal, HashTable, HashTableLaws, str_eq, first_var, l_g_vars_find_host_var,
  l_g_vars_find_device_name, g_vars_find,
}

str_eq-eq : (xs ys : List ℕ) → str_eq xs ys ≡ true → xs ≡ ys
unfolding str_eq
str_eq-eq [] [] h = refl
str_eq-eq [] (y ∷ ys) h = absurd (ground (arith, h))
str_eq-eq (x ∷ xs) [] h = absurd (ground (arith, h))
str_eq-eq (x ∷ xs) (y ∷ ys) h = ground (arith, h, str_eq-eq xs ys)

str_eq_self : (xs : List ℕ) → str_eq xs xs ≡ true
unfolding str_eq
str_eq_self [] = refl
str_eq_self (x ∷ xs) = ground (arith, str_eq_self xs)

first_var-some :
    (test : VarsVal → Bool) (vs : List VarsVal) (a : ℕ)
    → first_var test vs ≡ some a
    → (i : ℕ) × (v : VarsVal) × (get_elem? vs i ≡ some v) × (test v ≡ true) × (v.host_var ≡ a)
unfolding first_var
first_var-some test [] a h = absurd (ground (arith, h))
first_var-some test (v ∷ vs) a h = elim (Bool-cases (test v)) [
  | inl e ↦ (0, v, refl, e, ground (arith, e, h))
  | inr e ↦
      let (i, w, f, k, l) = first_var-some test vs a (ground (arith, e, h)) in (suc i, w, f, k, l)
]

first_var-none :
    (test : VarsVal → Bool) (vs : List VarsVal) (i : ℕ) (v : VarsVal)
    → first_var test vs ≡ none
    → get_elem? vs i ≡ some v
    → test v ≡ false
unfolding first_var
first_var-none test [] i v h e = absurd (ground (arith, e))
first_var-none test (w ∷ vs) zero v h e =
    subst (λ u. test u ≡ false) {x = w} {y = v} (ground (arith, e)) (ground (arith, h))
first_var-none test (w ∷ vs) (suc i) v h e = first_var-none test vs i v (ground (arith, h)) e

module _ (g : HashTable) (laws : HashTableLaws g) where
  open laws use {lookup-new, lookup-insert_self, lookup-insert_ne, find-some, find-none}

  -- The variable is in the array of a handle.
  pub record IsRegistered (t : g.Table) (v : VarsVal) : Type 0 where
    pub handle : ℕ
    pub vars : List VarsVal
    pub index : ℕ
    pub has_handle : g.lookup t handle ≡ some vars
    pub there : get_elem? vars index ≡ some v

  -- What a search with a test finds.
  find_lem :
      (t : g.Table) (test : VarsVal → Bool)
      → ((v : VarsVal) × IsRegistered t v
          × (test v ≡ true)
          × (g.find t (first_var test) ≡ some v.host_var))
        ⊎ ((g.find t (first_var test) ≡ none) × ((v : VarsVal) → IsRegistered t v → test v ≡ false))
  find_lem t test = elim (Option-cases (g.find t (first_var test))) [
    | inl e ↦ inr (
      e,
      λ v r.
          first_var-none test r.vars r.index v
            (find-none t (first_var test) r.handle r.vars e r.has_handle) r.there,
    )
    | inr (a, e) ↦
        let (k, vs, f, h) = find-some t (first_var test) a e in
        let (i, v, at, s, l) = first_var-some test vs a h in
        inl (
          v,
          record { handle = k; vars = vs; index = i; has_handle = f; there = at },
          s,
          e ∙ ap some (sym l),
        )
  ]

  -- What `g_vars_find` makes of a symbol `p`: if a variable is registered whose host variable is `p`,
  -- `p` itself; else, if the string at `p` is the device name of registered variables, the host
  -- variable of one of them; else NULL.
  pub g_vars_find_lem :
      (string_at : ℕ → List ℕ) (t : g.Table) (p : ℕ)
      → ((v : VarsVal) × IsRegistered t v
          × (v.host_var ≡ p)
          × (g_vars_find g string_at (some t) (some p) ≡ some p))
        ⊎ (((v : VarsVal) → IsRegistered t v → v.host_var ≢ p)
            × (((v : VarsVal) × IsRegistered t v
                  × (v.device_name ≡ string_at p)
                  × (g_vars_find g string_at (some t) (some p) ≡ some v.host_var))
                ⊎ (((v : VarsVal) → IsRegistered t v → v.device_name ≢ string_at p)
                    × (g_vars_find g string_at (some t) (some p) ≡ none))))
  unfolding g_vars_find l_g_vars_find_host_var l_g_vars_find_device_name
  g_vars_find_lem string_at t p = elim (find_lem t (λ v. v.host_var == p)) [
    | inl (v, r, e, f) ↦ inl (v, r, ground (arith, e), ground (arith, e, f))
    | inr (e, f) ↦ inr (
      λ v r h. absurd (ground (arith, f v r, h)),
      elim (find_lem t (λ v. str_eq v.device_name (string_at p))) [
        | inl (v, r, k, l) ↦
            inl (v, r, str_eq-eq v.device_name (string_at p) k, ground (arith, e, l))
        | inr (k, l) ↦ inr (
          λ v r h. absurd (
              ground (
                arith,
                l v r,
                subst (λ n. str_eq v.device_name n ≡ true) h (str_eq_self v.device_name),
              )),
          ground (arith, e, k),
        )
      ],
    )
  ]
