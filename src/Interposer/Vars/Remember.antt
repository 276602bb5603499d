-- ===== src/Interposer/Vars/Remember.antt =====
-- interposer/libci.c: which variables the table holds after one was registered.
use gpu_virtmem.Prelude.{
  ℕ, zero, suc, ◌≡◌, ◌≢◌, sym, ap, ◌∙◌, subst, ◌⊎◌, ◌↔◌, inl, inr, List, [], ◌∷◌, ◌++◌, Option,
  none, some, get_elem?, length, arith, Option-cases, ℕ_discrete, get_elem?-append_end,
}
use gpu_virtmem.Interposer.Vars.{
  VarsVal, HashTable, HashTableLaws, g_vars_val_new, g_vars_insert, remember_var,
}
use gpu_virtmem.Interposer.Vars.Laws.{IsRegistered}

get_elem?-snoc :
    (xs : List VarsVal) (x w : VarsVal) (i : ℕ)
    → get_elem? (xs ++ (x ∷ [])) i ≡ some w
    → (get_elem? xs i ≡ some w) ⊎ (w ≡ x)
get_elem?-snoc [] x w zero h = inr (ground (arith, h))
get_elem?-snoc [] x w (suc i) h = absurd (ground (arith, h))
get_elem?-snoc (y ∷ xs) x w zero h = inl h
get_elem?-snoc (y ∷ xs) x w (suc i) h = get_elem?-snoc xs x w i h

get_elem?-append_left :
    (xs ys : List VarsVal) (w : VarsVal) (i : ℕ)
    → get_elem? xs i ≡ some w
    → get_elem? (xs ++ ys) i ≡ some w
get_elem?-append_left [] ys w i h = absurd (ground (arith, h))
get_elem?-append_left (y ∷ xs) ys w zero h = h
get_elem?-append_left (y ∷ xs) ys w (suc i) h = get_elem?-append_left xs ys w i h

module _ (g : HashTable) (laws : HashTableLaws g) where
  open laws use {lookup-new, lookup-insert_self, lookup-insert_ne}

  -- The array of a handle, if there is one.
  entry : g.Table → ℕ → List VarsVal
  entry t k = elim (g.lookup t k) [ none ↦ [] | some vs ↦ vs ]

  lookup-g_vars_insert_self :
      (t : g.Table) (k : ℕ) (v : VarsVal)
      → g.lookup (g_vars_insert g t (some k) (some v)) k ≡ some (entry t k ++ (v ∷ []))
  unfolding g_vars_insert entry
  lookup-g_vars_insert_self t k v = elim (Option-cases (g.lookup t k)) [
    | inl e ↦ ground (arith, e, lookup-insert_self t k (v ∷ []))
    | inr (vs, e) ↦ ground (arith, e, lookup-insert_self t k (vs ++ (v ∷ [])))
  ]

  lookup-g_vars_insert_ne :
      (t : g.Table) (k j : ℕ) (v : VarsVal)
      → k ≢ j
      → g.lookup (g_vars_insert g t (some k) (some v)) j ≡ g.lookup t j
  unfolding g_vars_insert
  lookup-g_vars_insert_ne t k j v h = elim (Option-cases (g.lookup t k)) [
    | inl e ↦ ground (arith, e, lookup-insert_ne t k j (v ∷ []) h)
    | inr (vs, e) ↦ ground (arith, e, lookup-insert_ne t k j (vs ++ (v ∷ [])) h)
  ]

  entry-IsRegistered :
      (t : g.Table) (k i : ℕ) (w : VarsVal)
      → get_elem? (entry t k) i ≡ some w
      → IsRegistered g laws t w
  unfolding entry
  entry-IsRegistered t k i w h = elim (Option-cases (g.lookup t k)) [
    | inl e ↦ absurd (ground (arith, e, h))
    | inr (vs, e) ↦ record {
      handle = k;
      vars = vs;
      index = i;
      has_handle = e;
      there = ground (arith, e, h);
    }
  ]

  module _ (t : g.Table) (k : ℕ) (v : VarsVal) where
    abbrev inserted : g.Table
    inserted = g_vars_insert g t (some k) (some v)

    IsRegistered-new : IsRegistered g laws inserted v
    IsRegistered-new = record {
      handle = k;
      vars = entry t k ++ (v ∷ []);
      index = length (entry t k);
      has_handle = lookup-g_vars_insert_self t k v;
      there = get_elem?-append_end (entry t k) v;
    }

    IsRegistered-kept : (w : VarsVal) → IsRegistered g laws t w → IsRegistered g laws inserted w
    unfolding entry
    IsRegistered-kept w r = elim (ℕ_discrete k r.handle) [
      | yes e ↦
          let here : g.lookup t k ≡ some r.vars =
            subst (λ n. g.lookup t n ≡ some r.vars) (sym e) r.has_handle in
          let all : entry t k ≡ r.vars = ground (arith, here) in
          record {
            handle = k;
            vars = entry t k ++ (v ∷ []);
            index = r.index;
            has_handle = lookup-g_vars_insert_self t k v;
            there =
                get_elem?-append_left (entry t k) (v ∷ []) w r.index
                  (ap (λ vs. get_elem? vs r.index) all ∙ r.there);
          }
      | no e ↦ record {
        handle = r.handle;
        vars = r.vars;
        index = r.index;
        has_handle = lookup-g_vars_insert_ne t k r.handle v e ∙ r.has_handle;
        there = r.there;
      }
    ]

    IsRegistered-before :
        (w : VarsVal) → IsRegistered g laws inserted w → (w ≡ v) ⊎ IsRegistered g laws t w
    IsRegistered-before w r = elim (ℕ_discrete k r.handle) [
      | yes e ↦
          let here : g.lookup inserted k ≡ some r.vars =
            subst (λ n. g.lookup inserted n ≡ some r.vars) (sym e) r.has_handle in
          let all : entry t k ++ (v ∷ []) ≡ r.vars =
            ground (arith, here, lookup-g_vars_insert_self t k v) in
          elim (get_elem?-snoc (entry t k) v w r.index
            (ap (λ vs. get_elem? vs r.index) all ∙ r.there)) [
              | inl f ↦ inr (entry-IsRegistered t k r.index w f)
              | inr f ↦ inl f
            ]
      | no e ↦ inr (record {
        handle = r.handle;
        vars = r.vars;
        index = r.index;
        has_handle = sym (lookup-g_vars_insert_ne t k r.handle v e) ∙ r.has_handle;
        there = r.there;
      })
    ]

  -- The table holds the variable, if there is a table.
  pub Remembers : Option g.Table → VarsVal → Type 0
  Remembers none v = ⊥
  Remembers (some t) v = IsRegistered g laws t v

  -- Registering a variable adds it and nothing else: afterwards the table holds a variable exactly if
  -- it is the new one or was held before, also where there was no table yet.
  pub remember_var_lem :
      (tab : Option g.Table) (handle host_var : ℕ) (name : List ℕ) (w : VarsVal)
      → Remembers (remember_var g tab handle host_var name) w
        ↔ ((w ≡ g_vars_val_new host_var name) ⊎ Remembers tab w)
  unfolding remember_var Remembers
  remember_var_lem none handle host_var name w =
      let v : VarsVal = g_vars_val_new host_var name in
      (
        λ r. elim (IsRegistered-before g.new handle v w r) [
          | inl e ↦ inl e
          | inr n ↦ absurd (ground (arith, n.has_handle, lookup-new n.handle))
        ],
        λ c. elim c [
          | inl e ↦
              subst (IsRegistered g laws (inserted g.new handle v)) (sym e)
                (IsRegistered-new g.new handle v)
          | inr r ↦ absurd r
        ],
      )
  remember_var_lem (some t) handle host_var name w =
      let v : VarsVal = g_vars_val_new host_var name in
      (
        IsRegistered-before t handle v w,
        λ c. elim c [
          | inl e ↦
              subst (IsRegistered g laws (inserted t handle v)) (sym e)
                (IsRegistered-new t handle v)
          | inr r ↦ IsRegistered-kept t handle v w r
        ],
      )
