-- ===== src/Remote/Registry/Remove.antt =====
-- GLib's `g_array_remove_index_fast`, as it is documented: the last element takes the place of the one
-- that is removed.
use gpu_virtmem.Prelude.{
  ℕ, zero, suc, ◌≡◌, refl, sym, ap, ◌∙◌, subst, ◌⊎◌, inl, inr, List, [], ◌∷◌, ◌++◌, some, length,
  get_elem?, arith, Each, Each-append, Each-left, Each-right,
}

pub record IsFastRemoval {A : Type 0} (remove : List A → ℕ → List A) : Type 0 where
  pub last : (xs : List A) (a : A) → remove (xs ++ (a ∷ [])) (length xs) ≡ xs
  pub inner :
      (xs ys : List A) (a l : A)
      → remove (xs ++ (a ∷ (ys ++ (l ∷ [])))) (length xs) ≡ xs ++ (l ∷ ys)

module _ {A : Type 0} where
  -- A list is empty, or ends with an element.
  last_of : (xs : List A) → (xs ≡ []) ⊎ ((ys : List A) × (l : A) × (xs ≡ ys ++ (l ∷ [])))
  last_of [] = inl refl
  last_of (x ∷ xs) = elim (last_of xs) [
    | inl e ↦ inr ([], x, ap (λ t. x ∷ t) e)
    | inr (ys, l, e) ↦ inr (x ∷ ys, l, ap (λ t. x ∷ t) e)
  ]

  -- What stands in front of an element, and behind it.
  pub around :
      (arr : List A) (i : ℕ) (a : A)
      → get_elem? arr i ≡ some a
      → (xs : List A) × (ys : List A) × (arr ≡ xs ++ (a ∷ ys)) × (length xs ≡ i)
  around [] i a h = absurd (ground arith)
  around (x ∷ arr) zero a h = ([], arr, ground arith, refl)
  around (x ∷ arr) (suc i) a h =
      let (xs, ys, e, n) = around arr i a h in (x ∷ xs, ys, ap (λ t. x ∷ t) e, ap suc n)

  -- The array without the element, and what it has become.
  pub remove_lem :
      (remove : List A → ℕ → List A) (arr : List A) (i : ℕ) (a : A)
      → IsFastRemoval remove
      → get_elem? arr i ≡ some a
      → (xs : List A) × (ys : List A) × (arr ≡ xs ++ (a ∷ ys))
        × (((ys ≡ []) × (remove arr i ≡ xs))
            ⊎ ((zs : List A) × (l : A) × (ys ≡ zs ++ (l ∷ [])) × (remove arr i ≡ xs ++ (l ∷ zs))))
  remove_lem remove arr i a f h =
      let (xs, ys, e, n) = around arr i a h in
      elim (last_of ys) [
        | inl z ↦ (
          xs,
          ys,
          e,
          inl (
            z,
            ap (λ t. remove t i) (e ∙ ap (λ t. xs ++ (a ∷ t)) z)
                ∙ ap (remove (xs ++ (a ∷ []))) (sym n)
                ∙ f.last xs a,
          ),
        )
        | inr (zs, l, z) ↦ (
          xs,
          ys,
          e,
          inr (
            zs,
            l,
            z,
            ap (λ t. remove t i) (e ∙ ap (λ t. xs ++ (a ∷ t)) z)
                ∙ ap (remove (xs ++ (a ∷ (zs ++ (l ∷ []))))) (sym n)
                ∙ f.inner xs zs a l,
          ),
        )
      ]

  Each-tail : (P : A → Type 0) (x : A) (xs : List A) → Each P (x ∷ xs) → Each P xs
  unfolding Each
  Each-tail P x xs h = h.1

  pub Each-remove :
      (P : A → Type 0) (remove : List A → ℕ → List A) (arr : List A) (i : ℕ) (a : A)
      → IsFastRemoval remove
      → get_elem? arr i ≡ some a
      → Each P arr
      → Each P (remove arr i)
  Each-remove P remove arr i a f h all =
      let (xs, ys, e, cases) = remove_lem remove arr i a f h in
      let both = subst (Each P) {x = arr} e all in
      let front = Each-left P xs (a ∷ ys) both in
      let back = Each-tail P a ys (Each-right P xs (a ∷ ys) both) in
      elim cases [
        | inl (z, q) ↦ subst (Each P) {x = xs} (sym q) front
        | inr (zs, l, z, q) ↦
            let split = subst (Each P) {x = ys} z back in
            subst (Each P) {x = xs ++ (l ∷ zs)} (sym q) (
              Each-append P xs (l ∷ zs) front (
                Each-append P (l ∷ []) zs (Each-right P zs (l ∷ []) split)
                  (Each-left P zs (l ∷ []) split)))
      ]
