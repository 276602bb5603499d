-- ===== src/Interposer/FatBinary/Chains.antt =====
-- interposer/libciutils.c: the lists of a fat binary are counted and written up to their ends.
use gpu_virtmem.Prelude.{
  Each, if◌then◌else◌, ℕ_discrete, ℕ, ◌%◌, ◌^◌, ◌≡◌, ◌≢◌, refl, sym, subst, inl, inr, Bool, true,
  false, List, [], ◌∷◌, ◌++◌, some, length, arith, Bool-cases, length-append,
}
use gpu_virtmem.Interposer.Bytes.{le}
use gpu_virtmem.Interposer.Calls.{word}
use gpu_virtmem.Interposer.Calls.Steps.{AllWrite, write_cons, write_nil, write_append}
use gpu_virtmem.Interposer.FatBinary.{chain_size}
use gpu_virtmem.Interposer.FatBinary.Pack.{Field, chain_fields, chain_count, pack_chain}
use gpu_virtmem.Interposer.FatBinary.Tables.{prefix, prefix-live, prefix-dead, Each-live, joined}

chain_count_lem :
    {E : Type 0} (live : E → Bool) (es : List E) → chain_count live es ≡ length (prefix live es)
unfolding chain_count prefix
chain_count_lem live [] = refl
chain_count_lem live (e ∷ es) = elim (Bool-cases (live e)) [
  | inl l ↦ ground (arith, l, chain_count_lem live es)
  | inr l ↦ ground (arith, l)
]

module _ {E : Type 0} (live : E → Bool) (Fits : E → Type 0) (bytes : E → List ℕ) where
  pub chain_size_lem :
      (cost : E → ℕ) (es : List E)
      → ((e : E) → Fits e → length (bytes e) ≡ cost e)
      → Each Fits (prefix live es)
      → chain_size live cost es
        ≡ (length (joined bytes (prefix live es)) % 2 ^ 32, length (prefix live es))
  unfolding chain_size joined prefix
  chain_size_lem cost [] eq f = refl
  chain_size_lem cost (e ∷ es) eq f = elim (Bool-cases (live e)) [
    | inl l ↦
        let g = Each-live live Fits bytes e es l f in
        ground (
          arith,
          l,
          prefix-live live e es l,
          chain_size_lem cost es eq g.1,
          eq e g.0,
          length-append (bytes e) (joined bytes (prefix live es)),
        )
    | inr l ↦ ground (arith, l, prefix-dead live e es l)
  ]

  chain_fields_lem :
      (fields : E → List Field) (es : List E)
      → ((e : E) → Fits e → AllWrite (fields e) (bytes e))
      → Each Fits (prefix live es)
      → AllWrite (chain_fields live fields es) (joined bytes (prefix live es))
  unfolding prefix joined chain_fields
  chain_fields_lem fields [] w f = write_nil
  chain_fields_lem fields (e ∷ es) w f =
      let Goal : Bool → Type 0 = λ b.
        AllWrite (if b then fields e ++ chain_fields live fields es else [])
          (joined bytes (if b then e ∷ prefix live es else [])) in
      elim (Bool-cases (live e)) [
        | inl l ↦
            let g = Each-live live Fits bytes e es l f in
            subst Goal {x = true} (sym l)
              (write_append (fields e) _ _ _ (w e g.0) (chain_fields_lem fields es w g.1))
        | inr l ↦ subst Goal {x = false} (sym l) write_nil
      ]

  joined-none : (es : List E) → length es ≡ 0 → joined bytes es ≡ []
  unfolding joined
  joined-none [] h = refl
  joined-none (e ∷ es) h = absurd (omega arith)

  joined-nothing : joined bytes (prefix live []) ≡ []
  unfolding joined prefix
  joined-nothing = refl

  -- A list is written as the number of its elements, and the elements.
  pub pack_chain_lem :
      (fields : E → List Field) (p : ℕ) (es : List E)
      → p ≢ 0
      → ((e : E) → Fits e → AllWrite (fields e) (bytes e))
      → Each Fits (prefix live es)
      → pack_chain live fields p es (length (prefix live es))
        ≡ some (le 4 (length (prefix live es)) ++ joined bytes (prefix live es))
  unfolding pack_chain AllWrite
  pack_chain_lem fields p [] h w f =
      let n = length (prefix live []) in
      ground (arith, write_cons (word 4 n) [] _ _ (λ q k. refl) write_nil p h, joined-nothing)
  pack_chain_lem fields p (e ∷ es) h w f =
      let ps = prefix live (e ∷ es) in
      let all =
        write_cons (word 4 (length ps)) _ _ _ (λ q k. refl) (chain_fields_lem fields (e ∷ es) w f) p
          h in
      let alone = write_cons (word 4 (length ps)) [] _ _ (λ q k. refl) write_nil p h in
      elim (ℕ_discrete (length ps) 0) [
        | yes z ↦ ground (arith, z, alone, joined-none ps z)
        | no z ↦ ground (arith, z, all, chain_count_lem live (e ∷ es))
      ]
