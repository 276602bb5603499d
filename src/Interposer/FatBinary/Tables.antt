-- ===== src/Interposer/FatBinary/Tables.antt =====
-- interposer/libciutils.c: the arrays of a fat binary are counted, written and read up to their
-- terminators.
use gpu_virtmem.Prelude.{
  Each, subst, ℕ, suc, ◌%◌, ◌^◌, ◌<◌, ◌≡◌, ◌≢◌, refl, sym, ap, ◌∙◌, inl, inr, Bool, true, false,
  List, [], ◌∷◌, ◌++◌, map, Option, some, length, drop, arith, if◌then◌else◌, Bool-cases,
  append_assoc, length-append,
}
use gpu_virtmem.Interposer.Bytes.{le, drop-le}
use gpu_virtmem.Interposer.Calls.{word}
use gpu_virtmem.Interposer.Calls.Steps.{AllWrite, write_cons, write_nil, write_append}
use gpu_virtmem.Interposer.FatBinary.{table_size}
use gpu_virtmem.Interposer.FatBinary.Pack.{Field, table_fields, pack_table}
use gpu_virtmem.Interposer.FatBinary.Unpack.{entries_from, unpack_table}

-- The elements in front of the first one that is not live.
unfoldable pub prefix : {E : Type 0} → (E → Bool) → List E → List E
prefix live [] = []
prefix live (e ∷ es) = if live e then e ∷ prefix live es else []

-- The array has a terminator.
unfoldable pub IsTerminated : {E : Type 0} → (E → Bool) → List E → Type 0
IsTerminated live es = length (prefix live es) < length es

-- The bytes of the elements, one after the other.
unfoldable pub joined : {E : Type 0} → (E → List ℕ) → List E → List ℕ
joined bytes [] = []
joined bytes (e ∷ es) = bytes e ++ joined bytes es

module _ {E : Type 0} (live : E → Bool) where
  pub prefix-live :
      (e : E) (es : List E) → live e ≡ true → prefix live (e ∷ es) ≡ e ∷ prefix live es
  unfolding prefix
  prefix-live e es l = ground (arith, l)

  pub prefix-dead : (e : E) (es : List E) → live e ≡ false → prefix live (e ∷ es) ≡ []
  unfolding prefix
  prefix-dead e es l = ground (arith, l)

module _ {E : Type 0} (live : E → Bool) (Fits : E → Type 0) (bytes : E → List ℕ) where
  pub Each-live :
      (e : E) (es : List E)
      → live e ≡ true
      → Each Fits (prefix live (e ∷ es))
      → Fits e × Each Fits (prefix live es)
  unfolding Each
  Each-live e es l f = subst (Each Fits) (prefix-live live e es l) f

  pub table_size_lem :
      (cost : E → ℕ) (es : List E)
      → ((e : E) → Fits e → length (bytes e) ≡ cost e)
      → IsTerminated live es
      → Each Fits (prefix live es)
      → table_size live cost es
        ≡ some (length (joined bytes (prefix live es)) % 2 ^ 32, length (prefix live es))
  unfolding table_size IsTerminated joined
  table_size_lem cost [] eq h f = absurd (omega arith)
  table_size_lem cost (e ∷ es) eq h f = elim (Bool-cases (live e)) [
    | inl l ↦
        let q = prefix-live live e es l in
        let g = Each-live e es l f in
        let n : length (prefix live (e ∷ es)) ≡ suc (length (prefix live es)) = ap length q in
        let r = table_size_lem cost es eq (omega arith) g.1 in
        ground (arith, l, q, r, eq e g.0, length-append (bytes e) (joined bytes (prefix live es)))
    | inr l ↦ ground (arith, l, prefix-dead live e es l)
  ]

  pub table_fields_lem :
      (fields : E → List Field) (es : List E)
      → ((e : E) → Fits e → AllWrite (fields e) (bytes e))
      → Each Fits (prefix live es)
      → (fs : List Field) × (table_fields fields (length (prefix live es)) es ≡ some fs)
        × AllWrite fs (joined bytes (prefix live es))
  unfolding table_fields prefix joined
  table_fields_lem fields [] w f = ([], refl, write_nil)
  table_fields_lem fields (e ∷ es) w f =
      let Goal : List E → Type 0 = λ xs.
        (fs : List Field) × (table_fields fields (length xs) (e ∷ es) ≡ some fs)
        × AllWrite fs (joined bytes xs) in
      elim (Bool-cases (live e)) [
        | inl l ↦
            let g = Each-live e es l f in
            let (fs, eq, ws) = table_fields_lem fields es w g.1 in
            subst Goal {x = e ∷ prefix live es} (sym (prefix-live live e es l))
              (fields e ++ fs, ground (arith, eq), write_append (fields e) fs _ _ (w e g.0) ws)
        | inr l ↦ subst Goal {x = []} (sym (prefix-dead live e es l)) ([], refl, write_nil)
      ]

  -- An array is written as the number of its elements, and the elements.
  pub pack_table_lem :
      (fields : E → List Field) (p : ℕ) (es : List E)
      → p ≢ 0
      → ((e : E) → Fits e → AllWrite (fields e) (bytes e))
      → Each Fits (prefix live es)
      → pack_table fields p (some es) (length (prefix live es))
        ≡ some (le 4 (length (prefix live es)) ++ joined bytes (prefix live es))
  unfolding pack_table AllWrite
  pack_table_lem fields p es h w f =
      let (fs, eq, ws) = table_fields_lem fields es w f in
      ground (arith, eq, write_cons (word 4 (length (prefix live es))) fs _ _ (λ q k. refl) ws p h)

module _ {E B : Type 0} (Fits : E → Type 0) (bytes : E → List ℕ) (sent : E → B) where
  -- The elements are read as they were written.
  pub entries_from_lem :
      (next : List ℕ → Option (B × List ℕ)) (es : List E) (rest : List ℕ)
      → ((e : E) (r : List ℕ) → Fits e → next (bytes e ++ r) ≡ some (sent e, r))
      → Each Fits es
      → entries_from next (length es) (joined bytes es ++ rest) ≡ some (map sent es, rest)
  unfolding entries_from joined Each
  entries_from_lem next [] rest n f = refl
  entries_from_lem next (e ∷ es) rest n f = ground (
    arith,
    append_assoc (bytes e) (joined bytes es) rest,
    n e (joined bytes es ++ rest) f.0,
    entries_from_lem next es rest n f.1,
  )

  pub unpack_table_lem :
      (next : List ℕ → Option (B × List ℕ)) (end : B) (es : List E) (rest : List ℕ)
      → ((e : E) (r : List ℕ) → Fits e → next (bytes e ++ r) ≡ some (sent e, r))
      → Each Fits es
      → let all = le 4 (length es) ++ joined bytes es in
        unpack_table true next end (length es) (all ++ rest)
        ≡ some (map sent es ++ (end ∷ []), length all)
  unfolding unpack_table
  unpack_table_lem next end es rest n f =
      let len = le 4 (length es) in
      let eq : (len ++ joined bytes es) ++ rest ≡ len ++ (joined bytes es ++ rest) =
        append_assoc len (joined bytes es) rest in
      let d : drop 4 ((len ++ joined bytes es) ++ rest) ≡ joined bytes es ++ rest =
        ap (drop 4) eq ∙ drop-le 4 (length es) (joined bytes es ++ rest) in
      ground
        (arith, d, entries_from_lem next es rest n f, length-append (len ++ joined bytes es) rest)
