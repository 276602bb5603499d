-- ===== src/Interposer/FatBinary/Parts.antt =====
-- interposer/libciutils.c: the parts of the packet of a fat binary.
use gpu_virtmem.Prelude.{
  Each, ◌>>=◌, drop_append_of_length, ℕ, ◌+◌, ◌*◌, ◌%◌, ◌^◌, ◌<◌, ◌≡◌, ◌≢◌, refl, ap, ◌∙◌, Bool,
  true, List, [], ◌∷◌, ◌++◌, map, Option, none, some, length, drop, arith, append_assoc,
  length-append,
}
use gpu_virtmem.Interposer.Bytes.{le, un_le, length-le, un_le-le}
use gpu_virtmem.Interposer.Fields.{CharPtr}
use gpu_virtmem.Interposer.Fields.Laws.{
  StrFits, str_bytes, sent_str, l_unpack_str_lem, length-str_bytes,
}
use gpu_virtmem.Interposer.Calls.{word}
use gpu_virtmem.Interposer.Calls.Steps.{AllWrite, write_cons, write_nil}
use gpu_virtmem.Interposer.FatBinary.Pack.{Field, pack_table}
use gpu_virtmem.Interposer.FatBinary.Unpack.{Received, read_str, array_of, unpack_table}
use gpu_virtmem.Interposer.FatBinary.Tables.{
  prefix, IsTerminated, joined, pack_table_lem, unpack_table_lem,
}

-- The elements of an array, none of NULL.
unfoldable pub entries : {E : Type 0} → (E → Bool) → Option (List E) → List E
entries live none = []
entries live (some es) = prefix live es

-- An array has a terminator, and fewer than 2 ^ 31 elements in front of it, which all fit.
unfoldable pub TableFits : {E : Type 0} → (E → Bool) → (E → Type 0) → Option (List E) → Type 0
TableFits live Fits none = Unit
TableFits live Fits (some es) =
    IsTerminated live es × (length (prefix live es) < 2 ^ 31) × Each Fits (prefix live es)

unfoldable pub part_bytes : {E : Type 0} → (E → List ℕ) → List E → List ℕ
part_bytes bytes es = le 4 (length es) ++ joined bytes es

pub length-part_bytes :
    {E : Type 0} (bytes : E → List ℕ) (es : List E)
    → length (part_bytes bytes es) ≡ 4 + length (joined bytes es)
unfolding part_bytes
length-part_bytes bytes es =
    omega (arith, length-append (le 4 (length es)) (joined bytes es), length-le 4 (length es))

pub un_le-part_bytes :
    {E : Type 0} (bytes : E → List ℕ) (es : List E) (rest : List ℕ)
    → length es < 2 ^ 31
    → un_le 4 (part_bytes bytes es ++ rest) ≡ some (length es)
unfolding part_bytes
un_le-part_bytes bytes es rest h =
    ap (un_le 4) (append_assoc (le 4 (length es)) (joined bytes es) rest)
    ∙ un_le-le 4 (length es) (joined bytes es ++ rest) (omega arith)

module _ {E : Type 0} (live : E → Bool) (Fits : E → Type 0) (bytes : E → List ℕ) where
  pub Each-entries : (o : Option (List E)) → TableFits live Fits o → Each Fits (entries live o)
  unfolding Each TableFits entries
  Each-entries none f = tt
  Each-entries (some es) (t, n, f) = f

  pub length-entries :
      (o : Option (List E)) → TableFits live Fits o → length (entries live o) < 2 ^ 31
  unfolding TableFits entries
  length-entries none f = omega arith
  length-entries (some es) (t, n, f) = n

  pub pack_part_lem :
      (fields : E → List Field) (p : ℕ) (o : Option (List E))
      → p ≢ 0
      → ((e : E) → Fits e → AllWrite (fields e) (bytes e))
      → TableFits live Fits o
      → pack_table fields p o (length (entries live o)) ≡ some (part_bytes bytes (entries live o))
  unfolding pack_table TableFits entries part_bytes joined AllWrite
  pack_part_lem fields p none h w f =
      ground (arith, write_cons (word 4 0) [] _ _ (λ q k. refl) write_nil p h)
  pack_part_lem fields p (some es) h w (t, n, f) = pack_table_lem live Fits bytes fields p es h w f

pub joined-nil : {E : Type 0} (bytes : E → List ℕ) → length (joined bytes []) ≡ 0
unfolding joined
joined-nil bytes = refl

pub no_terminator : {E : Type 0} (live : E → Bool) → ¬ IsTerminated live []
unfolding IsTerminated
no_terminator live t = omega arith

pub unpack_part_lem :
    {E B : Type 0} (Fits : E → Type 0) (bytes : E → List ℕ) (sent : E → B)
    (next : List ℕ → Option (B × List ℕ)) (end : B) (es : List E) (rest : List ℕ)
    → ((e : E) (r : List ℕ) → Fits e → next (bytes e ++ r) ≡ some (sent e, r))
    → Each Fits es
    → unpack_table true next end (length es) (part_bytes bytes es ++ rest)
      ≡ some (map sent es ++ (end ∷ []), length (part_bytes bytes es))
unfolding part_bytes
unpack_part_lem Fits bytes sent next end es rest n f =
    unpack_table_lem Fits bytes sent next end es rest n f

-- A list arrives with a terminator, and NULL as NULL.
unfoldable pub closed : {E : Type 0} → E → List E → List E
closed end [] = []
closed end (e ∷ es) = (e ∷ es) ++ (end ∷ [])

module _ (alloc : ℕ → Bool) (gives : (n : ℕ) → alloc n ≡ true) where
  pub read_str_lem :
      {R : Type 0} (s : CharPtr) (rest : List ℕ) (k : Received → List ℕ → Option R)
      → StrFits s
      → read_str alloc (str_bytes s ++ rest) k ≡ k (sent_str s) rest
  unfolding read_str
  read_str_lem s rest k f =
      let eq = l_unpack_str_lem alloc gives (some 0) s rest f in
      let n = length-str_bytes s f in
      ap (λ o. o >>= (λ u. u.offset >>= (λ n. k u.value (drop n (str_bytes s ++ rest))))) eq
      ∙ ap (k (sent_str s)) (drop_append_of_length _ (str_bytes s) rest n)

  pub array_of_lem : (n size : ℕ) → n < 2 ^ 31 → array_of alloc n size ≡ true
  unfolding array_of
  array_of_lem n size h = ground (arith, gives ((n + 1) % 2 ^ 32 * size))
