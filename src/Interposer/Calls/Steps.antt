-- ===== src/Interposer/Calls/Steps.antt =====
-- interposer/libciutils.c: packing and unpacking field by field.
use gpu_virtmem.Prelude.{
  Option-cases, inl, inr, ◌>>=◌, append_assoc, as_size_t, ℕ, zero, suc, ◌+◌, ◌^◌, ◌<◌, ◌≤◌, ◌≡◌,
  ◌≢◌, refl, ap, ◌∙◌, Bool, true, List, [], ◌∷◌, ◌++◌, Option, some, length, drop, arith,
  length-append, append-nil, drop_append_of_length,
}
use gpu_virtmem.Interposer.Bytes.{Ptr, le, un_le-le, drop-le}
use gpu_virtmem.Interposer.Fields.{
  Uint3, CharPtr, Unpacked, sizeof_int, pack_triple, l_unpack_str, l_unpack_uint3_ptr,
  l_unpack_dim3_ptr, l_unpack_int_ptr,
}
use gpu_virtmem.Interposer.Fields.Laws.{
  StrFits, PtrFits, TripleFits, IntFits, str_bytes, ptr_bytes, sent_str, sent, l_unpack_str_lem,
  l_unpack_uint3_ptr_lem, l_unpack_dim3_ptr_lem, l_unpack_int_ptr_lem, length-str_bytes,
  length-ptr_uint3, length-ptr_dim3, length-ptr_int,
}
use gpu_virtmem.Interposer.Calls.{write_fields, Malloc, packed, read_word, read_field}

-- The fields write these bytes, wherever the packet lies.
unfoldable pub AllWrite : List (ℕ → Option (List ℕ)) → List ℕ → Type 0
AllWrite ws bs = (p : ℕ) → p ≢ 0 → write_fields p ws ≡ some bs

pub write_nil : AllWrite [] []
unfolding write_fields AllWrite
write_nil p h = refl

pub write_cons :
    (w : ℕ → Option (List ℕ)) (ws : List (ℕ → Option (List ℕ))) (bs rest : List ℕ)
    → ((p : ℕ) → p ≢ 0 → w p ≡ some bs)
    → AllWrite ws rest
    → AllWrite (w ∷ ws) (bs ++ rest)
unfolding write_fields AllWrite
write_cons w ws bs rest f g p h = ground (arith, f p h, g (p + length bs) (omega arith))

write_fields-append :
    (ws vs : List (ℕ → Option (List ℕ))) (p : ℕ)
    → write_fields p (ws ++ vs)
      ≡ (write_fields p ws >>= (λ bs. write_fields (p + length bs) vs >>= (λ cs. some (bs ++ cs))))
unfolding write_fields
write_fields-append [] vs p = elim (Option-cases (write_fields p vs)) [
  | inl n ↦ ground (arith, n)
  | inr (cs, q) ↦ ground (arith, q)
]
write_fields-append (w ∷ ws) vs p = elim (Option-cases (w p)) [
  | inl n ↦ ground (arith, n)
  | inr (bs, q) ↦ elim (Option-cases (write_fields (p + length bs) ws)) [
    | inl n ↦ ground (arith, q, n, write_fields-append ws vs (p + length bs))
    | inr (cs, r) ↦
        let ih = write_fields-append ws vs (p + length bs) in
        let n = length-append bs cs in
        let a : p + length (bs ++ cs) ≡ p + length bs + length cs = omega (arith, n) in
        elim (Option-cases (write_fields (p + length bs + length cs) vs)) [
          | inl o ↦ ground (arith, q, r, ih, a, o)
          | inr (ds, o) ↦ ground (arith, q, r, ih, a, o, append_assoc bs cs ds)
        ]
  ]
]

pub write_append :
    (ws vs : List (ℕ → Option (List ℕ))) (bs cs : List ℕ)
    → AllWrite ws bs
    → AllWrite vs cs
    → AllWrite (ws ++ vs) (bs ++ cs)
unfolding AllWrite
write_append ws vs bs cs f g p h =
    ground (arith, write_fields-append ws vs p, f p h, g (p + length bs) (omega arith))

drop-all {ℓ} : {A : Type ℓ} (n : ℕ) (xs : List A) → length xs ≤ n → drop n xs ≡ []
drop-all zero [] h = refl
drop-all zero (x ∷ xs) h = absurd (omega arith)
drop-all (suc n) [] h = refl
drop-all (suc n) (x ∷ xs) h = drop-all n xs (omega arith)

pub packed_lem :
    (malloc : Malloc) (size p : ℕ) (memory bs : List ℕ) (fields : List (ℕ → Option (List ℕ)))
    → malloc size ≡ some (p, memory)
    → p ≢ 0
    → length memory ≡ size
    → length bs ≡ size
    → size < 2 ^ 31
    → AllWrite fields bs
    → packed malloc size fields ≡ some (record { size = size; bytes = some bs })
unfolding packed AllWrite
packed_lem malloc size p memory bs fields m h k l b w =
    let e : malloc (as_size_t size) ≡ some (p, memory) = ap malloc (ground arith) ∙ m in
    ground (arith, e, w p h, drop-all (length bs) memory (omega arith), append-nil bs)

pub read_word_lem :
    {R : Type 0} (n v : ℕ) (rest : List ℕ) (k : ℕ → List ℕ → Option R)
    → v < 256 ^ n
    → read_word n (le n v ++ rest) k ≡ k v rest
unfolding read_word
read_word_lem n v rest k h = ground (arith, un_le-le n v rest h, drop-le n v rest)

pub read_field_lem :
    {A R : Type 0} (bs rest : List ℕ) (a : Option A) (n : ℕ) (o : Option (Unpacked A))
    (k : Option A → List ℕ → Option (Option R))
    → o ≡ some (record { value = a; offset = some n })
    → length bs ≡ n
    → read_field o (bs ++ rest) k ≡ k a rest
unfolding read_field
read_field_lem bs rest a n o k e h = ground (arith, e, drop_append_of_length n bs rest h)

-- A field in front of others, by its size.
pub length-field :
    (bs rest : List ℕ) (n m : ℕ) → length bs ≡ n → length rest ≡ m → length (bs ++ rest) ≡ n + m
length-field bs rest n m h k = omega (arith, length-append bs rest)

module _ (alloc : ℕ → Bool) (gives : (n : ℕ) → alloc n ≡ true) where
  pub str_field :
      {R : Type 0} (s : CharPtr) (rest : List ℕ) (k : Option (List ℕ) → List ℕ → Option (Option R))
      → StrFits s
      → read_field
          (l_unpack_str alloc (some 0) (some (str_bytes s ++ rest)))
          (str_bytes s ++ rest)
          k
        ≡ k (sent_str s) rest
  str_field s rest k h =
      read_field_lem (str_bytes s) rest _ _ _ k (l_unpack_str_lem alloc gives (some 0) s rest h)
        (length-str_bytes s h)

  pub uint3_field :
      {R : Type 0} (q : Ptr Uint3) (rest : List ℕ) (k : Option Uint3 → List ℕ → Option (Option R))
      → PtrFits TripleFits q
      → let bs = ptr_bytes pack_triple q in
        read_field (l_unpack_uint3_ptr alloc (some (bs ++ rest))) (bs ++ rest) k ≡ k (sent q) rest
  uint3_field q rest k h =
      read_field_lem (ptr_bytes pack_triple q) rest _ _ _ k
        (l_unpack_uint3_ptr_lem alloc gives q rest h) (length-ptr_uint3 q)

  pub dim3_field :
      {R : Type 0} (q : Ptr Uint3) (rest : List ℕ) (k : Option Uint3 → List ℕ → Option (Option R))
      → PtrFits TripleFits q
      → let bs = ptr_bytes pack_triple q in
        read_field (l_unpack_dim3_ptr alloc (some (bs ++ rest))) (bs ++ rest) k ≡ k (sent q) rest
  dim3_field q rest k h =
      read_field_lem (ptr_bytes pack_triple q) rest _ _ _ k
        (l_unpack_dim3_ptr_lem alloc gives q rest h) (length-ptr_dim3 q)

  pub int_field :
      {R : Type 0} (q : Ptr ℕ) (rest : List ℕ) (k : Option ℕ → List ℕ → Option (Option R))
      → PtrFits IntFits q
      → let bs = ptr_bytes (le sizeof_int) q in
        read_field (l_unpack_int_ptr alloc (some (bs ++ rest))) (bs ++ rest) k ≡ k (sent q) rest
  int_field q rest k h =
      read_field_lem (ptr_bytes (le sizeof_int) q) rest _ _ _ k
        (l_unpack_int_ptr_lem alloc gives q rest h) (length-ptr_int q)
