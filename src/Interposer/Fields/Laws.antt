-- ===== src/Interposer/Fields/Laws.antt =====
-- interposer/libciutils.c: each field is read as it was written, and takes the bytes counted for it.
use gpu_virtmem.Prelude.{
  ℕ, ◌+◌, ◌^◌, ◌<◌, ◌≡◌, ◌≢◌, refl, sym, ap, ◌∙◌, Bool, true, List, [], ◌∷◌, ◌++◌, Option, none,
  some, length, take, drop, arith, append_assoc, length-append, take_append_of_length,
  drop_append_of_length,
}
use gpu_virtmem.Interposer.Bytes.{Ptr, null, at, le, un_le, length-le, un_le-le, drop-le}
use gpu_virtmem.Interposer.Fields.{
  Uint3, CharPtr, strlen, characters, sizeof_size_pkt_field, sizeof_pointer, sizeof_int,
  l_get_string_pkt_size, l_get_uint3_ptr_pkt_size, l_get_dim3_ptr_pkt_size, l_get_int_ptr_pkt_size,
  l_pack_str, pack_triple, l_pack_uint3_ptr, l_pack_dim3_ptr, l_pack_int_ptr, l_unpack_str,
  unpack_triple, l_unpack_uint3_ptr, l_unpack_dim3_ptr, l_unpack_int_ptr,
}

-- What a string arrives as: an empty one arrives as NULL.
pub sent_str : CharPtr → Option (List ℕ)
sent_str null = none
sent_str (at a []) = none
sent_str (at a (c ∷ cs)) = some (c ∷ cs)

-- What a pointer arrives as.
pub sent : {A : Type 0} → Ptr A → Option A
sent null = none
sent (at a x) = some x

unfoldable pub str_bytes : CharPtr → List ℕ
str_bytes s = le sizeof_size_pkt_field (strlen s) ++ characters s

unfoldable pub StrFits : CharPtr → Type 0
StrFits s = strlen s < 2 ^ 31

take-all {ℓ} : {A : Type ℓ} (xs : List A) → take (length xs) xs ≡ xs
take-all [] = refl
take-all (x ∷ xs) = ap (λ l. x ∷ l) (take-all xs)

strlen_lem : (s : CharPtr) → strlen s ≡ length (characters s)
strlen_lem null = refl
strlen_lem (at a cs) = refl

pub l_pack_str_lem : (p : ℕ) (s : CharPtr) → p ≢ 0 → StrFits s → l_pack_str p s ≡ some (str_bytes s)
unfolding l_pack_str str_bytes StrFits
l_pack_str_lem p null h k = ground arith
l_pack_str_lem p (at a []) h k = ground arith
l_pack_str_lem p (at a (c ∷ cs)) h k = ground (arith, take-all (c ∷ cs))

pub length-str_bytes : (s : CharPtr) → StrFits s → length (str_bytes s) ≡ l_get_string_pkt_size s
unfolding str_bytes StrFits l_get_string_pkt_size
length-str_bytes null k = ground (arith, length-append (le 4 0) [], length-le 4 0)
length-str_bytes (at a cs) k =
    ground (arith, length-append (le 4 (length cs)) cs, length-le 4 (length cs))

module _ (alloc : ℕ → Bool) (gives : (n : ℕ) → alloc n ≡ true) where
  unpack_chars :
      (offset : Option ℕ) (cs rest : List ℕ)
      → length cs < 2 ^ 31
      → length cs ≢ 0
      → l_unpack_str alloc offset (some (le 4 (length cs) ++ (cs ++ rest)))
        ≡ some (record { value = some cs; offset = some (4 + length cs) })
  unfolding l_unpack_str
  unpack_chars offset cs rest k h =
      let e : un_le 4 (le 4 (length cs) ++ (cs ++ rest)) ≡ some (length cs) =
        un_le-le 4 (length cs) (cs ++ rest) (omega arith) in
      let f : drop 4 (le 4 (length cs) ++ (cs ++ rest)) ≡ cs ++ rest =
        drop-le 4 (length cs) (cs ++ rest) in
      let g : take (length cs) (cs ++ rest) ≡ cs = take_append_of_length (length cs) cs rest refl in
      ground (arith, e, f, g, gives (length cs + 1), length-append cs rest)

  unpack_empty :
      (offset : Option ℕ) (rest : List ℕ)
      → l_unpack_str alloc offset (some (le 4 0 ++ rest))
        ≡ some (record { value = none; offset = some 4 })
  unfolding l_unpack_str
  unpack_empty offset rest =
      let e : un_le 4 (le 4 0 ++ rest) ≡ some 0 = un_le-le 4 0 rest (omega arith) in
      ground (arith, e)

  pub l_unpack_str_lem :
      (offset : Option ℕ) (s : CharPtr) (rest : List ℕ)
      → StrFits s
      → l_unpack_str alloc offset (some (str_bytes s ++ rest))
        ≡ some (record { value = sent_str s; offset = some (l_get_string_pkt_size s) })
  unfolding StrFits str_bytes sent_str l_get_string_pkt_size
  l_unpack_str_lem offset null rest k =
      ap (λ l. l_unpack_str alloc offset (some l)) (append_assoc (le 4 0) [] rest)
      ∙ unpack_empty offset rest
  l_unpack_str_lem offset (at a []) rest k =
      ap (λ l. l_unpack_str alloc offset (some l)) (append_assoc (le 4 0) [] rest)
      ∙ unpack_empty offset rest
  l_unpack_str_lem offset (at a (c ∷ cs)) rest k =
      ap (λ l. l_unpack_str alloc offset (some l))
        (append_assoc (le 4 (length (c ∷ cs))) (c ∷ cs) rest)
      ∙ unpack_chars offset (c ∷ cs) rest k (ground arith)
      ∙ ground arith

-- Three numbers, or one, fit in 32 bits each.
unfoldable pub TripleFits : Uint3 → Type 0
TripleFits u = (u.x < 2 ^ 32) × (u.y < 2 ^ 32) × (u.z < 2 ^ 32)

unfoldable pub IntFits : ℕ → Type 0
IntFits v = v < 2 ^ 32

unfoldable pub PtrFits : {A : Type 0} → (A → Type 0) → Ptr A → Type 0
PtrFits P null = Unit
PtrFits P (at a x) = (0 < a) × (a < 2 ^ 64) × P x

unfoldable pub ptr_bytes : {A : Type 0} → (A → List ℕ) → Ptr A → List ℕ
ptr_bytes f null = le sizeof_pointer 0
ptr_bytes f (at a x) = le sizeof_pointer a ++ f x

pub l_pack_uint3_ptr_lem :
    (p : ℕ) (q : Ptr Uint3) → p ≢ 0 → l_pack_uint3_ptr p q ≡ some (ptr_bytes pack_triple q)
unfolding l_pack_uint3_ptr ptr_bytes
l_pack_uint3_ptr_lem p null h = ground arith
l_pack_uint3_ptr_lem p (at a u) h = ground arith

pub l_pack_dim3_ptr_lem :
    (p : ℕ) (q : Ptr Uint3) → p ≢ 0 → l_pack_dim3_ptr p q ≡ some (ptr_bytes pack_triple q)
unfolding l_pack_dim3_ptr ptr_bytes
l_pack_dim3_ptr_lem p null h = ground arith
l_pack_dim3_ptr_lem p (at a u) h = ground arith

pub l_pack_int_ptr_lem :
    (p : ℕ) (q : Ptr ℕ) → p ≢ 0 → l_pack_int_ptr p q ≡ some (ptr_bytes (le sizeof_int) q)
unfolding l_pack_int_ptr ptr_bytes
l_pack_int_ptr_lem p null h = ground arith
l_pack_int_ptr_lem p (at a u) h = ground arith

length-pack_triple : (u : Uint3) → length (pack_triple u) ≡ 12
unfolding pack_triple
length-pack_triple u = ground (
  arith,
  length-append (le 4 u.x) (le 4 u.y ++ le 4 u.z),
  length-append (le 4 u.y) (le 4 u.z),
  length-le 4 u.x,
  length-le 4 u.y,
  length-le 4 u.z,
)

pub length-ptr_uint3 :
    (q : Ptr Uint3) → length (ptr_bytes pack_triple q) ≡ l_get_uint3_ptr_pkt_size q
unfolding ptr_bytes l_get_uint3_ptr_pkt_size
length-ptr_uint3 null = length-le 8 0
length-ptr_uint3 (at a u) =
    ground (arith, length-append (le 8 a) (pack_triple u), length-le 8 a, length-pack_triple u)

pub length-ptr_dim3 : (q : Ptr Uint3) → length (ptr_bytes pack_triple q) ≡ l_get_dim3_ptr_pkt_size q
unfolding ptr_bytes l_get_dim3_ptr_pkt_size
length-ptr_dim3 null = length-le 8 0
length-ptr_dim3 (at a u) =
    ground (arith, length-append (le 8 a) (pack_triple u), length-le 8 a, length-pack_triple u)

pub length-ptr_int : (q : Ptr ℕ) → length (ptr_bytes (le sizeof_int) q) ≡ l_get_int_ptr_pkt_size q
unfolding ptr_bytes l_get_int_ptr_pkt_size
length-ptr_int null = length-le 8 0
length-ptr_int (at a v) =
    ground (arith, length-append (le 8 a) (le 4 v), length-le 8 a, length-le 4 v)

unpack_triple_lem :
    (u : Uint3) (rest : List ℕ) → TripleFits u → unpack_triple (pack_triple u ++ rest) ≡ some u
unfolding unpack_triple pack_triple TripleFits
unpack_triple_lem u rest (hx, hy, hz) =
    let z = le 4 u.z ++ rest in
    let yz = le 4 u.y ++ z in
    let xyz = le 4 u.x ++ yz in
    let eq : pack_triple u ++ rest ≡ xyz =
      append_assoc (le 4 u.x) (le 4 u.y ++ le 4 u.z) rest
      ∙ ap (λ l. le 4 u.x ++ l) (append_assoc (le 4 u.y) (le 4 u.z) rest) in
    let len : length (le 4 u.x ++ le 4 u.y) ≡ 8 =
      omega (arith, length-append (le 4 u.x) (le 4 u.y), length-le 4 u.x, length-le 4 u.y) in
    let d8 : drop 8 xyz ≡ z =
      ap (drop 8) (sym (append_assoc (le 4 u.x) (le 4 u.y) z))
      ∙ drop_append_of_length 8 (le 4 u.x ++ le 4 u.y) z len in
    ap unpack_triple eq
    ∙ ground (
      arith,
      un_le-le 4 u.x yz hx,
      drop-le 4 u.x yz,
      un_le-le 4 u.y z hy,
      d8,
      un_le-le 4 u.z rest hz,
    )

module _ (alloc : ℕ → Bool) (gives : (n : ℕ) → alloc n ≡ true) where
  pub l_unpack_uint3_ptr_lem :
      (q : Ptr Uint3) (rest : List ℕ)
      → PtrFits TripleFits q
      → l_unpack_uint3_ptr alloc (some (ptr_bytes pack_triple q ++ rest))
        ≡ some (record { value = sent q; offset = some (l_get_uint3_ptr_pkt_size q) })
  unfolding l_unpack_uint3_ptr PtrFits ptr_bytes sent l_get_uint3_ptr_pkt_size
  l_unpack_uint3_ptr_lem null rest h = ground (arith, un_le-le 8 0 rest (omega arith))
  l_unpack_uint3_ptr_lem (at a u) rest (h, k, f) =
      let tail = pack_triple u ++ rest in
      ap (λ l. l_unpack_uint3_ptr alloc (some l)) (append_assoc (le 8 a) (pack_triple u) rest)
      ∙ ground (arith, un_le-le 8 a tail k, drop-le 8 a tail, unpack_triple_lem u rest f, gives 12)

  pub l_unpack_dim3_ptr_lem :
      (q : Ptr Uint3) (rest : List ℕ)
      → PtrFits TripleFits q
      → l_unpack_dim3_ptr alloc (some (ptr_bytes pack_triple q ++ rest))
        ≡ some (record { value = sent q; offset = some (l_get_dim3_ptr_pkt_size q) })
  unfolding l_unpack_dim3_ptr PtrFits ptr_bytes sent l_get_dim3_ptr_pkt_size
  l_unpack_dim3_ptr_lem null rest h = ground (arith, un_le-le 8 0 rest (omega arith))
  l_unpack_dim3_ptr_lem (at a u) rest (h, k, f) =
      let tail = pack_triple u ++ rest in
      ap (λ l. l_unpack_dim3_ptr alloc (some l)) (append_assoc (le 8 a) (pack_triple u) rest)
      ∙ ground (arith, un_le-le 8 a tail k, drop-le 8 a tail, unpack_triple_lem u rest f, gives 12)

  pub l_unpack_int_ptr_lem :
      (q : Ptr ℕ) (rest : List ℕ)
      → PtrFits IntFits q
      → l_unpack_int_ptr alloc (some (ptr_bytes (le sizeof_int) q ++ rest))
        ≡ some (record { value = sent q; offset = some (l_get_int_ptr_pkt_size q) })
  unfolding l_unpack_int_ptr PtrFits IntFits ptr_bytes sent l_get_int_ptr_pkt_size
  l_unpack_int_ptr_lem null rest h = ground (arith, un_le-le 8 0 rest (omega arith))
  l_unpack_int_ptr_lem (at a v) rest (h, k, f) =
      let tail = le 4 v ++ rest in
      ap (λ l. l_unpack_int_ptr alloc (some l)) (append_assoc (le 8 a) (le 4 v) rest)
      ∙ ground (arith, un_le-le 8 a tail k, drop-le 8 a tail, un_le-le 4 v rest f, gives 4)
