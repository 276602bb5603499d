-- ===== src/Interposer/FatBinary/Second/RoundTrip.antt =====
-- interposer/libciutils.c: a fat binary of CUDA 4 is unpacked as it was packed.
use gpu_virtmem.Prelude.{
  ℕ, ◌+◌, ◌%◌, ◌^◌, ◌<◌, ◌≤◌, ◌≡◌, ◌≢◌, refl, ap, ◌∙◌, Bool, true, List, [], ◌++◌, Option, some,
  length, take, arith, append_assoc, append-nil, length-append, length-take, take_append_of_length,
  drop_append_of_length,
}
use gpu_virtmem.Interposer.Bytes.{le, length-le}
use gpu_virtmem.Interposer.Fields.{CharPtr, l_get_string_pkt_size}
use gpu_virtmem.Interposer.Fields.Laws.{
  StrFits, str_bytes, sent_str, l_pack_str_lem, length-str_bytes,
}
use gpu_virtmem.Interposer.Calls.Steps.{
  AllWrite, write_cons, write_nil, read_word_lem, length-field,
}
use gpu_virtmem.Interposer.FatBinary.{CacheNumEntries}
use gpu_virtmem.Interposer.FatBinary.Unpack.{Received}
use gpu_virtmem.Interposer.FatBinary.Parts.{read_str_lem}
use gpu_virtmem.Interposer.FatBinary.Second.{
  FatCudaBinary2, l_get_fat_rec_pkt_size_4, get_fat_rec_pkt_size_4, binary_field,
  l_pack_fat_binary_4, pack_fat_binary_4, read_binary, with_memory, unpack_fat_binary_4,
}

-- The numbers have the widths of their C types, and the binary is there.
pub record Binary2Fits (c : FatCudaBinary2 CharPtr) : Type 0 where
  pub magic : c.magic < 2 ^ 32
  pub version : c.version < 2 ^ 32
  pub header_magic : c.fatbin_data.magic < 2 ^ 32
  pub header_version : c.fatbin_data.version < 2 ^ 32
  pub len : c.fatbin_data.length < 2 ^ 64
  pub base : c.fatbin_data.length ≤ length c.fatbin_data.base
  pub f : StrFits c.f

unfoldable pub binary2_bytes : FatCudaBinary2 CharPtr → List ℕ → List ℕ
binary2_bytes c rest =
    le 4 c.magic
    ++ (le 4 c.version
        ++ (le 4 c.fatbin_data.magic
            ++ (le 4 c.fatbin_data.version
                ++ (le 8 c.fatbin_data.length
                    ++ (take c.fatbin_data.length c.fatbin_data.base ++ (str_bytes c.f ++ rest))))))

-- What arrives: all fields, and the binary without what lies behind it.
unfoldable pub sent_binary2 : FatCudaBinary2 CharPtr → FatCudaBinary2 Received
sent_binary2 c = record {
  magic = c.magic;
  version = c.version;
  fatbin_data = record c.fatbin_data { base = take c.fatbin_data.length c.fatbin_data.base };
  f = sent_str c.f;
}

length-base :
    (c : FatCudaBinary2 CharPtr)
    → Binary2Fits c
    → length (take c.fatbin_data.length c.fatbin_data.base) ≡ c.fatbin_data.length
length-base c f = omega (arith, length-take c.fatbin_data.length c.fatbin_data.base, f.base)

length-binary2_bytes :
    (c : FatCudaBinary2 CharPtr) (rest : List ℕ)
    → Binary2Fits c
    → length (binary2_bytes c rest)
      ≡ 24 + c.fatbin_data.length + l_get_string_pkt_size c.f + length rest
unfolding binary2_bytes
length-binary2_bytes c rest f = omega (
  arith,
  length-field _ _ _ _ (length-le 4 c.magic) (
      length-field _ _ _ _ (length-le 4 c.version) (
        length-field _ _ _ _ (length-le 4 c.fatbin_data.magic) (
          length-field _ _ _ _ (length-le 4 c.fatbin_data.version) (
            length-field _ _ _ _ (length-le 8 c.fatbin_data.length) (
              length-field _ _ _ _ (length-base c f)
                (length-field _ rest _ _ (length-str_bytes c.f f.f) refl)))))),
)

binary_field_lem :
    (c : FatCudaBinary2 CharPtr) (p : ℕ)
    → Binary2Fits c
    → binary_field c.fatbin_data p ≡ some (take c.fatbin_data.length c.fatbin_data.base)
unfolding binary_field
binary_field_lem c p f = ground (arith, f.base)

l_pack_fat_binary_4_lem :
    (c : FatCudaBinary2 CharPtr) (p : ℕ) (cache : CacheNumEntries)
    → Binary2Fits c
    → p ≢ 0
    → l_pack_fat_binary_4 p c cache ≡ some (binary2_bytes c [])
unfolding l_pack_fat_binary_4 binary2_bytes AllWrite
l_pack_fat_binary_4_lem c p cache f h =
    write_cons _ _ _ _ (λ q k. refl)
      (write_cons _ _ _ _ (λ q k. refl)
        (write_cons _ _ _ _ (λ q k. refl)
          (write_cons _ _ _ _ (λ q k. refl)
            (write_cons _ _ _ _ (λ q k. refl)
              (write_cons _ _ _ _ (λ q k. binary_field_lem c q f)
                (write_cons _ _ _ _ (λ q k. l_pack_str_lem q c.f k f.f) write_nil))))))
      p h

pack_fat_binary_4_lem :
    (c : FatCudaBinary2 CharPtr) (p : ℕ) (cache : CacheNumEntries)
    → Binary2Fits c
    → p ≢ 0
    → pack_fat_binary_4 p c cache ≡ some (binary2_bytes c [])
unfolding pack_fat_binary_4 AllWrite
pack_fat_binary_4_lem c p cache f h =
    write_cons _ _ _ _ (λ q k. l_pack_fat_binary_4_lem c q cache f k) write_nil p h
    ∙ ap some (append-nil (binary2_bytes c []))

read_binary_lem :
    {R : Type 0} (n : ℕ) (bs rest : List ℕ) (k : List ℕ → List ℕ → Option R)
    → length bs ≡ n
    → read_binary n (bs ++ rest) k ≡ k bs rest
unfolding read_binary
read_binary_lem n bs rest k h = ground (
  arith,
  length-append bs rest,
  take_append_of_length n bs rest h,
  drop_append_of_length n bs rest h,
)

with_memory_lem : {R : Type 0} (m : Bool) (r : Option R) → m ≡ true → with_memory m r ≡ r
unfolding with_memory
with_memory_lem m r h = ground (arith, h)

module _ (alloc : ℕ → Bool) (gives : (n : ℕ) → alloc n ≡ true) where
  unpack_fat_binary_4_lem :
      (c : FatCudaBinary2 CharPtr) (rest : List ℕ)
      → Binary2Fits c
      → unpack_fat_binary_4 alloc (binary2_bytes c rest)
        ≡ some (sent_binary2 c, 24 + c.fatbin_data.length + l_get_string_pkt_size c.f)
  unfolding unpack_fat_binary_4 binary2_bytes sent_binary2
  unpack_fat_binary_4_lem c rest f =
      let n = length-binary2_bytes c rest f in
      read_word_lem 4 c.magic _ _ f.magic
      ∙ read_word_lem 4 c.version _ _ f.version
      ∙ read_word_lem 4 c.fatbin_data.magic _ _ f.header_magic
      ∙ read_word_lem 4 c.fatbin_data.version _ _ f.header_version
      ∙ read_word_lem 8 c.fatbin_data.length _ _ f.len
      ∙ with_memory_lem _ _ (gives ((16 + c.fatbin_data.length) % 2 ^ 64))
      ∙ read_binary_lem c.fatbin_data.length _ _ _ (length-base c f)
      ∙ read_str_lem alloc gives c.f rest _ f.f
      ∙ ground (arith, n)

-- The rest of the packet, in the last place.
past : (a b rest c : List ℕ) → b ++ rest ≡ c → (a ++ b) ++ rest ≡ a ++ c
past a b rest c e = append_assoc a b rest ∙ ap (λ l. a ++ l) e

binary2_bytes-append :
    (c : FatCudaBinary2 CharPtr) (rest : List ℕ) → binary2_bytes c [] ++ rest ≡ binary2_bytes c rest
unfolding binary2_bytes
binary2_bytes-append c rest = past (le 4 c.magic) _ _ _ (
    past (le 4 c.version) _ _ _ (
      past (le 4 c.fatbin_data.magic) _ _ _ (
        past (le 4 c.fatbin_data.version) _ _ _ (
          past (le 8 c.fatbin_data.length) _ _ _ (
            past (take c.fatbin_data.length c.fatbin_data.base) _ _ _
              (past (str_bytes c.f) [] rest rest refl))))))

-- A fat binary of CUDA 4 is unpacked as it was packed: with memory on the server, numbers of their C
-- widths and a binary as long as its header says, it is packed to the bytes that were counted, up to a
-- multiple of 2 ^ 32, and unpacking these bytes, whatever follows them, gives its fields and its
-- binary, with NULL for an empty string, and returns their number.
pub fat_binary2_round_trip :
    (alloc : ℕ → Bool) (c : FatCudaBinary2 CharPtr) (p : ℕ) (rest : List ℕ)
    → ((n : ℕ) → alloc n ≡ true)
    → p ≢ 0
    → Binary2Fits c
    → let counted = get_fat_rec_pkt_size_4 c in
      (bs : List ℕ) × (pack_fat_binary_4 p c counted.1 ≡ some bs)
      × (length bs % 2 ^ 32 ≡ counted.0)
      × (unpack_fat_binary_4 alloc (bs ++ rest) ≡ some (sent_binary2 c, length bs))
unfolding get_fat_rec_pkt_size_4 l_get_fat_rec_pkt_size_4
fat_binary2_round_trip alloc c p rest gives h f =
    let n = length-binary2_bytes c [] f in
    (
      binary2_bytes c [],
      pack_fat_binary_4_lem c p _ f h,
      omega (arith, n),
      ap (unpack_fat_binary_4 alloc) (binary2_bytes-append c rest)
          ∙ unpack_fat_binary_4_lem alloc gives c rest f
          ∙ ground (arith, n),
    )
