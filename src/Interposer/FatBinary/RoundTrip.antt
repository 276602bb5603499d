-- ===== src/Interposer/FatBinary/RoundTrip.antt =====
-- interposer/libciutils.c: a fat binary is unpacked as it was packed.
use gpu_virtmem.Prelude.{
  ℕ, ◌+◌, ◌-◌, ◌^◌, ◌<◌, ◌≡◌, ◌≢◌, refl, ap, ◌∙◌, Bool, true, List, [], ◌∷◌, ◌++◌, Option, some,
  length, arith, append_assoc, append-nil, length-append, drop_append_of_length,
}
use gpu_virtmem.Interposer.Bytes.{le, length-le, un_le-le}
use gpu_virtmem.Interposer.Fields.{CharPtr}
use gpu_virtmem.Interposer.Fields.Laws.{StrFits}
use gpu_virtmem.Interposer.Calls.{word}
use gpu_virtmem.Interposer.Calls.Steps.{AllWrite, write_cons, write_nil, read_word_lem}
use gpu_virtmem.Interposer.FatBinary.{
  FatRec, FatCudaBinary, CacheNumEntries, is_set, is_code, is_debug, is_elf, l_get_size_dep,
  get_fat_rec_pkt_size,
}
use gpu_virtmem.Interposer.FatBinary.Pack.{l_pack_dep, pack_fat_binary}
use gpu_virtmem.Interposer.FatBinary.Unpack.{read_part, l_unpack_dep, unpack_fat_binary}
use gpu_virtmem.Interposer.FatBinary.Tables.{prefix, joined}
use gpu_virtmem.Interposer.FatBinary.Parts.{
  entries, part_bytes, Each-entries, length-entries, read_str_lem,
}
use gpu_virtmem.Interposer.FatBinary.Arrays.{
  CodeFits, code_bytes, l_unpack_ptx_lem, l_unpack_cubin_lem,
}
use gpu_virtmem.Interposer.FatBinary.Symbols.{symbol_bytes, spare, spare_le, l_unpack_symbol_lem}
use gpu_virtmem.Interposer.FatBinary.Debug.{l_unpack_debug_lem}
use gpu_virtmem.Interposer.FatBinary.Elf.{l_unpack_elf_lem}
use gpu_virtmem.Interposer.FatBinary.Layout.{
  RecFits, rec_parts, rec_bytes, sent_rec, counts, rec_length, length-rec_bytes,
  l_get_fat_rec_pkt_size_lem, l_pack_fat_binary_lem,
}

-- The parts with what follows them.
followed : List (List ℕ) → List ℕ → List ℕ
followed [] rest = rest
followed (b ∷ bs) rest = b ++ followed bs rest

joined-followed :
    (bs : List (List ℕ)) (rest : List ℕ) → joined (λ (b : List ℕ). b) bs ++ rest ≡ followed bs rest
unfolding joined followed
joined-followed [] rest = refl
joined-followed (b ∷ bs) rest =
    append_assoc b (joined (λ (b : List ℕ). b) bs) rest ∙ ap (λ l. b ++ l) (joined-followed bs rest)

rec-followed :
    (c : FatRec CharPtr) (rest : List ℕ) → rec_bytes c ++ rest ≡ followed (rec_parts c) rest
unfolding rec_bytes
rec-followed c rest = joined-followed (rec_parts c) rest

read_part_lem :
    {A R : Type 0} (o : Option (A × ℕ)) (a : A) (bs rest : List ℕ) (k : A → List ℕ → Option R)
    → o ≡ some (a, length bs)
    → read_part o (bs ++ rest) k ≡ k a rest
unfolding read_part
read_part_lem o a bs rest k e = ground (arith, e, drop_append_of_length (length bs) bs rest refl)

no_dependends :
    (offset : ℕ) (rest : List ℕ) → l_unpack_dep offset (le 4 0 ++ rest) ≡ some ([], offset)
unfolding l_unpack_dep
no_dependends offset rest = ground (arith, un_le-le 4 0 rest (omega arith))

module _ (alloc : ℕ → Bool) (gives : (n : ℕ) → alloc n ≡ true) where
  unpack_fat_binary_lem :
      (c : FatRec CharPtr) (rest : List ℕ)
      → RecFits c
      → unpack_fat_binary alloc (rec_bytes c ++ (le 4 0 ++ rest))
        ≡ some (
          record { body = sent_rec c; dependends = [] },
          rec_length c + length (part_bytes symbol_bytes (entries is_set c.imported)),
        )
  unfolding unpack_fat_binary rec_parts followed sent_rec
  unpack_fat_binary_lem c rest f =
      let tail = le 4 0 ++ rest in
      let imported = part_bytes symbol_bytes (entries is_set c.imported) in
      let src = rec_bytes c ++ tail in
      let eq : src ≡ followed (rec_parts c) tail = rec-followed c tail in
      let len = length-append (rec_bytes c) tail in
      let last =
        l_unpack_symbol_lem alloc gives (entries is_set c.imported) tail
          (length-entries is_set StrFits symbol_bytes c.imported f.imported)
          (Each-entries is_set StrFits symbol_bytes c.imported f.imported) in
      let ptx =
        l_unpack_ptx_lem alloc gives (entries is_code c.ptx) _
          (length-entries is_code CodeFits code_bytes c.ptx f.ptx)
          (Each-entries is_code CodeFits code_bytes c.ptx f.ptx) in
      let cubin =
        l_unpack_cubin_lem alloc gives (entries is_code c.cubin) _
          (length-entries is_code CodeFits code_bytes c.cubin f.cubin)
          (Each-entries is_code CodeFits code_bytes c.cubin f.cubin) in
      let exported =
        l_unpack_symbol_lem alloc gives (entries is_set c.exported) _
          (length-entries is_set StrFits symbol_bytes c.exported f.exported)
          (Each-entries is_set StrFits symbol_bytes c.exported f.exported) in
      ap (λ l. unpack_fat_binary alloc l) eq
      ∙ read_word_lem 8 c.magic _ _ f.magic
      ∙ read_word_lem 8 c.version _ _ f.version
      ∙ read_word_lem 8 c.gpu_info_version _ _ f.gpu_info_version
      ∙ read_word_lem 4 c.flags _ _ f.flags
      ∙ read_word_lem 4 c.characteristic _ _ f.characteristic
      ∙ read_str_lem alloc gives c.key _ _ f.key
      ∙ read_str_lem alloc gives c.ident _ _ f.ident
      ∙ read_str_lem alloc gives c.usage_mode _ _ f.usage_mode
      ∙ read_word_lem 8 c.debug_info _ _ f.debug_info
      ∙ read_part_lem _ _ _ _ _ ptx
      ∙ read_part_lem _ _ _ _ _ cubin
      ∙ read_part_lem _ _ _ _ _
          (l_unpack_debug_lem alloc gives (prefix is_debug c.debug) _ f.debug_few f.debug)
      ∙ read_part_lem _ _ _ _ _
          (l_unpack_elf_lem alloc gives (prefix is_elf c.elf) _ f.elf_few f.elf)
      ∙ read_part_lem _ _ _ _ _ exported
      ∙ ground (
        arith,
        last,
        drop_append_of_length (length imported) imported tail refl,
        no_dependends (length imported) rest,
        eq,
        len,
        length-append (le 4 0) rest,
        length-le 4 0,
        length-rec_bytes c f,
      )

fat_bytes : FatRec CharPtr → List ℕ
fat_bytes c = rec_bytes c ++ ((le 4 0 ++ []) ++ [])

no_dependends_size : l_get_size_dep [] ≡ some (4, 0)
unfolding l_get_size_dep
no_dependends_size = refl

no_dependends_packed : (p : ℕ) → p ≢ 0 → l_pack_dep p [] 0 ≡ some (le 4 0 ++ [])
unfolding l_pack_dep AllWrite
no_dependends_packed p h = ground (arith, write_cons (word 4 0) [] _ _ (λ q k. refl) write_nil p h)

get_fat_rec_pkt_size_lem :
    (c : FatRec CharPtr)
    → RecFits c
    → rec_length c < 2 ^ 32 - 12
    → get_fat_rec_pkt_size (record { body = c; dependends = [] })
      ≡ some (
        rec_length c + 4 + spare (entries is_set c.exported) + spare (entries is_set c.imported),
        counts c,
      )
unfolding get_fat_rec_pkt_size counts
get_fat_rec_pkt_size_lem c f l = ground (
  arith,
  l_get_fat_rec_pkt_size_lem c f,
  no_dependends_size,
  spare_le (entries is_set c.exported),
  spare_le (entries is_set c.imported),
)

pack_fat_binary_lem :
    (c : FatRec CharPtr) (p : ℕ)
    → RecFits c
    → p ≢ 0
    → pack_fat_binary p (record { body = c; dependends = [] }) (counts c) ≡ some (fat_bytes c)
unfolding pack_fat_binary counts fat_bytes AllWrite
pack_fat_binary_lem c p f h =
    write_cons _ _ _ _ (λ q k. l_pack_fat_binary_lem c q f k)
      (write_cons _ _ _ _ no_dependends_packed write_nil) p h

fat_bytes-append :
    (c : FatRec CharPtr) (rest : List ℕ) → fat_bytes c ++ rest ≡ rec_bytes c ++ (le 4 0 ++ rest)
unfolding fat_bytes
fat_bytes-append c rest =
    append_assoc (rec_bytes c) _ rest
    ∙ ap (λ l. rec_bytes c ++ (l ++ rest)) (append-nil _ ∙ append-nil (le 4 0))

length-fat_bytes : (c : FatRec CharPtr) → RecFits c → length (fat_bytes c) ≡ rec_length c + 4
unfolding fat_bytes
length-fat_bytes c f = omega (
  arith,
  length-append (rec_bytes c) ((le 4 0 ++ []) ++ []),
  length-append (le 4 0 ++ []) [],
  length-append (le 4 0) [],
  length-le 4 0,
  length-rec_bytes c f,
)

-- A fat binary without dependends is unpacked as it was packed: with memory on the server, numbers
-- of their C widths, terminated arrays, no ELF file of size 0 and less than 4 GB, it is packed to the
-- bytes that were counted, less 4 for each array without a symbol, and unpacking these bytes, whatever
-- follows them, gives all its fields: a string that is empty as NULL, an array of code with a
-- terminator in any case, the other arrays and lists unless they are empty. The number of bytes that
-- unpacking returns is that of the packet less the 4 of the dependends and once more that of the
-- imported symbols.
pub fat_binary_round_trip :
    (alloc : ℕ → Bool) (c : FatRec CharPtr) (p : ℕ) (rest : List ℕ)
    → ((n : ℕ) → alloc n ≡ true)
    → p ≢ 0
    → RecFits c
    → rec_length c < 2 ^ 32 - 12
    → let b : FatCudaBinary CharPtr = record { body = c; dependends = [] } in
      (size : ℕ) × (cache : CacheNumEntries) × (bs : List ℕ) × (get_fat_rec_pkt_size b
        ≡ some (size, cache))
      × (pack_fat_binary p b cache ≡ some bs)
      × (length bs + spare (entries is_set c.exported) + spare (entries is_set c.imported) ≡ size)
      × (unpack_fat_binary alloc (bs ++ rest)
          ≡ some (
            record { body = sent_rec c; dependends = [] },
            length bs - 4 + length (part_bytes symbol_bytes (entries is_set c.imported)),
          ))
fat_binary_round_trip alloc c p rest gives h f l =
    let n = length-fat_bytes c f in
    (
      rec_length c + 4 + spare (entries is_set c.exported) + spare (entries is_set c.imported),
      counts c,
      fat_bytes c,
      get_fat_rec_pkt_size_lem c f l,
      pack_fat_binary_lem c p f h,
      omega (arith, n),
      ap (unpack_fat_binary alloc) (fat_bytes-append c rest)
          ∙ unpack_fat_binary_lem alloc gives c rest f
          ∙ ground (arith, n),
    )
