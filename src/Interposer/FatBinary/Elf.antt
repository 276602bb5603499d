-- ===== src/Interposer/FatBinary/Elf.antt =====
-- interposer/libciutils.c: the list of ELF files in the packet of a fat binary.
use gpu_virtmem.Prelude.{
  Each, ltb, subst, Option-cases, ltb, take_append_of_length, length-take, take, ℕ, suc, ◌%◌, ◌^◌,
  ◌<◌, ◌≤◌, ◌≡◌, ◌≢◌, refl, sym, ap, ◌∙◌, inl, inr, Bool, true, false, ◌&&◌, List, [], ◌∷◌, ◌++◌,
  map, none, some, length, arith, Bool-cases, append_assoc, length-append, drop_append_of_length,
}
use gpu_virtmem.Interposer.Bytes.{le, length-le}
use gpu_virtmem.Interposer.Fields.{CharPtr}
use gpu_virtmem.Interposer.Fields.Laws.{
  StrFits, str_bytes, sent_str, l_pack_str_lem, length-str_bytes,
}
use gpu_virtmem.Interposer.Calls.Steps.{AllWrite, write_cons, write_nil, read_word_lem}
use gpu_virtmem.Interposer.FatBinary.{ElfEntry, is_elf, elf_size, l_get_size_elf}
use gpu_virtmem.Interposer.FatBinary.Pack.{elf_code, elf_fields, l_pack_elf}
use gpu_virtmem.Interposer.FatBinary.Unpack.{
  Received, l_unpack_chars, elf_entry, next_elf, no_elf, l_unpack_elf,
}
use gpu_virtmem.Interposer.FatBinary.Tables.{prefix, Each-live}
use gpu_virtmem.Interposer.FatBinary.Chains.{chain_size_lem, pack_chain_lem}
use gpu_virtmem.Interposer.FatBinary.Parts.{
  closed, part_bytes, length-part_bytes, un_le-part_bytes, joined-nil, unpack_part_lem,
  read_str_lem, array_of_lem,
}

-- The bytes behind `elf`.
unfoldable pub elf_file : ElfEntry CharPtr → List ℕ
elf_file e = elim e.elf [ none ↦ [] | some bs ↦ bs ]

-- There are as many bytes behind `elf` as the entry says, and not none.
unfoldable pub ElfFits : ElfEntry CharPtr → Type 0
ElfFits e =
    StrFits e.gpu_profile_name × (0 < e.size) × (e.size < 2 ^ 31) × (e.size ≤ length (elf_file e))

unfoldable pub elf_bytes : ElfEntry CharPtr → List ℕ
elf_bytes e = str_bytes e.gpu_profile_name ++ (le 4 e.size ++ (take e.size (elf_file e) ++ []))

unfoldable pub sent_elf : ElfEntry CharPtr → ElfEntry Received
sent_elf e = record {
  gpu_profile_name = sent_str e.gpu_profile_name;
  elf = some (take e.size (elf_file e));
  size = e.size;
}

length-elf_file : (e : ElfEntry CharPtr) → ElfFits e → length (take e.size (elf_file e)) ≡ e.size
unfolding ElfFits
length-elf_file e (f, z, b, m) = omega (arith, length-take e.size (elf_file e))

length-elf_bytes : (e : ElfEntry CharPtr) → ElfFits e → length (elf_bytes e) ≡ elf_size e
unfolding ElfFits elf_bytes elf_size
length-elf_bytes e (f, z, b, m) = omega (
  arith,
  length-append (str_bytes e.gpu_profile_name) (le 4 e.size ++ (take e.size (elf_file e) ++ [])),
  length-append (le 4 e.size) (take e.size (elf_file e) ++ []),
  length-append (take e.size (elf_file e)) [],
  length-le 4 e.size,
  length-str_bytes e.gpu_profile_name f,
  length-elf_file e (f, z, b, m),
)

no_file : (e : ElfEntry CharPtr) → ElfFits e → e.elf ≡ none → ⊥
unfolding ElfFits elf_file
no_file e (f, z, b, m) n =
    let none_there : length (elf_file e) ≡ 0 = ground (arith, n) in omega arith

file_fits : (e : ElfEntry CharPtr) (bs : List ℕ) → ElfFits e → e.elf ≡ some bs → e.size ≤ length bs
unfolding ElfFits elf_file
file_fits e bs (f, z, b, m) q =
    let there : elf_file e ≡ bs = ground (arith, q) in
    subst (λ l. e.size ≤ length l) {x = elf_file e} there m

elf_code_lem :
    (e : ElfEntry CharPtr) (p : ℕ) → ElfFits e → elf_code e p ≡ some (take e.size (elf_file e))
unfolding elf_code ElfFits elf_file
elf_code_lem e p (h, z, b, m) = elim (Option-cases e.elf) [
  | inl n ↦ absurd (no_file e (h, z, b, m) n)
  | inr (bs, q) ↦ ground (arith, q, z, file_fits e bs (h, z, b, m) q)
]

elf_fields_lem : (e : ElfEntry CharPtr) → ElfFits e → AllWrite (elf_fields e) (elf_bytes e)
unfolding elf_bytes elf_fields ElfFits
elf_fields_lem e f =
    write_cons _ _ _ _ (λ p k. l_pack_str_lem p e.gpu_profile_name k f.0)
      (write_cons _ _ _ _ (λ p k. refl) (write_cons _ _ _ _ (λ p k. elf_code_lem e p f) write_nil))

module _ (alloc : ℕ → Bool) (gives : (n : ℕ) → alloc n ≡ true) where
  elf_entry_lem :
      (e : ElfEntry CharPtr) (rest : List ℕ)
      → ElfFits e
      → elf_entry alloc (sent_str e.gpu_profile_name) e.size (take e.size (elf_file e) ++ rest)
        ≡ some (sent_elf e, rest)
  unfolding elf_entry l_unpack_chars sent_elf ElfFits
  elf_entry_lem e rest (h, z, b, m) =
      let file = take e.size (elf_file e) in
      let n = length-elf_file e (h, z, b, m) in
      ground (
        arith,
        z,
        b,
        n,
        gives e.size,
        length-append file rest,
        take_append_of_length e.size file rest n,
        drop_append_of_length e.size file rest n,
      )

  next_elf_lem :
      (e : ElfEntry CharPtr) (rest : List ℕ)
      → ElfFits e
      → next_elf alloc (elf_bytes e ++ rest) ≡ some (sent_elf e, rest)
  unfolding next_elf elf_bytes ElfFits
  next_elf_lem e rest f =
      let a = str_bytes e.gpu_profile_name in
      let b = le 4 e.size in
      let c = take e.size (elf_file e) in
      ap (next_elf alloc) (
        append_assoc a (b ++ (c ++ [])) rest
        ∙ ap (λ l. a ++ l)
            (append_assoc b (c ++ []) rest ∙ ap (λ l. b ++ l) (append_assoc c [] rest)))
      ∙ read_str_lem alloc gives e.gpu_profile_name (b ++ (c ++ rest)) _ f.0
      ∙ read_word_lem 4 e.size (c ++ rest) _ (omega arith)
      ∙ elf_entry_lem e rest f

  pub l_unpack_elf_lem :
      (es : List (ElfEntry CharPtr)) (rest : List ℕ)
      → length es < 2 ^ 31
      → Each ElfFits es
      → l_unpack_elf alloc (part_bytes elf_bytes es ++ rest)
        ≡ some (closed no_elf (map sent_elf es), length (part_bytes elf_bytes es))
  unfolding l_unpack_elf closed
  l_unpack_elf_lem [] rest h f = ground (
    arith,
    un_le-part_bytes elf_bytes [] rest h,
    length-part_bytes elf_bytes [],
    joined-nil elf_bytes,
  )
  l_unpack_elf_lem (e ∷ es) rest h f = ground (
    arith,
    un_le-part_bytes elf_bytes (e ∷ es) rest h,
    array_of_lem alloc gives (suc (length es)) 32 h,
    unpack_part_lem ElfFits elf_bytes sent_elf (next_elf alloc) no_elf (e ∷ es) rest next_elf_lem f,
  )

-- No entry in front of the end of the list has size 0, so that it is counted as it is written.
counted_elf : ElfEntry CharPtr → Bool
counted_elf e = is_elf e && ltb 0 e.size

same_prefix :
    (es : List (ElfEntry CharPtr))
    → Each ElfFits (prefix is_elf es)
    → prefix counted_elf es ≡ prefix is_elf es
unfolding prefix ElfFits counted_elf
same_prefix [] f = refl
same_prefix (e ∷ es) f = elim (Bool-cases (is_elf e)) [
  | inl l ↦
      let ((h, z, b, m), g) = Each-live is_elf ElfFits elf_bytes e es l f in
      let c : counted_elf e ≡ true = ground (arith, l, z) in ground (arith, c, l, same_prefix es g)
  | inr l ↦ let c : counted_elf e ≡ false = ground (arith, l) in ground (arith, c, l)
]

pub l_get_size_elf_lem :
    (es : List (ElfEntry CharPtr))
    → Each ElfFits (prefix is_elf es)
    → l_get_size_elf es
      ≡ (length (part_bytes elf_bytes (prefix is_elf es)) % 2 ^ 32, length (prefix is_elf es))
unfolding l_get_size_elf counted_elf
l_get_size_elf_lem es f =
    let same = same_prefix es f in
    let each = subst (Each ElfFits) {x = prefix is_elf es} (sym same) f in
    ground (
      arith,
      chain_size_lem counted_elf ElfFits elf_bytes elf_size es length-elf_bytes each,
      same,
      length-part_bytes elf_bytes (prefix is_elf es),
    )

pub l_pack_elf_lem :
    (p : ℕ) (es : List (ElfEntry CharPtr))
    → p ≢ 0
    → Each ElfFits (prefix is_elf es)
    → l_pack_elf p es (length (prefix is_elf es)) ≡ some (part_bytes elf_bytes (prefix is_elf es))
unfolding l_pack_elf part_bytes
l_pack_elf_lem p es h f = pack_chain_lem is_elf ElfFits elf_bytes elf_fields p es h elf_fields_lem f
