-- ===== src/Interposer/FatBinary/Arrays.antt =====
-- interposer/libciutils.c: the arrays of code in the packet of a fat binary.
use gpu_virtmem.Prelude.{
  Each, ◌≢◌, ℕ, ◌+◌, ◌*◌, ◌%◌, ◌^◌, ◌<◌, ◌≡◌, ap, ◌∙◌, Bool, true, List, [], ◌∷◌, ◌++◌, map, Option,
  none, some, length, arith, append_assoc, length-append,
}
use gpu_virtmem.Interposer.Fields.{CharPtr}
use gpu_virtmem.Interposer.Fields.Laws.{
  StrFits, str_bytes, sent_str, l_pack_str_lem, length-str_bytes,
}
use gpu_virtmem.Interposer.Calls.Steps.{AllWrite, write_cons, write_nil}
use gpu_virtmem.Interposer.FatBinary.{
  NamedCode, is_code, code_size, l_get_size_ptx, l_get_size_cubin,
}
use gpu_virtmem.Interposer.FatBinary.Pack.{l_pack_ptx, l_pack_cubin, code_fields}
use gpu_virtmem.Interposer.FatBinary.Unpack.{
  Received, next_code, no_code, l_unpack_ptx, l_unpack_cubin,
}
use gpu_virtmem.Interposer.FatBinary.Tables.{prefix, table_size_lem}
use gpu_virtmem.Interposer.FatBinary.Parts.{
  pack_part_lem, entries, TableFits, part_bytes, length-part_bytes, un_le-part_bytes, joined-nil,
  unpack_part_lem, read_str_lem, array_of_lem,
}

unfoldable pub CodeFits : NamedCode CharPtr → Type 0
CodeFits e = StrFits e.gpu_profile_name × StrFits e.code

unfoldable pub code_bytes : NamedCode CharPtr → List ℕ
code_bytes e = str_bytes e.gpu_profile_name ++ (str_bytes e.code ++ [])

unfoldable pub sent_code : NamedCode CharPtr → NamedCode Received
sent_code e = record { gpu_profile_name = sent_str e.gpu_profile_name; code = sent_str e.code }

pub length-code_bytes : (e : NamedCode CharPtr) → CodeFits e → length (code_bytes e) ≡ code_size e
unfolding CodeFits code_bytes code_size
length-code_bytes e (f, g) = omega (
  arith,
  length-append (str_bytes e.gpu_profile_name) (str_bytes e.code ++ []),
  length-append (str_bytes e.code) [],
  length-str_bytes e.gpu_profile_name f,
  length-str_bytes e.code g,
)

pub code_fields_lem : (e : NamedCode CharPtr) → CodeFits e → AllWrite (code_fields e) (code_bytes e)
unfolding CodeFits code_bytes code_fields
code_fields_lem e (f, g) =
    write_cons _ _ _ _ (λ p h. l_pack_str_lem p e.gpu_profile_name h f)
      (write_cons _ _ _ _ (λ p h. l_pack_str_lem p e.code h g) write_nil)

module _ (alloc : ℕ → Bool) (gives : (n : ℕ) → alloc n ≡ true) where
  next_code_lem :
      (e : NamedCode CharPtr) (rest : List ℕ)
      → CodeFits e
      → next_code alloc (code_bytes e ++ rest) ≡ some (sent_code e, rest)
  unfolding next_code CodeFits code_bytes sent_code
  next_code_lem e rest (f, g) =
      let a = str_bytes e.gpu_profile_name in
      let b = str_bytes e.code in
      ap (next_code alloc)
        (append_assoc a (b ++ []) rest ∙ ap (λ l. a ++ l) (append_assoc b [] rest))
      ∙ read_str_lem alloc gives e.gpu_profile_name (b ++ rest) _ f
      ∙ read_str_lem alloc gives e.code rest _ g

  pub l_unpack_ptx_lem :
      (es : List (NamedCode CharPtr)) (rest : List ℕ)
      → length es < 2 ^ 31
      → Each CodeFits es
      → l_unpack_ptx alloc (part_bytes code_bytes es ++ rest)
        ≡ some (map sent_code es ++ (no_code ∷ []), length (part_bytes code_bytes es))
  unfolding l_unpack_ptx
  l_unpack_ptx_lem es rest h f = ground (
    arith,
    un_le-part_bytes code_bytes es rest h,
    gives (length es * 16 + 16),
    unpack_part_lem CodeFits code_bytes sent_code (next_code alloc) no_code es rest next_code_lem f,
  )

  pub l_unpack_cubin_lem :
      (es : List (NamedCode CharPtr)) (rest : List ℕ)
      → length es < 2 ^ 31
      → Each CodeFits es
      → l_unpack_cubin alloc (part_bytes code_bytes es ++ rest)
        ≡ some (map sent_code es ++ (no_code ∷ []), length (part_bytes code_bytes es))
  unfolding l_unpack_cubin
  l_unpack_cubin_lem es rest h f = ground (
    arith,
    un_le-part_bytes code_bytes es rest h,
    array_of_lem alloc gives (length es) 16 h,
    unpack_part_lem CodeFits code_bytes sent_code (next_code alloc) no_code es rest next_code_lem f,
  )

-- `l_getSize__cudaFatPtxEntry` and its kin count what is written.
pub l_get_size_ptx_lem :
    (o : Option (List (NamedCode CharPtr)))
    → TableFits is_code CodeFits o
    → l_get_size_ptx o
      ≡ some
          (length (part_bytes code_bytes (entries is_code o)) % 2 ^ 32, length (entries is_code o))
unfolding l_get_size_ptx entries TableFits
l_get_size_ptx_lem none f = ground (arith, length-part_bytes code_bytes [], joined-nil code_bytes)
l_get_size_ptx_lem (some es) (t, n, f) = ground (
  arith,
  table_size_lem is_code CodeFits code_bytes code_size es length-code_bytes t f,
  length-part_bytes code_bytes (prefix is_code es),
)

pub l_get_size_cubin_lem :
    (o : Option (List (NamedCode CharPtr)))
    → TableFits is_code CodeFits o
    → l_get_size_cubin o
      ≡ some
          (length (part_bytes code_bytes (entries is_code o)) % 2 ^ 32, length (entries is_code o))
unfolding l_get_size_cubin l_get_size_ptx
l_get_size_cubin_lem none f = l_get_size_ptx_lem none f
l_get_size_cubin_lem (some es) f = l_get_size_ptx_lem (some es) f

pub l_pack_ptx_lem :
    (p : ℕ) (o : Option (List (NamedCode CharPtr)))
    → p ≢ 0
    → TableFits is_code CodeFits o
    → l_pack_ptx p o (length (entries is_code o)) ≡ some (part_bytes code_bytes (entries is_code o))
unfolding l_pack_ptx
l_pack_ptx_lem p o h f =
    pack_part_lem is_code CodeFits code_bytes code_fields p o h code_fields_lem f

pub l_pack_cubin_lem :
    (p : ℕ) (o : Option (List (NamedCode CharPtr)))
    → p ≢ 0
    → TableFits is_code CodeFits o
    → l_pack_cubin p o (length (entries is_code o))
      ≡ some (part_bytes code_bytes (entries is_code o))
unfolding l_pack_cubin
l_pack_cubin_lem p o h f =
    pack_part_lem is_code CodeFits code_bytes code_fields p o h code_fields_lem f
