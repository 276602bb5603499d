-- ===== src/Interposer/FatBinary/Debug.antt =====
-- interposer/libciutils.c: the list of debug entries in the packet of a fat binary.
use gpu_virtmem.Prelude.{
  Each, ℕ, suc, ◌%◌, ◌^◌, ◌<◌, ◌≡◌, ◌≢◌, refl, ap, ◌∙◌, Bool, true, List, [], ◌∷◌, ◌++◌, map, some,
  length, arith, append_assoc, length-append,
}
use gpu_virtmem.Interposer.Bytes.{le, length-le}
use gpu_virtmem.Interposer.Fields.{CharPtr}
use gpu_virtmem.Interposer.Fields.Laws.{
  StrFits, str_bytes, sent_str, l_pack_str_lem, length-str_bytes,
}
use gpu_virtmem.Interposer.Calls.Steps.{AllWrite, write_cons, write_nil, read_word_lem}
use gpu_virtmem.Interposer.FatBinary.{DebugEntry, is_debug, debug_size, l_get_size_debug}
use gpu_virtmem.Interposer.FatBinary.Pack.{debug_fields, l_pack_debug}
use gpu_virtmem.Interposer.FatBinary.Unpack.{Received, next_debug, no_debug, l_unpack_debug}
use gpu_virtmem.Interposer.FatBinary.Tables.{prefix}
use gpu_virtmem.Interposer.FatBinary.Chains.{chain_size_lem, pack_chain_lem}
use gpu_virtmem.Interposer.FatBinary.Parts.{
  closed, part_bytes, length-part_bytes, un_le-part_bytes, joined-nil, unpack_part_lem,
  read_str_lem, array_of_lem,
}

unfoldable pub DebugFits : DebugEntry CharPtr → Type 0
DebugFits e = StrFits e.gpu_profile_name × StrFits e.debug × (e.size < 2 ^ 32)

unfoldable pub debug_bytes : DebugEntry CharPtr → List ℕ
debug_bytes e = str_bytes e.gpu_profile_name ++ (str_bytes e.debug ++ (le 4 e.size ++ []))

unfoldable pub sent_debug : DebugEntry CharPtr → DebugEntry Received
sent_debug e = record {
  gpu_profile_name = sent_str e.gpu_profile_name;
  debug = sent_str e.debug;
  size = e.size;
}

length-debug_bytes : (e : DebugEntry CharPtr) → DebugFits e → length (debug_bytes e) ≡ debug_size e
unfolding DebugFits debug_bytes debug_size
length-debug_bytes e (f, g, h) = omega (
  arith,
  length-append (str_bytes e.gpu_profile_name) (str_bytes e.debug ++ (le 4 e.size ++ [])),
  length-append (str_bytes e.debug) (le 4 e.size ++ []),
  length-append (le 4 e.size) [],
  length-le 4 e.size,
  length-str_bytes e.gpu_profile_name f,
  length-str_bytes e.debug g,
)

debug_fields_lem :
    (e : DebugEntry CharPtr) → DebugFits e → AllWrite (debug_fields e) (debug_bytes e)
unfolding DebugFits debug_bytes debug_fields
debug_fields_lem e (f, g, h) =
    write_cons _ _ _ _ (λ p k. l_pack_str_lem p e.gpu_profile_name k f)
      (write_cons _ _ _ _ (λ p k. l_pack_str_lem p e.debug k g)
        (write_cons _ _ _ _ (λ p k. refl) write_nil))

module _ (alloc : ℕ → Bool) (gives : (n : ℕ) → alloc n ≡ true) where
  next_debug_lem :
      (e : DebugEntry CharPtr) (rest : List ℕ)
      → DebugFits e
      → next_debug alloc (debug_bytes e ++ rest) ≡ some (sent_debug e, rest)
  unfolding next_debug DebugFits debug_bytes sent_debug
  next_debug_lem e rest (f, g, h) =
      let a = str_bytes e.gpu_profile_name in
      let b = str_bytes e.debug in
      let c = le 4 e.size in
      ap (next_debug alloc) (
        append_assoc a (b ++ (c ++ [])) rest
        ∙ ap (λ l. a ++ l)
            (append_assoc b (c ++ []) rest ∙ ap (λ l. b ++ l) (append_assoc c [] rest)))
      ∙ read_str_lem alloc gives e.gpu_profile_name (b ++ (c ++ rest)) _ f
      ∙ read_str_lem alloc gives e.debug (c ++ rest) _ g
      ∙ read_word_lem 4 e.size rest _ h

  pub l_unpack_debug_lem :
      (es : List (DebugEntry CharPtr)) (rest : List ℕ)
      → length es < 2 ^ 31
      → Each DebugFits es
      → l_unpack_debug alloc (part_bytes debug_bytes es ++ rest)
        ≡ some (closed no_debug (map sent_debug es), length (part_bytes debug_bytes es))
  unfolding l_unpack_debug closed
  l_unpack_debug_lem [] rest h f = ground (
    arith,
    un_le-part_bytes debug_bytes [] rest h,
    length-part_bytes debug_bytes [],
    joined-nil debug_bytes,
  )
  l_unpack_debug_lem (e ∷ es) rest h f = ground (
    arith,
    un_le-part_bytes debug_bytes (e ∷ es) rest h,
    array_of_lem alloc gives (suc (length es)) 32 h,
    unpack_part_lem DebugFits debug_bytes sent_debug (next_debug alloc) no_debug (e ∷ es) rest
        next_debug_lem f,
  )

-- `l_getSize__cudaFatDebugEntry` and `l_packDebug`
pub l_get_size_debug_lem :
    (es : List (DebugEntry CharPtr))
    → Each DebugFits (prefix is_debug es)
    → l_get_size_debug es
      ≡ (length (part_bytes debug_bytes (prefix is_debug es)) % 2 ^ 32, length (prefix is_debug es))
unfolding l_get_size_debug
l_get_size_debug_lem es f = ground (
  arith,
  chain_size_lem is_debug DebugFits debug_bytes debug_size es length-debug_bytes f,
  length-part_bytes debug_bytes (prefix is_debug es),
)

pub l_pack_debug_lem :
    (p : ℕ) (es : List (DebugEntry CharPtr))
    → p ≢ 0
    → Each DebugFits (prefix is_debug es)
    → l_pack_debug p es (length (prefix is_debug es))
      ≡ some (part_bytes debug_bytes (prefix is_debug es))
unfolding l_pack_debug part_bytes
l_pack_debug_lem p es h f =
    pack_chain_lem is_debug DebugFits debug_bytes debug_fields p es h debug_fields_lem f
