-- ===== src/Interposer/FatBinary/Symbols.antt =====
-- interposer/libciutils.c: the arrays of symbols in the packet of a fat binary.
use gpu_virtmem.Prelude.{
  Each, ◌≤◌, ◌≢◌, ℕ, suc, ◌+◌, ◌%◌, ◌^◌, ◌<◌, ◌≡◌, refl, ap, ◌∙◌, Bool, true, List, [], ◌∷◌, ◌++◌,
  map, Option, none, some, length, arith, append_assoc, append-nil,
}
use gpu_virtmem.Interposer.Bytes.{null, at}
use gpu_virtmem.Interposer.Fields.{CharPtr, l_get_string_pkt_size}
use gpu_virtmem.Interposer.Fields.Laws.{
  l_pack_str_lem, StrFits, str_bytes, sent_str, length-str_bytes,
}
use gpu_virtmem.Interposer.FatBinary.{is_set, l_get_size_symbol}
use gpu_virtmem.Interposer.Calls.Steps.{write_cons, write_nil}
use gpu_virtmem.Interposer.FatBinary.Pack.{l_pack_symbol}
use gpu_virtmem.Interposer.FatBinary.Unpack.{Received, next_symbol, l_unpack_symbol}
use gpu_virtmem.Interposer.FatBinary.Tables.{prefix, prefix-live, prefix-dead, table_size_lem}
use gpu_virtmem.Interposer.FatBinary.Parts.{
  pack_part_lem, entries, TableFits, part_bytes, length-part_bytes, un_le-part_bytes, joined-nil,
  no_terminator, unpack_part_lem, read_str_lem, array_of_lem,
}

unfoldable pub symbol_bytes : CharPtr → List ℕ
symbol_bytes s = str_bytes s ++ []

unfoldable pub sent_symbols : List CharPtr → Option (List Received)
sent_symbols [] = none
sent_symbols (s ∷ ss) = some (map sent_str (s ∷ ss) ++ (none ∷ []))

-- The bytes that are counted beyond those written where there is no symbol.
unfoldable pub spare : List CharPtr → ℕ
spare [] = 4
spare (s ∷ ss) = 0

module _ (alloc : ℕ → Bool) (gives : (n : ℕ) → alloc n ≡ true) where
  next_symbol_lem :
      (s : CharPtr) (rest : List ℕ)
      → StrFits s
      → next_symbol alloc (symbol_bytes s ++ rest) ≡ some (sent_str s, rest)
  unfolding next_symbol symbol_bytes
  next_symbol_lem s rest f =
      ap (next_symbol alloc) (append_assoc (str_bytes s) [] rest)
      ∙ read_str_lem alloc gives s rest _ f

  pub l_unpack_symbol_lem :
      (es : List CharPtr) (rest : List ℕ)
      → length es < 2 ^ 31
      → Each StrFits es
      → l_unpack_symbol alloc (part_bytes symbol_bytes es ++ rest)
        ≡ some (sent_symbols es, length (part_bytes symbol_bytes es))
  unfolding l_unpack_symbol sent_symbols
  l_unpack_symbol_lem [] rest h f = ground (
    arith,
    un_le-part_bytes symbol_bytes [] rest h,
    length-part_bytes symbol_bytes [],
    joined-nil symbol_bytes,
  )
  l_unpack_symbol_lem (s ∷ ss) rest h f =
      let n = suc (length ss) in
      ground (
        arith,
        un_le-part_bytes symbol_bytes (s ∷ ss) rest h,
        array_of_lem alloc gives n 8 h,
        unpack_part_lem StrFits symbol_bytes sent_str (next_symbol alloc) none (s ∷ ss) rest
            next_symbol_lem f,
      )

length-symbol_bytes : (s : CharPtr) → StrFits s → length (symbol_bytes s) ≡ l_get_string_pkt_size s
unfolding symbol_bytes
length-symbol_bytes s f = ap length (append-nil (str_bytes s)) ∙ length-str_bytes s f

pub l_get_size_symbol_lem :
    (o : Option (List CharPtr))
    → TableFits is_set StrFits o
    → l_get_size_symbol o
      ≡ some (
        (length (part_bytes symbol_bytes (entries is_set o)) + spare (entries is_set o)) % 2 ^ 32,
        length (entries is_set o),
      )
unfolding l_get_size_symbol entries TableFits l_get_string_pkt_size spare is_set
l_get_size_symbol_lem none f =
    ground (arith, length-part_bytes symbol_bytes [], joined-nil symbol_bytes)
l_get_size_symbol_lem (some []) (t, n, f) = absurd (no_terminator is_set t)
l_get_size_symbol_lem (some (null ∷ ss)) (t, n, f) = ground (
  arith,
  prefix-dead is_set null ss refl,
  length-part_bytes symbol_bytes [],
  joined-nil symbol_bytes,
)
l_get_size_symbol_lem (some (at a cs ∷ ss)) (t, n, f) = ground (
  arith,
  prefix-live is_set (at a cs) ss refl,
  table_size_lem is_set StrFits symbol_bytes l_get_string_pkt_size (at a cs ∷ ss)
      length-symbol_bytes t f,
  length-part_bytes symbol_bytes (prefix is_set (at a cs ∷ ss)),
)

pub l_pack_symbol_lem :
    (p : ℕ) (o : Option (List CharPtr))
    → p ≢ 0
    → TableFits is_set StrFits o
    → l_pack_symbol p o (length (entries is_set o))
      ≡ some (part_bytes symbol_bytes (entries is_set o))
unfolding l_pack_symbol symbol_bytes
l_pack_symbol_lem p o h f =
    pack_part_lem is_set StrFits symbol_bytes _ p o h
      (λ s g. write_cons _ _ _ _ (λ q k. l_pack_str_lem q s k g) write_nil) f

pub spare_le : (es : List CharPtr) → spare es ≤ 4
unfolding spare
spare_le [] = omega arith
spare_le (s ∷ ss) = omega arith
