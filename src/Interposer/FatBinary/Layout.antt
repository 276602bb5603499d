-- ===== src/Interposer/FatBinary/Layout.antt =====
-- interposer/libciutils.c: the packet of a fat binary without dependends, and how long it is.
use gpu_virtmem.Prelude.{
  Each, ℕ, ◌+◌, ◌%◌, ◌^◌, ◌<◌, ◌≡◌, ◌≢◌, refl, List, [], ◌∷◌, ◌++◌, map, some, length, arith,
}
use gpu_virtmem.Interposer.Bytes.{le, length-le}
use gpu_virtmem.Interposer.Fields.{CharPtr, l_get_string_pkt_size}
use gpu_virtmem.Interposer.Fields.Laws.{
  StrFits, str_bytes, sent_str, l_pack_str_lem, length-str_bytes,
}
use gpu_virtmem.Interposer.Calls.Steps.{AllWrite, write_cons, write_nil, length-field}
use gpu_virtmem.Interposer.FatBinary.{
  FatRec, CacheNumEntries, is_set, is_code, is_debug, is_elf, l_get_fat_rec_pkt_size,
}
use gpu_virtmem.Interposer.FatBinary.Pack.{l_pack_fat_binary}
use gpu_virtmem.Interposer.FatBinary.Unpack.{Received, no_code, no_debug, no_elf}
use gpu_virtmem.Interposer.FatBinary.Tables.{prefix, joined}
use gpu_virtmem.Interposer.FatBinary.Parts.{entries, TableFits, part_bytes, closed}
use gpu_virtmem.Interposer.FatBinary.Arrays.{
  CodeFits, code_bytes, sent_code, l_pack_ptx_lem, l_pack_cubin_lem, l_get_size_ptx_lem,
  l_get_size_cubin_lem,
}
use gpu_virtmem.Interposer.FatBinary.Symbols.{
  symbol_bytes, sent_symbols, spare, l_pack_symbol_lem, l_get_size_symbol_lem,
}
use gpu_virtmem.Interposer.FatBinary.Debug.{
  DebugFits, debug_bytes, sent_debug, l_get_size_debug_lem, l_pack_debug_lem,
}
use gpu_virtmem.Interposer.FatBinary.Elf.{
  ElfFits, elf_bytes, sent_elf, l_get_size_elf_lem, l_pack_elf_lem,
}

-- The numbers have the widths of their C types, the arrays have terminators, and the ELF files are
-- not empty.
pub record RecFits (c : FatRec CharPtr) : Type 0 where
  pub magic : c.magic < 2 ^ 64
  pub version : c.version < 2 ^ 64
  pub gpu_info_version : c.gpu_info_version < 2 ^ 64
  pub flags : c.flags < 2 ^ 32
  pub characteristic : c.characteristic < 2 ^ 32
  pub key : StrFits c.key
  pub ident : StrFits c.ident
  pub usage_mode : StrFits c.usage_mode
  pub debug_info : c.debug_info < 2 ^ 64
  pub ptx : TableFits is_code CodeFits c.ptx
  pub cubin : TableFits is_code CodeFits c.cubin
  pub debug : Each DebugFits (prefix is_debug c.debug)
  pub debug_few : length (prefix is_debug c.debug) < 2 ^ 31
  pub elf : Each ElfFits (prefix is_elf c.elf)
  pub elf_few : length (prefix is_elf c.elf) < 2 ^ 31
  pub exported : TableFits is_set StrFits c.exported
  pub imported : TableFits is_set StrFits c.imported

-- The parts of the packet, one after the other.
unfoldable pub rec_parts : FatRec CharPtr → List (List ℕ)
rec_parts c =
    le 8 c.magic
    ∷ le 8 c.version
    ∷ le 8 c.gpu_info_version
    ∷ le 4 c.flags
    ∷ le 4 c.characteristic
    ∷ str_bytes c.key
    ∷ str_bytes c.ident
    ∷ str_bytes c.usage_mode
    ∷ le 8 c.debug_info
    ∷ part_bytes code_bytes (entries is_code c.ptx)
    ∷ part_bytes code_bytes (entries is_code c.cubin)
    ∷ part_bytes debug_bytes (prefix is_debug c.debug)
    ∷ part_bytes elf_bytes (prefix is_elf c.elf)
    ∷ part_bytes symbol_bytes (entries is_set c.exported)
    ∷ part_bytes symbol_bytes (entries is_set c.imported)
    ∷ []

unfoldable pub rec_bytes : FatRec CharPtr → List ℕ
rec_bytes c = joined (λ (b : List ℕ). b) (rec_parts c)

-- What arrives: a string that is empty as NULL, an array of code in any case with a terminator, the
-- other arrays and lists with one unless there is nothing in them.
unfoldable pub sent_rec : FatRec CharPtr → FatRec Received
sent_rec c = record {
  magic = c.magic;
  version = c.version;
  gpu_info_version = c.gpu_info_version;
  key = sent_str c.key;
  ident = sent_str c.ident;
  usage_mode = sent_str c.usage_mode;
  ptx = some (map sent_code (entries is_code c.ptx) ++ (no_code ∷ []));
  cubin = some (map sent_code (entries is_code c.cubin) ++ (no_code ∷ []));
  debug = closed no_debug (map sent_debug (prefix is_debug c.debug));
  debug_info = c.debug_info;
  flags = c.flags;
  exported = sent_symbols (entries is_set c.exported);
  imported = sent_symbols (entries is_set c.imported);
  characteristic = c.characteristic;
  elf = closed no_elf (map sent_elf (prefix is_elf c.elf));
}

unfoldable pub counts : FatRec CharPtr → CacheNumEntries
counts c = record {
  nptxs = length (entries is_code c.ptx);
  ncubs = length (entries is_code c.cubin);
  ndebs = length (prefix is_debug c.debug);
  ndeps = 0;
  nelves = length (prefix is_elf c.elf);
  nexps = length (entries is_set c.exported);
  nimps = length (entries is_set c.imported);
}

-- How long the parts are together.
unfoldable pub rec_length : FatRec CharPtr → ℕ
rec_length c =
    (8 + 8 + 8 + 4 + 4)
    + l_get_string_pkt_size c.key
    + l_get_string_pkt_size c.ident
    + l_get_string_pkt_size c.usage_mode
    + 8
    + length (part_bytes code_bytes (entries is_code c.ptx))
    + length (part_bytes code_bytes (entries is_code c.cubin))
    + length (part_bytes debug_bytes (prefix is_debug c.debug))
    + length (part_bytes elf_bytes (prefix is_elf c.elf))
    + length (part_bytes symbol_bytes (entries is_set c.exported))
    + length (part_bytes symbol_bytes (entries is_set c.imported))

pub length-rec_bytes : (c : FatRec CharPtr) → RecFits c → length (rec_bytes c) ≡ rec_length c
unfolding rec_bytes rec_parts joined rec_length
length-rec_bytes c f =
    let ptx = part_bytes code_bytes (entries is_code c.ptx) in
    let cubin = part_bytes code_bytes (entries is_code c.cubin) in
    let debug = part_bytes debug_bytes (prefix is_debug c.debug) in
    let elf = part_bytes elf_bytes (prefix is_elf c.elf) in
    let exported = part_bytes symbol_bytes (entries is_set c.exported) in
    let imported = part_bytes symbol_bytes (entries is_set c.imported) in
    omega (
      arith,
      length-field _ _ _ _ (length-le 8 c.magic) (
          length-field _ _ _ _ (length-le 8 c.version) (
            length-field _ _ _ _ (length-le 8 c.gpu_info_version) (
              length-field _ _ _ _ (length-le 4 c.flags) (
                length-field _ _ _ _ (length-le 4 c.characteristic) (
                  length-field _ _ _ _ (length-str_bytes c.key f.key) (
                    length-field _ _ _ _ (length-str_bytes c.ident f.ident) (
                      length-field _ _ _ _ (length-str_bytes c.usage_mode f.usage_mode) (
                        length-field _ _ _ _ (length-le 8 c.debug_info) (
                          length-field ptx _ _ _ refl (
                            length-field cubin _ _ _ refl (
                              length-field debug _ _ _ refl (
                                length-field elf _ _ _ refl (
                                  length-field exported _ _ _ refl
                                    (length-field imported [] _ 0 refl refl)))))))))))))),
    )

pub l_get_fat_rec_pkt_size_lem :
    (c : FatRec CharPtr)
    → RecFits c
    → l_get_fat_rec_pkt_size c
      ≡ some (
        (rec_length c + spare (entries is_set c.exported) + spare (entries is_set c.imported))
            % 2 ^ 32,
        counts c,
      )
unfolding l_get_fat_rec_pkt_size counts rec_length
l_get_fat_rec_pkt_size_lem c f = ground (
  arith,
  l_get_size_ptx_lem c.ptx f.ptx,
  l_get_size_cubin_lem c.cubin f.cubin,
  l_get_size_debug_lem c.debug f.debug,
  l_get_size_elf_lem c.elf f.elf,
  l_get_size_symbol_lem c.exported f.exported,
  l_get_size_symbol_lem c.imported f.imported,
)

pub l_pack_fat_binary_lem :
    (c : FatRec CharPtr) (p : ℕ)
    → RecFits c
    → p ≢ 0
    → l_pack_fat_binary p c (counts c) ≡ some (rec_bytes c)
unfolding l_pack_fat_binary counts rec_bytes rec_parts joined AllWrite
l_pack_fat_binary_lem c p f h =
    write_cons _ _ _ _ (λ q k. refl)
      (write_cons _ _ _ _ (λ q k. refl)
        (write_cons _ _ _ _ (λ q k. refl)
          (write_cons _ _ _ _ (λ q k. refl)
            (write_cons _ _ _ _ (λ q k. refl)
              (write_cons _ _ _ _ (λ q k. l_pack_str_lem q c.key k f.key)
                (write_cons _ _ _ _ (λ q k. l_pack_str_lem q c.ident k f.ident)
                  (write_cons _ _ _ _ (λ q k. l_pack_str_lem q c.usage_mode k f.usage_mode)
                    (write_cons _ _ _ _ (λ q k. refl)
                      (write_cons _ _ _ _ (λ q k. l_pack_ptx_lem q c.ptx k f.ptx)
                        (write_cons _ _ _ _ (λ q k. l_pack_cubin_lem q c.cubin k f.cubin)
                          (write_cons _ _ _ _ (λ q k. l_pack_debug_lem q c.debug k f.debug)
                            (write_cons _ _ _ _ (λ q k. l_pack_elf_lem q c.elf k f.elf)
                              (write_cons _ _ _ _
                                (λ q k. l_pack_symbol_lem q c.exported k f.exported)
                                (write_cons _ _ _ _
                                  (λ q k. l_pack_symbol_lem q c.imported k f.imported)
                                  write_nil))))))))))))))
      p h
