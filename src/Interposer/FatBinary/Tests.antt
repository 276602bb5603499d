-- ===== src/Interposer/FatBinary/Tests.antt =====
-- The round trips of two small binaries.
use gpu_virtmem.Prelude.{
  Each, ℕ, ◌≡◌, ◌+◌, ◌++◌, ◌%◌, refl, true, List, [], ◌∷◌, none, some, length, arith, ◌<◌, ◌^◌, ◌-◌,
}
use gpu_virtmem.Interposer.Bytes.{null, at, le}
use gpu_virtmem.Interposer.Fields.{CharPtr, l_get_string_pkt_size}
use gpu_virtmem.Interposer.Fields.Laws.{StrFits, str_bytes}
use gpu_virtmem.Interposer.FatBinary.{
  FatRec, FatCudaBinary, is_code, is_set, is_debug, is_elf, CacheNumEntries, get_fat_rec_pkt_size,
}
use gpu_virtmem.Interposer.FatBinary.Pack.{pack_fat_binary}
use gpu_virtmem.Interposer.FatBinary.Unpack.{unpack_fat_binary}
use gpu_virtmem.Interposer.FatBinary.Tables.{IsTerminated, prefix, joined}
use gpu_virtmem.Interposer.FatBinary.Parts.{TableFits, entries, part_bytes}
use gpu_virtmem.Interposer.FatBinary.Arrays.{CodeFits, code_bytes}
use gpu_virtmem.Interposer.FatBinary.Symbols.{symbol_bytes, spare}
use gpu_virtmem.Interposer.FatBinary.Debug.{DebugFits, debug_bytes}
use gpu_virtmem.Interposer.FatBinary.Elf.{ElfFits, elf_bytes, elf_file}
use gpu_virtmem.Interposer.FatBinary.Layout.{RecFits, rec_length, sent_rec}
use gpu_virtmem.Interposer.FatBinary.RoundTrip.{fat_binary_round_trip}
use gpu_virtmem.Interposer.FatBinary.Second.{
  FatCudaBinary2, get_fat_rec_pkt_size_4, pack_fat_binary_4, unpack_fat_binary_4,
}
use gpu_virtmem.Interposer.FatBinary.Second.RoundTrip.{
  Binary2Fits, sent_binary2, fat_binary2_round_trip,
}

abbrev one_rec : FatRec CharPtr
one_rec = record {
  magic = 518347265;
  version = 4;
  gpu_info_version = 1;
  key = at 5000 (107 ∷ 101 ∷ 121 ∷ []);
  ident = null;
  usage_mode = at 5100 [];
  ptx = some (
      record { gpu_profile_name = at 5200 (115 ∷ []); code = at 5300 (112 ∷ 113 ∷ []) }
      ∷ record { gpu_profile_name = null; code = null }
      ∷ []);
  cubin = none;
  debug =
      record { gpu_profile_name = at 5400 (100 ∷ []); debug = at 5500 (101 ∷ []); size = 3 } ∷ [];
  debug_info = 0;
  flags = 1;
  exported = none;
  imported = some (at 5600 (105 ∷ []) ∷ null ∷ []);
  characteristic = 2;
  elf = record { gpu_profile_name = at 5700 (102 ∷ []); elf = some (1 ∷ 2 ∷ []); size = 2 } ∷ [];
}

one_rec-RecFits : RecFits one_rec
unfolding TableFits IsTerminated Each prefix CodeFits DebugFits ElfFits elf_file StrFits is_code
    is_set is_debug is_elf
one_rec-RecFits = record {
  magic = omega arith;
  version = omega arith;
  gpu_info_version = omega arith;
  flags = omega arith;
  characteristic = omega arith;
  key = omega arith;
  ident = omega arith;
  usage_mode = omega arith;
  debug_info = omega arith;
  ptx = (omega arith, omega arith, ((omega arith, omega arith), tt));
  cubin = tt;
  debug = ((omega arith, omega arith, omega arith), tt);
  debug_few = omega arith;
  elf = ((omega arith, omega arith, omega arith, omega arith), tt);
  elf_few = omega arith;
  exported = tt;
  imported = (omega arith, omega arith, (omega arith, tt));
}

one_rec-short : rec_length one_rec < 2 ^ 32 - 12
unfolding rec_length part_bytes entries prefix joined code_bytes debug_bytes elf_bytes elf_file
    symbol_bytes str_bytes le l_get_string_pkt_size is_code is_set is_debug is_elf
one_rec-short = omega arith

abbrev one_binary2 : FatCudaBinary2 CharPtr
one_binary2 = record {
  magic = 1180844977;
  version = 1;
  fatbin_data = record { magic = 3126193488; version = 1; length = 3; base = 7 ∷ 8 ∷ 9 ∷ 10 ∷ [] };
  f = at 6000 (102 ∷ []);
}

one_binary2-Binary2Fits : Binary2Fits one_binary2
unfolding StrFits
one_binary2-Binary2Fits = record {
  magic = omega arith;
  version = omega arith;
  header_magic = omega arith;
  header_version = omega arith;
  len = omega arith;
  base = omega arith;
  f = omega arith;
}

fat_binary_round_trip_example :
    let b : FatCudaBinary CharPtr = record { body = one_rec; dependends = [] } in
    (size : ℕ) × (cache : CacheNumEntries) × (bs : List ℕ) × (get_fat_rec_pkt_size b
      ≡ some (size, cache))
    × (pack_fat_binary 4096 b cache ≡ some bs)
    × (length bs + spare (entries is_set one_rec.exported) + spare (entries is_set one_rec.imported)
        ≡ size)
    × (unpack_fat_binary (λ n. true) (bs ++ (0 ∷ []))
        ≡ some (
          record { body = sent_rec one_rec; dependends = [] },
          length bs - 4 + length (part_bytes symbol_bytes (entries is_set one_rec.imported)),
        ))
fat_binary_round_trip_example =
    fat_binary_round_trip (λ n. true) one_rec 4096 (0 ∷ []) (λ n. refl) (ground arith)
      one_rec-RecFits one_rec-short

fat_binary2_round_trip_example :
    let counted = get_fat_rec_pkt_size_4 one_binary2 in
    (bs : List ℕ) × (pack_fat_binary_4 4096 one_binary2 counted.1 ≡ some bs)
    × (length bs % 2 ^ 32 ≡ counted.0)
    × (unpack_fat_binary_4 (λ n. true) (bs ++ (0 ∷ []))
        ≡ some (sent_binary2 one_binary2, length bs))
fat_binary2_round_trip_example =
    fat_binary2_round_trip (λ n. true) one_binary2 4096 (0 ∷ []) (λ n. refl) (ground arith)
      one_binary2-Binary2Fits
