-- ===== src/Interposer/FatBinary.antt =====
-- interposer/libciutils.c: how many bytes a fat binary takes in a packet, and
-- interposer/libciutils.h: the numbers of its entries. The structures are those of CUDA's
-- `__cudaFatFormat.h`, with the fields that the code reads and writes.
pub mod Pack
pub mod Unpack
pub mod Tables
pub mod Chains
pub mod Parts
pub mod Arrays
pub mod Symbols
pub mod Debug
pub mod Elf
pub mod Layout
pub mod RoundTrip
pub mod Second
mod Tests
use gpu_virtmem.Prelude.{
  ℕ, zero, suc, ◌+◌, ◌%◌, ◌^◌, Bool, true, false, ◌&&◌, not, List, [], ◌∷◌, Option, none, some,
  ◌>>=◌, if◌then◌else◌, ltb,
}
use gpu_virtmem.Interposer.Bytes.{Ptr, null, at}
use gpu_virtmem.Interposer.Fields.{
  CharPtr, l_get_string_pkt_size, sizeof_size_pkt_field, sizeof_pointer,
}

-- `__cudaFatPtxEntry` and `__cudaFatCubinEntry`, which are laid out alike. `S` is a string: a
-- `char *` where the binary is packed, what arrives of it where it is unpacked.
pub record NamedCode (S : Type 0) : Type 0 where
  pub gpu_profile_name : S
  pub code : S

-- `__cudaFatDebugEntry`; `next` leads to the next element of the list.
pub record DebugEntry (S : Type 0) : Type 0 where
  pub gpu_profile_name : S
  pub debug : S
  pub size : ℕ

-- `__cudaFatElfEntry`, with the bytes behind `elf`, `none` for NULL.
pub record ElfEntry (S : Type 0) : Type 0 where
  pub gpu_profile_name : S
  pub elf : Option (List ℕ)
  pub size : ℕ

-- `__cudaFatCudaBinary` without `dependends`. An array is `none` for NULL, and else its elements as
-- far as there is memory, the terminator among them; an empty list of entries is NULL.
pub record FatRec (S : Type 0) : Type 0 where
  pub magic : ℕ
  pub version : ℕ
  pub gpu_info_version : ℕ
  pub key : S
  pub ident : S
  pub usage_mode : S
  pub ptx : Option (List (NamedCode S))
  pub cubin : Option (List (NamedCode S))
  pub debug : List (DebugEntry S)
  pub debug_info : ℕ
  pub flags : ℕ
  pub exported : Option (List S)
  pub imported : Option (List S)
  pub characteristic : ℕ
  pub elf : List (ElfEntry S)

-- A binary, and those that its `dependends` leads to, one after the other.
pub record FatCudaBinary (S : Type 0) : Type 0 where
  pub body : FatRec S
  pub dependends : List (FatRec S)

-- `cache_num_entries_t`
pub record CacheNumEntries : Type 0 where
  pub nptxs : ℕ
  pub ncubs : ℕ
  pub ndebs : ℕ
  pub ndeps : ℕ
  pub nelves : ℕ
  pub nexps : ℕ
  pub nimps : ℕ

pub is_set : CharPtr → Bool
is_set null = false
is_set (at a cs) = true

-- The conditions of the loops over the entries.
pub is_code : NamedCode CharPtr → Bool
is_code e = is_set e.gpu_profile_name && is_set e.code

pub is_debug : DebugEntry CharPtr → Bool
is_debug e = is_set e.gpu_profile_name && is_set e.debug

pub is_elf : ElfEntry CharPtr → Bool
is_elf e = is_set e.gpu_profile_name && elim e.elf [ none ↦ false | some b ↦ true ]

pub code_size : NamedCode CharPtr → ℕ
code_size e = l_get_string_pkt_size e.gpu_profile_name + l_get_string_pkt_size e.code

pub debug_size : DebugEntry CharPtr → ℕ
debug_size e = l_get_string_pkt_size e.gpu_profile_name + l_get_string_pkt_size e.debug + 4

pub elf_size : ElfEntry CharPtr → ℕ
elf_size e = l_get_string_pkt_size e.gpu_profile_name + e.size + 4

-- The bytes and the number of the elements in front of the terminator, as an `int`; `none` is a read
-- behind the array.
pub table_size : {E : Type 0} → (E → Bool) → (E → ℕ) → List E → Option (ℕ × ℕ)
table_size live cost [] = none
table_size live cost (e ∷ es) =
    if live e
    then table_size live cost es >>= (λ t. some ((cost e + t.0) % 2 ^ 32, suc t.1))
    else some (0, 0)

-- The same of a list, which NULL ends, too.
pub chain_size : {E : Type 0} → (E → Bool) → (E → ℕ) → List E → ℕ × ℕ
chain_size live cost [] = (0, 0)
chain_size live cost (e ∷ es) =
    let t = chain_size live cost es in if live e then ((cost e + t.0) % 2 ^ 32, suc t.1) else (0, 0)

counted : ℕ × ℕ → ℕ × ℕ
counted t = ((sizeof_size_pkt_field + t.0) % 2 ^ 32, t.1)

-- `l_getSize__cudaFatPtxEntry`, the size and `*pCounter`
pub l_get_size_ptx : Option (List (NamedCode CharPtr)) → Option (ℕ × ℕ)
unfolding counted
l_get_size_ptx none = some (sizeof_size_pkt_field, 0)
l_get_size_ptx (some es) = table_size is_code code_size es >>= (λ t. some (counted t))

-- `l_getSize__cudaFatCubinEntry`
pub l_get_size_cubin : Option (List (NamedCode CharPtr)) → Option (ℕ × ℕ)
unfolding counted
l_get_size_cubin none = some (sizeof_size_pkt_field, 0)
l_get_size_cubin (some es) = table_size is_code code_size es >>= (λ t. some (counted t))

-- `l_getSize__cudaFatDebugEntry`
pub l_get_size_debug : List (DebugEntry CharPtr) → ℕ × ℕ
unfolding counted
l_get_size_debug es = counted (chain_size is_debug debug_size es)

-- `l_getSize__cudaFatElfEntry`, whose loop an entry of size 0 ends as well
pub l_get_size_elf : List (ElfEntry CharPtr) → ℕ × ℕ
unfolding counted
l_get_size_elf es = counted (chain_size (λ e. is_elf e && ltb 0 e.size) elf_size es)

-- `l_getSize__cudaFatSymbolEntry`, with room for a string where there is no symbol
pub l_get_size_symbol : Option (List CharPtr) → Option (ℕ × ℕ)
unfolding counted
l_get_size_symbol none = some (sizeof_size_pkt_field + l_get_string_pkt_size null, 0)
l_get_size_symbol (some []) = none
l_get_size_symbol (some (s ∷ ss)) =
    if is_set s
    then table_size is_set l_get_string_pkt_size (s ∷ ss) >>= (λ t. some (counted t))
    else some (sizeof_size_pkt_field + l_get_string_pkt_size null, 0)

-- `l_getFatRecPktSize`; the number of the dependends stays 0
pub l_get_fat_rec_pkt_size : FatRec CharPtr → Option (ℕ × CacheNumEntries)
l_get_fat_rec_pkt_size c = do
  ptx ← l_get_size_ptx c.ptx
  cubin ← l_get_size_cubin c.cubin
  exported ← l_get_size_symbol c.exported
  imported ← l_get_size_symbol c.imported
  let debug = l_get_size_debug c.debug
  let elf = l_get_size_elf c.elf
  some (
    ((8 + 8 + 8 + 4 + 4)
          + l_get_string_pkt_size c.key
          + l_get_string_pkt_size c.ident
          + l_get_string_pkt_size c.usage_mode
          + sizeof_pointer
          + ptx.0
          + cubin.0
          + debug.0
          + elf.0
          + exported.0
          + imported.0)
        % 2 ^ 32,
    record {
      nptxs = ptx.1;
      ncubs = cubin.1;
      ndebs = debug.1;
      ndeps = 0;
      nelves = elf.1;
      nexps = exported.1;
      nimps = imported.1;
    },
  )

-- The loop of `l_getSize__cudaFatBinaryEntry`
deps_size : List (FatRec CharPtr) → Option (ℕ × ℕ)
deps_size [] = some (0, 0)
deps_size (c ∷ cs) =
    l_get_fat_rec_pkt_size c >>= (λ r. deps_size cs >>= (λ t. some ((r.0 + t.0) % 2 ^ 32, suc t.1)))

-- `l_getSize__cudaFatBinaryEntry`: the size and the number of the dependends
pub l_get_size_dep : List (FatRec CharPtr) → Option (ℕ × ℕ)
unfolding deps_size counted
l_get_size_dep cs = deps_size cs >>= (λ t. some (counted t))

-- `getFatRecPktSize`
pub get_fat_rec_pkt_size : FatCudaBinary CharPtr → Option (ℕ × CacheNumEntries)
get_fat_rec_pkt_size b = do
  r ← l_get_fat_rec_pkt_size b.body
  d ← l_get_size_dep b.dependends
  some ((r.0 + d.0) % 2 ^ 32, record r.1 { ndeps = d.1 })
