-- ===== src/Interposer/FatBinary/Pack.antt =====
-- interposer/libciutils.c: how a fat binary is written to a packet.
use gpu_virtmem.Prelude.{
  ℕ, zero, suc, Bool, List, [], ◌∷◌, ◌++◌, Option, none, some, ◌>>=◌, length, take, leb, ◌==◌,
  if◌then◌else◌, ltb,
}
use gpu_virtmem.Interposer.Fields.{CharPtr, l_pack_str}
use gpu_virtmem.Interposer.Calls.{write_fields, word}
use gpu_virtmem.Interposer.FatBinary.{
  NamedCode, DebugEntry, ElfEntry, FatRec, FatCudaBinary, CacheNumEntries, is_debug, is_elf,
}

-- A part of a packet: the bytes that are written from an address on. The result is `none` for
-- `ERROR`, and where an assertion or a read behind an array stops the program.
abbrev pub Field : Type 0
Field = ℕ → Option (List ℕ)

unfoldable pub code_fields : NamedCode CharPtr → List Field
code_fields e = (λ p. l_pack_str p e.gpu_profile_name) ∷ (λ p. l_pack_str p e.code) ∷ []

unfoldable pub debug_fields : DebugEntry CharPtr → List Field
debug_fields e =
    (λ p. l_pack_str p e.gpu_profile_name) ∷ (λ p. l_pack_str p e.debug) ∷ word 4 e.size ∷ []

-- `memcpy(pDst, p->elf, p->size)`, when there is something to copy
unfoldable pub elf_code : ElfEntry CharPtr → Field
elf_code e p =
    if ltb 0 e.size
    then e.elf >>= (λ bs. if leb e.size (length bs) then some (take e.size bs) else none)
    else some []

unfoldable pub elf_fields : ElfEntry CharPtr → List Field
elf_fields e = (λ p. l_pack_str p e.gpu_profile_name) ∷ word 4 e.size ∷ elf_code e ∷ []

-- The first `n` elements of an array.
unfoldable pub table_fields : {E : Type 0} → (E → List Field) → ℕ → List E → Option (List Field)
table_fields fields zero es = some []
table_fields fields (suc n) [] = none
table_fields fields (suc n) (e ∷ es) = table_fields fields n es >>= (λ fs. some (fields e ++ fs))

unfoldable pub pack_table :
    {E : Type 0} → (E → List Field) → ℕ → Option (List E) → ℕ → Option (List ℕ)
pack_table fields p none n = if p == 0 then none else write_fields p (word 4 n ∷ [])
pack_table fields p (some es) n =
    if p == 0 then none else table_fields fields n es >>= (λ fs. write_fields p (word 4 n ∷ fs))

-- The elements of a list up to the first one that is not live, and their number.
unfoldable pub chain_fields : {E : Type 0} → (E → Bool) → (E → List Field) → List E → List Field
chain_fields live fields [] = []
chain_fields live fields (e ∷ es) =
    let rest = chain_fields live fields es in if live e then fields e ++ rest else []

unfoldable pub chain_count : {E : Type 0} → (E → Bool) → List E → ℕ
chain_count live [] = 0
chain_count live (e ∷ es) = let n = chain_count live es in if live e then suc n else 0

unfoldable pub pack_chain :
    {E : Type 0} → (E → Bool) → (E → List Field) → ℕ → List E → ℕ → Option (List ℕ)
pack_chain live fields p [] n = if p == 0 then none else write_fields p (word 4 n ∷ [])
pack_chain live fields p (e ∷ es) n =
    if p == 0
    then none
    else if n == 0
    then write_fields p (word 4 n ∷ [])
    else if chain_count live (e ∷ es) == n
    then write_fields p (word 4 n ∷ chain_fields live fields (e ∷ es))
    else none

-- `l_packPtx`
unfoldable pub l_pack_ptx : ℕ → Option (List (NamedCode CharPtr)) → ℕ → Option (List ℕ)
l_pack_ptx = pack_table code_fields

-- `l_packCubin`
unfoldable pub l_pack_cubin : ℕ → Option (List (NamedCode CharPtr)) → ℕ → Option (List ℕ)
l_pack_cubin = pack_table code_fields

-- `l_packDebug`
unfoldable pub l_pack_debug : ℕ → List (DebugEntry CharPtr) → ℕ → Option (List ℕ)
l_pack_debug = pack_chain is_debug debug_fields

-- `l_packElf`
unfoldable pub l_pack_elf : ℕ → List (ElfEntry CharPtr) → ℕ → Option (List ℕ)
l_pack_elf = pack_chain is_elf elf_fields

-- `l_packSymbol`
unfoldable pub l_pack_symbol : ℕ → Option (List CharPtr) → ℕ → Option (List ℕ)
l_pack_symbol = pack_table (λ s. (λ p. l_pack_str p s) ∷ [])

-- `l_packDep`, which asserts that there is nothing to pack
unfoldable pub l_pack_dep : ℕ → List (FatRec CharPtr) → ℕ → Option (List ℕ)
l_pack_dep p [] n = if p == 0 then none else write_fields p (word 4 n ∷ [])
l_pack_dep p (c ∷ cs) n =
    if p == 0 then none else if n == 0 then write_fields p (word 4 n ∷ []) else none

-- `l_packFatBinary`
unfoldable pub l_pack_fat_binary : ℕ → FatRec CharPtr → CacheNumEntries → Option (List ℕ)
l_pack_fat_binary p c cache = write_fields p (
    word 8 c.magic
    ∷ word 8 c.version
    ∷ word 8 c.gpu_info_version
    ∷ word 4 c.flags
    ∷ word 4 c.characteristic
    ∷ (λ p. l_pack_str p c.key)
    ∷ (λ p. l_pack_str p c.ident)
    ∷ (λ p. l_pack_str p c.usage_mode)
    ∷ word 8 c.debug_info
    ∷ (λ p. l_pack_ptx p c.ptx cache.nptxs)
    ∷ (λ p. l_pack_cubin p c.cubin cache.ncubs)
    ∷ (λ p. l_pack_debug p c.debug cache.ndebs)
    ∷ (λ p. l_pack_elf p c.elf cache.nelves)
    ∷ (λ p. l_pack_symbol p c.exported cache.nexps)
    ∷ (λ p. l_pack_symbol p c.imported cache.nimps)
    ∷ [])

-- `packFatBinary`
unfoldable pub pack_fat_binary : ℕ → FatCudaBinary CharPtr → CacheNumEntries → Option (List ℕ)
pack_fat_binary p b cache =
    write_fields p
      ((λ p. l_pack_fat_binary p b.body cache) ∷ (λ p. l_pack_dep p b.dependends cache.ndeps) ∷ [])
