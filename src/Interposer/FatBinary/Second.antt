-- ===== src/Interposer/FatBinary/Second.antt =====
-- interposer/libciutils.c: the packet of a fat binary of CUDA 4, and include/cudaFatBinary.h: its
-- structures.
pub mod RoundTrip
use gpu_virtmem.Prelude.{
  ℕ, ◌+◌, ◌-◌, ◌*◌, ◌%◌, ◌^◌, ◌<◌, ◌≤◌, ◌≡◌, ◌≢◌, refl, sym, ap, ◌∙◌, Bool, true, List, [], ◌∷◌,
  ◌++◌, Option, none, some, ◌>>=◌, length, take, drop, leb, if◌then◌else◌, arith, append_assoc,
  append-nil, length-append, length-take, take_append_of_length, drop_append_of_length, min,
}
use gpu_virtmem.Interposer.Bytes.{le, length-le}
use gpu_virtmem.Interposer.Fields.{CharPtr, l_get_string_pkt_size, l_pack_str}
use gpu_virtmem.Interposer.Fields.Laws.{
  StrFits, str_bytes, sent_str, l_pack_str_lem, length-str_bytes,
}
use gpu_virtmem.Interposer.Calls.{write_fields, word, read_word}
use gpu_virtmem.Interposer.Calls.Steps.{
  AllWrite, write_cons, write_nil, read_word_lem, length-field,
}
use gpu_virtmem.Interposer.FatBinary.{CacheNumEntries}
use gpu_virtmem.Interposer.FatBinary.Pack.{Field}
use gpu_virtmem.Interposer.FatBinary.Unpack.{Received, read_str}
use gpu_virtmem.Interposer.FatBinary.Parts.{read_str_lem}

-- `__cudaFatCudaBinary2Header`, and the bytes behind it.
pub record FatbinData : Type 0 where
  pub magic : ℕ
  pub version : ℕ
  pub length : ℕ
  pub base : List ℕ

-- `__cudaFatCudaBinary2`, with what `fatbinData` points to.
pub record FatCudaBinary2 (S : Type 0) : Type 0 where
  pub magic : ℕ
  pub version : ℕ
  pub fatbin_data : FatbinData
  pub f : S

-- `l_getFatRecPktSize_4`, as the bit pattern of an `int`
pub l_get_fat_rec_pkt_size_4 : FatCudaBinary2 CharPtr → ℕ
l_get_fat_rec_pkt_size_4 c =
    (4 + 4 + (4 + 4 + 8) + c.fatbin_data.length + l_get_string_pkt_size c.f) % 2 ^ 32

-- `getFatRecPktSize_4`: the size, and the numbers of the entries, which are cleared
pub get_fat_rec_pkt_size_4 : FatCudaBinary2 CharPtr → ℕ × CacheNumEntries
get_fat_rec_pkt_size_4 c = (
  l_get_fat_rec_pkt_size_4 c,
  record { nptxs = 0; ncubs = 0; ndebs = 0; ndeps = 0; nelves = 0; nexps = 0; nimps = 0 },
)

-- `memcpy(pFatPack, base, binary_len)`; `none` is a read behind the binary
pub binary_field : FatbinData → Field
binary_field d p = if leb d.length (length d.base) then some (take d.length d.base) else none

-- `l_packFatBinary_4`
pub l_pack_fat_binary_4 : ℕ → FatCudaBinary2 CharPtr → CacheNumEntries → Option (List ℕ)
l_pack_fat_binary_4 p c cache = write_fields p (
    word 4 c.magic
    ∷ word 4 c.version
    ∷ word 4 c.fatbin_data.magic
    ∷ word 4 c.fatbin_data.version
    ∷ word 8 c.fatbin_data.length
    ∷ binary_field c.fatbin_data
    ∷ (λ p. l_pack_str p c.f)
    ∷ [])

-- `packFatBinary_4`
pub pack_fat_binary_4 : ℕ → FatCudaBinary2 CharPtr → CacheNumEntries → Option (List ℕ)
pack_fat_binary_4 p c cache = write_fields p ((λ p. l_pack_fat_binary_4 p c cache) ∷ [])

-- `memcpy(base, pFatPack, binary_len)`; `none` is a read behind the packet
pub read_binary : {R : Type 0} → ℕ → List ℕ → (List ℕ → List ℕ → Option R) → Option R
read_binary n src k = if leb n (length src) then k (take n src) (drop n src) else none

-- Memory that is used without a check.
pub with_memory : {R : Type 0} → Bool → Option R → Option R
with_memory m r = if m then r else none

-- `unpackFatBinary_4`: the binary, and the number of bytes that is returned. The memory for the
-- header and the binary is not checked.
pub unpack_fat_binary_4 : (ℕ → Bool) → List ℕ → Option (FatCudaBinary2 Received × ℕ)
unpack_fat_binary_4 alloc src = read_word 4 src (λ magic s₁. read_word 4 s₁ (λ version s₂.
    read_word 4 s₂ (λ header_magic s₃. read_word 4 s₃ (λ header_version s₄.
      read_word 8 s₄ (λ len s₅. with_memory (alloc ((16 + len) % 2 ^ 64)) (
        read_binary len s₅ (λ base s₆. read_str alloc s₆ (λ f s₇. some (
          record {
            magic = magic;
            version = version;
            fatbin_data = record {
              magic = header_magic;
              version = header_version;
              length = len;
              base = base;
            };
            f = f;
          },
          length src - length s₇,
        )))))))))
