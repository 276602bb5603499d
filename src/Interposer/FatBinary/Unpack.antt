-- ===== src/Interposer/FatBinary/Unpack.antt =====
-- interposer/libciutils.c: how a fat binary is read from a packet. The packet is not NULL, and
-- `alloc n` says whether `malloc(n)` gives memory; what is not checked stops the program, which is
-- `none`, as is a read behind the packet.
use gpu_virtmem.Prelude.{
  as_size_t, ℕ, zero, suc, ◌+◌, ◌-◌, ◌*◌, ◌%◌, ◌^◌, Bool, List, [], ◌∷◌, ◌++◌, Option, none, some,
  ◌>>=◌, length, take, drop, leb, ◌==◌, if◌then◌else◌, ◌&&◌, ◌||◌, not,
}
use gpu_virtmem.Interposer.Bytes.{un_le}
use gpu_virtmem.Interposer.Fields.{l_unpack_str}
use gpu_virtmem.Interposer.Calls.{read_word}
use gpu_virtmem.Interposer.FatBinary.{NamedCode, DebugEntry, ElfEntry, FatRec, FatCudaBinary}

-- What arrives of a string, NULL for an empty one.
abbrev pub Received : Type 0
Received = Option (List ℕ)

-- `l_unpackStr(pSrc, &offset); pSrc += offset;`
unfoldable pub read_str :
    {R : Type 0} → (ℕ → Bool) → List ℕ → (Received → List ℕ → Option R) → Option R
read_str alloc src k =
    l_unpack_str alloc (some 0) (some src) >>= (λ u. u.offset >>= (λ n. k u.value (drop n src)))

-- A reader of entries: the value and `*pOffset`; the caller goes on behind them.
unfoldable pub read_part :
    {A R : Type 0} → Option (A × ℕ) → List ℕ → (A → List ℕ → Option R) → Option R
read_part o src k = o >>= (λ t. k t.0 (drop t.1 src))

-- `l_unpackChars`, whose result the caller wants not to be NULL
unfoldable pub l_unpack_chars : (ℕ → Bool) → ℕ → List ℕ → Option (List ℕ)
l_unpack_chars alloc size src =
    let n = as_size_t size in
    if size == 0 || not (alloc n)
    then none
    else if leb n (length src)
    then some (take n src)
    else none

-- One entry, and the bytes behind it.
unfoldable pub next_code : (ℕ → Bool) → List ℕ → Option (NamedCode Received × List ℕ)
next_code alloc src = read_str alloc src (λ name s.
    read_str alloc s (λ code rest. some (record { gpu_profile_name = name; code = code }, rest)))

unfoldable pub next_debug : (ℕ → Bool) → List ℕ → Option (DebugEntry Received × List ℕ)
next_debug alloc src = read_str alloc src (λ name s. read_str alloc s (λ debug t.
    read_word 4 t
      (λ size rest. some (record { gpu_profile_name = name; debug = debug; size = size }, rest))))

unfoldable pub elf_entry : (ℕ → Bool) → Received → ℕ → List ℕ → Option (ElfEntry Received × List ℕ)
elf_entry alloc name size src =
    if size == 0
    then some (record { gpu_profile_name = name; elf = none; size = size }, src)
    else l_unpack_chars alloc size src >>= (λ elf.
      some (record { gpu_profile_name = name; elf = some elf; size = size }, drop size src))

unfoldable pub next_elf : (ℕ → Bool) → List ℕ → Option (ElfEntry Received × List ℕ)
next_elf alloc src = read_str alloc src (λ name s. read_word 4 s (elf_entry alloc name))

unfoldable pub next_symbol : (ℕ → Bool) → List ℕ → Option (Received × List ℕ)
next_symbol alloc src = read_str alloc src (λ name rest. some (name, rest))

-- `n` entries.
unfoldable pub entries_from :
    {E : Type 0} → (List ℕ → Option (E × List ℕ)) → ℕ → List ℕ → Option (List E × List ℕ)
entries_from next zero src = some ([], src)
entries_from next (suc n) src =
    next src >>= (λ e. entries_from next n e.1 >>= (λ t. some (e.0 ∷ t.0, t.1)))

-- The array of `n` entries and a terminator, in memory that is there or not, and `*pOffset`.
unfoldable pub unpack_table :
    {E : Type 0} → Bool → (List ℕ → Option (E × List ℕ)) → E → ℕ → List ℕ → Option (List E × ℕ)
unpack_table memory next terminator n src =
    if memory
    then entries_from next n (drop 4 src)
      >>= (λ t. some (t.0 ++ (terminator ∷ []), length src - length t.1))
    else none

-- Memory for `n + 1` elements, where `n + 1` is an `unsigned int`.
unfoldable pub array_of : (ℕ → Bool) → ℕ → ℕ → Bool
array_of alloc n size = alloc ((n + 1) % 2 ^ 32 * size) && not (n + 1 == 2 ^ 32)

abbrev pub no_code : NamedCode Received
no_code = record { gpu_profile_name = none; code = none }

abbrev pub no_debug : DebugEntry Received
no_debug = record { gpu_profile_name = none; debug = none; size = 0 }

abbrev pub no_elf : ElfEntry Received
no_elf = record { gpu_profile_name = none; elf = none; size = 0 }

-- `l_unpackPtx`
unfoldable pub l_unpack_ptx : (ℕ → Bool) → List ℕ → Option (List (NamedCode Received) × ℕ)
l_unpack_ptx alloc src =
    un_le 4 src >>= (λ n. unpack_table (alloc (n * 16 + 16)) (next_code alloc) no_code n src)

-- `l_unpackCubin`
unfoldable pub l_unpack_cubin : (ℕ → Bool) → List ℕ → Option (List (NamedCode Received) × ℕ)
l_unpack_cubin alloc src =
    un_le 4 src >>= (λ n. unpack_table (array_of alloc n 16) (next_code alloc) no_code n src)

-- `l_unpackDebug`
unfoldable pub l_unpack_debug : (ℕ → Bool) → List ℕ → Option (List (DebugEntry Received) × ℕ)
l_unpack_debug alloc src = un_le 4 src >>= (λ n.
    if n == 0
    then some ([], 4)
    else unpack_table (array_of alloc n 32) (next_debug alloc) no_debug n src)

-- `l_unpackElf`
unfoldable pub l_unpack_elf : (ℕ → Bool) → List ℕ → Option (List (ElfEntry Received) × ℕ)
l_unpack_elf alloc src = un_le 4 src >>= (λ n.
    if n == 0
    then some ([], 4)
    else unpack_table (array_of alloc n 32) (next_elf alloc) no_elf n src)

-- `l_unpackSymbol`
unfoldable pub l_unpack_symbol : (ℕ → Bool) → List ℕ → Option (Option (List Received) × ℕ)
l_unpack_symbol alloc src = un_le 4 src >>= (λ n.
    if n == 0
    then some (none, 4)
    else unpack_table (array_of alloc n 8) (next_symbol alloc) none n src
      >>= (λ t. some (some t.0, t.1)))

-- `l_unpackDep`, which leaves `*pOffset` as it is when there is no dependend; the first one would be
-- unpacked to an address that was never set.
unfoldable pub l_unpack_dep : ℕ → List ℕ → Option (List (FatRec Received) × ℕ)
l_unpack_dep offset src = un_le 4 src >>= (λ n. if n == 0 then some ([], offset) else none)

-- `unpackFatBinary`: the binary, and the number of bytes that is returned
unfoldable pub unpack_fat_binary : (ℕ → Bool) → List ℕ → Option (FatCudaBinary Received × ℕ)
unpack_fat_binary alloc src = read_word 8 src (λ magic s₁. read_word 8 s₁ (λ version s₂.
    read_word 8 s₂ (λ gpu_info_version s₃. read_word 4 s₃ (λ flags s₄.
      read_word 4 s₄ (λ characteristic s₅. read_str alloc s₅ (λ key s₆.
        read_str alloc s₆ (λ ident s₇. read_str alloc s₇ (λ usage_mode s₈.
          read_word 8 s₈ (λ debug_info s₉. read_part (l_unpack_ptx alloc s₉) s₉ (λ ptx t₁.
            read_part (l_unpack_cubin alloc t₁) t₁ (λ cubin t₂.
              read_part (l_unpack_debug alloc t₂) t₂ (λ debug t₃.
                read_part (l_unpack_elf alloc t₃) t₃ (λ elf t₄.
                  read_part (l_unpack_symbol alloc t₄) t₄ (λ exported t₅.
                    l_unpack_symbol alloc t₅ >>= (λ imported.
                      let t₆ = drop imported.1 t₅ in
                      l_unpack_dep imported.1 t₆ >>= (λ dependends. some (
                        record {
                          body = record {
                            magic = magic;
                            version = version;
                            gpu_info_version = gpu_info_version;
                            key = key;
                            ident = ident;
                            usage_mode = usage_mode;
                            ptx = some ptx;
                            cubin = some cubin;
                            debug = debug;
                            debug_info = debug_info;
                            flags = flags;
                            exported = exported;
                            imported = imported.0;
                            characteristic = characteristic;
                            elf = elf;
                          };
                          dependends = dependends.0;
                        },
                        length src - length t₆ + dependends.1,
                      )))))))))))))))))
