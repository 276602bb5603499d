-- ===== src/Interposer/Calls/RegVar.antt =====
-- interposer/libciutils.c: the packet of `__cudaRegisterVar`.
use gpu_virtmem.Prelude.{
  ℕ, ◌%◌, ◌^◌, ◌<◌, ◌≡◌, ◌≢◌, refl, ◌∙◌, Bool, true, List, [], ◌++◌, some, length, arith,
}
use gpu_virtmem.Interposer.Bytes.{le, length-le}
use gpu_virtmem.Interposer.Fields.Laws.{
  StrFits, str_bytes, sent_str, l_pack_str_lem, length-str_bytes,
}
use gpu_virtmem.Interposer.Calls.{
  RegVarCall, RegVarArgs, l_get_size_reg_var, Malloc, pack_reg_var, unpack_reg_var,
}
use gpu_virtmem.Interposer.Calls.Steps.{
  write_nil, write_cons, packed_lem, read_word_lem, str_field, length-field,
}

-- The call's addresses and numbers have the widths of their C types.
pub record VarFits (c : RegVarCall) : Type 0 where
  pub handle : c.fat_cubin_handle < 2 ^ 64
  pub host_var : c.host_var < 2 ^ 64
  pub device_address : StrFits c.device_address
  pub device_name : StrFits c.device_name
  pub ext : c.ext < 2 ^ 32
  pub vsize : c.vsize < 2 ^ 32
  pub constant : c.constant < 2 ^ 32
  pub global : c.global < 2 ^ 32

-- The packet of the call, and the arguments that should arrive.
unfoldable pub reg_var_bytes : RegVarCall → List ℕ
reg_var_bytes c =
    le 8 c.fat_cubin_handle
    ++ (le 8 c.host_var
        ++ (str_bytes c.device_address
            ++ (str_bytes c.device_name
                ++ (le 4 c.ext ++ (le 4 c.vsize ++ (le 4 c.constant ++ (le 4 c.global ++ [])))))))

unfoldable pub reg_var_sent : RegVarCall → RegVarArgs
reg_var_sent c = record {
  fat_cubin_handle = c.fat_cubin_handle;
  host_var = c.host_var;
  has_dom0_host_addr = true;
  device_address = sent_str c.device_address;
  device_name = sent_str c.device_name;
  ext = c.ext;
  size = c.vsize;
  constant = c.constant;
  global = c.global;
}

pack_reg_var_lem :
    (malloc : Malloc) (c : RegVarCall) (p : ℕ) (memory : List ℕ)
    → VarFits c
    → malloc (l_get_size_reg_var c) ≡ some (p, memory)
    → p ≢ 0
    → length memory ≡ l_get_size_reg_var c
    → length (reg_var_bytes c) ≡ l_get_size_reg_var c
    → l_get_size_reg_var c < 2 ^ 31
    → pack_reg_var malloc c
      ≡ some (record { size = l_get_size_reg_var c; bytes = some (reg_var_bytes c) })
unfolding pack_reg_var reg_var_bytes
pack_reg_var_lem malloc c p memory f m h k l b = packed_lem malloc _ p memory _ _ m h k l b (
    write_cons _ _ _ _ (λ p h. refl)
      (write_cons _ _ _ _ (λ p h. refl)
        (write_cons _ _ _ _ (λ p h. l_pack_str_lem p c.device_address h f.device_address)
          (write_cons _ _ _ _ (λ p h. l_pack_str_lem p c.device_name h f.device_name)
            (write_cons _ _ _ _ (λ p h. refl)
              (write_cons _ _ _ _ (λ p h. refl)
                (write_cons _ _ _ _ (λ p h. refl)
                  (write_cons _ _ _ _ (λ p h. refl) write_nil))))))))

module _ (alloc : ℕ → Bool) (gives : (n : ℕ) → alloc n ≡ true) where
  reg_var_unpacked :
      (c : RegVarCall)
      → VarFits c
      → unpack_reg_var alloc (reg_var_bytes c) ≡ some (some (reg_var_sent c))
  unfolding unpack_reg_var reg_var_bytes reg_var_sent
  reg_var_unpacked c f =
      read_word_lem 8 c.fat_cubin_handle _ _ f.handle
      ∙ read_word_lem 8 c.host_var _ _ f.host_var
      ∙ str_field alloc gives c.device_address _ _ f.device_address
      ∙ str_field alloc gives c.device_name _ _ f.device_name
      ∙ read_word_lem 4 c.ext _ _ f.ext
      ∙ read_word_lem 4 c.vsize _ _ f.vsize
      ∙ read_word_lem 4 c.constant _ _ f.constant
      ∙ read_word_lem 4 c.global _ _ f.global
      ∙ ground (arith, gives 1)

length-reg_var_bytes :
    (c : RegVarCall) → VarFits c → length (reg_var_bytes c) % 2 ^ 32 ≡ l_get_size_reg_var c
unfolding reg_var_bytes l_get_size_reg_var
length-reg_var_bytes c f = omega (
  arith,
  length-field _ _ _ _ (length-le 8 c.fat_cubin_handle) (
      length-field _ _ _ _ (length-le 8 c.host_var) (
        length-field _ _ _ _ (length-str_bytes c.device_address f.device_address) (
          length-field _ _ _ _ (length-str_bytes c.device_name f.device_name) (
            length-field _ _ _ _ (length-le 4 c.ext) (
              length-field _ _ _ _ (length-le 4 c.vsize) (
                length-field _ _ _ _ (length-le 4 c.constant)
                  (length-field _ [] _ 0 (length-le 4 c.global) refl))))))),
)

-- A `__cudaRegisterVar` call is unpacked as it was packed: with memory on both sides and fields of
-- their C widths, in a packet below 2 GB, the packet fits the size that was counted for it, and
-- unpacking gives all eight arguments, with NULL for an empty string.
pub reg_var_round_trip :
    (alloc : ℕ → Bool) (malloc : Malloc) (c : RegVarCall) (p : ℕ) (memory : List ℕ)
    → ((n : ℕ) → alloc n ≡ true)
    → malloc (l_get_size_reg_var c) ≡ some (p, memory)
    → p ≢ 0
    → length memory ≡ l_get_size_reg_var c
    → VarFits c
    → length (reg_var_bytes c) < 2 ^ 31
    → (bs : List ℕ) × (pack_reg_var malloc c
        ≡ some (record { size = l_get_size_reg_var c; bytes = some bs }))
      × (unpack_reg_var alloc bs ≡ some (some (reg_var_sent c)))
reg_var_round_trip alloc malloc c p memory gives m h k f b =
    let size : length (reg_var_bytes c) ≡ l_get_size_reg_var c =
      omega (arith, length-reg_var_bytes c f) in
    (
      reg_var_bytes c,
      pack_reg_var_lem malloc c p memory f m h k size (omega arith),
      reg_var_unpacked alloc gives c f,
    )
