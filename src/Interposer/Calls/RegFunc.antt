-- ===== src/Interposer/Calls/RegFunc.antt =====
-- interposer/libciutils.c: the packet of `__cudaRegisterFunction`.
use gpu_virtmem.Prelude.{
  ℕ, ◌%◌, ◌^◌, ◌<◌, ◌≡◌, ◌≢◌, refl, ◌∙◌, Bool, true, List, [], ◌++◌, some, length, arith,
}
use gpu_virtmem.Interposer.Bytes.{address, le, length-le}
use gpu_virtmem.Interposer.Fields.{sizeof_int, pack_triple}
use gpu_virtmem.Interposer.Fields.Laws.{
  StrFits, PtrFits, TripleFits, IntFits, str_bytes, ptr_bytes, sent_str, sent, l_pack_str_lem,
  l_pack_uint3_ptr_lem, l_pack_dim3_ptr_lem, l_pack_int_ptr_lem, length-str_bytes, length-ptr_uint3,
  length-ptr_dim3, length-ptr_int,
}
use gpu_virtmem.Interposer.Calls.{
  RegFuncCall, RegFuncArgs, l_get_size_reg_func_args, Malloc, pack_reg_func_args,
  unpack_reg_func_args,
}
use gpu_virtmem.Interposer.Calls.Steps.{
  write_nil, write_cons, packed_lem, read_word_lem, str_field, uint3_field, dim3_field, int_field,
  length-field,
}

-- The call's addresses and numbers have the widths of their C types.
pub record FuncFits (c : RegFuncCall) : Type 0 where
  pub handle : c.fat_cubin_handle < 2 ^ 64
  pub host_fun : StrFits c.host_fun
  pub addr : address c.host_fun < 2 ^ 64
  pub device_fun : StrFits c.device_fun
  pub device_name : StrFits c.device_name
  pub thread_limit : c.thread_limit < 2 ^ 32
  pub tid : PtrFits TripleFits c.tid
  pub bid : PtrFits TripleFits c.bid
  pub b_dim : PtrFits TripleFits c.b_dim
  pub g_dim : PtrFits TripleFits c.g_dim
  pub w_size : PtrFits IntFits c.w_size

-- The packet of the call, and the arguments that should arrive.
unfoldable pub reg_func_bytes : RegFuncCall → List ℕ
reg_func_bytes c =
    le 8 c.fat_cubin_handle
    ++ (str_bytes c.host_fun
        ++ (le 8 (address c.host_fun)
            ++ (str_bytes c.device_fun
                ++ (str_bytes c.device_name
                    ++ (le 4 c.thread_limit
                        ++ (ptr_bytes pack_triple c.tid
                            ++ (ptr_bytes pack_triple c.bid
                                ++ (ptr_bytes pack_triple c.b_dim
                                    ++ (ptr_bytes pack_triple c.g_dim
                                        ++ (ptr_bytes (le sizeof_int) c.w_size ++ []))))))))))

unfoldable pub reg_func_sent : RegFuncCall → RegFuncArgs
reg_func_sent c = record {
  fat_cubin_handle = c.fat_cubin_handle;
  host_fun = sent_str c.host_fun;
  host_fe_addr = address c.host_fun;
  device_fun = sent_str c.device_fun;
  device_name = sent_str c.device_name;
  thread_limit = c.thread_limit;
  tid = sent c.tid;
  bid = sent c.bid;
  b_dim = sent c.b_dim;
  g_dim = sent c.g_dim;
  w_size = sent c.w_size;
}

pack_reg_func_args_lem :
    (malloc : Malloc) (c : RegFuncCall) (p : ℕ) (memory : List ℕ)
    → FuncFits c
    → malloc (l_get_size_reg_func_args c) ≡ some (p, memory)
    → p ≢ 0
    → length memory ≡ l_get_size_reg_func_args c
    → length (reg_func_bytes c) ≡ l_get_size_reg_func_args c
    → l_get_size_reg_func_args c < 2 ^ 31
    → pack_reg_func_args malloc c
      ≡ some (record { size = l_get_size_reg_func_args c; bytes = some (reg_func_bytes c) })
unfolding pack_reg_func_args reg_func_bytes
pack_reg_func_args_lem malloc c p memory f m h k l b = packed_lem malloc _ p memory _ _ m h k l b (
    write_cons _ _ _ _ (λ p h. refl)
      (write_cons _ _ _ _ (λ p h. l_pack_str_lem p c.host_fun h f.host_fun)
        (write_cons _ _ _ _ (λ p h. refl)
          (write_cons _ _ _ _ (λ p h. l_pack_str_lem p c.device_fun h f.device_fun)
            (write_cons _ _ _ _ (λ p h. l_pack_str_lem p c.device_name h f.device_name)
              (write_cons _ _ _ _ (λ p h. refl)
                (write_cons _ _ _ _ (λ p h. l_pack_uint3_ptr_lem p c.tid h)
                  (write_cons _ _ _ _ (λ p h. l_pack_uint3_ptr_lem p c.bid h)
                    (write_cons _ _ _ _ (λ p h. l_pack_dim3_ptr_lem p c.b_dim h)
                      (write_cons _ _ _ _ (λ p h. l_pack_dim3_ptr_lem p c.g_dim h)
                        (write_cons _ _ _ _ (λ p h. l_pack_int_ptr_lem p c.w_size h)
                          write_nil)))))))))))

module _ (alloc : ℕ → Bool) (gives : (n : ℕ) → alloc n ≡ true) where
  reg_func_unpacked :
      (c : RegFuncCall)
      → FuncFits c
      → unpack_reg_func_args alloc (reg_func_bytes c) ≡ some (some (reg_func_sent c))
  unfolding unpack_reg_func_args reg_func_bytes reg_func_sent
  reg_func_unpacked c f =
      read_word_lem 8 c.fat_cubin_handle _ _ f.handle
      ∙ str_field alloc gives c.host_fun _ _ f.host_fun
      ∙ read_word_lem 8 (address c.host_fun) _ _ f.addr
      ∙ str_field alloc gives c.device_fun _ _ f.device_fun
      ∙ str_field alloc gives c.device_name _ _ f.device_name
      ∙ read_word_lem 4 c.thread_limit _ _ f.thread_limit
      ∙ uint3_field alloc gives c.tid _ _ f.tid
      ∙ uint3_field alloc gives c.bid _ _ f.bid
      ∙ dim3_field alloc gives c.b_dim _ _ f.b_dim
      ∙ dim3_field alloc gives c.g_dim _ _ f.g_dim
      ∙ int_field alloc gives c.w_size _ _ f.w_size

length-reg_func_bytes :
    (c : RegFuncCall) → FuncFits c → length (reg_func_bytes c) % 2 ^ 32 ≡ l_get_size_reg_func_args c
unfolding reg_func_bytes l_get_size_reg_func_args
length-reg_func_bytes c f = omega (
  arith,
  length-field _ _ _ _ (length-le 8 c.fat_cubin_handle) (
      length-field _ _ _ _ (length-str_bytes c.host_fun f.host_fun) (
        length-field _ _ _ _ (length-le 8 (address c.host_fun)) (
          length-field _ _ _ _ (length-str_bytes c.device_fun f.device_fun) (
            length-field _ _ _ _ (length-str_bytes c.device_name f.device_name) (
              length-field _ _ _ _ (length-le 4 c.thread_limit) (
                length-field _ _ _ _ (length-ptr_uint3 c.tid) (
                  length-field _ _ _ _ (length-ptr_uint3 c.bid) (
                    length-field _ _ _ _ (length-ptr_dim3 c.b_dim) (
                      length-field _ _ _ _ (length-ptr_dim3 c.g_dim)
                        (length-field _ [] _ 0 (length-ptr_int c.w_size) refl)))))))))),
)

-- A `__cudaRegisterFunction` call is unpacked as it was packed: with memory on both sides and
-- fields of their C widths, in a packet below 2 GB, the packet fits the size that was counted for
-- it, and unpacking gives the handle, the address of `hostFun`, the strings (NULL for an empty
-- one), the limit and what the pointers point to.
pub reg_func_round_trip :
    (alloc : ℕ → Bool) (malloc : Malloc) (c : RegFuncCall) (p : ℕ) (memory : List ℕ)
    → ((n : ℕ) → alloc n ≡ true)
    → malloc (l_get_size_reg_func_args c) ≡ some (p, memory)
    → p ≢ 0
    → length memory ≡ l_get_size_reg_func_args c
    → FuncFits c
    → length (reg_func_bytes c) < 2 ^ 31
    → (bs : List ℕ) × (pack_reg_func_args malloc c
        ≡ some (record { size = l_get_size_reg_func_args c; bytes = some bs }))
      × (unpack_reg_func_args alloc bs ≡ some (some (reg_func_sent c)))
reg_func_round_trip alloc malloc c p memory gives m h k f b =
    let size : length (reg_func_bytes c) ≡ l_get_size_reg_func_args c =
      omega (arith, length-reg_func_bytes c f) in
    (
      reg_func_bytes c,
      pack_reg_func_args_lem malloc c p memory f m h k size (omega arith),
      reg_func_unpacked alloc gives c f,
    )
