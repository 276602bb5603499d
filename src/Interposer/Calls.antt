-- ===== src/Interposer/Calls.antt =====
-- interposer/libciutils.c: the packets of `__cudaRegisterFunction` and `__cudaRegisterVar`, and
-- include/packetheader.h: what they are unpacked to.
pub mod Steps
pub mod RegFunc
pub mod RegVar
mod Tests
use gpu_virtmem.Prelude.{
  as_size_t, ℕ, zero, suc, ◌+◌, ◌-◌, ◌*◌, ◌%◌, ◌^◌, Bool, List, [], ◌∷◌, ◌++◌, Option, none, some,
  ◌>>=◌, length, take, drop, leb, if◌then◌else◌,
}
use gpu_virtmem.Interposer.Bytes.{Ptr, address, le, un_le}
use gpu_virtmem.Interposer.Fields.{
  Uint3, CharPtr, Unpacked, sizeof_pointer, sizeof_int, l_get_string_pkt_size,
  l_get_uint3_ptr_pkt_size, l_get_dim3_ptr_pkt_size, l_get_int_ptr_pkt_size, l_pack_str,
  l_pack_uint3_ptr, l_pack_dim3_ptr, l_pack_int_ptr, l_unpack_str, l_unpack_uint3_ptr,
  l_unpack_dim3_ptr, l_unpack_int_ptr,
}

-- The arguments of `__cudaRegisterFunction`.
pub record RegFuncCall : Type 0 where
  pub fat_cubin_handle : ℕ
  pub host_fun : CharPtr
  pub device_fun : CharPtr
  pub device_name : CharPtr
  pub thread_limit : ℕ
  pub tid : Ptr Uint3
  pub bid : Ptr Uint3
  pub b_dim : Ptr Uint3
  pub g_dim : Ptr Uint3
  pub w_size : Ptr ℕ

-- `reg_func_args_t`
pub record RegFuncArgs : Type 0 where
  pub fat_cubin_handle : ℕ
  pub host_fun : Option (List ℕ)
  pub host_fe_addr : ℕ
  pub device_fun : Option (List ℕ)
  pub device_name : Option (List ℕ)
  pub thread_limit : ℕ
  pub tid : Option Uint3
  pub bid : Option Uint3
  pub b_dim : Option Uint3
  pub g_dim : Option Uint3
  pub w_size : Option ℕ

-- The arguments of `__cudaRegisterVar`.
pub record RegVarCall : Type 0 where
  pub fat_cubin_handle : ℕ
  pub host_var : ℕ
  pub device_address : CharPtr
  pub device_name : CharPtr
  pub ext : ℕ
  pub vsize : ℕ
  pub constant : ℕ
  pub global : ℕ

-- `reg_var_args_t`; `has_dom0_host_addr` says whether there is memory behind `dom0HostAddr`.
pub record RegVarArgs : Type 0 where
  pub fat_cubin_handle : ℕ
  pub host_var : ℕ
  pub has_dom0_host_addr : Bool
  pub device_address : Option (List ℕ)
  pub device_name : Option (List ℕ)
  pub ext : ℕ
  pub size : ℕ
  pub constant : ℕ
  pub global : ℕ

-- `l_getSize_regFuncArgs`, as the bit pattern of an `int`.
pub l_get_size_reg_func_args : RegFuncCall → ℕ
l_get_size_reg_func_args c =
    (sizeof_pointer
      + l_get_string_pkt_size c.host_fun
      + sizeof_pointer
      + l_get_string_pkt_size c.device_fun
      + l_get_string_pkt_size c.device_name
      + sizeof_int
      + l_get_uint3_ptr_pkt_size c.tid
      + l_get_uint3_ptr_pkt_size c.bid
      + l_get_dim3_ptr_pkt_size c.b_dim
      + l_get_dim3_ptr_pkt_size c.g_dim
      + l_get_int_ptr_pkt_size c.w_size)
    % 2 ^ 32

-- `l_getSize_regVar`
pub l_get_size_reg_var : RegVarCall → ℕ
l_get_size_reg_var c =
    (sizeof_pointer
      + sizeof_pointer
      + l_get_string_pkt_size c.device_address
      + l_get_string_pkt_size c.device_name
      + sizeof_int
      + sizeof_int
      + sizeof_int
      + sizeof_int)
    % 2 ^ 32

-- The fields one behind the other, each written at the address that the offsets have led to.
pub write_fields : ℕ → List (ℕ → Option (List ℕ)) → Option (List ℕ)
write_fields p [] = some []
write_fields p (w ∷ ws) =
    w p >>= (λ bs. write_fields (p + length bs) ws >>= (λ rest. some (bs ++ rest)))

-- `malloc`: an address and the bytes that are there.
abbrev pub Malloc : Type 0
Malloc = ℕ → Option (ℕ × List ℕ)

-- `*pSize`, and the packet, `none` for NULL.
pub record Packet : Type 0 where
  pub size : ℕ
  pub bytes : Option (List ℕ)

-- The packet that is written into `size` bytes of new memory; `none` is a write behind them.
pub packed : Malloc → ℕ → List (ℕ → Option (List ℕ)) → Option Packet
packed malloc size fields = elim (malloc (as_size_t size)) [
  | none ↦ some (record { size = size; bytes = none })
  | some (p, memory) ↦ elim (write_fields p fields) [
    | none ↦ some (record { size = size; bytes = none })
    | some bs ↦
        if leb (length bs) (length memory)
        then some (record { size = size; bytes = some (bs ++ drop (length bs) memory) })
        else none
  ]
]

-- A word that is stored without a function of its own.
abbrev pub word : ℕ → ℕ → ℕ → Option (List ℕ)
word k v p = some (le k v)

-- `packRegFuncArgs`
pub pack_reg_func_args : Malloc → RegFuncCall → Option Packet
pack_reg_func_args malloc c = packed malloc (l_get_size_reg_func_args c) (
    word 8 c.fat_cubin_handle
    ∷ (λ p. l_pack_str p c.host_fun)
    ∷ word 8 (address c.host_fun)
    ∷ (λ p. l_pack_str p c.device_fun)
    ∷ (λ p. l_pack_str p c.device_name)
    ∷ word 4 c.thread_limit
    ∷ (λ p. l_pack_uint3_ptr p c.tid)
    ∷ (λ p. l_pack_uint3_ptr p c.bid)
    ∷ (λ p. l_pack_dim3_ptr p c.b_dim)
    ∷ (λ p. l_pack_dim3_ptr p c.g_dim)
    ∷ (λ p. l_pack_int_ptr p c.w_size)
    ∷ [])

-- `packRegVar`
pub pack_reg_var : Malloc → RegVarCall → Option Packet
pack_reg_var malloc c = packed malloc (l_get_size_reg_var c) (
    word 8 c.fat_cubin_handle
    ∷ word 8 c.host_var
    ∷ (λ p. l_pack_str p c.device_address)
    ∷ (λ p. l_pack_str p c.device_name)
    ∷ word 4 c.ext
    ∷ word 4 c.vsize
    ∷ word 4 c.constant
    ∷ word 4 c.global
    ∷ [])

-- A word at `src`, and what is done with it and the bytes behind it.
pub read_word : {R : Type 0} → ℕ → List ℕ → (ℕ → List ℕ → Option R) → Option R
read_word n src k = un_le n src >>= (λ v. k v (drop n src))

-- `if( ERROR == offset ) return ERROR; else pPacket += offset;`: the inner `none` is `ERROR`.
pub read_field :
    {A R : Type 0}
    → Option (Unpacked A)
    → List ℕ
    → (Option A → List ℕ → Option (Option R))
    → Option (Option R)
read_field none src k = none
read_field (some u) src k = elim u.offset [ none ↦ some none | some n ↦ k u.value (drop n src) ]

-- `unpackRegFuncArgs`. The packet is not NULL, so that no offset is left from before.
pub unpack_reg_func_args : (ℕ → Bool) → List ℕ → Option (Option RegFuncArgs)
unpack_reg_func_args alloc src = read_word 8 src (λ handle s₁.
    read_field (l_unpack_str alloc (some 0) (some s₁)) s₁ (λ host_fun s₂. read_word 8 s₂ (λ addr s₃.
      read_field (l_unpack_str alloc (some 0) (some s₃)) s₃ (λ device_fun s₄.
        read_field (l_unpack_str alloc (some 0) (some s₄)) s₄ (λ device_name s₅.
          read_word 4 s₅ (λ thread_limit s₆.
            read_field (l_unpack_uint3_ptr alloc (some s₆)) s₆ (λ tid s₇.
              read_field (l_unpack_uint3_ptr alloc (some s₇)) s₇ (λ bid s₈.
                read_field (l_unpack_dim3_ptr alloc (some s₈)) s₈ (λ b_dim s₉.
                  read_field (l_unpack_dim3_ptr alloc (some s₉)) s₉ (λ g_dim t.
                    read_field (l_unpack_int_ptr alloc (some t)) t (λ w_size end. some (
                      some (record {
                        fat_cubin_handle = handle;
                        host_fun = host_fun;
                        host_fe_addr = addr;
                        device_fun = device_fun;
                        device_name = device_name;
                        thread_limit = thread_limit;
                        tid = tid;
                        bid = bid;
                        b_dim = b_dim;
                        g_dim = g_dim;
                        w_size = w_size;
                      })))))))))))))

-- `unpackRegVar`
pub unpack_reg_var : (ℕ → Bool) → List ℕ → Option (Option RegVarArgs)
unpack_reg_var alloc src = read_word 8 src (λ handle s₁. read_word 8 s₁ (λ host_var s₂.
    read_field (l_unpack_str alloc (some 0) (some s₂)) s₂ (λ device_address s₃.
      read_field (l_unpack_str alloc (some 0) (some s₃)) s₃ (λ device_name s₄.
        read_word 4 s₄ (λ ext s₅. read_word 4 s₅ (λ size s₆. read_word 4 s₆ (λ constant s₇.
          read_word 4 s₇ (λ global end. some (
            some (record {
              fat_cubin_handle = handle;
              host_var = host_var;
              has_dom0_host_addr = alloc 1;
              device_address = device_address;
              device_name = device_name;
              ext = ext;
              size = size;
              constant = constant;
              global = global;
            }))))))))))
