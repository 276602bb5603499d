-- ===== src/Interposer/Fields.antt =====
-- interposer/libciutils.c: the fields of a packet, strings and pointers to three numbers or to one,
-- how many bytes they take, how they are written and how they are read.
pub mod Laws
use gpu_virtmem.Prelude.{
  above_zero, as_size_t, ℕ, zero, suc, ◌+◌, ◌*◌, ◌%◌, ◌^◌, ◌-◌, Bool, true, false, ◌||◌, ◌&&◌, not,
  List, [], ◌∷◌, ◌++◌, Option, none, some, ◌>>=◌, length, take, drop, leb, ◌==◌, if◌then◌else◌, ltb,
}
use gpu_virtmem.Interposer.Bytes.{Ptr, null, at, address, le, un_le}

abbrev pub sizeof_size_pkt_field : ℕ
sizeof_size_pkt_field = 4

abbrev pub sizeof_pointer : ℕ
sizeof_pointer = 8

abbrev pub sizeof_int : ℕ
sizeof_int = 4

-- `uint3` and `dim3`, which are laid out alike.
pub record Uint3 : Type 0 where
  pub x : ℕ
  pub y : ℕ
  pub z : ℕ

-- A `char *` is its characters, up to the terminator.
abbrev pub CharPtr : Type 0
CharPtr = Ptr (List ℕ)

abbrev pub strlen : CharPtr → ℕ
strlen null = 0
strlen (at a cs) = length cs

abbrev pub characters : CharPtr → List ℕ
characters null = []
characters (at a cs) = cs

-- `l_getStringPktSize`
unfoldable pub l_get_string_pkt_size : CharPtr → ℕ
l_get_string_pkt_size null = sizeof_size_pkt_field
l_get_string_pkt_size (at a cs) =
    if length cs == 0 then sizeof_size_pkt_field else (sizeof_size_pkt_field + length cs) % 2 ^ 32

-- `l_getUint3PtrPktSize`, `l_getDim3PtrPktSize`, `l_getIntPtrPktSize`
pub l_get_uint3_ptr_pkt_size : Ptr Uint3 → ℕ
l_get_uint3_ptr_pkt_size (at a p) = sizeof_pointer + 12
l_get_uint3_ptr_pkt_size null = sizeof_pointer

pub l_get_dim3_ptr_pkt_size : Ptr Uint3 → ℕ
l_get_dim3_ptr_pkt_size (at a p) = sizeof_pointer + 12
l_get_dim3_ptr_pkt_size null = sizeof_pointer

pub l_get_int_ptr_pkt_size : Ptr ℕ → ℕ
l_get_int_ptr_pkt_size (at a p) = sizeof_pointer + sizeof_int
l_get_int_ptr_pkt_size null = sizeof_pointer

-- The writers: the bytes written from the address `p_dst` on, as many as the offset that is returned
-- says, or `none` for `ERROR`.
pub l_pack_str : ℕ → CharPtr → Option (List ℕ)
l_pack_str p_dst p_src =
    let len = strlen p_src % 2 ^ 32 in
    if p_dst == 0
    then none
    else some (
        le sizeof_size_pkt_field len
        ++ (if above_zero len then take len (characters p_src) else []))

unfoldable pub pack_triple : Uint3 → List ℕ
pack_triple u = le 4 u.x ++ (le 4 u.y ++ le 4 u.z)

pub l_pack_uint3_ptr : ℕ → Ptr Uint3 → Option (List ℕ)
l_pack_uint3_ptr p_dst null = if p_dst == 0 then none else some (le sizeof_pointer 0)
l_pack_uint3_ptr p_dst (at a u) =
    if p_dst == 0 then none else some (le sizeof_pointer a ++ pack_triple u)

pub l_pack_dim3_ptr : ℕ → Ptr Uint3 → Option (List ℕ)
l_pack_dim3_ptr p_dst null = if p_dst == 0 then none else some (le sizeof_pointer 0)
l_pack_dim3_ptr p_dst (at a u) =
    if p_dst == 0 then none else some (le sizeof_pointer a ++ pack_triple u)

pub l_pack_int_ptr : ℕ → Ptr ℕ → Option (List ℕ)
l_pack_int_ptr p_dst null = if p_dst == 0 then none else some (le sizeof_pointer 0)
l_pack_int_ptr p_dst (at a v) =
    if p_dst == 0 then none else some (le sizeof_pointer a ++ le sizeof_int v)

-- What a reader leaves: the new object, `none` for NULL, and `*pOffset`, `none` for `ERROR`.
pub record Unpacked (A : Type 0) : Type 0 where
  pub value : Option A
  pub offset : Option ℕ

-- The readers. The packet is the bytes from `pSrc` on, `none` for NULL, and `alloc n` says whether
-- `malloc(n)` gives memory. The result is `none` for a read behind the packet.
pub l_unpack_str : (ℕ → Bool) → Option ℕ → Option (List ℕ) → Option (Unpacked (List ℕ))
l_unpack_str alloc offset none = some (record { value = none; offset = offset })
l_unpack_str alloc offset (some src) = un_le sizeof_size_pkt_field src >>= (λ len.
    let body = drop sizeof_size_pkt_field src in
    if len == 0 || not (alloc ((len + 1) % 2 ^ 32))
    then some (record { value = none; offset = some sizeof_size_pkt_field })
    else if leb len (length body)
    then some (record {
      value = some (take len body);
      offset = some ((sizeof_size_pkt_field + len) % 2 ^ 32);
    })
    else none)

pub unpack_triple : List ℕ → Option Uint3
unpack_triple src = un_le 4 src >>= (λ x.
    un_le 4 (drop 4 src)
    >>= (λ y. un_le 4 (drop 8 src) >>= (λ z. some (record { x = x; y = y; z = z }))))

pub l_unpack_uint3_ptr : (ℕ → Bool) → Option (List ℕ) → Option (Unpacked Uint3)
l_unpack_uint3_ptr alloc none = some (record { value = none; offset = none })
l_unpack_uint3_ptr alloc (some src) = un_le sizeof_pointer src >>= (λ p.
    if p == 0
    then some (record { value = none; offset = some sizeof_pointer })
    else if not (alloc 12)
    then some (record { value = none; offset = none })
    else unpack_triple (drop sizeof_pointer src)
      >>= (λ u. some (record { value = some u; offset = some (sizeof_pointer + 12) })))

pub l_unpack_dim3_ptr : (ℕ → Bool) → Option (List ℕ) → Option (Unpacked Uint3)
l_unpack_dim3_ptr alloc none = some (record { value = none; offset = none })
l_unpack_dim3_ptr alloc (some src) = un_le sizeof_pointer src >>= (λ p.
    if p == 0
    then some (record { value = none; offset = some sizeof_pointer })
    else if not (alloc 12)
    then some (record { value = none; offset = none })
    else unpack_triple (drop sizeof_pointer src)
      >>= (λ u. some (record { value = some u; offset = some (sizeof_pointer + 12) })))

pub l_unpack_int_ptr : (ℕ → Bool) → Option (List ℕ) → Option (Unpacked ℕ)
l_unpack_int_ptr alloc none = some (record { value = none; offset = none })
l_unpack_int_ptr alloc (some src) = un_le sizeof_pointer src >>= (λ p.
    if p == 0
    then some (record { value = none; offset = some sizeof_pointer })
    else if not (alloc 4)
    then some (record { value = none; offset = none })
    else un_le sizeof_int (drop sizeof_pointer src)
      >>= (λ v. some (record { value = some v; offset = some (sizeof_pointer + sizeof_int) })))
