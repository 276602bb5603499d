-- ===== src/Remote/Registry/Launch.antt =====
-- remote/remote_api_wrapper.c and interposer/libciutils.c: from the packet of a registration to the
-- launch of the function.
use gpu_virtmem.Prelude.{
  ◌++◌, ℕ, ◌^◌, ◌<◌, ◌≡◌, ◌≢◌, inl, inr, Bool, true, List, [], ◌∷◌, Option, none, some, length,
  arith, ◌==◌, if◌then◌else◌, get_elem?, set,
}
use gpu_virtmem.Interposer.Bytes.{address}
use gpu_virtmem.Interposer.Calls.{
  RegFuncCall, RegFuncArgs, Malloc, l_get_size_reg_func_args, pack_reg_func_args,
  unpack_reg_func_args,
}
use gpu_virtmem.Interposer.Calls.RegFunc.{
  FuncFits, reg_func_bytes, reg_func_sent, reg_func_round_trip,
}
use gpu_virtmem.Interposer.Fields.{CharPtr}
use gpu_virtmem.Interposer.FatBinary.Unpack.{Received}
use gpu_virtmem.Interposer.FatBinary.Second.{FatCudaBinary2}
use gpu_virtmem.Interposer.FatBinary.Second.RoundTrip.{
  Binary2Fits, sent_binary2, fat_binary2_round_trip,
}
use gpu_virtmem.Interposer.Fatcubin.{FatcubinInfo}
use gpu_virtmem.Interposer.Fatcubin.Handle.{NoHandle, g_fcia_elidx_lem}
use gpu_virtmem.Remote.Registry.{
  cleared_info, register_fat_binary2_srv, elements, element_of, add_function, with_function,
  register_function_srv, launched_function, max_registered_funcs,
}
use gpu_virtmem.Remote.Registry.Find.{search_from-with_function}

-- There is an element with the handle, with a free slot, and no function for the entry.
pub record HasRoom (handle entry : ℕ) (arr : List FatcubinInfo) : Type 0 where
  pub short : length arr < 2 ^ 31
  pub index : ℕ
  pub element : FatcubinInfo
  pub there : get_elem? arr index ≡ some element
  pub has : element.fat_cubin_handle ≡ handle
  pub free :
      (j : ℕ) (e : FatcubinInfo)
      → get_elem? arr j ≡ some e
      → e.fat_cubin_handle ≡ handle
      → (e.num_reg_fns < max_registered_funcs) × (length e.reg_fns ≡ max_registered_funcs)
  pub unknown : launched_function (some arr) entry ≡ some none

element_of-first :
    (handle entry : ℕ) (arr : List FatcubinInfo)
    → HasRoom handle entry arr
    → (i : ℕ) × (e : FatcubinInfo) × (element_of (some arr) handle ≡ some (e, i))
      × (get_elem? arr i ≡ some e)
      × (e.num_reg_fns < max_registered_funcs)
      × (length e.reg_fns ≡ max_registered_funcs)
unfolding element_of NoHandle
element_of-first handle entry arr r = elim (g_fcia_elidx_lem handle arr r.short) [
  | inl (q, none_of) ↦ absurd (none_of r.index r.element r.there r.has)
  | inr (i, first, q) ↦
      let (few, long) = r.free i first.element first.there first.has in
      (i, first.element, ground (arith, q), first.there, few, long)
]

register_function_srv_lem :
    (alloc : ℕ → Bool) (arr : List FatcubinInfo) (buffer : List ℕ) (a : RegFuncArgs)
    → unpack_reg_func_args alloc buffer ≡ some (some a)
    → HasRoom a.fat_cubin_handle a.host_fe_addr arr
    → (new : List FatcubinInfo) × (register_function_srv alloc (some arr) buffer ≡ some new)
      × ((arg : ℕ)
          → launched_function (some new) arg
            ≡ (if a.host_fe_addr == arg then some (some a) else launched_function (some arr) arg))
unfolding register_function_srv add_function elements launched_function
register_function_srv_lem alloc arr buffer a u r =
    let (i, e, q, there, few, long) = element_of-first a.fat_cubin_handle a.host_fe_addr arr r in
    (
      set arr i (with_function e a),
      ground (arith, u, q, few),
      λ arg. search_from-with_function arg i arr e a there (omega (arith, few, long)) r.unknown,
    )

-- A kernel that a client registers is the one that its launches run: with memory on both sides, an
-- argument of its C width each, a packet below 2 GB, a registered fat binary with the call's handle
-- and a free slot, and no function yet for the call's entry, the client's packet is made, the server
-- puts it into its array, and from then on a launch of the entry finds the call's arguments, and a
-- launch of any other entry finds what it found before.
pub registered_function_launched :
    (alloc : ℕ → Bool) (malloc : Malloc) (c : RegFuncCall) (p : ℕ) (memory : List ℕ)
    (arr : List FatcubinInfo)
    → ((n : ℕ) → alloc n ≡ true)
    → malloc (l_get_size_reg_func_args c) ≡ some (p, memory)
    → p ≢ 0
    → length memory ≡ l_get_size_reg_func_args c
    → FuncFits c
    → length (reg_func_bytes c) < 2 ^ 31
    → HasRoom c.fat_cubin_handle (address c.host_fun) arr
    → (bs : List ℕ) × (new : List FatcubinInfo) × (pack_reg_func_args malloc c
        ≡ some (record { size = l_get_size_reg_func_args c; bytes = some bs }))
      × (register_function_srv alloc (some arr) bs ≡ some new)
      × ((arg : ℕ)
          → launched_function (some new) arg ≡ (
              if address c.host_fun == arg
              then some (some (reg_func_sent c))
              else launched_function (some arr) arg))
unfolding reg_func_sent
registered_function_launched alloc malloc c p memory arr gives m h k f b r =
    let (bs, packed, unpacked) = reg_func_round_trip alloc malloc c p memory gives m h k f b in
    let (new, done, found) = register_function_srv_lem alloc arr bs (reg_func_sent c) unpacked r in
    (bs, new, packed, done, found)

-- A fat binary of a client is put into the array, with the handle that CUDA gives for it.
pub registered_fat_binary :
    (alloc : ℕ → Bool) (register : FatCudaBinary2 Received → ℕ) (s : Option (List FatcubinInfo))
    (c : FatCudaBinary2 CharPtr) (p : ℕ)
    → ((n : ℕ) → alloc n ≡ true)
    → p ≢ 0
    → Binary2Fits c
    → (bs : List ℕ) × (register_fat_binary2_srv alloc register s (bs ++ [])
        ≡ some (
          register (sent_binary2 c),
          elements s ++ (cleared_info (register (sent_binary2 c)) ∷ []),
        ))
unfolding register_fat_binary2_srv
registered_fat_binary alloc register s c p gives h f =
    let (bs, packed, n, unpacked) = fat_binary2_round_trip alloc c p [] gives h f in
    (bs, ground (arith, unpacked))
