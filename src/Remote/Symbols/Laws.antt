-- ===== src/Remote/Symbols/Laws.antt =====
-- remote/remote_api_wrapper.c: copies to and from symbols, in every array of fat binaries that the
-- server reaches.
use gpu_virtmem.Prelude.{
  int_size, int_size_small, ◌^◌, ◌∙◌, ap, ℕ, ◌<◌, ◌≡◌, ◌≢◌, refl, ◌⊎◌, inl, inr, Bool, List, [],
  Option, none, some, length, arith, ℕ_discrete, Each, Each-get_elem?,
}
use gpu_virtmem.Interposer.FatBinary.Unpack.{Received}
use gpu_virtmem.Interposer.FatBinary.Second.{FatCudaBinary2}
use gpu_virtmem.Interposer.Fatcubin.{FatcubinInfo}
use gpu_virtmem.Interposer.Fatcubin.HostVar.{AllFit, NoElement, IsLast, g_fcia_host_var_lem}
use gpu_virtmem.Remote.Rpc.{Rpkt}
use gpu_virtmem.Remote.Client.{Args, cuda_memcpy_host_to_device, cuda_memcpy_device_to_host}
use gpu_virtmem.Remote.Registry.{elements}
use gpu_virtmem.Remote.Registry.Remove.{IsFastRemoval}
use gpu_virtmem.Remote.Registry.Invariant.{IsEntry, IsRegistry}
use gpu_virtmem.Remote.Registry.Reach.{Reach, Reach-IsRegistry}
use gpu_virtmem.Remote.Symbols.{
  SymbolCuda, variable_at, variable_for, to_variable, memcpy_to_symbol_srv, from_variable,
  memcpy_from_symbol_srv,
}

AllFit-Each : (arr : List FatcubinInfo) → Each IsEntry arr → AllFit arr
unfolding AllFit
AllFit-Each arr f i p e =
    let h = Each-get_elem? IsEntry arr i p f e in omega (arith, h.vars_few, h.vars_long)

module _ (c : SymbolCuda) (host_malloc : ℕ → Option (List ℕ)) (req_buffer rsp_buffer : ℕ) where
  -- The search for a symbol ends, with the last variable for it, if there is one.
  pub variable_for_lem :
      (arr : List FatcubinInfo) (host_var : ℕ)
      → Each IsEntry arr
      → ((variable_for c host_malloc req_buffer rsp_buffer (some arr) host_var ≡ some none)
          × NoElement host_var arr)
        ⊎ ((i : ℕ) × (last : IsLast host_var arr i) × (variable_for c host_malloc req_buffer
                rsp_buffer
                (some arr)
                host_var
              ≡ some (some last.has.variable)))
  unfolding variable_for variable_at
  variable_for_lem arr host_var f = elim (g_fcia_host_var_lem host_var arr (AllFit-Each arr f)) [
    | inl (e, n) ↦ inl (ground (arith, e), n)
    | inr (i, last, e) ↦
        let h = Each-get_elem? IsEntry arr i last.element f last.there in
        let small : last.index < 10 = omega (arith, last.has.in_range, h.vars_few) in
        inr (i, last, ground (arith, e, small, last.has.there))
  ]

  -- The variable's copy to the device, or an error that leaves the device as it was.
  pub ToResult : List FatcubinInfo → c.Device → Rpkt Args → List ℕ → c.Device → ℕ → Type 0
  ToResult arr d p bs d' err =
      ((p.args.arg3 ≡ cuda_memcpy_host_to_device)
        × (i : ℕ) × (last : IsLast p.args.arg0 arr i) × ((err, d')
            ≡ c.to_symbol d last.has.variable bs p.args.arg2_offset))
      ⊎ ((d' ≡ d)
          × (err ≢ 0)
          × ((p.args.arg3 ≢ cuda_memcpy_host_to_device) ⊎ NoElement p.args.arg0 arr))

  to_symbol_lem :
      (arr : List FatcubinInfo) (d : c.Device) (p : Rpkt Args) (bs : List ℕ)
      → Each IsEntry arr
      → length bs ≡ p.args.arg2
      → (d' : c.Device) × (q : Rpkt Args) × (memcpy_to_symbol_srv c host_malloc req_buffer
            rsp_buffer
            (some arr, d)
            p
            bs
          ≡ some ((some arr, d'), q, []))
        × (q.method_id ≡ p.method_id)
        × ToResult arr d p bs d' q.err
  unfolding memcpy_to_symbol_srv to_variable ToResult
  to_symbol_lem arr d p bs f h = elim (ℕ_discrete p.args.arg3 1) [
    | no n ↦ elim (ℕ_discrete p.args.arg3 3) [
      | yes e ↦
          (d, record p { err = 31 }, ground (arith, n, e), refl, inr (refl, omega arith, inl n))
      | no m ↦
          (d, record p { err = 21 }, ground (arith, n, m), refl, inr (refl, omega arith, inl n))
    ]
    | yes e ↦
        let q : Rpkt Args = record p { args = record p.args { arg1 = req_buffer } } in
        elim (variable_for_lem arr p.args.arg0 f) [
          | inl (g, none_of) ↦ (
            d,
            record q { err = 13 },
            ground (arith, e, h, g),
            refl,
            inr (refl, omega arith, inr none_of),
          )
          | inr (i, last, g) ↦
              let copy = c.to_symbol d last.has.variable bs p.args.arg2_offset in
              (
                copy.1,
                record q { err = copy.0 },
                ground (arith, e, h, g),
                refl,
                inl (e, i, last, refl),
              )
        ]
  ]

  pub FromResult : List FatcubinInfo → c.Device → Rpkt Args → List ℕ → ℕ → List ℕ → Type 0
  FromResult arr d p buffer err response =
      ((p.args.arg3 ≡ cuda_memcpy_device_to_host)
        × (i : ℕ) × (last : IsLast p.args.arg0 arr i) × ((err, response)
            ≡ c.from_symbol d last.has.variable p.args.arg2 p.args.arg2_offset))
      ⊎ ((err ≢ 0)
          × (((p.args.arg3 ≢ cuda_memcpy_device_to_host) × (response ≡ []))
              ⊎ (NoElement p.args.arg0 arr × (response ≡ buffer))))

  from_symbol_lem :
      (arr : List FatcubinInfo) (d : c.Device) (p : Rpkt Args) (bs buffer : List ℕ)
      → Each IsEntry arr
      → p.args.arg2 < 2 ^ 31
      → host_malloc p.args.arg2 ≡ some buffer
      → (q : Rpkt Args) × (response : List ℕ) × (memcpy_from_symbol_srv c host_malloc req_buffer
            rsp_buffer
            (some arr, d)
            p
            bs
          ≡ some ((some arr, d), q, response))
        × (q.method_id ≡ p.method_id)
        × FromResult arr d p buffer q.err response
  unfolding memcpy_from_symbol_srv from_variable FromResult
  from_symbol_lem arr d p bs buffer f small room =
      let h : host_malloc (int_size p.args.arg2) ≡ some buffer =
        ap host_malloc (int_size_small p.args.arg2 small) ∙ room in
      elim (ℕ_discrete p.args.arg3 2) [
        | no n ↦ elim (ℕ_discrete p.args.arg3 3) [
          | yes e ↦ (
            record p { err = 31 },
            [],
            ground (arith, n, e),
            refl,
            inr (omega arith, inl (n, refl)),
          )
          | no m ↦ (
            record p { err = 21 },
            [],
            ground (arith, n, m),
            refl,
            inr (omega arith, inl (n, refl)),
          )
        ]
        | yes e ↦
            let q : Rpkt Args = record p { args = record p.args { arg1 = rsp_buffer } } in
            elim (variable_for_lem arr p.args.arg0 f) [
              | inl (g, none_of) ↦ (
                record q { err = 13 },
                buffer,
                ground (arith, e, h, g),
                refl,
                inr (omega arith, inr (none_of, refl)),
              )
              | inr (i, last, g) ↦
                  let copy = c.from_symbol d last.has.variable p.args.arg2 p.args.arg2_offset in
                  (
                    record q { err = copy.0 },
                    copy.1,
                    ground (arith, e, h, g),
                    refl,
                    inl (e, i, last, refl),
                  )
            ]
      ]

module _ (c : SymbolCuda) (host_malloc : ℕ → Option (List ℕ)) (req_buffer rsp_buffer : ℕ)
    (alloc : ℕ → Bool) (register : FatCudaBinary2 Received → ℕ)
    (remove : List FatcubinInfo → ℕ → List FatcubinInfo) where
  -- A copy to a symbol, in every array that the server reaches, with a request of as many bytes as the
  -- packet says, ends with no response. Either the direction is to the device and the bytes are copied
  -- to a variable that is registered for the symbol, of the last fat binary that has one, with the
  -- code of CUDA; or the direction is another or no variable is registered for the symbol, and the
  -- device stays as it was, with an error.
  pub Reach-memcpy_to_symbol_srv :
      (arr : List FatcubinInfo) (d : c.Device) (p : Rpkt Args) (bs : List ℕ)
      → IsFastRemoval remove
      → Reach alloc register remove (some arr)
      → length bs ≡ p.args.arg2
      → (d' : c.Device) × (q : Rpkt Args) × (memcpy_to_symbol_srv c host_malloc req_buffer
            rsp_buffer
            (some arr, d)
            p
            bs
          ≡ some ((some arr, d'), q, []))
        × (q.method_id ≡ p.method_id)
        × ToResult c host_malloc req_buffer rsp_buffer arr d p bs d' q.err
  unfolding IsRegistry elements
  Reach-memcpy_to_symbol_srv arr d p bs g r h =
      to_symbol_lem c host_malloc req_buffer rsp_buffer arr d p bs
        (Reach-IsRegistry alloc register remove (some arr) g r) h

  -- A copy of fewer than 2 ^ 31 bytes from a symbol, in every array that the server reaches, with memory
  -- for the response, ends and leaves the device as it was. Either the direction is to the host, and the code and the
  -- response are CUDA's for a variable that is registered for the symbol, of the last fat binary that
  -- has one; or the code is an error, and either the direction is another, with no response, or no
  -- variable is registered for the symbol, and the response is what `malloc` has left in the buffer.
  pub Reach-memcpy_from_symbol_srv :
      (arr : List FatcubinInfo) (d : c.Device) (p : Rpkt Args) (bs buffer : List ℕ)
      → IsFastRemoval remove
      → Reach alloc register remove (some arr)
      → p.args.arg2 < 2 ^ 31
      → host_malloc p.args.arg2 ≡ some buffer
      → (q : Rpkt Args) × (response : List ℕ) × (memcpy_from_symbol_srv c host_malloc req_buffer
            rsp_buffer
            (some arr, d)
            p
            bs
          ≡ some ((some arr, d), q, response))
        × (q.method_id ≡ p.method_id)
        × FromResult c host_malloc req_buffer rsp_buffer arr d p buffer q.err response
  unfolding IsRegistry elements
  Reach-memcpy_from_symbol_srv arr d p bs buffer g r small h =
      from_symbol_lem c host_malloc req_buffer rsp_buffer arr d p bs buffer
        (Reach-IsRegistry alloc register remove (some arr) g r) small h
