-- ===== src/Remote/Symbols/Copies.antt =====
-- interposer/libci.c, `rcudaMemcpyToSymbol` and `rcudaMemcpyFromSymbol`, with the table of variables at
-- the client and the array of fat binaries at the server.
use gpu_virtmem.Prelude.{
  int_size_small, ◌<◌, ◌^◌, ℕ, ◌≡◌, ◌≢◌, refl, subst, ◌⊎◌, inl, inr, Bool, true, List, Option, none,
  some, length, ◌==◌, if◌then◌else◌, arith, ℕ_discrete, Each,
}
use gpu_virtmem.Interposer.FatBinary.Unpack.{Received}
use gpu_virtmem.Interposer.FatBinary.Second.{FatCudaBinary2}
use gpu_virtmem.Interposer.Calls.{RegVarArgs}
use gpu_virtmem.Interposer.Fatcubin.{FatcubinInfo}
use gpu_virtmem.Interposer.Fatcubin.HostVar.{NoElement, IsLast}
use gpu_virtmem.Interposer.Vars.{VarsVal, HashTable, HashTableLaws, g_vars_find}
use gpu_virtmem.Interposer.Vars.Laws.{IsRegistered, g_vars_find_lem}
use gpu_virtmem.Remote.Rpc.{Rpkt, Handlers}
use gpu_virtmem.Remote.Client.{Args, Memory, read_bytes, write_bytes}
use gpu_virtmem.Remote.Client.Laws.{IsBuffer, connected}
use gpu_virtmem.Remote.Memory.Laws.{length-read_bytes, read_bytes-write_bytes}
use gpu_virtmem.Remote.Entry.{init_packet, CallResult, cuda_error_unknown}
use gpu_virtmem.Remote.Entry.Calls.{rcuda_memcpy_to_symbol, rcuda_memcpy_from_symbol}
use gpu_virtmem.Remote.Registry.{elements}
use gpu_virtmem.Remote.Registry.Remove.{IsFastRemoval}
use gpu_virtmem.Remote.Registry.Invariant.{IsEntry, IsRegistry}
use gpu_virtmem.Remote.Registry.Reach.{Reach, Reach-IsRegistry}
use gpu_virtmem.Remote.Symbols.{
  SymbolCuda, State, variable_for, to_variable, memcpy_to_symbol_srv, from_variable,
  memcpy_from_symbol_srv,
}
use gpu_virtmem.Remote.Symbols.Sent.{to_packet, from_packet, sent_to_symbol, sent_from_symbol}
use gpu_virtmem.Remote.Symbols.Laws.{variable_for_lem}

-- A copy to a symbol that succeeds is what a copy from it reads, at the same offset.
pub record SymbolLaws (c : SymbolCuda) : Type 0 where
  pub from-to :
      (d : c.Device) (v : RegVarArgs) (bs : List ℕ) (offset : ℕ)
      → (c.to_symbol d v bs offset).0 ≡ 0
      → c.from_symbol (c.to_symbol d v bs offset).1 v (length bs) offset ≡ (0, bs)

module _ (c : SymbolCuda) (laws : SymbolLaws c) (host_malloc : ℕ → Option (List ℕ))
    (req_buffer rsp_buffer : ℕ) (alloc : ℕ → Bool) (register : FatCudaBinary2 Received → ℕ)
    (remove : List FatcubinInfo → ℕ → List FatcubinInfo) (g : HashTable) (vars : HashTableLaws g)
    (h : Handlers Args (State c host_malloc req_buffer rsp_buffer)) where
  -- The server with its handlers for symbols.
  abbrev pub with_symbols : Handlers Args (State c host_malloc req_buffer rsp_buffer)
  with_symbols = record h {
    memcpy_to_symbol = memcpy_to_symbol_srv c host_malloc req_buffer rsp_buffer;
    memcpy_from_symbol = memcpy_from_symbol_srv c host_malloc req_buffer rsp_buffer;
  }

  -- The copy back of what was copied to a variable that both sides know.
  copied_back :
      (arr : List FatcubinInfo) (d : c.Device) (v : RegVarArgs) (mem : Memory)
      (string_at : ℕ → List ℕ) (tab : Option g.Table) (symbol : Option ℕ) (host_var : ℕ)
      (src dst count offset : ℕ) (buffer : List ℕ)
      → g_vars_find g string_at tab symbol ≡ some host_var
      → variable_for c host_malloc req_buffer rsp_buffer (some arr) host_var ≡ some (some v)
      → count < 2 ^ 31
      → IsBuffer dst count
      → host_malloc count ≡ some buffer
      → (c.to_symbol d v (read_bytes mem src count) offset).0 ≡ 0
      → rcuda_memcpy_from_symbol
          (connected with_symbols)
          true
          g
          string_at
          tab
          symbol
          dst
          count
          offset
          2
          (some arr, (c.to_symbol d v (read_bytes mem src count) offset).1)
          mem
        ≡ some (record {
          state = (some arr, (c.to_symbol d v (read_bytes mem src count) offset).1);
          memory = write_bytes mem dst (read_bytes mem src count);
          cuda_err = 0;
          stored = none;
        })
  unfolding memcpy_from_symbol_srv from_variable init_packet
  copied_back arr d v mem string_at tab symbol host_var src dst count offset buffer found known
        small u room e =
      let bytes : List ℕ = read_bytes mem src count in
      let d' = (c.to_symbol d v bytes offset).1 in
      let n : length bytes ≡ count = length-read_bytes mem src count in
      let read : c.from_symbol d' v count offset ≡ (0, bytes) =
        subst (λ i. c.from_symbol d' v i offset ≡ (0, bytes)) n (laws.from-to d v bytes offset e) in
      let p : Rpkt Args = from_packet host_var dst count offset in
      sent_from_symbol with_symbols g string_at tab symbol host_var found (some arr, d')
        (some arr, d') mem (record p { args = record p.args { arg1 = rsp_buffer }; err = 0 }) bytes
        dst count offset (ground (arith, known, int_size_small count small, room, read)) refl
        (omega (arith, n)) u

  -- The address of a registered variable is found as itself.
  registered_found :
      (string_at : ℕ → List ℕ) (t : g.Table) (v : VarsVal)
      → IsRegistered g vars t v
      → g_vars_find g string_at (some t) (some v.host_var) ≡ some v.host_var
  registered_found string_at t v r = elim (g_vars_find_lem g vars string_at t v.host_var) [
    | inl (w, there, same, e) ↦ e
    | inr (n, other) ↦ absurd (n v r refl)
  ]

  -- An application that copies `count` bytes to a symbol, given by the address of a variable that its
  -- table holds, in every array that the server reaches, ends, where `src` and `dst` are not NULL or
  -- `count` is 0, and `count` fits an `int`. Either no variable is
  -- registered for it at the server, and the call changes nothing and returns `cudaErrorUnknown`. Or CUDA fails for the
  -- last variable registered for it, and the call returns `cudaErrorUnknown`. Or the call returns 0, and
  -- then a copy of as many bytes from the symbol to `dst`, at the same offset and with memory for the
  -- response, returns 0, too, and leaves the same bytes at `dst`.
  pub symbol_copies_lem :
      (arr : List FatcubinInfo) (d : c.Device) (mem : Memory) (string_at : ℕ → List ℕ) (t : g.Table)
      (v : VarsVal) (src dst count offset : ℕ) (buffer : List ℕ)
      → IsFastRemoval remove
      → Reach alloc register remove (some arr)
      → IsRegistered g vars t v
      → count < 2 ^ 31
      → IsBuffer src count
      → IsBuffer dst count
      → host_malloc count ≡ some buffer
      → (r : CallResult (State c host_malloc req_buffer rsp_buffer)) × (rcuda_memcpy_to_symbol
            (connected with_symbols)
            true
            g
            string_at
            (some t)
            (some v.host_var)
            src
            count
            offset
            1
            (some arr, d)
            mem
          ≡ some r)
        × ((NoElement v.host_var arr
              × (r ≡ record { state = (some arr, d); memory = mem; cuda_err = 30; stored = none }))
            ⊎ ((i : ℕ) × (last : IsLast v.host_var arr i) × ((((c.to_symbol d last.has.variable
                        (read_bytes mem src count)
                        offset).0
                      ≢ 0)
                    × (r.cuda_err ≡ 30))
                  ⊎ ((r.cuda_err ≡ 0)
                      × (q : CallResult (State c host_malloc req_buffer rsp_buffer))
                      × (rcuda_memcpy_from_symbol
                            (connected with_symbols)
                            true
                            g
                            string_at
                            (some t)
                            (some v.host_var)
                            dst
                            count
                            offset
                            2
                            r.state
                            r.memory
                          ≡ some q)
                      × (q.cuda_err ≡ 0)
                      × (read_bytes q.memory dst count ≡ read_bytes mem src count)))))
  unfolding IsRegistry elements memcpy_to_symbol_srv to_variable init_packet
  symbol_copies_lem arr d mem string_at t v src dst count offset buffer fast reached r small su du
        room =
      let bytes : List ℕ = read_bytes mem src count in
      let n : length bytes ≡ count = length-read_bytes mem src count in
      let found = registered_found string_at t v r in
      let p : Rpkt Args = to_packet v.host_var src count offset in
      let q : Rpkt Args = record p { args = record p.args { arg1 = req_buffer } } in
      let entries : Each IsEntry arr =
        Reach-IsRegistry alloc register remove (some arr) fast reached in
      elim (variable_for_lem c host_malloc req_buffer rsp_buffer arr v.host_var entries) [
        | inl (e, none_of) ↦ (
          record { state = (some arr, d); memory = mem; cuda_err = 30; stored = none },
          sent_to_symbol with_symbols g string_at (some t) (some v.host_var) v.host_var found
              (some arr, d) (some arr, d) mem (record q { err = 13 }) src count offset
              (ground (arith, e, n)) refl su,
          inl (none_of, refl),
        )
        | inr (i, last, e) ↦
            let w : RegVarArgs = last.has.variable in
            let copy = c.to_symbol d w bytes offset in
            (
              record {
                state = (some arr, copy.1);
                memory = mem;
                cuda_err = if copy.0 == 0 then copy.0 else cuda_error_unknown;
                stored = none;
              },
              sent_to_symbol with_symbols g string_at (some t) (some v.host_var) v.host_var found
                  (some arr, d) (some arr, copy.1) mem (record q { err = copy.0 }) src count offset
                  (ground (arith, e, n)) refl su,
              inr (
                i,
                last,
                elim (ℕ_discrete copy.0 0) [
                  | no f ↦ inl (f, ground (arith, f))
                  | yes f ↦ inr (
                    ground (arith, f),
                    record {
                      state = (some arr, copy.1);
                      memory = write_bytes mem dst bytes;
                      cuda_err = 0;
                      stored = none;
                    },
                    copied_back arr d w mem string_at (some t) (some v.host_var) v.host_var src dst
                        count offset buffer found e small du room f,
                    refl,
                    subst (λ k. read_bytes (write_bytes mem dst bytes) dst k ≡ bytes) n
                        (read_bytes-write_bytes mem dst bytes),
                  )
                ],
              ),
            )
      ]
