-- ===== src/Remote/Symbols.antt =====
-- remote/remote_api_wrapper.c, `nvbackCudaMemcpyToSymbol_srv` and `nvbackCudaMemcpyFromSymbol_srv`,
-- over the array of registered fat binaries. The copies of CUDA and `malloc` are parameters.
pub mod Laws
pub mod Sent
pub mod Copies
mod Tests
use gpu_virtmem.Prelude.{
  ℕ, Bool, true, false, List, [], ◌∷◌, Option, none, some, ◌>>=◌, ◌==◌, if◌then◌else◌, length, ltb,
  int_size, ℤ, pos, negsuc, get_elem?,
}
use gpu_virtmem.Interposer.Calls.{RegVarArgs}
use gpu_virtmem.Interposer.Fatcubin.{FatcubinInfo, g_fcia_host_var}
use gpu_virtmem.Remote.Rpc.{Rpkt, Handler}
use gpu_virtmem.Remote.Client.{
  Args, cuda_memcpy_host_to_device, cuda_memcpy_device_to_host, cuda_memcpy_device_to_device,
  cuda_error_invalid_memcpy_direction,
}
use gpu_virtmem.Remote.Registry.{max_registered_vars}

abbrev pub cuda_error_invalid_symbol : ℕ
cuda_error_invalid_symbol = 13

abbrev pub cuda_error_not_yet_implemented : ℕ
cuda_error_not_yet_implemented = 31

-- `cudaMemcpyToSymbol` and `cudaMemcpyFromSymbol` for the symbol `dom0HostAddr` of a variable, with the
-- bytes or their number, and the offset: the error code, and what changes.
pub record SymbolCuda : Type 1 where
  pub Device : Type 0
  pub to_symbol : Device → RegVarArgs → List ℕ → ℕ → ℕ × Device
  pub from_symbol : Device → RegVarArgs → ℕ → ℕ → ℕ × List ℕ

-- `p->variables[idx]` after the assertions about `idx`; `none` is a failed assertion or NULL.
unfoldable pub variable_at : FatcubinInfo → ℤ → Option RegVarArgs
variable_at e (negsuc n) = none
variable_at e (pos i) =
    if ltb i max_registered_vars then get_elem? e.variables i >>= (λ v. v) else none

module _ (c : SymbolCuda) (host_malloc : ℕ → Option (List ℕ)) (req_buffer rsp_buffer : ℕ) where
  -- `fatCInfoArr` and the device.
  abbrev pub State : Type 0
  State = Option (List FatcubinInfo) × c.Device

  -- The variable for a symbol, `none` inside where `g_fcia_host_var` gives NULL.
  unfoldable pub variable_for : Option (List FatcubinInfo) → ℕ → Option (Option RegVarArgs)
  variable_for arr host_var = g_fcia_host_var arr host_var >>= (λ found. elim found.0 [
    | none ↦ some none
    | some e ↦ variable_at e found.1 >>= (λ v. some (some v))
  ])

  unfoldable pub to_variable :
      State → Rpkt Args → List ℕ → Option RegVarArgs → State × Rpkt Args × List ℕ
  to_variable s p bs none = (s, record p { err = cuda_error_invalid_symbol }, [])
  to_variable s p bs (some v) =
      let copy = c.to_symbol s.1 v bs p.args.arg2_offset in
      ((s.0, copy.1), record p { err = copy.0 }, [])

  -- `nvbackCudaMemcpyToSymbol_srv`
  unfoldable pub memcpy_to_symbol_srv : Handler Args State
  memcpy_to_symbol_srv s p bs =
      if p.args.arg3 == cuda_memcpy_host_to_device
      then (if length bs == p.args.arg2
          then variable_for s.0 p.args.arg0 >>= (λ v.
            some (to_variable s (record p { args = record p.args { arg1 = req_buffer } }) bs v))
          else none)
      else if p.args.arg3 == cuda_memcpy_device_to_device
      then some (s, record p { err = cuda_error_not_yet_implemented }, [])
      else some (s, record p { err = cuda_error_invalid_memcpy_direction }, [])

  -- `buffer` is the response buffer as `malloc` gives it, and is sent whatever happens.
  unfoldable pub from_variable :
      State → Rpkt Args → List ℕ → Option RegVarArgs → State × Rpkt Args × List ℕ
  from_variable s p buffer none = (s, record p { err = cuda_error_invalid_symbol }, buffer)
  from_variable s p buffer (some v) =
      let copy = c.from_symbol s.1 v p.args.arg2 p.args.arg2_offset in
      (s, record p { err = copy.0 }, copy.1)

  -- `nvbackCudaMemcpyFromSymbol_srv`; without memory for the buffer a response from NULL is sent.
  unfoldable pub memcpy_from_symbol_srv : Handler Args State
  memcpy_from_symbol_srv s p bs =
      if p.args.arg3 == cuda_memcpy_device_to_host
      then host_malloc (int_size p.args.arg2) >>= (λ buffer. variable_for s.0 p.args.arg0 >>= (λ v.
        some (from_variable s (record p { args = record p.args { arg1 = rsp_buffer } }) buffer v)))
      else if p.args.arg3 == cuda_memcpy_device_to_device
      then some (s, record p { err = cuda_error_not_yet_implemented }, [])
      else some (s, record p { err = cuda_error_invalid_memcpy_direction }, [])
