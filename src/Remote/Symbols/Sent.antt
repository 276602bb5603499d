-- ===== src/Remote/Symbols/Sent.antt =====
-- interposer/libci.c, `rcudaMemcpyToSymbol` and `rcudaMemcpyFromSymbol` over a connection to a server,
-- whatever its handlers are.
use gpu_virtmem.Prelude.{
  inl, refl, ℕ, ◌≤◌, ◌≡◌, refl, true, List, [], Option, none, some, length, ◌==◌, if◌then◌else◌,
  arith,
}
use gpu_virtmem.Interposer.Vars.{HashTable, g_vars_find}
use gpu_virtmem.Remote.Rpc.{
  Rpkt, Handlers, cuda_memcpy_to_symbol, cuda_memcpy_from_symbol, expects_response, pkt_execute,
  handler_of,
}
use gpu_virtmem.Remote.Client.{Args, Memory, read_bytes, write_bytes}
use gpu_virtmem.Remote.Client.Called.{for_symbol_upload, for_symbol_download}
use gpu_virtmem.Remote.Client.Laws.{IsBuffer, connected, reply_of}
use gpu_virtmem.Remote.Entry.{init_packet, status_of, leave, cuda_error_unknown}
use gpu_virtmem.Remote.Entry.Calls.{
  with_args, copying, with_offset, rcuda_memcpy_to_symbol, rcuda_memcpy_from_symbol,
}
use gpu_virtmem.Remote.Entry.Laws.{served}

-- The packets of the two calls.
abbrev pub to_packet : ℕ → ℕ → ℕ → ℕ → Rpkt Args
to_packet host_var src count offset =
    copying
      (with_offset (with_args (init_packet cuda_memcpy_to_symbol) host_var src count 1) offset)

abbrev pub from_packet : ℕ → ℕ → ℕ → ℕ → Rpkt Args
from_packet host_var dst count offset =
    copying
      (with_offset (with_args (init_packet cuda_memcpy_from_symbol) host_var dst count 2) offset)

module _ {S : Type 0} (h : Handlers Args S) (g : HashTable) (string_at : ℕ → List ℕ)
    (tab : Option g.Table) (symbol : Option ℕ) (host_var : ℕ)
    (found : g_vars_find g string_at tab symbol ≡ some host_var) where
  -- What the copies leave where the table has the symbol and the handler ends.
  pub sent_to_symbol :
      (s t : S) (mem : Memory) (q : Rpkt Args) (src count offset : ℕ)
      → h.memcpy_to_symbol s (to_packet host_var src count offset) (read_bytes mem src count)
        ≡ some (t, q, [])
      → q.method_id ≡ cuda_memcpy_to_symbol
      → IsBuffer src count
      → rcuda_memcpy_to_symbol (connected h) true g string_at tab symbol src count offset 1 s mem
        ≡ some (record {
          state = t;
          memory = mem;
          cuda_err = if q.err == 0 then q.err else cuda_error_unknown;
          stored = none;
        })
  unfolding rcuda_memcpy_to_symbol pkt_execute handler_of reply_of expects_response init_packet
      status_of leave write_bytes
  sent_to_symbol s t mem q src count offset e k u =
      let p : Rpkt Args = to_packet host_var src count offset in
      ground (
        arith,
        found,
        served h s t mem p p q [] _ src count 0 0 (λ r. leave r (status_of r) none)
            (for_symbol_upload refl refl) e k (ground arith) u (inl refl),
      )

  pub sent_from_symbol :
      (s t : S) (mem : Memory) (q : Rpkt Args) (bytes : List ℕ) (dst count offset : ℕ)
      → h.memcpy_from_symbol s (from_packet host_var dst count offset) [] ≡ some (t, q, bytes)
      → q.method_id ≡ cuda_memcpy_from_symbol
      → length bytes ≤ count
      → IsBuffer dst count
      → rcuda_memcpy_from_symbol (connected h) true g string_at tab symbol dst count offset 2 s mem
        ≡ some (record {
          state = t;
          memory = write_bytes mem dst bytes;
          cuda_err = if q.err == 0 then q.err else cuda_error_unknown;
          stored = none;
        })
  unfolding rcuda_memcpy_from_symbol pkt_execute handler_of reply_of expects_response init_packet
      status_of leave read_bytes
  sent_from_symbol s t mem q bytes dst count offset e k b u =
      let p : Rpkt Args = from_packet host_var dst count offset in
      ground (
        arith,
        found,
        served h s t mem p p q bytes _ 0 0 dst count (λ r. leave r (status_of r) none)
            (for_symbol_download refl refl) e k b (inl refl) u,
      )
