-- ===== src/Remote/Memory/Laws.antt =====
-- interposer, connection, server and memory map together.
use gpu_virtmem.Prelude.{
  int_size_small, inl, ◌^◌, take-length, drop-length, ℕ, zero, suc, ◌<◌, ◌≡◌, refl, sym, ap, ◌∙◌,
  true, List, [], ◌∷◌, ◌++◌, some, length, take, drop, arith, bind_some, subst, append-nil, ◌==◌,
  if◌then◌else◌,
}
use gpu_virtmem.Vmem.Row.{handle_of, Cuda, CudaLaws}
use gpu_virtmem.Vmem.Map.{h2d}
use gpu_virtmem.Vmem.Map.Find.{NoMatch}
use gpu_virtmem.Vmem.Server.{Session, malloc_srv, memcpy_srv}
use gpu_virtmem.Vmem.Server.Laws.{round_trip_lem}
use gpu_virtmem.Remote.Rpc.{
  Rpkt, Handlers, cuda_memcpy_h2d, cuda_memcpy_d2h, expects_response, handler_of, pkt_execute,
}
use gpu_virtmem.Remote.Client.{Args, Memory, read_bytes, write_bytes, Reply, malloc_rpc, memcpy_rpc}
use gpu_virtmem.Remote.Client.Called.{for_malloc, for_upload, for_download}
use gpu_virtmem.Remote.Client.Laws.{IsBuffer, connected, reply_of, stub_lem}
use gpu_virtmem.Remote.Memory.{
  Server, malloc_handler, memcpy_handler, memcpy_by, on_memory, malloc_packet, memcpy_packet,
}

pub length-read_bytes : (mem : Memory) (p n : ℕ) → length (read_bytes mem p n) ≡ n
unfolding read_bytes
length-read_bytes mem p zero = refl
length-read_bytes mem p (suc n) = ground (arith, length-read_bytes mem (suc p) n)

write_bytes-before : (mem : Memory) (p q : ℕ) (bs : List ℕ) → q < p → write_bytes mem p bs q ≡ mem q
unfolding write_bytes
write_bytes-before mem p q [] h = refl
write_bytes-before mem p q (b ∷ bs) h =
    write_bytes-before (λ i. if i == p then b else mem i) (suc p) q bs (omega arith) ∙ ground arith

pub read_bytes-write_bytes :
    (mem : Memory) (p : ℕ) (bs : List ℕ) → read_bytes (write_bytes mem p bs) p (length bs) ≡ bs
unfolding read_bytes write_bytes
read_bytes-write_bytes mem p [] = refl
read_bytes-write_bytes mem p (b ∷ bs) =
    let mem₁ : Memory = λ i. if i == p then b else mem i in
    ground (
      arith,
      write_bytes-before mem₁ (suc p) p bs (omega arith),
      read_bytes-write_bytes mem₁ (suc p) bs,
    )

all_copied : (bs b : List ℕ) (n : ℕ) → length bs ≡ n → length b ≡ n → take n bs ++ drop n b ≡ bs
all_copied bs b n h k =
    ap (λ i. take i bs ++ drop n b) (sym h)
    ∙ ap (λ i. take (length bs) bs ++ drop i b) (sym k)
    ∙ ap (λ l. take (length bs) bs ++ l) (drop-length b)
    ∙ append-nil _
    ∙ take-length bs

module _ (c : Cuda) (laws : CudaLaws c) (server : Server) (h : Handlers Args (Session c)) where
  -- A client allocates `n` bytes through the connection, and gets its own argument `ptr` back and no
  -- address. Then it copies the `n` bytes at `src` of its memory there and back to `dest`, under the
  -- address `row` of the handle of the new row, and finds them at `dest`: the three functions end and
  -- return `OK`. This holds where `src` and `dest` are not NULL and `n` fits an `int`, or `n` is 0, the
  -- server has the memory, the table has a row left and the process room among its indices, none of
  -- which is for that row.
  pub remote_copy_lem :
      (s : Session c) (mem : Memory) (b : List ℕ) (ptr row n src dest : ℕ)
      → server.host_malloc n ≡ some b
      → length b ≡ n
      → server.app_ptr row ≡ handle_of s.vmap_index
      → s.vmap_index < length s.table
      → length s.local_arr < 10000
      → NoMatch (handle_of s.vmap_index) s.local_arr
      → n < 2 ^ 31
      → IsBuffer src n
      → IsBuffer dest n
      → (r₁ r₂ r₃ : Reply (Session c)) × (malloc_rpc
            (connected (on_memory c server h))
            s
            mem
            (malloc_packet ptr n)
          ≡ some r₁)
        × (memcpy_rpc
              (connected (on_memory c server h))
              r₁.state
              r₁.memory
              (memcpy_packet row src n 1)
            ≡ some r₂)
        × (memcpy_rpc
              (connected (on_memory c server h))
              r₂.state
              r₂.memory
              (memcpy_packet dest row n 2)
            ≡ some r₃)
        × (r₁.ok ≡ true)
        × (r₁.packet.args.arg0 ≡ ptr)
        × (r₂.ok ≡ true)
        × (r₃.ok ≡ true)
        × (read_bytes r₃.memory dest n ≡ read_bytes mem src n)
  unfolding pkt_execute handler_of malloc_handler memcpy_handler memcpy_by malloc_packet
      memcpy_packet expects_response reply_of write_bytes
  remote_copy_lem s mem b ptr row n src dest hm hb hp room slots fresh small su du =
      let bytes : List ℕ = read_bytes mem src n in
      let hl : length bytes ≡ n = length-read_bytes mem src n in
      let (s₃, e) =
        round_trip_lem c laws s b bytes b n n room slots fresh hb (omega arith) small
          (omega (arith, hl)) (omega (arith, hb)) in
      let ((s₁, ok), e₁, f₁) =
        bind_some (malloc_srv c true (some b) n s) _ (s₃, take n bytes ++ drop n b) e in
      let ((s₂, u), e₂, e₃) =
        bind_some (memcpy_srv c (handle_of s.vmap_index) [] bytes n h2d s₁) _
          (s₃, take n bytes ++ drop n b) f₁ in
      let hs : Handlers Args (Session c) = on_memory c server h in
      let p₁ : Rpkt Args = malloc_packet ptr n in
      let q₁ : Rpkt Args = record p₁ { err = 0 } in
      let p₂ : Rpkt Args = memcpy_packet row src n 1 in
      let sent₂ : Rpkt Args = record p₂ { method_id = cuda_memcpy_h2d } in
      let q₂ : Rpkt Args = record sent₂ {
        err = 0;
        args = record p₂.args { arg1 = server.req_buffer };
      } in
      let p₃ : Rpkt Args = memcpy_packet dest row n 2 in
      let sent₃ : Rpkt Args = record p₃ { method_id = cuda_memcpy_d2h } in
      let q₃ : Rpkt Args = record sent₃ {
        err = 0;
        args = record p₃.args { arg0 = server.rsp_buffer };
      } in
      let out : List ℕ = take n bytes ++ drop n b in
      let copied : out ≡ bytes = all_copied bytes b n hl hb in
      let x₁ : pkt_execute hs s p₁ [] ≡ some (s₁, q₁, []) = ground (arith, hm, e₁) in
      let x₂ : pkt_execute hs s₁ sent₂ bytes ≡ some (s₂, q₂, []) = ground (arith, hp, hl, e₂) in
      let x₃ : pkt_execute hs s₂ sent₃ [] ≡ some (s₃, q₃, out) =
        ground (arith, int_size_small n small, hm, hp, e₃) in
      (
        reply_of hs mem 0 p₁ s₁ q₁ [],
        reply_of hs mem 0 sent₂ s₂ q₂ [],
        reply_of hs mem dest sent₃ s₃ q₃ out,
        stub_lem hs s s₁ mem p₁ p₁ q₁ [] (malloc_rpc (connected hs)) 0 0 0 0 (for_malloc refl) x₁
            refl (omega arith) (inl refl) (inl refl),
        stub_lem hs s₁ s₂ mem p₂ sent₂ q₂ [] (memcpy_rpc (connected hs)) src n 0 0 (for_upload refl)
            x₂ refl (omega arith) su (inl refl),
        stub_lem hs s₂ s₃ mem p₃ sent₃ q₃ out (memcpy_rpc (connected hs)) 0 0 dest n
            (for_download refl) x₃ refl (omega (arith, ap length copied, hl)) (inl refl) du,
        refl,
        refl,
        refl,
        refl,
        subst (λ l. read_bytes (write_bytes mem dest l) dest n ≡ bytes) (sym copied)
            (subst (λ i. read_bytes (write_bytes mem dest bytes) dest i ≡ bytes) hl
              (read_bytes-write_bytes mem dest bytes)),
      )
