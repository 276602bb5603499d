-- ===== src/Vmem/Kernels/Init.antt =====
-- `kmap_init`: how much memory its loop needs, and how much it asks for.
use gpu_virtmem.Prelude.{
  ℕ, zero, suc, ◌+◌, ◌-◌, ◌*◌, ◌≤◌, ◌<◌, ◌≡◌, refl, List, [], ◌∷◌, none, some, length, arith,
  dec_lt, ◌⊎◌, inl, inr,
}
use gpu_virtmem.Vmem.Kernels.{
  KernelNode, Kmap, max_kernels, sizeof_kmap, sizeof_kmap_node, arg_list_end, blank, init_nodes,
  kmap_init_in, kmap_init,
}

init_nodes-some :
    (memory : ℕ → KernelNode) (bytes i n : ℕ)
    → (i + n) * sizeof_kmap_node ≤ bytes + (sizeof_kmap_node - arg_list_end)
    → (l : List KernelNode) × (init_nodes memory bytes i n ≡ some l) × (length l ≡ n)
unfolding init_nodes
init_nodes-some memory bytes i zero h = ([], refl, refl)
init_nodes-some memory bytes i (suc n) h =
    let (l, e, f) = init_nodes-some memory bytes (i + 1) n (omega arith) in
    (blank (memory i) ∷ l, ground (arith, e), ground (arith, f))

init_nodes-none :
    (memory : ℕ → KernelNode) (bytes i n : ℕ)
    → i * sizeof_kmap_node ≤ bytes + (sizeof_kmap_node - arg_list_end)
    → bytes + (sizeof_kmap_node - arg_list_end) < (i + n) * sizeof_kmap_node
    → init_nodes memory bytes i n ≡ none
unfolding init_nodes
init_nodes-none memory bytes i zero g h = absurd (omega arith)
init_nodes-none memory bytes i (suc n) g h = ground (arith, init_nodes-none memory bytes (i + 1) n)

-- The offset in the block at which the loop's last write ends.
abbrev pub room_needed : ℕ
room_needed = (max_kernels - 1) * sizeof_kmap_node + arg_list_end

-- `kmap_init` in a block of `bytes` bytes: with room for `MAX_KERNELS` nodes, of the last one up to the
-- end of its `arg_list`, it sets that many up, and with less it writes behind the end of the block.
pub kmap_init_in_lem :
    (memory : ℕ → KernelNode) (bytes : ℕ)
    → ((room_needed ≤ bytes)
        × ((k : Kmap) × (kmap_init_in memory bytes ≡ some k)
            × (length k.kobjects ≡ max_kernels)
            × (k.index ≡ 0)))
      ⊎ ((bytes < room_needed) × (kmap_init_in memory bytes ≡ none))
unfolding kmap_init_in
kmap_init_in_lem memory bytes = elim (dec_lt bytes room_needed) [
  | yes h ↦
      inr (h, rw (init_nodes-none memory bytes 0 max_kernels (omega arith) (omega (arith, h))))
  | no h ↦
      let room : room_needed ≤ bytes = omega arith in
      let (l, e, f) = init_nodes-some memory bytes 0 max_kernels (omega (arith, room)) in
      inl (room, (record { kobjects = l; index = 0 }, rw e, f, refl))
]

-- `kmap_init` overflows its block, whatever the memory holds: the block has room for `struct kmap`s,
-- which are smaller than the nodes written to it.
kmap_init-none : (memory : ℕ → KernelNode) → kmap_init memory ≡ none
unfolding kmap_init
kmap_init-none memory = elim (kmap_init_in_lem memory (max_kernels * sizeof_kmap)) [
  | inl (h, r) ↦ absurd (omega arith)
  | inr (h, e) ↦ e
]
