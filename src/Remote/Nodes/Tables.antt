-- ===== src/Remote/Nodes/Tables.antt =====
-- interposer/libci.c, `__cudaRegisterFatBinary`: what the tables of devices say.
use gpu_virtmem.Prelude.{
  ℕ, zero, suc, ◌+◌, ◌-◌, ◌≤◌, ◌<◌, ◌≡◌, refl, sym, ◌∙◌, ap, subst, List, [], ◌∷◌, some, length,
  get_elem?, set, length-set, get_elem?-set_self, get_elem?-set_ne, bind_of, arith, ℕ_discrete,
  dec_lt,
}
use gpu_virtmem.Remote.Nodes.{DeviceTables, place, place_from, place_nodes, cumulative, first_local}

-- The tables hold `size` devices each.
pub record HasSize (size : ℕ) (t : DeviceTables) : Type 0 where
  pub index_size : length t.dev_to_index ≡ size
  pub localdev_size : length t.dev_to_localdev ≡ size

-- Device `d` is number `local` of a node.
pub record IsPlaced (t : DeviceTables) (d node local : ℕ) : Type 0 where
  pub index_there : get_elem? t.dev_to_index d ≡ some node
  pub localdev_there : get_elem? t.dev_to_localdev d ≡ some local

-- How many devices there are.
unfoldable pub sum : List ℕ → ℕ
sum [] = 0
sum (n ∷ ns) = n + sum ns

-- What is placed below `k` stays there.
pub KeepsBelow : ℕ → DeviceTables → DeviceTables → Type 0
KeepsBelow k t u = (d node local : ℕ) → d < k → IsPlaced t d node local → IsPlaced u d node local

KeepsBelow-trans :
    (k l : ℕ) (t u w : DeviceTables)
    → k ≤ l
    → KeepsBelow k t u
    → KeepsBelow l u w
    → KeepsBelow k t w
unfolding KeepsBelow
KeepsBelow-trans k l t u w h f g d node local b p =
    g d node local (omega arith) (f d node local b p)

place_lem :
    (size k node local : ℕ) (t : DeviceTables)
    → HasSize size t
    → k < size
    → (u : DeviceTables) × (place k node local t ≡ some u)
      × HasSize size u
      × IsPlaced u k node local
      × KeepsBelow k t u
unfolding place KeepsBelow
place_lem size k node local t s h = (
  record {
    dev_to_index = set t.dev_to_index k node;
    dev_to_localdev = set t.dev_to_localdev k local;
  },
  ground (arith, s.index_size, s.localdev_size),
  record {
    index_size = length-set t.dev_to_index k node ∙ s.index_size;
    localdev_size = length-set t.dev_to_localdev k local ∙ s.localdev_size;
  },
  record {
    index_there = get_elem?-set_self t.dev_to_index k node (omega (arith, s.index_size));
    localdev_there = get_elem?-set_self t.dev_to_localdev k local (omega (arith, s.localdev_size));
  },
  λ d i l b p. record {
    index_there =
        get_elem?-set_ne t.dev_to_index {i = k} {j = d} node (omega arith) ∙ p.index_there;
    localdev_there =
        get_elem?-set_ne t.dev_to_localdev {i = k} {j = d} local (omega arith) ∙ p.localdev_there;
  },
)

-- The inner loop places the devices of a node from number `l` on.
place_from_lem :
    (size node base n m l : ℕ) (t : DeviceTables)
    → HasSize size t
    → base + n ≤ size
    → l + m ≡ n
    → (u : DeviceTables) × (place_from m (base + l) node (base + n) n t ≡ some u)
      × HasSize size u
      × ((j : ℕ) → l ≤ j → j < n → IsPlaced u (base + j) node j)
      × KeepsBelow (base + l) t u
unfolding place_from KeepsBelow
place_from_lem size node base n zero l t s h e =
    (t, refl, s, λ j a b. absurd (omega arith), λ d i k b p. p)
place_from_lem size node base n (suc m) l t s h e =
    let (u, f, su, p, keep) =
      place_lem size (base + l) node ((base + l) - ((base + n) - n)) t s (omega arith) in
    let (w, g, sw, rest, keep₂) = place_from_lem size node base n m (suc l) u su h (omega arith) in
    let number : (base + l) - ((base + n) - n) ≡ l = omega arith in
    let here : IsPlaced w (base + l) node l =
      keep₂ (base + l) node l (omega arith) (subst (λ k. IsPlaced u (base + l) node k) number p) in
    (
      w,
      bind_of (λ x. place_from m (suc (base + l)) node (base + n) n x) f
          ∙ ap (λ k. place_from m k node (base + n) n u) {x = suc (base + l)} {y = base + suc l}
              (omega arith)
          ∙ g,
      sw,
      λ j a b. elim (ℕ_discrete l j) [
        | yes q ↦ subst (λ k. IsPlaced w (base + k) node k) q here
        | no q ↦ rest j (omega arith) b
      ],
      KeepsBelow-trans (base + l) (base + suc l) t u w (omega arith) keep keep₂,
    )

-- The loop over the nodes from node `i` on, with `total` devices placed.
place_nodes_lem :
    (size : ℕ) (ns : List ℕ) (i total : ℕ) (t : DeviceTables)
    → HasSize size t
    → total + sum ns ≤ size
    → (u : DeviceTables) × (place_nodes ns i total total t ≡ some (u, total + sum ns))
      × ((q n base j : ℕ)
          → get_elem? ns q ≡ some n
          → get_elem? (cumulative ns total) q ≡ some base
          → j < n
          → IsPlaced u (base + j) (i + q) j)
      × KeepsBelow total t u
unfolding place_nodes cumulative sum KeepsBelow
place_nodes_lem size [] i total t s h =
    (t, ground arith, λ q n base j e. absurd (ground (arith, e)), λ d k l b p. p)
place_nodes_lem size (n ∷ ns) i total t s h =
    let (u, f, su, first, keep) =
      place_from_lem size i total n n 0 t s (omega arith) (omega arith) in
    let (w, g, rest, keep₂) = place_nodes_lem size ns (suc i) (total + n) u su (omega arith) in
    let rounds : (total + n) - total ≡ n = omega arith in
    let same : total + 0 ≡ total = omega arith in
    let placed : place_from ((total + n) - total) total i (total + n) n t ≡ some u =
      subst (λ k. place_from ((total + n) - total) k i (total + n) n t ≡ some u) same
        (subst (λ m. place_from m (total + 0) i (total + n) n t ≡ some u) (sym rounds) f) in
    let kept : KeepsBelow total t u = subst (λ k. KeepsBelow k t u) same keep in
    (
      w,
      bind_of _ placed
          ∙ ap (λ m. place_nodes ns (suc i) (total + m) (total + n) u) rounds
          ∙ g
          ∙ ap (λ m. some (w, m)) {x = (total + n) + sum ns} {y = total + (n + sum ns)}
              (omega arith),
      λ q k base j e b l.
          elim q
              as (λ q.
                get_elem? (n ∷ ns) q ≡ some k
                → get_elem? (total ∷ cumulative ns (total + n)) q ≡ some base
                → IsPlaced w (base + j) (i + q) j) [
                  | zero ↦ λ e b.
                      let few : j < n = ground (arith, e, l) in
                      let there : IsPlaced w (total + j) i j =
                        keep₂ (total + j) i j (omega arith) (first j (omega arith) few) in
                      subst (λ x. IsPlaced w (x + j) (i + 0) j) {x = total} {y = base}
                        (ground (arith, b))
                        (subst (λ x. IsPlaced w (total + j) x j) {x = i} {y = i + 0} (omega arith)
                          there)
                  | suc q ↦ λ e b.
                      subst (λ x. IsPlaced w (base + j) x j) (omega arith) (rest q k base j e b l)
                ]
            e b,
      KeepsBelow-trans total (total + n) t u w (omega arith) kept keep₂,
    )

-- Each device is one of a node.
owner_of :
    (ns : List ℕ) (total d : ℕ)
    → total ≤ d
    → d < total + sum ns
    → (q : ℕ) × (n : ℕ) × (base : ℕ) × (j : ℕ) × (get_elem? ns q ≡ some n)
      × (get_elem? (cumulative ns total) q ≡ some base)
      × (j < n)
      × (base + j ≡ d)
unfolding cumulative sum
owner_of [] total d h b = absurd (omega arith)
owner_of (n ∷ ns) total d h b = elim (dec_lt d (total + n)) [
  | yes l ↦ (0, n, total, d - total, refl, refl, omega arith, omega arith)
  | no m ↦
      let (q, k, base, j, e, f, l, p) = owner_of ns (total + n) d (omega arith) (omega arith) in
      (suc q, k, base, j, e, f, l, p)
]

-- Where the devices of all nodes have room in the tables, the loop over the nodes ends, counts all
-- devices, and numbers them node by node: device number `j` of node `q` has the number of the first
-- device of `q`, which `CUMMULATIVE_FREQ_DEV` gives, plus `j`, and there the tables give back `q` and
-- `j`; and every device below the count is one of these.
pub device_tables_lem :
    (size : ℕ) (counts : List ℕ) (t : DeviceTables)
    → HasSize size t
    → sum counts ≤ size
    → (u : DeviceTables) × (place_nodes counts 0 0 0 t ≡ some (u, sum counts))
      × ((q n base j : ℕ)
          → get_elem? counts q ≡ some n
          → first_local counts q ≡ some base
          → j < n
          → IsPlaced u (base + j) q j)
      × ((d : ℕ)
          → d < sum counts
          → (q : ℕ) × (n : ℕ) × (base : ℕ) × (j : ℕ) × (get_elem? counts q ≡ some n)
            × (first_local counts q ≡ some base)
            × (j < n)
            × (base + j ≡ d))
unfolding first_local
device_tables_lem size counts t s h =
    let (u, e, placed, kept) = place_nodes_lem size counts 0 0 t s (omega arith) in
    (
      u,
      e ∙ ap (λ n. some (u, n)) {x = 0 + sum counts} {y = sum counts} (omega arith),
      λ q n base j f g l.
          subst (λ x. IsPlaced u (base + j) x j) {x = 0 + q} {y = q} (omega arith)
            (placed q n base j f g l),
      λ d b. owner_of counts 0 d (omega arith) (omega arith),
    )
