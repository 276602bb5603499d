-- ===== src/Interposer/Fatcubin/Handle.antt =====
-- interposer/libciutils.c: which element a handle leads to.
use gpu_virtmem.Prelude.{
  ℕ, zero, suc, ◌+◌, ◌^◌, ◌<◌, ◌≡◌, ◌≢◌, ◌⊎◌, inl, inr, refl, List, [], ◌∷◌, none, some, ◌==◌,
  get_elem?, length, pos, negsuc, arith, Bool-cases,
}
use gpu_virtmem.Interposer.Fatcubin.{FatcubinInfo, idx_from, g_fcia_idx, g_fcia_elidx}

-- No element has the handle.
unfoldable pub NoHandle : ℕ → List FatcubinInfo → Type 0
NoHandle handle arr =
    (i : ℕ) (e : FatcubinInfo) → get_elem? arr i ≡ some e → e.fat_cubin_handle ≢ handle

-- The element at `i` is the first that has the handle.
pub record IsFirstHandle (handle : ℕ) (arr : List FatcubinInfo) (i : ℕ) : Type 0 where
  pub element : FatcubinInfo
  pub there : get_elem? arr i ≡ some element
  pub has : element.fat_cubin_handle ≡ handle
  pub before :
      (j : ℕ) (e : FatcubinInfo) → j < i → get_elem? arr j ≡ some e → e.fat_cubin_handle ≢ handle

NoHandle-cons :
    (handle : ℕ) (e : FatcubinInfo) (es : List FatcubinInfo)
    → e.fat_cubin_handle ≢ handle
    → NoHandle handle es
    → NoHandle handle (e ∷ es)
unfolding NoHandle
NoHandle-cons handle e es f none_of zero d q = ground arith
NoHandle-cons handle e es f none_of (suc i) d q = none_of i d q

before-cons :
    (handle : ℕ) (e : FatcubinInfo) (es : List FatcubinInfo) (i : ℕ)
    → e.fat_cubin_handle ≢ handle
    → IsFirstHandle handle es i
    → (j : ℕ) (d : FatcubinInfo) → j < suc i
    → get_elem? (e ∷ es) j ≡ some d
    → d.fat_cubin_handle ≢ handle
before-cons handle e es i f first zero d b q = ground arith
before-cons handle e es i f first (suc j) d b q = first.before j d (omega arith) q

IsFirstHandle-cons :
    (handle : ℕ) (e : FatcubinInfo) (es : List FatcubinInfo) (i : ℕ)
    → e.fat_cubin_handle ≢ handle
    → IsFirstHandle handle es i
    → IsFirstHandle handle (e ∷ es) (suc i)
IsFirstHandle-cons handle e es i f first = record {
  element = first.element;
  there = first.there;
  has = first.has;
  before = before-cons handle e es i f first;
}

idx_from_lem :
    (handle k : ℕ) (arr : List FatcubinInfo)
    → length arr + k < 2 ^ 31
    → ((idx_from handle k arr ≡ negsuc 0) × NoHandle handle arr)
      ⊎ ((i : ℕ) × (idx_from handle k arr ≡ pos (i + k)) × IsFirstHandle handle arr i)
unfolding idx_from NoHandle
idx_from_lem handle k [] h = inl (refl, λ i e f. absurd (ground arith))
idx_from_lem handle k (e ∷ es) h = elim (Bool-cases (e.fat_cubin_handle == handle)) [
  | inl f ↦ inr (
    zero,
    ground arith,
    record {
      element = e;
      there = refl;
      has = ground arith;
      before = λ j d b. absurd (omega arith);
    },
  )
  | inr f ↦ elim (idx_from_lem handle (suc k) es (omega arith)) [
    | inl (g, none_of) ↦ inl (ground (arith, g), NoHandle-cons handle e es (ground arith) none_of)
    | inr (i, g, first) ↦
        inr (suc i, ground (arith, g), IsFirstHandle-cons handle e es i (ground arith) first)
  ]
]

-- `g_fcia_elidx` on an array of fewer than 2^31 elements gives NULL and -1 if no element has the
-- handle, and else the first element that has it, with its index.
pub g_fcia_elidx_lem :
    (handle : ℕ) (arr : List FatcubinInfo)
    → length arr < 2 ^ 31
    → ((g_fcia_elidx (some arr) handle ≡ (none, negsuc 0)) × NoHandle handle arr)
      ⊎ ((i : ℕ) × (first : IsFirstHandle handle arr i) × (g_fcia_elidx (some arr) handle
            ≡ (some first.element, pos i)))
unfolding g_fcia_elidx g_fcia_idx
g_fcia_elidx_lem handle arr h = elim (idx_from_lem handle 0 arr (omega arith)) [
  | inl (g, none_of) ↦ inl (ground (arith, g), none_of)
  | inr (i, g, first) ↦ inr (i, first, ground (arith, g, first.there))
]
