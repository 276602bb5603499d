-- ===== src/Interposer/Fatcubin/HostVar.antt =====
-- interposer/libciutils.c: which variable `g_fcia_host_var` finds.
use gpu_virtmem.Prelude.{
  ℕ, zero, suc, ◌+◌, ◌<◌, ◌≤◌, ◌≡◌, ◌⊎◌, inl, inr, refl, subst, Bool, false, List, [], ◌∷◌, Option,
  none, some, ◌==◌, get_elem?, length, ℤ, pos, negsuc, arith, Bool-cases,
}
use gpu_virtmem.Interposer.Calls.{RegVarArgs}
use gpu_virtmem.Interposer.Fatcubin.{FatcubinInfo, var_from, host_var_from, g_fcia_host_var}

-- The variable is the one at `j` of the first `n` that `vs` holds.
pub record HasVar (host_var n : ℕ) (vs : List (Option RegVarArgs)) (j : ℕ) : Type 0 where
  pub variable : RegVarArgs
  pub in_range : j < n
  pub there : get_elem? vs j ≡ some (some variable)
  pub has : variable.host_var ≡ host_var

abbrev pub is_entry : ℕ → Option RegVarArgs → Bool
is_entry host_var none = false
is_entry host_var (some v) = v.host_var == host_var

-- It is none of the first `n`.
unfoldable pub NoVar : ℕ → ℕ → List (Option RegVarArgs) → Type 0
NoVar host_var n vs =
    (j : ℕ) (v : Option RegVarArgs) → j < n → get_elem? vs j ≡ some v → is_entry host_var v ≡ false

NoVar-cons :
    (host_var n : ℕ) (v : Option RegVarArgs) (vs : List (Option RegVarArgs))
    → is_entry host_var v ≡ false
    → NoVar host_var n vs
    → NoVar host_var (suc n) (v ∷ vs)
unfolding NoVar
NoVar-cons host_var n v vs f none_of zero w h q = ground (arith, f)
NoVar-cons host_var n v vs f none_of (suc j) w h q = none_of j w (omega arith) q

HasVar-cons :
    (host_var n : ℕ) (v : Option RegVarArgs) (vs : List (Option RegVarArgs)) (j : ℕ)
    → HasVar host_var n vs j
    → HasVar host_var (suc n) (v ∷ vs) (suc j)
HasVar-cons host_var n v vs j h = record {
  variable = h.variable;
  in_range = omega (arith, h.in_range);
  there = h.there;
  has = h.has;
}

-- What the inner loop may find.
InnerResult : ℕ → ℕ → ℕ → List (Option RegVarArgs) → Type 0
InnerResult host_var k n vs =
    ((var_from host_var k n vs ≡ some none) × NoVar host_var n vs)
    ⊎ ((j : ℕ) × (var_from host_var k n vs ≡ some (some (j + k))) × HasVar host_var n vs j)

var_from-skip :
    (host_var k n : ℕ) (v : Option RegVarArgs) (vs : List (Option RegVarArgs))
    → is_entry host_var v ≡ false
    → InnerResult host_var (suc k) n vs
    → InnerResult host_var k (suc n) (v ∷ vs)
unfolding InnerResult var_from
var_from-skip host_var k n none vs f (inl (g, none_of)) =
    inl (g, NoVar-cons host_var n none vs f none_of)
var_from-skip host_var k n none vs f (inr (j, g, h)) =
    inr (suc j, ground (arith, g), HasVar-cons host_var n none vs j h)
var_from-skip host_var k n (some v) vs f (inl (g, none_of)) =
    inl (ground (arith, g, f), NoVar-cons host_var n (some v) vs f none_of)
var_from-skip host_var k n (some v) vs f (inr (j, g, h)) =
    inr (suc j, ground (arith, g, f), HasVar-cons host_var n (some v) vs j h)

var_from_lem :
    (host_var k n : ℕ) (vs : List (Option RegVarArgs)) → n ≤ length vs → InnerResult host_var k n vs
unfolding InnerResult var_from NoVar
var_from_lem host_var k zero vs h = inl (refl, λ j v b. absurd (omega arith))
var_from_lem host_var k (suc n) [] h = absurd (omega arith)
var_from_lem host_var k (suc n) (none ∷ vs) h =
    var_from-skip host_var k n none vs refl (var_from_lem host_var (suc k) n vs (omega arith))
var_from_lem host_var k (suc n) (some v ∷ vs) h = elim (Bool-cases (v.host_var == host_var)) [
  | inl f ↦ inr (
    zero,
    ground (arith, f),
    record { variable = v; in_range = omega arith; there = refl; has = ground (arith, f) },
  )
  | inr f ↦
      var_from-skip host_var k n (some v) vs f (var_from_lem host_var (suc k) n vs (omega arith))
]

-- No array of variables is shorter than `num_reg_vars` says.
unfoldable pub AllFit : List FatcubinInfo → Type 0
AllFit arr =
    (i : ℕ) (p : FatcubinInfo) → get_elem? arr i ≡ some p → p.num_reg_vars ≤ length p.variables

-- No element has the variable.
unfoldable pub NoElement : ℕ → List FatcubinInfo → Type 0
NoElement host_var arr =
    (i : ℕ) (p : FatcubinInfo)
    → get_elem? arr i ≡ some p
    → NoVar host_var p.num_reg_vars p.variables

-- The element at `i` has the variable at `j`, and no later element has it.
pub record IsLast (host_var : ℕ) (arr : List FatcubinInfo) (i : ℕ) : Type 0 where
  pub element : FatcubinInfo
  pub index : ℕ
  pub there : get_elem? arr i ≡ some element
  pub has : HasVar host_var element.num_reg_vars element.variables index
  pub after :
      (k : ℕ) (p : FatcubinInfo)
      → i < k
      → get_elem? arr k ≡ some p
      → NoVar host_var p.num_reg_vars p.variables

OuterResult : ℕ → List FatcubinInfo → Option FatcubinInfo × ℤ → Type 0
OuterResult host_var arr found =
    ((host_var_from host_var arr found ≡ some found) × NoElement host_var arr)
    ⊎ ((i : ℕ) × (last : IsLast host_var arr i) × (host_var_from host_var arr found
          ≡ some (some last.element, pos last.index)))

NoElement-cons :
    (host_var : ℕ) (p : FatcubinInfo) (ps : List FatcubinInfo)
    → NoVar host_var p.num_reg_vars p.variables
    → NoElement host_var ps
    → NoElement host_var (p ∷ ps)
unfolding NoElement
NoElement-cons host_var p ps f none_of zero q e =
    subst (λ (r : FatcubinInfo). NoVar host_var r.num_reg_vars r.variables) {x = p} {y = q}
      (ground (arith, e)) f
NoElement-cons host_var p ps f none_of (suc i) q e = none_of i q e

after-cons :
    (host_var : ℕ) (p : FatcubinInfo) (ps : List FatcubinInfo) (i : ℕ)
    → IsLast host_var ps i
    → (k : ℕ) (q : FatcubinInfo) → suc i < k
    → get_elem? (p ∷ ps) k ≡ some q
    → NoVar host_var q.num_reg_vars q.variables
after-cons host_var p ps i last zero q h e = absurd (omega arith)
after-cons host_var p ps i last (suc k) q h e = last.after k q (omega arith) e

abbrev last_cons :
    (host_var : ℕ) (p : FatcubinInfo) (ps : List FatcubinInfo) (i : ℕ)
    → IsLast host_var ps i
    → IsLast host_var (p ∷ ps) (suc i)
last_cons host_var p ps i last = record {
  element = last.element;
  index = last.index;
  there = last.there;
  has = last.has;
  after = after-cons host_var p ps i last;
}

after-first :
    (host_var : ℕ) (p : FatcubinInfo) (ps : List FatcubinInfo)
    → NoElement host_var ps
    → (k : ℕ) (q : FatcubinInfo) → 0 < k
    → get_elem? (p ∷ ps) k ≡ some q
    → NoVar host_var q.num_reg_vars q.variables
unfolding NoElement
after-first host_var p ps none_of zero q h e = absurd (omega arith)
after-first host_var p ps none_of (suc k) q h e = none_of k q e

host_var_from_lem :
    (host_var : ℕ) (arr : List FatcubinInfo) (found : Option FatcubinInfo × ℤ)
    → AllFit arr
    → OuterResult host_var arr found
unfolding host_var_from OuterResult NoElement AllFit InnerResult
host_var_from_lem host_var [] found h = inl (refl, λ i p e. absurd (ground arith))
host_var_from_lem host_var (p ∷ ps) found h =
    let fit : AllFit ps = λ i q e. h (suc i) q e in
    elim (var_from_lem host_var 0 p.num_reg_vars p.variables (h 0 p refl)) [
      | inl (g, none_of) ↦ elim (host_var_from_lem host_var ps found fit) [
        | inl (e, no_element) ↦
            inl (ground (arith, g, e), NoElement-cons host_var p ps none_of no_element)
        | inr (i, last, e) ↦ inr (suc i, last_cons host_var p ps i last, ground (arith, g, e))
      ]
      | inr (j, g, has) ↦ elim (host_var_from_lem host_var ps (some p, pos j) fit) [
        | inl (e, no_element) ↦ inr (
          zero,
          record {
            element = p;
            index = j;
            there = refl;
            has = has;
            after = after-first host_var p ps no_element;
          },
          ground (arith, g, e),
        )
        | inr (i, last, e) ↦ inr (suc i, last_cons host_var p ps i last, ground (arith, g, e))
      ]
    ]

-- `g_fcia_host_var`, where no `num_reg_vars` exceeds its array, gives NULL and -1 if no element
-- has the variable, and else the last element that has it, with the index there.
pub g_fcia_host_var_lem :
    (host_var : ℕ) (arr : List FatcubinInfo)
    → AllFit arr
    → ((g_fcia_host_var (some arr) host_var ≡ some (none, negsuc 0)) × NoElement host_var arr)
      ⊎ ((i : ℕ) × (last : IsLast host_var arr i) × (g_fcia_host_var (some arr) host_var
            ≡ some (some last.element, pos last.index)))
unfolding g_fcia_host_var OuterResult
g_fcia_host_var_lem host_var arr h = host_var_from_lem host_var arr (none, negsuc 0) h
