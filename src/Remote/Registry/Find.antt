-- ===== src/Remote/Registry/Find.antt =====
-- remote/remote_api_wrapper.c: a launch finds the functions that are registered.
use gpu_virtmem.Prelude.{
  ℕ_discrete, ℕ, zero, suc, ◌<◌, ◌≡◌, ◌≢◌, refl, sym, ap, ◌∙◌, subst, inl, inr, List, [], ◌∷◌,
  Option, none, some, ◌>>=◌, length, arith, ◌==◌, if◌then◌else◌, get_elem?, set, Bool-cases,
  Option-cases,
}
use gpu_virtmem.Interposer.Calls.{RegFuncArgs}
use gpu_virtmem.Interposer.Fatcubin.{FatcubinInfo}
use gpu_virtmem.Remote.Registry.{with_function, fn_from, search_from}

-- What is found in an element to which a function was added.
or_new : RegFuncArgs → ℕ → Option RegFuncArgs → Option RegFuncArgs
or_new a arg none = if a.host_fe_addr == arg then some a else none
or_new a arg (some f) = some f

fn_from-set :
    (arg n : ℕ) (fs : List (Option RegFuncArgs)) (a : RegFuncArgs)
    → n < length fs
    → fn_from arg (suc n) (set fs n (some a)) ≡ (fn_from arg n fs >>= (λ r. some (or_new a arg r)))
unfolding fn_from or_new
fn_from-set arg n [] a h = absurd (omega arith)
fn_from-set arg zero (f ∷ fs) a h = elim (Bool-cases (a.host_fe_addr == arg)) [
  | inl b ↦ ground (arith, b)
  | inr b ↦ ground (arith, b)
]
fn_from-set arg (suc n) (none ∷ fs) a h = fn_from-set arg n fs a (omega arith)
fn_from-set arg (suc n) (some f ∷ fs) a h =
    let ih = fn_from-set arg n fs a (omega arith) in
    elim (Bool-cases (f.host_fe_addr == arg)) [
      | inl b ↦ ground (arith, b)
      | inr b ↦ ground (arith, b, ih)
    ]

split_none :
    (o k : Option (Option RegFuncArgs))
    → (o >>= (λ r. elim r [ none ↦ k | some f ↦ some (some f) ])) ≡ some none
    → (o ≡ some none) × (k ≡ some none)
split_none none k h = absurd (ground arith)
split_none (some none) k h = (refl, h)
split_none (some (some f)) k h = absurd (ground arith)

search_from-set_same :
    (arg i : ℕ) (arr : List FatcubinInfo) (p q : FatcubinInfo)
    → get_elem? arr i ≡ some p
    → fn_from arg q.num_reg_fns q.reg_fns ≡ fn_from arg p.num_reg_fns p.reg_fns
    → search_from arg (set arr i q) ≡ search_from arg arr
unfolding search_from
search_from-set_same arg i [] p q g e = refl
search_from-set_same arg zero (r ∷ rs) p q g e =
    let same : r ≡ p = ground arith in
    subst (λ (t : FatcubinInfo). search_from arg (q ∷ rs) ≡ search_from arg (t ∷ rs)) {x = p}
      (sym same)
      (ap (λ o. o >>= (λ r. elim r [ none ↦ search_from arg rs | some f ↦ some (some f) ])) e)
search_from-set_same arg (suc i) (r ∷ rs) p q g e =
    ap
      (λ k.
        fn_from arg r.num_reg_fns r.reg_fns >>= (λ r. elim r [ none ↦ k | some f ↦ some (some f) ]))
      (search_from-set_same arg i rs p q g e)

search_from-set_new :
    (arg i : ℕ) (arr : List FatcubinInfo) (p q : FatcubinInfo) (a : RegFuncArgs)
    → get_elem? arr i ≡ some p
    → search_from arg arr ≡ some none
    → fn_from arg q.num_reg_fns q.reg_fns ≡ some (some a)
    → search_from arg (set arr i q) ≡ some (some a)
unfolding search_from
search_from-set_new arg i [] p q a g e f = absurd (ground arith)
search_from-set_new arg zero (r ∷ rs) p q a g e f = ground (arith, f)
search_from-set_new arg (suc i) (r ∷ rs) p q a g e f =
    let h = split_none (fn_from arg r.num_reg_fns r.reg_fns) (search_from arg rs) e in
    ground (arith, h.0, search_from-set_new arg i rs p q a g h.1 f)

-- Nothing is found in an element when nothing is found at all.
fn_from-none :
    (arg i : ℕ) (arr : List FatcubinInfo) (p : FatcubinInfo)
    → get_elem? arr i ≡ some p
    → search_from arg arr ≡ some none
    → fn_from arg p.num_reg_fns p.reg_fns ≡ some none
unfolding search_from
fn_from-none arg i [] p g e = absurd (ground arith)
fn_from-none arg zero (r ∷ rs) p g e =
    let same : r ≡ p = ground arith in
    subst (λ (t : FatcubinInfo). fn_from arg t.num_reg_fns t.reg_fns ≡ some none) {x = r} same
      (split_none _ _ e).0
fn_from-none arg (suc i) (r ∷ rs) p g e = fn_from-none arg i rs p g (split_none _ _ e).1

fn_from-other :
    (arg : ℕ) (e : FatcubinInfo) (a : RegFuncArgs)
    → e.num_reg_fns < length e.reg_fns
    → a.host_fe_addr ≢ arg
    → fn_from arg (with_function e a).num_reg_fns (with_function e a).reg_fns
      ≡ fn_from arg e.num_reg_fns e.reg_fns
unfolding with_function or_new
fn_from-other arg e a h d =
    fn_from-set arg e.num_reg_fns e.reg_fns a h
    ∙ elim (Option-cases (fn_from arg e.num_reg_fns e.reg_fns)) [
      | inl n ↦ ground (arith, n)
      | inr (none, q) ↦ ground (arith, q)
      | inr (some f, q) ↦ ground (arith, q)
    ]

fn_from-new :
    (e : FatcubinInfo) (a : RegFuncArgs)
    → e.num_reg_fns < length e.reg_fns
    → fn_from a.host_fe_addr e.num_reg_fns e.reg_fns ≡ some none
    → fn_from a.host_fe_addr (with_function e a).num_reg_fns (with_function e a).reg_fns
      ≡ some (some a)
unfolding with_function or_new
fn_from-new e a h n = fn_from-set a.host_fe_addr e.num_reg_fns e.reg_fns a h ∙ ground (arith, n)

pub search_from-with_function :
    (arg i : ℕ) (arr : List FatcubinInfo) (e : FatcubinInfo) (a : RegFuncArgs)
    → get_elem? arr i ≡ some e
    → e.num_reg_fns < length e.reg_fns
    → search_from a.host_fe_addr arr ≡ some none
    → search_from arg (set arr i (with_function e a))
      ≡ (if a.host_fe_addr == arg then some (some a) else search_from arg arr)
search_from-with_function arg i arr e a g h f = elim (ℕ_discrete a.host_fe_addr arg) [
  | yes q ↦
      let none_yet = fn_from-none a.host_fe_addr i arr e g f in
      let new =
        search_from-set_new a.host_fe_addr i arr e (with_function e a) a g f
          (fn_from-new e a h none_yet) in
      ground (arith, ap (λ t. search_from t (set arr i (with_function e a))) q, new)
  | no d ↦
      let same =
        search_from-set_same arg i arr e (with_function e a) g (fn_from-other arg e a h d) in
      ground (arith, same)
]
