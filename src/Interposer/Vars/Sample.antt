-- ===== src/Interposer/Vars/Sample.antt =====
-- GLib's hash table as a list of pairs, to try the functions of the table of variables on.
use gpu_virtmem.Prelude.{
  ℕ, ◌≡◌, ◌≢◌, refl, inl, inr, List, [], ◌∷◌, Option, none, some, ◌==◌, if◌then◌else◌, arith,
  Option-cases, ◌>>=◌, bind_some, subst, ℕ_discrete,
}
use gpu_virtmem.Interposer.Vars.{VarsVal, HashTable, HashTableLaws}

abbrev pub Pairs : Type 0
Pairs = List (ℕ × List VarsVal)

pub lookup_pair : Pairs → ℕ → Option (List VarsVal)
lookup_pair [] k = none
lookup_pair (p ∷ ps) k = if p.0 == k then some p.1 else lookup_pair ps k

pub remove_pair : Pairs → ℕ → Pairs
remove_pair [] k = []
remove_pair (p ∷ ps) k = let rest = remove_pair ps k in if p.0 == k then rest else p ∷ rest

-- The first handle of the list whose array has something.
pub find_pair : Pairs → (List VarsVal → Option ℕ) → Pairs → Option ℕ
find_pair t f [] = none
find_pair t f (p ∷ ps) = elim (lookup_pair t p.0 >>= f) [
  | some a ↦ some a
  | none ↦ find_pair t f ps
]

lookup_pair-remove_self : (ps : Pairs) (k : ℕ) → lookup_pair (remove_pair ps k) k ≡ none
unfolding lookup_pair remove_pair
lookup_pair-remove_self [] k = refl
lookup_pair-remove_self (p ∷ ps) k = ground (arith, lookup_pair-remove_self ps k)

lookup_pair-remove_ne :
    (ps : Pairs) (k j : ℕ) → k ≢ j → lookup_pair (remove_pair ps k) j ≡ lookup_pair ps j
unfolding lookup_pair remove_pair
lookup_pair-remove_ne [] k j h = refl
lookup_pair-remove_ne (p ∷ ps) k j h = ground (arith, h, lookup_pair-remove_ne ps k j h)

find_pair-some :
    (t : Pairs) (f : List VarsVal → Option ℕ) (ps : Pairs) (a : ℕ)
    → find_pair t f ps ≡ some a
    → (k : ℕ) × (vs : List VarsVal) × (lookup_pair t k ≡ some vs) × (f vs ≡ some a)
unfolding find_pair
find_pair-some t f [] a h = absurd (ground (arith, h))
find_pair-some t f (p ∷ ps) a h = elim (Option-cases (lookup_pair t p.0 >>= f)) [
  | inl e ↦ find_pair-some t f ps a (ground (arith, e, h))
  | inr (b, e) ↦
      let (vs, g, k) = bind_some (lookup_pair t p.0) f b e in (p.0, vs, g, ground (arith, e, h, k))
]

find_pair-none :
    (t : Pairs) (f : List VarsVal → Option ℕ) (ps : Pairs) (k : ℕ) (us : List VarsVal)
    → find_pair t f ps ≡ none
    → lookup_pair ps k ≡ some us
    → (lookup_pair t k >>= f) ≡ none
unfolding find_pair lookup_pair
find_pair-none t f [] k us h e = absurd (ground (arith, e))
find_pair-none t f (p ∷ ps) k us h e = elim (Option-cases (lookup_pair t p.0 >>= f)) [
  | inr (b, g) ↦ absurd (ground (arith, g, h))
  | inl g ↦ elim (ℕ_discrete p.0 k) [
    | yes q ↦ subst (λ n. (lookup_pair t n >>= f) ≡ none) q g
    | no q ↦ find_pair-none t f ps k us (ground (arith, g, h)) (ground (arith, q, e))
  ]
]

abbrev pub pairs : HashTable
pairs = record {
  Table = Pairs;
  new = [];
  lookup = lookup_pair;
  insert = λ t k vs. (k, vs) ∷ t;
  remove = remove_pair;
  find = λ t f. find_pair t f t;
}

lookup_pair-cons_self :
    (t : Pairs) (k : ℕ) (vs : List VarsVal) → lookup_pair ((k, vs) ∷ t) k ≡ some vs
unfolding lookup_pair
lookup_pair-cons_self t k vs = ground arith

lookup_pair-cons_ne :
    (t : Pairs) (k j : ℕ) (vs : List VarsVal)
    → k ≢ j
    → lookup_pair ((k, vs) ∷ t) j ≡ lookup_pair t j
unfolding lookup_pair
lookup_pair-cons_ne t k j vs h = ground (arith, h)

lookup_pair-new : (k : ℕ) → lookup_pair [] k ≡ none
unfolding lookup_pair
lookup_pair-new k = refl

find_pair-none_at :
    (t : Pairs) (f : List VarsVal → Option ℕ) (k : ℕ) (vs : List VarsVal)
    → find_pair t f t ≡ none
    → lookup_pair t k ≡ some vs
    → f vs ≡ none
find_pair-none_at t f k vs h e = ground (arith, find_pair-none t f t k vs h e, e)

pub pairs_laws : HashTableLaws pairs
pairs_laws = record {
  lookup-new = lookup_pair-new;
  lookup-insert_self = lookup_pair-cons_self;
  lookup-insert_ne = lookup_pair-cons_ne;
  lookup-remove_self = lookup_pair-remove_self;
  lookup-remove_ne = lookup_pair-remove_ne;
  find-some = λ t f a h. find_pair-some t f t a h;
  find-none = find_pair-none_at;
}
