-- ===== src/Remote/Registry/Reach.antt =====
-- remote/remote_api_wrapper.c: the registrations and launches that follow each other.
use gpu_virtmem.Prelude.{
  bind_some, ℕ, zero, suc, ◌≤◌, ◌≡◌, refl, ap, ◌∙◌, subst, inl, inr, Bool, List, [], ◌∷◌, Option,
  none, some, length, arith, ◌==◌, Bool-cases, Option-cases, Each, Each-set, Each-get_elem?,
}
use gpu_virtmem.Interposer.Calls.{RegFuncArgs}
use gpu_virtmem.Interposer.FatBinary.Unpack.{Received}
use gpu_virtmem.Interposer.FatBinary.Second.{FatCudaBinary2, unpack_fat_binary_4}
use gpu_virtmem.Interposer.Fatcubin.{FatcubinInfo}
use gpu_virtmem.Remote.Registry.{
  elements, register_fat_binary2_srv, element_of, register_function_srv, register_var_srv,
  unregister_fat_binary_srv, fn_from, search_from, launched_function,
}
use gpu_virtmem.Remote.Registry.Remove.{IsFastRemoval, Each-remove}
use gpu_virtmem.Remote.Registry.Invariant.{
  IsEntry, IsRegistry, add_function-IsEntry, add_variable-IsEntry, element_of_lem, some-injective,
  register_function_srv-parts, register_var_srv-parts, Each-cleared_info,
}

fn_from_lem :
    (arg n : ℕ) (fs : List (Option RegFuncArgs))
    → n ≤ length fs
    → (r : Option RegFuncArgs) × (fn_from arg n fs ≡ some r)
      × ((f : RegFuncArgs) → r ≡ some f → f.host_fe_addr ≡ arg)
unfolding fn_from
fn_from_lem arg zero fs h = (none, refl, λ f e. absurd (ground (arith, e)))
fn_from_lem arg (suc n) [] h = absurd (omega arith)
fn_from_lem arg (suc n) (none ∷ fs) h = fn_from_lem arg n fs (omega arith)
fn_from_lem arg (suc n) (some g ∷ fs) h = elim (Bool-cases (g.host_fe_addr == arg)) [
  | inl b ↦ (some g, ground (arith, b), λ f e. ground (arith, e, b))
  | inr b ↦ let (r, p, q) = fn_from_lem arg n fs (omega arith) in (r, ground (arith, b, p), q)
]

find_from_lem :
    (arg : ℕ) (arr : List FatcubinInfo)
    → Each IsEntry arr
    → (r : Option RegFuncArgs) × (search_from arg arr ≡ some r)
      × ((f : RegFuncArgs) → r ≡ some f → f.host_fe_addr ≡ arg)
unfolding search_from Each
find_from_lem arg [] h = (none, refl, λ f e. absurd (ground (arith, e)))
find_from_lem arg (p ∷ ps) h =
    let few : p.num_reg_fns ≤ length p.reg_fns = omega (arith, h.0.fns_few, h.0.fns_long) in
    let (r, e, q) = fn_from_lem arg p.num_reg_fns p.reg_fns few in
    elim (Option-cases r) [
      | inl n ↦ let (s, d, t) = find_from_lem arg ps h.1 in (s, ground (arith, e, n, d), t)
      | inr (f, n) ↦ (some f, ground (arith, e, n), λ g i. q g (n ∙ i))
    ]

module _ (alloc : ℕ → Bool) (register : FatCudaBinary2 Received → ℕ)
    (remove : List FatcubinInfo → ℕ → List FatcubinInfo) where
  -- A request that the server answers, whatever the other requests were.
  pub data Step (s : Option (List FatcubinInfo)) : Option (List FatcubinInfo) → Type 0 where
    fat_binary :
        (buffer : List ℕ) (handle : ℕ) (arr : List FatcubinInfo)
        → register_fat_binary2_srv alloc register s buffer ≡ some (handle, arr)
        → Step s (some arr)
    function :
        (buffer : List ℕ) (arr : List FatcubinInfo)
        → register_function_srv alloc s buffer ≡ some arr
        → Step s (some arr)
    var :
        (buffer : List ℕ) (arr : List FatcubinInfo)
        → register_var_srv alloc s buffer ≡ some arr
        → Step s (some arr)
    unregister :
        (cleaned : FatcubinInfo → Bool) (handle : ℕ) (arr : List FatcubinInfo)
        → unregister_fat_binary_srv cleaned remove s handle ≡ some arr
        → Step s (some arr)

  pub data Reach : Option (List FatcubinInfo) → Type 0 where
    start : Reach none
    next : {s t : Option (List FatcubinInfo)} → Reach s → Step s t → Reach t

  Step-IsRegistry :
      {s t : Option (List FatcubinInfo)}
      → IsFastRemoval remove
      → Step s t
      → IsRegistry s
      → IsRegistry t
  unfolding IsRegistry register_fat_binary2_srv unregister_fat_binary_srv elements
  Step-IsRegistry {s} f (fat_binary buffer handle arr h) g =
      let (b, p, q) = bind_some (unpack_fat_binary_4 alloc buffer) _ (handle, arr) h in
      let same = ap (λ (t : ℕ × List FatcubinInfo). t.1) (some-injective _ (handle, arr) q) in
      subst (Each IsEntry) same (Each-cleared_info s (register b.0) g)
  Step-IsRegistry {s} f (function buffer arr h) g =
      let (a, e, d, i, p, q, r) = register_function_srv-parts alloc s buffer arr h in
      let entry = add_function-IsEntry e d a q (Each-get_elem? IsEntry (elements s) i e g p) in
      subst (Each IsEntry) r (Each-set IsEntry (elements s) i d g entry)
  Step-IsRegistry {s} f (var buffer arr h) g =
      let (a, e, d, i, p, q, r) = register_var_srv-parts alloc s buffer arr h in
      let entry = add_variable-IsEntry e d a q (Each-get_elem? IsEntry (elements s) i e g p) in
      subst (Each IsEntry) r (Each-set IsEntry (elements s) i d g entry)
  Step-IsRegistry {s} f (unregister cleaned handle arr h) g =
      let ((e, i), p, q) = bind_some (element_of s handle) _ arr h in
      let there = element_of_lem s handle e i p in
      let kept : remove (elements s) i ≡ arr = elim (Bool-cases (cleaned e)) [
        | inl b ↦ ground (arith, b, q)
        | inr b ↦ absurd (ground (arith, b, q))
      ] in
      subst (Each IsEntry) kept (Each-remove IsEntry remove (elements s) i e f there g)

  -- From the start of the server, every registration and removal that it answers, in any order, keeps
  -- the array of fat binaries well formed: each element has room for 10 functions and 10 variables, no
  -- more are counted, and those counted are not NULL. GLib removes from an array as it is documented.
  pub Reach-IsRegistry :
      (s : Option (List FatcubinInfo)) → IsFastRemoval remove → Reach s → IsRegistry s
  unfolding IsRegistry elements Each
  Reach-IsRegistry _ f start = tt
  Reach-IsRegistry _ f (next {s} {t} r st) = Step-IsRegistry f st (Reach-IsRegistry s f r)

  -- In every array that is reached from the start of the server, the search of a launch ends without a
  -- read behind an array, and a function that it finds was registered for the entry of the launch.
  pub Reach-launched_function :
      (arr : List FatcubinInfo) (arg : ℕ)
      → IsFastRemoval remove
      → Reach (some arr)
      → (r : Option RegFuncArgs) × (launched_function (some arr) arg ≡ some r)
        × ((f : RegFuncArgs) → r ≡ some f → f.host_fe_addr ≡ arg)
  unfolding launched_function IsRegistry elements
  Reach-launched_function arr arg f r = find_from_lem arg arr (Reach-IsRegistry (some arr) f r)
