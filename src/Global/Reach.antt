-- ===== src/Global/Reach.antt =====
-- Global_Sched/global_sched.c: all orders in which connections are made, served and closed.
use gpu_virtmem.Prelude.{
  ◌⊎◌, bind_some, ℕ, zero, suc, ◌+◌, ◌%◌, ◌<◌, ◌≤◌, ◌≡◌, ◌≢◌, refl, sym, ap, ◌∙◌, subst, inl, inr,
  List, [], ◌∷◌, ◌++◌, Option, some, ◌==◌, if◌then◌else◌, ltb, ℤ, pos, sub_ℕ, ◌-ℤ◌, get_elem?, set,
  replicate, arith, get_elem?-set_self, get_elem?-set_ne, get_elem?-lt, ℕ_discrete,
}
use native.Mathlib.Nat.{mod-eq_of_lt, mod_self}
use gpu_virtmem.Remote.Rpc.{Rpkt}
use gpu_virtmem.Remote.Client.{Args}
use gpu_virtmem.Remote.Devices.{get_next_device_rr}
use gpu_virtmem.Global.{
  Shared, get_device_srv, dec_thread_count_per_device, Conn, fresh, assigned, closed, Global,
  device_of,
}

-- A step of the scheduler whose clients all say that there are `devices` devices: a connection is made,
-- is given a device, or is closed.
pub data Step (devices : ℕ) (g : Global) : Global → Type 0 where
  accept : Step devices g (record g { conns = g.conns ++ (fresh ∷ []) })
  give :
      (i d : ℕ) (conn : Conn) (old : Option ℕ) (p q : Rpkt Args) (bs : List ℕ) (shared : Shared)
      → get_elem? g.conns i ≡ some conn
      → device_of conn ≡ some old
      → p.args.arg0 ≡ devices
      → get_device_srv (g.shared, old) p bs ≡ some ((shared, some d), q, [])
      → Step devices g
          (record { shared = shared; conns = set g.conns i (assigned d); given = d ∷ g.given })
  close :
      (i d : ℕ) (shared : Shared)
      → get_elem? g.conns i ≡ some (assigned d)
      → dec_thread_count_per_device (g.shared, some d) ≡ some (shared, some d)
      → Step devices g (record g { shared = shared; conns = set g.conns i (closed d) })

-- The scheduler as it starts, with counts for `n` devices.
abbrev pub initial : ℕ → Global
initial n = record {
  shared = record { dev_rr = 0; counts = replicate n (pos 0) };
  conns = [];
  given = [];
}

pub data Reach (n devices : ℕ) : Global → Type 0 where
  start : Reach n devices (initial n)
  next : {g f : Global} → Reach n devices g → Step devices g f → Reach n devices f

-- How often a device was given.
unfoldable pub times : ℕ → List ℕ → ℕ
times d [] = 0
times d (e ∷ es) = (if e == d then 1 else 0) + times d es

-- How many connections were closed with a device.
unfoldable pub ended_on : ℕ → Conn → ℕ
ended_on d fresh = 0
ended_on d (assigned e) = 0
ended_on d (closed e) = if e == d then 1 else 0

unfoldable pub ended : ℕ → List Conn → ℕ
ended d [] = 0
ended d (c ∷ cs) = ended_on d c + ended d cs

ended-append : (d : ℕ) (cs : List Conn) → ended d (cs ++ (fresh ∷ [])) ≡ ended d cs
unfolding ended ended_on
ended-append d [] = refl
ended-append d (c ∷ cs) = ap (λ k. ended_on d c + k) (ended-append d cs)

ended-set :
    (d i : ℕ) (cs : List Conn) (c e : Conn)
    → get_elem? cs i ≡ some c
    → ended d (set cs i e) + ended_on d c ≡ ended d cs + ended_on d e
unfolding ended
ended-set d i [] c e h = absurd (ground (arith, h))
ended-set d zero (b ∷ cs) c e h =
    let k : ended_on d b ≡ ended_on d c = ap (ended_on d) (ground (arith, h)) in omega (arith, k)
ended-set d (suc i) (b ∷ cs) c e h = omega (arith, ended-set d i cs c e h)

-- Rounds that are complete and the device that comes next.
pub record IsTurn (devices : ℕ) (dev_rr : ℕ) (given : List ℕ) : Type 0 where
  pub rounds : ℕ
  pub in_range : (dev_rr < devices) ⊎ (dev_rr ≡ 0)
  pub share : (d : ℕ) → d < devices → times d given ≡ rounds + (if ltb d dev_rr then 1 else 0)

next-IsTurn :
    (devices dev_rr : ℕ) (given : List ℕ) (d r : ℕ)
    → get_next_device_rr devices dev_rr ≡ some (d, r)
    → IsTurn devices dev_rr given
    → IsTurn devices r (d ∷ given)
unfolding get_next_device_rr times
next-IsTurn devices dev_rr given d r h t =
    let some_device : devices ≢ 0 = ground (arith, h) in
    let same : d ≡ dev_rr = ground (arith, h) in
    let after : r ≡ (dev_rr + 1) % devices = ground (arith, h) in
    elim (ℕ_discrete (dev_rr + 1) devices) [
      | yes e ↦
          let zero_next : r ≡ 0 = after ∙ ap (λ n. n % devices) e ∙ mod_self devices in
          record {
            rounds = suc t.rounds;
            in_range = inr zero_next;
            share = λ k b. ground (arith, t.share k b, same, zero_next, e, b);
          }
      | no n ↦
          let inside : dev_rr + 1 < devices = ground (arith, t.in_range, n, some_device) in
          let one_more : r ≡ dev_rr + 1 = after ∙ mod-eq_of_lt inside in
          record {
            rounds = t.rounds;
            in_range = inl (omega arith);
            share = λ k b. ground (arith, t.share k b, same, one_more, b);
          }
    ]

-- Every count is below zero by the connections that were closed with the device.
unfoldable pub Owes : Shared → List Conn → Type 0
Owes shared conns =
    (d : ℕ) (c : ℤ) → get_elem? shared.counts d ≡ some c → c ≡ sub_ℕ 0 (ended d conns)

get_elem?-replicate : (n i : ℕ) (c : ℤ) → get_elem? (replicate n (pos 0)) i ≡ some c → c ≡ pos 0
get_elem?-replicate zero i c h = absurd (ground (arith, h))
get_elem?-replicate (suc n) zero c h = ground (arith, h)
get_elem?-replicate (suc n) (suc i) c h = get_elem?-replicate n i c h

-- A connection that is given a device has ended on none.
ended_on-open :
    (d : ℕ) (conn : Conn) (old : Option ℕ) → device_of conn ≡ some old → ended_on d conn ≡ 0
unfolding device_of ended_on
ended_on-open d fresh old h = refl
ended_on-open d (assigned e) old h = refl
ended_on-open d (closed e) old h = absurd (ground (arith, h))

Owes-close :
    (shared new : Shared) (conns : List Conn) (i d : ℕ)
    → get_elem? conns i ≡ some (assigned d)
    → dec_thread_count_per_device (shared, some d) ≡ some (new, some d)
    → Owes shared conns
    → Owes new (set conns i (closed d))
unfolding Owes dec_thread_count_per_device ended_on
Owes-close shared new conns i d at h f k c e =
    let (b, g, q) = bind_some (get_elem? shared.counts d) _ (new, some d) h in
    let counts : new.counts ≡ set shared.counts d (b -ℤ pos 1) = ground (arith, q) in
    let e' : get_elem? (set shared.counts d (b -ℤ pos 1)) k ≡ some c =
      ap (λ l. get_elem? l k) (sym counts) ∙ e in
    let one = ended-set k i conns (assigned d) (closed d) at in
    elim (ℕ_discrete d k) [
      | yes s ↦
          let new_count =
            get_elem?-set_self shared.counts d (b -ℤ pos 1) (get_elem?-lt shared.counts d g) in
          let c_is : c ≡ b -ℤ pos 1 =
            ground (arith, e', new_count, ap (get_elem? (set shared.counts d (b -ℤ pos 1))) s) in
          let b_is : b ≡ sub_ℕ 0 (ended k conns) =
            f k b (ap (get_elem? shared.counts) (sym s) ∙ g) in
          ground (arith, c_is, b_is, one, s)
      | no n ↦
          let old = f k c (sym (get_elem?-set_ne shared.counts (b -ℤ pos 1) n) ∙ e') in
          let kept : ended k (set conns i (closed d)) ≡ ended k conns = ground (arith, one, n) in
          old ∙ ap (sub_ℕ 0) (sym kept)
    ]

pub record IsConsistent (devices : ℕ) (g : Global) : Type 0 where
  pub its_turn : IsTurn devices g.shared.dev_rr g.given
  pub owes : Owes g.shared g.conns

Step-IsConsistent :
    (devices : ℕ) (g f : Global)
    → Step devices g f
    → IsConsistent devices g
    → IsConsistent devices f
unfolding Owes get_device_srv dec_thread_count_per_device ended_on
Step-IsConsistent devices g _ accept v = record {
  its_turn = v.its_turn;
  owes = λ d c e. v.owes d c e ∙ ap (sub_ℕ 0) (sym (ended-append d g.conns));
}
Step-IsConsistent devices g _ (give i d conn old p q bs shared at open_conn same h) v =
    let (r, e, k) =
      bind_some (get_next_device_rr p.args.arg0 g.shared.dev_rr) _ ((shared, some d), q, []) h in
    let chosen : r.0 ≡ d = ground (arith, k) in
    let moved_on : r.1 ≡ shared.dev_rr = ground (arith, k) in
    let kept : shared.counts ≡ g.shared.counts = ground (arith, k) in
    let now : get_next_device_rr devices g.shared.dev_rr ≡ some (d, shared.dev_rr) =
      ground (arith, e, same, chosen, moved_on) in
    record {
      its_turn = next-IsTurn devices g.shared.dev_rr g.given d shared.dev_rr now v.its_turn;
      owes = λ j c b.
          v.owes j c (ap (λ l. get_elem? l j) (sym kept) ∙ b)
          ∙ ap (sub_ℕ 0) (
              omega (
                arith,
                ended-set j i g.conns conn (assigned d) at,
                ended_on-open j conn old open_conn,
              ));
    }
Step-IsConsistent devices g _ (close i d shared at h) v =
    let (b, e, k) = bind_some (get_elem? g.shared.counts d) _ (shared, some d) h in
    let same : shared.dev_rr ≡ g.shared.dev_rr = ground (arith, k) in
    record {
      its_turn = subst (λ r. IsTurn devices r g.given) (sym same) v.its_turn;
      owes = Owes-close g.shared shared g.conns i d at h v.owes;
    }

Reach-IsConsistent : (n devices : ℕ) (g : Global) → Reach n devices g → IsConsistent devices g
unfolding Owes times ended
Reach-IsConsistent n devices _ start = record {
  its_turn = record { rounds = 0; in_range = inr refl; share = λ d h. ground arith };
  owes = λ d c e. get_elem?-replicate n d c e;
}
Reach-IsConsistent n devices _ (next {g} {f} r st) =
    Step-IsConsistent devices g f st (Reach-IsConsistent n devices g r)

-- The devices are given in turn: in every state that is reached from the start, with whatever
-- connections made, served and closed in whatever order by clients that agree on the number of
-- devices, no device was given more than once more than another.
pub Reach-balanced :
    (n devices : ℕ) (g : Global) (d e : ℕ)
    → Reach n devices g
    → d < devices
    → e < devices
    → times d g.given ≤ times e g.given + 1
Reach-balanced n devices g d e r h k =
    let t = (Reach-IsConsistent n devices g r).its_turn in ground (arith, t.share d h, t.share e k)

-- The counts of threads miss every connection that is given a device: in every such state the count of
-- a device is zero less the number of connections that were closed with it.
pub Reach-counts :
    (n devices : ℕ) (g : Global) (d : ℕ) (c : ℤ)
    → Reach n devices g
    → get_elem? g.shared.counts d ≡ some c
    → c ≡ sub_ℕ 0 (ended d g.conns)
unfolding Owes
Reach-counts n devices g d c r h = (Reach-IsConsistent n devices g r).owes d c h
