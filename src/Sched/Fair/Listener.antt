-- ===== src/Sched/Fair/Listener.antt =====
-- l2scheduler/fair_share_sched.c: what a round of the listener does to the table.
use gpu_virtmem.Prelude.{
  as_size_t, ◌^◌, ℕ, zero, suc, ◌+◌, ◌%◌, ◌≤◌, ◌<◌, ◌≡◌, ◌≢◌, refl, Bool, false, ◌&&◌, not, List,
  [], ◌∷◌, length, set, length-set, get_elem?, get_elem?-some, none, some, Bool-cases, ◌==◌, arith,
  inl, inr, ◌∙◌, subst, sym, branches_intro, pos,
}
use gpu_virtmem.Sched.Data.{
  Slot, SchedulerData, Request, already_added, already_added-false, occurrences, occurrences-set,
  IsWellFormed, max_controller_count, active,
}
use gpu_virtmem.Sched.Fair.{fs_register_process, rem_from, ListenEvent, fs_listen, is_add}

pub occurrences-rem_from :
    (pid gpu p : ℕ) (slots : List Slot)
    → p ≢ 0
    → occurrences p (rem_from pid gpu slots) ≤ occurrences p slots
unfolding rem_from occurrences
occurrences-rem_from pid gpu p [] h = omega arith
occurrences-rem_from pid gpu p (s ∷ slots) h =
    ground (arith, occurrences-rem_from pid gpu p slots h)

pub length-rem_from :
    (pid gpu : ℕ) (slots : List Slot) → length (rem_from pid gpu slots) ≡ length slots
unfolding rem_from
length-rem_from pid gpu [] = refl
length-rem_from pid gpu (s ∷ slots) = ground (arith, length-rem_from pid gpu slots)

-- A table in which a slot has got a process that was in none of them.
pub set-IsWellFormed :
    (d : SchedulerData) (old new : Slot)
    → get_elem? d.slots d.count ≡ some old
    → already_added new.process d.slots ≡ false
    → IsWellFormed d
    → IsWellFormed
        (record { slots = set d.slots d.count new; count = (d.count + 1) % max_controller_count })
set-IsWellFormed d old new e fresh w = record {
  full = length-set d.slots d.count new ∙ w.full;
  in_range = omega arith;
  once = λ p h. once p h;
}
  where
    none_yet : occurrences new.process d.slots ≡ 0
    none_yet = already_added-false new.process d.slots fresh

    once : (p : ℕ) → p ≢ 0 → occurrences p (set d.slots d.count new) ≤ 1
    once p h = elim (Bool-cases (new.process == p)) [
      | inl f ↦ ground (arith, occurrences-set p d.slots d.count old new e, none_yet)
      | inr f ↦ ground (arith, occurrences-set p d.slots d.count old new e, w.once p h)
    ]

pub register-IsWellFormed :
    (pid signum app_type gpuid share : ℕ) (d : SchedulerData)
    → already_added pid d.slots ≡ false
    → IsWellFormed d
    → IsWellFormed (fs_register_process pid signum app_type gpuid share d)
unfolding fs_register_process
register-IsWellFormed pid signum app_type gpuid share d fresh w =
    let (s, e) = get_elem?-some d.slots d.count (ground arith) in
    subst
      (λ o. IsWellFormed (elim o [
        | none ↦ d
        | some s ↦ record {
          slots = set d.slots d.count (record s {
            process = pid;
            share_unit = as_size_t (share % 2 ^ 32);
            signal_num = signum;
            state = active;
            app_type = app_type;
            penalty_epochs = pos 0;
            gpu_binding = gpuid;
          });
          count = (d.count + 1) % max_controller_count;
        }
      ]))
      (sym e) (set-IsWellFormed d s _ e fresh w)

pub rem-IsWellFormed :
    (pid gpu : ℕ) (d : SchedulerData)
    → IsWellFormed d
    → IsWellFormed (record d { slots = rem_from pid gpu d.slots })
rem-IsWellFormed pid gpu d w = record {
  full = length-rem_from pid gpu d.slots ∙ w.full;
  in_range = w.in_range;
  once = λ p h. omega (arith, occurrences-rem_from pid gpu p d.slots h, w.once p h);
}

-- Whatever request the listener of a GPU reads, and whatever the client replies, a well-formed
-- table stays well formed: it keeps its size, its counter stays within it, and no process is in it
-- twice.
pub fs_listen-IsWellFormed :
    (got : Bool) (gpu sigsched err : ℕ) (pcd : Request) (d : SchedulerData)
    → IsWellFormed d
    → IsWellFormed (fs_listen got gpu sigsched err pcd d).0
unfolding fs_listen
fs_listen-IsWellFormed got gpu sigsched err pcd d w =
    let P : SchedulerData × List ListenEvent → Type 0 = λ r. IsWellFormed r.0 in
    branches_intro P (got && is_add pcd.action && not (already_added pcd.pid d.slots)) _ _
      (λ f.
        branches_intro P _ _ _
          (λ g.
            register-IsWellFormed pcd.pid sigsched pcd.app_type pcd.gpuid pcd.share_unit d
              (ground arith) w)
          (λ g. w))
      (λ f. branches_intro P _ _ _ (λ g. rem-IsWellFormed pcd.pid gpu d w) (λ g. w))

-- A slot of the process on the GPU.
pub bound_to : ℕ → ℕ → Slot → Bool
bound_to pid gpu s = s.process == pid && gpu == s.gpu_binding

member-occurrences :
    (pid : ℕ) (slots : List Slot) (i : ℕ) (s : Slot)
    → get_elem? slots i ≡ some s
    → s.process ≡ pid
    → 0 < occurrences pid slots
unfolding occurrences
member-occurrences pid [] i s e h = absurd (ground arith)
member-occurrences pid (t ∷ slots) zero s e h = ground arith
member-occurrences pid (t ∷ slots) (suc i) s e h =
    ground (arith, member-occurrences pid slots i s e h)

-- The loop of `REM_Q` takes a process off its GPU for good: where a process, with an id that is
-- not 0, was in the table at most once, no slot of the table afterwards is the process's on that
-- GPU.
pub rem_from-absent :
    (pid gpu : ℕ) (slots : List Slot) (i : ℕ) (s : Slot)
    → pid ≢ 0
    → occurrences pid slots ≤ 1
    → get_elem? (rem_from pid gpu slots) i ≡ some s
    → bound_to pid gpu s ≡ false
unfolding rem_from bound_to occurrences
rem_from-absent pid gpu [] i s h o e = absurd (ground arith)
rem_from-absent pid gpu (t ∷ slots) zero s h o e = ground arith
rem_from-absent pid gpu (t ∷ slots) (suc i) s h o e = elim (Bool-cases (s.process == pid)) [
  | inl f ↦
      ground (
        arith,
        rem_from-absent pid gpu slots i s h (ground arith),
        member-occurrences pid slots i s,
      )
  | inr f ↦ ground arith
]
