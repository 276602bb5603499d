-- ===== src/Sched/Fair/Control.antt =====
-- l2scheduler/fair_share_sched.c: the rounds of the control thread.
use gpu_virtmem.Prelude.{ℕ, suc, ◌≡◌, arith, get_elem?-some}
use gpu_virtmem.Sched.Data.{IsWellFormed, max_controller_count}
use gpu_virtmem.Sched.Fair.{
  FloatOps, fs_register_process, ControlThread, Locals, running, fs_control,
}

-- In a well-formed table, the registration that takes the counter from 499 round to 0 stops
-- scheduling: a round of any control thread on the table that it leaves changes nothing and
-- signals nobody.
pub fs_register_process-stops :
    (fl : FloatOps) (gpu : ℕ) (v : Locals) (k : ControlThread) (pid signum app_type gpuid share : ℕ)
    → IsWellFormed k.sched
    → suc k.sched.count ≡ max_controller_count
    → let full = record k { sched = fs_register_process pid signum app_type gpuid share k.sched } in
      fs_control fl gpu v full ≡ running full
unfolding fs_control fs_register_process
fs_register_process-stops fl gpu v k pid signum app_type gpuid share w h =
    let (s, e) = get_elem?-some k.sched.slots k.sched.count (ground (arith, w.in_range, w.full)) in
    ground (arith, e)
