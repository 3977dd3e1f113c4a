-- ===== src/Apply/Lifecycle.antt =====
-- The status of the run under `applyEvent` of `src/apply-event.ts`.
use mathlib.Core.Path.{subst}
use world_celld.Common.{ℕ, ◌≤◌, ◌≡◌, sym, true, Option, none, some, arith}
use world_celld.Apply.Entities.{
  RunStatus, Run, EventData, run_created, run_started, run_completed, run_failed, run_cancelled,
  attr_set, step_created, step_started, step_completed, step_failed, step_retrying, hook_created,
  hook_received, hook_disposed, hook_conflict, wait_created, wait_completed,
}
use world_celld.Apply.External.{Platform}
use world_celld.Apply.Transaction.{State, Context, RunCreated}
use world_celld.Apply.Guards.{terminal_guard}
use world_celld.Apply.Bootstrap.{observed_run}
use world_celld.Apply.RunCases.{apply_run_created, apply_run_started, finish_run, apply_attr_set}
use world_celld.Apply.StepCases.{
  apply_step_created, apply_step_started, apply_step_completed, apply_step_failed,
  apply_step_retrying, apply_wait_created, apply_wait_completed,
}
use world_celld.Apply.HookCases.{apply_hook_created, apply_hook_disposed, apply_event_only}
use world_celld.Apply.Rule.{Ensures, EnsuresIf, apply_event-rule, booted}
use world_celld.Apply.{apply_case, apply_event}

abbrev pub rank : RunStatus → ℕ
rank RunStatus.pending = 0
rank RunStatus.running = 1
rank _ = 2

-- The run may be created, keeps its identity, moves forward, and is final once terminal.
abbrev pub Advances : Platform → Option Run → Option Run → Type 0
Advances p none after = Unit
Advances p (some r) none = ⊥
Advances p (some r) (some r') =
    (r'.run_id ≡ r.run_id)
    × (r'.created_at ≡ r.created_at)
    × (rank r.status ≤ rank r'.status)
    × (p.is_terminal_run r.status ≡ true → r' ≡ r)

module _ (p : Platform) (ctx : Context) (start : Option Run) where
  abbrev Kept : State → Type 0
  Kept st = Advances p start st.run

  apply_case-Kept :
      (st : State) (boot : Option RunCreated) (content : EventData)
      → Kept st
      → terminal_guard p (record ctx { content = content }) st (observed_run content st) ≡ none
      → Ensures Kept (apply_case p ctx st (observed_run content st) boot content)
  unfolding apply_case apply_run_created apply_run_started finish_run apply_attr_set
      apply_step_created apply_step_started apply_step_completed apply_step_failed
      apply_step_retrying apply_wait_created apply_wait_completed apply_hook_created
      apply_hook_disposed apply_event_only terminal_guard
  apply_case-Kept st boot (run_created seed) h g = ground arith
  apply_case-Kept st boot (run_started seed) h g = ground arith
  apply_case-Kept st boot (run_completed output) h g = ground arith
  apply_case-Kept st boot (run_failed error code) h g = ground arith
  apply_case-Kept st boot run_cancelled h g = ground arith
  apply_case-Kept st boot (attr_set changes by_workflow reserved) h g = ground arith
  apply_case-Kept st boot (step_created seed) h g = ground arith
  apply_case-Kept st boot (step_started start) h g = ground arith
  apply_case-Kept st boot (step_completed result) h g = ground arith
  apply_case-Kept st boot (step_failed error) h g = ground arith
  apply_case-Kept st boot (step_retrying error at) h g = ground arith
  apply_case-Kept st boot (hook_created seed) h g = ground arith
  apply_case-Kept st boot (hook_disposed by) h g = ground arith
  apply_case-Kept st boot (wait_created at) h g = ground arith
  apply_case-Kept st boot (wait_completed at) h g = ground arith
  apply_case-Kept st boot (hook_received payload) h g = ground arith
  apply_case-Kept st boot (hook_conflict conflict) h g = ground arith

  terminal_guard-Kept :
      (st : State) (current : Option Run)
      → Kept st
      → EnsuresIf Kept (terminal_guard p ctx st current)
  unfolding terminal_guard
  terminal_guard-Kept st current h = ground arith

  Advances-refl : Advances p start start
  Advances-refl = ground arith

-- Whatever event is applied, and whatever its outcome: a stored run stays stored with its ID and
-- creation time, its status does not move backwards in the order pending, running, terminal, and a
-- run in a terminal status is left exactly as it is.
pub apply_event-Advances :
    (p : Platform) (ctx : Context) (st : State)
    → Ensures (λ st'. Advances p st.run st'.run) (apply_event p ctx st)
apply_event-Advances p ctx st =
    apply_event-rule p ctx (Kept p ctx st.run)
      (λ s h. terminal_guard-Kept p ctx st.run s (observed_run ctx.content s) h)
      (λ s boot live h. apply_case-Kept p ctx st.run s boot ctx.content h live) st
      (λ seed fresh. subst (λ r. Advances p r (booted p ctx st seed).run) (sym fresh) tt)
      (Advances-refl p ctx st.run)
