-- ===== src/Apply/Hooks.antt =====
-- Hooks that were created and are gone, under `applyEvent` of `src/apply-event.ts`.
use world_celld.Common.{String, ◌≡◌, true, Option, none, arith, eq_iff, is_some}
use world_celld.Apply.Entities.{Run, EventData, hook_created, hook_disposed}
use world_celld.Apply.External.{Platform}
use world_celld.Apply.Transaction.{State, Context, RunCreated}
use world_celld.Apply.Guards.{terminal_guard}
use world_celld.Apply.Bootstrap.{observed_run}
use world_celld.Apply.RunCases.{apply_run_created, apply_run_started, finish_run, apply_attr_set}
use world_celld.Apply.StepCases.{
  apply_step_created, apply_step_started, apply_step_completed, apply_step_failed,
  apply_step_retrying, apply_wait_created, apply_wait_completed,
}
use world_celld.Apply.HookCases.{apply_hook_created, apply_hook_disposed, apply_event_only}
use world_celld.Apply.Rule.{Ensures, EnsuresIf, apply_event-rule}
use world_celld.Apply.{apply_case, apply_event}

-- The hook was created once and is gone.
abbrev pub Spent : String → State → Type 0
Spent id st = (is_some (st.hook_markers id) ≡ true) × (st.hooks id ≡ none)

module _ (p : Platform) (ctx : Context) (id : String) where
  apply_case-Spent :
      (st : State) (current : Option Run) (boot : Option RunCreated) (content : EventData)
      → Spent id st
      → Ensures (Spent id) (apply_case p ctx st current boot content)
  unfolding apply_case apply_run_created apply_run_started finish_run apply_attr_set
      apply_step_created apply_step_started apply_step_completed apply_step_failed
      apply_step_retrying apply_wait_created apply_wait_completed apply_hook_created
      apply_hook_disposed apply_event_only
  apply_case-Spent st current boot (hook_created seed) h =
      ground (arith, eq_iff ctx.correlation_id id)
  apply_case-Spent st current boot (hook_disposed by) h =
      ground (arith, eq_iff ctx.correlation_id id)
  apply_case-Spent st current boot _ h = ground arith

  terminal_guard-Spent :
      (st : State) (current : Option Run)
      → Spent id st
      → EnsuresIf (Spent id) (terminal_guard p ctx st current)
  unfolding terminal_guard
  terminal_guard-Spent st current h = ground arith

-- A hook that was created and is gone stays gone, whatever event is applied: in particular a
-- repeated `hook_created` of its ID does not bring it back.
pub apply_event-Spent :
    (p : Platform) (ctx : Context) (st : State) (id : String)
    → Spent id st
    → Ensures (Spent id) (apply_event p ctx st)
apply_event-Spent p ctx st id h =
    apply_event-rule p ctx (Spent id)
      (λ s k. terminal_guard-Spent p ctx id s (observed_run ctx.content s) k)
      (λ s boot live k. apply_case-Spent p ctx id s (observed_run ctx.content s) boot ctx.content k)
      st (λ seed fresh. h) h
