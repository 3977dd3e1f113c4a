-- ===== src/Apply/Log.antt =====
-- What `applyEvent` does to the event log, whatever the event: it keeps every property that depends
-- on the log and the sequence alone and is kept by an append.
mod Rules
mod Runs
mod Steps
mod Hooks
pub use Rules.{IsLogProperty}
use world_celld.Apply.Rule.{Ensures, EnsuresIf, apply_event-rule, booted, boot_event}
use world_celld.Common.{
  ◌||◌, eqb, not, ◌&&◌, ◌==◌, ℕ, ◌+◌, String, ◌≡◌, refl, Bool, true, false, Option, none, some,
  List, arith, update, Bool-cases, inl, inr, if◌then◌else◌, ltb, Option-cases, is_some,
  match_option, truthy,
}
use world_celld.Apply.Entities.{
  RunStatus, Run, Step, Hook, HookReference, Event, EventData, run_created, run_started,
  run_completed, run_failed, run_cancelled, attr_set, step_created, step_started, step_completed,
  step_failed, step_retrying, hook_created, hook_received, hook_disposed, hook_conflict,
  wait_created, wait_completed, RunSeed, StepSeed, StepStart, Wait, WaitStatus, ForceClaim,
  ResumeClaim, Payload, StructuredError, AttributeChange, HookSeed,
}
use world_celld.Apply.External.{Platform}
use world_celld.Apply.Transaction.{
  Store, State, Context, RunCreated, Result, thrown, returned, effective_spec, Outcome, failed,
  done, build_event, append_event, failure, run_not_found, entity_conflict, hook_claim_cancelled,
}
use world_celld.Apply.Guards.{
  terminal_guard_by, cancelled_again, is_cancelled, step_guard_by, is_running, terminal_run,
  resume_guard_by, digests_differ, resumes, disposed_guard_by, received_guard_by, is_run_started,
  then_go, terminal_guard, step_guard, resume_guard, hook_guard, existence_guard, spec_guard,
}
use world_celld.Apply.Bootstrap.{
  run_booted, skip_run_validation, create_run, new_run, bootstrap, Rest, bootstrap_seed,
  observed_run,
}
use world_celld.Apply.RunCases.{
  write_run, run_made, run_begun, run_saved, run_marked, started, finished, changed, with_marker,
  attribute_marker, marker_taken, apply_run_created, apply_run_started, start_run, finish_run,
  apply_attr_set,
}
use world_celld.Apply.StepCases.{
  new_step, completed_step, failed_step, retrying_step, new_wait, complete_wait, wait_saved,
  step_saved, started_step, lazy_seed, create_step, write_step, apply_step_created, start_attempt,
  apply_step_started, apply_step_completed, apply_step_failed, apply_step_retrying, write_wait,
  apply_wait_created, apply_wait_completed,
}
use world_celld.Apply.HookCases.{
  claim_cancelled, conflicting, create_hook, new_hook, hook_made, put_new_hook, claimed_from_of,
  orphan, event_saved, hook_dropped, with_resume_claim, is_received, event_recorded,
  apply_hook_created, apply_hook_disposed, apply_event_only,
}
use world_celld.Apply.{apply_case, apply_guarded, apply_event}
use Rules.{append_event-log, create_run-log}
use Runs.{apply_run_created-log, start_run-log, finish_run-log, apply_attr_set-log}
use Steps.{
  apply_step_created-log, apply_step_started-log, apply_step_completed-log, apply_step_failed-log,
  apply_step_retrying-log, apply_wait_created-log, apply_wait_completed-log,
}
use Hooks.{apply_hook_created-log, apply_hook_disposed-log, apply_event_only-log}

EnsuresIf-if :
    (P : State → Type 0) (b : Bool) (x y : Option Result)
    → EnsuresIf P x
    → EnsuresIf P y
    → EnsuresIf P (if b then x else y)
EnsuresIf-if P true x y hx hy = hx
EnsuresIf-if P false x y hx hy = hy

module _ (p : Platform) (P : State → Type 0) (closed : IsLogProperty p P) (ctx : Context) where
  terminal_guard_by-log :
      (st : State) (r : Run) (content : EventData)
      → P st
      → EnsuresIf P (terminal_guard_by p ctx st r content)
  terminal_guard_by-log st r run_cancelled h =
      EnsuresIf-if P (is_cancelled r.status) _ _
        (append_event-log p P closed ctx st st.store run_cancelled (cancelled_again r) refl
          (λ e st' k. k) h)
        h
  terminal_guard_by-log st r (run_started seed) h = h
  terminal_guard_by-log st r (run_completed output) h = h
  terminal_guard_by-log st r (run_failed error code) h = h
  terminal_guard_by-log st r (attr_set changes by_workflow reserved) h = h
  terminal_guard_by-log st r other h = EnsuresIf-if P (p.is_child_creation other) _ _ h tt

  terminal_guard-log :
      (st : State) (current : Option Run) → P st → EnsuresIf P (terminal_guard p ctx st current)
  unfolding terminal_guard
  terminal_guard-log st none h = tt
  terminal_guard-log st (some r) h =
      EnsuresIf-if P (p.is_terminal_run r.status) _ _ (terminal_guard_by-log st r ctx.content h) tt

  apply_case-log :
      (st : State) (current : Option Run) (boot : Option RunCreated) (content : EventData)
      → P st
      → Ensures P (apply_case p ctx st current boot content)
  unfolding apply_case apply_run_started
  apply_case-log st current boot (run_created seed) h =
      apply_run_created-log p P closed ctx st seed h
  apply_case-log st none boot (run_started seed) h = h
  apply_case-log st (some r) boot (run_started seed) h =
      start_run-log p P closed ctx st r boot r.status h
  apply_case-log st current boot (run_completed output) h =
      finish_run-log p P closed ctx st current _ _ _ h
  apply_case-log st current boot (run_failed error code) h =
      finish_run-log p P closed ctx st current _ _ _ h
  apply_case-log st current boot run_cancelled h = finish_run-log p P closed ctx st current _ _ _ h
  apply_case-log st current boot (attr_set changes by_workflow reserved) h =
      apply_attr_set-log p P closed ctx st current changes by_workflow reserved h
  apply_case-log st current boot (step_created seed) h =
      apply_step_created-log p P closed ctx st seed h
  apply_case-log st current boot (step_started start) h =
      apply_step_started-log p P closed ctx st _ start h
  apply_case-log st current boot (step_completed result) h =
      apply_step_completed-log p P closed ctx st _ result h
  apply_case-log st current boot (step_failed error) h =
      apply_step_failed-log p P closed ctx st _ error h
  apply_case-log st current boot (step_retrying error at) h =
      apply_step_retrying-log p P closed ctx st _ error at h
  apply_case-log st current boot (hook_created seed) h =
      apply_hook_created-log p P closed ctx st seed h
  apply_case-log st current boot (hook_disposed by) h = apply_hook_disposed-log p P closed ctx st h
  apply_case-log st current boot (wait_created at) h = apply_wait_created-log p P closed ctx st at h
  apply_case-log st current boot (wait_completed at) h =
      apply_wait_completed-log p P closed ctx st at h
  apply_case-log st current boot (hook_received payload) h =
      apply_event_only-log p P closed ctx st h
  apply_case-log st current boot (hook_conflict conflict) h =
      apply_event_only-log p P closed ctx st h

-- Whatever event is applied, a property of the log that an append keeps holds afterwards too.
pub apply_event-log :
    (p : Platform) (P : State → Type 0) (ctx : Context) (st : State)
    → IsLogProperty p P
    → P st
    → Ensures P (apply_event p ctx st)
apply_event-log p P ctx st closed h =
    apply_event-rule p ctx P
      (λ s k. terminal_guard-log p P closed ctx s (observed_run ctx.content s) k)
      (λ s boot live k.
        apply_case-log p P closed ctx s (observed_run ctx.content s) boot ctx.content k)
      st
      (λ seed fresh.
        closed.append st (booted p ctx st seed) (boot_event p ctx st seed)
          (unfold build_event in refl) refl refl h)
      h
