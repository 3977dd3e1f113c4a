-- ===== src/Apply.antt =====
-- `src/apply-event.ts`: one event applied to one run inside a storage transaction.
pub mod Entities
pub mod External
pub mod Transaction
pub mod Bootstrap
pub mod Guards
pub mod RunCases
pub mod StepCases
pub mod HookCases
pub mod Rule
pub mod Log
pub mod Dense
pub mod Atomic
pub mod Lifecycle
pub mod Hooks
pub mod Marked
pub mod Resume
pub mod Forced
pub mod Takeover
pub mod Trace
pub mod Announce
pub mod Claimer
mod TestIds
pub mod Concrete
mod Tests
use world_celld.Common.{String, ◌==◌, if◌then◌else◌, eqb, Option, none, some}
use world_celld.Apply.Entities.{
  RunStatus, Run, Step, EventData, run_created, run_started, run_completed, run_failed,
  run_cancelled, attr_set, step_created, step_started, step_completed, step_failed, step_retrying,
  hook_created, hook_received, hook_disposed, hook_conflict, wait_created, wait_completed,
}
use world_celld.Apply.External.{Platform}
use world_celld.Apply.Transaction.{State, Context, Result, RunCreated, unsupported, effective_spec}
use world_celld.Apply.Guards.{
  then_go, spec_guard, terminal_guard, step_guard, resume_guard, hook_guard, existence_guard,
}
use world_celld.Apply.Bootstrap.{bootstrap}
use world_celld.Apply.RunCases.{
  apply_run_created, apply_run_started, finish_run, to_structured_error, apply_attr_set,
}
use world_celld.Apply.StepCases.{
  apply_step_created, apply_step_started, apply_step_completed, apply_step_failed,
  apply_step_retrying, apply_wait_created, apply_wait_completed,
}
use world_celld.Apply.HookCases.{apply_hook_created, apply_hook_disposed, apply_event_only}

-- The switch on the event's type.
unfoldable pub apply_case :
    Platform → Context → State → Option Run → Option RunCreated → EventData → Result
apply_case p ctx st current boot (run_created seed) = apply_run_created p ctx st seed
apply_case p ctx st current boot (run_started seed) = apply_run_started p ctx st current boot
apply_case p ctx st current boot (run_completed output) =
    finish_run p ctx st current RunStatus.completed output none
apply_case p ctx st current boot (run_failed error code) =
    finish_run p ctx st current RunStatus.failed none (some (to_structured_error error code))
apply_case p ctx st current boot run_cancelled =
    finish_run p ctx st current RunStatus.cancelled none none
apply_case p ctx st current boot (attr_set changes by_workflow reserved) =
    apply_attr_set p ctx st current changes by_workflow reserved
apply_case p ctx st current boot (step_created seed) = apply_step_created p ctx st seed
apply_case p ctx st current boot (step_started start) =
    apply_step_started p ctx st (st.steps ctx.correlation_id) start
apply_case p ctx st current boot (step_completed result) =
    apply_step_completed p ctx st (st.steps ctx.correlation_id) result
apply_case p ctx st current boot (step_failed error) =
    apply_step_failed p ctx st (st.steps ctx.correlation_id) error
apply_case p ctx st current boot (step_retrying error at) =
    apply_step_retrying p ctx st (st.steps ctx.correlation_id) error at
apply_case p ctx st current boot (hook_created seed) = apply_hook_created p ctx st seed
apply_case p ctx st current boot (hook_disposed by) = apply_hook_disposed p ctx st
apply_case p ctx st current boot (wait_created at) = apply_wait_created p ctx st at
apply_case p ctx st current boot (wait_completed at) = apply_wait_completed p ctx st at
apply_case p ctx st current boot (hook_received payload) = apply_event_only p ctx st
apply_case p ctx st current boot (hook_conflict conflict) = apply_event_only p ctx st

-- The guards after the bootstrap, in order, and the switch.
unfoldable pub apply_guarded : Platform → Context → State → Option Run → Option RunCreated → Result
apply_guarded p ctx st current boot = then_go (spec_guard p st current) (
    then_go (terminal_guard p ctx st current) (
      then_go (step_guard p ctx st current ctx.content) (
        then_go (resume_guard ctx st ctx.content) (
          then_go (hook_guard p ctx st current ctx.content) (
            then_go (existence_guard st current ctx.content)
              (apply_case p ctx st current boot ctx.content))))))

-- `applyEvent`
unfoldable pub apply_event : Platform → Context → State → Result
apply_event p ctx st =
    if eqb (effective_spec p ctx) p.spec_version_current
    then bootstrap p ctx st (apply_guarded p ctx)
    else unsupported (effective_spec p ctx) st
