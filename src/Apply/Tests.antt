-- ===== src/Apply/Tests.antt =====
-- The theorems on `src/apply-event.ts` at concrete runs.
use world_celld.Common.{◌≡◌, refl, inl, none, some, [], ◌∷◌}
use world_celld.Apply.Entities.{RunStatus, hook_created, hook_received, Run}
use world_celld.Apply.External.{list_by_prefix}
use world_celld.Apply.Transaction.{State, Context, Result, build_event}
use world_celld.Apply.Rule.{Ensures}
use world_celld.Apply.Dense.{Extends}
use world_celld.Apply.Atomic.{FailureKeeps, apply_event-FailureKeeps}
use world_celld.Apply.Lifecycle.{Advances, apply_event-Advances}
use world_celld.Apply.Hooks.{Spent}
use world_celld.Apply.Marked.{disposing}
use world_celld.Apply.Resume.{delivering, repeated, resume_idempotent}
use world_celld.Apply.Forced.{
  ForcedDisposal, ForcedClaim, Journal, journaled, apply_forced_hook_disposal,
  resolve_forced_hook_claim, claim_of,
}
use world_celld.Apply.Takeover.{Refused, creating}
use world_celld.Apply.Guards.{
  terminal_guard, step_guard, resume_guard, hook_guard, existence_guard, force_claimed,
}
use world_celld.Apply.Bootstrap.{bootstrap}
use world_celld.Apply.RunCases.{apply_run_created, apply_run_started}
use world_celld.Apply.HookCases.{apply_hook_created, apply_hook_disposed, apply_event_only}
use world_celld.Apply.StepCases.{apply_step_created}
use world_celld.Apply.Claimer.{takeover_names_claimer}
use world_celld.Apply.Trace.{
  settle, empty, apply_all, log_append_only, log-IsDense, disposed_for_good,
  taken_over_never_delivers, resolved_never_commits, history_IsMarked,
}
use world_celld.Apply.{apply_case, apply_guarded, apply_event}
use world_celld.Apply.Concrete.{
  plain, plain_params, request, hook_seed, add_step, owned, finish, history, success_of, hooked,
}

-- The history is recorded in full.
events_counted : hooked.sequence ≡ 4
unfolding apply_all apply_event bootstrap apply_guarded terminal_guard step_guard resume_guard
    hook_guard existence_guard apply_case apply_run_created apply_run_started apply_hook_created
    apply_step_created build_event list_by_prefix
events_counted = refl

-- What an event after the history returns, and what it leaves.
abbrev answer : Context → State → Result
answer ctx st = apply_event plain ctx st

abbrev state_after : Context → State → State
state_after ctx st = settle st (answer ctx st)

-- Creating the step again is refused, without a trace.
apply_event-FailureKeeps_example : FailureKeeps hooked (apply_event plain add_step hooked)
apply_event-FailureKeeps_example = apply_event-FailureKeeps plain add_step hooked

apply_event-Advances_example :
    Ensures (λ st. Advances plain hooked.run st.run) (apply_event plain finish hooked)
apply_event-Advances_example = apply_event-Advances plain finish hooked

log_append_only_example : Extends plain hooked (apply_all plain (finish ∷ add_step ∷ []) hooked)
log_append_only_example =
    log_append_only plain (finish ∷ add_step ∷ []) hooked (log-IsDense plain history)

abbrev finished_run : Run
finished_run = record {
  run_id = "run";
  deployment_id = "d";
  workflow_name = "w";
  spec_version = 5;
  execution_context = none;
  attributes = [];
  encryption_public_key = none;
  input = "in";
  status = RunStatus.completed;
  output = some "out";
  error = none;
  started_at = some 7;
  completed_at = some 7;
  created_at = 7;
  updated_at = 7;
  expired_at = none;
}

abbrev dispose : Context
dispose = disposing owned none

-- The hook is disposed of, and creating it again does not bring it back.
disposed_for_good_example :
    Spent "hook" (apply_all plain (owned ∷ add_step ∷ []) (state_after dispose hooked))
unfolding apply_all apply_event bootstrap apply_guarded terminal_guard step_guard resume_guard
    hook_guard existence_guard apply_case apply_run_created apply_run_started apply_hook_created
    apply_step_created apply_hook_disposed build_event list_by_prefix
disposed_for_good_example =
    disposed_for_good plain owned hooked (state_after dispose hooked) none
      (success_of (answer dispose hooked)) (owned ∷ add_step ∷ []) (history_IsMarked plain history)
      refl refl

abbrev resuming : Context
resuming = record (request (hook_received "payload") "hook") {
  params = record plain_params { resume_id = some "r1"; resume_payload_digest = some "digest" };
}

abbrev delivery : Result
delivery = answer (delivering resuming "payload") hooked

resume_idempotent_example :
    apply_event plain (delivering resuming "payload") (settle hooked delivery)
    ≡ repeated (success_of delivery) (settle hooked delivery)
unfolding apply_all apply_event bootstrap apply_guarded terminal_guard step_guard resume_guard
    hook_guard existence_guard apply_case apply_run_created apply_run_started apply_hook_created
    apply_step_created apply_event_only build_event list_by_prefix
resume_idempotent_example =
    resume_idempotent plain resuming "payload" hooked (settle hooked delivery) "r1"
      (success_of delivery) refl refl

abbrev takeover : ForcedDisposal
takeover = record {
  hook_id = "hook";
  token = "t";
  claimed_by = record { run_id = "other"; hook_id = "their" };
}

abbrev taken_state : Journal → State
taken_state (journaled b st) = st
taken_state _ = hooked

abbrev taken : State
taken = taken_state (apply_forced_hook_disposal plain hooked takeover "run" 9)

abbrev deliver : Context
deliver = request (hook_received "payload") "hook"

taken_over_never_delivers_example :
    Refused (apply_event plain (delivering deliver "payload") (apply_all plain (owned ∷ []) taken))
unfolding apply_all apply_event bootstrap apply_guarded terminal_guard step_guard resume_guard
    hook_guard existence_guard apply_case apply_run_created apply_run_started apply_hook_created
    apply_step_created apply_forced_hook_disposal build_event list_by_prefix
taken_over_never_delivers_example =
    taken_over_never_delivers plain hooked taken takeover "run" 9 (owned ∷ []) deliver "payload"
      (history_IsMarked plain history) refl refl refl refl

abbrev hooked_run : Run
hooked_run = record finished_run { status = RunStatus.running; output = none; completed_at = none }

takeover_names_claimer_example :
    apply_event plain (delivering deliver "payload") (apply_all plain (owned ∷ []) taken)
    ≡ force_claimed (claim_of takeover) (apply_all plain (owned ∷ []) taken)
unfolding apply_all apply_event bootstrap apply_guarded terminal_guard step_guard resume_guard
    hook_guard existence_guard apply_case apply_run_created apply_run_started apply_hook_created
    apply_step_created apply_forced_hook_disposal build_event list_by_prefix
takeover_names_claimer_example =
    takeover_names_claimer plain hooked taken takeover "run" 9 (owned ∷ []) deliver "payload"
      hooked_run (history_IsMarked plain history) refl refl refl refl refl refl refl refl

abbrev claim : ForcedClaim
claim = record {
  hook_id = "new";
  token = "t";
  claim_id = "c";
  victim = record { run_id = "other"; hook_id = "their" };
}

abbrev claiming : Context
claiming = record (request (hook_created hook_seed) "new") { hook_claim_id = some "c:c" }

resolved_never_commits_example : Refused (
    apply_event plain
      (creating claiming hook_seed)
      (apply_all plain history (resolve_forced_hook_claim plain empty claim 9).1))
unfolding resolve_forced_hook_claim
resolved_never_commits_example =
    resolved_never_commits plain history claiming hook_seed empty claim 9 "c:c" refl (inl refl) refl

abbrev again : ForcedDisposal
again = record takeover { claimed_by = record { run_id = "third"; hook_id = "late" } }
