-- ===== src/Apply/Guards.antt =====
-- The guards of `applyEvent` in `src/apply-event.ts`, in its order. A guard lets the event pass
-- (`none`) or ends the call with a result.
use world_celld.Common.{
  String, Bool, true, false, not, ◌&&◌, ◌||◌, Option, none, some, [], ◌∷◌, if◌then◌else◌, eqb,
  is_some, truthy, match_option, get_or, ◌==◌,
}
use world_celld.Apply.Entities.{
  RunStatus, StepStatus, Run, Step, Hook, Event, EventData, run_started, run_completed, run_failed,
  run_cancelled, attr_set, step_started, step_completed, step_failed, step_retrying, hook_received,
  hook_disposed, ResumeClaim, HookReference, ForceClaim,
}
use world_celld.Apply.External.{Platform}
use world_celld.Apply.Transaction.{
  State, Context, run_not_found, step_not_found, hook_not_found, hook_force_claimed,
  entity_conflict, run_expired, nothing, failed, done, Result, returned, failure, unsupported,
  append_event,
}
use world_celld.Apply.Bootstrap.{skip_run_validation}

-- Go on where the guard lets pass.
abbrev pub then_go : Option Result → Result → Result
then_go none next = next
then_go (some r) next = r

abbrev pub spec_guard : Platform → State → Option Run → Option Result
spec_guard p st none = none
spec_guard p st (some r) =
    if eqb r.spec_version p.spec_version_current then none else some (unsupported r.spec_version st)

abbrev pub is_cancelled : RunStatus → Bool
is_cancelled RunStatus.cancelled = true
is_cancelled _ = false

abbrev pub cancelled_again : Run → Event → State → Result
cancelled_again r e st = returned (done (record nothing { event = some e; run = some r })) st

-- An event on a terminal run: a repeated cancellation is recorded, and no other event starts, ends
-- or changes the run or creates an entity of it.
abbrev pub terminal_guard_by : Platform → Context → State → Run → EventData → Option Result
terminal_guard_by p ctx st r run_cancelled =
    if is_cancelled r.status
    then some (append_event p ctx st st.store run_cancelled (cancelled_again r))
    else some (failure entity_conflict st)
terminal_guard_by p ctx st r (run_started seed) = some (failure run_expired st)
terminal_guard_by p ctx st r (run_completed output) = some (failure entity_conflict st)
terminal_guard_by p ctx st r (run_failed error code) = some (failure entity_conflict st)
terminal_guard_by p ctx st r (attr_set changes by_workflow reserved) =
    some (failure entity_conflict st)
terminal_guard_by p ctx st r content =
    if p.is_child_creation content then some (failure entity_conflict st) else none

unfoldable pub terminal_guard : Platform → Context → State → Option Run → Option Result
terminal_guard p ctx st none = none
terminal_guard p ctx st (some r) =
    if p.is_terminal_run r.status then terminal_guard_by p ctx st r ctx.content else none

abbrev pub terminal_run : Platform → Option Run → Bool
terminal_run p none = false
terminal_run p (some r) = p.is_terminal_run r.status

abbrev pub is_running : StepStatus → Bool
is_running StepStatus.running = true
is_running _ = false

-- The guard of a step event: `lazy` is a start that may create the step.
abbrev pub step_guard_by : Platform → State → Option Run → Bool → Option Step → Option Result
step_guard_by p st current lazy none = if lazy then none else some (failure step_not_found st)
step_guard_by p st current lazy (some s) =
    if lazy
    then some (failure entity_conflict st)
    else if p.is_terminal_step s.status
    then some (failure entity_conflict st)
    else if terminal_run p current && not (is_running s.status)
    then some (failure run_expired st)
    else none

unfoldable pub step_guard : Platform → Context → State → Option Run → EventData → Option Result
step_guard p ctx st current (step_started seed) =
    step_guard_by p st current (p.is_child_creation (step_started seed))
      (st.steps ctx.correlation_id)
step_guard p ctx st current (step_completed result) =
    step_guard_by p st current false (st.steps ctx.correlation_id)
step_guard p ctx st current (step_failed error) =
    step_guard_by p st current false (st.steps ctx.correlation_id)
step_guard p ctx st current (step_retrying error at) =
    step_guard_by p st current false (st.steps ctx.correlation_id)
step_guard p ctx st current _ = none

-- The event that a resume claim names is the one that it was made for.
abbrev pub resumes : Event → ResumeClaim → String → Bool
resumes e claim resume_id = elim e.content [
  | hook_received payload ↦
      (e.correlation_id == claim.hook_id) && (get_or e.resume_id "" == resume_id)
  | _ ↦ false
]

-- Both digests are given and differ.
abbrev pub digests_differ : Option String → Option String → Bool
digests_differ a b = elim (truthy a) [
  | none ↦ false
  | some x ↦ elim (truthy b) [ none ↦ false | some y ↦ not (x == y) ]
]

abbrev pub resume_guard_by : Context → State → String → Option ResumeClaim → Option Result
resume_guard_by ctx st resume_id none = none
resume_guard_by ctx st resume_id (some claim) =
    if not (claim.hook_id == ctx.correlation_id)
    then some (failure entity_conflict st)
    else if digests_differ claim.payload_digest ctx.params.resume_payload_digest
    then some (failure entity_conflict st)
    else match_option (st.events claim.event_id) none (λ e.
      if resumes e claim resume_id
      then some (returned (done (record nothing { event = some e })) st)
      else some (failure entity_conflict st))

-- A resume that was recorded already is answered by its event.
unfoldable pub resume_guard : Context → State → EventData → Option Result
resume_guard ctx st (hook_received payload) =
    match_option (truthy ctx.params.resume_id) none
      (λ resume_id. resume_guard_by ctx st resume_id (st.resume_claims resume_id))
resume_guard ctx st _ = none

abbrev pub force_claimed : ForceClaim → State → Result
force_claimed claim st =
    returned
      (failed (record {
        code = hook_force_claimed;
        retry_after_seconds = none;
        run_spec_version = none;
        force_claim = some claim;
      }))
      st

abbrev pub disposed_guard_by : Context → State → Option Hook → Option HookReference → Option Result
disposed_guard_by ctx st (some h) r = none
disposed_guard_by ctx st none (some released) =
    some (returned (done (record nothing { released_hooks = released ∷ [] })) st)
disposed_guard_by ctx st none none = some (failure hook_not_found st)

abbrev pub received_guard_by :
    Platform → State → Option Run → Option Hook → Option ForceClaim → Option Result
received_guard_by p st current (some h) f =
    if terminal_run p current then some (failure hook_not_found st) else none
received_guard_by p st current none (some claim) = some (force_claimed claim st)
received_guard_by p st current none none = some (failure hook_not_found st)

-- The guard of a hook's disposal and delivery, made only for a non-empty hook ID.
unfoldable pub hook_guard : Platform → Context → State → Option Run → EventData → Option Result
hook_guard p ctx st current (hook_disposed by) =
    if ctx.correlation_id == ""
    then none
    else disposed_guard_by ctx st (st.hooks ctx.correlation_id)
        (st.hook_releases ctx.correlation_id)
hook_guard p ctx st current (hook_received payload) =
    if ctx.correlation_id == ""
    then none
    else received_guard_by p st current (st.hooks ctx.correlation_id)
        (st.force_claims ctx.correlation_id)
hook_guard p ctx st current _ = none

abbrev pub is_run_started : EventData → Bool
is_run_started (run_started seed) = true
is_run_started _ = false

unfoldable pub existence_guard : State → Option Run → EventData → Option Result
existence_guard st current content =
    if skip_run_validation content || is_run_started content || is_some current
    then none
    else some (failure run_not_found st)
