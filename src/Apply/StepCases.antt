-- ===== src/Apply/StepCases.antt =====
-- The cases of `applyEvent`'s switch that write a step or a wait.
use world_celld.Common.{
  ℕ, ◌+◌, ◌-◌, ◌/◌, Bool, true, false, Option, none, some, if◌then◌else◌, is_some, get_or,
  match_option, update, ltb, ◌==◌,
}
use Prim.Native.String.{◌++◌}
use world_celld.Apply.Entities.{
  StepStatus, WaitStatus, Step, Wait, Event, EventData, StepSeed, StepStart, step_created, Payload,
}
use world_celld.Apply.External.{Platform}
use world_celld.Apply.Transaction.{
  Store, State, Context, step_not_found, wait_not_found, entity_conflict, too_early, nothing,
  failed, done, Result, thrown, returned, failure, effective_spec, append_event, put_indexed,
}

abbrev pub new_step : Platform → Context → StepSeed → Step
new_step p ctx seed = record {
  run_id = ctx.run_id;
  step_id = ctx.correlation_id;
  step_name = seed.step_name;
  status = StepStatus.pending;
  input = seed.input;
  output = none;
  error = none;
  attempt = 0;
  started_at = none;
  completed_at = none;
  retry_after = none;
  created_at = ctx.now;
  updated_at = ctx.now;
  spec_version = effective_spec p ctx;
}

abbrev pub put_new_step : Context → Store → Step → Store
put_new_step ctx s step = record s {
  steps = update s.steps ctx.correlation_id step;
  step_index = put_indexed s.step_index step.created_at step.step_id;
}

-- The step is parsed and written with its creation index, and the event is stored.
abbrev pub create_step :
    Platform → Context → State → StepSeed → EventData → (Event → Step → State → Result) → Result
create_step p ctx st seed content next =
    let step = new_step p ctx seed in
    if p.step_accepted step
    then append_event p ctx st (put_new_step ctx st.store step) content (λ e st'. next e step st')
    else thrown

abbrev pub step_saved : Step → Bool → Event → State → Result
step_saved step created e st =
    returned (done (record nothing { event = some e; step = some step; step_created = created })) st

unfoldable pub apply_step_created : Platform → Context → State → StepSeed → Result
apply_step_created p ctx st seed =
    if is_some (st.steps ctx.correlation_id)
    then failure entity_conflict st
    else create_step p ctx st seed ctx.content (λ e step st'. step_saved step false e st')

abbrev pub write_step : Platform → Context → State → Step → Bool → Result
write_step p ctx st step created =
    if p.step_accepted step
    then append_event p ctx st (record st.store { steps = update st.steps ctx.correlation_id step })
        ctx.content (step_saved step created)
    else thrown

-- A started attempt: the first start sets `started_at`, each start counts.
abbrev pub started_step : Step → ℕ → Step
started_step s now = record s {
  status = StepStatus.running;
  started_at = some (get_or s.started_at now);
  attempt = s.attempt + 1;
  retry_after = none;
  updated_at = now;
}

-- Math.ceil(ms / 1000)
abbrev pub ceil_seconds : ℕ → ℕ
ceil_seconds ms = (ms + 999) / 1000

abbrev pub start_attempt : Platform → Context → State → Step → Bool → Option ℕ → Result
start_attempt p ctx st s created none = write_step p ctx st (started_step s ctx.now) created
start_attempt p ctx st s created (some at) =
    if ltb ctx.now at
    then returned
        (failed (record {
          code = too_early;
          retry_after_seconds = some (ceil_seconds (at - ctx.now));
          run_spec_version = none;
          force_claim = none;
        }))
        st
    else write_step p ctx st (started_step s ctx.now) created

-- `!step && eventData?.input !== undefined && eventData.stepName`
abbrev pub lazy_seed : Option StepStart → Option StepSeed
lazy_seed none = none
lazy_seed (some s) = elim s.input [
  | none ↦ none
  | some i ↦ elim s.step_name [
    | none ↦ none
    | some name ↦
        if name == ""
        then none
        else some (record { step_name = name; workflow_name = s.workflow_name; input = i })
  ]
]

-- A step that does not exist yet is created by its first start, with an event of its own.
unfoldable pub apply_step_started :
    Platform → Context → State → Option Step → Option StepStart → Result
apply_step_started p ctx st (some s) start = start_attempt p ctx st s false s.retry_after
apply_step_started p ctx st none start =
    match_option (lazy_seed start) (failure step_not_found st) (λ seed.
      create_step p ctx st seed (step_created seed)
        (λ e s st'. start_attempt p ctx st' s true s.retry_after))

abbrev pub completed_step : Step → Option Payload → ℕ → Step
completed_step s result now = record s {
  status = StepStatus.completed;
  output = result;
  completed_at = some now;
  updated_at = now;
}

unfoldable pub apply_step_completed :
    Platform → Context → State → Option Step → Option Payload → Result
apply_step_completed p ctx st none result = failure step_not_found st
apply_step_completed p ctx st (some s) result =
    write_step p ctx st (completed_step s result ctx.now) false

abbrev pub failed_step : Step → Payload → ℕ → Step
failed_step s error now = record s {
  status = StepStatus.failed;
  error = some error;
  completed_at = some now;
  updated_at = now;
}

unfoldable pub apply_step_failed : Platform → Context → State → Option Step → Payload → Result
apply_step_failed p ctx st none error = failure step_not_found st
apply_step_failed p ctx st (some s) error = write_step p ctx st (failed_step s error ctx.now) false

abbrev pub retrying_step : Step → Payload → Option ℕ → ℕ → Step
retrying_step s error at now = record s {
  status = StepStatus.pending;
  error = some error;
  retry_after = at;
  updated_at = now;
}

unfoldable pub apply_step_retrying :
    Platform → Context → State → Option Step → Payload → Option ℕ → Result
apply_step_retrying p ctx st none error at = failure step_not_found st
apply_step_retrying p ctx st (some s) error at =
    write_step p ctx st (retrying_step s error at ctx.now) false

abbrev pub new_wait : Platform → Context → Option ℕ → Wait
new_wait p ctx at = record {
  wait_id = ctx.run_id ++ "-" ++ ctx.correlation_id;
  run_id = ctx.run_id;
  status = WaitStatus.waiting;
  resume_at = at;
  completed_at = none;
  created_at = ctx.now;
  updated_at = ctx.now;
  spec_version = effective_spec p ctx;
}

abbrev pub wait_saved : Wait → Event → State → Result
wait_saved wait e st = returned (done (record nothing { event = some e; wait = some wait })) st

abbrev pub write_wait : Platform → Context → State → Wait → Result
write_wait p ctx st wait =
    if p.wait_accepted wait
    then append_event p ctx st (record st.store { waits = update st.waits ctx.correlation_id wait })
        ctx.content (wait_saved wait)
    else thrown

unfoldable pub apply_wait_created : Platform → Context → State → Option ℕ → Result
apply_wait_created p ctx st at =
    if is_some (st.waits ctx.correlation_id)
    then failure entity_conflict st
    else write_wait p ctx st (new_wait p ctx at)

abbrev pub or_time : Option ℕ → Option ℕ → Option ℕ
or_time none b = b
or_time (some a) b = some a

abbrev pub complete_wait : Platform → Context → State → Wait → Option ℕ → WaitStatus → Result
complete_wait p ctx st w at WaitStatus.completed = failure entity_conflict st
complete_wait p ctx st w at WaitStatus.waiting = write_wait p ctx st (record w {
  status = WaitStatus.completed;
  resume_at = or_time at w.resume_at;
  completed_at = some ctx.now;
  updated_at = ctx.now;
})

unfoldable pub apply_wait_completed : Platform → Context → State → Option ℕ → Result
apply_wait_completed p ctx st at =
    match_option (st.waits ctx.correlation_id) (failure wait_not_found st)
      (λ w. complete_wait p ctx st w at w.status)
