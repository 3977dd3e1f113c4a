-- ===== src/Apply/Bootstrap.antt =====
-- The resilient start of `applyEvent` in `src/apply-event.ts`: `run_started` on a missing run creates
-- it first.
use world_celld.Common.{
  Bool, true, false, ◌&&◌, Option, none, some, List, [], ◌∷◌, if◌then◌else◌, truthy, match_option,
  get_or,
}
use world_celld.Apply.Entities.{
  RunStatus, Run, Event, EventData, Attributes, AttributeChange, RunSeed, StartSeed, run_created,
  run_started, step_completed, step_retrying,
}
use world_celld.Apply.External.{Platform}
use world_celld.Apply.Transaction.{
  State, Context, RunCreated, Result, thrown, effective_spec, append_event,
}

-- Object.entries(attributes ?? {}).map(([key, value]) => ({ key, value }))
abbrev pub changes_of_list : Attributes → List AttributeChange
changes_of_list [] = []
changes_of_list ((k, v) ∷ rest) = record { key = k; value = some v } ∷ changes_of_list rest

abbrev pub changes_of : Option Attributes → List AttributeChange
changes_of none = []
changes_of (some attributes) = changes_of_list attributes

abbrev pub skip_run_validation : EventData → Bool
skip_run_validation (run_created seed) = true
skip_run_validation (step_completed result) = true
skip_run_validation (step_retrying error at) = true
skip_run_validation _ = false

-- The run that the guards look at.
abbrev pub observed_run : EventData → State → Option Run
observed_run content st = if skip_run_validation content then none else st.run

abbrev pub new_run : Platform → Context → RunSeed → Run
new_run p ctx seed = record {
  run_id = ctx.run_id;
  deployment_id = seed.deployment_id;
  workflow_name = seed.workflow_name;
  spec_version = effective_spec p ctx;
  execution_context = seed.execution_context;
  attributes = get_or seed.attributes [];
  encryption_public_key = seed.encryption_public_key;
  input = seed.input;
  status = RunStatus.pending;
  output = none;
  error = none;
  started_at = none;
  completed_at = none;
  created_at = ctx.now;
  updated_at = ctx.now;
  expired_at = none;
}

-- `deploymentId && workflowName && input !== undefined`
abbrev pub complete_seed : StartSeed → Option RunSeed
complete_seed s = elim (truthy s.deployment_id) [
  | none ↦ none
  | some d ↦ elim (truthy s.workflow_name) [
    | none ↦ none
    | some w ↦ elim s.input [
      | none ↦ none
      | some i ↦ some (record {
        deployment_id = d;
        workflow_name = w;
        input = i;
        execution_context = s.execution_context;
        attributes = s.attributes;
        allow_reserved_attributes = s.allow_reserved_attributes;
        encryption_public_key = s.encryption_public_key;
      })
    ]
  ]
]

-- The seed of a run that `run_started` has to create.
abbrev pub bootstrap_seed : EventData → Option Run → Option RunSeed
bootstrap_seed (run_started (some seed)) none = complete_seed seed
bootstrap_seed _ r = none

-- The rest of the call takes the state, the current run and what the bootstrap created.
abbrev pub Rest : Type 0
Rest = State → Option Run → Option RunCreated → Result

abbrev pub create_run :
    Platform → Context → State → RunSeed → (Event → Run → State → Result) → Result
create_run p ctx st seed next =
    let run = new_run p ctx seed in
    if p.attributes_valid (changes_of seed.attributes) none seed.allow_reserved_attributes
      && p.run_accepted run
    then append_event p ctx st (record st.store { run = some run }) (run_created seed)
        (λ e st'. next e run st')
    else thrown

abbrev pub run_booted : Context → RunSeed → Rest → Event → Run → State → Result
run_booted ctx seed rest e run st =
    rest st (some run) (some (record { workflow_name = seed.workflow_name; created_at = ctx.now }))

-- Resilient start: `run_started` on a missing run creates it first. The event that records the
-- creation has no correlation ID.
unfoldable pub bootstrap : Platform → Context → State → Rest → Result
bootstrap p ctx st rest =
    let current = observed_run ctx.content st in
    match_option (bootstrap_seed ctx.content current) (rest st current none)
      (λ seed. create_run p (record ctx { correlation_id = "" }) st seed (run_booted ctx seed rest))
