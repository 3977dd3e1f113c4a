-- ===== src/Apply/Concrete.antt =====
-- A platform whose event IDs are the slots in unary, and a short run on it.
use Prim.Native.String.{count, String}
use world_celld.Apply.TestIds.{unary, count-unary}
use world_celld.Common.{refl, ap, Bool, true, false, none, some, List, [], ◌∷◌}
use world_celld.Apply.Entities.{
  RunStatus, StepStatus, EventData, run_created, run_started, run_completed, step_created,
  hook_created, wait_created, RunSeed, HookSeed, StepSeed,
}
use world_celld.Apply.External.{Platform}
use world_celld.Apply.Transaction.{State, Params, Context, Success, nothing, Result, returned, done}
use world_celld.Apply.Trace.{empty, apply_all}

abbrev pub terminal : RunStatus → Bool
terminal RunStatus.pending = false
terminal RunStatus.running = false
terminal _ = true

abbrev pub terminal_step : StepStatus → Bool
terminal_step StepStatus.completed = true
terminal_step StepStatus.failed = true
terminal_step _ = false

abbrev pub child_creation : EventData → Bool
child_creation (step_created s) = true
child_creation (hook_created s) = true
child_creation (wait_created at) = true
child_creation _ = false

abbrev pub plain : Platform
plain = record {
  spec_version_current = 5;
  max_events_per_run = 1000;
  is_terminal_run = terminal;
  is_terminal_step = terminal_step;
  is_child_creation = child_creation;
  slot_to_event_id = unary;
  event_id_to_slot = λ s. some (count s);
  attributes_valid = λ changes by_workflow reserved. true;
  apply_attributes = λ attributes changes. attributes;
  run_accepted = λ r. true;
  step_accepted = λ s. true;
  hook_accepted = λ h. true;
  wait_accepted = λ w. true;
  event_accepted = λ e. true;
  list_events = λ events options. [];
  event_id_to_slot_lem = λ n. ap some (count-unary n);
  pending_live = refl;
  running_live = refl;
  completed_terminal = refl;
  failed_terminal = refl;
  cancelled_terminal = refl;
  step_completed_terminal = refl;
  step_failed_terminal = refl;
  step_created_is_child = λ s. refl;
  hook_created_is_child = λ s. refl;
  wait_created_is_child = λ at. refl;
}

abbrev pub plain_params : Params
plain_params = record {
  occurred_at = none;
  resume_id = none;
  resume_payload_digest = none;
  since_cursor = none;
  event_count = none;
  skip_preload = false;
  preload_events = false;
}

abbrev pub request : EventData → String → Context
request content correlation = record {
  run_id = "run";
  content = content;
  correlation_id = correlation;
  spec_version = none;
  params = plain_params;
  token_holder = none;
  hook_claim_id = none;
  claimed_from = none;
  force_refused = false;
  now = 7;
}

abbrev pub run_seed : RunSeed
run_seed = record {
  deployment_id = "d";
  workflow_name = "w";
  input = "in";
  execution_context = none;
  attributes = none;
  allow_reserved_attributes = false;
  encryption_public_key = none;
}

abbrev pub hook_seed : HookSeed
hook_seed = record {
  token = "t";
  metadata = none;
  is_webhook = none;
  is_system = none;
  token_retention_until = none;
  force = false;
  force_claimed_from = none;
}

abbrev pub step_seed : StepSeed
step_seed = record { step_name = "s"; workflow_name = none; input = "x" }

abbrev pub create : Context
create = request (run_created run_seed) ""

abbrev pub start : Context
start = request (run_started none) ""

abbrev pub add_step : Context
add_step = request (step_created step_seed) "step"

abbrev pub owned : Context
owned = record (request (hook_created hook_seed) "hook") {
  token_holder = some (record { run_id = "run"; hook_id = "hook" });
}

abbrev pub finish : Context
finish = request (run_completed (some "out")) ""

abbrev pub history : List Context
history = create ∷ start ∷ owned ∷ add_step ∷ []

abbrev pub success_of : Result → Success
success_of (returned (done s) st) = s
success_of _ = nothing

abbrev pub is_done : Result → Bool
is_done (returned (done s) st) = true
is_done _ = false

abbrev pub hooked : State
hooked = apply_all plain history empty
