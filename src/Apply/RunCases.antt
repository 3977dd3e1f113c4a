-- ===== src/Apply/RunCases.antt =====
-- The cases of `applyEvent`'s switch that write the run entity.
use world_celld.Common.{
  ℕ, String, Bool, false, Option, none, some, List, [], ◌∷◌, if◌then◌else◌, is_some, truthy, get_or,
  match_option, update,
}
use world_celld.Apply.Entities.{
  RunStatus, StructuredError, Thrown, text, object, AttributeChange, Attributes, Run, Event,
  RunSeed, Payload,
}
use world_celld.Apply.External.{Platform, EventPage, list_by_prefix}
use world_celld.Apply.Transaction.{
  State, Context, run_not_found, entity_conflict, RunCreated, nothing, done, Result, thrown,
  returned, failure, append_event,
}
use world_celld.Apply.Bootstrap.{create_run}

-- The run is parsed, the event is built, and both are stored.
abbrev pub write_run : Platform → Context → State → Run → (Event → State → Result) → Result
write_run p ctx st run next =
    if p.run_accepted run
    then append_event p ctx st (record st.store { run = some run }) ctx.content next
    else thrown

abbrev pub run_saved : Run → Event → State → Result
run_saved run e st = returned (done (record nothing { event = some e; run = some run })) st

abbrev pub run_made : Context → RunSeed → Event → Run → State → Result
run_made ctx seed e run st =
    returned
      (done (record nothing {
        event = some e;
        run = some run;
        run_created = some (record { workflow_name = seed.workflow_name; created_at = ctx.now });
      }))
      st

-- An existing run is returned as it is, and no event is appended.
unfoldable pub apply_run_created : Platform → Context → State → RunSeed → Result
apply_run_created p ctx st seed =
    match_option st.run (create_run p ctx st seed (run_made ctx seed))
      (λ existing. returned (done (record nothing { run = some existing })) st)

-- The preloaded log, unless the caller skips it.
abbrev pub preloaded : Platform → Context → State → Option EventPage
preloaded p ctx st =
    if ctx.params.skip_preload
    then none
    else some (list_by_prefix p st.events p.max_events_per_run none false)

abbrev pub started : Run → ℕ → Run
started r now = record r {
  status = RunStatus.running;
  output = none;
  error = none;
  completed_at = none;
  started_at = some (get_or r.started_at now);
  updated_at = now;
}

abbrev pub run_begun : Platform → Context → Run → Option RunCreated → Event → State → Result
run_begun p ctx run boot e st =
    returned
      (done (record nothing {
        event = some e;
        run = some run;
        run_created = boot;
        max_events = some p.max_events_per_run;
        page = preloaded p ctx st;
      }))
      st

-- A run that is running already is returned with no new event.
abbrev pub start_run : Platform → Context → State → Run → Option RunCreated → RunStatus → Result
start_run p ctx st r boot RunStatus.running =
    returned
      (done (record nothing {
        run = some r;
        max_events = some p.max_events_per_run;
        page = preloaded p ctx st;
      }))
      st
start_run p ctx st r boot _ =
    write_run p ctx st (started r ctx.now) (run_begun p ctx (started r ctx.now) boot)

unfoldable pub apply_run_started :
    Platform → Context → State → Option Run → Option RunCreated → Result
apply_run_started p ctx st none boot = failure run_not_found st
apply_run_started p ctx st (some r) boot = start_run p ctx st r boot r.status

-- `readStringProp(error, key)` for the three keys that are read
abbrev pub message_of : Thrown → Option String
message_of (object m s c) = m
message_of _ = none

abbrev pub stack_of : Thrown → Option String
stack_of (object m s c) = s
stack_of _ = none

abbrev pub code_of : Thrown → Option String
code_of (object m s c) = c
code_of _ = none

abbrev pub or_else : Option String → Option String → Option String
or_else none b = b
or_else (some a) b = some a

abbrev pub error_message : Thrown → String
error_message (text s) = s
error_message e = get_or (message_of e) "Unknown error"

-- `toStructuredError`, with the options that a failed run gives it
unfoldable pub to_structured_error : Thrown → Option String → StructuredError
to_structured_error e error_code = record {
  message = error_message e;
  stack = stack_of e;
  code = or_else (or_else error_code (code_of e)) (code_of e);
}

abbrev pub finished : Run → RunStatus → Option Payload → Option StructuredError → ℕ → Run
finished r status output error now = record r {
  status = status;
  output = output;
  error = error;
  completed_at = some now;
  updated_at = now;
}

-- `run_completed`, `run_failed` and `run_cancelled`. The cell's store defers the cleanup of hooks
-- and waits, so `releaseAllHooks` and `releaseAllWaits` do nothing here.
unfoldable pub finish_run :
    Platform
    → Context
    → State
    → Option Run
    → RunStatus
    → Option Payload
    → Option StructuredError
    → Result
finish_run p ctx st none status output error = failure run_not_found st
finish_run p ctx st (some r) status output error =
    let run = finished r status output error ctx.now in write_run p ctx st run (run_saved run)

abbrev pub keys_of : Attributes → List String
keys_of [] = []
keys_of ((k, v) ∷ rest) = k ∷ keys_of rest

abbrev pub changed : Platform → Run → List AttributeChange → ℕ → Run
changed p r changes now = record r {
  attributes = p.apply_attributes r.attributes changes;
  updated_at = now;
}

-- The marker of a workflow-authored change, by its correlation ID.
abbrev pub attribute_marker : Context → Bool → Option String
attribute_marker ctx by_workflow = if by_workflow then truthy (some ctx.correlation_id) else none

abbrev pub marker_taken : State → Option String → Bool
marker_taken st none = false
marker_taken st (some k) = is_some (st.attribute_markers k)

abbrev pub with_marker : State → Option String → Event → State
with_marker st none e = st
with_marker st (some k) e = record st {
  store = record st.store { attribute_markers = update st.attribute_markers k e.event_id };
}

abbrev pub run_marked : Run → Option String → Event → State → Result
run_marked run marker e st = run_saved run e (with_marker st marker e)

unfoldable pub apply_attr_set :
    Platform
    → Context
    → State
    → Option Run
    → List AttributeChange
    → (by_workflow reserved : Bool) → Result
apply_attr_set p ctx st none changes by_workflow reserved = failure run_not_found st
apply_attr_set p ctx st (some r) changes by_workflow reserved =
    let marker = attribute_marker ctx by_workflow in
    if p.attributes_valid changes (some (keys_of r.attributes)) reserved
    then (if marker_taken st marker
        then failure entity_conflict st
        else write_run p ctx st (changed p r changes ctx.now)
            (run_marked (changed p r changes ctx.now) marker))
    else thrown
