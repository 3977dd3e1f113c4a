-- ===== src/Apply/Transaction.antt =====
-- The run's part of the storage, what `applyEvent` returns, and the writes that its cases share.
use world_celld.Common.{
  ℕ, ◌+◌, String, Bool, false, Option, none, some, List, [], if◌then◌else◌, eqb, update, get_or,
  ◌==◌,
}
use world_celld.Apply.Entities.{
  Run, Step, Hook, Wait, Event, EventData, run_started, step_started, hook_received, Owner,
  ClaimedFrom, HookReference, ForceClaim, ResumeClaim, Cancellation,
}
use world_celld.Apply.External.{Platform, EventPage}

-- One field for each key prefix; a field maps what stands behind the prefix. The creation-time
-- indexes are keyed by time and ID.
pub record Store : Type 0 where
  pub run : Option Run
  pub events : String → Option Event
  pub steps : String → Option Step
  pub step_index : ℕ → String → Option String
  pub hooks : String → Option Hook
  pub hook_index : ℕ → String → Option String
  pub waits : String → Option Wait
  pub hook_markers : String → Option String
  pub hook_releases : String → Option HookReference
  pub hook_cancellations : String → Option Cancellation
  pub attribute_markers : String → Option String
  pub resume_claims : String → Option ResumeClaim
  pub force_claims : String → Option ForceClaim

-- The store within a transaction, and the event sequence that `nextEventId` advances.
pub record State : Type 0 where
  pub store : Store
  pub open store use *
  pub sequence : ℕ

pub record Params : Type 0 where
  pub occurred_at : Option ℕ
  pub resume_id : Option String
  pub resume_payload_digest : Option String
  pub since_cursor : Option String
  pub event_count : Option ℕ
  pub skip_preload : Bool
  pub preload_events : Bool

-- `ApplyEventRequest` with the clock; `token_holder` is none for `null` and for absent.
pub record Context : Type 0 where
  pub run_id : String
  pub content : EventData
  pub correlation_id : String
  pub spec_version : Option ℕ
  pub params : Params
  pub token_holder : Option Owner
  pub hook_claim_id : Option String
  pub claimed_from : Option ClaimedFrom
  pub force_refused : Bool
  pub now : ℕ

pub data ErrorCode : Type 0 where
  run_not_found step_not_found hook_not_found hook_force_claimed wait_not_found entity_conflict :
      ErrorCode
  hook_claim_cancelled run_expired too_early run_not_supported : ErrorCode

pub record Failure : Type 0 where
  pub code : ErrorCode
  pub retry_after_seconds : Option ℕ
  pub run_spec_version : Option ℕ
  pub force_claim : Option ForceClaim

pub record RunCreated : Type 0 where
  pub workflow_name : String
  pub created_at : ℕ

pub record Success : Type 0 where
  pub event : Option Event
  pub run : Option Run
  pub step : Option Step
  pub hook : Option Hook
  pub wait : Option Wait
  pub step_created : Bool
  pub released_hooks : List HookReference
  pub run_created : Option RunCreated
  pub hook_to_index : Option Hook
  pub page : Option EventPage
  pub max_events : Option ℕ
  pub replay_run : Option Run

abbrev pub nothing : Success
nothing = record {
  event = none;
  run = none;
  step = none;
  hook = none;
  wait = none;
  step_created = false;
  released_hooks = [];
  run_created = none;
  hook_to_index = none;
  page = none;
  max_events = none;
  replay_run = none;
}

pub data Outcome : Type 0 where
  failed : Failure → Outcome
  done : Success → Outcome

-- A schema may throw, which ends the transaction; otherwise there is an outcome and what is stored.
pub data Result : Type 0 where
  thrown : Result
  returned : Outcome → State → Result

abbrev pub failure : ErrorCode → State → Result
failure code st =
    returned
      (failed (record {
        code = code;
        retry_after_seconds = none;
        run_spec_version = none;
        force_claim = none;
      }))
      st

abbrev pub unsupported : ℕ → State → Result
unsupported version st =
    returned
      (failed (record {
        code = run_not_supported;
        retry_after_seconds = none;
        run_spec_version = some version;
        force_claim = none;
      }))
      st

-- `data.specVersion ?? SPEC_VERSION_CURRENT`
abbrev pub effective_spec : Platform → Context → ℕ
effective_spec p ctx = get_or ctx.spec_version p.spec_version_current

-- What `buildEvent` drops from the event's data.
abbrev pub stored_content : EventData → EventData
stored_content (run_started seed) = run_started none
stored_content (step_started (some s)) = step_started (some (record s { input = none }))
stored_content other = other

abbrev pub stored_resume_id : EventData → Option String → Option String
stored_resume_id (hook_received payload) r = r
stored_resume_id _ r = none

-- `buildEvent`
unfoldable pub build_event : Platform → Context → ℕ → EventData → Event
build_event p ctx slot content = record {
  event_id = p.slot_to_event_id slot;
  run_id = ctx.run_id;
  correlation_id = ctx.correlation_id;
  content = stored_content content;
  created_at = ctx.now;
  occurred_at = ctx.params.occurred_at;
  resume_id = stored_resume_id content ctx.params.resume_id;
  spec_version = effective_spec p ctx;
}

abbrev pub put_event : Store → Event → Store
put_event s e = record s { events = update s.events e.event_id e }

-- `buildEvent` and `putEvent`, with the entity writes of the case in between.
abbrev pub append_event :
    Platform → Context → State → Store → EventData → (Event → State → Result) → Result
append_event p ctx st written content next =
    let e = build_event p ctx (st.sequence + 1) content in
    if p.event_accepted e
    then next e (record { store = put_event written e; sequence = st.sequence + 1 })
    else thrown

-- The entries of a creation-time index, which are keyed by time and ID.
abbrev pub put_indexed : (ℕ → String → Option String) → ℕ → String → ℕ → String → Option String
put_indexed m at id at' id' = if eqb at at' then update (m at) id id id' else m at' id'

abbrev pub drop_indexed : (ℕ → String → Option String) → ℕ → String → ℕ → String → Option String
drop_indexed m at id at' id' =
    if eqb at at' then (if id == id' then none else m at' id') else m at' id'
