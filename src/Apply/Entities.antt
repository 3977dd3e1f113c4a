-- ===== src/Apply/Entities.antt =====
-- The entities of a run, its events and the requests that append them, as the types of
-- `@workflow/world` that `src/apply-event.ts` reads and writes. A payload is opaque serialized data,
-- a date is its milliseconds, an optional field is an `Option`.
use world_celld.Common.{ℕ, String, Bool, Option, List}

abbrev pub Payload : Type 0
Payload = String

pub data RunStatus : Type 0 where
  pending running completed failed cancelled : RunStatus

pub data StepStatus : Type 0 where
  pending running completed failed : StepStatus

pub data WaitStatus : Type 0 where
  waiting completed : WaitStatus

pub record StructuredError : Type 0 where
  pub message : String
  pub stack : Option String
  pub code : Option String

-- A thrown value: a string, an object with the string properties that are read, or anything else.
pub data Thrown : Type 0 where
  text : String → Thrown
  object : (message stack code : Option String) → Thrown
  other : Thrown

abbrev pub Attributes : Type 0
Attributes = List (String × String)

-- A change of an attribute; no value removes it.
pub record AttributeChange : Type 0 where
  pub key : String
  pub value : Option String

-- The schema reads absent attributes as none set.
pub record Run : Type 0 where
  pub run_id : String
  pub deployment_id : String
  pub workflow_name : String
  pub spec_version : ℕ
  pub execution_context : Option Payload
  pub attributes : Attributes
  pub encryption_public_key : Option String
  pub input : Payload
  pub status : RunStatus
  pub output : Option Payload
  pub error : Option StructuredError
  pub started_at : Option ℕ
  pub completed_at : Option ℕ
  pub created_at : ℕ
  pub updated_at : ℕ
  pub expired_at : Option ℕ

pub record Step : Type 0 where
  pub run_id : String
  pub step_id : String
  pub step_name : String
  pub status : StepStatus
  pub input : Payload
  pub output : Option Payload
  pub error : Option Payload
  pub attempt : ℕ
  pub started_at : Option ℕ
  pub completed_at : Option ℕ
  pub retry_after : Option ℕ
  pub created_at : ℕ
  pub updated_at : ℕ
  pub spec_version : ℕ

-- A hook and the run that it belongs to.
pub record Owner : Type 0 where
  pub run_id : String
  pub hook_id : String

pub record ClaimedFrom : Type 0 where
  pub run_id : String
  pub hook_id : String
  pub workflow_name : Option String
  pub deployment_id : Option String
  pub run_spec_version : Option ℕ

pub record Hook : Type 0 where
  pub run_id : String
  pub hook_id : String
  pub token : String
  pub metadata : Option Payload
  pub created_at : ℕ
  pub spec_version : ℕ
  pub is_webhook : Bool
  pub is_system : Option Bool
  pub token_retention_until : Option ℕ
  pub claimed_from : Option ClaimedFrom

pub record HookReference : Type 0 where
  pub hook_id : String
  pub token : String

pub record ForceClaim : Type 0 where
  pub token : String
  pub claimed_by : Owner

pub record ResumeClaim : Type 0 where
  pub hook_id : String
  pub event_id : String
  pub payload_digest : Option String

pub record Cancellation : Type 0 where
  pub hook_id : String
  pub token : Option String
  pub canceled_at : ℕ

pub record Wait : Type 0 where
  pub wait_id : String
  pub run_id : String
  pub status : WaitStatus
  pub resume_at : Option ℕ
  pub completed_at : Option ℕ
  pub created_at : ℕ
  pub updated_at : ℕ
  pub spec_version : ℕ

-- The data of `run_created`.
pub record RunSeed : Type 0 where
  pub deployment_id : String
  pub workflow_name : String
  pub input : Payload
  pub execution_context : Option Payload
  pub attributes : Option Attributes
  pub allow_reserved_attributes : Bool
  pub encryption_public_key : Option String

-- The data of `run_started`, from which a missing run is created.
pub record StartSeed : Type 0 where
  pub deployment_id : Option String
  pub workflow_name : Option String
  pub input : Option Payload
  pub execution_context : Option Payload
  pub attributes : Option Attributes
  pub allow_reserved_attributes : Bool
  pub encryption_public_key : Option String

pub record StepSeed : Type 0 where
  pub step_name : String
  pub workflow_name : Option String
  pub input : Payload

pub record StepStart : Type 0 where
  pub step_name : Option String
  pub workflow_name : Option String
  pub input : Option Payload

pub record HookSeed : Type 0 where
  pub token : String
  pub metadata : Option Payload
  pub is_webhook : Option Bool
  pub is_system : Option Bool
  pub token_retention_until : Option ℕ
  pub force : Bool
  pub force_claimed_from : Option ClaimedFrom

pub record HookConflict : Type 0 where
  pub token : String
  pub conflicting_run_id : String
  pub force_refused : Bool

-- An event's type with its data.
pub data EventData : Type 0 where
  run_created : RunSeed → EventData
  run_started : Option StartSeed → EventData
  run_completed : Option Payload → EventData
  run_failed : Thrown → Option String → EventData
  run_cancelled : EventData
  attr_set : List AttributeChange → (by_workflow allow_reserved : Bool) → EventData
  step_created : StepSeed → EventData
  step_started : Option StepStart → EventData
  step_completed : Option Payload → EventData
  step_failed : Payload → EventData
  step_retrying : Payload → Option ℕ → EventData
  hook_created : HookSeed → EventData
  hook_received : Payload → EventData
  hook_disposed : Option ForceClaim → EventData
  hook_conflict : HookConflict → EventData
  wait_created : Option ℕ → EventData
  wait_completed : Option ℕ → EventData

-- `correlation_id` is empty where the event has none.
pub record Event : Type 0 where
  pub event_id : String
  pub run_id : String
  pub correlation_id : String
  pub content : EventData
  pub created_at : ℕ
  pub occurred_at : Option ℕ
  pub resume_id : Option String
  pub spec_version : ℕ
