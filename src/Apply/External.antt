-- ===== src/Apply/External.antt =====
-- What the code takes from `@workflow/world` and from the cell's storage: the schemas' verdicts, the
-- tables of terminal states, event IDs and ordered listing. The laws are what the code relies on.
use world_celld.Common.{
  ℕ, String, ◌≡◌, Bool, true, false, Option, none, some, List, [], ◌∷◌, ◌+◌, ltb, length, take,
  if◌then◌else◌,
}
use world_celld.Apply.Entities.{
  RunStatus, StepStatus, Run, Step, Hook, Wait, Event, EventData, AttributeChange, Attributes,
  StepSeed, HookSeed, step_created, hook_created, wait_created,
}

-- A listing of the `event:` prefix. `after` and `before` are exclusive bounds, on event IDs.
pub record ListOptions : Type 0 where
  pub after : Option String
  pub before : Option String
  pub limit : ℕ
  pub reverse : Bool

pub record Platform : Type 0 where
  pub spec_version_current : ℕ
  pub max_events_per_run : ℕ
  pub is_terminal_run : RunStatus → Bool
  pub is_terminal_step : StepStatus → Bool
  pub is_child_creation : EventData → Bool
  pub slot_to_event_id : ℕ → String
  pub event_id_to_slot : String → Option ℕ
  pub attributes_valid : List AttributeChange → Option (List String) → Bool → Bool
  pub apply_attributes : Attributes → List AttributeChange → Attributes
  -- whether a schema's `parse` returns its argument or throws
  pub run_accepted : Run → Bool
  pub step_accepted : Step → Bool
  pub hook_accepted : Hook → Bool
  pub wait_accepted : Wait → Bool
  pub event_accepted : Event → Bool
  -- the storage's `list`
  pub list_events : (String → Option Event) → ListOptions → List Event
  -- laws
  pub event_id_to_slot_lem : (n : ℕ) → event_id_to_slot (slot_to_event_id n) ≡ some n
  pub pending_live : is_terminal_run RunStatus.pending ≡ false
  pub running_live : is_terminal_run RunStatus.running ≡ false
  pub completed_terminal : is_terminal_run RunStatus.completed ≡ true
  pub failed_terminal : is_terminal_run RunStatus.failed ≡ true
  pub cancelled_terminal : is_terminal_run RunStatus.cancelled ≡ true
  pub step_completed_terminal : is_terminal_step StepStatus.completed ≡ true
  pub step_failed_terminal : is_terminal_step StepStatus.failed ≡ true
  pub step_created_is_child : (s : StepSeed) → is_child_creation (step_created s) ≡ true
  pub hook_created_is_child : (s : HookSeed) → is_child_creation (hook_created s) ≡ true
  pub wait_created_is_child : (at : Option ℕ) → is_child_creation (wait_created at) ≡ true

-- `listByPrefix` over the events: one more entry than asked is fetched to see whether more remain,
-- and the cursor is the last entry returned.
pub record EventPage : Type 0 where
  pub events : List Event
  pub cursor : Option String
  pub has_more : Bool

abbrev pub last_event_id : List Event → Option String
last_event_id [] = none
last_event_id (e ∷ []) = some e.event_id
last_event_id (e ∷ f ∷ es) = last_event_id (f ∷ es)

-- `cursor ? … : undefined`: an empty cursor is no cursor.
unfoldable pub list_by_prefix :
    Platform → (String → Option Event) → ℕ → Option String → Bool → EventPage
list_by_prefix p events limit cursor descending =
    let options : ListOptions =
      if descending
      then record { after = none; before = cursor; limit = limit + 1; reverse = true }
      else record { after = cursor; before = none; limit = limit + 1; reverse = false } in
    let values = p.list_events events options in
    let data' = take limit values in
    let more = ltb limit (length values) in
    record { events = data'; cursor = if more then last_event_id data' else none; has_more = more }
