-- ===== src/Delivery/Envelope.antt =====
-- The broker's message (`src/queue-protocol.ts`): the envelope, its validation and its JSON form.
use world_celld.Common.{
  ℕ, ◌-◌, ◌+◌, String, Bool, true, false, not, ◌&&◌, ◌||◌, Option, none, some, leb, eqb, ◌==◌,
  is_some, if◌then◌else◌, match_option,
}
use world_celld.Queue.Claim.{safe, non_empty}
use world_celld.Delivery.Deadline.{max_queue_timestamp_ms, queue_claim_stale_ms}

-- A field of a parsed JSON object, as far as the validation looks: a string, a non-negative integer,
-- another value, or absent.
pub data Json : Type 0 where
  text : String → Json
  number : ℕ → Json
  other absent : Json

pub record RawEnvelope : Type 0 where
  pub version : Json
  pub message_id : Json
  pub queue_name : Json
  pub target_base_url : Json
  pub run_id : Json
  pub idempotency_key : Json
  pub payload_key : Json
  pub body : Json
  pub not_before : Json
  pub claim_scope : Json
  pub delivery_failures : Json
  pub suspension_count : Json

-- `run_scoped` is `claimScope === 'run'`.
pub record NativeQueueEnvelope : Type 0 where
  pub message_id : String
  pub queue_name : String
  pub target_base_url : String
  pub run_id : Option String
  pub idempotency_key : Option String
  pub payload_key : Option String
  pub body : Option String
  pub not_before : Option ℕ
  pub run_scoped : Bool
  pub delivery_failures : Option ℕ
  pub suspension_count : Option ℕ

-- `MAX_QUEUE_SCHEDULE_TIMESTAMP_MS`
abbrev pub max_queue_schedule_timestamp_ms : ℕ
max_queue_schedule_timestamp_ms = max_queue_timestamp_ms - (queue_claim_stale_ms + 1)

abbrev pub is_version_1 : Json → Bool
is_version_1 (number n) = eqb n 1
is_version_1 _ = false

abbrev pub required_text : Json → Option String
required_text (text s) = if non_empty s then some s else none
required_text _ = none

-- The outer `none` is the error of a field of the wrong kind.
abbrev pub optional_text : Json → Option (Option String)
optional_text (text s) = some (some s)
optional_text absent = some none
optional_text _ = none

abbrev pub optional_integer : Json → Option (Option ℕ)
optional_integer (number n) = if safe n then some (some n) else none
optional_integer absent = some none
optional_integer _ = none

abbrev pub scope_of : Json → Option Bool
scope_of (text s) = if s == "run" then some true else none
scope_of absent = some false
scope_of _ = none

abbrev pub in_schedule : Option ℕ → Bool
in_schedule none = true
in_schedule (some at) = leb at max_queue_schedule_timestamp_ms

-- The conditions on several fields: a run-scoped claim has a run, exactly one payload source is
-- given, and the deadline leaves room for a claim.
abbrev pub is_consistent : NativeQueueEnvelope → Bool
is_consistent e =
    (not e.run_scoped || is_some e.run_id)
    && ((is_some e.payload_key && not (is_some e.body))
        || (not (is_some e.payload_key) && is_some e.body))
    && in_schedule e.not_before

abbrev pub accept_consistent : NativeQueueEnvelope → Option NativeQueueEnvelope
accept_consistent e = if is_consistent e then some e else none

-- `validateNativeQueueEnvelope`; every error is none.
unfoldable pub validate_native_queue_envelope : RawEnvelope → Option NativeQueueEnvelope
validate_native_queue_envelope r =
    if not (is_version_1 r.version)
    then none
    else match_option (required_text r.message_id) none (λ message_id.
      match_option (required_text r.queue_name) none (λ queue_name.
        match_option (required_text r.target_base_url) none (λ target_base_url.
          match_option (optional_text r.run_id) none (λ run_id.
            match_option (optional_text r.idempotency_key) none (λ idempotency_key.
              match_option (optional_text r.payload_key) none (λ payload_key.
                match_option (optional_text r.body) none (λ body.
                  match_option (scope_of r.claim_scope) none (λ run_scoped.
                    match_option (optional_integer r.not_before) none (λ not_before.
                      match_option (optional_integer r.delivery_failures) none (λ delivery_failures.
                        match_option (optional_integer r.suspension_count) none (λ suspension_count.
                          accept_consistent (record {
                            message_id = message_id;
                            queue_name = queue_name;
                            target_base_url = target_base_url;
                            run_id = run_id;
                            idempotency_key = idempotency_key;
                            payload_key = payload_key;
                            body = body;
                            not_before = not_before;
                            run_scoped = run_scoped;
                            delivery_failures = delivery_failures;
                            suspension_count = suspension_count;
                          }))))))))))))

abbrev pub json_text : Option String → Json
json_text none = absent
json_text (some s) = text s

abbrev pub json_number : Option ℕ → Json
json_number none = absent
json_number (some n) = number n

-- `JSON.parse(JSON.stringify(envelope))`: an absent field is left out, and the others are kept.
unfoldable pub json_of : NativeQueueEnvelope → RawEnvelope
json_of e = record {
  version = number 1;
  message_id = text e.message_id;
  queue_name = text e.queue_name;
  target_base_url = text e.target_base_url;
  run_id = json_text e.run_id;
  idempotency_key = json_text e.idempotency_key;
  payload_key = json_text e.payload_key;
  body = json_text e.body;
  not_before = json_number e.not_before;
  claim_scope = if e.run_scoped then text "run" else absent;
  delivery_failures = json_number e.delivery_failures;
  suspension_count = json_number e.suspension_count;
}
