-- ===== src/Delivery/Tests.antt =====
-- The theorems on the delivery of queue messages at concrete messages.
use world_celld.Common.{
  Option, ◌≤◌, ◌*◌, ◌+◌, false, ℕ, [], ◌∷◌, inl, ◌+◌, ◌*◌, ◌≤◌, ◌≡◌, ◌↔◌, refl, true, none, some,
  List, All, arith, eq_iff, get_or,
}
use world_celld.Delivery.Deadline.{
  native_queue_delay_seconds, max_queue_timestamp_ms, queue_delay_deadline, deadline_bounds,
}
use world_celld.Delivery.Envelope.{
  absent, NativeQueueEnvelope, validate_native_queue_envelope, json_of,
}
use world_celld.Delivery.Accepted.{IsEnvelope, validate-json_of_iff}
use world_celld.Delivery.Consumer.{
  suspend, QueueMessage, Surroundings, acknowledged, consume, suspended,
}
use world_celld.Queue.Claim.{ClaimCell, claimed_by}
use world_celld.Queue.Cell.{hold_inflight, claim_inflight}
use world_celld.Queue.Handle.{cell_queue_claim, claim, release}
use world_celld.Queue.Alarm.{Action, operate, fire, Refuses, act_replies}
use world_celld.Delivery.Decide.{World, table, decide}
use world_celld.Delivery.Deliver.{deliver_claimed}
use world_celld.Delivery.Claimed.{failed_delivery_releases}
use world_celld.Delivery.Timely.{suspended_delivery_holds}
use world_celld.Delivery.Settled.{Kept, acknowledged-Kept}
use world_celld.Delivery.Hops.{first_delivery, delayed_message_arrives}
use world_celld.Delivery.Resumes.{SamePayload, handed, suspension_resumes}

abbrev envelope : NativeQueueEnvelope
envelope = record {
  message_id = "m";
  queue_name = "steps";
  target_base_url = "https://a";
  run_id = some "r";
  idempotency_key = some "k";
  payload_key = none;
  body = some "{}";
  not_before = some 1000;
  run_scoped = true;
  delivery_failures = some 2;
  suspension_count = none;
}

-- The world service asks for a suspension of three seconds, at the time 2000.
abbrev suspending : Surroundings
suspending = record {
  now = 2000;
  later = 2000;
  has_secret = true;
  accepts = λ _. true;
  deliver = λ _ _. some (suspend (some 3));
}

abbrev message : QueueMessage
message = record { body = some (json_of envelope); attempts = 1 }

envelope_read_back : validate_native_queue_envelope (json_of envelope) ≡ some envelope
unfolding validate_native_queue_envelope json_of
envelope_read_back = refl

deadline_bounds_example :
    (queue_delay_deadline 2000 (some 3) 1 900000 ≡ some 5000)
    ↔ ((1 ≤ 3) × (5000 ≡ 2000 + 3 * 1000) × (5000 + 900000 ≤ max_queue_timestamp_ms))
deadline_bounds_example = deadline_bounds 2000 3 1 900000 5000 (omega arith)

validate-json_of_iff_example :
    (validate_native_queue_envelope (json_of envelope) ≡ some envelope) ↔ IsEnvelope envelope
validate-json_of_iff_example = validate-json_of_iff envelope

consumed_message : (consume suspending message).settled ≡ acknowledged
unfolding consume validate_native_queue_envelope json_of queue_delay_deadline
consumed_message = refl

acknowledged-Kept_example : Kept suspending envelope (consume suspending message)
acknowledged-Kept_example =
    acknowledged-Kept suspending message envelope envelope_read_back consumed_message

sent_again : (consume suspending message).sent ≡ some (suspended envelope 5000 3, 3)
unfolding consume validate_native_queue_envelope json_of queue_delay_deadline
    native_queue_delay_seconds
sent_again = refl

delivered_attempt : (consume suspending message).attempt ≡ some 3
unfolding consume validate_native_queue_envelope json_of queue_delay_deadline
delivered_attempt = refl

-- The next consumer, two seconds before the deadline.
abbrev too_soon : Surroundings
too_soon = record suspending { now = 3000; later = 3000 }

suspension_resumes_example :
    (seconds : ℕ) × (suspending.deliver envelope 3 ≡ some (suspend (some seconds)))
    × (1 ≤ seconds)
    × (5000 ≡ 2000 + seconds * 1000)
    × SamePayload envelope (suspended envelope 5000 3)
    × (get_or (suspended envelope 5000 3).suspension_count 0
        ≡ get_or envelope.suspension_count 0 + 1)
    × (get_or (suspended envelope 5000 3).suspension_count 0 ≤ 256)
    × ((consume too_soon (handed (suspended envelope 5000 3))).attempt ≡ none)
suspension_resumes_example =
    suspension_resumes suspending too_soon message envelope (suspended envelope 5000 3) 3 3 5000
      envelope_read_back (omega arith) (omega arith) delivered_attempt sent_again refl (omega arith)

-- A consumer at half the deadline of 1000, and the next, at 1500.
abbrev at_half : Surroundings
at_half = record suspending { now = 500; later = 500 }

abbrev on_time : Surroundings
on_time = record suspending { now = 1500; later = 1500 }

delayed_message_arrives_example :
    (t : ℕ) × (first_delivery (at_half ∷ on_time ∷ []) message ≡ some t) × (1000 ≤ t)
delayed_message_arrives_example =
    delayed_message_arrives envelope 1000 refl at_half (on_time ∷ []) message envelope_read_back
      ((refl, refl), ((refl, refl), tt)) (unfold native_queue_delay_seconds in omega arith, tt)
      (omega arith)

-- A claim cell with the reservation of the message `m`, and one with the claim of another delivery.
abbrev reserved_cell : ClaimCell
reserved_cell = record {
  reservation = some (record { message_id = "m"; expires_at = 9000; publication_pending = false });
  claim = none;
  alarm = some 9000;
}

abbrev busy_cell : ClaimCell
busy_cell = record {
  reservation = none;
  claim = some (record { message_id = "m"; expires_at = 800000; retry_at = some 5000 });
  alarm = some 800000;
}

-- A run that is pinned to the deployment `d`, whose workflow answers with a status and a delay.
abbrev answering : ℕ → Option ℕ → World ClaimCell
answering status seconds = record {
  claim_time = 2000;
  refusal_time = 2000;
  callback_time = 3000;
  others = λ s. s;
  admission = some true;
  read_payload = λ _. none;
  delete_payload = λ _. true;
  unregister_payload = true;
  schedule_orphan = λ _. true;
  urls = table (("d", "https://d") ∷ []);
  stored_deployment = some (some "d");
  initial_deployment = λ _. some absent;
  fetch = λ target body. some (record { status = status; timeout_seconds = some seconds });
}

failed_delivery_releases_example :
    claimed_by
      (deliver_claimed (answering 404 none) envelope cell_queue_claim reserved_cell).slot.claim
      "m"
    ≡ false
unfolding deliver_claimed decide claim_inflight
failed_delivery_releases_example =
    failed_delivery_releases (answering 404 none) envelope reserved_cell refl (inl refl)

-- Deliveries of two messages and the alarm, all before the end of the suspension.
abbrev early_actions : List Action
early_actions =
    operate (claim 3000 "n" 10)
    ∷ fire 4000
    ∷ operate (release "n")
    ∷ operate (claim 5999 "m" 10)
    ∷ []

suspended_delivery_holds_example : All Refuses (
    act_replies
      (deliver_claimed (answering 503 (some 3)) envelope cell_queue_claim reserved_cell).slot
      early_actions)
unfolding deliver_claimed decide claim_inflight queue_delay_deadline hold_inflight
suspended_delivery_holds_example =
    suspended_delivery_holds (answering 503 (some 3)) envelope reserved_cell 3 early_actions refl
      refl refl (ground (arith, eq_iff "n" "m"))
