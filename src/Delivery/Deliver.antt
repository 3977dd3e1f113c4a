-- ===== src/Delivery/Deliver.antt =====
-- `deliverQueueMessage` of `src/worker/queue-delivery.ts`: the delivery of a message to the workflow
-- under its claim. Every await is a place where other transactions may change the claim.
use world_celld.Common.{
  Bool, ℕ, ◌+◌, ◌-◌, ◌/◌, max, String, ◌&&◌, Option, none, some, ltb, ◌==◌, is_some, match_option,
  if◌then◌else◌,
}
use world_celld.Queue.Claim.{HoldParams, Checked, ok, type_error, non_empty, positive_safe}
use world_celld.Queue.Handle.{QueueClaimHandle, DeliveryClaim}
use world_celld.Delivery.Deadline.{queue_claim_stale_ms}
use world_celld.Delivery.Envelope.{RawEnvelope, NativeQueueEnvelope, validate_native_queue_envelope}
use world_celld.Delivery.Consumer.{QueueDeliveryResult, complete, suspend, retry}
use world_celld.Delivery.Decide.{
  World, Decision, completes, retries, fails, suspends, queue_orphan_grace_ms, given, decide,
}

-- What a delivery returns, or the error that it throws.
pub data DeliveryOutcome : Type 0 where
  answered : QueueDeliveryResult → DeliveryOutcome
  thrown : DeliveryOutcome

pub record Delivered (S : Type 0) : Type 0 where
  pub slot : S
  pub outcome : DeliveryOutcome

-- What a suspension holds the claim with.
abbrev pub hold_params : String → ℕ → HoldParams
hold_params m not_before = record {
  message_id = m;
  retry_at = not_before;
  expires_at = not_before + queue_claim_stale_ms;
  reservation_expires_at = some (not_before + queue_orphan_grace_ms);
}

module _ {S : Type 0} (w : World S) (e : NativeQueueEnvelope) where
  -- the wait of a delivery that another holds up
  abbrev pub wait_seconds : ℕ → ℕ
  wait_seconds retry_at = max 1 ((retry_at - w.refusal_time + 999) / 1000)

  abbrev pub refused : Option ℕ → DeliveryOutcome
  refused none = answered complete
  refused (some retry_at) =
      if ltb w.refusal_time retry_at
      then answered (suspend (some (wait_seconds retry_at)))
      else answered complete

  module _ (handle : QueueClaimHandle S) where
    -- the `catch` of a delivery that has its claim
    abbrev pub released : S → Delivered S
    released s = record { slot = (handle.release s e.message_id).0; outcome = thrown }

    abbrev pub or_released : {A : Type 0} → S × Checked A → DeliveryOutcome → Delivered S
    or_released (s, ok _) outcome = record { slot = s; outcome = outcome }
    or_released (s, type_error) outcome = released s

    -- the last call of the claim
    abbrev pub settle_claim : Decision → S → Delivered S
    settle_claim completes s = or_released (handle.complete s e.message_id) (answered complete)
    settle_claim retries s = or_released (handle.release s e.message_id) (answered retry)
    settle_claim fails s = released s
    settle_claim (suspends timeout not_before) s =
        or_released (handle.hold s (hold_params e.message_id not_before))
          (answered (suspend (some timeout)))

    abbrev pub after_claim : S × Checked DeliveryClaim → Delivered S
    after_claim (s, type_error) = record { slot = s; outcome = thrown }
    after_claim (s, ok r) =
        if r.expired
        then record { slot = s; outcome = answered complete }
        else if r.claimed
        then settle_claim (decide w e) (w.others s)
        else record { slot = s; outcome = refused r.retry_at }

    -- a delivery under a claim
    unfoldable pub deliver_claimed : S → Delivered S
    unfolding decide
    deliver_claimed s = after_claim (handle.claim s w.claim_time e.message_id queue_claim_stale_ms)

  -- a delivery without a claim
  abbrev pub outcome_of : Decision → DeliveryOutcome
  outcome_of completes = answered complete
  outcome_of retries = answered retry
  outcome_of fails = thrown
  outcome_of (suspends timeout not_before) = answered (suspend (some timeout))

  unfoldable pub deliver_envelope : QueueClaimHandle S → S → Delivered S
  unfolding deliver_claimed decide
  deliver_envelope handle s =
      if is_some (given e.idempotency_key)
      then deliver_claimed handle s
      else record { slot = s; outcome = outcome_of (decide w e) }

-- `deliverQueueMessage`: the secret and the arguments are checked before anything else happens.
unfoldable pub deliver_queue_message :
    {S : Type 0}
    → World S
    → QueueClaimHandle S
    → (world_secret secret : String) → RawEnvelope
    → ℕ
    → (has_database : Bool) → S
    → Delivered S
unfolding deliver_envelope
deliver_queue_message w handle world_secret secret input attempt has_database s =
    if non_empty world_secret && non_empty secret && (secret == world_secret)
    then match_option (validate_native_queue_envelope input) (record { slot = s; outcome = thrown })
        (λ e.
          if positive_safe attempt && has_database
          then deliver_envelope w e handle s
          else record { slot = s; outcome = thrown })
    else record { slot = s; outcome = thrown }
