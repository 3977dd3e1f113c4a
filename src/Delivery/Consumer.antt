-- ===== src/Delivery/Consumer.antt =====
-- The queue consumer (`src/worker/queue-consumer.ts`): what it does with one broker message.
use world_celld.Common.{
  ℕ, ◌+◌, ◌-◌, Bool, false, Option, none, some, leb, ltb, get_or, match_option, if◌then◌else◌,
}
use world_celld.Delivery.Deadline.{
  queue_claim_stale_ms, queue_delay_deadline, native_queue_delay_seconds, backoff_seconds,
}
use world_celld.Delivery.Envelope.{RawEnvelope, NativeQueueEnvelope, validate_native_queue_envelope}

-- `QueueDeliveryResult`; a suspension that carries no number has none.
pub data QueueDeliveryResult : Type 0 where
  complete retry : QueueDeliveryResult
  suspend : Option ℕ → QueueDeliveryResult

-- `MAX_QUEUE_SUSPENSIONS`
abbrev pub max_queue_suspensions : ℕ
max_queue_suspensions = 256

-- A broker message; the body is none where it is no text, or no JSON object.
pub record QueueMessage : Type 0 where
  pub body : Option RawEnvelope
  pub attempts : ℕ

-- What the consumer sees of its surroundings: the clock before and after the delivery, whether it has
-- a secret, whether the broker accepts a message, and what the world service answers (none where the
-- call fails).
pub record Surroundings : Type 0 where
  pub now : ℕ
  pub later : ℕ
  pub has_secret : Bool
  pub accepts : NativeQueueEnvelope → Bool
  pub deliver : NativeQueueEnvelope → ℕ → Option QueueDeliveryResult

-- What becomes of the message, with what was sent and with the attempt that was delivered.
pub data Settlement : Type 0 where
  acknowledged : Settlement
  retried : ℕ → Settlement

pub record Consumed : Type 0 where
  pub sent : Option (NativeQueueEnvelope × ℕ)
  pub attempt : Option ℕ
  pub settled : Settlement

-- `republish` and the acknowledgement after it, or the retry where the broker refuses.
abbrev pub republish :
    Surroundings → NativeQueueEnvelope → ℕ → (failed : ℕ) → (attempt : Option ℕ) → Consumed
republish w e now failed attempt =
    if w.accepts e
    then record {
      sent = some (e, native_queue_delay_seconds e.not_before now);
      attempt = attempt;
      settled = acknowledged;
    }
    else record { sent = none; attempt = attempt; settled = retried (backoff_seconds failed) }

-- The message again, after the suspension that the workflow asked for.
abbrev pub suspended : NativeQueueEnvelope → ℕ → ℕ → NativeQueueEnvelope
suspended e at attempt = record e {
  not_before = some at;
  delivery_failures = some (attempt - 1);
  suspension_count = some (get_or e.suspension_count 0 + 1);
}

abbrev pub after_suspension : Surroundings → NativeQueueEnvelope → ℕ → Option ℕ → Consumed
after_suspension w e attempt seconds =
    match_option (queue_delay_deadline w.later seconds 1 queue_claim_stale_ms)
      (record { sent = none; attempt = some attempt; settled = retried (backoff_seconds attempt) })
      (λ at.
        if leb (get_or e.suspension_count 0 + 1) max_queue_suspensions
        then republish w (suspended e at attempt) w.later attempt (some attempt)
        else record {
          sent = none;
          attempt = some attempt;
          settled = retried (backoff_seconds attempt);
        })

abbrev pub after_delivery :
    Surroundings → NativeQueueEnvelope → ℕ → Option QueueDeliveryResult → Consumed
after_delivery w e attempt (some complete) = record {
  sent = none;
  attempt = some attempt;
  settled = acknowledged;
}
after_delivery w e attempt (some (suspend seconds)) = after_suspension w e attempt seconds
after_delivery w e attempt _ = record {
  sent = none;
  attempt = some attempt;
  settled = retried (backoff_seconds attempt);
}

abbrev pub consume_due : Surroundings → NativeQueueEnvelope → ℕ → Consumed
consume_due w e attempt =
    if w.has_secret
    then after_delivery w e attempt (w.deliver e attempt)
    else record { sent = none; attempt = none; settled = retried (backoff_seconds attempt) }

abbrev pub is_early : Option ℕ → ℕ → Bool
is_early none now = false
is_early (some at) now = ltb now at

-- `consume`
unfoldable pub consume : Surroundings → QueueMessage → Consumed
consume w m =
    match_option (match_option m.body none validate_native_queue_envelope)
      (record { sent = none; attempt = none; settled = retried (backoff_seconds m.attempts) })
      (λ e.
        if is_early e.not_before w.now
        then republish w e w.now m.attempts none
        else consume_due w e (get_or e.delivery_failures 0 + m.attempts))
