-- ===== src/Delivery/Settled.antt =====
-- What the consumer of `src/worker/queue-consumer.ts` promises of a message.
use world_celld.Common.{
  ℕ, ◌+◌, true, Option, none, some, ◌≡◌, refl, ◌⊎◌, inl, inr, arith, get_or, match_option,
  match_option-rule, if-rule, leb,
}
use world_celld.Delivery.Deadline.{
  queue_claim_stale_ms, queue_delay_deadline, native_queue_delay_seconds,
}
use world_celld.Delivery.Envelope.{NativeQueueEnvelope, validate_native_queue_envelope}
use world_celld.Delivery.Consumer.{
  QueueMessage, Surroundings, Consumed, acknowledged, retried, QueueDeliveryResult, complete,
  suspend, consume, max_queue_suspensions, republish, suspended, after_suspension, after_delivery,
  is_early,
}

-- The delivery completed, or the broker has the message again.
abbrev pub Kept : Surroundings → NativeQueueEnvelope → Consumed → Type 0
Kept w e c =
    ((n : ℕ) × (c.attempt ≡ some n) × (w.deliver e n ≡ some complete))
    ⊎ ((f : NativeQueueEnvelope) × (d : ℕ) × (c.sent ≡ some (f, d))
        × (w.accepts f ≡ true)
        × (f.message_id ≡ e.message_id)
        × (f.body ≡ e.body)
        × (f.payload_key ≡ e.payload_key)
        × (f.idempotency_key ≡ e.idempotency_key))

abbrev KeptIf : Surroundings → NativeQueueEnvelope → Consumed → Type 0
KeptIf w e c = c.settled ≡ acknowledged → Kept w e c

retried-KeptIf :
    (w : Surroundings) (e : NativeQueueEnvelope) (c : Consumed) (n : ℕ)
    → c.settled ≡ retried n
    → KeptIf w e c
retried-KeptIf w e c n r h = ground (arith, r, h)

republish-KeptIf :
    (w : Surroundings) (e f : NativeQueueEnvelope) (now failed : ℕ) (attempt : Option ℕ)
    → (f.message_id ≡ e.message_id)
      × (f.body ≡ e.body)
      × (f.payload_key ≡ e.payload_key)
      × (f.idempotency_key ≡ e.idempotency_key)
    → KeptIf w e (republish w f now failed attempt)
republish-KeptIf w e f now failed attempt same =
    if-rule (KeptIf w e) (w.accepts f) _ _
      (λ yes' h. inr (
        f,
        native_queue_delay_seconds f.not_before now,
        refl,
        yes',
        same.0,
        same.1,
        same.2,
        same.3,
      ))
      (λ no' h. ground (arith, h))

after_suspension-KeptIf :
    (w : Surroundings) (e : NativeQueueEnvelope) (attempt : ℕ) (seconds : Option ℕ)
    → KeptIf w e (after_suspension w e attempt seconds)
after_suspension-KeptIf w e attempt seconds =
    match_option-rule (KeptIf w e) (queue_delay_deadline w.later seconds 1 queue_claim_stale_ms) _ _
      (λ _ h. ground (arith, h))
      (λ at _.
        if-rule (KeptIf w e) (leb (get_or e.suspension_count 0 + 1) max_queue_suspensions) _ _
          (λ _.
            republish-KeptIf w e (suspended e at attempt) w.later attempt (some attempt)
              (refl, refl, refl, refl))
          (λ _ h. ground (arith, h)))

after_delivery-KeptIf :
    (w : Surroundings) (e : NativeQueueEnvelope) (attempt : ℕ) (r : Option QueueDeliveryResult)
    → w.deliver e attempt ≡ r
    → KeptIf w e (after_delivery w e attempt r)
after_delivery-KeptIf w e attempt (some complete) d h = inl (attempt, refl, d)
after_delivery-KeptIf w e attempt (some (suspend seconds)) d h =
    after_suspension-KeptIf w e attempt seconds h
after_delivery-KeptIf w e attempt (some QueueDeliveryResult.retry) d h = ground (arith, h)
after_delivery-KeptIf w e attempt none d h = ground (arith, h)

-- A message with a valid envelope is acknowledged only when its delivery completed, or when the broker
-- has accepted a message with the same ID, payload and idempotency key.
pub acknowledged-Kept :
    (w : Surroundings) (m : QueueMessage) (e : NativeQueueEnvelope)
    → match_option m.body none validate_native_queue_envelope ≡ some e
    → (consume w m).settled ≡ acknowledged
    → Kept w e (consume w m)
unfolding consume
acknowledged-Kept w m e valid = rw valid (
    if-rule (KeptIf w e) (is_early e.not_before w.now) _ _
      (λ _. republish-KeptIf w e e w.now m.attempts none (refl, refl, refl, refl))
      (λ _.
        if-rule (KeptIf w e) w.has_secret _ _
          (λ _. after_delivery-KeptIf w e (get_or e.delivery_failures 0 + m.attempts) _ refl)
          (λ _ h. ground (arith, h))))
