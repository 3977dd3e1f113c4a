-- ===== src/Delivery/Resumes.antt =====
-- The suspension of a message and its next delivery, in `src/worker/queue-consumer.ts`.
use mathlib.Core.Path.{subst}
use world_celld.Common.{
  ℕ, ◌+◌, ◌-◌, ◌*◌, ◌^◌, ◌≤◌, ◌<◌, ◌&&◌, Option, none, some, ◌≡◌, refl, arith, get_or, leb,
  match_option, if-rule, if◌then◌else◌,
}
use world_celld.Delivery.Deadline.{queue_delay_deadline, checked_queue_timestamp_add}
use world_celld.Delivery.Envelope.{
  RawEnvelope, NativeQueueEnvelope, validate_native_queue_envelope, json_of,
}
use world_celld.Delivery.Accepted.{IsEnvelope, validate-IsEnvelope, validate-json_of_iff}
use world_celld.Delivery.Consumer.{
  QueueMessage, Surroundings, Consumed, QueueDeliveryResult, complete, suspend, consume,
  max_queue_suspensions, suspended, after_delivery, consume_due, is_early,
}

-- What the workflow asked for: a wait of so many seconds, at least one, after the attempt `n`, when
-- fewer than the largest number of suspensions had been.
record Asked (w : Surroundings) (e : NativeQueueEnvelope) (n seconds : ℕ) : Type 0 where
  answer : w.deliver e n ≡ some (suspend (some seconds))
  waits : 1 ≤ seconds
  few : get_or e.suspension_count 0 + 1 ≤ max_queue_suspensions

abbrev due : Surroundings → ℕ → ℕ
due w seconds = w.later + seconds * 1000

-- A message that was delivered with the attempt `n` and sent again is the suspended one.
abbrev SentAgain : Surroundings → NativeQueueEnvelope → ℕ → NativeQueueEnvelope → Type 0
SentAgain w e n f = (seconds : ℕ) × Asked w e n seconds × (f ≡ suspended e (due w seconds) n)

abbrev SentIf : Surroundings → NativeQueueEnvelope → ℕ → NativeQueueEnvelope → ℕ → Consumed → Type 0
SentIf w e n f d c = c.attempt ≡ some n → c.sent ≡ some (f, d) → SentAgain w e n f

after_delivery-attempt :
    (w : Surroundings) (e : NativeQueueEnvelope) (n : ℕ) (r : Option QueueDeliveryResult)
    → (after_delivery w e n r).attempt ≡ some n
after_delivery-attempt w e n r = ground arith

suspended_lem :
    (w : Surroundings) (e f : NativeQueueEnvelope) (n seconds d : ℕ)
    → (after_delivery w e n (some (suspend (some seconds)))).sent ≡ some (f, d)
    → (1 ≤ seconds)
      × (get_or e.suspension_count 0 + 1 ≤ max_queue_suspensions)
      × (f ≡ suspended e (due w seconds) n)
unfolding queue_delay_deadline checked_queue_timestamp_add
suspended_lem w e f n seconds d sent = ground arith

delivered-SentAgain :
    (w : Surroundings) (e f : NativeQueueEnvelope) (n d : ℕ) (r : Option QueueDeliveryResult)
    → w.deliver e n ≡ r
    → (after_delivery w e n r).sent ≡ some (f, d)
    → SentAgain w e n f
delivered-SentAgain w e f n d none answer sent = ground (arith, sent)
delivered-SentAgain w e f n d (some complete) answer sent = ground (arith, sent)
delivered-SentAgain w e f n d (some QueueDeliveryResult.retry) answer sent = ground (arith, sent)
delivered-SentAgain w e f n d (some (suspend none)) answer sent =
    unfold queue_delay_deadline in ground (arith, sent)
delivered-SentAgain w e f n d (some (suspend (some seconds))) answer sent =
    let (waits, few, same) = suspended_lem w e f n seconds d sent in
    (seconds, record { answer = answer; waits = waits; few = few }, same)

due-SentIf :
    (w : Surroundings) (e f : NativeQueueEnvelope) (n d a : ℕ)
    → SentIf w e n f d (after_delivery w e a (w.deliver e a))
due-SentIf w e f n d a at sent =
    let same : a ≡ n = ground (arith, at, after_delivery-attempt w e a (w.deliver e a)) in
    subst (λ (b : ℕ). SentAgain w e b f) same
      (delivered-SentAgain w e f a d (w.deliver e a) refl sent)

consume-SentIf :
    (w : Surroundings) (m : QueueMessage) (e f : NativeQueueEnvelope) (n d : ℕ)
    → match_option m.body none validate_native_queue_envelope ≡ some e
    → SentIf w e n f d (consume w m)
unfolding consume
consume-SentIf w m e f n d valid = rw valid (
    if-rule (SentIf w e n f d) (is_early e.not_before w.now) _ _
      (λ _ at sent. ground (arith, at, sent))
      (λ _.
        if-rule (SentIf w e n f d) w.has_secret _ _
          (λ _. due-SentIf w e f n d (get_or e.delivery_failures 0 + m.attempts))
          (λ _ at sent. ground (arith, at, sent))))

suspended-IsEnvelope :
    (e : NativeQueueEnvelope) (at n : ℕ)
    → IsEnvelope e
    → at + 900000 < 9999999999999
    → n ≤ 2 ^ 53
    → get_or e.suspension_count 0 + 1 ≤ max_queue_suspensions
    → IsEnvelope (suspended e at n)
suspended-IsEnvelope e at n h room attempts few = record {
  message_id = h.message_id;
  queue_name = h.queue_name;
  target_base_url = h.target_base_url;
  payload = h.payload;
  scope = h.scope;
  not_before = λ b given. ground (arith, given, room);
  delivery_failures = λ b given. ground (arith, given, attempts);
  suspension_count = λ b given. ground (arith, given, few);
}

pub due-attempt :
    (w : Surroundings) (e : NativeQueueEnvelope) (n : ℕ)
    → (consume_due w e n).attempt ≡ (if w.has_secret then some n else none)
due-attempt w e n =
    if-rule (λ (c : Consumed). c.attempt ≡ (if w.has_secret then some n else none)) w.has_secret _ _
      (λ yes'. rw yes' (after_delivery-attempt w e n (w.deliver e n))) (λ no'. rw no' refl)

-- The envelopes carry the same message.
abbrev pub SamePayload : NativeQueueEnvelope → NativeQueueEnvelope → Type 0
SamePayload e f =
    (f.message_id ≡ e.message_id)
    × (f.body ≡ e.body)
    × (f.payload_key ≡ e.payload_key)
    × (f.idempotency_key ≡ e.idempotency_key)

validated-IsEnvelope :
    (body : Option RawEnvelope) (e : NativeQueueEnvelope)
    → match_option body none validate_native_queue_envelope ≡ some e
    → IsEnvelope e
validated-IsEnvelope none e valid = ground (arith, valid)
validated-IsEnvelope (some r) e valid = validate-IsEnvelope r e valid

-- An envelope that was read is read again from its JSON form.
pub reread :
    (body : Option RawEnvelope) (e : NativeQueueEnvelope)
    → match_option body none validate_native_queue_envelope ≡ some e
    → validate_native_queue_envelope (json_of e) ≡ some e
reread body e valid = (validate-json_of_iff e).1 (validated-IsEnvelope body e valid)

-- The suspended message, as the broker hands it to a consumer for the first time.
abbrev pub handed : NativeQueueEnvelope → QueueMessage
handed f = record { body = some (json_of f); attempts = 1 }

handed-attempt :
    (w : Surroundings) (e : NativeQueueEnvelope) (at n : ℕ)
    → 1 ≤ n
    → validate_native_queue_envelope (json_of (suspended e at n)) ≡ some (suspended e at n)
    → (consume w (handed (suspended e at n))).attempt
      ≡ (if leb at w.now && w.has_secret then some n else none)
unfolding consume
handed-attempt w e at n first valid = rw valid (
    if-rule (λ (c : Consumed). c.attempt ≡ (if leb at w.now && w.has_secret then some n else none))
      (is_early (some at) w.now) _ _ (λ early. ground (arith, early))
      (λ late.
        ground (arith, late, due-attempt w (suspended e at n) (get_or (some (n - 1)) 0 + 1))))

-- A message with a valid envelope that was delivered with the attempt `n` and was sent again: the
-- workflow asked for a suspension of at least one second, the message sent has its ID, its payload and
-- that deadline, one suspension more, of which there are never more than the largest number, and
-- whichever consumer it is handed to first delivers it from the deadline on, where it has a secret,
-- with the attempt `n` again, and does not deliver it before. The deadline is to leave room for a
-- claim and one millisecond more, and the attempt to be a number of JavaScript.
pub suspension_resumes :
    (w w' : Surroundings) (m : QueueMessage) (e f : NativeQueueEnvelope) (n d at : ℕ)
    → match_option m.body none validate_native_queue_envelope ≡ some e
    → 1 ≤ n
    → n ≤ 2 ^ 53
    → (consume w m).attempt ≡ some n
    → (consume w m).sent ≡ some (f, d)
    → f.not_before ≡ some at
    → at + 900000 < 9999999999999
    → (seconds : ℕ) × (w.deliver e n ≡ some (suspend (some seconds)))
      × (1 ≤ seconds)
      × (at ≡ w.later + seconds * 1000)
      × SamePayload e f
      × (get_or f.suspension_count 0 ≡ get_or e.suspension_count 0 + 1)
      × (get_or f.suspension_count 0 ≤ max_queue_suspensions)
      × ((consume w' (handed f)).attempt
          ≡ (if leb at w'.now && w'.has_secret then some n else none))
suspension_resumes w w' m e f n d at valid first attempts delivered sent deadline room =
    let (seconds, asked, same) = consume-SentIf w m e f n d valid delivered sent in
    let on_time : at ≡ due w seconds = ground (arith, same, deadline) in
    let envelope = validated-IsEnvelope m.body e valid in
    let again =
      suspended-IsEnvelope e (due w seconds) n envelope (ground (arith, on_time, room)) attempts
        asked.few in
    let read = (validate-json_of_iff (suspended e (due w seconds) n)).1 again in
    rw same (
      rw on_time (
        seconds,
        asked.answer,
        asked.waits,
        refl,
        (refl, refl, refl, refl),
        refl,
        asked.few,
        handed-attempt w' e (due w seconds) n first read,
      ))
