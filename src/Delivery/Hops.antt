-- ===== src/Delivery/Hops.antt =====
-- A delayed message on its way through the consumers of `src/worker/queue-consumer.ts`: one that is
-- handed out too soon is sent again with the rest of its delay, at most a day at a time.
use world_celld.Common.{
  ℕ, ◌+◌, ◌*◌, ◌≤◌, ◌<◌, true, Option, none, some, List, [], ◌∷◌, ◌≡◌, sym, ◌∙◌, inl, inr, arith,
  All, get_or, ltb, match_option, Bool-cases, length,
}
use world_celld.Delivery.Deadline.{native_queue_delay_seconds, native_queue_max_delay_seconds}
use world_celld.Delivery.Envelope.{NativeQueueEnvelope, validate_native_queue_envelope}
use world_celld.Delivery.Consumer.{QueueMessage, Surroundings, consume}
use world_celld.Delivery.Resumes.{handed, due-attempt, reread}

-- When the first of the consumers that the message comes to delivers it.
unfoldable pub first_delivery : List Surroundings → QueueMessage → Option ℕ
unfolding consume
first_delivery [] m = none
first_delivery (w ∷ later) m =
    let c = consume w m in
    let rest = match_option c.sent none (λ s. first_delivery later (handed s.0)) in
    match_option c.attempt rest (λ n. some w.now)

-- The broker hands the message to each next consumer no sooner than the delay that it was sent with.
abbrev pub Spaced : NativeQueueEnvelope → Surroundings → List Surroundings → Type 0
Spaced e w [] = Unit
Spaced e w (w' ∷ later) =
    (w.now + native_queue_delay_seconds e.not_before w.now * 1000 ≤ w'.now) × Spaced e w' later

-- The consumer has its secret, and the broker takes the message again.
abbrev pub Works : NativeQueueEnvelope → Surroundings → Type 0
Works e w = (w.has_secret ≡ true) × (w.accepts e ≡ true)

module _ (e : NativeQueueEnvelope) (at : ℕ) (deadline : e.not_before ≡ some at) where
  Reads : QueueMessage → Type 0
  Reads m = match_option m.body none validate_native_queue_envelope ≡ some e

  due_lem :
      (w : Surroundings) (later : List Surroundings) (m : QueueMessage)
      → Reads m
      → Works e w
      → at ≤ w.now
      → first_delivery (w ∷ later) m ≡ some w.now
  unfolding Reads first_delivery consume
  due_lem w later m valid works due =
      let d = due-attempt w e (get_or e.delivery_failures 0 + m.attempts) in
      rw valid (ground (arith, deadline, due, works.0, d))

  early_lem :
      (w : Surroundings) (later : List Surroundings) (m : QueueMessage)
      → Reads m
      → Works e w
      → w.now < at
      → first_delivery (w ∷ later) m ≡ first_delivery later (handed e)
  unfolding Reads first_delivery consume
  early_lem w later m valid works early = rw valid (ground (arith, deadline, early, works.1))

  hop_lem :
      (now next days : ℕ)
      → now < at
      → at ≤ now + (days + 1) * 86400000
      → now + native_queue_delay_seconds (some at) now * 1000 ≤ next
      → at ≤ next + days * 86400000
  unfolding native_queue_delay_seconds
  hop_lem now next days early enough spaced = ground (arith, early, enough, spaced)

  ends :
      (w : Surroundings) (later : List Surroundings) (m : QueueMessage)
      → Reads m
      → Reads (handed e)
      → All (Works e) (w ∷ later)
      → Spaced e w later
      → at ≤ w.now + length later * 86400000
      → (t : ℕ) × (first_delivery (w ∷ later) m ≡ some t) × (at ≤ t)
  ends w [] m valid again works spaced enough =
      let due : at ≤ w.now = omega (arith, enough) in (w.now, due_lem w [] m valid works.0 due, due)
  ends w (w' ∷ later) m valid again works spaced enough = elim (Bool-cases (ltb w.now at)) [
    | inl early ↦
        let before : w.now < at = ground (arith, early) in
        let next : at ≤ w'.now + length later * 86400000 =
          hop_lem w.now w'.now (length later) before (omega (arith, enough))
            (rw (sym deadline) (spaced.0)) in
        let (t, delivered, on_time) = ends w' later (handed e) again again works.1 spaced.1 next in
        (t, early_lem w (w' ∷ later) m valid works.0 before ∙ delivered, on_time)
    | inr late ↦
        let due : at ≤ w.now = ground (arith, late) in
        (w.now, due_lem w (w' ∷ later) m valid works.0 due, due)
  ]

  -- A delayed message is delivered, and not before its deadline, by one of the consumers that it comes
  -- to in turn, where there is one more of them than the days up to the deadline, each has its secret,
  -- the broker takes the message again from each that is too soon, and hands it to the next no sooner
  -- than the delay that it was sent with.
  pub delayed_message_arrives :
      (w : Surroundings) (later : List Surroundings) (m : QueueMessage)
      → match_option m.body none validate_native_queue_envelope ≡ some e
      → All (Works e) (w ∷ later)
      → Spaced e w later
      → at ≤ w.now + length later * (native_queue_max_delay_seconds * 1000)
      → (t : ℕ) × (first_delivery (w ∷ later) m ≡ some t) × (at ≤ t)
  unfolding Reads
  delayed_message_arrives w later m valid works spaced enough =
      ends w later m valid (reread m.body e valid) works spaced enough
