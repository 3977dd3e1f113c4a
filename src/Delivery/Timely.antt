-- ===== src/Delivery/Timely.antt =====
-- The suspensions of `src/worker/queue-delivery.ts`.
use world_celld.Common.{
  ℕ, ◌+◌, ◌*◌, ◌≤◌, String, true, ◌⊎◌, inl, inr, ◌≡◌, refl, Option, some, List, All, arith,
  Option-cases, eq_iff,
}
use world_celld.Queue.Claim.{ClaimCell, ok, type_error, HoldParams, claimed_by, granted}
use world_celld.Queue.Alarm.{Action, Refuses, act_replies}
use world_celld.Queue.Suspended.{Sleeps, Early, sleeping-Refuses}
use world_celld.Queue.Cell.{claim_inflight, hold_inflight, complete_queue_message}
use world_celld.Queue.Handle.{cell_queue_claim}
use world_celld.Delivery.Deadline.{
  checked_queue_timestamp_add, queue_claim_stale_ms, queue_delay_deadline,
}
use world_celld.Delivery.Envelope.{NativeQueueEnvelope}
use world_celld.Delivery.Consumer.{suspend}
use world_celld.Delivery.Decide.{
  suspension, after_callback, Callback, World, Decision, completes, retries, fails, suspends,
  decide,
}
use world_celld.Delivery.Deliver.{hold_params, answered, Delivered, settle_claim, deliver_claimed}
use world_celld.Delivery.Reasons.{decide-rule}
use world_celld.Delivery.Claimed.{granted_lem}

-- A suspension waits for the workflow's delay after the callback.
IsTimely : ℕ → Decision → Type 0
IsTimely later d = (t at : ℕ) → d ≡ suspends t at → (at ≡ later + t * 1000) × (1 ≤ t)

suspension-IsTimely :
    (w : World ClaimCell) (e : NativeQueueEnvelope) (o : Option (Option ℕ))
    → IsTimely w.callback_time (suspension w e o)
unfolding IsTimely queue_delay_deadline checked_queue_timestamp_add
suspension-IsTimely w e o t at h = ground (arith, h)

after_callback-IsTimely :
    (w : World ClaimCell) (e : NativeQueueEnvelope) (c : Callback)
    → IsTimely w.callback_time (after_callback w e c)
unfolding IsTimely
after_callback-IsTimely w e c t at h =
    ground (arith, h, suspension-IsTimely w e c.timeout_seconds t at)

decide-IsTimely :
    (w : World ClaimCell) (e : NativeQueueEnvelope) → IsTimely w.callback_time (decide w e)
unfolding IsTimely
decide-IsTimely w e =
    decide-rule w e (IsTimely w.callback_time) (λ t at h. ground (arith, h))
      (λ _ t at h. ground (arith, h)) (λ _ _ _ _ t at h. ground (arith, h))
      (λ target body c _ _ _. after_callback-IsTimely w e c)

hold-answers :
    (s : ClaimCell) (p : HoldParams)
    → claimed_by s.claim p.message_id ≡ true
    → ((hold_inflight s p).1 ≡ ok true) ⊎ ((hold_inflight s p).1 ≡ type_error)
unfolding hold_inflight
hold-answers s p c = ground (arith, c)

-- The cell keeps the claim of message `m` until the end of the suspension that was answered.
abbrev Waits : (later : ℕ) → String → Delivered ClaimCell → Type 0
Waits later m d =
    (t : ℕ) → d.outcome ≡ answered (suspend (some t)) → Sleeps m (later + t * 1000) d.slot.claim

hold-Sleeps :
    (s : ClaimCell) (p : HoldParams) (t : ℕ)
    → claimed_by s.claim p.message_id ≡ true
    → (hold_inflight s p).1 ≡ ok true
    → t ≤ p.retry_at
    → t ≤ p.expires_at
    → Sleeps p.message_id t (hold_inflight s p).0.claim
unfolding hold_inflight
hold-Sleeps s p t c kept retry live = elim (Option-cases s.claim) [
  | inl free ↦ ground (arith, free, c)
  | inr (x, at) ↦ ground (arith, at, c, kept, retry, live, eq_iff x.message_id p.message_id)
]

suspended-Waits :
    (w : World ClaimCell) (e : NativeQueueEnvelope) (u at : ℕ) (s : ClaimCell)
    → at ≡ w.callback_time + u * 1000
    → claimed_by s.claim e.message_id ≡ true
    → Waits w.callback_time e.message_id (settle_claim w e cell_queue_claim (suspends u at) s)
suspended-Waits w e u at s timely c =
    let p = hold_params e.message_id at in
    elim (hold-answers s p c) [
      | inl kept ↦ rw kept (λ t h.
          hold-Sleeps s p (w.callback_time + t * 1000) c kept (ground (arith, h, timely))
            (ground (arith, h, timely)))
      | inr invalid ↦ rw invalid (λ t h. ground (arith, h))
    ]

settle_claim-Waits :
    (w : World ClaimCell) (e : NativeQueueEnvelope) (d : Decision) (s : ClaimCell)
    → IsTimely w.callback_time d
    → claimed_by s.claim e.message_id ≡ true
    → Waits w.callback_time e.message_id (settle_claim w e cell_queue_claim d s)
unfolding IsTimely complete_queue_message
settle_claim-Waits w e retries s timely c t h = ground (arith, h)
settle_claim-Waits w e fails s timely c t h = ground (arith, h)
settle_claim-Waits w e completes s timely c t h = ground (arith, h)
settle_claim-Waits w e (suspends u at) s timely c t h =
    suspended-Waits w e u at s (timely u at refl).0 c t h

-- When a delivery that was granted its claim, which the others left to it, answers a suspension, no
-- claim of any message is granted before the end of the suspension, whatever alarms fire before it
-- and whatever is done to the cell but a hold, a release or a completion by the message itself.
pub suspended_delivery_holds :
    (w : World ClaimCell) (e : NativeQueueEnvelope) (s : ClaimCell) (t : ℕ) (actions : List Action)
    → (claim_inflight s w.claim_time e.message_id queue_claim_stale_ms).1 ≡ ok granted
    → claimed_by
        (w.others (claim_inflight s w.claim_time e.message_id queue_claim_stale_ms).0).claim
        e.message_id
      ≡ true
    → (deliver_claimed w e cell_queue_claim s).outcome ≡ answered (suspend (some t))
    → All (Early e.message_id (w.callback_time + t * 1000)) actions
    → All Refuses (act_replies (deliver_claimed w e cell_queue_claim s).slot actions)
suspended_delivery_holds w e s t actions g c answer early =
    sleeping-Refuses e.message_id (w.callback_time + t * 1000) _ actions (waits w e s g c t answer)
      early
  where
    waits :
        (w : World ClaimCell) (e : NativeQueueEnvelope) (s : ClaimCell)
        → (claim_inflight s w.claim_time e.message_id queue_claim_stale_ms).1 ≡ ok granted
        → claimed_by
            (w.others (claim_inflight s w.claim_time e.message_id queue_claim_stale_ms).0).claim
            e.message_id
          ≡ true
        → Waits w.callback_time e.message_id (deliver_claimed w e cell_queue_claim s)
    waits w e s g c =
        rw (granted_lem w e s g) (settle_claim-Waits w e (decide w e) _ (decide-IsTimely w e) c)
