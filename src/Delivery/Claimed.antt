-- ===== src/Delivery/Claimed.antt =====
-- The deliveries of `src/worker/queue-delivery.ts` under a claim cell.
use world_celld.Common.{◌+◌, ◌≤◌, ◌*◌, some, ℕ, ◌<◌, String, false, ◌⊎◌, ◌≡◌, refl, arith}
use world_celld.Queue.Claim.{ClaimCell, ok, claimed_by, reserved_by, granted}
use world_celld.Queue.Cell.{claim_inflight, hold_inflight, release_inflight, complete_queue_message}
use world_celld.Queue.Handle.{cell_queue_claim}
use world_celld.Delivery.Deadline.{queue_claim_stale_ms}
use world_celld.Delivery.Envelope.{NativeQueueEnvelope}
use world_celld.Delivery.Consumer.{suspend, complete, retry}
use world_celld.Delivery.Decide.{World, Decision, completes, retries, fails, suspends, decide}
use world_celld.Delivery.Deliver.{
  refused, wait_seconds, answered, thrown, Delivered, settle_claim, deliver_claimed,
}

release-frees : (s : ClaimCell) (m : String) → claimed_by (release_inflight s m).claim m ≡ false
unfolding release_inflight
release-frees s m = ground arith

abbrev pub Frees : String → Delivered ClaimCell → Type 0
Frees m d =
    ((d.outcome ≡ answered retry) ⊎ (d.outcome ≡ thrown)) → claimed_by d.slot.claim m ≡ false

settle_claim-Frees :
    (w : World ClaimCell) (e : NativeQueueEnvelope) (d : Decision) (s : ClaimCell)
    → Frees e.message_id (settle_claim w e cell_queue_claim d s)
unfolding complete_queue_message hold_inflight
settle_claim-Frees w e retries s h = release-frees s e.message_id
settle_claim-Frees w e fails s h = release-frees s e.message_id
settle_claim-Frees w e completes s h = ground (arith, h, release-frees s e.message_id)
settle_claim-Frees w e (suspends t at) s h = ground (arith, h, release-frees s e.message_id)

-- A delivery that was granted its claim goes on from the cell that the others leave.
pub granted_lem :
    (w : World ClaimCell) (e : NativeQueueEnvelope) (s : ClaimCell)
    → (claim_inflight s w.claim_time e.message_id queue_claim_stale_ms).1 ≡ ok granted
    → deliver_claimed w e cell_queue_claim s
      ≡ settle_claim w e cell_queue_claim
          (decide w e)
          (w.others (claim_inflight s w.claim_time e.message_id queue_claim_stale_ms).0)
unfolding deliver_claimed
granted_lem w e s g = rw g refl

-- A delivery that was granted its claim, and that answers a retry or throws, leaves no claim of its
-- message behind, whatever others did to the cell in between.
pub failed_delivery_releases :
    (w : World ClaimCell) (e : NativeQueueEnvelope) (s : ClaimCell)
    → (claim_inflight s w.claim_time e.message_id queue_claim_stale_ms).1 ≡ ok granted
    → ((deliver_claimed w e cell_queue_claim s).outcome ≡ answered retry)
      ⊎ ((deliver_claimed w e cell_queue_claim s).outcome ≡ thrown)
    → claimed_by (deliver_claimed w e cell_queue_claim s).slot.claim e.message_id ≡ false
failed_delivery_releases w e s g = rw (granted_lem w e s g) (settle_claim-Frees w e (decide w e) _)

Clears : String → Delivered ClaimCell → Type 0
Clears m d =
    d.outcome ≡ answered complete
    → (claimed_by d.slot.claim m ≡ false) × (reserved_by d.slot.reservation m ≡ false)

settle_claim-Clears :
    (w : World ClaimCell) (e : NativeQueueEnvelope) (d : Decision) (s : ClaimCell)
    → Clears e.message_id (settle_claim w e cell_queue_claim d s)
unfolding Clears complete_queue_message hold_inflight
settle_claim-Clears w e retries s h = ground (arith, h)
settle_claim-Clears w e fails s h = ground (arith, h)
settle_claim-Clears w e completes s h = ground (arith, h)
settle_claim-Clears w e (suspends t at) s h = ground (arith, h)

-- A delivery that was granted its claim and completes leaves neither a claim nor a reservation of its
-- message behind.
completed_delivery_clears :
    (w : World ClaimCell) (e : NativeQueueEnvelope) (s : ClaimCell)
    → (claim_inflight s w.claim_time e.message_id queue_claim_stale_ms).1 ≡ ok granted
    → (deliver_claimed w e cell_queue_claim s).outcome ≡ answered complete
    → (claimed_by (deliver_claimed w e cell_queue_claim s).slot.claim e.message_id ≡ false)
      × (reserved_by (deliver_claimed w e cell_queue_claim s).slot.reservation e.message_id ≡ false)
unfolding Clears
completed_delivery_clears w e s g =
    rw (granted_lem w e s g) (settle_claim-Clears w e (decide w e) _)

refused_lem :
    (w : World ClaimCell) (e : NativeQueueEnvelope) (at : ℕ)
    → w.refusal_time < at
    → refused w e (some at) ≡ answered (suspend (some (wait_seconds w e at)))
refused_lem w e at ahead = ground arith

-- A delivery that another one holds up until a deadline that is still ahead asks for a wait that ends
-- at the deadline or less than a second later, and leaves the claim as the claim cell left it.
pub refused_delivery_waits :
    (w : World ClaimCell) (e : NativeQueueEnvelope) (s : ClaimCell) (at : ℕ)
    → (claim_inflight s w.claim_time e.message_id queue_claim_stale_ms).1
      ≡ ok (record { claimed = false; retry_at = some at })
    → w.refusal_time < at
    → (t : ℕ) × (at ≤ w.refusal_time + t * 1000)
      × (w.refusal_time + t * 1000 < at + 1000)
      × (deliver_claimed w e cell_queue_claim s ≡ record {
        slot = (claim_inflight s w.claim_time e.message_id queue_claim_stale_ms).0;
        outcome = answered (suspend (some t));
      })
unfolding deliver_claimed
refused_delivery_waits w e s at busy ahead =
    (wait_seconds w e at, omega arith, omega arith, rw busy (rw (refused_lem w e at ahead) refl))
