-- ===== src/Queue/Cell.antt =====
-- The operations of the claim cell of `src/worker/durable-objects/WorkflowRunDO.ts`, each one
-- storage transaction; `now` is what the clock answers in it.
use world_celld.Common.{
  ℕ, ◌+◌, String, Bool, true, false, ◌&&◌, Option, none, some, leb, ◌==◌, if◌then◌else◌,
}
use world_celld.Queue.Claim.{
  Claim, Reservation, ClaimCell, Checked, ReserveParams, HoldParams, Admission, ClaimReply,
  non_empty, safe, positive_safe, safe_option, min_reservation, next_alarm, blocks, reserved_by,
  claimed_by, refusal, new_reservation, confirmed, delivered, fresh_claim, claim_refusal,
  held_claim, held_reservation, granted, without_reservation, without_claim, ok, type_error,
}

-- `reserveQueueMessage`
unfoldable pub reserve_queue_message : ClaimCell → ℕ → ReserveParams → ClaimCell × Checked Admission
reserve_queue_message s now p =
    if non_empty p.message_id && safe p.expires_at
    then (if blocks s.reservation now p
        then (record s { alarm = next_alarm s.reservation s.claim }, ok (refusal s.reservation))
        else (let r = new_reservation s.reservation p in
            (
              record s { reservation = some r; alarm = next_alarm (some r) s.claim },
              ok (record {
                admitted = true;
                message_id = p.message_id;
                publication_pending = false;
              }),
            )))
    else (s, type_error)

-- `confirmQueueMessagePublication`
unfoldable pub confirm_queue_message_publication :
    ClaimCell → String → ℕ → ClaimCell × Checked (Unit {0})
confirm_queue_message_publication s m at =
    if non_empty m && safe at
    then (if reserved_by s.reservation m
        then (let r = confirmed s.reservation m at in
            (record s { reservation = r; alarm = next_alarm r s.claim }, ok tt))
        else (s, ok tt))
    else (s, type_error)

-- `completeQueueMessage`
unfoldable pub complete_queue_message : ClaimCell → String → ClaimCell × Checked (Unit {0})
complete_queue_message s m =
    if non_empty m
    then (let r = without_reservation s.reservation m in
        let c = without_claim s.claim m in
        (record { reservation = r; claim = c; alarm = next_alarm r c }, ok tt))
    else (s, type_error)

-- `abandonQueueMessageReservation`
unfoldable pub abandon_queue_message_reservation :
    ClaimCell → String → ClaimCell × Checked (Unit {0})
abandon_queue_message_reservation s m =
    if non_empty m
    then (if reserved_by s.reservation m
        then (record s { reservation = none; alarm = next_alarm none s.claim }, ok tt)
        else (s, ok tt))
    else (s, type_error)

-- The grant of `claimInflight`, after the delivered reservation was stored.
abbrev pub grant : ClaimCell → ℕ → String → ℕ → ClaimCell × Checked ClaimReply
grant s now m stale_ms =
    let c = fresh_claim m (now + stale_ms) in
    (
      record s { claim = some c; alarm = some (min_reservation (now + stale_ms) s.reservation) },
      ok granted,
    )

-- `claimInflight`
unfoldable pub claim_inflight : ClaimCell → ℕ → String → ℕ → ClaimCell × Checked ClaimReply
claim_inflight s now m stale_ms =
    if non_empty m && positive_safe stale_ms
    then (let s' = record s { reservation = delivered s.reservation m now } in
        elim (claim_refusal s.claim m now) [
          | some reply ↦ (s', ok reply)
          | none ↦ grant s' now m stale_ms
        ])
    else (s, type_error)

abbrev hold_claim : ClaimCell → Option Claim → HoldParams → ClaimCell × Checked Bool
hold_claim s none p = (s, ok false)
hold_claim s (some c) p =
    if c.message_id == p.message_id
    then (let r = held_reservation s.reservation p in
        let c' = held_claim c p in
        (
          record {
            reservation = r;
            claim = some c';
            alarm = some (min_reservation c'.expires_at r);
          },
          ok true,
        ))
    else (s, ok false)

-- `holdInflight`
unfoldable pub hold_inflight : ClaimCell → HoldParams → ClaimCell × Checked Bool
hold_inflight s p =
    if non_empty p.message_id
      && safe p.retry_at
      && safe p.expires_at
      && safe_option p.reservation_expires_at
    then hold_claim s s.claim p
    else (s, type_error)

-- `releaseInflight` with a message
unfoldable pub release_inflight : ClaimCell → String → ClaimCell
release_inflight s m =
    if claimed_by s.claim m
    then record s { claim = none; alarm = next_alarm s.reservation none }
    else s

abbrev live_claim : ℕ → Option Claim → Option Claim
live_claim now none = none
live_claim now (some c) = if leb c.expires_at now then none else some c

abbrev live_reservation : ℕ → Option Reservation → Option Reservation
live_reservation now none = none
live_reservation now (some r) = if leb r.expires_at now then none else some r

-- The branch of `executeScheduledCleanupPage` for a cell that holds a claim or a reservation, and
-- its last branch, which drops the alarm, for one that holds neither.
unfoldable pub claim_cell_alarm : ClaimCell → ℕ → ClaimCell
claim_cell_alarm s now =
    let r = live_reservation now s.reservation in
    let c = live_claim now s.claim in record { reservation = r; claim = c; alarm = next_alarm r c }
