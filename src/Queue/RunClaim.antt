-- ===== src/Queue/RunClaim.antt =====
-- The run-scoped claims of `src/worker/durable-objects/WorkflowRunDO.ts`: one entry for each claim
-- name in the run's own cell, with no alarm. An operation takes the entry of its claim name.
use world_celld.Common.{
  ℕ, ◌+◌, String, Bool, true, false, ◌&&◌, Option, none, some, if◌then◌else◌, is_some,
}
use world_celld.Queue.Claim.{
  Claim, Reservation, Checked, ok, type_error, ReserveParams, HoldParams, Admission, ClaimReply,
  non_empty, safe, positive_safe, safe_option, blocks, reserved_by, claimed_by, refusal,
  new_reservation, confirmed, delivered, fresh_claim, claim_refusal, held_claim, held_reservation,
  granted, without_reservation, without_claim,
}

-- `RunQueueClaimState`
pub record RunQueueClaimState : Type 0 where
  pub reservation : Option Reservation
  pub claim : Option Claim

-- What the storage holds under the claim's key.
abbrev pub Entry : Type 0
Entry = Option RunQueueClaimState

-- `(values.get(key)) ?? {}`
abbrev pub state_of : Entry → RunQueueClaimState
state_of none = record { reservation = none; claim = none }
state_of (some s) = s

-- The entry is kept while it holds a reservation or a claim, and deleted otherwise.
abbrev pub keep : RunQueueClaimState → Entry
keep s = if is_some s.reservation then some s else if is_some s.claim then some s else none

-- What the run's cell says before it looks at the claim: the run has expired, or its claims stay in
-- claim cells because it predates the run scope.
pub data RunScope : Type 0 where
  expired cell run : RunScope

pub data RunQueueReservation : Type 0 where
  refused : RunQueueReservation
  cell_scope : RunQueueReservation
  run_scope : Admission → RunQueueReservation

pub data RunClaimReply : Type 0 where
  run_expired : RunClaimReply
  answered : ClaimReply → RunClaimReply

abbrev pub reserve_entry :
    RunQueueClaimState → Entry → ℕ → ReserveParams → Entry × RunQueueReservation
reserve_entry s e now p =
    if blocks s.reservation now p then (e, run_scope (refusal s.reservation)) else (
      some (record s { reservation = some (new_reservation s.reservation p) }),
      run_scope
          (record { admitted = true; message_id = p.message_id; publication_pending = false }),
    )

-- `reserveRunQueueMessage`
unfoldable pub reserve_run_queue_message :
    RunScope → Entry → ℕ → ReserveParams → Entry × Checked RunQueueReservation
reserve_run_queue_message scope e now p =
    if non_empty p.message_id && safe p.expires_at
    then elim scope [
      | expired ↦ (e, ok refused)
      | cell ↦ (e, ok cell_scope)
      | run ↦ let (e', reply) = reserve_entry (state_of e) e now p in (e', ok reply)
    ]
    else (e, type_error)

abbrev confirm_entry : Entry → String → ℕ → Entry
confirm_entry none m at = none
confirm_entry (some s) m at =
    if reserved_by s.reservation m
    then some (record s { reservation = confirmed s.reservation m at })
    else some s

-- `confirmRunQueueMessagePublication`
unfoldable pub confirm_run_queue_message_publication :
    Entry → String → ℕ → Entry × Checked (Unit {0})
confirm_run_queue_message_publication e m at =
    if non_empty m && safe at then (confirm_entry e m at, ok tt) else (e, type_error)

-- The first write of a delivery, made only for a pending reservation of the same message.
abbrev delivered_entry : Entry → String → ℕ → Entry
delivered_entry none m now = none
delivered_entry (some s) m now = some (record s { reservation = delivered s.reservation m now })

abbrev claim_entry : Entry → ℕ → String → ℕ → Entry × ClaimReply
claim_entry e now m stale_ms = elim (claim_refusal (state_of e).claim m now) [
  | some reply ↦ (e, reply)
  | none ↦ (some (record (state_of e) { claim = some (fresh_claim m (now + stale_ms)) }), granted)
]

-- `claimRunQueueMessage`
unfoldable pub claim_run_queue_message :
    RunScope → Entry → ℕ → String → ℕ → Entry × Checked RunClaimReply
claim_run_queue_message scope e now m stale_ms =
    if non_empty m && positive_safe stale_ms
    then elim scope [
      | expired ↦ (e, ok run_expired)
      | _ ↦
          let (e', reply) = claim_entry (delivered_entry e m now) now m stale_ms in
          (e', ok (answered reply))
    ]
    else (e, type_error)

abbrev hold_entry : Entry → RunQueueClaimState → Option Claim → HoldParams → Entry × Bool
hold_entry e s none p = (e, false)
hold_entry e s (some c) p =
    if claimed_by (some c) p.message_id
    then (
      some (record {
        reservation = held_reservation s.reservation p;
        claim = some (held_claim c p);
      }),
      true,
    )
    else (e, false)

-- `holdRunQueueMessage`
unfoldable pub hold_run_queue_message : Entry → HoldParams → Entry × Checked Bool
hold_run_queue_message e p =
    if non_empty p.message_id
      && safe p.retry_at
      && safe p.expires_at
      && safe_option p.reservation_expires_at
    then (let (e', held) = hold_entry e (state_of e) (state_of e).claim p in (e', ok held))
    else (e, type_error)

-- `releaseRunQueueMessage`: the entry goes unless a reservation is left in it.
unfoldable pub release_run_queue_message : Entry → String → Entry
release_run_queue_message none m = none
release_run_queue_message (some s) m =
    if claimed_by s.claim m then keep (record s { claim = none }) else some s

-- `completeRunQueueMessage`
unfoldable pub complete_run_queue_message : Entry → String → Entry
complete_run_queue_message none m = none
complete_run_queue_message (some s) m =
    keep (record {
      reservation = without_reservation s.reservation m;
      claim = without_claim s.claim m;
    })

abbrev abandon_entry : Entry → String → Entry
abandon_entry none m = none
abandon_entry (some s) m =
    if reserved_by s.reservation m then keep (record s { reservation = none }) else some s

-- `abandonRunQueueMessageReservation`
unfoldable pub abandon_run_queue_message_reservation : Entry → String → Entry × Checked (Unit {0})
abandon_run_queue_message_reservation e m =
    if non_empty m then (abandon_entry e m, ok tt) else (e, type_error)
