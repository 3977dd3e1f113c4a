-- ===== src/Queue/Handle.antt =====
-- `QueueClaimHandle` of `src/worker/queue-claims.ts`: one interface over both places of a claim, and
-- the sequences of operations that producers and deliveries run on a claim.
use world_celld.Common.{ℕ, String, Bool, true, false, Option, none, List, [], ◌∷◌}
use world_celld.Queue.Claim.{
  Checked, ok, type_error, ReserveParams, HoldParams, Admission, ClaimReply, ClaimCell,
}
use world_celld.Queue.Cell.{
  reserve_queue_message, confirm_queue_message_publication, complete_queue_message,
  abandon_queue_message_reservation, claim_inflight, hold_inflight, release_inflight,
}
use world_celld.Queue.RunClaim.{
  Entry, RunScope, run, RunQueueReservation, refused, cell_scope, run_scope, RunClaimReply,
  run_expired, answered, reserve_run_queue_message, confirm_run_queue_message_publication,
  claim_run_queue_message, hold_run_queue_message, release_run_queue_message,
  complete_run_queue_message, abandon_run_queue_message_reservation,
}

-- `expired` is set only by a run-scoped claim of an expired run.
pub record DeliveryClaim : Type 0 where
  pub expired : Bool
  pub claimed : Bool
  pub retry_at : Option ℕ

-- Each method takes what the storage holds, and returns what it holds afterwards.
pub record QueueClaimHandle (S : Type 0) : Type 0 where
  pub claim : S → ℕ → String → ℕ → S × Checked DeliveryClaim
  pub hold : S → HoldParams → S × Checked Bool
  pub release : S → String → S × Checked (Unit {0})
  pub abandon_reservation : S → String → S × Checked (Unit {0})
  pub confirm_publication : S → String → ℕ → S × Checked (Unit {0})
  pub complete : S → String → S × Checked (Unit {0})

abbrev pub cell_answer : Checked ClaimReply → Checked DeliveryClaim
cell_answer (ok r) = ok (record { expired = false; claimed = r.claimed; retry_at = r.retry_at })
cell_answer type_error = type_error

abbrev pub run_answer : Checked RunClaimReply → Checked DeliveryClaim
run_answer (ok run_expired) = ok (record { expired = true; claimed = false; retry_at = none })
run_answer (ok (answered r)) =
    ok (record { expired = false; claimed = r.claimed; retry_at = r.retry_at })
run_answer type_error = type_error

-- `cellQueueClaim`
abbrev pub cell_queue_claim : QueueClaimHandle ClaimCell
cell_queue_claim = record {
  claim = λ s now m stale_ms.
      let (s', reply) = claim_inflight s now m stale_ms in (s', cell_answer reply);
  hold = hold_inflight;
  release = λ s m. (release_inflight s m, ok tt);
  abandon_reservation = abandon_queue_message_reservation;
  confirm_publication = confirm_queue_message_publication;
  complete = complete_queue_message;
}

-- `runQueueClaim`
abbrev pub run_queue_claim : RunScope → QueueClaimHandle Entry
run_queue_claim scope = record {
  claim = λ e now m stale_ms.
      let (e', reply) = claim_run_queue_message scope e now m stale_ms in (e', run_answer reply);
  hold = hold_run_queue_message;
  release = λ e m. (release_run_queue_message e m, ok tt);
  abandon_reservation = abandon_run_queue_message_reservation;
  confirm_publication = confirm_run_queue_message_publication;
  complete = λ e m. (complete_run_queue_message e m, ok tt);
}

-- An operation on a claim, with the time of its transaction where the operation reads the clock.
pub data Op : Type 0 where
  reserve : ℕ → ReserveParams → Op
  claim : ℕ → String → ℕ → Op
  hold : HoldParams → Op
  release : String → Op
  abandon : String → Op
  confirm : String → ℕ → Op
  complete : String → Op

-- What an operation answers.
pub data Reply : Type 0 where
  reserved : Checked Admission → Reply
  delivery : Checked DeliveryClaim → Reply
  holding : Checked Bool → Reply
  done : Checked (Unit {0}) → Reply

module _ {S : Type 0} (handle : QueueClaimHandle S)
    (admit : S → ℕ → ReserveParams → S × Checked Admission) where
  abbrev pub perform : S → Op → S × Reply
  perform s (reserve now p) = let (s', r) = admit s now p in (s', reserved r)
  perform s (claim now m stale_ms) = let (s', r) = handle.claim s now m stale_ms in (s', delivery r)
  perform s (hold p) = let (s', r) = handle.hold s p in (s', holding r)
  perform s (release m) = let (s', r) = handle.release s m in (s', done r)
  perform s (abandon m) = let (s', r) = handle.abandon_reservation s m in (s', done r)
  perform s (confirm m at) = let (s', r) = handle.confirm_publication s m at in (s', done r)
  perform s (complete m) = let (s', r) = handle.complete s m in (s', done r)

-- The producer's reservation in a run that has its claims in its own cell and has not expired.
abbrev pub run_admission : Checked RunQueueReservation → Checked Admission
run_admission (ok (run_scope a)) = ok a
run_admission (ok refused) = type_error
run_admission (ok cell_scope) = type_error
run_admission type_error = type_error

abbrev pub admit_entry : Entry → ℕ → ReserveParams → Entry × Checked Admission
admit_entry e now p = let (e', r) = reserve_run_queue_message run e now p in (e', run_admission r)

unfoldable pub perform_cell : ClaimCell → Op → ClaimCell × Reply
unfolding reserve_queue_message confirm_queue_message_publication complete_queue_message
    abandon_queue_message_reservation claim_inflight hold_inflight release_inflight
perform_cell = perform cell_queue_claim reserve_queue_message

unfoldable pub perform_run : Entry → Op → Entry × Reply
unfolding reserve_run_queue_message confirm_run_queue_message_publication claim_run_queue_message
    hold_run_queue_message release_run_queue_message complete_run_queue_message
    abandon_run_queue_message_reservation
perform_run = perform (run_queue_claim run) admit_entry

unfoldable pub run_cell : ClaimCell → List Op → ClaimCell × List Reply
run_cell s [] = (s, [])
run_cell s (op ∷ ops) =
    let (s', reply) = perform_cell s op in
    let (s'', replies) = run_cell s' ops in (s'', reply ∷ replies)

unfoldable pub run_entry : Entry → List Op → Entry × List Reply
run_entry e [] = (e, [])
run_entry e (op ∷ ops) =
    let (e', reply) = perform_run e op in
    let (e'', replies) = run_entry e' ops in (e'', reply ∷ replies)
