-- ===== src/RunCell/Events.antt =====
-- The events of a run's cell (`src/worker/durable-objects/WorkflowRunDO.ts`): `applyEvent`,
-- `forceDisposeHook`, and the resolutions of ambiguous and expired hook claims.
use world_celld.Common.{
  ℕ, ◌+◌, ◌*◌, String, Bool, true, false, not, ◌&&◌, ◌||◌, Option, none, some, List, [], ◌∷◌, ltb,
  ◌==◌, is_some, get_or, match_option, update, if◌then◌else◌,
}
use world_celld.Queue.Claim.{safe}
use world_celld.Apply.Entities.{Run, Hook, HookReference, Cancellation}
use world_celld.Apply.External.{Platform}
use world_celld.Apply.Transaction.{
  State, Context, Success, Outcome, failed, done, run_expired, Result, returned,
  thrown as event_thrown,
}
use world_celld.Apply.Forced.{
  ForcedDisposal, ForcedClaim, Resolution, Journal, journaled, thrown as journal_thrown,
  apply_forced_hook_disposal, resolve_forced_hook_claim,
}
use world_celld.Apply.{apply_event}
use world_celld.RunCell.Retention.{
  RunCell, CellResult, thrown, settled, TerminalCleanupRecord, hooks, terminal_retention,
  cleanup_record, terminal_deadline, tombstone_from, with_run, run_expiring,
}
use world_celld.RunCell.Page.{finalize_event_page}

-- `MAX_RUN_INDEX_PUBLICATION_LIFETIME_MS`
abbrev pub max_run_index_publication_lifetime_ms : ℕ
max_run_index_publication_lifetime_ms = 5 * 60 * 1000 + (3 * (5 * 60 * 1000) + 900)

-- The outcome with the field that the cell adds to it.
pub record EventReply : Type 0 where
  pub outcome : Outcome
  pub index_publication_expires_at : Option ℕ

abbrev pub expired_reply : EventReply
expired_reply = record {
  outcome = failed (record {
    code = run_expired;
    retry_after_seconds = none;
    run_spec_version = none;
    force_claim = none;
  });
  index_publication_expires_at = none;
}

-- The hooks whose markers the cell writes: the one to index, and those released.
abbrev pub marked_references : Success → List HookReference
marked_references s =
    match_option s.hook_to_index s.released_hooks
      (λ h. record { hook_id = h.hook_id; token = h.token } ∷ s.released_hooks)

abbrev pub put_references :
    (String → String → Option HookReference)
    → List HookReference
    → String
    → String
    → Option HookReference
put_references m [] id token = m id token
put_references m (r ∷ rest) id token =
    let later = put_references m rest id token in
    if is_some later
    then later
    else if (r.hook_id == id) && (r.token == token)
    then some r
    else none

-- The deadline of a run that has ended: its record, the run's `expiredAt` and the alarm.
abbrev pub retain : Platform → RunCell → Run → ℕ → Option (RunCell × Run)
retain p c r retention_ms = match_option (terminal_deadline r retention_ms) none (λ due.
    let r' = run_expiring r due in
    if p.run_accepted r'
    then some (
      record (with_run c r') {
        cleanup = some (cleanup_record p r' due terminal_retention);
        alarm = some due;
      },
      r',
    )
    else none)

abbrev pub first_cleanup : Run → TerminalCleanupRecord
first_cleanup r = record {
  run_id = r.run_id;
  phase = hooks;
  generation = 0;
  attempts = 0;
  last_error = none;
  last_attempt_at = none;
}

-- The first terminal cleanup of a run that has ended, and the alarm for its next page.
abbrev pub begin_terminal_cleanup : RunCell → Run → ℕ → RunCell
begin_terminal_cleanup c r now = record c {
  terminal_cleanup = match_option c.terminal_cleanup (some (first_cleanup r)) (λ t. some t);
  alarm = some (now + 1);
}

abbrev pub event_reply : Platform → Context → RunCell → Success → Option ℕ → CellResult EventReply
event_reply p ctx c s at =
    settled
      (record {
        outcome = finalize_event_page p c.state.store (done s) ctx.params;
        index_publication_expires_at = at;
      })
      c

abbrev pub publication_deadline : ℕ → Option ℕ
publication_deadline now = some (now + max_run_index_publication_lifetime_ms)

-- What the cell does for the run that an event returned.
abbrev pub settle_run : Platform → Context → RunCell → Success → ℕ → Run → CellResult EventReply
settle_run p ctx c s retention_ms r =
    if p.is_terminal_run r.status
    then (if ltb 0 retention_ms && not (is_some c.cleanup)
        then match_option (retain p c r retention_ms) thrown (λ kept.
          event_reply p ctx (begin_terminal_cleanup kept.0 kept.1 ctx.now)
            (record s { run = some kept.1 }) (publication_deadline ctx.now))
        else event_reply p ctx (begin_terminal_cleanup c r ctx.now) s
            (publication_deadline ctx.now))
    else event_reply p ctx c s (publication_deadline ctx.now)

abbrev pub after_success :
    Platform → Context → RunCell → ℕ → Success → State → CellResult EventReply
after_success p ctx c retention_ms s st =
    let c' = record c {
      state = st;
      queue_scope = is_some s.run_created || c.queue_scope;
      hook_references = put_references c.hook_references (marked_references s);
    } in
    match_option s.run (event_reply p ctx c' s none) (settle_run p ctx c' s retention_ms)

-- A failure keeps the writes that were made before it, and does not store the event sequence.
abbrev pub after_event : Platform → Context → RunCell → ℕ → Result → CellResult EventReply
after_event p ctx c retention_ms event_thrown = thrown
after_event p ctx c retention_ms (returned (failed f) st) =
    settled (record { outcome = failed f; index_publication_expires_at = none })
      (record c { state = record st { sequence = c.state.sequence } })
after_event p ctx c retention_ms (returned (done s) st) = after_success p ctx c retention_ms s st

-- `applyEvent` of the cell, at the request's clock; the retention of the request is none where it
-- gives no cleanup.
unfoldable pub apply_run_event : Platform → RunCell → Context → Option ℕ → CellResult EventReply
apply_run_event p c ctx retention =
    if safe (get_or retention 0)
    then match_option (tombstone_from c ctx.now)
        (after_event p ctx c (get_or retention 0) (apply_event p ctx c.state))
        (λ t. settled expired_reply c)
    else thrown

abbrev pub after_disposal : RunCell → Journal → CellResult Bool
after_disposal c journal_thrown = thrown
after_disposal c (journaled b st) = settled b (record c { state = st })

-- `forceDisposeHook`, its storage transaction
unfoldable pub force_dispose_hook :
    Platform → RunCell → ForcedDisposal → String → ℕ → CellResult Bool
force_dispose_hook p c r run_id now =
    if (r.hook_id == "")
      || (r.token == "")
      || (r.claimed_by.run_id == "")
      || (r.claimed_by.hook_id == "")
    then thrown
    else match_option (tombstone_from c now)
        (after_disposal c (apply_forced_hook_disposal p c.state r run_id now))
        (λ t. settled false c)

-- `resolveForcedHookClaim` of the cell
unfoldable pub resolve_forced_claim : Platform → RunCell → ForcedClaim → ℕ → CellResult Resolution
resolve_forced_claim p c r now =
    if (r.hook_id == "")
      || (r.token == "")
      || (r.claim_id == "")
      || (r.victim.run_id == "")
      || (r.victim.hook_id == "")
    then thrown
    else match_option (tombstone_from c now)
        (let (answer, st) = resolve_forced_hook_claim p c.state r now in
          settled answer (record c { state = st }))
        (λ t. settled (record { journaled = false; hook = none }) c)

abbrev pub cancel_claim : RunCell → String → Cancellation → RunCell
cancel_claim c id cancellation = record c {
  state = record c.state {
    store = record c.state.store {
      hook_cancellations = update c.state.store.hook_cancellations id cancellation;
    };
  };
}

abbrev pub holds_token : Option Hook → String → Bool
holds_token none token = false
holds_token (some h) token = h.token == token

-- `resolveHookTokenClaim`
unfoldable pub resolve_hook_token_claim :
    RunCell → (hook_id token claim_id : String) → ℕ → CellResult Bool
resolve_hook_token_claim c hook_id token claim_id now =
    match_option (tombstone_from c now)
      (if holds_token (c.state.store.hooks hook_id) token
        then settled true c
        else settled false (
            cancel_claim c claim_id
              (record { hook_id = hook_id; token = some token; canceled_at = now })))
      (λ t. settled false c)
