-- ===== src/RunCell/Schedule.antt =====
-- The scheduling of a run's cleanup (`src/worker/durable-objects/WorkflowRunDO.ts`):
-- `scheduleCleanup`, `enforceRetention`, `cleanupNow`, `rearmCleanup`, `setCleanupPhase`,
-- `recordCleanupFailure`, each with its storage transaction.
use world_celld.Common.{
  ℕ, ◌+◌, Bool, true, false, not, ◌&&◌, ◌||◌, Option, none, some, leb, ltb, eqb, max, min, is_some,
  get_or, ◌-◌, ◌*◌, ◌^◌, String, match_option, if◌then◌else◌,
}
use world_celld.Queue.Claim.{safe, positive_safe}
use world_celld.Apply.Entities.{Run}
use world_celld.Apply.External.{Platform}
use world_celld.RunCell.Retention.{
  RunCell, CellResult, thrown, settled, CleanupRecord, CleanupPhase, manual, maximum_age, retained,
  index, streams, queues, payload, tombstoned, cleanup_record, retention_deadline,
  terminal_deadline, terminal_part, is_retained, is_tombstoned, with_run, run_expiring,
}

-- The run and its cleanup record with a deadline.
abbrev pub put_cleanup : RunCell → Run → ℕ → CleanupRecord → Option ℕ → RunCell
put_cleanup c r due cleanup alarm = record (with_run c (run_expiring r due)) {
  cleanup = some cleanup;
  alarm = alarm;
}

abbrev pub schedule_run : Platform → RunCell → Run → ℕ → ℕ → CellResult (Option CleanupRecord)
schedule_run p c r retention_ms now = match_option (terminal_deadline r retention_ms) thrown (λ due.
    if p.run_accepted (run_expiring r due)
    then (let cleanup = cleanup_record p (run_expiring r due) due manual in
        settled (some cleanup) (
          put_cleanup c r due cleanup
            (some (if is_some c.terminal_cleanup || leb due now then now + 1 else due))))
    else thrown)

-- `scheduleCleanup`
unfoldable pub schedule_cleanup : Platform → RunCell → ℕ → ℕ → CellResult (Option CleanupRecord)
schedule_cleanup p c retention_ms now =
    if positive_safe retention_ms
    then match_option c.cleanup
        (if is_some c.tombstone
          then settled none c
          else match_option c.state.store.run (settled none c) (λ r.
            if p.is_terminal_run r.status
            then schedule_run p c r retention_ms now
            else settled none c))
        (λ existing. settled (some existing) c)
    else thrown

pub data Enforcement : Type 0 where
  missing not_due : Enforcement
  scheduled expired : CleanupRecord → Enforcement

abbrev pub aged : Platform → CleanupRecord → Run → ℕ → CleanupRecord
aged p cleanup r due = record cleanup {
  status = some r.status;
  completed_at = terminal_part p r r.completed_at;
  terminal_status = terminal_part p r (some r.status);
  reason = some maximum_age;
  due_at = due;
  generation = cleanup.generation + 1;
}

abbrev pub enforced : CleanupRecord → ℕ → Enforcement
enforced cleanup now = if leb cleanup.due_at now then expired cleanup else scheduled cleanup

-- The record of a run that has reached its maximum age: a new one, an earlier deadline, or the one
-- that is there.
abbrev pub enforce_run : Platform → RunCell → Run → ℕ → ℕ → CellResult Enforcement
enforce_run p c r due now =
    match_option c.cleanup
      (if p.run_accepted (run_expiring r due)
        then (let cleanup = cleanup_record p r due maximum_age in
            settled (enforced cleanup now) (put_cleanup c r due cleanup (some (now + 1))))
        else thrown)
      (λ cleanup.
        if is_retained cleanup.phase && ltb due cleanup.due_at
        then (if p.run_accepted (run_expiring r due)
            then (let cleanup' = aged p cleanup r due in
                settled (enforced cleanup' now) (put_cleanup c r due cleanup' (some (now + 1))))
            else thrown)
        else settled (enforced cleanup now) (record c { alarm = some (now + 1) }))

-- `enforceRetention`, its first transaction
unfoldable pub enforce_retention :
    Platform → RunCell → (retention_ms scheduled_time : ℕ) → ℕ → CellResult Enforcement
enforce_retention p c retention_ms scheduled_time now =
    if positive_safe retention_ms && safe scheduled_time
    then match_option c.tombstone
        (match_option c.state.store.run (settled missing c) (λ r.
          match_option (retention_deadline r.created_at retention_ms) thrown (λ due.
            if ltb scheduled_time due then settled not_due c else enforce_run p c r due now)))
        (λ t. settled (expired t.cleanup) c)
    else thrown

-- The deadline becomes now, which fences the run at once.
abbrev pub due_now : Platform → RunCell → CleanupRecord → ℕ → CellResult (Unit {0})
due_now p c cleanup now =
    let cleanup' = record cleanup { due_at = now; generation = cleanup.generation + 1 } in
    let fenced = record c { cleanup = some cleanup'; alarm = some (now + 1) } in
    match_option c.state.store.run (settled tt fenced) (λ r.
      if p.run_accepted (run_expiring r now)
      then settled tt (with_run fenced (run_expiring r now))
      else thrown)

-- `cleanupNow`, its transaction, after `scheduleCleanup` where there is no record
unfoldable pub expire_now : Platform → RunCell → ℕ → CellResult (Unit {0})
expire_now p c now =
    match_option c.cleanup (settled tt c)
      (λ cleanup. if is_tombstoned cleanup.phase then settled tt c else due_now p c cleanup now)

-- `rearmCleanup`
unfoldable pub rearm_cleanup : RunCell → ℕ → RunCell
rearm_cleanup c now =
    if is_some c.terminal_cleanup
    then record c { alarm = some (now + 1) }
    else match_option c.cleanup (record c { alarm = none })
        (λ cleanup.
          if is_tombstoned cleanup.phase
          then record c { alarm = none }
          else record c { alarm = some (max (now + 1) cleanup.due_at) })

abbrev pub same_phase : CleanupPhase → CleanupPhase → Bool
same_phase retained retained = true
same_phase index index = true
same_phase streams streams = true
same_phase queues queues = true
same_phase payload payload = true
same_phase tombstoned tombstoned = true
same_phase _ _ = false

-- The counts that a page of the cleanup may set with the phase.
pub record PhaseUpdates : Type 0 where
  pub deleted_streams : Option ℕ
  pub deleted_queue_payloads : Option ℕ

abbrev pub no_updates : PhaseUpdates
no_updates = record { deleted_streams = none; deleted_queue_payloads = none }

-- Only a page that read this phase and generation may change the record.
abbrev pub is_current : CleanupRecord → CleanupRecord → Bool
is_current cleanup expected =
    same_phase cleanup.phase expected.phase && eqb cleanup.generation expected.generation

-- `setCleanupPhase`
unfoldable pub set_cleanup_phase :
    RunCell → CleanupRecord → CleanupPhase → PhaseUpdates → Option ℕ → RunCell
set_cleanup_phase c expected next updates continue_at = match_option c.cleanup c (λ cleanup.
    if is_current cleanup expected
    then record c {
      cleanup = some (record cleanup {
        deleted_streams = get_or updates.deleted_streams cleanup.deleted_streams;
        deleted_queue_payloads =
            get_or updates.deleted_queue_payloads cleanup.deleted_queue_payloads;
        phase = next;
        generation = cleanup.generation + 1;
        attempts = 0;
        last_error = none;
      });
      alarm = match_option continue_at c.alarm (λ at. some at);
    }
    else c)

-- The first branch of `executeCleanup`: a retained run waits for its deadline, and then its index
-- goes first.
unfoldable pub execute_retained : RunCell → CleanupRecord → ℕ → RunCell
unfolding set_cleanup_phase
execute_retained c cleanup now =
    if ltb now cleanup.due_at
    then record c { alarm = some cleanup.due_at }
    else set_cleanup_phase c cleanup index no_updates (some (now + 1))

-- `Math.min(CLEANUP_RETRY_MAX_MS, 1000 * 2 ** Math.min(attempts - 1, 12))`
abbrev pub retry_delay : ℕ → ℕ
retry_delay attempts = min (60 * 60 * 1000) (1000 * 2 ^ min (attempts - 1) 12)

-- `recordCleanupFailure`, with the error's message
unfoldable pub record_cleanup_failure : RunCell → String → CleanupRecord → ℕ → RunCell
record_cleanup_failure c message expected now = match_option c.cleanup c (λ cleanup.
    if is_current cleanup expected && not (is_tombstoned cleanup.phase)
    then record c {
      cleanup = some (record cleanup {
        generation = cleanup.generation + 1;
        attempts = cleanup.attempts + 1;
        last_error = some message;
        last_attempt_at = some now;
      });
      alarm = some (now + retry_delay (cleanup.attempts + 1));
    }
    else c)
