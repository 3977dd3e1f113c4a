-- ===== src/RunCell/Retention.antt =====
-- The retention records of a run's cell (`src/retention.ts`), and the cell's storage with them
-- (`src/worker/durable-objects/WorkflowRunDO.ts`).
use world_celld.Common.{
  ℕ, ◌+◌, String, Bool, true, false, ◌&&◌, Option, none, some, leb, ltb, get_or, match_option,
  if◌then◌else◌,
}
use world_celld.Apply.Entities.{Run, RunStatus, HookReference}
use world_celld.Apply.External.{Platform}
use world_celld.Apply.Transaction.{State}

pub data CleanupPhase : Type 0 where
  retained index streams queues payload tombstoned : CleanupPhase

pub data CleanupReason : Type 0 where
  terminal_retention maximum_age manual : CleanupReason

pub record CleanupRecord : Type 0 where
  pub run_id : String
  pub workflow_name : String
  pub created_at : ℕ
  pub status : Option RunStatus
  pub completed_at : Option ℕ
  pub terminal_status : Option RunStatus
  pub reason : Option CleanupReason
  pub due_at : ℕ
  pub phase : CleanupPhase
  pub generation : ℕ
  pub attempts : ℕ
  pub last_error : Option String
  pub last_attempt_at : Option ℕ
  pub tombstoned_at : Option ℕ
  pub deleted_payload_keys : ℕ
  pub deleted_streams : ℕ
  pub deleted_queue_payloads : ℕ

pub record RunTombstone : Type 0 where
  pub run_id : String
  pub status : Option RunStatus
  pub completed_at : Option ℕ
  pub terminal_status : Option RunStatus
  pub expired_at : ℕ
  pub tombstoned_at : ℕ
  pub cleanup : CleanupRecord

pub data TerminalPhase : Type 0 where
  hooks markers waits : TerminalPhase

pub record TerminalCleanupRecord : Type 0 where
  pub run_id : String
  pub phase : TerminalPhase
  pub generation : ℕ
  pub attempts : ℕ
  pub last_error : Option String
  pub last_attempt_at : Option ℕ

-- What the cell stores; `hook_references` is keyed by hook ID and token, and `queue_scope` is set
-- where the run keeps its queue claims in its own cell.
pub record RunCell : Type 0 where
  pub state : State
  pub cleanup : Option CleanupRecord
  pub tombstone : Option RunTombstone
  pub terminal_cleanup : Option TerminalCleanupRecord
  pub hook_references : String → String → Option HookReference
  pub queue_scope : Bool
  pub alarm : Option ℕ

-- A call that throws is rolled back.
pub data CellResult (A : Type 0) : Type 0 where
  thrown : CellResult A
  settled : A → RunCell → CellResult A

-- `MAX_DATE_MS`
abbrev pub max_date_ms : ℕ
max_date_ms = 8640000000000000

-- `retentionDeadline`, which throws out of range
abbrev pub retention_deadline : ℕ → ℕ → Option ℕ
retention_deadline base_ms retention_ms =
    if leb (base_ms + retention_ms) max_date_ms then some (base_ms + retention_ms) else none

-- The deadline of a run that has ended; without its completion time the code throws.
abbrev pub terminal_deadline : Run → ℕ → Option ℕ
terminal_deadline r retention_ms =
    match_option r.completed_at none (λ at. retention_deadline at retention_ms)

abbrev pub terminal_part {ℓ} : {A : Type ℓ} → Platform → Run → Option A → Option A
terminal_part p r a = if p.is_terminal_run r.status then a else none

-- `cleanupRecord`
abbrev pub cleanup_record : Platform → Run → ℕ → CleanupReason → CleanupRecord
cleanup_record p r due_at reason = record {
  run_id = r.run_id;
  workflow_name = r.workflow_name;
  created_at = r.created_at;
  status = some r.status;
  completed_at = terminal_part p r r.completed_at;
  terminal_status = terminal_part p r (some r.status);
  reason = some reason;
  due_at = due_at;
  phase = retained;
  generation = 0;
  attempts = 0;
  last_error = none;
  last_attempt_at = none;
  tombstoned_at = none;
  deleted_payload_keys = 0;
  deleted_streams = 0;
  deleted_queue_payloads = 0;
}

abbrev pub or_status : Option RunStatus → Option RunStatus → Option RunStatus
or_status none b = b
or_status (some a) b = some a

-- `cleanupTombstone`
abbrev pub cleanup_tombstone : CleanupRecord → ℕ → RunTombstone
cleanup_tombstone r now = record {
  run_id = r.run_id;
  status = or_status r.status r.terminal_status;
  completed_at = r.completed_at;
  terminal_status = r.terminal_status;
  expired_at = r.due_at;
  tombstoned_at = now;
  cleanup = record r { phase = tombstoned; tombstoned_at = some now };
}

abbrev pub is_retained : CleanupPhase → Bool
is_retained retained = true
is_retained _ = false

abbrev pub is_tombstoned : CleanupPhase → Bool
is_tombstoned tombstoned = true
is_tombstoned _ = false

abbrev pub logical_tombstone : Option CleanupRecord → ℕ → Option RunTombstone
logical_tombstone none now = none
logical_tombstone (some r) now =
    if is_retained r.phase && ltb now r.due_at
    then none
    else some (cleanup_tombstone r (get_or r.tombstoned_at r.due_at))

-- `tombstoneFrom`
abbrev pub tombstone_from : RunCell → ℕ → Option RunTombstone
tombstone_from c now = elim c.tombstone [ some t ↦ some t | none ↦ logical_tombstone c.cleanup now ]

abbrev pub with_run : RunCell → Run → RunCell
with_run c r = record c { state = record c.state { store = record c.state.store { run = some r } } }

abbrev pub run_expiring : Run → ℕ → Run
run_expiring r due_at = record r { expired_at = some due_at }
