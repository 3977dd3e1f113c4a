-- ===== src/RunCell/Tests.antt =====
-- The theorems on the run's cell at concrete operations.
use world_celld.Common.{◌≤◌, inl, Bool, true, ℕ, refl, false, none, some, List, [], ◌∷◌, arith}
use world_celld.Apply.Dense.{Extends}
use world_celld.Apply.Trace.{empty, log-IsDense, apply_all}
use world_celld.Apply.Concrete.{hook_seed, plain, create, start, finish, owned}
use world_celld.Apply.Entities.{Run, RunStatus}
use world_celld.RunCell.Retention.{index, RunCell, cleanup_record, maximum_age}
use world_celld.RunCell.Steps.{CellOp, event, schedule, enforce, expire, step_all}
use world_celld.RunCell.Expiry.{Expired, Frozen, expiry_final}
use world_celld.RunCell.Journal.{journal_append_only}
use world_celld.RunCell.Ended.{IsCleaned, step_all-IsCleaned}
use world_celld.RunCell.Pages.{Cleaning, Answers, marker, registration, other, execute_all}
use world_celld.RunCell.Deletion.{IsDeleted, cleanup_completes}
use world_celld.RunCell.Lookups.{cancel_claims, resolve_expired_hook_claim}
use world_celld.RunCell.Payload.{
  QueuePayloadOrphan, OrphanCell, schedule_queue_payload_orphan, lease_orphan,
}
use world_celld.RunCell.Orphan.{orphan_step, OrphanOp, again, fire, orphan_steps, leased_not_before}
use world_celld.RunCell.Fence.{released_claim_never_commits}
use world_celld.Apply.Takeover.{Refused, creating}
use world_celld.Apply.Transaction.{Context}
use world_celld.Apply.{apply_event}
use world_celld.RunCell.Told.{In}
use world_celld.RunCell.Notified.{deleted_hooks_announced}

abbrev new_cell : RunCell
new_cell = record {
  state = empty;
  cleanup = none;
  tombstone = none;
  terminal_cleanup = none;
  hook_references = λ _ _. none;
  queue_scope = false;
  alarm = none;
}

-- A run is created, started, finished with a retention, and expired by its maximum age.
abbrev lifetime : List (ℕ × CellOp)
lifetime =
    (7, event create none)
    ∷ (7, event start none)
    ∷ (8, event finish (some 100))
    ∷ (9, enforce 50 60)
    ∷ (70, expire)
    ∷ []

journal_append_only_example : Extends plain empty (step_all plain new_cell lifetime).state
journal_append_only_example =
    journal_append_only plain lifetime new_cell (unfold apply_all in log-IsDense plain [])

abbrev aged_run : Run
aged_run = record {
  run_id = "run";
  deployment_id = "d";
  workflow_name = "w";
  spec_version = 5;
  execution_context = none;
  attributes = [];
  encryption_public_key = none;
  input = "in";
  status = RunStatus.running;
  output = none;
  error = none;
  started_at = some 7;
  completed_at = none;
  created_at = 7;
  updated_at = 7;
  expired_at = some 60;
}

abbrev aged_cell : RunCell
aged_cell = record new_cell {
  cleanup = some (cleanup_record plain aged_run 60 maximum_age);
  alarm = some 61;
}

-- An event, a hook and the terminal retention come after the deadline.
abbrev late : List (ℕ × CellOp)
late =
    (70, event finish (some 100)) ∷ (71, event owned none) ∷ (72, schedule 90) ∷ (80, expire) ∷ []

expiry_final_example :
    Expired 80 (step_all plain aged_cell late) × Frozen empty (step_all plain aged_cell late).state
expiry_final_example =
    expiry_final plain late aged_cell 65 refl
      (omega arith, (tt, (omega arith, (tt, (omega arith, (tt, (omega arith, (tt, tt))))))))

step_all-IsCleaned_example : IsCleaned plain (step_all plain new_cell lifetime)
step_all-IsCleaned_example = step_all-IsCleaned plain lifetime new_cell (λ h. ground (arith, h))

-- An expired run with a hook, a queue payload and its own row, whose pages are answered at once, but for
-- one call that fails.
abbrev deleting : Cleaning
deleting = record {
  cleanup = some (record (cleanup_record plain aged_run 50 maximum_age) { phase = index });
  tombstone = none;
  entries =
      record { key = "hook-marker:h"; value = marker (record { hook_id = "h"; token = "t" }) }
      ∷ record { key = "queue-payload:m"; value = registration "o" }
      ∷ record { key = "run"; value = other }
      ∷ [];
  alarm = some 60;
  expired_hooks = [];
  deleted_objects = [];
}

abbrev answered : Bool → Answers
answered works = record {
  now = 60;
  expire_run = works;
  expire_registry = some ("s" ∷ []);
  expire_stream = λ _ _ _. some (record { chunks = 3; bytes = 30; done = true });
  finalize_registry = λ names. some (1, true);
  delete_objects = true;
  message = "index";
}

abbrev page_answers : List Answers
page_answers =
    answered false
    ∷ answered true
    ∷ answered true
    ∷ answered true
    ∷ answered true
    ∷ answered true
    ∷ answered true
    ∷ answered true
    ∷ []

cleanup_completes_example : IsDeleted (execute_all page_answers deleting)
cleanup_completes_example =
    cleanup_completes page_answers deleting
      (record { paged = λ r same. ground (arith, same); ended = λ same. ground (arith, same) })
      (omega arith)

abbrev orphan_at : ℕ → QueuePayloadOrphan
orphan_at at = record { message_id = "m"; run_id = "r"; key = "o"; expires_at = at }

abbrev no_orphan : OrphanCell
no_orphan = record { orphan = none; alarm = none }

-- A schedule for an earlier time, and an alarm that comes too early.
abbrev orphan_ops : List OrphanOp
orphan_ops = again (orphan_at 30) ∷ fire 40 ∷ []

leased_not_before_example : 50 ≤ 60
unfolding schedule_queue_payload_orphan lease_orphan orphan_steps orphan_step
leased_not_before_example =
    leased_not_before no_orphan (orphan_at 50) orphan_ops 60
      (record { orphan = orphan_at 50; generation = 3; deleting = true }) refl refl

abbrev claiming : Context
claiming = record owned { hook_claim_id = some "c:c" }

-- The cell after it has answered that the hook of the claim `c` is not committed.
abbrev fenced_cell : RunCell
fenced_cell =
    cancel_claims new_cell "c" (record { hook_id = "new"; token = some "t"; canceled_at = 9 })

released_claim_never_commits_example :
    Refused
      (apply_event plain (creating claiming hook_seed) (step_all plain fenced_cell lifetime).state)
unfolding resolve_expired_hook_claim
released_claim_never_commits_example =
    released_claim_never_commits plain lifetime claiming hook_seed new_cell fenced_cell "new" "c"
      (some "t") 9 "c:c" refl refl refl (inl refl) refl

deleted_hooks_announced_example :
    In (record { hook_id = "h"; token = "t" }) (execute_all page_answers deleting).expired_hooks
deleted_hooks_announced_example =
    deleted_hooks_announced page_answers deleting (record { hook_id = "h"; token = "t" })
      (record { key = "hook-marker:h"; value = marker (record { hook_id = "h"; token = "t" }) })
      (record { indexed = λ r at. ground (arith, at); pending = refl; unique = refl }) (omega arith)
      (inl refl) refl
