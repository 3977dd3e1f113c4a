-- ===== src/RunCell/Steps.antt =====
-- The operations of a run's cell as steps, each at a time of the cell's clock.
use world_celld.Common.{ℕ, String, Option, List, [], ◌∷◌}
use world_celld.Apply.External.{Platform}
use world_celld.Apply.Transaction.{Context}
use world_celld.Apply.Forced.{ForcedDisposal, ForcedClaim}
use world_celld.RunCell.Retention.{
  RunCell, CellResult, thrown, settled, CleanupRecord, CleanupPhase,
}
use world_celld.RunCell.Events.{
  apply_run_event, force_dispose_hook, resolve_forced_claim, resolve_hook_token_claim,
}
use world_celld.RunCell.Schedule.{
  PhaseUpdates, schedule_cleanup, enforce_retention, expire_now, rearm_cleanup, execute_retained,
  set_cleanup_phase, record_cleanup_failure,
}

-- Not among them: the pages that delete, which are `deletePayloadBatch` and the rest of Pages.antt, and
-- the terminal cleanup of hooks and waits.
pub data CellOp : Type 0 where
  event : Context → Option ℕ → CellOp
  dispose : ForcedDisposal → String → CellOp
  resolve : ForcedClaim → CellOp
  resolve_token : (hook_id token claim_id : String) → CellOp
  schedule : ℕ → CellOp
  enforce : (retention_ms scheduled_time : ℕ) → CellOp
  expire rearm : CellOp
  begin : CleanupRecord → CellOp
  advance : CleanupRecord → CleanupPhase → PhaseUpdates → Option ℕ → CellOp
  fail : String → CleanupRecord → CellOp

abbrev pub settle_cell : {A : Type 0} → RunCell → CellResult A → RunCell
settle_cell c thrown = c
settle_cell c (settled a c') = c'

-- An event is applied at the time of the step.
unfoldable pub step_cell : Platform → RunCell → ℕ → CellOp → RunCell
step_cell p c now (event ctx retention) =
    settle_cell c (apply_run_event p c (record ctx { now = now }) retention)
step_cell p c now (dispose r run_id) = settle_cell c (force_dispose_hook p c r run_id now)
step_cell p c now (resolve r) = settle_cell c (resolve_forced_claim p c r now)
step_cell p c now (resolve_token hook_id token claim_id) =
    settle_cell c (resolve_hook_token_claim c hook_id token claim_id now)
step_cell p c now (schedule retention_ms) = settle_cell c (schedule_cleanup p c retention_ms now)
step_cell p c now (enforce retention_ms scheduled_time) =
    settle_cell c (enforce_retention p c retention_ms scheduled_time now)
step_cell p c now expire = settle_cell c (expire_now p c now)
step_cell p c now rearm = rearm_cleanup c now
step_cell p c now (begin cleanup) = execute_retained c cleanup now
step_cell p c now (advance expected next updates at) = set_cleanup_phase c expected next updates at
step_cell p c now (fail message expected) = record_cleanup_failure c message expected now

unfoldable pub step_all : Platform → RunCell → List (ℕ × CellOp) → RunCell
step_all p c [] = c
step_all p c ((now, op) ∷ later) = step_all p (step_cell p c now op) later
