-- ===== src/RunCell/Ended.antt =====
-- The terminal cleanup of the run's cell of `src/worker/durable-objects/WorkflowRunDO.ts`.
use world_celld.Common.{ℕ, ◌≡◌, true, List, [], ◌∷◌, arith, is_some, get_or}
use world_celld.Apply.External.{Platform}
use world_celld.Apply.Transaction.{Context, Result, returned, failed, done, thrown as event_thrown}
use world_celld.Apply.Guards.{terminal_run}
use world_celld.Apply.Atomic.{FailureKeeps, apply_event-FailureKeeps}
use world_celld.Apply.Announce.{Announces, apply_event-Announces}
use world_celld.Apply.Forced.{apply_forced_hook_disposal, resolve_forced_hook_claim}
use world_celld.Apply.{apply_event}
use world_celld.RunCell.Retention.{RunCell}
use world_celld.RunCell.Events.{
  after_event, apply_run_event, force_dispose_hook, resolve_forced_claim, resolve_hook_token_claim,
}
use world_celld.RunCell.Schedule.{
  schedule_cleanup, enforce_retention, expire_now, rearm_cleanup, execute_retained,
  set_cleanup_phase, record_cleanup_failure,
}
use world_celld.RunCell.Steps.{CellOp, event, settle_cell, step_cell, step_all}

-- A run in a terminal status has a terminal cleanup.
abbrev pub IsCleaned : Platform → RunCell → Type 0
IsCleaned p c = terminal_run p c.state.run ≡ true → is_some c.terminal_cleanup ≡ true

module _ (p : Platform) (c : RunCell) (start : IsCleaned p c) where
  after_event-IsCleaned :
      (ctx : Context) (ms : ℕ) (r : Result)
      → Announces p c.state r
      → FailureKeeps c.state r
      → IsCleaned p (settle_cell c (after_event p ctx c ms r))
  after_event-IsCleaned ctx ms event_thrown a k = start
  after_event-IsCleaned ctx ms (returned (failed f) st) a k = ground (arith, start, k)
  after_event-IsCleaned ctx ms (returned (done s) st) a k = ground (arith, start, a)

  step_cell-IsCleaned : (now : ℕ) (op : CellOp) → IsCleaned p (step_cell p c now op)
  unfolding step_cell apply_run_event force_dispose_hook resolve_forced_claim
      resolve_hook_token_claim schedule_cleanup enforce_retention expire_now rearm_cleanup
      execute_retained set_cleanup_phase record_cleanup_failure apply_forced_hook_disposal
      resolve_forced_hook_claim
  step_cell-IsCleaned now (event ctx retention) = ground (
    arith,
    start,
    after_event-IsCleaned (record ctx { now = now }) (get_or retention 0)
        (apply_event p (record ctx { now = now }) c.state)
        (apply_event-Announces p (record ctx { now = now }) c.state)
        (apply_event-FailureKeeps p (record ctx { now = now }) c.state),
  )
  step_cell-IsCleaned now op = ground (arith, start)

-- From a cell where it holds, a run in a terminal status has a terminal cleanup until the pages of
-- that cleanup end it: whatever events, forced disposals, resolutions, schedulings, enforcements, calls
-- of `cleanupNow`, rearmings, phase changes and failures of the retention's cleanup follow. The pages
-- of the terminal cleanup are not among these steps.
pub step_all-IsCleaned :
    (p : Platform) (ops : List (ℕ × CellOp)) (c : RunCell)
    → IsCleaned p c
    → IsCleaned p (step_all p c ops)
unfolding step_all
step_all-IsCleaned p [] c h = h
step_all-IsCleaned p ((now, op) ∷ later) c h =
    step_all-IsCleaned p later (step_cell p c now op) (step_cell-IsCleaned p c h now op)
