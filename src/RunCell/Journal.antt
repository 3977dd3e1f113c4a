-- ===== src/RunCell/Journal.antt =====
-- The event log of the run's cell of `src/worker/durable-objects/WorkflowRunDO.ts` over all its
-- operations.
use world_celld.Common.{
  ℕ, String, ◌≡◌, ◌⊎◌, inl, inr, refl, Bool, true, false, Option, none, some, List, [], ◌∷◌, arith,
  Option-cases, Bool-cases, ap, sym, get_or,
}
use world_celld.Apply.Entities.{Run}
use world_celld.Apply.External.{Platform}
use world_celld.Apply.Transaction.{
  State, Context, Success, Result, returned, failed, done, thrown as event_thrown,
}
use world_celld.Apply.Rule.{Ensures}
use world_celld.Apply.Log.{IsLogProperty}
use world_celld.Apply.Dense.{
  IsDense, Extends, Extends-closed, Extends-refl, Extends-trans, apply_event-Extends,
}
use world_celld.Apply.Atomic.{FailureKeeps, apply_event-FailureKeeps}
use world_celld.Apply.Forced.{
  ForcedDisposal, disposal_event, journal_disposal, force_dropped, apply_forced_hook_disposal,
  resolve_forced_hook_claim,
}
use world_celld.Apply.{apply_event}
use world_celld.RunCell.Retention.{RunCell}
use world_celld.RunCell.Events.{
  after_event, after_disposal, after_success, apply_run_event, force_dispose_hook,
  resolve_forced_claim, resolve_hook_token_claim,
}
use world_celld.RunCell.Schedule.{
  schedule_cleanup, enforce_retention, expire_now, rearm_cleanup, execute_retained,
  set_cleanup_phase, record_cleanup_failure,
}
use world_celld.RunCell.Steps.{CellOp, event, dispose, settle_cell, step_cell, step_all}

-- Two states with the same log.
abbrev SameLog : State → State → Type 0
SameLog s t = (t.events ≡ s.events) × (t.sequence ≡ s.sequence)

-- The operations that may append to the log.
abbrev writes_log : CellOp → Bool
writes_log (event ctx retention) = true
writes_log (dispose r run_id) = true
writes_log _ = false

module _ (p : Platform) (c : RunCell) where
  after_success-SameLog :
      (ctx : Context) (ms : ℕ) (s : Success) (st : State)
      → SameLog c.state (settle_cell c (after_success p ctx c ms s st)).state
        ⊎ SameLog st (settle_cell c (after_success p ctx c ms s st)).state
  after_success-SameLog ctx ms s st = ground arith

  step_cell-SameLog :
      (now : ℕ) (op : CellOp) → writes_log op ≡ false → SameLog c.state (step_cell p c now op).state
  unfolding step_cell resolve_forced_claim resolve_hook_token_claim schedule_cleanup
      enforce_retention expire_now rearm_cleanup execute_retained set_cleanup_phase
      record_cleanup_failure resolve_forced_hook_claim
  step_cell-SameLog now (event ctx ms) h = ground (arith, h)
  step_cell-SameLog now (dispose r run_id) h = ground (arith, h)
  step_cell-SameLog now op h = ground arith

module _ (p : Platform) (P : State → Type 0) (closed : IsLogProperty p P) (c : RunCell)
    (start : P c.state) where
  -- A forced disposal leaves the log as it is, or appends its event in the next slot.
  journal_disposal-log :
      (r : ForcedDisposal) (run_id : String) (now : ℕ) (st : State) (run : Option Run)
      → SameLog c.state st
      → P (settle_cell c (after_disposal c (journal_disposal p r run_id now st run))).state
  journal_disposal-log r run_id now st none same = closed.same c.state st same.0 same.1 start
  journal_disposal-log r run_id now st (some run) same =
      let e = disposal_event p r run_id now st run in
      let kept = closed.same c.state st same.0 same.1 start in
      elim (Bool-cases (p.is_terminal_run run.status)) [
        | inl ended ↦ rw ended kept
        | inr live ↦ rw live (elim (Bool-cases (p.event_accepted e)) [
          | inl fine ↦ rw fine (closed.append st _ e refl refl refl kept)
          | inr bad ↦ rw bad start
        ])
      ]

  disposal-log :
      (r : ForcedDisposal) (run_id : String) (now : ℕ)
      → P (step_cell p c now (dispose r run_id)).state
  unfolding step_cell force_dispose_hook apply_forced_hook_disposal
  disposal-log r run_id now = elim (Option-cases (c.state.hooks r.hook_id)) [
    | inl gone ↦ ground (arith, start)
    | inr (h, at) ↦ ground (
      arith,
      start,
      journal_disposal-log r run_id now (force_dropped c.state r h) c.state.run (refl, refl),
    )
  ]

  after_event-log :
      (ctx : Context) (ms : ℕ) (r : Result)
      → Ensures P r
      → FailureKeeps c.state r
      → P (settle_cell c (after_event p ctx c ms r)).state
  after_event-log ctx ms event_thrown h k = start
  after_event-log ctx ms (returned (failed f) st) h k =
      closed.same st _ refl (ap (λ (s : State). s.sequence) (sym k)) h
  after_event-log ctx ms (returned (done s) st) h k = elim (after_success-SameLog p c ctx ms s st) [
    | inl (events, sequence) ↦ closed.same c.state _ events sequence start
    | inr (events, sequence) ↦ closed.same st _ events sequence h
  ]

  apply_run_event-log :
      (ctx : Context) (retention : Option ℕ)
      → Ensures P (apply_event p ctx c.state)
      → P (settle_cell c (apply_run_event p c ctx retention)).state
  unfolding apply_run_event
  apply_run_event-log ctx retention h = ground (
    arith,
    start,
    after_event-log ctx (get_or retention 0) (apply_event p ctx c.state) h
        (apply_event-FailureKeeps p ctx c.state),
  )

-- One operation keeps a dense log dense, and every stored event.
step_cell-Extends :
    (p : Platform) (c : RunCell) (now : ℕ) (op : CellOp)
    → IsDense p c.state
    → Extends p c.state (step_cell p c now op).state
unfolding step_cell
step_cell-Extends p c now (event ctx retention) d =
    apply_run_event-log p (Extends p c.state) (Extends-closed p c.state) c
      (Extends-refl p c.state d) (record ctx { now = now }) retention
      (apply_event-Extends p (record ctx { now = now }) c.state d)
step_cell-Extends p c now (dispose r run_id) d =
    disposal-log p (Extends p c.state) (Extends-closed p c.state) c (Extends-refl p c.state d) r
      run_id now
step_cell-Extends p c now op d =
    let (events, sequence) = step_cell-SameLog p c now op refl in
    (Extends-closed p c.state).same c.state _ events sequence (Extends-refl p c.state d)

-- Until the pages of its cleanup delete a run, its log is append-only: from a dense log, whatever
-- events, forced disposals, resolutions, schedulings, enforcements, calls of `cleanupNow`, rearmings,
-- phase changes and failures of its cleanup follow, the log is dense, the sequence has not fallen, and
-- every event that was stored is stored unchanged. The deletions are not among these steps.
pub journal_append_only :
    (p : Platform) (ops : List (ℕ × CellOp)) (c : RunCell)
    → IsDense p c.state
    → Extends p c.state (step_all p c ops).state
unfolding step_all
journal_append_only p [] c d = Extends-refl p c.state d
journal_append_only p ((now, op) ∷ later) c d =
    let next = step_cell-Extends p c now op d in
    Extends-trans p c.state (step_cell p c now op).state
      (step_all p (step_cell p c now op) later).state next
      (journal_append_only p later (step_cell p c now op) next.dense)
