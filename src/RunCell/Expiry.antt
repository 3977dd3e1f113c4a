-- ===== src/RunCell/Expiry.antt =====
-- The run's cell of `src/worker/durable-objects/WorkflowRunDO.ts` after its deadline.
use world_celld.Common.{ℕ, ◌≤◌, ◌≡◌, refl, true, false, List, [], ◌∷◌, arith, is_some}
use world_celld.Apply.External.{Platform}
use world_celld.Apply.Transaction.{State}
use world_celld.RunCell.Retention.{RunCell, tombstone_from, is_retained}
use world_celld.RunCell.Events.{
  apply_run_event, force_dispose_hook, resolve_forced_claim, resolve_hook_token_claim,
}
use world_celld.RunCell.Schedule.{
  schedule_cleanup, enforce_retention, expire_now, rearm_cleanup, execute_retained,
  set_cleanup_phase, record_cleanup_failure,
}
use world_celld.RunCell.Steps.{
  CellOp, event, dispose, resolve, resolve_token, schedule, enforce, expire, rearm, begin, advance,
  fail, step_cell, step_all,
}

-- The cell has a tombstone, or a cleanup record that is due or under way.
abbrev pub Expired : ℕ → RunCell → Type 0
Expired now c = is_some (tombstone_from c now) ≡ true

-- A page of the cleanup does not go back to the retained phase.
abbrev pub Forward : CellOp → Type 0
Forward (advance expected next updates at) = is_retained next ≡ false
Forward _ = Unit

-- The steps go forward, at times that do not decrease.
abbrev pub Timely : ℕ → List (ℕ × CellOp) → Type 0
Timely now [] = Unit
Timely now ((at, op) ∷ later) = (now ≤ at) × (Forward op × Timely at later)

abbrev pub last_time : ℕ → List (ℕ × CellOp) → ℕ
last_time now [] = now
last_time now ((at, op) ∷ later) = last_time at later

-- Nothing changed but the run itself, which carries its deadline.
abbrev pub Frozen : State → State → Type 0
Frozen s t = t ≡ record s { store = record s.store { run = t.store.run } }

step_cell-Expired :
    (p : Platform) (c : RunCell) (now at : ℕ) (op : CellOp)
    → Expired now c
    → now ≤ at
    → Forward op
    → Expired at (step_cell p c at op) × Frozen c.state (step_cell p c at op).state
unfolding step_cell apply_run_event force_dispose_hook resolve_forced_claim resolve_hook_token_claim
    schedule_cleanup enforce_retention expire_now rearm_cleanup execute_retained set_cleanup_phase
    record_cleanup_failure
step_cell-Expired p c now at (event ctx retention) h le f = ground arith
step_cell-Expired p c now at (dispose r run_id) h le f = ground arith
step_cell-Expired p c now at (resolve r) h le f = ground arith
step_cell-Expired p c now at (resolve_token hook_id token claim_id) h le f = ground arith
step_cell-Expired p c now at (schedule ms) h le f = ground arith
step_cell-Expired p c now at (enforce ms time) h le f = ground arith
step_cell-Expired p c now at expire h le f = ground arith
step_cell-Expired p c now at rearm h le f = ground arith
step_cell-Expired p c now at (begin cleanup) h le f = ground arith
step_cell-Expired p c now at (advance expected next updates t) h le f = ground arith
step_cell-Expired p c now at (fail message expected) h le f = ground arith

Frozen-trans : (r s t : State) → Frozen r s → Frozen s t → Frozen r t
Frozen-trans r s t h k = ground (arith, h, k)

-- Once a run has expired, and until the pages of its cleanup delete it, it stays expired, and its log,
-- its sequence and all its entities but the run stay as they are: whatever events, forced disposals,
-- resolutions, schedulings, enforcements, calls of `cleanupNow`, rearmings, phase changes and failures
-- of its cleanup follow, at times that do not decrease. The deletions are not among these steps.
pub expiry_final :
    (p : Platform) (ops : List (ℕ × CellOp)) (c : RunCell) (now : ℕ)
    → Expired now c
    → Timely now ops
    → Expired (last_time now ops) (step_all p c ops) × Frozen c.state (step_all p c ops).state
unfolding step_all
expiry_final p [] c now h t = (h, refl)
expiry_final p ((at, op) ∷ later) c now h t =
    let (le, (forward, timely)) = t in
    let (next, frozen) = step_cell-Expired p c now at op h le forward in
    let (last, kept) = expiry_final p later (step_cell p c at op) at next timely in
    (
      last,
      Frozen-trans c.state (step_cell p c at op).state
          (step_all p (step_cell p c at op) later).state frozen kept,
    )
