-- ===== src/RunCell/Fence.antt =====
-- The claim of a hook that a shard has had resolved, in `src/worker/durable-objects/WorkflowRunDO.ts`.
use Prim.Native.String.{◌++◌}
use world_celld.Common.{
  ℕ, String, ◌≡◌, ◌⊎◌, inl, inr, false, Option, none, some, List, [], ◌∷◌, arith, eq_iff, eq_refl,
  truthy, get_or,
}
use world_celld.Apply.Entities.{HookSeed}
use world_celld.Apply.External.{Platform}
use world_celld.Apply.Transaction.{Context, Result, returned, failed, done, thrown as event_thrown}
use world_celld.Apply.Guards.{terminal_run}
use world_celld.Apply.{apply_event}
use world_celld.Apply.Takeover.{Fenced, apply_event-Fenced, Fenced-Refused, Refused, creating}
use world_celld.Apply.Rule.{Ensures}
use world_celld.Apply.Forced.{apply_forced_hook_disposal, resolve_forced_hook_claim}
use world_celld.RunCell.Retention.{RunCell, settled, tombstone_from}
use world_celld.RunCell.Events.{
  after_event, apply_run_event, force_dispose_hook, resolve_forced_claim, resolve_hook_token_claim,
}
use world_celld.RunCell.Schedule.{
  schedule_cleanup, enforce_retention, expire_now, rearm_cleanup, execute_retained,
  set_cleanup_phase, record_cleanup_failure,
}
use world_celld.RunCell.Steps.{CellOp, event, settle_cell, step_cell, step_all}
use world_celld.RunCell.Lookups.{resolve_expired_hook_claim}

resolve_expired-Fenced :
    (p : Platform) (c c' : RunCell) (hook_id claim_id : String) (token : Option String) (now : ℕ)
    → tombstone_from c now ≡ none
    → terminal_run p c.state.store.run ≡ false
    → resolve_expired_hook_claim p c hook_id claim_id token now ≡ settled none c'
    → Fenced (claim_id ++ ":" ++ claim_id) c'.state × Fenced ("-:" ++ claim_id) c'.state
unfolding resolve_expired_hook_claim
resolve_expired-Fenced p c c' hook_id claim_id token now unexpired live answer = ground (
  arith,
  answer,
  live,
  unexpired,
  eq_refl ("-:" ++ claim_id),
  eq_refl (claim_id ++ ":" ++ claim_id),
  eq_iff ("-:" ++ claim_id) (claim_id ++ ":" ++ claim_id),
)

module _ (p : Platform) (claim : String) where
  FencedCell : RunCell → Type 0
  FencedCell c = Fenced claim c.state

  after_event-Fenced :
      (c : RunCell) (ctx : Context) (ms : ℕ) (r : Result)
      → FencedCell c
      → Ensures (Fenced claim) r
      → FencedCell (settle_cell c (after_event p ctx c ms r))
  unfolding FencedCell
  after_event-Fenced c ctx ms event_thrown h e = h
  after_event-Fenced c ctx ms (returned (failed f) st) h e = ground (arith, h, e)
  after_event-Fenced c ctx ms (returned (done s) st) h e = ground (arith, h, e)

  step_cell-Fenced :
      (c : RunCell) (now : ℕ) (op : CellOp) → FencedCell c → FencedCell (step_cell p c now op)
  unfolding FencedCell step_cell apply_run_event force_dispose_hook resolve_forced_claim
      resolve_hook_token_claim schedule_cleanup enforce_retention expire_now rearm_cleanup
      execute_retained set_cleanup_phase record_cleanup_failure apply_forced_hook_disposal
      resolve_forced_hook_claim
  step_cell-Fenced c now (event ctx retention) h = ground (
    arith,
    h,
    after_event-Fenced c (record ctx { now = now }) (get_or retention 0)
        (apply_event p (record ctx { now = now }) c.state) h
        (apply_event-Fenced p (record ctx { now = now }) c.state claim h),
  )
  step_cell-Fenced c now op h = ground (arith, h)

  step_all-Fenced :
      (ops : List (ℕ × CellOp)) (c : RunCell) → FencedCell c → FencedCell (step_all p c ops)
  unfolding step_all
  step_all-Fenced [] c h = h
  step_all-Fenced ((now, op) ∷ later) c h =
      step_all-Fenced later (step_cell p c now op) (step_cell-Fenced c now op h)

-- When a run that has neither expired nor ended answers that the hook of an expired claim is not
-- committed, then after any events, takeovers, resolutions and steps of its cleanup before the pages
-- that delete, a creation of a hook under either form of the claim ID does not succeed.
pub released_claim_never_commits :
    (p : Platform) (ops : List (ℕ × CellOp)) (ctx : Context) (seed : HookSeed) (c c' : RunCell)
    (hook_id claim_id : String) (token : Option String) (now : ℕ) (claim : String)
    → tombstone_from c now ≡ none
    → terminal_run p c.state.store.run ≡ false
    → resolve_expired_hook_claim p c hook_id claim_id token now ≡ settled none c'
    → (claim ≡ (claim_id ++ ":" ++ claim_id)) ⊎ (claim ≡ ("-:" ++ claim_id))
    → truthy ctx.hook_claim_id ≡ some claim
    → Refused (apply_event p (creating ctx seed) (step_all p c' ops).state)
unfolding FencedCell
released_claim_never_commits p ops ctx seed c c' hook_id claim_id token now claim unexpired live
      answer (inl same) claims =
    let fenced = resolve_expired-Fenced p c c' hook_id claim_id token now unexpired live answer in
    Fenced-Refused p ctx seed _ claim claims (step_all-Fenced p claim ops c' (rw same fenced.0))
released_claim_never_commits p ops ctx seed c c' hook_id claim_id token now claim unexpired live
      answer (inr same) claims =
    let fenced = resolve_expired-Fenced p c c' hook_id claim_id token now unexpired live answer in
    Fenced-Refused p ctx seed _ claim claims (step_all-Fenced p claim ops c' (rw same fenced.1))
