-- ===== src/Apply/Claimer.antt =====
-- Deliveries to a hook after `applyForcedHookDisposal` of `src/apply-event.ts`.
use world_celld.Common.{
  String, ◌≡◌, true, Option, none, arith, ℕ, false, some, List, eqb, truthy, eq_refl, ◌==◌,
}
use world_celld.Apply.Entities.{Run, EventData, Payload, ForceClaim}
use world_celld.Apply.External.{Platform}
use world_celld.Apply.Transaction.{State, Context, RunCreated, effective_spec}
use world_celld.Apply.Guards.{terminal_guard, force_claimed, step_guard, resume_guard, hook_guard}
use world_celld.Apply.Bootstrap.{observed_run, bootstrap}
use world_celld.Apply.RunCases.{apply_run_created, apply_run_started, finish_run, apply_attr_set}
use world_celld.Apply.StepCases.{
  apply_step_created, apply_step_started, apply_step_completed, apply_step_failed,
  apply_step_retrying, apply_wait_created, apply_wait_completed,
}
use world_celld.Apply.HookCases.{apply_hook_created, apply_hook_disposed, apply_event_only}
use world_celld.Apply.Rule.{Ensures, EnsuresIf, apply_event-rule}
use world_celld.Apply.{apply_case, apply_event, apply_guarded}
use world_celld.Apply.Marked.{IsMarked}
use world_celld.Apply.Resume.{delivering}
use world_celld.Apply.Forced.{ForcedDisposal, journaled, claim_of, apply_forced_hook_disposal}
use world_celld.Apply.Trace.{apply_all, taken_over-Spent, apply_all-keeps}

-- The hook was taken over by the claimer that the marker names.
abbrev Claimed : String → ForceClaim → State → Type 0
Claimed id claim st = st.force_claims id ≡ some claim

module _ (p : Platform) (ctx : Context) (id : String) (claim : ForceClaim) where
  apply_case-Claimed :
      (st : State) (current : Option Run) (boot : Option RunCreated) (content : EventData)
      → Claimed id claim st
      → Ensures (Claimed id claim) (apply_case p ctx st current boot content)
  unfolding apply_case apply_run_created apply_run_started finish_run apply_attr_set
      apply_step_created apply_step_started apply_step_completed apply_step_failed
      apply_step_retrying apply_wait_created apply_wait_completed apply_hook_created
      apply_hook_disposed apply_event_only
  apply_case-Claimed st current boot _ h = ground arith

  terminal_guard-Claimed :
      (st : State) (current : Option Run)
      → Claimed id claim st
      → EnsuresIf (Claimed id claim) (terminal_guard p ctx st current)
  unfolding terminal_guard
  terminal_guard-Claimed st current h = ground arith

  apply_event-Claimed :
      (st : State) → Claimed id claim st → Ensures (Claimed id claim) (apply_event p ctx st)
  apply_event-Claimed st h =
      apply_event-rule p ctx (Claimed id claim)
        (λ s k. terminal_guard-Claimed s (observed_run ctx.content s) k)
        (λ s boot live k. apply_case-Claimed s (observed_run ctx.content s) boot ctx.content k) st
        (λ seed fresh. h) h

-- How a hook that is gone and was taken over answers a delivery.
claimed_answer :
    (p : Platform) (ctx : Context) (payload : Payload) (st : State) (run : Run) (claim : ForceClaim)
    → (ctx.correlation_id == "") ≡ false
    → truthy ctx.params.resume_id ≡ none
    → eqb (effective_spec p ctx) p.spec_version_current ≡ true
    → st.run ≡ some run
    → p.is_terminal_run run.status ≡ false
    → eqb run.spec_version p.spec_version_current ≡ true
    → st.hooks ctx.correlation_id ≡ none
    → st.force_claims ctx.correlation_id ≡ some claim
    → apply_event p (delivering ctx payload) st ≡ force_claimed claim st
unfolding apply_event bootstrap apply_guarded terminal_guard step_guard resume_guard hook_guard
claimed_answer p ctx payload st run claim named fresh version at live spec gone claimed =
    ground arith

taken-Claimed :
    (p : Platform) (st st' : State) (r : ForcedDisposal) (run_id : String) (now : ℕ)
    → apply_forced_hook_disposal p st r run_id now ≡ journaled true st'
    → Claimed r.hook_id (claim_of r) st'
unfolding apply_forced_hook_disposal
taken-Claimed p st st' r run_id now taken = ground (arith, eq_refl r.hook_id)

-- After a journaled forced disposal of a hook, whatever events follow, while the run is live and of
-- the current version, a delivery to the hook without a resume ID, of the current version, is refused
-- with the claimer of the disposal, and writes nothing.
pub takeover_names_claimer :
    (p : Platform) (st st' : State) (r : ForcedDisposal) (run_id : String) (now : ℕ)
    (ctxs : List Context) (ctx : Context) (payload : Payload) (run : Run)
    → IsMarked st
    → apply_forced_hook_disposal p st r run_id now ≡ journaled true st'
    → (ctx.correlation_id == "") ≡ false
    → ctx.correlation_id ≡ r.hook_id
    → truthy ctx.params.resume_id ≡ none
    → eqb (effective_spec p ctx) p.spec_version_current ≡ true
    → (apply_all p ctxs st').run ≡ some run
    → p.is_terminal_run run.status ≡ false
    → eqb run.spec_version p.spec_version_current ≡ true
    → apply_event p (delivering ctx payload) (apply_all p ctxs st')
      ≡ force_claimed (claim_of r) (apply_all p ctxs st')
takeover_names_claimer p st st' r run_id now ctxs ctx payload run h taken named same fresh version
      at live spec =
    let gone = taken_over-Spent p st st' r run_id now ctxs h taken in
    let claimed =
      apply_all-keeps p (Claimed r.hook_id (claim_of r))
        (λ c t k. apply_event-Claimed p c r.hook_id (claim_of r) t k) ctxs st'
        (taken-Claimed p st st' r run_id now taken) in
    claimed_answer p ctx payload (apply_all p ctxs st') run (claim_of r) named fresh version at live
      spec (rw same gone.1) (rw same claimed)
