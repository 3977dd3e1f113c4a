-- ===== src/Apply/Takeover.antt =====
-- Cancelled reservations and repeated disposals in a forced takeover of `src/apply-event.ts`.
use Prim.Native.String.{◌++◌}
use world_celld.Common.{
  ℕ, String, ◌≡◌, true, false, Option, none, some, arith, eq_iff, eq_refl, is_some, truthy,
}
use world_celld.Apply.Entities.{Run, EventData, HookSeed, run_created, hook_created}
use world_celld.Apply.External.{Platform}
use world_celld.Apply.Transaction.{
  State, Context, RunCreated, Result, thrown, returned, failed, done,
}
use world_celld.Apply.Guards.{
  terminal_guard, terminal_run, step_guard, resume_guard, hook_guard, existence_guard,
}
use world_celld.Apply.Bootstrap.{bootstrap, observed_run}
use world_celld.Apply.RunCases.{apply_run_created, apply_run_started, finish_run, apply_attr_set}
use world_celld.Apply.StepCases.{
  apply_step_created, apply_step_started, apply_step_completed, apply_step_failed,
  apply_step_retrying, apply_wait_created, apply_wait_completed,
}
use world_celld.Apply.HookCases.{apply_hook_created, apply_hook_disposed, apply_event_only}
use world_celld.Apply.Rule.{Ensures, EnsuresIf, apply_event-rule}
use world_celld.Apply.Forced.{
  ForcedDisposal, ForcedClaim, journaled, claim_of, apply_forced_hook_disposal,
  resolve_forced_hook_claim,
}
use world_celld.Apply.{apply_case, apply_guarded, apply_event}

-- The reservation with this claim ID is cancelled.
abbrev pub Fenced : String → State → Type 0
Fenced claim st = is_some (st.hook_cancellations claim) ≡ true

module _ (p : Platform) (ctx : Context) (claim : String) where
  apply_case-Fenced :
      (st : State) (current : Option Run) (boot : Option RunCreated) (content : EventData)
      → Fenced claim st
      → Ensures (Fenced claim) (apply_case p ctx st current boot content)
  unfolding apply_case apply_run_created apply_run_started finish_run apply_attr_set
      apply_step_created apply_step_started apply_step_completed apply_step_failed
      apply_step_retrying apply_wait_created apply_wait_completed apply_hook_created
      apply_hook_disposed apply_event_only
  apply_case-Fenced st current boot (run_created seed) h = ground arith
  apply_case-Fenced st current boot _ h = ground arith

  terminal_guard-Fenced :
      (st : State) (current : Option Run)
      → Fenced claim st
      → EnsuresIf (Fenced claim) (terminal_guard p ctx st current)
  unfolding terminal_guard
  terminal_guard-Fenced st current h = ground arith

-- A cancelled reservation stays cancelled, whatever event is applied.
pub apply_event-Fenced :
    (p : Platform) (ctx : Context) (st : State) (claim : String)
    → Fenced claim st
    → Ensures (Fenced claim) (apply_event p ctx st)
apply_event-Fenced p ctx st claim h =
    apply_event-rule p ctx (Fenced claim)
      (λ s k. terminal_guard-Fenced p ctx claim s (observed_run ctx.content s) k)
      (λ s boot live k.
        apply_case-Fenced p ctx claim s (observed_run ctx.content s) boot ctx.content k)
      st (λ seed fresh. h) h

abbrev pub creating : Context → HookSeed → Context
creating ctx seed = record ctx { content = hook_created seed }

abbrev pub Refused : Result → Type 0
Refused thrown = Unit
Refused (returned (failed f) st) = Unit
Refused (returned (done s) st) = ⊥

pub Fenced-Refused :
    (p : Platform) (ctx : Context) (seed : HookSeed) (st : State) (claim : String)
    → truthy ctx.hook_claim_id ≡ some claim
    → Fenced claim st
    → Refused (apply_event p (creating ctx seed) st)
unfolding apply_event bootstrap apply_guarded terminal_guard step_guard resume_guard hook_guard
    existence_guard apply_case apply_hook_created
Fenced-Refused p ctx seed st claim claims fenced = ground (arith, p.hook_created_is_child seed)

-- When a forced takeover is resolved as not journaled, both forms of the claim ID are cancelled.
pub resolve-Fenced :
    (p : Platform) (st : State) (r : ForcedClaim) (now : ℕ)
    → (resolve_forced_hook_claim p st r now).0.journaled ≡ false
    → Fenced (r.claim_id ++ ":" ++ r.claim_id) (resolve_forced_hook_claim p st r now).1
      × Fenced ("-:" ++ r.claim_id) (resolve_forced_hook_claim p st r now).1
unfolding resolve_forced_hook_claim
resolve-Fenced p st r now lost = ground (
  arith,
  eq_refl ("-:" ++ r.claim_id),
  eq_refl (r.claim_id ++ ":" ++ r.claim_id),
  eq_iff ("-:" ++ r.claim_id) (r.claim_id ++ ":" ++ r.claim_id),
)

module _ (p : Platform) (st st' : State) (r : ForcedDisposal) (run_id : String) (now : ℕ)
    (taken : apply_forced_hook_disposal p st r run_id now ≡ journaled true st') where
  -- The victim's run after a journaled disposal.
  disposal_facts :
      (st'.hooks r.hook_id ≡ none)
      × (st'.force_claims r.hook_id ≡ some (claim_of r))
      × (st'.run ≡ st.run)
      × (terminal_run p st.run ≡ false)
      × (is_some st.run ≡ true)
  unfolding apply_forced_hook_disposal
  disposal_facts = ground (arith, eq_refl r.hook_id)

  -- After a journaled forced disposal of a hook, a second one is not journaled and changes nothing,
  -- whoever claims it.
  disposal_once :
      (r' : ForcedDisposal) (run_id' : String) (now' : ℕ)
      → r'.hook_id ≡ r.hook_id
      → apply_forced_hook_disposal p st' r' run_id' now' ≡ journaled false st'
  disposal_once r' run_id' now' same =
      let (gone, claimed, runs, live, present) = disposal_facts in
      unfold apply_forced_hook_disposal in ground (arith, claimed)
