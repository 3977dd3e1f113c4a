-- ===== src/Apply/Marked.antt =====
-- The creation markers of hooks under `applyEvent` of `src/apply-event.ts`.
use world_celld.Common.{
  ◌==◌, String, ◌≡◌, true, false, Option, none, some, arith, eq_iff, eq_refl, is_some,
}
use world_celld.Apply.Entities.{
  Run, EventData, Hook, HookReference, hook_created, hook_disposed, ForceClaim,
}
use world_celld.Apply.External.{Platform}
use world_celld.Apply.Transaction.{
  State, Context, RunCreated, Result, Success, thrown, returned, done,
}
use world_celld.Apply.Guards.{terminal_guard, step_guard, resume_guard, hook_guard, existence_guard}
use world_celld.Apply.Bootstrap.{bootstrap, observed_run}
use world_celld.Apply.RunCases.{apply_run_created, apply_run_started, finish_run, apply_attr_set}
use world_celld.Apply.StepCases.{
  apply_step_created, apply_step_started, apply_step_completed, apply_step_failed,
  apply_step_retrying, apply_wait_created, apply_wait_completed,
}
use world_celld.Apply.HookCases.{apply_hook_created, apply_hook_disposed, apply_event_only}
use world_celld.Apply.Rule.{Ensures, EnsuresIf, apply_event-rule}
use world_celld.Apply.Hooks.{Spent}
use world_celld.Apply.{apply_case, apply_guarded, apply_event}

abbrev HookHas : String → Option Hook → Option String → Type 0
HookHas id none marker = Unit
HookHas id (some h) marker = (h.hook_id ≡ id) × (is_some marker ≡ true)

abbrev ReleaseHas : Option HookReference → Option String → Type 0
ReleaseHas none marker = Unit
ReleaseHas (some r) marker = is_some marker ≡ true

abbrev MarkedAt : State → String → Type 0
MarkedAt st id =
    HookHas id (st.hooks id) (st.hook_markers id)
    × ReleaseHas (st.hook_releases id) (st.hook_markers id)

-- A stored hook stands under its own ID, and a stored or released one has its creation marker.
pub record IsMarked (st : State) : Type 0 where
  pub at : (id : String) → MarkedAt st id

module _ (p : Platform) (ctx : Context) where
  apply_case-IsMarked :
      (st : State) (current : Option Run) (boot : Option RunCreated) (content : EventData)
      → IsMarked st
      → (id : String) → Ensures (λ st'. MarkedAt st' id) (apply_case p ctx st current boot content)
  unfolding apply_case apply_run_created apply_run_started finish_run apply_attr_set
      apply_step_created apply_step_started apply_step_completed apply_step_failed
      apply_step_retrying apply_wait_created apply_wait_completed apply_hook_created
      apply_hook_disposed apply_event_only
  apply_case-IsMarked st current boot (hook_created seed) h id =
      ground (arith, eq_iff ctx.correlation_id id, h.at id)
  apply_case-IsMarked st current boot (hook_disposed by) h id =
      ground (arith, eq_iff ctx.correlation_id id, h.at id, h.at ctx.correlation_id)
  apply_case-IsMarked st current boot _ h id = ground (arith, h.at id)

  terminal_guard-IsMarked :
      (st : State) (current : Option Run)
      → IsMarked st
      → (id : String) → EnsuresIf (λ st'. MarkedAt st' id) (terminal_guard p ctx st current)
  unfolding terminal_guard
  terminal_guard-IsMarked st current h id = ground (arith, h.at id)

Ensures-IsMarked :
    (r : Result) → ((id : String) → Ensures (λ st. MarkedAt st id) r) → Ensures IsMarked r
Ensures-IsMarked thrown h = tt
Ensures-IsMarked (returned o st) h = record { at = h }

EnsuresIf-IsMarked :
    (g : Option Result)
    → ((id : String) → EnsuresIf (λ st. MarkedAt st id) g)
    → EnsuresIf IsMarked g
EnsuresIf-IsMarked none h = tt
EnsuresIf-IsMarked (some r) h = Ensures-IsMarked r h

-- Every event keeps that each stored hook stands under its own ID and that each stored or released
-- hook has the marker of its creation.
pub apply_event-IsMarked :
    (p : Platform) (ctx : Context) (st : State)
    → IsMarked st
    → Ensures IsMarked (apply_event p ctx st)
apply_event-IsMarked p ctx st h =
    apply_event-rule p ctx IsMarked
      (λ s k. EnsuresIf-IsMarked _ (terminal_guard-IsMarked p ctx s (observed_run ctx.content s) k))
      (λ s boot live k.
        Ensures-IsMarked _
          (apply_case-IsMarked p ctx s (observed_run ctx.content s) boot ctx.content k))
      st (λ seed fresh. record { at = h.at }) h

abbrev pub disposing : Context → Option ForceClaim → Context
disposing ctx by = record ctx { content = hook_disposed by }

-- A successful disposal, of a hook that is there or of one that was released before, leaves a hook
-- that was created once and is gone.
pub disposed-Spent :
    (p : Platform) (ctx : Context) (st st' : State) (by : Option ForceClaim) (s : Success)
    → IsMarked st
    → (ctx.correlation_id == "") ≡ false
    → apply_event p (disposing ctx by) st ≡ returned (done s) st'
    → Spent ctx.correlation_id st'
unfolding apply_event bootstrap apply_guarded terminal_guard hook_guard step_guard resume_guard
    existence_guard apply_case apply_hook_disposed
disposed-Spent p ctx st st' by s h named returns =
    ground
      (arith, h.at ctx.correlation_id, eq_iff ctx.correlation_id "", eq_refl ctx.correlation_id)
