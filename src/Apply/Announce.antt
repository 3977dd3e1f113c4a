-- ===== src/Apply/Announce.antt =====
-- The run in the outcome of `applyEvent` in `src/apply-event.ts`, which its cell looks at.
use world_celld.Common.{◌≡◌, false, Option, none, some, arith, inl, inr, Option-cases, ◌⊎◌}
use world_celld.Apply.Entities.{
  Run, EventData, run_started, run_created, run_completed, run_failed, run_cancelled, attr_set,
  step_created, step_started, step_completed, step_failed, step_retrying, hook_created,
  hook_received, hook_disposed, hook_conflict, wait_created, wait_completed,
}
use world_celld.Apply.External.{Platform}
use world_celld.Apply.Transaction.{
  State, Context, RunCreated, Result, thrown, returned, failed, done,
}
use world_celld.Apply.Guards.{
  terminal_guard, step_guard, resume_guard, hook_guard, existence_guard, terminal_run,
}
use world_celld.Apply.Bootstrap.{bootstrap, bootstrap_seed, observed_run, new_run}
use world_celld.Apply.RunCases.{apply_run_created, apply_run_started, finish_run, apply_attr_set}
use world_celld.Apply.StepCases.{
  apply_step_created, apply_step_started, apply_step_completed, apply_step_failed,
  apply_step_retrying, apply_wait_created, apply_wait_completed,
}
use world_celld.Apply.HookCases.{apply_hook_created, apply_hook_disposed, apply_event_only}
use world_celld.Apply.Rule.{booted}
use world_celld.Apply.{apply_case, apply_guarded, apply_event}

-- A successful event leaves the stored run as it was, or live, or returns it.
abbrev pub Announces : Platform → State → Result → Type 0
Announces p st thrown = Unit
Announces p st (returned (failed f) st') = Unit
Announces p st (returned (done s) st') =
    (st'.run ≡ st.run) ⊎ ((terminal_run p st'.run ≡ false) ⊎ (s.run ≡ st'.run))

module _ (p : Platform) (ctx : Context) (st : State) where
  apply_case-Announces :
      (current : Option Run) (boot : Option RunCreated) (content : EventData)
      → Announces p st (apply_case p ctx st current boot content)
  unfolding apply_case apply_run_created apply_run_started finish_run apply_attr_set
      apply_step_created apply_step_started apply_step_completed apply_step_failed
      apply_step_retrying apply_wait_created apply_wait_completed apply_hook_created
      apply_hook_disposed apply_event_only
  apply_case-Announces current boot (run_created seed) = ground arith
  apply_case-Announces current boot (run_started seed) = ground arith
  apply_case-Announces current boot (run_completed output) = ground arith
  apply_case-Announces current boot (run_failed error code) = ground arith
  apply_case-Announces current boot run_cancelled = ground arith
  apply_case-Announces current boot (attr_set changes by_workflow reserved) = ground arith
  apply_case-Announces current boot (step_created seed) = ground arith
  apply_case-Announces current boot (step_started start) = ground arith
  apply_case-Announces current boot (step_completed result) = ground arith
  apply_case-Announces current boot (step_failed error) = ground arith
  apply_case-Announces current boot (step_retrying error at) = ground arith
  apply_case-Announces current boot (hook_created seed) = ground arith
  apply_case-Announces current boot (hook_disposed by) = ground arith
  apply_case-Announces current boot (wait_created at) = ground arith
  apply_case-Announces current boot (wait_completed at) = ground arith
  apply_case-Announces current boot (hook_received payload) = ground arith
  apply_case-Announces current boot (hook_conflict conflict) = ground arith

  apply_guarded-Announces :
      (current : Option Run) (boot : Option RunCreated)
      → Announces p st (apply_guarded p ctx st current boot)
  unfolding apply_guarded terminal_guard step_guard resume_guard hook_guard existence_guard
  apply_guarded-Announces current boot =
      ground (arith, apply_case-Announces current boot ctx.content)

-- After the resilient start the stored run is live, unless the event itself changes it.
Announces-booted :
    (p : Platform) (st st' : State) (r : Result)
    → terminal_run p st'.run ≡ false
    → Announces p st' r
    → Announces p st r
Announces-booted p st st' thrown live h = tt
Announces-booted p st st' (returned (failed f) t) live h = tt
Announces-booted p st st' (returned (done s) t) live h = ground (arith, h)

pub apply_event-Announces :
    (p : Platform) (ctx : Context) (st : State) → Announces p st (apply_event p ctx st)
unfolding apply_event bootstrap
apply_event-Announces p ctx st =
    elim (Option-cases (bootstrap_seed ctx.content (observed_run ctx.content st))) [
      | inl none' ↦
          ground (arith, apply_guarded-Announces p ctx st (observed_run ctx.content st) none)
      | inr (seed, at) ↦
          let b = booted p ctx st seed in
          ground (
            arith,
            at,
            Announces-booted p st b
                (apply_guarded p ctx b (some (new_run p ctx seed))
                  (some (record { workflow_name = seed.workflow_name; created_at = ctx.now })))
                p.pending_live
                (apply_guarded-Announces p ctx b (some (new_run p ctx seed))
                  (some (record { workflow_name = seed.workflow_name; created_at = ctx.now }))),
          )
    ]
