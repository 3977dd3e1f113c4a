-- ===== src/Apply/Atomic.antt =====
-- What a failure of `applyEvent` in `src/apply-event.ts` has written.
use world_celld.Common.{
  ◌+◌, ◌&&◌, ◌≡◌, refl, Bool, true, false, Option, none, some, arith, eqb, Bool-cases, inl, inr,
  if◌then◌else◌, match_option,
}
use world_celld.Apply.Entities.{
  Event, StartSeed, Run, RunStatus, EventData, run_started, RunSeed, run_created, run_completed,
  run_failed, run_cancelled, attr_set, step_created, step_started, step_completed, step_failed,
  step_retrying, hook_created, hook_received, hook_disposed, hook_conflict, wait_created,
  wait_completed,
}
use world_celld.Apply.External.{Platform}
use world_celld.Apply.Transaction.{
  State, Context, RunCreated, Result, thrown, returned, failed, done, effective_spec, build_event,
}
use world_celld.Apply.Guards.{
  terminal_guard, step_guard, resume_guard, hook_guard, existence_guard, then_go, spec_guard,
}
use world_celld.Apply.Bootstrap.{
  changes_of, bootstrap, bootstrap_seed, observed_run, create_run, new_run, run_booted,
}
use world_celld.Apply.RunCases.{apply_run_created, apply_run_started, finish_run, apply_attr_set}
use world_celld.Apply.StepCases.{
  apply_step_created, apply_step_started, apply_step_completed, apply_step_failed,
  apply_step_retrying, apply_wait_created, apply_wait_completed,
}
use world_celld.Apply.HookCases.{apply_hook_created, apply_hook_disposed, apply_event_only}
use world_celld.Apply.{apply_case, apply_guarded, apply_event}

abbrev pub FailureKeeps : State → Result → Type 0
FailureKeeps st thrown = Unit
FailureKeeps st (returned (failed f) st') = st' ≡ st
FailureKeeps st (returned (done s) st') = Unit

module _ (p : Platform) (ctx : Context) (st : State) where
  apply_case-FailureKeeps :
      (current : Option Run) (boot : Option RunCreated) (content : EventData)
      → FailureKeeps st (apply_case p ctx st current boot content)
  unfolding apply_case apply_run_created apply_run_started finish_run apply_attr_set
      apply_step_created apply_step_started apply_step_completed apply_step_failed
      apply_step_retrying apply_wait_created apply_wait_completed apply_hook_created
      apply_hook_disposed apply_event_only
  apply_case-FailureKeeps current boot (run_created seed) = ground arith
  apply_case-FailureKeeps current boot (run_started seed) = ground arith
  apply_case-FailureKeeps current boot (run_completed output) = ground arith
  apply_case-FailureKeeps current boot (run_failed error code) = ground arith
  apply_case-FailureKeeps current boot run_cancelled = ground arith
  apply_case-FailureKeeps current boot (attr_set changes by_workflow reserved) = ground arith
  apply_case-FailureKeeps current boot (step_created seed) = ground arith
  apply_case-FailureKeeps current boot (step_started start) = ground arith
  apply_case-FailureKeeps current boot (step_completed result) = ground arith
  apply_case-FailureKeeps current boot (step_failed error) = ground arith
  apply_case-FailureKeeps current boot (step_retrying error at) = ground arith
  apply_case-FailureKeeps current boot (hook_created seed) = ground arith
  apply_case-FailureKeeps current boot (hook_disposed by) = ground arith
  apply_case-FailureKeeps current boot (wait_created at) = ground arith
  apply_case-FailureKeeps current boot (wait_completed at) = ground arith
  apply_case-FailureKeeps current boot (hook_received payload) = ground arith
  apply_case-FailureKeeps current boot (hook_conflict conflict) = ground arith

  -- A guard that ends the call with a failure has written nothing either.
  GuardKeeps : Option Result → Type 0
  GuardKeeps none = Unit
  GuardKeeps (some r) = FailureKeeps st r

  then_go-FailureKeeps :
      (g : Option Result) (next : Result)
      → GuardKeeps g
      → FailureKeeps st next
      → FailureKeeps st (then_go g next)
  unfolding GuardKeeps
  then_go-FailureKeeps none next hg h = h
  then_go-FailureKeeps (some r) next hg h = hg

  spec_guard-GuardKeeps : (current : Option Run) → GuardKeeps (spec_guard p st current)
  unfolding GuardKeeps
  spec_guard-GuardKeeps current = ground arith

  terminal_guard-GuardKeeps : (current : Option Run) → GuardKeeps (terminal_guard p ctx st current)
  unfolding GuardKeeps terminal_guard
  terminal_guard-GuardKeeps current = ground arith

  step_guard-GuardKeeps :
      (current : Option Run) (content : EventData)
      → GuardKeeps (step_guard p ctx st current content)
  unfolding GuardKeeps step_guard
  step_guard-GuardKeeps current content = ground arith

  resume_guard-GuardKeeps : (content : EventData) → GuardKeeps (resume_guard ctx st content)
  unfolding GuardKeeps resume_guard
  resume_guard-GuardKeeps content = ground arith

  hook_guard-GuardKeeps :
      (current : Option Run) (content : EventData)
      → GuardKeeps (hook_guard p ctx st current content)
  unfolding GuardKeeps hook_guard
  hook_guard-GuardKeeps current content = ground arith

  existence_guard-GuardKeeps :
      (current : Option Run) (content : EventData) → GuardKeeps (existence_guard st current content)
  unfolding GuardKeeps existence_guard
  existence_guard-GuardKeeps current content = ground arith

  apply_guarded-FailureKeeps :
      (current : Option Run) (boot : Option RunCreated)
      → FailureKeeps st (apply_guarded p ctx st current boot)
  unfolding apply_guarded
  apply_guarded-FailureKeeps current boot =
      then_go-FailureKeeps _ _ (spec_guard-GuardKeeps current) (
        then_go-FailureKeeps _ _ (terminal_guard-GuardKeeps current) (
          then_go-FailureKeeps _ _ (step_guard-GuardKeeps current ctx.content) (
            then_go-FailureKeeps _ _ (resume_guard-GuardKeeps ctx.content) (
              then_go-FailureKeeps _ _ (hook_guard-GuardKeeps current ctx.content) (
                then_go-FailureKeeps _ _ (existence_guard-GuardKeeps current ctx.content)
                  (apply_case-FailureKeeps current boot ctx.content))))))

abbrev Succeeds : Result → Type 0
Succeeds thrown = Unit
Succeeds (returned (failed f) st) = ⊥
Succeeds (returned (done s) st) = Unit

-- After the bootstrap the start of the new run passes every guard and cannot be refused.
booted_start-Succeeds :
    (p : Platform) (ctx : Context) (st : State) (run : Run) (boot : Option RunCreated)
    (seed : Option StartSeed)
    → ctx.content ≡ run_started seed
    → run.spec_version ≡ p.spec_version_current
    → run.status ≡ RunStatus.pending
    → Succeeds (apply_guarded p ctx st (some run) boot)
unfolding apply_guarded terminal_guard step_guard resume_guard hook_guard existence_guard apply_case
    apply_run_started
booted_start-Succeeds p ctx st run boot seed starts spec pending = ground (arith, p.pending_live)

keeps_of_Succeeds : (st : State) (r : Result) → Succeeds r → FailureKeeps st r
keeps_of_Succeeds st thrown h = tt
keeps_of_Succeeds st (returned (failed f) st') h = absurd h
keeps_of_Succeeds st (returned (done s) st') h = tt

FailureKeeps-if :
    (st : State) (b : Bool) (x : Result)
    → (b ≡ true → FailureKeeps st x)
    → FailureKeeps st (if b then x else thrown)
FailureKeeps-if st true x h = h refl
FailureKeeps-if st false x h = tt

create_run-FailureKeeps :
    (p : Platform) (ctx : Context) (st : State) (seed : RunSeed)
    (next : Event → Run → State → Result)
    → ((e : Event) (st' : State) → FailureKeeps st (next e (new_run p ctx seed) st'))
    → FailureKeeps st (create_run p ctx st seed next)
create_run-FailureKeeps p ctx st seed next rest =
    FailureKeeps-if st
      (p.attributes_valid (changes_of seed.attributes) none seed.allow_reserved_attributes
        && p.run_accepted (new_run p ctx seed))
      _
      (λ a.
        FailureKeeps-if st
          (p.event_accepted (build_event p ctx (st.sequence + 1) (run_created seed))) _
          (λ b. rest _ _))

FailureKeeps-match {ℓ} :
    {A : Type ℓ} (st : State) (o : Option A) (x : Result) (f : A → Result)
    → FailureKeeps st x
    → ((a : A) → o ≡ some a → FailureKeeps st (f a))
    → FailureKeeps st (match_option o x f)
FailureKeeps-match st none x f hx hf = hx
FailureKeeps-match st (some a) x f hx hf = hf a refl

bootstrap_seed-run_started :
    (content : EventData) (current : Option Run) (seed : RunSeed)
    → bootstrap_seed content current ≡ some seed
    → (start : Option StartSeed) × (content ≡ run_started start)
bootstrap_seed-run_started (run_started (some s)) none seed h = (some s, refl)
bootstrap_seed-run_started _ _ seed h = cc

-- Creating the missing run leads to the start of that run, which succeeds, or to an exception.
booted-FailureKeeps :
    (p : Platform) (ctx : Context) (st : State) (seed : RunSeed) (start : Option StartSeed)
    → ctx.content ≡ run_started start
    → effective_spec p ctx ≡ p.spec_version_current
    → FailureKeeps st (
        create_run p
          (record ctx { correlation_id = "" })
          st
          seed
          (run_booted ctx seed (apply_guarded p ctx)))
booted-FailureKeeps p ctx st seed start starts spec =
    create_run-FailureKeeps p (record ctx { correlation_id = "" }) st seed
      (run_booted ctx seed (apply_guarded p ctx))
      (λ e st'. keeps_of_Succeeds st _ (
        booted_start-Succeeds p ctx st' (new_run p ctx seed)
          (some (record { workflow_name = seed.workflow_name; created_at = ctx.now })) start starts
          spec refl))

-- A failure leaves the storage and the event sequence as they were, whatever the event and the
-- run: no event, no entity and no marker is written.
pub apply_event-FailureKeeps :
    (p : Platform) (ctx : Context) (st : State) → FailureKeeps st (apply_event p ctx st)
unfolding apply_event bootstrap
apply_event-FailureKeeps p ctx st =
    elim (Bool-cases (eqb (effective_spec p ctx) p.spec_version_current)) [
      | inl a ↦ rw a (
          FailureKeeps-match st (bootstrap_seed ctx.content (observed_run ctx.content st)) _ _
            (apply_guarded-FailureKeeps p ctx st (observed_run ctx.content st) none)
            (λ seed e.
              let (start, starts) = bootstrap_seed-run_started ctx.content _ seed e in
              booted-FailureKeeps p ctx st seed start starts (ground arith)))
      | inr a ↦ rw a refl
    ]
