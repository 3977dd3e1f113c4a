-- ===== src/Apply/Rule.antt =====
-- How a property of the state is proved for `applyEvent`: it is enough to look at the creation of a
-- missing run, at the terminal guard, the only guard that writes, and at the cases of the switch.
use world_celld.Common.{
  ◌+◌, ◌&&◌, ◌≡◌, refl, Bool, true, false, Option, none, some, arith, eqb, if◌then◌else◌,
  match_option,
}
use world_celld.Apply.Entities.{Run, Event, EventData, RunSeed, StartSeed, run_created, run_started}
use world_celld.Apply.External.{Platform}
use world_celld.Apply.Transaction.{
  State, Context, RunCreated, Result, thrown, returned, build_event, put_event, effective_spec,
}
use world_celld.Apply.Guards.{
  terminal_guard, step_guard, resume_guard, hook_guard, existence_guard, then_go, spec_guard,
}
use world_celld.Apply.Bootstrap.{
  changes_of, bootstrap, bootstrap_seed, observed_run, create_run, new_run, run_booted,
}
use world_celld.Apply.{apply_case, apply_guarded, apply_event}

-- A result that is no exception leaves a state with the property.
abbrev pub Ensures : (State → Type 0) → Result → Type 0
Ensures P thrown = Unit
Ensures P (returned o st) = P st

abbrev pub EnsuresIf : (State → Type 0) → Option Result → Type 0
EnsuresIf P none = Unit
EnsuresIf P (some r) = Ensures P r

-- A test whose branches are proved apart.
pub Ensures-if :
    (P : State → Type 0) (b : Bool) (x y : Result)
    → (b ≡ true → Ensures P x)
    → (b ≡ false → Ensures P y)
    → Ensures P (if b then x else y)
Ensures-if P true x y hx hy = hx refl
Ensures-if P false x y hx hy = hy refl

pub Ensures-match {ℓ} :
    {A : Type ℓ} (P : State → Type 0) (o : Option A) (x : Result) (f : A → Result)
    → (o ≡ none → Ensures P x)
    → ((a : A) → o ≡ some a → Ensures P (f a))
    → Ensures P (match_option o x f)
Ensures-match P none x f hx hf = hx refl
Ensures-match P (some a) x f hx hf = hf a refl

Ensures-then_go :
    (P : State → Type 0) (g : Option Result) (next : Result)
    → EnsuresIf P g
    → (g ≡ none → Ensures P next)
    → Ensures P (then_go g next)
Ensures-then_go P none next hg h = h refl
Ensures-then_go P (some r) next hg h = hg

-- A guard that ends the call without writing.
abbrev Silent : State → Option Result → Type 0
Silent st g = EnsuresIf (λ st'. st' ≡ st) g

Silent-EnsuresIf :
    (P : State → Type 0) (st : State) (g : Option Result) → Silent st g → P st → EnsuresIf P g
Silent-EnsuresIf P st none s h = tt
Silent-EnsuresIf P st (some thrown) s h = tt
Silent-EnsuresIf P st (some (returned o st')) s h = rw s h

guards-Silent :
    (p : Platform) (ctx : Context) (st : State) (current : Option Run) (content : EventData)
    → Silent st (spec_guard p st current)
      × Silent st (step_guard p ctx st current content)
      × Silent st (resume_guard ctx st content)
      × Silent st (hook_guard p ctx st current content)
      × Silent st (existence_guard st current content)
unfolding step_guard resume_guard hook_guard existence_guard
guards-Silent p ctx st current content =
    (ground arith, ground arith, ground arith, ground arith, ground arith)

-- The event and the state of the creation that a resilient start makes.
abbrev pub boot_context : Context → Context
boot_context ctx = record ctx { correlation_id = "" }

abbrev pub boot_event : Platform → Context → State → RunSeed → Event
boot_event p ctx st seed = build_event p (boot_context ctx) (st.sequence + 1) (run_created seed)

abbrev pub booted : Platform → Context → State → RunSeed → State
booted p ctx st seed = record {
  store =
      put_event (record st.store { run = some (new_run p (boot_context ctx) seed) })
        (boot_event p ctx st seed);
  sequence = st.sequence + 1;
}

pub bootstrap_seed-fresh :
    (content : EventData) (st : State) (seed : RunSeed)
    → bootstrap_seed content (observed_run content st) ≡ some seed
    → (st.run ≡ none) × (start : Option StartSeed) × (content ≡ run_started start)
bootstrap_seed-fresh (run_started (some s)) st seed h = (ground arith, some s, refl)
bootstrap_seed-fresh _ st seed h = absurd (ground arith)

module _ (p : Platform) (ctx : Context) (P : State → Type 0)
    (terminal : (st : State)
      → P st
      → EnsuresIf P (terminal_guard p ctx st (observed_run ctx.content st)))
    (cases : (st : State) (boot : Option RunCreated)
      → terminal_guard p ctx st (observed_run ctx.content st) ≡ none
      → P st
      → Ensures P (apply_case p ctx st (observed_run ctx.content st) boot ctx.content)) where
  apply_guarded-rule :
      (st : State) (boot : Option RunCreated)
      → P st
      → Ensures P (apply_guarded p ctx st (observed_run ctx.content st) boot)
  unfolding apply_guarded
  apply_guarded-rule st boot h =
      let current = observed_run ctx.content st in
      let (spec, step, resume, hook, exists) = guards-Silent p ctx st current ctx.content in
      Ensures-then_go P _ _ (Silent-EnsuresIf P st _ spec h) (λ a.
        Ensures-then_go P _ _ (terminal st h) (λ live.
          Ensures-then_go P _ _ (Silent-EnsuresIf P st _ step h) (λ b.
            Ensures-then_go P _ _ (Silent-EnsuresIf P st _ resume h) (λ c.
              Ensures-then_go P _ _ (Silent-EnsuresIf P st _ hook h) (λ d.
                Ensures-then_go P _ _ (Silent-EnsuresIf P st _ exists h)
                  (λ e. cases st boot live h))))))

  booted-rule :
      (st : State) (seed : RunSeed) (start : Option StartSeed)
      → ctx.content ≡ run_started start
      → P (booted p ctx st seed)
      → Ensures P
          (create_run p (boot_context ctx) st seed (run_booted ctx seed (apply_guarded p ctx)))
  booted-rule st seed start starts h =
      Ensures-if P
        (p.attributes_valid (changes_of seed.attributes) none seed.allow_reserved_attributes
          && p.run_accepted (new_run p (boot_context ctx) seed))
        _ thrown
        (λ a.
          Ensures-if P (p.event_accepted (boot_event p ctx st seed)) _ thrown
            (λ b.
              let boot : Option RunCreated =
                some (record { workflow_name = seed.workflow_name; created_at = ctx.now }) in
              let seen : observed_run ctx.content (booted p ctx st seed)
                  ≡ some (new_run p (boot_context ctx) seed) =
                rw starts refl in
              rw seen at (apply_guarded-rule (booted p ctx st seed) boot h))
            (λ b. tt))
        (λ a. tt)

  -- The rule: from a state with the property, every result of `applyEvent` has it.
  pub apply_event-rule :
      (st : State)
      → ((seed : RunSeed) → st.run ≡ none → P (booted p ctx st seed))
      → P st
      → Ensures P (apply_event p ctx st)
  unfolding apply_event bootstrap
  apply_event-rule st boots h =
      Ensures-if P (eqb (effective_spec p ctx) p.spec_version_current) _ _
        (λ a.
          Ensures-match P (bootstrap_seed ctx.content (observed_run ctx.content st)) _ _
            (λ b. apply_guarded-rule st none h)
            (λ seed b.
              let (fresh, start, starts) = bootstrap_seed-fresh ctx.content st seed b in
              booted-rule st seed start starts (boots seed fresh)))
        (λ a. h)
