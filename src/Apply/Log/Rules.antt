-- ===== src/Apply/Log/Rules.antt =====
-- Properties of the event log, and how the writes of `applyEvent` keep them.
use world_celld.Common.{◌+◌, ◌≡◌, refl, Bool, update, Bool-cases, inl, inr}
use world_celld.Apply.Entities.{Run, Step, Event, EventData, run_created, RunSeed, StepSeed, Wait}
use world_celld.Apply.External.{Platform}
use world_celld.Apply.Transaction.{Store, State, Context, Result, thrown, build_event, append_event}
use world_celld.Apply.Bootstrap.{create_run, new_run}
use world_celld.Apply.RunCases.{write_run}
use world_celld.Apply.StepCases.{
  new_step, wait_saved, step_saved, create_step, write_step, write_wait,
}
use world_celld.Apply.Rule.{Ensures, Ensures-if}

-- The property depends on the log and the sequence, and an append at the next slot keeps it.
pub record IsLogProperty (p : Platform) (P : State → Type 0) : Type 0 where
  pub same : (s t : State) → t.events ≡ s.events → t.sequence ≡ s.sequence → P s → P t
  pub append :
      (s t : State) (e : Event)
      → e.event_id ≡ p.slot_to_event_id (s.sequence + 1)
      → t.events ≡ update s.events e.event_id e
      → t.sequence ≡ s.sequence + 1
      → P s
      → P t

module _ (p : Platform) (P : State → Type 0) (closed : IsLogProperty p P) (ctx : Context) where
  pub append_event-log :
      (st : State) (written : Store) (content : EventData) (next : Event → State → Result)
      → written.events ≡ st.events
      → ((e : Event) (st' : State) → P st' → Ensures P (next e st'))
      → P st
      → Ensures P (append_event p ctx st written content next)
  unfolding build_event
  append_event-log st written content next kept rest h =
      let e = build_event p ctx (st.sequence + 1) content in
      elim (Bool-cases (p.event_accepted e)) [
        | inl a ↦ rw a (rest e _ (closed.append st _ e refl (rw kept) refl h))
        | inr a ↦ rw a tt
      ]

  pub write_run-log :
      (st : State) (run : Run) (next : Event → State → Result)
      → ((e : Event) (st' : State) → P st' → Ensures P (next e st'))
      → P st
      → Ensures P (write_run p ctx st run next)
  write_run-log st run next rest h =
      Ensures-if P (p.run_accepted run) _ thrown
        (λ a. append_event-log st _ ctx.content next refl rest h) (λ a. tt)

  pub write_step-log :
      (st : State) (step : Step) (created : Bool)
      → P st
      → Ensures P (write_step p ctx st step created)
  write_step-log st step created h =
      Ensures-if P (p.step_accepted step) _ thrown
        (λ a. append_event-log st _ ctx.content (step_saved step created) refl (λ e st' k. k) h)
        (λ a. tt)

  pub write_wait-log : (st : State) (wait : Wait) → P st → Ensures P (write_wait p ctx st wait)
  write_wait-log st wait h =
      Ensures-if P (p.wait_accepted wait) _ thrown
        (λ a. append_event-log st _ ctx.content (wait_saved wait) refl (λ e st' k. k) h) (λ a. tt)

  pub create_run-log :
      (st : State) (seed : RunSeed) (next : Event → Run → State → Result)
      → ((e : Event) (run : Run) (st' : State) → P st' → Ensures P (next e run st'))
      → P st
      → Ensures P (create_run p ctx st seed next)
  create_run-log st seed next rest h =
      Ensures-if P _ _ thrown
        (λ a.
          append_event-log st _ (run_created seed) (λ e. next e (new_run p ctx seed)) refl
            (λ e. rest e (new_run p ctx seed)) h)
        (λ a. tt)

  pub create_step-log :
      (st : State) (seed : StepSeed) (content : EventData) (next : Event → Step → State → Result)
      → ((e : Event) (step : Step) (st' : State) → P st' → Ensures P (next e step st'))
      → P st
      → Ensures P (create_step p ctx st seed content next)
  create_step-log st seed content next rest h =
      Ensures-if P _ _ thrown
        (λ a.
          append_event-log st _ content (λ e. next e (new_step p ctx seed)) refl
            (λ e. rest e (new_step p ctx seed)) h)
        (λ a. tt)
