-- ===== src/Apply/Log/Steps.antt =====
-- The cases that write a step or a wait keep every property of the event log.
use world_celld.Common.{ℕ, Bool, true, false, Option, none, some, ltb}
use world_celld.Apply.Entities.{Step, step_created, StepSeed, StepStart, Wait, WaitStatus, Payload}
use world_celld.Apply.External.{Platform}
use world_celld.Apply.Transaction.{State, Context, failure, entity_conflict}
use world_celld.Apply.StepCases.{
  completed_step, failed_step, retrying_step, new_wait, complete_wait, step_saved, started_step,
  lazy_seed, apply_step_created, start_attempt, apply_step_started, apply_step_completed,
  apply_step_failed, apply_step_retrying, apply_wait_created, apply_wait_completed,
}
use world_celld.Apply.Rule.{Ensures, Ensures-if, Ensures-match}
use world_celld.Apply.Log.Rules.{IsLogProperty, write_step-log, write_wait-log, create_step-log}

module _ (p : Platform) (P : State → Type 0) (closed : IsLogProperty p P) (ctx : Context) where
  pub apply_step_created-log :
      (st : State) (seed : StepSeed) → P st → Ensures P (apply_step_created p ctx st seed)
  unfolding apply_step_created
  apply_step_created-log st seed h =
      Ensures-if P _ (failure entity_conflict st) _ (λ a. h)
        (λ a.
          create_step-log p P closed ctx st seed ctx.content (λ e step. step_saved step false e)
            (λ e s st' k. k) h)

  pub start_attempt-log :
      (st : State) (s : Step) (created : Bool) (at : Option ℕ)
      → P st
      → Ensures P (start_attempt p ctx st s created at)
  start_attempt-log st s created none h =
      write_step-log p P closed ctx st (started_step s ctx.now) created h
  start_attempt-log st s created (some at) h =
      Ensures-if P (ltb ctx.now at) _ _ (λ a. h)
        (λ a. write_step-log p P closed ctx st (started_step s ctx.now) created h)

  pub apply_step_started-log :
      (st : State) (s : Option Step) (start : Option StepStart)
      → P st
      → Ensures P (apply_step_started p ctx st s start)
  unfolding apply_step_started
  apply_step_started-log st (some s) start h = start_attempt-log st s false s.retry_after h
  apply_step_started-log st none start h =
      Ensures-match P (lazy_seed start) _ _ (λ e. h)
        (λ seed e.
          create_step-log p P closed ctx st seed (step_created seed)
            (λ e s st'. start_attempt p ctx st' s true s.retry_after)
            (λ e s st' k. start_attempt-log st' s true s.retry_after k) h)

  pub apply_step_completed-log :
      (st : State) (s : Option Step) (result : Option Payload)
      → P st
      → Ensures P (apply_step_completed p ctx st s result)
  unfolding apply_step_completed
  apply_step_completed-log st none result h = h
  apply_step_completed-log st (some s) result h =
      write_step-log p P closed ctx st (completed_step s result ctx.now) false h

  pub apply_step_failed-log :
      (st : State) (s : Option Step) (error : Payload)
      → P st
      → Ensures P (apply_step_failed p ctx st s error)
  unfolding apply_step_failed
  apply_step_failed-log st none error h = h
  apply_step_failed-log st (some s) error h =
      write_step-log p P closed ctx st (failed_step s error ctx.now) false h

  pub apply_step_retrying-log :
      (st : State) (s : Option Step) (error : Payload) (at : Option ℕ)
      → P st
      → Ensures P (apply_step_retrying p ctx st s error at)
  unfolding apply_step_retrying
  apply_step_retrying-log st none error at h = h
  apply_step_retrying-log st (some s) error at h =
      write_step-log p P closed ctx st (retrying_step s error at ctx.now) false h

  pub apply_wait_created-log :
      (st : State) (at : Option ℕ) → P st → Ensures P (apply_wait_created p ctx st at)
  unfolding apply_wait_created
  apply_wait_created-log st at h =
      Ensures-if P _ (failure entity_conflict st) _ (λ a. h)
        (λ a. write_wait-log p P closed ctx st (new_wait p ctx at) h)

  pub complete_wait-log :
      (st : State) (w : Wait) (at : Option ℕ) (status : WaitStatus)
      → P st
      → Ensures P (complete_wait p ctx st w at status)
  complete_wait-log st w at WaitStatus.completed h = h
  complete_wait-log st w at WaitStatus.waiting h = write_wait-log p P closed ctx st _ h

  pub apply_wait_completed-log :
      (st : State) (at : Option ℕ) → P st → Ensures P (apply_wait_completed p ctx st at)
  unfolding apply_wait_completed
  apply_wait_completed-log st at h =
      Ensures-match P (st.waits ctx.correlation_id) _ _ (λ e. h)
        (λ w e. complete_wait-log st w at w.status h)
