-- ===== src/Apply/Log/Runs.antt =====
-- The cases that write the run keep every property of the event log.
use world_celld.Common.{String, refl, Bool, Option, none, some, List}
use world_celld.Apply.Entities.{
  RunStatus, Run, Event, RunSeed, Payload, StructuredError, AttributeChange,
}
use world_celld.Apply.External.{Platform}
use world_celld.Apply.Transaction.{State, Context, RunCreated, thrown, failure, entity_conflict}
use world_celld.Apply.RunCases.{
  run_made, run_begun, run_saved, run_marked, started, finished, changed, with_marker,
  attribute_marker, marker_taken, apply_run_created, start_run, finish_run, apply_attr_set,
}
use world_celld.Apply.Rule.{Ensures, Ensures-if, Ensures-match}
use world_celld.Apply.Log.Rules.{IsLogProperty, write_run-log, create_run-log}

module _ (p : Platform) (P : State → Type 0) (closed : IsLogProperty p P) (ctx : Context) where
  pub apply_run_created-log :
      (st : State) (seed : RunSeed) → P st → Ensures P (apply_run_created p ctx st seed)
  unfolding apply_run_created
  apply_run_created-log st seed h =
      Ensures-match P st.run _ _
        (λ e. create_run-log p P closed ctx st seed (run_made ctx seed) (λ e r st' k. k) h)
        (λ r e. h)

  pub start_run-log :
      (st : State) (r : Run) (boot : Option RunCreated) (status : RunStatus)
      → P st
      → Ensures P (start_run p ctx st r boot status)
  start_run-log st r boot RunStatus.running h = h
  start_run-log st r boot _ h =
      write_run-log p P closed ctx st (started r ctx.now) (run_begun p ctx (started r ctx.now) boot)
        (λ e st' k. k) h

  pub finish_run-log :
      (st : State) (current : Option Run) (status : RunStatus) (output : Option Payload)
      (error : Option StructuredError)
      → P st
      → Ensures P (finish_run p ctx st current status output error)
  unfolding finish_run
  finish_run-log st none status output error h = h
  finish_run-log st (some r) status output error h =
      let run = finished r status output error ctx.now in
      write_run-log p P closed ctx st run (run_saved run) (λ e st' k. k) h

  pub with_marker-log :
      (st : State) (marker : Option String) (e : Event) → P st → P (with_marker st marker e)
  with_marker-log st none e h = h
  with_marker-log st (some k) e h = closed.same st _ refl refl h

  pub apply_attr_set-log :
      (st : State) (current : Option Run) (changes : List AttributeChange)
      (by_workflow reserved : Bool)
      → P st
      → Ensures P (apply_attr_set p ctx st current changes by_workflow reserved)
  unfolding apply_attr_set
  apply_attr_set-log st none changes by_workflow reserved h = h
  apply_attr_set-log st (some r) changes by_workflow reserved h =
      let marker = attribute_marker ctx by_workflow in
      let run = changed p r changes ctx.now in
      Ensures-if P _ _ thrown
        (λ a.
          Ensures-if P (marker_taken st marker) (failure entity_conflict st) _ (λ b. h)
            (λ b.
              write_run-log p P closed ctx st run (run_marked run marker)
                (λ e st' k. with_marker-log st' marker e k) h))
        (λ a. tt)
