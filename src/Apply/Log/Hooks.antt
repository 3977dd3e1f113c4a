-- ===== src/Apply/Log/Hooks.antt =====
-- The cases that write a hook, and the event-only ones, keep every property of the event log.
use world_celld.Common.{refl, Bool-cases, inl, inr, Option-cases, is_some, truthy}
use world_celld.Apply.Entities.{Event, hook_created, HookSeed}
use world_celld.Apply.External.{Platform}
use world_celld.Apply.Transaction.{State, Context, thrown, failure, hook_claim_cancelled}
use world_celld.Apply.HookCases.{
  claim_cancelled, conflicting, create_hook, repeat_creation, new_hook, hook_made, put_new_hook,
  claimed_from_of, orphan, event_saved, hook_dropped, with_resume_claim, is_received,
  event_recorded, apply_hook_created, apply_hook_disposed, apply_event_only,
}
use world_celld.Apply.Rule.{Ensures, Ensures-if, Ensures-match}
use world_celld.Apply.Log.Rules.{IsLogProperty, append_event-log}

module _ (p : Platform) (P : State → Type 0) (closed : IsLogProperty p P) (ctx : Context) where
  pub create_hook-log :
      (st : State) (seed : HookSeed) → P st → Ensures P (create_hook p ctx st seed)
  create_hook-log st seed h =
      Ensures-if P (p.hook_accepted (new_hook p ctx seed)) _ thrown
        (λ a.
          append_event-log p P closed ctx st (put_new_hook ctx st.store (new_hook p ctx seed))
            (hook_created (record seed { force_claimed_from = claimed_from_of ctx seed }))
            (hook_made ctx (new_hook p ctx seed)) refl (λ e st' k. closed.same st' _ refl refl k) h)
        (λ a. tt)

  repeat_creation-log :
      (st : State) (seed : HookSeed) → P st → Ensures P (repeat_creation ctx st seed)
  repeat_creation-log st seed h = Ensures-match P (orphan ctx st seed) _ _ (λ c. h) (λ x c. h)

  pub apply_hook_created-log :
      (st : State) (seed : HookSeed) → P st → Ensures P (apply_hook_created p ctx st seed)
  unfolding apply_hook_created
  apply_hook_created-log st seed h =
      Ensures-if P (claim_cancelled ctx st) (failure hook_claim_cancelled st) _ (λ a. h)
        (λ a.
          Ensures-match P (conflicting ctx) _ _
            (λ e.
              Ensures-if P (is_some (st.hook_markers ctx.correlation_id)) _ _
                (λ b. repeat_creation-log st seed h) (λ b. create_hook-log st seed h))
            (λ holder e.
              append_event-log p P closed ctx st st.store _ event_saved refl (λ e st' k. k) h))

  pub apply_hook_disposed-log : (st : State) → P st → Ensures P (apply_hook_disposed p ctx st)
  unfolding apply_hook_disposed
  apply_hook_disposed-log st h =
      Ensures-match P (st.hooks ctx.correlation_id) _ _ (λ e. h)
        (λ x e.
          append_event-log p P closed ctx st _ ctx.content (hook_dropped x) refl (λ e st' k. k) h)

  pub with_resume_claim-log : (st : State) (e : Event) → P st → P (with_resume_claim ctx st e)
  with_resume_claim-log st e h = elim (Bool-cases (is_received ctx.content)) [
    | inl a ↦ elim (Option-cases (truthy ctx.params.resume_id)) [
      | inl b ↦ rw (a, b) h
      | inr (id, b) ↦ rw (a, b) (closed.same st _ refl refl h)
    ]
    | inr a ↦ rw a h
  ]

  pub apply_event_only-log : (st : State) → P st → Ensures P (apply_event_only p ctx st)
  unfolding apply_event_only
  apply_event_only-log st h =
      append_event-log p P closed ctx st st.store ctx.content (event_recorded ctx) refl
        (λ e st' k. with_resume_claim-log st' e k) h
