-- ===== src/Apply/Resume.antt =====
-- Repeated deliveries with a resume ID to `applyEvent` of `src/apply-event.ts`.
use world_celld.Common.{
  ◌+◌, String, ◌≡◌, refl, Option, none, some, arith, ◌⊎◌, inl, inr, ap, eq_refl, truthy, true,
  false, eqb,
}
use world_celld.Apply.Entities.{Payload, hook_received}
use world_celld.Apply.External.{Platform}
use world_celld.Apply.Transaction.{
  State, Context, Success, nothing, Result, effective_spec, returned, done, build_event,
}
use world_celld.Apply.Guards.{
  spec_guard, digests_differ, terminal_guard, step_guard, resume_guard, hook_guard, existence_guard,
}
use world_celld.Apply.Bootstrap.{bootstrap}
use world_celld.Apply.HookCases.{apply_event_only}
use world_celld.Apply.{apply_case, apply_guarded, apply_event}

abbrev pub delivering : Context → Payload → Context
delivering ctx payload = record ctx { content = hook_received payload }

digests-same : (d : Option String) → digests_differ (truthy d) d ≡ false
digests-same none = refl
digests-same (some x) = ground (arith, eq_refl x)

-- The answer to a repeated delivery: the recorded event, and nothing written.
abbrev pub repeated : Success → State → Result
repeated s st = returned (done (record nothing { event = s.event })) st

module _ (p : Platform) (ctx : Context) (payload : Payload) where
  replayed :
      (st st' : State) (s : Success)
      → resume_guard (delivering ctx payload) st (hook_received payload)
        ≡ some (returned (done s) st')
      → (st' ≡ st) × (returned (done s) st' ≡ repeated s st')
  unfolding resume_guard
  replayed st st' s g = ground arith

  -- What a first delivery wrote answers its repetition.
  recorded :
      (st st' : State) (id : String) (s : Success)
      → truthy ctx.params.resume_id ≡ some id
      → apply_event_only p (delivering ctx payload) st ≡ returned (done s) st'
      → (resume_guard (delivering ctx payload) st' (hook_received payload) ≡ some (repeated s st'))
        × (st'.run ≡ st.run)
  unfolding resume_guard apply_event_only build_event
  recorded st st' id s resume returns = ground (
    arith,
    digests-same ctx.params.resume_payload_digest,
    eq_refl id,
    eq_refl ctx.correlation_id,
    eq_refl (p.slot_to_event_id (st.sequence + 1)),
  )

  -- How a delivery succeeds: it passes the guards of the run, and is answered or recorded.
  delivery_success :
      (st st' : State) (s : Success)
      → apply_event p (delivering ctx payload) st ≡ returned (done s) st'
      → (eqb (effective_spec p ctx) p.spec_version_current ≡ true)
        × (spec_guard p st st.run ≡ none)
        × (terminal_guard p (delivering ctx payload) st st.run ≡ none)
        × ((resume_guard (delivering ctx payload) st (hook_received payload)
              ≡ some (returned (done s) st'))
            ⊎ (apply_event_only p (delivering ctx payload) st ≡ returned (done s) st'))
  unfolding apply_event bootstrap apply_guarded terminal_guard step_guard hook_guard existence_guard
      apply_case
  delivery_success st st' s returns = ground arith

  -- A delivery that passes the guards of the run is answered by the resume guard.
  answered_delivery :
      (st : State) (r : Result)
      → eqb (effective_spec p ctx) p.spec_version_current ≡ true
      → spec_guard p st st.run ≡ none
      → terminal_guard p (delivering ctx payload) st st.run ≡ none
      → resume_guard (delivering ctx payload) st (hook_received payload) ≡ some r
      → apply_event p (delivering ctx payload) st ≡ r
  unfolding apply_event bootstrap apply_guarded step_guard
  answered_delivery st r version spec live answer = ground arith

  answered_again :
      (st st' : State) (id : String) (s : Success)
      → truthy ctx.params.resume_id ≡ some id
      → (resume_guard (delivering ctx payload) st (hook_received payload)
          ≡ some (returned (done s) st'))
        ⊎ (apply_event_only p (delivering ctx payload) st ≡ returned (done s) st')
      → (resume_guard (delivering ctx payload) st' (hook_received payload) ≡ some (repeated s st'))
        × (st'.run ≡ st.run)
  answered_again st st' id s resume (inl g) =
      let (same, answer) = replayed st st' s g in
      (cc (g, same, answer), ap (λ (x : State). x.run) same)
  answered_again st st' id s resume (inr g) = recorded st st' id s resume g

  run_guards_keep :
      (st st' : State)
      → st'.run ≡ st.run
      → spec_guard p st st.run ≡ none
      → terminal_guard p (delivering ctx payload) st st.run ≡ none
      → (spec_guard p st' st'.run ≡ none)
        × (terminal_guard p (delivering ctx payload) st' st'.run ≡ none)
  unfolding terminal_guard
  run_guards_keep st st' same spec live = ground arith

-- When a delivery with a resume ID has succeeded, the same delivery made again, with nothing in
-- between, succeeds with the event of the first and writes nothing.
pub resume_idempotent :
    (p : Platform) (ctx : Context) (payload : Payload) (st st' : State) (id : String) (s : Success)
    → truthy ctx.params.resume_id ≡ some id
    → apply_event p (delivering ctx payload) st ≡ returned (done s) st'
    → apply_event p (delivering ctx payload) st' ≡ repeated s st'
resume_idempotent p ctx payload st st' id s resume returns =
    let (version, spec, live, how) = delivery_success p ctx payload st st' s returns in
    let (answer, same) = answered_again p ctx payload st st' id s resume how in
    let (spec', live') = run_guards_keep p ctx payload st st' same spec live in
    answered_delivery p ctx payload st' (repeated s st') version spec' live' answer
