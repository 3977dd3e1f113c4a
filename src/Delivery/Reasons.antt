-- ===== src/Delivery/Reasons.antt =====
-- The decisions of `src/worker/queue-delivery.ts`, and what they rest on.
use world_celld.Common.{
  match_option, if◌then◌else◌, ◌≤◌, String, Bool, true, false, ◌≡◌, Option, none, some, refl,
  match_option-rule, if-rule,
}
use world_celld.Delivery.Envelope.{NativeQueueEnvelope}
use world_celld.Delivery.Decide.{
  World, Callback, Decision, completes, fails, decide, given, unregistered, target_base_url,
  after_callback, call_workflow, with_payload, asks_admission,
}

-- What a delivery sends to the workflow: the envelope's own body, or the payload that was read under
-- its key.
pub data Sent {S : Type 0} (w : World S) (e : NativeQueueEnvelope) (body : Option String)
    : Type 0 where
  own_body : given e.payload_key ≡ none → body ≡ e.body → Sent w e body
  stored_body :
      (key text : String)
      → given e.payload_key ≡ some key
      → w.read_payload key ≡ some (some text)
      → body ≡ some text
      → Sent w e body

-- A decision fails, completes because the run has expired or the payload was deleted, or follows the
-- workflow's answer.
module _ {S : Type 0} (w : World S) (e : NativeQueueEnvelope) (P : Decision → Type 0)
    (failed : P fails) (expired : w.admission ≡ some false → P completes)
    (deleted : (key : String)
      → given e.payload_key ≡ some key
      → w.read_payload key ≡ some none
      → unregistered w e ≡ true
      → P completes)
    (called : (target : String) (body : Option String) (c : Callback)
      → Sent w e body
      → target_base_url w e w.urls body ≡ some target
      → w.fetch target body ≡ some c
      → P (after_callback w e c)) where
  call_workflow-rule : (body : Option String) → Sent w e body → P (call_workflow w e body)
  call_workflow-rule body sent =
      match_option-rule P (target_base_url w e w.urls body) _ _ (λ _. failed)
        (λ target chosen.
          match_option-rule P (w.fetch target body) _ _ (λ _. failed)
            (λ c. called target body c sent chosen))

  read-rule :
      (key : String) (read : Option String)
      → given e.payload_key ≡ some key
      → w.read_payload key ≡ some read
      → P (
          match_option read
            (if unregistered w e then completes else fails)
            (λ body. call_workflow w e (some body)))
  read-rule key none own same =
      if-rule P (unregistered w e) _ _ (deleted key own same) (λ _. failed)
  read-rule key (some body) own same =
      call_workflow-rule (some body) (stored_body key body own same refl)

  with_payload-rule : (key : Option String) → given e.payload_key ≡ key → P (with_payload w e key)
  with_payload-rule none own = call_workflow-rule e.body (own_body own refl)
  with_payload-rule (some key) own =
      match_option-rule P (w.read_payload key) _ _ (λ _. failed) (λ read. read-rule key read own)

  admitted-rule :
      (admitted : Bool)
      → w.admission ≡ some admitted
      → P (if admitted then with_payload w e (given e.payload_key) else completes)
  admitted-rule true asked = with_payload-rule (given e.payload_key) refl
  admitted-rule false asked = expired asked

  pub decide-rule : P (decide w e)
  unfolding decide
  decide-rule =
      if-rule P (asks_admission w e) _ _
        (λ _. match_option-rule P w.admission _ _ (λ _. failed) admitted-rule)
        (λ _. with_payload-rule (given e.payload_key) refl)

-- Why a message needs no further delivery: the catalog answers that its run has expired, the payload
-- under its key was deleted and is unregistered, or its target has answered with a success to what
-- the message carries.
pub data IsDone {S : Type 0} (w : World S) (e : NativeQueueEnvelope) : Type 0 where
  run_expired : w.admission ≡ some false → IsDone w e
  payload_deleted :
      (key : String)
      → given e.payload_key ≡ some key
      → w.read_payload key ≡ some none
      → unregistered w e ≡ true
      → IsDone w e
  workflow_done :
      (target : String) (body : Option String) (c : Callback)
      → Sent w e body
      → target_base_url w e w.urls body ≡ some target
      → w.fetch target body ≡ some c
      → (200 ≤ c.status) × (c.status ≤ 299)
      → IsDone w e
