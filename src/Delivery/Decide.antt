-- ===== src/Delivery/Decide.antt =====
-- What `deliverQueueMessage` of `src/worker/queue-delivery.ts` decides between taking its claim and its
-- last call of the claim: the admission, the payload, the target and the workflow's answer.
use world_celld.Common.{
  ℕ, ◌+◌, ◌*◌, String, Bool, true, false, not, ◌&&◌, ◌||◌, Option, none, some, List, [], ◌∷◌, leb,
  eqb, ◌==◌, is_some, match_option, if◌then◌else◌,
}
use world_celld.Queue.Claim.{non_empty}
use world_celld.Delivery.Deadline.{queue_claim_stale_ms, queue_delay_deadline}
use world_celld.Delivery.Envelope.{Json, text, absent, NativeQueueEnvelope}

-- `QUEUE_ORPHAN_GRACE_MS`
abbrev pub queue_orphan_grace_ms : ℕ
queue_orphan_grace_ms = 5 * 24 * 60 * 60 * 1000

-- `PERMANENT_QUEUE_STATUSES`
abbrev pub is_permanent : ℕ → Bool
is_permanent status = eqb status 404 || eqb status 409 || eqb status 410 || eqb status 422

-- The workflow's answer: its status, and the `timeoutSeconds` of its body, none where the body is no
-- JSON or too long, and no number where it has none.
pub record Callback : Type 0 where
  pub status : ℕ
  pub timeout_seconds : Option (Option ℕ)

-- The table of `WORKFLOW_DEPLOYMENT_URLS`, with validated URLs.
pub data DeploymentUrls : Type 0 where
  invalid unset : DeploymentUrls
  table : List (String × String) → DeploymentUrls

-- What a delivery sees of its surroundings; none is a call that fails.
pub record World (S : Type 0) : Type 0 where
  -- the clock in the claim's transaction, after a refusal and after the callback
  pub claim_time : ℕ
  pub refusal_time : ℕ
  pub callback_time : ℕ
  -- what others do to the claim while the delivery runs
  pub others : S → S
  -- whether the run has not expired
  pub admission : Option Bool
  pub read_payload : String → Option (Option String)
  -- whether the payload is deleted, and whether its registrations are
  pub delete_payload : String → Bool
  pub unregister_payload : Bool
  pub schedule_orphan : (expires_at : ℕ) → Bool
  pub urls : DeploymentUrls
  -- the deployment of the run, where there is a run
  pub stored_deployment : Option (Option String)
  -- `runInput.deploymentId` of a body
  pub initial_deployment : String → Option Json
  pub fetch : (target : String) (body : Option String) → Option Callback

-- How a delivery that has its claim goes on, up to its last call of the claim.
pub data Decision : Type 0 where
  completes retries fails : Decision
  suspends : (timeout_seconds not_before : ℕ) → Decision

-- `if (value)` on an optional string
abbrev pub given : Option String → Option String
given none = none
given (some s) = if non_empty s then some s else none

-- `configuredDeploymentUrl`
unfoldable pub configured_deployment_url : List (String × String) → String → Option String
configured_deployment_url [] id = none
configured_deployment_url ((i, url) ∷ urls) id =
    let rest = configured_deployment_url urls id in if i == id then some url else rest

-- `stored.value && initialId !== undefined && initialId !== pinnedId`
abbrev pub disagrees : Option String → Json → Bool
disagrees none initial = false
disagrees (some pinned) absent = false
disagrees (some pinned) (text initial) = not (initial == pinned)
disagrees (some pinned) _ = true

-- `stored.value?.deploymentId ?? initialId`, where it is a string
abbrev pub pinned_id : Option String → Json → Option String
pinned_id (some pinned) initial = some pinned
pinned_id none (text initial) = some initial
pinned_id none _ = none

abbrev pub pinned_target : List (String × String) → Option String → Json → Option String
pinned_target urls stored initial = match_option (pinned_id stored initial) none (λ pinned.
    if non_empty pinned && not (disagrees stored initial)
    then configured_deployment_url urls pinned
    else none)

module _ {S : Type 0} (w : World S) (e : NativeQueueEnvelope) where
  -- the URL of the deployment that the run is pinned to, or the one of the envelope
  abbrev pub target_base_url : DeploymentUrls → Option String → Option String
  target_base_url invalid body = none
  target_base_url unset body = some e.target_base_url
  target_base_url (table urls) body =
      if is_some (given e.run_id)
      then match_option w.stored_deployment none (λ stored. match_option body none (λ b.
        match_option (w.initial_deployment b) none (λ initial. pinned_target urls stored initial)))
      else some e.target_base_url

  abbrev pub is_table : DeploymentUrls → Bool
  is_table (table urls) = true
  is_table _ = false

  -- `callback.ok`, or a status that no further attempt changes
  abbrev pub is_final : ℕ → Bool
  is_final status =
      (leb 200 status && leb status 299)
      || (not (is_table w.urls) && is_permanent status)
      || (not (is_some (given e.run_id)) && is_permanent status)

  -- `unregisterPayload`
  abbrev pub unregistered : Bool
  unregistered = not (is_some (given e.run_id)) || w.unregister_payload

  abbrev pub finish_delivery : Option String → Decision
  finish_delivery none = completes
  finish_delivery (some key) = if w.delete_payload key && unregistered then completes else fails

  abbrev pub suspension : Option (Option ℕ) → Decision
  suspension none = fails
  suspension (some timeout) = match_option timeout fails (λ seconds.
      match_option (queue_delay_deadline w.callback_time (some seconds) 1 queue_claim_stale_ms)
        fails
        (λ not_before.
          if is_some (given e.payload_key) && is_some (given e.run_id)
          then (if w.schedule_orphan (not_before + queue_orphan_grace_ms)
              then suspends seconds not_before
              else fails)
          else suspends seconds not_before))

  abbrev pub after_callback : Callback → Decision
  after_callback c =
      if is_final c.status
      then finish_delivery (given e.payload_key)
      else if eqb c.status 503
      then suspension c.timeout_seconds
      else retries

  abbrev pub call_workflow : Option String → Decision
  call_workflow body =
      match_option (target_base_url w.urls body) fails
        (λ target. match_option (w.fetch target body) fails after_callback)

  abbrev pub with_payload : Option String → Decision
  with_payload none = call_workflow e.body
  with_payload (some key) = match_option (w.read_payload key) fails (λ read.
      match_option read (if unregistered then completes else fails)
        (λ body. call_workflow (some body)))

  -- whether `getQueueAdmission` is asked
  abbrev pub asks_admission : Bool
  asks_admission =
      is_some (given e.run_id) && not (is_some (given e.payload_key)) && not e.run_scoped

  -- from the claim on
  unfoldable pub decide : Decision
  unfolding queue_delay_deadline configured_deployment_url
  decide =
      if asks_admission
      then match_option w.admission fails
          (λ admitted. if admitted then with_payload (given e.payload_key) else completes)
      else with_payload (given e.payload_key)
