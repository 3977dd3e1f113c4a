-- ===== src/RunCell/Lookups.antt =====
-- What a run's cell answers to the hook shards and to the queue
-- (`src/worker/durable-objects/WorkflowRunDO.ts`): `resolveExpiredHookClaim`, `getCommittedHook`,
-- `describeForceClaimVictim`, `getLifecycleStatus`, `getQueueAdmission`.
use Prim.Native.String.{◌++◌}
use world_celld.Common.{
  ℕ, String, Bool, not, ◌||◌, Option, none, some, ◌==◌, is_some, match_option, if◌then◌else◌,
}
use world_celld.Queue.Claim.{non_empty}
use world_celld.Apply.Entities.{Hook, Cancellation}
use world_celld.Apply.External.{Platform}
use world_celld.Apply.Guards.{terminal_run}
use world_celld.RunCell.Retention.{RunCell, CellResult, thrown, settled, tombstone_from}
use world_celld.RunCell.Events.{cancel_claim}

-- The hook if it has the token, where a token is asked for.
abbrev pub with_token : Option Hook → Option String → Option Hook
with_token none token = none
with_token (some h) none = some h
with_token (some h) (some token) = if h.token == token then some h else none

-- Both forms of the claim ID.
abbrev pub cancel_claims : RunCell → String → Cancellation → RunCell
cancel_claims c id cancellation =
    cancel_claim (cancel_claim c (id ++ ":" ++ id) cancellation) ("-:" ++ id) cancellation

-- `resolveExpiredHookClaim`
unfoldable pub resolve_expired_hook_claim :
    Platform → RunCell → (hook_id claim_id : String) → Option String → ℕ → CellResult (Option Hook)
resolve_expired_hook_claim p c hook_id claim_id token now =
    if not (non_empty hook_id) || not (non_empty claim_id)
    then thrown
    else if is_some (tombstone_from c now) || terminal_run p c.state.store.run
    then settled none c
    else match_option (with_token (c.state.store.hooks hook_id) token)
        (settled none (
          cancel_claims c claim_id
            (record { hook_id = hook_id; token = token; canceled_at = now })))
        (λ h. settled (some h) c)

-- `getCommittedHook`; the outer none is the error of its arguments.
unfoldable pub get_committed_hook :
    Platform → RunCell → (hook_id : String) → Option String → ℕ → Option (Option Hook)
get_committed_hook p c hook_id token now =
    if not (non_empty hook_id)
    then none
    else if is_some (tombstone_from c now)
        || not (is_some c.state.store.run)
        || terminal_run p c.state.store.run
    then some none
    else some (with_token (c.state.store.hooks hook_id) token)

pub data RunLifecycleStatus : Type 0 where
  active terminal expired missing : RunLifecycleStatus

-- `getLifecycleStatus`
unfoldable pub get_lifecycle_status : Platform → RunCell → ℕ → RunLifecycleStatus
get_lifecycle_status p c now =
    if is_some (tombstone_from c now)
    then expired
    else match_option c.state.store.run missing
        (λ r. if p.is_terminal_run r.status then terminal else active)

pub record ForceClaimVictim : Type 0 where
  pub lifecycle : RunLifecycleStatus
  pub workflow_name : Option String
  pub deployment_id : Option String
  pub spec_version : Option ℕ

abbrev pub undescribed : RunLifecycleStatus → ForceClaimVictim
undescribed status = record {
  lifecycle = status;
  workflow_name = none;
  deployment_id = none;
  spec_version = none;
}

-- `describeForceClaimVictim`
unfoldable pub describe_force_claim_victim : Platform → RunCell → ℕ → ForceClaimVictim
describe_force_claim_victim p c now =
    if is_some (tombstone_from c now)
    then undescribed expired
    else match_option c.state.store.run (undescribed missing) (λ r. record {
      lifecycle = if p.is_terminal_run r.status then terminal else active;
      workflow_name = some r.workflow_name;
      deployment_id = some r.deployment_id;
      spec_version = some r.spec_version;
    })

-- `getQueueAdmission`: whether the run has not expired
unfoldable pub get_queue_admission : RunCell → ℕ → Bool
get_queue_admission c now = not (is_some (tombstone_from c now))
