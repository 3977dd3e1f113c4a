-- ===== src/HookIndex/Steps.antt =====
-- The transactions of a token shard (`src/worker/durable-objects/HookTokenDO.ts`) on one token as
-- steps: calls to other cells lie between them, and what those answered is an argument.
use world_celld.Common.{ℕ, String, Bool, Option, List, [], ◌∷◌}
use world_celld.Apply.Entities.{Hook, Owner}
use world_celld.HookIndex.Slot.{HookCodec, HookClaim, HookTakeover, TokenSlot, arm_at_most}
use world_celld.HookIndex.Reserve.{reserve_transaction}
use world_celld.HookIndex.Publish.{
  finalize, release_claim, release_entry, publish_committed, withdraw,
}
use world_celld.HookIndex.Force.{
  Victim, force_transaction, abandon_takeover, roll_forward, preempt_claim,
}
use world_celld.HookIndex.Compact.{compact_claim, compact_retained, compact_stale_takeover, rearm}

pub data TokenOp : Type 0 where
  reserve : Owner → String → Option HookClaim → Option Hook → TokenOp
  finish : String → Owner → Option String → Bool → TokenOp
  unclaim : Owner → String → TokenOp
  release : Owner → Bool → TokenOp
  publish : HookClaim → Hook → TokenOp
  unpublish : Owner → TokenOp
  force : Owner → String → String → Victim → TokenOp
  abandon : HookTakeover → TokenOp
  roll : HookTakeover → Option Hook → TokenOp
  preempt : HookClaim → Option Hook → TokenOp
  compact : ℕ → String → Option HookClaim → Option Hook → TokenOp
  compact_retention : ℕ → TokenOp
  compact_takeover : ℕ → TokenOp
  arm_again : Bool → Option ℕ → Option ℕ → TokenOp
  -- another token of the shard sets the alarm
  arm : ℕ → TokenOp

unfoldable pub step_token : HookCodec → TokenSlot → ℕ → TokenOp → TokenSlot
step_token codec s now (reserve owner id expired committed) =
    (reserve_transaction codec s now owner id expired committed).0
step_token codec s now (finish raw owner claim_id active) =
    (finalize codec s now raw owner claim_id active).0
step_token codec s now (unclaim owner id) = release_claim s owner id
step_token codec s now (release owner run_ended) = release_entry codec s owner run_ended now
step_token codec s now (publish observed h) = publish_committed codec s observed h
step_token codec s now (unpublish owner) = withdraw codec s owner
step_token codec s now (force owner id indexed v) = (force_transaction s now owner id indexed v).0
step_token codec s now (abandon i) = abandon_takeover s i
step_token codec s now (roll i hook) = roll_forward codec s i hook
step_token codec s now (preempt observed hook) = preempt_claim codec s observed hook
step_token codec s now (compact at id observed hook) = compact_claim codec s now at id observed hook
step_token codec s now (compact_retention at) = compact_retained codec s now at
step_token codec s now (compact_takeover at) = compact_stale_takeover s at
step_token codec s now (arm_again more next pending) = rearm s now more next pending
step_token codec s now (arm at) = arm_at_most s at

unfoldable pub step_tokens : HookCodec → TokenSlot → List (ℕ × TokenOp) → TokenSlot
step_tokens codec s [] = s
step_tokens codec s ((now, op) ∷ later) = step_tokens codec (step_token codec s now op) later
