-- ===== src/HookIndex/Orphan.antt =====
-- A retention marker that its record has left, in `src/worker/durable-objects/HookTokenDO.ts`.
use world_celld.Common.{ℕ, String, ◌≡◌, true, false, Option, none, some, List, [], ◌∷◌, arith}
use world_celld.Apply.Entities.{Hook, Owner}
use world_celld.HookIndex.Slot.{
  HookCodec, HookClaim, RetainedToken, TokenSlot, same_owner, owner_from_serialized_hook,
}
use world_celld.HookIndex.Reserve.{answered, held, reserve_transaction}
use world_celld.HookIndex.Publish.{release_claim, release_entry, publish_committed, keeps}
use world_celld.HookIndex.Force.{abandon_takeover, roll_forward, preempt_claim}
use world_celld.HookIndex.Compact.{compact_claim, compact_retained, compact_stale_takeover, rearm}
use world_celld.HookIndex.Steps.{
  TokenOp, reserve, finish, unclaim, release, publish, unpublish, force, abandon, roll, preempt,
  compact, compact_retention, compact_takeover, arm_again, arm, step_token, step_tokens,
}

-- The retention marker names another hook than the record.
pub record IsOrphaned (codec : HookCodec) (raw : String) (s : TokenSlot) : Type 0 where
  pub record' : s.record' ≡ some raw
  pub retained :
      (r : RetainedToken) × (s.retained ≡ some r)
      × (same_owner (owner_from_serialized_hook codec raw) r.owner ≡ false)
  pub claim : s.claim ≡ none
  pub takeover : s.takeover ≡ none

-- What happens to a token with this record but a finalization, a withdrawal, a forced reservation, and
-- a release of an end of the run that leaves no retention ahead: reservations, publications, ends of
-- runs with the retention ahead, and every transaction of the alarm.
abbrev pub IsPassive : HookCodec → String → ℕ → TokenOp → Type 0
IsPassive codec raw now (finish raw' who claim_id active) = ⊥
IsPassive codec raw now (release who run_ended) = keeps (codec.parse raw) run_ended now ≡ true
IsPassive codec raw now (unpublish who) = ⊥
IsPassive codec raw now (force who cid indexed v) = ⊥
IsPassive codec raw now _ = Unit

abbrev pub AllPassive : HookCodec → String → List (ℕ × TokenOp) → Type 0
AllPassive codec raw [] = Unit
AllPassive codec raw ((now, op) ∷ later) = IsPassive codec raw now op × AllPassive codec raw later

step_token-IsOrphaned :
    (codec : HookCodec) (raw : String) (s : TokenSlot) (now : ℕ) (op : TokenOp)
    → IsOrphaned codec raw s
    → IsPassive codec raw now op
    → IsOrphaned codec raw (step_token codec s now op)
unfolding step_token reserve_transaction release_claim release_entry publish_committed
    abandon_takeover roll_forward preempt_claim compact_claim compact_retained
    compact_stale_takeover rearm
step_token-IsOrphaned codec raw s now (reserve who cid expired committed) h f = ground arith
step_token-IsOrphaned codec raw s now (unclaim who cid) h f = ground arith
step_token-IsOrphaned codec raw s now (release who run_ended) h f = ground arith
step_token-IsOrphaned codec raw s now (publish observed hook) h f = ground arith
step_token-IsOrphaned codec raw s now (abandon i) h f = ground arith
step_token-IsOrphaned codec raw s now (roll i hook) h f = ground arith
step_token-IsOrphaned codec raw s now (preempt observed hook) h f = ground arith
step_token-IsOrphaned codec raw s now (compact at cid observed hook) h f = ground arith
step_token-IsOrphaned codec raw s now (compact_retention at) h f = ground arith
step_token-IsOrphaned codec raw s now (compact_takeover at) h f = ground arith
step_token-IsOrphaned codec raw s now (arm_again more next pending) h f = ground arith
step_token-IsOrphaned codec raw s now (arm at) h f = ground arith
step_token-IsOrphaned codec raw s now (finish r who claim_id active) h f = absurd f
step_token-IsOrphaned codec raw s now (unpublish who) h f = absurd f
step_token-IsOrphaned codec raw s now (force who cid indexed v) h f = absurd f

orphan_holds :
    (codec : HookCodec) (raw : String) (s : TokenSlot) (now : ℕ) (who : Owner) (cid : String)
    (expired : Option HookClaim) (committed : Option Hook)
    → IsOrphaned codec raw s
    → (reserve_transaction codec s now who cid expired committed).1
      ≡ answered (held (owner_from_serialized_hook codec raw))
unfolding reserve_transaction
orphan_holds codec raw s now who cid expired committed h = ground arith

-- Where the retention marker names another hook than the record, and no claim or takeover is stored,
-- nothing but a finalization, a withdrawal, a forced reservation or a release without retention ahead
-- frees the token: after whatever reservations, publications, ends of runs with their retention ahead
-- and transactions of the alarm, at any time, however late, a reservation is answered with the
-- record's owner.
pub orphaned_retention_blocks :
    (codec : HookCodec) (raw : String) (ops : List (ℕ × TokenOp)) (s : TokenSlot) (now : ℕ)
    (who : Owner) (cid : String) (expired : Option HookClaim) (committed : Option Hook)
    → IsOrphaned codec raw s
    → AllPassive codec raw ops
    → (reserve_transaction codec (step_tokens codec s ops) now who cid expired committed).1
      ≡ answered (held (owner_from_serialized_hook codec raw))
unfolding step_tokens
orphaned_retention_blocks codec raw [] s now who cid expired committed h f =
    orphan_holds codec raw s now who cid expired committed h
orphaned_retention_blocks codec raw ((at, op) ∷ later) s now who cid expired committed h f =
    orphaned_retention_blocks codec raw later (step_token codec s at op) now who cid expired
      committed (step_token-IsOrphaned codec raw s at op h f.0) f.1
