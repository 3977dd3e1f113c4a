-- ===== src/HookIndex/Ownership.antt =====
-- How the record of a token changes hands in `src/worker/durable-objects/HookTokenDO.ts`.
use world_celld.Common.{
  ℕ, String, ◌≡◌, Bool, true, Option, some, arith, eq_iff, Option-cases, inl, inr,
}
use world_celld.Apply.Entities.{Owner}
use world_celld.HookIndex.Slot.{HookCodec, TokenSlot, same_owner, owner_from_serialized_hook}
use world_celld.HookIndex.Reserve.{reserve_transaction}
use world_celld.HookIndex.Publish.{
  finalize, finalize_transaction, release_claim, release_entry, publish_committed, withdraw,
}
use world_celld.HookIndex.Force.{force_transaction, abandon_takeover, roll_forward, preempt_claim}
use world_celld.HookIndex.Compact.{compact_claim, compact_retained, compact_stale_takeover, rearm}
use world_celld.HookIndex.Steps.{
  TokenOp, reserve, finish, unclaim, release, publish, unpublish, force, abandon, roll, preempt,
  compact, compact_retention, compact_takeover, arm_again, arm, step_token,
}
use world_celld.HookIndex.Holder.{IsExclusive}

-- A publication carries the owner's own hook, and no takeover is rolled forward.
abbrev pub Ordinary : HookCodec → TokenOp → Type 0
Ordinary codec (finish raw owner claim_id active) =
    same_owner (owner_from_serialized_hook codec raw) owner ≡ true
Ordinary codec (roll i hook) = ⊥
Ordinary codec _ = Unit

-- The record that is there, if one is left, has the owner that it had.
abbrev pub KeepsOwner : HookCodec → Option String → Option String → Type 0
KeepsOwner codec (some raw) (some raw') =
    owner_from_serialized_hook codec raw' ≡ owner_from_serialized_hook codec raw
KeepsOwner codec _ _ = Unit

pub same_owner_iff : (a b : Owner) → same_owner a b ≡ true → a ≡ b
same_owner_iff a b h = ground (arith, eq_iff a.run_id b.run_id, eq_iff a.hook_id b.hook_id)

finish-KeepsOwner :
    (codec : HookCodec) (s : TokenSlot) (now : ℕ) (raw : String) (who : Owner)
    (claim_id : Option String) (active : Bool)
    → same_owner (owner_from_serialized_hook codec raw) who ≡ true
    → KeepsOwner codec s.record' (finalize codec s now raw who claim_id active).0.record'
unfolding finalize finalize_transaction release_entry
finish-KeepsOwner codec s now raw who claim_id active f = elim (Option-cases s.record') [
  | inl none' ↦ ground (arith, none')
  | inr (old, at) ↦ ground (
    arith,
    at,
    same_owner_iff (owner_from_serialized_hook codec raw) who f,
    same_owner_iff (owner_from_serialized_hook codec old) who,
  )
]

-- A record changes hands only by a takeover that is rolled forward: where no claim stands beside a
-- record, and a hook is finalized for the owner that it names, any other transaction that leaves a
-- record leaves it with the owner that it had.
pub record-KeepsOwner :
    (codec : HookCodec) (s : TokenSlot) (now : ℕ) (op : TokenOp)
    → IsExclusive s
    → Ordinary codec op
    → KeepsOwner codec s.record' (step_token codec s now op).record'
unfolding step_token reserve_transaction finalize finalize_transaction release_claim release_entry
    publish_committed withdraw force_transaction abandon_takeover roll_forward preempt_claim
    compact_claim compact_retained compact_stale_takeover rearm
record-KeepsOwner codec s now (reserve who cid expired committed) h f = ground arith
record-KeepsOwner codec s now (finish raw who claim_id active) h f =
    finish-KeepsOwner codec s now raw who claim_id active f
record-KeepsOwner codec s now (unclaim who cid) h f = ground arith
record-KeepsOwner codec s now (release who run_ended) h f = ground arith
record-KeepsOwner codec s now (publish observed hook) h f = ground arith
record-KeepsOwner codec s now (unpublish who) h f = ground arith
record-KeepsOwner codec s now (force who cid indexed v) h f = ground arith
record-KeepsOwner codec s now (abandon i) h f = ground arith
record-KeepsOwner codec s now (roll i hook) h f = ground arith
record-KeepsOwner codec s now (preempt observed hook) h f = ground arith
record-KeepsOwner codec s now (compact at cid observed hook) h f = ground arith
record-KeepsOwner codec s now (compact_retention at) h f = ground arith
record-KeepsOwner codec s now (compact_takeover at) h f = ground arith
record-KeepsOwner codec s now (arm_again more next pending) h f = ground arith
record-KeepsOwner codec s now (arm at) h f = ground arith
