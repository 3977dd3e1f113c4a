-- ===== src/HookIndex/IdOwner.antt =====
-- Who owns a hook ID of `src/worker/durable-objects/HookIdDO.ts`.
use world_celld.Common.{
  ℕ, String, ◌≡◌, Bool, true, Option, none, arith, is_some, Option-cases, inl, inr,
}
use world_celld.Apply.Entities.{Owner}
use world_celld.HookIndex.Slot.{HookCodec, same_owner, owner_from_serialized_hook}
use world_celld.HookIndex.Ownership.{KeepsOwner, same_owner_iff}
use world_celld.HookIndex.Id.{
  IdSlot, IdOp, reserve, publish, unclaim, release, compact, arm_again, reserve_id, publish_id,
  release_id, release_id_claim, compact_id, rearm_ids, step_id,
}

-- The publication carries the owner's own hook.
abbrev pub OwnHook : HookCodec → IdOp → Type 0
OwnHook codec (publish raw who claim_id active) =
    same_owner (owner_from_serialized_hook codec raw) who ≡ true
OwnHook codec _ = Unit

-- A record excludes a claim.
abbrev pub IsSole : IdSlot → Type 0
IsSole s = is_some s.record' ≡ true → s.claim ≡ none

publish_keeps :
    (codec : HookCodec) (s : IdSlot) (now : ℕ) (raw : String) (who : Owner)
    (claim_id : Option String) (active : Bool)
    → same_owner (owner_from_serialized_hook codec raw) who ≡ true
    → KeepsOwner codec s.record' (publish_id codec s now raw who claim_id active).0.record'
unfolding publish_id release_id
publish_keeps codec s now raw who claim_id active f = elim (Option-cases s.record') [
  | inl gone ↦ ground (arith, gone)
  | inr (old, at) ↦ ground (
    arith,
    at,
    same_owner_iff (owner_from_serialized_hook codec raw) who f,
    same_owner_iff (owner_from_serialized_hook codec old) who,
  )
]

-- Where no claim stands beside a record, and a hook is published for the owner that it names, a
-- transaction on a hook ID leaves no claim beside a record, and a record that it leaves has the owner
-- that it had.
hook_id-KeepsOwner :
    (codec : HookCodec) (s : IdSlot) (now : ℕ) (op : IdOp)
    → IsSole s
    → OwnHook codec op
    → IsSole (step_id codec s now op) × KeepsOwner codec s.record' (step_id codec s now op).record'
unfolding step_id reserve_id publish_id release_id release_id_claim compact_id rearm_ids
hook_id-KeepsOwner codec s now (reserve who cid expired committed) h f = ground arith
hook_id-KeepsOwner codec s now (publish raw who claim_id active) h f =
    (ground arith, publish_keeps codec s now raw who claim_id active f)
hook_id-KeepsOwner codec s now (unclaim who cid) h f = ground arith
hook_id-KeepsOwner codec s now (release who) h f = ground arith
hook_id-KeepsOwner codec s now (compact at cid observed hook) h f = ground arith
hook_id-KeepsOwner codec s now (arm_again more next) h f = ground arith
