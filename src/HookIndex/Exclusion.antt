-- ===== src/HookIndex/Exclusion.antt =====
-- A claim on a token of `src/worker/durable-objects/HookTokenDO.ts` against other hooks.
use world_celld.Common.{
  ℕ, ◌+◌, ◌≤◌, ◌<◌, String, ◌≡◌, ◌≢◌, false, Option, none, some, List, [], ◌∷◌, arith, eq_iff,
}
use world_celld.Apply.Entities.{Hook, Owner}
use world_celld.HookIndex.Slot.{HookCodec, HookClaim, TokenSlot, hook_claim_lease_ms, same_owner}
use world_celld.HookIndex.Reserve.{answered, held, reserve_transaction}
use world_celld.HookIndex.Publish.{
  finalize, finalize_transaction, release_claim, release_entry, publish_committed, withdraw,
}
use world_celld.HookIndex.Force.{force_transaction, abandon_takeover, roll_forward, preempt_claim}
use world_celld.HookIndex.Compact.{compact_claim, compact_retained, compact_stale_takeover, rearm}
use world_celld.HookIndex.Steps.{
  TokenOp, reserve, finish, unclaim, release, publish, unpublish, force, abandon, roll, preempt,
  compact, compact_retention, compact_takeover, arm_again, arm, step_token, step_tokens,
}

-- The claim of `owner` under `id` lasts until `t` at least, and nothing else holds the token.
pub record Claims (owner : Owner) (id : String) (t : ℕ) (s : TokenSlot) : Type 0 where
  pub claim :
      (c : HookClaim) × (s.claim ≡ some c)
      × (c.owner ≡ owner)
      × (c.claim_id ≡ id)
      × (t ≤ c.expires_at)
  pub free : (s.record' ≡ none) × (s.takeover ≡ none)

-- A transaction before `t` that is not one of the claim's own owner or of its claim ID.
abbrev pub Foreign : Owner → String → ℕ → ℕ → TokenOp → Type 0
Foreign owner id t now (reserve who cid expired committed) = now < t
Foreign owner id t now (finish raw who claim_id active) = same_owner owner who ≡ false
Foreign owner id t now (unclaim who cid) = same_owner owner who ≡ false
Foreign owner id t now (release who run_ended) = same_owner owner who ≡ false
Foreign owner id t now (publish observed hook) = id ≢ observed.claim_id
Foreign owner id t now (preempt observed hook) = id ≢ observed.claim_id
Foreign owner id t now (compact at cid observed hook) = now < t
Foreign owner id t now _ = Unit

module _ (codec : HookCodec) (owner : Owner) (id : String) (t : ℕ) where
  step_token-Claims :
      (s : TokenSlot) (now : ℕ) (op : TokenOp)
      → Claims owner id t s
      → Foreign owner id t now op
      → Claims owner id t (step_token codec s now op)
  unfolding step_token reserve_transaction finalize finalize_transaction release_claim release_entry
      publish_committed withdraw force_transaction abandon_takeover roll_forward preempt_claim
      compact_claim compact_retained compact_stale_takeover rearm
  step_token-Claims s now (reserve who cid expired committed) h f = ground arith
  step_token-Claims s now (finish raw who claim_id active) h f = ground arith
  step_token-Claims s now (unclaim who cid) h f = ground arith
  step_token-Claims s now (release who run_ended) h f = ground arith
  step_token-Claims s now (publish observed hook) h f = ground (arith, eq_iff id observed.claim_id)
  step_token-Claims s now (unpublish who) h f = ground arith
  step_token-Claims s now (force who cid indexed v) h f = ground arith
  step_token-Claims s now (abandon i) h f = ground arith
  step_token-Claims s now (roll i hook) h f = ground arith
  step_token-Claims s now (preempt observed hook) h f = ground (arith, eq_iff id observed.claim_id)
  step_token-Claims s now (compact at cid observed hook) h f = ground arith
  step_token-Claims s now (compact_retention at) h f = ground arith
  step_token-Claims s now (compact_takeover at) h f = ground arith
  step_token-Claims s now (arm_again more next pending) h f = ground arith
  step_token-Claims s now (arm at) h f = ground arith

abbrev pub AllForeign : Owner → String → ℕ → List (ℕ × TokenOp) → Type 0
AllForeign owner id t [] = Unit
AllForeign owner id t ((now, op) ∷ later) = Foreign owner id t now op × AllForeign owner id t later

step_tokens-Claims :
    (codec : HookCodec) (owner : Owner) (id : String) (t : ℕ) (ops : List (ℕ × TokenOp))
    (s : TokenSlot)
    → Claims owner id t s
    → AllForeign owner id t ops
    → Claims owner id t (step_tokens codec s ops)
unfolding step_tokens
step_tokens-Claims codec owner id t [] s h f = h
step_tokens-Claims codec owner id t ((now, op) ∷ later) s h f =
    step_tokens-Claims codec owner id t later (step_token codec s now op)
      (step_token-Claims codec owner id t s now op h f.0) f.1

reserved-Claims :
    (codec : HookCodec) (s : TokenSlot) (now : ℕ) (owner : Owner) (id : String)
    → s.record' ≡ none
    → s.takeover ≡ none
    → s.claim ≡ none
    → Claims owner id
        (now + hook_claim_lease_ms)
        (reserve_transaction codec s now owner id none none).0
unfolding reserve_transaction
reserved-Claims codec s now owner id r k c = record {
  claim = (
    record {
      owner = owner;
      claim_id = id;
      reserved_at = now;
      expires_at = now + hook_claim_lease_ms;
    },
    ground arith,
    ground arith,
    ground arith,
    ground arith,
  );
  free = ground arith;
}

held_out :
    (codec : HookCodec) (s : TokenSlot) (now t : ℕ) (owner who : Owner) (id cid : String)
    (expired : Option HookClaim) (committed : Option Hook)
    → Claims owner id t s
    → now < t
    → same_owner owner who ≡ false
    → (reserve_transaction codec s now who cid expired committed).1 ≡ answered (held owner)
unfolding reserve_transaction
held_out codec s now t owner who id cid expired committed h early other = ground arith

-- A reservation of a free token holds it for the lease: whatever transactions follow before its end
-- that are neither its owner's nor for its claim ID, another hook's reservation is answered with the
-- owner that holds the token.
pub reservation_excludes :
    (codec : HookCodec) (s : TokenSlot) (now later : ℕ) (owner who : Owner) (id cid : String)
    (ops : List (ℕ × TokenOp)) (expired : Option HookClaim) (committed : Option Hook)
    → (s.record' ≡ none) × (s.takeover ≡ none) × (s.claim ≡ none)
    → AllForeign owner id (now + hook_claim_lease_ms) ops
    → later < now + hook_claim_lease_ms
    → same_owner owner who ≡ false
    → (reserve_transaction codec
        (step_tokens codec (reserve_transaction codec s now owner id none none).0 ops)
        later
        who
        cid
        expired
        committed).1
      ≡ answered (held owner)
reservation_excludes codec s now later owner who id cid ops expired committed empty foreign early
      other =
    held_out codec _ later (now + hook_claim_lease_ms) owner who id cid expired committed
      (step_tokens-Claims codec owner id (now + hook_claim_lease_ms) ops _
        (reserved-Claims codec s now owner id empty.0 empty.1 empty.2) foreign)
      early other
