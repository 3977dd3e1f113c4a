-- ===== src/HookIndex/Holder.antt =====
-- Who holds a token of `src/worker/durable-objects/HookTokenDO.ts`: the record's hook, a claim, or a
-- takeover.
use world_celld.Common.{ℕ, ◌≡◌, true, ◌||◌, none, List, [], ◌∷◌, arith, is_some}
use world_celld.HookIndex.Slot.{HookCodec, TokenSlot}
use world_celld.HookIndex.Reserve.{reserve_transaction}
use world_celld.HookIndex.Publish.{
  finalize, finalize_transaction, release_claim, release_entry, publish_committed, withdraw,
}
use world_celld.HookIndex.Force.{force_transaction, abandon_takeover, roll_forward, preempt_claim}
use world_celld.HookIndex.Compact.{compact_claim, compact_retained, compact_stale_takeover, rearm}
use world_celld.HookIndex.Steps.{
  TokenOp, reserve, finish, unclaim, release, publish, unpublish, force, abandon, roll, preempt,
  compact, compact_retention, compact_takeover, arm_again, arm, step_token, step_tokens,
}

-- While a record or a takeover is stored, no claim is.
abbrev pub IsExclusive : TokenSlot → Type 0
IsExclusive s = (is_some s.record' || is_some s.takeover) ≡ true → s.claim ≡ none

step_token-IsExclusive :
    (codec : HookCodec) (s : TokenSlot) (now : ℕ) (op : TokenOp)
    → IsExclusive s
    → IsExclusive (step_token codec s now op)
unfolding step_token reserve_transaction finalize finalize_transaction release_claim release_entry
    publish_committed withdraw force_transaction abandon_takeover roll_forward preempt_claim
    compact_claim compact_retained compact_stale_takeover rearm
step_token-IsExclusive codec s now (reserve owner id expired committed) h = ground arith
step_token-IsExclusive codec s now (finish raw owner claim_id active) h = ground arith
step_token-IsExclusive codec s now (unclaim owner id) h = ground arith
step_token-IsExclusive codec s now (release owner run_ended) h = ground arith
step_token-IsExclusive codec s now (publish observed hook) h = ground arith
step_token-IsExclusive codec s now (unpublish owner) h = ground arith
step_token-IsExclusive codec s now (force owner id indexed v) h = ground arith
step_token-IsExclusive codec s now (abandon i) h = ground arith
step_token-IsExclusive codec s now (roll i hook) h = ground arith
step_token-IsExclusive codec s now (preempt observed hook) h = ground arith
step_token-IsExclusive codec s now (compact at id observed hook) h = ground arith
step_token-IsExclusive codec s now (compact_retention at) h = ground arith
step_token-IsExclusive codec s now (compact_takeover at) h = ground arith
step_token-IsExclusive codec s now (arm_again more next pending) h = ground arith
step_token-IsExclusive codec s now (arm at) h = ground arith

-- Whatever transactions a token goes through, no claim is stored beside a record or a takeover.
pub step_tokens-IsExclusive :
    (codec : HookCodec) (ops : List (ℕ × TokenOp)) (s : TokenSlot)
    → IsExclusive s
    → IsExclusive (step_tokens codec s ops)
unfolding step_tokens
step_tokens-IsExclusive codec [] s h = h
step_tokens-IsExclusive codec ((now, op) ∷ later) s h =
    step_tokens-IsExclusive codec later (step_token codec s now op)
      (step_token-IsExclusive codec s now op h)
