-- ===== src/HookIndex/Force.antt =====
-- Forced takeovers of a token (`src/worker/durable-objects/HookTokenDO.ts`): the intent, its
-- settlement, and the preemption of a creation in flight.
use world_celld.Common.{
  ℕ, ◌+◌, String, Bool, true, false, not, ◌||◌, Option, none, some, ◌==◌, is_some, match_option,
  if◌then◌else◌,
}
use world_celld.Apply.Entities.{Hook, Owner, ClaimedFrom}
use world_celld.HookIndex.Slot.{
  HookCodec, HookClaim, HookTakeover, TokenSlot, hook_takeover_settle_ms, put_at, arm_at_most,
  drop_claim, drop_retained, drop_record,
}

-- What `forceReserve` has learnt of the record's owner before its transaction.
pub record Victim : Type 0 where
  pub owner : Owner
  pub running : Bool
  pub claimed_from : ClaimedFrom
  pub take_over : Bool

abbrev pub intent : Owner → String → Victim → ℕ → HookTakeover
intent owner id v now = record {
  claimer = owner;
  claim_id = id;
  victim = v.owner;
  victim_running = v.running;
  claimed_from = v.claimed_from;
  expires_at = now + hook_takeover_settle_ms;
}

abbrev pub put_takeover : TokenSlot → HookTakeover → TokenSlot
put_takeover s t =
    arm_at_most
      (record s {
        takeover = some t;
        takeover_deadlines = put_at s.takeover_deadlines t.expires_at true;
      })
      t.expires_at

abbrev pub drop_takeover : TokenSlot → HookTakeover → TokenSlot
drop_takeover s t = record s {
  takeover = none;
  takeover_deadlines = put_at s.takeover_deadlines t.expires_at false;
}

abbrev pub same_raw : Option String → String → Bool
same_raw none raw = false
same_raw (some r) raw = r == raw

-- `forceReserve`, its transaction, for the record that was read before
unfoldable pub force_transaction :
    TokenSlot → ℕ → Owner → String → String → Victim → TokenSlot × Option HookTakeover
force_transaction s now owner id indexed v =
    if not (same_raw s.record' indexed) || is_some s.takeover
    then (s, none)
    else if v.take_over
    then (put_takeover s (intent owner id v now), some (intent owner id v now))
    else (drop_retained (drop_record s), none)

abbrev pub pending_intent : TokenSlot → HookTakeover → Bool
pending_intent s i = match_option s.takeover false (λ t. t.claim_id == i.claim_id)

-- `settleTakeover`, its transaction when the takeover is not journaled
unfoldable pub abandon_takeover : TokenSlot → HookTakeover → TokenSlot
abandon_takeover s i =
    if pending_intent s i
    then (let s' = drop_takeover s i in
        match_option s'.retained s' (λ r.
          arm_at_most (record s' { retained_deadlines = put_at s'.retained_deadlines r.until true })
            r.until))
    else s

-- `rollForward`, its transaction, with the claimer's hook if it still has one
unfoldable pub roll_forward : HookCodec → TokenSlot → HookTakeover → Option Hook → TokenSlot
roll_forward codec s i hook =
    if pending_intent s i
    then record (drop_retained (drop_takeover s i)) {
      record' = match_option hook none (λ h. some (codec.stringify h));
    }
    else s

-- `preemptClaim`, its transaction, for the claim that was observed and the hook that its run's cell
-- has committed instead of being fenced
unfoldable pub preempt_claim : HookCodec → TokenSlot → HookClaim → Option Hook → TokenSlot
preempt_claim codec s observed hook = match_option s.claim s (λ c.
    if c.claim_id == observed.claim_id
    then drop_claim
        (record s { record' = match_option hook s.record' (λ h. some (codec.stringify h)) }) c
    else s)
