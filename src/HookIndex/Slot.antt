-- ===== src/HookIndex/Slot.antt =====
-- What a token shard (`src/worker/durable-objects/HookTokenDO.ts`) stores for one token: the record
-- of its hook, a claim, a retention past the run's end, a takeover, and their deadlines.
use world_celld.Common.{
  ℕ, ◌+◌, ◌*◌, String, Bool, true, false, not, ◌&&◌, Option, none, some, leb, ltb, eqb, ◌==◌,
  is_some, match_option, if◌then◌else◌,
}
use world_celld.Apply.Entities.{Hook, Owner, ClaimedFrom}

-- `parse` and `stringify` of a stored hook, which the vendored serialization implements.
pub record HookCodec : Type 0 where
  pub parse : String → Hook
  pub stringify : Hook → String

-- The deadline key of a claim, a retention or a takeover is its time, with the token.
pub record HookClaim : Type 0 where
  pub owner : Owner
  pub claim_id : String
  pub reserved_at : ℕ
  pub expires_at : ℕ

pub record RetainedToken : Type 0 where
  pub owner : Owner
  pub until : ℕ

pub record HookTakeover : Type 0 where
  pub claimer : Owner
  pub claim_id : String
  pub victim : Owner
  pub victim_running : Bool
  pub claimed_from : ClaimedFrom
  pub expires_at : ℕ

-- The deadlines are those of this token; the alarm is the shard's.
pub record TokenSlot : Type 0 where
  pub record' : Option String
  pub claim : Option HookClaim
  pub retained : Option RetainedToken
  pub takeover : Option HookTakeover
  pub claim_deadlines : ℕ → Option String
  pub retained_deadlines : ℕ → Bool
  pub takeover_deadlines : ℕ → Bool
  pub alarm : Option ℕ

-- `HOOK_CLAIM_LEASE_MS`
abbrev pub hook_claim_lease_ms : ℕ
hook_claim_lease_ms = (3 * 2 + 1) * (5 * 60 * 1000) + 900 * 2

-- `HOOK_TAKEOVER_SETTLE_MS`
abbrev pub hook_takeover_settle_ms : ℕ
hook_takeover_settle_ms = 5 * 60 * 1000

-- `sameOwner`
abbrev pub same_owner : Owner → Owner → Bool
same_owner a b = (a.run_id == b.run_id) && (a.hook_id == b.hook_id)

abbrev pub owner_of : Hook → Owner
owner_of h = record { run_id = h.run_id; hook_id = h.hook_id }

-- `ownerFromSerializedHook`
abbrev pub owner_from_serialized_hook : HookCodec → String → Owner
owner_from_serialized_hook codec raw = owner_of (codec.parse raw)

-- `retentionAhead`
abbrev pub retention_ahead : Hook → ℕ → Bool
retention_ahead h now = match_option h.token_retention_until false (λ until. ltb now until)

abbrev pub put_at {ℓ} : {A : Type ℓ} → (ℕ → A) → ℕ → A → ℕ → A
put_at m at a t = if eqb at t then a else m t

-- `armAtMost`
abbrev pub armed : Option ℕ → ℕ → Option ℕ
armed current at = match_option current (some at) (λ c. if ltb at c then some at else some c)

abbrev pub arm_at_most : TokenSlot → ℕ → TokenSlot
arm_at_most s at = record s { alarm = armed s.alarm at }

-- A claim with its deadline, and the alarm for it.
abbrev pub put_claim : TokenSlot → HookClaim → TokenSlot
put_claim s c =
    arm_at_most
      (record s {
        claim = some c;
        claim_deadlines = put_at s.claim_deadlines c.expires_at (some c.claim_id);
      })
      c.expires_at

abbrev pub drop_claim : TokenSlot → HookClaim → TokenSlot
drop_claim s c = record s {
  claim = none;
  claim_deadlines = put_at s.claim_deadlines c.expires_at none;
}

-- `markRetained`, with the alarm that its callers set
abbrev pub retain_token : TokenSlot → Owner → ℕ → TokenSlot
retain_token s owner until =
    arm_at_most
      (record s {
        retained = some (record { owner = owner; until = until });
        retained_deadlines = put_at s.retained_deadlines until true;
      })
      until

abbrev pub drop_retained : TokenSlot → TokenSlot
drop_retained s = match_option s.retained s (λ r. record s {
  retained = none;
  retained_deadlines = put_at s.retained_deadlines r.until false;
})

abbrev pub drop_record : TokenSlot → TokenSlot
drop_record s = record s { record' = none }

-- The retention of a finished run has passed, and no takeover is pending.
abbrev pub is_free : HookCodec → TokenSlot → String → ℕ → Bool
is_free codec s raw now = match_option s.retained false (λ r.
    leb r.until now
    && not (is_some s.takeover)
    && same_owner (owner_from_serialized_hook codec raw) r.owner)

-- `freeExpiredRetention`, where it frees
abbrev pub free_retention : TokenSlot → TokenSlot
free_retention s = drop_retained (drop_record s)
