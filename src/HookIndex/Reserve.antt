-- ===== src/HookIndex/Reserve.antt =====
-- `reserve` of a token shard (`src/worker/durable-objects/HookTokenDO.ts`): what it observes before
-- its transaction, and the transaction.
use world_celld.Common.{
  ℕ, ◌+◌, String, Bool, false, not, ◌&&◌, Option, none, some, leb, ltb, eqb, ◌==◌, match_option,
  if◌then◌else◌,
}
use world_celld.Apply.Entities.{Hook, Owner}
use world_celld.HookIndex.Slot.{
  HookCodec, HookClaim, TokenSlot, hook_claim_lease_ms, same_owner, owner_from_serialized_hook,
  put_claim, drop_claim, is_free, free_retention,
}

pub data ReserveReply : Type 0 where
  claimed : String → ReserveReply
  held : Owner → ReserveReply

-- What a transaction answers: the loop goes on after `retry`, and after a settlement.
pub data Attempt : Type 0 where
  retry settle : Attempt
  answered : ReserveReply → Attempt

-- `observed && observed.expiresAt <= now ? observed : undefined`
abbrev pub expired_claim : Option HookClaim → ℕ → Option HookClaim
expired_claim none now = none
expired_claim (some c) now = if leb c.expires_at now then some c else none

abbrev pub new_claim : TokenSlot → ℕ → Owner → String → TokenSlot
new_claim s now owner id = put_claim s (record {
  owner = owner;
  claim_id = id;
  reserved_at = now;
  expires_at = now + hook_claim_lease_ms;
})

-- `renewClaim`
abbrev pub renew_claim : TokenSlot → HookClaim → ℕ → TokenSlot
renew_claim s c now =
    put_claim (drop_claim s c) (record c { expires_at = now + hook_claim_lease_ms })

abbrev pub same_claim : HookClaim → Option HookClaim → Bool
same_claim c none = false
same_claim c (some o) = (c.claim_id == o.claim_id) && eqb c.expires_at o.expires_at

-- An expired claim may be taken once the run's cell has fenced it; one whose hook committed is
-- renewed.
abbrev pub reserve_expired :
    TokenSlot
    → ℕ
    → Owner
    → String
    → Option HookClaim
    → Option Hook
    → HookClaim
    → TokenSlot × Attempt
reserve_expired s now owner id expired committed c =
    if not (same_claim c expired)
    then (s, retry)
    else match_option committed (new_claim (drop_claim s c) now owner id, answered (claimed id))
        (λ h. (
          renew_claim s c now,
          answered (if same_owner c.owner owner then claimed c.claim_id else held c.owner),
        ))

abbrev pub reserve_claim :
    TokenSlot → ℕ → Owner → String → Option HookClaim → Option Hook → TokenSlot × Attempt
reserve_claim s now owner id expired committed =
    match_option s.claim (new_claim s now owner id, answered (claimed id))
      (λ c.
        if leb c.expires_at now
        then reserve_expired s now owner id expired committed c
        else (s, answered (if same_owner c.owner owner then claimed c.claim_id else held c.owner)))

-- A live takeover holds the token; its own claimer and an abandoned one have it settled first.
abbrev pub reserve_unindexed :
    TokenSlot → ℕ → Owner → String → Option HookClaim → Option Hook → TokenSlot × Attempt
reserve_unindexed s now owner id expired committed =
    match_option s.takeover (reserve_claim s now owner id expired committed) (λ t.
      if not (same_owner t.claimer owner) && ltb now t.expires_at
      then (s, answered (held t.claimer))
      else (s, settle))

-- `reserve`, its transaction, with the expired claim that was observed before it and what the run's
-- cell answered about that claim
unfoldable pub reserve_transaction :
    HookCodec
    → TokenSlot
    → ℕ
    → Owner
    → String
    → Option HookClaim
    → Option Hook
    → TokenSlot × Attempt
reserve_transaction codec s now owner id expired committed =
    match_option s.record' (reserve_unindexed s now owner id expired committed) (λ raw.
      if is_free codec s raw now
      then reserve_unindexed (free_retention s) now owner id expired committed
      else (s, answered (held (owner_from_serialized_hook codec raw))))
