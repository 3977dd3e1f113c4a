-- ===== src/HookIndex/Id.antt =====
-- The hook-ID shard (`src/worker/durable-objects/HookIdDO.ts`), for one hook ID.
use world_celld.Common.{
  ℕ, ◌+◌, String, Bool, false, not, ◌&&◌, ◌||◌, Option, none, some, leb, ltb, ◌==◌, is_some, max,
  match_option, if◌then◌else◌,
}
use world_celld.Apply.Entities.{Hook, Owner}
use world_celld.HookIndex.Slot.{
  HookCodec, HookClaim, hook_claim_lease_ms, same_owner, owner_from_serialized_hook, put_at, armed,
}
use world_celld.HookIndex.Reserve.{Attempt, retry, answered, claimed, held, same_claim}
use world_celld.HookIndex.Publish.{
  Stored, stored, not_stored, owned_by_another, reservation_expired, reserved_by_another,
  no_reservation, is_foreign,
}

pub record IdSlot : Type 0 where
  pub record' : Option String
  pub claim : Option HookClaim
  pub claim_deadlines : ℕ → Option String
  pub alarm : Option ℕ

abbrev pub put_id_claim : IdSlot → HookClaim → IdSlot
put_id_claim s c = record s {
  claim = some c;
  claim_deadlines = put_at s.claim_deadlines c.expires_at (some c.claim_id);
  alarm = armed s.alarm c.expires_at;
}

abbrev pub drop_id_claim : IdSlot → HookClaim → IdSlot
drop_id_claim s c = record s {
  claim = none;
  claim_deadlines = put_at s.claim_deadlines c.expires_at none;
}

abbrev pub new_id_claim : IdSlot → ℕ → Owner → String → IdSlot × Attempt
new_id_claim s now owner id = (
  put_id_claim s (record {
    owner = owner;
    claim_id = id;
    reserved_at = now;
    expires_at = now + hook_claim_lease_ms;
  }),
  answered (claimed id),
)

abbrev pub reserve_expired_id :
    IdSlot → ℕ → Owner → String → Option HookClaim → Option Hook → HookClaim → IdSlot × Attempt
reserve_expired_id s now owner id expired committed c =
    if not (same_claim c expired)
    then (s, retry)
    else match_option committed (new_id_claim (drop_id_claim s c) now owner id) (λ h. (
      put_id_claim (drop_id_claim s c) (record c { expires_at = now + hook_claim_lease_ms }),
      answered (if same_owner c.owner owner then claimed c.claim_id else held c.owner),
    ))

-- `reserve`, its transaction: the owner's own live claim gives way to a new claim ID.
unfoldable pub reserve_id :
    HookCodec → IdSlot → ℕ → Owner → String → Option HookClaim → Option Hook → IdSlot × Attempt
reserve_id codec s now owner id expired committed =
    match_option s.record'
      (match_option s.claim (new_id_claim s now owner id) (λ c.
        if leb c.expires_at now
        then reserve_expired_id s now owner id expired committed c
        else if not (same_owner c.owner owner)
        then (s, answered (held c.owner))
        else if c.claim_id == id
        then (s, answered (claimed c.claim_id))
        else new_id_claim (drop_id_claim s c) now owner id))
      (λ raw. (s, answered (held (owner_from_serialized_hook codec raw))))

abbrev pub publish_id_claim : IdSlot → ℕ → Owner → Option String → Option Stored
publish_id_claim s now owner claim_id =
    match_option s.claim (if is_some s.record' then none else some no_reservation) (λ c.
      if leb c.expires_at now
      then some reservation_expired
      else if not (same_owner c.owner owner)
          || not (match_option claim_id false (λ id. c.claim_id == id))
      then some reserved_by_another
      else none)

abbrev pub put_id_record : IdSlot → String → IdSlot
put_id_record s raw =
    let s' = record s { record' = some raw } in match_option s.claim s' (λ c. drop_id_claim s' c)

-- One entry of `releaseBatch`.
unfoldable pub release_id : HookCodec → IdSlot → Owner → IdSlot
release_id codec s owner =
    let s' = match_option s.record' s (λ raw.
      if same_owner (owner_from_serialized_hook codec raw) owner
      then record s { record' = none }
      else s) in
    match_option s'.claim s' (λ c. if same_owner c.owner owner then drop_id_claim s' c else s')

-- `publish`, with whether the run is active as its cell answered it
unfoldable pub publish_id :
    HookCodec → IdSlot → ℕ → String → Owner → Option String → Bool → IdSlot × Stored
unfolding release_id
publish_id codec s now raw owner claim_id active =
    if not active
    then (release_id codec s owner, not_stored)
    else if is_foreign codec s.record' owner
    then (s, owned_by_another)
    else match_option (publish_id_claim s now owner claim_id) (put_id_record s raw, stored)
        (λ error. (s, error))

-- `releaseClaim`
unfoldable pub release_id_claim : IdSlot → Owner → String → IdSlot
release_id_claim s owner claim_id =
    match_option s.claim s
      (λ c. if same_owner c.owner owner && (c.claim_id == claim_id) then drop_id_claim s c else s)

-- An entry of `compactClaims`, as in the token shard.
unfoldable pub compact_id :
    HookCodec
    → IdSlot
    → ℕ
    → (at : ℕ) → (claim_id : String) → Option HookClaim
    → Option Hook
    → IdSlot
compact_id codec s now at claim_id observed hook =
    let stale = record s { claim_deadlines = put_at s.claim_deadlines at none } in
    match_option s.claim stale (λ c.
      if not (c.claim_id == claim_id) || ltb now c.expires_at
      then stale
      else if same_claim c observed
      then record stale {
        claim = none;
        record' = match_option hook s.record' (λ h. some (codec.stringify h));
      }
      else s)

-- The next alarm of the shard: at once while deadlines are due, and at the first one otherwise.
unfoldable pub rearm_ids : IdSlot → ℕ → Bool → Option ℕ → IdSlot
rearm_ids s now more next =
    if more
    then record s { alarm = some (now + 1) }
    else record s { alarm = match_option next none (λ at. some (max (now + 1) at)) }

pub data IdOp : Type 0 where
  reserve : Owner → String → Option HookClaim → Option Hook → IdOp
  publish : String → Owner → Option String → Bool → IdOp
  unclaim : Owner → String → IdOp
  release : Owner → IdOp
  compact : ℕ → String → Option HookClaim → Option Hook → IdOp
  arm_again : Bool → Option ℕ → IdOp

unfoldable pub step_id : HookCodec → IdSlot → ℕ → IdOp → IdSlot
step_id codec s now (reserve owner id expired committed) =
    (reserve_id codec s now owner id expired committed).0
step_id codec s now (publish raw owner claim_id active) =
    (publish_id codec s now raw owner claim_id active).0
step_id codec s now (unclaim owner id) = release_id_claim s owner id
step_id codec s now (release owner) = release_id codec s owner
step_id codec s now (compact at id observed hook) = compact_id codec s now at id observed hook
step_id codec s now (arm_again more next) = rearm_ids s now more next
