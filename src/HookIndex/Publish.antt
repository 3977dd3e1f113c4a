-- ===== src/HookIndex/Publish.antt =====
-- Publication and release of a token (`src/worker/durable-objects/HookTokenDO.ts` and
-- `src/worker/durable-objects/hook-index-shared.ts`).
use world_celld.Common.{
  ℕ, String, Bool, false, not, ◌&&◌, ◌||◌, Option, none, some, leb, ◌==◌, is_some, match_option,
  if◌then◌else◌,
}
use world_celld.Apply.Entities.{Hook, Owner}
use world_celld.HookIndex.Slot.{
  HookCodec, HookClaim, TokenSlot, same_owner, owner_from_serialized_hook, retention_ahead,
  retain_token, drop_claim, drop_retained, drop_record,
}

-- The answer of `finalize`, or the error that it throws.
pub data Stored : Type 0 where
  stored not_stored : Stored
  owned_by_another reservation_expired reserved_by_another no_reservation : Stored

abbrev pub publish_record : TokenSlot → String → TokenSlot
publish_record s raw =
    let s' = record s { record' = some raw } in match_option s.claim s' (λ c. drop_claim s' c)

-- A run that has ended keeps its token for the hook's retention.
abbrev pub retain_ended : TokenSlot → Owner → Bool → Option ℕ → TokenSlot
retain_ended s owner active until =
    if active then s else match_option until s (λ at. retain_token s owner at)

abbrev pub finalize_claim : TokenSlot → ℕ → Owner → Option String → Option Stored
finalize_claim s now owner claim_id =
    match_option s.claim (if is_some s.record' then none else some no_reservation) (λ c.
      if leb c.expires_at now
      then some reservation_expired
      else if not (same_owner c.owner owner)
          || not (match_option claim_id false (λ id. c.claim_id == id))
      then some reserved_by_another
      else none)

abbrev pub is_foreign : HookCodec → Option String → Owner → Bool
is_foreign codec indexed owner =
    match_option indexed false
      (λ raw. not (same_owner (owner_from_serialized_hook codec raw) owner))

-- `finalize`, its transaction
unfoldable pub finalize_transaction :
    HookCodec → TokenSlot → ℕ → String → Owner → Option String → Bool → TokenSlot × Stored
finalize_transaction codec s now raw owner claim_id active =
    if is_foreign codec s.record' owner
    then (s, owned_by_another)
    else match_option (finalize_claim s now owner claim_id)
        (
          retain_ended (publish_record s raw) owner active (codec.parse raw).token_retention_until,
          stored,
        )
        (λ error. (s, error))

-- `releaseClaim`
unfoldable pub release_claim : TokenSlot → Owner → String → TokenSlot
release_claim s owner claim_id =
    match_option s.claim s
      (λ c. if same_owner c.owner owner && (c.claim_id == claim_id) then drop_claim s c else s)

-- The hook's run ended and its retention is still ahead.
abbrev pub keeps : Hook → Bool → ℕ → Bool
keeps h run_ended now = run_ended && retention_ahead h now

abbrev pub release_record : HookCodec → TokenSlot → Owner → Bool → ℕ → TokenSlot
release_record codec s owner run_ended now = match_option s.record' s (λ raw.
    if not (same_owner (owner_from_serialized_hook codec raw) owner)
    then s
    else if keeps (codec.parse raw) run_ended now
    then (if is_some s.retained
        then s
        else match_option (codec.parse raw).token_retention_until s
            (λ until. retain_token s owner until))
    else drop_retained (drop_record s))

-- One entry of `releaseBatch`.
unfoldable pub release_entry : HookCodec → TokenSlot → Owner → Bool → ℕ → TokenSlot
release_entry codec s owner run_ended now =
    let s' = release_record codec s owner run_ended now in
    match_option s'.claim s' (λ c. if same_owner c.owner owner then drop_claim s' c else s')

-- `finalize`, with the run's lifecycle as its cell answered it
unfoldable pub finalize :
    HookCodec → TokenSlot → ℕ → String → Owner → Option String → Bool → TokenSlot × Stored
unfolding finalize_transaction release_entry
finalize codec s now raw owner claim_id active =
    if not active && not (retention_ahead (codec.parse raw) now)
    then (release_entry codec s owner false now, not_stored)
    else finalize_transaction codec s now raw owner claim_id active

-- `publishCommittedClaim`, its transaction, for the claim that was observed and the hook that its
-- run's cell has committed
unfoldable pub publish_committed : HookCodec → TokenSlot → HookClaim → Hook → TokenSlot
publish_committed codec s observed h =
    match_option s.record'
      (match_option s.claim s (λ c.
        if c.claim_id == observed.claim_id
        then drop_claim (record s { record' = some (codec.stringify h) }) c
        else s))
      (λ raw. s)

-- `confirmRepublished`, its transaction, when the owner no longer has the hook
unfoldable pub withdraw : HookCodec → TokenSlot → Owner → TokenSlot
withdraw codec s owner =
    match_option s.record' s
      (λ raw. if same_owner (owner_from_serialized_hook codec raw) owner then drop_record s else s)
