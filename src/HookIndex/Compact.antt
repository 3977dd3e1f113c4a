-- ===== src/HookIndex/Compact.antt =====
-- The alarm of a token shard (`src/worker/durable-objects/HookTokenDO.ts`), for one token: the
-- entries of its pages, and the next alarm.
use world_celld.Common.{
  ℕ, ◌+◌, String, Bool, false, not, ◌&&◌, ◌||◌, Option, none, some, ltb, eqb, max, ◌==◌,
  match_option, if◌then◌else◌,
}
use world_celld.Apply.Entities.{Hook}
use world_celld.HookIndex.Slot.{HookCodec, HookClaim, TokenSlot, put_at, is_free, free_retention}
use world_celld.HookIndex.Reserve.{same_claim}

-- An entry of `compactClaims`: a deadline and its claim ID, the claim observed before the
-- transaction, and the hook that its run's cell has committed.
unfoldable pub compact_claim :
    HookCodec
    → TokenSlot
    → ℕ
    → (at : ℕ) → (claim_id : String) → Option HookClaim
    → Option Hook
    → TokenSlot
compact_claim codec s now at claim_id observed hook =
    let stale = record s { claim_deadlines = put_at s.claim_deadlines at none } in
    match_option s.claim stale (λ c.
      if not (c.claim_id == claim_id) || ltb now c.expires_at
      then stale
      else if same_claim c observed
      then record stale {
        claim = none;
        record' = match_option hook s.record' (λ h. some (codec.stringify h));
      }
      else s)

abbrev pub retained_at : TokenSlot → ℕ → Bool
retained_at s at = match_option s.retained false (λ r. eqb r.until at)

-- An entry of `compactRetained`.
unfoldable pub compact_retained : HookCodec → TokenSlot → ℕ → ℕ → TokenSlot
compact_retained codec s now at =
    let s' =
      match_option s.record' s
        (λ raw. if retained_at s at && is_free codec s raw now then free_retention s else s) in
    record s' { retained_deadlines = put_at s'.retained_deadlines at false }

abbrev pub takeover_at : TokenSlot → ℕ → Bool
takeover_at s at = match_option s.takeover false (λ t. eqb t.expires_at at)

-- An entry of `compactTakeovers` whose takeover is no longer pending; a pending one is settled.
unfoldable pub compact_stale_takeover : TokenSlot → ℕ → TokenSlot
compact_stale_takeover s at =
    if takeover_at s at
    then s
    else record s { takeover_deadlines = put_at s.takeover_deadlines at false }

abbrev pub sooner : Option ℕ → Option ℕ → Option ℕ
sooner none b = b
sooner (some a) none = some a
sooner (some a) (some b) = if ltb b a then some b else some a

-- `rearm`, with whether a scan left due deadlines, the soonest deadline of the scans that is not due,
-- and the alarm that was set while the pass ran.
unfoldable pub rearm : TokenSlot → ℕ → Bool → Option ℕ → Option ℕ → TokenSlot
rearm s now more next pending = if more then record s { alarm = some (now + 1) } else record s {
  alarm = match_option (sooner next pending) none (λ at. some (max (now + 1) at));
}
