-- ===== src/Queue/Exclusion.antt =====
-- Deliveries of different messages under one claim of
-- `src/worker/durable-objects/WorkflowRunDO.ts`.
use world_celld.Common.{
  ℕ, ◌+◌, ◌≤◌, ◌<◌, String, ◌≡◌, ◌≢◌, ◌⊎◌, ◌↔◌, true, Option, none, some, List, [], ◌∷◌, arith, All,
  eq_iff,
}
use world_celld.Queue.Claim.{Claim, ClaimCell, ok, granted, claim_refusal, non_empty, positive_safe}
use world_celld.Queue.Cell.{claim_inflight, claim_cell_alarm}
use world_celld.Queue.Handle.{
  Op, reserve, claim, hold, release, abandon, confirm, complete, perform_cell,
}
use world_celld.Queue.Alarm.{Action, operate, fire, Refuses, act_replies}

-- The stored claim is that of message `m` and lasts until `t` at least.
abbrev pub Holds : String → ℕ → Option Claim → Type 0
Holds m t none = ⊥
Holds m t (some c) = (c.message_id ≡ m) × (t ≤ c.expires_at)

-- Before `t`, the alarm or an operation that is not a claim, a release or a completion by `m`.
abbrev pub Foreign : String → ℕ → Action → Type 0
Foreign m t (operate (claim now m' stale_ms)) = (m' ≢ m) × (now < t)
Foreign m t (operate (release m')) = m' ≢ m
Foreign m t (operate (complete m')) = m' ≢ m
Foreign m t (operate _) = Unit
Foreign m t (fire now) = now < t

perform-Holds :
    (m : String) (t : ℕ) (s : ClaimCell) (op : Op)
    → Holds m t s.claim
    → Foreign m t (operate op)
    → Holds m t (perform_cell s op).0.claim × Refuses (perform_cell s op).1
unfolding perform_cell
perform-Holds m t s (claim now m' stale_ms) h f = ground (arith, eq_iff m m')
perform-Holds m t s (release m') h f = ground (arith, eq_iff m m')
perform-Holds m t s (complete m') h f = ground (arith, eq_iff m m')
perform-Holds m t s (hold p) h f = ground (arith, eq_iff m p.message_id)
perform-Holds m t s (reserve now p) h f = ground arith
perform-Holds m t s (abandon m') h f = ground arith
perform-Holds m t s (confirm m' at) h f = ground arith

alarm-Holds :
    (m : String) (t : ℕ) (s : ClaimCell) (now : ℕ)
    → Holds m t s.claim
    → now < t
    → Holds m t (claim_cell_alarm s now).claim
unfolding claim_cell_alarm
alarm-Holds m t s now h early = ground arith

act_replies-Refuses :
    (m : String) (t : ℕ) (s : ClaimCell) (actions : List Action)
    → Holds m t s.claim
    → All (Foreign m t) actions
    → All Refuses (act_replies s actions)
unfolding act_replies
act_replies-Refuses m t s [] h f = tt
act_replies-Refuses m t s (operate op ∷ later) h f =
    let (held, refused) = perform-Holds m t s op h f.0 in
    (refused, act_replies-Refuses m t (perform_cell s op).0 later held f.1)
act_replies-Refuses m t s (fire now ∷ later) h f =
    act_replies-Refuses m t (claim_cell_alarm s now) later (alarm-Holds m t s now h f.0) f.1

-- Once message `m` was granted the claim at `now`, no claim of another message is granted before
-- `now + stale_ms`, whatever alarms fire before that time and whatever is done to the cell but a
-- claim, a release or a completion by `m` itself.
pub claim_excludes :
    (s : ClaimCell) (now stale_ms : ℕ) (m : String) (actions : List Action)
    → (claim_inflight s now m stale_ms).1 ≡ ok granted
    → All (Foreign m (now + stale_ms)) actions
    → All Refuses (act_replies (claim_inflight s now m stale_ms).0 actions)
claim_excludes s now stale_ms m actions g f =
    act_replies-Refuses m (now + stale_ms) (claim_inflight s now m stale_ms).0 actions
      (unfold claim_inflight in ground arith) f

abbrev pub Due : Option ℕ → ℕ → Type 0
Due none now = ⊥
Due (some at) now = at ≤ now

-- When a claim of message `m` must be granted: nothing is claimed, the claim has expired, or it is
-- the message's own and its retry is due.
abbrev pub Claimable : Option Claim → ℕ → String → Type 0
Claimable none now m = Unit
Claimable (some c) now m = (c.expires_at ≤ now) ⊎ ((c.message_id ≡ m) × Due c.retry_at now)

claim_refusal-none_iff :
    (c : Option Claim) (now : ℕ) (m : String) → (claim_refusal c m now ≡ none) ↔ Claimable c now m
claim_refusal-none_iff none now m = ground arith
claim_refusal-none_iff (some c) now m = ground (arith, eq_iff c.message_id m)

-- A claim with valid arguments is granted exactly when nothing is claimed, the stored claim has
-- expired, or it is that of the same message with a retry time that has come.
claim_granted_iff :
    (s : ClaimCell) (now stale_ms : ℕ) (m : String)
    → non_empty m ≡ true
    → positive_safe stale_ms ≡ true
    → ((claim_inflight s now m stale_ms).1 ≡ ok granted) ↔ Claimable s.claim now m
unfolding claim_inflight
claim_granted_iff s now stale_ms m n p = ground (arith, claim_refusal-none_iff s.claim now m)
