-- ===== src/Queue/Suspended.antt =====
-- The claim that a suspended delivery keeps in `src/worker/durable-objects/WorkflowRunDO.ts`.
use world_celld.Common.{
  ℕ, ◌≤◌, ◌<◌, String, ◌≡◌, ◌≢◌, Option, none, some, List, [], ◌∷◌, arith, All, eq_iff,
}
use world_celld.Queue.Claim.{Claim, ClaimCell}
use world_celld.Queue.Cell.{claim_cell_alarm}
use world_celld.Queue.Handle.{
  Op, reserve, claim, hold, release, abandon, confirm, complete, perform_cell,
}
use world_celld.Queue.Alarm.{Action, operate, fire, Refuses, act_replies}

abbrev RetriesFrom : ℕ → Option ℕ → Type 0
RetriesFrom t none = Unit
RetriesFrom t (some at) = t ≤ at

-- The stored claim is that of message `m`, lasts until `t` at least, and is not retried before `t`.
abbrev pub Sleeps : String → ℕ → Option Claim → Type 0
Sleeps m t none = ⊥
Sleeps m t (some c) = (c.message_id ≡ m) × (t ≤ c.expires_at) × RetriesFrom t c.retry_at

-- Before `t`, the alarm or an operation that is not a hold, a release or a completion by `m`; a claim
-- may be of any message.
abbrev pub Early : String → ℕ → Action → Type 0
Early m t (operate (claim now m' stale_ms)) = now < t
Early m t (operate (hold p)) = p.message_id ≢ m
Early m t (operate (release m')) = m' ≢ m
Early m t (operate (complete m')) = m' ≢ m
Early m t (operate _) = Unit
Early m t (fire now) = now < t

perform-Sleeps :
    (m : String) (t : ℕ) (s : ClaimCell) (op : Op)
    → Sleeps m t s.claim
    → Early m t (operate op)
    → Sleeps m t (perform_cell s op).0.claim × Refuses (perform_cell s op).1
unfolding perform_cell
perform-Sleeps m t s (claim now m' stale_ms) h f = ground (arith, eq_iff m m')
perform-Sleeps m t s (release m') h f = ground (arith, eq_iff m m')
perform-Sleeps m t s (complete m') h f = ground (arith, eq_iff m m')
perform-Sleeps m t s (hold p) h f = ground (arith, eq_iff m p.message_id)
perform-Sleeps m t s (reserve now p) h f = ground arith
perform-Sleeps m t s (abandon m') h f = ground arith
perform-Sleeps m t s (confirm m' at) h f = ground arith

alarm-Sleeps :
    (m : String) (t : ℕ) (s : ClaimCell) (now : ℕ)
    → Sleeps m t s.claim
    → now < t
    → Sleeps m t (claim_cell_alarm s now).claim
unfolding claim_cell_alarm
alarm-Sleeps m t s now h early = ground arith

-- No action before the end of a suspension grants a claim.
pub sleeping-Refuses :
    (m : String) (t : ℕ) (s : ClaimCell) (actions : List Action)
    → Sleeps m t s.claim
    → All (Early m t) actions
    → All Refuses (act_replies s actions)
unfolding act_replies
sleeping-Refuses m t s [] h f = tt
sleeping-Refuses m t s (operate op ∷ later) h f =
    let (held, refused) = perform-Sleeps m t s op h f.0 in
    (refused, sleeping-Refuses m t (perform_cell s op).0 later held f.1)
sleeping-Refuses m t s (fire now ∷ later) h f =
    sleeping-Refuses m t (claim_cell_alarm s now) later (alarm-Sleeps m t s now h f.0) f.1
