-- ===== src/Queue/Alarm.antt =====
-- The alarm of the claim cell of `src/worker/durable-objects/WorkflowRunDO.ts` and the deadlines that
-- it watches.
use world_celld.Common.{ℕ, ◌≤◌, ◌≡◌, false, Option, none, some, List, [], ◌∷◌, arith, is_some, ◌||◌}
use world_celld.Queue.Claim.{Claim, Reservation, ClaimCell, ok}
use world_celld.Queue.Cell.{claim_cell_alarm}
use world_celld.Queue.Handle.{
  Op, Reply, delivery, reserve, claim, hold, release, abandon, confirm, complete, perform_cell,
}

-- The alarm is set for no later than the deadline.
abbrev Before : Option ℕ → ℕ → Type 0
Before none at = ⊥
Before (some alarm) at = alarm ≤ at

abbrev CoversReservation : Option ℕ → Option Reservation → Type 0
CoversReservation alarm none = Unit
CoversReservation alarm (some r) = Before alarm r.expires_at

abbrev CoversClaim : Option ℕ → Option Claim → Type 0
CoversClaim alarm none = Unit
CoversClaim alarm (some c) = Before alarm c.expires_at

-- An alarm is set exactly while something is stored, and no later than any stored deadline.
pub record IsArmed (s : ClaimCell) : Type 0 where
  pub set : is_some s.alarm ≡ (is_some s.reservation || is_some s.claim)
  pub reservation : CoversReservation s.alarm s.reservation
  pub claim : CoversClaim s.alarm s.claim

-- What happens to a claim cell: an operation, or the alarm at a time.
pub data Action : Type 0 where
  operate : Op → Action
  fire : ℕ → Action

unfoldable pub act : ClaimCell → Action → ClaimCell
act s (operate op) = (perform_cell s op).0
act s (fire now) = claim_cell_alarm s now

pub act_all : ClaimCell → List Action → ClaimCell
act_all s [] = s
act_all s (a ∷ later) = act_all (act s a) later

-- What the operations among the actions answer.
unfoldable pub act_replies : ClaimCell → List Action → List Reply
act_replies s [] = []
act_replies s (operate op ∷ later) = (perform_cell s op).1 ∷ act_replies (perform_cell s op).0 later
act_replies s (fire now ∷ later) = act_replies (claim_cell_alarm s now) later

-- A reply that is no granted claim.
abbrev pub Refuses : Reply → Type 0
Refuses (delivery (ok d)) = d.claimed ≡ false
Refuses _ = Unit

act-IsArmed : (s : ClaimCell) (a : Action) → IsArmed s → IsArmed (act s a)
unfolding act perform_cell claim_cell_alarm
act-IsArmed s (operate (reserve now p)) h = ground arith
act-IsArmed s (operate (claim now m stale_ms)) h = ground arith
act-IsArmed s (operate (hold p)) h = ground arith
act-IsArmed s (operate (release m)) h = ground arith
act-IsArmed s (operate (abandon m)) h = ground arith
act-IsArmed s (operate (confirm m at)) h = ground arith
act-IsArmed s (operate (complete m)) h = ground arith
act-IsArmed s (fire now) h = ground arith

-- From an armed cell, whatever operations and alarms follow, an alarm is set exactly while a
-- reservation or a claim is stored, and no later than the deadline of either.
pub act_all-IsArmed :
    (s : ClaimCell) (actions : List Action) → IsArmed s → IsArmed (act_all s actions)
unfolding act_all
act_all-IsArmed s [] h = h
act_all-IsArmed s (a ∷ later) h = act_all-IsArmed (act s a) later (act-IsArmed s a h)
