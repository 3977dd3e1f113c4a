-- ===== src/Queue/Tests.antt =====
-- The theorems on queue claims at concrete sequences of operations.
use world_celld.Common.{refl, true, none, some, List, [], ◌∷◌, arith, All, eq_iff}
use world_celld.Queue.Claim.{ClaimCell, ReserveParams, HoldParams}
use world_celld.Queue.Cell.{claim_inflight}
use world_celld.Queue.Handle.{Op, reserve, claim, hold, release, complete}
use world_celld.Queue.Alarm.{
  IsArmed, Action, operate, fire, act_all, act_replies, Refuses, act_all-IsArmed,
}
use world_celld.Queue.Exclusion.{claim_excludes}

abbrev free : ClaimCell
free = record { reservation = none; claim = none; alarm = none }

abbrev params : ReserveParams
params = record { message_id = "a"; expires_at = 50; publication_pending = true }

abbrev holding : HoldParams
holding = record {
  message_id = "a";
  retry_at = 20;
  expires_at = 60;
  reservation_expires_at = some 70;
}

-- A reservation, its delivery, a delivery of another message, a hold, and the completion.
abbrev ops : List Op
ops =
    reserve 1 params
    ∷ claim 2 "a" 30
    ∷ claim 3 "b" 30
    ∷ hold holding
    ∷ release "b"
    ∷ complete "a"
    ∷ []

abbrev actions : List Action
actions = operate (reserve 1 params) ∷ fire 10 ∷ operate (claim 12 "a" 30) ∷ fire 42 ∷ []

act_all-IsArmed_example : IsArmed (act_all free actions)
act_all-IsArmed_example =
    act_all-IsArmed free actions (record { set = refl; reservation = tt; claim = tt })

abbrev others : List Action
others =
    operate (claim 3 "b" 30)
    ∷ fire 10
    ∷ operate (release "b")
    ∷ operate (hold holding)
    ∷ fire 30
    ∷ operate (claim 31 "b" 30)
    ∷ []

claim_excludes_example : All Refuses (act_replies (claim_inflight free 2 "a" 30).0 others)
unfolding claim_inflight
claim_excludes_example = claim_excludes free 2 30 "a" others refl (ground (arith, eq_iff "b" "a"))

abbrev held : ClaimCell
held = record {
  reservation = none;
  claim = some (record { message_id = "a"; expires_at = 60; retry_at = some 20 });
  alarm = some 60;
}
