-- ===== src/Queue/Agreement.antt =====
-- The claim cell and the run-scoped claim of `src/worker/durable-objects/WorkflowRunDO.ts`, compared
-- by their replies to a sequence of operations.
use world_celld.Common.{◌≡◌, true}
use world_celld.Queue.Claim.{ClaimCell, non_empty}
use world_celld.Queue.RunClaim.{Entry, state_of}
use world_celld.Queue.Handle.{Op, claim, complete}

-- The two places hold the same reservation and the same claim.
pub record Agree (s : ClaimCell) (e : Entry) : Type 0 where
  pub reservation : s.reservation ≡ (state_of e).reservation
  pub claim : s.claim ≡ (state_of e).claim

-- The completion of an empty message ID is refused by the claim cell alone; no message has that ID.
abbrev pub Names : Op → Type 0
Names (complete m) = non_empty m ≡ true
Names _ = Unit
