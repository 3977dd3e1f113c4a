-- ===== src/HookIndex/Tests.antt =====
-- The theorems on tokens and hook IDs at concrete transactions.
use world_celld.Common.{
  ℕ, ◌+◌, ◌≡◌, refl, String, true, false, none, some, List, [], ◌∷◌, arith, is_some,
}
use world_celld.Apply.Entities.{Hook, Owner}
use world_celld.HookIndex.Slot.{HookCodec, HookClaim, TokenSlot, hook_claim_lease_ms}
use world_celld.HookIndex.Reserve.{answered, held, reserve_transaction}
use world_celld.HookIndex.Publish.{
  finalize, finalize_transaction, release_entry, publish_committed, withdraw,
}
use world_celld.HookIndex.Force.{Victim}
use world_celld.HookIndex.Steps.{
  TokenOp, reserve, finish, release, publish, unpublish, force, compact_retention, step_token,
  step_tokens,
}
use world_celld.HookIndex.Holder.{IsExclusive, step_tokens-IsExclusive}
use world_celld.HookIndex.Ownership.{KeepsOwner, record-KeepsOwner}
use world_celld.HookIndex.Exclusion.{reservation_excludes}
use world_celld.HookIndex.Sequential.{RunCells, Round, reserve_rounds, reserve_terminates}
use world_celld.HookIndex.Orphan.{orphaned_retention_blocks}

-- A stored hook is its run's ID; the run `a` has the hook `h`, kept until 50.
abbrev hook_of : String → Hook
hook_of run = record {
  run_id = run;
  hook_id = "h";
  token = "t";
  metadata = none;
  created_at = 1;
  spec_version = 5;
  is_webhook = false;
  is_system = none;
  token_retention_until = some 50;
  claimed_from = none;
}

abbrev by_run : HookCodec
by_run = record { parse = hook_of; stringify = λ h. h.run_id }

abbrev a : Owner
a = record { run_id = "a"; hook_id = "h" }

abbrev b : Owner
b = record { run_id = "b"; hook_id = "h" }

abbrev free : TokenSlot
free = record {
  record' = none;
  claim = none;
  retained = none;
  takeover = none;
  claim_deadlines = λ _. none;
  retained_deadlines = λ _. false;
  takeover_deadlines = λ _. false;
  alarm = none;
}

abbrev a_claim : HookClaim
a_claim = record {
  owner = a;
  claim_id = "c";
  reserved_at = 1;
  expires_at = 1 + hook_claim_lease_ms;
}

abbrev victim : Victim
victim = record {
  owner = a;
  running = true;
  take_over = true;
  claimed_from = record {
    run_id = "a";
    hook_id = "h";
    workflow_name = none;
    deployment_id = none;
    run_spec_version = none;
  };
}

-- The token is reserved and published by `a`, and then taken over by `b`.
abbrev busy : List (ℕ × TokenOp)
busy =
    (1, reserve a "c" none none)
    ∷ (2, reserve b "d" none none)
    ∷ (3, finish "a" a (some "c") true)
    ∷ (4, force b "d" "a" victim)
    ∷ []

step_tokens-IsExclusive_example : IsExclusive (step_tokens by_run free busy)
step_tokens-IsExclusive_example = step_tokens-IsExclusive by_run busy free (λ h. refl)

abbrev published : TokenSlot
published = record free { record' = some "a" }

record-KeepsOwner_example :
    KeepsOwner by_run
      (some "a")
      (step_token by_run published 5 (finish "a" a (some "c") true)).record'
record-KeepsOwner_example =
    record-KeepsOwner by_run published 5 (finish "a" a (some "c") true) (λ h. refl) refl

reservation_excludes_example :
    (reserve_transaction by_run
      (step_tokens by_run
        (reserve_transaction by_run free 1 a "c" none none).0
        ((2, reserve b "d" none none) ∷ (3, release b true) ∷ []))
      9
      b
      "e"
      none
      none).1
    ≡ answered (held a)
reservation_excludes_example =
    reservation_excludes by_run free 1 9 a b "c" "e"
      ((2, reserve b "d" none none) ∷ (3, release b true) ∷ []) none none (refl, refl, refl)
      (omega arith, (refl, tt)) (omega arith) refl

abbrev cells : RunCells
cells = record {
  resolve_expired_hook_claim = λ owner id. none;
  get_committed_hook = λ owner. none;
  resolve_forced_hook_claim = λ i. none;
}

-- A round that observes the token at one time and writes at the next.
abbrev round_at : ℕ → Round
round_at at = record { seen = at; now = at + 1; cells = cells }

-- A takeover whose time is over, and a claim that expires in the second round.
abbrev settling : TokenSlot
settling = record free {
  claim = some (record a_claim { expires_at = 8 });
  takeover = some (record {
    claimer = a;
    claim_id = "c";
    victim = b;
    victim_running = false;
    claimed_from = victim.claimed_from;
    expires_at = 4;
  });
}

reserve_terminates_example :
    is_some (reserve_rounds by_run (round_at 5 ∷ round_at 7 ∷ round_at 9 ∷ []) settling b "d")
    ≡ true
reserve_terminates_example =
    reserve_terminates by_run b "d" (round_at 5) (round_at 7) (round_at 9) [] settling (omega arith)
      (omega arith)

-- The hook of `a` is published for it while its run is live, the run ends and keeps the token, and
-- the publication is then withdrawn, which leaves the retention marker. The hook of `b` comes next.
abbrev withdrawn : List (ℕ × TokenOp)
withdrawn =
    (1, reserve a "c" none none)
    ∷ (2, publish a_claim (hook_of "a"))
    ∷ (3, release a true)
    ∷ (4, unpublish a)
    ∷ (10, reserve b "d" none none)
    ∷ (11, finish "b" b (some "d") true)
    ∷ []

-- The run of `b` ends, its retention comes to an end, and the alarm passes.
abbrev ended_at_last : List (ℕ × TokenOp)
ended_at_last =
    (20, release b true) ∷ (50, compact_retention 50) ∷ (60, reserve a "e" none none) ∷ []

orphaned_retention_blocks_example :
    (reserve_transaction by_run
      (step_tokens by_run (step_tokens by_run free withdrawn) ended_at_last)
      99
      a
      "e"
      none
      none).1
    ≡ answered (held b)
unfolding step_tokens step_token reserve_transaction finalize finalize_transaction release_entry
    publish_committed withdraw
orphaned_retention_blocks_example =
    orphaned_retention_blocks by_run "b" ended_at_last (step_tokens by_run free withdrawn) 99 a "e"
      none none
      (record {
        record' = refl;
        retained = (record { owner = a; until = 50 }, refl, refl);
        claim = refl;
        takeover = refl;
      })
      (refl, (tt, (tt, tt)))
