-- ===== src/Apply/Forced.antt =====
-- The two halves of a forced takeover of a hook's token in `src/apply-event.ts`:
-- `applyForcedHookDisposal` in the victim's run and `resolveForcedHookClaim` in the claimer's.
use Prim.Native.String.{◌++◌}
use world_celld.Common.{
  ℕ, ◌+◌, ◌==◌, ◌&&◌, not, String, Bool, true, false, Option, none, some, is_some, match_option,
  if◌then◌else◌, update,
}
use world_celld.Apply.Entities.{
  Run, Hook, Owner, Event, EventData, ForceClaim, ClaimedFrom, Cancellation, hook_disposed,
  hook_created,
}
use world_celld.Apply.External.{Platform}
use world_celld.Apply.Transaction.{State, put_event}
use world_celld.Apply.Guards.{terminal_run}
use world_celld.Apply.HookCases.{drop_hook}

pub record ForcedDisposal : Type 0 where
  pub hook_id : String
  pub token : String
  pub claimed_by : Owner

-- The schema may refuse the event, which ends the transaction.
pub data Journal : Type 0 where
  thrown : Journal
  journaled : Bool → State → Journal

abbrev pub claim_of : ForcedDisposal → ForceClaim
claim_of r = record { token = r.token; claimed_by = r.claimed_by }

-- The event is built by hand: it has no `occurredAt` and no resume ID.
abbrev pub disposal_event : Platform → ForcedDisposal → String → ℕ → State → Run → Event
disposal_event p r run_id now st run = record {
  event_id = p.slot_to_event_id (st.sequence + 1);
  run_id = run_id;
  correlation_id = r.hook_id;
  content = hook_disposed (some (claim_of r));
  created_at = now;
  occurred_at = none;
  resume_id = none;
  spec_version = run.spec_version;
}

-- The hook leaves, and the marker that refuses later deliveries is written.
abbrev pub force_dropped : State → ForcedDisposal → Hook → State
force_dropped st r h =
    let s = drop_hook st.store r.hook_id h in
    record st { store = record s { force_claims = update s.force_claims r.hook_id (claim_of r) } }

abbrev pub journal_disposal : Platform → ForcedDisposal → String → ℕ → State → Option Run → Journal
journal_disposal p r run_id now st none = journaled false st
journal_disposal p r run_id now st (some run) =
    if p.is_terminal_run run.status
    then journaled false st
    else (let e = disposal_event p r run_id now st run in
        if p.event_accepted e
        then journaled true (record { store = put_event st.store e; sequence = st.sequence + 1 })
        else thrown)

-- `applyForcedHookDisposal`
unfoldable pub apply_forced_hook_disposal : Platform → State → ForcedDisposal → String → ℕ → Journal
apply_forced_hook_disposal p st r run_id now =
    if is_some (st.force_claims r.hook_id)
    then journaled false st
    else match_option (st.hooks r.hook_id) (journaled false st) (λ h.
      if h.token == r.token
      then journal_disposal p r run_id now (force_dropped st r h) st.run
      else journaled false st)

pub record ForcedClaim : Type 0 where
  pub hook_id : String
  pub token : String
  pub claim_id : String
  pub victim : Owner

pub record Resolution : Type 0 where
  pub journaled : Bool
  pub hook : Option Hook

abbrev pub same_victim : ForcedClaim → Option ClaimedFrom → Bool
same_victim r none = false
same_victim r (some f) = (f.run_id == r.victim.run_id) && (f.hook_id == r.victim.hook_id)

-- The event is the forced creation of this takeover.
abbrev pub journals : ForcedClaim → EventData → Bool
journals r (hook_created seed) = (seed.token == r.token) && same_victim r seed.force_claimed_from
journals r _ = false

-- The event that the marker of the hook's creation names.
abbrev pub created_event : State → String → Option Event
created_event st id = match_option (st.hook_markers id) none st.events

-- The claimer's hook is live: its run is there and not terminal, and it holds the token.
abbrev pub live_hook : Platform → State → ForcedClaim → Option Hook
live_hook p st r =
    if is_some st.run && not (terminal_run p st.run)
    then match_option (st.hooks r.hook_id) none (λ h. if h.token == r.token then some h else none)
    else none

-- The cancellation records of the two forms of a reservation's claim ID.
abbrev pub fence : State → ForcedClaim → ℕ → State
fence st r now =
    let c : Cancellation = record {
      hook_id = r.hook_id;
      token = some r.token;
      canceled_at = now;
    } in
    record st {
      store = record st.store {
        hook_cancellations =
            update (update st.hook_cancellations (r.claim_id ++ ":" ++ r.claim_id) c)
              ("-:" ++ r.claim_id) c;
      };
    }

-- `resolveForcedHookClaim`
unfoldable pub resolve_forced_hook_claim : Platform → State → ForcedClaim → ℕ → Resolution × State
resolve_forced_hook_claim p st r now =
    match_option (created_event st r.hook_id)
      (record { journaled = false; hook = none }, fence st r now)
      (λ e.
        if journals r e.content
        then (record { journaled = true; hook = live_hook p st r }, st)
        else (record { journaled = false; hook = none }, fence st r now))
