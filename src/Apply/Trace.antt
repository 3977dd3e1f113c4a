-- ===== src/Apply/Trace.antt =====
-- The life of a run's storage over many events: each event of `applyEvent` in
-- `src/apply-event.ts` is one storage transaction, and one that throws is rolled back.
use world_celld.Common.{
  ℕ, String, ◌≡◌, ◌⊎◌, inl, inr, true, false, Option, none, some, List, [], ◌∷◌, ◌==◌, arith,
  truthy, eq_iff, eq_refl,
}
use Prim.Native.String.{◌++◌}
use mathlib.Core.Path.{subst}
use world_celld.Apply.Entities.{Run, Payload, ForceClaim, HookSeed}
use world_celld.Apply.External.{Platform}
use world_celld.Apply.Transaction.{State, Context, Success, done, Result, thrown, returned}
use world_celld.Apply.Rule.{Ensures}
use world_celld.Apply.Dense.{IsDense, Extends, Extends-refl, Extends-trans, apply_event-Extends}
use world_celld.Apply.Lifecycle.{Advances, apply_event-Advances}
use world_celld.Apply.Hooks.{Spent, apply_event-Spent}
use world_celld.Apply.Marked.{IsMarked, apply_event-IsMarked, disposing, disposed-Spent}
use world_celld.Apply.Resume.{delivering}
use world_celld.Apply.Forced.{
  ForcedDisposal, ForcedClaim, journaled, apply_forced_hook_disposal, resolve_forced_hook_claim,
}
use world_celld.Apply.Guards.{terminal_guard, step_guard, resume_guard, hook_guard}
use world_celld.Apply.Bootstrap.{bootstrap}
use world_celld.Apply.Takeover.{
  Fenced, Refused, creating, apply_event-Fenced, Fenced-Refused, resolve-Fenced,
}
use world_celld.Apply.{apply_guarded, apply_event}

-- What the storage holds after the transaction.
abbrev pub settle : State → Result → State
settle st thrown = st
settle st (returned o st') = st'

unfoldable pub apply_all : Platform → List Context → State → State
apply_all p [] st = st
apply_all p (ctx ∷ later) st = apply_all p later (settle st (apply_event p ctx st))

-- A run's cell before its first event.
abbrev pub empty : State
empty = record {
  store = record {
    run = none;
    events = λ _. none;
    steps = λ _. none;
    step_index = λ _ _. none;
    hooks = λ _. none;
    hook_index = λ _ _. none;
    waits = λ _. none;
    hook_markers = λ _. none;
    hook_releases = λ _. none;
    hook_cancellations = λ _. none;
    attribute_markers = λ _. none;
    resume_claims = λ _. none;
    force_claims = λ _. none;
  };
  sequence = 0;
}

module _ (p : Platform) (P : State → Type 0)
    (step : (ctx : Context) (st : State) → P st → Ensures P (apply_event p ctx st)) where
  settle-Ensures : (st : State) (r : Result) → P st → Ensures P r → P (settle st r)
  settle-Ensures st thrown h e = h
  settle-Ensures st (returned o st') h e = e

  -- A property that every event keeps is kept by all of them.
  pub apply_all-keeps : (ctxs : List Context) (st : State) → P st → P (apply_all p ctxs st)
  unfolding apply_all
  apply_all-keeps [] st h = h
  apply_all-keeps (ctx ∷ later) st h =
      apply_all-keeps later (settle st (apply_event p ctx st))
        (settle-Ensures st (apply_event p ctx st) h (step ctx st h))

Extends-step :
    (p : Platform) (a b : State) (r : Result)
    → Extends p a b
    → Ensures (Extends p b) r
    → Ensures (Extends p a) r
Extends-step p a b thrown h k = tt
Extends-step p a b (returned o c) h k = Extends-trans p a b c h k

-- From a dense log, after any list of events, some refused, some ended by an exception: the log is
-- dense, the sequence has not fallen, and every event that was stored is stored unchanged.
pub log_append_only :
    (p : Platform) (ctxs : List Context) (st : State)
    → IsDense p st
    → Extends p st (apply_all p ctxs st)
log_append_only p ctxs st d =
    apply_all-keeps p (Extends p st)
      (λ ctx s h. Extends-step p st s (apply_event p ctx s) h (apply_event-Extends p ctx s h.dense))
      ctxs st (Extends-refl p st d)

-- The log that any list of events leaves in an empty cell is dense: its entries are exactly the
-- slots from 1 to the event sequence.
pub log-IsDense : (p : Platform) (ctxs : List Context) → IsDense p (apply_all p ctxs empty)
log-IsDense p ctxs =
    (log_append_only p ctxs empty (record {
      filled = λ n low high. absurd (omega (arith, low, high));
      only = λ id e at. ground arith;
    })).dense

Advances-frozen :
    (p : Platform) (r : Run) (after : Option Run)
    → p.is_terminal_run r.status ≡ true
    → Advances p (some r) after
    → after ≡ some r
Advances-frozen p r after t h = ground arith

-- A run in a terminal status is the same after any list of events.
terminal_run_final :
    (p : Platform) (ctxs : List Context) (st : State) (r : Run)
    → p.is_terminal_run r.status ≡ true
    → st.run ≡ some r
    → (apply_all p ctxs st).run ≡ some r
terminal_run_final p ctxs st r terminal at =
    apply_all-keeps p (λ s. s.run ≡ some r)
      (λ ctx s h. frozen-Ensures (apply_event p ctx s) s h (apply_event-Advances p ctx s)) ctxs st
      at
  where
    frozen-Ensures :
        (res : Result) (s : State)
        → s.run ≡ some r
        → Ensures (λ t. Advances p s.run t.run) res
        → Ensures (λ t. t.run ≡ some r) res
    frozen-Ensures thrown s h a = tt
    frozen-Ensures (returned o t) s h a =
        Advances-frozen p r t.run terminal (subst (λ x. Advances p x t.run) h a)

-- Whatever events an empty cell is given, each stored hook stands under its own ID, and each stored
-- or released hook has the marker of its creation.
pub history_IsMarked : (p : Platform) (ctxs : List Context) → IsMarked (apply_all p ctxs empty)
history_IsMarked p ctxs =
    apply_all-keeps p IsMarked (apply_event-IsMarked p) ctxs empty
      (record { at = λ id. ground arith })

-- After a successful disposal of a hook, whatever events follow, the hook is gone and marked as
-- created, so that nothing brings it back.
pub disposed_for_good :
    (p : Platform) (ctx : Context) (st st' : State) (by : Option ForceClaim) (s : Success)
    (ctxs : List Context)
    → IsMarked st
    → (ctx.correlation_id == "") ≡ false
    → apply_event p (disposing ctx by) st ≡ returned (done s) st'
    → Spent ctx.correlation_id (apply_all p ctxs st')
disposed_for_good p ctx st st' by s ctxs h named returns =
    apply_all-keeps p (Spent ctx.correlation_id)
      (λ c t k. apply_event-Spent p c t ctx.correlation_id k) ctxs st'
      (disposed-Spent p ctx st st' by s h named returns)

-- A delivery without a resume ID to a hook that is gone does not succeed.
Spent-Refused :
    (p : Platform) (ctx : Context) (payload : Payload) (st : State)
    → (ctx.correlation_id == "") ≡ false
    → truthy ctx.params.resume_id ≡ none
    → Spent ctx.correlation_id st
    → Refused (apply_event p (delivering ctx payload) st)
unfolding apply_event bootstrap apply_guarded terminal_guard step_guard resume_guard hook_guard
Spent-Refused p ctx payload st named fresh spent = ground arith

taken-Spent :
    (p : Platform) (st st' : State) (r : ForcedDisposal) (run_id : String) (now : ℕ)
    → IsMarked st
    → apply_forced_hook_disposal p st r run_id now ≡ journaled true st'
    → Spent r.hook_id st'
unfolding apply_forced_hook_disposal
taken-Spent p st st' r run_id now h taken =
    ground (arith, h.at r.hook_id, eq_refl r.hook_id, eq_iff r.hook_id r.hook_id)

pub taken_over-Spent :
    (p : Platform) (st st' : State) (r : ForcedDisposal) (run_id : String) (now : ℕ)
    (ctxs : List Context)
    → IsMarked st
    → apply_forced_hook_disposal p st r run_id now ≡ journaled true st'
    → Spent r.hook_id (apply_all p ctxs st')
taken_over-Spent p st st' r run_id now ctxs h taken =
    apply_all-keeps p (Spent r.hook_id) (λ c t k. apply_event-Spent p c t r.hook_id k) ctxs st'
      (taken-Spent p st st' r run_id now h taken)

-- After a journaled forced disposal of a hook, whatever events follow, a delivery to it without a
-- resume ID does not succeed.
pub taken_over_never_delivers :
    (p : Platform) (st st' : State) (r : ForcedDisposal) (run_id : String) (now : ℕ)
    (ctxs : List Context) (ctx : Context) (payload : Payload)
    → IsMarked st
    → apply_forced_hook_disposal p st r run_id now ≡ journaled true st'
    → (ctx.correlation_id == "") ≡ false
    → ctx.correlation_id ≡ r.hook_id
    → truthy ctx.params.resume_id ≡ none
    → Refused (apply_event p (delivering ctx payload) (apply_all p ctxs st'))
taken_over_never_delivers p st st' r run_id now ctxs ctx payload h taken named same fresh =
    Spent-Refused p ctx payload (apply_all p ctxs st') named fresh
      (rw same (taken_over-Spent p st st' r run_id now ctxs h taken))

-- Whatever events follow the cancellation of a claim ID, no creation of a hook under it succeeds.
cancelled_never_commits :
    (p : Platform) (ctxs : List Context) (st : State) (ctx : Context) (seed : HookSeed)
    (claim : String)
    → Fenced claim st
    → truthy ctx.hook_claim_id ≡ some claim
    → Refused (apply_event p (creating ctx seed) (apply_all p ctxs st))
cancelled_never_commits p ctxs st ctx seed claim fenced claims =
    Fenced-Refused p ctx seed (apply_all p ctxs st) claim claims
      (apply_all-keeps p (Fenced claim) (λ c s k. apply_event-Fenced p c s claim k) ctxs st fenced)

-- After a takeover was resolved as not journaled, whatever events follow, a creation of a hook under
-- either form of its claim ID does not succeed.
pub resolved_never_commits :
    (p : Platform) (ctxs : List Context) (ctx : Context) (seed : HookSeed) (st : State)
    (r : ForcedClaim) (now : ℕ) (claim : String)
    → (resolve_forced_hook_claim p st r now).0.journaled ≡ false
    → (claim ≡ (r.claim_id ++ ":" ++ r.claim_id)) ⊎ (claim ≡ ("-:" ++ r.claim_id))
    → truthy ctx.hook_claim_id ≡ some claim
    → Refused (
        apply_event p
          (creating ctx seed)
          (apply_all p ctxs (resolve_forced_hook_claim p st r now).1))
resolved_never_commits p ctxs ctx seed st r now claim lost (inl same) =
    cancelled_never_commits p ctxs _ ctx seed claim (rw same (resolve-Fenced p st r now lost).0)
resolved_never_commits p ctxs ctx seed st r now claim lost (inr same) =
    cancelled_never_commits p ctxs _ ctx seed claim (rw same (resolve-Fenced p st r now lost).1)
