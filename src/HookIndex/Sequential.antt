-- ===== src/HookIndex/Sequential.antt =====
-- `reserve` and `settleTakeover` of a token shard (`src/worker/durable-objects/HookTokenDO.ts`) as one
-- call from its start to its end: the loop, and the calls to the run cells.
use world_celld.Common.{
  ℕ, ◌≤◌, String, ◌≡◌, true, Option, none, some, List, [], ◌∷◌, arith, eq_refl, is_some,
  match_option, if◌then◌else◌, Option-cases, inl, inr,
}
use world_celld.Apply.Entities.{Hook, Owner}
use world_celld.HookIndex.Slot.{HookCodec, HookClaim, HookTakeover, TokenSlot}
use world_celld.HookIndex.Reserve.{
  ReserveReply, Attempt, retry, settle, answered, expired_claim, reserve_transaction,
}
use world_celld.HookIndex.Publish.{withdraw}
use world_celld.HookIndex.Force.{abandon_takeover, roll_forward}

-- What the run cells answer about the token: the hook of an expired claim if it was committed, the
-- hook that its owner has now, and whether a takeover is journaled, with the claimer's hook.
pub record RunCells : Type 0 where
  pub resolve_expired_hook_claim : Owner → String → Option Hook
  pub get_committed_hook : Owner → Option Hook
  pub resolve_forced_hook_claim : HookTakeover → Option (Option Hook)

-- `rollForward` with `confirmRepublished`
abbrev pub roll_and_confirm :
    HookCodec → RunCells → TokenSlot → HookTakeover → Option Hook → TokenSlot
roll_and_confirm codec cells s i hook =
    let s' = roll_forward codec s i hook in
    if is_some hook
    then match_option (cells.get_committed_hook i.claimer) (withdraw codec s' i.claimer) (λ h. s')
    else s'

-- `settleTakeover`, for whichever takeover is pending
unfoldable pub settle_takeover : HookCodec → RunCells → TokenSlot → TokenSlot
unfolding roll_forward withdraw abandon_takeover
settle_takeover codec cells s = match_option s.takeover s (λ i.
    match_option (cells.resolve_forced_hook_claim i) (abandon_takeover s i)
      (roll_and_confirm codec cells s i))

abbrev pub committed_claim : RunCells → Option HookClaim → Option Hook
committed_claim cells none = none
committed_claim cells (some c) = cells.resolve_expired_hook_claim c.owner c.claim_id

-- A round of the loop of `reserve`: the time at which the claim is observed, the time of the
-- transaction, and what the run cells answer in between.
pub record Round : Type 0 where
  pub seen : ℕ
  pub now : ℕ
  pub cells : RunCells

abbrev pub attempt : HookCodec → Round → TokenSlot → Owner → String → TokenSlot × Attempt
attempt codec r s owner id =
    let expired = expired_claim s.claim r.seen in
    reserve_transaction codec s r.now owner id expired (committed_claim r.cells expired)

-- `reserve`, with the rounds of its loop
unfoldable pub reserve_rounds :
    HookCodec → List Round → TokenSlot → Owner → String → Option (TokenSlot × ReserveReply)
reserve_rounds codec [] s owner id = none
reserve_rounds codec (r ∷ rounds) s owner id =
    let (s', a) = attempt codec r s owner id in
    elim a [
      | retry ↦ reserve_rounds codec rounds s' owner id
      | settle ↦ reserve_rounds codec rounds (settle_takeover codec r.cells s') owner id
      | answered reply ↦ some (s', reply)
    ]

abbrev ExpiredBy : ℕ → Option HookClaim → Type 0
ExpiredBy now none = ⊥
ExpiredBy now (some c) = c.expires_at ≤ now

-- A round is repeated only where a claim has expired since it was observed and no takeover is pending.
abbrev Repeats : ℕ → TokenSlot × Attempt → Type 0
Repeats now (s, retry) = (s.takeover ≡ none) × ExpiredBy now s.claim
Repeats now _ = Unit

attempt-Repeats :
    (codec : HookCodec) (r : Round) (s : TokenSlot) (owner : Owner) (id : String)
    → Repeats r.now (attempt codec r s owner id)
unfolding reserve_transaction
attempt-Repeats codec r s owner id = ground arith

abbrev Settles : Attempt → Type 0
Settles settle = Unit
Settles _ = ⊥

attempt-settled :
    (codec : HookCodec) (r : Round) (s : TokenSlot) (owner : Owner) (id : String)
    → s.takeover ≡ none
    → ¬ Settles (attempt codec r s owner id).1
unfolding reserve_transaction
attempt-settled codec r s owner id free = λ h. ground (arith, h, free)

abbrev IsAnswered : Attempt → Type 0
IsAnswered (answered reply) = Unit
IsAnswered _ = ⊥

-- What a round ends with that has observed an expired claim.
attempt-answers :
    (codec : HookCodec) (r : Round) (s : TokenSlot) (owner : Owner) (id : String)
    → s.takeover ≡ none
    → ExpiredBy r.seen s.claim
    → IsAnswered (attempt codec r s owner id).1
unfolding reserve_transaction
attempt-answers codec r s owner id free old = elim (Option-cases s.claim) [
  | inl gone ↦ ground (arith, gone, old)
  | inr (c, at) ↦ ground (arith, at, old, eq_refl c.claim_id)
]

settle_takeover-clears :
    (codec : HookCodec) (cells : RunCells) (s : TokenSlot)
    → (settle_takeover codec cells s).takeover ≡ none
unfolding settle_takeover roll_forward withdraw abandon_takeover
settle_takeover-clears codec cells s = elim (Option-cases s.takeover) [
  | inl gone ↦ ground (arith, gone)
  | inr (i, at) ↦ ground (arith, at, eq_refl i.claim_id)
]

module _ (codec : HookCodec) (owner : Owner) (id : String) where
  Ends : List Round → TokenSlot → Type 0
  Ends rounds s = is_some (reserve_rounds codec rounds s owner id) ≡ true

  -- How a round goes on.
  GoesOn : Round → List Round → TokenSlot × Attempt → Type 0
  GoesOn r rounds (s', retry) = Ends rounds s'
  GoesOn r rounds (s', settle) = Ends rounds (settle_takeover codec r.cells s')
  GoesOn r rounds (s', answered reply) = Unit

  round-Ends :
      (r : Round) (rounds : List Round) (s : TokenSlot)
      → GoesOn r rounds (attempt codec r s owner id)
      → Ends (r ∷ rounds) s
  unfolding Ends GoesOn reserve_rounds
  round-Ends r rounds s h = ground (arith, h)

  GoesOn-rule :
      (r : Round) (rounds : List Round) (out : TokenSlot × Attempt)
      → Repeats r.now out
      → ((s' : TokenSlot) → s'.takeover ≡ none → ExpiredBy r.now s'.claim → Ends rounds s')
      → (Settles out.1 → (s' : TokenSlot) → s'.takeover ≡ none → Ends rounds s')
      → GoesOn r rounds out
  unfolding GoesOn
  GoesOn-rule r rounds (s', retry) h again settled = again s' h.0 h.1
  GoesOn-rule r rounds (s', settle) h again settled =
      settled tt (settle_takeover codec r.cells s') (settle_takeover-clears codec r.cells s')
  GoesOn-rule r rounds (s', answered reply) h again settled = tt

  last-Ends :
      (r : Round) (rounds : List Round) (s : TokenSlot)
      → s.takeover ≡ none
      → ExpiredBy r.seen s.claim
      → Ends (r ∷ rounds) s
  unfolding Ends reserve_rounds
  last-Ends r rounds s free old = ground (arith, attempt-answers codec r s owner id free old)

  later-claim :
      (before after : ℕ) (c : Option HookClaim)
      → before ≤ after
      → ExpiredBy before c
      → ExpiredBy after c
  later-claim before after none le h = h
  later-claim before after (some c) le h = omega (arith, le, h)

  free-Ends :
      (q r : Round) (rounds : List Round) (s : TokenSlot)
      → q.now ≤ r.seen
      → s.takeover ≡ none
      → Ends (q ∷ r ∷ rounds) s
  free-Ends q r rounds s order free = round-Ends q (r ∷ rounds) s (
      GoesOn-rule q (r ∷ rounds) (attempt codec q s owner id) (attempt-Repeats codec q s owner id)
        (λ s' gone old. last-Ends r rounds s' gone (later-claim q.now r.seen s'.claim order old))
        (λ h. absurd (attempt-settled codec q s owner id free h)))

  -- A reservation that no other call interrupts is answered within three rounds of its loop, on
  -- clocks that do not run backwards, whatever the run cells answer: one more than a round that has a
  -- pending takeover settled, and a round in which the claim that was observed expires.
  pub reserve_terminates :
      (p q r : Round) (rounds : List Round) (s : TokenSlot)
      → p.now ≤ q.seen
      → q.now ≤ r.seen
      → is_some (reserve_rounds codec (p ∷ q ∷ r ∷ rounds) s owner id) ≡ true
  unfolding Ends
  reserve_terminates p q r rounds s first third = round-Ends p (q ∷ r ∷ rounds) s (
      GoesOn-rule p (q ∷ r ∷ rounds) (attempt codec p s owner id)
        (attempt-Repeats codec p s owner id)
        (λ s' gone old.
          last-Ends q (r ∷ rounds) s' gone (later-claim p.now q.seen s'.claim first old))
        (λ h s' gone. free-Ends q r rounds s' third gone))
