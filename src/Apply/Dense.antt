-- ===== src/Apply/Dense.antt =====
-- The event log that `applyEvent` of `src/apply-event.ts` appends to, as slots up to a sequence.
use world_celld.Common.{
  ℕ, ◌+◌, ◌≤◌, String, ◌≡◌, refl, sym, ap, ◌∙◌, some, arith, update, eq_iff, eqb, ◌==◌, inl, inr,
  Bool-cases, if◌then◌else◌,
}
use world_celld.Apply.Entities.{Event}
use world_celld.Apply.External.{Platform}
use world_celld.Apply.Transaction.{State, Context}
use world_celld.Apply.Rule.{Ensures}
use world_celld.Apply.Log.{IsLogProperty, apply_event-log}
use world_celld.Apply.{apply_event}

-- Every slot up to the sequence holds an event with the slot's ID, and nothing else is stored.
pub record IsDense (p : Platform) (st : State) : Type 0 where
  pub filled :
      (n : ℕ)
      → 1 ≤ n
      → n ≤ st.sequence
      → (e : Event) × (st.events (p.slot_to_event_id n) ≡ some e)
        × (e.event_id ≡ p.slot_to_event_id n)
  pub only :
      (id : String) (e : Event)
      → st.events id ≡ some e
      → (n : ℕ) × (1 ≤ n) × (n ≤ st.sequence) × (id ≡ p.slot_to_event_id n)

module _ (p : Platform) where
  slot_injective : (m n : ℕ) → p.slot_to_event_id m ≡ p.slot_to_event_id n → m ≡ n
  slot_injective m n e =
      cc (p.event_id_to_slot_lem m, p.event_id_to_slot_lem n, ap p.event_id_to_slot e)

  -- The log after an append, at each ID.
  module _ (s t : State) (e : Event) (named : e.event_id ≡ p.slot_to_event_id (s.sequence + 1))
      (written : t.events ≡ update s.events e.event_id e) (next : t.sequence ≡ s.sequence + 1) where
    at_slot : (id : String) → t.events id ≡ (if e.event_id == id then some e else s.events id)
    at_slot id = ap (λ m. m id) written

    old_slot :
        (id : String) (n : ℕ)
        → n ≤ s.sequence
        → id ≡ p.slot_to_event_id n
        → t.events id ≡ s.events id
    old_slot id n h at = ground (
      arith,
      at_slot id,
      eq_iff e.event_id id,
      λ (q : p.slot_to_event_id (s.sequence + 1) ≡ p.slot_to_event_id n).
          slot_injective (s.sequence + 1) n q,
    )

    filled_after :
        IsDense p s
        → (n : ℕ) → 1 ≤ n
        → n ≤ t.sequence
        → (x : Event) × (t.events (p.slot_to_event_id n) ≡ some x)
          × (x.event_id ≡ p.slot_to_event_id n)
    filled_after h n low high = elim (Bool-cases (eqb n (s.sequence + 1))) [
      | inl last ↦
          let same : n ≡ s.sequence + 1 = ground arith in
          let id : e.event_id ≡ p.slot_to_event_id n = rw same named in
          (
            e,
            ground
                (arith, at_slot (p.slot_to_event_id n), eq_iff e.event_id (p.slot_to_event_id n)),
            id,
          )
      | inr earlier ↦
          let (x, at, id) = h.filled n low (ground arith) in
          (x, old_slot (p.slot_to_event_id n) n (ground arith) refl ∙ at, id)
    ]

    only_after :
        IsDense p s
        → (id : String) (x : Event) → t.events id ≡ some x
        → (n : ℕ) × (1 ≤ n) × (n ≤ t.sequence) × (id ≡ p.slot_to_event_id n)
    only_after h id x at = elim (Bool-cases (e.event_id == id)) [
      | inl new ↦
          (s.sequence + 1, omega arith, omega arith, sym ((eq_iff e.event_id id).0 new) ∙ named)
      | inr old ↦
          let (n, low, high, is) = h.only id x (ground (arith, at_slot id)) in
          (n, low, omega arith, is)
    ]

    append-IsDense : IsDense p s → IsDense p t
    append-IsDense h = record { filled = filled_after h; only = only_after h }

    kept_after :
        IsDense p s → (id : String) (x : Event) → s.events id ≡ some x → t.events id ≡ some x
    kept_after h id x at = let (n, low, high, is) = h.only id x at in old_slot id n high is ∙ at

-- A dense log that still holds every event of `s`.
pub record Extends (p : Platform) (s t : State) : Type 0 where
  pub dense : IsDense p t
  pub longer : s.sequence ≤ t.sequence
  pub kept : (id : String) (e : Event) → s.events id ≡ some e → t.events id ≡ some e

pub Extends-closed : (p : Platform) (start : State) → IsLogProperty p (Extends p start)
Extends-closed p start = record {
  same = λ s t events sequence h. record {
    dense = record {
      filled = λ n low high. rw events (h.dense.filled n low (rw sequence at high));
      only = λ id e at. rw sequence (h.dense.only id e (rw events at at));
    };
    longer = rw sequence h.longer;
    kept = λ id e at. rw events (h.kept id e at);
  };
  append = λ s t e named written next h. record {
    dense = append-IsDense p s t e named written next h.dense;
    longer = omega (arith, h.longer);
    kept = λ id x at. kept_after p s t e named written next h.dense id x (h.kept id x at);
  };
}

pub Extends-trans : (p : Platform) (a b c : State) → Extends p a b → Extends p b c → Extends p a c
Extends-trans p a b c h k = record {
  dense = k.dense;
  longer = omega (arith, h.longer, k.longer);
  kept = λ id e at. k.kept id e (h.kept id e at);
}

pub Extends-refl : (p : Platform) (st : State) → IsDense p st → Extends p st st
Extends-refl p st d = record { dense = d; longer = omega arith; kept = λ id e at. at }

-- Whatever event is applied to a run with a dense log, and whatever its outcome, the log stays
-- dense, the sequence does not fall, and every event stored before is still stored unchanged.
pub apply_event-Extends :
    (p : Platform) (ctx : Context) (st : State)
    → IsDense p st
    → Ensures (Extends p st) (apply_event p ctx st)
apply_event-Extends p ctx st dense =
    apply_event-log p (Extends p st) ctx st (Extends-closed p st)
      (record { dense = dense; longer = omega arith; kept = λ id e at. at })
