-- ===== src/Catalog/Fence.antt =====
-- The fence of an expired run outlives every publication of it
-- (`src/worker/durable-objects/RunCatalogDO.ts`).
use mathlib.Core.Path.{subst}
use world_celld.Common.{
  ℕ, zero, suc, ◌+◌, ◌≤◌, ◌≡◌, sym, ap, ◌∙◌, inl, inr, arith, String, eq_iff, Bool, ◌==◌, Option,
  none, some, List, [], ◌∷◌, take, All, leb, eqb, match_option, Bool-cases, Option-cases,
}
use world_celld.Catalog.Shard.{
  catalog_fence_grace_ms, CatalogExpiryFence, CatalogExpiryGc, CatalogKeys, RunCatalog, upsert_run,
  delete_stale_global_run, expire_catalog_run, due_expiries, drop_fence, drop_fences,
  compact_expiry_fences, retry_compaction,
}

pub data CatalogCall : Type 0 where
  publish : String → CatalogKeys → String → ℕ → CatalogCall
  discard : String → String → CatalogCall
  expire : String → ℕ → CatalogCall
  compact compact_fails : CatalogCall

abbrev pub empty_catalog : RunCatalog
empty_catalog = record {
  entries = λ _. none;
  fences = λ _. none;
  catalog_keys = λ _. none;
  expiry_gc = [];
  alarm = none;
}

-- What is known of a run's fence until `until`: while it is there it stays so long, and it is gone only
-- afterwards.
abbrev pub FencedUntil : (until now : ℕ) → Option CatalogExpiryFence → Type 0
FencedUntil until now none = until ≤ now
FencedUntil until now (some fence) = until ≤ fence.compact_at

-- A run has no stored keys while it has a fence.
abbrev pub KeysOrFence : Option CatalogKeys → Option CatalogExpiryFence → Type 0
KeysOrFence none fence = Unit
KeysOrFence (some keys) fence = fence ≡ none

module _ (before : String → String → Bool) where
  unfoldable pub catalog_call : CatalogCall → (now : ℕ) → RunCatalog → RunCatalog
  catalog_call (publish run_id keys metadata expires_at) now c =
      (upsert_run run_id keys metadata expires_at now c).0
  catalog_call (discard key expected) now c = (delete_stale_global_run key expected c).0
  catalog_call (expire run_id expired_at) now c =
      (expire_catalog_run before run_id expired_at now c).0
  catalog_call compact now c = compact_expiry_fences now c
  catalog_call compact_fails now c = retry_compaction now c

  -- Calls one after another, each with the time that passes before it.
  unfoldable pub catalog_calls : List (ℕ × CatalogCall) → (now : ℕ) → RunCatalog → ℕ × RunCatalog
  catalog_calls [] now c = (now, c)
  catalog_calls (s ∷ steps) now c = catalog_calls steps (now + s.0) (catalog_call s.1 (now + s.0) c)

due-All :
    (now : ℕ) (gs : List CatalogExpiryGc) → All (λ g. g.compact_at ≤ now) (due_expiries now gs)
unfolding due_expiries
due-All now [] = tt
due-All now (g ∷ gs) = elim (Bool-cases (leb g.compact_at now)) [
  | inl e ↦ rw e (ground (arith, e), due-All now gs)
  | inr e ↦ rw e (due-All now gs)
]

All-take :
    (P : CatalogExpiryGc → Type 0) (n : ℕ) (gs : List CatalogExpiryGc)
    → All P gs
    → All P (take n gs)
All-take P zero gs h = tt
All-take P (suc n) [] h = tt
All-take P (suc n) (g ∷ gs) h = (h.0, All-take P n gs h.1)

-- Compaction takes a fence away only when its time has come.
module _ (run_id : String) (until now : ℕ) where
  drop_fence-Fenced :
      (g : CatalogExpiryGc) (fences : String → Option CatalogExpiryFence)
      → g.compact_at ≤ now
      → FencedUntil until now (fences run_id)
      → FencedUntil until now (drop_fence g fences run_id)
  drop_fence-Fenced g fences due h = elim (Option-cases (fences g.run_id)) [
    | inl e ↦ rw e h
    | inr (fence, e) ↦ elim (Bool-cases (eqb fence.compact_at g.compact_at)) [
      | inr t ↦ rw e (rw t h)
      | inl t ↦ elim (Bool-cases (g.run_id == run_id)) [
        | inr other ↦ rw e (rw t (rw other h))
        | inl same ↦
            let named : g.run_id ≡ run_id = ground (arith, same, eq_iff g.run_id run_id) in
            let held : until ≤ fence.compact_at =
              subst (FencedUntil until now) (ap fences (sym named) ∙ e) h in
            rw e (rw t (rw same (ground (arith, held, t, due))))
      ]
    ]
  ]

  drop_fences-Fenced :
      (page : List CatalogExpiryGc) (fences : String → Option CatalogExpiryFence)
      → All (λ g. g.compact_at ≤ now) page
      → FencedUntil until now (fences run_id)
      → FencedUntil until now (drop_fences page fences run_id)
  unfolding drop_fences
  drop_fences-Fenced [] fences due h = h
  drop_fences-Fenced (g ∷ gs) fences due h =
      drop_fences-Fenced gs (drop_fence g fences) due.1 (drop_fence-Fenced g fences due.0 h)

  pub later-Fenced :
      (earlier : ℕ) (fence : Option CatalogExpiryFence)
      → earlier ≤ now
      → FencedUntil until earlier fence
      → FencedUntil until now fence
  later-Fenced earlier none h f = omega (arith, h, f)
  later-Fenced earlier (some fence) h f = f

  expire-Fenced :
      (before : String → String → Bool) (other : String) (at : ℕ) (c : RunCatalog)
      → FencedUntil until now (c.fences run_id)
      → FencedUntil until now ((expire_catalog_run before other at now c).0.fences run_id)
  unfolding expire_catalog_run
  expire-Fenced before other at c h = elim (Option-cases (c.catalog_keys other)) [
    | inl e ↦ rw e h
    | inr (keys, e) ↦ elim (Bool-cases (other == run_id)) [
      | inr o ↦ rw e (rw o h)
      | inl same ↦
          let named : other ≡ run_id = ground (arith, same, eq_iff other run_id) in
          let held : FencedUntil until now (c.fences other) =
            subst (FencedUntil until now) (ap (c.fences) (sym named)) h in
          rw e (rw same (kept_at (c.fences other) held))
    ]
  ]
    where
      kept_at :
          (fence : Option CatalogExpiryFence)
          → FencedUntil until now fence
          → until ≤ match_option fence (now + catalog_fence_grace_ms) (λ f. f.compact_at)
      kept_at none f = omega (arith, f)
      kept_at (some f) k = k

  upsert-fences :
      (other : String) (keys : CatalogKeys) (metadata : String) (expires_at : ℕ) (c : RunCatalog)
      → (upsert_run other keys metadata expires_at now c).0.fences ≡ c.fences
  unfolding upsert_run
  upsert-fences other keys metadata expires_at c = ground arith

  delete-fences :
      (key expected : String) (c : RunCatalog)
      → (delete_stale_global_run key expected c).0.fences ≡ c.fences
  unfolding delete_stale_global_run
  delete-fences key expected c = ground arith

  pub call-Fenced :
      (before : String → String → Bool) (call : CatalogCall) (c : RunCatalog)
      → FencedUntil until now (c.fences run_id)
      → FencedUntil until now ((catalog_call before call now c).fences run_id)
  unfolding catalog_call
  call-Fenced before (publish other keys metadata expires_at) c h =
      rw (upsert-fences other keys metadata expires_at c) h
  call-Fenced before (discard key expected) c h = rw (delete-fences key expected c) h
  call-Fenced before (expire other at) c h = expire-Fenced before other at c h
  call-Fenced before compact c h =
      unfold compact_expiry_fences in
      let due = take 129 (due_expiries now c.expiry_gc) in
      drop_fences-Fenced (take 128 due) c.fences
        (All-take (λ g. g.compact_at ≤ now) 128 due
          (All-take (λ g. g.compact_at ≤ now) 129 (due_expiries now c.expiry_gc)
            (due-All now c.expiry_gc)))
        h
  call-Fenced before compact_fails c h = h
