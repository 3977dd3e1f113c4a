-- ===== src/Catalog/Publication.antt =====
-- No publication of a run from before its expiry is stored after it
-- (`src/worker/durable-objects/RunCatalogDO.ts`).
use mathlib.Core.Path.{subst}
use world_celld.Common.{
  ℕ, ◌+◌, ◌≤◌, ◌≡◌, refl, sym, ap, ◌∙◌, inl, inr, arith, String, eq_iff, eq_refl, Bool, true, false,
  not, ◌&&◌, ◌==◌, Option, none, some, List, [], ◌∷◌, is_some, update, without, Bool-cases,
  Option-cases, if-rule,
}
use world_celld.Catalog.Shard.{
  max_run_index_publication_lifetime_ms, CatalogExpiryFence, CatalogExpiryGc, CatalogKeys,
  RunCatalog, holds_text, holds_keys, is_live_publication, upsert_run, delete_stale_global_run,
  expire_catalog_run, drop_fence, drop_fences, compact_expiry_fences,
}
use world_celld.Catalog.Fence.{
  CatalogCall, publish, discard, expire, compact, compact_fails, empty_catalog, FencedUntil,
  KeysOrFence, catalog_call, catalog_calls, later-Fenced, call-Fenced,
}

drop_fences-none :
    (run_id : String) (page : List CatalogExpiryGc) (fences : String → Option CatalogExpiryFence)
    → fences run_id ≡ none
    → drop_fences page fences run_id ≡ none
unfolding drop_fences
drop_fences-none run_id [] fences h = h
drop_fences-none run_id (g ∷ gs) fences h =
    drop_fences-none run_id gs (drop_fence g fences) (ground (arith, h))

KeysOrFence-drop :
    (run_id : String) (keys : Option CatalogKeys) (page : List CatalogExpiryGc)
    (fences : String → Option CatalogExpiryFence)
    → KeysOrFence keys (fences run_id)
    → KeysOrFence keys (drop_fences page fences run_id)
KeysOrFence-drop run_id none page fences h = tt
KeysOrFence-drop run_id (some keys) page fences h = drop_fences-none run_id page fences h

is_some-none : (fence : Option CatalogExpiryFence) → is_some fence ≡ false → fence ≡ none
is_some-none none h = refl
is_some-none (some f) h = cc

module _ (before : String → String → Bool) (run_id : String) (now : ℕ) where
  publish-KeysOrFence :
      (other : String) (keys : CatalogKeys) (metadata : String) (expires_at : ℕ) (c : RunCatalog)
      → KeysOrFence (c.catalog_keys run_id) (c.fences run_id)
      → let next = (upsert_run other keys metadata expires_at now c).0 in
        KeysOrFence (next.catalog_keys run_id) (next.fences run_id)
  unfolding upsert_run
  publish-KeysOrFence other keys metadata expires_at c h =
      let Kept =
        λ (r : RunCatalog × Bool). KeysOrFence (r.0.catalog_keys run_id) (r.0.fences run_id) in
      if-rule Kept (is_some (c.fences other)) _ _ (λ e. h)
        (λ free.
          if-rule Kept (not (is_live_publication expires_at now)) _ _ (λ e. h)
            (λ live.
              if-rule Kept
                (holds_text (c.entries keys.workflow_key) metadata
                  && holds_text (c.entries keys.global_key) metadata
                  && holds_keys (c.catalog_keys other) keys)
                (c, true)
                (
                  record c {
                    entries =
                        update (update c.entries keys.workflow_key metadata) keys.global_key
                          metadata;
                    catalog_keys = update c.catalog_keys other keys;
                  },
                  true,
                )
                (λ e. h)
                (λ e. elim (Bool-cases (other == run_id)) [
                  | inr o ↦ rw o h
                  | inl same ↦
                      let named : other ≡ run_id = ground (arith, same, eq_iff other run_id) in
                      rw same (ap (c.fences) (sym named) ∙ is_some-none (c.fences other) free)
                ])))

  expire-KeysOrFence :
      (other : String) (at : ℕ) (c : RunCatalog)
      → KeysOrFence (c.catalog_keys run_id) (c.fences run_id)
      → let next = (expire_catalog_run before other at now c).0 in
        KeysOrFence (next.catalog_keys run_id) (next.fences run_id)
  unfolding expire_catalog_run
  expire-KeysOrFence other at c h = elim (Option-cases (c.catalog_keys other)) [
    | inl e ↦ rw e h
    | inr (keys, e) ↦ elim (Bool-cases (other == run_id)) [
      | inr o ↦ rw e (rw o h)
      | inl same ↦ rw e (rw same tt)
    ]
  ]

  call-KeysOrFence :
      (call : CatalogCall) (c : RunCatalog)
      → KeysOrFence (c.catalog_keys run_id) (c.fences run_id)
      → let next = catalog_call before call now c in
        KeysOrFence (next.catalog_keys run_id) (next.fences run_id)
  unfolding catalog_call delete_stale_global_run
  call-KeysOrFence (publish other keys metadata expires_at) c h =
      publish-KeysOrFence other keys metadata expires_at c h
  call-KeysOrFence (discard key expected) c h =
      if-rule (λ (r : RunCatalog × Bool). KeysOrFence (r.0.catalog_keys run_id) (r.0.fences run_id))
        (holds_text (c.entries key) expected) (record c { entries = without c.entries key }, true)
        (c, false) (λ e. h) (λ e. h)
  call-KeysOrFence (expire other at) c h = expire-KeysOrFence other at c h
  call-KeysOrFence compact c h =
      unfold compact_expiry_fences in KeysOrFence-drop run_id (c.catalog_keys run_id) _ c.fences h
  call-KeysOrFence compact_fails c h = h

module _ (before : String → String → Bool) (run_id : String) where
  calls-KeysOrFence :
      (steps : List (ℕ × CatalogCall)) (now : ℕ) (c : RunCatalog)
      → KeysOrFence (c.catalog_keys run_id) (c.fences run_id)
      → let next = (catalog_calls before steps now c).1 in
        KeysOrFence (next.catalog_keys run_id) (next.fences run_id)
  unfolding catalog_calls
  calls-KeysOrFence [] now c h = h
  calls-KeysOrFence (s ∷ steps) now c h =
      calls-KeysOrFence steps (now + s.0) (catalog_call before s.1 (now + s.0) c)
        (call-KeysOrFence before run_id (now + s.0) s.1 c h)

  calls-Fenced :
      (until : ℕ) (steps : List (ℕ × CatalogCall)) (now : ℕ) (c : RunCatalog)
      → FencedUntil until now (c.fences run_id)
      → let (later, next) = catalog_calls before steps now c in
        FencedUntil until later (next.fences run_id)
  unfolding catalog_calls
  calls-Fenced until [] now c h = h
  calls-Fenced until (s ∷ steps) now c h =
      calls-Fenced until steps (now + s.0) (catalog_call before s.1 (now + s.0) c) (
        call-Fenced run_id until (now + s.0) before s.1 c
          (later-Fenced run_id until (now + s.0) now (c.fences run_id) (omega arith) h))

  expired-Fenced :
      (keys : CatalogKeys) (at now : ℕ) (c : RunCatalog)
      → c.catalog_keys run_id ≡ some keys
      → c.fences run_id ≡ none
      → FencedUntil
          (now + max_run_index_publication_lifetime_ms)
          now
          ((expire_catalog_run before run_id at now c).0.fences run_id)
  unfolding expire_catalog_run
  expired-Fenced keys at now c e free = rw e (rw (eq_refl run_id) (rw free (omega arith)))

  fenced-refuses :
      (until : ℕ) (keys : CatalogKeys) (metadata : String) (expires_at now : ℕ) (c : RunCatalog)
      → FencedUntil until now (c.fences run_id)
      → expires_at ≤ until
      → upsert_run run_id keys metadata expires_at now c ≡ (c, false)
  unfolding upsert_run
  fenced-refuses until keys metadata expires_at now c h early =
      elim (Option-cases (c.fences run_id)) [
        | inr (fence, e) ↦ rw e refl
        | inl e ↦
            let over : until ≤ now = subst (FencedUntil until now) e h in
            let dead : is_live_publication expires_at now ≡ false = ground (arith, over, early) in
            rw e (rw dead refl)
      ]

  -- A publication of a run that was made before the run's expiry, and is to end within the longest
  -- lifetime that one may have, is never stored after it, and changes nothing: however long it is under
  -- way, whatever calls the shard had before the expiry and has after it, compactions that take the fence
  -- away and other publications and expiries among them, where the run was published when it expired.
  pub late_publication_refused :
      (past later : List (ℕ × CatalogCall)) (at : ℕ) (published : CatalogKeys)
      → let (expired_at, c) = catalog_calls before past 0 empty_catalog in
        c.catalog_keys run_id ≡ some published
        → let (now, left) =
            catalog_calls before later expired_at
              (expire_catalog_run before run_id at expired_at c).0 in
          (keys : CatalogKeys) (metadata : String) (expires_at : ℕ)
          → expires_at ≤ expired_at + max_run_index_publication_lifetime_ms
          → upsert_run run_id keys metadata expires_at now left ≡ (left, false)
  late_publication_refused past later at published stored keys metadata expires_at early =
      let expired_at = (catalog_calls before past 0 empty_catalog).0 in
      let c = (catalog_calls before past 0 empty_catalog).1 in
      let until = expired_at + max_run_index_publication_lifetime_ms in
      let expired = (expire_catalog_run before run_id at expired_at c).0 in
      let either = calls-KeysOrFence past 0 empty_catalog tt in
      let free : c.fences run_id ≡ none =
        subst (λ (k : Option CatalogKeys). KeysOrFence k (c.fences run_id)) stored either in
      let fenced =
        calls-Fenced until later expired_at expired
          (expired-Fenced published at expired_at c stored free) in
      fenced-refuses until keys metadata expires_at
        (catalog_calls before later expired_at expired).0
        (catalog_calls before later expired_at expired).1 fenced early
