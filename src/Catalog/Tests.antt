-- ===== src/Catalog/Tests.antt =====
-- The theorem on late publications at a concrete run.
use world_celld.Common.{ℕ, ◌+◌, ◌≤◌, ◌≡◌, refl, String, Bool, false, some, List, [], ◌∷◌, arith}
use world_celld.Catalog.Shard.{CatalogKeys, upsert_run, expire_catalog_run}
use world_celld.Catalog.Fence.{
  CatalogCall, publish, discard, compact, empty_catalog, catalog_call, catalog_calls,
}
use world_celld.Catalog.Publication.{late_publication_refused}

abbrev unordered : String → String → Bool
unordered a b = false

abbrev keys : CatalogKeys
keys = record { workflow_key = "run:w:0000000000001:a"; global_key = "runall:0000000000001:a" }

abbrev past : List (ℕ × CatalogCall)
past = (5, publish "a" keys "m" 100) ∷ []

abbrev later : List (ℕ × CatalogCall)
later = (10, compact) ∷ (3, discard "runall:0000000000001:a" "m") ∷ (1200900, compact) ∷ []

stored : (catalog_calls unordered past 0 empty_catalog).1.catalog_keys "a" ≡ some keys
unfolding catalog_calls catalog_call upsert_run
stored = refl

early : 100 ≤ (catalog_calls unordered past 0 empty_catalog).0 + 1200900
unfolding catalog_calls
early = omega arith

late_publication_refused_example :
    let (expired_at, c) = catalog_calls unordered past 0 empty_catalog in
    let (now, left) =
      catalog_calls unordered later expired_at
        (expire_catalog_run unordered "a" 50 expired_at c).0 in
    upsert_run "a" keys "m" 100 now left ≡ (left, false)
late_publication_refused_example =
    late_publication_refused unordered "a" past later 50 keys stored keys "m" 100 early
