-- ===== src/Stream/Draining.antt =====
-- The registry of a run's streams is emptied page by page (`expireRegistry` and `finalizeRegistry` of
-- `src/worker/durable-objects/StreamDO.ts`).
use world_celld.Common.{
  ℕ, zero, suc, ◌+◌, ◌≤◌, ◌<◌, ◌≡◌, ◌⊎◌, refl, ap, ◌∙◌, inl, inr, arith, String, eq_refl, Bool,
  true, ◌==◌, Option, none, some, List, [], ◌∷◌, length, take, get_or, is_some, if◌then◌else◌,
  match_option, Bool-cases,
}
use world_celld.Stream.Protocol.{is_empty}
use world_celld.Stream.Cell.{StreamError, run_expired, StreamOutcome, ok, err, ◌>>=◌, guard}
use world_celld.Stream.Expire.{bounded_limit}
use world_celld.Stream.Log.{owner_allows}
use world_celld.Stream.Registry.{
  RegistryExpiry, StreamRegistry, FinalizeRunStreamsResult, has_name, names_without,
  register_stream, expire_registry, finalize_registry,
}

-- One page of names, whose rows are then deleted.
unfoldable pub drain_page :
    String
    → (now : ℕ) → (limit : Option ℕ) → StreamRegistry
    → StreamOutcome (FinalizeRunStreamsResult × StreamRegistry)
drain_page run_id now limit registry = do
  page ← expire_registry run_id now limit registry
  finalize_registry run_id page.0 page.1

-- Pages until one is the last: one, and at most `more` after it.
unfoldable pub drain :
    (more : ℕ)
    → String
    → (now : ℕ) → (limit : Option ℕ) → StreamRegistry
    → StreamOutcome (FinalizeRunStreamsResult × StreamRegistry)
drain zero run_id now limit registry = drain_page run_id now limit registry
drain (suc more) run_id now limit registry = do
  r ← drain_page run_id now limit registry
  let again = drain more run_id now limit r.1
  if r.0.done then ok r else again

-- The names that were deleted before.
abbrev pub deleted_before : Option RegistryExpiry → ℕ
deleted_before none = 0
deleted_before (some expiry) = expiry.deleted

length-names_without :
    (streams names : List String) → length (names_without streams names) ≤ length names
unfolding names_without
length-names_without streams [] = omega arith
length-names_without streams (n ∷ names) = ground (arith, length-names_without streams names)

page-fewer :
    (limit : ℕ) (n : String) (names : List String)
    → 1 ≤ limit
    → length (names_without (take limit (n ∷ names)) (n ∷ names)) < length (n ∷ names)
unfolding names_without has_name
page-fewer zero n names h = ground (arith, h)
page-fewer (suc limit) n names h =
    rw (eq_refl n) (omega (arith, length-names_without (n ∷ take limit names) names))

bounded-positive :
    (limit : Option ℕ) (fallback maximum : ℕ)
    → 1 ≤ fallback
    → 1 ≤ bounded_limit limit fallback maximum
bounded-positive none fallback maximum h = h
bounded-positive (some value) fallback maximum h = omega arith

owner-guard :
    (owner : Option String) (run_id : String) (e : String → StreamError)
    → owner_allows owner run_id ≡ true
    → match_option owner (ok tt) (λ o. guard (o == run_id) (e o)) ≡ ok tt
owner-guard none run_id e h = refl
owner-guard (some o) run_id e h = rw h refl

-- What one page leaves and counts.
abbrev Drained :
    String → StreamRegistry → StreamOutcome (FinalizeRunStreamsResult × StreamRegistry) → Type 0
Drained run_id registry result =
    (r : FinalizeRunStreamsResult) × (next : StreamRegistry) × (result ≡ ok (r, next))
    × (next.owner ≡ some run_id)
    × (is_some next.expired ≡ true)
    × (deleted_before next.expired ≡ r.deleted)
    × (r.done ≡ is_empty next.names)
    × (r.deleted + length next.names ≡ deleted_before registry.expired + length registry.names)
    × ((next.names ≡ []) ⊎ (length next.names < length registry.names))

is_empty-nil : (names : List String) → is_empty names ≡ true → names ≡ []
is_empty-nil [] h = refl
is_empty-nil (n ∷ names) h = cc

fewer-names :
    (limit : ℕ) (names : List String)
    → 1 ≤ limit
    → (names_without (take limit names) names ≡ [])
      ⊎ (length (names_without (take limit names) names) < length names)
fewer-names limit [] h = unfold names_without in inl refl
fewer-names limit (n ∷ names) h = inr (page-fewer limit n names h)

expiry-deleted :
    (expired : Option RegistryExpiry) (now : ℕ)
    → (get_or expired (record { expired_at = now; deleted = 0 })).deleted ≡ deleted_before expired
expiry-deleted none now = refl
expiry-deleted (some e) now = refl

drain_page-Drained :
    (run_id : String) (now : ℕ) (limit : Option ℕ) (registry : StreamRegistry)
    → owner_allows registry.owner run_id ≡ true
    → Drained run_id registry (drain_page run_id now limit registry)
unfolding drain_page expire_registry finalize_registry
drain_page-Drained run_id now limit registry allowed =
    let page = bounded_limit limit 16 128 in
    let names = names_without (take page registry.names) registry.names in
    let shorter = length-names_without (take page registry.names) registry.names in
    let before = expiry-deleted registry.expired now in
    rw (owner-guard registry.owner run_id StreamError.owned_by allowed) (
      rw (eq_refl run_id) (
        _,
        _,
        refl,
        refl,
        refl,
        refl,
        refl,
        omega (arith, shorter, before),
        fewer-names page registry.names (bounded-positive limit 16 128 (omega arith)),
      ))

-- Whatever the size of a page, a run's registry of streams is empty after no more further pages than it
-- has names: the last page says so, the number that it tells counts every name that was there and the
-- ones deleted before, and then no stream can be registered.
pub registry_drains :
    (before : String → String → Bool) (run_id : String) (now : ℕ) (limit : Option ℕ) (more : ℕ)
    (registry : StreamRegistry)
    → owner_allows registry.owner run_id ≡ true
    → length registry.names ≤ more
    → (r : FinalizeRunStreamsResult) × (next : StreamRegistry) × (drain more run_id now limit
          registry
        ≡ ok (r, next))
      × (r.done ≡ true)
      × (next.names ≡ [])
      × (r.deleted ≡ deleted_before registry.expired + length registry.names)
      × ((name : String) → register_stream before run_id name next ≡ err (run_expired run_id))
unfolding drain register_stream
registry_drains before run_id now limit zero registry allowed enough =
    let (r, next, e, owner, fenced, told, done, counted, fewer) =
      drain_page-Drained run_id now limit registry allowed in
    elim fewer [
      | inl none_left ↦ (
        r,
        next,
        e,
        done ∙ ap is_empty none_left,
        none_left,
        omega (arith, counted, ap length none_left),
        (λ name. rw fenced refl),
      )
      | inr f ↦ ground (arith, f, enough)
    ]
registry_drains before run_id now limit (suc more) registry allowed enough =
    let (r, next, e, owner, fenced, told, done, counted, fewer) =
      drain_page-Drained run_id now limit registry allowed in
    elim (Bool-cases (is_empty next.names)) [
      | inl z ↦
          let none_left = is_empty-nil next.names z in
          rw e (
            rw (done ∙ z) (
              r,
              next,
              refl,
              done ∙ z,
              none_left,
              omega (arith, counted, ap length none_left),
              (λ name. rw fenced refl),
            ))
      | inr z ↦
          let some_fewer : length next.names < length registry.names = elim fewer [
            | inl none_left ↦ ground (arith, z, none_left)
            | inr f ↦ f
          ] in
          let (r', next', e', done', none_left, all, refused) =
            registry_drains before run_id now limit more next
              (ap (λ o. owner_allows o run_id) owner ∙ eq_refl run_id)
              (omega (arith, some_fewer, enough)) in
          rw e (
            rw (done ∙ z)
              (r', next', e', done', none_left, omega (arith, all, told, counted), refused))
    ]
