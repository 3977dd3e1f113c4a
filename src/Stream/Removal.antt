-- ===== src/Stream/Removal.antt =====
-- The expiry of a stream comes to an end (`expireStream` of `src/worker/durable-objects/StreamDO.ts`).
use mathlib.Core.Path.{subst}
use world_celld.Common.{
  ℕ, zero, suc, ◌≤◌, ◌≡◌, ◌⊎◌, refl, sym, ap, ◌∙◌, inl, inr, arith, String, eq_refl, Bool, true,
  false, ◌&&◌, Option, none, some, List, eqb, if◌then◌else◌, Bool-cases, Option-cases,
}
use world_celld.Queue.Claim.{non_empty}
use world_celld.Stream.Bytes.{Bytes}
use world_celld.Stream.Protocol.{
  validate_stream_write_chunks, StreamTerminalState, opened, closed, errored, expired,
}
use world_celld.Stream.Cell.{
  StreamError, StreamOutcome, ok, err, ◌>>=◌, Layout, per_chunk, segmented, StreamMeta,
  StreamStorage, StreamCell, max_stream_index, validate_meta, stored_meta, assert_owner, committed,
  write_chunks, assert_writable,
}
use world_celld.Stream.Expire.{
  ExpireStreamResult, bounded_limit, default_expire_byte_limit, is_expired, expired_meta,
  expire_stream,
}
use world_celld.Stream.PageSteps.{rows_left, IsSizedRight, Progress, expire_page-Progress}

-- Expiry page by page, until one is the last: one page, and at most `more` after it.
unfoldable pub expire_pages :
    (more : ℕ)
    → String
    → (now : ℕ) → (limit byte_limit : Option ℕ) → StreamCell
    → StreamOutcome (ExpireStreamResult × StreamCell)
expire_pages zero run_id now limit byte_limit cell = expire_stream run_id now limit byte_limit cell
expire_pages (suc more) run_id now limit byte_limit cell = do
  r ← expire_stream run_id now limit byte_limit cell
  let again = expire_pages more run_id now limit byte_limit r.1
  if r.0.done then ok r else again

-- A cell that a run may expire: its metadata are sound, the run owns it or nobody does, and the sizes
-- that it has stored are sizes.
pub record IsExpirable (run_id : String) (meta : StreamMeta) (cell : StreamCell) : Type 0 where
  pub read : stored_meta cell.storage.meta ≡ ok meta
  pub owner_ok : assert_owner meta run_id ≡ ok tt
  pub sized : IsSizedRight meta.layout cell.storage

bounded-positive :
    (limit : Option ℕ) (fallback maximum : ℕ)
    → 1 ≤ fallback
    → 1 ≤ bounded_limit limit fallback maximum
bounded-positive none fallback maximum h = h
bounded-positive (some value) fallback maximum h = omega arith

rows_left-meta :
    (layout : Layout) (storage : StreamStorage) (meta : Option StreamMeta)
    → rows_left layout (record storage { meta = meta }) ≡ rows_left layout storage
rows_left-meta segmented storage meta = refl
rows_left-meta per_chunk storage meta = refl

IsSizedRight-meta :
    (layout : Layout) (storage : StreamStorage) (meta : Option StreamMeta)
    → IsSizedRight layout storage
    → IsSizedRight layout (record storage { meta = meta })
IsSizedRight-meta segmented storage meta h = h
IsSizedRight-meta per_chunk storage meta h = h

run-named :
    (meta : StreamMeta) (run_id : String)
    → assert_owner meta run_id ≡ ok tt
    → non_empty run_id ≡ true
unfolding assert_owner
run-named meta run_id h = elim (Bool-cases (non_empty run_id)) [
  | inl e ↦ e
  | inr e ↦ ground (arith, e, h)
]

stored-count :
    (stored : Option StreamMeta) (meta : StreamMeta)
    → stored_meta stored ≡ ok meta
    → meta.count ≤ max_stream_index
unfolding stored_meta validate_meta
stored-count none meta h = ground (arith, h)
stored-count (some m) meta h = ground (arith, h)

expired-stored :
    (run_id : String) (now : ℕ) (done : Bool) (meta : StreamMeta)
    → meta.count ≤ max_stream_index
    → stored_meta (some (expired_meta run_id now done meta))
      ≡ ok (expired_meta run_id now done meta)
unfolding stored_meta validate_meta
expired-stored run_id now true meta few = refl
expired-stored run_id now false meta few = ground (arith, few)

expired-owner :
    (run_id : String) (now : ℕ) (done : Bool) (meta : StreamMeta)
    → non_empty run_id ≡ true
    → assert_owner (expired_meta run_id now done meta) run_id ≡ ok tt
unfolding assert_owner
expired-owner run_id now done meta named = rw named (rw (eq_refl run_id) refl)

is_expired-expired : (s : StreamTerminalState) → is_expired s ≡ true → s ≡ expired
is_expired-expired opened h = cc
is_expired-expired closed h = cc
is_expired-expired errored h = cc
is_expired-expired expired h = refl

StreamOutcome-cases :
    {A : Type 0}
    → (r : StreamOutcome A) → ((a : A) × (r ≡ ok a)) ⊎ ((e : StreamError) × (r ≡ err e))
StreamOutcome-cases (ok a) = inl (a, refl)
StreamOutcome-cases (err e) = inr (e, refl)

expired-refuses :
    (meta : StreamMeta) (cell : StreamCell)
    → stored_meta cell.storage.meta ≡ ok meta
    → meta.state ≡ expired
    → (writer : String) (chunks : List Bytes)
    → (e : StreamError) × (write_chunks writer chunks cell ≡ err e)
unfolding write_chunks assert_writable
expired-refuses meta cell read ended writer chunks =
    elim (Option-cases (validate_stream_write_chunks chunks)) [
      | inl invalid ↦ rw invalid (_, refl)
      | inr (total, valid) ↦ elim (StreamOutcome-cases (assert_owner meta writer)) [
        | inl (owned, e) ↦ rw valid (rw read (rw e (rw ended (_, refl))))
        | inr (error, e) ↦ rw valid (rw read (rw e (_, refl)))
      ]
    ]

-- What one page leaves: a cell whose stream has expired, and that the same run may go on with.
module _ (run_id : String) (now : ℕ) (limit byte_limit : Option ℕ) where
  Stepped : StreamMeta → StreamCell → Type 0
  Stepped meta cell =
      (r : ExpireStreamResult) × (next : StreamCell) × (left : StreamMeta) × (expire_stream run_id
          now limit byte_limit cell
        ≡ ok (r, next))
      × IsExpirable run_id left next
      × (left.layout ≡ meta.layout)
      × (left.state ≡ expired)
      × Progress r.done (rows_left meta.layout cell.storage) (rows_left meta.layout next.storage)

  expire-Stepped :
      (meta : StreamMeta) (cell : StreamCell) → IsExpirable run_id meta cell → Stepped meta cell
  unfolding Stepped expire_stream
  expire-Stepped meta cell x =
      let page_limit = bounded_limit limit 64 256 in
      let bytes = bounded_limit byte_limit default_expire_byte_limit default_expire_byte_limit in
      let (found, next, e, same_meta, sized, progress) =
        expire_page-Progress meta.layout page_limit bytes cell.storage
          (bounded-positive limit 64 256 (omega arith)) x.sized in
      let left = expired_meta run_id now found.done meta in
      let left_nothing =
        found.done && eqb found.chunks 0 && is_expired meta.state && meta.payload_deleted in
      elim (Bool-cases left_nothing) [
        | inl h ↦
            let done : found.done ≡ true = ground (arith, h) in
            let ended : is_expired meta.state ≡ true = ground (arith, h) in
            let unchanged : IsExpirable run_id meta (committed cell next meta) = record {
              read = ap stored_meta same_meta ∙ x.read;
              owner_ok = x.owner_ok;
              sized = sized;
            } in
            rw (x.read) (
              rw (x.owner_ok) (
                rw e (
                  rw h (
                    _,
                    _,
                    meta,
                    refl,
                    unchanged,
                    refl,
                    is_expired-expired meta.state ended,
                    (subst
                        (λ (d : Bool).
                          Progress d (rows_left meta.layout cell.storage)
                            (rows_left meta.layout next))
                        done progress),
                  ))))
        | inr h ↦
            let named = run-named meta run_id x.owner_ok in
            let few = stored-count cell.storage.meta meta x.read in
            let fenced : IsExpirable run_id left
                (committed cell (record next { meta = some left }) left) =
              record {
                read = expired-stored run_id now found.done meta few;
                owner_ok = expired-owner run_id now found.done meta named;
                sized = IsSizedRight-meta meta.layout next (some left) sized;
              } in
            rw (x.read) (
              rw (x.owner_ok) (
                rw e (
                  rw h (
                    _,
                    _,
                    left,
                    refl,
                    fenced,
                    refl,
                    refl,
                    (subst (λ (n : ℕ). Progress found.done (rows_left meta.layout cell.storage) n)
                        (sym (rows_left-meta meta.layout next (some left))) progress),
                  ))))
      ]

-- The expiry of a stream with sound metadata and sizes, by a run that owns it or where nobody does,
-- ends: whatever the limits of a page, after no more further pages than the stream has rows there is
-- a page that says it is the last, and then no row of the stream is left, its stored state is
-- expired, and no run can write to it any more.
pub expiry_finishes :
    (run_id : String) (now : ℕ) (limit byte_limit : Option ℕ) (more : ℕ) (meta : StreamMeta)
    (cell : StreamCell)
    → IsExpirable run_id meta cell
    → rows_left meta.layout cell.storage ≤ more
    → (r : ExpireStreamResult) × (next : StreamCell) × (expire_pages more run_id now limit
          byte_limit cell
        ≡ ok (r, next))
      × (r.done ≡ true)
      × (rows_left meta.layout next.storage ≡ 0)
      × ((left : StreamMeta) × (stored_meta next.storage.meta ≡ ok left) × (left.state ≡ expired))
      × ((writer : String) (chunks : List Bytes)
          → (e : StreamError) × (write_chunks writer chunks next ≡ err e))
unfolding expire_pages Stepped
expiry_finishes run_id now limit byte_limit zero meta cell x enough =
    let (r, next, left, e, again, same, ended, progress) =
      expire-Stepped run_id now limit byte_limit meta cell x in
    let refused = expired-refuses left next again.read ended in
    elim progress [
      | inl (done, none_left) ↦ (r, next, e, done, none_left, (left, again.read, ended), refused)
      | inr (not_done, fewer) ↦ ground (arith, fewer, enough)
    ]
expiry_finishes run_id now limit byte_limit (suc more) meta cell x enough =
    let (r, next, left, e, again, same, ended, progress) =
      expire-Stepped run_id now limit byte_limit meta cell x in
    let refused = expired-refuses left next again.read ended in
    elim progress [
      | inl (done, none_left) ↦
          rw e (rw done (r, next, refl, done, none_left, (left, again.read, ended), refused))
      | inr (not_done, fewer) ↦
          let rest_fits : rows_left left.layout next.storage ≤ more =
            subst (λ (l : Layout). rows_left l next.storage ≤ more) (sym same)
              (omega (arith, fewer, enough)) in
          rw e (
            rw not_done (
              subst
                (λ (l : Layout).
                  (r' : ExpireStreamResult) × (next' : StreamCell) × (expire_pages more run_id now
                      limit byte_limit next
                    ≡ ok (r', next'))
                  × (r'.done ≡ true)
                  × (rows_left l next'.storage ≡ 0)
                  × ((last : StreamMeta) × (stored_meta next'.storage.meta ≡ ok last)
                      × (last.state ≡ expired))
                  × ((writer : String) (chunks : List Bytes)
                      → (e' : StreamError) × (write_chunks writer chunks next' ≡ err e')))
                same (expiry_finishes run_id now limit byte_limit more left next again rest_fits)))
    ]
