-- ===== src/Stream/Expire.antt =====
-- The expiry of a stream (`src/worker/durable-objects/StreamDO.ts`): `expireStream` with
-- `expireChunkPage` and `expireSegmentPage`.
use world_celld.Common.{
  ℕ, suc, ◌+◌, ◌*◌, min, max, String, Bool, true, false, not, ◌&&◌, ◌||◌, Option, none, some, List,
  [], ◌∷◌, length, take, get_or, ltb, eqb, if◌then◌else◌,
}
use world_celld.Stream.Bytes.{Bytes}
use world_celld.Stream.Protocol.{StreamTerminalState, expired, is_empty}
use world_celld.Stream.Segment.{SegmentSize}
use world_celld.Stream.Rows.{delete_rows}
use world_celld.Stream.Cell.{
  invalid_row, StreamOutcome, ok, ◌>>=◌, ◌>>◌, guard, Layout, per_chunk, segmented, StreamMeta,
  StreamStorage, StreamCell, stored_meta, assert_owner, committed,
}
use world_celld.Stream.Read.{validate_chunk_size}

-- `boundedLimit`, of a finite number
abbrev pub bounded_limit : Option ℕ → (fallback maximum : ℕ) → ℕ
bounded_limit none fallback maximum = fallback
bounded_limit (some value) fallback maximum = max 1 (min maximum value)

abbrev pub default_expire_byte_limit : ℕ
default_expire_byte_limit = 16 * 1024 * 1024

-- A page: the indexes of its rows, and the chunks and bytes they hold.
pub record Page : Type 0 where
  pub rows : List ℕ
  pub chunks : ℕ
  pub bytes : ℕ

abbrev pub empty_page : Page
empty_page = record { rows = []; chunks = 0; bytes = 0 }

-- The loop of `expireChunkPage`; `page` is what it has so far, its rows in reverse.
unfoldable pub page_chunks : (byte_limit : ℕ) → Page → List (ℕ × ℕ) → StreamOutcome Page
page_chunks byte_limit page [] = ok page
page_chunks byte_limit page (row ∷ rows) = do
  size ← validate_chunk_size (some row.1) row.0
  let rest =
      page_chunks byte_limit
        (record { rows = row.0 ∷ page.rows; chunks = suc page.chunks; bytes = page.bytes + size })
        rows
  if not (is_empty page.rows) && ltb byte_limit (page.bytes + size) then ok page else rest

-- The loop of `expireSegmentPage`
unfoldable pub page_segments :
    (limit byte_limit : ℕ) → Page → List (ℕ × SegmentSize) → StreamOutcome Page
page_segments limit byte_limit page [] = ok page
page_segments limit byte_limit page (row ∷ rows) = do
  guard (ltb 0 row.1.count) (invalid_row row.0)
  let rest =
      page_segments limit byte_limit
        (record {
          rows = row.0 ∷ page.rows;
          chunks = page.chunks + row.1.count;
          bytes = page.bytes + row.1.bytes;
        })
        rows
  let over = ltb limit (page.chunks + row.1.count) || ltb byte_limit (page.bytes + row.1.bytes)
  if not (is_empty page.rows) && over then ok page else rest

-- A page without size rows: the first payload row, should there be one.
abbrev pub orphan_page : List (ℕ × Bytes) → Page
orphan_page [] = empty_page
orphan_page (row ∷ rows) = record { rows = row.0 ∷ []; chunks = 1; bytes = length row.1 }

pub record PageResult : Type 0 where
  pub chunks : ℕ
  pub bytes : ℕ
  pub done : Bool

-- `expireChunkPage`
unfoldable pub expire_chunk_page :
    (limit byte_limit : ℕ) → StreamStorage → StreamOutcome (PageResult × StreamStorage)
expire_chunk_page limit byte_limit storage = do
  let candidates = take (suc limit) storage.chunk_sizes
  listed ← page_chunks byte_limit empty_page (take limit candidates)
  let page = if is_empty candidates then orphan_page storage.chunks else listed
  let chunks = delete_rows page.rows storage.chunks
  let fallback = is_empty candidates && not (is_empty page.rows)
  let complete = eqb (length candidates) (length page.rows)
  ok (
    record {
      chunks = length page.rows;
      bytes = page.bytes;
      done =
          (if fallback || (complete && not (is_empty candidates))
            then is_empty chunks
            else complete);
    },
    record storage { chunks = chunks; chunk_sizes = delete_rows page.rows storage.chunk_sizes },
  )

-- `expireSegmentPage`
unfoldable pub expire_segment_page :
    (limit byte_limit : ℕ) → StreamStorage → StreamOutcome (PageResult × StreamStorage)
expire_segment_page limit byte_limit storage = do
  let candidates = take (suc limit) storage.segment_sizes
  listed ← page_segments limit byte_limit empty_page candidates
  let page = if is_empty candidates then orphan_page storage.segments else listed
  let segments = delete_rows page.rows storage.segments
  let orphan = is_empty candidates && not (is_empty page.rows)
  let complete = not orphan && eqb (length candidates) (length page.rows)
  ok (
    record {
      chunks = page.chunks;
      bytes = page.bytes;
      done = (if orphan || complete then is_empty segments else complete);
    },
    record storage {
      segments = segments;
      segment_sizes = delete_rows page.rows storage.segment_sizes;
    },
  )

abbrev pub expire_page :
    Layout → (limit byte_limit : ℕ) → StreamStorage → StreamOutcome (PageResult × StreamStorage)
expire_page segmented = expire_segment_page
expire_page per_chunk = expire_chunk_page

pub record ExpireStreamResult : Type 0 where
  pub deleted : Bool
  pub chunks : ℕ
  pub bytes : ℕ
  pub done : Bool

abbrev pub is_expired : StreamTerminalState → Bool
is_expired expired = true
is_expired _ = false

-- The metadata that `expireStream` leaves.
abbrev pub expired_meta : String → ℕ → Bool → StreamMeta → StreamMeta
expired_meta run_id now done meta = record meta {
  count = (if done then 0 else meta.count);
  owner_run_id = some run_id;
  state = expired;
  error = none;
  expired_at = some (get_or meta.expired_at now);
  expired_chunk_count = some (get_or meta.expired_chunk_count meta.count);
  payload_deleted = done;
}

-- `expireStream`
unfoldable pub expire_stream :
    String
    → (now : ℕ) → (limit byte_limit : Option ℕ) → StreamCell
    → StreamOutcome (ExpireStreamResult × StreamCell)
expire_stream run_id now limit byte_limit cell = do
  meta ← stored_meta cell.storage.meta
  assert_owner meta run_id
  page ←
      expire_page meta.layout (bounded_limit limit 64 256)
        (bounded_limit byte_limit default_expire_byte_limit default_expire_byte_limit) cell.storage
  let found = page.0
  let next = expired_meta run_id now found.done meta
  let nothing_left =
      found.done && eqb found.chunks 0 && is_expired meta.state && meta.payload_deleted
  ok (
      if nothing_left
      then (
        record { deleted = false; chunks = 0; bytes = 0; done = true },
        committed cell page.1 meta,
      )
      else (
        record {
          deleted = not (is_expired meta.state);
          chunks = found.chunks;
          bytes = found.bytes;
          done = found.done;
        },
        committed cell (record (page.1) { meta = some next }) next,
      ))
