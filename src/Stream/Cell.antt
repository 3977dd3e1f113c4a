-- ===== src/Stream/Cell.antt =====
-- The cell of a stream (`src/worker/durable-objects/StreamDO.ts`): its metadata, its rows, and the
-- operations `writeChunks`, `closeStream` and `failStream`.
use world_celld.Common.{
  ℕ, suc, ◌+◌, ◌-◌, String, Bool, true, false, not, ◌&&◌, ◌==◌, Option, none, some, List, [], ◌∷◌,
  length, leb, is_some, if◌then◌else◌, match_option,
}
use world_celld.Queue.Claim.{non_empty}
use world_celld.Stream.Bytes.{Bytes, pos}
use world_celld.Stream.Protocol.{
  StreamTerminalState, opened, closed, errored, expired, StreamErrorData, StreamWriteResult,
  validate_stream_write_chunks,
}
use world_celld.Stream.Segment.{SegmentSize, Segment, encode_segment, segment_size, pack_segments}
use world_celld.Stream.Rows.{put_row}

-- Why an operation throws.
pub data StreamError : Type 0 where
  run_required invalid_batch invalid_request invalid_meta offset_limit : StreamError
  owned_by run_expired : String → StreamError
  stream_closed stream_errored not_expired : StreamError
  invalid_row missing_segment overlapping_segment : ℕ → StreamError

pub data StreamOutcome {ℓ} (A : Type ℓ) : Type ℓ where
  ok : A → StreamOutcome A
  err : StreamError → StreamOutcome A

infixl 5 ◌>>=◌ ◌>>◌
abbrev pub ◌>>=◌ {ℓ κ} :
    {A : Type ℓ} {B : Type κ} → StreamOutcome A → (A → StreamOutcome B) → StreamOutcome B
ok a >>= f = f a
err e >>= f = err e

abbrev pub ◌>>◌ {κ} : {B : Type κ} → StreamOutcome (Unit {0}) → StreamOutcome B → StreamOutcome B
m >> k = m >>= λ _. k

abbrev pub guard : Bool → StreamError → StreamOutcome (Unit {0})
guard true e = ok tt
guard false e = err e

-- A value, or the error that it is missing.
abbrev pub require_stream {ℓ} : {A : Type ℓ} → Option A → StreamError → StreamOutcome A
require_stream none e = err e
require_stream (some a) e = ok a

pub data Layout : Type 0 where
  per_chunk segmented : Layout

pub record StreamMeta : Type 0 where
  pub count : ℕ
  pub state : StreamTerminalState
  pub owner_run_id : Option String
  pub error : Option StreamErrorData
  pub expired_at : Option ℕ
  pub expired_chunk_count : Option ℕ
  pub payload_deleted : Bool
  pub layout : Layout

-- The rows of a cell, and the metadata that it keeps in memory.
pub record StreamStorage : Type 0 where
  pub meta : Option StreamMeta
  pub chunk_sizes : List (ℕ × ℕ)
  pub chunks : List (ℕ × Bytes)
  pub segment_sizes : List (ℕ × SegmentSize)
  pub segments : List (ℕ × Bytes)

pub record StreamCell : Type 0 where
  pub storage : StreamStorage
  pub cached : Option StreamMeta
  pub change_version : ℕ

abbrev pub max_stream_index : ℕ
max_stream_index = 0x7fffffff

-- `emptyMeta`
abbrev pub empty_meta : StreamMeta
empty_meta = record {
  count = 0;
  state = opened;
  owner_run_id = none;
  error = none;
  expired_at = none;
  expired_chunk_count = none;
  payload_deleted = false;
  layout = per_chunk;
}

abbrev pub is_errored : StreamTerminalState → Bool
is_errored errored = true
is_errored _ = false

abbrev pub equal_flags : Bool → Bool → Bool
equal_flags true b = b
equal_flags false b = not b

-- `validateMeta`, of what its type leaves open
unfoldable pub validate_meta : StreamMeta → StreamOutcome StreamMeta
validate_meta meta =
    if leb meta.count max_stream_index && equal_flags (is_errored meta.state) (is_some meta.error)
    then ok meta
    else err invalid_meta

-- The metadata that a transaction reads.
unfoldable pub stored_meta : Option StreamMeta → StreamOutcome StreamMeta
stored_meta none = ok empty_meta
stored_meta (some meta) = validate_meta meta

-- `assertOwner`
unfoldable pub assert_owner : StreamMeta → String → StreamOutcome (Unit {0})
assert_owner meta run_id =
    if non_empty run_id
    then match_option meta.owner_run_id (ok tt) (λ owner. guard (owner == run_id) (owned_by owner))
    else err run_required

-- The states of `assertWritable`
abbrev pub writable : StreamTerminalState → String → StreamOutcome (Unit {0})
writable opened run_id = ok tt
writable closed run_id = err stream_closed
writable errored run_id = err stream_errored
writable expired run_id = err (run_expired run_id)

-- `assertWritable`
unfoldable pub assert_writable : StreamMeta → String → StreamOutcome (Unit {0})
assert_writable meta run_id = assert_owner meta run_id >> writable meta.state run_id

-- The rows that a write adds: a segment and its size, or a chunk and its size.
unfoldable pub put_segments : List Segment → StreamStorage → StreamStorage
put_segments [] storage = storage
put_segments (s ∷ ss) storage = put_segments ss (record storage {
  segments = put_row s.start (encode_segment s.chunks) storage.segments;
  segment_sizes = put_row s.start (segment_size s.chunks) storage.segment_sizes;
})

unfoldable pub put_chunk_rows : ℕ → List Bytes → StreamStorage → StreamStorage
put_chunk_rows index [] storage = storage
put_chunk_rows index (c ∷ cs) storage = put_chunk_rows (suc index) cs (record storage {
  chunks = put_row index c storage.chunks;
  chunk_sizes = put_row index (length c) storage.chunk_sizes;
})

abbrev pub put_payload : Layout → ℕ → List Bytes → StreamStorage → StreamStorage
put_payload segmented start chunks storage = put_segments (pack_segments start chunks) storage
put_payload per_chunk start chunks storage = put_chunk_rows start chunks storage

-- The layout of a write: a new stream packs segments, another keeps its own.
abbrev pub write_layout : Option StreamMeta → Layout
write_layout none = segmented
write_layout (some meta) = meta.layout

-- `writeChunks` sets the metadata after a write anew.
abbrev pub written_meta : String → ℕ → Layout → StreamMeta
written_meta run_id count layout =
    let fresh = empty_meta in
    record fresh { count = count; owner_run_id = some run_id; layout = layout }

-- What a mutation leaves once its transaction is committed.
abbrev pub committed : StreamCell → StreamStorage → StreamMeta → StreamCell
committed cell storage meta = record {
  storage = storage;
  cached = some meta;
  change_version = suc cell.change_version;
}

-- `writeChunks`
unfoldable pub write_chunks :
    String → List Bytes → StreamCell → StreamOutcome (StreamWriteResult × StreamCell)
write_chunks run_id chunks cell = do
  total ← require_stream (validate_stream_write_chunks chunks) invalid_batch
  meta ← stored_meta cell.storage.meta
  assert_writable meta run_id
  guard (leb (meta.count + length chunks) max_stream_index) offset_limit
  let layout = write_layout cell.storage.meta
  let next = written_meta run_id (meta.count + length chunks) layout
  let storage = record (put_payload layout meta.count chunks cell.storage) { meta = some next }
  ok (
    record {
      start_index = pos meta.count;
      count = length chunks;
      tail_index = pos (meta.count + length chunks - 1);
    },
    committed cell storage next,
  )

-- The end of `closeStream` and of `failStream`: the first terminal state wins.
abbrev pub end_stream : String → StreamMeta → StreamMeta → StreamCell → StreamOutcome StreamCell
end_stream run_id meta ended cell = elim meta.state [
  | opened ↦ ok (committed cell (record cell.storage { meta = some ended }) ended)
  | closed ↦ ok (committed cell cell.storage meta)
  | errored ↦ ok (committed cell cell.storage meta)
  | expired ↦ err (run_expired run_id)
]

-- `closeStream`
unfoldable pub close_stream : String → StreamCell → StreamOutcome StreamCell
close_stream run_id cell = do
  meta ← stored_meta cell.storage.meta
  assert_owner meta run_id
  end_stream run_id meta (record meta { owner_run_id = some run_id; state = closed }) cell

-- `failStream`, with the error that `normalizeStreamError` makes
unfoldable pub fail_stream : String → StreamErrorData → StreamCell → StreamOutcome StreamCell
fail_stream run_id error cell = do
  meta ← stored_meta cell.storage.meta
  assert_owner meta run_id
  end_stream run_id meta
      (record meta { owner_run_id = some run_id; state = errored; error = some error }) cell
