-- ===== src/Stream/Read.antt =====
-- Reads of a stream (`src/worker/durable-objects/StreamDO.ts`): `readSnapshot` with `readChunkRows` and
-- `readSegmentRows`, and `readChunks` around them.
use world_celld.Common.{
  ℕ, zero, suc, ◌+◌, ◌-◌, min, Bool, true, false, not, ◌&&◌, ◌||◌, Option, none, some, List, [],
  ◌∷◌, ◌++◌, length, take, leb, ltb, eqb, if◌then◌else◌, match_option,
}
use world_celld.Stream.Bytes.{Bytes, ℤ, pos, negsuc}
use world_celld.Stream.Protocol.{
  StreamTerminalState, opened, expired, StreamReadRequest, StreamReadResult, max_stream_chunk_bytes,
  validate_stream_read_request, is_empty,
}
use world_celld.Stream.Segment.{SegmentSize, decode_segment}
use world_celld.Stream.Rows.{get_row, rows_between, last_below}
use world_celld.Stream.Cell.{
  invalid_row, missing_segment, overlapping_segment, invalid_request, StreamOutcome, ok, err, ◌>>=◌,
  ◌>>◌, guard, require_stream, Layout, per_chunk, segmented, StreamMeta, StreamStorage, StreamCell,
  stored_meta, assert_owner,
}

-- `getMeta`: what the cell keeps in memory, or else what is stored.
unfoldable pub get_meta : StreamCell → StreamOutcome StreamMeta
get_meta cell = match_option cell.cached (stored_meta cell.storage.meta) (λ meta. ok meta)

-- `validateChunkSize`
abbrev pub validate_chunk_size : Option ℕ → ℕ → StreamOutcome ℕ
validate_chunk_size none index = err (invalid_row index)
validate_chunk_size (some size) index =
    if leb size max_stream_chunk_bytes then ok size else err (invalid_row index)

-- The first loop of `readChunkRows`: the indexes whose sizes fit in the bytes allowed.
unfoldable pub select_chunks :
    List (ℕ × ℕ) → (index available bytes max_bytes : ℕ) → StreamOutcome (List (ℕ × ℕ))
select_chunks sizes index zero bytes max_bytes = ok []
select_chunks sizes index (suc available) bytes max_bytes = do
  size ← validate_chunk_size (get_row index sizes) index
  let rest = select_chunks sizes (suc index) available (bytes + size) max_bytes
  if ltb max_bytes (bytes + size) then ok [] else (rest >>= λ more. ok ((index, size) ∷ more))

-- Its second loop: a payload of the selected size for each index.
unfoldable pub load_chunks : List (ℕ × Bytes) → List (ℕ × ℕ) → StreamOutcome (List Bytes)
load_chunks rows [] = ok []
load_chunks rows (selected ∷ more) = do
  chunk ← require_stream (get_row selected.0 rows) (invalid_row selected.0)
  guard (eqb (length chunk) selected.1) (invalid_row selected.0)
  chunks ← load_chunks rows more
  ok (chunk ∷ chunks)

-- `readChunkRows`
unfoldable pub read_chunk_rows :
    StreamStorage → (start available max_bytes : ℕ) → StreamOutcome (List Bytes)
read_chunk_rows storage start available max_bytes = do
  selected ← select_chunks storage.chunk_sizes start available 0 max_bytes
  load_chunks storage.chunks selected

-- `validateSegmentSize`, of each row that was listed
unfoldable pub validate_segment_sizes :
    List (ℕ × SegmentSize) → StreamOutcome (List (ℕ × SegmentSize))
validate_segment_sizes [] = ok []
validate_segment_sizes (row ∷ rows) = do
  guard (ltb 0 row.1.count) (invalid_row row.0)
  rest ← validate_segment_sizes rows
  ok (row ∷ rest)

-- Whether the first planned segment starts at an index.
abbrev pub starts_at : ℕ → List (ℕ × SegmentSize) → Bool
starts_at start [] = false
starts_at start (row ∷ rows) = eqb row.0 start

-- The segment that contains an index: the last one that starts at it or before it.
unfoldable pub containing_segment : List (ℕ × SegmentSize) → ℕ → StreamOutcome (ℕ × SegmentSize)
containing_segment sizes start = do
  row ← require_stream (last_below (suc start) sizes) (missing_segment start)
  guard (ltb 0 row.1.count) (invalid_row row.0)
  ok row

-- The segments that a read is planned from: those that start in its range, and before them the one
-- that contains its start.
unfoldable pub plan_segments :
    List (ℕ × SegmentSize) → (start available : ℕ) → StreamOutcome (List (ℕ × SegmentSize))
plan_segments sizes start available = do
  planned ← validate_segment_sizes (take available (rows_between start (start + available) sizes))
  if starts_at start planned
      then ok planned
      else (containing_segment sizes start >>= λ row. ok (row ∷ planned))

-- The loop that checks that no offset of the range is missing: the index after the last segment.
unfoldable pub check_coverage : Bool → (covered : ℕ) → List (ℕ × SegmentSize) → StreamOutcome ℕ
check_coverage first covered [] = ok covered
check_coverage first covered (row ∷ rows) = do
  guard (leb row.0 covered) (missing_segment covered)
  guard (first || eqb row.0 covered) (overlapping_segment row.0)
  guard (ltb covered (row.0 + row.1.count)) (missing_segment covered)
  check_coverage false (row.0 + row.1.count) rows

-- The segments that are loaded: until the byte budget is reached.
unfoldable pub select_segments :
    Bool → (bytes max_bytes : ℕ) → List (ℕ × SegmentSize) → List (ℕ × SegmentSize)
select_segments first bytes max_bytes [] = []
select_segments first bytes max_bytes (row ∷ rows) =
    let rest = select_segments false (bytes + row.1.bytes) max_bytes rows in
    if not first && leb max_bytes bytes then [] else row ∷ rest

-- What the inner loop takes from a segment, and whether it returns from the read.
pub record Taken : Type 0 where
  pub taken : List Bytes
  pub bytes : ℕ
  pub expected : ℕ
  pub stopped : Bool

unfoldable pub take_chunks : (end max_bytes bytes expected : ℕ) → List Bytes → Taken
take_chunks end max_bytes bytes expected [] = record {
  taken = [];
  bytes = bytes;
  expected = expected;
  stopped = false;
}
take_chunks end max_bytes bytes expected (c ∷ cs) =
    let rest = take_chunks end max_bytes (bytes + length c) (suc expected) cs in
    if leb end expected || ltb max_bytes (bytes + length c)
    then record { taken = []; bytes = bytes; expected = expected; stopped = true }
    else record rest { taken = c ∷ rest.taken }

abbrev pub drop : ℕ → List Bytes → List Bytes
drop zero cs = cs
drop (suc n) [] = []
drop (suc n) (c ∷ cs) = drop n cs

-- The last loop of `readSegmentRows`, over the selected segments.
unfoldable pub collect_segments :
    List (ℕ × Bytes)
    → (end max_bytes bytes expected : ℕ) → List (ℕ × SegmentSize)
    → StreamOutcome (List Bytes)
collect_segments values end max_bytes bytes expected [] = ok []
collect_segments values end max_bytes bytes expected (row ∷ rows) = do
  guard (leb row.0 expected) (missing_segment expected)
  value ← require_stream (get_row row.0 values) (invalid_row row.0)
  segment ← require_stream (decode_segment row.1 value) (invalid_row row.0)
  let t = take_chunks end max_bytes bytes expected (drop (expected - row.0) segment)
  let rest = collect_segments values end max_bytes t.bytes t.expected rows
  if t.stopped then ok t.taken else (rest >>= λ more. ok (t.taken ++ more))

-- `readSegmentRows`
unfoldable pub read_segment_rows :
    StreamStorage → (start available max_bytes : ℕ) → StreamOutcome (List Bytes)
read_segment_rows storage start available max_bytes = do
  planned ← plan_segments storage.segment_sizes start available
  covered ← check_coverage true start planned
  guard (leb (start + available) covered) (missing_segment covered)
  collect_segments storage.segments (start + available) max_bytes 0 start
      (select_segments true 0 max_bytes planned)

abbrev pub read_rows :
    Layout → StreamStorage → (start available max_bytes : ℕ) → StreamOutcome (List Bytes)
read_rows segmented = read_segment_rows
read_rows per_chunk = read_chunk_rows

-- The number of chunks that a request may have; an expired stream has none.
abbrev pub available_chunks : StreamTerminalState → StreamReadRequest → ℕ → ℕ
available_chunks expired request count = 0
available_chunks _ request count = min request.max_chunks (count - request.start_index)

-- `count - 1`
abbrev pub last_index : ℕ → ℤ
last_index zero = negsuc 0
last_index (suc n) = pos n

-- `readSnapshot`
unfoldable pub read_snapshot :
    StreamReadRequest → Bool → StreamCell → StreamOutcome StreamReadResult
read_snapshot request timed_out cell = do
  meta ← get_meta cell
  assert_owner meta request.run_id
  let available = available_chunks meta.state request meta.count
  let rows = read_rows meta.layout cell.storage request.start_index available request.max_bytes
  chunks ← (if eqb available 0 then ok [] else rows)
  ok (record {
    start_index = pos request.start_index;
    tail_index = last_index meta.count;
    chunks = chunks;
    state = meta.state;
    timed_out = timed_out;
    error = meta.error;
  })

abbrev pub is_open : StreamTerminalState → Bool
is_open opened = true
is_open _ = false

-- Whether `readChunks` answers with the snapshot that it takes at once.
abbrev pub answers_at_once : StreamReadRequest → StreamReadResult → Bool
answers_at_once request immediate =
    not (is_empty immediate.chunks)
    || not (is_open immediate.state)
    || eqb request.wait_ms 0
    || eqb request.max_chunks 0

-- `readChunks`, with the cell as it is when the wait ends, and whether it ended by the timer.
unfoldable pub read_chunks :
    StreamReadRequest
    → StreamCell
    → (later : StreamCell) → (timeout : Bool) → StreamOutcome StreamReadResult
read_chunks request cell later timeout = do
  guard (validate_stream_read_request request) invalid_request
  immediate ← read_snapshot request false cell
  if answers_at_once request immediate then ok immediate else read_snapshot request timeout later
