-- ===== src/Stream/Log.antt =====
-- The abstract stream: a log of chunks with an owner and a state, and what the cell's operations do to
-- it (`src/worker/durable-objects/StreamDO.ts`).
use world_celld.Common.{
  ◌+◌, ◌≤◌, ◌<◌, ◌≡◌, String, Bool, true, false, ◌&&◌, ◌==◌, Option, none, some, List, [], ◌∷◌,
  ◌++◌, length, leb, is_some, if◌then◌else◌,
}
use world_celld.Queue.Claim.{non_empty}
use world_celld.Stream.Bytes.{Bytes, pos}
use world_celld.Stream.Protocol.{
  StreamTerminalState, opened, closed, errored, expired, StreamErrorData, StreamReadRequest,
  StreamReadResult, validate_stream_write_chunks,
}
use world_celld.Stream.Cell.{
  StreamOutcome, ok, err, ◌>>=◌, Layout, per_chunk, segmented, StreamMeta, StreamStorage,
  StreamCell, empty_meta, max_stream_index, write_chunks, close_stream, fail_stream,
}
use world_celld.Stream.Read.{available_chunks, last_index, is_open}
use world_celld.Stream.Groups.{join, AllGroups, size_rows, segment_rows}
use world_celld.Stream.Packing.{AllSmall}
use world_celld.Stream.ReadSegments.{IsRead}
use world_celld.Stream.ReadRows.{chunk_size_rows, chunk_rows}

pub record StreamLog : Type 0 where
  pub owner : Option String
  pub chunks : List Bytes
  pub state : StreamTerminalState
  pub error : Option StreamErrorData

-- A run may use a stream that it owns or that nobody owns yet.
abbrev pub owner_allows : Option String → String → Bool
owner_allows none run_id = true
owner_allows (some owner) run_id = owner == run_id

abbrev pub allowed : StreamLog → String → Bool
allowed log run_id = non_empty run_id && owner_allows log.owner run_id

pub data StreamCall : Type 0 where
  write : String → List Bytes → StreamCall
  close : String → StreamCall
  fail : String → StreamErrorData → StreamCall
  restart : StreamCall

-- An end of a stream: the first one wins.
abbrev pub log_end :
    StreamLog → String → StreamTerminalState → Option StreamErrorData → Option StreamLog
log_end log run_id state error =
    if allowed log run_id
    then elim log.state [
      | opened ↦ some (record log { owner = some run_id; state = state; error = error })
      | closed ↦ some log
      | errored ↦ some log
      | expired ↦ none
    ]
    else none

-- What a call does to the log; none where it throws.
unfoldable pub log_call : StreamCall → StreamLog → Option StreamLog
log_call (write run_id chunks) log =
    if is_some (validate_stream_write_chunks chunks)
      && allowed log run_id
      && is_open log.state
      && leb (length log.chunks + length chunks) max_stream_index
    then some (record {
      owner = some run_id;
      chunks = log.chunks ++ chunks;
      state = opened;
      error = none;
    })
    else none
log_call (close run_id) log = log_end log run_id closed log.error
log_call (fail run_id error) log = log_end log run_id errored (some error)
log_call restart log = some log

-- The same call of the cell. A restart loses what the cell keeps in memory.
unfoldable pub cell_call : StreamCall → StreamCell → StreamOutcome StreamCell
cell_call (write run_id chunks) cell = write_chunks run_id chunks cell >>= λ r. ok r.1
cell_call (close run_id) cell = close_stream run_id cell
cell_call (fail run_id error) cell = fail_stream run_id error cell
cell_call restart cell = ok (record cell { cached = none })

-- A call that throws changes nothing.
abbrev pub after_log : Option StreamLog → StreamLog → StreamLog
after_log none log = log
after_log (some next) log = next

abbrev pub after_cell : StreamOutcome StreamCell → StreamCell → StreamCell
after_cell (err e) cell = cell
after_cell (ok next) cell = next

unfoldable pub log_calls : List StreamCall → StreamLog → StreamLog
log_calls [] log = log
log_calls (c ∷ cs) log = log_calls cs (after_log (log_call c log) log)

unfoldable pub cell_calls : List StreamCall → StreamCell → StreamCell
cell_calls [] cell = cell
cell_calls (c ∷ cs) cell = cell_calls cs (after_cell (cell_call c cell) cell)

-- The rows of a cell hold the chunks of a log, one row each or packed in segments.
abbrev pub Holds : Layout → List Bytes → StreamStorage → Type 0
Holds segmented chunks storage =
    (groups : List (List Bytes)) × (join groups ≡ chunks)
    × AllGroups groups
    × (storage.segment_sizes ≡ size_rows 0 groups)
    × (storage.segments ≡ segment_rows 0 groups)
Holds per_chunk chunks storage =
    (storage.chunk_sizes ≡ chunk_size_rows 0 chunks) × (storage.chunks ≡ chunk_rows 0 chunks)

-- A cell without metadata has no rows.
abbrev pub HoldsRows : Option StreamMeta → List Bytes → StreamStorage → Type 0
HoldsRows none chunks storage =
    (chunks ≡ [])
    × (storage.chunk_sizes ≡ [])
    × (storage.chunks ≡ [])
    × (storage.segment_sizes ≡ [])
    × (storage.segments ≡ [])
HoldsRows (some meta) chunks storage = Holds meta.layout chunks storage

abbrev pub current_meta : Option StreamMeta → StreamMeta
current_meta none = empty_meta
current_meta (some meta) = meta

-- An error is there exactly in the state that has one.
abbrev pub StateFits : StreamTerminalState → Option StreamErrorData → Type 0
StateFits errored error = is_some error ≡ true
StateFits expired error = ⊥
StateFits _ error = error ≡ none

-- What the cell keeps in memory is its metadata, where it keeps any.
abbrev pub IsCached : Option StreamMeta → StreamMeta → Type 0
IsCached none meta = Unit
IsCached (some kept) meta = kept ≡ meta

-- A cell that has not expired stands for a log.
pub record Represents (cell : StreamCell) (log : StreamLog) : Type 0 where
  pub same_owner : (current_meta cell.storage.meta).owner_run_id ≡ log.owner
  pub same_state : (current_meta cell.storage.meta).state ≡ log.state
  pub same_error : (current_meta cell.storage.meta).error ≡ log.error
  pub same_count : (current_meta cell.storage.meta).count ≡ length log.chunks
  pub in_range : length log.chunks ≤ max_stream_index
  pub small : AllSmall log.chunks
  pub fits : StateFits log.state log.error
  pub kept : IsCached cell.cached (current_meta cell.storage.meta)
  pub rows : HoldsRows cell.storage.meta log.chunks cell.storage

-- A call that throws in the one throws in the other; one that returns leaves a cell for the log.
abbrev pub Agrees : Option StreamLog → StreamOutcome StreamCell → Type 0
Agrees none (err e) = Unit
Agrees (some log) (ok cell) = Represents cell log
Agrees none (ok cell) = ⊥
Agrees (some log) (err e) = ⊥

-- What a read of the log may answer: from the start that was asked for, as many of the next chunks as
-- the limits let through, at least one if there is one.
pub record IsAnswer (log : StreamLog) (request : StreamReadRequest) (r : StreamReadResult)
    : Type 0 where
  pub same_start : r.start_index ≡ pos request.start_index
  pub same_tail : r.tail_index ≡ last_index (length log.chunks)
  pub same_state : r.state ≡ log.state
  pub same_error : r.error ≡ log.error
  pub idle : available_chunks log.state request (length log.chunks) ≡ 0 → r.chunks ≡ []
  pub answered :
      0 < available_chunks log.state request (length log.chunks)
      → IsRead log.chunks request.start_index
          (available_chunks log.state request (length log.chunks))
          request.max_bytes
          r.chunks

abbrev pub ReadAnswers : StreamLog → StreamReadRequest → StreamOutcome StreamReadResult → Type 0
ReadAnswers log request (ok r) = (allowed log request.run_id ≡ true) × IsAnswer log request r
ReadAnswers log request (err e) = allowed log request.run_id ≡ false
