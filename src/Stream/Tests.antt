-- ===== src/Stream/Tests.antt =====
-- The theorems on streams at concrete chunks, calls and pages.
use world_celld.Common.{
  ◌≡◌, refl, String, Bool, true, false, none, some, List, [], ◌∷◌, arith, ◌==◌, if◌then◌else◌,
}
use world_celld.Stream.Bytes.{Bytes, pos}
use world_celld.Stream.Protocol.{
  expired, errored, opened, StreamReadRequest, StreamReadResult, encode_stream_write_batch,
  decode_stream_write_batch, validate_stream_write_chunks, validate_stream_read_request,
}
use world_celld.Stream.ReadFrame.{TextCodec, encode_stream_read_result, decode_stream_read_result}
use world_celld.Stream.Cell.{
  StreamError, run_expired, ok, err, per_chunk, StreamMeta, StreamStorage, StreamCell, write_chunks,
  stored_meta, validate_meta, assert_owner,
}
use world_celld.Stream.Read.{read_snapshot}
use world_celld.Stream.Log.{
  StreamLog, StreamCall, write, close, restart, log_calls, cell_calls, Represents, ReadAnswers,
}
use world_celld.Stream.Expire.{ExpireStreamResult}
use world_celld.Stream.Registry.{StreamRegistry, FinalizeRunStreamsResult, register_stream}
use world_celld.Stream.PageSteps.{rows_left}
use world_celld.Stream.Frames.{write_batch_survives}
use world_celld.Stream.ReadTrip.{read_result_survives}
use world_celld.Stream.Refines.{stream_refines_log}
use world_celld.Stream.ReadOn.{read_on, reads_add_up}
use world_celld.Stream.Removal.{expire_pages, expiry_finishes, IsExpirable}
use world_celld.Stream.Draining.{drain, registry_drains}

-- Three chunks, one of them empty.
abbrev chunks : List Bytes
chunks = (1 ∷ 2 ∷ []) ∷ [] ∷ (3 ∷ []) ∷ []

-- A stream of the run `a` with these chunks, in rows of one chunk each.
abbrev meta : StreamMeta
meta = record {
  count = 3;
  state = opened;
  owner_run_id = some "a";
  error = none;
  expired_at = none;
  expired_chunk_count = none;
  payload_deleted = false;
  layout = per_chunk;
}

abbrev storage : StreamStorage
storage = record {
  meta = some meta;
  chunk_sizes = (0, 2) ∷ (1, 0) ∷ (2, 1) ∷ [];
  chunks = (0, 1 ∷ 2 ∷ []) ∷ (1, []) ∷ (2, 3 ∷ []) ∷ [];
  segment_sizes = [];
  segments = [];
}

abbrev cell : StreamCell
cell = record { storage = storage; cached = some meta; change_version = 0 }

abbrev log : StreamLog
log = record { owner = some "a"; chunks = chunks; state = opened; error = none }

cell-Represents : Represents cell log
cell-Represents = record {
  same_owner = refl;
  same_state = refl;
  same_error = refl;
  same_count = refl;
  in_range = omega arith;
  small = omega arith;
  fits = refl;
  kept = refl;
  rows = (refl, refl);
}

-- The run writes a chunk, the cell restarts, another run writes in vain, and the stream is closed.
abbrev calls : List StreamCall
calls = write "a" ((4 ∷ []) ∷ []) ∷ restart ∷ write "b" ((5 ∷ []) ∷ []) ∷ close "a" ∷ []

abbrev request : StreamReadRequest
request = record { run_id = "a"; start_index = 1; max_chunks = 2; max_bytes = 1048576; wait_ms = 0 }

request-valid : validate_stream_read_request request ≡ true
unfolding validate_stream_read_request
request-valid = refl

stream_refines_log_example :
    ReadAnswers (log_calls calls log) request (read_snapshot request false (cell_calls calls cell))
stream_refines_log_example =
    stream_refines_log cell log calls request false cell-Represents request-valid

reads_add_up_example : read_on 2 request cell ≡ ok ([] ∷ (3 ∷ []) ∷ [])
reads_add_up_example =
    reads_add_up 2 request cell log cell-Represents refl request-valid (omega arith) (omega arith)
      (omega arith)

batch-encoded : (frame : Bytes) × (encode_stream_write_batch chunks ≡ some frame)
unfolding encode_stream_write_batch validate_stream_write_chunks
batch-encoded = (_, refl)

write_batch_survives_example : decode_stream_write_batch (batch-encoded.0) ≡ some chunks
write_batch_survives_example = write_batch_survives chunks (batch-encoded.0) (batch-encoded.1)

-- An encoding of two texts.
abbrev two_texts : TextCodec
two_texts = record {
  encode = λ s. if s == "" then [] else 1 ∷ [];
  decode = λ bytes. elim bytes [ [] ↦ "" | ◌∷◌ b rest ↦ "boom" ];
}

abbrev failed : StreamReadResult
failed = record {
  start_index = pos 0;
  tail_index = pos 2;
  chunks = chunks;
  state = errored;
  timed_out = false;
  error = some (record { name = ""; message = "boom" });
}

failed-encoded : (frame : Bytes) × (encode_stream_read_result two_texts failed ≡ some frame)
unfolding encode_stream_read_result
failed-encoded = (_, refl)

read_result_survives_example : decode_stream_read_result two_texts (failed-encoded.0) ≡ some failed
read_result_survives_example =
    read_result_survives two_texts failed (failed-encoded.0) (omega arith) (λ e. ground (arith, e))
      (refl, refl) (failed-encoded.1)

cell-IsExpirable : IsExpirable "a" meta cell
unfolding stored_meta validate_meta assert_owner
cell-IsExpirable = record { read = refl; owner_ok = refl; sized = omega arith }

expiry_finishes_example :
    (r : ExpireStreamResult) × (next : StreamCell) × (expire_pages 6 "a" 90 (some 2) none cell
      ≡ ok (r, next))
    × (r.done ≡ true)
    × (rows_left per_chunk next.storage ≡ 0)
    × ((left : StreamMeta) × (stored_meta next.storage.meta ≡ ok left) × (left.state ≡ expired))
    × ((writer : String) (written : List Bytes)
        → (e : StreamError) × (write_chunks writer written next ≡ err e))
expiry_finishes_example =
    expiry_finishes "a" 90 (some 2) none 6 meta cell cell-IsExpirable (omega arith)

abbrev streams : StreamRegistry
streams = record { owner = some "a"; expired = none; names = "s" ∷ "t" ∷ "u" ∷ [] }

abbrev unordered : String → String → Bool
unordered a b = false

registry_drains_example :
    (r : FinalizeRunStreamsResult) × (next : StreamRegistry) × (drain 3 "a" 90 (some 2) streams
      ≡ ok (r, next))
    × (r.done ≡ true)
    × (next.names ≡ [])
    × (r.deleted ≡ 3)
    × ((name : String) → register_stream unordered "a" name next ≡ err (run_expired "a"))
registry_drains_example = registry_drains unordered "a" 90 (some 2) 3 streams refl (omega arith)
