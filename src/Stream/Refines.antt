-- ===== src/Stream/Refines.antt =====
-- The stream's cell is a log (`src/worker/durable-objects/StreamDO.ts`): reads after any calls.
use mathlib.Core.Path.{subst}
use world_celld.Common.{
  ℕ, ◌+◌, ◌≤◌, ◌<◌, ◌≡◌, ◌⊎◌, refl, sym, ap, ◌∙◌, inl, inr, arith, Bool, true, false, Option, none,
  some, List, [], ◌∷◌, length, eqb, if◌then◌else◌, match_option, Bool-cases,
}
use world_celld.Stream.Bytes.{Bytes, pos}
use world_celld.Stream.Protocol.{
  StreamTerminalState, opened, closed, errored, expired, StreamReadRequest, StreamReadResult,
  validate_stream_read_request, max_stream_chunk_bytes,
}
use world_celld.Stream.Cell.{
  StreamOutcome, ok, err, ◌>>=◌, Layout, per_chunk, segmented, StreamMeta, StreamStorage,
  StreamCell, stored_meta,
}
use world_celld.Stream.Read.{
  get_meta, read_rows, available_chunks, last_index, read_snapshot, read_chunks, answers_at_once,
}
use world_celld.Stream.Packing.{AllSmall}
use world_celld.Stream.ReadSegments.{IsRead, read_segment_rows-IsRead}
use world_celld.Stream.ReadRows.{read_chunk_rows-IsRead}
use world_celld.Stream.Calls.{
  stored-Represents, assert_owner-allowed, assert_owner-refused, rows-Holds, call-Agrees,
}
use world_celld.Stream.Log.{
  StreamLog, allowed, StreamCall, log_call, cell_call, log_calls, cell_calls, after_log, after_cell,
  Holds, current_meta, IsCached, Represents, Agrees, IsAnswer, ReadAnswers,
}

cached-current :
    (kept : Option StreamMeta) (meta : StreamMeta) (stored : StreamOutcome StreamMeta)
    → IsCached kept meta
    → stored ≡ ok meta
    → match_option kept stored (λ m. ok m) ≡ ok meta
cached-current none meta stored k e = e
cached-current (some m) meta stored k e = ap ok k

get_meta-current :
    (cell : StreamCell) (log : StreamLog)
    → Represents cell log
    → get_meta cell ≡ ok (current_meta cell.storage.meta)
unfolding get_meta
get_meta-current cell log r =
    cached-current cell.cached (current_meta cell.storage.meta) (stored_meta cell.storage.meta)
      r.kept (stored-Represents cell log r)

rows-IsRead :
    (layout : Layout) (storage : StreamStorage) (log : List Bytes) (start available max_bytes : ℕ)
    → Holds layout log storage
    → AllSmall log
    → 0 < available
    → start + available ≤ length log
    → max_stream_chunk_bytes ≤ max_bytes
    → (chunks : List Bytes) × (read_rows layout storage start available max_bytes ≡ ok chunks)
      × IsRead log start available max_bytes chunks
rows-IsRead segmented storage log start available max_bytes (groups, joined, all, sizes, rows) small
      wanted inside enough =
    let found =
      read_segment_rows-IsRead storage groups start available max_bytes sizes rows all
        (subst AllSmall (sym joined) small) wanted (omega (arith, inside, ap length joined))
        enough in
    (
      found.0,
      found.1,
      subst (λ (l : List Bytes). IsRead l start available max_bytes (found.0)) joined (found.2),
    )
rows-IsRead per_chunk storage log start available max_bytes held small wanted inside enough =
    read_chunk_rows-IsRead storage log start available max_bytes held.0 held.1 small wanted inside
      enough

available-inside :
    (state : StreamTerminalState) (request : StreamReadRequest) (count : ℕ)
    → 0 < available_chunks state request count
    → request.start_index + available_chunks state request count ≤ count
available-inside opened request count h = omega (arith, h)
available-inside closed request count h = omega (arith, h)
available-inside errored request count h = omega (arith, h)
available-inside expired request count h = ground (arith, h)

valid-enough :
    (request : StreamReadRequest)
    → validate_stream_read_request request ≡ true
    → max_stream_chunk_bytes ≤ request.max_bytes
unfolding validate_stream_read_request
valid-enough request v = ground (arith, v)

snapshot-ReadAnswers :
    (cell : StreamCell) (log : StreamLog) (request : StreamReadRequest) (timed_out : Bool)
    → Represents cell log
    → validate_stream_read_request request ≡ true
    → ReadAnswers log request (read_snapshot request timed_out cell)
unfolding read_snapshot
snapshot-ReadAnswers cell log request timed_out r v =
    let meta = current_meta cell.storage.meta in
    let known = get_meta-current cell log r in
    let n = available_chunks log.state request (length log.chunks) in
    let same_n : available_chunks meta.state request meta.count ≡ n =
      ap (λ s. available_chunks s request meta.count) r.same_state
      ∙ ap (available_chunks log.state request) r.same_count in
    let answer : (chunks : List Bytes)
        → (n ≡ 0 → chunks ≡ [])
        → (0 < n → IsRead log.chunks request.start_index n request.max_bytes chunks)
        → IsAnswer log request (record {
          start_index = pos request.start_index;
          tail_index = last_index meta.count;
          chunks = chunks;
          state = meta.state;
          timed_out = timed_out;
          error = meta.error;
        }) =
      λ chunks idle answered. record {
        same_start = refl;
        same_tail = ap last_index r.same_count;
        same_state = r.same_state;
        same_error = r.same_error;
        idle = idle;
        answered = answered;
      } in
    elim (Bool-cases (allowed log request.run_id)) [
      | inr h ↦
          let (e, refused) = assert_owner-refused meta request.run_id log.owner r.same_owner h in
          rw known (rw refused h)
      | inl h ↦
          let owner_ok = assert_owner-allowed meta request.run_id log.owner r.same_owner h in
          elim (Bool-cases (eqb n 0)) [
            | inl z ↦ rw known (
                rw owner_ok
                  (rw same_n (rw z (h, answer [] (λ p. refl) (λ p. ground (arith, z, p))))))
            | inr z ↦
                let wanted : 0 < n = ground (arith, z) in
                let (chunks, e, p) =
                  rows-IsRead meta.layout cell.storage log.chunks request.start_index n
                    request.max_bytes (rows-Holds cell.storage.meta log.chunks cell.storage r.rows)
                    r.small wanted (available-inside log.state request (length log.chunks) wanted)
                    (valid-enough request v) in
                rw known (
                  rw owner_ok (
                    rw same_n
                      (rw z (rw e (h, answer chunks (λ q. ground (arith, wanted, q)) (λ q. p))))))
          ]
    ]

after-Represents :
    (next_log : Option StreamLog) (next : StreamOutcome StreamCell) (log : StreamLog)
    (cell : StreamCell)
    → Agrees next_log next
    → Represents cell log
    → Represents (after_cell next cell) (after_log next_log log)
after-Represents none (err e) log cell a r = r
after-Represents none (ok next) log cell a r = absurd a
after-Represents (some l) (err e) log cell a r = absurd a
after-Represents (some l) (ok next) log cell a r = a

calls-Represents :
    (calls : List StreamCall) (cell : StreamCell) (log : StreamLog)
    → Represents cell log
    → Represents (cell_calls calls cell) (log_calls calls log)
unfolding cell_calls log_calls
calls-Represents [] cell log r = r
calls-Represents (c ∷ calls) cell log r =
    calls-Represents calls (after_cell (cell_call c cell) cell) (after_log (log_call c log) log)
      (after-Represents (log_call c log) (cell_call c cell) log cell (call-Agrees c cell log r) r)

-- A stream's cell behaves as its log, whatever calls were made of it, by whichever runs, restarts of the
-- cell among them: from a cell that stands for a log, any sequence of writes, closes, failures and
-- restarts leaves a cell whose read answers as the log that the same calls leave. A call that throws
-- leaves both as they were. A read throws exactly for a run that may not use the stream; otherwise it
-- tells the log's state, error and last index, and gives the chunks from the index that was asked for
-- on, in order, none skipped, within the limits of the request, at least one where there is one. The
-- chunks may be stored one by one or packed in segments.
pub stream_refines_log :
    (cell : StreamCell) (log : StreamLog) (calls : List StreamCall) (request : StreamReadRequest)
    (timed_out : Bool)
    → Represents cell log
    → validate_stream_read_request request ≡ true
    → ReadAnswers
        (log_calls calls log)
        request
        (read_snapshot request timed_out (cell_calls calls cell))
stream_refines_log cell log calls request timed_out r v =
    snapshot-ReadAnswers (cell_calls calls cell) (log_calls calls log) request timed_out
      (calls-Represents calls cell log r) v

read_chunks-one :
    (request : StreamReadRequest) (cell later : StreamCell) (timeout : Bool)
    → validate_stream_read_request request ≡ true
    → (read_chunks request cell later timeout ≡ read_snapshot request false cell)
      ⊎ (read_chunks request cell later timeout ≡ read_snapshot request timeout later)
unfolding read_chunks
read_chunks-one request cell later timeout v = rw v (chosen (read_snapshot request false cell))
  where
    chosen :
        (first : StreamOutcome StreamReadResult)
        → ((first >>= λ r.
              if answers_at_once request r then ok r else read_snapshot request timeout later)
            ≡ first)
          ⊎ ((first >>= λ r.
                if answers_at_once request r then ok r else read_snapshot request timeout later)
              ≡ read_snapshot request timeout later)
    chosen (err e) = inl refl
    chosen (ok r) = elim (Bool-cases (answers_at_once request r)) [
      | inl h ↦ rw h (inl refl)
      | inr h ↦ rw h (inr refl)
    ]

-- A read that waits for news answers from the log as it is when the read begins, or as it is when the
-- wait ends, after whatever calls were made of the cell in between.
long_poll_answers :
    (cell : StreamCell) (log : StreamLog) (calls : List StreamCall) (request : StreamReadRequest)
    (timeout : Bool)
    → Represents cell log
    → validate_stream_read_request request ≡ true
    → let answer = read_chunks request cell (cell_calls calls cell) timeout in
      ReadAnswers log request answer ⊎ ReadAnswers (log_calls calls log) request answer
long_poll_answers cell log calls request timeout r v =
    let later = cell_calls calls cell in
    elim (read_chunks-one request cell later timeout v) [
      | inl e ↦ inl (rw e (snapshot-ReadAnswers cell log request false r v))
      | inr e ↦ inr (rw e (stream_refines_log cell log calls request timeout r v))
    ]
