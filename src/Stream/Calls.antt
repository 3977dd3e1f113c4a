-- ===== src/Stream/Calls.antt =====
-- Each operation of the cell does to the log what it should (`writeChunks`, `closeStream` and
-- `failStream` of `src/worker/durable-objects/StreamDO.ts`).
use mathlib.Core.Path.{subst}
use world_celld.Common.{
  ℕ, ◌+◌, ◌≤◌, ◌≡◌, refl, sym, ap, ◌∙◌, inl, inr, arith, String, true, false, ◌&&◌, Option, none,
  some, List, [], ◌++◌, length, leb, Bool-cases, Option-cases,
}
use world_celld.Queue.Claim.{non_empty}
use world_celld.Stream.Bytes.{Bytes}
use world_celld.Stream.Protocol.{
  StreamTerminalState, opened, closed, errored, expired, StreamErrorData,
  validate_stream_write_chunks,
}
use world_celld.Stream.Cell.{
  StreamError, ok, err, ◌>>◌, Layout, per_chunk, segmented, StreamMeta, StreamStorage, StreamCell,
  max_stream_index, validate_meta, stored_meta, assert_owner, assert_writable, writable,
  write_layout, written_meta, committed, end_stream, write_chunks, close_stream, fail_stream,
  put_payload,
}
use world_celld.Stream.Read.{is_open}
use world_celld.Stream.Groups.{length-++}
use world_celld.Stream.Packing.{AllSmall-++}
use world_celld.Stream.Append.{validate-AllSmall, put_payload-Holds}
use world_celld.Stream.Log.{
  StreamLog, owner_allows, allowed, StreamCall, write, close, fail, restart, log_end, log_call,
  cell_call, Holds, HoldsRows, current_meta, StateFits, Represents, Agrees,
}

validate-fits :
    (meta : StreamMeta) (state : StreamTerminalState) (error : Option StreamErrorData)
    → meta.count ≤ max_stream_index
    → meta.state ≡ state
    → meta.error ≡ error
    → StateFits state error
    → validate_meta meta ≡ ok meta
unfolding validate_meta
validate-fits meta opened error few s e fits = rw s (rw e (rw fits (ground (arith, few))))
validate-fits meta closed error few s e fits = rw s (rw e (rw fits (ground (arith, few))))
validate-fits meta errored error few s e fits = rw s (rw e (rw fits (ground (arith, few))))
validate-fits meta expired error few s e fits = absurd fits

stored-current :
    (stored : Option StreamMeta) (state : StreamTerminalState) (error : Option StreamErrorData)
    → (current_meta stored).count ≤ max_stream_index
    → (current_meta stored).state ≡ state
    → (current_meta stored).error ≡ error
    → StateFits state error
    → stored_meta stored ≡ ok (current_meta stored)
unfolding stored_meta
stored-current none state error few s e fits = refl
stored-current (some meta) state error few s e fits = validate-fits meta state error few s e fits

pub stored-Represents :
    (cell : StreamCell) (log : StreamLog)
    → Represents cell log
    → stored_meta cell.storage.meta ≡ ok (current_meta cell.storage.meta)
stored-Represents cell log r =
    stored-current cell.storage.meta log.state log.error (omega (arith, r.same_count, r.in_range))
      r.same_state r.same_error r.fits

pub assert_owner-allowed :
    (meta : StreamMeta) (run_id : String) (owner : Option String)
    → meta.owner_run_id ≡ owner
    → (non_empty run_id && owner_allows owner run_id) ≡ true
    → assert_owner meta run_id ≡ ok tt
unfolding assert_owner
assert_owner-allowed meta run_id none e h = rw e (ground (arith, h))
assert_owner-allowed meta run_id (some owner) e h = rw e (ground (arith, h))

pub assert_owner-refused :
    (meta : StreamMeta) (run_id : String) (owner : Option String)
    → meta.owner_run_id ≡ owner
    → (non_empty run_id && owner_allows owner run_id) ≡ false
    → (error : StreamError) × (assert_owner meta run_id ≡ err error)
unfolding assert_owner
assert_owner-refused meta run_id owner e h = elim (Bool-cases (non_empty run_id)) [
  | inl n ↦ owned owner e (ground (arith, n, h)) n
  | inr n ↦ rw n (_, refl)
]
  where
    owned :
        (o : Option String)
        → meta.owner_run_id ≡ o
        → owner_allows o run_id ≡ false
        → non_empty run_id ≡ true
        → (error : StreamError) × (assert_owner meta run_id ≡ err error)
    owned none eo ho n = ground (arith, ho)
    owned (some o) eo ho n = rw n (rw eo (rw ho (_, refl)))

pub rows-Holds :
    (stored : Option StreamMeta) (chunks : List Bytes) (storage : StreamStorage)
    → HoldsRows stored chunks storage
    → Holds (current_meta stored).layout chunks storage
rows-Holds none chunks storage (e, sizes, rows, _, _) = rw e (sizes, rows)
rows-Holds (some meta) chunks storage h = h

write_rows-Holds :
    (stored : Option StreamMeta) (chunks : List Bytes) (storage : StreamStorage)
    → HoldsRows stored chunks storage
    → Holds (write_layout stored) chunks storage
write_rows-Holds none chunks storage (e, _, _, sizes, rows) = ([], sym e, tt, sizes, rows)
write_rows-Holds (some meta) chunks storage h = h

Holds-meta :
    (layout : Layout) (chunks : List Bytes) (storage : StreamStorage) (meta : Option StreamMeta)
    → Holds layout chunks storage
    → Holds layout chunks (record storage { meta = meta })
Holds-meta segmented chunks storage meta h = h
Holds-meta per_chunk chunks storage meta h = h

-- What an end of the stream leaves where it was open.
ended-Represents :
    (cell : StreamCell) (log : StreamLog) (ended : StreamMeta) (run_id : String)
    (state : StreamTerminalState) (error : Option StreamErrorData)
    → Represents cell log
    → let meta = current_meta cell.storage.meta in
      ended.owner_run_id ≡ some run_id
      → ended.state ≡ state
      → ended.error ≡ error
      → ended.count ≡ meta.count
      → ended.layout ≡ meta.layout
      → StateFits state error
      → Represents
          (committed cell (record (cell.storage) { meta = some ended }) ended)
          (record log { owner = some run_id; state = state; error = error })
ended-Represents cell log ended run_id state error r eo es ee ec el fits = record {
  same_owner = eo;
  same_state = es;
  same_error = ee;
  same_count = ec ∙ r.same_count;
  in_range = r.in_range;
  small = r.small;
  fits = fits;
  kept = refl;
  rows =
      subst (λ (l : Layout). Holds l log.chunks (record (cell.storage) { meta = some ended }))
        (sym el)
        (Holds-meta (current_meta cell.storage.meta).layout log.chunks cell.storage (some ended)
          (rows-Holds cell.storage.meta log.chunks cell.storage r.rows));
}

-- An end of a stream that has ended leaves the cell and the log as they are.
unchanged-Represents :
    (cell : StreamCell) (log : StreamLog)
    → Represents cell log
    → Represents (committed cell cell.storage (current_meta cell.storage.meta)) log
unchanged-Represents cell log r = record {
  same_owner = r.same_owner;
  same_state = r.same_state;
  same_error = r.same_error;
  same_count = r.same_count;
  in_range = r.in_range;
  small = r.small;
  fits = r.fits;
  kept = refl;
  rows = r.rows;
}

end-Agrees_state :
    (cell : StreamCell) (log : StreamLog) (ended : StreamMeta) (run_id : String)
    (state : StreamTerminalState) (error : Option StreamErrorData) (now : StreamTerminalState)
    → Represents cell log
    → log.state ≡ now
    → allowed log run_id ≡ true
    → (log.state ≡ opened
        → Represents
            (committed cell (record (cell.storage) { meta = some ended }) ended)
            (record log { owner = some run_id; state = state; error = error }))
    → Agrees
        (log_end log run_id state error)
        (end_stream run_id (current_meta cell.storage.meta) ended cell)
end-Agrees_state cell log ended run_id state error opened r e h make =
    rw h (rw (r.same_state ∙ e, end_stream) (simp e (make e)))
end-Agrees_state cell log ended run_id state error closed r e h make =
    rw h (rw (r.same_state ∙ e, end_stream) (simp e (unchanged-Represents cell log r)))
end-Agrees_state cell log ended run_id state error errored r e h make =
    rw h (rw (r.same_state ∙ e, end_stream) (simp e (unchanged-Represents cell log r)))
end-Agrees_state cell log ended run_id state error expired r e h make =
    absurd (subst (λ (s : StreamTerminalState). StateFits s log.error) e (r.fits))

-- Both ends of a stream, for the metadata that each one leaves.
end-Agrees :
    (cell : StreamCell) (log : StreamLog) (ended : StreamMeta) (run_id : String)
    (state : StreamTerminalState) (error : Option StreamErrorData)
    → Represents cell log
    → (log.state ≡ opened
        → Represents
            (committed cell (record (cell.storage) { meta = some ended }) ended)
            (record log { owner = some run_id; state = state; error = error }))
    → Agrees (log_end log run_id state error) (
        assert_owner (current_meta cell.storage.meta) run_id
        >> end_stream run_id (current_meta cell.storage.meta) ended cell)
end-Agrees cell log ended run_id state error r make = elim (Bool-cases (allowed log run_id)) [
  | inl h ↦
      rw (assert_owner-allowed (current_meta cell.storage.meta) run_id log.owner r.same_owner h)
        (end-Agrees_state cell log ended run_id state error log.state r refl h make)
  | inr h ↦
      let (e, refused) =
        assert_owner-refused (current_meta cell.storage.meta) run_id log.owner r.same_owner h in
      rw refused (rw h tt)
]

close-Agrees :
    (cell : StreamCell) (log : StreamLog) (run_id : String)
    → Represents cell log
    → Agrees (log_call (close run_id) log) (cell_call (close run_id) cell)
unfolding log_call cell_call close_stream
close-Agrees cell log run_id r =
    let meta = current_meta cell.storage.meta in
    let ended = record meta { owner_run_id = some run_id; state = closed } in
    rw (stored-Represents cell log r) (
      end-Agrees cell log ended run_id closed log.error r (λ open_now.
        ended-Represents cell log ended run_id closed log.error r refl refl r.same_error refl refl
          (subst (λ (s : StreamTerminalState). StateFits s log.error) open_now (r.fits))))

fail-Agrees :
    (cell : StreamCell) (log : StreamLog) (run_id : String) (error : StreamErrorData)
    → Represents cell log
    → Agrees (log_call (fail run_id error) log) (cell_call (fail run_id error) cell)
unfolding log_call cell_call fail_stream
fail-Agrees cell log run_id error r =
    let meta = current_meta cell.storage.meta in
    let ended = record meta { owner_run_id = some run_id; state = errored; error = some error } in
    rw (stored-Represents cell log r) (
      end-Agrees cell log ended run_id errored (some error) r (λ open_now.
        ended-Represents cell log ended run_id errored (some error) r refl refl refl refl refl
          refl))

is_open-opened : (s : StreamTerminalState) → is_open s ≡ true → s ≡ opened
is_open-opened opened h = refl
is_open-opened closed h = cc
is_open-opened errored h = cc
is_open-opened expired h = cc

writable-refused :
    (s : StreamTerminalState) (run_id : String)
    → is_open s ≡ false
    → (e : StreamError) × (writable s run_id ≡ err e)
writable-refused opened run_id h = cc
writable-refused closed run_id h = (_, refl)
writable-refused errored run_id h = (_, refl)
writable-refused expired run_id h = (_, refl)

written-Represents :
    (cell : StreamCell) (log : StreamLog) (run_id : String) (chunks : List Bytes) (total : ℕ)
    → Represents cell log
    → validate_stream_write_chunks chunks ≡ some total
    → length log.chunks + length chunks ≤ max_stream_index
    → let stored = cell.storage.meta in
      let start = (current_meta stored).count in
      let next = written_meta run_id (start + length chunks) (write_layout stored) in
      Represents
        (committed cell
          (record (put_payload (write_layout stored) start chunks cell.storage) {
            meta = some next;
          })
          next)
        (record {
          owner = some run_id;
          chunks = log.chunks ++ chunks;
          state = opened;
          error = none;
        })
written-Represents cell log run_id chunks total r valid room =
    let stored = cell.storage.meta in
    let start = (current_meta stored).count in
    let layout = write_layout stored in
    let next = written_meta run_id (start + length chunks) layout in
    let ok_chunks = validate-AllSmall chunks total valid in
    record {
      same_owner = refl;
      same_state = refl;
      same_error = refl;
      same_count = omega (arith, r.same_count, length-++ log.chunks chunks);
      in_range = omega (arith, room, length-++ log.chunks chunks);
      small = AllSmall-++ log.chunks chunks r.small ok_chunks.0;
      fits = refl;
      kept = refl;
      rows =
          Holds-meta layout (log.chunks ++ chunks) (put_payload layout start chunks cell.storage)
            (some next)
            (put_payload-Holds layout log.chunks chunks start cell.storage r.same_count ok_chunks.0
              ok_chunks.2 (write_rows-Holds stored log.chunks cell.storage r.rows));
    }

write-Agrees :
    (cell : StreamCell) (log : StreamLog) (run_id : String) (chunks : List Bytes)
    → Represents cell log
    → Agrees (log_call (write run_id chunks) log) (cell_call (write run_id chunks) cell)
unfolding log_call cell_call write_chunks assert_writable
write-Agrees cell log run_id chunks r =
    let meta = current_meta cell.storage.meta in
    let stored = stored-Represents cell log r in
    elim (Option-cases (validate_stream_write_chunks chunks)) [
      | inl invalid ↦ rw invalid tt
      | inr (total, valid) ↦ elim (Bool-cases (allowed log run_id)) [
        | inr h ↦
            let (e, refused) = assert_owner-refused meta run_id log.owner r.same_owner h in
            rw valid (rw stored (rw refused (rw h tt)))
        | inl h ↦
            let owner_ok = assert_owner-allowed meta run_id log.owner r.same_owner h in
            elim (Bool-cases (is_open log.state)) [
              | inr s ↦
                  let (e, refused) =
                    writable-refused meta.state run_id (ap is_open r.same_state ∙ s) in
                  rw valid (rw stored (rw owner_ok (rw refused (rw h (rw s tt)))))
              | inl s ↦
                  let open_now : meta.state ≡ opened = r.same_state ∙ is_open-opened log.state s in
                  let free : writable meta.state run_id ≡ ok tt = rw open_now refl in
                  let same_test = ap (λ k. leb (k + length chunks) max_stream_index) r.same_count in
                  elim (Bool-cases (leb (length log.chunks + length chunks) max_stream_index)) [
                    | inr full ↦ rw valid (
                        rw stored (
                          rw owner_ok (rw free (rw (same_test ∙ full) (rw h (rw s (rw full tt)))))))
                    | inl room ↦
                        let made =
                          written-Represents cell log run_id chunks total r valid
                            (ground (arith, room)) in
                        rw valid (
                          rw stored (
                            rw owner_ok
                              (rw free (rw (same_test ∙ room) (rw h (rw s (rw room made)))))))
                  ]
            ]
      ]
    ]

restart-Agrees :
    (cell : StreamCell) (log : StreamLog)
    → Represents cell log
    → Agrees (log_call restart log) (cell_call restart cell)
unfolding log_call cell_call
restart-Agrees cell log r = record {
  same_owner = r.same_owner;
  same_state = r.same_state;
  same_error = r.same_error;
  same_count = r.same_count;
  in_range = r.in_range;
  small = r.small;
  fits = r.fits;
  kept = tt;
  rows = r.rows;
}

pub call-Agrees :
    (call : StreamCall) (cell : StreamCell) (log : StreamLog)
    → Represents cell log
    → Agrees (log_call call log) (cell_call call cell)
call-Agrees (write run_id chunks) cell log r = write-Agrees cell log run_id chunks r
call-Agrees (close run_id) cell log r = close-Agrees cell log run_id r
call-Agrees (fail run_id error) cell log r = fail-Agrees cell log run_id error r
call-Agrees restart cell log r = restart-Agrees cell log r
