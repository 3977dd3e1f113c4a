-- ===== src/Stream/ReadOn.antt =====
-- A reader that asks on from where its last answer ended (`readChunks` of
-- `src/worker/durable-objects/StreamDO.ts`, as `readFromStream` of `src/streamer.ts` asks on).
use world_celld.Common.{
  ℕ, zero, suc, ◌+◌, ◌-◌, ◌≤◌, ◌<◌, ◌≡◌, ◌⊎◌, min, refl, sym, ap, ◌∙◌, inl, inr, arith, true, false,
  Option, List, [], ◌∷◌, ◌++◌, length, eqb, Bool-cases,
}
use world_celld.Stream.Bytes.{Bytes}
use world_celld.Stream.Protocol.{
  StreamTerminalState, opened, closed, errored, expired, StreamReadRequest, StreamReadResult,
  validate_stream_read_request, StreamErrorData,
}
use world_celld.Stream.Cell.{StreamOutcome, ok, err, ◌>>=◌, StreamCell, max_stream_index}
use world_celld.Stream.Read.{drop, available_chunks, read_snapshot}
use world_celld.Stream.Groups.{drop_past}
use world_celld.Stream.ReadCollect.{IsPrefix}
use world_celld.Stream.TakeChunks.{drop-nil}
use world_celld.Stream.Log.{
  log_calls, cell_calls, StreamLog, StateFits, Represents, allowed, IsAnswer, ReadAnswers,
}
use world_celld.Stream.Refines.{stream_refines_log}

-- The chunks of at most `rounds` reads that follow one another.
unfoldable pub read_on : (rounds : ℕ) → StreamReadRequest → StreamCell → StreamOutcome (List Bytes)
read_on zero request cell = ok []
read_on (suc rounds) request cell = do
  r ← read_snapshot request false cell
  rest ←
      read_on rounds (record request { start_index = request.start_index + length r.chunks }) cell
  ok (r.chunks ++ rest)

drop-end : (n : ℕ) (cs : List Bytes) → length cs ≤ n → drop n cs ≡ []
drop-end zero [] h = refl
drop-end zero (c ∷ cs) h = ground (arith, h)
drop-end (suc n) [] h = refl
drop-end (suc n) (c ∷ cs) h = drop-end n cs (omega (arith, h))

drop-drop : (m n : ℕ) (cs : List Bytes) → drop (m + n) cs ≡ drop n (drop m cs)
drop-drop zero n cs = let e : 0 + n ≡ n = omega arith in ap (λ k. drop k cs) e
drop-drop (suc m) n [] = drop-nil (suc m + n) ∙ sym (drop-nil n)
drop-drop (suc m) n (c ∷ cs) =
    let e : suc m + n ≡ suc (m + n) = omega arith in rw e (drop-drop m n cs)

drop-IsPrefix :
    (start : ℕ) (chunks log : List Bytes)
    → IsPrefix chunks (drop start log)
    → chunks ++ drop (start + length chunks) log ≡ drop start log
drop-IsPrefix start chunks log (rest, e) =
    let whole : length chunks ≡ length chunks + 0 = omega arith in
    ap (λ l. chunks ++ l)
      (drop-drop start (length chunks) log
        ∙ ap (drop (length chunks)) (sym e)
        ∙ ap (λ k. drop k (chunks ++ rest)) whole
        ∙ drop_past 0 chunks rest)
    ∙ e

validate-start :
    (request : StreamReadRequest) (start : ℕ)
    → validate_stream_read_request request ≡ true
    → start ≤ max_stream_index
    → validate_stream_read_request (record request { start_index = start }) ≡ true
unfolding validate_stream_read_request
validate-start request start v h = ground (arith, v, h)

allowed-IsAnswer :
    (log : StreamLog) (request : StreamReadRequest) (result : StreamOutcome StreamReadResult)
    → allowed log request.run_id ≡ true
    → ReadAnswers log request result
    → (r : StreamReadResult) × (result ≡ ok r) × IsAnswer log request r
allowed-IsAnswer log request (ok r) h a = (r, refl, a.1)
allowed-IsAnswer log request (err e) h a = cc

available-asked :
    (state : StreamTerminalState) (error : Option StreamErrorData) (request : StreamReadRequest)
    (count : ℕ)
    → StateFits state error
    → available_chunks state request count ≡ min request.max_chunks (count - request.start_index)
available-asked opened error request count h = refl
available-asked closed error request count h = refl
available-asked errored error request count h = refl
available-asked expired error request count h = absurd h

-- What one read of the log gives, and where the next one starts.
next_start :
    (log : StreamLog) (request : StreamReadRequest) (r : StreamReadResult)
    → StateFits log.state log.error
    → 1 ≤ request.max_chunks
    → request.start_index ≤ length log.chunks
    → IsAnswer log request r
    → (r.chunks ++ drop (request.start_index + length r.chunks) log.chunks
        ≡ drop request.start_index log.chunks)
      × (request.start_index + length r.chunks ≤ length log.chunks)
      × ((length log.chunks ≡ request.start_index) ⊎ (0 < length r.chunks))
next_start log request r fits some_wanted inside a =
    let n = available_chunks log.state request (length log.chunks) in
    let asked = available-asked log.state log.error request (length log.chunks) fits in
    elim (Bool-cases (eqb n 0)) [
      | inl z ↦
          let none_left = a.idle (ground (arith, z)) in
          let at_end : length log.chunks ≡ request.start_index =
            ground (arith, z, asked, some_wanted, inside) in
          let here : request.start_index + 0 ≡ request.start_index = omega arith in
          rw none_left (ap (λ k. drop k log.chunks) here, omega (arith, inside), inl at_end)
      | inr z ↦
          let read = a.answered (ground (arith, z)) in
          (
            drop-IsPrefix request.start_index r.chunks log.chunks read.in_order,
            omega (arith, read.in_range, asked, inside),
            inr read.progress,
          )
    ]

-- A reader of a stream that it may use, who asks again and again from where the last answer ended, has
-- every chunk from its first index on, in order and each one once, after as many reads as there are
-- chunks, however few chunks (at least one) and bytes (at least a chunk's) it asks for at a time.
pub reads_add_up :
    (rounds : ℕ) (request : StreamReadRequest) (cell : StreamCell) (log : StreamLog)
    → Represents cell log
    → allowed log request.run_id ≡ true
    → validate_stream_read_request request ≡ true
    → 1 ≤ request.max_chunks
    → request.start_index ≤ length log.chunks
    → length log.chunks ≤ request.start_index + rounds
    → read_on rounds request cell ≡ ok (drop request.start_index log.chunks)
unfolding read_on
reads_add_up zero request cell log r h v some_wanted inside enough =
    ap ok (sym (drop-end request.start_index log.chunks (omega (arith, enough))))
reads_add_up (suc rounds) request cell log r h v some_wanted inside enough =
    let (answer, e, a) =
      allowed-IsAnswer log request (read_snapshot request false cell) h
        (unfold log_calls cell_calls in stream_refines_log cell log [] request false r v) in
    let (whole, still_inside, moved) = next_start log request answer r.fits some_wanted inside a in
    let next = request.start_index + length answer.chunks in
    let enough_left : length log.chunks ≤ next + rounds = elim moved [
      | inl m ↦ omega (arith, m)
      | inr m ↦ omega (arith, m, enough)
    ] in
    rw e (
      rw
        (reads_add_up rounds (record request { start_index = next }) cell log r h
          (validate-start request next v (omega (arith, still_inside, r.in_range))) some_wanted
          still_inside enough_left)
        (ap ok whole))
