-- ===== src/Stream/Frames.antt =====
-- The frames of `src/stream-protocol.ts`, written and read.
use mathlib.Core.Path.{subst}
use world_celld.Common.{
  ℕ, ◌+◌, ◌≤◌, ◌<◌, ◌≡◌, refl, true, ◌&&◌, Option, none, some, List, [], ◌∷◌, ◌++◌, length,
  if◌then◌else◌, arith,
}
use world_celld.Stream.Bytes.{
  Bytes, u16, u32, i32, is_index, put_chunks, get_chunks, get_u32-u32, get_u16-u16, get_i32-i32,
  get_chunks-put_chunks, append_nil, Fits,
}
use world_celld.Stream.Protocol.{
  sum_chunks, validate_stream_write_chunks, encode_stream_write_batch, decode_stream_write_batch,
  write_magic, write_ack_magic, negotiated_stream_chunks, StreamWriteResult,
  encode_stream_write_result, decode_stream_write_result, last_of, equal_index, is_write_count,
  accept_batch, accept_result,
}

sum_chunks-Fits : (cs : List Bytes) (total n : ℕ) → sum_chunks cs total ≡ some n → Fits cs
sum_chunks-Fits [] total n h = tt
sum_chunks-Fits (c ∷ cs) total n h =
    (ground (arith, h), sum_chunks-Fits cs (total + length c) n (ground (arith, h)))

validate-bounds :
    (chunks : List Bytes) (total : ℕ)
    → validate_stream_write_chunks chunks ≡ some total
    → Fits chunks × (length chunks ≤ negotiated_stream_chunks)
unfolding validate_stream_write_chunks
validate-bounds chunks total h =
    (sum_chunks-Fits chunks 0 total (ground (arith, h)), ground (arith, h))

get_chunks-put_chunks_end :
    (cs : List Bytes) → Fits cs → get_chunks (length cs) (put_chunks cs) ≡ some (cs, [])
get_chunks-put_chunks_end cs fits =
    subst (λ (bs : Bytes). get_chunks (length cs) bs ≡ some (cs, [])) (append_nil (put_chunks cs))
      (get_chunks-put_chunks cs [] fits)

decode-frame :
    (chunks : List Bytes)
    → Fits chunks
    → length chunks ≤ negotiated_stream_chunks
    → decode_stream_write_batch
        (u32 write_magic ++ (u16 1 ++ (u16 (length chunks) ++ put_chunks chunks)))
      ≡ accept_batch chunks
unfolding decode_stream_write_batch
decode-frame chunks fits few =
    rw (get_u32-u32 write_magic (u16 1 ++ (u16 (length chunks) ++ put_chunks chunks)) (omega arith))
      (rw (get_u16-u16 1 (u16 (length chunks) ++ put_chunks chunks) (omega arith)) (
        rw (get_u16-u16 (length chunks) (put_chunks chunks) (omega arith))
          (rw (get_chunks-put_chunks_end chunks fits) refl)))

frame-of_total :
    (chunks : List Bytes) (frame : Bytes) (total : Option ℕ)
    → validate_stream_write_chunks chunks ≡ total
    → encode_stream_write_batch chunks ≡ some frame
    → decode_stream_write_batch frame ≡ some chunks
unfolding encode_stream_write_batch
frame-of_total chunks frame none v e = ground (arith, v, e)
frame-of_total chunks frame (some total) v e =
    let bounds = validate-bounds chunks total v in
    let known = decode-frame chunks bounds.0 bounds.1 in ground (arith, v, e, known)

-- A batch of chunks that `encodeStreamWriteBatch` makes a frame of is what `decodeStreamWriteBatch`
-- reads from that frame: chunk by chunk, in their order, empty chunks included.
pub write_batch_survives :
    (chunks : List Bytes) (frame : Bytes)
    → encode_stream_write_batch chunks ≡ some frame
    → decode_stream_write_batch frame ≡ some chunks
write_batch_survives chunks frame e =
    frame-of_total chunks frame (validate_stream_write_chunks chunks) refl e

decode-result_frame :
    (r : StreamWriteResult)
    → r.count < 65536
    → is_index r.start_index ≡ true
    → is_index r.tail_index ≡ true
    → decode_stream_write_result (
        u32 write_ack_magic
        ++ (u16 1 ++ (u16 r.count ++ (i32 r.start_index ++ (i32 r.tail_index ++ [])))))
      ≡ accept_result r
unfolding decode_stream_write_result
decode-result_frame r few start tail =
    let after_start = i32 r.tail_index ++ [] in
    let after_count = i32 r.start_index ++ after_start in
    let after_version = u16 r.count ++ after_count in
    rw (get_u32-u32 write_ack_magic (u16 1 ++ after_version) (omega arith)) (
      rw (get_u16-u16 1 after_version (omega arith)) (
        rw (get_u16-u16 r.count after_count few) (
          rw (get_i32-i32 r.start_index after_start start)
            (rw (get_i32-i32 r.tail_index [] tail) refl))))

-- The frame of a write's result is read back as that result exactly when its indices agree: the tail
-- is the index of the batch's last chunk. Otherwise the frame is refused.
write_result_survives :
    (r : StreamWriteResult) (frame : Bytes)
    → encode_stream_write_result r ≡ some frame
    → decode_stream_write_result frame
      ≡ (if equal_index r.tail_index (last_of r.start_index r.count) then some r else none)
unfolding encode_stream_write_result
write_result_survives r frame e =
    let accepted : (is_index r.start_index && is_index r.tail_index && is_write_count r.count)
        ≡ true =
      ground (arith, e) in
    let known =
      decode-result_frame r (ground (arith, accepted)) (ground (arith, accepted))
        (ground (arith, accepted)) in
    ground (arith, e, known)
