-- ===== src/Stream/ReadTrip.antt =====
-- A read's frame (`src/stream-protocol.ts`), written and read back.
use world_celld.Common.{
  ℕ, ◌+◌, ◌%◌, ◌≤◌, ◌≡◌, refl, Bool, true, false, ◌||◌, Option, none, some, List, [], ◌∷◌, ◌++◌,
  length, ltb, eqb, arith, ap,
}
use world_celld.Stream.Bytes.{
  Bytes, u32, i32, get_u8, is_index, put_chunks, get_u32-u32, get_i32-i32, get_bytes-length,
  get_bytes-length_end, append_assoc,
}
use world_celld.Stream.Protocol.{
  StreamTerminalState, opened, closed, errored, expired, StreamErrorData, StreamReadResult,
  max_stream_read_bytes, max_stream_error_bytes, negotiated_stream_chunks, read_magic,
}
use world_celld.Stream.ReadFrame.{
  TextCodec, state_to_wire, wire_to_state, flag, error_name_bytes, error_message_bytes, read_frame,
  encode_stream_read_result, get_read_chunks, decoded_error, get_error, get_body, get_indices,
  decode_stream_read_result,
}

-- The bytes of the chunks, without their lengths.
abbrev pub payload_bytes : List Bytes → ℕ
payload_bytes [] = 0
payload_bytes (c ∷ cs) = length c + payload_bytes cs

get_read_chunks-put_chunks :
    (cs : List Bytes) (total : ℕ) (rest : Bytes)
    → total + payload_bytes cs ≤ max_stream_read_bytes
    → get_read_chunks (length cs) total (put_chunks cs ++ rest) ≡ some (cs, rest)
unfolding get_read_chunks put_chunks
get_read_chunks-put_chunks [] total rest h = refl
get_read_chunks-put_chunks (c ∷ cs) total rest h =
    let ih = get_read_chunks-put_chunks cs (total + length c) rest (omega (arith, h)) in
    let fits : ltb max_stream_read_bytes (total + length c) ≡ false = ground (arith, h) in
    rw (append_assoc (u32 (length c)) (c ++ put_chunks cs) rest) (
      rw (append_assoc c (put_chunks cs) rest) (
        rw (get_u32-u32 (length c) (c ++ (put_chunks cs ++ rest)) (omega (arith, h)))
          (rw (get_bytes-length c (put_chunks cs ++ rest)) (rw fits (rw ih refl)))))

wire_to_state-state_to_wire : (s : StreamTerminalState) → wire_to_state (state_to_wire s) ≡ some s
wire_to_state-state_to_wire opened = refl
wire_to_state-state_to_wire closed = refl
wire_to_state-state_to_wire errored = refl
wire_to_state-state_to_wire expired = refl

flag-parity : (b : Bool) → eqb (flag b % 2) 1 ≡ b
flag-parity true = refl
flag-parity false = refl

module _ (codec : TextCodec) where
  -- The texts of an error are decoded from their encodings. A text with a lone surrogate is not, and
  -- neither is one that begins with U+FEFF, which `TextDecoder` drops.
  abbrev pub TextsSurvive : Option StreamErrorData → Type 0
  TextsSurvive none = Unit
  TextsSurvive (some e) =
      (codec.decode (codec.encode e.name) ≡ e.name)
      × (codec.decode (codec.encode e.message) ≡ e.message)

  -- An error whose name and message are both empty is no error in a frame.
  decoded_error-encoded :
      (error : Option StreamErrorData)
      → (length (error_name_bytes codec error) + length (error_message_bytes codec error) ≡ 0
          → error ≡ none)
      → TextsSurvive error
      → decoded_error codec (error_name_bytes codec error) (error_message_bytes codec error) ≡ error
  decoded_error-encoded none h texts = refl
  decoded_error-encoded (some e) h texts = ground (arith, h, texts.0, texts.1)

  get_error-texts :
      (error : Option StreamErrorData)
      → (length (error_name_bytes codec error) + length (error_message_bytes codec error) ≡ 0
          → error ≡ none)
      → TextsSurvive error
      → get_error codec
          (length (error_name_bytes codec error))
          (length (error_message_bytes codec error))
          (error_name_bytes codec error ++ error_message_bytes codec error)
        ≡ some error
  get_error-texts error h texts =
      let name = error_name_bytes codec error in
      let message = error_message_bytes codec error in
      rw (get_bytes-length name message)
        (rw (get_bytes-length_end message) (ap some (decoded_error-encoded error h texts)))

  module _ (r : StreamReadResult) (start : is_index r.start_index ≡ true)
      (tail : is_index r.tail_index ≡ true) (few : length r.chunks ≤ negotiated_stream_chunks)
      (small : payload_bytes r.chunks ≤ max_stream_read_bytes)
      (short : length (error_name_bytes codec r.error) + length (error_message_bytes codec r.error)
        ≤ max_stream_error_bytes)
      (blank : length (error_name_bytes codec r.error) + length (error_message_bytes codec r.error)
          ≡ 0
        → r.error ≡ none)
      (texts : TextsSurvive r.error) where
    get_body-frame :
        get_body codec r.state r.timed_out r.start_index r.tail_index
          (length r.chunks)
          (length (error_name_bytes codec r.error))
          (length (error_message_bytes codec r.error))
          (put_chunks r.chunks
            ++ (error_name_bytes codec r.error ++ error_message_bytes codec r.error))
        ≡ some r
    get_body-frame =
        let name = error_name_bytes codec r.error in
        let message = error_message_bytes codec r.error in
        let guard : (ltb negotiated_stream_chunks (length r.chunks)
              || ltb max_stream_error_bytes (length name + length message))
            ≡ false =
          ground (arith, few, short) in
        rw guard (
          rw (get_read_chunks-put_chunks r.chunks 0 (name ++ message) (omega (arith, small)))
            (rw (get_error-texts r.error blank texts) refl))

    get_indices-frame :
        get_indices codec r.state r.timed_out (
          i32 r.start_index
          ++ (i32 r.tail_index
              ++ (u32 (length r.chunks)
                  ++ (u32 (length (error_name_bytes codec r.error))
                      ++ (u32 (length (error_message_bytes codec r.error))
                          ++ (put_chunks r.chunks
                              ++ (error_name_bytes codec r.error
                                  ++ error_message_bytes codec r.error)))))))
        ≡ some r
    get_indices-frame =
        let name = error_name_bytes codec r.error in
        let message = error_message_bytes codec r.error in
        let payload = put_chunks r.chunks ++ (name ++ message) in
        let after_name = u32 (length message) ++ payload in
        let after_count = u32 (length name) ++ after_name in
        let after_tail = u32 (length r.chunks) ++ after_count in
        rw (get_i32-i32 r.start_index (i32 r.tail_index ++ after_tail) start) (
          rw (get_i32-i32 r.tail_index after_tail tail) (
            rw start (
              rw tail (
                rw (get_u32-u32 (length r.chunks) after_count (omega (arith, few))) (
                  rw (get_u32-u32 (length name) after_name (omega (arith, short))) (
                    rw (get_u32-u32 (length message) payload (omega (arith, short)))
                      get_body-frame))))))

    decode-read_frame :
        decode_stream_read_result codec
          (read_frame codec r (error_name_bytes codec r.error) (error_message_bytes codec r.error))
        ≡ some r
    unfolding decode_stream_read_result get_u8
    decode-read_frame =
        let name = error_name_bytes codec r.error in
        let message = error_message_bytes codec r.error in
        let after_reserved =
          i32 r.start_index
          ++ (i32 r.tail_index
              ++ (u32 (length r.chunks)
                  ++ (u32 (length name)
                      ++ (u32 (length message) ++ (put_chunks r.chunks ++ (name ++ message)))))) in
        let after_magic : Bytes =
          1 ∷ state_to_wire r.state ∷ flag r.timed_out ∷ 0 ∷ after_reserved in
        rw (get_u32-u32 read_magic after_magic (omega arith)) (
          rw (wire_to_state-state_to_wire r.state) (rw (flag-parity r.timed_out) get_indices-frame))

  -- A read's result that `encodeStreamReadResult` makes a frame of is what `decodeStreamReadResult`
  -- reads from it, provided that its chunks hold no more bytes than a read may (the encoder's own
  -- bound also counts 4 bytes for each of 512 chunks), that an error it carries is not blank, and that
  -- its texts are decoded from their encodings.
  pub read_result_survives :
      (r : StreamReadResult) (frame : Bytes)
      → payload_bytes r.chunks ≤ max_stream_read_bytes
      → (length (error_name_bytes codec r.error) + length (error_message_bytes codec r.error) ≡ 0
          → r.error ≡ none)
      → TextsSurvive r.error
      → encode_stream_read_result codec r ≡ some frame
      → decode_stream_read_result codec frame ≡ some r
  unfolding encode_stream_read_result
  read_result_survives r frame small blank texts e =
      let known =
        decode-read_frame r (ground (arith, e)) (ground (arith, e)) (ground (arith, e)) small
          (ground (arith, e)) blank texts in
      ground (arith, e, known)
