-- ===== src/Stream/ReadFrame.antt =====
-- The frame of a read (`src/stream-protocol.ts`): `encodeStreamReadResult`, `decodeStreamReadResult`.
use world_celld.Common.{
  ℕ, zero, suc, ◌+◌, ◌*◌, ◌%◌, String, Bool, true, false, not, ◌&&◌, ◌||◌, Option, none, some, List,
  [], ◌∷◌, ◌++◌, length, ltb, eqb, match_option, if◌then◌else◌,
}
use world_celld.Stream.Bytes.{
  Bytes, ℤ, u32, i32, get_u8, get_u32, get_i32, is_index, get_bytes, put_chunks,
}
use world_celld.Stream.Protocol.{
  StreamTerminalState, opened, closed, errored, expired, StreamErrorData, StreamReadResult,
  max_stream_read_bytes, max_stream_error_bytes, negotiated_stream_chunks, read_magic, expect,
  read_field, is_empty,
}

-- `TextEncoder` and `TextDecoder`
pub record TextCodec : Type 0 where
  pub encode : String → Bytes
  pub decode : Bytes → String

-- `STATE_TO_WIRE` and `WIRE_TO_STATE`
abbrev pub state_to_wire : StreamTerminalState → ℕ
state_to_wire opened = 0
state_to_wire closed = 1
state_to_wire errored = 2
state_to_wire expired = 3

abbrev pub wire_to_state : ℕ → Option StreamTerminalState
wire_to_state wire =
    if eqb wire 0
    then some opened
    else if eqb wire 1
    then some closed
    else if eqb wire 2
    then some errored
    else if eqb wire 3
    then some expired
    else none

-- The sum of the chunks' bytes, each with its length.
abbrev pub chunk_bytes : List Bytes → ℕ
chunk_bytes [] = 0
chunk_bytes (c ∷ cs) = 4 + length c + chunk_bytes cs

abbrev pub flag : Bool → ℕ
flag true = 1
flag false = 0

-- The chunks of a read, of which no more than the largest number of bytes are taken.
unfoldable pub get_read_chunks : ℕ → ℕ → Bytes → Option (List Bytes × Bytes)
get_read_chunks zero total bs = some ([], bs)
get_read_chunks (suc n) total bs = match_option (get_u32 bs) none (λ l.
    match_option (get_bytes l.0 l.1) none (λ c.
      if ltb max_stream_read_bytes (total + l.0)
      then none
      else match_option (get_read_chunks n (total + l.0) c.1) none (λ r. some (c.0 ∷ r.0, r.1))))

module _ (codec : TextCodec) where
  abbrev pub error_name_bytes : Option StreamErrorData → Bytes
  error_name_bytes none = []
  error_name_bytes (some e) = codec.encode e.name

  abbrev pub error_message_bytes : Option StreamErrorData → Bytes
  error_message_bytes none = []
  error_message_bytes (some e) = codec.encode e.message

  -- The frame after its checks.
  abbrev pub read_frame : StreamReadResult → Bytes → Bytes → Bytes
  read_frame r name message =
      u32 read_magic
      ++ (1
          ∷ state_to_wire r.state
          ∷ flag r.timed_out
          ∷ 0
          ∷ (i32 r.start_index
              ++ (i32 r.tail_index
                  ++ (u32 (length r.chunks)
                      ++ (u32 (length name)
                          ++ (u32 (length message)
                              ++ (put_chunks r.chunks ++ (name ++ message))))))))

  -- `encodeStreamReadResult`
  unfoldable pub encode_stream_read_result : StreamReadResult → Option Bytes
  encode_stream_read_result r =
      let name = error_name_bytes r.error in
      let message = error_message_bytes r.error in
      if not (is_index r.start_index)
        || not (is_index r.tail_index)
        || ltb negotiated_stream_chunks (length r.chunks)
        || ltb (max_stream_read_bytes + 4 * negotiated_stream_chunks) (chunk_bytes r.chunks)
        || ltb max_stream_error_bytes (length name + length message)
      then none
      else some (read_frame r name message)

  abbrev pub decoded_error : Bytes → Bytes → Option StreamErrorData
  decoded_error name message =
      if ltb 0 (length name) || ltb 0 (length message)
      then some (record { name = codec.decode name; message = codec.decode message })
      else none

  -- The error's texts, which end the frame.
  abbrev pub get_error : (name_length message_length : ℕ) → Bytes → Option (Option StreamErrorData)
  get_error name_length message_length rest = read_field (get_bytes name_length rest) (λ name rest.
      read_field (get_bytes message_length rest)
        (λ message rest. if is_empty rest then some (decoded_error name message) else none))

  -- What follows the three lengths of the header.
  abbrev pub get_body :
      StreamTerminalState
      → Bool
      → ℤ
      → ℤ
      → (count name_length message_length : ℕ) → Bytes
      → Option StreamReadResult
  get_body state timed_out start tail count name_length message_length rest =
      if ltb negotiated_stream_chunks count
        || ltb max_stream_error_bytes (name_length + message_length)
      then none
      else read_field (get_read_chunks count 0 rest) (λ chunks rest.
        match_option (get_error name_length message_length rest) none (λ error. some (record {
          start_index = start;
          tail_index = tail;
          chunks = chunks;
          state = state;
          timed_out = timed_out;
          error = error;
        })))

  abbrev pub get_indices : StreamTerminalState → Bool → Bytes → Option StreamReadResult
  get_indices state timed_out rest = read_field (get_i32 rest) (λ start rest.
      read_field (get_i32 rest) (λ tail rest.
        if is_index start && is_index tail
        then read_field (get_u32 rest) (λ count rest. read_field (get_u32 rest) (λ name_length rest.
          read_field (get_u32 rest) (λ message_length rest.
            get_body state timed_out start tail count name_length message_length rest)))
        else none))

  -- `decodeStreamReadResult`
  unfoldable pub decode_stream_read_result : Bytes → Option StreamReadResult
  decode_stream_read_result encoded = expect read_magic (get_u32 encoded) (λ rest.
      expect 1 (get_u8 rest) (λ rest. read_field (get_u8 rest) (λ wire rest.
        match_option (wire_to_state wire) none (λ state. read_field (get_u8 rest) (λ flags rest.
          read_field (get_u8 rest)
            (λ reserved rest. get_indices state (eqb (flags % 2) 1) rest))))))
