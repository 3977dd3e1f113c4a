-- ===== src/Stream/Protocol.antt =====
-- The stream protocol (`src/stream-protocol.ts`): limits, and the frames of a write, of its result and
-- of a read. Every error is none.
use world_celld.Common.{
  ℕ, ◌+◌, ◌*◌, ◌-◌, String, Bool, true, false, ◌&&◌, ◌||◌, Option, none, some, List, [], ◌∷◌, ◌++◌,
  length, leb, ltb, eqb, is_some, match_option, if◌then◌else◌,
}
use world_celld.Queue.Claim.{non_empty}
use world_celld.Stream.Bytes.{
  Bytes, ℤ, pos, negsuc, u16, u32, i32, get_u16, get_u32, get_i32, is_index, put_chunks, get_chunks,
}

abbrev pub max_stream_chunk_bytes : ℕ
max_stream_chunk_bytes = 1024 * 1024

abbrev pub max_stream_batch_bytes : ℕ
max_stream_batch_bytes = 8 * 1024 * 1024

abbrev pub negotiated_stream_chunks : ℕ
negotiated_stream_chunks = 512

abbrev pub max_stream_read_bytes : ℕ
max_stream_read_bytes = 8 * 1024 * 1024

abbrev pub max_stream_error_bytes : ℕ
max_stream_error_bytes = 16 * 1024

abbrev pub max_stream_long_poll_ms : ℕ
max_stream_long_poll_ms = 20000

pub data StreamTerminalState : Type 0 where
  opened closed errored expired : StreamTerminalState

pub record StreamErrorData : Type 0 where
  pub name : String
  pub message : String

pub record StreamWriteResult : Type 0 where
  pub start_index : ℤ
  pub count : ℕ
  pub tail_index : ℤ

pub record StreamReadRequest : Type 0 where
  pub run_id : String
  pub start_index : ℕ
  pub max_chunks : ℕ
  pub max_bytes : ℕ
  pub wait_ms : ℕ

pub record StreamReadResult : Type 0 where
  pub start_index : ℤ
  pub tail_index : ℤ
  pub chunks : List Bytes
  pub state : StreamTerminalState
  pub timed_out : Bool
  pub error : Option StreamErrorData

-- The loop of `validateStreamWriteChunks`, with the bytes so far.
abbrev pub sum_chunks : List Bytes → ℕ → Option ℕ
sum_chunks [] total = some total
sum_chunks (c ∷ cs) total =
    let rest = sum_chunks cs (total + length c) in
    if ltb max_stream_chunk_bytes (length c) || ltb max_stream_batch_bytes (total + length c)
    then none
    else rest

-- `validateStreamWriteChunks`
unfoldable pub validate_stream_write_chunks : List Bytes → Option ℕ
validate_stream_write_chunks chunks =
    if eqb (length chunks) 0 || ltb negotiated_stream_chunks (length chunks)
    then none
    else sum_chunks chunks 0

-- `validateStreamReadRequest`
unfoldable pub validate_stream_read_request : StreamReadRequest → Bool
validate_stream_read_request r =
    non_empty r.run_id
    && leb r.start_index 2147483647
    && leb r.max_chunks negotiated_stream_chunks
    && leb max_stream_chunk_bytes r.max_bytes
    && leb r.max_bytes max_stream_read_bytes
    && leb r.wait_ms max_stream_long_poll_ms

abbrev pub write_magic : ℕ
write_magic = 0x57435357

abbrev pub write_ack_magic : ℕ
write_ack_magic = 0x57435341

abbrev pub read_magic : ℕ
read_magic = 0x57435352

-- A field that must have a value, and what is read after it.
abbrev pub expect {ℓ} : {A : Type ℓ} → ℕ → Option (ℕ × Bytes) → (Bytes → Option A) → Option A
expect value field next = match_option field none (λ r. if eqb r.0 value then next r.1 else none)

abbrev pub read_field {ℓ κ} :
    {A : Type ℓ} {B : Type κ} → Option (A × Bytes) → (A → Bytes → Option B) → Option B
read_field field next = match_option field none (λ r. next r.0 r.1)

-- `encodeStreamWriteBatch`
unfoldable pub encode_stream_write_batch : List Bytes → Option Bytes
encode_stream_write_batch chunks =
    match_option (validate_stream_write_chunks chunks) none
      (λ total. some (u32 write_magic ++ (u16 1 ++ (u16 (length chunks) ++ put_chunks chunks))))

abbrev pub is_empty {ℓ} : {A : Type ℓ} → List A → Bool
is_empty [] = true
is_empty _ = false

abbrev pub accept_batch : List Bytes → Option (List Bytes)
accept_batch chunks = if is_some (validate_stream_write_chunks chunks) then some chunks else none

-- `decodeStreamWriteBatch`
unfoldable pub decode_stream_write_batch : Bytes → Option (List Bytes)
decode_stream_write_batch encoded = expect write_magic (get_u32 encoded) (λ rest.
    expect 1 (get_u16 rest) (λ rest. read_field (get_u16 rest) (λ count rest.
      read_field (get_chunks count rest)
        (λ chunks rest. if is_empty rest then accept_batch chunks else none))))

-- `start + count - 1`, for a positive count
abbrev pub last_of : ℤ → ℕ → ℤ
last_of (pos n) count = pos (n + count - 1)
last_of (negsuc n) count =
    if leb (count - 1) n then negsuc (n - (count - 1)) else pos (count - 1 - n - 1)

abbrev pub equal_index : ℤ → ℤ → Bool
equal_index (pos a) (pos b) = eqb a b
equal_index (negsuc a) (negsuc b) = eqb a b
equal_index _ _ = false

abbrev pub is_write_count : ℕ → Bool
is_write_count count = leb 1 count && leb count negotiated_stream_chunks

-- `encodeStreamWriteResult`
unfoldable pub encode_stream_write_result : StreamWriteResult → Option Bytes
encode_stream_write_result r =
    if is_index r.start_index && is_index r.tail_index && is_write_count r.count
    then some (
        u32 write_ack_magic
        ++ (u16 1 ++ (u16 r.count ++ (i32 r.start_index ++ (i32 r.tail_index ++ [])))))
    else none

abbrev pub accept_result : StreamWriteResult → Option StreamWriteResult
accept_result r =
    if is_write_count r.count
      && is_index r.start_index
      && is_index r.tail_index
      && equal_index r.tail_index (last_of r.start_index r.count)
    then some r
    else none

-- `decodeStreamWriteResult`
unfoldable pub decode_stream_write_result : Bytes → Option StreamWriteResult
decode_stream_write_result encoded = expect write_ack_magic (get_u32 encoded) (λ rest.
    expect 1 (get_u16 rest) (λ rest. read_field (get_u16 rest) (λ count rest.
      read_field (get_i32 rest) (λ start rest. read_field (get_i32 rest) (λ tail rest.
        if is_empty rest
        then accept_result (record { start_index = start; count = count; tail_index = tail })
        else none)))))
