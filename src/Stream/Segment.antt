-- ===== src/Stream/Segment.antt =====
-- Segments (`src/worker/durable-objects/StreamDO.ts`): `encodeSegment`, `decodeSegment`, `packSegments`.
use world_celld.Common.{
  ℕ, zero, suc, ◌+◌, ◌*◌, ◌||◌, ◌&&◌, not, Option, none, some, List, [], ◌∷◌, ◌++◌, length, ltb,
  eqb, if◌then◌else◌, match_option,
}
use world_celld.Stream.Bytes.{Bytes, u32, get_u32, get_bytes}
use world_celld.Stream.Protocol.{is_empty}

pub record SegmentSize : Type 0 where
  pub count : ℕ
  pub bytes : ℕ

pub record Segment : Type 0 where
  pub start : ℕ
  pub chunks : List Bytes

abbrev pub max_segment_bytes : ℕ
max_segment_bytes = 1024 * 1024

-- The payload bytes of some chunks, `reduce` with `+`.
abbrev pub total_bytes : List Bytes → ℕ
total_bytes [] = 0
total_bytes (c ∷ cs) = length c + total_bytes cs

-- The lengths in a segment's header, and its payloads.
unfoldable pub put_lengths : List Bytes → Bytes
put_lengths [] = []
put_lengths (c ∷ cs) = u32 (length c) ++ put_lengths cs

unfoldable pub put_payloads : List Bytes → Bytes
put_payloads [] = []
put_payloads (c ∷ cs) = c ++ put_payloads cs

-- `encodeSegment`
unfoldable pub encode_segment : List Bytes → Bytes
encode_segment chunks = u32 (length chunks) ++ (put_lengths chunks ++ put_payloads chunks)

unfoldable pub get_lengths : ℕ → Bytes → Option (List ℕ × Bytes)
get_lengths zero bs = some ([], bs)
get_lengths (suc n) bs =
    match_option (get_u32 bs) none
      (λ l. match_option (get_lengths n l.1) none (λ r. some (l.0 ∷ r.0, r.1)))

-- The loop of `decodeSegment`: a payload for each length, with nothing left over.
unfoldable pub cut_payloads : List ℕ → Bytes → Option (List Bytes)
cut_payloads [] bs = if is_empty bs then some [] else none
cut_payloads (l ∷ ls) bs =
    match_option (get_bytes l bs) none
      (λ c. match_option (cut_payloads ls c.1) none (λ cs. some (c.0 ∷ cs)))

-- `decodeSegment`
unfoldable pub decode_segment : SegmentSize → Bytes → Option (List Bytes)
decode_segment size value = match_option (get_u32 value) none (λ r.
    if not (eqb r.0 size.count) || not (eqb (4 + 4 * r.0 + size.bytes) (length value))
    then none
    else match_option (get_lengths r.0 r.1) none (λ ls. cut_payloads ls.0 ls.1))

-- The loop of `packSegments`, with the segment that is being filled.
unfoldable pub pack_from : (start : ℕ) → List Bytes → (bytes : ℕ) → List Bytes → List Segment
pack_from start current bytes [] =
    if is_empty current then [] else record { start = start; chunks = current } ∷ []
pack_from start current bytes (c ∷ cs) =
    let flush = not (is_empty current) && ltb max_segment_bytes (bytes + length c) in
    let rest =
      pack_from (if flush then start + length current else start)
        (if flush then c ∷ [] else current ++ (c ∷ []))
        (if flush then length c else bytes + length c) cs in
    if flush then record { start = start; chunks = current } ∷ rest else rest

-- `packSegments`
abbrev pub pack_segments : ℕ → List Bytes → List Segment
pack_segments start chunks = pack_from start [] 0 chunks

-- What `writeChunks` stores of a segment's size.
abbrev pub segment_size : List Bytes → SegmentSize
segment_size chunks = record { count = length chunks; bytes = total_bytes chunks }
