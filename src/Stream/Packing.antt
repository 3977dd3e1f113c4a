-- ===== src/Stream/Packing.antt =====
-- Segments written and read back, and the packing of a write's chunks into segments
-- (`encodeSegment`, `decodeSegment` and `packSegments` of `src/worker/durable-objects/StreamDO.ts`).
use world_celld.Common.{
  ℕ, ◌+◌, ◌*◌, ◌≤◌, ◌<◌, ◌≡◌, refl, inl, inr, arith, true, not, ◌&&◌, some, List, [], ◌∷◌, ◌++◌,
  length, ltb, eqb, if◌then◌else◌, Bool-cases,
}
use world_celld.Stream.Bytes.{
  Bytes, u32, get_u32, Fits, get_u32-u32, get_bytes-length, append_assoc,
}
use world_celld.Stream.Protocol.{is_empty, max_stream_chunk_bytes}
use world_celld.Stream.Segment.{
  max_segment_bytes, total_bytes, put_lengths, put_payloads, encode_segment, get_lengths,
  cut_payloads, decode_segment, pack_from, segment_size,
}
use world_celld.Stream.Groups.{join, AllGroups, segments_at, ++-assoc, length-++, total_bytes-++}

abbrev lengths_of : List Bytes → List ℕ
lengths_of [] = []
lengths_of (c ∷ cs) = length c ∷ lengths_of cs

get_lengths-put_lengths :
    (cs : List Bytes) (rest : Bytes)
    → Fits cs
    → get_lengths (length cs) (put_lengths cs ++ rest) ≡ some (lengths_of cs, rest)
unfolding get_lengths put_lengths
get_lengths-put_lengths [] rest fits = refl
get_lengths-put_lengths (c ∷ cs) rest fits =
    rw (append_assoc (u32 (length c)) (put_lengths cs) rest) (
      rw (get_u32-u32 (length c) (put_lengths cs ++ rest) fits.0)
        (rw (get_lengths-put_lengths cs rest fits.1) refl))

cut_payloads-put_payloads :
    (cs : List Bytes) → cut_payloads (lengths_of cs) (put_payloads cs) ≡ some cs
unfolding cut_payloads put_payloads
cut_payloads-put_payloads [] = refl
cut_payloads-put_payloads (c ∷ cs) =
    rw (get_bytes-length c (put_payloads cs)) (rw (cut_payloads-put_payloads cs) refl)

length-put_lengths : (cs : List Bytes) → length (put_lengths cs) ≡ 4 * length cs
unfolding put_lengths u32
length-put_lengths [] = refl
length-put_lengths (c ∷ cs) = ground (arith, length-put_lengths cs)

length-put_payloads : (cs : List Bytes) → length (put_payloads cs) ≡ total_bytes cs
unfolding put_payloads
length-put_payloads [] = refl
length-put_payloads (c ∷ cs) = omega (arith, length-++ c (put_payloads cs), length-put_payloads cs)

length-encode_segment :
    (cs : List Bytes) → 4 + 4 * length cs + total_bytes cs ≡ length (encode_segment cs)
unfolding encode_segment u32
length-encode_segment cs = omega (
  arith,
  length-++ (put_lengths cs) (put_payloads cs),
  length-put_lengths cs,
  length-put_payloads cs,
)

-- A segment's row is read back, with its size row, as the chunks that it was made of, whatever their
-- lengths; the number of chunks and each length fit in 32 bits.
pub segment_survives :
    (chunks : List Bytes)
    → length chunks < 4294967296
    → Fits chunks
    → decode_segment (segment_size chunks) (encode_segment chunks) ≡ some chunks
unfolding decode_segment
segment_survives chunks few fits =
    let value = encode_segment chunks in
    let sized : eqb (4 + 4 * length chunks + total_bytes chunks) (length value) ≡ true =
      ground (arith, length-encode_segment chunks) in
    let header : get_u32 value ≡ some (length chunks, put_lengths chunks ++ put_payloads chunks) =
      unfold encode_segment in
      get_u32-u32 (length chunks) (put_lengths chunks ++ put_payloads chunks) few in
    let same : eqb (length chunks) (length chunks) ≡ true = ground arith in
    rw header (
      rw sized (
        rw same (
          rw (get_lengths-put_lengths chunks (put_payloads chunks) fits)
            (cut_payloads-put_payloads chunks))))

-- The chunks of the segments that `pack_from` makes.
unfoldable pub pack_groups : List Bytes → (bytes : ℕ) → List Bytes → List (List Bytes)
pack_groups current bytes [] = if is_empty current then [] else current ∷ []
pack_groups current bytes (c ∷ cs) =
    let flush = not (is_empty current) && ltb max_segment_bytes (bytes + length c) in
    let rest =
      pack_groups (if flush then c ∷ [] else current ++ (c ∷ []))
        (if flush then length c else bytes + length c) cs in
    if flush then current ∷ rest else rest

pub pack_from-segments_at :
    (cs current : List Bytes) (start bytes : ℕ)
    → pack_from start current bytes cs ≡ segments_at start (pack_groups current bytes cs)
unfolding pack_from pack_groups
pack_from-segments_at [] [] start bytes = refl
pack_from-segments_at [] (x ∷ current) start bytes = refl
pack_from-segments_at (c ∷ cs) current start bytes =
    elim (Bool-cases (not (is_empty current) && ltb max_segment_bytes (bytes + length c))) [
      | inl e ↦
          rw e (rw (pack_from-segments_at cs (c ∷ []) (start + length current) (length c)) refl)
      | inr e ↦
          rw e (rw (pack_from-segments_at cs (current ++ (c ∷ [])) start (bytes + length c)) refl)
    ]

pub join-pack_groups :
    (cs current : List Bytes) (bytes : ℕ) → join (pack_groups current bytes cs) ≡ current ++ cs
unfolding pack_groups
join-pack_groups [] [] bytes = refl
join-pack_groups [] (x ∷ current) bytes = refl
join-pack_groups (c ∷ cs) current bytes =
    elim (Bool-cases (not (is_empty current) && ltb max_segment_bytes (bytes + length c))) [
      | inl e ↦ rw e (rw (join-pack_groups cs (c ∷ []) (length c)) refl)
      | inr e ↦ rw e (
          rw (join-pack_groups cs (current ++ (c ∷ [])) (bytes + length c))
            (++-assoc current (c ∷ []) cs))
    ]

-- Every chunk is one that a write may hold.
abbrev pub AllSmall : List Bytes → Type 0
AllSmall [] = Unit
AllSmall (c ∷ cs) = (length c ≤ max_stream_chunk_bytes) × AllSmall cs

pub AllSmall-++ : (a b : List Bytes) → AllSmall a → AllSmall b → AllSmall (a ++ b)
AllSmall-++ [] b ha hb = hb
AllSmall-++ (x ∷ a) b ha hb = (ha.0, AllSmall-++ a b ha.1 hb)

AllSmall-Fits : (a : List Bytes) → AllSmall a → Fits a
AllSmall-Fits [] h = tt
AllSmall-Fits (x ∷ a) h = (omega (arith, h), AllSmall-Fits a h.1)

-- Every group has some chunks, and no more bytes than a segment holds.
abbrev AllPacked : List (List Bytes) → Type 0
AllPacked [] = Unit
AllPacked (g ∷ gs) = (0 < length g) × (total_bytes g ≤ max_segment_bytes) × AllPacked gs

pub pack_groups-AllGroups :
    (cs current : List Bytes) (bytes : ℕ)
    → AllSmall cs
    → AllSmall current
    → length current + length cs < 4294967296
    → AllGroups (pack_groups current bytes cs)
unfolding pack_groups
pack_groups-AllGroups [] [] bytes hs hc few = tt
pack_groups-AllGroups [] (x ∷ current) bytes hs hc few =
    (omega arith, omega (arith, few), AllSmall-Fits (x ∷ current) hc, tt)
pack_groups-AllGroups (c ∷ cs) current bytes hs hc few =
    elim (Bool-cases (not (is_empty current) && ltb max_segment_bytes (bytes + length c))) [
      | inl e ↦ rw e (
        ground (arith, e),
        omega (arith, few),
        AllSmall-Fits current hc,
        pack_groups-AllGroups cs (c ∷ []) (length c) hs.1 (hs.0, tt) (omega (arith, few)),
      )
      | inr e ↦ rw e (
          pack_groups-AllGroups cs (current ++ (c ∷ [])) (bytes + length c) hs.1
            (AllSmall-++ current (c ∷ []) hc (hs.0, tt))
            (omega (arith, few, length-++ current (c ∷ []))))
    ]

-- The segments that `packSegments` makes of chunks are not empty, and hold no more than 1 MiB each.
pack_groups-AllPacked :
    (cs current : List Bytes) (bytes : ℕ)
    → AllSmall cs
    → bytes ≡ total_bytes current
    → bytes ≤ max_segment_bytes
    → AllPacked (pack_groups current bytes cs)
unfolding pack_groups
pack_groups-AllPacked [] [] bytes hs eb hb = tt
pack_groups-AllPacked [] (x ∷ current) bytes hs eb hb = (omega arith, omega (arith, eb, hb), tt)
pack_groups-AllPacked (c ∷ cs) current bytes hs eb hb =
    elim (Bool-cases (not (is_empty current) && ltb max_segment_bytes (bytes + length c))) [
      | inl e ↦ rw e (
        ground (arith, e),
        omega (arith, eb, hb),
        pack_groups-AllPacked cs (c ∷ []) (length c) hs.1 (omega arith) (omega (arith, hs.0)),
      )
      | inr e ↦ rw e (
          pack_groups-AllPacked cs (current ++ (c ∷ [])) (bytes + length c) hs.1
            (omega (arith, eb, total_bytes-++ current (c ∷ []))) (ground (arith, e, eb, hs.0)))
    ]
