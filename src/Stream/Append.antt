-- ===== src/Stream/Append.antt =====
-- The rows that a write adds stand at the end (`writeChunks` of
-- `src/worker/durable-objects/StreamDO.ts`).
use world_celld.Common.{
  ℕ, suc, ◌+◌, ◌≤◌, ◌<◌, ◌≡◌, refl, sym, ap, ◌∙◌, arith, false, some, List, [], ◌∷◌, ◌++◌, length,
  ltb, eqb,
}
use world_celld.Stream.Bytes.{Bytes}
use world_celld.Stream.Protocol.{sum_chunks, validate_stream_write_chunks, negotiated_stream_chunks}
use world_celld.Stream.Segment.{segment_size, encode_segment}
use world_celld.Stream.Rows.{put_row}
use world_celld.Stream.Cell.{
  StreamStorage, Layout, segmented, per_chunk, put_segments, put_chunk_rows, put_payload,
}
use world_celld.Stream.Groups.{
  join, AllGroups, AllGroups-++, size_rows, segment_rows, segments_at, size_rows-++,
  segment_rows-++, join-++, length-++, ++-assoc, ++-nil,
}
use world_celld.Stream.Packing.{
  AllSmall, pack_groups, pack_from-segments_at, join-pack_groups, pack_groups-AllGroups,
}
use world_celld.Stream.ReadRows.{chunk_size_rows, chunk_rows}
use world_celld.Stream.Log.{Holds}

-- Every row has a smaller index.
module _ {ℓ} {V : Type ℓ} where
  abbrev Below : ℕ → List (ℕ × V) → Type 0
  Below k [] = Unit
  Below k (row ∷ rows) = (row.0 < k) × Below k rows

  put_row-Below :
      (k : ℕ) (v : V) (rows : List (ℕ × V))
      → Below k rows
      → put_row k v rows ≡ rows ++ ((k, v) ∷ [])
  unfolding put_row
  put_row-Below k v [] h = refl
  put_row-Below k v (row ∷ rows) h =
      let after : ltb k row.0 ≡ false = ground (arith, h.0) in
      let other : eqb k row.0 ≡ false = ground (arith, h.0) in
      rw after (rw other (ap (λ l. row ∷ l) (put_row-Below k v rows h.1)))

size_rows-Below :
    (k p : ℕ) (gs : List (List Bytes))
    → AllGroups gs
    → p + length (join gs) ≤ k
    → Below k (size_rows p gs)
size_rows-Below k p [] all h = tt
size_rows-Below k p (g ∷ gs) all h = (
  omega (arith, h, all.0, length-++ g (join gs)),
  size_rows-Below k (p + length g) gs all.3 (omega (arith, h, length-++ g (join gs))),
)

segment_rows-Below :
    (k p : ℕ) (gs : List (List Bytes))
    → AllGroups gs
    → p + length (join gs) ≤ k
    → Below k (segment_rows p gs)
segment_rows-Below k p [] all h = tt
segment_rows-Below k p (g ∷ gs) all h = (
  omega (arith, h, all.0, length-++ g (join gs)),
  segment_rows-Below k (p + length g) gs all.3 (omega (arith, h, length-++ g (join gs))),
)

put_segments-rows :
    (gs groups : List (List Bytes)) (p : ℕ) (storage : StreamStorage)
    → p ≡ length (join groups)
    → AllGroups groups
    → AllGroups gs
    → storage.segment_sizes ≡ size_rows 0 groups
    → storage.segments ≡ segment_rows 0 groups
    → let next = put_segments (segments_at p gs) storage in
      (next.segment_sizes ≡ size_rows 0 (groups ++ gs))
      × (next.segments ≡ segment_rows 0 (groups ++ gs))
unfolding put_segments
put_segments-rows [] groups p storage at all more sizes rows = (
  sizes ∙ ap (size_rows 0) (sym (++-nil groups)),
  rows ∙ ap (segment_rows 0) (sym (++-nil groups)),
)
put_segments-rows (g ∷ gs) groups p storage at all more sizes rows =
    let start : 0 + length (join groups) ≡ p = omega (arith, at) in
    let grown = groups ++ (g ∷ []) in
    let regroup : grown ++ gs ≡ groups ++ (g ∷ gs) = ++-assoc groups (g ∷ []) gs in
    let ih =
      put_segments-rows gs grown (p + length g)
        (record storage {
          segments = put_row p (encode_segment g) storage.segments;
          segment_sizes = put_row p (segment_size g) storage.segment_sizes;
        })
        (omega (
          arith,
          at,
          ap length (join-++ groups (g ∷ [])),
          length-++ (join groups) (g ++ []),
          length-++ g [],
        ))
        (AllGroups-++ groups (g ∷ []) all (more.0, more.1, more.2, tt)) more.3
        (rw sizes (
          put_row-Below p (segment_size g) (size_rows 0 groups)
            (size_rows-Below p 0 groups all (omega (arith, at)))
          ∙ ap (λ k. size_rows 0 groups ++ size_rows k (g ∷ [])) (sym start)
          ∙ sym (size_rows-++ 0 groups (g ∷ []))))
        (rw rows (
          put_row-Below p (encode_segment g) (segment_rows 0 groups)
            (segment_rows-Below p 0 groups all (omega (arith, at)))
          ∙ ap (λ k. segment_rows 0 groups ++ segment_rows k (g ∷ [])) (sym start)
          ∙ sym (segment_rows-++ 0 groups (g ∷ [])))) in
    (ih.0 ∙ ap (size_rows 0) regroup, ih.1 ∙ ap (segment_rows 0) regroup)

chunk_size_rows-Below :
    (k i : ℕ) (cs : List Bytes) → i + length cs ≤ k → Below k (chunk_size_rows i cs)
chunk_size_rows-Below k i [] h = tt
chunk_size_rows-Below k i (c ∷ cs) h =
    (omega (arith, h), chunk_size_rows-Below k (suc i) cs (omega (arith, h)))

chunk_rows-Below : (k i : ℕ) (cs : List Bytes) → i + length cs ≤ k → Below k (chunk_rows i cs)
chunk_rows-Below k i [] h = tt
chunk_rows-Below k i (c ∷ cs) h =
    (omega (arith, h), chunk_rows-Below k (suc i) cs (omega (arith, h)))

chunk_size_rows-++ :
    (i : ℕ) (a b : List Bytes)
    → chunk_size_rows i (a ++ b) ≡ chunk_size_rows i a ++ chunk_size_rows (i + length a) b
chunk_size_rows-++ i [] b = ap (λ k. chunk_size_rows k b) (omega arith)
chunk_size_rows-++ i (c ∷ a) b =
    let e : suc i + length a ≡ i + suc (length a) = omega arith in
    ap (λ l. (i, length c) ∷ l)
      (chunk_size_rows-++ (suc i) a b
        ∙ ap (λ k. chunk_size_rows (suc i) a ++ chunk_size_rows k b) e)

chunk_rows-++ :
    (i : ℕ) (a b : List Bytes)
    → chunk_rows i (a ++ b) ≡ chunk_rows i a ++ chunk_rows (i + length a) b
chunk_rows-++ i [] b = ap (λ k. chunk_rows k b) (omega arith)
chunk_rows-++ i (c ∷ a) b =
    let e : suc i + length a ≡ i + suc (length a) = omega arith in
    ap (λ l. (i, c) ∷ l)
      (chunk_rows-++ (suc i) a b ∙ ap (λ k. chunk_rows (suc i) a ++ chunk_rows k b) e)

put_chunk_rows-rows :
    (cs log : List Bytes) (i : ℕ) (storage : StreamStorage)
    → i ≡ length log
    → storage.chunk_sizes ≡ chunk_size_rows 0 log
    → storage.chunks ≡ chunk_rows 0 log
    → let next = put_chunk_rows i cs storage in
      (next.chunk_sizes ≡ chunk_size_rows 0 (log ++ cs)) × (next.chunks ≡ chunk_rows 0 (log ++ cs))
unfolding put_chunk_rows
put_chunk_rows-rows [] log i storage at sizes rows =
    (sizes ∙ ap (chunk_size_rows 0) (sym (++-nil log)), rows ∙ ap (chunk_rows 0) (sym (++-nil log)))
put_chunk_rows-rows (c ∷ cs) log i storage at sizes rows =
    let start : 0 + length log ≡ i = omega (arith, at) in
    let grown = log ++ (c ∷ []) in
    let regroup : grown ++ cs ≡ log ++ (c ∷ cs) = ++-assoc log (c ∷ []) cs in
    let ih =
      put_chunk_rows-rows cs grown (suc i)
        (record storage {
          chunks = put_row i c storage.chunks;
          chunk_sizes = put_row i (length c) storage.chunk_sizes;
        })
        (omega (arith, at, length-++ log (c ∷ [])))
        (rw sizes (
          put_row-Below i (length c) (chunk_size_rows 0 log)
            (chunk_size_rows-Below i 0 log (omega (arith, at)))
          ∙ ap (λ k. chunk_size_rows 0 log ++ chunk_size_rows k (c ∷ [])) (sym start)
          ∙ sym (chunk_size_rows-++ 0 log (c ∷ []))))
        (rw rows (
          put_row-Below i c (chunk_rows 0 log) (chunk_rows-Below i 0 log (omega (arith, at)))
          ∙ ap (λ k. chunk_rows 0 log ++ chunk_rows k (c ∷ [])) (sym start)
          ∙ sym (chunk_rows-++ 0 log (c ∷ [])))) in
    (ih.0 ∙ ap (chunk_size_rows 0) regroup, ih.1 ∙ ap (chunk_rows 0) regroup)

sum_chunks-AllSmall : (cs : List Bytes) (total n : ℕ) → sum_chunks cs total ≡ some n → AllSmall cs
sum_chunks-AllSmall [] total n h = tt
sum_chunks-AllSmall (c ∷ cs) total n h =
    (ground (arith, h), sum_chunks-AllSmall cs (total + length c) n (ground (arith, h)))

pub validate-AllSmall :
    (chunks : List Bytes) (total : ℕ)
    → validate_stream_write_chunks chunks ≡ some total
    → AllSmall chunks × (0 < length chunks) × (length chunks ≤ negotiated_stream_chunks)
unfolding validate_stream_write_chunks
validate-AllSmall chunks total h =
    (sum_chunks-AllSmall chunks 0 total (ground (arith, h)), ground (arith, h), ground (arith, h))

-- After a write the rows hold the old chunks and the new ones, whichever the layout.
pub put_payload-Holds :
    (layout : Layout) (log chunks : List Bytes) (start : ℕ) (storage : StreamStorage)
    → start ≡ length log
    → AllSmall chunks
    → length chunks ≤ negotiated_stream_chunks
    → Holds layout log storage
    → Holds layout (log ++ chunks) (put_payload layout start chunks storage)
put_payload-Holds per_chunk log chunks start storage at small few held =
    put_chunk_rows-rows chunks log start storage at held.0 held.1
put_payload-Holds segmented log chunks start storage at small few
      (groups, joined, all, sizes, rows) =
    let packed = pack_groups [] 0 chunks in
    let packed_all = pack_groups-AllGroups chunks [] 0 small tt (omega (arith, few)) in
    let made =
      put_segments-rows packed groups start storage (at ∙ ap length (sym joined)) all packed_all
        sizes rows in
    rw (pack_from-segments_at chunks [] start 0) (
      groups ++ packed,
      join-++ groups packed
          ∙ ap (λ l. join groups ++ l) (join-pack_groups chunks [] 0)
          ∙ ap (λ l. l ++ chunks) joined,
      AllGroups-++ groups packed all packed_all,
      made.0,
      made.1,
    )
