-- ===== src/Stream/PageSteps.antt =====
-- Each page of an expiry makes progress, and the one that says it is the last leaves no row
-- (`expireChunkPage` and `expireSegmentPage` of `src/worker/durable-objects/StreamDO.ts`).
use world_celld.Common.{
  ℕ, zero, suc, ◌+◌, ◌≤◌, ◌<◌, ◌≡◌, ◌⊎◌, refl, ap, inl, inr, arith, Bool, true, false, Option, List,
  [], ◌∷◌, length, take, All, eqb, Bool-cases,
}
use world_celld.Stream.Bytes.{Bytes}
use world_celld.Stream.Protocol.{is_empty}
use world_celld.Stream.Segment.{SegmentSize}
use world_celld.Stream.Rows.{delete_row, delete_rows}
use world_celld.Stream.Cell.{ok, StreamMeta, StreamStorage, Layout, per_chunk, segmented}
use world_celld.Stream.Expire.{
  empty_page, page_chunks, page_segments, PageResult, expire_chunk_page, expire_segment_page,
  expire_page,
}
use world_celld.Stream.Pages.{
  IsListed-take, Listing-IsListed, keep_rows-all, keep_rows-fewer, length-delete_rows,
  All-delete_rows, All-take,
}
use world_celld.Stream.PageLoops.{
  IsSizeRow, IsSegmentRow, page_chunks-Listing, page_segments-Listing,
}

-- The rows that an expiry has to delete, and what is known of those that it reads.
abbrev pub rows_left : Layout → StreamStorage → ℕ
rows_left segmented storage = length storage.segment_sizes + length storage.segments
rows_left per_chunk storage = length storage.chunk_sizes + length storage.chunks

abbrev pub IsSizedRight : Layout → StreamStorage → Type 0
IsSizedRight segmented storage = All IsSegmentRow storage.segment_sizes
IsSizedRight per_chunk storage = All IsSizeRow storage.chunk_sizes

-- A page is the last one and nothing is left, or another one has less to do.
abbrev pub Progress : (done : Bool) → (before after : ℕ) → Type 0
Progress done before after = ((done ≡ true) × (after ≡ 0)) ⊎ ((done ≡ false) × (after < before))

delete_first :
    {V : Type 0}
    → (row : ℕ × V) (rows : List (ℕ × V))
    → length (delete_rows (row.0 ∷ []) (row ∷ rows)) < length (row ∷ rows)
unfolding delete_rows delete_row
delete_first row rows =
    let same : eqb row.0 row.0 ≡ true = ground arith in
    rw same (omega (arith, length-delete_rows (row.0 ∷ []) rows))

length-is_empty : {V : Type 0} → (rows : List V) → is_empty rows ≡ true → length rows ≡ 0
length-is_empty [] h = refl
length-is_empty (x ∷ rows) h = cc

length-take : {V : Type 0} → (n : ℕ) (rows : List V) → 0 + length (take n rows) ≤ n
length-take zero rows = omega arith
length-take (suc n) [] = omega arith
length-take (suc n) (row ∷ rows) = omega (arith, length-take n rows)

segment_page-Progress :
    (limit byte_limit : ℕ) (meta : Option StreamMeta) (chunk_sizes : List (ℕ × ℕ))
    (chunks : List (ℕ × Bytes)) (sizes : List (ℕ × SegmentSize)) (segments : List (ℕ × Bytes))
    → 1 ≤ limit
    → All IsSegmentRow sizes
    → let storage : StreamStorage = record {
      meta = meta;
      chunk_sizes = chunk_sizes;
      chunks = chunks;
      segment_sizes = sizes;
      segments = segments;
    } in
      (found : PageResult) × (next : StreamStorage) × (expire_segment_page limit byte_limit storage
        ≡ ok (found, next))
      × (next.meta ≡ meta)
      × IsSizedRight segmented next
      × Progress found.done (rows_left segmented storage) (rows_left segmented next)
unfolding expire_segment_page
segment_page-Progress limit byte_limit meta chunk_sizes chunks [] [] some_room valid =
    unfold page_segments delete_rows in (_, _, refl, refl, tt, inl (refl, refl))
segment_page-Progress limit byte_limit meta chunk_sizes chunks [] (row ∷ rows) some_room valid =
    let fewer = delete_first row rows in
    let after = delete_rows (row.0 ∷ []) (row ∷ rows) in
    let none_sized : length (delete_rows {V = SegmentSize} (row.0 ∷ []) []) ≡ 0 =
      unfold delete_rows delete_row in refl in
    let valid_rows = All-delete_rows IsSegmentRow (row.0 ∷ []) [] tt in
    elim (Bool-cases (is_empty after)) [
      | inl e ↦
          unfold page_segments in
          (
            _,
            _,
            refl,
            refl,
            valid_rows,
            inl (e, omega (arith, none_sized, length-is_empty after e)),
          )
      | inr e ↦
          unfold page_segments in
          (_, _, refl, refl, valid_rows, inr (e, omega (arith, none_sized, fewer)))
    ]
segment_page-Progress limit byte_limit meta chunk_sizes chunks (row ∷ rows) segments some_room
      valid =
    let sizes = row ∷ rows in
    let candidates = take (suc limit) sizes in
    let (page, e, listing) =
      page_segments-Listing limit byte_limit candidates empty_page some_room
        (All-take IsSegmentRow (suc limit) sizes valid) (omega arith) (omega (arith, some_room)) in
    let listed =
      IsListed-take limit (suc limit) sizes page.rows (omega arith)
        (Listing-IsListed limit candidates page listing) in
    let fewer = keep_rows-fewer limit row rows page.rows listed in
    let segments_fewer = length-delete_rows page.rows segments in
    let still_valid = All-delete_rows IsSegmentRow page.rows sizes valid in
    let after = delete_rows page.rows segments in
    elim (Bool-cases (eqb (length candidates) (length page.rows))) [
      | inr c ↦
          rw e
            (rw c (_, _, refl, refl, still_valid, inr (refl, omega (arith, fewer, segments_fewer))))
      | inl c ↦
          let none_left = keep_rows-all limit sizes page.rows listed (ground (arith, c)) in
          elim (Bool-cases (is_empty after)) [
            | inl z ↦ rw e (
                rw c (
                  _,
                  _,
                  refl,
                  refl,
                  still_valid,
                  inl (z, omega (arith, ap length none_left, length-is_empty after z)),
                ))
            | inr z ↦ rw e (
                rw c (_, _, refl, refl, still_valid, inr (z, omega (arith, fewer, segments_fewer))))
          ]
    ]

chunk_page-Progress :
    (limit byte_limit : ℕ) (meta : Option StreamMeta) (sizes : List (ℕ × ℕ))
    (chunks : List (ℕ × Bytes)) (segment_sizes : List (ℕ × SegmentSize))
    (segments : List (ℕ × Bytes))
    → 1 ≤ limit
    → All IsSizeRow sizes
    → let storage : StreamStorage = record {
      meta = meta;
      chunk_sizes = sizes;
      chunks = chunks;
      segment_sizes = segment_sizes;
      segments = segments;
    } in
      (found : PageResult) × (next : StreamStorage) × (expire_chunk_page limit byte_limit storage
        ≡ ok (found, next))
      × (next.meta ≡ meta)
      × IsSizedRight per_chunk next
      × Progress found.done (rows_left per_chunk storage) (rows_left per_chunk next)
unfolding expire_chunk_page
chunk_page-Progress (suc limit) byte_limit meta [] [] segment_sizes segments some_room valid =
    unfold page_chunks delete_rows in (_, _, refl, refl, tt, inl (refl, refl))
chunk_page-Progress (suc limit) byte_limit meta [] (row ∷ rows) segment_sizes segments some_room
      valid =
    let fewer = delete_first row rows in
    let after = delete_rows (row.0 ∷ []) (row ∷ rows) in
    let none_sized : length (delete_rows {V = ℕ} (row.0 ∷ []) []) ≡ 0 =
      unfold delete_rows delete_row in refl in
    let valid_rows = All-delete_rows IsSizeRow (row.0 ∷ []) [] tt in
    elim (Bool-cases (is_empty after)) [
      | inl e ↦
          unfold page_chunks in
          (
            _,
            _,
            refl,
            refl,
            valid_rows,
            inl (e, omega (arith, none_sized, length-is_empty after e)),
          )
      | inr e ↦
          unfold page_chunks in
          (_, _, refl, refl, valid_rows, inr (e, omega (arith, none_sized, fewer)))
    ]
chunk_page-Progress zero byte_limit meta sizes chunks segment_sizes segments some_room valid =
    ground (arith, some_room)
chunk_page-Progress (suc limit) byte_limit meta (row ∷ rows) chunks segment_sizes segments some_room
      valid =
    let sizes = row ∷ rows in
    let candidates = take (suc (suc limit)) sizes in
    let first_page = take (suc limit) candidates in
    let valid_page =
      All-take IsSizeRow (suc limit) candidates
        (All-take IsSizeRow (suc (suc limit)) sizes valid) in
    let (page, e, listing) =
      page_chunks-Listing (suc limit) byte_limit first_page empty_page valid_page
        (length-take (suc limit) candidates) in
    let listed = IsListed-take (suc limit) (suc (suc limit)) sizes page.rows (omega arith) (
      IsListed-take (suc limit) (suc limit) candidates page.rows (omega arith)
        (Listing-IsListed (suc limit) first_page page listing)) in
    let fewer = keep_rows-fewer (suc limit) row rows page.rows listed in
    let chunks_fewer = length-delete_rows page.rows chunks in
    let still_valid = All-delete_rows IsSizeRow page.rows sizes valid in
    let after = delete_rows page.rows chunks in
    elim (Bool-cases (eqb (length candidates) (length page.rows))) [
      | inr c ↦
          rw e
            (rw c (_, _, refl, refl, still_valid, inr (refl, omega (arith, fewer, chunks_fewer))))
      | inl c ↦
          let none_left = keep_rows-all (suc limit) sizes page.rows listed (ground (arith, c)) in
          elim (Bool-cases (is_empty after)) [
            | inl z ↦ rw e (
                rw c (
                  _,
                  _,
                  refl,
                  refl,
                  still_valid,
                  inl (z, omega (arith, ap length none_left, length-is_empty after z)),
                ))
            | inr z ↦
                rw e (
                  rw c (_, _, refl, refl, still_valid, inr (z, omega (arith, fewer, chunks_fewer))))
          ]
    ]

pub expire_page-Progress :
    (layout : Layout) (limit byte_limit : ℕ) (storage : StreamStorage)
    → 1 ≤ limit
    → IsSizedRight layout storage
    → (found : PageResult) × (next : StreamStorage) × (expire_page layout limit byte_limit storage
        ≡ ok (found, next))
      × (next.meta ≡ storage.meta)
      × IsSizedRight layout next
      × Progress found.done (rows_left layout storage) (rows_left layout next)
expire_page-Progress segmented limit byte_limit s some_room valid =
    segment_page-Progress limit byte_limit s.meta s.chunk_sizes s.chunks s.segment_sizes s.segments
      some_room valid
expire_page-Progress per_chunk limit byte_limit s some_room valid =
    chunk_page-Progress limit byte_limit s.meta s.chunk_sizes s.chunks s.segment_sizes s.segments
      some_room valid
