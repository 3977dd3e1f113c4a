-- ===== src/Stream/PageLoops.antt =====
-- The loops that list a page (`expireChunkPage` and `expireSegmentPage` of
-- `src/worker/durable-objects/StreamDO.ts`).
use world_celld.Common.{
  ℕ, suc, ◌+◌, ◌≤◌, ◌<◌, ◌≡◌, refl, ap, inl, inr, arith, Bool, true, false, not, ◌&&◌, ◌||◌, List,
  [], ◌∷◌, length, All, ltb, leb, Bool-cases,
}
use world_celld.Stream.Protocol.{is_empty, max_stream_chunk_bytes}
use world_celld.Stream.Segment.{SegmentSize}
use world_celld.Stream.Cell.{ok}
use world_celld.Stream.Expire.{Page, page_chunks, page_segments}
use world_celld.Stream.Pages.{Listing}

abbrev pub IsSizeRow : ℕ × ℕ → Type 0
IsSizeRow row = row.1 ≤ max_stream_chunk_bytes

abbrev pub IsSegmentRow : ℕ × SegmentSize → Type 0
IsSegmentRow row = 0 < row.1.count

pub page_chunks-Listing :
    (limit byte_limit : ℕ) (rows : List (ℕ × ℕ)) (page : Page)
    → All IsSizeRow rows
    → length page.rows + length rows ≤ limit
    → (result : Page) × (page_chunks byte_limit page rows ≡ ok result)
      × Listing limit page rows result
unfolding page_chunks
page_chunks-Listing limit byte_limit [] page valid few =
    (page, refl, ([], [], refl, refl, (λ h e. e), omega (arith, few)))
page_chunks-Listing limit byte_limit (row ∷ rows) page valid few =
    let fits : leb row.1 max_stream_chunk_bytes ≡ true = ground (arith, valid.0) in
    elim (Bool-cases (not (is_empty page.rows) && ltb byte_limit (page.bytes + row.1))) [
      | inl h ↦ rw fits (
          rw h (
            page,
            refl,
            ([], row ∷ rows, refl, refl, (λ e. ground (arith, h, e)), omega (arith, few)),
          ))
      | inr h ↦
          let next : Page = record {
            rows = row.0 ∷ page.rows;
            chunks = suc page.chunks;
            bytes = page.bytes + row.1;
          } in
          let (result, e, (listed, beyond, first, keys, _, small)) =
            page_chunks-Listing limit byte_limit rows next valid.1 (omega (arith, few)) in
          rw fits (
            rw h (
              rw e (
                result,
                refl,
                (row ∷ listed, beyond, ap (λ l. row ∷ l) first, keys, (λ a b. omega arith), small),
              )))
    ]

page-room :
    (rows : List ℕ) (chunks count limit : ℕ) (over_bytes : Bool)
    → 1 ≤ limit
    → 0 < count
    → length rows ≤ chunks
    → (not (is_empty rows) && (ltb limit (chunks + count) || over_bytes)) ≡ false
    → suc (length rows) ≤ limit
page-room [] chunks count limit over_bytes some_room some_chunks small h = omega (arith, some_room)
page-room (x ∷ rows) chunks count limit over_bytes some_room some_chunks small h =
    ground (arith, some_chunks, small, h)

-- A page of segments has no more rows than chunks, and no more chunks than the limit unless it is one
-- segment.
pub page_segments-Listing :
    (limit byte_limit : ℕ) (rows : List (ℕ × SegmentSize)) (page : Page)
    → 1 ≤ limit
    → All IsSegmentRow rows
    → length page.rows ≤ page.chunks
    → (length page.rows ≤ limit)
    → (result : Page) × (page_segments limit byte_limit page rows ≡ ok result)
      × Listing limit page rows result
unfolding page_segments
page_segments-Listing limit byte_limit [] page some_room valid small few =
    (page, refl, ([], [], refl, refl, (λ h e. e), few))
page_segments-Listing limit byte_limit (row ∷ rows) page some_room valid small few =
    let some_chunks : ltb 0 row.1.count ≡ true = ground (arith, valid.0) in
    let over = ltb limit (page.chunks + row.1.count) || ltb byte_limit (page.bytes + row.1.bytes) in
    elim (Bool-cases (not (is_empty page.rows) && over)) [
      | inl h ↦
          rw some_chunks
            (rw h (page, refl, ([], row ∷ rows, refl, refl, (λ e. ground (arith, h, e)), few)))
      | inr h ↦
          let next : Page = record {
            rows = row.0 ∷ page.rows;
            chunks = page.chunks + row.1.count;
            bytes = page.bytes + row.1.bytes;
          } in
          let (result, e, (listed, beyond, first, keys, _, still_few)) =
            page_segments-Listing limit byte_limit rows next some_room valid.1
              (omega (arith, small, valid.0))
              (page-room page.rows page.chunks row.1.count limit
                (ltb byte_limit (page.bytes + row.1.bytes)) some_room valid.0 small h) in
          rw some_chunks (
            rw h (
              rw e (
                result,
                refl,
                (
                  row ∷ listed,
                  beyond,
                  ap (λ l. row ∷ l) first,
                  keys,
                  (λ a b. omega arith),
                  still_few,
                ),
              )))
    ]
