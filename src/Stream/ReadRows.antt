-- ===== src/Stream/ReadRows.antt =====
-- A read over rows of one chunk each gives chunks of the stream from its start on
-- (`readChunkRows` of `src/worker/durable-objects/StreamDO.ts`).
use mathlib.Core.Path.{subst}
use world_celld.Common.{
  ℕ, zero, suc, ◌+◌, ◌≤◌, ◌<◌, ◌≡◌, refl, sym, inl, inr, arith, true, false, some, List, [], ◌∷◌,
  ◌++◌, length, ltb, leb, eqb, Bool-cases,
}
use world_celld.Stream.Bytes.{Bytes}
use world_celld.Stream.Protocol.{max_stream_chunk_bytes}
use world_celld.Stream.Rows.{get_row}
use world_celld.Stream.Cell.{ok, StreamStorage}
use world_celld.Stream.Read.{drop, take_chunks, select_chunks, load_chunks, read_chunk_rows}
use world_celld.Stream.Packing.{AllSmall}
use world_celld.Stream.TakeChunks.{length-drop, take_chunks-IsPrefix, take_chunks-bounds}
use world_celld.Stream.ReadSegments.{IsRead, AllSmall-drop, taken-some}

abbrev pub chunk_size_rows : ℕ → List Bytes → List (ℕ × ℕ)
chunk_size_rows i [] = []
chunk_size_rows i (c ∷ cs) = (i, length c) ∷ chunk_size_rows (suc i) cs

abbrev pub chunk_rows : ℕ → List Bytes → List (ℕ × Bytes)
chunk_rows i [] = []
chunk_rows i (c ∷ cs) = (i, c) ∷ chunk_rows (suc i) cs

-- The rows of the chunks are among the stored ones.
abbrev HasSizes : List (ℕ × ℕ) → ℕ → List Bytes → Type 0
HasSizes rows i [] = Unit
HasSizes rows i (c ∷ cs) = (get_row i rows ≡ some (length c)) × HasSizes rows (suc i) cs

abbrev HasChunks : List (ℕ × Bytes) → ℕ → List Bytes → Type 0
HasChunks rows i [] = Unit
HasChunks rows i (c ∷ cs) = (get_row i rows ≡ some c) × HasChunks rows (suc i) cs

HasSizes-cons :
    (k v : ℕ) (rows : List (ℕ × ℕ)) (i : ℕ) (cs : List Bytes)
    → k < i
    → HasSizes rows i cs
    → HasSizes ((k, v) ∷ rows) i cs
unfolding get_row
HasSizes-cons k v rows i [] h l = tt
HasSizes-cons k v rows i (c ∷ cs) h l =
    let other : eqb i k ≡ false = ground (arith, h) in
    (rw other l.0, HasSizes-cons k v rows (suc i) cs (omega (arith, h)) l.1)

HasChunks-cons :
    (k : ℕ) (v : Bytes) (rows : List (ℕ × Bytes)) (i : ℕ) (cs : List Bytes)
    → k < i
    → HasChunks rows i cs
    → HasChunks ((k, v) ∷ rows) i cs
unfolding get_row
HasChunks-cons k v rows i [] h l = tt
HasChunks-cons k v rows i (c ∷ cs) h l =
    let other : eqb i k ≡ false = ground (arith, h) in
    (rw other l.0, HasChunks-cons k v rows (suc i) cs (omega (arith, h)) l.1)

chunk_size_rows-HasSizes : (i : ℕ) (cs : List Bytes) → HasSizes (chunk_size_rows i cs) i cs
unfolding get_row
chunk_size_rows-HasSizes i [] = tt
chunk_size_rows-HasSizes i (c ∷ cs) =
    let same : eqb i i ≡ true = ground arith in
    (
      rw same refl,
      HasSizes-cons i (length c) (chunk_size_rows (suc i) cs) (suc i) cs (omega arith)
          (chunk_size_rows-HasSizes (suc i) cs),
    )

chunk_rows-HasChunks : (i : ℕ) (cs : List Bytes) → HasChunks (chunk_rows i cs) i cs
unfolding get_row
chunk_rows-HasChunks i [] = tt
chunk_rows-HasChunks i (c ∷ cs) =
    let same : eqb i i ≡ true = ground arith in
    (
      rw same refl,
      HasChunks-cons i c (chunk_rows (suc i) cs) (suc i) cs (omega arith)
          (chunk_rows-HasChunks (suc i) cs),
    )

HasSizes-drop :
    (rows : List (ℕ × ℕ)) (i n : ℕ) (cs : List Bytes)
    → HasSizes rows i cs
    → HasSizes rows (i + n) (drop n cs)
HasSizes-drop rows i zero cs h = subst (λ (k : ℕ). HasSizes rows k cs) (omega arith) h
HasSizes-drop rows i (suc n) [] h = tt
HasSizes-drop rows i (suc n) (c ∷ cs) h =
    subst (λ (k : ℕ). HasSizes rows k (drop n cs)) (omega arith)
      (HasSizes-drop rows (suc i) n cs h.1)

HasChunks-drop :
    (rows : List (ℕ × Bytes)) (i n : ℕ) (cs : List Bytes)
    → HasChunks rows i cs
    → HasChunks rows (i + n) (drop n cs)
HasChunks-drop rows i zero cs h = subst (λ (k : ℕ). HasChunks rows k cs) (omega arith) h
HasChunks-drop rows i (suc n) [] h = tt
HasChunks-drop rows i (suc n) (c ∷ cs) h =
    subst (λ (k : ℕ). HasChunks rows k (drop n cs)) (omega arith)
      (HasChunks-drop rows (suc i) n cs h.1)

select_chunks-take_chunks :
    (sizes : List (ℕ × ℕ)) (i n bytes max_bytes end : ℕ) (cs : List Bytes)
    → end ≡ i + n
    → HasSizes sizes i cs
    → AllSmall cs
    → n ≤ length cs
    → select_chunks sizes i n bytes max_bytes
      ≡ ok (chunk_size_rows i (take_chunks end max_bytes bytes i cs).taken)
unfolding select_chunks take_chunks
select_chunks-take_chunks sizes i zero bytes max_bytes end [] he has small few = refl
select_chunks-take_chunks sizes i zero bytes max_bytes end (c ∷ cs) he has small few =
    let at_end : leb end i ≡ true = ground (arith, he) in rw at_end refl
select_chunks-take_chunks sizes i (suc n) bytes max_bytes end [] he has small few =
    ground (arith, few)
select_chunks-take_chunks sizes i (suc n) bytes max_bytes end (c ∷ cs) he has small few =
    let valid : leb (length c) max_stream_chunk_bytes ≡ true = ground (arith, small.0) in
    let room : leb end i ≡ false = ground (arith, he) in
    let ih =
      select_chunks-take_chunks sizes (suc i) n (bytes + length c) max_bytes end cs
        (omega (arith, he)) has.1 small.1 (omega (arith, few)) in
    elim (Bool-cases (ltb max_bytes (bytes + length c))) [
      | inl e ↦ rw (has.0) (rw valid (rw room (rw e refl)))
      | inr e ↦ rw (has.0) (rw valid (rw room (rw e (rw ih refl))))
    ]

HasChunks-left :
    (rows : List (ℕ × Bytes)) (i : ℕ) (cs ds : List Bytes)
    → HasChunks rows i (cs ++ ds)
    → HasChunks rows i cs
HasChunks-left rows i [] ds h = tt
HasChunks-left rows i (c ∷ cs) ds h = (h.0, HasChunks-left rows (suc i) cs ds h.1)

load_chunks-rows :
    (rows : List (ℕ × Bytes)) (i : ℕ) (cs : List Bytes)
    → HasChunks rows i cs
    → load_chunks rows (chunk_size_rows i cs) ≡ ok cs
unfolding load_chunks
load_chunks-rows rows i [] has = refl
load_chunks-rows rows i (c ∷ cs) has =
    let same : eqb (length c) (length c) ≡ true = ground arith in
    rw (has.0) (rw same (rw (load_chunks-rows rows (suc i) cs has.1) refl))

pub read_chunk_rows-IsRead :
    (storage : StreamStorage) (log : List Bytes) (start available max_bytes : ℕ)
    → storage.chunk_sizes ≡ chunk_size_rows 0 log
    → storage.chunks ≡ chunk_rows 0 log
    → AllSmall log
    → 0 < available
    → start + available ≤ length log
    → max_stream_chunk_bytes ≤ max_bytes
    → (chunks : List Bytes) × (read_chunk_rows storage start available max_bytes ≡ ok chunks)
      × IsRead log start available max_bytes chunks
unfolding read_chunk_rows
read_chunk_rows-IsRead storage log start available max_bytes sizes rows small wanted inside enough =
    let end = start + available in
    let rest = drop start log in
    let chunks = (take_chunks end max_bytes 0 start rest).taken in
    let long = length-drop start log in
    let prefix = take_chunks-IsPrefix end max_bytes 0 start rest in
    let bounds = take_chunks-bounds end max_bytes 0 start rest (omega arith) in
    let from_start : 0 + start ≡ start = omega arith in
    let has_sizes : HasSizes (chunk_size_rows 0 log) start rest =
      subst (λ (k : ℕ). HasSizes (chunk_size_rows 0 log) k rest) (from_start)
        (HasSizes-drop (chunk_size_rows 0 log) 0 start log (chunk_size_rows-HasSizes 0 log)) in
    let has_chunks : HasChunks (chunk_rows 0 log) start rest =
      subst (λ (k : ℕ). HasChunks (chunk_rows 0 log) k rest) (from_start)
        (HasChunks-drop (chunk_rows 0 log) 0 start log (chunk_rows-HasChunks 0 log)) in
    let has_taken : HasChunks (chunk_rows 0 log) start chunks =
      HasChunks-left (chunk_rows 0 log) start chunks prefix.0 (
        subst (λ (l : List Bytes). HasChunks (chunk_rows 0 log) start l) (sym prefix.1)
          has_chunks) in
    (
      chunks,
      rw sizes (
          rw
            (select_chunks-take_chunks (chunk_size_rows 0 log) start available 0 max_bytes end rest
              refl has_sizes (AllSmall-drop start log small) (omega (arith, long, inside)))
            (rw rows (load_chunks-rows (chunk_rows 0 log) start chunks has_taken))),
      record {
        in_order = prefix;
        in_range = omega (arith, bounds.0);
        in_budget = omega (arith, bounds.1);
        progress =
            taken-some end max_bytes start rest (omega (arith, wanted)) enough
              (AllSmall-drop start log small) (omega (arith, long, inside, wanted));
      },
    )
