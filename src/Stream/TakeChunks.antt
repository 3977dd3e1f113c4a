-- ===== src/Stream/TakeChunks.antt =====
-- The inner loop of a read over segments, on one segment after another
-- (`readSegmentRows` of `src/worker/durable-objects/StreamDO.ts`).
use world_celld.Common.{
  ℕ, zero, suc, ◌+◌, ◌-◌, ◌≤◌, ◌<◌, ◌≡◌, refl, ap, inl, inr, arith, Bool, true, false, ◌||◌, List,
  [], ◌∷◌, ◌++◌, length, ltb, leb, if◌then◌else◌, Bool-cases,
}
use world_celld.Stream.Bytes.{Bytes}
use world_celld.Stream.Segment.{total_bytes}
use world_celld.Stream.Cell.{ok}
use world_celld.Stream.Read.{drop, Taken, take_chunks, collect_segments}
use world_celld.Stream.Groups.{join, AllGroups, size_rows, drop-++}
use world_celld.Stream.Packing.{segment_survives}
use world_celld.Stream.ReadPlan.{head_group}
use world_celld.Stream.ReadCollect.{Loaded, IsPrefix}

pub drop-nil : (n : ℕ) → drop n [] ≡ []
drop-nil zero = refl
drop-nil (suc n) = refl

pub length-drop : (n : ℕ) (cs : List Bytes) → length (drop n cs) ≡ length cs - n
length-drop zero cs = omega arith
length-drop (suc n) [] = omega arith
length-drop (suc n) (c ∷ cs) = omega (arith, length-drop n cs)

expected-take_chunks :
    (end max_bytes b e : ℕ) (cs : List Bytes)
    → (take_chunks end max_bytes b e cs).stopped ≡ false
    → (take_chunks end max_bytes b e cs).expected ≡ e + length cs
unfolding take_chunks
expected-take_chunks end max_bytes b e [] h = omega arith
expected-take_chunks end max_bytes b e (c ∷ cs) h =
    ground (arith, h, expected-take_chunks end max_bytes (b + length c) (suc e) cs)

-- The loop on two lists of chunks is the loop on the second after the loop on the first.
abbrev then_take : (end max_bytes : ℕ) → Taken → List Bytes → List Bytes
then_take end max_bytes t cs =
    if t.stopped
    then t.taken
    else t.taken ++ (take_chunks end max_bytes t.bytes t.expected cs).taken

cons-if :
    (b : Bool) (c : Bytes) (x y : List Bytes)
    → (c ∷ (if b then x else y)) ≡ (if b then c ∷ x else c ∷ y)
cons-if true c x y = refl
cons-if false c x y = refl

take_chunks-++ :
    (end max_bytes b e : ℕ) (cs ds : List Bytes)
    → (take_chunks end max_bytes b e (cs ++ ds)).taken
      ≡ then_take end max_bytes (take_chunks end max_bytes b e cs) ds
unfolding take_chunks
take_chunks-++ end max_bytes b e [] ds = refl
take_chunks-++ end max_bytes b e (c ∷ cs) ds =
    elim (Bool-cases (leb end e || ltb max_bytes (b + length c))) [
      | inl h ↦ rw h refl
      | inr h ↦ rw h (
          let t = take_chunks end max_bytes (b + length c) (suc e) cs in
          rw (take_chunks-++ end max_bytes (b + length c) (suc e) cs ds) (
            cons-if t.stopped c t.taken
              (t.taken ++ (take_chunks end max_bytes t.bytes t.expected ds).taken)))
    ]

-- The chunks collected from segments are those that the loop takes from all their chunks.
pub collect_segments-take_chunks :
    (values : List (ℕ × Bytes)) (end max_bytes b e q : ℕ) (gs : List (List Bytes))
    → q ≤ e
    → e ≤ q + length (head_group gs)
    → AllGroups gs
    → Loaded values q gs
    → collect_segments values end max_bytes b e (size_rows q gs)
      ≡ ok ((take_chunks end max_bytes b e (drop (e - q) (join gs))).taken)
unfolding collect_segments
collect_segments-take_chunks values end max_bytes b e q [] hq inside h l =
    rw (drop-nil (e - q)) (unfold take_chunks in refl)
collect_segments-take_chunks values end max_bytes b e q (g ∷ gs) hq inside h l =
    let reached : leb q e ≡ true = ground (arith, hq) in
    let cut = drop (e - q) g in
    let t = take_chunks end max_bytes b e cut in
    rw reached (
      rw (l.0) (
        rw (segment_survives g h.1 h.2) (
          rw (drop-++ (e - q) g (join gs) (omega (arith, inside))) (
            rw (take_chunks-++ end max_bytes b e cut (join gs)) (elim (Bool-cases t.stopped) [
              | inl s ↦ rw s refl
              | inr s ↦
                  let reach : t.expected ≡ q + length g = omega (
                    arith,
                    expected-take_chunks end max_bytes b e cut s,
                    length-drop (e - q) g,
                    inside,
                    hq,
                  ) in
                  let zero_drop : q + length g - (q + length g) ≡ 0 = omega arith in
                  let ih =
                    collect_segments-take_chunks values end max_bytes t.bytes (q + length g)
                      (q + length g) gs (omega arith) (omega arith) h.3 l.1 in
                  rw s (rw reach (rw ih (rw zero_drop refl)))
            ])))))

-- What the loop takes is a start of its list, within the range and the bytes allowed; it takes a
-- chunk where there is room for one.
pub take_chunks-IsPrefix :
    (end max_bytes b e : ℕ) (cs : List Bytes) → IsPrefix (take_chunks end max_bytes b e cs).taken cs
unfolding take_chunks
take_chunks-IsPrefix end max_bytes b e [] = ([], refl)
take_chunks-IsPrefix end max_bytes b e (c ∷ cs) =
    elim (Bool-cases (leb end e || ltb max_bytes (b + length c))) [
      | inl h ↦ rw h (c ∷ cs, refl)
      | inr h ↦
          let (rest, ih) = take_chunks-IsPrefix end max_bytes (b + length c) (suc e) cs in
          rw h (rest, ap (λ l. c ∷ l) ih)
    ]

pub take_chunks-bounds :
    (end max_bytes b e : ℕ) (cs : List Bytes)
    → b ≤ max_bytes
    → let taken = (take_chunks end max_bytes b e cs).taken in
      (length taken ≤ end - e) × (b + total_bytes taken ≤ max_bytes)
unfolding take_chunks
take_chunks-bounds end max_bytes b e [] h = (omega arith, omega (arith, h))
take_chunks-bounds end max_bytes b e (c ∷ cs) h =
    elim (Bool-cases (leb end e || ltb max_bytes (b + length c))) [
      | inl s ↦ rw s (omega arith, omega (arith, h))
      | inr s ↦
          let ih = take_chunks-bounds end max_bytes (b + length c) (suc e) cs (ground (arith, s)) in
          rw s (ground (arith, s, ih.0), omega (arith, ih.1))
    ]

pub take_chunks-progress :
    (end max_bytes e : ℕ) (c : Bytes) (cs : List Bytes)
    → e < end
    → length c ≤ max_bytes
    → 0 < length (take_chunks end max_bytes 0 e (c ∷ cs)).taken
unfolding take_chunks
take_chunks-progress end max_bytes e c cs room fits =
    let goes : (leb end e || ltb max_bytes (0 + length c)) ≡ false = ground (arith, room, fits) in
    rw goes (omega arith)
