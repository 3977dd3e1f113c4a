-- ===== src/Stream/ReadPlan.antt =====
-- The plan of a read over segments: `plan_segments` and the coverage check find the segments of the
-- range (`readSegmentRows` of `src/worker/durable-objects/StreamDO.ts`).
use world_celld.Common.{
  ℕ, suc, ◌+◌, ◌-◌, ◌≤◌, ◌<◌, ◌≡◌, refl, ◌∙◌, inl, inr, arith, true, false, ◌&&◌, none, some, List,
  [], ◌∷◌, length, take, ltb, leb, eqb, if◌then◌else◌, Bool-cases,
}
use world_celld.Stream.Bytes.{Bytes}
use world_celld.Stream.Segment.{segment_size}
use world_celld.Stream.Rows.{rows_between, last_below}
use world_celld.Stream.Cell.{ok}
use world_celld.Stream.Read.{validate_segment_sizes, starts_at, plan_segments, containing_segment}
use world_celld.Stream.Groups.{join, AllGroups, size_rows, length-++, take-all}

-- The groups that start before `end`, of those from position `p` on.
unfoldable pub within : (end p : ℕ) → List (List Bytes) → List (List Bytes)
within end p [] = []
within end p (g ∷ gs) =
    let rest = within end (p + length g) gs in if ltb p end then g ∷ rest else []

between-none :
    (start end p : ℕ) (gs : List (List Bytes))
    → end ≤ p
    → rows_between start end (size_rows p gs) ≡ []
unfolding rows_between
between-none start end p [] h = refl
between-none start end p (g ∷ gs) h =
    let out : (leb start p && ltb p end) ≡ false = ground (arith, h) in
    rw out (between-none start end (p + length g) gs (omega (arith, h)))

between-within :
    (start end p : ℕ) (gs : List (List Bytes))
    → start ≤ p
    → rows_between start end (size_rows p gs) ≡ size_rows p (within end p gs)
unfolding rows_between within
between-within start end p [] h = refl
between-within start end p (g ∷ gs) h =
    let after : leb start p ≡ true = ground (arith, h) in
    elim (Bool-cases (ltb p end)) [
      | inl e ↦
          rw after (rw e (rw (between-within start end (p + length g) gs (omega (arith, h))) refl))
      | inr e ↦ rw after (rw e (between-none start end (p + length g) gs (ground (arith, e))))
    ]

pub within-AllGroups :
    (end p : ℕ) (gs : List (List Bytes)) → AllGroups gs → AllGroups (within end p gs)
unfolding within
within-AllGroups end p [] h = tt
within-AllGroups end p (g ∷ gs) h = elim (Bool-cases (ltb p end)) [
  | inl e ↦ rw e (h.0, h.1, h.2, within-AllGroups end (p + length g) gs h.3)
  | inr e ↦ rw e tt
]

length-within :
    (end p : ℕ) (gs : List (List Bytes))
    → AllGroups gs
    → length (size_rows p (within end p gs)) ≤ end - p
unfolding within
length-within end p [] h = omega arith
length-within end p (g ∷ gs) h = ground (arith, h.0, length-within end (p + length g) gs h.3)

validate-size_rows :
    (p : ℕ) (gs : List (List Bytes))
    → AllGroups gs
    → validate_segment_sizes (size_rows p gs) ≡ ok (size_rows p gs)
unfolding validate_segment_sizes
validate-size_rows p [] h = refl
validate-size_rows p (g ∷ gs) h =
    let some_chunks : ltb 0 (length g) ≡ true = ground (arith, h.0) in
    rw some_chunks (rw (validate-size_rows (p + length g) gs h.3) refl)

-- The segments of a range that starts where the rows do.
listed-within :
    (start available p : ℕ) (gs : List (List Bytes))
    → AllGroups gs
    → start ≤ p
    → validate_segment_sizes
        (take available (rows_between start (start + available) (size_rows p gs)))
      ≡ ok (size_rows p (within (start + available) p gs))
listed-within start available p gs h hp =
    let end = start + available in
    rw (between-within start end p gs hp) (
      rw
        (take-all available (size_rows p (within end p gs))
          (omega (arith, hp, length-within end p gs h)))
        (validate-size_rows p (within end p gs) (within-AllGroups end p gs h)))

-- The group that contains an index, with its position and the groups after it.
unfoldable pub locate : (start p : ℕ) → List (List Bytes) → ℕ × List (List Bytes)
locate start p [] = (p, [])
locate start p (g ∷ gs) =
    let rest = locate start (p + length g) gs in
    if leb (p + length g) start then rest else (p, g ∷ gs)

abbrev pub head_group : List (List Bytes) → List Bytes
head_group [] = []
head_group (g ∷ gs) = g

last_below-none :
    (end p : ℕ) (gs : List (List Bytes)) → end ≤ p → last_below end (size_rows p gs) ≡ none
unfolding last_below
last_below-none end p [] h = refl
last_below-none end p (g ∷ gs) h =
    let out : ltb p end ≡ false = ground (arith, h) in
    rw (last_below-none end (p + length g) gs (omega (arith, h))) (rw out refl)

last_below-locate :
    (start p : ℕ) (gs : List (List Bytes))
    → p ≤ start
    → start < p + length (join gs)
    → last_below (suc start) (size_rows p gs)
      ≡ some ((locate start p gs).0, segment_size (head_group (locate start p gs).1))
unfolding last_below locate
last_below-locate start p [] hp hs = ground (arith, hp, hs)
last_below-locate start p (g ∷ gs) hp hs = elim (Bool-cases (leb (p + length g) start)) [
  | inl e ↦ rw e (
      rw
        (last_below-locate start (p + length g) gs (ground (arith, e))
          (omega (arith, hs, length-++ g (join gs))))
        refl)
  | inr e ↦
      let here : ltb p (suc start) ≡ true = ground (arith, hp) in
      rw e (rw (last_below-none (suc start) (p + length g) gs (ground (arith, e))) (rw here refl))
]

starts_at-later :
    (start end p : ℕ) (gs : List (List Bytes))
    → start < p
    → starts_at start (size_rows p (within end p gs)) ≡ false
unfolding within
starts_at-later start end p [] h = refl
starts_at-later start end p (g ∷ gs) h = ground (arith, h)

-- The plan is the same without a first segment that ends before the read starts.
plan_segments-skip :
    (start available p : ℕ) (g : List Bytes) (gs : List (List Bytes))
    → p + length g ≤ start
    → 0 < length g
    → start < p + length g + length (join gs)
    → plan_segments (size_rows p (g ∷ gs)) start available
      ≡ plan_segments (size_rows (p + length g) gs) start available
unfolding plan_segments containing_segment rows_between last_below
plan_segments-skip start available p g gs past some_chunks inside =
    let before : leb start p ≡ false = ground (arith, past, some_chunks) in
    rw before (rw (last_below-locate start (p + length g) gs past inside) refl)

-- The plan where the first segment contains the start of the read.
plan_segments-here :
    (start available p : ℕ) (g : List Bytes) (gs : List (List Bytes))
    → p ≤ start
    → start < p + length g
    → 0 < available
    → AllGroups (g ∷ gs)
    → plan_segments (size_rows p (g ∷ gs)) start available
      ≡ ok (size_rows p (within (start + available) p (g ∷ gs)))
unfolding plan_segments containing_segment
plan_segments-here start available p g gs hp inside some_wanted h =
    let end = start + available in
    let p_in : ltb p end ≡ true = ground (arith, hp, some_wanted) in
    elim (Bool-cases (eqb p start)) [
      | inl e ↦
          rw (listed-within start available p (g ∷ gs) h (ground (arith, e)))
            (unfold within in rw p_in (rw e refl))
      | inr e ↦
          let before : leb start p ≡ false = ground (arith, e, hp) in
          let first : ltb p (suc start) ≡ true = ground (arith, hp) in
          let some_chunks : ltb 0 (length g) ≡ true = ground (arith, h.0) in
          unfold rows_between last_below within in
          rw before (
            rw (listed-within start available (p + length g) gs h.3 (omega (arith, inside))) (
              rw (starts_at-later start end (p + length g) gs inside) (
                rw (last_below-none (suc start) (p + length g) gs (omega (arith, inside)))
                  (rw first (rw some_chunks (rw p_in refl))))))
    ]

pub plan_segments-locate :
    (start available p : ℕ) (gs : List (List Bytes))
    → p ≤ start
    → start + available ≤ p + length (join gs)
    → 0 < available
    → AllGroups gs
    → let (q, hs) = locate start p gs in
      plan_segments (size_rows p gs) start available
      ≡ ok (size_rows q (within (start + available) q hs))
unfolding locate
plan_segments-locate start available p [] hp hs some_wanted h = ground (arith, hp, hs, some_wanted)
plan_segments-locate start available p (g ∷ gs) hp hs some_wanted h =
    elim (Bool-cases (leb (p + length g) start)) [
      | inl e ↦
          let past : p + length g ≤ start = ground (arith, e) in
          rw e (
            plan_segments-skip start available p g gs past h.0
              (omega (arith, hs, some_wanted, length-++ g (join gs)))
            ∙ plan_segments-locate start available (p + length g) gs past
                (omega (arith, hs, length-++ g (join gs))) some_wanted h.3)
      | inr e ↦
          rw e (plan_segments-here start available p g gs hp (ground (arith, e)) some_wanted h)
    ]
