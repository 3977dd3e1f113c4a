-- ===== src/Stream/ReadCollect.antt =====
-- The loops of a read over segments: the coverage check, the selection, and the collection of chunks
-- (`readSegmentRows` of `src/worker/durable-objects/StreamDO.ts`).
use world_celld.Common.{
  ℕ, ◌+◌, ◌≤◌, ◌<◌, ◌≡◌, refl, sym, ap, ◌∙◌, inl, inr, arith, Bool, true, false, not, ◌&&◌, some,
  List, [], ◌∷◌, ◌++◌, length, ltb, leb, eqb, if◌then◌else◌, Bool-cases,
}
use world_celld.Stream.Bytes.{Bytes}
use world_celld.Stream.Segment.{segment_size, total_bytes, encode_segment}
use world_celld.Stream.Rows.{get_row}
use world_celld.Stream.Cell.{ok}
use world_celld.Stream.Read.{check_coverage, select_segments}
use world_celld.Stream.Groups.{join, AllGroups, size_rows, segment_rows, length-++, ++-assoc}
use world_celld.Stream.ReadPlan.{within, head_group}

coverage-rest :
    (c : ℕ) (gs : List (List Bytes))
    → AllGroups gs
    → check_coverage false c (size_rows c gs) ≡ ok (c + length (join gs))
unfolding check_coverage
coverage-rest c [] h = ap ok (omega arith)
coverage-rest c (g ∷ gs) h =
    let reached : leb c c ≡ true = ground arith in
    let next : eqb c c ≡ true = ground arith in
    let more : ltb c (c + length g) ≡ true = ground (arith, h.0) in
    let sum : c + length g + length (join gs) ≡ c + length (g ++ join gs) =
      omega (arith, length-++ g (join gs)) in
    rw reached (rw next (rw more (coverage-rest (c + length g) gs h.3 ∙ ap ok sum)))

pub coverage-first :
    (start q : ℕ) (hs : List (List Bytes))
    → q ≤ start
    → start < q + length (head_group hs)
    → AllGroups hs
    → check_coverage true start (size_rows q hs) ≡ ok (q + length (join hs))
unfolding check_coverage
coverage-first start q [] hq inside h = ground (arith, hq, inside)
coverage-first start q (g ∷ gs) hq inside h =
    let reached : leb q start ≡ true = ground (arith, hq) in
    let more : ltb start (q + length g) ≡ true = ground (arith, inside) in
    let sum : q + length g + length (join gs) ≡ q + length (g ++ join gs) =
      omega (arith, length-++ g (join gs)) in
    rw reached (rw more (coverage-rest (q + length g) gs h.3 ∙ ap ok sum))

-- One list of chunks is the start of another.
abbrev pub IsPrefix : List Bytes → List Bytes → Type 0
IsPrefix a b = (rest : List Bytes) × (a ++ rest ≡ b)

IsPrefix-under : (c a b : List Bytes) → IsPrefix a b → IsPrefix (c ++ a) (c ++ b)
IsPrefix-under c a b (rest, e) = (rest, ++-assoc c a rest ∙ ap (λ l. c ++ l) e)

pub IsPrefix-trans : (a b c : List Bytes) → IsPrefix a b → IsPrefix b c → IsPrefix a c
IsPrefix-trans a b c (r, e) (s, f) = (r ++ s, sym (++-assoc a r s) ∙ ap (λ l. l ++ s) e ∙ f)

pub within-IsPrefix :
    (end p : ℕ) (gs : List (List Bytes)) → IsPrefix (join (within end p gs)) (join gs)
unfolding within
within-IsPrefix end p [] = ([], refl)
within-IsPrefix end p (g ∷ gs) = elim (Bool-cases (ltb p end)) [
  | inl e ↦ rw e (
      IsPrefix-under g (join (within end (p + length g) gs)) (join gs)
        (within-IsPrefix end (p + length g) gs))
  | inr e ↦ rw e (g ++ join gs, refl)
]

pub within-covers :
    (end p : ℕ) (gs : List (List Bytes))
    → end ≤ p + length (join gs)
    → end ≤ p + length (join (within end p gs))
unfolding within
within-covers end p [] h = h
within-covers end p (g ∷ gs) h = elim (Bool-cases (ltb p end)) [
  | inl e ↦ rw e (
      omega (
        arith,
        length-++ g (join gs),
        length-++ g (join (within end (p + length g) gs)),
        within-covers end (p + length g) gs (omega (arith, h, length-++ g (join gs))),
      ))
  | inr e ↦ rw e (ground (arith, e))
]

-- The groups of the segments that are selected.
unfoldable pub select_groups : Bool → (bytes max_bytes : ℕ) → List (List Bytes) → List (List Bytes)
select_groups first bytes max_bytes [] = []
select_groups first bytes max_bytes (g ∷ gs) =
    let rest = select_groups false (bytes + total_bytes g) max_bytes gs in
    if not first && leb max_bytes bytes then [] else g ∷ rest

pub select_segments-groups :
    (first : Bool) (bytes max_bytes q : ℕ) (gs : List (List Bytes))
    → select_segments first bytes max_bytes (size_rows q gs)
      ≡ size_rows q (select_groups first bytes max_bytes gs)
unfolding select_segments select_groups
select_segments-groups first bytes max_bytes q [] = refl
select_segments-groups first bytes max_bytes q (g ∷ gs) =
    elim (Bool-cases (not first && leb max_bytes bytes)) [
      | inl e ↦ rw e refl
      | inr e ↦ rw e (
          ap (λ l. (q, segment_size g) ∷ l)
            (select_segments-groups false (bytes + total_bytes g) max_bytes (q + length g) gs))
    ]

pub select_groups-IsPrefix :
    (first : Bool) (bytes max_bytes : ℕ) (gs : List (List Bytes))
    → IsPrefix (join (select_groups first bytes max_bytes gs)) (join gs)
unfolding select_groups
select_groups-IsPrefix first bytes max_bytes [] = ([], refl)
select_groups-IsPrefix first bytes max_bytes (g ∷ gs) =
    elim (Bool-cases (not first && leb max_bytes bytes)) [
      | inl e ↦ rw e (g ++ join gs, refl)
      | inr e ↦ rw e (
          IsPrefix-under g (join (select_groups false (bytes + total_bytes g) max_bytes gs))
            (join gs) (select_groups-IsPrefix false (bytes + total_bytes g) max_bytes gs))
    ]

-- The rows of the groups are among the stored ones.
abbrev pub Loaded : List (ℕ × Bytes) → ℕ → List (List Bytes) → Type 0
Loaded rows q [] = Unit
Loaded rows q (g ∷ gs) = (get_row q rows ≡ some (encode_segment g)) × Loaded rows (q + length g) gs

Loaded-cons :
    (k : ℕ) (v : Bytes) (rows : List (ℕ × Bytes)) (q : ℕ) (gs : List (List Bytes))
    → k < q
    → Loaded rows q gs
    → Loaded ((k, v) ∷ rows) q gs
unfolding get_row
Loaded-cons k v rows q [] h l = tt
Loaded-cons k v rows q (g ∷ gs) h l =
    let other : eqb q k ≡ false = ground (arith, h) in
    (rw other l.0, Loaded-cons k v rows (q + length g) gs (omega (arith, h)) l.1)

pub segment_rows-Loaded :
    (p : ℕ) (gs : List (List Bytes)) → AllGroups gs → Loaded (segment_rows p gs) p gs
unfolding get_row
segment_rows-Loaded p [] h = tt
segment_rows-Loaded p (g ∷ gs) h =
    let same : eqb p p ≡ true = ground arith in
    (
      rw same refl,
      Loaded-cons p (encode_segment g) (segment_rows (p + length g) gs) (p + length g) gs
          (omega (arith, h.0)) (segment_rows-Loaded (p + length g) gs h.3),
    )

pub within-Loaded :
    (rows : List (ℕ × Bytes)) (end p : ℕ) (gs : List (List Bytes))
    → Loaded rows p gs
    → Loaded rows p (within end p gs)
unfolding within
within-Loaded rows end p [] l = tt
within-Loaded rows end p (g ∷ gs) l = elim (Bool-cases (ltb p end)) [
  | inl e ↦ rw e (l.0, within-Loaded rows end (p + length g) gs l.1)
  | inr e ↦ rw e tt
]

pub select_groups-Loaded :
    (rows : List (ℕ × Bytes)) (first : Bool) (bytes max_bytes p : ℕ) (gs : List (List Bytes))
    → Loaded rows p gs
    → Loaded rows p (select_groups first bytes max_bytes gs)
unfolding select_groups
select_groups-Loaded rows first bytes max_bytes p [] l = tt
select_groups-Loaded rows first bytes max_bytes p (g ∷ gs) l =
    elim (Bool-cases (not first && leb max_bytes bytes)) [
      | inl e ↦ rw e tt
      | inr e ↦ rw e (
        l.0,
        select_groups-Loaded rows false (bytes + total_bytes g) max_bytes (p + length g) gs l.1,
      )
    ]

pub select_groups-AllGroups :
    (first : Bool) (bytes max_bytes : ℕ) (gs : List (List Bytes))
    → AllGroups gs
    → AllGroups (select_groups first bytes max_bytes gs)
unfolding select_groups
select_groups-AllGroups first bytes max_bytes [] h = tt
select_groups-AllGroups first bytes max_bytes (g ∷ gs) h =
    elim (Bool-cases (not first && leb max_bytes bytes)) [
      | inl e ↦ rw e tt
      | inr e ↦
          rw e
            (h.0, h.1, h.2, select_groups-AllGroups false (bytes + total_bytes g) max_bytes gs h.3)
    ]
