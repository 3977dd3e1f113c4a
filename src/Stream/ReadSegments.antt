-- ===== src/Stream/ReadSegments.antt =====
-- A read over segments gives chunks of the stream from its start on
-- (`readSegmentRows` of `src/worker/durable-objects/StreamDO.ts`).
use mathlib.Core.Path.{subst}
use world_celld.Common.{
  ℕ, zero, suc, ◌+◌, ◌-◌, ◌≤◌, ◌<◌, ◌≡◌, refl, sym, ap, ◌∙◌, inl, inr, arith, true, false, List, [],
  ◌∷◌, ◌++◌, length, ltb, leb, Bool-cases,
}
use world_celld.Stream.Bytes.{Bytes}
use world_celld.Stream.Protocol.{max_stream_chunk_bytes}
use world_celld.Stream.Segment.{total_bytes}
use world_celld.Stream.Cell.{ok, StreamStorage}
use world_celld.Stream.Read.{drop, take_chunks, collect_segments, read_segment_rows}
use world_celld.Stream.Groups.{
  join, AllGroups, size_rows, segment_rows, length-++, drop-++, drop_past,
}
use world_celld.Stream.Packing.{AllSmall}
use world_celld.Stream.ReadPlan.{within, within-AllGroups, locate, head_group, plan_segments-locate}
use world_celld.Stream.ReadCollect.{
  IsPrefix, IsPrefix-trans, Loaded, coverage-first, within-IsPrefix, within-covers, select_groups,
  select_segments-groups, select_groups-IsPrefix, segment_rows-Loaded, within-Loaded,
  select_groups-Loaded, select_groups-AllGroups,
}
use world_celld.Stream.TakeChunks.{
  length-drop, collect_segments-take_chunks, take_chunks-IsPrefix, take_chunks-bounds,
  take_chunks-progress,
}

-- Chunks of a log from `start` on: some of the next ones, in order, within the limits of the read.
pub record IsRead (log : List Bytes) (start available max_bytes : ℕ) (chunks : List Bytes)
    : Type 0 where
  pub in_order : IsPrefix chunks (drop start log)
  pub in_range : length chunks ≤ available
  pub in_budget : total_bytes chunks ≤ max_bytes
  pub progress : 0 < length chunks

-- What holds of the group that contains the start of a read, and of the groups after it.
record IsLocated (rows : List (ℕ × Bytes)) (start p : ℕ) (gs : List (List Bytes)) (q : ℕ)
    (hs : List (List Bytes)) : Type 0 where
  at_most : q ≤ start
  inside : start < q + length (head_group hs)
  all : AllGroups hs
  loaded : Loaded rows q hs
  same_end : q + length (join hs) ≡ p + length (join gs)
  same_rest : drop (start - q) (join hs) ≡ drop (start - p) (join gs)

locate-IsLocated :
    (rows : List (ℕ × Bytes)) (start p : ℕ) (gs : List (List Bytes))
    → p ≤ start
    → start < p + length (join gs)
    → AllGroups gs
    → Loaded rows p gs
    → IsLocated rows start p gs (locate start p gs).0 (locate start p gs).1
unfolding locate
locate-IsLocated rows start p [] hp hs h l = ground (arith, hp, hs)
locate-IsLocated rows start p (g ∷ gs) hp hs h l = elim (Bool-cases (leb (p + length g) start)) [
  | inl e ↦
      let past : p + length g ≤ start = ground (arith, e) in
      let ih =
        locate-IsLocated rows start (p + length g) gs past
          (omega (arith, hs, length-++ g (join gs))) h.3 l.1 in
      let shift : start - p ≡ length g + (start - (p + length g)) = omega (arith, past) in
      rw e (record {
        at_most = ih.at_most;
        inside = ih.inside;
        all = ih.all;
        loaded = ih.loaded;
        same_end = omega (arith, ih.same_end, length-++ g (join gs));
        same_rest =
            ih.same_rest
            ∙ sym (drop_past (start - (p + length g)) g (join gs))
            ∙ ap (λ n. drop n (g ++ join gs)) (sym shift);
      })
  | inr e ↦ rw e (record {
    at_most = hp;
    inside = ground (arith, e);
    all = h;
    loaded = l;
    same_end = refl;
    same_rest = refl;
  })
]

IsPrefix-drop :
    (n : ℕ) (a b : List Bytes) → n ≤ length a → IsPrefix a b → IsPrefix (drop n a) (drop n b)
IsPrefix-drop n a b h (rest, e) = (rest, sym (drop-++ n a rest h) ∙ ap (λ l. drop n l) e)

pub AllSmall-drop : (n : ℕ) (a : List Bytes) → AllSmall a → AllSmall (drop n a)
AllSmall-drop zero a h = h
AllSmall-drop (suc n) [] h = tt
AllSmall-drop (suc n) (c ∷ a) h = AllSmall-drop n a h.1

AllSmall-IsPrefix : (a b : List Bytes) → IsPrefix a b → AllSmall b → AllSmall a
AllSmall-IsPrefix a b (rest, e) h = AllSmall-left a rest (subst AllSmall (sym e) h)
  where
    AllSmall-left : (x y : List Bytes) → AllSmall (x ++ y) → AllSmall x
    AllSmall-left [] y k = tt
    AllSmall-left (c ∷ x) y k = (k.0, AllSmall-left x y k.1)

pub taken-some :
    (end max_bytes e : ℕ) (cs : List Bytes)
    → e < end
    → max_stream_chunk_bytes ≤ max_bytes
    → AllSmall cs
    → 0 < length cs
    → 0 < length (take_chunks end max_bytes 0 e cs).taken
taken-some end max_bytes e [] room enough small more = ground (arith, more)
taken-some end max_bytes e (c ∷ cs) room enough small more =
    take_chunks-progress end max_bytes e c cs room (omega (arith, small.0, enough))

head_group-select :
    (end max_bytes q : ℕ) (hs : List (List Bytes))
    → q < end
    → length (head_group hs) ≤ length (join (select_groups true 0 max_bytes (within end q hs)))
unfolding select_groups within
head_group-select end max_bytes q [] h = omega arith
head_group-select end max_bytes q (g ∷ hs) h =
    let here : ltb q end ≡ true = ground (arith, h) in
    rw here (
      omega (
        arith,
        length-++ g (
            join
              (select_groups false (0 + total_bytes g) max_bytes (within end (q + length g) hs))),
      ))

head_group-kept :
    (end max_bytes q : ℕ) (hs : List (List Bytes))
    → q < end
    → head_group (select_groups true 0 max_bytes (within end q hs)) ≡ head_group hs
unfolding select_groups within
head_group-kept end max_bytes q [] h = refl
head_group-kept end max_bytes q (g ∷ hs) h =
    let here : ltb q end ≡ true = ground (arith, h) in rw here refl

head_group-within :
    (end q : ℕ) (hs : List (List Bytes)) → q < end → head_group (within end q hs) ≡ head_group hs
unfolding within
head_group-within end q [] h = refl
head_group-within end q (g ∷ hs) h = let here : ltb q end ≡ true = ground (arith, h) in rw here refl

-- What the last loop of a read collects from the segments that are located.
collected :
    (rows : List (ℕ × Bytes)) (start available max_bytes p : ℕ) (gs : List (List Bytes)) (q : ℕ)
    (hs : List (List Bytes))
    → IsLocated rows start p gs q hs
    → 0 < available
    → max_stream_chunk_bytes ≤ max_bytes
    → AllSmall (drop (start - p) (join gs))
    → let end = start + available in
      let selected = select_groups true 0 max_bytes (within end q hs) in
      let t = take_chunks end max_bytes 0 start (drop (start - q) (join selected)) in
      (collect_segments rows end max_bytes 0 start (size_rows q selected) ≡ ok t.taken)
      × IsPrefix t.taken (drop (start - p) (join gs))
      × (length t.taken ≤ available)
      × (total_bytes t.taken ≤ max_bytes)
      × (0 < length t.taken)
collected rows start available max_bytes p gs q hs at wanted enough small_rest =
    let end = start + available in
    let inner = within end q hs in
    let selected = select_groups true 0 max_bytes inner in
    let rest = drop (start - q) (join selected) in
    let head_kept = head_group-select end max_bytes q hs (omega (arith, at.at_most, wanted)) in
    let kept = head_group-kept end max_bytes q hs (omega (arith, at.at_most, wanted)) in
    let prefix : IsPrefix (join selected) (join hs) =
      IsPrefix-trans (join selected) (join inner) (join hs)
        (select_groups-IsPrefix true 0 max_bytes inner) (within-IsPrefix end q hs) in
    let rest_prefix : IsPrefix rest (drop (start - p) (join gs)) =
      subst (λ (l : List Bytes). IsPrefix rest l) (at.same_rest)
        (IsPrefix-drop (start - q) (join selected) (join hs) (omega (arith, at.inside, head_kept))
          prefix) in
    let bounds = take_chunks-bounds end max_bytes 0 start rest (omega arith) in
    (
      collect_segments-take_chunks rows end max_bytes 0 start q selected at.at_most
          (omega (arith, at.inside, ap length kept))
          (select_groups-AllGroups true 0 max_bytes inner (within-AllGroups end q hs at.all))
          (select_groups-Loaded rows true 0 max_bytes q inner
            (within-Loaded rows end q hs at.loaded)),
      IsPrefix-trans (take_chunks end max_bytes 0 start rest).taken rest
          (drop (start - p) (join gs)) (take_chunks-IsPrefix end max_bytes 0 start rest)
          rest_prefix,
      omega (arith, bounds.0),
      omega (arith, bounds.1),
      taken-some end max_bytes start rest (omega (arith, wanted)) enough
          (AllSmall-IsPrefix rest (drop (start - p) (join gs)) rest_prefix small_rest)
          (omega
            (arith, length-drop (start - q) (join selected), at.inside, head_kept, at.at_most)),
    )

pub read_segment_rows-IsRead :
    (storage : StreamStorage) (groups : List (List Bytes)) (start available max_bytes : ℕ)
    → storage.segment_sizes ≡ size_rows 0 groups
    → storage.segments ≡ segment_rows 0 groups
    → AllGroups groups
    → AllSmall (join groups)
    → 0 < available
    → start + available ≤ length (join groups)
    → max_stream_chunk_bytes ≤ max_bytes
    → (chunks : List Bytes) × (read_segment_rows storage start available max_bytes ≡ ok chunks)
      × IsRead (join groups) start available max_bytes chunks
unfolding read_segment_rows
read_segment_rows-IsRead storage groups start available max_bytes sizes rows all small wanted inside
      enough =
    let end = start + available in
    let (q, hs) = locate start 0 groups in
    let inner = within end q hs in
    let at =
      locate-IsLocated (segment_rows 0 groups) start 0 groups (omega arith)
        (omega (arith, inside, wanted)) all (segment_rows-Loaded 0 groups all) in
    let kept = within-covers end q hs (omega (arith, at.same_end, inside)) in
    let covered : leb end (q + length (join inner)) ≡ true = ground (arith, kept) in
    let found =
      collected (segment_rows 0 groups) start available max_bytes 0 groups q hs at wanted enough
        (AllSmall-drop (start - 0) (join groups) small) in
    let same_head = head_group-within end q hs (omega (arith, at.at_most, wanted)) in
    let all_after : start - 0 ≡ start = omega arith in
    let selected = select_groups true 0 max_bytes inner in
    let chunks = (take_chunks end max_bytes 0 start (drop (start - q) (join selected))).taken in
    (
      chunks,
      rw sizes (
          rw
            (plan_segments-locate start available 0 groups (omega arith) (omega (arith, inside))
              wanted all)
            (rw
              (coverage-first start q inner at.at_most
                (omega (arith, at.inside, ap length same_head)) (within-AllGroups end q hs at.all))
              (rw covered
                (rw (select_segments-groups true 0 max_bytes q inner) (rw rows found.0))))),
      record {
        in_order = subst (λ (n : ℕ). IsPrefix chunks (drop n (join groups))) (all_after) found.1;
        in_range = found.2;
        in_budget = found.3;
        progress = found.4;
      },
    )
