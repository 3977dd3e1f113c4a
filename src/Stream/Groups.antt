-- ===== src/Stream/Groups.antt =====
-- The rows of a stream as groups of chunks: where each segment of a list of groups starts, and lemmas
-- on lists of chunks.
use world_celld.Common.{
  ℕ, zero, suc, ◌+◌, ◌≤◌, ◌<◌, ◌≡◌, refl, sym, ap, ◌∙◌, arith, List, [], ◌∷◌, ◌++◌, length, take,
}
use world_celld.Stream.Bytes.{Bytes, Fits}
use world_celld.Stream.Segment.{SegmentSize, Segment, encode_segment, segment_size, total_bytes}
use world_celld.Stream.Read.{drop}

-- The chunks of the groups, in order.
abbrev pub join : List (List Bytes) → List Bytes
join [] = []
join (g ∷ gs) = g ++ join gs

-- No group is empty, and none has more chunks, or longer ones, than a 32-bit field holds.
abbrev pub AllGroups : List (List Bytes) → Type 0
AllGroups [] = Unit
AllGroups (g ∷ gs) = (0 < length g) × (length g < 4294967296) × Fits g × AllGroups gs

abbrev pub size_rows : ℕ → List (List Bytes) → List (ℕ × SegmentSize)
size_rows p [] = []
size_rows p (g ∷ gs) = (p, segment_size g) ∷ size_rows (p + length g) gs

abbrev pub segment_rows : ℕ → List (List Bytes) → List (ℕ × Bytes)
segment_rows p [] = []
segment_rows p (g ∷ gs) = (p, encode_segment g) ∷ segment_rows (p + length g) gs

abbrev pub segments_at : ℕ → List (List Bytes) → List Segment
segments_at p [] = []
segments_at p (g ∷ gs) = record { start = p; chunks = g } ∷ segments_at (p + length g) gs

module _ {ℓ} {A : Type ℓ} where
  pub ++-assoc : (a b c : List A) → (a ++ b) ++ c ≡ a ++ (b ++ c)
  ++-assoc [] b c = refl
  ++-assoc (x ∷ a) b c = ap (λ l. x ∷ l) (++-assoc a b c)

  pub ++-nil : (a : List A) → a ++ [] ≡ a
  ++-nil [] = refl
  ++-nil (x ∷ a) = ap (λ l. x ∷ l) (++-nil a)

  pub length-++ : (a b : List A) → length (a ++ b) ≡ length a + length b
  length-++ [] b = omega arith
  length-++ (x ∷ a) b = omega (arith, length-++ a b)

  pub take-all : (n : ℕ) (a : List A) → length a ≤ n → take n a ≡ a
  take-all zero [] h = refl
  take-all zero (x ∷ a) h = ground (arith, h)
  take-all (suc n) [] h = refl
  take-all (suc n) (x ∷ a) h = ap (λ l. x ∷ l) (take-all n a (omega (arith, h)))

pub join-++ : (a b : List (List Bytes)) → join (a ++ b) ≡ join a ++ join b
join-++ [] b = refl
join-++ (g ∷ a) b = ap (λ l. g ++ l) (join-++ a b) ∙ sym (++-assoc g (join a) (join b))

pub total_bytes-++ : (a b : List Bytes) → total_bytes (a ++ b) ≡ total_bytes a + total_bytes b
total_bytes-++ [] b = omega arith
total_bytes-++ (x ∷ a) b = omega (arith, total_bytes-++ a b)

pub AllGroups-++ : (a b : List (List Bytes)) → AllGroups a → AllGroups b → AllGroups (a ++ b)
AllGroups-++ [] b fa fb = fb
AllGroups-++ (g ∷ a) b fa fb = (fa.0, fa.1, fa.2, AllGroups-++ a b fa.3 fb)

pub drop-++ : (n : ℕ) (a b : List Bytes) → n ≤ length a → drop n (a ++ b) ≡ drop n a ++ b
drop-++ zero a b h = refl
drop-++ (suc n) [] b h = ground (arith, h)
drop-++ (suc n) (x ∷ a) b h = drop-++ n a b (omega (arith, h))

pub drop_past : (n : ℕ) (a b : List Bytes) → drop (length a + n) (a ++ b) ≡ drop n b
drop_past n [] b = ap (λ k. drop k b) (omega arith)
drop_past n (x ∷ a) b =
    let e : suc (length a) + n ≡ suc (length a + n) = omega arith in rw e (drop_past n a b)

pub size_rows-++ :
    (p : ℕ) (a b : List (List Bytes))
    → size_rows p (a ++ b) ≡ size_rows p a ++ size_rows (p + length (join a)) b
size_rows-++ p [] b = ap (λ k. size_rows k b) (omega arith)
size_rows-++ p (g ∷ a) b =
    let e : p + length g + length (join a) ≡ p + length (g ++ join a) =
      omega (arith, length-++ g (join a)) in
    ap (λ l. (p, segment_size g) ∷ l)
      (size_rows-++ (p + length g) a b ∙ ap (λ k. size_rows (p + length g) a ++ size_rows k b) e)

pub segment_rows-++ :
    (p : ℕ) (a b : List (List Bytes))
    → segment_rows p (a ++ b) ≡ segment_rows p a ++ segment_rows (p + length (join a)) b
segment_rows-++ p [] b = ap (λ k. segment_rows k b) (omega arith)
segment_rows-++ p (g ∷ a) b =
    let e : p + length g + length (join a) ≡ p + length (g ++ join a) =
      omega (arith, length-++ g (join a)) in
    ap (λ l. (p, encode_segment g) ∷ l)
      (segment_rows-++ (p + length g) a b
        ∙ ap (λ k. segment_rows (p + length g) a ++ segment_rows k b) e)
