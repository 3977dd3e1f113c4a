-- ===== src/Stream/Pages.antt =====
-- A page of an expiry (`expireChunkPage` and `expireSegmentPage` of
-- `src/worker/durable-objects/StreamDO.ts`): which rows it lists and what its deletion leaves.
use mathlib.Core.Path.{subst}
use world_celld.Common.{
  ℕ, zero, suc, ◌+◌, ◌≤◌, ◌<◌, ◌≡◌, refl, sym, ap, ◌∙◌, inl, inr, arith, Bool, true, false, ◌||◌,
  List, [], ◌∷◌, ◌++◌, length, take, All, eqb, if◌then◌else◌, Bool-cases,
}
use world_celld.Stream.Protocol.{is_empty}
use world_celld.Stream.Rows.{delete_row, delete_rows}
use world_celld.Stream.Expire.{Page, empty_page}
use world_celld.Stream.Groups.{++-assoc, ++-nil, length-++}

abbrev has_row : ℕ → List ℕ → Bool
has_row x [] = false
has_row x (k ∷ ks) = eqb k x || has_row x ks

module _ {ℓ} {V : Type ℓ} where
  -- The rows that are not on a page.
  abbrev keep_rows : List ℕ → List (ℕ × V) → List (ℕ × V)
  keep_rows ks [] = []
  keep_rows ks (row ∷ rows) =
      let rest = keep_rows ks rows in if has_row row.0 ks then rest else row ∷ rest

  keep_rows-nil : (rows : List (ℕ × V)) → keep_rows [] rows ≡ rows
  keep_rows-nil [] = refl
  keep_rows-nil (row ∷ rows) = ap (λ l. row ∷ l) (keep_rows-nil rows)

  keep_rows-delete_row :
      (k : ℕ) (ks : List ℕ) (rows : List (ℕ × V))
      → keep_rows ks (delete_row k rows) ≡ keep_rows (k ∷ ks) rows
  unfolding delete_row
  keep_rows-delete_row k ks [] = refl
  keep_rows-delete_row k ks (row ∷ rows) = elim (Bool-cases (eqb k row.0)) [
    | inl e ↦ rw e (keep_rows-delete_row k ks rows)
    | inr e ↦ rw e (rw (keep_rows-delete_row k ks rows) refl)
  ]

  delete_rows-keep_rows :
      (ks : List ℕ) (rows : List (ℕ × V)) → delete_rows ks rows ≡ keep_rows ks rows
  unfolding delete_rows
  delete_rows-keep_rows [] rows = sym (keep_rows-nil rows)
  delete_rows-keep_rows (k ∷ ks) rows =
      delete_rows-keep_rows ks (delete_row k rows) ∙ keep_rows-delete_row k ks rows

  length-keep_rows : (ks : List ℕ) (rows : List (ℕ × V)) → length (keep_rows ks rows) ≤ length rows
  length-keep_rows ks [] = omega arith
  length-keep_rows ks (row ∷ rows) = ground (arith, length-keep_rows ks rows)

  -- The keys of rows, put in front of a page as its loop does.
  abbrev pub push : List (ℕ × V) → List ℕ → List ℕ
  push [] acc = acc
  push (row ∷ rows) acc = push rows (row.0 ∷ acc)

  length-push :
      (rows : List (ℕ × V)) (acc : List ℕ) → length (push rows acc) ≡ length rows + length acc
  length-push [] acc = omega arith
  length-push (row ∷ rows) acc = omega (arith, length-push rows (row.0 ∷ acc))

  push-kept :
      (rows : List (ℕ × V)) (acc : List ℕ) (x : ℕ)
      → has_row x acc ≡ true
      → has_row x (push rows acc) ≡ true
  push-kept [] acc x h = h
  push-kept (row ∷ rows) acc x h = push-kept rows (row.0 ∷ acc) x (ground (arith, h))

  push-first :
      (row : ℕ × V) (rows : List (ℕ × V)) (acc : List ℕ)
      → has_row row.0 (push (row ∷ rows) acc) ≡ true
  push-first row rows acc = push-kept rows (row.0 ∷ acc) row.0 (ground arith)

  keep_rows-push : (rows : List (ℕ × V)) (acc : List ℕ) → keep_rows (push rows acc) rows ≡ []
  keep_rows-push [] acc = refl
  keep_rows-push (row ∷ rows) acc = rw (push-first row rows acc) (keep_rows-push rows (row.0 ∷ acc))

  -- Of a list and its start of the same length, nothing is left over.
  same-length : (a rest b : List (ℕ × V)) → a ++ rest ≡ b → length b ≤ length a → a ≡ b
  same-length a [] b e h = sym (++-nil a) ∙ e
  same-length a (x ∷ rest) b e h = ground (arith, h, ap length e, length-++ a (x ∷ rest))

  take-start : (n : ℕ) (rows : List (ℕ × V)) → (rest : List (ℕ × V)) × (take n rows ++ rest ≡ rows)
  take-start zero rows = (rows, refl)
  take-start (suc n) [] = ([], refl)
  take-start (suc n) (row ∷ rows) = let (rest, e) = take-start n rows in (rest, ap (λ l. row ∷ l) e)

  take-short :
      (n : ℕ) (rows : List (ℕ × V)) → length (take (suc n) rows) ≤ n → take (suc n) rows ≡ rows
  take-short n [] h = refl
  take-short zero (row ∷ rows) h = ground (arith, h)
  take-short (suc n) (row ∷ rows) h = ap (λ l. row ∷ l) (take-short n rows (omega (arith, h)))

  -- What a page loop lists: some rows from the first one on, no more than the limit.
  pub record IsListed (limit : ℕ) (rows : List (ℕ × V)) (keys : List ℕ) : Type ℓ where
    pub listed : List (ℕ × V)
    pub beyond : List (ℕ × V)
    pub from_first : listed ++ beyond ≡ rows
    pub same_keys : keys ≡ push listed []
    pub few : length listed ≤ limit
    pub not_none : 0 < length rows → 0 < length listed

  IsListed-++ :
      (limit : ℕ) (rows more : List (ℕ × V)) (keys : List ℕ)
      → (0 < length (rows ++ more) → 0 < length rows)
      → IsListed limit rows keys
      → IsListed limit (rows ++ more) keys
  IsListed-++ limit rows more keys some_rows l = record {
    listed = l.listed;
    beyond = l.beyond ++ more;
    from_first = sym (++-assoc l.listed l.beyond more) ∙ ap (λ r. r ++ more) (l.from_first);
    same_keys = l.same_keys;
    few = l.few;
    not_none = λ h. l.not_none (some_rows h);
  }

  -- A page that lists all the candidates leaves no row; another one leaves fewer than there were.
  pub keep_rows-all :
      (limit : ℕ) (rows : List (ℕ × V)) (keys : List ℕ)
      → IsListed limit rows keys
      → length (take (suc limit) rows) ≡ length keys
      → delete_rows keys rows ≡ []
  keep_rows-all limit rows keys l h =
      let counted : length keys ≡ length l.listed =
        ap length (l.same_keys) ∙ length-push l.listed [] ∙ omega arith in
      let whole : take (suc limit) rows ≡ rows =
        take-short limit rows (omega (arith, h, counted, l.few)) in
      let all : l.listed ≡ rows =
        same-length l.listed l.beyond rows l.from_first
          (omega (arith, h, counted, ap length whole)) in
      rw (delete_rows-keep_rows keys rows) (
        rw (l.same_keys) (
          subst (λ (r : List (ℕ × V)). keep_rows (push l.listed []) r ≡ []) (all)
            (keep_rows-push l.listed [])))

  pub keep_rows-fewer :
      (limit : ℕ) (row : ℕ × V) (rows : List (ℕ × V)) (keys : List ℕ)
      → IsListed limit (row ∷ rows) keys
      → length (delete_rows keys (row ∷ rows)) < length (row ∷ rows)
  keep_rows-fewer limit row rows keys l = rw (delete_rows-keep_rows keys (row ∷ rows)) (
      subst (λ (ks : List ℕ). length (keep_rows ks (row ∷ rows)) < suc (length rows))
        (sym (l.same_keys)) (fewer l.listed l.from_first (l.not_none (omega arith))))
    where
      fewer :
          (listed : List (ℕ × V))
          → listed ++ l.beyond ≡ row ∷ rows
          → 0 < length listed
          → length (keep_rows (push listed []) (row ∷ rows)) < suc (length rows)
      fewer [] e h = ground (arith, h)
      fewer (x ∷ listed) e h =
          let first : x.0 ≡ row.0 = cc in
          let found : has_row row.0 (push (x ∷ listed) []) ≡ true =
            subst (λ (k : ℕ). has_row k (push (x ∷ listed) []) ≡ true) first
              (push-first x listed []) in
          rw found (omega (arith, length-keep_rows (push (x ∷ listed) []) rows))

  pub length-delete_rows :
      (keys : List ℕ) (rows : List (ℕ × V)) → length (delete_rows keys rows) ≤ length rows
  length-delete_rows keys rows = rw (delete_rows-keep_rows keys rows) (length-keep_rows keys rows)

  All-keep_rows :
      (P : ℕ × V → Type 0) (keys : List ℕ) (rows : List (ℕ × V))
      → All P rows
      → All P (keep_rows keys rows)
  All-keep_rows P keys [] h = tt
  All-keep_rows P keys (row ∷ rows) h = elim (Bool-cases (has_row row.0 keys)) [
    | inl e ↦ rw e (All-keep_rows P keys rows h.1)
    | inr e ↦ rw e (h.0, All-keep_rows P keys rows h.1)
  ]

  pub All-delete_rows :
      (P : ℕ × V → Type 0) (keys : List ℕ) (rows : List (ℕ × V))
      → All P rows
      → All P (delete_rows keys rows)
  All-delete_rows P keys rows h = rw (delete_rows-keep_rows keys rows) (All-keep_rows P keys rows h)

  pub All-take :
      (P : ℕ × V → Type 0) (n : ℕ) (rows : List (ℕ × V)) → All P rows → All P (take n rows)
  All-take P zero rows h = tt
  All-take P (suc n) [] h = tt
  All-take P (suc n) (row ∷ rows) h = (h.0, All-take P n rows h.1)

  pub IsListed-take :
      (limit n : ℕ) (rows : List (ℕ × V)) (keys : List ℕ)
      → 0 < n
      → IsListed limit (take n rows) keys
      → IsListed limit rows keys
  IsListed-take limit n rows keys hn l =
      let (more, e) = take-start n rows in
      subst (λ (r : List (ℕ × V)). IsListed limit r keys) e
        (IsListed-++ limit (take n rows) more keys
          (λ h. some_taken n rows hn (omega (arith, h, ap length e))) l)
    where
      some_taken : (m : ℕ) (r : List (ℕ × V)) → 0 < m → 0 < length r → 0 < length (take m r)
      some_taken zero r a b = ground (arith, a)
      some_taken (suc m) [] a b = b
      some_taken (suc m) (x ∷ r) a b = omega arith

  -- One more row at the front of what a loop lists after it.
  abbrev pub Listing : ℕ → Page → List (ℕ × V) → Page → Type ℓ
  Listing limit page rows result =
      (listed : List (ℕ × V)) × (beyond : List (ℕ × V)) × (listed ++ beyond ≡ rows)
      × (result.rows ≡ push listed page.rows)
      × (is_empty page.rows ≡ true → 0 < length rows → 0 < length listed)
      × (length result.rows ≤ limit)

  pub Listing-IsListed :
      (limit : ℕ) (rows : List (ℕ × V)) (result : Page)
      → Listing limit empty_page rows result
      → IsListed limit rows result.rows
  Listing-IsListed limit rows result (listed, beyond, e, keys, some_row, few) = record {
    listed = listed;
    beyond = beyond;
    from_first = e;
    same_keys = keys;
    few = omega (arith, few, ap length keys, length-push listed []);
    not_none = some_row refl;
  }
