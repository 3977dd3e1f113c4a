-- ===== src/RunCell/Announced.antt =====
-- The hooks that the deletion of a run in `src/worker/durable-objects/WorkflowRunDO.ts` tells the index.
use world_celld.Common.{
  ℕ, ◌≤◌, ◌≡◌, refl, String, Bool, true, false, some, List, [], ◌∷◌, ◌⊎◌, inl, inr, arith, length,
  take, Bool-cases, if-rule, match_option-rule,
}
use world_celld.Apply.Entities.{HookReference}
use world_celld.RunCell.Retention.{
  CleanupRecord, CleanupPhase, retained, index, streams, queues, payload, tombstoned,
}
use world_celld.RunCell.Pages.{
  payload_delete_batch, Value, StoredEntry, marker, Cleaning, Answers, is_marker, is_registration,
  of_kind, page_keys, has_key, drop_keys, references_of, advance_page, delete_index_page,
  delete_queue_page, delete_stream_page, delete_payload_batch, failed_page, or_failed, execute_page,
  execute_cleanup, execute_all, stream_page, hook_marker_page_size, queue_payloads_per_cleanup_page,
}
use world_celld.RunCell.Completion.{rank, advance_lem}
use world_celld.RunCell.Told.{
  In, In-left, In-right, In-take, In-take_all, In-page_keys, page_keys-In, of_kind-is, of_kind-In,
  drop_keys-is, drop_keys-In, references_of-In,
}

-- A key stands for one entry.
abbrev pub IsUnique : List StoredEntry → Type 0
IsUnique es = (x y : StoredEntry) → In x es → In y es → x.key ≡ y.key → x ≡ y

-- An entry whose key is on a page stands on that page.
page-In :
    (f : Value → Bool) (n : ℕ) (es : List StoredEntry) (e : StoredEntry)
    → IsUnique es
    → In e es
    → has_key e.key (page_keys (take n (of_kind f es))) ≡ true
    → In e (take n (of_kind f es))
page-In f n es e unique i h =
    let (p, j, same) = page_keys-In e.key (take n (of_kind f es)) h in
    let e≡p = unique e p i (of_kind-is f p es (In-take p n (of_kind f es) j)).0 same in rw e≡p j

module _ (m : HookReference) (e : StoredEntry) (is : e.value ≡ marker m) where
  -- The hook's marker is stored or the index knows, and after the index no marker is left.
  pub record Announced (c : Cleaning) : Type 0 where
    pub unique : IsUnique c.entries
    pub kept : In e c.entries ⊎ In m c.expired_hooks
    pub passed :
        (r : CleanupRecord)
        → c.cleanup ≡ some r
        → rank r.phase ≤ 3
        → (x : StoredEntry) → In x c.entries
        → is_marker x.value ≡ false

  drop_keys-IsUnique :
      (ks : List String) (es : List StoredEntry) → IsUnique es → IsUnique (drop_keys ks es)
  drop_keys-IsUnique ks es unique x y i j =
      unique x y (drop_keys-is ks x es i).0 (drop_keys-is ks y es j).0

  advance-Announced :
      (c c' : Cleaning) (r : CleanupRecord) (page : List StoredEntry)
      (next : CleanupRecord → CleanupRecord) (now : ℕ)
      → c'.cleanup ≡ some r
      → c'.entries ≡ c.entries
      → (In m c.expired_hooks → In m c'.expired_hooks)
      → (In e c.entries → has_key e.key (page_keys page) ≡ true → In m c'.expired_hooks)
      → (rank (next r).phase ≤ 3
          → (x : StoredEntry) → In x (drop_keys (page_keys page) c.entries)
          → is_marker x.value ≡ false)
      → Announced c
      → Announced (advance_page c' r page next now)
  advance-Announced c c' r page next now at same more told gone h =
      rw (advance_lem c' r page next now at) (
        rw same (record {
          unique = drop_keys-IsUnique (page_keys page) c.entries h.unique;
          kept = elim h.kept [
            | inl i ↦ elim (Bool-cases (has_key e.key (page_keys page))) [
              | inl on_page ↦ inr (told i on_page)
              | inr off_page ↦ inl (drop_keys-In (page_keys page) e c.entries i off_page)
            ]
            | inr i ↦ inr (more i)
          ];
          passed = λ q s low. gone (ground (arith, s, low));
        }))

  failed-Announced :
      (a : Answers) (c : Cleaning) (r : CleanupRecord)
      → c.cleanup ≡ some r
      → Announced c
      → Announced (failed_page a c r)
  failed-Announced a c r at h = record {
    unique = h.unique;
    kept = h.kept;
    passed = λ q s low. h.passed r at (ground (arith, s, low));
  }

  -- No marker is left when a page has the last ones.
  last_page-gone :
      (es : List StoredEntry) (n : ℕ)
      → length (of_kind is_marker es) ≤ n
      → (x : StoredEntry) → In x (drop_keys (page_keys (take n (of_kind is_marker es))) es)
      → is_marker x.value ≡ false
  last_page-gone es n few x i = elim (Bool-cases (is_marker x.value)) [
    | inr no' ↦ no'
    | inl yes' ↦
        (let (j, off_page) = drop_keys-is (page_keys (take n (of_kind is_marker es))) x es i in
          let on_page =
            In-page_keys x (take n (of_kind is_marker es))
              (In-take_all x n (of_kind is_marker es) few (of_kind-In is_marker x es j yes')) in
          ground (arith, off_page, on_page))
  ]

  index_page-Announced :
      (a : Answers) (c : Cleaning) (r : CleanupRecord)
      → c.cleanup ≡ some r
      → Announced c
      → Announced (or_failed a c r (delete_index_page a c r))
  index_page-Announced a c r at h =
      let page = take hook_marker_page_size (of_kind is_marker c.entries) in
      if-rule (λ o. Announced (or_failed a c r o)) a.expire_run _ _
        (λ _.
          advance-Announced c _ r page _ a.now at refl
            (In-right m (references_of page) c.expired_hooks)
            (λ i on_page. In-left m (references_of page) c.expired_hooks (
              references_of-In m e page is
                (page-In is_marker hook_marker_page_size c.entries e h.unique i on_page)))
            (λ low. last_page-gone c.entries hook_marker_page_size (ground (arith, low))) h)
        (λ _. failed-Announced a c r at h)

  queue_page-Announced :
      (a : Answers) (c : Cleaning) (r : CleanupRecord)
      → c.cleanup ≡ some r
      → rank r.phase ≤ 3
      → Announced c
      → Announced (or_failed a c r (delete_queue_page a c r))
  queue_page-Announced a c r at low h =
      let page = take queue_payloads_per_cleanup_page (of_kind is_registration c.entries) in
      if-rule (λ o. Announced (or_failed a c r o)) a.delete_objects _ _
        (λ _.
          advance-Announced c _ r page _ a.now at refl (λ i. i)
            (λ i _. ground (arith, is, h.passed r at low e i))
            (λ _ x i. h.passed r at low x (drop_keys-is (page_keys page) x c.entries i).0) h)
        (λ _. failed-Announced a c r at h)

  stream_page-Announced :
      (a : Answers) (c : Cleaning) (r : CleanupRecord)
      → c.cleanup ≡ some r
      → rank r.phase ≤ 3
      → Announced c
      → Announced (or_failed a c r (delete_stream_page a c r))
  stream_page-Announced a c r at low h =
      match_option-rule (λ o. Announced (or_failed a c r o)) (stream_page a) _ _
        (λ _. failed-Announced a c r at h)
        (λ result _.
          advance-Announced c c r [] _ a.now at refl (λ i. i) (λ i on_page. ground (arith, on_page))
            (λ _ x i. h.passed r at low x (drop_keys-is [] x c.entries i).0) h)

  payload_batch-Announced :
      (a : Answers) (c : Cleaning) (r : CleanupRecord)
      → c.cleanup ≡ some r
      → rank r.phase ≤ 3
      → Announced c
      → Announced (delete_payload_batch c r a.now)
  payload_batch-Announced a c r at low h = batch (take payload_delete_batch c.entries) refl
    where
      batch :
          (page : List StoredEntry)
          → take payload_delete_batch c.entries ≡ page
          → Announced (delete_payload_batch c r a.now)
      batch [] same =
          rw same (record { unique = h.unique; kept = h.kept; passed = λ q s. ground (arith, s) })
      batch (y ∷ ys) same = rw same (record {
        unique = drop_keys-IsUnique (page_keys (y ∷ ys)) c.entries h.unique;
        kept = elim h.kept [ inl i ↦ ground (arith, is, h.passed r at low e i) | inr i ↦ inr i ];
        passed =
            λ _ _ _ x i. h.passed r at low x (drop_keys-is (page_keys (y ∷ ys)) x c.entries i).0;
      })

  execute_page-Announced :
      (a : Answers) (c : Cleaning) (r : CleanupRecord) (phase : CleanupPhase)
      → c.cleanup ≡ some r
      → r.phase ≡ phase
      → Announced c
      → Announced (execute_page a c r phase)
  execute_page-Announced a c r index at same h = index_page-Announced a c r at h
  execute_page-Announced a c r streams at same h =
      stream_page-Announced a c r at (ground (arith, same)) h
  execute_page-Announced a c r queues at same h =
      queue_page-Announced a c r at (ground (arith, same)) h
  execute_page-Announced a c r payload at same h =
      payload_batch-Announced a c r at (ground (arith, same)) h
  execute_page-Announced a c r retained at same h = h
  execute_page-Announced a c r tombstoned at same h = h

  round-Announced : (a : Answers) (c : Cleaning) → Announced c → Announced (execute_cleanup a c)
  unfolding execute_cleanup
  round-Announced a c h =
      match_option-rule Announced c.cleanup c (λ r. execute_page a c r r.phase) (λ _. h)
        (λ r at. execute_page-Announced a c r r.phase at refl h)

  pub rounds-Announced :
      (rounds : List Answers) (c : Cleaning) → Announced c → Announced (execute_all rounds c)
  unfolding execute_all
  rounds-Announced [] c h = h
  rounds-Announced (a ∷ later) c h =
      rounds-Announced later (execute_cleanup a c) (round-Announced a c h)
