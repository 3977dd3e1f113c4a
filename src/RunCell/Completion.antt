-- ===== src/RunCell/Completion.antt =====
-- How the pages of `src/worker/durable-objects/WorkflowRunDO.ts` shrink an expired run.
use world_celld.Common.{
  if-rule, match_option-rule, ℕ, suc, ◌+◌, ◌≤◌, ◌<◌, ◌≡◌, refl, String, Bool, true, false, ◌&&◌,
  none, some, List, [], ◌∷◌, arith, eq_iff, eq_refl, length, take, is_some, match_option,
}
use world_celld.RunCell.Retention.{
  CleanupRecord, CleanupPhase, retained, index, streams, queues, payload, tombstoned,
}
use world_celld.RunCell.Schedule.{is_current}
use world_celld.RunCell.Pages.{
  Value, StoredEntry, Cleaning, Answers, of_kind, page_keys, has_key, drop_keys, is_marker,
  is_registration, stream_page, execute_page, delete_index_page, delete_queue_page,
  delete_stream_page, delete_payload_batch, advance_page, or_failed, failed_page,
}

length-drop_keys :
    (keys : List String) (es : List StoredEntry) → length (drop_keys keys es) ≤ length es
length-drop_keys keys [] = omega arith
length-drop_keys keys (e ∷ es) = ground (arith, length-drop_keys keys es)

-- A key that stands in the storage and is deleted makes the storage shorter.
length-drop_keys_key :
    (k : String) (keys : List String) (es : List StoredEntry)
    → has_key k keys ≡ true
    → has_key k (page_keys es) ≡ true
    → length (drop_keys keys es) < length es
length-drop_keys_key k keys [] h m = ground (arith, m)
length-drop_keys_key k keys (e ∷ es) h m =
    ground (arith, h, m, eq_iff k e.key, length-drop_keys keys es, length-drop_keys_key k keys es h)

of_kind-key :
    (f : Value → Bool) (es : List StoredEntry) (e : StoredEntry) (rest : List StoredEntry)
    → of_kind f es ≡ e ∷ rest
    → has_key e.key (page_keys es) ≡ true
of_kind-key f [] e rest h = ground (arith, h)
of_kind-key f (x ∷ es) e rest h = ground (arith, h, eq_refl e.key, of_kind-key f es e rest)

-- The pages left, at most: each one deletes something or moves the phase on.
abbrev pub rank : CleanupPhase → ℕ
rank index = 4
rank streams = 3
rank queues = 2
rank payload = 1
rank _ = 0

abbrev pub weight : Cleaning → ℕ
weight c = match_option c.cleanup 0 (λ r. length c.entries + rank r.phase)

-- The run is being deleted, or nothing of it is left but its tombstone.
pub record IsCleaning (c : Cleaning) : Type 0 where
  pub paged : (r : CleanupRecord) → c.cleanup ≡ some r → 1 ≤ rank r.phase
  pub ended : c.cleanup ≡ none → (c.entries ≡ []) × (c.alarm ≡ none) × (is_some c.tombstone ≡ true)

-- Answers of which no call fails, and by which the streams are deleted.
abbrev pub is_good : Answers → Bool
is_good a = a.expire_run && a.delete_objects && match_option (stream_page a) false (λ r. r.1)

-- A page of the first entries of a kind makes the storage shorter.
length-drop_keys_page :
    (f : Value → Bool) (n : ℕ) (es page : List StoredEntry)
    → of_kind f es ≡ page
    → 1 ≤ length page
    → length (drop_keys (page_keys (take (suc n) page)) es) < length es
length-drop_keys_page f n es [] same h = ground (arith, h)
length-drop_keys_page f n es (e ∷ rest) same h =
    length-drop_keys_key e.key (page_keys (take (suc n) (e ∷ rest))) es
      (ground (arith, eq_refl e.key)) (of_kind-key f es e rest same)

-- What a page leaves to do: never more than before, and less where no call fails.
pub record Shrinks (good : Bool) (c c' : Cleaning) : Type 0 where
  pub cleaning : IsCleaning c'
  pub fewer : weight c' ≤ weight c
  pub progress : good ≡ true → weight c' + 1 ≤ weight c

is_current_refl : (r : CleanupRecord) → is_current r r ≡ true
is_current_refl r = ground arith

-- A page's transaction on the record that it began with.
pub advance_lem :
    (c : Cleaning) (r : CleanupRecord) (page : List StoredEntry)
    (next : CleanupRecord → CleanupRecord) (now : ℕ)
    → c.cleanup ≡ some r
    → advance_page c r page next now ≡ record c {
      entries = drop_keys (page_keys page) c.entries;
      cleanup = some (next r);
      alarm = some (now + 1);
    }
advance_lem c r page next now at = rw at (rw (is_current_refl r) refl)

-- A page that succeeds, with what it deletes and the phase that comes next.
advance-Shrinks :
    (good : Bool) (c c' : Cleaning) (r : CleanupRecord) (page : List StoredEntry)
    (next : CleanupRecord → CleanupRecord) (now : ℕ)
    → c.cleanup ≡ some r
    → c'.cleanup ≡ some r
    → c'.entries ≡ c.entries
    → 1 ≤ rank (next r).phase
    → length (drop_keys (page_keys page) c.entries) + rank (next r).phase
      ≤ length c.entries + rank r.phase
    → (good ≡ true
        → length (drop_keys (page_keys page) c.entries) + rank (next r).phase + 1
          ≤ length c.entries + rank r.phase)
    → Shrinks good c (advance_page c' r page next now)
advance-Shrinks good c c' r page next now at at' same paged fewer progress =
    rw (advance_lem c' r page next now at') (
      rw same (record {
        cleaning = record {
          paged = λ q s. ground (arith, s, paged);
          ended = λ s. ground (arith, s);
        };
        fewer = rw at fewer;
        progress = λ g. rw at (progress g);
      }))

-- A page that fails.
failed-Shrinks :
    (a : Answers) (good : Bool) (c : Cleaning) (r : CleanupRecord)
    → c.cleanup ≡ some r
    → 1 ≤ rank r.phase
    → good ≡ false
    → Shrinks good c (failed_page a c r)
failed-Shrinks a good c r at paged bad = record {
  cleaning = record { paged = λ q s. ground (arith, s, paged); ended = λ s. ground (arith, s) };
  fewer = ground (arith, at);
  progress = λ g. ground (arith, g, bad);
}

index_page-Shrinks :
    (a : Answers) (c : Cleaning) (r : CleanupRecord)
    → c.cleanup ≡ some r
    → r.phase ≡ index
    → Shrinks (is_good a) c (or_failed a c r (delete_index_page a c r))
index_page-Shrinks a c r at h =
    let listed = of_kind is_marker c.entries in
    let page = take 64 listed in
    let short = length-drop_keys (page_keys page) c.entries in
    let shorter = length-drop_keys_page is_marker 63 c.entries listed refl in
    if-rule (λ o. Shrinks (is_good a) c (or_failed a c r o)) a.expire_run _ _
      (λ _.
        advance-Shrinks (is_good a) c _ r page _ a.now at at refl (ground arith)
          (ground (arith, h, short, shorter)) (λ _. ground (arith, h, short, shorter)))
      (λ bad. failed-Shrinks a (is_good a) c r at (ground (arith, h)) (ground (arith, bad)))

queue_page-Shrinks :
    (a : Answers) (c : Cleaning) (r : CleanupRecord)
    → c.cleanup ≡ some r
    → r.phase ≡ queues
    → Shrinks (is_good a) c (or_failed a c r (delete_queue_page a c r))
queue_page-Shrinks a c r at h =
    let listed = of_kind is_registration c.entries in
    let page = take 128 listed in
    let short = length-drop_keys (page_keys page) c.entries in
    let shorter = length-drop_keys_page is_registration 127 c.entries listed refl in
    if-rule (λ o. Shrinks (is_good a) c (or_failed a c r o)) a.delete_objects _ _
      (λ _.
        advance-Shrinks (is_good a) c _ r page _ a.now at at refl (ground arith)
          (ground (arith, h, short, shorter)) (λ _. ground (arith, h, short, shorter)))
      (λ bad. failed-Shrinks a (is_good a) c r at (ground (arith, h)) (ground (arith, bad)))

length-drop_keys_none : (es : List StoredEntry) → length (drop_keys [] es) ≡ length es
length-drop_keys_none [] = refl
length-drop_keys_none (e ∷ es) = ground (arith, length-drop_keys_none es)

stream_page-Shrinks :
    (a : Answers) (c : Cleaning) (r : CleanupRecord)
    → c.cleanup ≡ some r
    → r.phase ≡ streams
    → Shrinks (is_good a) c (or_failed a c r (delete_stream_page a c r))
stream_page-Shrinks a c r at h =
    let same = length-drop_keys_none c.entries in
    match_option-rule (λ o. Shrinks (is_good a) c (or_failed a c r o)) (stream_page a) _ _
      (λ bad. failed-Shrinks a (is_good a) c r at (ground (arith, h)) (ground (arith, bad)))
      (λ result answer.
        advance-Shrinks (is_good a) c c r [] _ a.now at at refl (ground arith)
          (ground (arith, h, same)) (λ good. ground (arith, h, same, good, answer)))

payload_batch-Shrinks :
    (a : Answers) (c : Cleaning) (r : CleanupRecord)
    → c.cleanup ≡ some r
    → r.phase ≡ payload
    → Shrinks (is_good a) c (delete_payload_batch c r a.now)
payload_batch-Shrinks a c r at h = batch c.entries refl
  where
    batch :
        (es : List StoredEntry)
        → c.entries ≡ es
        → Shrinks (is_good a) c (delete_payload_batch c r a.now)
    batch [] same = rw same (record {
      cleaning = record { paged = λ q s. ground (arith, s); ended = λ s. (same, refl, refl) };
      fewer = ground (arith, at, h);
      progress = λ g. ground (arith, at, h, same);
    })
    batch (e ∷ es) same =
        let shorter =
          length-drop_keys_key e.key (page_keys (take 128 (e ∷ es))) (e ∷ es)
            (ground (arith, eq_refl e.key)) (ground (arith, eq_refl e.key)) in
        rw same (record {
          cleaning = record { paged = λ q s. ground (arith, s, h); ended = λ s. ground (arith, s) };
          fewer = ground (arith, at, h, same, shorter);
          progress = λ g. ground (arith, at, h, same, shorter);
        })

pub execute_page-Shrinks :
    (a : Answers) (c : Cleaning) (r : CleanupRecord) (phase : CleanupPhase)
    → c.cleanup ≡ some r
    → r.phase ≡ phase
    → 1 ≤ rank phase
    → Shrinks (is_good a) c (execute_page a c r phase)
execute_page-Shrinks a c r index at h paged = index_page-Shrinks a c r at h
execute_page-Shrinks a c r streams at h paged = stream_page-Shrinks a c r at h
execute_page-Shrinks a c r queues at h paged = queue_page-Shrinks a c r at h
execute_page-Shrinks a c r payload at h paged = payload_batch-Shrinks a c r at h
execute_page-Shrinks a c r retained at h paged = ground (arith, paged)
execute_page-Shrinks a c r tombstoned at h paged = ground (arith, paged)
