-- ===== src/RunCell/Notified.antt =====
-- What the index knows of an expired run that `src/worker/durable-objects/WorkflowRunDO.ts` has deleted.
use world_celld.Common.{
  not, ◌&&◌, is_some, ◌+◌, ◌≤◌, ◌≡◌, sym, ◌∙◌, Bool, true, some, List, [], ◌∷◌, inl, inr, arith,
  length,
}
use world_celld.Apply.Entities.{HookReference}
use world_celld.RunCell.Retention.{CleanupRecord, index}
use world_celld.RunCell.Pages.{
  StoredEntry, marker, Cleaning, Answers, page_keys, has_key, execute_all,
}
use world_celld.RunCell.Completion.{weight, IsCleaning}
use world_celld.RunCell.Deletion.{failures, cleanup_completes}
use world_celld.RunCell.Told.{In, In-page_keys}
use world_celld.RunCell.Announced.{IsUnique, rounds-Announced}

abbrev pub has_distinct_keys : List StoredEntry → Bool
has_distinct_keys [] = true
has_distinct_keys (x ∷ es) = not (has_key x.key (page_keys es)) && has_distinct_keys es

distinct_keys-IsUnique : (es : List StoredEntry) → has_distinct_keys es ≡ true → IsUnique es
distinct_keys-IsUnique [] h x y i j same = ground (arith, i)
distinct_keys-IsUnique (z ∷ es) h x y (inl a) (inl b) same = a ∙ sym b
distinct_keys-IsUnique (z ∷ es) h x y (inl a) (inr j) same =
    ground (arith, h, a, same, In-page_keys y es j)
distinct_keys-IsUnique (z ∷ es) h x y (inr i) (inl b) same =
    ground (arith, h, b, same, In-page_keys x es i)
distinct_keys-IsUnique (z ∷ es) h x y (inr i) (inr j) same =
    distinct_keys-IsUnique es (ground (arith, h)) x y i j same

none_stored : (e : StoredEntry) (es : List StoredEntry) → es ≡ [] → In e es → ⊥
none_stored e [] same h = h
none_stored e (x ∷ es) same h = ground (arith, same)

-- The deletion of a run that begins with its index.
pub record Begins (c : Cleaning) : Type 0 where
  pub indexed : (r : CleanupRecord) → c.cleanup ≡ some r → r.phase ≡ index
  pub pending : is_some c.cleanup ≡ true
  pub unique : has_distinct_keys c.entries ≡ true

-- When enough alarms have deleted an expired run, however many of them failed, the index has been told
-- of every hook whose marker was stored when the deletion began.
pub deleted_hooks_announced :
    (rounds : List Answers) (c : Cleaning) (m : HookReference) (e : StoredEntry)
    → Begins c
    → weight c + failures rounds ≤ length rounds
    → In e c.entries
    → e.value ≡ marker m
    → In m (execute_all rounds c).expired_hooks
deleted_hooks_announced rounds c m e h enough stored is =
    let cleaning : IsCleaning c = record {
      paged = λ r at. ground (arith, h.indexed r at);
      ended = λ gone. ground (arith, gone, h.pending);
    } in
    let deleted = cleanup_completes rounds c cleaning enough in
    let told = rounds-Announced m e is rounds c (record {
      unique = distinct_keys-IsUnique c.entries h.unique;
      kept = inl stored;
      passed = λ r at low. ground (arith, low, h.indexed r at);
    }) in
    elim told.kept [ inl i ↦ ground (arith, none_stored e _ deleted.entries i) | inr i ↦ i ]
