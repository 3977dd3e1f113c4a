-- ===== src/RunCell/Deletion.antt =====
-- The alarms that delete an expired run of `src/worker/durable-objects/WorkflowRunDO.ts`, one after the
-- other.
use world_celld.Common.{
  if-rule, ℕ, suc, ◌+◌, ◌≤◌, ◌≡◌, refl, Bool, true, Option, none, some, List, [], ◌∷◌, arith,
  length, is_some, match_option, if◌then◌else◌,
}
use world_celld.RunCell.Retention.{CleanupRecord}
use world_celld.RunCell.Pages.{Cleaning, Answers, execute_cleanup, execute_all, execute_page}
use world_celld.RunCell.Completion.{weight, IsCleaning, is_good, execute_page-Shrinks}

abbrev pub failures : List Answers → ℕ
failures [] = 0
failures (a ∷ later) = let rest = failures later in if is_good a then rest else suc rest

-- A round keeps a run on its way, and takes it on where no call fails.
record Rounds (a : Answers) (c c' : Cleaning) : Type 0 where
  cleaning : IsCleaning c'
  fewer : weight c' ≤ weight c
  progress : is_good a ≡ true → 1 ≤ weight c → weight c' + 1 ≤ weight c

round-Rounds : (a : Answers) (c : Cleaning) → IsCleaning c → Rounds a c (execute_cleanup a c)
unfolding execute_cleanup
round-Rounds a c h = on c.cleanup refl
  where
    on :
        (o : Option CleanupRecord)
        → c.cleanup ≡ o
        → Rounds a c (match_option o c (λ r. execute_page a c r r.phase))
    on none at = record {
      cleaning = h;
      fewer = omega arith;
      progress = λ g some'. ground (arith, at, some');
    }
    on (some r) at =
        let step = execute_page-Shrinks a c r r.phase at refl (h.paged r at) in
        record { cleaning = step.cleaning; fewer = step.fewer; progress = λ g _. step.progress g }

emptied : (c : Cleaning) → IsCleaning c → weight c ≡ 0 → c.cleanup ≡ none
emptied c h z = on c.cleanup refl
  where
    on : (o : Option CleanupRecord) → c.cleanup ≡ o → c.cleanup ≡ none
    on none at = at
    on (some r) at = ground (arith, z, at, h.paged r at)

failures-length : (rounds : List Answers) → failures rounds ≤ length rounds
failures-length [] = omega arith
failures-length (a ∷ later) =
    if-rule (λ n. n ≤ suc (length later)) (is_good a) (failures later) (suc (failures later))
      (λ _. ground (arith, failures-length later)) (λ _. ground (arith, failures-length later))

rounds_left :
    (good : Bool) (w w' failed left : ℕ)
    → w' ≤ w
    → (good ≡ true → 1 ≤ w → w' + 1 ≤ w)
    → failed ≤ left
    → w + (if good then failed else suc failed) ≤ suc left
    → w' + failed ≤ left
rounds_left good w w' failed left fewer progress few enough = ground (arith, progress, enough)

-- What is left of a run that has been deleted.
pub record IsDeleted (c : Cleaning) : Type 0 where
  pub cleanup : c.cleanup ≡ none
  pub entries : c.entries ≡ []
  pub alarm : c.alarm ≡ none
  pub tombstone : is_some c.tombstone ≡ true

-- After enough alarms, however many of them fail in between, nothing of an expired run is left in its
-- cell but the tombstone: an alarm for each entry, four more, and one for each alarm in which a call
-- fails or the streams are not deleted.
pub cleanup_completes :
    (rounds : List Answers) (c : Cleaning)
    → IsCleaning c
    → weight c + failures rounds ≤ length rounds
    → IsDeleted (execute_all rounds c)
unfolding execute_all
cleanup_completes [] c h enough =
    let gone = emptied c h (omega arith) in
    let (entries, alarm, tombstone) = h.ended gone in
    record { cleanup = gone; entries = entries; alarm = alarm; tombstone = tombstone }
cleanup_completes (a ∷ later) c h enough =
    let step = round-Rounds a c h in
    cleanup_completes later (execute_cleanup a c) step.cleaning (
      rounds_left (is_good a) (weight c) (weight (execute_cleanup a c)) (failures later)
        (length later) step.fewer step.progress (failures-length later) enough)
