-- ===== src/RunCell/Pages.antt =====
-- The pages that delete an expired run (`src/worker/durable-objects/WorkflowRunDO.ts`): `executeCleanup`
-- from the phase `index` on. A page looks at the storage, calls other cells, and then has its
-- transaction, which is on the storage as it is by then.
use world_celld.Common.{
  ℕ, ◌+◌, ◌*◌, ◌-◌, String, Bool, true, false, ◌||◌, Option, none, some, List, [], ◌∷◌, ◌++◌, leb,
  eqb, ◌==◌, length, take, match_option, if◌then◌else◌,
}
use world_celld.Apply.Entities.{HookReference}
use world_celld.RunCell.Retention.{
  CleanupRecord, CleanupPhase, index, streams, queues, payload, tombstoned, RunTombstone,
  cleanup_tombstone,
}
use world_celld.RunCell.Schedule.{is_current, retry_delay}

-- What stands under a key: the marker of a hook, the registration of a queue payload with its object's
-- key, or anything else.
pub data Value : Type 0 where
  marker : HookReference → Value
  registration : String → Value
  other : Value

pub record StoredEntry : Type 0 where
  pub key : String
  pub value : Value

-- The cell's storage in the order of its keys, but for the cleanup record and the tombstone, which
-- have fields of their own; and what the cell has asked of other cells and of the object store.
pub record Cleaning : Type 0 where
  pub cleanup : Option CleanupRecord
  pub tombstone : Option RunTombstone
  pub entries : List StoredEntry
  pub alarm : Option ℕ
  pub expired_hooks : List HookReference
  pub deleted_objects : List String

-- `result` of `expireStream`
pub record StreamResult : Type 0 where
  pub chunks : ℕ
  pub bytes : ℕ
  pub done : Bool

-- What other cells answer to a page; none and false are a call that fails, `message` its error. The
-- objects of a page are deleted where the bucket is bound and, unless the page is empty, takes the call.
pub record Answers : Type 0 where
  pub now : ℕ
  pub expire_run : Bool
  pub expire_registry : Option (List String)
  pub expire_stream : String → (limit byte_limit : ℕ) → Option StreamResult
  pub finalize_registry : List String → Option (ℕ × Bool)
  pub delete_objects : Bool
  pub message : String

abbrev pub hook_marker_page_size : ℕ
hook_marker_page_size = 64

abbrev pub queue_payloads_per_cleanup_page : ℕ
queue_payloads_per_cleanup_page = 128

abbrev pub payload_delete_batch : ℕ
payload_delete_batch = 128

abbrev pub stream_chunks_per_cleanup_page : ℕ
stream_chunks_per_cleanup_page = 256

abbrev pub stream_bytes_per_cleanup_page : ℕ
stream_bytes_per_cleanup_page = 16 * 1024 * 1024

abbrev pub is_marker : Value → Bool
is_marker (marker r) = true
is_marker _ = false

abbrev pub is_registration : Value → Bool
is_registration (registration key) = true
is_registration _ = false

-- `storage.list` of a prefix, in the order of the keys
abbrev pub of_kind : (Value → Bool) → List StoredEntry → List StoredEntry
of_kind f [] = []
of_kind f (e ∷ es) = let rest = of_kind f es in if f e.value then e ∷ rest else rest

abbrev pub page_keys : List StoredEntry → List String
page_keys [] = []
page_keys (e ∷ es) = e.key ∷ page_keys es

abbrev pub has_key : String → List String → Bool
has_key k [] = false
has_key k (l ∷ ls) = (k == l) || has_key k ls

-- `storage.delete` of keys
abbrev pub drop_keys : List String → List StoredEntry → List StoredEntry
drop_keys keys [] = []
drop_keys keys (e ∷ es) =
    let rest = drop_keys keys es in if has_key e.key keys then rest else e ∷ rest

abbrev pub references_of : List StoredEntry → List HookReference
references_of [] = []
references_of (e ∷ es) =
    let rest = references_of es in
    elim e.value [ marker r ↦ r ∷ rest | registration key ↦ rest | other ↦ rest ]

abbrev pub objects_of : List StoredEntry → List String
objects_of [] = []
objects_of (e ∷ es) =
    let rest = objects_of es in
    elim e.value [ marker r ↦ rest | registration key ↦ key ∷ rest | other ↦ rest ]

-- The record after a page.
abbrev pub next_page : CleanupRecord → CleanupPhase → CleanupRecord
next_page r next = record r {
  phase = next;
  generation = r.generation + 1;
  attempts = 0;
  last_error = none;
}

-- A page's transaction, where the record is still the one that the page began with.
abbrev pub advance_page :
    Cleaning → CleanupRecord → List StoredEntry → (CleanupRecord → CleanupRecord) → ℕ → Cleaning
advance_page c expected page next now = match_option c.cleanup c (λ current.
    if is_current current expected
    then record c {
      entries = drop_keys (page_keys page) c.entries;
      cleanup = some (next current);
      alarm = some (now + 1);
    }
    else c)

-- `deleteIndexPage`; none is a call that fails.
abbrev pub delete_index_page : Answers → Cleaning → CleanupRecord → Option Cleaning
delete_index_page a c expected =
    let listed = of_kind is_marker c.entries in
    let page = take hook_marker_page_size listed in
    if a.expire_run
    then some (
        advance_page (record c { expired_hooks = references_of page ++ c.expired_hooks }) expected
          page
          (λ r. next_page r (if leb (length listed) hook_marker_page_size then streams else index))
          a.now)
    else none

-- The loop of `deleteStreamPage`: the streams that are done within the budgets.
abbrev pub completed_streams : Answers → List String → (chunks bytes : ℕ) → Option (List String)
completed_streams a [] chunks bytes = some []
completed_streams a (name ∷ names) chunks bytes =
    if eqb chunks 0 || eqb bytes 0
    then some []
    else match_option (a.expire_stream name chunks bytes) none (λ r.
      match_option (completed_streams a names (chunks - r.chunks) (bytes - r.bytes)) none
        (λ rest. some (if r.done then name ∷ rest else rest)))

-- The registry's answer after the streams of a page.
abbrev pub stream_page : Answers → Option (ℕ × Bool)
stream_page a = match_option a.expire_registry none (λ names.
    match_option
      (completed_streams a names stream_chunks_per_cleanup_page stream_bytes_per_cleanup_page) none
      a.finalize_registry)

-- `deleteStreamPage`
abbrev pub delete_stream_page : Answers → Cleaning → CleanupRecord → Option Cleaning
delete_stream_page a c expected = match_option (stream_page a) none (λ result. some (
    advance_page c expected []
      (λ r. record (next_page r (if result.1 then queues else streams)) {
        deleted_streams = result.0;
      })
      a.now))

-- `deleteQueuePage`
abbrev pub delete_queue_page : Answers → Cleaning → CleanupRecord → Option Cleaning
delete_queue_page a c expected =
    let listed = of_kind is_registration c.entries in
    let page = take queue_payloads_per_cleanup_page listed in
    if a.delete_objects
    then some (
        advance_page (record c { deleted_objects = objects_of page ++ c.deleted_objects }) expected
          page
          (λ r.
            record (next_page r
              (if leb (length listed) queue_payloads_per_cleanup_page then payload else queues)) {
                deleted_queue_payloads = r.deleted_queue_payloads + length page;
              })
          a.now)
    else none

-- `deletePayloadBatch`: whatever is left, and the tombstone.
abbrev pub delete_payload_batch : Cleaning → CleanupRecord → ℕ → Cleaning
delete_payload_batch c r now = elim (take payload_delete_batch c.entries) [
  | [] ↦ record c {
    tombstone =
        some (cleanup_tombstone (record (next_page r tombstoned) { tombstoned_at = some now }) now);
    cleanup = none;
    alarm = none;
  }
  | e ∷ es ↦ record c {
    tombstone = some (cleanup_tombstone r now);
    entries = drop_keys (page_keys (e ∷ es)) c.entries;
    cleanup = some (record r {
      deleted_payload_keys = r.deleted_payload_keys + length (e ∷ es);
      generation = r.generation + 1;
      last_error = none;
    });
    alarm = some (now + 1);
  }
]

-- `recordCleanupFailure` of the page's record
abbrev pub failed_page : Answers → Cleaning → CleanupRecord → Cleaning
failed_page a c r = record c {
  cleanup = some (record r {
    generation = r.generation + 1;
    attempts = r.attempts + 1;
    last_error = some a.message;
    last_attempt_at = some a.now;
  });
  alarm = some (a.now + retry_delay (r.attempts + 1));
}

abbrev pub or_failed : Answers → Cleaning → CleanupRecord → Option Cleaning → Cleaning
or_failed a c r o = match_option o (failed_page a c r) (λ c'. c')

abbrev pub execute_page : Answers → Cleaning → CleanupRecord → CleanupPhase → Cleaning
execute_page a c r index = or_failed a c r (delete_index_page a c r)
execute_page a c r streams = or_failed a c r (delete_stream_page a c r)
execute_page a c r queues = or_failed a c r (delete_queue_page a c r)
execute_page a c r payload = delete_payload_batch c r a.now
execute_page a c r _ = c

-- An alarm of an expired run: `executeCleanup`, and `recordCleanupFailure` where it throws.
unfoldable pub execute_cleanup : Answers → Cleaning → Cleaning
execute_cleanup a c = match_option c.cleanup c (λ r. execute_page a c r r.phase)

unfoldable pub execute_all : List Answers → Cleaning → Cleaning
execute_all [] c = c
execute_all (a ∷ later) c = execute_all later (execute_cleanup a c)
