-- ===== src/Catalog/Shard.antt =====
-- A shard of the run catalog (`src/worker/durable-objects/RunCatalogDO.ts`): the publication of a run's
-- index entries, their removal, the fence of an expired run and its compaction.
use world_celld.Common.{
  ℕ, suc, ◌+◌, ◌*◌, max, String, Bool, true, false, not, ◌&&◌, ◌||◌, ◌==◌, Option, none, some, List,
  [], ◌∷◌, length, take, leb, ltb, eqb, is_some, update, without, if◌then◌else◌, match_option,
}
use world_celld.Queue.Claim.{max_safe_integer}

abbrev pub max_fleet_rpc_timeout_ms : ℕ
max_fleet_rpc_timeout_ms = 5 * 60 * 1000

abbrev pub max_idempotent_rpc_lifetime_ms : ℕ
max_idempotent_rpc_lifetime_ms = 3 * max_fleet_rpc_timeout_ms + 900

abbrev pub max_run_index_publication_lifetime_ms : ℕ
max_run_index_publication_lifetime_ms = max_fleet_rpc_timeout_ms + max_idempotent_rpc_lifetime_ms

abbrev pub catalog_fence_grace_ms : ℕ
catalog_fence_grace_ms = max_run_index_publication_lifetime_ms

abbrev pub lifecycle_compaction_batch : ℕ
lifecycle_compaction_batch = 128

pub record CatalogExpiryFence : Type 0 where
  pub expired_at : ℕ
  pub compact_at : ℕ

pub record CatalogExpiryGc : Type 0 where
  pub run_id : String
  pub compact_at : ℕ

-- A run's two keys, as `canonicalCatalogKeys` returns them.
pub record CatalogKeys : Type 0 where
  pub workflow_key : String
  pub global_key : String

-- The entries by their keys; the fences and the stored keys by their runs; and the expiries that wait
-- for compaction, in the order of their keys.
pub record RunCatalog : Type 0 where
  pub entries : String → Option String
  pub fences : String → Option CatalogExpiryFence
  pub catalog_keys : String → Option CatalogKeys
  pub expiry_gc : List CatalogExpiryGc
  pub alarm : Option ℕ

abbrev pub holds_text : Option String → String → Bool
holds_text none text = false
holds_text (some held) text = held == text

abbrev pub holds_keys : Option CatalogKeys → CatalogKeys → Bool
holds_keys none keys = false
holds_keys (some held) keys =
    (held.workflow_key == keys.workflow_key) && (held.global_key == keys.global_key)

-- Whether a publication may still be stored.
abbrev pub is_live_publication : (expires_at now : ℕ) → Bool
is_live_publication expires_at now =
    leb expires_at max_safe_integer
    && ltb now expires_at
    && leb expires_at (now + max_run_index_publication_lifetime_ms)

-- The transaction of `upsertRun`, and whether it says `stored`.
unfoldable pub upsert_run :
    String
    → CatalogKeys
    → (metadata : String) → (publication_expires_at now : ℕ) → RunCatalog
    → RunCatalog × Bool
upsert_run run_id keys metadata publication_expires_at now c =
    let repeated =
      holds_text (c.entries keys.workflow_key) metadata
      && holds_text (c.entries keys.global_key) metadata
      && holds_keys (c.catalog_keys run_id) keys in
    let written = record c {
      entries = update (update c.entries keys.workflow_key metadata) keys.global_key metadata;
      catalog_keys = update c.catalog_keys run_id keys;
    } in
    if is_some (c.fences run_id)
    then (c, false)
    else if not (is_live_publication publication_expires_at now)
    then (c, false)
    else if repeated
    then (c, true)
    else (written, true)

-- The transaction of `deleteStaleGlobalRun`, for a key that is a global one of the run.
unfoldable pub delete_stale_global_run : (key expected : String) → RunCatalog → RunCatalog × Bool
delete_stale_global_run key expected c =
    if holds_text (c.entries key) expected
    then (record c { entries = without c.entries key }, true)
    else (c, false)

-- `armAtMost`
abbrev pub catalog_alarm : Option ℕ → ℕ → ℕ
catalog_alarm none at = at
catalog_alarm (some current) at = if ltb at current then at else current

abbrev pub count_held : (String → Option String) → CatalogKeys → ℕ
count_held entries keys =
    (if is_some (entries keys.workflow_key) then 1 else 0)
    + (if is_some (entries keys.global_key) then 1 else 0)

-- `before` is the order in which the storage lists the runs of expiries that are due together.
module _ (before : String → String → Bool) where
  unfoldable pub put_expiry : CatalogExpiryGc → List CatalogExpiryGc → List CatalogExpiryGc
  put_expiry item [] = item ∷ []
  put_expiry item (g ∷ gs) =
      let rest = put_expiry item gs in
      let same_time = eqb item.compact_at g.compact_at in
      if same_time && (item.run_id == g.run_id)
      then item ∷ gs
      else if ltb item.compact_at g.compact_at || (same_time && before item.run_id g.run_id)
      then item ∷ g ∷ gs
      else g ∷ rest

  -- `expireRun`, and the number of entries that it says it has deleted
  unfoldable pub expire_catalog_run : String → (expired_at now : ℕ) → RunCatalog → RunCatalog × ℕ
  expire_catalog_run run_id expired_at now c =
      match_option (c.catalog_keys run_id) (c, 0)
        (λ keys.
          let compact_at =
            match_option (c.fences run_id) (now + catalog_fence_grace_ms)
              (λ fence. fence.compact_at) in
          (
            record c {
              entries = without (without c.entries keys.workflow_key) keys.global_key;
              fences =
                  update c.fences run_id
                    (record { expired_at = expired_at; compact_at = compact_at });
              catalog_keys = without c.catalog_keys run_id;
              expiry_gc =
                  put_expiry (record { run_id = run_id; compact_at = compact_at }) c.expiry_gc;
              alarm = some (catalog_alarm c.alarm compact_at);
            },
            count_held c.entries keys,
          ))

-- The expiries whose fences may go.
unfoldable pub due_expiries : (now : ℕ) → List CatalogExpiryGc → List CatalogExpiryGc
due_expiries now [] = []
due_expiries now (g ∷ gs) =
    let rest = due_expiries now gs in if leb g.compact_at now then g ∷ rest else rest

abbrev pub same_expiry : CatalogExpiryGc → CatalogExpiryGc → Bool
same_expiry a b = (a.run_id == b.run_id) && eqb a.compact_at b.compact_at

unfoldable pub on_page : CatalogExpiryGc → List CatalogExpiryGc → Bool
on_page g [] = false
on_page g (p ∷ ps) = same_expiry p g || on_page g ps

unfoldable pub without_page : List CatalogExpiryGc → List CatalogExpiryGc → List CatalogExpiryGc
without_page page [] = []
without_page page (g ∷ gs) =
    let rest = without_page page gs in if on_page g page then rest else g ∷ rest

-- The fence of each expiry on a page goes, unless it is another expiry's.
abbrev pub drop_fence :
    CatalogExpiryGc → (String → Option CatalogExpiryFence) → String → Option CatalogExpiryFence
drop_fence g fences =
    match_option (fences g.run_id) fences
      (λ fence. if eqb fence.compact_at g.compact_at then without fences g.run_id else fences)

unfoldable pub drop_fences :
    List CatalogExpiryGc → (String → Option CatalogExpiryFence) → String → Option CatalogExpiryFence
drop_fences [] fences = fences
drop_fences (g ∷ gs) fences = drop_fences gs (drop_fence g fences)

abbrev pub next_compaction : (now : ℕ) → List CatalogExpiryGc → Option ℕ
next_compaction now [] = none
next_compaction now (g ∷ gs) = some (max (now + 1) g.compact_at)

-- `compactExpiryFences`, which the alarm runs
unfoldable pub compact_expiry_fences : (now : ℕ) → RunCatalog → RunCatalog
compact_expiry_fences now c =
    let due = take (suc lifecycle_compaction_batch) (due_expiries now c.expiry_gc) in
    let page = take lifecycle_compaction_batch due in
    let left = without_page page c.expiry_gc in
    record c {
      fences = drop_fences page c.fences;
      expiry_gc = left;
      alarm =
          (if ltb lifecycle_compaction_batch (length due)
            then some (now + 1)
            else next_compaction now left);
    }

-- The alarm, when the compaction throws: its transaction is rolled back.
abbrev pub retry_compaction : (now : ℕ) → RunCatalog → RunCatalog
retry_compaction now c = record c { alarm = some (now + 1000) }
