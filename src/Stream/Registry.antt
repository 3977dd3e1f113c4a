-- ===== src/Stream/Registry.antt =====
-- The registry of a run's streams (`src/worker/durable-objects/StreamDO.ts`): `registerStream`,
-- `listStreams`, `expireRegistry` and `finalizeRegistry`.
use world_celld.Common.{
  ℕ, ◌+◌, ◌-◌, String, Bool, false, not, ◌||◌, ◌==◌, Option, none, some, List, [], ◌∷◌, length,
  take, get_or, is_some, if◌then◌else◌, match_option,
}
use world_celld.Stream.Protocol.{is_empty}
use world_celld.Stream.Cell.{
  owned_by, run_expired, not_expired, StreamOutcome, ok, ◌>>=◌, ◌>>◌, guard, require_stream,
}
use world_celld.Stream.Expire.{bounded_limit}

pub record RegistryExpiry : Type 0 where
  pub expired_at : ℕ
  pub deleted : ℕ

-- The names are the rows under `stream:`, in the order of their keys.
pub record StreamRegistry : Type 0 where
  pub owner : Option String
  pub expired : Option RegistryExpiry
  pub names : List String

pub record FinalizeRunStreamsResult : Type 0 where
  pub deleted : ℕ
  pub done : Bool

unfoldable pub has_name : String → List String → Bool
has_name name [] = false
has_name name (n ∷ names) = (n == name) || has_name name names

-- The names that `streams` does not hold: what is left when its rows are deleted.
unfoldable pub names_without : List String → List String → List String
names_without streams [] = []
names_without streams (n ∷ names) =
    let rest = names_without streams names in if has_name n streams then rest else n ∷ rest

-- `before` is the order in which the storage lists its keys.
module _ (before : String → String → Bool) where
  unfoldable pub put_name : String → List String → List String
  put_name name [] = name ∷ []
  put_name name (n ∷ names) =
      let rest = put_name name names in
      if n == name then n ∷ names else if before name n then name ∷ n ∷ names else n ∷ rest

  -- `registerStream`
  unfoldable pub register_stream : String → String → StreamRegistry → StreamOutcome StreamRegistry
  register_stream run_id name registry = do
    guard (not (is_some registry.expired)) (run_expired run_id)
    match_option registry.owner (ok tt) (λ owner. guard (owner == run_id) (owned_by owner))
    ok (record registry { owner = some run_id; names = put_name name registry.names })

-- `listStreams`, whose error does not name the run
unfoldable pub list_streams : StreamRegistry → StreamOutcome (List String)
list_streams registry = guard (not (is_some registry.expired)) (run_expired "") >> ok registry.names

-- `expireRegistry`
unfoldable pub expire_registry :
    String
    → (expired_at : ℕ) → (limit : Option ℕ) → StreamRegistry
    → StreamOutcome (List String × StreamRegistry)
expire_registry run_id expired_at limit registry = do
  match_option registry.owner (ok tt) (λ owner. guard (owner == run_id) (owned_by owner))
  let expiry = get_or registry.expired (record { expired_at = expired_at; deleted = 0 })
  ok (
    take (bounded_limit limit 16 128) registry.names,
    record registry { owner = some run_id; expired = some expiry },
  )

abbrev pub is_owner : String → Option String → Bool
is_owner run_id none = false
is_owner run_id (some owner) = owner == run_id

-- `finalizeRegistry`
unfoldable pub finalize_registry :
    String
    → List String
    → StreamRegistry
    → StreamOutcome (FinalizeRunStreamsResult × StreamRegistry)
finalize_registry run_id streams registry = do
  guard (is_owner run_id registry.owner) not_expired
  expiry ← require_stream registry.expired not_expired
  let names = names_without streams registry.names
  let deleted = expiry.deleted + (length registry.names - length names)
  ok (
    record { deleted = deleted; done = is_empty names },
    record registry { expired = some (record expiry { deleted = deleted }); names = names },
  )
