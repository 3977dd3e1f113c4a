-- ===== src/RunCell/Payload.antt =====
-- Queue payloads (`src/worker/durable-objects/WorkflowRunDO.ts`): the registry in the run's cell, and
-- the orphan cell, which deletes the payload of a message that no delivery came for.
use world_celld.Common.{
  ℕ, ◌+◌, String, Bool, true, false, not, ◌||◌, ◌&&◌, Option, none, some, ltb, eqb, max, ◌==◌,
  is_some, update, match_option, if◌then◌else◌,
}
use world_celld.Queue.Claim.{non_empty, safe}
use world_celld.RunCell.Lookups.{get_queue_admission}
use world_celld.RunCell.Retention.{RunCell}

pub record QueuePayloadRegistration : Type 0 where
  pub message_id : String
  pub key : String
  pub orphan_expires_at : ℕ

-- The registrations of a run by message ID, beside the rest of its cell.
abbrev pub Registry : Type 0
Registry = String → Option QueuePayloadRegistration

pub data PayloadReply : Type 0 where
  accepted refused invalid : PayloadReply

-- `registerQueuePayload`
unfoldable pub register_queue_payload :
    RunCell → Registry → QueuePayloadRegistration → ℕ → Registry × PayloadReply
register_queue_payload c s r now =
    if not (non_empty r.message_id) || not (non_empty r.key) || not (safe r.orphan_expires_at)
    then (s, invalid)
    else if get_queue_admission c now
    then (update s r.message_id r, accepted)
    else (s, refused)

-- `finalizeQueuePayload`
unfoldable pub finalize_queue_payload : RunCell → Registry → String → ℕ → PayloadReply
finalize_queue_payload c s m now =
    if not (non_empty m)
    then invalid
    else if get_queue_admission c now && is_some (s m)
    then accepted
    else refused

-- `unregisterQueuePayload`
unfoldable pub unregister_queue_payload : Registry → String → Registry
unregister_queue_payload s m = λ k. if k == m then none else s k

pub record QueuePayloadOrphan : Type 0 where
  pub message_id : String
  pub run_id : String
  pub key : String
  pub expires_at : ℕ

pub record QueuePayloadOrphanState : Type 0 where
  pub orphan : QueuePayloadOrphan
  pub generation : ℕ
  pub deleting : Bool

pub record OrphanCell : Type 0 where
  pub orphan : Option QueuePayloadOrphanState
  pub alarm : Option ℕ

abbrev pub is_valid_orphan : QueuePayloadOrphan → Bool
is_valid_orphan o =
    non_empty o.message_id && non_empty o.run_id && non_empty o.key && safe o.expires_at

-- The state of the next generation.
abbrev pub scheduled : Option QueuePayloadOrphanState → QueuePayloadOrphan → QueuePayloadOrphanState
scheduled none o = record { orphan = o; generation = 1; deleting = false }
scheduled (some s) o = record {
  orphan = record o { expires_at = max s.orphan.expires_at o.expires_at };
  generation = s.generation + 1;
  deleting = false;
}

-- The two errors of `scheduleQueuePayloadOrphan` on a stored orphan: another message's, and a deletion
-- in progress.
abbrev pub rejects : Option QueuePayloadOrphanState → QueuePayloadOrphan → Bool
rejects none o = false
rejects (some s) o = not (s.orphan.message_id == o.message_id) || s.deleting

-- `scheduleQueuePayloadOrphan`; false is an error.
unfoldable pub schedule_queue_payload_orphan : OrphanCell → QueuePayloadOrphan → OrphanCell × Bool
schedule_queue_payload_orphan c o =
    if not (is_valid_orphan o) || rejects c.orphan o
    then (c, false)
    else (let next = scheduled c.orphan o in
        (record { orphan = some next; alarm = some next.orphan.expires_at }, true))

-- `cancelQueuePayloadOrphan`
unfoldable pub cancel_queue_payload_orphan : OrphanCell → String → OrphanCell
cancel_queue_payload_orphan c m =
    if non_empty m
    then match_option c.orphan c
        (λ s. if s.orphan.message_id == m then record { orphan = none; alarm = none } else c)
    else c

-- The first transaction of the orphan's alarm: the deletion is leased once it is due.
unfoldable pub lease_orphan : OrphanCell → ℕ → OrphanCell × Option QueuePayloadOrphanState
lease_orphan c now =
    match_option c.orphan (c, none)
      (λ s.
        if ltb now s.orphan.expires_at
        then (record c { alarm = some s.orphan.expires_at }, none)
        else if s.deleting
        then (c, some s)
        else (let next = record s { generation = s.generation + 1; deleting = true } in
            (record c { orphan = some next }, some next)))

abbrev pub is_lease : QueuePayloadOrphanState → QueuePayloadOrphanState → Bool
is_lease s leased =
    (s.orphan.message_id == leased.orphan.message_id)
    && eqb s.generation leased.generation
    && s.deleting

-- Its last transaction, after the objects were deleted and the run's registration was dropped.
unfoldable pub finish_orphan : OrphanCell → QueuePayloadOrphanState → OrphanCell
finish_orphan c leased =
    match_option c.orphan c
      (λ s. if is_lease s leased then record { orphan = none; alarm = none } else c)
