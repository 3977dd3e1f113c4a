-- ===== src/RunCell/Orphan.antt =====
-- When the orphan cell of `src/worker/durable-objects/WorkflowRunDO.ts` deletes a payload.
use world_celld.Common.{ℕ, ◌≤◌, ◌≡◌, true, Option, none, some, List, [], ◌∷◌, arith}
use world_celld.RunCell.Payload.{
  QueuePayloadOrphan, QueuePayloadOrphanState, OrphanCell, schedule_queue_payload_orphan,
  lease_orphan,
}

-- What the orphan cell is asked while its message is not finished: another schedule, or an alarm.
pub data OrphanOp : Type 0 where
  again : QueuePayloadOrphan → OrphanOp
  fire : ℕ → OrphanOp

unfoldable pub orphan_step : OrphanCell → OrphanOp → OrphanCell
orphan_step c (again o) = (schedule_queue_payload_orphan c o).0
orphan_step c (fire now) = (lease_orphan c now).0

unfoldable pub orphan_steps : OrphanCell → List OrphanOp → OrphanCell
orphan_steps c [] = c
orphan_steps c (op ∷ later) = orphan_steps (orphan_step c op) later

-- The orphan is due no earlier than a deadline.
abbrev DueFrom : ℕ → Option QueuePayloadOrphanState → Type 0
DueFrom at none = ⊥
DueFrom at (some s) = at ≤ s.orphan.expires_at

orphan_step-DueFrom :
    (at : ℕ) (c : OrphanCell) (op : OrphanOp)
    → DueFrom at c.orphan
    → DueFrom at (orphan_step c op).orphan
unfolding orphan_step schedule_queue_payload_orphan lease_orphan
orphan_step-DueFrom at c (again o) h = ground arith
orphan_step-DueFrom at c (fire now) h = ground arith

scheduled-DueFrom :
    (c : OrphanCell) (o : QueuePayloadOrphan)
    → (schedule_queue_payload_orphan c o).1 ≡ true
    → DueFrom o.expires_at (schedule_queue_payload_orphan c o).0.orphan
unfolding schedule_queue_payload_orphan
scheduled-DueFrom c o h = ground (arith, h)

leased-DueFrom :
    (at now : ℕ) (ops : List OrphanOp) (c : OrphanCell) (leased : QueuePayloadOrphanState)
    → DueFrom at c.orphan
    → (lease_orphan (orphan_steps c ops) now).1 ≡ some leased
    → at ≤ now
unfolding orphan_steps lease_orphan
leased-DueFrom at now [] c leased h l = ground (arith, l)
leased-DueFrom at now (op ∷ later) c leased h l =
    leased-DueFrom at now later (orphan_step c op) leased (orphan_step-DueFrom at c op h) l

-- Once a payload's orphan was scheduled for a deadline, and while it is neither cancelled nor finished,
-- however often it is scheduled again and tried, its deletion is never leased before that deadline.
pub leased_not_before :
    (c : OrphanCell) (o : QueuePayloadOrphan) (ops : List OrphanOp) (now : ℕ)
    (leased : QueuePayloadOrphanState)
    → (schedule_queue_payload_orphan c o).1 ≡ true
    → (lease_orphan (orphan_steps (schedule_queue_payload_orphan c o).0 ops) now).1 ≡ some leased
    → o.expires_at ≤ now
leased_not_before c o ops now leased accepted =
    leased-DueFrom o.expires_at now ops (schedule_queue_payload_orphan c o).0 leased
      (scheduled-DueFrom c o accepted)
