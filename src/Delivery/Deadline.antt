-- ===== src/Delivery/Deadline.antt =====
-- Deadlines and delays of queue messages (`src/validation.ts`, `src/queue-protocol.ts`,
-- `src/worker/queue-consumer.ts`).
use world_celld.Common.{
  ℕ, ◌+◌, ◌*◌, ◌-◌, ◌/◌, ◌^◌, ◌≤◌, min, ◌≡◌, ◌↔◌, Bool, not, ◌&&◌, ◌||◌, Option, none, some, leb,
  ltb, arith, if◌then◌else◌, match_option,
}
use world_celld.Queue.Claim.{safe}

-- `MAX_QUEUE_TIMESTAMP_MS`, the largest time of 13 digits
abbrev pub max_queue_timestamp_ms : ℕ
max_queue_timestamp_ms = 9999999999999

-- `MAX_QUEUE_DELAY_SECONDS`
abbrev pub max_queue_delay_seconds : ℕ
max_queue_delay_seconds = 9999999999

-- `NATIVE_QUEUE_MAX_DELAY_SECONDS`
abbrev pub native_queue_max_delay_seconds : ℕ
native_queue_max_delay_seconds = 86400

-- `QUEUE_CLAIM_STALE_MS`
abbrev pub queue_claim_stale_ms : ℕ
queue_claim_stale_ms = 15 * 60 * 1000

-- `checkedQueueTimestampAdd` on numbers
unfoldable pub checked_queue_timestamp_add : (timestamp offset headroom : ℕ) → Option ℕ
checked_queue_timestamp_add timestamp offset headroom =
    if not (safe timestamp) || not (safe offset) || not (safe headroom)
    then none
    else if ltb max_queue_timestamp_ms timestamp || ltb (max_queue_timestamp_ms - timestamp) offset
    then none
    else if leb headroom (max_queue_timestamp_ms - (timestamp + offset))
    then some (timestamp + offset)
    else none

-- `isValidQueueDelaySeconds` on a number
abbrev pub is_valid_queue_delay_seconds : (value minimum : ℕ) → Bool
is_valid_queue_delay_seconds value minimum =
    safe value && leb minimum value && leb value max_queue_delay_seconds

-- `queueDelayDeadline`; a value that is no number is none.
unfoldable pub queue_delay_deadline : ℕ → Option ℕ → (minimum headroom : ℕ) → Option ℕ
unfolding checked_queue_timestamp_add
queue_delay_deadline now delay minimum headroom = match_option delay none (λ seconds.
    if not (safe now) || not (is_valid_queue_delay_seconds seconds minimum)
    then none
    else checked_queue_timestamp_add now (seconds * 1000) headroom)

-- `nativeQueueDelaySeconds`
unfoldable pub native_queue_delay_seconds : Option ℕ → ℕ → ℕ
native_queue_delay_seconds not_before now =
    match_option not_before 0
      (λ at. if leb at now then 0 else min native_queue_max_delay_seconds ((at - now + 999) / 1000))

-- `backoffSeconds`
unfoldable pub backoff_seconds : ℕ → ℕ
backoff_seconds attempt = min 60 (2 ^ min attempt 30)

-- A deadline is given exactly when the delay is at least the minimum and the deadline leaves the
-- headroom below the largest time; it is then the delay after now.
pub deadline_bounds :
    (now seconds minimum headroom at : ℕ)
    → headroom ≤ max_queue_timestamp_ms
    → (queue_delay_deadline now (some seconds) minimum headroom ≡ some at) ↔ (
        (minimum ≤ seconds)
        × (at ≡ now + seconds * 1000)
        × (at + headroom ≤ max_queue_timestamp_ms))
unfolding queue_delay_deadline checked_queue_timestamp_add
deadline_bounds now seconds minimum headroom at fits = ground arith
