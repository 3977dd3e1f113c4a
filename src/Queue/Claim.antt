-- ===== src/Queue/Claim.antt =====
-- The claim cell of `src/worker/durable-objects/WorkflowRunDO.ts`: an instance named
-- `claim:<queueName>:<idempotencyKey>` holds one producer reservation and one in-flight claim.
-- Each operation is one storage transaction; `now` is what the clock answers in it.
use world_celld.Common.{
  ℕ, ◌+◌, ◌*◌, ◌-◌, ◌^◌, min, max, String, Bool, true, false, not, ◌&&◌, ◌||◌, Option, none, some,
  leb, ltb, ◌==◌, if◌then◌else◌,
}

-- `QUEUE_RESERVATION_GRACE_MS`
abbrev pub queue_reservation_grace_ms : ℕ
queue_reservation_grace_ms = 5 * 24 * 60 * 60 * 1000

-- `Number.MAX_SAFE_INTEGER`, the bound of `isNonNegativeSafeInteger`
abbrev pub max_safe_integer : ℕ
max_safe_integer = 2 ^ 53 - 1

pub record Claim : Type 0 where
  pub message_id : String
  pub expires_at : ℕ
  pub retry_at : Option ℕ

-- `publication_pending` is false where the field is absent.
pub record Reservation : Type 0 where
  pub message_id : String
  pub expires_at : ℕ
  pub publication_pending : Bool

pub record ClaimCell : Type 0 where
  pub reservation : Option Reservation
  pub claim : Option Claim
  pub alarm : Option ℕ

-- What a method returns, or the `TypeError` of its argument check.
pub data Checked {ℓ} (A : Type ℓ) : Type ℓ where
  ok : A → Checked A
  type_error : Checked A

pub record ReserveParams : Type 0 where
  pub message_id : String
  pub expires_at : ℕ
  pub publication_pending : Bool

pub record HoldParams : Type 0 where
  pub message_id : String
  pub retry_at : ℕ
  pub expires_at : ℕ
  pub reservation_expires_at : Option ℕ

pub record Admission : Type 0 where
  pub admitted : Bool
  pub message_id : String
  pub publication_pending : Bool

pub record ClaimReply : Type 0 where
  pub claimed : Bool
  pub retry_at : Option ℕ

abbrev pub non_empty : String → Bool
non_empty s = not (s == "")

abbrev pub safe : ℕ → Bool
safe n = leb n max_safe_integer

abbrev pub positive_safe : ℕ → Bool
positive_safe n = ltb 0 n && safe n

abbrev pub safe_option : Option ℕ → Bool
safe_option none = true
safe_option (some n) = safe n

-- `claim?.expiresAt ?? at` under `Math.min`
abbrev pub min_claim : ℕ → Option Claim → ℕ
min_claim at none = at
min_claim at (some c) = min at c.expires_at

abbrev pub min_reservation : ℕ → Option Reservation → ℕ
min_reservation at none = at
min_reservation at (some r) = min at r.expires_at

-- The alarm for what is still stored: the earlier deadline, or no alarm (`Math.min` of infinities).
abbrev pub next_alarm : Option Reservation → Option Claim → Option ℕ
next_alarm none none = none
next_alarm none (some c) = some c.expires_at
next_alarm (some r) c = some (min_claim r.expires_at c)

-- `existing && existing.expiresAt > now && (existing.messageId !== id || publicationPending)`
abbrev pub blocks : Option Reservation → ℕ → ReserveParams → Bool
blocks none now p = false
blocks (some r) now p =
    ltb now r.expires_at && (not (r.message_id == p.message_id) || p.publication_pending)

abbrev pub expiry_or_zero : Option Reservation → ℕ
expiry_or_zero none = 0
expiry_or_zero (some r) = r.expires_at

abbrev pub reserved_by : Option Reservation → String → Bool
reserved_by none m = false
reserved_by (some r) m = r.message_id == m

abbrev pub claimed_by : Option Claim → String → Bool
claimed_by none m = false
claimed_by (some c) m = c.message_id == m

abbrev pub refusal : Option Reservation → Admission
refusal none = record { admitted = false; message_id = ""; publication_pending = false }
refusal (some r) = record {
  admitted = false;
  message_id = r.message_id;
  publication_pending = r.publication_pending;
}

abbrev pub new_reservation : Option Reservation → ReserveParams → Reservation
new_reservation existing p = record {
  message_id = p.message_id;
  expires_at = max (expiry_or_zero existing) p.expires_at;
  publication_pending = p.publication_pending;
}

abbrev pub confirmed : Option Reservation → String → ℕ → Option Reservation
confirmed none m at = none
confirmed (some r) m at =
    some (record { message_id = m; expires_at = max r.expires_at at; publication_pending = false })

-- A broker delivery confirms the publication of the reservation that it carries.
abbrev pub delivered : Option Reservation → String → ℕ → Option Reservation
delivered none m now = none
delivered (some r) m now =
    if r.publication_pending && (r.message_id == m)
    then confirmed (some r) m (now + queue_reservation_grace_ms)
    else some r

abbrev pub fresh_claim : String → ℕ → Claim
fresh_claim m at = record { message_id = m; expires_at = at; retry_at = none }

-- The early returns of a claim on a live claim: another message's, or one not yet due for a retry.
abbrev pub claim_refusal : Option Claim → String → ℕ → Option ClaimReply
claim_refusal none m now = none
claim_refusal (some c) m now =
    if ltb now c.expires_at
    then (if not (c.message_id == m)
        then some (record { claimed = false; retry_at = none })
        else elim c.retry_at [
          | none ↦ some (record { claimed = false; retry_at = some c.expires_at })
          | some at ↦
              if ltb now at then some (record { claimed = false; retry_at = some at }) else none
        ])
    else none

abbrev pub held_claim : Claim → HoldParams → Claim
held_claim c p = record {
  message_id = c.message_id;
  expires_at = max c.expires_at p.expires_at;
  retry_at = some p.retry_at;
}

-- The lease of the reservation grows with the hold, and never shrinks.
abbrev pub held_reservation : Option Reservation → HoldParams → Option Reservation
held_reservation none p = none
held_reservation (some r) p = elim p.reservation_expires_at [
  | none ↦ some r
  | some at ↦
      if (r.message_id == p.message_id) && ltb r.expires_at at
      then some (record r { expires_at = at })
      else some r
]

abbrev pub granted : ClaimReply
granted = record { claimed = true; retry_at = none }

-- What a completion leaves.
abbrev pub without_reservation : Option Reservation → String → Option Reservation
without_reservation r m = if reserved_by r m then none else r

abbrev pub without_claim : Option Claim → String → Option Claim
without_claim c m = if claimed_by c m then none else c
