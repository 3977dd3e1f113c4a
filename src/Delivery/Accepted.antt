-- ===== src/Delivery/Accepted.antt =====
-- What the validation of `src/queue-protocol.ts` accepts, told apart from its tests.
use world_celld.Common.{
  ℕ, ◌+◌, ◌≤◌, ◌<◌, inl, inr, String, Bool, true, false, not, ◌&&◌, ◌||◌, Option, none, some,
  is_some, if◌then◌else◌, match_option, ◌≡◌, ◌≢◌, ◌⊎◌, ◌↔◌, arith, refl, if-rule, eq_iff,
}
use world_celld.Queue.Claim.{safe_option, non_empty}
use world_celld.Delivery.Envelope.{
  Json, text, RawEnvelope, NativeQueueEnvelope, is_version_1, required_text, optional_text,
  optional_integer, scope_of, is_consistent, accept_consistent, validate_native_queue_envelope,
  in_schedule, json_text, json_number, absent, json_of,
}

-- What an envelope promises: it names a message, a queue and a target; exactly one of the payload's
-- key and the payload itself is given; a claim of a run names the run; the deadline leaves room for
-- a claim before the largest time, 9,999,999,999,999 ms, and the counters are integers that
-- JavaScript represents.
pub record IsEnvelope (e : NativeQueueEnvelope) : Type 0 where
  pub message_id : e.message_id ≢ ""
  pub queue_name : e.queue_name ≢ ""
  pub target_base_url : e.target_base_url ≢ ""
  pub payload :
      ((key : String) × (e.payload_key ≡ some key) × (e.body ≡ none))
      ⊎ ((body : String) × (e.payload_key ≡ none) × (e.body ≡ some body))
  pub scope : e.run_scoped ≡ true → (run_id : String) × (e.run_id ≡ some run_id)
  pub not_before : (at : ℕ) → e.not_before ≡ some at → at + 900000 < 9999999999999
  pub delivery_failures : (n : ℕ) → e.delivery_failures ≡ some n → n ≤ 9007199254740991
  pub suspension_count : (n : ℕ) → e.suspension_count ≡ some n → n ≤ 9007199254740991

-- The validation's own tests.
record Passes (e : NativeQueueEnvelope) : Type 0 where
  pub message_id : non_empty e.message_id ≡ true
  pub queue_name : non_empty e.queue_name ≡ true
  pub target_base_url : non_empty e.target_base_url ≡ true
  pub not_before : safe_option e.not_before ≡ true
  pub delivery_failures : safe_option e.delivery_failures ≡ true
  pub suspension_count : safe_option e.suspension_count ≡ true
  pub consistent : is_consistent e ≡ true

required-json : (s : String) → non_empty s ≡ true → required_text (text s) ≡ some s
required-json s h = ground (arith, h)

text-json : (o : Option String) → optional_text (json_text o) ≡ some o
text-json none = refl
text-json (some s) = refl

number-json : (o : Option ℕ) → safe_option o ≡ true → optional_integer (json_number o) ≡ some o
number-json none h = refl
number-json (some n) h = ground (arith, h)

scope-json : (b : Bool) → scope_of (if b then text "run" else absent) ≡ some b
scope-json true = refl
scope-json false = refl

reads_back :
    (e : NativeQueueEnvelope) → Passes e → validate_native_queue_envelope (json_of e) ≡ some e
unfolding validate_native_queue_envelope json_of
reads_back e h = rw (required-json e.message_id h.message_id) (
    rw (required-json e.queue_name h.queue_name) (
      rw (required-json e.target_base_url h.target_base_url) (
        rw
          (
            text-json e.run_id,
            text-json e.idempotency_key,
            text-json e.payload_key,
            text-json e.body,
            scope-json e.run_scoped,
          )
          (rw
            (
              number-json e.not_before h.not_before,
              number-json e.delivery_failures h.delivery_failures,
              number-json e.suspension_count h.suspension_count,
            )
            (rw (h.consistent) refl)))))

record Accepted (o : Option NativeQueueEnvelope) : Type 0 where
  holds : (e : NativeQueueEnvelope) → o ≡ some e → Passes e

refused-Accepted : Accepted none
refused-Accepted = record { holds = λ e h. ground (arith, h) }

accept-next :
    {A : Type 0} (o : Option A) (next : A → Option NativeQueueEnvelope)
    → ((a : A) → o ≡ some a → Accepted (next a))
    → Accepted (match_option o none next)
accept-next none next h = refused-Accepted
accept-next (some a) next h = h a refl

accept_consistent-Accepted :
    (e : NativeQueueEnvelope) → (is_consistent e ≡ true → Passes e) → Accepted (accept_consistent e)
accept_consistent-Accepted e h =
    if-rule Accepted (is_consistent e) (some e) none
      (λ fine. record { holds = λ f same. ground (arith, h fine, same) }) (λ _. refused-Accepted)

required-non_empty : (j : Json) (s : String) → required_text j ≡ some s → non_empty s ≡ true
required-non_empty j s h = ground (arith, h)

integer-safe : (j : Json) (o : Option ℕ) → optional_integer j ≡ some o → safe_option o ≡ true
integer-safe j o h = ground (arith, h)

validate-Accepted : (r : RawEnvelope) → Accepted (validate_native_queue_envelope r)
unfolding validate_native_queue_envelope
validate-Accepted r =
    if-rule Accepted (not (is_version_1 r.version)) _ _ (λ _. refused-Accepted)
      (λ _. accept-next (required_text r.message_id) _ (λ message_id hm.
        accept-next (required_text r.queue_name) _ (λ queue_name hq.
          accept-next (required_text r.target_base_url) _ (λ target hu.
            accept-next (optional_text r.run_id) _ (λ run_id hr.
              accept-next (optional_text r.idempotency_key) _ (λ key hk.
                accept-next (optional_text r.payload_key) _ (λ payload hp.
                  accept-next (optional_text r.body) _ (λ body hb.
                    accept-next (scope_of r.claim_scope) _ (λ scoped hs.
                      accept-next (optional_integer r.not_before) _ (λ not_before hn.
                        accept-next (optional_integer r.delivery_failures) _ (λ failures hf.
                          accept-next (optional_integer r.suspension_count) _ (λ suspensions hc.
                            accept_consistent-Accepted
                              (record {
                                message_id = message_id;
                                queue_name = queue_name;
                                target_base_url = target;
                                run_id = run_id;
                                idempotency_key = key;
                                payload_key = payload;
                                body = body;
                                not_before = not_before;
                                run_scoped = scoped;
                                delivery_failures = failures;
                                suspension_count = suspensions;
                              })
                              (λ fine. record {
                                message_id = required-non_empty r.message_id message_id hm;
                                queue_name = required-non_empty r.queue_name queue_name hq;
                                target_base_url = required-non_empty r.target_base_url target hu;
                                not_before = integer-safe r.not_before not_before hn;
                                delivery_failures = integer-safe r.delivery_failures failures hf;
                                suspension_count = integer-safe r.suspension_count suspensions hc;
                                consistent = fine;
                              })))))))))))))

validate-Passes :
    (r : RawEnvelope) (e : NativeQueueEnvelope)
    → validate_native_queue_envelope r ≡ some e
    → Passes e
validate-Passes r e accepted = (validate-Accepted r).holds e accepted

one_payload :
    (key body : Option String)
    → ((is_some key && not (is_some body)) || (not (is_some key) && is_some body)) ≡ true
    → ((k : String) × (key ≡ some k) × (body ≡ none))
      ⊎ ((b : String) × (key ≡ none) × (body ≡ some b))
one_payload none none h = cc
one_payload none (some b) h = inr (b, refl, refl)
one_payload (some k) none h = inl (k, refl, refl)
one_payload (some k) (some b) h = cc

within-safe : (o : Option ℕ) → ((n : ℕ) → o ≡ some n → n ≤ 9007199254740991) → safe_option o ≡ true
within-safe none h = refl
within-safe (some n) h = ground (arith, h n refl)

within-schedule :
    (o : Option ℕ) → ((at : ℕ) → o ≡ some at → at + 900000 < 9999999999999) → in_schedule o ≡ true
within-schedule none h = refl
within-schedule (some n) h = ground (arith, h n refl)

Passes-IsEnvelope : (e : NativeQueueEnvelope) → Passes e → IsEnvelope e
Passes-IsEnvelope e h = record {
  message_id = λ same. ground (arith, h.message_id, same, eq_iff e.message_id "");
  queue_name = λ same. ground (arith, h.queue_name, same, eq_iff e.queue_name "");
  target_base_url = λ same. ground (arith, h.target_base_url, same, eq_iff e.target_base_url "");
  payload = one_payload e.payload_key e.body (ground (arith, h.consistent));
  scope = λ scoped. ground (arith, h.consistent, scoped);
  not_before = λ at given. ground (arith, h.consistent, given);
  delivery_failures = λ n given. ground (arith, h.delivery_failures, given);
  suspension_count = λ n given. ground (arith, h.suspension_count, given);
}

IsEnvelope-Passes : (e : NativeQueueEnvelope) → IsEnvelope e → Passes e
IsEnvelope-Passes e h = record {
  message_id = ground (arith, h.message_id, eq_iff e.message_id "");
  queue_name = ground (arith, h.queue_name, eq_iff e.queue_name "");
  target_base_url = ground (arith, h.target_base_url, eq_iff e.target_base_url "");
  not_before = within-safe e.not_before (λ n given. ground (arith, h.not_before n given));
  delivery_failures = within-safe e.delivery_failures h.delivery_failures;
  suspension_count = within-safe e.suspension_count h.suspension_count;
  consistent = ground (arith, h.payload, h.scope, within-schedule e.not_before h.not_before);
}

-- Whatever JSON object is validated, an envelope that is accepted meets the conditions.
pub validate-IsEnvelope :
    (r : RawEnvelope) (e : NativeQueueEnvelope)
    → validate_native_queue_envelope r ≡ some e
    → IsEnvelope e
validate-IsEnvelope r e accepted = Passes-IsEnvelope e (validate-Passes r e accepted)

-- An envelope is read back from its JSON form as it was exactly when it meets the conditions.
pub validate-json_of_iff :
    (e : NativeQueueEnvelope) → (validate_native_queue_envelope (json_of e) ≡ some e) ↔ IsEnvelope e
validate-json_of_iff e =
    (validate-IsEnvelope (json_of e) e, λ h. reads_back e (IsEnvelope-Passes e h))
