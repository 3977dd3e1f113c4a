-- ===== src/Apply/HookCases.antt =====
-- The cases of `applyEvent`'s switch that write a hook, and the event-only ones.
use world_celld.Common.{
  String, Bool, true, false, not, ◌&&◌, Option, none, some, [], ◌∷◌, if◌then◌else◌, is_some, get_or,
  match_option, update, without, truthy, ◌==◌,
}
use world_celld.Apply.Entities.{
  Owner, ClaimedFrom, Hook, HookReference, HookSeed, HookConflict, Event, EventData, hook_created,
  hook_received, hook_conflict,
}
use world_celld.Apply.External.{Platform}
use world_celld.Apply.Transaction.{
  Store, State, Context, hook_not_found, hook_claim_cancelled, entity_conflict, nothing, done,
  Result, thrown, returned, failure, effective_spec, append_event, put_indexed, drop_indexed,
}

abbrev pub claim_cancelled : Context → State → Bool
claim_cancelled ctx st = elim (truthy ctx.hook_claim_id) [
  | none ↦ false
  | some claim ↦ is_some (st.hook_cancellations claim)
]

-- Another hook, of this run or another, holds the token.
abbrev pub conflicting : Context → Option Owner
conflicting ctx = elim ctx.token_holder [
  | none ↦ none
  | some holder ↦
      if (holder.run_id == ctx.run_id) && (holder.hook_id == ctx.correlation_id)
      then none
      else some holder
]

abbrev pub conflict_of : Context → HookSeed → Owner → HookConflict
conflict_of ctx seed holder = record {
  token = seed.token;
  conflicting_run_id = holder.run_id;
  force_refused = seed.force && ctx.force_refused;
}

abbrev pub claimed_from_of : Context → HookSeed → Option ClaimedFrom
claimed_from_of ctx seed = if seed.force then ctx.claimed_from else none

-- The three empty fields `ownerId`, `projectId` and `environment` are left out.
abbrev pub new_hook : Platform → Context → HookSeed → Hook
new_hook p ctx seed = record {
  run_id = ctx.run_id;
  hook_id = ctx.correlation_id;
  token = seed.token;
  metadata = seed.metadata;
  created_at = ctx.now;
  spec_version = effective_spec p ctx;
  is_webhook = get_or seed.is_webhook false;
  is_system = seed.is_system;
  token_retention_until = seed.token_retention_until;
  claimed_from = claimed_from_of ctx seed;
}

-- The crash orphan: the hook of a committed creation whose index entry was lost.
abbrev pub orphan : Context → State → HookSeed → Option Hook
orphan ctx st seed = elim (st.hooks ctx.correlation_id) [
  | none ↦ none
  | some h ↦ if not (is_some ctx.token_holder) && (h.token == seed.token) then some h else none
]

abbrev pub repeat_creation : Context → State → HookSeed → Result
repeat_creation ctx st seed =
    match_option (orphan ctx st seed) (failure entity_conflict st)
      (λ h. returned (done (record nothing { hook = some h; hook_to_index = some h })) st)

abbrev pub put_new_hook : Context → Store → Hook → Store
put_new_hook ctx s h = record s {
  hooks = update s.hooks ctx.correlation_id h;
  hook_index = put_indexed s.hook_index h.created_at h.hook_id;
}

abbrev pub with_hook_marker : Context → State → Event → State
with_hook_marker ctx st e = record st {
  store = record st.store { hook_markers = update st.hook_markers ctx.correlation_id e.event_id };
}

abbrev pub hook_made : Context → Hook → Event → State → Result
hook_made ctx h e st =
    returned (done (record nothing { event = some e; hook = some h; hook_to_index = some h }))
      (with_hook_marker ctx st e)

abbrev pub create_hook : Platform → Context → State → HookSeed → Result
create_hook p ctx st seed =
    let h = new_hook p ctx seed in
    if p.hook_accepted h
    then append_event p ctx st (put_new_hook ctx st.store h)
        (hook_created (record seed { force_claimed_from = claimed_from_of ctx seed }))
        (hook_made ctx h)
    else thrown

abbrev pub event_saved : Event → State → Result
event_saved e st = returned (done (record nothing { event = some e })) st

unfoldable pub apply_hook_created : Platform → Context → State → HookSeed → Result
apply_hook_created p ctx st seed =
    if claim_cancelled ctx st
    then failure hook_claim_cancelled st
    else match_option (conflicting ctx)
        (if is_some (st.hook_markers ctx.correlation_id)
          then repeat_creation ctx st seed
          else create_hook p ctx st seed)
        (λ holder.
          append_event p ctx st st.store (hook_conflict (conflict_of ctx seed holder)) event_saved)

abbrev pub reference : Hook → HookReference
reference h = record { hook_id = h.hook_id; token = h.token }

-- The hook goes with its creation index, and its release marker is written.
abbrev pub drop_hook : Store → String → Hook → Store
drop_hook s id h = record s {
  hooks = without s.hooks id;
  hook_index = drop_indexed s.hook_index h.created_at h.hook_id;
  hook_releases = update s.hook_releases h.hook_id (reference h);
}

abbrev pub hook_dropped : Hook → Event → State → Result
hook_dropped h e st =
    returned (done (record nothing { event = some e; released_hooks = reference h ∷ [] })) st

unfoldable pub apply_hook_disposed : Platform → Context → State → Result
apply_hook_disposed p ctx st =
    match_option (st.hooks ctx.correlation_id) (failure hook_not_found st) (λ h.
      append_event p ctx st (drop_hook st.store ctx.correlation_id h) ctx.content (hook_dropped h))

abbrev pub is_received : EventData → Bool
is_received (hook_received payload) = true
is_received _ = false

abbrev pub with_resume_claim : Context → State → Event → State
with_resume_claim ctx st e =
    if is_received ctx.content
    then match_option (truthy ctx.params.resume_id) st (λ id. record st {
      store = record st.store {
        resume_claims = update st.resume_claims id (record {
          hook_id = ctx.correlation_id;
          event_id = e.event_id;
          payload_digest = truthy ctx.params.resume_payload_digest;
        });
      };
    })
    else st

abbrev pub event_recorded : Context → Event → State → Result
event_recorded ctx e st = event_saved e (with_resume_claim ctx st e)

unfoldable pub apply_event_only : Platform → Context → State → Result
apply_event_only p ctx st = append_event p ctx st st.store ctx.content (event_recorded ctx)
