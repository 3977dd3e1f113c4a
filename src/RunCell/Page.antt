-- ===== src/RunCell/Page.antt =====
-- The event page of a response: `finalizeEventPage` and `attachHookReplayPreload` of
-- `src/apply-event.ts`.
use Prim.Native.String.{compare}
use Prim.Native.Nat.{Ordering}
use world_celld.Common.{
  ℕ, ◌+◌, ◌-◌, String, Bool, true, false, ◌&&◌, Option, none, some, List, [], ◌∷◌, leb, ltb, length,
  truthy, is_some, match_option, if◌then◌else◌,
}
use world_celld.Apply.Entities.{Run, RunStatus, Event, EventData, hook_received}
use world_celld.Apply.External.{Platform, EventPage, last_event_id, list_by_prefix}
use world_celld.Apply.Transaction.{Store, Params, Success, Outcome, failed, done}

-- `<` on event IDs
abbrev pub id_lt : String → String → Bool
id_lt a b = elim (compare a b) [ Ordering.lt ↦ true | _ ↦ false ]

abbrev pub events_before : String → List Event → List Event
events_before id [] = []
events_before id (e ∷ es) =
    let rest = events_before id es in if id_lt e.event_id id then e ∷ rest else rest

abbrev pub with_max_events : Platform → Success → Success
with_max_events p s =
    if is_some s.run
    then match_option s.max_events (record s { max_events = some p.max_events_per_run }) (λ n. s)
    else s

abbrev pub is_running_run : RunStatus → Bool
is_running_run RunStatus.running = true
is_running_run _ = false

abbrev pub replayed_page : Platform → Success → Run → EventPage → Success
replayed_page p s run log =
    if log.has_more
    then s
    else match_option (last_event_id log.events) s (λ last. record s {
      replay_run = some run;
      max_events = some p.max_events_per_run;
      page = some (record { events = log.events; cursor = some last; has_more = false });
    })

-- `attachHookReplayPreload`: the whole log, or nothing
unfoldable pub attach_hook_replay_preload : Platform → Store → Success → Success
attach_hook_replay_preload p s result = match_option s.run result (λ run.
    if is_some run.started_at && is_running_run run.status
    then replayed_page p result run (list_by_prefix p s.events p.max_events_per_run none false)
    else result)

-- The events between the caller's count and the committed one.
abbrev pub skipped_page : Platform → Store → Success → Event → ℕ → ℕ → Success
skipped_page p s result e count slot =
    if leb slot (count + 1)
    then result
    else (let skipped = slot - count - 1 in
        let cursor = if ltb 0 count then truthy (some (p.slot_to_event_id count)) else none in
        let page = list_by_prefix p s.events skipped cursor false in
        let events = events_before e.event_id page.events in
        record result {
          page =
              some
                (record { events = events; cursor = none; has_more = ltb (length events) skipped });
        })

abbrev pub counted_page : Platform → Store → Success → Event → Option ℕ → Success
counted_page p s result e none = result
counted_page p s result e (some count) =
    match_option (p.event_id_to_slot e.event_id) result (skipped_page p s result e count)

abbrev pub cursor_page : Platform → Store → Success → Event → Params → Success
cursor_page p s result e params =
    match_option params.since_cursor (counted_page p s result e params.event_count) (λ cursor.
      record result { page = some (list_by_prefix p s.events 100 (truthy (some cursor)) false) })

abbrev pub is_delivery : EventData → Bool
is_delivery (hook_received payload) = true
is_delivery _ = false

abbrev pub finalize_success : Platform → Store → Success → Params → Success
finalize_success p s result params = match_option result.event result (λ e.
    if params.preload_events && is_delivery e.content
    then attach_hook_replay_preload p s result
    else cursor_page p s result e params)

-- `finalizeEventPage`
unfoldable pub finalize_event_page : Platform → Store → Outcome → Params → Outcome
finalize_event_page p s (failed f) params = failed f
finalize_event_page p s (done result) params =
    done (finalize_success p s (with_max_events p result) params)
