-- ===== src/Jobs/Events/Dispatch.antt =====
-- `dispatch_user_event` of src/benji_api/services/user_events.py: a worker claims an event and
-- attempts it; where that fails, the event is retried, and once its attempts are used up, the user
-- is told what became of an app without the agent.
pub mod Settling
pub mod Telling
pub mod Closing
use dot_backend.Prelude.{
  ℕ, ◌≡◌, String, Bool, true, false, ◌&&◌, ◌||◌, Option, none, some, List, str_eq, if◌then◌else◌,
}
use dot_backend.Groups.Records.{Result, err, ok, Conversation}
use dot_backend.Jobs.FollowUps.Sending.{Channel}
use dot_backend.Jobs.Events.{UserEvent, claim_event, retry_event}
use dot_backend.Jobs.Events.Turns.{
  Message, PersistedReply, ensure_app_completion_turn, ensure_app_failure_turn,
}
use dot_backend.Jobs.Events.Targets.{Store, resolve_event_target}
use dot_backend.Jobs.Events.Attempts.{
  Worker, Delivery, ready, held_back, no_adapter, Attempt, finished, raised, attempt, channel_id,
  message_key, fresh_at, with_messages, finish_in,
}

-- The turn that the code writes itself, and the tables.
abbrev pub fallback_turn :
    Worker
    → UserEvent
    → Conversation
    → Option Channel
    → ℕ
    → Store
    → Option (List PersistedReply × List Message)
fallback_turn w e c channel now s =
    if str_eq e.event_type "app.build.completed"
    then ensure_app_completion_turn e c.id (channel_id channel) (message_key w e) (fresh_at now s)
        s.messages
    else some (
        ensure_app_failure_turn e c.id (channel_id channel) (message_key w e) (fresh_at now s)
          s.messages)

-- Delivered if no turn was made before; an error of the delivery is only logged.
abbrev pub deliver_fallback :
    Worker → UserEvent → Conversation → Bool → Delivery → List PersistedReply → Store → Store
deliver_fallback w e c false (ready to) replies s = (w.deliver to c replies (message_key w e) s).1
deliver_fallback w e c true (ready to) replies s = s
deliver_fallback w e c had_turn (held_back remark) replies s = s
deliver_fallback w e c had_turn (no_adapter error) replies s = s

abbrev pub exhausted_note : Option String
exhausted_note =
    some "Agent generation exhausted retries; persisted the canonical app completion instead"

abbrev pub with_fallback :
    Worker
    → UserEvent
    → Conversation
    → Bool
    → Delivery
    → ℕ
    → Store
    → Option (List PersistedReply × List Message)
    → Store
with_fallback w e c had_turn d now s none = s
with_fallback w e c had_turn d now s (some (replies, rows)) =
    finish_in e exhausted_note now
      (deliver_fallback w e c had_turn d replies (with_messages s rows))

abbrev pub tell :
    Worker → UserEvent → Bool → Delivery → ℕ → Conversation × Option Channel → Store → Store
tell w e had_turn d now (c, channel) s =
    with_fallback w e c had_turn d now s (fallback_turn w e c channel now s)

abbrev pub tell_resolved :
    Worker
    → UserEvent
    → Bool
    → Delivery
    → ℕ
    → Store
    → Result String ((Conversation × Option Channel) × Store)
    → Store
tell_resolved w e had_turn d now s (err error) = s
tell_resolved w e had_turn d now s (ok (target, s')) = tell w e had_turn d now target s'

-- What the code does when the attempts are used up; an error in it is only logged.
abbrev pub last_resort :
    Worker
    → UserEvent
    → Option (Conversation × Option Channel)
    → Bool
    → Delivery
    → ℕ
    → Store
    → Store
last_resort w e (some target) had_turn d now s = tell w e had_turn d now target s
last_resort w e none had_turn d now s =
    tell_resolved w e had_turn d now s (resolve_event_target w.print_id e now s)

abbrev pub tells_itself : UserEvent → Bool
tells_itself e = str_eq e.event_type "app.build.completed" || str_eq e.event_type "app.build.failed"

abbrev pub retry_in : UserEvent → String → ℕ → ℕ → Store → Bool × Store
retry_in e error max_attempts now s =
    let (used_up, events) = retry_event e.id error max_attempts now s.events in
    (used_up, record s { events = events })

-- The `except` of the dispatch, from what the retry says and leaves.
abbrev pub after_failure :
    Worker
    → UserEvent
    → Option (Conversation × Option Channel)
    → Bool
    → Delivery
    → ℕ
    → Bool × Store
    → Store
after_failure w e target had_turn d now (used_up, s) =
    if used_up && tells_itself e then last_resort w e target had_turn d now s else s

abbrev pub settle : Worker → UserEvent → ℕ → ℕ → Attempt → Store
settle w e max_attempts now (finished s) = s
settle w e max_attempts now (raised error target had_turn d s) =
    after_failure w e target had_turn d now (retry_in e error max_attempts now s)

abbrev pub with_claimed : Worker → ℕ → ℕ → Store → Option UserEvent × List UserEvent → Bool × Store
with_claimed w max_attempts now s (none, rows) = (false, record s { events = rows })
with_claimed w max_attempts now s (some e, rows) =
    (true, settle w e max_attempts now (attempt w e now (record s { events = rows })))

-- `dispatch_user_event`, with the times at which it claims and at which it does the rest.
unfoldable pub dispatch_user_event :
    Worker → (ℕ → Bool) → ℕ → Option ℕ → ℕ → ℕ → Store → Bool × Store
dispatch_user_event w busy max_attempts event_id claimed now s =
    with_claimed w max_attempts now s (claim_event busy max_attempts event_id claimed s.events)
