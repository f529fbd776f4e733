-- ===== src/Jobs/Events/Attempts.antt =====
-- The `try` of `dispatch_user_event` in src/benji_api/services/user_events.py: the agent continues
-- the conversation from an event, and what it says is delivered. The typing indicator that the
-- source shows meanwhile changes no table, and its errors are only logged.
use dot_backend.Prelude.{
  ℕ, suc, String, Bool, true, false, not, ◌&&◌, Option, none, some, List, [], ◌∷◌, any, str_eq,
  join_text, if◌then◌else◌,
}
use dot_backend.Groups.Records.{Result, err, ok, Conversation}
use dot_backend.Jobs.FollowUps.Sending.{Channel}
use dot_backend.Jobs.Events.{UserEvent, processed, skipped, finish_event}
use dot_backend.Jobs.Events.Turns.{Message, PersistedReply, Fresh, ensure_app_completion_turn}
use dot_backend.Jobs.Events.Targets.{Store, is_direct, resolve_event_target, messaging_opted_out}

-- `_AGENT_EVENT_TYPES`, as the module is loaded
abbrev pub agent_event_types : List String
agent_event_types =
    "integration.connected" ∷ "finance.connected" ∷ "finance.reauth_required" ∷ "group.benji_added"
    ∷ "group.dot_added" ∷ "schedule.triggered" ∷ "app.build.completed" ∷ "app.build.failed" ∷ []

abbrev pub is_known : String → List String → Bool
is_known event_type types = any (λ t. str_eq t event_type) types

-- `register_agent_event_type`
abbrev pub register_agent_event_type : String → List String → List String
register_agent_event_type event_type types =
    if is_known event_type types then types else event_type ∷ types

-- What the worker is given: its settings, the registered types, how Python prints an id, the
-- agent's run for an event (with the channel, the key and the provider of the delivery), and the
-- delivery of replies; the last two change the tables as they like.
pub record Worker : Type 0 where
  pub has_provider : Bool
  pub has_linq_client : Bool
  pub automated_replies : Bool
  pub types : List String
  pub print_id : ℕ → String
  pub run_agent :
      UserEvent
      → Conversation
      → Option Channel
      → String
      → Option String
      → Store
      → Result String (List PersistedReply) × Store
  pub deliver :
      Channel → Conversation → List PersistedReply → String → Store → Option String × Store

-- Whether the replies go out, and the note that is kept if they do not.
pub data Delivery : Type 0 where
  ready : Channel → Delivery
  held_back : Option String → Delivery
  no_adapter : String → Delivery

abbrev pub linq_delivery : Worker → Bool → Option Channel → Delivery
linq_delivery w true channel = held_back (some "User has opted out of proactive messaging")
linq_delivery w false none = held_back (some "No active linq channel")
linq_delivery w false (some c) =
    if not w.automated_replies
    then held_back (some "Automated Linq delivery is disabled")
    else (if not w.has_linq_client
        then held_back (some "Linq delivery is not configured")
        else ready c)

abbrev pub delivery_by :
    Worker → UserEvent → Conversation → Option Channel → Store → Option String → Delivery
delivery_by w e c channel s none = held_back none
delivery_by w e c channel s (some p) =
    if str_eq p "linq"
    then linq_delivery w (is_direct c.kind && messaging_opted_out e.user_id s.users) channel
    else no_adapter (join_text "No delivery adapter for " p)

abbrev pub delivery_of : Worker → UserEvent → Conversation → Option Channel → Store → Delivery
delivery_of w e c channel s = delivery_by w e c channel s e.delivery_provider

abbrev pub channel_id : Option Channel → Option ℕ
channel_id none = none
channel_id (some c) = some c.id

abbrev pub message_key : Worker → UserEvent → String
message_key w e = join_text "benji:user-event:" (w.print_id e.id)

abbrev pub fresh_at : ℕ → Store → Fresh
fresh_at now s = record { message = s.next_id; response_group = suc s.next_id; now = now }

abbrev pub with_messages : Store → List Message → Store
with_messages s rows = record s { messages = rows; next_id = suc (suc s.next_id) }

abbrev pub finish_in : UserEvent → Option String → ℕ → Store → Store
finish_in e remark now s = record s { events = finish_event e.id processed remark now s.events }

-- How the `try` of the dispatch ends: the event is finished, or an error was raised; then what is
-- known of the target, whether a turn was made, and whether the delivery was ready.
pub data Attempt : Type 0 where
  finished : Store → Attempt
  raised : String → Option (Conversation × Option Channel) → Bool → Delivery → Store → Attempt

abbrev pub after_delivery :
    UserEvent
    → Conversation
    → Option Channel
    → Delivery
    → Option String
    → ℕ
    → Option String × Store
    → Attempt
after_delivery e c channel d remark now (none, s) = finished (finish_in e remark now s)
after_delivery e c channel d remark now (some error, s) = raised error (some (c, channel)) true d s

abbrev pub hand_out :
    Worker
    → UserEvent
    → Conversation
    → Option Channel
    → Delivery
    → Option String
    → ℕ
    → List PersistedReply
    → Store
    → Attempt
hand_out w e c channel (ready to) remark now replies s =
    after_delivery e c channel (ready to) remark now (w.deliver to c replies (message_key w e) s)
hand_out w e c channel (held_back n) remark now replies s = finished (finish_in e remark now s)
hand_out w e c channel (no_adapter n) remark now replies s = finished (finish_in e remark now s)

abbrev pub note_of : Delivery → Option String
note_of (ready c) = none
note_of (held_back remark) = remark
note_of (no_adapter error) = none

-- `f"{delivery_note}; {generation_note}" if delivery_note else generation_note`
abbrev pub generation_note : Option String → Option String
generation_note none =
    some "Agent generation failed; persisted the canonical app completion instead"
generation_note (some remark) =
    some
      (join_text remark "; Agent generation failed; persisted the canonical app completion instead")

abbrev pub with_completion :
    Worker
    → UserEvent
    → Conversation
    → Option Channel
    → Delivery
    → ℕ
    → Store
    → Option (List PersistedReply × List Message)
    → Attempt
with_completion w e c channel d now s none =
    raised "App completion event is missing its trusted app URL" (some (c, channel)) false d s
with_completion w e c channel d now s (some (replies, rows)) =
    hand_out w e c channel d (generation_note (note_of d)) now replies (with_messages s rows)

abbrev pub complete_instead :
    Worker → UserEvent → Conversation → Option Channel → Delivery → ℕ → Store → Attempt
complete_instead w e c channel d now s = with_completion w e c channel d now s (
    ensure_app_completion_turn e c.id (channel_id channel) (message_key w e) (fresh_at now s)
      s.messages)

abbrev pub after_run :
    Worker
    → UserEvent
    → Conversation
    → Option Channel
    → Delivery
    → ℕ
    → Result String (List PersistedReply) × Store
    → Attempt
after_run w e c channel d now (ok replies, s) = hand_out w e c channel d (note_of d) now replies s
after_run w e c channel d now (err error, s) =
    if str_eq e.event_type "app.build.completed"
    then complete_instead w e c channel d now s
    else raised error (some (c, channel)) false d s

-- The provider that the agent's run is told of.
abbrev pub run_provider : UserEvent → Delivery → Option String
run_provider e (ready c) = e.delivery_provider
run_provider e (held_back remark) = none
run_provider e (no_adapter error) = none

abbrev pub run_or_raise :
    Worker
    → UserEvent
    → Conversation
    → Option Channel
    → Delivery
    → Store
    → Result String (List PersistedReply) × Store
run_or_raise w e c channel d s =
    if w.has_provider
    then w.run_agent e c channel (message_key w e) (run_provider e d) s
    else (err "The event agent model provider is not configured", s)

abbrev pub talk :
    Worker → UserEvent → Conversation → Option Channel → ℕ → Store → Delivery → Attempt
talk w e c channel now s (ready to) =
    after_run w e c channel (ready to) now (run_or_raise w e c channel (ready to) s)
talk w e c channel now s (held_back remark) =
    after_run w e c channel (held_back remark) now (run_or_raise w e c channel (held_back remark) s)
talk w e c channel now s (no_adapter error) =
    raised error (some (c, channel)) false (no_adapter error) s

abbrev pub at_target :
    Worker
    → UserEvent
    → ℕ
    → Store
    → Result String ((Conversation × Option Channel) × Store)
    → Attempt
at_target w e now s (err error) = raised error none false (held_back none) s
at_target w e now s (ok ((c, channel), s')) =
    talk w e c channel now s' (delivery_of w e c channel s')

abbrev pub skip_in : UserEvent → ℕ → Store → Store
skip_in e now s = record s {
  events =
      finish_event e.id skipped
        (some (join_text "No agent event policy registered for " e.event_type)) now s.events;
}

-- The `try` of the dispatch.
unfoldable pub attempt : Worker → UserEvent → ℕ → Store → Attempt
attempt w e now s =
    if is_known e.event_type w.types
    then at_target w e now s (resolve_event_target w.print_id e now s)
    else finished (skip_in e now s)
