-- ===== src/Jobs/Tests/DispatchTests.antt =====
-- The event of a finished app, and dispatches of `services/user_events.py` for it.
use dot_backend.Prelude.{
  ◌≡◌, refl, inl, inr, true, none, some, [], ◌∷◌, All, arith, first_by, strip, lstrip, rstrip,
  contains_text, starts_with,
}
use dot_backend.Prelude.Json.{field, text, bool, end, get}
use dot_backend.Groups.Records.{err, ok, Conversation, ConversationKind, ActivityStatus}
use dot_backend.Jobs.FollowUps.Sending.{Channel, outbound}
use dot_backend.Jobs.Queue.{claim}
use dot_backend.Jobs.Events.Retries.{unlocked}
use dot_backend.Jobs.Events.{UserEvent, EventRequest, new_event, start_processing, claim_event}
use dot_backend.Jobs.Events.Turns.{
  Fresh, Message, completed, trusted_url, ensure_app_completion_turn, as_reply,
}
use dot_backend.Jobs.Events.Turns.Links.{shown, ensure_app_completion_turn-again}
use dot_backend.Jobs.Events.Targets.{Store, User, resolve_event_target}
use dot_backend.Jobs.Events.Attempts.{Worker, agent_event_types}
use dot_backend.Jobs.Events.Dispatch.{dispatch_user_event}
use dot_backend.Jobs.Events.Dispatch.Settling.{Settled, dispatch_user_event-settles}
use dot_backend.Jobs.Events.Dispatch.Telling.{dispatch_user_event-tells}
use dot_backend.Jobs.Events.Dispatch.Closing.{IsProcessed, dispatch_user_event-closes}

abbrev request : EventRequest
request = record {
  user_id = 7;
  conversation_id = some 3;
  event_type = "app.build.completed";
  source = "app_builder";
  idempotency_key = "build:1";
  payload = field "app_url" (text "https://dot/a/x") end;
  delivery_provider = some "linq";
}

abbrev event : UserEvent
event = record (new_event request 1 100) { attempts = 4 }

abbrev chat : Conversation
chat = record {
  id = 3;
  user_id = 7;
  kind = ConversationKind.direct;
  title = none;
  avatar_url = none;
  group_owner_source = none;
  status = ActivityStatus.active;
  updated_at = 50;
}

abbrev line : Channel
line = record {
  id = 4;
  conversation_id = 3;
  provider = "linq";
  external_id = "chat-1";
  status = ActivityStatus.active;
  updated_at = 60;
}

abbrev user : User
user = record { id = 7; phone_number = none; messaging_opted_out_at = none }

abbrev store : Store
store = record {
  events = event ∷ [];
  conversations = chat ∷ [];
  members = [];
  channels = line ∷ [];
  users = user ∷ [];
  identifiers = [];
  messages = [];
  next_id = 20;
}

-- The agent's model is down, and so is the delivery.
abbrev worker : Worker
worker = record {
  has_provider = true;
  has_linq_client = true;
  automated_replies = true;
  types = agent_event_types;
  print_id = λ id. "e1";
  run_agent = λ e c channel key p s. (err "model timeout", s);
  deliver = λ to c replies key s. (some "linq timeout", s);
}

abbrev at_work : UserEvent
at_work = start_processing 1000 event

claimed : (claim_event unlocked 5 none 1000 store.events).0 ≡ some at_work
unfolding claim_event claim first_by
claimed = refl

url_there : trusted_url at_work ≡ some "https://dot/a/x"
unfolding trusted_url get strip lstrip rstrip
url_there = refl

resolved :
    resolve_event_target worker.print_id at_work 2000
      (record store { events = (claim_event unlocked 5 none 1000 store.events).1 })
    ≡ ok ((chat, some line), record store { events = at_work ∷ [] })
unfolding resolve_event_target claim_event claim first_by
resolved = refl

dispatch_user_event-settles_example :
    All (Settled 1) (dispatch_user_event worker unlocked 5 none 1000 2000 store).1.events
dispatch_user_event-settles_example =
    dispatch_user_event-settles worker unlocked 5 none 1000 2000 store at_work claimed

dispatch_user_event-tells_example :
    shown "benji:user-event:e1" "https://dot/a/x"
      (dispatch_user_event worker unlocked 5 none 1000 2000 store).1.messages
    ≡ true
dispatch_user_event-tells_example =
    dispatch_user_event-tells worker unlocked 5 none 1000 2000 store at_work "https://dot/a/x"
      ((chat, some line), record store { events = at_work ∷ [] }) claimed refl url_there refl
      (inr refl) resolved (λ c channel key p s. ("model timeout", refl))
      (λ to c replies key s. refl)

dispatch_user_event-closes_example :
    IsProcessed 1 (dispatch_user_event worker unlocked 5 none 1000 2000 store).1
dispatch_user_event-closes_example =
    dispatch_user_event-closes worker unlocked 5 none 1000 2000 store at_work
      ((chat, some line), record store { events = at_work ∷ [] }) (tt, tt) claimed (omega arith)
      (inl (refl, "https://dot/a/x", url_there)) refl resolved
      ((λ e c channel key p s. refl), (λ to c replies key s. refl))

abbrev fresh : Fresh
fresh = record { message = 30; response_group = 31; now = 3000 }

abbrev later : Fresh
later = record { message = 40; response_group = 41; now = 4000 }

abbrev prose : Message
prose = record {
  id = 25;
  conversation_id = 3;
  user_id = 7;
  source_binding_id = some 4;
  source_channel = "event";
  idempotency_key = some "benji:user-event:e1";
  response_group_id = some 26;
  response_ordinal = some 0;
  direction = outbound;
  status = completed;
  content = "your app is up!";
  raw_payload = end;
  created_at = 2500;
}

abbrev link : Message
link = record prose {
  id = 30;
  idempotency_key = some "benji:user-event:e1:trusted-link";
  response_ordinal = some 1;
  content = "https://dot/a/x";
  raw_payload = field "wake_type" (text "app.build.completed") (
      field "trusted_app_url" (text "https://dot/a/x")
        (field "canonical_fallback" (bool true) end));
  created_at = 3000;
}

link_added :
    ensure_app_completion_turn at_work 3 (some 4) "benji:user-event:e1" fresh (prose ∷ [])
    ≡ some (as_reply prose ∷ as_reply link ∷ [], prose ∷ link ∷ [])
unfolding ensure_app_completion_turn trusted_url get strip lstrip rstrip contains_text
link_added = refl

ensure_app_completion_turn-again_example :
    ensure_app_completion_turn at_work 3 none "benji:user-event:e1" later (prose ∷ link ∷ [])
    ≡ some (as_reply prose ∷ as_reply link ∷ [], prose ∷ link ∷ [])
unfolding starts_with
ensure_app_completion_turn-again_example =
    ensure_app_completion_turn-again at_work 3 3 (some 4) none "benji:user-event:e1" fresh later
      (prose ∷ []) (as_reply prose ∷ as_reply link ∷ [], prose ∷ link ∷ []) link_added
