-- ===== src/Jobs/Events/Turns.antt =====
-- The messages that `services/user_events.py` writes itself when the agent cannot:
-- `_ensure_app_completion_turn` and `_ensure_app_failure_turn`. The lock that both hold on the
-- conversation keeps other turns out, so that each is one step on the table of messages.
pub mod Links
use dot_backend.Prelude.{
  ℕ, zero, suc, ◌≡◌, String, Bool, true, false, not, ◌&&◌, ◌||◌, Option, none, some, List, [], ◌∷◌,
  ◌++◌, map, any, find?, select, update, sort_by, after_all, ltb, ◌==◌, str_eq, text_is, strip,
  is_blank, join_text, starts_with, contains_text, if◌then◌else◌,
}
use dot_backend.Prelude.Json.{Json, Fields, end, field, text, bool, get, put, as_text}
use dot_backend.Jobs.FollowUps.Sending.{MessageDirection, outbound}
use dot_backend.Jobs.Events.{UserEvent}

pub data MessageStatus : Type 0 where
  received completed : MessageStatus

-- A row of `messages`, less the columns that nothing here reads or writes.
pub record Message : Type 0 where
  pub id : ℕ
  pub conversation_id : ℕ
  pub user_id : ℕ
  pub source_binding_id : Option ℕ
  pub source_channel : String
  pub idempotency_key : Option String
  pub response_group_id : Option ℕ
  pub response_ordinal : Option ℕ
  pub direction : MessageDirection
  pub status : MessageStatus
  pub content : String
  pub raw_payload : Fields
  pub created_at : ℕ

pub record PersistedReply : Type 0 where
  pub message_id : ℕ
  pub text : String

-- The keys that a turn gives to what it adds, and the time at which it does.
pub record Fresh : Type 0 where
  pub message : ℕ
  pub response_group : ℕ
  pub now : ℕ

abbrev pub message_id_is : ℕ → Message → Bool
message_id_is k m = m.id == k

-- `idempotency_key LIKE '<key>:%'`; a key is `benji:user-event:` and a UUID, so it holds neither
-- `%` nor `_`.
abbrev extends_key : String → Option String → Bool
extends_key key none = false
extends_key key (some k) = starts_with (join_text key ":") k

-- The messages of the turn with this key.
abbrev pub of_turn : String → Message → Bool
of_turn key m =
    str_eq m.source_channel "event"
    && (text_is m.idempotency_key key || extends_key key m.idempotency_key)

-- A missing ordinal comes last.
abbrev ordinal_before : Option ℕ → Option ℕ → Bool
ordinal_before none _ = false
ordinal_before (some a) none = true
ordinal_before (some a) (some b) = ltb a b

-- `ORDER BY created_at, response_ordinal`
abbrev message_before : Message → Message → Bool
message_before a b =
    ltb a.created_at b.created_at
    || (a.created_at == b.created_at && ordinal_before a.response_ordinal b.response_ordinal)

abbrev pub turn_messages : String → List Message → List Message
turn_messages key rows = sort_by message_before (select (of_turn key) rows)

abbrev pub shows : String → Message → Bool
shows app_url m = contains_text app_url m.content

-- `message.response_ordinal or 0`
abbrev ordinal_or_zero : Message → ℕ
ordinal_or_zero m = elim m.response_ordinal [ none ↦ 0 | some n ↦ n ]

-- `messages[0].response_group_id`, where there is one
abbrev group_of : ℕ → List Message → ℕ
group_of fresh [] = fresh
group_of fresh (m ∷ ms) = elim m.response_group_id [ none ↦ fresh | some g ↦ g ]

abbrev pub trusted_key : String → List Message → String
trusted_key key [] = key
trusted_key key (m ∷ ms) = join_text key ":trusted-link"

abbrev pub has_message_key : String → Message → Bool
has_message_key key m = text_is m.idempotency_key key

abbrev pub as_reply : Message → PersistedReply
as_reply m = record { message_id = m.id; text = m.content }

abbrev pub mentions : String → PersistedReply → Bool
mentions app_url r = contains_text app_url r.text

abbrev pub link_message :
    UserEvent → ℕ → Option ℕ → String → String → List Message → Fresh → Message
link_message e conversation binding key app_url messages fresh = record {
  id = fresh.message;
  conversation_id = conversation;
  user_id = e.user_id;
  source_binding_id = binding;
  source_channel = "event";
  idempotency_key = some (trusted_key key messages);
  response_group_id = some (group_of fresh.response_group messages);
  response_ordinal = some (after_all ordinal_or_zero messages);
  direction = outbound;
  status = completed;
  content = app_url;
  raw_payload =
      field "wake_type" (text "app.build.completed")
        (field "trusted_app_url" (text app_url) (field "canonical_fallback" (bool true) end));
  created_at = fresh.now;
}

abbrev pub relink : String → Message → Message
relink app_url m = record m {
  content = app_url;
  raw_payload =
      put "canonical_fallback" (bool true) (put "trusted_app_url" (text app_url) m.raw_payload);
}

abbrev pub add_link :
    UserEvent
    → ℕ
    → Option ℕ
    → String
    → String
    → Fresh
    → List Message
    → List Message
    → Option Message
    → List PersistedReply × List Message
add_link e conversation binding key app_url fresh rows messages none =
    let m = link_message e conversation binding key app_url messages fresh in
    (map as_reply (messages ++ m ∷ []), rows ++ m ∷ [])
add_link e conversation binding key app_url fresh rows messages (some m) =
    let change = update (message_id_is m.id) (relink app_url) in
    (map as_reply (change messages), change rows)

-- The messages of the turn as they are, if one shows the URL.
abbrev pub show_link :
    UserEvent
    → ℕ
    → Option ℕ
    → String
    → String
    → Fresh
    → List Message
    → List Message
    → List PersistedReply × List Message
show_link e conversation binding key app_url fresh rows messages =
    let add =
      add_link e conversation binding key app_url fresh rows messages
        (find? (has_message_key (trusted_key key messages)) messages) in
    if any (shows app_url) messages then (map as_reply messages, rows) else add

-- `event.payload.get("app_url")`, if it is a text with more than blanks
unfoldable pub trusted_url : UserEvent → Option String
trusted_url e = elim (as_text (get "app_url" e.payload)) [
  | none ↦ none
  | some u ↦ if is_blank (strip u) then none else some u
]

abbrev pub with_url :
    UserEvent
    → ℕ
    → Option ℕ
    → String
    → Fresh
    → List Message
    → Option String
    → Option (List PersistedReply × List Message)
with_url e conversation binding key fresh rows none = none
with_url e conversation binding key fresh rows (some u) =
    some (show_link e conversation binding key u fresh rows (turn_messages key rows))

-- `_ensure_app_completion_turn`: the replies of the turn and the messages, or nothing where it
-- raises because the event has no URL.
unfoldable pub ensure_app_completion_turn :
    UserEvent
    → ℕ
    → Option ℕ
    → String
    → Fresh
    → List Message
    → Option (List PersistedReply × List Message)
unfolding trusted_url
ensure_app_completion_turn e conversation binding key fresh rows =
    with_url e conversation binding key fresh rows (trusted_url e)

abbrev app_label : Option String → String
app_label none = "that app"
app_label (some title) = if is_blank (strip title) then "that app" else strip title

abbrev failure_text : String → String
failure_text label = join_text "i couldn't get " (
    join_text label (
      join_text " working cleanly, so i didn't send you a broken link. "
        "tell me what matters most and i'll take another run at it."))

abbrev pub failure_message : UserEvent → ℕ → Option ℕ → String → Fresh → Message
failure_message e conversation binding key fresh = record {
  id = fresh.message;
  conversation_id = conversation;
  user_id = e.user_id;
  source_binding_id = binding;
  source_channel = "event";
  idempotency_key = some key;
  response_group_id = some fresh.response_group;
  response_ordinal = some 0;
  direction = outbound;
  status = completed;
  content = failure_text (app_label (as_text (get "title" e.payload)));
  raw_payload =
      field "wake_type" (text "app.build.failed") (field "canonical_fallback" (bool true) end);
  created_at = fresh.now;
}

abbrev pub is_turn : String → Message → Bool
is_turn key m = str_eq m.source_channel "event" && text_is m.idempotency_key key

abbrev pub add_failure :
    Message → List Message → Option Message → List PersistedReply × List Message
add_failure m rows none = (as_reply m ∷ [], rows ++ m ∷ [])
add_failure m rows (some existing) = (as_reply existing ∷ [], rows)

-- `_ensure_app_failure_turn`
unfoldable pub ensure_app_failure_turn :
    UserEvent → ℕ → Option ℕ → String → Fresh → List Message → List PersistedReply × List Message
ensure_app_failure_turn e conversation binding key fresh rows =
    add_failure (failure_message e conversation binding key fresh) rows (find? (is_turn key) rows)
