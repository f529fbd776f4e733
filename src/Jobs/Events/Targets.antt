-- ===== src/Jobs/Events/Targets.antt =====
-- Where an event is told: `_resolve_event_target` and `_messaging_opted_out` of
-- `services/user_events.py`, with `resolve_direct_conversation` of `services/channels.py` and
-- `get_primary_user_handle` of `services/users.py`.
use dot_backend.Prelude.{
  ℕ, suc, ◌≡◌, Bool-cases, inl, inr, String, Bool, true, false, not, ◌&&◌, ◌||◌, Option, none, some,
  List, [], ◌∷◌, ◌++◌, refl, find?, first_by, is_some, is_blank, ltb, ◌==◌, str_eq, join_text,
  if◌then◌else◌,
}
use dot_backend.Groups.Records.{
  Result, err, ok, ◌>>◌, raise_if, Conversation, ConversationKind, direct, group,
  ConversationMember, MemberRole, MemberStatus, ActivityStatus, active, inactive,
}
use dot_backend.Jobs.FollowUps.Sending.{Channel}
use dot_backend.Jobs.Events.{UserEvent}
use dot_backend.Jobs.Events.Turns.{Message}

pub record User : Type 0 where
  pub id : ℕ
  pub phone_number : Option String
  pub messaging_opted_out_at : Option ℕ

pub record UserIdentifier : Type 0 where
  pub id : ℕ
  pub user_id : ℕ
  pub normalized_value : String
  pub is_active : Bool
  pub is_primary : Bool
  pub created_at : ℕ

-- The tables; `next_id` is the next fresh key.
pub record Store : Type 0 where
  pub events : List UserEvent
  pub conversations : List Conversation
  pub members : List ConversationMember
  pub channels : List Channel
  pub users : List User
  pub identifiers : List UserIdentifier
  pub messages : List Message
  pub next_id : ℕ

-- `ORDER BY is_primary DESC, created_at, id`
abbrev identifier_before : UserIdentifier → UserIdentifier → Bool
identifier_before a b =
    (a.is_primary && not b.is_primary)
    || (not (b.is_primary && not a.is_primary)
        && (ltb a.created_at b.created_at || (a.created_at == b.created_at && ltb a.id b.id)))

abbrev or_phone : (ℕ → String) → User → Option UserIdentifier → String
or_phone print_id u (some i) = i.normalized_value
or_phone print_id u none = elim u.phone_number [
  | none ↦ join_text "user:" (print_id u.id)
  | some phone ↦ if is_blank phone then join_text "user:" (print_id u.id) else phone
]

-- `get_primary_user_handle`
unfoldable pub get_primary_user_handle : (ℕ → String) → User → List UserIdentifier → String
get_primary_user_handle print_id u identifiers =
    or_phone print_id u
      (first_by identifier_before (λ i. i.user_id == u.id && i.is_active) identifiers)

abbrev pub is_direct : ConversationKind → Bool
is_direct direct = true
is_direct group = false

abbrev pub is_open : ActivityStatus → Bool
is_open active = true
is_open inactive = false

abbrev direct_conversation : ℕ → ℕ → ℕ → Conversation
direct_conversation id user now = record {
  id = id;
  user_id = user;
  kind = direct;
  title = none;
  avatar_url = none;
  group_owner_source = none;
  status = active;
  updated_at = now;
}

abbrev owner_member : ℕ → ℕ → ℕ → String → ℕ → ConversationMember
owner_member id conversation user handle now = record {
  id = id;
  conversation_id = conversation;
  user_id = some user;
  external_handle = handle;
  external_id = none;
  display_name = none;
  service = none;
  role = MemberRole.owner;
  status = MemberStatus.active;
  joined_at = now;
  left_at = none;
  created_at = now;
}

abbrev add_direct : (ℕ → String) → ℕ → Store → Option User → Result String (Conversation × Store)
add_direct print_id now s none = err "Direct conversation user no longer exists"
add_direct print_id now s (some u) =
    let c = direct_conversation s.next_id u.id now in
    let handle = get_primary_user_handle print_id u s.identifiers in
    ok (
      c,
      record s {
        conversations = s.conversations ++ c ∷ [];
        members = s.members ++ owner_member (suc s.next_id) c.id u.id handle now ∷ [];
        next_id = suc (suc s.next_id);
      },
    )

abbrev direct_or_new :
    (ℕ → String) → ℕ → ℕ → Store → Option Conversation → Result String (Conversation × Store)
direct_or_new print_id user now s (some c) = ok (c, s)
direct_or_new print_id user now s none =
    add_direct print_id now s (find? (λ (u : User). u.id == user) s.users)

-- `resolve_direct_conversation`, where no handle is given
unfoldable pub resolve_direct_conversation :
    (ℕ → String) → ℕ → ℕ → Store → Result String (Conversation × Store)
unfolding get_primary_user_handle
resolve_direct_conversation print_id user now s =
    direct_or_new print_id user now s
      (find? (λ (c : Conversation). c.user_id == user && is_direct c.kind) s.conversations)

-- The conversation is open, and if it is a direct one, it is the user's.
abbrev is_target : UserEvent → Conversation → Bool
is_target e c = is_open c.status && not (is_direct c.kind && not (c.user_id == e.user_id))

abbrev if_target : UserEvent → Store → Option Conversation → Result String (Conversation × Store)
if_target e s none = err "Event conversation target no longer exists"
if_target e s (some c) = do
  raise_if (not (is_target e c)) "Event conversation target no longer exists"
  ok (c, s)

abbrev event_conversation :
    (ℕ → String) → UserEvent → ℕ → Store → Option ℕ → Result String (Conversation × Store)
event_conversation print_id e now s none = resolve_direct_conversation print_id e.user_id now s
event_conversation print_id e now s (some id) =
    if_target e s (find? (λ (c : Conversation). c.id == id) s.conversations)

-- The active channel of the conversation that changed last.
abbrev event_channel : Option String → ℕ → List Channel → Option Channel
event_channel none conversation channels = none
event_channel (some p) conversation channels =
    first_by (λ (a b : Channel). ltb b.updated_at a.updated_at)
      (λ c. c.conversation_id == conversation && str_eq c.provider p && is_open c.status) channels

abbrev with_channel :
    UserEvent
    → Result String (Conversation × Store)
    → Result String ((Conversation × Option Channel) × Store)
with_channel e (err error) = err error
with_channel e (ok (c, s)) = ok ((c, event_channel e.delivery_provider c.id s.channels), s)

-- `_resolve_event_target`
unfoldable pub resolve_event_target :
    (ℕ → String) → UserEvent → ℕ → Store → Result String ((Conversation × Option Channel) × Store)
unfolding resolve_direct_conversation
resolve_event_target print_id e now s =
    with_channel e (event_conversation print_id e now s e.conversation_id)

-- `_messaging_opted_out`
unfoldable pub messaging_opted_out : ℕ → List User → Bool
messaging_opted_out user users = elim (find? (λ (u : User). u.id == user) users) [
  | none ↦ true
  | some u ↦ is_some u.messaging_opted_out_at
]

-- The calls add to the conversations alone: events and messages stay as they are.
abbrev pub Keeps {ℓ} : {A : Type ℓ} → Store → Result String (A × Store) → Type 0
Keeps s (err error) = Unit
Keeps s (ok (a, s')) = (s'.events ≡ s.events) × (s'.messages ≡ s.messages)

module _ (print_id : ℕ → String) (e : UserEvent) (now : ℕ) (s : Store) where
  direct-Keeps : (u : Option User) → Keeps s (add_direct print_id now s u)
  direct-Keeps none = tt
  direct-Keeps (some u) = (refl, refl)

  direct_or_new-Keeps :
      (c : Option Conversation) → Keeps s (direct_or_new print_id e.user_id now s c)
  direct_or_new-Keeps (some c) = (refl, refl)
  direct_or_new-Keeps none = direct-Keeps _

  if_target-Keeps : (c : Option Conversation) → Keeps s (if_target e s c)
  if_target-Keeps none = tt
  if_target-Keeps (some c) = elim (Bool-cases (is_target e c)) [
    | inl h ↦ rw h (refl, refl)
    | inr h ↦ rw h tt
  ]

  event_conversation-Keeps : (id : Option ℕ) → Keeps s (event_conversation print_id e now s id)
  unfolding resolve_direct_conversation
  event_conversation-Keeps none = direct_or_new-Keeps _
  event_conversation-Keeps (some id) = if_target-Keeps _

  with_channel-Keeps :
      (r : Result String (Conversation × Store)) → Keeps s r → Keeps s (with_channel e r)
  with_channel-Keeps (err error) h = tt
  with_channel-Keeps (ok (c, s')) h = h

  pub resolve_event_target-Keeps : Keeps s (resolve_event_target print_id e now s)
  unfolding resolve_event_target
  resolve_event_target-Keeps =
      with_channel-Keeps (event_conversation print_id e now s e.conversation_id)
        (event_conversation-Keeps e.conversation_id)
