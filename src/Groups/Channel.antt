-- ===== src/Groups/Channel.antt =====
-- `apply_linq_group_event` of src/benji_api/services/groups.py: what the Linq messaging channel
-- reports about a group that lives on it.
pub mod Succession
use dot_backend.Prelude.{
  ℕ, suc, ◌+◌, String, Bool, true, false, not, ◌&&◌, ◌||◌, Option, none, some, List, [], ◌∷◌, ◌++◌,
  ◌==◌, id_is, is_some, or_text, str_eq, first_by, precedes, find?, update, if◌then◌else◌,
}
use dot_backend.Prelude.Json.{
  Json, Fields, end, field, object, get, fields_of, as_text, is_true, truthy, either,
}
use dot_backend.Groups.Records.{
  Conversation, ConversationMember, ConversationChannel, ConversationKind, group, ActivityStatus,
  User, MemberRole, MemberStatus, member_status, is_group, is_owner, is_active, Store, GroupResult,
  ok, err, ◌>>=◌, ◌>>◌, raise_if, or_raise, not_permitted,
}
use dot_backend.Groups.Ownership.{
  claim_group_owner, transfer_group_ownership, revoke_unclaimed_group_app_owner,
}
use dot_backend.Groups.Members.{
  ChannelWorld, MemberReport, clean_optional_text, parse_datetime, canonical_handle, reported_name,
  upsert_group_member, sync_linq_group_participants,
}

abbrev pub default_title : String
default_title = "group with dot"

-- `title or "group with dot"`
abbrev pub or_default : Option String → String
or_default none = default_title
or_default (some t) = t

abbrev pub linq_channel : String → ConversationChannel → Bool
linq_channel external c = str_eq c.provider "linq" && str_eq c.external_id external

abbrev pub has_conversation : ℕ → Conversation → Bool
has_conversation k c = c.id == k

abbrev pub retitle : ℕ → Option String → Store → Store
retitle k none s = s
retitle k (some title) s = record s {
  conversations =
      update (has_conversation k) (λ c. record c { title = some title }) s.conversations;
}

-- `chat_id` of an event
abbrev pub event_chat_id : Fields → Option String
event_chat_id d = elim (as_text (get "id" (fields_of (get "chat" d)))) [
  | some id ↦ some id
  | none ↦ as_text (either (get "chat_id" d) (get "id" d))
]

abbrev set_status : ActivityStatus → ℕ → ℕ → Store → Store
set_status status k channel s = record s {
  conversations = update (has_conversation k) (λ c. record c { status = status }) s.conversations;
  channels = update (λ x. x.id == channel) (λ x. record x { status = status }) s.channels;
}

abbrev rename_event : ℕ → Fields → Store → Store
rename_event k d s =
    retitle k
      (some (
        or_default (
          clean_optional_text
            (either (get "new_value" d)
              (either (get "display_name" d) (either (get "group_name" d) (get "name" d))))
            120)))
      s

abbrev icon_event : ℕ → Fields → Store → Store
icon_event k d s =
    let url =
      clean_optional_text
        (either (get "new_value" d)
          (either (get "group_chat_icon" d) (either (get "icon_url" d) (get "url" d))))
        2048 in
    record s {
      conversations =
          update (has_conversation k) (λ c. record c { avatar_url = url }) s.conversations;
    }

-- `added` tells participant.added from participant.removed.
abbrev participant_report : ChannelWorld → Bool → String → Fields → Fields → MemberReport
participant_report w added handle details d =
    let user = w.find_user (canonical_handle w handle) in
    record {
      handle = canonical_handle w handle;
      user = user;
      role = MemberRole.member;
      service = clean_optional_text (get "service" details) 32;
      external_id = clean_optional_text (get "id" details) 255;
      display_name = reported_name user details;
      status =
          if added
          then MemberStatus.active
          else (if truthy (get "status" details)
              then member_status (w.python_str (get "status" details))
              else MemberStatus.removed);
      joined_at = parse_datetime w (either (get "joined_at" details) (get "added_at" d));
      left_at = parse_datetime w (either (get "left_at" details) (get "removed_at" d));
    }

-- The next owner: the active member with a linked account who joined first.
abbrev pub can_succeed : ℕ → ConversationMember → ConversationMember → Bool
can_succeed k leaving m =
    m.conversation_id == k && is_active m.status && is_some m.user_id && not (m.id == leaving.id)

abbrev pub successor_of :
    ℕ → ConversationMember → List ConversationMember → Option ConversationMember
successor_of k leaving members =
    first_by (precedes (λ (m : ConversationMember). m.joined_at) (λ m. m.created_at))
      (can_succeed k leaving) members

abbrev pub departing_id : Conversation → ConversationMember → ℕ
departing_id c m = elim m.user_id [ none ↦ c.user_id | some u ↦ u ]

abbrev pub orphan : Conversation → ConversationMember → ℕ → Store → Store
orphan c m now s = revoke_unclaimed_group_app_owner c.id (departing_id c m) now (record s {
  members = update (λ x. x.id == m.id) (λ x. record x { role = MemberRole.member }) s.members;
  conversations =
      update (has_conversation c.id) (λ x. record x { group_owner_source = some "unclaimed" })
        s.conversations;
})

abbrev pub hand_over_to :
    Conversation → ConversationMember → ℕ → Store → Option ConversationMember → GroupResult Store
hand_over_to c m now s none = ok (orphan c m now s)
hand_over_to c m now s (some heir) =
    transfer_group_ownership c heir "transferred" (some (departing_id c m)) now s

-- What follows the removal of the owner.
unfoldable pub hand_over : Conversation → ConversationMember → ℕ → Store → GroupResult Store
hand_over c m now s = hand_over_to c m now s (successor_of c.id m s.members)

abbrev change_participant :
    ChannelWorld
    → Bool
    → Conversation
    → Fields
    → Fields
    → ℕ
    → Store
    → Option String
    → GroupResult (Bool × Store)
change_participant w added c details d now s none = ok (false, s)
change_participant w added c details d now s (some handle) =
    let changed = upsert_group_member c.id (participant_report w added handle details d) now s in
    if not added && is_owner changed.0.role
    then (hand_over c changed.0 now changed.1 >>= λ s'. ok (true, s'))
    else ok (true, changed.1)

abbrev participant_event :
    ChannelWorld
    → Bool
    → Conversation
    → ConversationChannel
    → Fields
    → ℕ
    → Store
    → GroupResult (Bool × Store)
participant_event w added c channel d now s =
    let details = fields_of (get "participant" d) in
    if is_true (get "is_me" details)
    then ok (
      true,
      set_status (if added then ActivityStatus.active else ActivityStatus.inactive) c.id channel.id
          s,
    )
    else change_participant w added c details d now s
        (as_text (either (get "handle" details) (get "handle" d)))

abbrev group_event :
    ChannelWorld
    → String
    → Conversation
    → ConversationChannel
    → Fields
    → ℕ
    → Store
    → GroupResult (Bool × Store)
group_event w event_type c channel d now s =
    if str_eq event_type "chat.group_name_updated"
    then ok (true, rename_event c.id d s)
    else (if str_eq event_type "chat.group_icon_updated"
        then ok (true, icon_event c.id d s)
        else (if str_eq event_type "participant.added"
            then participant_event w true c channel d now s
            else (if str_eq event_type "participant.removed"
                then participant_event w false c channel d now s
                else ok (false, s))))

abbrev on_conversation :
    ChannelWorld
    → String
    → ConversationChannel
    → Fields
    → ℕ
    → Store
    → Option Conversation
    → GroupResult (Bool × Store)
on_conversation w event_type channel d now s none = ok (false, s)
on_conversation w event_type channel d now s (some c) =
    if is_group c.kind then group_event w event_type c channel d now s else ok (false, s)

abbrev on_channel :
    ChannelWorld
    → String
    → Fields
    → ℕ
    → Store
    → Option ConversationChannel
    → GroupResult (Bool × Store)
on_channel w event_type d now s none = ok (false, s)
on_channel w event_type d now s (some channel) =
    on_conversation w event_type channel d now s
      (find? (has_conversation channel.conversation_id) s.conversations)

-- `apply_linq_group_event`
unfoldable pub apply_linq_group_event :
    ChannelWorld → String → Fields → ℕ → Store → GroupResult (Bool × Store)
apply_linq_group_event w event_type d now s = elim (event_chat_id d) [
  | none ↦ ok (false, s)
  | some id ↦ on_channel w event_type d now s (find? (linq_channel id) s.channels)
]
