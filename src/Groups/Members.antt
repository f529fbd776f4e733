-- ===== src/Groups/Members.antt =====
-- `_upsert_group_member` and `sync_linq_group_participants` of src/benji_api/services/groups.py:
-- the members of a group as the messaging channel reports them.
pub mod Owners
use Prim.Native.Char.{code}
use dot_backend.Prelude.{
  ℕ, suc, String, Bool, true, false, ◌&&◌, ◌||◌, Option, none, some, List, [], ◌∷◌, ◌++◌, ◌==◌,
  id_is, or_else, or_text, str_eq, strip, take_text, is_blank, join_text, find?, update,
  if◌then◌else◌,
}
use dot_backend.Prelude.Json.{
  Json, Items, Fields, nil, cons, object, array, text, get, as_text, is_true, truthy, either,
}
use dot_backend.Groups.Records.{
  Conversation, ConversationMember, User, MemberRole, MemberStatus, member_status, is_owner, Store,
}

-- What the service takes from elsewhere: `normalize_user_identifier` with None for a ValueError,
-- the user that an identifier finds, the handle by which a user is known first,
-- `datetime.fromisoformat` with None for a ValueError, and `str` on JSON values.
pub record ChannelWorld : Type 0 where
  pub normalize : String → Option String
  pub find_user : String → Option User
  pub primary_handle : User → String
  pub parse_iso : String → Option ℕ
  pub python_str : Json → String

-- `_clean_optional_text`
unfoldable pub clean_optional_text : Json → ℕ → Option String
clean_optional_text (text s) n = if is_blank (strip s) then none else some (take_text n (strip s))
clean_optional_text _ n = none

-- `value.replace("Z", "+00:00")`
replace_z : String → String
replace_z String.[] = String.[]
replace_z (String.◌∷◌ c s) =
    let rest = replace_z s in if code c == 0x5a then join_text "+00:00" rest else String.◌∷◌ c rest

-- `_parse_datetime`
unfoldable pub parse_datetime : ChannelWorld → Json → Option ℕ
unfolding replace_z
parse_datetime w (text s) = w.parse_iso (replace_z s)
parse_datetime w _ = none

-- `_canonical_handle`
unfoldable pub canonical_handle : ChannelWorld → String → String
canonical_handle w handle = elim (w.normalize handle) [ none ↦ strip handle | some value ↦ value ]

-- The arguments of `_upsert_group_member`.
pub record MemberReport : Type 0 where
  pub handle : String
  pub user : Option User
  pub role : MemberRole
  pub service : Option String
  pub external_id : Option String
  pub display_name : Option String
  pub status : MemberStatus
  pub joined_at : Option ℕ
  pub left_at : Option ℕ

abbrev user_key : Option User → Option ℕ
user_key none = none
user_key (some u) = some u.id

-- The row belongs to the conversation, and has the handle or the user that is reported.
abbrev reported : ℕ → MemberReport → ConversationMember → Bool
reported conversation r m =
    m.conversation_id == conversation
    && (str_eq m.external_handle r.handle
        || elim r.user [ none ↦ false | some u ↦ id_is m.user_id u.id ])

-- What the call writes on the row, new or old.
abbrev pub write_report : MemberReport → ConversationMember → ConversationMember
write_report r m = record m {
  user_id = or_else (user_key r.user) m.user_id;
  service = or_text r.service m.service;
  external_id = or_text r.external_id m.external_id;
  display_name = or_text r.display_name m.display_name;
  status = r.status;
  joined_at = (elim r.joined_at [ none ↦ m.joined_at | some t ↦ t ]);
  left_at = r.left_at;
  role = if is_owner r.role then r.role else m.role;
}

abbrev pub blank_member : ℕ → MemberReport → ℕ → ℕ → ConversationMember
blank_member conversation r id now = record {
  id = id;
  conversation_id = conversation;
  user_id = user_key r.user;
  external_handle = r.handle;
  external_id = none;
  display_name = r.display_name;
  service = none;
  role = r.role;
  status = MemberStatus.active;
  joined_at = now;
  left_at = none;
  created_at = now;
}

abbrev upsert_found :
    ℕ → MemberReport → ℕ → Store → Option ConversationMember → ConversationMember × Store
upsert_found conversation r now s none =
    let m = write_report r (blank_member conversation r s.next_id now) in
    (m, record s { members = s.members ++ m ∷ []; next_id = suc s.next_id })
upsert_found conversation r now s (some m) =
    (write_report r m, record s { members = update (λ x. x.id == m.id) (write_report r) s.members })

-- `_upsert_group_member`
unfoldable pub upsert_group_member : ℕ → MemberReport → ℕ → Store → ConversationMember × Store
upsert_group_member conversation r now s =
    upsert_found conversation r now s (find? (reported conversation r) s.members)

-- The name of a reported participant: the user's own, or what the channel calls it.
abbrev pub reported_name : Option User → Fields → Option String
reported_name none raw = clean_optional_text (either (get "display_name" raw) (get "name" raw)) 120
reported_name (some u) raw =
    or_text u.display_name
      (clean_optional_text (either (get "display_name" raw) (get "name" raw)) 120)

abbrev status_text : ChannelWorld → String → Json → String
status_text w default value = if truthy value then w.python_str value else default

abbrev report_of : ChannelWorld → String → Fields → MemberReport
report_of w handle raw = record {
  handle = canonical_handle w handle;
  user = w.find_user (canonical_handle w handle);
  role = MemberRole.member;
  service = clean_optional_text (get "service" raw) 32;
  external_id = clean_optional_text (get "id" raw) 255;
  display_name = reported_name (w.find_user (canonical_handle w handle)) raw;
  status = member_status (status_text w "active" (get "status" raw));
  joined_at = parse_datetime w (get "joined_at" raw);
  left_at = parse_datetime w (get "left_at" raw);
}

abbrev sync_handle : ChannelWorld → ℕ → ℕ → Fields → Store → Option String → Store
sync_handle w conversation now raw s none = s
sync_handle w conversation now raw s (some handle) =
    if is_blank (strip handle)
    then s
    else (upsert_group_member conversation (report_of w handle raw) now s).1

-- One round of the loop over the handles.
abbrev pub sync_one : ChannelWorld → ℕ → ℕ → Json → Store → Store
sync_one w conversation now (object raw) s =
    if is_true (get "is_me" raw)
    then s
    else sync_handle w conversation now raw s (as_text (get "handle" raw))
sync_one w conversation now _ s = s

unfoldable pub sync_items : ChannelWorld → ℕ → ℕ → Items → Store → Store
sync_items w conversation now nil s = s
sync_items w conversation now (cons x xs) s =
    sync_items w conversation now xs (sync_one w conversation now x s)

abbrev sync_list : ChannelWorld → ℕ → ℕ → Json → Store → Store
sync_list w conversation now (array xs) s = sync_items w conversation now xs s
sync_list w conversation now _ s = s

-- `sync_linq_group_participants`
unfoldable pub sync_linq_group_participants : ChannelWorld → ℕ → ℕ → Fields → Store → Store
unfolding sync_items
sync_linq_group_participants w conversation now chat s =
    sync_list w conversation now (get "handles" chat) s
