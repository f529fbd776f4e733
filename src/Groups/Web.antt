-- ===== src/Groups/Web.antt =====
-- Web groups in src/benji_api/services/groups.py: creating and renaming a group, invites, joining
-- and leaving.
pub mod Invites
pub mod Rights
use dot_backend.Prelude.{
  ℕ, suc, ◌+◌, ◌*◌, String, Bool, true, false, not, ◌&&◌, ◌||◌, Option, none, some, List, [], ◌∷◌,
  ◌++◌, min, max, ltb, leb, ◌==◌, str_eq, id_is, is_some, or_text, find?, update, any, strip,
  text_len, join_text, if◌then◌else◌,
}
use dot_backend.Groups.Records.{
  Conversation, ConversationMember, ConversationInvite, ConversationChannel, User, MemberRole,
  MemberStatus, Store, GroupResult, ok, err, ◌>>=◌, ◌>>◌, raise_if, or_raise, not_found,
  not_permitted, bad_invite, bad_name, group, ActivityStatus, left, is_group, is_owner, is_active,
}

-- What the service takes from elsewhere: the handle by which a user is known first
-- (`get_primary_user_handle`), SHA-256, and how Python prints an id.
pub record Directory : Type 0 where
  pub primary_handle : User → String
  pub hash_token : String → String
  pub print_id : ℕ → String

-- `1 <= len(clean_title) <= 120`
abbrev pub good_title : String → Bool
good_title title = leb 1 (text_len title) && leb (text_len title) 120

module _ (d : Directory) where
  -- `create_web_group`
  unfoldable pub create_web_group : User → String → ℕ → Store → GroupResult (Conversation × Store)
  create_web_group owner title now s =
      let clean = strip title in
      let conversation : Conversation = record {
        id = s.next_id;
        user_id = owner.id;
        kind = group;
        title = some clean;
        avatar_url = none;
        group_owner_source = some "explicit";
        status = ActivityStatus.active;
        updated_at = now;
      } in
      let member : ConversationMember = record {
        id = s.next_id + 1;
        conversation_id = conversation.id;
        user_id = some owner.id;
        external_handle = d.primary_handle owner;
        external_id = none;
        display_name = owner.display_name;
        service = some "web";
        role = MemberRole.owner;
        status = MemberStatus.active;
        joined_at = now;
        left_at = none;
        created_at = now;
      } in
      let channel : ConversationChannel = record {
        id = s.next_id + 2;
        conversation_id = conversation.id;
        provider = "web";
        external_id = join_text "group:" (d.print_id conversation.id);
        service = some "web";
        status = ActivityStatus.active;
      } in
      raise_if (not (good_title clean)) bad_name
      >> ok (
        conversation,
        record s {
          conversations = s.conversations ++ conversation ∷ [];
          members = s.members ++ member ∷ [];
          channels = s.channels ++ channel ∷ [];
          next_id = s.next_id + 3;
        },
      )

-- The user is an active member of the conversation.
abbrev pub is_member : ℕ → ℕ → ConversationMember → Bool
is_member conversation user m =
    m.conversation_id == conversation && id_is m.user_id user && is_active m.status

abbrev pub is_open : ActivityStatus → Bool
is_open ActivityStatus.active = true
is_open ActivityStatus.inactive = false

-- `get_conversation_for_member`
unfoldable pub get_conversation_for_member : ℕ → ℕ → Store → GroupResult Conversation
get_conversation_for_member conversation user s =
    or_raise
      (find?
        (λ c.
          c.id == conversation && is_open c.status && any (is_member conversation user) s.members)
        s.conversations)
      not_found

abbrev pub hours : ℕ → ℕ
hours n = n * 3600000000

-- `create_group_invite`, with the token that `secrets` gives
unfoldable pub create_group_invite :
    Directory → ℕ → ℕ → ℕ → ℕ → String → ℕ → Store → GroupResult (ConversationInvite × Store)
create_group_invite d conversation user ttl_hours max_uses token now s = do
  c ← get_conversation_for_member conversation user s
  raise_if (not (is_group c.kind)) not_found
  raise_if (not (c.user_id == user)) not_permitted
  let invite : ConversationInvite = record {
    id = s.next_id;
    conversation_id = c.id;
    created_by_user_id = user;
    token_hash = d.hash_token token;
    max_uses = max 1 (min max_uses 100);
    use_count = 0;
    expires_at = now + hours (max 1 (min ttl_hours 720));
    revoked_at = none;
  }
  ok (invite, record s { invites = s.invites ++ invite ∷ []; next_id = suc s.next_id })

-- The invite still admits users.
abbrev pub is_good : ℕ → ConversationInvite → Bool
is_good now i = not (is_some i.revoked_at) && ltb now i.expires_at && ltb i.use_count i.max_uses

abbrev rejoin : User → ConversationMember → ConversationMember
rejoin user m = record m {
  user_id = some user.id;
  display_name = or_text user.display_name m.display_name;
  status = MemberStatus.active;
  left_at = none;
}

abbrev new_member : Directory → ℕ → User → ℕ → ℕ → ConversationMember
new_member d conversation user id now = record {
  id = id;
  conversation_id = conversation;
  user_id = some user.id;
  external_handle = d.primary_handle user;
  external_id = none;
  display_name = user.display_name;
  service = some "web";
  role = MemberRole.member;
  status = MemberStatus.active;
  joined_at = now;
  left_at = none;
  created_at = now;
}

abbrev admit :
    Directory
    → User
    → ConversationInvite
    → Conversation
    → ℕ
    → Store
    → Option ConversationMember
    → Store
admit d user invite c now s none = record s {
  members = s.members ++ new_member d c.id user s.next_id now ∷ [];
  invites =
      update (λ i. i.id == invite.id) (λ i. record i { use_count = i.use_count + 1 }) s.invites;
  next_id = suc s.next_id;
}
admit d user invite c now s (some m) = record s {
  members = update (λ x. x.id == m.id) (rejoin user) s.members;
}

abbrev known_as : Directory → ℕ → User → ConversationMember → Bool
known_as d conversation user m =
    m.conversation_id == conversation
    && (id_is m.user_id user.id || str_eq m.external_handle (d.primary_handle user))

-- `join_group_from_invite`
unfoldable pub join_group_from_invite :
    Directory → String → User → ℕ → Store → GroupResult (Conversation × Store)
join_group_from_invite d token user now s = do
  invite ← or_raise (find? (λ i. str_eq i.token_hash (d.hash_token token)) s.invites) bad_invite
  raise_if (not (is_good now invite)) bad_invite
  c ← or_raise (find? (λ x. x.id == invite.conversation_id) s.conversations) bad_invite
  raise_if (not (is_group c.kind)) bad_invite
  let s' = admit d user invite c now s (find? (known_as d c.id user) s.members)
  ok (
    record c { updated_at = now },
    record s' {
      conversations =
          update (λ x. x.id == c.id) (λ x. record x { updated_at = now }) s'.conversations;
    },
  )

-- `leave_web_group`
unfoldable pub leave_web_group : ℕ → ℕ → ℕ → Store → GroupResult Store
leave_web_group conversation user now s = do
  c ← get_conversation_for_member conversation user s
  raise_if (not (is_group c.kind)) not_found
  m ←
      or_raise (find? (λ x. x.conversation_id == conversation && id_is x.user_id user) s.members)
        not_found
  raise_if (is_owner m.role) not_permitted
  ok (record s {
    members =
        update (λ x. x.id == m.id) (λ x. record x { status = left; left_at = some now }) s.members;
  })

-- `rename_group`
unfoldable pub rename_group : ℕ → ℕ → String → Store → GroupResult Store
rename_group conversation user title s = do
  c ← get_conversation_for_member conversation user s
  raise_if (not (is_group c.kind)) not_found
  raise_if (not (c.user_id == user)) not_permitted
  raise_if (not (good_title (strip title))) bad_name
  ok (record s {
    conversations =
        update (λ x. x.id == c.id) (λ x. record x { title = some (strip title) }) s.conversations;
  })
