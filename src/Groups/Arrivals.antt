-- ===== src/Groups/Arrivals.antt =====
-- `resolve_linq_group_conversation` of src/benji_api/services/groups.py: the group of a message that
-- comes in on the Linq messaging channel.
use dot_backend.Prelude.{
  ℕ, ◌+◌, String, Bool, true, false, not, Option, none, some, [], ◌∷◌, ◌++◌, ◌==◌, is_some, or_text,
  find?, update,
}
use dot_backend.Prelude.Json.{Fields, end, field, get}
use dot_backend.Groups.Records.{
  Conversation, ConversationMember, ConversationChannel, group, ActivityStatus, User, MemberRole,
  MemberStatus, is_group, Store, GroupResult, ok, ◌>>=◌, ◌>>◌, raise_if, or_raise, not_permitted,
}
use dot_backend.Groups.Ownership.{claim_group_owner}
use dot_backend.Groups.Members.{
  ChannelWorld, MemberReport, clean_optional_text, canonical_handle, upsert_group_member,
  sync_linq_group_participants,
}
use dot_backend.Groups.Channel.{or_default, linq_channel, has_conversation, retitle}

-- The arguments of `resolve_linq_group_conversation`; `chat_data` is empty where it is None.
pub record Inbound : Type 0 where
  pub external_chat_id : String
  pub sender : User
  pub service : Option String
  pub sender_handle : Option String
  pub chat_data : Fields
  pub claim_owner : Bool

-- A new group with its channel: the key of the conversation, and the tables.
abbrev new_linq_group : Inbound → ℕ → Store → ℕ × Store
new_linq_group q now s =
    let conversation : Conversation = record {
      id = s.next_id;
      user_id = q.sender.id;
      kind = group;
      title = some (or_default (clean_optional_text (get "display_name" q.chat_data) 120));
      avatar_url = none;
      group_owner_source = some "unclaimed";
      status = ActivityStatus.active;
      updated_at = now;
    } in
    let channel : ConversationChannel = record {
      id = s.next_id + 1;
      conversation_id = s.next_id;
      provider = "linq";
      external_id = q.external_chat_id;
      service = q.service;
      status = ActivityStatus.active;
    } in
    (
      s.next_id,
      record s {
        conversations = s.conversations ++ conversation ∷ [];
        channels = s.channels ++ channel ∷ [];
        next_id = s.next_id + 2;
      },
    )

-- The group of a channel that exists: `if service: channel.service = service`.
abbrev old_linq_group : Inbound → ConversationChannel → Store → GroupResult (ℕ × Store)
old_linq_group q channel s = do
  c ← or_raise (find? (has_conversation channel.conversation_id) s.conversations) not_permitted
  raise_if (not (is_group c.kind)) not_permitted
  ok (
    c.id,
    record s {
      channels =
          update (λ x. x.id == channel.id) (λ x. record x { service = or_text q.service x.service })
            s.channels;
    },
  )

abbrev linq_group : Inbound → ℕ → Store → Option ConversationChannel → GroupResult (ℕ × Store)
linq_group q now s none = ok (new_linq_group q now s)
linq_group q now s (some channel) = old_linq_group q channel s

abbrev sender_report : ChannelWorld → Inbound → MemberReport
sender_report w q = record {
  handle =
      canonical_handle w
        (elim (or_text q.sender_handle none) [ none ↦ w.primary_handle q.sender | some h ↦ h ]);
  user = some q.sender;
  role = MemberRole.member;
  service = q.service;
  external_id = none;
  display_name = q.sender.display_name;
  status = MemberStatus.active;
  joined_at = none;
  left_at = none;
}

-- `if chat_data:`
abbrev sync_chat : ChannelWorld → ℕ → ℕ → Fields → Store → Store
sync_chat w k now end s = s
sync_chat w k now (field j v fs) s =
    retitle k (clean_optional_text (get "display_name" (field j v fs)) 120)
      (sync_linq_group_participants w k now (field j v fs) s)

-- `if claim_owner:`. Of the member only the key matters, and that an account is linked to it, which
-- the rows that the channel reports do not change.
abbrev claim_if : Bool → ℕ → ConversationMember → ℕ → Store → GroupResult Store
claim_if false k m now s = ok s
claim_if true k m now s = do
  c ← or_raise (find? (has_conversation k) s.conversations) not_permitted
  claimed ← claim_group_owner c m "first_invoker" now s
  ok claimed.1

-- `resolve_linq_group_conversation`: the key of the conversation, whether it is new, the tables.
unfoldable pub resolve_linq_group_conversation :
    ChannelWorld → Inbound → ℕ → Store → GroupResult (ℕ × Bool × Store)
resolve_linq_group_conversation w q now s = do
  let channel = find? (linq_channel q.external_chat_id) s.channels
  there ← linq_group q now s channel
  let joined = upsert_group_member there.0 (sender_report w q) now there.1
  s' ← claim_if q.claim_owner there.0 joined.0 now (sync_chat w there.0 now q.chat_data joined.1)
  ok (there.0, not (is_some channel), s')
