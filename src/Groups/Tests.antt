-- ===== src/Groups/Tests.antt =====
-- A group of two members with an app and an invite, at which the properties of groups are applied.
use dot_backend.Prelude.{◌≡◌, ◌⊎◌, refl, none, some, [], ◌∷◌, Keyed, here, arith}
use dot_backend.Prelude.Json.{Fields, end, field, array, object, text, nil, cons}
use dot_backend.Groups.Records.{
  Conversation, group, ActivityStatus, ConversationMember, MemberRole, MemberStatus,
  ConversationInvite, AppRole, AppStatus, collaborative_link, code, Grants, User, Store, ok,
}
use dot_backend.Groups.Access.Passed.{Terms}
use dot_backend.Groups.Ownership.{transfer_group_ownership, transferred}
use dot_backend.Groups.Ownership.Transfer.{IsHeir, IsOwned, transfer_group_ownership-IsOwned}
use dot_backend.Groups.Web.{
  Directory, join_group_from_invite, leave_web_group, get_conversation_for_member,
}
use dot_backend.Groups.Web.Invites.{WithinLimits, join-WithinLimits}
use dot_backend.Groups.Members.{ChannelWorld, sync_linq_group_participants}
use dot_backend.Groups.Members.Owners.{owners, sync_linq_group_participants-owners}
use dot_backend.Groups.Channel.{hand_over}
use dot_backend.Groups.Channel.Succession.{Inherited, Orphaned, hand_over-total}

abbrev pub flat : Conversation
flat = record {
  id = 1;
  user_id = 10;
  kind = group;
  title = some "flat";
  avatar_url = none;
  group_owner_source = some "explicit";
  status = ActivityStatus.active;
  updated_at = 0;
}

abbrev pub ann : ConversationMember
ann = record {
  id = 2;
  conversation_id = 1;
  user_id = some 10;
  external_handle = "+491";
  external_id = none;
  display_name = some "Ann";
  service = some "web";
  role = MemberRole.owner;
  status = MemberStatus.active;
  joined_at = 0;
  left_at = none;
  created_at = 0;
}

abbrev pub ben : ConversationMember
ben = record ann {
  id = 3;
  user_id = some 11;
  external_handle = "+492";
  display_name = some "Ben";
  role = MemberRole.member;
  joined_at = 5;
  created_at = 5;
}

abbrev invite : ConversationInvite
invite = record {
  id = 4;
  conversation_id = 1;
  created_by_user_id = 10;
  token_hash = "secret";
  max_uses = 1;
  use_count = 0;
  expires_at = 1000;
  revoked_at = none;
}

abbrev grants : Grants
grants = record {
  memberships = (record { id = 6; app_id = 5; user_id = 10; role = AppRole.owner }) ∷ [];
  sessions =
      (record {
        id = 7;
        app_id = 5;
        user_id = some 10;
        role = AppRole.owner;
        token_hash = "s";
        expires_at = 900;
        revoked_at = none;
      })
      ∷ [];
  tickets =
      (record {
        id = 8;
        app_id = 5;
        issued_by_user_id = 10;
        principal_user_id = some 10;
        role = AppRole.owner;
        token_hash = "t";
        expires_at = 900;
        used_at = none;
        last_redeemed_at = none;
        redemption_count = 0;
      })
      ∷ [];
  next_grant = 20;
}

abbrev pub store : Store
store = record {
  conversations = flat ∷ [];
  members = ann ∷ ben ∷ [];
  invites = invite ∷ [];
  channels = [];
  apps =
      (record {
        id = 5;
        user_id = 10;
        conversation_id = 1;
        public_id = "rent";
        title = "Rent";
        description = "Who pays";
        access_mode = collaborative_link;
        status = AppStatus.active;
        current_version = 1;
        runtime_kind = code;
        updated_at = 0;
      })
      ∷ [];
  grants = grants;
  next_id = 30;
}

members-Keyed : Keyed (λ (m : ConversationMember). m.id) store.members
members-Keyed = (((λ e. omega arith), tt), (tt, tt))

-- The store after Ben has taken the group over.
abbrev pub passed : Store
passed = transferred flat ben 11 "transferred" (some 10) 100 store

pub accepted_transfer :
    transfer_group_ownership flat ben "transferred" (some 10) 100 store ≡ ok passed
unfolding transfer_group_ownership
accepted_transfer = refl

transfer_group_ownership-IsOwned_example :
    (t : Terms) × (t.departing ≡ some 10)
    × (t.now ≡ 100)
    × IsHeir 1 3 t.new store
    × IsOwned 1 3 t passed
transfer_group_ownership-IsOwned_example =
    transfer_group_ownership-IsOwned flat ben "transferred" (some 10) 100 store passed
      accepted_transfer

hand_over-total_example :
    (s' : Store) × (hand_over flat ann 100 store ≡ ok s')
    × (Inherited flat ann 100 store s' ⊎ Orphaned flat ann 100 store s')
hand_over-total_example = hand_over-total flat ann 100 store (tt, tt) members-Keyed (here refl) refl

abbrev directory : Directory
directory = record {
  primary_handle = λ user. "+493";
  hash_token = λ token. token;
  print_id = λ k. "00000000-0000-0000-0000-000000000001";
}

abbrev cleo : User
cleo = record { id = 12; display_name = some "Cleo" }

abbrev joined : Store
joined = record store {
  members =
      ann
      ∷ ben
      ∷ (record ben {
        id = 30;
        user_id = some 12;
        external_handle = "+493";
        display_name = some "Cleo";
        joined_at = 100;
        created_at = 100;
      })
      ∷ [];
  invites = (record invite { use_count = 1 }) ∷ [];
  conversations = (record flat { updated_at = 100 }) ∷ [];
  next_id = 31;
}

cleo_joins :
    join_group_from_invite directory "secret" cleo 100 store
    ≡ ok (record flat { updated_at = 100 }, joined)
unfolding join_group_from_invite
cleo_joins = refl

join-WithinLimits_example : WithinLimits joined.invites
join-WithinLimits_example =
    join-WithinLimits directory "secret" cleo 100 store (record flat { updated_at = 100 }) joined
      (tt, tt) ((omega arith), tt) cleo_joins

abbrev left_store : Store
left_store = record store {
  members = ann ∷ (record ben { status = MemberStatus.left; left_at = some 100 }) ∷ [];
}

ben_leaves : leave_web_group 1 11 100 store ≡ ok left_store
unfolding leave_web_group get_conversation_for_member
ben_leaves = refl

abbrev world : ChannelWorld
world = record {
  normalize = λ handle. some handle;
  find_user = λ handle. none;
  primary_handle = λ user. "+493";
  parse_iso = λ value. none;
  python_str = λ value. "active";
}

abbrev chat : Fields
chat =
    field "handles"
      (array (
        cons (object (field "handle" (text "+494") end))
          (cons (object (field "handle" (text "+491") (field "status" (text "left") end))) nil)))
      end

sync_linq_group_participants-owners_example :
    owners (sync_linq_group_participants world 1 100 chat store).members ≡ owners store.members
sync_linq_group_participants-owners_example =
    sync_linq_group_participants-owners world 1 100 chat store
