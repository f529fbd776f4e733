-- ===== src/Groups/Records.antt =====
-- The rows that src/benji_api/services/groups.py reads and writes (models/channel.py,
-- models/generated_app.py, models/generated_app_v2.py), less the columns that neither it nor
-- services/generated_apps_v2.py reads.
pub use dot_backend.Prelude.Result.{
  Result, err, ok, ◌>>=◌, ◌>>◌, bind-ok, raise_if, or_raise, raise_if-ok, or_raise-ok,
}
use dot_backend.Prelude.{ℕ, String, Bool, true, false, Option, List, str_eq, if◌then◌else◌}

pub data ConversationKind : Type 0 where
  direct group : ConversationKind

pub data ActivityStatus : Type 0 where
  active inactive : ActivityStatus

pub data MemberRole : Type 0 where
  owner member : MemberRole

-- The status column holds what the channel sends: any text.
pub data MemberStatus : Type 0 where
  active left removed : MemberStatus
  other : String → MemberStatus

unfoldable pub member_status : String → MemberStatus
member_status s =
    if str_eq s "active"
    then MemberStatus.active
    else (if str_eq s "left" then left else (if str_eq s "removed" then removed else other s))

pub data AppStatus : Type 0 where
  active archived : AppStatus

pub data AccessMode : Type 0 where
  private_link collaborative_link : AccessMode

pub data RuntimeKind : Type 0 where
  legacy code : RuntimeKind

pub data AppRole : Type 0 where
  owner editor member viewer : AppRole

pub record Conversation : Type 0 where
  pub id : ℕ
  pub user_id : ℕ
  pub kind : ConversationKind
  pub title : Option String
  pub avatar_url : Option String
  pub group_owner_source : Option String
  pub status : ActivityStatus
  pub updated_at : ℕ

pub record ConversationMember : Type 0 where
  pub id : ℕ
  pub conversation_id : ℕ
  pub user_id : Option ℕ
  pub external_handle : String
  pub external_id : Option String
  pub display_name : Option String
  pub service : Option String
  pub role : MemberRole
  pub status : MemberStatus
  pub joined_at : ℕ
  pub left_at : Option ℕ
  pub created_at : ℕ

pub record ConversationInvite : Type 0 where
  pub id : ℕ
  pub conversation_id : ℕ
  pub created_by_user_id : ℕ
  pub token_hash : String
  pub max_uses : ℕ
  pub use_count : ℕ
  pub expires_at : ℕ
  pub revoked_at : Option ℕ

pub record ConversationChannel : Type 0 where
  pub id : ℕ
  pub conversation_id : ℕ
  pub provider : String
  pub external_id : String
  pub service : Option String
  pub status : ActivityStatus

pub record GeneratedApp : Type 0 where
  pub id : ℕ
  pub user_id : ℕ
  pub conversation_id : ℕ
  pub public_id : String
  pub title : String
  pub description : String
  pub access_mode : AccessMode
  pub status : AppStatus
  pub current_version : ℕ
  pub runtime_kind : RuntimeKind
  pub updated_at : ℕ

pub record AppMembership : Type 0 where
  pub id : ℕ
  pub app_id : ℕ
  pub user_id : ℕ
  pub role : AppRole

pub record AppSession : Type 0 where
  pub id : ℕ
  pub app_id : ℕ
  pub user_id : Option ℕ
  pub role : AppRole
  pub token_hash : String
  pub expires_at : ℕ
  pub revoked_at : Option ℕ

pub record AppTicket : Type 0 where
  pub id : ℕ
  pub app_id : ℕ
  pub issued_by_user_id : ℕ
  pub principal_user_id : Option ℕ
  pub role : AppRole
  pub token_hash : String
  pub expires_at : ℕ
  pub used_at : Option ℕ
  pub last_redeemed_at : Option ℕ
  pub redemption_count : ℕ

pub record User : Type 0 where
  pub id : ℕ
  pub display_name : Option String

-- What the generated apps grant.
pub record Grants : Type 0 where
  pub memberships : List AppMembership
  pub sessions : List AppSession
  pub tickets : List AppTicket
  pub next_grant : ℕ

-- The tables, with the next unused key.
pub record Store : Type 0 where
  pub conversations : List Conversation
  pub members : List ConversationMember
  pub invites : List ConversationInvite
  pub channels : List ConversationChannel
  pub apps : List GeneratedApp
  pub grants : Grants
  pub next_id : ℕ

-- The exceptions of the service.
pub data GroupError : Type 0 where
  not_found not_permitted bad_invite bad_name : GroupError

-- A call of the service returns a value or raises.
abbrev pub GroupResult {ℓ} : Type ℓ → Type ℓ
GroupResult A = Result GroupError A

abbrev pub is_group : ConversationKind → Bool
is_group group = true
is_group direct = false

abbrev pub is_owner : MemberRole → Bool
is_owner MemberRole.owner = true
is_owner MemberRole.member = false

abbrev pub is_active : MemberStatus → Bool
is_active MemberStatus.active = true
is_active left = false
is_active removed = false
is_active (other s) = false

abbrev pub is_app_owner : AppRole → Bool
is_app_owner AppRole.owner = true
is_app_owner editor = false
is_app_owner AppRole.member = false
is_app_owner viewer = false
