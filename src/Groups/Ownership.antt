-- ===== src/Groups/Ownership.antt =====
-- `transfer_group_ownership`, `claim_group_owner` and `_revoke_unclaimed_group_app_owner` of
-- src/benji_api/services/groups.py.
pub mod Transfer
use dot_backend.Prelude.{
  ℕ, String, Bool, true, false, not, ◌&&◌, ◌||◌, Option, none, some, List, [], ◌∷◌, ◌++◌, map, ◌==◌,
  id_is, is_some, str_eq, text_is, find?, update, select, delete, if◌then◌else◌,
}
use dot_backend.Groups.Records.{
  Conversation, ConversationMember, GeneratedApp, MemberRole, Store, GroupResult, ok, err, ◌>>=◌,
  ◌>>◌, raise_if, or_raise, not_found, not_permitted, is_group, is_owner, is_active,
}
use dot_backend.Groups.Access.{transfer_all, revoke_all}

abbrev pub in_group : ℕ → ConversationMember → Bool
in_group k m = m.conversation_id == k

abbrev pub app_of : ℕ → GeneratedApp → Bool
app_of k a = a.conversation_id == k

-- The owner loses the role, and the successor gets it.
abbrev pub pass_role : ℕ → ℕ → List ConversationMember → List ConversationMember
pass_role k successor members =
    update (λ m. m.id == successor) (λ m. record m { role = MemberRole.owner })
      (update (λ m. in_group k m && is_owner m.role) (λ m. record m { role = MemberRole.member })
        members)

abbrev pub owner_ids : List ConversationMember → List ℕ
owner_ids [] = []
owner_ids (m ∷ ms) = elim m.user_id [ none ↦ owner_ids ms | some u ↦ u ∷ owner_ids ms ]

-- `prior_owner_ids`, without the new owner
abbrev pub prior_owners : Conversation → ℕ → Store → List ℕ
prior_owners c new s =
    delete (λ u. u == new)
      (c.user_id
        ∷ (owner_ids (select (λ m. in_group c.id m && is_owner m.role) s.members)
            ++ map (λ (a : GeneratedApp). a.user_id) (select (app_of c.id) s.apps)))

-- The rows that an accepted transfer writes.
abbrev pub transferred :
    Conversation → ConversationMember → ℕ → String → Option ℕ → ℕ → Store → Store
transferred c successor new source departing now s = record s {
  conversations =
      update (λ x. x.id == c.id) (λ x. record x { user_id = new; group_owner_source = some source })
        s.conversations;
  members = pass_role c.id successor.id s.members;
  apps = update (app_of c.id) (λ a. record a { user_id = new }) s.apps;
  grants =
      transfer_all (select (app_of c.id) s.apps) new (prior_owners c new s) departing now s.grants;
}

-- `transfer_group_ownership`: `conversation` and `successor` are the rows in the caller's hands,
-- which are read again under the lock.
unfoldable pub transfer_group_ownership :
    Conversation → ConversationMember → String → Option ℕ → ℕ → Store → GroupResult Store
transfer_group_ownership conversation successor source departing now s = do
  raise_if (not (is_group conversation.kind)) not_permitted
  raise_if (not (is_some successor.user_id)) not_permitted
  locked ← or_raise (find? (λ c. c.id == conversation.id) s.conversations) not_found
  heir ←
      or_raise (find? (λ m. in_group locked.id m && m.id == successor.id) s.members) not_permitted
  new ← or_raise heir.user_id not_permitted
  raise_if (not (is_active heir.status)) not_permitted
  ok (transferred locked heir new source departing now s)

-- `group_owner_source in {None, "unclaimed", "legacy_inferred"}`
abbrev pub claimable_source : Option String → Bool
claimable_source none = true
claimable_source (some s) = str_eq s "unclaimed" || str_eq s "legacy_inferred"

abbrev claim_by :
    Conversation → ConversationMember → String → ℕ → Store → Option ℕ → GroupResult (Bool × Store)
claim_by c m source now s (some user) = do
  s' ← transfer_group_ownership c m source none now s
  ok (true, s')
claim_by c m source now s none = ok (
  true,
  record s {
    conversations =
        update (λ x. x.id == c.id) (λ x. record x { group_owner_source = some source })
          s.conversations;
    members = pass_role c.id m.id s.members;
  },
)

-- `claim_group_owner`
unfoldable pub claim_group_owner :
    Conversation → ConversationMember → String → ℕ → Store → GroupResult (Bool × Store)
claim_group_owner c m source now s =
    if claimable_source c.group_owner_source
    then claim_by c m source now s m.user_id
    else ok (false, s)

-- `_revoke_unclaimed_group_app_owner`
unfoldable pub revoke_unclaimed_group_app_owner : ℕ → ℕ → ℕ → Store → Store
revoke_unclaimed_group_app_owner k departing now s = record s {
  grants = revoke_all (select (app_of k) s.apps) departing now s.grants;
}
