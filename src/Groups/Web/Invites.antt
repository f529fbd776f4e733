-- ===== src/Groups/Web/Invites.antt =====
-- Invites in src/benji_api/services/groups.py: who gets in, and how often an invite is used.
use dot_backend.Prelude.{
  ℕ, ◌≤◌, ◌≡◌, refl, ap, sym, subst, String, true, not, Option, none, some, List, All,
  All-update_key, Keyed, Has, here, Has-update, Has-append_right, any, any-Has, arith, ◌==◌,
  ==_refl, true_of_not-false, str_eq, find?, find?-holds, find?-Has,
}
use dot_backend.Groups.Records.{
  Conversation, ConversationMember, ConversationInvite, User, Store, GroupResult, ok, err, raise_if,
  or_raise, bind-ok, raise_if-ok, or_raise-ok, bad_invite, is_group,
}
use dot_backend.Groups.Web.{
  Directory, join_group_from_invite, admit, is_good, is_member, known_as, rejoin,
}

-- No invite is used more often than it allows.
abbrev pub WithinLimits : List ConversationInvite → Type 0
WithinLimits = All (λ (i : ConversationInvite). i.use_count ≤ i.max_uses)

-- The rows on which a join that did not raise went ahead.
pub record Joined (d : Directory) (token : String) (user : User) (now : ℕ) (s : Store)
    (c' : Conversation) (s' : Store) : Type 0 where
  pub invite : ConversationInvite
  pub c : Conversation
  pub in_table : Has invite s.invites
  pub good : is_good now invite ≡ true
  pub kind : is_group c.kind ≡ true
  pub conversation : c'.id ≡ c.id
  pub invites :
      s'.invites ≡ (admit d user invite c now s (find? (known_as d c.id user) s.members)).invites
  pub members :
      s'.members ≡ (admit d user invite c now s (find? (known_as d c.id user) s.members)).members

pub join-Joined :
    (d : Directory) (token : String) (user : User) (now : ℕ) (s : Store) (c' : Conversation)
    (s' : Store)
    → join_group_from_invite d token user now s ≡ ok (c', s')
    → Joined d token user now s c' s'
unfolding join_group_from_invite
join-Joined d token user now s c' s' h =
    let (invite, found, h1) =
      bind-ok
        (or_raise (find? (λ i. str_eq i.token_hash (d.hash_token token)) s.invites) bad_invite) _
        h in
    let (_, good, h2) = bind-ok (raise_if (not (is_good now invite)) bad_invite) _ h1 in
    let (c, there_is, h3) =
      bind-ok (or_raise (find? (λ x. x.id == invite.conversation_id) s.conversations) bad_invite) _
        h2 in
    let (_, kind, h4) = bind-ok (raise_if (not (is_group c.kind)) bad_invite) _ h3 in
    record {
      invite = invite;
      c = c;
      in_table = find?-Has _ s.invites invite (or_raise-ok _ bad_invite found);
      good = true_of_not-false (is_good now invite) (raise_if-ok _ bad_invite good);
      kind = true_of_not-false (is_group c.kind) (raise_if-ok _ bad_invite kind);
      conversation = sym (
          ap (λ (r : GroupResult (Conversation × Store)). elim r [ ok p ↦ p.0.id | err e ↦ c.id ])
            h4);
      invites = sym (
          ap
            (λ (r : GroupResult (Conversation × Store)). elim r [
              | ok p ↦ p.1.invites
              | err e ↦ s.invites
            ])
            h4);
      members = sym (
          ap
            (λ (r : GroupResult (Conversation × Store)). elim r [
              | ok p ↦ p.1.members
              | err e ↦ s.members
            ])
            h4);
    }

admit-is_member :
    (d : Directory) (user : User) (i : ConversationInvite) (c : Conversation) (now : ℕ) (s : Store)
    (o : Option ConversationMember)
    → find? (known_as d c.id user) s.members ≡ o
    → any (is_member c.id user.id) (admit d user i c now s o).members ≡ true
admit-is_member d user i c now s none e =
    any-Has (is_member c.id user.id) (Has-append_right s.members _ (here refl))
      (ground (arith, ==_refl c.id, ==_refl user.id))
admit-is_member d user i c now s (some m) e =
    any-Has (is_member c.id user.id)
      (Has-update (λ x. x.id == m.id) (rejoin user) (find?-Has _ s.members m e))
      (let k = find?-holds _ s.members m e in rw (==_refl m.id) (ground (arith, ==_refl user.id)))

admit-WithinLimits :
    (d : Directory) (user : User) (i : ConversationInvite) (c : Conversation) (now : ℕ) (s : Store)
    (o : Option ConversationMember)
    → Keyed (λ (x : ConversationInvite). x.id) s.invites
    → Has i s.invites
    → is_good now i ≡ true
    → WithinLimits s.invites
    → WithinLimits (admit d user i c now s o).invites
admit-WithinLimits d user i c now s none keyed found good within =
    All-update_key (λ x. x.id) (λ x. x.use_count ≤ x.max_uses) _ s.invites i keyed found
      (ground arith) within
admit-WithinLimits d user i c now s (some m) keyed found good within = within

-- A join that does not raise makes the user an active member of the group, by an invite that is
-- neither revoked, nor expired, nor used up.
pub join-is_member :
    (d : Directory) (token : String) (user : User) (now : ℕ) (s : Store) (c : Conversation)
    (s' : Store)
    → join_group_from_invite d token user now s ≡ ok (c, s')
    → (any (is_member c.id user.id) s'.members ≡ true)
      × (i : ConversationInvite) × Has i s.invites
      × (is_good now i ≡ true)
join-is_member d token user now s c s' h =
    let j = join-Joined d token user now s c s' h in
    (
      rw (j.members, j.conversation) (admit-is_member d user j.invite j.c now s _ refl),
      j.invite,
      j.in_table,
      j.good,
    )

-- Where the keys of invites are distinct and no invite is used more often than it allows, this is
-- still so after a join that does not raise.
pub join-WithinLimits :
    (d : Directory) (token : String) (user : User) (now : ℕ) (s : Store) (c : Conversation)
    (s' : Store)
    → Keyed (λ (i : ConversationInvite). i.id) s.invites
    → WithinLimits s.invites
    → join_group_from_invite d token user now s ≡ ok (c, s')
    → WithinLimits s'.invites
join-WithinLimits d token user now s c s' keyed within h =
    let j = join-Joined d token user now s c s' h in
    subst WithinLimits (sym j.invites)
      (admit-WithinLimits d user j.invite j.c now s _ keyed j.in_table j.good within)
