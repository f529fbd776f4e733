-- ===== src/Groups/Ownership/Transfer.antt =====
-- What an accepted `transfer_group_ownership` of src/benji_api/services/groups.py achieves.
use dot_backend.Prelude.{
  ℕ, ◌≡◌, inl, inr, refl, sym, subst, String, true, not, ◌&&◌, Option, some, List, All,
  All-update_to, All-update_any, Has, All-of_Has, Has-select, Has-update, ==_refl, arith, ◌==◌,
  is_some, find?, find?-holds, find?-Has, select, Bool-cases,
}
use dot_backend.Groups.Records.{
  Conversation, ConversationMember, GeneratedApp, MemberRole, Store, ok, raise_if, or_raise,
  bind-ok, raise_if-ok, or_raise-ok, not_permitted, not_found, is_group, is_owner, is_active,
  Grants,
}
use dot_backend.Groups.Access.{transfer_all}
use dot_backend.Groups.Access.Passed.{AppPassed, Terms, transfer_all-Passed}
use dot_backend.Groups.Ownership.{
  in_group, app_of, pass_role, transferred, prior_owners, transfer_group_ownership,
}

-- A transfer is accepted only between the rows that the tables hold: the conversation is a group,
-- and the heir is an active member of it with a linked account.
pub record Accepted (c : Conversation) (m : ConversationMember) (source : String)
    (departing : Option ℕ) (now : ℕ) (s s' : Store) : Type 0 where
  pub locked : Conversation
  pub heir : ConversationMember
  pub new : ℕ
  pub kind : is_group c.kind ≡ true
  pub same_conversation : locked.id ≡ c.id
  pub same_member : heir.id ≡ m.id
  pub in_table : Has heir s.members
  pub in_conversation : heir.conversation_id ≡ c.id
  pub linked : heir.user_id ≡ some new
  pub active : is_active heir.status ≡ true
  pub result : s' ≡ transferred locked heir new source departing now s

-- A transfer that does not raise was accepted on these terms.
pub transfer_group_ownership-Accepted :
    (c : Conversation) (m : ConversationMember) (source : String) (departing : Option ℕ) (now : ℕ)
    (s s' : Store)
    → transfer_group_ownership c m source departing now s ≡ ok s'
    → Accepted c m source departing now s s'
unfolding transfer_group_ownership
transfer_group_ownership-Accepted c m source departing now s s' h =
    let (_, kind, h1) = bind-ok (raise_if (not (is_group c.kind)) not_permitted) _ h in
    let (_, _, h2) = bind-ok (raise_if (not (is_some m.user_id)) not_permitted) _ h1 in
    let (locked, found, h3) =
      bind-ok (or_raise (find? (λ x. x.id == c.id) s.conversations) not_found) _ h2 in
    let (heir, present, h4) =
      bind-ok (or_raise (find? (λ x. in_group locked.id x && x.id == m.id) s.members) not_permitted)
        _ h3 in
    let (new, linked, h5) = bind-ok (or_raise heir.user_id not_permitted) _ h4 in
    let (_, active, h6) = bind-ok (raise_if (not (is_active heir.status)) not_permitted) _ h5 in
    let in_rows = or_raise-ok _ not_permitted present in
    let is_conversation = find?-holds _ s.conversations locked (or_raise-ok _ not_found found) in
    let is_member = find?-holds _ s.members heir in_rows in
    record {
      locked = locked;
      heir = heir;
      new = new;
      kind = (let k = raise_if-ok _ not_permitted kind in ground arith);
      same_conversation = ground arith;
      same_member = ground arith;
      in_table = find?-Has _ s.members heir in_rows;
      in_conversation = ground arith;
      linked = or_raise-ok heir.user_id not_permitted linked;
      active = (let a = raise_if-ok _ not_permitted active in ground arith);
      result = cc;
    }

-- The member `successor` alone owns the group `k`, and the account `new` owns it and its apps,
-- whose grants have passed to that account.
pub record IsOwned (k successor : ℕ) (t : Terms) (s : Store) : Type 0 where
  pub sole_owner :
      All
        (λ (m : ConversationMember).
          m.conversation_id ≡ k → m.role ≡ MemberRole.owner → m.id ≡ successor)
        s.members
  pub crowned :
      All (λ (m : ConversationMember). m.id ≡ successor → m.role ≡ MemberRole.owner) s.members
  pub seated :
      (m : ConversationMember) × Has m s.members × (m.id ≡ successor) × (m.role ≡ MemberRole.owner)
  pub holder : All (λ (c : Conversation). c.id ≡ k → c.user_id ≡ t.new) s.conversations
  pub apps :
      All
        (λ (a : GeneratedApp).
          a.conversation_id ≡ k → (a.user_id ≡ t.new) × AppPassed t a.id s.grants)
        s.apps

pass_role-sole :
    (k successor : ℕ) (members : List ConversationMember)
    → All
        (λ (m : ConversationMember).
          m.conversation_id ≡ k → m.role ≡ MemberRole.owner → m.id ≡ successor)
        (pass_role k successor members)
pass_role-sole k successor members =
    All-update_to
      (λ (m : ConversationMember). m.conversation_id ≡ k → m.role ≡ MemberRole.owner → ⊥)
      (λ (m : ConversationMember).
        m.conversation_id ≡ k → m.role ≡ MemberRole.owner → m.id ≡ successor)
      (λ m. m.id == successor) _ _ (λ m e _ _ _. ground arith) (λ m _ h c o. absurd (h c o))
      (All-update_any _ (λ m. in_group k m && is_owner m.role)
        (λ m. record m { role = MemberRole.member }) members
        λ m. elim (Bool-cases (in_group k m && is_owner m.role)) [
          | inl e ↦ rw e (λ c o. cc)
          | inr e ↦ rw e (λ c o. ground arith)
        ])

pass_role-seated :
    (k : ℕ) (heir : ConversationMember) (members : List ConversationMember)
    → Has heir members
    → (m : ConversationMember) × Has m (pass_role k heir.id members)
      × (m.id ≡ heir.id)
      × (m.role ≡ MemberRole.owner)
pass_role-seated k heir members found =
    let demoted =
      Has-update (λ m. in_group k m && is_owner m.role) (λ m. record m { role = MemberRole.member })
        found in
    let raised =
      Has-update (λ m. m.id == heir.id) (λ m. record m { role = MemberRole.owner }) demoted in
    (_, raised, ground (arith, ==_refl heir.id), ground (arith, ==_refl heir.id))

transferred-IsOwned :
    (locked : Conversation) (heir : ConversationMember) (source : String) (s : Store) (t : Terms)
    → t.prior ≡ prior_owners locked t.new s
    → Has heir s.members
    → IsOwned locked.id heir.id t (transferred locked heir t.new source t.departing t.now s)
transferred-IsOwned locked heir source s t same_prior found = record {
  seated = pass_role-seated locked.id heir s.members found;
  sole_owner = pass_role-sole locked.id heir.id s.members;
  crowned =
      All-update_any (λ m. m.id ≡ heir.id → m.role ≡ MemberRole.owner) (λ m. m.id == heir.id) _ _
        (λ m. elim (Bool-cases (m.id == heir.id)) [
          | inl e ↦ rw e (λ _. refl)
          | inr e ↦ rw e (λ i. absurd (ground arith))
        ]);
  holder =
      All-update_any (λ c. c.id ≡ locked.id → c.user_id ≡ t.new) (λ c. c.id == locked.id) _
        s.conversations
        (λ c. elim (Bool-cases (c.id == locked.id)) [
          | inl e ↦ rw e (λ _. refl)
          | inr e ↦ rw e (λ i. absurd (ground arith))
        ]);
  apps =
      All-update_to (λ a. a.conversation_id ≡ locked.id → AppPassed t a.id (after t.prior))
        (λ a.
          a.conversation_id ≡ locked.id
          → (a.user_id ≡ t.new) × AppPassed t a.id (after (prior_owners locked t.new s)))
        (app_of locked.id) (λ a. record a { user_id = t.new }) s.apps
        (λ a _ passed i. (refl, subst (λ p. AppPassed t a.id (after p)) same_prior (passed i)))
        (λ a e _ i. absurd (ground arith))
        (All-of_Has _ s.apps λ a m i.
          transfer_all-Passed t (select (app_of locked.id) s.apps) s.grants a
            (Has-select (app_of locked.id) a s.apps m (ground arith)));
}
  where
    after : List ℕ → Grants
    after prior =
        transfer_all (select (app_of locked.id) s.apps) t.new prior t.departing t.now s.grants

-- Before the transfer the successor is an active member of the group with the account `new`.
pub record IsHeir (k successor new : ℕ) (s : Store) : Type 0 where
  pub heir : ConversationMember
  pub in_table : Has heir s.members
  pub named : heir.id ≡ successor
  pub in_conversation : heir.conversation_id ≡ k
  pub active : is_active heir.status ≡ true
  pub linked : heir.user_id ≡ some new

-- After a transfer that does not raise, the successor, who was an active member of the group, alone
-- has the owner's role in it, the successor's account owns the conversation and every app of the
-- group, and the grants of those apps have passed: no other account keeps an owner's membership, or
-- an owner's session or ticket that is still good, and the departing owner, if one is named, keeps
-- no membership, unless it is the new owner itself, and no session or ticket that is still good.
pub transfer_group_ownership-IsOwned :
    (c : Conversation) (m : ConversationMember) (source : String) (departing : Option ℕ) (now : ℕ)
    (s s' : Store)
    → transfer_group_ownership c m source departing now s ≡ ok s'
    → (t : Terms) × (t.departing ≡ departing)
      × (t.now ≡ now)
      × IsHeir c.id m.id t.new s
      × IsOwned c.id m.id t s'
transfer_group_ownership-IsOwned c m source departing now s s' h =
    let a = transfer_group_ownership-Accepted c m source departing now s s' h in
    let t : Terms = record {
      new = a.new;
      prior = prior_owners a.locked a.new s;
      departing = departing;
      now = now;
    } in
    (
      t,
      refl,
      refl,
      record {
        heir = a.heir;
        in_table = a.in_table;
        named = a.same_member;
        in_conversation = a.in_conversation;
        active = a.active;
        linked = a.linked;
      },
      subst (λ z. IsOwned c.id m.id t z) (sym a.result)
          (subst (λ k. IsOwned k m.id t (transferred a.locked a.heir a.new source departing now s))
            a.same_conversation
            (subst
              (λ j.
                IsOwned a.locked.id j t (transferred a.locked a.heir a.new source departing now s))
              a.same_member (transferred-IsOwned a.locked a.heir source s t refl a.in_table))),
    )
