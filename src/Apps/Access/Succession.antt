-- ===== src/Apps/Access/Succession.antt =====
-- After services/groups.py has changed the owner of a group, services/generated_apps_v2.py grants an
-- owner's authority over the group's apps to the new owner alone, or to nobody.
use dot_backend.Prelude.{
  ℕ, ◌≤◌, ◌≡◌, inl, inr, refl, sym, ap, ◌∙◌, subst, String, true, Option, none, some, All-Has, Has,
  Has-select, ◌==◌, Keyed, Keyed-unique, Keyed-update, arith, ==_refl, find?-unique, find?-update,
}
use dot_backend.Groups.Records.{Conversation, ConversationMember, GeneratedApp, Store, ok, is_group}
use dot_backend.Groups.Access.Passed.{
  Terms, AppPassed, MembershipPassed, SessionPassed, TicketPassed,
}
use dot_backend.Groups.Access.Revoked.{
  AppRevoked, SessionRevoked, TicketRevoked, revoke_all-Revoked,
}
use dot_backend.Groups.Ownership.{
  transfer_group_ownership, app_of, revoke_unclaimed_group_app_owner,
}
use dot_backend.Groups.Ownership.Transfer.{
  IsHeir, transfer_group_ownership-IsOwned, transfer_group_ownership-Accepted,
}
use dot_backend.Groups.Channel.{hand_over, successor_of, departing_id, orphan}
use dot_backend.Prelude.Result.{bind-ok}
use dot_backend.Apps.Access.{
  AppActor, locked_active_app, authorize_user, authorize_user_for_locked_app, unclaimed_group,
}
use dot_backend.Apps.Access.Owners.{
  ActsAsOwner, as_user, by_session, by_ticket, locked_active_app-ok, authorize_user-owner,
  authorize_session-grants, redeem_access_ticket-grants,
}

-- Where the keys of the apps are distinct, the app that a call reads under a key is the stored one.
authorize_user-stored :
    (app : GeneratedApp) (user : ℕ) (s : Store) (actor : AppActor)
    → Keyed (λ (a : GeneratedApp). a.id) s.apps
    → Has app s.apps
    → authorize_user app.id user s ≡ ok actor
    → authorize_user_for_locked_app app user s ≡ ok actor
unfolding authorize_user
authorize_user-stored app user s actor keyed stored h =
    let (found, e, h1) = bind-ok (locked_active_app app.id s) _ h in
    let (m, same, _) = locked_active_app-ok app.id s found e in
    subst (λ a. authorize_user_for_locked_app a user s ≡ ok actor)
      (All-Has (λ (a : GeneratedApp). a.id ≡ app.id → a ≡ app) m
        (Keyed-unique (λ (a : GeneratedApp). a.id) s.apps app keyed stored) same)
      h1

module _ (hash : String → String) where
  owner_is_new :
      (t : Terms) (s : Store) (app : GeneratedApp) (later : ℕ) (who : Option ℕ)
      → Keyed (λ (a : GeneratedApp). a.id) s.apps
      → Has app s.apps
      → app.user_id ≡ t.new
      → AppPassed t app.id s.grants
      → t.now ≤ later
      → ActsAsOwner hash s app.id later who
      → who ≡ some t.new
  owner_is_new t s app later who keyed stored holder passed early
        (as_user user actor granted owns same) =
      let (_, way) =
        authorize_user-owner app user s actor
          (authorize_user-stored app user s actor keyed stored granted) owns in
      elim way [
        | inl e ↦ same ∙ ap some (sym e ∙ holder)
        | inr (m, in_table, at_app, his, role) ↦
            same
            ∙ ap some (
                sym his
                ∙ (All-Has (MembershipPassed t app.id) in_table passed.memberships at_app).0 role)
      ]
  owner_is_new t s app later who keyed stored holder passed early
        (by_session token actor granted owns same) =
      let g = authorize_session-grants hash app.id token later s actor granted in
      same
      ∙ g.user
      ∙ (All-Has (SessionPassed t app.id) g.in_table passed.sessions g.at_app).0 (sym g.role ∙ owns)
          g.good
  owner_is_new t s app later who keyed stored holder passed early
        (by_ticket public_id token ttl raw row s' granted at_app owns same) =
      let g = redeem_access_ticket-grants hash public_id token ttl raw later s row s' granted in
      same
      ∙ g.user
      ∙ (All-Has (TicketPassed t app.id) g.in_table passed.tickets (g.at_app ∙ at_app)).0
          (sym g.role ∙ owns) (let e = g.early in omega arith)

  nobody_owns :
      (departing now : ℕ) (s : Store) (app : GeneratedApp) (later : ℕ) (who : Option ℕ)
      → Keyed (λ (a : GeneratedApp). a.id) s.apps
      → Has app s.apps
      → unclaimed_group app s ≡ true
      → AppRevoked departing now app.id s.grants
      → now ≤ later
      → ¬ ActsAsOwner hash s app.id later who
  nobody_owns departing now s app later who keyed stored waits revoked early
        (as_user user actor granted owns same) =
      let (claimed, _) =
        authorize_user-owner app user s actor
          (authorize_user-stored app user s actor keyed stored granted) owns in
      cc
  nobody_owns departing now s app later who keyed stored waits revoked early
        (by_session token actor granted owns same) =
      let g = authorize_session-grants hash app.id token later s actor granted in
      (All-Has (SessionRevoked departing now app.id) g.in_table revoked.sessions g.at_app g.good).0
        (sym g.role ∙ owns)
  nobody_owns departing now s app later who keyed stored waits revoked early
        (by_ticket public_id token ttl raw row s' granted at_app owns same) =
      let g = redeem_access_ticket-grants hash public_id token ttl raw later s row s' granted in
      (All-Has (TicketRevoked departing now app.id) g.in_table revoked.tickets (g.at_app ∙ at_app)
          (let e = g.early in omega arith)).0
        (sym g.role ∙ owns)

  -- Where the keys of the apps are distinct: after a transfer that does not raise, whoever acts as
  -- the owner of an app of the group, as a user, by a session, or by a ticket that is redeemed, is
  -- the account of the member to whom the group passed, an active member of it.
  pub transfer_group_ownership-ActsAsOwner :
      (c : Conversation) (m : ConversationMember) (source : String) (departing : Option ℕ) (now : ℕ)
      (s s' : Store) (app : GeneratedApp) (later : ℕ) (who : Option ℕ)
      → Keyed (λ (a : GeneratedApp). a.id) s.apps
      → transfer_group_ownership c m source departing now s ≡ ok s'
      → Has app s'.apps
      → app.conversation_id ≡ c.id
      → now ≤ later
      → ActsAsOwner hash s' app.id later who
      → (new : ℕ) × IsHeir c.id m.id new s × (who ≡ some new)
  transfer_group_ownership-ActsAsOwner c m source departing now s s' app later who keyed done stored
        at_group early acts =
      let a = transfer_group_ownership-Accepted c m source departing now s s' done in
      let (t, _, at_now, heir, owned) =
        transfer_group_ownership-IsOwned c m source departing now s s' done in
      let keyed' =
        subst (λ (z : Store). Keyed (λ (x : GeneratedApp). x.id) z.apps) (sym a.result)
          (Keyed-update (λ (x : GeneratedApp). x.id) (app_of a.locked.id)
            (λ x. record x { user_id = a.new }) s.apps (λ x. refl) keyed) in
      let (holder, passed) =
        All-Has
          (λ (x : GeneratedApp).
            x.conversation_id ≡ c.id → (x.user_id ≡ t.new) × AppPassed t x.id s'.grants)
          stored owned.apps at_group in
      (t.new, heir, owner_is_new t s' app later who keyed' stored holder passed (omega arith) acts)

  orphan-unclaimed :
      (c : Conversation) (leaving : ConversationMember) (now : ℕ) (s : Store) (app : GeneratedApp)
      → Keyed (λ (x : Conversation). x.id) s.conversations
      → Has c s.conversations
      → is_group c.kind ≡ true
      → app.conversation_id ≡ c.id
      → unclaimed_group app (orphan c leaving now s) ≡ true
  unfolding revoke_unclaimed_group_app_owner
  orphan-unclaimed c leaving now s app keyed stored kind at_group =
      let found =
        find?-unique (λ (x : Conversation). x.id) (λ x. x.id == c.id) s.conversations c keyed stored
          (==_refl c.id) (λ x e. ground arith) in
      rw
        (
          at_group,
          find?-update (λ (x : Conversation). x.id == c.id) (λ x. x.id == c.id)
              (λ x. record x { group_owner_source = some "unclaimed" }) s.conversations (λ x. refl),
          found,
          ==_refl c.id,
          kind,
        )
        refl

  -- Where row keys are distinct: when the owner of a group in the tables is removed and no active
  -- member with an account is left, the group is handed over to nobody, and from then on nobody acts
  -- as the owner of an app of the group, as a user, by a session, or by a ticket that is redeemed.
  pub hand_over-ActsAsOwner :
      (c : Conversation) (leaving : ConversationMember) (now : ℕ) (s : Store) (app : GeneratedApp)
      (later : ℕ) (who : Option ℕ)
      → Keyed (λ (x : Conversation). x.id) s.conversations
      → Keyed (λ (a : GeneratedApp). a.id) s.apps
      → Has c s.conversations
      → is_group c.kind ≡ true
      → successor_of c.id leaving s.members ≡ none
      → Has app s.apps
      → app.conversation_id ≡ c.id
      → now ≤ later
      → (s' : Store) × (hand_over c leaving now s ≡ ok s') × ¬ ActsAsOwner hash s' app.id later who
  unfolding hand_over revoke_unclaimed_group_app_owner
  hand_over-ActsAsOwner c leaving now s app later who kc ka hc kind nobody stored at_group early = (
    orphan c leaving now s,
    rw nobody refl,
    nobody_owns (departing_id c leaving) now (orphan c leaving now s) app later who ka stored
        (orphan-unclaimed c leaving now s app kc hc kind at_group)
        (revoke_all-Revoked (departing_id c leaving) now _ _ app
          (Has-select (app_of c.id) app s.apps stored (ground arith)))
        early,
  )
