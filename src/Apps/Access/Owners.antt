-- ===== src/Apps/Access/Owners.antt =====
-- Who holds an owner's authority over an app: what the calls of services/generated_apps_v2.py grant
-- after the changes of ownership of services/groups.py.
use dot_backend.Prelude.{
  ℕ, ◌<◌, ◌≡◌, ◌⊎◌, inl, inr, sym, ap, subst, String, true, false, not, ◌&&◌, leb, Option, none,
  some, Has, arith, ◌==◌, ==_iff, str_eq, find?, find?-Has, find?-holds, Bool-cases, Option-cases,
}
use dot_backend.Prelude.Json.{ℤ}
use dot_backend.Apps.Records.{
  AppRole, GeneratedApp, AppMembership, AppSession, AppTicket, Store, ok, bind-ok, or_raise,
  or_raise-ok, require-ok, ok-inj, raise_if, not_found, not_authorized, is_live,
}
use dot_backend.Apps.Access.{
  AppActor, app_id_is, locked_active_app, unclaimed_group, authorize_user_for_locked_app,
  authorize_user, authorize_session, redeem_access_ticket, membership_of, or_not_authorized,
  has_token, session_of, redeemable, redemption_limit,
}

pub locked_active_app-ok :
    (k : ℕ) (s : Store) (app : GeneratedApp)
    → locked_active_app k s ≡ ok app
    → Has app s.apps × (app.id ≡ k) × (is_live app.status ≡ true)
unfolding locked_active_app
locked_active_app-ok k s app h =
    let (found, e1, h1) = bind-ok (or_raise (find? (app_id_is k) s.apps) not_found) _ h in
    let (_, live, h2) = bind-ok (raise_if (not (is_live found.status)) not_found) _ h1 in
    let e = or_raise-ok _ not_found e1 in
    subst (λ a. Has a s.apps × (a.id ≡ k) × (is_live a.status ≡ true)) (ok-inj h2)
      ((
        find?-Has _ s.apps found e,
        (==_iff found.id k).0 (find?-holds (app_id_is k) s.apps found e),
        require-ok (is_live found.status) not_found live,
      ))

-- A user who is granted the owner's role owns the app or has an owner's membership in it, and the
-- group is not waiting for an owner.
pub authorize_user-owner :
    (app : GeneratedApp) (user : ℕ) (s : Store) (actor : AppActor)
    → authorize_user_for_locked_app app user s ≡ ok actor
    → actor.role ≡ AppRole.owner
    → (unclaimed_group app s ≡ false)
      × ((app.user_id ≡ user)
          ⊎ ((m : AppMembership) × Has m s.grants.memberships
              × (m.app_id ≡ app.id)
              × (m.user_id ≡ user)
              × (m.role ≡ AppRole.owner)))
unfolding authorize_user_for_locked_app
authorize_user-owner app user s actor h owns =
    let unclaimed = unclaimed_group app s in
    elim (Bool-cases (app.user_id == user && not unclaimed)) [
      | inl e ↦ (ground arith, inl (ground arith))
      | inr e ↦ elim (Option-cases (find? (membership_of app.id user) s.grants.memberships)) [
        | inl absent ↦ absurd (ground arith)
        | inr (m, found) ↦
            let p = find?-holds (membership_of app.id user) s.grants.memberships m found in
            (ground arith, inr (m, find?-Has _ _ m found, ground arith, ground arith, ground arith))
      ]
    ]

module _ (hash : String → String) where
  -- A session that is accepted is a row that is neither revoked nor over, and grants its role.
  pub record SessionGrants (k : ℕ) (now : ℕ) (s : Store) (actor : AppActor) : Type 0 where
    pub row : AppSession
    pub in_table : Has row s.grants.sessions
    pub at_app : row.app_id ≡ k
    pub good : row.revoked_at ≡ none
    pub early : now < row.expires_at
    pub role : actor.role ≡ row.role
    pub user : actor.user_id ≡ row.user_id

  pub authorize_session-grants :
      (k : ℕ) (token : String) (now : ℕ) (s : Store) (actor : AppActor)
      → authorize_session hash k token now s ≡ ok actor
      → SessionGrants k now s actor
  unfolding authorize_session
  authorize_session-grants k token now s actor h =
      let (app, e1, h1) = bind-ok (or_not_authorized (locked_active_app k s)) _ h in
      let (row, e2, h2) =
        bind-ok (or_raise (find? (has_token hash k token now) s.grants.sessions) not_authorized) _
          h1 in
      let e = or_raise-ok _ not_authorized e2 in
      let p = find?-holds (has_token hash k token now) s.grants.sessions row e in
      record {
        row = row;
        in_table = find?-Has _ s.grants.sessions row e;
        at_app = ground arith;
        good = ground arith;
        early = ground arith;
        role = ground arith;
        user = ground arith;
      }

  -- A redemption that is accepted spends a ticket that is not over, and grants its role.
  pub record TicketGrants (now : ℕ) (s : Store) (row : AppSession) : Type 0 where
    pub ticket : AppTicket
    pub in_table : Has ticket s.grants.tickets
    pub at_app : ticket.app_id ≡ row.app_id
    pub early : now < ticket.expires_at
    pub role : row.role ≡ ticket.role
    pub user : row.user_id ≡ ticket.principal_user_id

  pub redeem_access_ticket-grants :
      (public_id token : String) (ttl : ℤ) (raw : String) (now : ℕ) (s : Store) (row : AppSession)
      (s' : Store)
      → redeem_access_ticket hash public_id token ttl raw now s ≡ ok ((raw, row), s')
      → TicketGrants now s row
  unfolding redeem_access_ticket
  redeem_access_ticket-grants public_id token ttl raw now s row s' h =
      let (app, e1, h1) =
        bind-ok
          (or_raise (find? (λ (a : GeneratedApp). str_eq a.public_id public_id) s.apps) not_found) _
          h in
      let (_, _, h2) = bind-ok (raise_if (not (is_live app.status)) not_found) _ h1 in
      let (k, e3, h3) =
        bind-ok
          (or_raise (find? (redeemable hash app.id token now) s.grants.tickets) not_authorized) _
          h2 in
      let (_, _, h4) =
        bind-ok
          (raise_if (leb (redemption_limit app.access_mode) k.redemption_count) not_authorized) _
          h3 in
      let e = or_raise-ok _ not_authorized e3 in
      let p = find?-holds (redeemable hash app.id token now) s.grants.tickets k e in
      let same : session_of hash app.id k raw ttl now s.grants.next_grant ≡ row =
        ap (λ r. r.0.1) (ok-inj h4) in
      record {
        ticket = k;
        in_table = find?-Has _ s.grants.tickets k e;
        at_app = ground arith;
        early = ground arith;
        role = ap (λ (r : AppSession). r.role) (sym same);
        user = ap (λ (r : AppSession). r.user_id) (sym same);
      }

  -- The ways in which someone acts as the owner of an app: as a user, by a session, or by a session
  -- that a ticket is redeemed for.
  pub data ActsAsOwner (s : Store) (app : ℕ) (now : ℕ) (who : Option ℕ) : Type 0 where
    as_user :
        (user : ℕ) (actor : AppActor)
        → authorize_user app user s ≡ ok actor
        → actor.role ≡ AppRole.owner
        → who ≡ some user
        → ActsAsOwner s app now who
    by_session :
        (token : String) (actor : AppActor)
        → authorize_session hash app token now s ≡ ok actor
        → actor.role ≡ AppRole.owner
        → who ≡ actor.user_id
        → ActsAsOwner s app now who
    by_ticket :
        (public_id token : String) (ttl : ℤ) (raw : String) (row : AppSession) (s' : Store)
        → redeem_access_ticket hash public_id token ttl raw now s ≡ ok ((raw, row), s')
        → row.app_id ≡ app
        → row.role ≡ AppRole.owner
        → who ≡ row.user_id
        → ActsAsOwner s app now who
