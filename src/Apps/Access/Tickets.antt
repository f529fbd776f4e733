-- ===== src/Apps/Access/Tickets.antt =====
-- The life of an access ticket in services/generated_apps_v2.py: issued, redeemed a bounded number of
-- times, and turned into sessions.
use dot_backend.Prelude.{
  ℕ, ◌+◌, ◌*◌, ◌≤◌, ◌<◌, ◌≡◌, refl, sym, ap, ◌∙◌, subst, String, false, not, leb, Option, some, All,
  All-weaken, All-update_key, Keyed, Keyed-unique, arith, ==_refl, str_eq, find?, find?-Has,
  find?-holds, find?-append, find?-absent, eq_refl,
}
use dot_backend.Prelude.Json.{ℤ}
use dot_backend.Jobs.Clock.{seconds}
use dot_backend.Apps.Records.{
  AppRole, AccessMode, private_link, collaborative_link, GeneratedApp, AppSession, AppTicket, Store,
  ok, ok-inj, bind-ok, raise_if-ok, or_raise-ok, raise_if, or_raise, not_found, not_authorized,
  not_valid, is_app_owner, is_live, clamp-within, app_role,
}
use dot_backend.Apps.Access.Owners.{locked_active_app-ok}
use dot_backend.Apps.Access.{
  locked_active_app, authorize_user_for_locked_app, issue_access_ticket, persist_access_ticket,
  authorize_session, redeem_access_ticket, redemption_limit, redeemable, session_of, redeem,
  redeemed, has_token, add_ticket, new_ticket,
}

-- No ticket of an app was redeemed more often than the app's kind of link allows.
abbrev pub WithinRedemptions : Store → Type 0
WithinRedemptions s =
    All
      (λ (k : AppTicket).
        All
          (λ (a : GeneratedApp).
            a.id ≡ k.app_id → k.redemption_count ≤ redemption_limit a.access_mode)
          s.apps)
      s.grants.tickets

limit_pos : (mode : AccessMode) → leb (redemption_limit mode) 0 ≡ false
limit_pos private_link = refl
limit_pos collaborative_link = refl

module _ (hash : String → String) where
  -- Where the keys of the apps and of the tickets are distinct: a redemption that is accepted keeps
  -- every ticket within the number of redemptions that its app's kind of link allows, 64 for a
  -- collaborative one and 12 for a private one.
  pub redeem_access_ticket-WithinRedemptions :
      (public_id token : String) (ttl : ℤ) (raw : String) (now : ℕ) (s : Store)
      (result : String × AppSession) (s' : Store)
      → Keyed (λ (a : GeneratedApp). a.id) s.apps
      → Keyed (λ (k : AppTicket). k.id) s.grants.tickets
      → WithinRedemptions s
      → redeem_access_ticket hash public_id token ttl raw now s ≡ ok (result, s')
      → WithinRedemptions s'
  unfolding redeem_access_ticket
  redeem_access_ticket-WithinRedemptions public_id token ttl raw now s result s' ka kt within h =
      let (app, e1, h1) =
        bind-ok
          (or_raise (find? (λ (a : GeneratedApp). str_eq a.public_id public_id) s.apps) not_found) _
          h in
      let (_, _, h2) = bind-ok (raise_if (not (is_live app.status)) not_found) _ h1 in
      let (k, e3, h3) =
        bind-ok
          (or_raise (find? (redeemable hash app.id token now) s.grants.tickets) not_authorized) _
          h2 in
      let (_, e4, h4) =
        bind-ok
          (raise_if (leb (redemption_limit app.access_mode) k.redemption_count) not_authorized) _
          h3 in
      let few = raise_if-ok _ not_authorized e4 in
      let e = or_raise-ok _ not_authorized e3 in
      let p = find?-holds (redeemable hash app.id token now) s.grants.tickets k e in
      let stored = find?-Has _ s.apps app (or_raise-ok _ not_found e1) in
      subst WithinRedemptions (ap (λ r. r.1) (ok-inj h4)) (
        All-update_key (λ (x : AppTicket). x.id)
          (λ (x : AppTicket).
            All
              (λ (a : GeneratedApp).
                a.id ≡ x.app_id → x.redemption_count ≤ redemption_limit a.access_mode)
              s.apps)
          (redeem now) s.grants.tickets k kt (find?-Has _ s.grants.tickets k e)
          (All-weaken (λ (a : GeneratedApp). a.id ≡ app.id → a ≡ app) _ s.apps
            (λ a same i. let q = same (i ∙ ground arith) in rw q (ground arith))
            (Keyed-unique (λ (a : GeneratedApp). a.id) s.apps app ka stored))
          within)

  -- What an issue that does not raise has done.
  issue-ok :
      (k issuer : ℕ) (principal : Option ℕ) (role : String) (ttl : ℤ) (raw out : String) (now : ℕ)
      (s s' : Store)
      → issue_access_ticket hash k issuer principal role ttl raw now s ≡ ok (out, s')
      → (app : GeneratedApp) × (known : AppRole) × (locked_active_app k s ≡ ok app)
        × (app_role role ≡ some known)
        × (s' ≡ add_ticket hash k issuer principal ttl raw now s known)
  unfolding issue_access_ticket persist_access_ticket
  issue-ok k issuer principal role ttl raw out now s s' h =
      let (app, e1, h1) = bind-ok (locked_active_app k s) _ h in
      let (actor, _, h2) = bind-ok (authorize_user_for_locked_app app issuer s) _ h1 in
      let (_, _, h3) = bind-ok (raise_if (not (is_app_owner actor.role)) not_authorized) _ h2 in
      let (known, e4, h4) = bind-ok (or_raise (app_role role) not_valid) _ h3 in
      (app, known, e1, or_raise-ok _ not_valid e4, sym (ap (λ r. r.1) (ok-inj h4)))

  fresh_ticket :
      (app : ℕ) (issuer : ℕ) (principal : Option ℕ) (ttl : ℤ) (raw : String) (now later : ℕ)
      (s : Store) (known : AppRole)
      → All (λ (t : AppTicket). str_eq t.token_hash (hash raw) ≡ false) s.grants.tickets
      → later < now + seconds 60
      → find?
          (redeemable hash app raw later)
          (add_ticket hash app issuer principal ttl raw now s known).grants.tickets
        ≡ some (new_ticket hash app issuer principal ttl raw now s.grants.next_grant known)
  fresh_ticket app issuer principal ttl raw now later s known fresh soon =
      find?-append (redeemable hash app raw later) s.grants.tickets _ (
        find?-absent _ s.grants.tickets (
          All-weaken (λ (t : AppTicket). str_eq t.token_hash (hash raw) ≡ false) _ s.grants.tickets
            (λ t e. ground arith) fresh))
      ∙ let (h, _) = clamp-within 60 (7 * 86400) ttl (omega arith) in
        let r = eq_refl (hash raw) in let q = ==_refl app in ground arith

  fresh_session :
      (app : ℕ) (k : AppTicket) (ttl : ℤ) (raw : String) (now later : ℕ) (s : Store)
      → All (λ (x : AppSession). str_eq x.token_hash (hash raw) ≡ false) s.grants.sessions
      → later < now + seconds 300
      → find? (has_token hash app raw later) (redeemed hash app k raw ttl now s).grants.sessions
        ≡ some (session_of hash app k raw ttl now s.grants.next_grant)
  fresh_session app k ttl raw now later s fresh soon =
      find?-append (has_token hash app raw later) s.grants.sessions _ (
        find?-absent _ s.grants.sessions (
          All-weaken (λ (x : AppSession). str_eq x.token_hash (hash raw) ≡ false) _
            s.grants.sessions (λ x e. ground arith) fresh))
      ∙ let (h, _) = clamp-within 300 (30 * 86400) ttl (omega arith) in
        let r = eq_refl (hash raw) in let q = ==_refl app in ground arith

  -- A ticket under a fresh token, spent within a minute on an app whose public id is its own, is
  -- accepted, and the session under a fresh token acts for the principal with the role, and with
  -- nothing else, of the ticket for the next five minutes, whatever lifetimes were asked for.
  pub issue-redeem-authorize :
      (app : GeneratedApp) (issuer : ℕ) (principal : Option ℕ) (role : String) (ttl ttl' : ℤ)
      (raw raw' out : String) (now later last : ℕ) (s s1 : Store)
      → issue_access_ticket hash app.id issuer principal role ttl raw now s ≡ ok (out, s1)
      → locked_active_app app.id s ≡ ok app
      → find? (λ (a : GeneratedApp). str_eq a.public_id app.public_id) s.apps ≡ some app
      → All (λ (t : AppTicket). str_eq t.token_hash (hash raw) ≡ false) s.grants.tickets
      → All (λ (x : AppSession). str_eq x.token_hash (hash raw') ≡ false) s.grants.sessions
      → later < now + seconds 60
      → last < later + seconds 300
      → (known : AppRole) × (row : AppSession) × (s2 : Store) × (app_role role ≡ some known)
        × (redeem_access_ticket hash app.public_id raw ttl' raw' later s1 ≡ ok ((raw', row), s2))
        × (authorize_session hash app.id raw' last s2
            ≡ ok (record {
              role = known;
              user_id = principal;
              session_id = some row.id;
              identity_verified = false;
            }))
  unfolding redeem_access_ticket authorize_session locked_active_app
  issue-redeem-authorize app issuer principal role ttl ttl' raw raw' out now later last s s1 issued
        active public tickets sessions soon late =
      let (_, known, _, valid, result) =
        issue-ok app.id issuer principal role ttl raw out now s s1 issued in
      let k = new_ticket hash app.id issuer principal ttl raw now s.grants.next_grant known in
      let s' = add_ticket hash app.id issuer principal ttl raw now s known in
      let (_, _, live) = locked_active_app-ok app.id s app active in
      (
        known,
        session_of hash app.id k raw' ttl' later s'.grants.next_grant,
        redeemed hash app.id k raw' ttl' later s',
        valid,
        rw
            (
              result,
              public,
              live,
              fresh_ticket app.id issuer principal ttl raw now later s known tickets soon,
            )
            (rw (limit_pos app.access_mode) refl),
        rw (active, fresh_session app.id k ttl' raw' later last s' sessions late)
            (rw (==_refl app.id) refl),
      )
