-- ===== src/Apps/Access.antt =====
-- Who may use an app in src/benji_api/services/generated_apps_v2.py: roles, sessions and tickets.
pub mod Owners
pub mod Succession
pub mod Tickets
use dot_backend.Prelude.{
  ℕ, suc, ◌+◌, ◌*◌, String, Bool, true, false, not, ◌&&◌, Option, none, some, List, [], ◌∷◌, ◌++◌,
  ltb, leb, ◌==◌, str_eq, text_is, is_some, or_else, find?, update, if◌then◌else◌,
}
use dot_backend.Prelude.Json.{ℤ}
use dot_backend.Jobs.Clock.{seconds}
use dot_backend.Apps.Records.{
  AppRole, AccessMode, GeneratedApp, AppMembership, AppSession, AppTicket, Conversation, Store,
  AppError, AppResult, err, ok, ◌>>=◌, ◌>>◌, raise_if, or_raise, is_app_owner, is_group, not_found,
  not_authorized, not_valid, clamp, is_live, is_code, is_collaborative, app_role,
}

pub record AppActor : Type 0 where
  pub role : AppRole
  pub user_id : Option ℕ
  pub session_id : Option ℕ
  pub identity_verified : Bool

abbrev pub app_id_is : ℕ → GeneratedApp → Bool
app_id_is k a = a.id == k

-- `_locked_active_app`
unfoldable pub locked_active_app : ℕ → Store → AppResult GeneratedApp
locked_active_app k s = do
  app ← or_raise (find? (app_id_is k) s.apps) not_found
  raise_if (not (is_live app.status)) not_found
  ok app

-- `_locked_code_app`
unfoldable pub locked_code_app : ℕ → Store → AppResult GeneratedApp
locked_code_app k s = do
  app ← locked_active_app k s
  raise_if (not (is_code app.runtime_kind)) not_found
  ok app

abbrev is_unclaimed : Option Conversation → Bool
is_unclaimed none = false
is_unclaimed (some c) = is_group c.kind && text_is c.group_owner_source "unclaimed"

-- `unclaimed_group`
abbrev pub unclaimed_group : GeneratedApp → Store → Bool
unclaimed_group app s = is_unclaimed (find? (λ c. c.id == app.conversation_id) s.conversations)

abbrev pub membership_of : ℕ → ℕ → AppMembership → Bool
membership_of app user m = m.app_id == app && m.user_id == user

abbrev pub verified : AppRole → ℕ → AppActor
verified role user = record {
  role = role;
  user_id = some user;
  session_id = none;
  identity_verified = true;
}

abbrev as_member : Bool → ℕ → Option AppMembership → AppResult AppActor
as_member unclaimed user none = err not_authorized
as_member unclaimed user (some m) =
    if unclaimed && is_app_owner m.role then err not_authorized else ok (verified m.role user)

-- `_authorize_user_for_locked_app`
unfoldable pub authorize_user_for_locked_app : GeneratedApp → ℕ → Store → AppResult AppActor
authorize_user_for_locked_app app user s =
    let unclaimed = unclaimed_group app s in
    if app.user_id == user && not unclaimed
    then ok (verified AppRole.owner user)
    else as_member unclaimed user (find? (membership_of app.id user) s.grants.memberships)

-- `authorize_user`
unfoldable pub authorize_user : ℕ → ℕ → Store → AppResult AppActor
authorize_user k user s = do app ← locked_active_app k s; authorize_user_for_locked_app app user s

-- `_session_actor`
abbrev pub session_actor : AppSession → GeneratedApp → AppResult AppActor
session_actor row app =
    if row.app_id == app.id
    then ok (record {
      role = row.role;
      user_id = row.user_id;
      session_id = some row.id;
      identity_verified = false;
    })
    else err not_authorized

-- The session is neither revoked nor over.
abbrev pub is_good_session : ℕ → ℕ → AppSession → Bool
is_good_session app now row =
    row.app_id == app && not (is_some row.revoked_at) && ltb now row.expires_at

-- `except CodeAppNotFoundError`
abbrev or_not_authorized {ℓ} : {A : Type ℓ} → AppResult A → AppResult A
or_not_authorized (err not_found) = err not_authorized
or_not_authorized (err e) = err e
or_not_authorized (ok a) = ok a

abbrev pub redemption_limit : AccessMode → ℕ
redemption_limit mode = if is_collaborative mode then 64 else 12

-- What a redemption does to the ticket.
abbrev pub redeem : ℕ → AppTicket → AppTicket
redeem now k = record k {
  used_at = or_else k.used_at (some now);
  last_redeemed_at = some now;
  redemption_count = suc k.redemption_count;
}

-- `hash` stands for the SHA-256 digest of a token.
module _ (hash : String → String) where
  abbrev pub has_token : ℕ → String → ℕ → AppSession → Bool
  has_token app token now row = str_eq row.token_hash (hash token) && is_good_session app now row

  -- `authorize_session`
  unfoldable pub authorize_session : ℕ → String → ℕ → Store → AppResult AppActor
  authorize_session k token now s = do
    app ← or_not_authorized (locked_active_app k s)
    row ← or_raise (find? (has_token k token now) s.grants.sessions) not_authorized
    session_actor row app

  abbrev pub new_ticket : ℕ → ℕ → Option ℕ → ℤ → String → ℕ → ℕ → AppRole → AppTicket
  new_ticket app issuer principal ttl raw now fresh role = record {
    id = fresh;
    app_id = app;
    issued_by_user_id = issuer;
    principal_user_id = principal;
    role = role;
    token_hash = hash raw;
    expires_at = now + seconds (clamp 60 (7 * 86400) ttl);
    used_at = none;
    last_redeemed_at = none;
    redemption_count = 0;
  }

  abbrev pub add_ticket : ℕ → ℕ → Option ℕ → ℤ → String → ℕ → Store → AppRole → Store
  add_ticket app issuer principal ttl raw now s role = record s {
    grants = record s.grants {
      tickets =
          s.grants.tickets
          ++ new_ticket app issuer principal ttl raw now s.grants.next_grant role ∷ [];
      next_grant = suc s.grants.next_grant;
    };
  }

  -- `_persist_access_ticket`; `raw` is the random token.
  unfoldable pub persist_access_ticket :
      ℕ → ℕ → Option ℕ → String → ℤ → String → ℕ → Store → AppResult (String × Store)
  persist_access_ticket app issuer principal role ttl raw now s = do
    known ← or_raise (app_role role) not_valid
    ok (raw, add_ticket app issuer principal ttl raw now s known)

  -- `issue_access_ticket`
  unfoldable pub issue_access_ticket :
      ℕ → ℕ → Option ℕ → String → ℤ → String → ℕ → Store → AppResult (String × Store)
  issue_access_ticket k issuer_id principal role ttl raw now s = do
    app ← locked_active_app k s
    issuer ← authorize_user_for_locked_app app issuer_id s
    raise_if (not (is_app_owner issuer.role)) not_authorized
    persist_access_ticket k issuer_id principal role ttl raw now s

  -- `_issue_trusted_group_handoff_ticket`
  unfoldable pub issue_trusted_group_handoff_ticket :
      GeneratedApp → Conversation → ℤ → String → ℕ → Store → AppResult (String × Store)
  issue_trusted_group_handoff_ticket app c ttl raw now s = do
    raise_if
        (not (c.id == app.conversation_id && is_group c.kind && is_collaborative app.access_mode))
        not_authorized
    persist_access_ticket app.id c.user_id none "member" ttl raw now s

  abbrev pub redeemable : ℕ → String → ℕ → AppTicket → Bool
  redeemable app token now k =
      k.app_id == app && str_eq k.token_hash (hash token) && ltb now k.expires_at

  abbrev pub session_of : ℕ → AppTicket → String → ℤ → ℕ → ℕ → AppSession
  session_of app k raw ttl now fresh = record {
    id = fresh;
    app_id = app;
    user_id = k.principal_user_id;
    role = k.role;
    token_hash = hash raw;
    expires_at = now + seconds (clamp 300 (30 * 86400) ttl);
    revoked_at = none;
  }

  abbrev pub redeemed : ℕ → AppTicket → String → ℤ → ℕ → Store → Store
  redeemed app k raw ttl now s = record s {
    grants = record s.grants {
      sessions = s.grants.sessions ++ session_of app k raw ttl now s.grants.next_grant ∷ [];
      tickets = update (λ t. t.id == k.id) (redeem now) s.grants.tickets;
      next_grant = suc s.grants.next_grant;
    };
  }

  -- `redeem_access_ticket`; `raw` is the random token of the session.
  unfoldable pub redeem_access_ticket :
      String → String → ℤ → String → ℕ → Store → AppResult ((String × AppSession) × Store)
  redeem_access_ticket public_id token ttl raw now s = do
    app ← or_raise (find? (λ (a : GeneratedApp). str_eq a.public_id public_id) s.apps) not_found
    raise_if (not (is_live app.status)) not_found
    k ← or_raise (find? (redeemable app.id token now) s.grants.tickets) not_authorized
    raise_if (leb (redemption_limit app.access_mode) k.redemption_count) not_authorized
    ok ((raw, session_of app.id k raw ttl now s.grants.next_grant), redeemed app.id k raw ttl now s)

abbrev pub has_session : ℕ → ℕ → ℕ → AppSession → Bool
has_session id app now row = row.id == id && is_good_session app now row

abbrev again_as_user : GeneratedApp → Store → Option ℕ → AppResult AppActor
again_as_user app s none = err not_authorized
again_as_user app s (some user) = authorize_user_for_locked_app app user s

abbrev again : GeneratedApp → AppActor → ℕ → Store → Option ℕ → AppResult AppActor
again app actor now s none = again_as_user app s actor.user_id
again app actor now s (some id) = do
  row ← or_raise (find? (has_session id app.id now) s.grants.sessions) not_authorized
  session_actor row app

-- `_reauthorize_actor`
unfoldable pub reauthorize_actor : ℕ → AppActor → ℕ → Store → AppResult AppActor
reauthorize_actor k actor now s = do
  app ← locked_code_app k s
  again app actor now s actor.session_id

-- `_WRITABLE_ROLES`
abbrev pub is_writable : AppRole → Bool
is_writable AppRole.viewer = false
is_writable _ = true

-- `_require_write`
abbrev pub require_write : AppActor → AppResult (Unit {0})
require_write actor = raise_if (not (is_writable actor.role)) not_authorized
