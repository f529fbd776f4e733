-- ===== src/Groups/Access.antt =====
-- `_transfer_generated_app_access` and `_revoke_unclaimed_group_app_owner` of
-- src/benji_api/services/groups.py: what happens to the grants of an app when its owner changes.
pub mod Passed
pub mod Revoked
use dot_backend.Prelude.{
  ℕ, suc, Bool, true, false, not, ◌&&◌, ◌||◌, Option, none, some, List, [], ◌∷◌, ◌++◌, ◌==◌, id_is,
  same_id, is_some, find?, update, delete, any, if◌then◌else◌,
}
use dot_backend.Groups.Records.{
  AppRole, AppMembership, AppSession, AppTicket, GeneratedApp, Grants, is_app_owner,
}

abbrev of_user : ℕ → ℕ → AppMembership → Bool
of_user app user m = m.app_id == app && m.user_id == user

-- The memberships with the new owner's among them: the first one that is found is made an owner's,
-- and if there is none, one is added under the key `fresh`.
abbrev pub with_owner : ℕ → ℕ → ℕ → List AppMembership → List AppMembership
with_owner app new fresh [] =
    (record { id = fresh; app_id = app; user_id = new; role = AppRole.owner }) ∷ []
with_owner app new fresh (m ∷ rows) =
    let rest = with_owner app new fresh rows in
    if of_user app new m then record m { role = AppRole.owner } ∷ rows else m ∷ rest

-- A membership of the departing owner is deleted; that of another former owner becomes a member's.
abbrev pub departs : ℕ → ℕ → Option ℕ → AppMembership → Bool
departs app new departing m = m.app_id == app && not (m.user_id == new) && id_is departing m.user_id

abbrev pub demote : ℕ → ℕ → AppMembership → AppMembership
demote app new m =
    if m.app_id == app && not (m.user_id == new) && is_app_owner m.role
    then record m { role = AppRole.member }
    else m

abbrev pub transfer_memberships : ℕ → ℕ → Option ℕ → ℕ → List AppMembership → List AppMembership
transfer_memberships app new departing fresh rows =
    update (λ _. true) (demote app new)
      (delete (departs app new departing) (with_owner app new fresh rows))

abbrev pub transfer_session : ℕ → ℕ → Option ℕ → ℕ → AppSession → AppSession
transfer_session app new departing now s =
    let departed = is_some departing && same_id s.user_id departing in
    let stale = is_app_owner s.role && not (id_is s.user_id new) in
    if s.app_id == app
    then (if departed || (is_some departing && stale)
        then record s { revoked_at = some now }
        else (if stale then record s { role = AppRole.member } else s))
    else s

abbrev contains : ℕ → List ℕ → Bool
contains k ks = any (λ x. x == k) ks

abbrev reissue : ℕ → List ℕ → AppTicket → AppTicket
reissue new prior t =
    if contains t.issued_by_user_id prior then record t { issued_by_user_id = new } else t

abbrev pub transfer_ticket : ℕ → ℕ → List ℕ → Option ℕ → ℕ → AppTicket → AppTicket
transfer_ticket app new prior departing now t =
    let departed = is_some departing && same_id t.principal_user_id departing in
    let stale = is_app_owner t.role && not (id_is t.principal_user_id new) in
    if t.app_id == app
    then reissue new prior (
        if departed || (is_some departing && stale)
        then record t { expires_at = now }
        else (if stale then record t { role = AppRole.member } else t))
    else t

-- `_transfer_generated_app_access`
unfoldable pub transfer_generated_app_access : ℕ → ℕ → List ℕ → Option ℕ → ℕ → Grants → Grants
transfer_generated_app_access app new prior departing now g = record {
  memberships = transfer_memberships app new departing g.next_grant g.memberships;
  sessions = update (λ _. true) (transfer_session app new departing now) g.sessions;
  tickets = update (λ _. true) (transfer_ticket app new prior departing now) g.tickets;
  next_grant = suc g.next_grant;
}

-- The loop over the apps of the group.
unfoldable pub transfer_all : List GeneratedApp → ℕ → List ℕ → Option ℕ → ℕ → Grants → Grants
transfer_all [] new prior departing now g = g
transfer_all (a ∷ apps) new prior departing now g =
    transfer_all apps new prior departing now
      (transfer_generated_app_access a.id new prior departing now g)

-- One round of the loop in `_revoke_unclaimed_group_app_owner`.
unfoldable pub revoke_owner : ℕ → ℕ → ℕ → Grants → Grants
revoke_owner app departing now g = record g {
  memberships =
      delete (λ m. m.app_id == app && (m.user_id == departing || is_app_owner m.role))
        g.memberships;
  sessions =
      update (λ s. s.app_id == app && (id_is s.user_id departing || is_app_owner s.role))
        (λ s. record s { revoked_at = some now }) g.sessions;
  tickets =
      update (λ t. t.app_id == app && (id_is t.principal_user_id departing || is_app_owner t.role))
        (λ t. record t { expires_at = now }) g.tickets;
}

unfoldable pub revoke_all : List GeneratedApp → ℕ → ℕ → Grants → Grants
revoke_all [] departing now g = g
revoke_all (a ∷ apps) departing now g =
    revoke_all apps departing now (revoke_owner a.id departing now g)
