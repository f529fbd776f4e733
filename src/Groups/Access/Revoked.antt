-- ===== src/Groups/Access/Revoked.antt =====
-- What `_revoke_unclaimed_group_app_owner` of src/benji_api/services/groups.py leaves of the
-- grants of an app: no owner's grant is good, and the departing owner is locked out.
use dot_backend.Prelude.{
  ℕ, ◌<◌, ◌≡◌, ◌≢◌, ◌⊎◌, inl, inr, ap, sym, ◌&&◌, ◌||◌, none, some, List, [], ◌∷◌, All,
  All-update_to, All-delete, Has, here, there, arith, ◌==◌, id_is,
}
use dot_backend.Groups.Records.{
  AppRole, AppMembership, AppSession, AppTicket, GeneratedApp, Grants, is_app_owner,
}
use dot_backend.Groups.Access.{revoke_owner, revoke_all}
use dot_backend.Groups.Access.Passed.{either_All}

module _ (departing now : ℕ) where
  abbrev pub MembershipRevoked : ℕ → AppMembership → Type 0
  MembershipRevoked app m = m.app_id ≡ app → (m.role ≢ AppRole.owner) × (m.user_id ≢ departing)

  abbrev pub SessionRevoked : ℕ → AppSession → Type 0
  SessionRevoked app s =
      s.app_id ≡ app → s.revoked_at ≡ none → (s.role ≢ AppRole.owner) × (s.user_id ≢ some departing)

  abbrev pub TicketRevoked : ℕ → AppTicket → Type 0
  TicketRevoked app k =
      k.app_id ≡ app
      → now < k.expires_at
      → (k.role ≢ AppRole.owner) × (k.principal_user_id ≢ some departing)

  pub record AppRevoked (app : ℕ) (g : Grants) : Type 0 where
    pub memberships : All (MembershipRevoked app) g.memberships
    pub sessions : All (SessionRevoked app) g.sessions
    pub tickets : All (TicketRevoked app) g.tickets

  step-Revoked :
      (app b : ℕ) (g : Grants)
      → (app ≡ b) ⊎ AppRevoked app g
      → AppRevoked app (revoke_owner b departing now g)
  unfolding revoke_owner
  step-Revoked app b g h = record {
    memberships =
        All-delete (λ m. (app ≡ b) ⊎ MembershipRevoked app m) (MembershipRevoked app)
          (λ (m : AppMembership). m.app_id == b && (m.user_id == departing || is_app_owner m.role))
          g.memberships
          (λ m stays k same. elim k [ inl e ↦ (ground arith, ground arith) | inr old ↦ old same ])
          (either_All MembershipRevoked app b g.memberships
            (elim h [ inl e ↦ inl e | inr k ↦ inr k.memberships ]));
    sessions =
        All-update_to (λ s. (app ≡ b) ⊎ SessionRevoked app s) (SessionRevoked app)
          (λ (m : AppSession). m.app_id == b && (id_is m.user_id departing || is_app_owner m.role))
          (λ (m : AppSession). record m { revoked_at = some now }) g.sessions
          (λ s _ _ same good. absurd (cc))
          (λ s stays k same good. elim k [
            | inl e ↦ (ground arith, ground arith)
            | inr old ↦ old same good
          ])
          (either_All SessionRevoked app b g.sessions
            (elim h [ inl e ↦ inl e | inr k ↦ inr k.sessions ]));
    tickets =
        All-update_to (λ s. (app ≡ b) ⊎ TicketRevoked app s) (TicketRevoked app)
          (λ (m : AppTicket).
            m.app_id == b && (id_is m.principal_user_id departing || is_app_owner m.role))
          (λ (m : AppTicket). record m { expires_at = now }) g.tickets
          (λ s _ _ same good. absurd (omega arith))
          (λ s stays k same good. elim k [
            | inl e ↦ (ground arith, ground arith)
            | inr old ↦ old same good
          ])
          (either_All TicketRevoked app b g.tickets
            (elim h [ inl e ↦ inl e | inr k ↦ inr k.tickets ]));
  }

  revoke_all-keeps :
      (app : ℕ) (apps : List GeneratedApp) (g : Grants)
      → AppRevoked app g
      → AppRevoked app (revoke_all apps departing now g)
  unfolding revoke_all
  revoke_all-keeps app [] g h = h
  revoke_all-keeps app (a ∷ apps) g h =
      revoke_all-keeps app apps _ (step-Revoked app a.id g (inr h))

  -- After the loop this holds of every app in it.
  pub revoke_all-Revoked :
      (apps : List GeneratedApp) (g : Grants) (a : GeneratedApp)
      → Has a apps
      → AppRevoked a.id (revoke_all apps departing now g)
  unfolding revoke_all
  revoke_all-Revoked [] g a m = elim m [ ]
  revoke_all-Revoked (b ∷ apps) g a (here e) =
      revoke_all-keeps a.id apps _ (step-Revoked a.id b.id g (inl (ap (λ x. x.id) (sym e))))
  revoke_all-Revoked (b ∷ apps) g a (there m) = revoke_all-Revoked apps _ a m
