-- ===== src/Groups/Access/Passed.antt =====
-- What a transfer leaves of the grants of the apps of a group: nobody but the new owner holds an
-- owner's grant, and the departing owner is locked out.
use dot_backend.Prelude.{
  ℕ, ◌≤◌, ◌<◌, ◌≡◌, ◌≢◌, ◌⊎◌, inl, inr, refl, ap, sym, true, false, ◌&&◌, Option, none, some, List,
  [], ◌∷◌, All, All-update_to, All-delete, Has, here, there, arith, ◌==◌, id_is, Bool-cases,
}
use dot_backend.Groups.Records.{AppRole, AppMembership, AppSession, AppTicket, GeneratedApp, Grants}
use dot_backend.Groups.Access.{
  with_owner, departs, demote, transfer_memberships, transfer_session, transfer_ticket,
  transfer_generated_app_access, transfer_all,
}

-- The terms of a transfer.
pub record Terms : Type 0 where
  pub new : ℕ
  pub prior : List ℕ
  pub departing : Option ℕ
  pub now : ℕ

-- Rows of which either nothing or something is known beforehand.
pub either_All {ℓ} :
    {A : Type ℓ} (P : ℕ → A → Type 0) (app b : ℕ) (rows : List A)
    → (app ≡ b) ⊎ All (P app) rows
    → All (λ x. (app ≡ b) ⊎ P app x) rows
either_All P app b [] e = tt
either_All P app b (x ∷ rows) (inl e) = (inl e, either_All P app b rows (inl e))
either_All P app b (x ∷ rows) (inr h) = (inr h.0, either_All P app b rows (inr h.1))

module _ (t : Terms) where
  -- An owner's membership is the new owner's; the departing owner has none but as the new owner.
  abbrev pub MembershipPassed : ℕ → AppMembership → Type 0
  MembershipPassed app m =
      m.app_id ≡ app
      → (m.role ≡ AppRole.owner → m.user_id ≡ t.new)
        × ((m.user_id ≡ t.new) ⊎ (id_is t.departing m.user_id ≡ false))

  -- A session with an owner's role is revoked or the new owner's; that of the departing owner is
  -- revoked.
  abbrev pub SessionPassed : ℕ → AppSession → Type 0
  SessionPassed app s =
      s.app_id ≡ app
      → (s.role ≡ AppRole.owner → s.revoked_at ≡ none → s.user_id ≡ some t.new)
        × ((d : ℕ) → t.departing ≡ some d → s.user_id ≡ some d → s.revoked_at ≢ none)

  -- So for the tickets, which are ended by their time of expiry.
  abbrev pub TicketPassed : ℕ → AppTicket → Type 0
  TicketPassed app k =
      k.app_id ≡ app
      → (k.role ≡ AppRole.owner → t.now < k.expires_at → k.principal_user_id ≡ some t.new)
        × ((d : ℕ) → t.departing ≡ some d → k.principal_user_id ≡ some d → k.expires_at ≤ t.now)

  pub record AppPassed (app : ℕ) (g : Grants) : Type 0 where
    pub memberships : All (MembershipPassed app) g.memberships
    pub sessions : All (SessionPassed app) g.sessions
    pub tickets : All (TicketPassed app) g.tickets

  departs-cases :
      (app b : ℕ) (m : AppMembership)
      → departs b t.new t.departing m ≡ false
      → (m.app_id == b) ≡ true
      → ((demote b t.new m).user_id ≡ t.new)
        ⊎ (id_is t.departing (demote b t.new m).user_id ≡ false)
  departs-cases app b m stays at_app = ground arith

  demote-Passed :
      (app b : ℕ) (m : AppMembership)
      → departs b t.new t.departing m ≡ false
      → (app ≡ b) ⊎ MembershipPassed app m
      → MembershipPassed app (demote b t.new m)
  demote-Passed app b m stays before = elim (Bool-cases (m.app_id == b)) [
    | inl at_app ↦ λ same. (ground arith, departs-cases app b m stays at_app)
    | inr tat_app ↦
        rw (tat_app, demote) (elim before [ inl e ↦ λ same. absurd (ground arith) | inr h ↦ h ])
  ]

  session-Passed :
      (app b : ℕ) (s : AppSession)
      → (app ≡ b) ⊎ SessionPassed app s
      → SessionPassed app (transfer_session b t.new t.departing t.now s)
  session-Passed app b s before = elim (Bool-cases (s.app_id == b)) [
    | inl at_app ↦ λ same. (ground arith, λ d leaves his. ground arith)
    | inr elsewhere ↦
        rw (elsewhere, transfer_session)
          (elim before [ inl e ↦ λ same. absurd (ground arith) | inr h ↦ h ])
  ]

  ticket-Passed :
      (app b : ℕ) (k : AppTicket)
      → (app ≡ b) ⊎ TicketPassed app k
      → TicketPassed app (transfer_ticket b t.new t.prior t.departing t.now k)
  ticket-Passed app b k before = elim (Bool-cases (k.app_id == b)) [
    | inl at_app ↦ λ same. (ground arith, λ d leaves his. ground arith)
    | inr elsewhere ↦
        rw (elsewhere, transfer_ticket)
          (elim before [ inl e ↦ λ same. absurd (ground arith) | inr h ↦ h ])
  ]

  with_owner-Passed :
      (app b fresh : ℕ) (rows : List AppMembership)
      → All (λ m. (app ≡ b) ⊎ MembershipPassed app m) rows
      → All (λ m. (app ≡ b) ⊎ MembershipPassed app m) (with_owner b t.new fresh rows)
  with_owner-Passed app b fresh [] h = (inr (λ same. (λ _. refl, inl refl)), tt)
  with_owner-Passed app b fresh (m ∷ rows) h =
      elim (Bool-cases (m.app_id == b && m.user_id == t.new)) [
        | inl e ↦ rw (e, with_owner) (inr (λ same. (λ _. ground arith, inl (ground arith))), h.1)
        | inr e ↦ rw (e, with_owner) (h.0, with_owner-Passed app b fresh rows h.1)
      ]

  memberships-Passed :
      (app b fresh : ℕ) (rows : List AppMembership)
      → (app ≡ b) ⊎ All (MembershipPassed app) rows
      → All (MembershipPassed app) (transfer_memberships b t.new t.departing fresh rows)
  memberships-Passed app b fresh rows h =
      All-update_to
        (λ m. (departs b t.new t.departing m ≡ false) × ((app ≡ b) ⊎ MembershipPassed app m))
        (MembershipPassed app) (λ _. true) (demote b t.new) _
        (λ m _ k. demote-Passed app b m k.0 k.1) (λ m e _. absurd (cc))
        (All-delete (λ m. (app ≡ b) ⊎ MembershipPassed app m) _ (departs b t.new t.departing) _
          (λ m stays k. (stays, k))
          (with_owner-Passed app b fresh rows (either_All MembershipPassed app b rows h)))

  -- A transfer of the app `b` establishes the property for `b`, and keeps it for the other apps.
  step-Passed :
      (app b : ℕ) (g : Grants)
      → (app ≡ b) ⊎ AppPassed app g
      → AppPassed app (transfer_generated_app_access b t.new t.prior t.departing t.now g)
  unfolding transfer_generated_app_access
  step-Passed app b g h = record {
    memberships =
        memberships-Passed app b g.next_grant g.memberships
          (elim h [ inl e ↦ inl e | inr k ↦ inr k.memberships ]);
    sessions =
        All-update_to (λ s. (app ≡ b) ⊎ SessionPassed app s) (SessionPassed app) (λ _. true) _
          g.sessions (λ s _ k. session-Passed app b s k) (λ s e _. absurd (cc))
          (either_All SessionPassed app b g.sessions
            (elim h [ inl e ↦ inl e | inr k ↦ inr k.sessions ]));
    tickets =
        All-update_to (λ k. (app ≡ b) ⊎ TicketPassed app k) (TicketPassed app) (λ _. true) _
          g.tickets (λ k _ p. ticket-Passed app b k p) (λ k e _. absurd (cc))
          (either_All TicketPassed app b g.tickets
            (elim h [ inl e ↦ inl e | inr k ↦ inr k.tickets ]));
  }

  transfer_all-keeps :
      (app : ℕ) (apps : List GeneratedApp) (g : Grants)
      → AppPassed app g
      → AppPassed app (transfer_all apps t.new t.prior t.departing t.now g)
  unfolding transfer_all
  transfer_all-keeps app [] g h = h
  transfer_all-keeps app (a ∷ apps) g h =
      transfer_all-keeps app apps _ (step-Passed app a.id g (inr h))

  -- After the loop the grants of every app in it have passed to the new owner.
  pub transfer_all-Passed :
      (apps : List GeneratedApp) (g : Grants) (a : GeneratedApp)
      → Has a apps
      → AppPassed a.id (transfer_all apps t.new t.prior t.departing t.now g)
  unfolding transfer_all
  transfer_all-Passed [] g a m = elim m [ ]
  transfer_all-Passed (b ∷ apps) g a (here e) =
      transfer_all-keeps a.id apps _ (step-Passed a.id b.id g (inl (ap (λ x. x.id) (sym e))))
  transfer_all-Passed (b ∷ apps) g a (there m) = transfer_all-Passed apps _ a m
