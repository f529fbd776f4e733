-- ===== src/Groups/Web/Rights.antt =====
-- Who may leave a web group in src/benji_api/services/groups.py, and what leaving does.
use dot_backend.Prelude.{
  ℕ, ◌≡◌, ap, sym, subst, true, false, not, ◌&&◌, some, List, inl, inr, All, All-update_to,
  All-of_Has, All-Has, Keyed, Keyed-unique, Has, Has-update, any, any-none, arith, ◌==◌, id_is,
  find?, find?-holds, find?-Has, update, Bool-cases, if◌then◌else◌,
}
use dot_backend.Groups.Records.{
  ConversationMember, Store, GroupResult, ok, err, raise_if, or_raise, bind-ok, raise_if-ok,
  or_raise-ok, not_found, not_permitted, is_group, is_owner, left,
}
use dot_backend.Groups.Web.{leave_web_group, get_conversation_for_member, is_member}

-- The unique constraint on conversation and user.
abbrev pub OneRow : ℕ → ℕ → List ConversationMember → Type 0
OneRow conversation user members =
    (x y : ConversationMember)
    → Has x members
    → Has y members
    → (x.conversation_id == conversation && id_is x.user_id user) ≡ true
    → (y.conversation_id == conversation && id_is y.user_id user) ≡ true
    → x.id ≡ y.id

abbrev leave_row : ℕ → ConversationMember → ConversationMember
leave_row now x = record x { status = left; left_at = some now }

-- What a leave that did not raise wrote.
record Departed (conversation user now : ℕ) (s s' : Store) : Type 0 where
  row : ConversationMember
  in_table : Has row s.members
  theirs : (row.conversation_id == conversation && id_is row.user_id user) ≡ true
  not_owner : is_owner row.role ≡ false
  members : s'.members ≡ update (λ x. x.id == row.id) (leave_row now) s.members

leave-Departed :
    (conversation user now : ℕ) (s s' : Store)
    → leave_web_group conversation user now s ≡ ok s'
    → Departed conversation user now s s'
unfolding leave_web_group
leave-Departed conversation user now s s' h =
    let (c, _, h1) = bind-ok (get_conversation_for_member conversation user s) _ h in
    let (_, _, h2) = bind-ok (raise_if (not (is_group c.kind)) not_found) _ h1 in
    let (m, found, h3) =
      bind-ok
        (or_raise (find? (λ x. x.conversation_id == conversation && id_is x.user_id user) s.members)
          not_found)
        _ h2 in
    let (_, role, h4) = bind-ok (raise_if (is_owner m.role) not_permitted) _ h3 in
    record {
      row = m;
      in_table = find?-Has _ s.members m (or_raise-ok _ not_found found);
      theirs = find?-holds _ s.members m (or_raise-ok _ not_found found);
      not_owner = raise_if-ok _ not_permitted role;
      members =
          sym (ap (λ (r : GroupResult Store). elim r [ ok p ↦ p.members | err e ↦ s.members ]) h4);
    }

-- Where row keys are distinct and the user has one row in the conversation, after a leave that does
-- not raise the user is no active member of the conversation, and every row with the owner's role
-- is still there unchanged.
pub leave_web_group-leaves :
    (conversation user now : ℕ) (s s' : Store)
    → Keyed (λ (m : ConversationMember). m.id) s.members
    → OneRow conversation user s.members
    → leave_web_group conversation user now s ≡ ok s'
    → (any (is_member conversation user) s'.members ≡ false)
      × ((m : ConversationMember) → Has m s.members → is_owner m.role ≡ true → Has m s'.members)
leave_web_group-leaves conversation user now s s' keyed one h =
    let d = leave-Departed conversation user now s s' h in
    (
      rw (d.members) (any-none (is_member conversation user) _ (gone d)),
      λ m found own. rw (d.members) (stays d m found own),
    )
  where
    gone :
        (d : Departed conversation user now s s')
        → All
            (λ x. is_member conversation user x ≡ false)
            (update (λ x. x.id == d.row.id) (leave_row now) s.members)
    gone d =
        All-update_to
          (λ x.
            (x.conversation_id == conversation && id_is x.user_id user) ≡ true → x.id ≡ d.row.id)
          (λ x. is_member conversation user x ≡ false) (λ x. x.id == d.row.id) (leave_row now)
          s.members (λ x _ _. ground arith) (λ x e same. ground arith)
          (All-of_Has _ s.members λ x m e. one x d.row m d.in_table e d.theirs)

    stays :
        (d : Departed conversation user now s s') (m : ConversationMember)
        → Has m s.members
        → is_owner m.role ≡ true
        → Has m (update (λ x. x.id == d.row.id) (leave_row now) s.members)
    stays d m found own = elim (Bool-cases (m.id == d.row.id)) [
      | inl e ↦ absurd (
          let same =
            All-Has (λ x. x.id ≡ d.row.id → x ≡ d.row) found
              (Keyed-unique (λ x. x.id) s.members d.row keyed d.in_table) (ground arith) in
          let bad : is_owner d.row.role ≡ true = subst (λ x. is_owner x.role ≡ true) same own in
          let ne = d.not_owner in cc)
      | inr e ↦
          subst
            (λ b.
              Has (if b then leave_row now m else m)
                (update (λ x. x.id == d.row.id) (leave_row now) s.members))
            e (Has-update (λ x. x.id == d.row.id) (leave_row now) found)
    ]
