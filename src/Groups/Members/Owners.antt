-- ===== src/Groups/Members/Owners.antt =====
-- What the channel reports about the participants never makes or unmakes an owner
-- (src/benji_api/services/groups.py).
use dot_backend.Prelude.{
  ℕ, ◌≡◌, refl, ◌∙◌, String, Bool, false, Option, none, some, List, [], ◌∷◌, ◌++◌, arith, ◌==◌,
  is_blank, strip, find?, update, if◌then◌else◌, Option-cases, Bool-cases, inl, inr,
}
use dot_backend.Prelude.Json.{Json, Items, Fields, nil, cons, object, array, get, as_text, is_true}
use dot_backend.Groups.Records.{ConversationMember, MemberRole, is_owner, Store}
use dot_backend.Groups.Members.{
  ChannelWorld, MemberReport, write_report, upsert_group_member, reported, report_of, sync_one,
  sync_items, sync_handle, sync_list, sync_linq_group_participants, upsert_found,
}

-- The keys of the rows with the owner's role, in the order of the table.
pub owners : List ConversationMember → List ℕ
owners [] = []
owners (m ∷ ms) = let rest = owners ms in if is_owner m.role then m.id ∷ rest else rest

owners-update :
    (p : ConversationMember → Bool) (r : MemberReport) (ms : List ConversationMember)
    → r.role ≡ MemberRole.member
    → owners (update p (write_report r) ms) ≡ owners ms
unfolding owners
owners-update p r [] role = refl
owners-update p r (m ∷ ms) role = let rest = owners-update p r ms role in ground (arith, rest)

owners-snoc :
    (ms : List ConversationMember) (m : ConversationMember)
    → is_owner m.role ≡ false
    → owners (ms ++ m ∷ []) ≡ owners ms
unfolding owners
owners-snoc [] m e = rw e
owners-snoc (x ∷ ms) m e = let rest = owners-snoc ms m e in ground (arith, rest)

upsert-owners :
    (conversation : ℕ) (r : MemberReport) (now : ℕ) (s : Store)
    → r.role ≡ MemberRole.member
    → owners (upsert_group_member conversation r now s).1.members ≡ owners s.members
unfolding upsert_group_member
upsert-owners conversation r now s role =
    elim (Option-cases (find? (reported conversation r) s.members)) [
      | inl e ↦ rw (e, upsert_found) (owners-snoc s.members _ (ground arith))
      | inr (m, e) ↦ rw (e, upsert_found) (owners-update (λ x. x.id == m.id) r s.members role)
    ]

sync_handle-owners :
    (w : ChannelWorld) (conversation now : ℕ) (raw : Fields) (s : Store) (o : Option String)
    → owners (sync_handle w conversation now raw s o).members ≡ owners s.members
sync_handle-owners w conversation now raw s none = refl
sync_handle-owners w conversation now raw s (some handle) =
    elim (Bool-cases (is_blank (strip handle))) [
      | inl e ↦ rw (e, sync_handle)
      | inr e ↦ rw (e, sync_handle) (upsert-owners conversation (report_of w handle raw) now s refl)
    ]

sync_one-owners :
    (w : ChannelWorld) (conversation now : ℕ) (x : Json) (s : Store)
    → owners (sync_one w conversation now x s).members ≡ owners s.members
sync_one-owners w conversation now (object raw) s = elim (Bool-cases (is_true (get "is_me" raw))) [
  | inl e ↦ rw (e, sync_one)
  | inr e ↦
      rw (e, sync_one) (sync_handle-owners w conversation now raw s (as_text (get "handle" raw)))
]
sync_one-owners w conversation now _ s = refl

sync_items-owners :
    (w : ChannelWorld) (conversation now : ℕ) (xs : Items) (s : Store)
    → owners (sync_items w conversation now xs s).members ≡ owners s.members
unfolding sync_items
sync_items-owners w conversation now nil s = refl
sync_items-owners w conversation now (cons x xs) s =
    sync_items-owners w conversation now xs (sync_one w conversation now x s)
    ∙ sync_one-owners w conversation now x s

sync_list-owners :
    (w : ChannelWorld) (conversation now : ℕ) (x : Json) (s : Store)
    → owners (sync_list w conversation now x s).members ≡ owners s.members
sync_list-owners w conversation now (array xs) s = sync_items-owners w conversation now xs s
sync_list-owners w conversation now _ s = refl

-- Whatever list of participants the channel sends, the rows with the owner's role are the same
-- ones afterwards.
pub sync_linq_group_participants-owners :
    (w : ChannelWorld) (conversation now : ℕ) (chat : Fields) (s : Store)
    → owners (sync_linq_group_participants w conversation now chat s).members ≡ owners s.members
unfolding sync_linq_group_participants
sync_linq_group_participants-owners w conversation now chat s =
    sync_list-owners w conversation now (get "handles" chat) s
