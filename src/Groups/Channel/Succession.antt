-- ===== src/Groups/Channel/Succession.antt =====
-- When the channel reports that the owner has left (src/benji_api/services/groups.py), the group
-- and its apps get the next owner, or have none.
use dot_backend.Prelude.{
  ℕ, ◌≡◌, ◌⊎◌, inl, inr, refl, String, Bool, true, false, ◌&&◌, Option, none, some, All,
  All-update_any, Keyed, Has, arith, ◌==◌, is_some, find?-unique, first_by-holds, first_by-Has,
  first_by-least, first_by-none, precedes, All-of_Has, Has-select, select, Option-cases, Bool-cases,
  ==_refl,
}
use dot_backend.Groups.Records.{
  Conversation, ConversationMember, GeneratedApp, Store, ok, is_group, is_active,
}
use dot_backend.Groups.Access.Revoked.{AppRevoked, revoke_all-Revoked}
use dot_backend.Groups.Ownership.{
  transfer_group_ownership, transferred, in_group, app_of, claimable_source,
  revoke_unclaimed_group_app_owner,
}
use dot_backend.Groups.Ownership.Transfer.{IsOwned, transfer_group_ownership-IsOwned}
use dot_backend.Groups.Access.Passed.{Terms}
use dot_backend.Groups.Channel.{
  hand_over, successor_of, can_succeed, departing_id, hand_over_to, orphan,
}

-- Where row keys are distinct, a transfer of a group in the tables to a member of it in the tables
-- who is active and has a linked account does not raise, and writes the rows of the transfer.
pub transfer_group_ownership-ok :
    (c : Conversation) (heir : ConversationMember) (source : String) (departing : Option ℕ)
    (now new : ℕ) (s : Store)
    → Keyed (λ (x : Conversation). x.id) s.conversations
    → Keyed (λ (x : ConversationMember). x.id) s.members
    → Has c s.conversations
    → Has heir s.members
    → is_group c.kind ≡ true
    → heir.conversation_id ≡ c.id
    → heir.user_id ≡ some new
    → is_active heir.status ≡ true
    → transfer_group_ownership c heir source departing now s
      ≡ ok (transferred c heir new source departing now s)
unfolding transfer_group_ownership
transfer_group_ownership-ok c heir source departing now new s kc km hc hm kind there linked active =
    rw
      (
        kind,
        linked,
        find?-unique (λ x. x.id) (λ x. x.id == c.id) s.conversations c kc hc (==_refl c.id)
            (λ x e. ground arith),
        find?-unique (λ x. x.id) (λ x. in_group c.id x && x.id == heir.id) s.members heir km hm
            (ground arith) (λ x e. ground arith),
        linked,
        active,
      )
      refl

abbrev pub earlier : ConversationMember → ConversationMember → Bool
earlier = precedes (λ (m : ConversationMember). m.joined_at) (λ m. m.created_at)

linked_of : (o : Option ℕ) → is_some o ≡ true → (u : ℕ) × (o ≡ some u)
linked_of none h = absurd (cc)
linked_of (some u) h = (u, refl)

-- The heir was the first to join of those who can succeed, and owns the group and its apps.
abbrev pub Inherited : Conversation → ConversationMember → ℕ → Store → Store → Type 0
Inherited c leaving now s s' =
    (heir : ConversationMember) × (t : Terms) × Has heir s.members
    × (can_succeed c.id leaving heir ≡ true)
    × All (λ (x : ConversationMember). can_succeed c.id leaving x ≡ true → earlier x heir ≡ false)
        s.members
    × (t.departing ≡ some (departing_id c leaving))
    × IsOwned c.id heir.id t s'

-- Nobody can succeed, the group waits for a claim, and no owner's grant of its apps is good.
abbrev pub Orphaned : Conversation → ConversationMember → ℕ → Store → Store → Type 0
Orphaned c leaving now s s' =
    All (λ (x : ConversationMember). can_succeed c.id leaving x ≡ false) s.members
    × All (λ (x : Conversation). x.id ≡ c.id → claimable_source x.group_owner_source ≡ true)
        s'.conversations
    × All
        (λ (a : GeneratedApp).
          a.conversation_id ≡ c.id → AppRevoked (departing_id c leaving) now a.id s'.grants)
        s'.apps

hand_over-Inherited :
    (c : Conversation) (leaving heir : ConversationMember) (now : ℕ) (s : Store)
    → Keyed (λ (x : Conversation). x.id) s.conversations
    → Keyed (λ (x : ConversationMember). x.id) s.members
    → Has c s.conversations
    → is_group c.kind ≡ true
    → successor_of c.id leaving s.members ≡ some heir
    → (s' : Store) × (hand_over_to c leaving now s (some heir) ≡ ok s')
      × Inherited c leaving now s s'
hand_over-Inherited c leaving heir now s kc km hc kind chosen =
    let able = first_by-holds _ (can_succeed c.id leaving) s.members heir chosen in
    let (new, linked) = linked_of heir.user_id (ground arith) in
    let stored = first_by-Has _ (can_succeed c.id leaving) s.members heir chosen in
    let done =
      transfer_group_ownership-ok c heir "transferred" (some (departing_id c leaving)) now new s kc
        km hc stored kind (ground arith) linked (ground arith) in
    let (t, dep, _, _, owned) =
      transfer_group_ownership-IsOwned c heir "transferred" (some (departing_id c leaving)) now s _
        done in
    (
      _,
      done,
      (
        heir,
        t,
        stored,
        able,
        first_by-least (λ (x : ConversationMember). x.joined_at) (λ x. x.created_at)
            (can_succeed c.id leaving) s.members heir chosen,
        dep,
        owned,
      ),
    )

hand_over-Orphaned :
    (c : Conversation) (leaving : ConversationMember) (now : ℕ) (s : Store)
    → successor_of c.id leaving s.members ≡ none
    → (s' : Store) × (hand_over_to c leaving now s none ≡ ok s') × Orphaned c leaving now s s'
unfolding revoke_unclaimed_group_app_owner
hand_over-Orphaned c leaving now s nobody = (
  orphan c leaving now s,
  refl,
  (
    first_by-none _ _ s.members nobody,
    All-update_any (λ x. x.id ≡ c.id → claimable_source x.group_owner_source ≡ true)
        (λ x. x.id == c.id) _ s.conversations
        (λ x. elim (Bool-cases (x.id == c.id)) [
          | inl e ↦ rw e (λ _. refl)
          | inr e ↦ rw e (λ i. absurd (ground arith))
        ]),
    All-of_Has _ s.apps λ a m i.
        revoke_all-Revoked (departing_id c leaving) now (select (app_of c.id) s.apps) s.grants a
          (Has-select (app_of c.id) a s.apps m (ground arith)),
  ),
)

-- Where row keys are distinct and the group is in the tables, handing it over when its owner is
-- removed does not raise. Either it passes to the active member with a linked account who joined
-- first, who then alone owns the group and its apps; or, when there is no such member, the group
-- waits for a claim, and no owner's grant of its apps, and no grant of the departing owner, is good.
pub hand_over-total :
    (c : Conversation) (leaving : ConversationMember) (now : ℕ) (s : Store)
    → Keyed (λ (x : Conversation). x.id) s.conversations
    → Keyed (λ (x : ConversationMember). x.id) s.members
    → Has c s.conversations
    → is_group c.kind ≡ true
    → (s' : Store) × (hand_over c leaving now s ≡ ok s')
      × (Inherited c leaving now s s' ⊎ Orphaned c leaving now s s')
unfolding hand_over
hand_over-total c leaving now s kc km hc kind =
    elim (Option-cases (successor_of c.id leaving s.members)) [
      | inl e ↦
          let (s', done, o) = hand_over-Orphaned c leaving now s e in
          (s', rw (e, hand_over) done, inr o)
      | inr (heir, e) ↦
          let (s', done, i) = hand_over-Inherited c leaving heir now s kc km hc kind e in
          (s', rw (e, hand_over) done, inl i)
    ]
