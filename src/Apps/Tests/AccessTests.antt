-- ===== src/Apps/Tests/AccessTests.antt =====
-- The app of a group of two: who owns it, and a ticket to it.
use dot_backend.Prelude.{ℕ, ◌≡◌, refl, String, false, none, some, [], ◌∷◌, here, arith, first_by}
use dot_backend.Prelude.Json.{pos}
use dot_backend.Groups.Tests.{flat, ann, ben, store, passed, accepted_transfer}
use dot_backend.Groups.Ownership.Transfer.{IsHeir}
use dot_backend.Groups.Channel.{hand_over, successor_of}
use dot_backend.Apps.Records.{AppRole, GeneratedApp, AppSession, AppTicket, Store, ok, app_role}
use dot_backend.Apps.Access.{
  authorize_user, authorize_user_for_locked_app, locked_active_app, verified, issue_access_ticket,
  persist_access_ticket, redeem_access_ticket, authorize_session, add_ticket, redeemed, session_of,
  new_ticket,
}
use dot_backend.Apps.Access.Owners.{ActsAsOwner, as_user}
use dot_backend.Apps.Access.Succession.{transfer_group_ownership-ActsAsOwner, hand_over-ActsAsOwner}
use dot_backend.Apps.Access.Tickets.{
  WithinRedemptions, redeem_access_ticket-WithinRedemptions, issue-redeem-authorize,
}

-- Stands in for the digest of a token.
abbrev hash : String → String
hash token = token

abbrev app_after : GeneratedApp
app_after = record {
  id = 5;
  user_id = 11;
  conversation_id = 1;
  public_id = "rent";
  title = "Rent";
  description = "Who pays";
  access_mode = dot_backend.Groups.Records.collaborative_link;
  status = dot_backend.Groups.Records.AppStatus.active;
  current_version = 1;
  runtime_kind = dot_backend.Groups.Records.code;
  updated_at = 0;
}

abbrev app_before : GeneratedApp
app_before = record app_after { user_id = 10 }

ben_authorized : authorize_user 5 11 passed ≡ ok (verified AppRole.owner 11)
unfolding authorize_user authorize_user_for_locked_app locked_active_app
ben_authorized = refl

transfer_group_ownership-ActsAsOwner_example :
    (new : ℕ) × IsHeir 1 3 new store × (some 11 ≡ some new)
transfer_group_ownership-ActsAsOwner_example =
    transfer_group_ownership-ActsAsOwner hash flat ben "transferred" (some 10) 100 store passed
      app_after 200 (some 11) (tt, tt) accepted_transfer (here refl) refl (omega arith)
      (as_user 11 (verified AppRole.owner 11) ben_authorized refl refl)

-- The group without Ben.
abbrev alone : Store
alone = record store { members = ann ∷ [] }

nobody_left : successor_of 1 ann alone.members ≡ none
unfolding first_by
nobody_left = refl

hand_over-ActsAsOwner_example :
    (s' : Store) × (hand_over flat ann 100 alone ≡ ok s') × ¬ ActsAsOwner hash s' 5 200 (some 10)
hand_over-ActsAsOwner_example =
    hand_over-ActsAsOwner hash flat ann 100 alone app_before 200 (some 10) (tt, tt) (tt, tt)
      (here refl) refl nobody_left (here refl) refl (omega arith)

-- The group with a ticket for its members.
abbrev ticketed : Store
ticketed = add_ticket hash 5 10 none (pos 900) "abc" 100 store AppRole.member

ticket_issued :
    issue_access_ticket hash 5 10 none "member" (pos 900) "abc" 100 store ≡ ok ("abc", ticketed)
unfolding issue_access_ticket persist_access_ticket locked_active_app authorize_user_for_locked_app
    app_role
ticket_issued = refl

app_active : locked_active_app 5 store ≡ ok app_before
unfolding locked_active_app
app_active = refl

issue-redeem-authorize_example :
    (known : AppRole) × (row : AppSession) × (s2 : Store) × (app_role "member" ≡ some known)
    × (redeem_access_ticket hash "rent" "abc" (pos 3600) "def" 130 ticketed ≡ ok (("def", row), s2))
    × (authorize_session hash 5 "def" 140 s2
        ≡ ok (record {
          role = known;
          user_id = none;
          session_id = some row.id;
          identity_verified = false;
        }))
issue-redeem-authorize_example =
    issue-redeem-authorize hash app_before 10 none "member" (pos 900) (pos 3600) "abc" "def" "abc"
      100 130 140 store ticketed ticket_issued app_active refl (refl, tt) (refl, tt) (omega arith)
      (omega arith)

abbrev ticket : AppTicket
ticket = new_ticket hash 5 10 none (pos 900) "abc" 100 20 AppRole.member

abbrev session : AppSession
session = session_of hash 5 ticket "def" (pos 3600) 130 21

abbrev spent : Store
spent = redeemed hash 5 ticket "def" (pos 3600) 130 ticketed

ticket_redeemed :
    redeem_access_ticket hash "rent" "abc" (pos 3600) "def" 130 ticketed
    ≡ ok (("def", session_of hash 5 ticket "def" (pos 3600) 130 21), spent)
unfolding redeem_access_ticket
ticket_redeemed = refl

redeem_access_ticket-WithinRedemptions_example : WithinRedemptions spent
redeem_access_ticket-WithinRedemptions_example =
    redeem_access_ticket-WithinRedemptions hash "rent" "abc" (pos 3600) "def" 130 ticketed
      ("def", session_of hash 5 ticket "def" (pos 3600) 130 21) spent (tt, tt)
      (((λ e. omega arith), tt), (tt, tt))
      (((λ _. omega arith), tt), (((λ _. omega arith), tt), tt)) ticket_redeemed
