-- ===== src/Jobs/FollowUps/Sending/Replies.antt =====
-- What a dispatch of src/benji_api/services/agent_followups.py guarantees: a user who has replied
-- is not written to, and no follow-up is left in processing.
use dot_backend.Prelude.{
  ℕ, ◌≡◌, ◌≢◌, refl, sym, subst, String, Bool, true, Option, none, some, List, All, All-update_any,
  Has, any-Has, arith, ◌==◌, inl, inr, Bool-cases, update, ◌<◌, find?, find?-update_found, Keyed,
  Has-update_other, All-of_Has, ap, ◌∙◌,
}
use dot_backend.Jobs.Queue.Claims.{claim-first, claim-find?, claim-others}
use dot_backend.Jobs.FollowUps.Stopping.{follow_up_queue-IsLeased}
use dot_backend.Jobs.FollowUps.{
  follow_up_queue, cancelled, AgentFollowUp, processing, follow_up_id, claim_follow_up,
  complete_follow_up, cancel_follow_up, retry_follow_up, unless_cancelled, unless_completed,
  finish_follow_up, fail_follow_up, stop_follow_up,
}
use dot_backend.Jobs.FollowUps.Sending.{
  Worker, Store, Message, inbound, cancel_in, Channel, Turn, replied, wake_cancelled, raised, Plan,
  stop, fail, go, is_newer, should_cancel, plan, follow, after_turn, after_delivery, with_claimed,
  dispatch_due_follow_up,
}

-- The follow-up with the id `k` is not in processing.
abbrev pub Settled : ℕ → AgentFollowUp → Type 0
Settled k f = f.id ≡ k → f.status ≢ processing

update-Settled :
    (f : AgentFollowUp → AgentFollowUp) (k : ℕ) (rows : List AgentFollowUp)
    → ((x : AgentFollowUp) → (f x).status ≢ processing)
    → All (Settled k) (update (follow_up_id k) f rows)
update-Settled f k rows done = All-update_any (Settled k) (follow_up_id k) f rows λ x.
    elim (Bool-cases (x.id == k)) [
      | inl e ↦ rw e (λ _. done x)
      | inr e ↦ rw e (λ i. absurd (ground arith))
    ]

complete-Settled :
    (k now : ℕ) (rows : List AgentFollowUp) → All (Settled k) (complete_follow_up k now rows)
unfolding complete_follow_up
complete-Settled k now rows =
    update-Settled (unless_cancelled (finish_follow_up now)) k rows (λ x. ground arith)

cancel-Settled :
    (k : ℕ) (reason : String) (now : ℕ) (rows : List AgentFollowUp)
    → All (Settled k) (cancel_follow_up k reason now rows)
unfolding cancel_follow_up
cancel-Settled k reason now rows =
    update-Settled (unless_completed (stop_follow_up reason now)) k rows (λ x. ground arith)

retry-Settled :
    (k : ℕ) (error : String) (now : ℕ) (rows : List AgentFollowUp)
    → All (Settled k) (retry_follow_up k error now rows)
unfolding retry_follow_up
retry-Settled k error now rows =
    update-Settled (unless_cancelled (fail_follow_up error now)) k rows (λ x. ground arith)

module _ (w : Worker) (f : AgentFollowUp) (now : ℕ) where
  delivery-Settled :
      (r : Option String × Store) → All (Settled f.id) (after_delivery f now r).follow_ups
  delivery-Settled (none, s) = complete-Settled f.id now s.follow_ups
  delivery-Settled (some error, s) = retry-Settled f.id error now s.follow_ups

  turn-Settled :
      (c : Option Channel) (r : Turn × Store)
      → All (Settled f.id) (after_turn w f c now r).follow_ups
  turn-Settled none (replied replies, s) = complete-Settled f.id now s.follow_ups
  turn-Settled (some c) (replied replies, s) = delivery-Settled (w.deliver f c replies s)
  turn-Settled none (wake_cancelled, s) = cancel-Settled f.id _ now s.follow_ups
  turn-Settled (some c) (wake_cancelled, s) = cancel-Settled f.id _ now s.follow_ups
  turn-Settled none (raised error, s) = retry-Settled f.id error now s.follow_ups
  turn-Settled (some c) (raised error, s) = retry-Settled f.id error now s.follow_ups

  follow-Settled : (s : Store) (p : Plan) → All (Settled f.id) (follow w f now s p).follow_ups
  follow-Settled s (stop reason) = cancel-Settled f.id reason now s.follow_ups
  follow-Settled s (fail error) = retry-Settled f.id error now s.follow_ups
  follow-Settled s (go c) = turn-Settled c (w.run_turn f c s)

with_claimed-found {ℓ} :
    (P : Bool × Store → Type ℓ) (w : Worker) (now : ℕ) (s : Store) (f : AgentFollowUp)
    (c : Option AgentFollowUp × List AgentFollowUp)
    → c.0 ≡ some f
    → P (with_claimed w now s (some f, c.1))
    → P (with_claimed w now s c)
with_claimed-found P w now s f (none, rows) e h = absurd (cc)
with_claimed-found P w now s f (some g, rows) e h =
    subst (λ o. P (with_claimed w now s (o, rows))) (sym e) h

-- Whatever the agent's turn and the delivery do to the tables, and whether they fail or not, a
-- follow-up that was claimed is not left in processing when the dispatch returns.
pub dispatch_due_follow_up-settles :
    (w : Worker) (busy : ℕ → Bool) (limit : ℕ) (only : Option ℕ) (claimed settled : ℕ) (s : Store)
    (f : AgentFollowUp)
    → (claim_follow_up busy limit only claimed s.follow_ups).0 ≡ some f
    → All (Settled f.id) (dispatch_due_follow_up w busy limit only claimed settled s).1.follow_ups
unfolding dispatch_due_follow_up
dispatch_due_follow_up-settles w busy limit only claimed settled s f found =
    with_claimed-found (λ r. All (Settled f.id) r.1.follow_ups) w settled s f
      (claim_follow_up busy limit only claimed s.follow_ups) found (follow-Settled w f settled _ _)

replied-should_cancel :
    (f : AgentFollowUp) (m : Message) (s : Store)
    → f.cancel_on_user_message ≡ true
    → Has m s.messages
    → is_newer f m ≡ true
    → should_cancel f s ≡ true
unfolding should_cancel
replied-should_cancel f m s wants stored newer =
    let found = any-Has (is_newer f) stored newer in ground arith

-- The follow-up `f` is cancelled, and the other follow-ups and the other tables are as they were.
pub record IsSilenced (f : AgentFollowUp) (settled : ℕ) (s after : Store) : Type 0 where
  pub row : AgentFollowUp
  pub found : find? (follow_up_id f.id) after.follow_ups ≡ some row
  pub status : row.status ≡ cancelled
  pub cancelled_at : row.cancelled_at ≡ some settled
  pub others : All (λ y. y.id ≢ f.id → Has y after.follow_ups) s.follow_ups
  pub users : after.users ≡ s.users
  pub messages : after.messages ≡ s.messages
  pub channels : after.channels ≡ s.channels

-- A claimed follow-up is in processing, so that a cancellation is not held up by its guard.
cancel-IsSilenced :
    (busy : ℕ → Bool) (limit : ℕ) (only : Option ℕ) (claimed settled : ℕ) (s : Store)
    (f : AgentFollowUp) (reason : String)
    → Keyed (λ (x : AgentFollowUp). x.id) s.follow_ups
    → (claim_follow_up busy limit only claimed s.follow_ups).0 ≡ some f
    → IsSilenced f settled s (
        cancel_in f reason settled
          (record s { follow_ups = (claim_follow_up busy limit only claimed s.follow_ups).1 }))
unfolding claim_follow_up cancel_follow_up
cancel-IsSilenced busy limit only claimed settled s f reason keyed found =
    let (r, m, marked, passes, first) =
      claim-first follow_up_queue busy limit only claimed s.follow_ups f found in
    let at_work : f.status ≡ processing = ap (λ (x : AgentFollowUp). x.status) marked in
    record {
      row = stop_follow_up reason settled f;
      found =
          find?-update_found (follow_up_id f.id) (unless_completed (stop_follow_up reason settled))
            _ f (λ y. ground arith)
            (claim-find? follow_up_queue follow_up_queue-IsLeased busy limit only claimed
              s.follow_ups f keyed found)
          ∙ ap some (ground arith);
      status = refl;
      cancelled_at = refl;
      others = All-of_Has _ s.follow_ups λ y m ne.
          Has-update_other (follow_up_id f.id) _ (ground arith) (
            claim-others follow_up_queue follow_up_queue-IsLeased busy limit only claimed
              s.follow_ups f y found ne m);
      users = refl;
      messages = refl;
      channels = refl;
    }

-- Where the ids of follow-ups are distinct, and a claimed follow-up is to be cancelled when the user
-- replies: once an inbound message came into its conversation after it was planned, the dispatch
-- leaves it cancelled, and the other follow-ups and the other tables as they were, whatever the
-- agent's turn and a delivery would have done to them.
pub dispatch_due_follow_up-silent :
    (w : Worker) (busy : ℕ → Bool) (limit : ℕ) (only : Option ℕ) (claimed settled : ℕ) (s : Store)
    (f : AgentFollowUp) (m : Message)
    → Keyed (λ (x : AgentFollowUp). x.id) s.follow_ups
    → (claim_follow_up busy limit only claimed s.follow_ups).0 ≡ some f
    → f.cancel_on_user_message ≡ true
    → Has m s.messages
    → m.conversation_id ≡ f.conversation_id
    → m.direction ≡ inbound
    → f.created_at < m.created_at
    → let (done, after) = dispatch_due_follow_up w busy limit only claimed settled s in
      (done ≡ true) × IsSilenced f settled s after
unfolding dispatch_due_follow_up
dispatch_due_follow_up-silent w busy limit only claimed settled s f m keyed found wants stored same
      from_user later =
    let rows = (claim_follow_up busy limit only claimed s.follow_ups).1 in
    let reason : String = "Cancelled because the user replied or messaging is unavailable" in
    let newer : is_newer f m ≡ true = rw (same, from_user) (ground arith) in
    with_claimed-found (λ r. (r.0 ≡ true) × IsSilenced f settled s r.1) w settled s f
      (claim_follow_up busy limit only claimed s.follow_ups) found
      (rw (replied-should_cancel f m (record s { follow_ups = rows }) wants stored newer, plan)
        (refl, cancel-IsSilenced busy limit only claimed settled s f reason keyed found))
