-- ===== src/Jobs/Tests/FollowUpTests.antt =====
-- A follow-up, and the calls of `services/agent_followups.py` on it.
use dot_backend.Prelude.{
  ℕ, ◌≡◌, ◌≢◌, refl, true, none, some, List, [], ◌∷◌, All, here, arith, first_by,
}
use dot_backend.Jobs.Queue.{claim}
use dot_backend.Jobs.Events.Retries.{unlocked}
use dot_backend.Jobs.FollowUps.{
  AgentFollowUp, pending, start_follow_up, claim_follow_up, cancel_follow_up,
}
use dot_backend.Jobs.FollowUps.Stopping.{
  Call, claims, completes, retries, run, Cancelled, cancel_follow_up-final,
}
use dot_backend.Jobs.FollowUps.Sending.{
  Message, inbound, Store, replied, Worker, dispatch_due_follow_up,
}
use dot_backend.Jobs.FollowUps.Sending.Replies.{
  Settled, IsSilenced, dispatch_due_follow_up-settles, dispatch_due_follow_up-silent,
}

abbrev plan : AgentFollowUp
plan = record {
  id = 1;
  conversation_id = 3;
  user_id = 7;
  goal = "ask how the interview went";
  delivery_provider = none;
  cancel_on_user_message = true;
  status = pending;
  attempts = 0;
  due_at = 500;
  locked_at = none;
  completed_at = none;
  cancelled_at = none;
  error = none;
  created_at = 100;
}

abbrev at_work : AgentFollowUp
at_work = start_follow_up 1000 plan

-- A worker that has claimed the follow-up completes it after it was cancelled, another one fails.
abbrev late_calls : List (ℕ × Call)
late_calls = (3000, completes 1) ∷ (3100, retries 1 "timeout") ∷ (3200, claims unlocked none) ∷ []

cancel_follow_up-final_example :
    let after = run 5 late_calls (cancel_follow_up 1 "the user replied" 2000 (at_work ∷ [])) in
    All (Cancelled 1) after
    × ((r : AgentFollowUp) → (claim_follow_up unlocked 5 none 4000 after).0 ≡ some r → r.id ≢ 1)
cancel_follow_up-final_example =
    cancel_follow_up-final 5 unlocked none "the user replied" 2000 4000 (at_work ∷ []) late_calls
      at_work (tt, tt) (here refl) (λ e. ground arith)

abbrev reply : Message
reply = record { conversation_id = 3; direction = inbound; created_at = 600 }

abbrev store : Store
store = record {
  follow_ups = plan ∷ [];
  users = (record { id = 7; messaging_opted_out_at = none }) ∷ [];
  messages = reply ∷ [];
  channels = [];
}

abbrev worker : Worker
worker = record {
  has_provider = true;
  has_linq_client = true;
  automated_replies = true;
  run_turn = λ f c s. (replied ("how did it go?" ∷ []), s);
  deliver = λ f c replies s. (none, s);
}

plan_claimed : (claim_follow_up unlocked 5 none 1000 (plan ∷ [])).0 ≡ some at_work
unfolding claim_follow_up claim first_by
plan_claimed = refl

dispatch_due_follow_up-settles_example :
    All (Settled 1) (dispatch_due_follow_up worker unlocked 5 none 1000 1100 store).1.follow_ups
dispatch_due_follow_up-settles_example =
    dispatch_due_follow_up-settles worker unlocked 5 none 1000 1100 store at_work plan_claimed

dispatch_due_follow_up-silent_example :
    let (done, after) = dispatch_due_follow_up worker unlocked 5 none 1000 1100 store in
    (done ≡ true) × IsSilenced at_work 1100 store after
dispatch_due_follow_up-silent_example =
    dispatch_due_follow_up-silent worker unlocked 5 none 1000 1100 store at_work reply (tt, tt)
      plan_claimed refl (here refl) refl refl (omega arith)
