-- ===== src/Jobs/FollowUps.antt =====
-- The table and the steps of src/benji_api/services/agent_followups.py: the agent's own plans to
-- write again later. `models/agent.py` gives the columns; those that no step reads are left out.
pub mod Sending
pub mod Stopping
use dot_backend.Prelude.{
  ℕ, suc, ◌+◌, ◌≤◌, ◌≡◌, String, Bool, true, false, Option, none, some, List, leb, ◌==◌, update,
  take_text, if◌then◌else◌,
}
use dot_backend.Jobs.Clock.{seconds, minutes, delay_seconds}
use dot_backend.Jobs.Queue.{Queue, claim}

pub data AgentFollowUpStatus : Type 0 where
  pending processing completed cancelled failed : AgentFollowUpStatus

pub record AgentFollowUp : Type 0 where
  pub id : ℕ
  pub conversation_id : ℕ
  pub user_id : ℕ
  pub goal : String
  pub delivery_provider : Option String
  pub cancel_on_user_message : Bool
  pub status : AgentFollowUpStatus
  pub attempts : ℕ
  pub due_at : ℕ
  pub locked_at : Option ℕ
  pub completed_at : Option ℕ
  pub cancelled_at : Option ℕ
  pub error : Option String
  pub created_at : ℕ

-- The three cases of `eligible` in `_claim_follow_up`; `stale_before` is two minutes before now.
abbrev pub due_by_status : AgentFollowUpStatus → Option ℕ → ℕ → ℕ → Bool
due_by_status pending locked due now = leb due now
due_by_status failed locked due now = leb due now
due_by_status processing none due now = false
due_by_status processing (some t) due now = leb (t + minutes 2) now
due_by_status completed locked due now = false
due_by_status cancelled locked due now = false

abbrev pub eligible : ℕ → AgentFollowUp → Bool
eligible now f = due_by_status f.status f.locked_at f.due_at now

abbrev pub start_follow_up : ℕ → AgentFollowUp → AgentFollowUp
start_follow_up now f = record f {
  status = processing;
  attempts = suc f.attempts;
  locked_at = some now;
  error = none;
}

abbrev pub follow_up_queue : Queue AgentFollowUp
follow_up_queue = record {
  id = λ f. f.id;
  due = λ f. f.due_at;
  created_at = λ f. f.created_at;
  attempts = λ f. f.attempts;
  eligible = eligible;
  mark = start_follow_up;
}

-- `_claim_follow_up`
unfoldable pub claim_follow_up :
    (ℕ → Bool) → ℕ → Option ℕ → ℕ → List AgentFollowUp → Option AgentFollowUp × List AgentFollowUp
claim_follow_up busy max_attempts only now rows =
    claim follow_up_queue busy max_attempts only now rows

abbrev pub follow_up_id : ℕ → AgentFollowUp → Bool
follow_up_id k f = f.id == k

-- `if follow_up is None or follow_up.status == CANCELLED: return`, and else the change.
abbrev pub unless_cancelled : (AgentFollowUp → AgentFollowUp) → AgentFollowUp → AgentFollowUp
unless_cancelled change f = elim f.status [
  | pending ↦ change f
  | processing ↦ change f
  | completed ↦ change f
  | cancelled ↦ f
  | failed ↦ change f
]

-- The same guard of `_cancel_follow_up`, which looks for COMPLETED.
abbrev pub unless_completed : (AgentFollowUp → AgentFollowUp) → AgentFollowUp → AgentFollowUp
unless_completed change f = elim f.status [
  | pending ↦ change f
  | processing ↦ change f
  | completed ↦ f
  | cancelled ↦ change f
  | failed ↦ change f
]

abbrev pub finish_follow_up : ℕ → AgentFollowUp → AgentFollowUp
finish_follow_up now f = record f { status = completed; completed_at = some now; locked_at = none }

abbrev pub stop_follow_up : String → ℕ → AgentFollowUp → AgentFollowUp
stop_follow_up reason now f = record f {
  status = cancelled;
  cancelled_at = some now;
  locked_at = none;
  error = some (take_text 2000 reason);
}

abbrev pub fail_follow_up : String → ℕ → AgentFollowUp → AgentFollowUp
fail_follow_up error now f = record f {
  status = failed;
  error = some (take_text 2000 error);
  locked_at = none;
  due_at = now + seconds (delay_seconds f.attempts);
}

-- `_complete_follow_up`
unfoldable pub complete_follow_up : ℕ → ℕ → List AgentFollowUp → List AgentFollowUp
complete_follow_up k now rows =
    update (follow_up_id k) (unless_cancelled (finish_follow_up now)) rows

-- `_cancel_follow_up`
unfoldable pub cancel_follow_up : ℕ → String → ℕ → List AgentFollowUp → List AgentFollowUp
cancel_follow_up k reason now rows =
    update (follow_up_id k) (unless_completed (stop_follow_up reason now)) rows

-- `_retry_follow_up`
unfoldable pub retry_follow_up : ℕ → String → ℕ → List AgentFollowUp → List AgentFollowUp
retry_follow_up k error now rows =
    update (follow_up_id k) (unless_cancelled (fail_follow_up error now)) rows
