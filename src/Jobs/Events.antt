-- ===== src/Jobs/Events.antt =====
-- src/benji_api/services/user_events.py: the outbox of events from which the agent continues a
-- conversation, as a table. `models/user_event.py` gives the columns; `updated_at` is not read.
pub mod Outbox
pub mod Retries
pub mod History
pub mod Leases
pub mod Ordering
pub mod Finality
pub mod Turns
pub mod Targets
pub mod Attempts
pub mod Dispatch
use dot_backend.Prelude.{
  ℕ, zero, suc, ◌+◌, ◌≤◌, ◌≡◌, String, Bool, true, false, ◌&&◌, ◌||◌, Option, none, some, List, [],
  ◌∷◌, ◌++◌, leb, ◌==◌, str_eq, at_most, find?, update, take_text, if◌then◌else◌,
}
use dot_backend.Prelude.Json.{Fields}
use dot_backend.Jobs.Clock.{seconds, minutes, delay_seconds}
use dot_backend.Jobs.Queue.{Queue, claim}

pub data UserEventStatus : Type 0 where
  pending processing processed failed skipped : UserEventStatus

pub record UserEvent : Type 0 where
  pub id : ℕ
  pub user_id : ℕ
  pub conversation_id : Option ℕ
  pub event_type : String
  pub source : String
  pub idempotency_key : String
  pub payload : Fields
  pub delivery_provider : Option String
  pub status : UserEventStatus
  pub attempts : ℕ
  pub next_attempt_at : ℕ
  pub locked_at : Option ℕ
  pub processed_at : Option ℕ
  pub error : Option String
  pub created_at : ℕ

-- The arguments of `enqueue_user_event`.
pub record EventRequest : Type 0 where
  pub user_id : ℕ
  pub conversation_id : Option ℕ
  pub event_type : String
  pub source : String
  pub idempotency_key : String
  pub payload : Fields
  pub delivery_provider : Option String

-- The row with the defaults of its columns; `id` is the fresh key.
abbrev pub new_event : EventRequest → ℕ → ℕ → UserEvent
new_event q id now = record {
  id = id;
  user_id = q.user_id;
  conversation_id = q.conversation_id;
  event_type = q.event_type;
  source = q.source;
  idempotency_key = q.idempotency_key;
  payload = q.payload;
  delivery_provider = q.delivery_provider;
  status = pending;
  attempts = 0;
  next_attempt_at = now;
  locked_at = none;
  processed_at = none;
  error = none;
  created_at = now;
}

abbrev pub has_key : String → UserEvent → Bool
has_key key e = str_eq e.idempotency_key key

abbrev add_unless :
    EventRequest → ℕ → ℕ → List UserEvent → Option UserEvent → UserEvent × List UserEvent
add_unless q id now rows (some existing) = (existing, rows)
add_unless q id now rows none = (new_event q id now, rows ++ new_event q id now ∷ [])

-- `enqueue_user_event`
unfoldable pub enqueue_user_event :
    EventRequest → ℕ → ℕ → List UserEvent → UserEvent × List UserEvent
enqueue_user_event q id now rows = add_unless q id now rows (find? (has_key q.idempotency_key) rows)

-- The three cases of `eligible` in `_claim_event`; `stale_before` is two minutes before now.
abbrev pub due_by_status : UserEventStatus → Option ℕ → ℕ → ℕ → Bool
due_by_status pending locked next now = true
due_by_status failed locked next now = leb next now
due_by_status processing none next now = false
due_by_status processing (some t) next now = leb (t + minutes 2) now
due_by_status processed locked next now = false
due_by_status skipped locked next now = false

abbrev pub eligible : ℕ → UserEvent → Bool
eligible now e = due_by_status e.status e.locked_at e.next_attempt_at now

abbrev pub start_processing : ℕ → UserEvent → UserEvent
start_processing now e = record e {
  status = processing;
  attempts = suc e.attempts;
  locked_at = some now;
  error = none;
}

abbrev pub event_queue : Queue UserEvent
event_queue = record {
  id = λ e. e.id;
  due = λ e. e.next_attempt_at;
  created_at = λ e. e.created_at;
  attempts = λ e. e.attempts;
  eligible = eligible;
  mark = start_processing;
}

-- `_claim_event`
unfoldable pub claim_event :
    (ℕ → Bool) → ℕ → Option ℕ → ℕ → List UserEvent → Option UserEvent × List UserEvent
claim_event busy max_attempts event_id now rows =
    claim event_queue busy max_attempts event_id now rows

abbrev pub has_id : ℕ → UserEvent → Bool
has_id k e = e.id == k

-- `_finish_event`
unfoldable pub finish_event :
    ℕ → UserEventStatus → Option String → ℕ → List UserEvent → List UserEvent
finish_event k status error now rows =
    update (has_id k)
      (λ e. record e { status = status; error = error; locked_at = none; processed_at = some now })
      rows

abbrev fail_event : String → ℕ → UserEvent → UserEvent
fail_event error now e = record e {
  status = failed;
  error = some (take_text 2000 error);
  locked_at = none;
  next_attempt_at = now + seconds (delay_seconds e.attempts);
}

abbrev exhausted : ℕ → Option UserEvent → Bool
exhausted max_attempts none = false
exhausted max_attempts (some e) = leb max_attempts e.attempts

-- `_retry_event`; the result says whether the attempts are used up.
unfoldable pub retry_event : ℕ → String → ℕ → ℕ → List UserEvent → Bool × List UserEvent
retry_event k error max_attempts now rows =
    (exhausted max_attempts (find? (has_id k) rows), update (has_id k) (fail_event error now) rows)
