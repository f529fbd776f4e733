-- ===== src/Jobs/Events/History.antt =====
-- Histories of calls on the outbox of `services/user_events.py`.
use dot_backend.Prelude.{ℕ, Bool, String, Option, List, [], ◌∷◌}
use dot_backend.Jobs.Events.{
  UserEvent, UserEventStatus, EventRequest, enqueue_user_event, claim_event, finish_event,
  retry_event,
}

-- The calls by which the program changes the table.
pub data Call : Type 0 where
  enqueues : EventRequest → ℕ → Call
  claims : (ℕ → Bool) → Option ℕ → Call
  finishes : ℕ → UserEventStatus → Option String → Call
  retries : ℕ → String → Call

-- One call at a time, and a history of them.
unfoldable pub step : ℕ → ℕ × Call → List UserEvent → List UserEvent
step limit (now, enqueues q id) rows = (enqueue_user_event q id now rows).1
step limit (now, claims busy only) rows = (claim_event busy limit only now rows).1
step limit (now, finishes k status error) rows = finish_event k status error now rows
step limit (now, retries k error) rows = (retry_event k error limit now rows).1

unfoldable pub run : ℕ → List (ℕ × Call) → List UserEvent → List UserEvent
unfolding step
run limit [] rows = rows
run limit (c ∷ cs) rows = run limit cs (step limit c rows)
