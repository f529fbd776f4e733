-- ===== src/Jobs/Schedules.antt =====
-- src/benji_api/services/schedules.py: durable clock triggers. Times are UTC instants, so
-- `_aware_utc` changes nothing; `models/schedule.py` gives the columns.
pub mod Recurring
pub mod Dispatch
pub mod Creation
pub mod Cancelling
use dot_backend.Prelude.{
  ℕ, zero, suc, ◌+◌, ◌≡◌, String, Bool, true, false, not, ◌&&◌, ◌||◌, Option, none, some, List, [],
  ◌∷◌, ◌++◌, leb, ◌==◌, str_eq, id_is, at_most, find?, update, select, take_text, strip, is_blank,
  first_by, precedes, if◌then◌else◌,
}
use dot_backend.Prelude.Json.{Fields}
use dot_backend.Jobs.Clock.{seconds, minutes, delay_seconds}
use dot_backend.Jobs.Queue.{Queue, claim}
use Recurring.{Recurrence, once, daily, weekly, parse_recurrence, Zone, next_recurring_run}

pub data ScheduledTaskStatus : Type 0 where
  active processing completed paused cancelled failed : ScheduledTaskStatus

pub record ScheduledTask : Type 0 where
  pub id : ℕ
  pub user_id : ℕ
  pub conversation_id : Option ℕ
  pub action_type : String
  pub source : String
  pub idempotency_key : String
  pub title : String
  pub payload : Fields
  pub delivery_provider : Option String
  pub timezone : String
  pub recurrence : Recurrence
  pub scheduled_for : ℕ
  pub next_attempt_at : ℕ
  pub status : ScheduledTaskStatus
  pub attempts : ℕ
  pub run_count : ℕ
  pub locked_at : Option ℕ
  pub last_run_at : Option ℕ
  pub completed_at : Option ℕ
  pub cancelled_at : Option ℕ
  pub error : Option String
  pub created_at : ℕ

-- The arguments of `create_scheduled_task`.
pub record TaskRequest : Type 0 where
  pub user_id : ℕ
  pub conversation_id : Option ℕ
  pub action_type : String
  pub source : String
  pub idempotency_key : String
  pub title : String
  pub payload : Fields
  pub run_at : ℕ
  pub timezone : String
  pub recurrence : String
  pub delivery_provider : Option String

-- `ScheduleValidationError`, by its message.
pub data ScheduleError : Type 0 where
  not_in_future : ScheduleError
  unknown_timezone : ScheduleError
  unknown_recurrence : ScheduleError
  no_title : ScheduleError

pub data Created : Type 0 where
  created : ScheduledTask → List ScheduledTask → Created
  rejected : ScheduleError → Created

-- The row with the defaults of its columns; `id` is the fresh key.
abbrev new_task : TaskRequest → Recurrence → ℕ → ℕ → ScheduledTask
new_task q recurrence id now = record {
  id = id;
  user_id = q.user_id;
  conversation_id = q.conversation_id;
  action_type = q.action_type;
  source = q.source;
  idempotency_key = q.idempotency_key;
  title = take_text 160 (strip q.title);
  payload = q.payload;
  delivery_provider = q.delivery_provider;
  timezone = q.timezone;
  recurrence = recurrence;
  scheduled_for = q.run_at;
  next_attempt_at = q.run_at;
  status = active;
  attempts = 0;
  run_count = 0;
  locked_at = none;
  last_run_at = none;
  completed_at = none;
  cancelled_at = none;
  error = none;
  created_at = now;
}

abbrev with_recurrence : TaskRequest → ℕ → ℕ → List ScheduledTask → Option Recurrence → Created
with_recurrence q id now rows none = rejected unknown_recurrence
with_recurrence q id now rows (some recurrence) =
    if is_blank (strip q.title)
    then rejected no_title
    else created (new_task q recurrence id now) (rows ++ new_task q recurrence id now ∷ [])

abbrev create_new : (String → Bool) → TaskRequest → ℕ → ℕ → List ScheduledTask → Created
create_new known_zone q id now rows =
    if leb (q.run_at + seconds 5) now
    then rejected not_in_future
    else (if not (known_zone q.timezone)
        then rejected unknown_timezone
        else with_recurrence q id now rows (parse_recurrence q.recurrence))

abbrev pub task_key : String → ScheduledTask → Bool
task_key key t = str_eq t.idempotency_key key

abbrev existing_or_new :
    (String → Bool) → TaskRequest → ℕ → ℕ → List ScheduledTask → Option ScheduledTask → Created
existing_or_new known_zone q id now rows (some existing) = created existing rows
existing_or_new known_zone q id now rows none = create_new known_zone q id now rows

-- `create_scheduled_task`; `known_zone` is the time zone database.
unfoldable pub create_scheduled_task :
    (String → Bool) → TaskRequest → ℕ → ℕ → List ScheduledTask → Created
create_scheduled_task known_zone q id now rows =
    existing_or_new known_zone q id now rows (find? (task_key q.idempotency_key) rows)

abbrev pub open_status : ScheduledTaskStatus → Bool
open_status active = true
open_status processing = true
open_status failed = true
open_status paused = true
open_status completed = false
open_status cancelled = false

-- An optional filter of a query.
abbrev matches_id : Option ℕ → Option ℕ → Bool
matches_id none column = true
matches_id (some k) column = id_is column k

abbrev matches_text : Option String → String → Bool
matches_text none column = true
matches_text (some s) column = str_eq column s

-- The rows that `list_scheduled_tasks` returns, before they are put in order.
unfoldable pub list_scheduled_tasks :
    ℕ → Option ℕ → Option String → Bool → List ScheduledTask → List ScheduledTask
list_scheduled_tasks user conversation action active_only = select λ t.
    t.user_id == user
    && matches_id conversation t.conversation_id
    && matches_text action t.action_type
    && (not active_only || open_status t.status)

abbrev pub task_id : ℕ → ScheduledTask → Bool
task_id k t = t.id == k

abbrev cancel_row : ℕ → ScheduledTask → ScheduledTask
cancel_row now t = record t { status = cancelled; cancelled_at = some now; locked_at = none }

abbrev cancel_found : ℕ → ℕ → List ScheduledTask → Option ScheduledTask → Bool × List ScheduledTask
cancel_found k now rows none = (false, rows)
cancel_found k now rows (some t) = elim t.status [
  | completed ↦ (true, rows)
  | cancelled ↦ (true, rows)
  | _ ↦ (true, update (task_id k) (cancel_row now) rows)
]

-- `cancel_scheduled_task`
unfoldable pub cancel_scheduled_task : ℕ → ℕ → ℕ → List ScheduledTask → Bool × List ScheduledTask
cancel_scheduled_task user k now rows =
    cancel_found k now rows (find? (λ t. t.id == k && t.user_id == user) rows)

-- The three cases of `eligible` in `_claim_task`.
abbrev due_by_status : ScheduledTaskStatus → Option ℕ → ℕ → ℕ → Bool
due_by_status active locked next now = leb next now
due_by_status failed locked next now = leb next now
due_by_status processing none next now = false
due_by_status processing (some t) next now = leb (t + minutes 5) now
due_by_status completed locked next now = false
due_by_status paused locked next now = false
due_by_status cancelled locked next now = false

abbrev start_task : ℕ → ScheduledTask → ScheduledTask
start_task now t = record t {
  status = processing;
  attempts = suc t.attempts;
  locked_at = some now;
  error = none;
}

abbrev pub task_queue : Queue ScheduledTask
task_queue = record {
  id = λ t. t.id;
  due = λ t. t.next_attempt_at;
  created_at = λ t. t.created_at;
  attempts = λ t. t.attempts;
  eligible = λ now t. due_by_status t.status t.locked_at t.next_attempt_at now;
  mark = start_task;
}

-- `_claim_task`
unfoldable pub claim_task :
    (ℕ → Bool) → ℕ → Option ℕ → ℕ → List ScheduledTask → Option ScheduledTask × List ScheduledTask
claim_task busy max_attempts only now rows = claim task_queue busy max_attempts only now rows

abbrev finish_run : (String → Zone) → ℕ → ScheduledTask → ScheduledTask
finish_run zones now t =
    let done = record t {
      run_count = t.run_count + 1;
      attempts = 0;
      locked_at = none;
      last_run_at = some now;
      error = none;
    } in
    let next = next_recurring_run (zones t.timezone) t.recurrence t.scheduled_for now in
    let rearmed = record done { scheduled_for = next; next_attempt_at = next; status = active } in
    elim t.recurrence [
      | once ↦ record done { status = completed; completed_at = some now }
      | daily ↦ rearmed
      | weekly ↦ rearmed
    ]

abbrev unless_cancelled : (ScheduledTask → ScheduledTask) → ScheduledTask → ScheduledTask
unless_cancelled f t = elim t.status [ cancelled ↦ t | _ ↦ f t ]

-- `_complete_task`; `zones` is the time zone database.
unfoldable pub complete_task : (String → Zone) → ℕ → ℕ → List ScheduledTask → List ScheduledTask
complete_task zones k now rows = update (task_id k) (unless_cancelled (finish_run zones now)) rows

abbrev fail_task : String → ℕ → ScheduledTask → ScheduledTask
fail_task error now t = record t {
  status = failed;
  error = some (take_text 2000 error);
  locked_at = none;
  next_attempt_at = now + seconds (delay_seconds t.attempts);
}

-- `_retry_task`
unfoldable pub retry_task : ℕ → String → ℕ → List ScheduledTask → List ScheduledTask
retry_task k error now rows = update (task_id k) (unless_cancelled (fail_task error now)) rows
