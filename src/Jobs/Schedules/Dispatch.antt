-- ===== src/Jobs/Schedules/Dispatch.antt =====
-- `dispatch_due_scheduled_task` of src/benji_api/services/schedules.py: a worker claims a due task,
-- runs its action, and completes or retries it.
pub mod Once
use dot_backend.Prelude.{
  ℕ, ◌+◌, ◌≡◌, String, Bool, true, false, Option, none, some, List, str_eq, join_text,
  if◌then◌else◌,
}
use dot_backend.Prelude.Json.{Json, Fields, end, field, text, int, null, pos, get, as_text, truthy}
use dot_backend.Jobs.Events.{UserEvent, EventRequest, enqueue_user_event}
use dot_backend.Jobs.Schedules.{ScheduledTask, claim_task, complete_task, retry_task}
use dot_backend.Jobs.Schedules.Recurring.{Zone, recurrence_text}

-- The two tables that a dispatch writes.
pub record Store : Type 0 where
  pub tasks : List ScheduledTask
  pub events : List UserEvent

-- What the worker is given: how Python prints ids and times and reads an id, the time zones, and
-- the actions of other components, which change the tables as they like and return the error that
-- they raise, if any.
pub record Worker : Type 0 where
  pub print_id : ℕ → String
  pub isoformat : ℕ → String
  pub parse_id : String → Option ℕ
  pub bad_id : String
  pub zones : String → Zone
  pub sync_financial_connection : ℕ → Bool → Option String → Store → Option String × Store
  pub execute_account_deletion : ℕ → Store → Option String × Store

module _ (w : Worker) where
  -- `f"schedule.triggered:{task.id}:{scheduled_for.isoformat()}"`
  abbrev pub trigger_key : ScheduledTask → String
  trigger_key t =
      join_text "schedule.triggered:"
        (join_text (w.print_id t.id) (join_text ":" (w.isoformat t.scheduled_for)))

  abbrev trigger_payload : ScheduledTask → Fields
  trigger_payload t = field "schedule_id" (text (w.print_id t.id)) (
      field "title" (text t.title) (
        field "goal" (get "goal" t.payload) (
          field "schedule_source" (text t.source) (
            field "tool_policy" (get "tool_policy" t.payload) (
              field "generated_app_id" (get "generated_app_id" t.payload) (
                field "generated_app_title" (get "generated_app_title" t.payload) (
                  field "scheduled_for" (text (w.isoformat t.scheduled_for)) (
                    field "timezone" (text t.timezone) (
                      field "recurrence" (text (recurrence_text t.recurrence))
                        (field "run_count" (int (pos (t.run_count + 1))) end))))))))))

  abbrev pub trigger_request : ScheduledTask → EventRequest
  trigger_request t = record {
    user_id = t.user_id;
    conversation_id = t.conversation_id;
    event_type = "schedule.triggered";
    source = t.source;
    idempotency_key = trigger_key t;
    payload = trigger_payload t;
    delivery_provider = t.delivery_provider;
  }

  -- `_dispatch_agent_reachout`; `id` is the key of the new event.
  unfoldable pub dispatch_agent_reachout : ScheduledTask → ℕ → ℕ → List UserEvent → List UserEvent
  dispatch_agent_reachout t id now events = (enqueue_user_event (trigger_request t) id now events).1

  abbrev run_sync : ScheduledTask → Option String → Store → Option String × Store
  run_sync t none s = (some "financial sync task is missing connection_id", s)
  run_sync t (some raw) s = elim (w.parse_id raw) [
    | none ↦ (some w.bad_id, s)
    | some connection ↦
        w.sync_financial_connection connection (truthy (get "notify_on_complete" t.payload))
          t.delivery_provider s
  ]

  -- The action of a task: the error that it raises, if any, and the tables.
  unfoldable pub run_action : ScheduledTask → ℕ → ℕ → Store → Option String × Store
  run_action t id now s =
      if str_eq t.action_type "agent.reachout"
      then (none, record s { events = dispatch_agent_reachout t id now s.events })
      else (if str_eq t.action_type "finance.sync"
          then run_sync t (as_text (get "connection_id" t.payload)) s
          else (if str_eq t.action_type "account.delete"
              then w.execute_account_deletion t.user_id s
              else (some (join_text "No scheduled action handler for " t.action_type), s)))

  abbrev settle : ℕ → ℕ → Option String → List ScheduledTask → List ScheduledTask
  settle k now none tasks = complete_task w.zones k now tasks
  settle k now (some error) tasks = retry_task k error now tasks

  abbrev work_on :
      ℕ → ℕ → ℕ → List UserEvent → Option ScheduledTask × List ScheduledTask → Bool × Store
  work_on id acted settled events (none, tasks) = (false, record { tasks = tasks; events = events })
  work_on id acted settled events (some t, tasks) =
      let (error, s) = run_action t id acted (record { tasks = tasks; events = events }) in
      (true, record s { tasks = settle t.id settled error s.tasks })

  -- `dispatch_due_scheduled_task`, with the times at which it claims, acts and settles, and the
  -- key of the event that it may add.
  unfoldable pub dispatch_due_scheduled_task :
      (ℕ → Bool) → ℕ → Option ℕ → ℕ → ℕ → ℕ → ℕ → Store → Bool × Store
  unfolding run_action
  dispatch_due_scheduled_task busy max_attempts only claimed acted settled id s =
      work_on id acted settled s.events (claim_task busy max_attempts only claimed s.tasks)
