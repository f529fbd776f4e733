-- ===== src/Jobs/Tests/TaskTests.antt =====
-- A daily task and a reach-out, and the calls of `services/schedules.py` on them.
use dot_backend.Prelude.{
  ℕ, ◌*◌, ◌≡◌, ◌≢◌, refl, String, Bool, true, false, none, some, List, [], ◌∷◌, All, here, arith,
  first_by, find?,
}
use dot_backend.Prelude.Text.{strip, take_text}
use dot_backend.Prelude.Json.{end}
use dot_backend.Jobs.Queue.{claim}
use dot_backend.Jobs.Events.Retries.{unlocked}
use dot_backend.Jobs.Schedules.{
  ScheduledTask, active, processing, TaskRequest, created, create_scheduled_task, claim_task,
  cancel_scheduled_task, task_id,
}
use dot_backend.Jobs.Schedules.Recurring.{
  once, daily, Zone, parse_recurrence, next_wall, day, IsNext, next_wall-IsNext,
}
use dot_backend.Jobs.Schedules.Cancelling.{
  Call, claims, completes, retries, run, Cancelled, cancel_scheduled_task-final,
}
use dot_backend.Jobs.Schedules.Dispatch.{Worker, Store, dispatch_due_scheduled_task}
use dot_backend.Jobs.Schedules.Dispatch.Once.{IsTold, IsRun, dispatch-settles, dispatch-reachout}

abbrev utc : String → Zone
utc _ = record { to_wall = λ t. record { reading = t; fold = false }; to_utc = λ w. w.reading }

abbrev reachout : ScheduledTask
reachout = record {
  id = 1;
  user_id = 7;
  conversation_id = some 3;
  action_type = "agent.reachout";
  source = "agent";
  idempotency_key = "schedule:1";
  title = "stand-up";
  payload = end;
  delivery_provider = some "linq";
  timezone = "UTC";
  recurrence = daily;
  scheduled_for = 500;
  next_attempt_at = 500;
  status = active;
  attempts = 0;
  run_count = 0;
  locked_at = none;
  last_run_at = none;
  completed_at = none;
  cancelled_at = none;
  error = none;
  created_at = 100;
}

abbrev at_work : ScheduledTask
at_work = record reachout { status = processing; attempts = 1; locked_at = some 1000 }

-- The worker that has claimed the task completes it after it was cancelled, another one fails.
abbrev late_calls : List (ℕ × Call)
late_calls = (3000, completes 1) ∷ (3100, retries 1 "timeout") ∷ (3200, claims unlocked none) ∷ []

cancel_scheduled_task-final_example :
    let after = run utc 5 late_calls (cancel_scheduled_task 7 1 2000 (at_work ∷ [])).1 in
    All (Cancelled 1) after
    × ((r : ScheduledTask) → (claim_task unlocked 5 none 4000 after).0 ≡ some r → r.id ≢ 1)
cancel_scheduled_task-final_example =
    cancel_scheduled_task-final utc 5 unlocked none 2000 4000 (at_work ∷ []) late_calls at_work
      (tt, tt) (here refl) (λ e. ground arith)

next_wall-IsNext_example : IsNext day 500 (3 * day) (next_wall daily 500 (3 * day))
next_wall-IsNext_example = next_wall-IsNext daily 500 (3 * day)

abbrev request : TaskRequest
request = record {
  user_id = 7;
  conversation_id = some 3;
  action_type = "agent.reachout";
  source = "agent";
  idempotency_key = "schedule:2";
  title = " water the plants ";
  payload = end;
  run_at = 5000;
  timezone = "UTC";
  recurrence = "once";
  delivery_provider = none;
}

abbrev any_zone : String → Bool
any_zone _ = true

abbrev watering : ScheduledTask
watering = record reachout {
  id = 2;
  idempotency_key = "schedule:2";
  title = "water the plants";
  delivery_provider = none;
  recurrence = once;
  scheduled_for = 5000;
  next_attempt_at = 5000;
  created_at = 1000;
}

watering_created :
    create_scheduled_task any_zone request 2 1000 (reachout ∷ [])
    ≡ created watering (reachout ∷ watering ∷ [])
unfolding create_scheduled_task parse_recurrence strip take_text
watering_created = refl

abbrev worker : Worker
worker = record {
  print_id = λ k. "00000000-0000-0000-0000-000000000001";
  isoformat = λ t. "2026-01-01T09:00:00+00:00";
  parse_id = λ s. none;
  bad_id = "badly formed hexadecimal UUID string";
  zones = utc;
  sync_financial_connection = λ connection notify provider s. (none, s);
  execute_account_deletion = λ user s. (none, s);
}

abbrev store : Store
store = record { tasks = reachout ∷ []; events = [] }

reachout_claimed : (claim_task unlocked 5 none 1000 (reachout ∷ [])).0 ≡ some at_work
unfolding claim_task claim first_by
reachout_claimed = refl

dispatch-settles_example :
    All
      (λ (x : ScheduledTask). x.id ≡ 1 → x.status ≢ processing)
      (dispatch_due_scheduled_task worker unlocked 5 none 1000 1100 1200 9 store).1.tasks
dispatch-settles_example =
    dispatch-settles worker unlocked 5 none 1000 1100 1200 9 store at_work reachout_claimed

dispatch-reachout_example :
    let (done, after) = dispatch_due_scheduled_task worker unlocked 5 none 1000 1100 1200 9 store in
    (done ≡ true)
    × IsTold worker at_work 1100 [] after.events
    × ((x : ScheduledTask) × (find? (task_id 1) after.tasks ≡ some x) × IsRun worker at_work 1200 x)
dispatch-reachout_example =
    dispatch-reachout worker unlocked 5 none 1000 1100 1200 9 store at_work (tt, tt)
      reachout_claimed refl
