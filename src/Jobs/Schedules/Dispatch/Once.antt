-- ===== src/Jobs/Schedules/Dispatch/Once.antt =====
-- What the dispatch of a scheduled task leaves in the tables (src/benji_api/services/schedules.py with user_events.py).
use dot_backend.Prelude.{
  ℕ, suc, ◌≡◌, ◌≢◌, ◌⊎◌, refl, ap, sym, ◌∙◌, subst, update, All-update_any, ◌==◌, String, Bool,
  true, Option, none, some, List, [], ◌∷◌, ◌++◌, All, arith, find?, find?-update_found, Keyed,
  eq_iff, join_text, Bool-cases, Option-cases, inl, inr,
}
use dot_backend.Prelude.Json.{get, text}
use dot_backend.Jobs.Queue.Claims.{claim-first, claim-find?}
use dot_backend.Jobs.Events.{UserEvent, pending, has_key, new_event, enqueue_user_event}
use dot_backend.Jobs.Events.Outbox.{enqueue-enqueue}
use dot_backend.Jobs.Schedules.{
  ScheduledTask, active, processing, completed, task_id, task_queue, unless_cancelled, finish_run,
  fail_task, claim_task, complete_task, retry_task,
}
use dot_backend.Jobs.Schedules.Recurring.{Recurrence, once, daily, weekly, next_recurring_run}
use dot_backend.Jobs.Schedules.Cancelling.{task_queue-IsLeased}
use dot_backend.Jobs.Schedules.Dispatch.{
  Worker, Store, trigger_key, trigger_request, dispatch_agent_reachout, run_action,
  dispatch_due_scheduled_task, work_on, settle,
}

module _ (w : Worker) where
  -- The event of an occurrence is added at most once: a worker that dies between the enqueueing and
  -- the completion of the task leaves an occurrence that is dispatched again, and the second
  -- dispatch leaves the outbox as it is.
  pub dispatch_agent_reachout-twice :
      (t again : ScheduledTask) (id id' now later : ℕ) (events : List UserEvent)
      → again.id ≡ t.id
      → again.scheduled_for ≡ t.scheduled_for
      → dispatch_agent_reachout w again id' later (dispatch_agent_reachout w t id now events)
        ≡ dispatch_agent_reachout w t id now events
  unfolding dispatch_agent_reachout
  dispatch_agent_reachout-twice t again id id' now later events same_task same_time =
      ap (λ (p : UserEvent × List UserEvent). p.1)
        (enqueue-enqueue (trigger_request w t) (trigger_request w again) id id' now later events
          (rw (same_task, same_time)))

  finish_run-done :
      (now : ℕ) (x : ScheduledTask)
      → (unless_cancelled (finish_run w.zones now) x).status ≢ processing
  finish_run-done now x = ground arith

  fail_task-done :
      (now : ℕ) (error : String) (x : ScheduledTask)
      → (unless_cancelled (fail_task error now) x).status ≢ processing
  fail_task-done now error x = ground arith

  update-done :
      (f : ScheduledTask → ScheduledTask) (k : ℕ) (tasks : List ScheduledTask)
      → ((x : ScheduledTask) → (f x).status ≢ processing)
      → All (λ (x : ScheduledTask). x.id ≡ k → x.status ≢ processing) (update (task_id k) f tasks)
  update-done f k tasks done =
      All-update_any (λ x. x.id ≡ k → x.status ≢ processing) (task_id k) f tasks
        λ x. elim (Bool-cases (x.id == k)) [
          | inl e ↦ rw e (λ _. done x)
          | inr e ↦ rw e (λ i. absurd (ground arith))
        ]

  settle-done :
      (k now : ℕ) (error : Option String) (tasks : List ScheduledTask)
      → All (λ (x : ScheduledTask). x.id ≡ k → x.status ≢ processing) (settle w k now error tasks)
  unfolding complete_task retry_task
  settle-done k now none tasks =
      update-done (unless_cancelled (finish_run w.zones now)) k tasks (finish_run-done now)
  settle-done k now (some error) tasks =
      update-done (unless_cancelled (fail_task error now)) k tasks (fail_task-done now error)

  work_on-cases {ℓ} :
      (P : Bool × Store → Type ℓ) (id acted settled : ℕ) (events : List UserEvent)
      (t : ScheduledTask) (c : Option ScheduledTask × List ScheduledTask)
      → c.0 ≡ some t
      → P (work_on w id acted settled events (some t, c.1))
      → P (work_on w id acted settled events c)
  work_on-cases P id acted settled events t (none, tasks) e h = absurd (cc)
  work_on-cases P id acted settled events t (some t', tasks) e h =
      subst (λ o. P (work_on w id acted settled events (o, tasks))) (sym e) h

  run_action-reachout :
      (t : ScheduledTask) (id now : ℕ) (s : Store)
      → t.action_type ≡ "agent.reachout"
      → run_action w t id now s
        ≡ (none, record s { events = dispatch_agent_reachout w t id now s.events })
  unfolding run_action
  run_action-reachout t id now s e = ground (arith, eq_iff t.action_type "agent.reachout")

  work_on-reachout :
      (id acted settled : ℕ) (events : List UserEvent) (t : ScheduledTask)
      (tasks : List ScheduledTask)
      → t.action_type ≡ "agent.reachout"
      → work_on w id acted settled events (some t, tasks) ≡ (
        true,
        record {
          tasks = complete_task w.zones t.id settled tasks;
          events = dispatch_agent_reachout w t id acted events;
        },
      )
  work_on-reachout id acted settled events t tasks action =
      ap
        (λ (r : Option String × Store).
          (true, record { tasks = settle w t.id settled r.0 r.1.tasks; events = r.1.events }))
        (run_action-reachout t id acted (record { tasks = tasks; events = events }) action)

  -- Whatever its action does, a task that was claimed is not left in processing: when the dispatch
  -- returns, it is completed, armed again, failed with a later attempt, or cancelled.
  pub dispatch-settles :
      (busy : ℕ → Bool) (limit : ℕ) (only : Option ℕ) (claimed acted settled id : ℕ) (s : Store)
      (t : ScheduledTask)
      → (claim_task busy limit only claimed s.tasks).0 ≡ some t
      → All
          (λ (x : ScheduledTask). x.id ≡ t.id → x.status ≢ processing)
          (dispatch_due_scheduled_task w busy limit only claimed acted settled id s).1.tasks
  unfolding dispatch_due_scheduled_task
  dispatch-settles busy limit only claimed acted settled id s t found =
      work_on-cases
        (λ r. All (λ (x : ScheduledTask). x.id ≡ t.id → x.status ≢ processing) r.1.tasks) id acted
        settled s.events t (claim_task busy limit only claimed s.tasks) found
        (settle-done t.id settled _ _)

  -- The key of an occurrence: the id of its task, and the time for which it is scheduled.
  abbrev occurrence_key : ScheduledTask → String
  occurrence_key t =
      join_text "schedule.triggered:"
        (join_text (w.print_id t.id) (join_text ":" (w.isoformat t.scheduled_for)))

  -- The outbox holds the event of the occurrence: one that was there already, and then nothing is
  -- changed, or a new one that is due at once, for the task's user and conversation.
  pub data IsTold (t : ScheduledTask) (now : ℕ) (events after : List UserEvent) : Type 0 where
    again :
        (e : UserEvent)
        → find? (has_key (occurrence_key t)) events ≡ some e
        → after ≡ events
        → IsTold t now events after
    anew :
        (e : UserEvent)
        → find? (has_key (occurrence_key t)) events ≡ none
        → after ≡ events ++ e ∷ []
        → e.idempotency_key ≡ occurrence_key t
        → e.user_id ≡ t.user_id
        → e.conversation_id ≡ t.conversation_id
        → e.event_type ≡ "schedule.triggered"
        → e.delivery_provider ≡ t.delivery_provider
        → e.status ≡ pending
        → e.next_attempt_at ≡ now
        → get "schedule_id" e.payload ≡ text (w.print_id t.id)
        → get "goal" e.payload ≡ get "goal" t.payload
        → IsTold t now events after

  dispatch_agent_reachout-IsTold :
      (t : ScheduledTask) (id now : ℕ) (events : List UserEvent)
      → IsTold t now events (dispatch_agent_reachout w t id now events)
  unfolding dispatch_agent_reachout enqueue_user_event get
  dispatch_agent_reachout-IsTold t id now events =
      elim (Option-cases (find? (has_key (trigger_key w t)) events)) [
        | inl e ↦
            rw (e, dispatch_agent_reachout, enqueue_user_event)
              (anew (new_event (trigger_request w t) id now) e refl refl refl refl refl refl refl
                refl refl refl)
        | inr (x, e) ↦ rw (e, dispatch_agent_reachout, enqueue_user_event) (again x e refl)
      ]

  -- The row `x` of a task `t` whose occurrence was run at `now`: its count goes up and its lease is
  -- gone; one that runs once is completed, any other is armed for its next run.
  pub record IsRun (t : ScheduledTask) (now : ℕ) (x : ScheduledTask) : Type 0 where
    pub run_count : x.run_count ≡ suc t.run_count
    pub attempts : x.attempts ≡ 0
    pub locked_at : x.locked_at ≡ none
    pub last_run_at : x.last_run_at ≡ some now
    pub outcome :
        ((t.recurrence ≡ once) × (x.status ≡ completed) × (x.completed_at ≡ some now))
        ⊎ ((t.recurrence ≢ once)
            × (x.status ≡ active)
            × (x.scheduled_for
                ≡ next_recurring_run (w.zones t.timezone) t.recurrence t.scheduled_for now)
            × (x.next_attempt_at ≡ x.scheduled_for))

  finish_run-IsRun :
      (r : Recurrence) (t : ScheduledTask) (now : ℕ)
      → IsRun
          (record t { recurrence = r })
          now
          (finish_run w.zones now (record t { recurrence = r }))
  finish_run-IsRun once t now = record {
    run_count = omega arith;
    attempts = refl;
    locked_at = refl;
    last_run_at = refl;
    outcome = inl (refl, refl, refl);
  }
  finish_run-IsRun daily t now = record {
    run_count = omega arith;
    attempts = refl;
    locked_at = refl;
    last_run_at = refl;
    outcome = inr ((λ e. cc), refl, refl, refl);
  }
  finish_run-IsRun weekly t now = record {
    run_count = omega arith;
    attempts = refl;
    locked_at = refl;
    last_run_at = refl;
    outcome = inr ((λ e. cc), refl, refl, refl);
  }

  -- A claimed task is in processing, so that its completion is not held up by its guard.
  complete_task-IsRun :
      (busy : ℕ → Bool) (limit : ℕ) (only : Option ℕ) (claimed settled : ℕ)
      (tasks : List ScheduledTask) (t : ScheduledTask)
      → Keyed (λ (x : ScheduledTask). x.id) tasks
      → (claim_task busy limit only claimed tasks).0 ≡ some t
      → (x : ScheduledTask) × (find?
            (task_id t.id)
            (complete_task w.zones t.id settled (claim_task busy limit only claimed tasks).1)
          ≡ some x)
        × IsRun t settled x
  unfolding claim_task complete_task
  complete_task-IsRun busy limit only claimed settled tasks t keyed found =
      let (r, m, marked, passes, first) =
        claim-first task_queue busy limit only claimed tasks t found in
      let at_work : t.status ≡ processing = ap (λ (x : ScheduledTask). x.status) marked in
      (
        finish_run w.zones settled t,
        find?-update_found (task_id t.id) (unless_cancelled (finish_run w.zones settled)) _ t
              (λ y. ground arith)
              (claim-find? task_queue task_queue-IsLeased busy limit only claimed tasks t keyed
                found)
            ∙ ap some (ground arith),
        finish_run-IsRun t.recurrence t settled,
      )

  -- Where the ids of tasks are distinct: a dispatch that claims a reach-out leaves the event of the
  -- occurrence in the outbox, a new one if there was none, for the task's user, and the task is
  -- completed, or armed for its next run if it recurs.
  pub dispatch-reachout :
      (busy : ℕ → Bool) (limit : ℕ) (only : Option ℕ) (claimed acted settled id : ℕ) (s : Store)
      (t : ScheduledTask)
      → Keyed (λ (x : ScheduledTask). x.id) s.tasks
      → (claim_task busy limit only claimed s.tasks).0 ≡ some t
      → t.action_type ≡ "agent.reachout"
      → let (done, after) =
          dispatch_due_scheduled_task w busy limit only claimed acted settled id s in
        (done ≡ true)
        × IsTold t acted s.events after.events
        × ((x : ScheduledTask) × (find? (task_id t.id) after.tasks ≡ some x) × IsRun t settled x)
  unfolding dispatch_due_scheduled_task
  dispatch-reachout busy limit only claimed acted settled id s t keyed found action =
      let P = λ (r : Bool × Store).
        (r.0 ≡ true)
        × IsTold t acted s.events r.1.events
        × ((x : ScheduledTask) × (find? (task_id t.id) r.1.tasks ≡ some x) × IsRun t settled x) in
      work_on-cases P id acted settled s.events t (claim_task busy limit only claimed s.tasks) found
        (subst P
          (sym (
            work_on-reachout id acted settled s.events t
              (claim_task busy limit only claimed s.tasks).1 action))
          (
            refl,
            dispatch_agent_reachout-IsTold t id acted s.events,
            complete_task-IsRun busy limit only claimed settled s.tasks t keyed found,
          ))
