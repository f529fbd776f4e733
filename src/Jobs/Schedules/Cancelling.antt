-- ===== src/Jobs/Schedules/Cancelling.antt =====
-- Cancelling in src/benji_api/services/schedules.py is final: workers that are still at work on a
-- cancelled task do not bring it back.
use dot_backend.Prelude.{
  ℕ, ◌≡◌, ◌≢◌, refl, ap, ◌∙◌, find?-unique, String, Bool, ◌&&◌, Option, none, some, List, [], ◌∷◌,
  All, All-weaken, All-update, All-update_any, Has, Keyed, Keyed-unique, arith, ◌==◌, find?,
  Bool-cases, inl, inr, update,
}
use dot_backend.Jobs.Clock.{minutes}
use dot_backend.Jobs.Queue.{IsLeased}
use dot_backend.Jobs.Queue.Claims.{Refused, claim-Refused_ne, claim_cases, choice-Refused}
use dot_backend.Jobs.Schedules.{
  ScheduledTask, ScheduledTaskStatus, cancelled, completed, task_id, task_queue, claim_task,
  cancel_scheduled_task, complete_task, retry_task, start_task, unless_cancelled, finish_run,
  fail_task, cancel_found, cancel_row,
}
use dot_backend.Jobs.Schedules.Recurring.{Zone}

-- The tasks keep the queue's promise: a claim keeps the key of the task and counts one attempt, and
-- a task that was just claimed is not eligible again for five minutes.
pub task_queue-IsLeased : IsLeased task_queue (minutes 5)
task_queue-IsLeased = record {
  id-mark = λ now t. refl;
  attempts-mark = λ now t. refl;
  held = λ now t x h. ground arith;
}

-- The calls by which users and workers change the tasks that exist.
pub data Call : Type 0 where
  cancels : ℕ → ℕ → Call
  claims : (ℕ → Bool) → Option ℕ → Call
  completes : ℕ → Call
  retries : ℕ → String → Call

module _ (zones : String → Zone) (limit : ℕ) where
  unfoldable pub step : ℕ × Call → List ScheduledTask → List ScheduledTask
  step (now, cancels user k) rows = (cancel_scheduled_task user k now rows).1
  step (now, claims busy only) rows = (claim_task busy limit only now rows).1
  step (now, completes k) rows = complete_task zones k now rows
  step (now, retries k error) rows = retry_task k error now rows

  unfoldable pub run : List (ℕ × Call) → List ScheduledTask → List ScheduledTask
  unfolding step
  run [] rows = rows
  run (c ∷ cs) rows = run cs (step c rows)

-- The task with the id `k` is cancelled.
abbrev pub Cancelled : ℕ → ScheduledTask → Type 0
Cancelled k t = t.id ≡ k → t.status ≡ cancelled

Cancelled-Refused :
    (limit k : ℕ) (rows : List ScheduledTask)
    → All (Cancelled k) rows
    → Refused task_queue limit k rows
Cancelled-Refused limit k rows h =
    All-weaken (Cancelled k) _ rows (λ x c same t. let s = c same in ground arith) h

cancel-cases {ℓ} :
    (P : List ScheduledTask → Type ℓ) (user k now : ℕ) (rows : List ScheduledTask)
    → P rows
    → P (
        update
          (task_id k)
          (λ t. record t { status = cancelled; cancelled_at = some now; locked_at = none })
          rows)
    → P (cancel_scheduled_task user k now rows).1
unfolding cancel_scheduled_task
cancel-cases P user k now rows same changed =
    branch (find? (λ t. t.id == k && t.user_id == user) rows)
  where
    branch : (o : Option ScheduledTask) → P (cancel_found k now rows o).1
    branch none = same
    branch (some t) = by_status t.status
      where
        by_status :
            (s : ScheduledTaskStatus)
            → P (cancel_found k now rows (some (record t { status = s }))).1
        by_status ScheduledTaskStatus.completed = same
        by_status ScheduledTaskStatus.cancelled = same
        by_status _ = changed

module _ (zones : String → Zone) (limit k : ℕ) where
  step-Cancelled :
      (c : ℕ × Call) (rows : List ScheduledTask)
      → All (Cancelled k) rows
      → All (Cancelled k) (step zones limit c rows)
  unfolding step claim_task complete_task retry_task
  step-Cancelled (now, cancels user j) rows h =
      cancel-cases (All (Cancelled k)) user j now rows h
        (All-update (Cancelled k) (task_id j) _ rows (λ x _ _ _. refl) h)
  step-Cancelled (now, claims busy only) rows h =
      claim_cases task_queue (λ c. All (Cancelled k) c.1) busy limit only now rows (λ _. h)
        λ r chosen.
          let ne =
            choice-Refused task_queue busy limit only now k rows r
              (Cancelled-Refused limit k rows h) chosen in
          All-update (Cancelled k) (λ x. x.id == r.id) (start_task now) rows
            (λ x e _ same. absurd (ne (ground arith))) h
  step-Cancelled (now, completes j) rows h =
      All-update (Cancelled k) (task_id j) (unless_cancelled (finish_run zones now)) rows
        (λ x _ c. ground arith) h
  step-Cancelled (now, retries j error) rows h =
      All-update (Cancelled k) (task_id j) (unless_cancelled (fail_task error now)) rows
        (λ x _ c. ground arith) h

  run-Cancelled :
      (cs : List (ℕ × Call)) (rows : List ScheduledTask)
      → All (Cancelled k) rows
      → All (Cancelled k) (run zones limit cs rows)
  unfolding run
  run-Cancelled [] rows h = h
  run-Cancelled (c ∷ cs) rows h =
      run-Cancelled cs (step zones limit c rows) (step-Cancelled c rows h)

cancel-Cancelled :
    (now : ℕ) (rows : List ScheduledTask) (task : ScheduledTask)
    → Keyed (λ (x : ScheduledTask). x.id) rows
    → Has task rows
    → task.status ≢ completed
    → All (Cancelled task.id) (cancel_scheduled_task task.user_id task.id now rows).1
unfolding cancel_scheduled_task
cancel-Cancelled now rows task keyed found going =
    rw
      (
        find?-unique (λ x. x.id) (λ x. x.id == task.id && x.user_id == task.user_id) rows task keyed
            found (ground arith) (λ x e. ground arith),
        cancel_found,
      )
      (by_status (task.status) refl)
  where
    by_status :
        (s : ScheduledTaskStatus)
        → task.status ≡ s
        → All
            (Cancelled task.id)
            (cancel_found task.id now rows (some (record task { status = s }))).1
    by_status ScheduledTaskStatus.completed e = absurd (going e)
    by_status ScheduledTaskStatus.cancelled e =
        All-weaken (λ x. x.id ≡ task.id → x ≡ task) (Cancelled task.id) rows
          (λ x same i. ap (λ y. y.status) (same i) ∙ e)
          (Keyed-unique (λ x. x.id) rows task keyed found)
    by_status _ e = All-update_any (Cancelled task.id) (task_id task.id) (cancel_row now) rows λ x.
        elim (Bool-cases (x.id == task.id)) [
          | inl e' ↦ rw e' (λ _. refl)
          | inr e' ↦ rw e' (λ i. absurd (ground arith))
        ]

-- Where row ids are distinct: once its owner has cancelled a task that was not completed, it stays
-- cancelled, and no claim
-- hands it out, whatever cancellations, claims, completions and retries follow: those of a worker
-- that had claimed the task before it was cancelled included.
pub cancel_scheduled_task-final :
    (zones : String → Zone) (limit : ℕ) (busy : ℕ → Bool) (only : Option ℕ) (now t : ℕ)
    (rows : List ScheduledTask) (cs : List (ℕ × Call)) (task : ScheduledTask)
    → Keyed (λ (x : ScheduledTask). x.id) rows
    → Has task rows
    → task.status ≢ completed
    → let after = run zones limit cs (cancel_scheduled_task task.user_id task.id now rows).1 in
      All (Cancelled task.id) after
      × ((r : ScheduledTask) → (claim_task busy limit only t after).0 ≡ some r → r.id ≢ task.id)
unfolding claim_task
cancel_scheduled_task-final zones limit busy only now t rows cs task keyed found going =
    let h =
      run-Cancelled zones limit task.id cs _ (cancel-Cancelled now rows task keyed found going) in
    (
      h,
      λ r.
          claim-Refused_ne task_queue task_queue-IsLeased busy limit only t task.id _ r
            (Cancelled-Refused limit task.id _ h),
    )
