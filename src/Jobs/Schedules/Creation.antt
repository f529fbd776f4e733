-- ===== src/Jobs/Schedules/Creation.antt =====
-- Validation in `create_scheduled_task` of src/benji_api/services/schedules.py.
use dot_backend.Prelude.{
  ◌∙◌, ℕ, ◌+◌, ◌≤◌, ◌≡◌, String, Bool, true, false, not, ◌&&◌, none, some, List, [], ◌∷◌, ◌++◌,
  arith, leb, find?, find?-append, eq_refl, is_some, is_blank, strip, text_len, str_take_le,
  Option-cases, inl, inr,
}
use dot_backend.Jobs.Clock.{seconds}
use dot_backend.Jobs.Schedules.{
  TaskRequest, ScheduledTask, Created, created, rejected, create_scheduled_task, task_key,
}
use dot_backend.Jobs.Schedules.Recurring.{parse_recurrence}

-- What a request must satisfy: it lies less than five seconds in the past, its zone is known, its
-- recurrence has a name, and its title is not blank.
abbrev pub acceptable : (String → Bool) → TaskRequest → ℕ → Bool
acceptable known_zone q now =
    not (leb (q.run_at + seconds 5) now)
    && known_zone q.timezone
    && is_some (parse_recurrence q.recurrence)
    && not (is_blank (strip q.title))

abbrev pub accepted : Created → Bool
accepted (created _ _) = true
accepted (rejected _) = false

-- A request under a new key is accepted exactly if it is acceptable.
pub create_scheduled_task-accepted :
    (known_zone : String → Bool) (q : TaskRequest) (id now : ℕ) (rows : List ScheduledTask)
    → find? (task_key q.idempotency_key) rows ≡ none
    → accepted (create_scheduled_task known_zone q id now rows) ≡ acceptable known_zone q now
unfolding create_scheduled_task
create_scheduled_task-accepted known_zone q id now rows new = rw (new, accepted) (ground arith)

-- A task that was just made under a key is what a query for the key finds.
find-new :
    (rows : List ScheduledTask) (t : ScheduledTask) (key : String)
    → t.idempotency_key ≡ key
    → find? (task_key key) rows ≡ none
    → find? (task_key key) (rows ++ t ∷ []) ≡ some t
find-new rows t key same none_before =
    find?-append (task_key key) rows (t ∷ []) none_before ∙ rw same (rw eq_refl)

-- A request under a new key that is accepted adds one task, last; its title has at most 160 code
-- points, and it is due at the time that was asked for.
pub create_scheduled_task-adds :
    (known_zone : String → Bool) (q : TaskRequest) (id now : ℕ) (rows rows' : List ScheduledTask)
    (t : ScheduledTask)
    → find? (task_key q.idempotency_key) rows ≡ none
    → create_scheduled_task known_zone q id now rows ≡ created t rows'
    → (rows' ≡ rows ++ t ∷ [])
      × (t.idempotency_key ≡ q.idempotency_key)
      × (t.next_attempt_at ≡ q.run_at)
      × (text_len t.title ≤ 160)
unfolding create_scheduled_task
create_scheduled_task-adds known_zone q id now rows rows' t new h =
    ground (arith, str_take_le 160 (strip q.title))

-- After a request has been accepted, a request with the same key, whatever it asks for and even
-- if it is no longer acceptable, gets the task of the first one and adds none.
pub create_scheduled_task-repeat :
    (known_zone : String → Bool) (q again : TaskRequest) (id id' now later : ℕ)
    (rows rows' : List ScheduledTask) (t : ScheduledTask)
    → again.idempotency_key ≡ q.idempotency_key
    → create_scheduled_task known_zone q id now rows ≡ created t rows'
    → create_scheduled_task known_zone again id' later rows' ≡ created t rows'
unfolding create_scheduled_task
create_scheduled_task-repeat known_zone q again id id' now later rows rows' t same h =
    elim (Option-cases (find? (task_key q.idempotency_key) rows)) [
      | inr (x, e) ↦ ground arith
      | inl e ↦
          let (adds, key, _, _) = create_scheduled_task-adds known_zone q id now rows rows' t e h in
          rw (adds, same, find-new rows t q.idempotency_key key e)
    ]
