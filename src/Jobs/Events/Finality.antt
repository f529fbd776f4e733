-- ===== src/Jobs/Events/Finality.antt =====
-- When the work on an event is over in `services/user_events.py`: events that were processed or
-- skipped, and events whose attempts are used up, are not handed out again.
use dot_backend.Prelude.{
  ℕ, ◌≤◌, ◌≡◌, ◌≢◌, ◌⊎◌, inl, inr, String, Bool, true, false, ◌&&◌, Option, some, List, [], ◌∷◌,
  All, All-weaken, All-append, All-update, All-update_any, Has, Keyed, find?, find?-key,
  All-update_found, arith, ltb, ◌==◌, Option-cases, Bool-cases,
}
use dot_backend.Jobs.Queue.Claims.{Refused, claim-Refused, claim-Refused_ne, claim_cases}
use dot_backend.Jobs.Events.{
  UserEvent, UserEventStatus, processed, skipped, EventRequest, has_id, has_key, event_queue,
  enqueue_user_event, claim_event, finish_event, retry_event, fail_event, new_event,
  start_processing, eligible,
}
use dot_backend.Jobs.Events.History.{Call, enqueues, claims, finishes, retries, step, run}
use dot_backend.Jobs.Events.Leases.{event_queue-IsLeased}

-- The status says that the work is done.
abbrev pub IsFinal : UserEventStatus → Type 0
IsFinal status = (status ≡ processed) ⊎ (status ≡ skipped)

-- The call does not open the event `k` again.
abbrev pub Leaves : ℕ → Call → Type 0
Leaves k (enqueues q id) = id ≢ k
Leaves k (claims busy only) = Unit
Leaves k (finishes j status error) = (j ≢ k) ⊎ IsFinal status
Leaves k (retries j error) = j ≢ k

-- The call reuses no row id.
abbrev pub Keeps : ℕ → Call → Type 0
Keeps k (enqueues q id) = id ≢ k
Keeps k (claims busy only) = Unit
Keeps k (finishes j status error) = Unit
Keeps k (retries j error) = Unit

abbrev Closed : ℕ → ℕ → UserEvent → Type 0
Closed limit k x = x.id ≡ k → (t : ℕ) → eligible t x && ltb x.attempts limit ≡ false

enqueue-All {ℓ} :
    (P : UserEvent → Type ℓ) (q : EventRequest) (id now : ℕ) (rows : List UserEvent)
    → P (new_event q id now)
    → All P rows
    → All P (enqueue_user_event q id now rows).1
unfolding enqueue_user_event
enqueue-All P q id now rows hn h = elim (Option-cases (find? (has_key q.idempotency_key) rows)) [
  | inl e ↦ rw e (All-append P rows (new_event q id now ∷ []) h ((hn, tt)))
  | inr (x, e) ↦ rw e h
]

finish-Closed :
    (limit k : ℕ) (status : UserEventStatus) (error : Option String) (now : ℕ)
    (rows : List UserEvent)
    → IsFinal status
    → Refused event_queue limit k (finish_event k status error now rows)
unfolding finish_event
finish-Closed limit k status error now rows done =
    All-update_any (Closed limit k) (has_id k) _ rows λ x. elim (Bool-cases (x.id == k)) [
      | inl e ↦ rw e (λ same t. ground arith)
      | inr e ↦ rw e (λ same t. absurd (ground arith))
    ]

step-Refused :
    (limit k : ℕ) (c : ℕ × Call) (rows : List UserEvent)
    → Leaves k c.1
    → Refused event_queue limit k rows
    → Refused event_queue limit k (step limit c rows)
unfolding step claim_event finish_event retry_event
step-Refused limit k (now, enqueues q id) rows leaves h =
    enqueue-All (Closed limit k) q id now rows (λ same. absurd (leaves same)) h
step-Refused limit k (now, claims busy only) rows leaves h =
    claim-Refused event_queue event_queue-IsLeased busy limit only now k rows h
step-Refused limit k (now, finishes j status error) rows (inl other) h =
    All-update (Closed limit k) (has_id j) _ rows (λ x e _ same. absurd (other (ground arith))) h
step-Refused limit k (now, finishes j status error) rows (inr done) h =
    All-update (Closed limit k) (has_id j) _ rows (λ x e _ same t. ground arith) h
step-Refused limit k (now, retries j error) rows leaves h =
    All-update (Closed limit k) (has_id j) _ rows (λ x e _ same. absurd (leaves (ground arith))) h

run-Refused :
    (limit k : ℕ) (cs : List (ℕ × Call)) (rows : List UserEvent)
    → All (λ c. Leaves k c.1) cs
    → Refused event_queue limit k rows
    → Refused event_queue limit k (run limit cs rows)
unfolding run
run-Refused limit k [] rows ok h = h
run-Refused limit k (c ∷ cs) rows ok h =
    run-Refused limit k cs (step limit c rows) ok.1 (step-Refused limit k c rows ok.0 h)

-- Once an event is marked processed or skipped, no claim hands it out again, whatever calls follow,
-- as long as `_retry_event` is not called for that event, it is not finished with another status,
-- and no later event is given its id.
pub finish_event-final :
    (limit : ℕ) (busy : ℕ → Bool) (only : Option ℕ) (k now t : ℕ) (status : UserEventStatus)
    (error : Option String) (rows : List UserEvent) (cs : List (ℕ × Call)) (e : UserEvent)
    → IsFinal status
    → All (λ c. Leaves k c.1) cs
    → (claim_event busy limit only t (run limit cs (finish_event k status error now rows))).0
      ≡ some e
    → e.id ≢ k
unfolding claim_event
finish_event-final limit busy only k now t status error rows cs e done leaves =
    claim-Refused_ne event_queue event_queue-IsLeased busy limit only t k _ e
      (run-Refused limit k cs _ leaves (finish-Closed limit k status error now rows done))

-- The attempts of the event `k` are used up.
abbrev Spent : ℕ → ℕ → UserEvent → Type 0
Spent limit k x = x.id ≡ k → limit ≤ x.attempts

step-Spent :
    (limit k : ℕ) (c : ℕ × Call) (rows : List UserEvent)
    → Keeps k c.1
    → All (Spent limit k) rows
    → All (Spent limit k) (step limit c rows)
unfolding step claim_event finish_event retry_event
step-Spent limit k (now, enqueues q id) rows keeps h =
    enqueue-All (Spent limit k) q id now rows (λ same. absurd (keeps same)) h
step-Spent limit k (now, claims busy only) rows keeps h =
    claim_cases event_queue (λ c. All (Spent limit k) c.1) busy limit only now rows (λ _. h)
      λ r _.
        All-update (Spent limit k) _ (start_processing now) rows
          (λ x _ hx same. let old = hx same in omega arith) h
step-Spent limit k (now, finishes j status error) rows keeps h =
    All-update (Spent limit k) (has_id j) _ rows (λ x _ hx. hx) h
step-Spent limit k (now, retries j error) rows keeps h =
    All-update (Spent limit k) (has_id j) _ rows (λ x _ hx. hx) h

run-Spent :
    (limit k : ℕ) (cs : List (ℕ × Call)) (rows : List UserEvent)
    → All (λ c. Keeps k c.1) cs
    → All (Spent limit k) rows
    → All (Spent limit k) (run limit cs rows)
unfolding run
run-Spent limit k [] rows ok h = h
run-Spent limit k (c ∷ cs) rows ok h =
    run-Spent limit k cs (step limit c rows) ok.1 (step-Spent limit k c rows ok.0 h)

retry-Spent :
    (limit now : ℕ) (error : String) (rows : List UserEvent) (e : UserEvent)
    → Keyed (λ (x : UserEvent). x.id) rows
    → Has e rows
    → (retry_event e.id error limit now rows).0 ≡ true
    → All (Spent limit e.id) (retry_event e.id error limit now rows).1
unfolding retry_event
retry-Spent limit now error rows e keyed found ex =
    let same = find?-key (λ x. x.id) rows e keyed found in
    All-update_found (λ x. x.id) (Spent limit e.id) (fail_event error now) rows e keyed found
      (λ _. ground arith) (λ x ne eq. absurd (ne eq))

-- Where row ids are distinct and no later event is given the id anew: when `_retry_event` reports
-- that the attempts of an event are used up, no claim hands the event out again, whatever calls
-- follow, finishing and retrying it included.
pub retry_event-exhausted :
    (limit : ℕ) (busy : ℕ → Bool) (only : Option ℕ) (now t : ℕ) (error : String)
    (rows : List UserEvent) (cs : List (ℕ × Call)) (e e' : UserEvent)
    → Keyed (λ (x : UserEvent). x.id) rows
    → Has e rows
    → (retry_event e.id error limit now rows).0 ≡ true
    → All (λ c. Keeps e.id c.1) cs
    → (claim_event busy limit only t (run limit cs (retry_event e.id error limit now rows).1)).0
      ≡ some e'
    → e'.id ≢ e.id
unfolding claim_event
retry_event-exhausted limit busy only now t error rows cs e e' keyed found ex keeps =
    claim-Refused_ne event_queue event_queue-IsLeased busy limit only t e.id _ e' (
      All-weaken (Spent limit e.id) (Closed limit e.id) _
        (λ x h same u. let spent = h same in ground arith)
        (run-Spent limit e.id cs _ keeps (retry-Spent limit now error rows e keyed found ex)))
