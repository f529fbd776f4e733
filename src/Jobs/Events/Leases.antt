-- ===== src/Jobs/Events/Leases.antt =====
-- The lease of a claimed event: in any history of calls, no other worker gets it for two minutes.
use dot_backend.Prelude.{
  ℕ, ◌+◌, ◌<◌, ◌≡◌, ◌≢◌, refl, Bool, true, Option, some, List, [], ◌∷◌, All, All-append, All-update,
  find?, arith, Option-cases, inl, inr,
}
use dot_backend.Jobs.Clock.{minutes}
use dot_backend.Jobs.Queue.{IsLeased}
use dot_backend.Jobs.Queue.Claims.{Held, claim-Held, claim-ne, claim-keeps-Held}
use dot_backend.Jobs.Events.History.{Call, enqueues, claims, finishes, retries, step, run}
use dot_backend.Jobs.Events.{
  UserEvent, has_id, has_key, event_queue, enqueue_user_event, claim_event, finish_event,
  retry_event, eligible, new_event,
}

-- The outbox keeps the queue's promise: a claim keeps the key of the event and counts one attempt,
-- and an event that was just claimed is not eligible again for two minutes.
pub event_queue-IsLeased : IsLeased event_queue (minutes 2)
event_queue-IsLeased = record {
  id-mark = λ now e. refl;
  attempts-mark = λ now e. refl;
  held = λ now t e h. ground arith;
}

-- The call does not end the work on the event `k`.
abbrev pub Spares : ℕ → Call → Type 0
Spares k (enqueues q id) = id ≢ k
Spares k (claims busy only) = Unit
Spares k (finishes j status error) = j ≢ k
Spares k (retries j error) = j ≢ k

abbrev HeldEvent : ℕ → ℕ → UserEvent → Type 0
HeldEvent k until e = e.id ≡ k → (t : ℕ) → t < until → eligible t e ≡ true → ⊥

step-Held :
    (limit k until : ℕ) (c : ℕ × Call) (rows : List UserEvent)
    → c.0 < until
    → Spares k c.1
    → Held event_queue k until rows
    → Held event_queue k until (step limit c rows)
unfolding step enqueue_user_event claim_event finish_event retry_event
step-Held limit k until (now, enqueues q id) rows early spares held =
    elim (Option-cases (find? (has_key q.idempotency_key) rows)) [
      | inl e ↦
          rw (e, step)
            (All-append _ rows (new_event q id now ∷ []) held (λ same. absurd (spares same), tt))
      | inr (x, e) ↦ rw (e, step) held
    ]
step-Held limit k until (now, claims busy only) rows early spares held =
    claim-keeps-Held event_queue event_queue-IsLeased busy limit only now k until rows held early
step-Held limit k until (now, finishes j status error) rows early spares held =
    All-update _ (has_id j) _ rows (λ e found _ same. absurd (spares (ground arith))) held
step-Held limit k until (now, retries j error) rows early spares held =
    All-update _ (has_id j) _ rows (λ e found _ same. absurd (spares (ground arith))) held

run-Held :
    (limit k until : ℕ) (cs : List (ℕ × Call)) (rows : List UserEvent)
    → All (λ c. (c.0 < until) × Spares k c.1) cs
    → Held event_queue k until rows
    → Held event_queue k until (run limit cs rows)
unfolding run
run-Held limit k until [] rows ok held = held
run-Held limit k until (c ∷ cs) rows ok held =
    run-Held limit k until cs (step limit c rows) ok.1
      (step-Held limit k until c rows ok.0.0 ok.0.1 held)

-- Between a claim of an event and the end of its lease two minutes later, whatever other workers
-- enqueue, claim, finish or retry, no claim hands out the same event, as long as the work on this
-- event itself is neither finished nor retried, and no later event is given its id.
pub claim_event_exclusive :
    (limit : ℕ) (busy busy' : ℕ → Bool) (only only' : Option ℕ) (now t : ℕ) (rows : List UserEvent)
    (cs : List (ℕ × Call)) (e e' : UserEvent)
    → (claim_event busy limit only now rows).0 ≡ some e
    → All (λ c. (c.0 < now + minutes 2) × Spares e.id c.1) cs
    → t < now + minutes 2
    → (claim_event busy' limit only' t (run limit cs (claim_event busy limit only now rows).1)).0
      ≡ some e'
    → e'.id ≢ e.id
unfolding claim_event
claim_event_exclusive limit busy busy' only only' now t rows cs e e' first spared early second =
    claim-ne event_queue event_queue-IsLeased busy' limit only' t e.id (now + minutes 2) _ e'
      (run-Held limit e.id (now + minutes 2) cs _ spared
        (claim-Held event_queue event_queue-IsLeased busy limit only now rows e first))
      early second
