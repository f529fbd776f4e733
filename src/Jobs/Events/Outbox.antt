-- ===== src/Jobs/Events/Outbox.antt =====
-- Enqueuing in `services/user_events.py`: one event for each idempotency key.
use dot_backend.Prelude.{
  ℕ, ◌≡◌, ◌≢◌, inl, inr, String, none, some, List, [], ◌∷◌, All, arith, Keyed, Keyed-snoc, find?,
  find?-append, eq_iff, eq_refl, Option-cases,
}
use dot_backend.Jobs.Events.{UserEvent, EventRequest, has_key, new_event, enqueue_user_event}

-- Row ids and idempotency keys are distinct.
pub record IsOutbox (rows : List UserEvent) : Type 0 where
  pub ids : Keyed (λ (e : UserEvent). e.id) rows
  pub keys : Keyed (λ (e : UserEvent). e.idempotency_key) rows

missing_key :
    (key : String) (rows : List UserEvent)
    → find? (has_key key) rows ≡ none
    → All (λ e. e.idempotency_key ≢ key) rows
missing_key key [] h = tt
missing_key key (e ∷ rows) h =
    (ground (arith, eq_iff e.idempotency_key key), missing_key key rows (ground arith))

-- Enqueuing under a fresh row id keeps the outbox well formed: no second event for a key.
pub enqueue-IsOutbox :
    (q : EventRequest) (id now : ℕ) (rows : List UserEvent)
    → All (λ e. e.id ≢ id) rows
    → IsOutbox rows
    → IsOutbox (enqueue_user_event q id now rows).1
unfolding enqueue_user_event
enqueue-IsOutbox q id now rows fresh ok =
    elim (Option-cases (find? (has_key q.idempotency_key) rows)) [
      | inl e ↦ rw e (record {
        ids = Keyed-snoc _ rows (new_event q id now) fresh ok.ids;
        keys = Keyed-snoc _ rows (new_event q id now) (missing_key _ rows e) ok.keys;
      })
      | inr (x, e) ↦ rw e ok
    ]

-- What a request gets is the event that the outbox holds under its key.
pub find?-enqueue :
    (q : EventRequest) (id now : ℕ) (rows : List UserEvent)
    → let (e, rows') = enqueue_user_event q id now rows in
      find? (has_key q.idempotency_key) rows' ≡ some e
unfolding enqueue_user_event
find?-enqueue q id now rows = elim (Option-cases (find? (has_key q.idempotency_key) rows)) [
  | inl e ↦
      rw (e, find?-append (has_key q.idempotency_key) rows (new_event q id now ∷ []) e)
        (simp eq_refl)
  | inr (x, e) ↦ rw (e, e)
]

-- A second request with the key of a first one gets the event of the first, and changes nothing.
pub enqueue-enqueue :
    (q again : EventRequest) (id id' now later : ℕ) (rows : List UserEvent)
    → again.idempotency_key ≡ q.idempotency_key
    → let (e, rows') = enqueue_user_event q id now rows in
      enqueue_user_event again id' later rows' ≡ (e, rows')
unfolding enqueue_user_event
enqueue-enqueue q again id id' now later rows same =
    elim (Option-cases (find? (has_key q.idempotency_key) rows)) [
      | inl e ↦
          rw (e, same, find?-append (has_key q.idempotency_key) rows (new_event q id now ∷ []) e)
            (simp eq_refl)
      | inr (x, e) ↦ rw (e, same, e)
    ]
