-- ===== src/Jobs/Events/Ordering.antt =====
-- Which event `_claim_event` of src/benji_api/services/user_events.py hands out.
use dot_backend.Prelude.{
  ℕ, suc, ◌+◌, ◌≤◌, ◌<◌, ◌≡◌, ◌⊎◌, inl, inr, refl, Bool, true, false, Option, none, some, List, All,
  All-weaken, first_by-none, first_by-least, first_by-Has, first_by-holds, precedes, ltb,
  Has-update_own, Has, arith, ◌==◌, ==_refl, Bool-cases,
}
use dot_backend.Jobs.Clock.{minutes}
use dot_backend.Jobs.Queue.{claimable, wanted}
use dot_backend.Jobs.Queue.Claims.{claim_cases}
use dot_backend.Jobs.Events.{
  UserEventStatus, pending, processing, processed, failed, skipped, UserEvent, event_queue,
  due_by_status, start_processing, claim_event,
}

-- An event can be handed out: it is new, or its last attempt failed and the delay is over, or its
-- last worker has had it for two minutes.
pub data IsDue (next now : ℕ) : UserEventStatus → Option ℕ → Type 0 where
  at_once : {locked : Option ℕ} → IsDue next now pending locked
  after_delay : {locked : Option ℕ} → next ≤ now → IsDue next now failed locked
  after_lease : {t : ℕ} → t + minutes 2 ≤ now → IsDue next now processing (some t)

-- The event is the one that is asked for, if one is.
abbrev pub IsWanted : Option ℕ → UserEvent → Type 0
IsWanted none e = Unit
IsWanted (some k) e = e.id ≡ k

precedes-first :
    (e y : UserEvent)
    → precedes (λ (x : UserEvent). x.next_attempt_at) (λ x. x.created_at) y e ≡ false
    → (e.next_attempt_at < y.next_attempt_at)
      ⊎ ((e.next_attempt_at ≡ y.next_attempt_at) × (e.created_at ≤ y.created_at))
precedes-first e y h = elim (Bool-cases (ltb e.next_attempt_at y.next_attempt_at)) [
  | inl later ↦ inl (ground arith)
  | inr tied ↦ inr (ground arith, ground arith)
]

module _ (busy : ℕ → Bool) (limit : ℕ) (only : Option ℕ) (now : ℕ) where
  -- The event is due, has attempts left, is not locked by another transaction, and is wanted.
  pub record IsAvailable (e : UserEvent) : Type 0 where
    pub due : IsDue e.next_attempt_at now e.status e.locked_at
    pub left : e.attempts < limit
    pub free : busy e.id ≡ false
    pub asked : IsWanted only e

  -- A claim hands out nothing when no event is available, and then changes nothing; else it hands
  -- out, and keeps as in processing, an available event before which no other one is due.
  abbrev pub HandsOut : List UserEvent → Option UserEvent × List UserEvent → Type 0
  HandsOut rows (none, after) = All (λ y. IsAvailable y → ⊥) rows × (after ≡ rows)
  HandsOut rows (some x, after) =
      (e : UserEvent) × Has e rows
      × IsAvailable e
      × (x.id ≡ e.id)
      × (x.status ≡ processing)
      × (x.attempts ≡ suc e.attempts)
      × (x.locked_at ≡ some now)
      × Has x after
      × All
          (λ y.
            IsAvailable y
            → (e.next_attempt_at < y.next_attempt_at)
              ⊎ ((e.next_attempt_at ≡ y.next_attempt_at) × (e.created_at ≤ y.created_at)))
          rows

  due_by_status-IsDue :
      (status : UserEventStatus) (locked : Option ℕ) (next : ℕ)
      → due_by_status status locked next now ≡ true
      → IsDue next now status locked
  due_by_status-IsDue pending locked next h = at_once
  due_by_status-IsDue failed locked next h = after_delay (ground arith)
  due_by_status-IsDue processing none next h = absurd (cc)
  due_by_status-IsDue processing (some t) next h = after_lease (ground arith)
  due_by_status-IsDue processed locked next h = absurd (cc)
  due_by_status-IsDue skipped locked next h = absurd (cc)

  IsDue-due_by_status :
      {status : UserEventStatus} {locked : Option ℕ} (next : ℕ)
      → IsDue next now status locked
      → due_by_status status locked next now ≡ true
  IsDue-due_by_status next at_once = refl
  IsDue-due_by_status next (after_delay h) = ground arith
  IsDue-due_by_status next (after_lease h) = ground arith

  wanted-IsWanted : (o : Option ℕ) (e : UserEvent) → wanted o e.id ≡ true → IsWanted o e
  wanted-IsWanted none e h = tt
  wanted-IsWanted (some k) e h = ground arith

  IsWanted-wanted : (o : Option ℕ) (e : UserEvent) → IsWanted o e → wanted o e.id ≡ true
  IsWanted-wanted none e h = refl
  IsWanted-wanted (some k) e h = ground arith

  claimable-IsAvailable :
      (e : UserEvent) → claimable event_queue busy limit only now e ≡ true → IsAvailable e
  claimable-IsAvailable e h = record {
    due = due_by_status-IsDue e.status e.locked_at e.next_attempt_at (ground arith);
    left = ground arith;
    free = ground arith;
    asked = wanted-IsWanted only e (ground arith);
  }

  IsAvailable-claimable :
      (e : UserEvent) → IsAvailable e → claimable event_queue busy limit only now e ≡ true
  IsAvailable-claimable e a =
      let due = IsDue-due_by_status e.next_attempt_at a.due in
      let asked = IsWanted-wanted only e a.asked in
      let left = a.left in let free = a.free in ground arith

  -- What `_claim_event` hands out, and when it hands out nothing.
  pub claim_event-HandsOut :
      (rows : List UserEvent) → HandsOut rows (claim_event busy limit only now rows)
  unfolding claim_event
  claim_event-HandsOut rows =
      claim_cases event_queue (HandsOut rows) busy limit only now rows
        (λ idle. (
          All-weaken (λ y. claimable event_queue busy limit only now y ≡ false) _ rows
              (λ y e a. let e' = IsAvailable-claimable y a in cc)
              (first_by-none _ (claimable event_queue busy limit only now) rows idle),
          refl,
        ))
        λ e chosen. (
          e,
          first_by-Has _ _ rows e chosen,
          claimable-IsAvailable e (first_by-holds _ _ rows e chosen),
          refl,
          refl,
          refl,
          refl,
          Has-update_own (λ y. y.id == e.id) (start_processing now) (==_refl e.id)
              (first_by-Has _ _ rows e chosen),
          All-weaken _ _ rows (λ y h a. precedes-first e y (h (IsAvailable-claimable y a)))
              (first_by-least (λ (y : UserEvent). y.next_attempt_at)
                (λ (y : UserEvent). y.created_at) (claimable event_queue busy limit only now) rows e
                chosen),
        )
