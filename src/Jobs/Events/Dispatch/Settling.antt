-- ===== src/Jobs/Events/Dispatch/Settling.antt =====
-- What a dispatch of `services/user_events.py` does to the event that it claimed: it is not left
-- in processing, and an event that no policy is registered for is skipped.
use dot_backend.Prelude.{
  ℕ, ◌≡◌, ◌≢◌, refl, sym, subst, String, Bool, true, false, ◌&&◌, Option, none, some, List, All,
  All-update_any, arith, ◌==◌, inl, inr, Bool-cases, join_text, if-elim,
}
use dot_backend.Groups.Records.{Result, err, ok, Conversation}
use dot_backend.Jobs.FollowUps.Sending.{Channel}
use dot_backend.Jobs.Events.{
  UserEvent, UserEventStatus, processing, processed, skipped, has_id, claim_event, finish_event,
  retry_event,
}
use dot_backend.Jobs.Events.Turns.{Message, PersistedReply}
use dot_backend.Jobs.Events.Targets.{Store, Keeps, resolve_event_target, resolve_event_target-Keeps}
use dot_backend.Jobs.Events.Attempts.{
  Worker, Delivery, ready, held_back, no_adapter, Attempt, finished, raised, attempt,
  after_delivery, hand_out, with_completion, after_run, talk, at_target, is_known, complete_instead,
  finish_in, skip_in, with_messages,
}
use dot_backend.Jobs.Events.Dispatch.{
  with_fallback, tell_resolved, last_resort, after_failure, settle, with_claimed, deliver_fallback,
  dispatch_user_event, tells_itself, retry_in, exhausted_note,
}

-- The event with the id `k` is not in processing.
abbrev pub Settled : ℕ → UserEvent → Type 0
Settled k e = e.id ≡ k → e.status ≢ processing

finish-Settled :
    (k : ℕ) (status : UserEventStatus) (error : Option String) (now : ℕ) (rows : List UserEvent)
    → status ≢ processing
    → All (Settled k) (finish_event k status error now rows)
unfolding finish_event
finish-Settled k status error now rows done = All-update_any (Settled k) (has_id k) _ rows λ x.
    elim (Bool-cases (x.id == k)) [
      | inl e ↦ rw e (λ _. done)
      | inr e ↦ rw e (λ i. absurd (ground arith))
    ]

retry-Settled :
    (k : ℕ) (error : String) (limit now : ℕ) (rows : List UserEvent)
    → All (Settled k) (retry_event k error limit now rows).1
unfolding retry_event
retry-Settled k error limit now rows = All-update_any (Settled k) (has_id k) _ rows λ x.
    elim (Bool-cases (x.id == k)) [
      | inl e ↦ rw e (λ _. ground arith)
      | inr e ↦ rw e (λ i. absurd (ground arith))
    ]

module _ (w : Worker) (e : UserEvent) (now : ℕ) where
  -- An attempt that is over has settled the event.
  abbrev Over : Attempt → Type 0
  Over (finished s) = All (Settled e.id) s.events
  Over (raised error target had_turn d s) = Unit

  finish_in-Settled :
      (remark : Option String) (s : Store) → All (Settled e.id) (finish_in e remark now s).events
  finish_in-Settled remark s = finish-Settled e.id processed remark now s.events (ground arith)

  module _ (c : Conversation) (channel : Option Channel) where
    after_delivery-Over :
        (d : Delivery) (remark : Option String) (r : Option String × Store)
        → Over (after_delivery e c channel d remark now r)
    after_delivery-Over d remark (none, s) = finish_in-Settled remark s
    after_delivery-Over d remark (some error, s) = tt

    hand_out-Over :
        (d : Delivery) (remark : Option String) (replies : List PersistedReply) (s : Store)
        → Over (hand_out w e c channel d remark now replies s)
    hand_out-Over (ready to) remark replies s = after_delivery-Over (ready to) remark _
    hand_out-Over (held_back n) remark replies s = finish_in-Settled remark s
    hand_out-Over (no_adapter n) remark replies s = finish_in-Settled remark s

    with_completion-Over :
        (d : Delivery) (s : Store) (turn : Option (List PersistedReply × List Message))
        → Over (with_completion w e c channel d now s turn)
    with_completion-Over d s none = tt
    with_completion-Over d s (some (replies, rows)) = hand_out-Over d _ replies _

    after_run-Over :
        (d : Delivery) (r : Result String (List PersistedReply) × Store)
        → Over (after_run w e c channel d now r)
    after_run-Over d (ok replies, s) = hand_out-Over d _ replies s
    after_run-Over d (err error, s) =
        if-elim Over _ (complete_instead w e c channel d now s)
          (raised error (some (c, channel)) false d s) (λ _. with_completion-Over d s _) (λ _. tt)

    talk-Over : (s : Store) (d : Delivery) → Over (talk w e c channel now s d)
    talk-Over s (ready to) = after_run-Over (ready to) _
    talk-Over s (held_back remark) = after_run-Over (held_back remark) _
    talk-Over s (no_adapter error) = tt

  at_target-Over :
      (s : Store) (r : Result String ((Conversation × Option Channel) × Store))
      → Over (at_target w e now s r)
  at_target-Over s (err error) = tt
  at_target-Over s (ok ((c, channel), s')) = talk-Over c channel s' _

  attempt-Over : (s : Store) → Over (attempt w e now s)
  unfolding attempt
  attempt-Over s =
      if-elim Over (is_known e.event_type w.types)
        (at_target w e now s (resolve_event_target w.print_id e now s)) (finished (skip_in e now s))
        (λ _. at_target-Over s _) (λ _. finish-Settled e.id skipped _ now s.events (ground arith))

  with_fallback-Settled :
      (c : Conversation) (had_turn : Bool) (d : Delivery) (s : Store)
      (turn : Option (List PersistedReply × List Message))
      → All (Settled e.id) s.events
      → All (Settled e.id) (with_fallback w e c had_turn d now s turn).events
  with_fallback-Settled c had_turn d s none h = h
  with_fallback-Settled c had_turn d s (some (replies, rows)) h =
      finish_in-Settled exhausted_note
        (deliver_fallback w e c had_turn d replies (with_messages s rows))

  tell_resolved-Settled :
      (had_turn : Bool) (d : Delivery) (s : Store)
      (r : Result String ((Conversation × Option Channel) × Store))
      → All (Settled e.id) s.events
      → Keeps s r
      → All (Settled e.id) (tell_resolved w e had_turn d now s r).events
  tell_resolved-Settled had_turn d s (err error) h kept = h
  tell_resolved-Settled had_turn d s (ok ((c, channel), s')) h kept =
      with_fallback-Settled c had_turn d s' _ (rw kept.0 h)

  last_resort-Settled :
      (target : Option (Conversation × Option Channel)) (had_turn : Bool) (d : Delivery) (s : Store)
      → All (Settled e.id) s.events
      → All (Settled e.id) (last_resort w e target had_turn d now s).events
  last_resort-Settled (some (c, channel)) had_turn d s h = with_fallback-Settled c had_turn d s _ h
  last_resort-Settled none had_turn d s h =
      tell_resolved-Settled had_turn d s _ h (resolve_event_target-Keeps w.print_id e now s)

  after_failure-Settled :
      (target : Option (Conversation × Option Channel)) (had_turn : Bool) (d : Delivery)
      (r : Bool × Store)
      → All (Settled e.id) r.1.events
      → All (Settled e.id) (after_failure w e target had_turn d now r).events
  after_failure-Settled target had_turn d (used_up, s) h =
      if-elim (λ (r : Store). All (Settled e.id) r.events) (used_up && tells_itself e)
        (last_resort w e target had_turn d now s) s (λ _. last_resort-Settled target had_turn d s h)
        (λ _. h)

  settle-Settled :
      (limit : ℕ) (a : Attempt) → Over a → All (Settled e.id) (settle w e limit now a).events
  settle-Settled limit (finished s) h = h
  settle-Settled limit (raised error target had_turn d s) h =
      after_failure-Settled target had_turn d (retry_in e error limit now s)
        (retry-Settled e.id error limit now s.events)

pub with_claimed-found {ℓ} :
    (P : Bool × Store → Type ℓ) (w : Worker) (limit now : ℕ) (s : Store) (e : UserEvent)
    (c : Option UserEvent × List UserEvent)
    → c.0 ≡ some e
    → P (with_claimed w limit now s (some e, c.1))
    → P (with_claimed w limit now s c)
with_claimed-found P w limit now s e (none, rows) found h = absurd (cc)
with_claimed-found P w limit now s e (some g, rows) found h =
    subst (λ o. P (with_claimed w limit now s (o, rows))) (sym found) h

-- Whatever the agent's run and the delivery do to the tables, and whether they fail or not, an
-- event that was claimed is not left in processing when the dispatch returns.
pub dispatch_user_event-settles :
    (w : Worker) (busy : ℕ → Bool) (limit : ℕ) (only : Option ℕ) (claimed now : ℕ) (s : Store)
    (e : UserEvent)
    → (claim_event busy limit only claimed s.events).0 ≡ some e
    → All (Settled e.id) (dispatch_user_event w busy limit only claimed now s).1.events
unfolding dispatch_user_event
dispatch_user_event-settles w busy limit only claimed now s e found =
    with_claimed-found (λ r. All (Settled e.id) r.1.events) w limit now s e
      (claim_event busy limit only claimed s.events) found
      (settle-Settled w e now limit _ (attempt-Over w e now _))

-- An event of a type that is not registered is skipped: the agent is not run, nothing is delivered,
-- and beyond the event's own row nothing is changed.
pub dispatch_user_event-unknown :
    (w : Worker) (busy : ℕ → Bool) (limit : ℕ) (only : Option ℕ) (claimed now : ℕ) (s : Store)
    (e : UserEvent)
    → (claim_event busy limit only claimed s.events).0 ≡ some e
    → is_known e.event_type w.types ≡ false
    → dispatch_user_event w busy limit only claimed now s ≡ (
      true,
      record s {
        events =
            finish_event e.id skipped
              (some (join_text "No agent event policy registered for " e.event_type))
              now
              (claim_event busy limit only claimed s.events).1;
      },
    )
unfolding dispatch_user_event attempt
dispatch_user_event-unknown w busy limit only claimed now s e found unknown =
    let rows = (claim_event busy limit only claimed s.events).1 in
    let error = some (join_text "No agent event policy registered for " e.event_type) in
    with_claimed-found
      (λ r. r ≡ (true, record s { events = finish_event e.id skipped error now rows })) w limit now
      s e (claim_event busy limit only claimed s.events) found (rw unknown refl)
