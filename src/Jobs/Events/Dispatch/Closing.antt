-- ===== src/Jobs/Events/Dispatch/Closing.antt =====
-- What the dispatch of `services/user_events.py` promises on the last attempt: the event of an app
-- that is finished, or that could not be built, is processed, however the attempt goes.
use dot_backend.Prelude.{
  ℕ, ◌≡◌, ◌⊎◌, ◌≤◌, inl, inr, refl, ap, ◌∙◌, String, Bool, true, false, ◌||◌, Option, none, some,
  List, arith, if-elim, leb, str_eq, find?, find?-update_found, Keyed,
}
use dot_backend.Groups.Records.{Result, err, ok, Conversation}
use dot_backend.Jobs.FollowUps.Sending.{Channel}
use dot_backend.Jobs.Queue.Claims.{claim-find?}
use dot_backend.Jobs.Events.{
  UserEvent, processed, claim_event, finish_event, retry_event, has_id, fail_event, event_queue,
}
use dot_backend.Jobs.Events.Leases.{event_queue-IsLeased}
use dot_backend.Jobs.Events.Turns.{Message, PersistedReply, trusted_url, ensure_app_failure_turn}
use dot_backend.Jobs.Events.Turns.Links.{ensure_app_completion_turn-Shows}
use dot_backend.Jobs.Events.Targets.{Store, resolve_event_target, Keeps, resolve_event_target-Keeps}
use dot_backend.Jobs.Events.Attempts.{
  Worker, Delivery, ready, held_back, no_adapter, Attempt, finished, raised, attempt,
  after_delivery, hand_out, with_completion, after_run, talk, at_target, is_known, run_or_raise,
  run_provider, delivery_of, generation_note, note_of, complete_instead, finish_in, with_messages,
  message_key, fresh_at, channel_id,
}
use dot_backend.Jobs.Events.Dispatch.{
  tell, settle, deliver_fallback, fallback_turn, retry_in, dispatch_user_event, tells_itself,
  exhausted_note,
}
use dot_backend.Jobs.Events.Dispatch.Settling.{with_claimed-found}

-- The row that a query by the id `k` finds.
abbrev pub row_of : ℕ → Store → Option UserEvent
row_of k s = find? (has_id k) s.events

-- The agent's run and the delivery leave the row of the event itself alone.
abbrev pub Spares : Worker → ℕ → Type 0
Spares w k =
    ((e : UserEvent) (c : Conversation) (channel : Option Channel) (key : String)
        (p : Option String) (s : Store)
      → row_of k (w.run_agent e c channel key p s).1 ≡ row_of k s)
    × ((to : Channel) (c : Conversation) (replies : List PersistedReply) (key : String) (s : Store)
        → row_of k (w.deliver to c replies key s).1 ≡ row_of k s)

-- The event tells of an app, with the URL if it is finished.
abbrev pub TellsOfApp : UserEvent → Type 0
TellsOfApp e =
    ((e.event_type ≡ "app.build.completed") × (u : String) × (trusted_url e ≡ some u))
    ⊎ (e.event_type ≡ "app.build.failed")

-- The row with the id `k` is processed.
abbrev pub IsProcessed : ℕ → Store → Type 0
IsProcessed k s = (x : UserEvent) × (row_of k s ≡ some x) × (x.status ≡ processed)

finish-IsProcessed :
    (e x : UserEvent) (remark : Option String) (now : ℕ) (s : Store)
    → row_of e.id s ≡ some x
    → IsProcessed e.id (finish_in e remark now s)
unfolding finish_event
finish-IsProcessed e x remark now s h =
    (_, find?-update_found (has_id e.id) _ s.events x (λ y. refl) h, refl)

retry-row :
    (e x : UserEvent) (error : String) (limit now : ℕ) (s : Store)
    → row_of e.id s ≡ some x
    → (y : UserEvent) × (row_of e.id (retry_in e error limit now s).1 ≡ some y)
unfolding retry_event
retry-row e x error limit now s h =
    (fail_event error now x, find?-update_found (has_id e.id) _ s.events x (λ y. refl) h)

module _ (w : Worker) (e : UserEvent) (now : ℕ) (spares : Spares w e.id) where
  -- However the attempt ends, the row is processed, or it is still the one that was claimed.
  abbrev AllOpen : Attempt → Type 0
  AllOpen (finished s) = IsProcessed e.id s
  AllOpen (raised error none had_turn d s) = ⊥
  AllOpen (raised error (some target) had_turn d s) = row_of e.id s ≡ some e

  module _ (c : Conversation) (channel : Option Channel) where
    after_delivery-AllOpen :
        (d : Delivery) (remark : Option String) (r : Option String × Store)
        → row_of e.id r.1 ≡ some e
        → AllOpen (after_delivery e c channel d remark now r)
    after_delivery-AllOpen d remark (none, s) h = finish-IsProcessed e e remark now s h
    after_delivery-AllOpen d remark (some error, s) h = h

    hand_out-AllOpen :
        (d : Delivery) (remark : Option String) (replies : List PersistedReply) (s : Store)
        → row_of e.id s ≡ some e
        → AllOpen (hand_out w e c channel d remark now replies s)
    hand_out-AllOpen (ready to) remark replies s h =
        after_delivery-AllOpen (ready to) remark (w.deliver to c replies (message_key w e) s)
          (spares.1 to c replies (message_key w e) s ∙ h)
    hand_out-AllOpen (held_back n) remark replies s h = finish-IsProcessed e e remark now s h
    hand_out-AllOpen (no_adapter n) remark replies s h = finish-IsProcessed e e remark now s h

    with_completion-AllOpen :
        (d : Delivery) (s : Store) (turn : Option (List PersistedReply × List Message))
        → row_of e.id s ≡ some e
        → AllOpen (with_completion w e c channel d now s turn)
    with_completion-AllOpen d s none h = h
    with_completion-AllOpen d s (some (replies, rows)) h =
        hand_out-AllOpen d (generation_note (note_of d)) replies (with_messages s rows) h

    after_run-AllOpen :
        (d : Delivery) (r : Result String (List PersistedReply) × Store)
        → row_of e.id r.1 ≡ some e
        → AllOpen (after_run w e c channel d now r)
    after_run-AllOpen d (ok replies, s) h = hand_out-AllOpen d (note_of d) replies s h
    after_run-AllOpen d (err error, s) h =
        if-elim AllOpen (str_eq e.event_type "app.build.completed")
          (complete_instead w e c channel d now s) (raised error (some (c, channel)) false d s)
          (λ _. with_completion-AllOpen d s _ h) (λ _. h)

    run-AllOpen :
        (d : Delivery) (s : Store)
        → row_of e.id s ≡ some e
        → AllOpen (after_run w e c channel d now (run_or_raise w e c channel d s))
    run-AllOpen d s h = after_run-AllOpen d (run_or_raise w e c channel d s) (
        if-elim (λ (r : Result String (List PersistedReply) × Store). row_of e.id r.1 ≡ some e)
          w.has_provider (w.run_agent e c channel (message_key w e) (run_provider e d) s)
          (err "The event agent model provider is not configured", s)
          (λ _. spares.0 e c channel (message_key w e) (run_provider e d) s ∙ h) (λ _. h))

    talk-AllOpen :
        (s : Store) (d : Delivery) → row_of e.id s ≡ some e → AllOpen (talk w e c channel now s d)
    talk-AllOpen s (ready to) h = run-AllOpen (ready to) s h
    talk-AllOpen s (held_back n) h = run-AllOpen (held_back n) s h
    talk-AllOpen s (no_adapter n) h = h

  at_target-AllOpen :
      (s : Store) (r : Result String ((Conversation × Option Channel) × Store))
      (target : (Conversation × Option Channel) × Store)
      → Keeps s r
      → row_of e.id s ≡ some e
      → r ≡ ok target
      → AllOpen (at_target w e now s r)
  at_target-AllOpen s (err error) target kept h found = absurd (cc)
  at_target-AllOpen s (ok ((c, channel), s')) target kept h found =
      talk-AllOpen c channel s' (delivery_of w e c channel s') (rw kept.0 h)

  deliver_fallback-row :
      (c : Conversation) (had_turn : Bool) (d : Delivery) (replies : List PersistedReply)
      (s : Store)
      → row_of e.id (deliver_fallback w e c had_turn d replies s) ≡ row_of e.id s
  deliver_fallback-row c false (ready to) replies s = spares.1 to c replies (message_key w e) s
  deliver_fallback-row c true (ready to) replies s = refl
  deliver_fallback-row c had_turn (held_back n) replies s = refl
  deliver_fallback-row c had_turn (no_adapter n) replies s = refl

  fallback_turn-made :
      (c : Conversation) (channel : Option Channel) (s : Store)
      → TellsOfApp e
      → (turn : List PersistedReply × List Message) × (fallback_turn w e c channel now s
          ≡ some turn)
  fallback_turn-made c channel s (inl (completed, u, url)) =
      let is_completed : str_eq e.event_type "app.build.completed" ≡ true =
        ap (λ t. str_eq t "app.build.completed") completed in
      let (turn, made, _, _) =
        ensure_app_completion_turn-Shows e c.id (channel_id channel) (message_key w e) u
          (fresh_at now s) s.messages url in
      (turn, rw is_completed made)
  fallback_turn-made c channel s (inr failed) =
      let other : str_eq e.event_type "app.build.completed" ≡ false =
        ap (λ t. str_eq t "app.build.completed") failed in
      let turn =
        ensure_app_failure_turn e c.id (channel_id channel) (message_key w e) (fresh_at now s)
          s.messages in
      (turn, rw other refl)

  tells_of_app : TellsOfApp e → tells_itself e ≡ true
  tells_of_app (inl (completed, u, url)) =
      let is_completed : str_eq e.event_type "app.build.completed" ≡ true =
        ap (λ t. str_eq t "app.build.completed") completed in
      rw is_completed refl
  tells_of_app (inr failed) =
      ap (λ t. str_eq t "app.build.completed" || str_eq t "app.build.failed") failed

  tell-IsProcessed :
      (had_turn : Bool) (d : Delivery) (c : Conversation) (channel : Option Channel) (s : Store)
      (x : UserEvent)
      → TellsOfApp e
      → row_of e.id s ≡ some x
      → IsProcessed e.id (tell w e had_turn d now (c, channel) s)
  tell-IsProcessed had_turn d c channel s x tells h =
      let (turn, made) = fallback_turn-made c channel s tells in
      rw made (
        finish-IsProcessed e x exhausted_note now
          (deliver_fallback w e c had_turn d turn.0 (with_messages s turn.1))
          (deliver_fallback-row c had_turn d turn.0 (with_messages s turn.1) ∙ h))

  settle-IsProcessed :
      (limit : ℕ) (a : Attempt)
      → limit ≤ e.attempts
      → TellsOfApp e
      → AllOpen a
      → IsProcessed e.id (settle w e limit now a)
  unfolding retry_event
  settle-IsProcessed limit (finished s) last tells h = h
  settle-IsProcessed limit (raised error none had_turn d s) last tells h = absurd h
  settle-IsProcessed limit (raised error (some (c, channel)) had_turn d s) last tells h =
      let (x, retried) = retry-row e e error limit now s h in
      let used_up : leb limit e.attempts ≡ true = ground arith in
      let told =
        tell-IsProcessed had_turn d c channel (retry_in e error limit now s).1 x tells retried in
      rw (h, used_up, tells_of_app tells) told

-- On the last attempt at an event that tells of a finished app with a trusted URL, or of one that
-- could not be built, the event is processed when the dispatch returns, whatever the agent's run
-- and the delivery raise. Row ids are distinct, the event's type is registered and its target is
-- found, and the run and the delivery leave the row of the event itself alone.
pub dispatch_user_event-closes :
    (w : Worker) (busy : ℕ → Bool) (limit : ℕ) (only : Option ℕ) (claimed now : ℕ) (s : Store)
    (e : UserEvent) (target : (Conversation × Option Channel) × Store)
    → Keyed (λ (x : UserEvent). x.id) s.events
    → (claim_event busy limit only claimed s.events).0 ≡ some e
    → limit ≤ e.attempts
    → TellsOfApp e
    → is_known e.event_type w.types ≡ true
    → resolve_event_target w.print_id e now
        (record s { events = (claim_event busy limit only claimed s.events).1 })
      ≡ ok target
    → Spares w e.id
    → IsProcessed e.id (dispatch_user_event w busy limit only claimed now s).1
unfolding dispatch_user_event attempt claim_event
dispatch_user_event-closes w busy limit only claimed now s e target keyed found last tells known
      resolved spares =
    let s' : Store = record s { events = (claim_event busy limit only claimed s.events).1 } in
    let row =
      claim-find? event_queue event_queue-IsLeased busy limit only claimed s.events e keyed found in
    with_claimed-found (λ r. IsProcessed e.id r.1) w limit now s e
      (claim_event busy limit only claimed s.events) found
      (rw known (
        settle-IsProcessed w e now spares limit
          (at_target w e now s' (resolve_event_target w.print_id e now s')) last tells
          (at_target-AllOpen w e now spares s' (resolve_event_target w.print_id e now s') target
            (resolve_event_target-Keeps w.print_id e now s') row resolved)))
