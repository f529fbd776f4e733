-- ===== src/Jobs/Events/Dispatch/Telling.antt =====
-- What the dispatch of `services/user_events.py` promises for a finished app: where the agent
-- cannot tell the user, the trusted URL is stored for the conversation all the same.
use dot_backend.Prelude.{
  ℕ, ◌≡◌, ◌⊎◌, inl, inr, refl, ap, subst, String, Bool, true, false, ◌&&◌, Option, none, some, List,
  if-elim, str_eq, text_is, not, map,
}
use dot_backend.Groups.Records.{Result, err, ok, Conversation}
use dot_backend.Jobs.FollowUps.Sending.{Channel}
use dot_backend.Jobs.Events.{UserEvent, claim_event}
use dot_backend.Jobs.Events.Turns.{Message, PersistedReply, as_reply, turn_messages, trusted_url}
use dot_backend.Jobs.Events.Turns.Links.{
  shown, ensure_app_completion_turn-Shows, ensure_app_completion_turn-shown,
}
use dot_backend.Jobs.Events.Targets.{Store, resolve_event_target}
use dot_backend.Jobs.Events.Attempts.{
  Worker, Delivery, ready, held_back, no_adapter, Attempt, finished, raised, attempt,
  after_delivery, hand_out, after_run, talk, at_target, is_known, run_provider, run_or_raise,
  delivery_of, generation_note, note_of, complete_instead, with_messages, message_key, fresh_at,
  channel_id, linq_delivery, delivery_by,
}
use dot_backend.Jobs.Events.Dispatch.{
  with_fallback, tell, after_failure, settle, fallback_turn, retry_in, dispatch_user_event,
  tells_itself,
}
use dot_backend.Jobs.Events.Dispatch.Settling.{with_claimed-found}

-- The agent's run for the event raises, whatever it is given.
abbrev pub Fails : Worker → UserEvent → Type 0
Fails w e =
    (c : Conversation) (channel : Option Channel) (key : String) (p : Option String) (s : Store)
    → (error : String) × ((w.run_agent e c channel key p s).0 ≡ err error)

-- A delivery sends replies, and changes none of the messages.
abbrev pub KeepsMessages : Worker → Type 0
KeepsMessages w =
    (to : Channel) (c : Conversation) (replies : List PersistedReply) (key : String) (s : Store)
    → (w.deliver to c replies key s).1.messages ≡ s.messages

-- The event is for Linq, or for no channel.
abbrev pub HasAdapter : UserEvent → Type 0
HasAdapter e = (e.delivery_provider ≡ none) ⊎ (e.delivery_provider ≡ some "linq")

abbrev IsDelivery : Delivery → Type 0
IsDelivery (ready to) = Unit
IsDelivery (held_back n) = Unit
IsDelivery (no_adapter n) = ⊥

linq_delivery-IsDelivery :
    (w : Worker) (opted_out : Bool) (channel : Option Channel)
    → IsDelivery (linq_delivery w opted_out channel)
linq_delivery-IsDelivery w true channel = tt
linq_delivery-IsDelivery w false none = tt
linq_delivery-IsDelivery w false (some c) =
    if-elim IsDelivery (not w.automated_replies) _ _ (λ _. tt)
      (λ _. if-elim IsDelivery (not w.has_linq_client) _ (ready c) (λ _. tt) (λ _. tt))

delivery_by-IsDelivery :
    (w : Worker) (e : UserEvent) (c : Conversation) (channel : Option Channel) (s : Store)
    (p : Option String)
    → (p ≡ none) ⊎ (p ≡ some "linq")
    → IsDelivery (delivery_by w e c channel s p)
delivery_by-IsDelivery w e c channel s none h = tt
delivery_by-IsDelivery w e c channel s (some p) (inl h) = absurd (cc)
delivery_by-IsDelivery w e c channel s (some p) (inr h) =
    let linq : str_eq p "linq" ≡ true = ap (λ t. text_is t "linq") h in
    rw linq (linq_delivery-IsDelivery w _ channel)

module _ (w : Worker) (e : UserEvent) (u : String) (now : ℕ) (keeps : KeepsMessages w)
    (url : trusted_url e ≡ some u)
    (completed : str_eq e.event_type "app.build.completed" ≡ true) where
  abbrev Told : List Message → Type 0
  Told rows = shown (message_key w e) u rows ≡ true

  -- However the attempt ends, the URL is stored, and the target is known.
  abbrev AllTold : Attempt → Type 0
  AllTold (finished s) = Told s.messages
  AllTold (raised error none had_turn d s) = ⊥
  AllTold (raised error (some target) had_turn d s) = Told s.messages

  module _ (c : Conversation) (channel : Option Channel) where
    after_delivery-Told :
        (d : Delivery) (remark : Option String) (r : Option String × Store)
        → Told r.1.messages
        → AllTold (after_delivery e c channel d remark now r)
    after_delivery-Told d remark (none, s) h = h
    after_delivery-Told d remark (some error, s) h = h

    hand_out-Told :
        (d : Delivery) (remark : Option String) (replies : List PersistedReply) (s : Store)
        → Told s.messages
        → AllTold (hand_out w e c channel d remark now replies s)
    hand_out-Told (ready to) remark replies s h =
        after_delivery-Told (ready to) remark (w.deliver to c replies (message_key w e) s)
          (rw (keeps to c replies (message_key w e) s) h)
    hand_out-Told (held_back n) remark replies s h = h
    hand_out-Told (no_adapter n) remark replies s h = h

    complete_instead-Told :
        (d : Delivery) (s : Store) → AllTold (complete_instead w e c channel d now s)
    complete_instead-Told d s =
        let (result, made, _, h) =
          ensure_app_completion_turn-Shows e c.id (channel_id channel) (message_key w e) u
            (fresh_at now s) s.messages url in
        rw made
          (hand_out-Told d (generation_note (note_of d)) result.0 (with_messages s result.1) h)

    after_run-Told :
        (d : Delivery) (r : Result String (List PersistedReply) × Store) (error : String)
        → r.0 ≡ err error
        → AllTold (after_run w e c channel d now r)
    after_run-Told d (ok replies, s) error h = absurd (cc)
    after_run-Told d (err raised_error, s) error h = rw completed (complete_instead-Told d s)

    run_or_raise-Fails :
        (d : Delivery) (s : Store)
        → Fails w e
        → (error : String) × ((run_or_raise w e c channel d s).0 ≡ err error)
    run_or_raise-Fails d s fails =
        if-elim
          (λ (r : Result String (List PersistedReply) × Store).
            (error : String) × (r.0 ≡ err error))
          w.has_provider (w.run_agent e c channel (message_key w e) (run_provider e d) s)
          (err "The event agent model provider is not configured", s)
          (λ _. fails c channel (message_key w e) (run_provider e d) s) (λ _. (_, refl))

    talk-Told :
        (s : Store) (d : Delivery) → Fails w e → IsDelivery d → AllTold (talk w e c channel now s d)
    talk-Told s (ready to) fails h =
        let (error, failed) = run_or_raise-Fails (ready to) s fails in
        after_run-Told (ready to) (run_or_raise w e c channel (ready to) s) error failed
    talk-Told s (held_back n) fails h =
        let (error, failed) = run_or_raise-Fails (held_back n) s fails in
        after_run-Told (held_back n) (run_or_raise w e c channel (held_back n) s) error failed
    talk-Told s (no_adapter n) fails h = absurd h

  at_target-Told :
      (s : Store) (r : Result String ((Conversation × Option Channel) × Store))
      (target : (Conversation × Option Channel) × Store)
      → Fails w e
      → HasAdapter e
      → r ≡ ok target
      → AllTold (at_target w e now s r)
  at_target-Told s (err error) target fails adapter found = absurd (cc)
  at_target-Told s (ok ((c, channel), s')) target fails adapter found =
      talk-Told c channel s' (delivery_of w e c channel s') fails
        (delivery_by-IsDelivery w e c channel s' e.delivery_provider adapter)

  with_fallback-Told :
      (c : Conversation) (had_turn : Bool) (d : Delivery) (s : Store)
      (turn : Option (List PersistedReply × List Message))
      → Told s.messages
      → ((replies : List PersistedReply) (rows : List Message)
          → turn ≡ some (replies, rows)
          → Told rows)
      → Told (with_fallback w e c had_turn d now s turn).messages
  with_fallback-Told c had_turn d s none h rest = h
  with_fallback-Told c true (ready to) s (some (replies, rows)) h rest = rest replies rows refl
  with_fallback-Told c false (ready to) s (some (replies, rows)) h rest =
      rw (keeps to c replies (message_key w e) (with_messages s rows)) (rest replies rows refl)
  with_fallback-Told c had_turn (held_back n) s (some (replies, rows)) h rest =
      rest replies rows refl
  with_fallback-Told c had_turn (no_adapter n) s (some (replies, rows)) h rest =
      rest replies rows refl

  fallback_turn-Told :
      (c : Conversation) (channel : Option Channel) (s : Store)
      → Told s.messages
      → (replies : List PersistedReply) (rows : List Message)
      → fallback_turn w e c channel now s ≡ some (replies, rows)
      → Told rows
  fallback_turn-Told c channel s h replies rows made =
      let turn =
        ensure_app_completion_turn-shown e c.id (channel_id channel) (message_key w e) u
          (fresh_at now s) s.messages url h in
      let same : fallback_turn w e c channel now s
          ≡ some (map as_reply (turn_messages (message_key w e) s.messages), s.messages) =
        rw completed turn in
      let kept : s.messages ≡ rows = cc in subst Told kept h

  after_failure-Told :
      (c : Conversation) (channel : Option Channel) (had_turn : Bool) (d : Delivery)
      (r : Bool × Store)
      → Told r.1.messages
      → Told (after_failure w e (some (c, channel)) had_turn d now r).messages
  after_failure-Told c channel had_turn d (used_up, s) h =
      if-elim (λ (r : Store). Told r.messages) (used_up && tells_itself e)
        (tell w e had_turn d now (c, channel) s) s
        (λ _.
          with_fallback-Told c had_turn d s (fallback_turn w e c channel now s) h
            (fallback_turn-Told c channel s h))
        (λ _. h)

  settle-Told : (limit : ℕ) (a : Attempt) → AllTold a → Told (settle w e limit now a).messages
  settle-Told limit (finished s) h = h
  settle-Told limit (raised error none had_turn d s) h = absurd h
  settle-Told limit (raised error (some (c, channel)) had_turn d s) h =
      after_failure-Told c channel had_turn d (retry_in e error limit now s) h

-- When the agent's run for a finished app with a trusted URL raises, whatever the cause, one of the
-- stored messages of the event's turn shows that URL after the dispatch, whether its delivery
-- fails or not. The event is of a registered type, its target is found, it is for Linq or for no
-- channel, and a delivery leaves the messages as they are.
pub dispatch_user_event-tells :
    (w : Worker) (busy : ℕ → Bool) (limit : ℕ) (only : Option ℕ) (claimed now : ℕ) (s : Store)
    (e : UserEvent) (u : String) (target : (Conversation × Option Channel) × Store)
    → (claim_event busy limit only claimed s.events).0 ≡ some e
    → e.event_type ≡ "app.build.completed"
    → trusted_url e ≡ some u
    → is_known e.event_type w.types ≡ true
    → HasAdapter e
    → resolve_event_target w.print_id e now
        (record s { events = (claim_event busy limit only claimed s.events).1 })
      ≡ ok target
    → Fails w e
    → KeepsMessages w
    → shown (message_key w e) u (dispatch_user_event w busy limit only claimed now s).1.messages
      ≡ true
unfolding dispatch_user_event attempt
dispatch_user_event-tells w busy limit only claimed now s e u target found completed url known
      adapter resolved fails keeps =
    let is_completed : str_eq e.event_type "app.build.completed" ≡ true =
      ap (λ t. str_eq t "app.build.completed") completed in
    let s' : Store = record s { events = (claim_event busy limit only claimed s.events).1 } in
    with_claimed-found (λ r. shown (message_key w e) u r.1.messages ≡ true) w limit now s e
      (claim_event busy limit only claimed s.events) found
      (rw known (
        settle-Told w e u now keeps url is_completed limit
          (at_target w e now s' (resolve_event_target w.print_id e now s'))
          (at_target-Told w e u now keeps url is_completed s' _ target fails adapter resolved)))
