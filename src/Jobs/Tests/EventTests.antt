-- ===== src/Jobs/Tests/EventTests.antt =====
-- Two events in the outbox, and what the calls of `services/user_events.py` do with them.
use dot_backend.Prelude.{
  ℕ, ◌+◌, ◌≤◌, ◌≡◌, ◌≢◌, refl, inl, true, none, some, List, [], ◌∷◌, All, Keyed, here, arith, leb,
  ltb, ◌&&◌, first_by,
}
use dot_backend.Prelude.Json.{end}
use dot_backend.Jobs.Clock.{seconds, delay_seconds}
use dot_backend.Jobs.Queue.{claim, claimable}
use dot_backend.Jobs.Events.{
  UserEvent, EventRequest, processed, new_event, event_queue, start_processing, enqueue_user_event,
  claim_event, finish_event, retry_event,
}
use dot_backend.Jobs.Events.History.{Call, enqueues, step, run}
use dot_backend.Jobs.Events.Leases.{claim_event_exclusive}
use dot_backend.Jobs.Events.Finality.{finish_event-final}
use dot_backend.Jobs.Events.Ordering.{HandsOut, claim_event-HandsOut}
use dot_backend.Jobs.Events.Retries.{unlocked, claim_event-retry_event, retry_event-claimable}

abbrev request : EventRequest
request = record {
  user_id = 7;
  conversation_id = some 3;
  event_type = "gmail.received";
  source = "gmail";
  idempotency_key = "mail:1";
  payload = end;
  delivery_provider = some "linq";
}

abbrev other_request : EventRequest
other_request = record request { idempotency_key = "mail:2" }

abbrev third_request : EventRequest
third_request = record request { idempotency_key = "mail:3" }

abbrev first_event : UserEvent
first_event = new_event request 1 100

abbrev second_event : UserEvent
second_event = new_event other_request 2 200

abbrev tired_event : UserEvent
tired_event = record first_event { attempts = 5 }

abbrev two_events : List UserEvent
two_events = first_event ∷ second_event ∷ []

abbrev tired_events : List UserEvent
tired_events = tired_event ∷ second_event ∷ []

two_events-Keyed : Keyed (λ (e : UserEvent). e.id) two_events
two_events-Keyed = (((λ e. omega arith), tt), (tt, tt))

-- Another worker's call while the first event is at work.
abbrev meanwhile : List (ℕ × Call)
meanwhile = (1500, enqueues third_request 3) ∷ []

first_claimed :
    (claim_event unlocked 5 none 1000 two_events).0 ≡ some (start_processing 1000 first_event)
unfolding claim_event claim first_by
first_claimed = refl

second_claimed :
    (claim_event unlocked 5 none 2000
      (run 5 meanwhile (claim_event unlocked 5 none 1000 two_events).1)).0
    ≡ some (start_processing 2000 second_event)
unfolding claim_event claim first_by run step enqueue_user_event
second_claimed = refl

claim_event_exclusive_example : second_event.id ≢ first_event.id
claim_event_exclusive_example =
    claim_event_exclusive 5 unlocked unlocked none none 1000 2000 two_events meanwhile
      (start_processing 1000 first_event) (start_processing 2000 second_event) first_claimed
      ((omega arith, λ e. omega arith), tt) (omega arith) second_claimed

after_finish :
    (claim_event unlocked 5 none 2000
      (run 5 meanwhile (finish_event 1 processed none 1000 two_events))).0
    ≡ some (start_processing 2000 second_event)
unfolding claim_event claim first_by run step enqueue_user_event finish_event
after_finish = refl

finish_event-final_example : second_event.id ≢ 1
finish_event-final_example =
    finish_event-final 5 unlocked none 1 1000 2000 processed none two_events meanwhile
      (start_processing 2000 second_event) (inl refl) ((λ e. omega arith), tt) after_finish

spent : (retry_event 1 "timeout" 5 1000 tired_events).0 ≡ true
unfolding retry_event
spent = refl

after_spent :
    (claim_event unlocked 5 none 2000
      (run 5 meanwhile (retry_event 1 "timeout" 5 1000 tired_events).1)).0
    ≡ some (start_processing 2000 second_event)
unfolding claim_event claim first_by run step enqueue_user_event retry_event delay_seconds
after_spent = refl

delay_over : 1000 + seconds (delay_seconds 0) ≤ 3000000
unfolding delay_seconds
delay_over = omega arith

claim_event-retry_event_example :
    (r : UserEvent) × ((claim_event unlocked 5
        (some 1)
        3000000
        (retry_event 1 "timeout" 5 1000 two_events).1).0
      ≡ some r)
    × (r.id ≡ 1)
claim_event-retry_event_example =
    claim_event-retry_event 5 1000 3000000 "timeout" two_events first_event two_events-Keyed
      (here refl) (omega arith) delay_over

retry_event-claimable_example :
    All
      (λ x.
        x.id ≡ 1
        → claimable event_queue unlocked 5 none 3000000 x
          ≡ (leb (1000 + seconds (delay_seconds 0)) 3000000 && ltb 0 5))
      (retry_event 1 "timeout" 5 1000 two_events).1
retry_event-claimable_example =
    retry_event-claimable 5 1000 3000000 "timeout" two_events first_event two_events-Keyed
      (here refl)

claim_event-HandsOut_example :
    HandsOut unlocked 5 none 1000 two_events (claim_event unlocked 5 none 1000 two_events)
claim_event-HandsOut_example = claim_event-HandsOut unlocked 5 none 1000 two_events
