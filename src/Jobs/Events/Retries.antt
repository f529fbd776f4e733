-- ===== src/Jobs/Events/Retries.antt =====
-- Failure and retry in `services/user_events.py`: the backoff, the bound on the attempts, and when
-- a failed event is handed out again.
use dot_backend.Prelude.{
  ℕ, ◌+◌, ◌≤◌, ◌<◌, ◌≡◌, refl, String, Bool, false, ◌&&◌, none, some, List, All, All-update_found,
  All-Has, Has, Has-update, Keyed, arith, leb, ltb, first_by-none, first_by-holds, if◌then◌else◌,
}
use dot_backend.Jobs.Clock.{seconds, delay_seconds}
use dot_backend.Jobs.Queue.{claimable}
use dot_backend.Jobs.Queue.Claims.{claim_cases}
use dot_backend.Jobs.Events.{UserEvent, has_id, event_queue, claim_event, retry_event, fail_event}

-- No row is locked by another transaction.
abbrev pub unlocked : ℕ → Bool
unlocked _ = false

-- Where row ids are distinct: after a retry the event waits out its delay, and is then open to a
-- claim exactly if it has attempts left; this is the `WHERE` clause of `_claim_event` for it.
pub retry_event-claimable :
    (limit now t : ℕ) (error : String) (rows : List UserEvent) (e : UserEvent)
    → Keyed (λ (x : UserEvent). x.id) rows
    → Has e rows
    → All
        (λ x.
          x.id ≡ e.id
          → claimable event_queue unlocked limit none t x
            ≡ (leb (now + seconds (delay_seconds e.attempts)) t && ltb e.attempts limit))
        (retry_event e.id error limit now rows).1
unfolding retry_event
retry_event-claimable limit now t error rows e keyed found =
    All-update_found (λ x. x.id) _ (fail_event error now) rows e keyed found (λ _. ground arith)
      (λ x ne same. absurd (ne same))

not_idle :
    (limit now t : ℕ) (error : String) (e : UserEvent)
    → e.attempts < limit
    → now + seconds (delay_seconds e.attempts) ≤ t
    → claimable event_queue unlocked limit
        (some e.id)
        t
        (if has_id e.id e then fail_event error now e else e)
      ≡ false
    → ⊥
not_idle limit now t error e left due idle = ground (arith)

-- Where row ids are distinct: an event with attempts left on which `_retry_event` was called is
-- handed out again, to a claim for it, once its delay is over, whatever its status was before.
pub claim_event-retry_event :
    (limit now t : ℕ) (error : String) (rows : List UserEvent) (e : UserEvent)
    → Keyed (λ (x : UserEvent). x.id) rows
    → Has e rows
    → e.attempts < limit
    → now + seconds (delay_seconds e.attempts) ≤ t
    → (r : UserEvent) × ((claim_event unlocked limit
          (some e.id)
          t
          (retry_event e.id error limit now rows).1).0
        ≡ some r)
      × (r.id ≡ e.id)
unfolding claim_event retry_event
claim_event-retry_event limit now t error rows e keyed found left due =
    claim_cases event_queue (λ c. (r : UserEvent) × (c.0 ≡ some r) × (r.id ≡ e.id)) unlocked limit
      (some e.id) t _
      (λ idle.
        let none_left =
          All-Has _ (Has-update (has_id e.id) (fail_event error now) found)
            (first_by-none _ _ _ idle) in
        absurd (not_idle limit now t error e left due none_left))
      (λ r chosen. (_, refl, let p = first_by-holds _ _ _ r chosen in ground arith))
