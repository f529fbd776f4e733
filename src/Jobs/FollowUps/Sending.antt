-- ===== src/Jobs/FollowUps/Sending.antt =====
-- `dispatch_due_follow_up` of src/benji_api/services/agent_followups.py: a worker claims a due
-- follow-up, and cancels it, or runs the agent for it and delivers what it says.
pub mod Replies
use dot_backend.Prelude.{
  ℕ, ◌+◌, ◌≡◌, String, Bool, true, false, not, ◌&&◌, Option, none, some, List, any, find?, first_by,
  is_some, ltb, ◌==◌, str_eq, join_text, if◌then◌else◌,
}
use dot_backend.Groups.Records.{ActivityStatus, active, inactive}
use dot_backend.Jobs.FollowUps.{
  AgentFollowUp, claim_follow_up, complete_follow_up, cancel_follow_up, retry_follow_up,
}

-- The columns of the other tables that a dispatch reads.
pub record Person : Type 0 where
  pub id : ℕ
  pub messaging_opted_out_at : Option ℕ

pub data MessageDirection : Type 0 where
  inbound outbound : MessageDirection

pub record Message : Type 0 where
  pub conversation_id : ℕ
  pub direction : MessageDirection
  pub created_at : ℕ

pub record Channel : Type 0 where
  pub id : ℕ
  pub conversation_id : ℕ
  pub provider : String
  pub external_id : String
  pub status : ActivityStatus
  pub updated_at : ℕ

pub record Store : Type 0 where
  pub follow_ups : List AgentFollowUp
  pub users : List Person
  pub messages : List Message
  pub channels : List Channel

-- What `run_follow_up_turn` ends in: replies, `AgentWakeCancelled`, or another error.
pub data Turn : Type 0 where
  replied : List String → Turn
  wake_cancelled : Turn
  raised : String → Turn

-- What the worker is given: its settings, the agent's turn, and the delivery of replies, which
-- change the tables as they like.
pub record Worker : Type 0 where
  pub has_provider : Bool
  pub has_linq_client : Bool
  pub automated_replies : Bool
  pub run_turn : AgentFollowUp → Option Channel → Store → Turn × Store
  pub deliver : AgentFollowUp → Channel → List String → Store → Option String × Store

abbrev is_inbound : MessageDirection → Bool
is_inbound inbound = true
is_inbound outbound = false

-- The message came in after the follow-up was planned.
abbrev pub is_newer : AgentFollowUp → Message → Bool
is_newer f m =
    m.conversation_id == f.conversation_id
    && is_inbound m.direction
    && ltb f.created_at m.created_at

abbrev cannot_write : Option Person → Bool
cannot_write none = true
cannot_write (some u) = is_some u.messaging_opted_out_at

-- `_should_cancel`
unfoldable pub should_cancel : AgentFollowUp → Store → Bool
should_cancel f s =
    if cannot_write (find? (λ u. u.id == f.user_id) s.users)
    then true
    else (if not f.cancel_on_user_message then false else any (is_newer f) s.messages)

abbrev is_live : ActivityStatus → Bool
is_live active = true
is_live inactive = false

-- `_resolve_channel`: the active channel that changed last.
abbrev resolve_channel : AgentFollowUp → Store → Option Channel
resolve_channel f s = elim f.delivery_provider [
  | none ↦ none
  | some p ↦
      first_by (λ (a b : Channel). ltb b.updated_at a.updated_at)
        (λ c. c.conversation_id == f.conversation_id && str_eq c.provider p && is_live c.status)
        s.channels
]

-- What is decided before the agent runs.
pub data Plan : Type 0 where
  stop : String → Plan
  fail : String → Plan
  go : Option Channel → Plan

abbrev plan_channel : Worker → Option String → Option Channel → Plan
plan_channel w none channel = go channel
plan_channel w (some p) none = stop (join_text "No active " (join_text p " channel"))
plan_channel w (some p) (some c) =
    if str_eq p "linq"
    then (if not w.automated_replies
        then stop "Automated Linq delivery is disabled"
        else (if not w.has_linq_client
            then fail "Linq delivery is not configured"
            else go (some c)))
    else fail (join_text "No delivery adapter for " p)

abbrev plan : Worker → AgentFollowUp → Store → Plan
plan w f s =
    if should_cancel f s
    then stop "Cancelled because the user replied or messaging is unavailable"
    else (if not w.has_provider
        then fail "The follow-up agent model provider is not configured"
        else plan_channel w f.delivery_provider (resolve_channel f s))

abbrev pub cancel_in : AgentFollowUp → String → ℕ → Store → Store
cancel_in f reason now s = record s { follow_ups = cancel_follow_up f.id reason now s.follow_ups }

abbrev retry_in : AgentFollowUp → String → ℕ → Store → Store
retry_in f error now s = record s { follow_ups = retry_follow_up f.id error now s.follow_ups }

abbrev complete_in : AgentFollowUp → ℕ → Store → Store
complete_in f now s = record s { follow_ups = complete_follow_up f.id now s.follow_ups }

abbrev after_delivery : AgentFollowUp → ℕ → Option String × Store → Store
after_delivery f now (none, s) = complete_in f now s
after_delivery f now (some error, s) = retry_in f error now s

abbrev after_turn : Worker → AgentFollowUp → Option Channel → ℕ → Turn × Store → Store
after_turn w f none now (replied replies, s) = complete_in f now s
after_turn w f (some c) now (replied replies, s) = after_delivery f now (w.deliver f c replies s)
after_turn w f c now (wake_cancelled, s) = cancel_in f "Cancelled by a new user message" now s
after_turn w f c now (raised error, s) = retry_in f error now s

abbrev follow : Worker → AgentFollowUp → ℕ → Store → Plan → Store
follow w f now s (stop reason) = cancel_in f reason now s
follow w f now s (fail error) = retry_in f error now s
follow w f now s (go c) = after_turn w f c now (w.run_turn f c s)

abbrev with_claimed : Worker → ℕ → Store → Option AgentFollowUp × List AgentFollowUp → Bool × Store
with_claimed w now s (none, rows) = (false, record s { follow_ups = rows })
with_claimed w now s (some f, rows) =
    let s' = record s { follow_ups = rows } in (true, follow w f now s' (plan w f s'))

-- `dispatch_due_follow_up`, with the times at which it claims and at which it settles.
unfoldable pub dispatch_due_follow_up :
    Worker → (ℕ → Bool) → ℕ → Option ℕ → ℕ → ℕ → Store → Bool × Store
dispatch_due_follow_up w busy max_attempts only claimed settled s =
    with_claimed w settled s (claim_follow_up busy max_attempts only claimed s.follow_ups)
