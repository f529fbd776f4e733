-- ===== src/Jobs/Events/Turns/Links.antt =====
-- What the canonical messages of `services/user_events.py` promise: the user gets the trusted URL
-- of a finished app, and a second call for the same event writes nothing more.
use dot_backend.Prelude.{
  ℕ, ◌≡◌, refl, sym, ap, ◌∙◌, String, Bool, true, ◌&&◌, Option, none, some, List, [], ◌∷◌, ◌++◌,
  map, any-Has, find?-Has, any, find?, find?-append, select, update, any-sort_by, arith,
  contains_text_refl, eq_refl, Option-cases, inl, inr, starts_with-join_text, ==_refl, if-elim,
  starts_with,
}
use dot_backend.Jobs.Events.{UserEvent}
use dot_backend.Jobs.Events.Turns.{
  Message, PersistedReply, Fresh, message_id_is, of_turn, turn_messages, shows, trusted_key,
  has_message_key, relink, add_link, show_link, trusted_url, with_url, ensure_app_completion_turn,
  ensure_app_failure_turn, link_message, failure_message, is_turn, as_reply, mentions,
}

-- Some message of the turn shows the URL.
abbrev pub shown : String → String → List Message → Bool
shown key app_url rows = any (λ m. of_turn key m && shows app_url m) rows

any-select :
    (p q : Message → Bool) (rows : List Message)
    → any q (select p rows) ≡ any (λ m. p m && q m) rows
any-select p q [] = refl
any-select p q (m ∷ rows) = let rest = any-select p q rows in ground (arith, rest)

any-turn_messages :
    (key : String) (q : Message → Bool) (rows : List Message)
    → any q (turn_messages key rows) ≡ any (λ m. of_turn key m && q m) rows
any-turn_messages key q rows =
    any-sort_by _ q (select (of_turn key) rows) ∙ any-select (of_turn key) q rows

any-snoc :
    (p : Message → Bool) (rows : List Message) (m : Message)
    → p m ≡ true
    → any p (rows ++ m ∷ []) ≡ true
any-snoc p [] m h = ground arith
any-snoc p (x ∷ rows) m h = ground (arith, any-snoc p rows m h)

any-update :
    (p q r : Message → Bool) (f : Message → Message) (rows : List Message)
    → ((m : Message) → r m ≡ true → p m ≡ true → q (f m) ≡ true)
    → any (λ m. r m && p m) rows ≡ true
    → any q (update p f rows) ≡ true
any-update p q r f [] step h = absurd (cc)
any-update p q r f (m ∷ rows) step h = ground (arith, step m, any-update p q r f rows step)

any-as_reply :
    (app_url : String) (messages : List Message)
    → any (mentions app_url) (map as_reply messages) ≡ any (shows app_url) messages
any-as_reply app_url [] = refl
any-as_reply app_url (m ∷ messages) = let rest = any-as_reply app_url messages in ground arith

any-found :
    (p : Message → Bool) (rows : List Message) (m : Message)
    → find? p rows ≡ some m
    → any (message_id_is m.id) rows ≡ true
any-found p rows m h = any-Has (message_id_is m.id) (find?-Has p rows m h) (==_refl m.id)

colon : starts_with ":" ":trusted-link" ≡ true
unfolding starts_with
colon = refl

-- A message that is added for the turn is found again as one of it.
link-of_turn :
    (e : UserEvent) (conversation : ℕ) (binding : Option ℕ) (key app_url : String)
    (messages : List Message) (fresh : Fresh)
    → of_turn key (link_message e conversation binding key app_url messages fresh) ≡ true
link-of_turn e conversation binding key app_url [] fresh = rw (eq_refl key) refl
link-of_turn e conversation binding key app_url (m ∷ messages) fresh =
    let found = starts_with-join_text key ":" ":trusted-link" in ground (arith, found, colon)

module _ (e : UserEvent) (conversation : ℕ) (binding : Option ℕ) (key app_url : String)
    (fresh : Fresh) where
  abbrev Shows : List PersistedReply × List Message → Type 0
  Shows (replies, rows) = (any (mentions app_url) replies ≡ true) × (shown key app_url rows ≡ true)

  relink-shows :
      (rows : List Message) (k : ℕ)
      → any (λ m. of_turn key m && message_id_is k m) rows ≡ true
      → shown key app_url (update (message_id_is k) (relink app_url) rows) ≡ true
  relink-shows rows k found =
      any-update (message_id_is k) _ (of_turn key) (relink app_url) rows
        (λ m turn _. ground (arith, contains_text_refl app_url, turn)) found

  relink-mentions :
      (messages : List Message) (k : ℕ)
      → any (message_id_is k) messages ≡ true
      → any (shows app_url) (update (message_id_is k) (relink app_url) messages) ≡ true
  relink-mentions messages k found =
      any-update (message_id_is k) (shows app_url) (λ _. true) (relink app_url) messages
        (λ m _ _. contains_text_refl app_url) found

  add_link-Shows :
      (rows : List Message) (found : Option Message)
      → find? (has_message_key (trusted_key key (turn_messages key rows))) (turn_messages key rows)
        ≡ found
      → Shows
          (add_link e conversation binding key app_url fresh rows (turn_messages key rows) found)
  add_link-Shows rows none h =
      let messages = turn_messages key rows in
      let m = link_message e conversation binding key app_url messages fresh in
      (
        any-as_reply app_url (messages ++ m ∷ [])
            ∙ any-snoc (shows app_url) messages m (contains_text_refl app_url),
        any-snoc _ rows m (
            rw (link-of_turn e conversation binding key app_url messages fresh)
              (contains_text_refl app_url)),
      )
  add_link-Shows rows (some m) h =
      let messages = turn_messages key rows in
      let there = any-found (has_message_key (trusted_key key messages)) messages m h in
      (
        any-as_reply app_url (update (message_id_is m.id) (relink app_url) messages)
            ∙ relink-mentions messages m.id there,
        relink-shows rows m.id (sym (any-turn_messages key (message_id_is m.id) rows) ∙ there),
      )

  show_link-Shows :
      (rows : List Message)
      → Shows (show_link e conversation binding key app_url fresh rows (turn_messages key rows))
  show_link-Shows rows =
      let messages = turn_messages key rows in
      if-elim Shows (any (shows app_url) messages) (map as_reply messages, rows) _
        (λ h.
          (any-as_reply app_url messages ∙ h, sym (any-turn_messages key (shows app_url) rows) ∙ h))
        (λ _. add_link-Shows rows _ refl)

-- For a finished app with a trusted URL, the turn is written: one of its replies shows the URL,
-- and so does one of the stored messages of the turn.
pub ensure_app_completion_turn-Shows :
    (e : UserEvent) (conversation : ℕ) (binding : Option ℕ) (key app_url : String) (fresh : Fresh)
    (rows : List Message)
    → trusted_url e ≡ some app_url
    → (result : List PersistedReply × List Message) × (ensure_app_completion_turn e conversation
          binding key fresh rows
        ≡ some result)
      × (any (mentions app_url) result.0 ≡ true)
      × (shown key app_url result.1 ≡ true)
unfolding ensure_app_completion_turn
ensure_app_completion_turn-Shows e conversation binding key app_url fresh rows url =
    let r = show_link e conversation binding key app_url fresh rows (turn_messages key rows) in
    let h = show_link-Shows e conversation binding key app_url fresh rows in
    (r, rw url refl, h.0, h.1)

-- Once a message of the turn shows the trusted URL, the call writes nothing: it answers with the
-- messages that are there, whatever keys and time it is given.
pub ensure_app_completion_turn-shown :
    (e : UserEvent) (conversation : ℕ) (binding : Option ℕ) (key app_url : String) (fresh : Fresh)
    (rows : List Message)
    → trusted_url e ≡ some app_url
    → shown key app_url rows ≡ true
    → ensure_app_completion_turn e conversation binding key fresh rows
      ≡ some (map as_reply (turn_messages key rows), rows)
unfolding ensure_app_completion_turn
ensure_app_completion_turn-shown e conversation binding key app_url fresh rows url h =
    rw (url, any-turn_messages key (shows app_url) rows, h) refl

-- Where the call does not raise, the event has a trusted URL, and the turn shows it.
ensured-shown :
    (e : UserEvent) (conversation : ℕ) (binding : Option ℕ) (key : String) (fresh : Fresh)
    (rows : List Message) (result : List PersistedReply × List Message) (url : Option String)
    → with_url e conversation binding key fresh rows url ≡ some result
    → (u : String) × (url ≡ some u) × (shown key u result.1 ≡ true)
ensured-shown e conversation binding key fresh rows result none done = absurd (cc)
ensured-shown e conversation binding key fresh rows result (some u) done =
    let first = show_link e conversation binding key u fresh rows (turn_messages key rows) in
    let same : first ≡ result = cc in
    let h = show_link-Shows e conversation binding key u fresh rows in
    (u, refl, ap (λ r. shown key u r.1) (sym same) ∙ h.1)

-- A second call for the same event, whatever keys, conversation and time it is given, writes
-- nothing: the table is the one that the first call left.
pub ensure_app_completion_turn-again :
    (e : UserEvent) (conversation conversation' : ℕ) (binding binding' : Option ℕ) (key : String)
    (fresh fresh' : Fresh) (rows : List Message) (result : List PersistedReply × List Message)
    → ensure_app_completion_turn e conversation binding key fresh rows ≡ some result
    → ensure_app_completion_turn e conversation' binding' key fresh' result.1
      ≡ some (map as_reply (turn_messages key result.1), result.1)
unfolding ensure_app_completion_turn
ensure_app_completion_turn-again e conversation conversation' binding binding' key fresh fresh' rows
      result done =
    let (u, url, h) =
      ensured-shown e conversation binding key fresh rows result (trusted_url e) done in
    ensure_app_completion_turn-shown e conversation' binding' key u fresh' result.1 url h

-- The failure of a build is told once: a second call for the same event gets the message of the
-- first, and writes nothing.
pub ensure_app_failure_turn-again :
    (e e' : UserEvent) (conversation conversation' : ℕ) (binding binding' : Option ℕ) (key : String)
    (fresh fresh' : Fresh) (rows : List Message)
    → let first = ensure_app_failure_turn e conversation binding key fresh rows in
      ensure_app_failure_turn e' conversation' binding' key fresh' first.1 ≡ first
unfolding ensure_app_failure_turn
ensure_app_failure_turn-again e e' conversation conversation' binding binding' key fresh fresh'
      rows =
    let m = failure_message e conversation binding key fresh in
    elim (Option-cases (find? (is_turn key) rows)) [
      | inl h ↦ rw (h, find?-append (is_turn key) rows (m ∷ []) h, eq_refl key) refl
      | inr (x, h) ↦ rw (h, h) refl
    ]
