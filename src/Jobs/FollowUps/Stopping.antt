-- ===== src/Jobs/FollowUps/Stopping.antt =====
-- Cancelling in src/benji_api/services/agent_followups.py is final, whatever workers still do.
use dot_backend.Prelude.{
  ℕ, ◌≡◌, ◌≢◌, refl, String, Bool, Option, some, List, [], ◌∷◌, All, All-weaken, All-update,
  All-update_found, Has, Keyed, arith, ◌==◌,
}
use dot_backend.Jobs.Clock.{minutes}
use dot_backend.Jobs.Queue.{IsLeased}
use dot_backend.Jobs.Queue.Claims.{Refused, claim-Refused_ne, claim_cases, choice-Refused}
use dot_backend.Jobs.FollowUps.{
  AgentFollowUp, cancelled, completed, follow_up_id, follow_up_queue, claim_follow_up,
  cancel_follow_up, complete_follow_up, retry_follow_up, start_follow_up, unless_cancelled,
  unless_completed, finish_follow_up, fail_follow_up, stop_follow_up,
}

-- The follow-ups keep the queue's promise: a claim keeps the key of the follow-up and counts one
-- attempt, and a follow-up that was just claimed is not eligible again for two minutes.
pub follow_up_queue-IsLeased : IsLeased follow_up_queue (minutes 2)
follow_up_queue-IsLeased = record {
  id-mark = λ now f. refl;
  attempts-mark = λ now f. refl;
  held = λ now t f h. ground arith;
}

-- The calls by which workers change the follow-ups that exist.
pub data Call : Type 0 where
  cancels : ℕ → String → Call
  claims : (ℕ → Bool) → Option ℕ → Call
  completes : ℕ → Call
  retries : ℕ → String → Call

module _ (limit : ℕ) where
  unfoldable pub step : ℕ × Call → List AgentFollowUp → List AgentFollowUp
  step (now, cancels k reason) rows = cancel_follow_up k reason now rows
  step (now, claims busy only) rows = (claim_follow_up busy limit only now rows).1
  step (now, completes k) rows = complete_follow_up k now rows
  step (now, retries k error) rows = retry_follow_up k error now rows

  unfoldable pub run : List (ℕ × Call) → List AgentFollowUp → List AgentFollowUp
  unfolding step
  run [] rows = rows
  run (c ∷ cs) rows = run cs (step c rows)

-- The follow-up with the id `k` is cancelled.
abbrev pub Cancelled : ℕ → AgentFollowUp → Type 0
Cancelled k f = f.id ≡ k → f.status ≡ cancelled

Cancelled-Refused :
    (limit k : ℕ) (rows : List AgentFollowUp)
    → All (Cancelled k) rows
    → Refused follow_up_queue limit k rows
Cancelled-Refused limit k rows h =
    All-weaken (Cancelled k) _ rows (λ x c same t. let s = c same in ground arith) h

module _ (limit k : ℕ) where
  step-Cancelled :
      (c : ℕ × Call) (rows : List AgentFollowUp)
      → All (Cancelled k) rows
      → All (Cancelled k) (step limit c rows)
  unfolding step claim_follow_up complete_follow_up retry_follow_up cancel_follow_up
  step-Cancelled (now, cancels j reason) rows h =
      All-update (Cancelled k) (follow_up_id j) (unless_completed (stop_follow_up reason now)) rows
        (λ x _ c. ground arith) h
  step-Cancelled (now, claims busy only) rows h =
      claim_cases follow_up_queue (λ c. All (Cancelled k) c.1) busy limit only now rows (λ _. h)
        λ r chosen.
          let ne =
            choice-Refused follow_up_queue busy limit only now k rows r
              (Cancelled-Refused limit k rows h) chosen in
          All-update (Cancelled k) (λ x. x.id == r.id) (start_follow_up now) rows
            (λ x e _ same. absurd (ne (ground arith))) h
  step-Cancelled (now, completes j) rows h =
      All-update (Cancelled k) (follow_up_id j) (unless_cancelled (finish_follow_up now)) rows
        (λ x _ c. ground arith) h
  step-Cancelled (now, retries j error) rows h =
      All-update (Cancelled k) (follow_up_id j) (unless_cancelled (fail_follow_up error now)) rows
        (λ x _ c. ground arith) h

  run-Cancelled :
      (cs : List (ℕ × Call)) (rows : List AgentFollowUp)
      → All (Cancelled k) rows
      → All (Cancelled k) (run limit cs rows)
  unfolding run
  run-Cancelled [] rows h = h
  run-Cancelled (c ∷ cs) rows h = run-Cancelled cs (step limit c rows) (step-Cancelled c rows h)

cancel-Cancelled :
    (reason : String) (now : ℕ) (rows : List AgentFollowUp) (f : AgentFollowUp)
    → Keyed (λ (x : AgentFollowUp). x.id) rows
    → Has f rows
    → f.status ≢ completed
    → All (Cancelled f.id) (cancel_follow_up f.id reason now rows)
unfolding cancel_follow_up
cancel-Cancelled reason now rows f keyed found going =
    All-update_found (λ x. x.id) (Cancelled f.id) (unless_completed (stop_follow_up reason now))
      rows f keyed found (λ _. ground arith) (λ x ne same. absurd (ne same))

-- Where row ids are distinct: a follow-up that was not completed when it was cancelled stays
-- cancelled, and no claim hands it out, whatever claims, completions, retries and cancellations follow: those of a worker that had
-- claimed the follow-up before it was cancelled included.
pub cancel_follow_up-final :
    (limit : ℕ) (busy : ℕ → Bool) (only : Option ℕ) (reason : String) (now t : ℕ)
    (rows : List AgentFollowUp) (cs : List (ℕ × Call)) (f : AgentFollowUp)
    → Keyed (λ (x : AgentFollowUp). x.id) rows
    → Has f rows
    → f.status ≢ completed
    → let after = run limit cs (cancel_follow_up f.id reason now rows) in
      All (Cancelled f.id) after
      × ((r : AgentFollowUp) → (claim_follow_up busy limit only t after).0 ≡ some r → r.id ≢ f.id)
unfolding claim_follow_up
cancel_follow_up-final limit busy only reason now t rows cs f keyed found going =
    let h = run-Cancelled limit f.id cs _ (cancel-Cancelled reason now rows f keyed found going) in
    (
      h,
      λ r.
          claim-Refused_ne follow_up_queue follow_up_queue-IsLeased busy limit only t f.id _ r
            (Cancelled-Refused limit f.id _ h),
    )
