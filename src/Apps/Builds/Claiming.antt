-- ===== src/Apps/Builds/Claiming.antt =====
-- `claim_next_build` and `_terminalize_exhausted_build_claim` of services/generated_apps_v2.py.
pub mod Rounds
pub mod Holding
pub mod Serving
use dot_backend.Prelude.{
  ℕ, zero, suc, ◌+◌, String, Bool, true, false, not, ◌&&◌, Option, none, some, List, length, ltb,
  leb, ◌==◌, or_else, first_by, find?, if◌then◌else◌,
}
use dot_backend.Prelude.Json.{ℤ, pos, end, field, text, bool, int, object}
use dot_backend.Jobs.Clock.{seconds}
use dot_backend.Apps.Records.{GeneratedApp, AppResult, ok, ◌>>=◌, clamp, clean_text}
use dot_backend.Apps.Builds.{
  BuildStatus, queued, claimed, succeeded, failed, BuildJob, ClaimedBuild, BuildStore, Runtime,
  job_is, failed_event, enqueue, write_job,
}

-- `_MAX_BUILD_ATTEMPTS`
abbrev pub max_build_attempts : ℕ
max_build_attempts = 3

-- `lease_expires_at < now`
abbrev is_over : Option ℕ → ℕ → Bool
is_over none now = false
is_over (some t) now = ltb t now

abbrev pub eligible_status : BuildStatus → Option ℕ → ℕ → Bool
eligible_status queued lease now = true
eligible_status claimed lease now = is_over lease now
eligible_status succeeded lease now = false
eligible_status failed lease now = false

-- `eligible`; `busy` are the rows that another transaction has locked, which `skip_locked` passes
-- over.
abbrev pub claimable : (ℕ → Bool) → ℕ → BuildJob → Bool
claimable busy now j = eligible_status j.status j.lease_expires_at now && not (busy j.id)

-- `ORDER BY created_at`
abbrev pub older : BuildJob → BuildJob → Bool
older a b = ltb a.created_at b.created_at

abbrev pub next_job : (ℕ → Bool) → ℕ → List BuildJob → Option BuildJob
next_job busy now jobs = first_by older (claimable busy now) jobs

abbrev pub start_build : String → ℤ → ℕ → BuildJob → BuildJob
start_build worker lease now j = record j {
  status = claimed;
  claimed_by = some worker;
  attempts = suc j.attempts;
  started_at = or_else j.started_at (some now);
  lease_expires_at = some (now + seconds (clamp 15 900 lease));
  updated_at = now;
}

abbrev pub claim_of : BuildJob → ClaimedBuild
claim_of j = record {
  job_id = j.id;
  app_id = j.app_id;
  base_revision_id = j.base_revision_id;
  request = j.request;
  attempt = suc j.attempts;
}

abbrev pub Claim : Type 0
Claim = Option ClaimedBuild × BuildStore

module _ (w : Runtime) where
  abbrev exhausted_code : String
  exhausted_code = "build_worker_lease_exhausted"

  -- What `_terminalize_exhausted_build_claim` writes to the job.
  abbrev pub abandon : ℕ → BuildJob → BuildJob
  abandon now j = record j {
    status = failed;
    claimed_by = none;
    lease_expires_at = none;
    completed_at = some now;
    updated_at = now;
    error = some (
        w.dumps (
          field "code" (text exhausted_code) (
            field "message"
              (text "The app builder stopped before settling this build too many times")
              (field "retryable" (bool false) end))));
    result = field "build_metadata" (object (field "abandoned_claims" (int (pos j.attempts)) end)) (
        field "retryable" (bool false)
          (field "requeued" (bool false) (field "failure_code" (text exhausted_code) end)));
  }

  abbrev tell_abandoned : BuildJob → ℕ → BuildStore → Option GeneratedApp → BuildStore
  tell_abandoned j now s none = s
  tell_abandoned j now s (some app) =
      enqueue (failed_event w app j j.app_url exhausted_code false now) now s

  -- `_terminalize_exhausted_build_claim`
  unfoldable pub terminalize_exhausted_build_claim : BuildJob → ℕ → BuildStore → BuildStore
  terminalize_exhausted_build_claim j now s =
      tell_abandoned j now (write_job j (abandon now) s)
        (find? (λ (a : GeneratedApp). a.id == j.app_id) s.app_data.tables.apps)

  -- One round of the loop: nothing is left, or a job is settled as abandoned and the next one is
  -- looked at, or a job is claimed.
  abbrev round :
      String → ℤ → ℕ → BuildStore → (BuildStore → Option Claim) → Option BuildJob → Option Claim
  round worker lease now s next none = some (none, s)
  round worker lease now s next (some j) =
      let rest = next (terminalize_exhausted_build_claim j now s) in
      if leb max_build_attempts j.attempts
      then rest
      else some (some (claim_of j), write_job j (start_build worker lease now) s)

  -- `while True`, on fuel; `clock` gives the time of each round and `busy` the rows that are locked
  -- then.
  unfoldable pub claim_loop : ℕ → (ℕ → ℕ) → (ℕ → ℕ → Bool) → String → ℤ → BuildStore → Option Claim
  claim_loop zero clock busy worker lease s = none
  claim_loop (suc n) clock busy worker lease s =
      round worker lease (clock n) s (claim_loop n clock busy worker lease)
        (next_job (busy n) (clock n) s.jobs)

  -- `claim_next_build`
  unfoldable pub claim_next_build :
      (ℕ → ℕ) → (ℕ → ℕ → Bool) → String → ℤ → BuildStore → AppResult (Option Claim)
  unfolding claim_loop
  claim_next_build clock busy worker_id lease s = do
    worker ← clean_text (text worker_id) 120
    ok (claim_loop (suc (length s.jobs)) clock busy worker lease s)
