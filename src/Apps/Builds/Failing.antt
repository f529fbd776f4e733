-- ===== src/Apps/Builds/Failing.antt =====
-- `_claimed_job` and `fail_build` of services/generated_apps_v2.py: how a worker reports that its build
-- did not work.
pub mod Outcomes
pub mod Fencing
use dot_backend.Prelude.{
  ℕ, zero, suc, String, Bool, true, false, ◌&&◌, Option, none, some, ltb, ◌==◌, text_is, is_blank,
  or_text, find?, if◌then◌else◌,
}
use dot_backend.Prelude.Json.{ℤ, pos, negsuc, Fields, end, field, text, bool, object}
use dot_backend.Apps.Records.{
  GeneratedApp, AppResult, err, ok, ◌>>=◌, ◌>>◌, or_raise, conflict, not_found, clean_text,
}
use dot_backend.Apps.Builds.{
  BuildStatus, queued, claimed, succeeded, failed, BuildJob, BuildStore, Runtime, job_is,
  failed_event, enqueue, write_job, safe_failure,
}
use dot_backend.Apps.Builds.Claiming.{max_build_attempts}

abbrev pub is_claimed : BuildStatus → Bool
is_claimed claimed = true
is_claimed queued = false
is_claimed succeeded = false
is_claimed failed = false

-- `expected_attempt < 1`
abbrev good_attempt : ℤ → AppResult ℕ
good_attempt (pos zero) = err conflict
good_attempt (pos (suc n)) = ok (suc n)
good_attempt (negsuc n) = err conflict

abbrev pub holds_claim : ℕ → String → ℕ → BuildJob → Bool
holds_claim k worker attempt j =
    j.id == k && is_claimed j.status && text_is j.claimed_by worker && j.attempts == attempt

-- `_claimed_job`
unfoldable pub claimed_job : ℕ → String → ℤ → BuildStore → AppResult BuildJob
claimed_job k worker expected s = do
  attempt ← good_attempt expected
  or_raise (find? (holds_claim k worker attempt) s.jobs) conflict

abbrev or_bool : Option Bool → Bool → Bool
or_bool none b = b
or_bool (some a) b = a

-- What every failure writes to the job.
abbrev note_failure : String → Fields → Bool → Bool → String → ℕ → BuildJob → BuildJob
note_failure error metadata retryable again code now j = record j {
  error = some error;
  lease_expires_at = none;
  updated_at = now;
  result = field "build_metadata" (object metadata) (
      field "retryable" (bool retryable)
        (field "requeued" (bool again) (field "failure_code" (text code) end)));
}

abbrev pub requeue : String → Fields → Bool → String → ℕ → BuildJob → BuildJob
requeue error metadata retryable code now j =
    record (note_failure error metadata retryable true code now j) {
      status = queued;
      claimed_by = none;
      completed_at = none;
    }

abbrev pub settle_failed : String → Fields → Bool → String → ℕ → BuildJob → BuildJob
settle_failed error metadata retryable code now j =
    record (note_failure error metadata retryable false code now j) {
      status = failed;
      completed_at = some now;
    }

-- `build_metadata or {}`
abbrev or_empty : Option Fields → Fields
or_empty none = end
or_empty (some fs) = fs

-- `app_url or job.app_url`
abbrev url_or : Option String → String → String
url_or none job_url = job_url
url_or (some url) job_url = if is_blank url then job_url else url

module _ (w : Runtime) where
  -- `fail_build`; the result holds the job that it returns.
  unfoldable pub fail_build :
      ℕ
      → String
      → ℤ
      → String
      → Option String
      → Option Fields
      → Bool
      → ℕ
      → BuildStore
      → AppResult (BuildJob × BuildStore)
  fail_build k worker expected error app_url metadata retryable now s = do
    j ← claimed_job k worker expected s
    clean ← clean_text (text error) 4000
    app ← or_raise (find? (λ (a : GeneratedApp). a.id == j.app_id) s.app_data.tables.apps) not_found
    let (code, parsed) = safe_failure w error in
        let safe = or_bool parsed retryable in
        let meta = or_empty metadata in
        if safe && ltb j.attempts max_build_attempts
        then ok
            (requeue clean meta safe code now j, write_job j (requeue clean meta safe code now) s)
        else ok (
          settle_failed clean meta safe code now j,
          enqueue (failed_event w app j (url_or app_url j.app_url) code safe now) now
              (write_job j (settle_failed clean meta safe code now) s),
        )
