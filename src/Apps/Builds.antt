-- ===== src/Apps/Builds.antt =====
-- The queue of builds in src/benji_api/services/generated_apps_v2.py: workers claim jobs, and a job
-- that fails is queued again or settled together with its event in the outbox.
pub mod Claiming
pub mod Failing
pub mod Changes
pub mod Queueing
pub mod Gates
pub mod Seeding
pub mod Promoting
pub mod Rollback
pub mod Telemetry
pub mod Completing
use dot_backend.Prelude.{
  ℕ, zero, suc, ◌+◌, ◌-◌, String, Bool, true, false, not, ◌&&◌, Option, none, some, List, length,
  ltb, leb, ◌==◌, text_is, at_most, text_len, take_text, join_text, or_else, or_text, first_by,
  find?, update, if◌then◌else◌,
}
use dot_backend.Prelude.Json.{
  ℤ, pos, negsuc, Json, Fields, get, get_or, end, field, text, bool, int, null, object, fields_of,
}
use dot_backend.Jobs.Clock.{seconds}
use dot_backend.Jobs.Events.{UserEvent, EventRequest, enqueue_user_event}
use dot_backend.Apps.Data.{DataStore}
use dot_backend.Apps.Records.{
  Store, GeneratedApp, AppError, AppResult, err, ok, ◌>>=◌, ◌>>◌, or_raise, raise_if, conflict,
  not_found, clamp, clean_text,
}

pub data BuildStatus : Type 0 where
  queued claimed succeeded failed : BuildStatus

pub record BuildJob : Type 0 where
  pub id : ℕ
  pub app_id : ℕ
  pub base_revision_id : Option ℕ
  pub result_revision_id : Option ℕ
  pub status : BuildStatus
  pub request : Fields
  pub idempotency_key : Option String
  pub request_hash : Option String
  pub result : Fields
  pub delivery_provider : Option String
  pub app_url : String
  pub attempts : ℕ
  pub claimed_by : Option String
  pub lease_expires_at : Option ℕ
  pub error : Option String
  pub created_at : ℕ
  pub started_at : Option ℕ
  pub completed_at : Option ℕ
  pub updated_at : ℕ

pub record ClaimedBuild : Type 0 where
  pub job_id : ℕ
  pub app_id : ℕ
  pub base_revision_id : Option ℕ
  pub request : Fields
  pub attempt : ℕ

-- The tables of the builder, with the next unused keys of the outbox and of the jobs; `app_data` are
-- the app's own ones.
pub record BuildStore : Type 0 where
  pub jobs : List BuildJob
  pub app_data : DataStore
  pub outbox : List UserEvent
  pub next_event : ℕ
  pub next_job_id : ℕ

-- What a worker's process provides: the `json` module, the text of a UUID, and the milliseconds of a
-- time difference, which Python computes with floats.
pub record Runtime : Type 0 where
  pub dumps : Fields → String
  pub loads : String → Option Json
  pub print_id : ℕ → String
  pub milliseconds : ℕ → ℕ

-- `status in {queued, claimed}`
abbrev pub is_open : BuildStatus → Bool
is_open queued = true
is_open claimed = true
is_open succeeded = false
is_open failed = false

abbrev pub job_is : ℕ → BuildJob → Bool
job_is k j = j.id == k

abbrev purpose_in : Json → String → String
purpose_in (text s) fallback = take_text 500 s
purpose_in _ fallback = fallback

abbrev purpose_of : Json → String → String
purpose_of (object fs) fallback = purpose_in (get "purpose" fs) fallback
purpose_of _ fallback = fallback

-- `_build_purpose`
unfoldable pub build_purpose : Fields → String → String
build_purpose request fallback = purpose_of (get_or "blueprint" (object request) request) fallback

abbrev failure_code : Json → String
failure_code (text s) = if leb (text_len s) 64 then s else "build_failed"
failure_code _ = "build_failed"

abbrev as_bool : Json → Option Bool
as_bool (bool b) = some b
as_bool _ = none

abbrev failure_of : Option Json → String × Option Bool
failure_of (some (object fs)) = (failure_code (get "code" fs), as_bool (get "retryable" fs))
failure_of _ = ("build_failed", none)

abbrev pub enqueue : EventRequest → ℕ → BuildStore → BuildStore
enqueue q now s = record s {
  outbox = (enqueue_user_event q s.next_event now s.outbox).1;
  next_event = suc s.next_event;
}

abbrev pub write_job : BuildJob → (BuildJob → BuildJob) → BuildStore → BuildStore
write_job j f s = record s { jobs = update (job_is j.id) f s.jobs }

module _ (w : Runtime) where
  -- `_duration_ms`
  unfoldable pub duration_ms : ℕ → ℕ → ℕ
  duration_ms started finished =
      if leb started finished then w.milliseconds (finished - started) else 0

  -- `_safe_failure`
  unfoldable pub safe_failure : String → String × Option Bool
  safe_failure raw_error = failure_of (w.loads raw_error)

  abbrev pub failed_key : ℕ → String
  failed_key k = join_text "app-build-failed:" (w.print_id k)

  -- The event that tells the user of a failure.
  abbrev pub failed_event : GeneratedApp → BuildJob → String → String → Bool → ℕ → EventRequest
  failed_event app j app_url code retryable now = record {
    user_id = app.user_id;
    conversation_id = some app.conversation_id;
    event_type = "app.build.failed";
    source = "generated_app_builder";
    idempotency_key = failed_key j.id;
    payload = field "app_id" (text (w.print_id app.id)) (
        field "public_id" (text app.public_id) (
          field "title" (text app.title) (
            field "app_url" (text app_url) (
              field "description" (text app.description) (
                field "purpose" (text (build_purpose j.request app.description)) (
                  field "build_job_id" (text (w.print_id j.id)) (
                    field "duration_ms" (int (pos (duration_ms j.created_at now))) (
                      field "failure_code" (text code)
                        (field "retryable" (bool retryable) end)))))))));
    delivery_provider = j.delivery_provider;
  }
