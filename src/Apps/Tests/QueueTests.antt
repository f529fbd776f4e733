-- ===== src/Apps/Tests/QueueTests.antt =====
-- The owner of an app asks for a revision of it.
use dot_backend.Prelude.{◌≡◌, refl, none, some, [], ◌∷◌, arith}
use dot_backend.Prelude.Json.{Fields, text, object, end, field}
use dot_backend.Apps.Tests.DataTests.{empty}
use dot_backend.Apps.Records.{ok}
use dot_backend.Apps.Access.{locked_code_app, locked_active_app, authorize_user_for_locked_app}
use dot_backend.Apps.Data.{idempotency_request_hash}
use dot_backend.Apps.Builds.{BuildJob, BuildStore, queued}
use dot_backend.Apps.Builds.Queueing.{
  queue_code_app_revision, enforce_user_app_build_quota, validated_request_hash, add_build,
}
use dot_backend.Apps.Builds.Queueing.Live.{start, queues, IsSingle, History-IsSingle}
use dot_backend.Apps.Tests.DataTests.{python}
use dot_backend.Apps.Tests.BuildTests.{runtime}

abbrev idle_store : BuildStore
idle_store = record { jobs = []; app_data = empty; outbox = []; next_event = 1; next_job_id = 3 }

abbrev wish : Fields
wish = field "revision_request" (text "Sort by date") end

abbrev revision_job : BuildJob
revision_job = record {
  id = 3;
  app_id = 5;
  base_revision_id = some 8;
  result_revision_id = none;
  status = queued;
  request = wish;
  idempotency_key = none;
  request_hash = none;
  result = end;
  delivery_provider = some "linq";
  app_url = "/a/rent";
  attempts = 0;
  claimed_by = none;
  lease_expires_at = none;
  error = none;
  created_at = 100;
  started_at = none;
  completed_at = none;
  updated_at = 100;
}

revision_queued :
    queue_code_app_revision python
      (10 ∷ [])
      10
      5
      (object wish)
      (some "linq")
      none
      none
      none
      100
      idle_store
    ≡ ok (revision_job, add_build revision_job idle_store)
unfolding queue_code_app_revision locked_code_app locked_active_app authorize_user_for_locked_app
    idempotency_request_hash enforce_user_app_build_quota validated_request_hash
revision_queued = refl

History-IsSingle_example : IsSingle (add_build revision_job idle_store)
History-IsSingle_example =
    History-IsSingle runtime python idle_store (add_build revision_job idle_store)
      (queues (10 ∷ []) 10 5 (object wish) (some "linq") none none none 100 revision_job start tt
        revision_queued)
      (record { keyed = tt; single = λ k. omega arith })
