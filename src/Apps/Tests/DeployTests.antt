-- ===== src/Apps/Tests/DeployTests.antt =====
-- An app that runs its first revision gets a second one, which is rolled back again.
use dot_backend.Prelude.{
  ◌≡◌, ◌≢◌, refl, String, true, false, none, some, [], ◌∷◌, here, arith, update, text_len,
  take_text, Bool, strip, lstrip, rstrip,
}
use dot_backend.Prelude.Json.{pos, Fields, text, bool, object, end, field, get, get_or, elements}
use dot_backend.Apps.Records.{AppResult, ok, err, app_role, clean_text, optional_text}
use dot_backend.Apps.Access.{
  locked_code_app, locked_active_app, authorize_user_for_locked_app, issue_access_ticket,
  persist_access_ticket, issue_trusted_group_handoff_ticket,
}
use dot_backend.Apps.Data.{Revision, DataStore, Python, idempotency_request_hash}
use dot_backend.Apps.Builds.{BuildJob, BuildStore, claimed}
use dot_backend.Apps.Builds.Queueing.{all_hex}
use dot_backend.Apps.Builds.Promoting.{
  swap, mark_seeded, show_revision, with_apps, promote_revision,
  validate_existing_records_for_manifest,
}
use dot_backend.Apps.Builds.Gates.{validate_promotable_compiled_artifact}
use dot_backend.Apps.Builds.Promoting.Once.{
  IsDeployed, promote_revision-once, promote_revision-IsDeployed,
}
use dot_backend.Apps.Builds.Rollback.{RollbackResult, replayed, rollback_owned_code_app}
use dot_backend.Apps.Builds.Rollback.Undone.{Runs, rollback_owned_code_app-undone}
use dot_backend.Apps.Builds.Failing.{claimed_job}
use dot_backend.Apps.Builds.Telemetry.{Floats}
use dot_backend.Apps.Builds.Completing.{Built, complete_build}
use dot_backend.Apps.Builds.Completing.Delivered.{IsDelivered, complete_build-IsDelivered}
use dot_backend.Apps.Manifest.{
  validate_manifest, entity_name, is_identifier, all_word, entity_fields, parse_capabilities,
  field_kind,
}
use dot_backend.Apps.Tests.BuildTests.{runtime}
use dot_backend.Apps.Tests.DataTests.{python, empty, first_revision, first_deployment}

abbrev digest : String
digest = "0123456789abcdef0123456789abcdef0123456789abcdef0123456789abcdef"

-- The hash function gives every text the same digest.
abbrev py : Python
py = record python { sha256 = λ s. digest }

abbrev stage : Fields
stage = field "status" (text "passed") end

abbrev artifact : Fields
artifact = field "sdk_version" (text "1") (
    field "browser_bundle"
      (object (
        field "format" (text "iife") (
          field "javascript" (text "run()") (
            field "css" (text "") (
              field "sha256" (text digest)
                (field "static_html" (text "<p>") (field "sdk_version" (text "1") end)))))))
      (field "test_results"
        (object (
          field "policy" (object stage) (
            field "typescript_compile" (object stage) (
              field "browser_smoke"
                (object (
                  field "status" (text "passed")
                    (field "real_browser" (object (field "ready" (bool true) end)) end)))
                end))))
        end))

abbrev old : Revision
old = record first_revision { artifact = artifact }

abbrev new : Revision
new = record old { id = 9; revision_number = 2; title = "Trips"; seed_applied_at = none }

abbrev newer : Revision
newer = record old { id = 10; revision_number = 3; seed_applied_at = none }

abbrev built : DataStore
built = record empty { revisions = old ∷ new ∷ newer ∷ []; deployments = first_deployment ∷ [] }

abbrev promoted : DataStore
promoted = mark_seeded 9 100 (
    with_apps (update (λ a. true) (show_revision new 100))
      (record built { deployments = swap 9 100 first_deployment ∷ [] }))

gates : validate_promotable_compiled_artifact py (object artifact) "1" ≡ ok tt
unfolding validate_promotable_compiled_artifact get strip lstrip rstrip text_len all_hex
gates = refl

new_promoted :
    promote_revision py 5 9 (some (some 8)) 100 built ≡ ok (swap 9 100 first_deployment, promoted)
unfolding promote_revision validate_promotable_compiled_artifact get strip lstrip rstrip text_len
    all_hex
new_promoted = refl

promote_revision-once_example :
    promote_revision py 5 10 (some (some 8)) 200 promoted ≢ ok (first_deployment, built)
promote_revision-once_example =
    promote_revision-once py 5 9 10 (some 8) 100 200 built (swap 9 100 first_deployment) promoted
      (first_deployment, built) new_promoted (λ e. ground arith)

promote_revision-IsDeployed_example : IsDeployed py promoted
promote_revision-IsDeployed_example =
    promote_revision-IsDeployed py 5 9 (some (some 8)) 100 built (swap 9 100 first_deployment)
      promoted ((old, here refl, refl, refl, gates), tt) new_promoted

-- Whether a call returned, what it returned, and the tables that it left.
abbrev returned {ℓ} : {A : Type ℓ} → AppResult A → Bool
returned (ok a) = true
returned (err e) = false

abbrev tables_after {ℓ} : {A : Type ℓ} → BuildStore → AppResult (A × BuildStore) → BuildStore
tables_after s (ok (a, s')) = s'
tables_after s (err e) = s

abbrev result_or {ℓ} : {A : Type ℓ} → A → AppResult (A × BuildStore) → A
result_or a (ok (b, s)) = b
result_or a (err e) = a

returned-ok {ℓ} :
    {A : Type ℓ} (a : A) (s : BuildStore) (r : AppResult (A × BuildStore))
    → returned r ≡ true
    → r ≡ ok (result_or a r, tables_after s r)
returned-ok a s (ok (b, s')) h = refl
returned-ok a s (err e) h = absurd (cc)

abbrev idle : BuildStore
idle = record { jobs = []; app_data = promoted; outbox = []; next_event = 1; next_job_id = 3 }

abbrev no_result : RollbackResult
no_result = replayed (record {
  app_id = 0;
  public_id = "";
  title = "";
  active_revision_id = 0;
  active_revision_number = pos 0;
  deployment_version = pos 0;
  rollback_is_reversible = false;
})

abbrev first_rollback : AppResult (RollbackResult × BuildStore)
first_rollback = rollback_owned_code_app py 10 5 9 none 300 idle

abbrev second_rollback : AppResult (RollbackResult × BuildStore)
second_rollback = rollback_owned_code_app py 10 5 8 none 400 (tables_after idle first_rollback)

first_returned : returned first_rollback ≡ true
unfolding rollback_owned_code_app locked_code_app locked_active_app authorize_user_for_locked_app
    idempotency_request_hash promote_revision validate_promotable_compiled_artifact get strip lstrip
    rstrip text_len all_hex validate_existing_records_for_manifest
first_returned = refl

second_returned : returned second_rollback ≡ true
unfolding rollback_owned_code_app locked_code_app locked_active_app authorize_user_for_locked_app
    idempotency_request_hash promote_revision validate_promotable_compiled_artifact get strip lstrip
    rstrip text_len all_hex validate_existing_records_for_manifest
second_returned = refl

rollback_owned_code_app-undone_example :
    Runs 5 (tables_after (tables_after idle first_rollback) second_rollback).app_data 9 8
rollback_owned_code_app-undone_example =
    rollback_owned_code_app-undone py 5 10 10 9 8 300 400 9 8 idle
      (tables_after idle first_rollback)
      (tables_after (tables_after idle first_rollback) second_rollback)
      (result_or no_result first_rollback) (result_or no_result second_rollback)
      (swap 9 100 first_deployment, refl, refl, refl)
      (returned-ok no_result idle first_rollback first_returned)
      (returned-ok no_result (tables_after idle first_rollback) second_rollback second_returned)

abbrev floats : Floats
floats = record { to_float = λ v. v; at_least_zero = λ s. true }

abbrev job : BuildJob
job = record {
  id = 1;
  app_id = 5;
  base_revision_id = some 8;
  result_revision_id = none;
  status = claimed;
  request = field "blueprint" (object (field "title" (text "Trip plans") end)) end;
  idempotency_key = none;
  request_hash = none;
  result = end;
  delivery_provider = some "linq";
  app_url = "/a/rent";
  attempts = 1;
  claimed_by = some "worker";
  lease_expires_at = some 900;
  error = none;
  created_at = 20;
  started_at = some 30;
  completed_at = none;
  updated_at = 30;
}

abbrev at_work : BuildStore
at_work = record { jobs = job ∷ []; app_data = built; outbox = []; next_event = 1; next_job_id = 3 }

abbrev product : Built
product = record {
  manifest = first_revision.manifest;
  source_files = field "App.tsx" (text "app") end;
  artifact_url = "https://cdn/40";
  artifact_sha256 = digest;
  sdk_version = "1";
  dependency_lock = none;
  test_results = none;
  artifact = some artifact;
  app_url = none;
  handoff_base_url = some "https://dot/a/rent";
  build_metadata = none;
}

abbrev completion : AppResult (Revision × BuildStore)
completion = complete_build py runtime floats 1 "worker" (pos 1) product "token" 500 at_work

completed : returned completion ≡ true
unfolding complete_build claimed_job validate_manifest entity_name is_identifier all_word
    entity_fields parse_capabilities field_kind clean_text optional_text locked_code_app
    locked_active_app authorize_user_for_locked_app issue_access_ticket persist_access_ticket
    issue_trusted_group_handoff_ticket promote_revision validate_promotable_compiled_artifact get
    get_or elements strip lstrip rstrip text_len take_text all_hex app_role
    validate_existing_records_for_manifest
completed = refl

complete_build-IsDelivered_example :
    (j : BuildJob) × (claimed_job 1 "worker" (pos 1) at_work ≡ ok j)
    × IsDelivered runtime j (result_or new completion) at_work (tables_after at_work completion)
complete_build-IsDelivered_example =
    complete_build-IsDelivered py runtime floats 1 "worker" (pos 1) product "token" 500 at_work
      (tables_after at_work completion) (result_or new completion)
      (returned-ok new at_work completion completed)
