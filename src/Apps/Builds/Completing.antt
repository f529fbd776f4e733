-- ===== src/Apps/Builds/Completing.antt =====
-- `complete_build` of src/benji_api/services/generated_apps_v2.py: a worker hands in what it has
-- built, which becomes the app's new revision, runs, and is announced to the user.
pub mod Delivered
use dot_backend.Prelude.{
  ℕ, suc, max, String, Bool, true, false, not, ◌&&◌, Option, none, some, List, [], ◌∷◌, ◌++◌, ◌==◌,
  is_some, is_blank, find?, update, join_text, if◌then◌else◌,
}
use dot_backend.Prelude.Json.{
  ℤ, pos, Json, Fields, text, int, object, null, end, field, get, get_or, fields_of, either,
}
use dot_backend.Jobs.Events.{EventRequest}
use dot_backend.Apps.Records.{
  GeneratedApp, Conversation, Store, AppResult, err, ok, ◌>>=◌, ◌>>◌, raise_if, or_raise, is_group,
  is_collaborative, clean_text, optional_text, not_valid,
}
use dot_backend.Apps.Access.{
  locked_code_app, issue_access_ticket, issue_trusted_group_handoff_ticket,
}
use dot_backend.Apps.Manifest.{validate_manifest, require_json_size}
use dot_backend.Apps.Data.{Revision, ready, Deployment, DataStore, Python}
use dot_backend.Apps.Builds.{
  BuildJob, BuildStatus, succeeded, BuildStore, Runtime, build_purpose, duration_ms, enqueue,
  write_job,
}
use dot_backend.Apps.Builds.Failing.{claimed_job}
use dot_backend.Apps.Builds.Promoting.{
  validate_existing_records_for_manifest, revision_is, promote_revision,
}
use dot_backend.Apps.Builds.Gates.{is_digest, validate_promotable_compiled_artifact}
use dot_backend.Apps.Builds.Telemetry.{Floats, or_empty, safe_build_telemetry}

-- What the worker hands in.
pub record Built : Type 0 where
  pub manifest : Fields
  pub source_files : Fields
  pub artifact_url : String
  pub artifact_sha256 : String
  pub sdk_version : String
  pub dependency_lock : Option Fields
  pub test_results : Option Fields
  pub artifact : Option Fields
  pub app_url : Option String
  pub handoff_base_url : Option String
  pub build_metadata : Option Fields

abbrev as_json : Option Fields → Json
as_json none = null
as_json (some fs) = object fs

abbrev is_empty : Fields → Bool
is_empty end = true
is_empty (field k v fs) = false

abbrev max_number : ℕ → List Revision → ℕ
max_number k [] = 0
max_number k (r ∷ revisions) =
    let rest = max_number k revisions in if r.app_id == k then max r.revision_number rest else rest

-- `metadata.get("description")`, or the blueprint's, or the app's
abbrev description_of : Fields → Fields → String → Json
description_of metadata blueprint current = elim (get "description" metadata) [
  | null ↦ get_or "description" (text current) blueprint
  | v ↦ v
]

abbrev title_of : Fields → Fields → String → Json
title_of metadata blueprint current =
    either (either (get "title" metadata) (get "title" blueprint)) (text current)

abbrev new_revision : Built → ℕ → ℕ → String → String → Fields → String → String → ℕ → Revision
new_revision b k number title description seed_data url sdk_version fresh = record {
  id = fresh;
  app_id = k;
  revision_number = number;
  title = title;
  description = description;
  status = ready;
  manifest = b.manifest;
  seed_data = seed_data;
  seed_applied_at = none;
  source_files = b.source_files;
  artifact = or_empty b.artifact;
  artifact_url = url;
  artifact_sha256 = b.artifact_sha256;
  sdk_version = sdk_version;
  dependency_lock = or_empty b.dependency_lock;
  test_results = or_empty b.test_results;
}

abbrev pub add_revision : Revision → DataStore → DataStore
add_revision r s = record s { revisions = s.revisions ++ r ∷ []; next_row = suc s.next_row }

-- The chat of the app, if it is a group.
abbrev group_of : Option Conversation → Option Conversation
group_of none = none
group_of (some c) = if is_group c.kind then some c else none

-- `app_url or job.app_url`
abbrev given_url : Option String → String → String
given_url none job_url = job_url
given_url (some url) job_url = if is_blank url then job_url else url

abbrev pub completed_key : Runtime → ℕ → String
completed_key w k = join_text "app-build-completed:" (w.print_id k)

abbrev pub stored_or : Revision → Option Revision → Revision
stored_or r none = r
stored_or r (some x) = x

-- The revision as the promotion has left it.
abbrev pub as_stored : Revision → DataStore → Revision
as_stored r s = stored_or r (find? (revision_is r.id) s.revisions)

module _ (py : Python) (w : Runtime) (f : Floats) where
  -- The checks of what was handed in, before the app is looked up.
  abbrev pub acceptable : Built → AppResult (Unit {0})
  acceptable b = do
    validate_manifest py.encoding (object b.manifest)
    require_json_size py.encoding (object (or_empty b.artifact)) 4000000
    require_json_size py.encoding (object (or_empty b.dependency_lock)) 64000
    require_json_size py.encoding (object (or_empty b.test_results)) 128000
    raise_if (is_empty b.source_files) not_valid
    raise_if (not (is_digest b.artifact_sha256)) not_valid
    validate_promotable_compiled_artifact py (as_json b.artifact) b.sdk_version

  abbrev pub revision_of : Built → BuildJob → GeneratedApp → DataStore → AppResult Revision
  revision_of b j app s =
      let blueprint = fields_of (get "blueprint" j.request) in
      let metadata = fields_of (get "app_metadata" j.request) in
      let seed_data = fields_of (get "seed_data" blueprint) in
      do
        title ← clean_text (title_of metadata blueprint app.title) 120
        description ← optional_text (description_of metadata blueprint app.description) 500
        require_json_size py.encoding (object seed_data) 128000
        url ← clean_text (text b.artifact_url) 4000
        sdk_version ← clean_text (text b.sdk_version) 64
        ok (
            new_revision b j.app_id (suc (max_number j.app_id s.revisions)) title description
              seed_data url sdk_version s.next_row)

  -- The ticket for the link: anonymous in a group, else the owner's or a member's.
  abbrev issue_ticket :
      GeneratedApp → Option Conversation → String → ℕ → Store → AppResult (String × Store)
  issue_ticket app (some c) raw now s =
      issue_trusted_group_handoff_ticket py.sha256 app c (pos 604800) raw now s
  issue_ticket app none raw now s =
      if is_collaborative app.access_mode
      then issue_access_ticket py.sha256 app.id app.user_id none "member" (pos 604800) raw now s
      else issue_access_ticket py.sha256 app.id app.user_id (some app.user_id) "owner" (pos 604800)
          raw now s

  -- The link that the user gets, and whether it goes into the job.
  abbrev pub link_of :
      Built → BuildJob → GeneratedApp → String → ℕ → Store → AppResult ((String × Bool) × Store)
  link_of b j app raw now s = elim b.handoff_base_url [
    | none ↦ ok ((given_url b.app_url j.app_url, false), s)
    | some base ↦
        issue_ticket app
          (group_of (find? (λ (c : Conversation). c.id == app.conversation_id) s.conversations)) raw
          now s
        >>= λ issued. clean_text (text base) 4000 >>= λ clean.
            ok ((join_text clean (join_text "#handoff=" issued.0), true), issued.1)
  ]

  abbrev pub settle_succeeded : Built → Revision → String × Bool → ℕ → BuildJob → BuildJob
  settle_succeeded b r link now j = record j {
    result_revision_id = some r.id;
    status = succeeded;
    error = none;
    result = field "revision_id" (text (w.print_id r.id)) (
        field "artifact_sha256" (text b.artifact_sha256)
          (field "build_metadata" (object (or_empty b.build_metadata)) end));
    completed_at = some now;
    lease_expires_at = none;
    updated_at = now;
    app_url = if link.1 then link.0 else j.app_url;
  }

  abbrev pub completed_event :
      Built → GeneratedApp → Revision → BuildJob → String → ℕ → EventRequest
  completed_event b app r j app_url now = record {
    user_id = app.user_id;
    conversation_id = some app.conversation_id;
    event_type = "app.build.completed";
    source = "generated_app_builder";
    idempotency_key = completed_key w j.id;
    payload = field "app_id" (text (w.print_id app.id)) (
        field "public_id" (text app.public_id) (
          field "title" (text r.title) (
            field "app_url" (text app_url) (
              field "description" (text r.description) (
                field "purpose" (text (build_purpose j.request r.description)) (
                  field "revision_id" (text (w.print_id r.id)) (
                    field "build_job_id" (text (w.print_id j.id)) (
                      field "duration_ms" (int (pos (duration_ms w j.created_at now)))
                        (safe_build_telemetry f b.artifact b.test_results b.build_metadata)))))))));
    delivery_provider = j.delivery_provider;
  }

  -- The job, the tickets and the event, once the revision runs.
  abbrev pub announce :
      Built
      → BuildJob
      → GeneratedApp
      → Revision
      → ℕ
      → BuildStore
      → DataStore
      → (String × Bool) × Store
      → AppResult (Revision × BuildStore)
  announce b j app r now s t (link, tables) =
      let written =
        write_job j (settle_succeeded b r link now)
          (record s { app_data = record t { tables = tables } }) in
      ok (as_stored r t, enqueue (completed_event b app r j link.0 now) now written)

  -- `complete_build`; `raw` is the token of the ticket.
  unfoldable pub complete_build :
      ℕ → String → ℤ → Built → String → ℕ → BuildStore → AppResult (Revision × BuildStore)
  complete_build k worker expected b raw now s = do
    j ← claimed_job k worker expected s
    acceptable b
    app ← locked_code_app j.app_id s.app_data.tables
    r ← revision_of b j app s.app_data
    validate_existing_records_for_manifest py j.app_id b.manifest s.app_data.records
    promoted ←
        promote_revision py j.app_id r.id (some j.base_revision_id) now (add_revision r s.app_data)
    linked ← link_of b j app raw now promoted.1.tables
    announce b j app r now s promoted.1 linked
