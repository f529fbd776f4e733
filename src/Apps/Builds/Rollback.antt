-- ===== src/Apps/Builds/Rollback.antt =====
-- `rollback_owned_code_app` of src/benji_api/services/generated_apps_v2.py: the owner of an app puts
-- the revision back that ran before.
pub mod Undone
use dot_backend.Prelude.{
  ℕ, suc, String, Bool, true, false, not, ◌&&◌, ◌||◌, Option, none, some, List, [], ◌∷◌, ◌++◌, any,
  ltb, ◌==◌, is_some, or_else, find?, first_by, join_text, if◌then◌else◌,
}
use dot_backend.Prelude.Json.{
  ℤ, pos, Json, Fields, text, int, bool, object, end, field, lookup, truthy,
}
use dot_backend.Apps.Records.{
  GeneratedApp, AppResult, err, ok, ◌>>=◌, ◌>>◌, raise_if, or_raise, is_app_owner, conflict,
  not_authorized, not_found,
}
use dot_backend.Apps.Access.{AppActor, app_id_is, locked_code_app, authorize_user_for_locked_app}
use dot_backend.Apps.Data.{
  Revision, RevisionStatus, ready, rejected, Deployment, AppEvent, DataStore, Python, event_by_key,
  replay_response, idempotency_request_hash,
}
use dot_backend.Apps.Builds.{BuildJob, BuildStore}
use dot_backend.Apps.Builds.Queueing.{clean_key, ensure_no_live_build}
use dot_backend.Apps.Builds.Promoting.{
  revision_is, deployment_of, promote_revision, validate_existing_records_for_manifest,
}

pub record OwnedCodeApp : Type 0 where
  pub app : GeneratedApp
  pub revision : Revision
  pub deployment : Deployment
  pub build : Option BuildJob
  pub actor : AppActor

pub record StoredRollback : Type 0 where
  pub app_id : ℕ
  pub public_id : String
  pub title : String
  pub active_revision_id : ℕ
  pub active_revision_number : ℤ
  pub deployment_version : ℤ
  pub rollback_is_reversible : Bool

-- A rollback returns what it did, or the response that it stored when it was asked for before.
pub data RollbackResult : Type 0 where
  rolled_back : OwnedCodeApp → RollbackResult
  replayed : StoredRollback → RollbackResult

abbrev pub is_ready : RevisionStatus → Bool
is_ready ready = true
is_ready rejected = false

abbrev pub rollback_operation : String
rollback_operation = "deployment.rollback"

-- The build of the app that was asked for last.
abbrev latest_build : ℕ → List BuildJob → Option BuildJob
latest_build k jobs =
    first_by (λ (a b : BuildJob). ltb b.created_at a.created_at) (λ j. j.app_id == k) jobs

-- The key of the event holds no text, or the text that was given.
abbrev if_keyed {ℓ} : {A : Type ℓ} → Option String → A → A → A
if_keyed none given missing = missing
if_keyed (some key) given missing = given

module _ (py : Python) where
  -- `_stored_rollback_from_event`
  unfoldable pub stored_rollback_from_event :
      AppEvent → GeneratedApp → String → AppResult StoredRollback
  stored_rollback_from_event e app request_hash = do
    response ← replay_response e rollback_operation request_hash
    app_text ← or_raise (lookup "app_id" response) conflict
    app_id ← or_raise (py.parse_id (py.to_str app_text)) conflict
    raise_if (not (app_id == app.id)) conflict
    public_id ← or_raise (lookup "public_id" response) conflict
    title ← or_raise (lookup "title" response) conflict
    active ← or_raise (lookup "active_revision_id" response) conflict
    active_id ← or_raise (py.parse_id (py.to_str active)) conflict
    number ← or_raise (lookup "active_revision_number" response) conflict
    active_number ← or_raise (py.to_int number) conflict
    version ← or_raise (lookup "deployment_version" response) conflict
    deployment_version ← or_raise (py.to_int version) conflict
    reversible ← or_raise (lookup "rollback_is_reversible" response) conflict
    ok (record {
      app_id = app.id;
      public_id = py.to_str public_id;
      title = py.to_str title;
      active_revision_id = active_id;
      active_revision_number = active_number;
      deployment_version = deployment_version;
      rollback_is_reversible = truthy reversible;
    })

  abbrev rollback_response : GeneratedApp → Revision → Deployment → Fields
  rollback_response app target d = field "app_id" (text (py.print_id app.id)) (
      field "public_id" (text app.public_id) (
        field "title" (text app.title) (
          field "active_revision_id" (text (py.print_id target.id)) (
            field "active_revision_number" (int (pos target.revision_number)) (
              field "deployment_version" (int (pos d.deployment_version))
                (field "rollback_is_reversible" (bool (is_some d.previous_revision_id)) end))))))

  abbrev rollback_payload : Revision → Revision → Deployment → Fields
  rollback_payload replaced target d = field "from_revision_id" (text (py.print_id replaced.id)) (
      field "from_revision_number" (int (pos replaced.revision_number)) (
        field "to_revision_id" (text (py.print_id target.id)) (
          field "to_revision_number" (int (pos target.revision_number))
            (field "deployment_version" (int (pos d.deployment_version)) end))))

  -- `clean_idempotency_key or f"app-rollback:{...}"`
  abbrev rollback_key : Option String → Deployment → String
  rollback_key none d = join_text "app-rollback:" (py.to_str (int (pos d.deployment_version)))
  rollback_key (some key) d = key

  abbrev rollback_event :
      ℕ
      → ℕ
      → GeneratedApp
      → Revision
      → Revision
      → Deployment
      → Option String
      → String
      → ℕ
      → ℕ
      → AppEvent
  rollback_event k user app replaced target d key request_hash now fresh = record {
    id = fresh;
    app_id = k;
    record_id = none;
    entity = none;
    event_type = "app.deployment.rolled_back";
    actor_user_id = some user;
    actor_session_id = none;
    idempotency_key = rollback_key key d;
    operation = if_keyed key (some rollback_operation) none;
    request_hash = if_keyed key (some request_hash) none;
    response = if_keyed key (rollback_response app target d) end;
    payload = rollback_payload replaced target d;
    created_at = now;
  }

  abbrev add_event : AppEvent → DataStore → DataStore
  add_event e s = record s { events = s.events ++ e ∷ []; next_row = suc s.next_row }

  -- The app's row as the promotion has left it.
  abbrev shown_app : ℕ → GeneratedApp → DataStore → GeneratedApp
  shown_app k app s = elim (find? (app_id_is k) s.tables.apps) [ none ↦ app | some now ↦ now ]

  abbrev pub record_rollback :
      ℕ
      → ℕ
      → GeneratedApp
      → AppActor
      → Revision
      → Revision
      → Option String
      → String
      → ℕ
      → BuildStore
      → Deployment × DataStore
      → AppResult (RollbackResult × BuildStore)
  record_rollback k user app actor replaced target key request_hash now s (d, t) =
      let current = shown_app k app t in
      ok (
        rolled_back (record {
          app = current;
          revision = target;
          deployment = d;
          build = latest_build k s.jobs;
          actor = actor;
        }),
        record s {
          app_data =
              add_event
                (rollback_event k user current replaced target d key request_hash now t.next_row) t;
        },
      )

  -- What follows the checks of the request.
  abbrev pub roll_back :
      ℕ
      → ℕ
      → GeneratedApp
      → AppActor
      → ℕ
      → Option String
      → String
      → ℕ
      → BuildStore
      → AppResult (RollbackResult × BuildStore)
  roll_back k user app actor expected key request_hash now s = do
    d ← or_raise (find? (deployment_of k) s.app_data.deployments) conflict
    previous ← or_raise d.previous_revision_id conflict
    raise_if (not (d.active_revision_id == expected)) conflict
    ensure_no_live_build k s
    replaced ← or_raise (find? (revision_is d.active_revision_id) s.app_data.revisions) conflict
    target ← or_raise (find? (revision_is previous) s.app_data.revisions) conflict
    raise_if (not (target.app_id == k && is_ready target.status)) conflict
    validate_existing_records_for_manifest py k target.manifest s.app_data.records
    done ← promote_revision py k target.id none now s.app_data
    record_rollback k user app actor replaced target key request_hash now s done

  abbrev pub replay_or_roll_back :
      ℕ
      → ℕ
      → GeneratedApp
      → AppActor
      → ℕ
      → Option String
      → String
      → ℕ
      → BuildStore
      → Option AppEvent
      → AppResult (RollbackResult × BuildStore)
  replay_or_roll_back k user app actor expected key request_hash now s none =
      roll_back k user app actor expected key request_hash now s
  replay_or_roll_back k user app actor expected key request_hash now s (some e) =
      stored_rollback_from_event e app request_hash >>= λ r. ok (replayed r, s)

  abbrev pub earlier_event : ℕ → Option String → BuildStore → Option AppEvent
  earlier_event k none s = none
  earlier_event k (some key) s = event_by_key k key s.app_data

  -- `rollback_owned_code_app`
  unfoldable pub rollback_owned_code_app :
      ℕ → ℕ → ℕ → Option String → ℕ → BuildStore → AppResult (RollbackResult × BuildStore)
  rollback_owned_code_app user k expected idempotency_key now s = do
    app ← locked_code_app k s.app_data.tables
    actor ← authorize_user_for_locked_app app user s.app_data.tables
    raise_if (not (is_app_owner actor.role && app.user_id == user)) not_authorized
    key ← clean_key idempotency_key
    request_hash ←
        idempotency_request_hash py rollback_operation
          (field "expected_active_revision_id" (text (py.print_id expected)) end)
    replay_or_roll_back k user app actor expected key request_hash now s (earlier_event k key s)
