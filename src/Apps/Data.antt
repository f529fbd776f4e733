-- ===== src/Apps/Data.antt =====
-- The records of a generated app in src/benji_api/services/generated_apps_v2.py: their tables, the
-- limits on them, and the events by which a repeated request is recognised.
pub mod Writing
use dot_backend.Prelude.{
  ℕ, zero, suc, ◌+◌, ◌-◌, String, Bool, true, false, not, ◌&&◌, ◌||◌, Option, none, some, List, [],
  ◌∷◌, ◌++◌, select, length, ltb, leb, ◌==◌, str_eq, text_is, id_is, is_some, find?, if◌then◌else◌,
}
use dot_backend.Prelude.Json.{ℤ, pos, Json, Fields, int, text, object, end, field, lookup}
use dot_backend.Jobs.Clock.{minutes}
use dot_backend.Apps.Records.{
  Store, GeneratedApp, AppResult, err, ok, ◌>>=◌, ◌>>◌, raise_if, or_raise, is_live, not_found,
  not_authorized, conflict, not_valid, rate_limited, is_code,
}
use dot_backend.Apps.Access.{AppActor, app_id_is}
use dot_backend.Apps.Manifest.{Encoding}

pub data RevisionStatus : Type 0 where
  ready rejected : RevisionStatus

pub record Revision : Type 0 where
  pub id : ℕ
  pub app_id : ℕ
  pub revision_number : ℕ
  pub title : String
  pub description : String
  pub status : RevisionStatus
  pub manifest : Fields
  pub seed_data : Fields
  pub seed_applied_at : Option ℕ
  pub source_files : Fields
  pub artifact : Fields
  pub artifact_url : String
  pub artifact_sha256 : String
  pub sdk_version : String
  pub dependency_lock : Fields
  pub test_results : Fields

-- Which revision of an app runs, and which one ran before it.
pub record Deployment : Type 0 where
  pub app_id : ℕ
  pub active_revision_id : ℕ
  pub previous_revision_id : Option ℕ
  pub deployment_version : ℕ
  pub deployed_at : ℕ

pub record DataRecord : Type 0 where
  pub id : ℕ
  pub app_id : ℕ
  pub entity : String
  pub content : Fields
  pub data_bytes : ℕ
  pub version : ℕ
  pub created_by_user_id : Option ℕ
  pub updated_by_user_id : Option ℕ
  pub created_at : ℕ
  pub updated_at : ℕ

pub record AppEvent : Type 0 where
  pub id : ℕ
  pub app_id : ℕ
  pub record_id : Option ℕ
  pub entity : Option String
  pub event_type : String
  pub actor_user_id : Option ℕ
  pub actor_session_id : Option ℕ
  pub idempotency_key : String
  pub operation : Option String
  pub request_hash : Option String
  pub response : Fields
  pub payload : Fields
  pub created_at : ℕ

pub record StoredDataRecord : Type 0 where
  pub id : ℕ
  pub entity : String
  pub content : Fields
  pub version : ℤ
  pub created_at : ℕ
  pub updated_at : ℕ

-- The tables, with the next unused key.
pub record DataStore : Type 0 where
  pub tables : Store
  pub revisions : List Revision
  pub deployments : List Deployment
  pub records : List DataRecord
  pub events : List AppEvent
  pub next_row : ℕ

-- What Python's libraries provide: `json.dumps` with sorted keys and without NaN, SHA-256, ids and
-- times as texts, and the conversions `str`, `int` and `dict`, `none` where they raise.
pub record Python : Type 0 where
  pub encoding : Encoding
  pub canonical : Json → Option String
  pub sha256 : String → String
  pub print_id : ℕ → String
  pub parse_id : String → Option ℕ
  pub print_time : ℕ → String
  pub parse_time : String → Option ℕ
  pub to_str : Json → String
  pub to_int : Json → Option ℤ
  pub to_dict : Json → Option Fields

abbrev pub max_records_per_app : ℕ
max_records_per_app = 10000

abbrev pub max_data_bytes_per_app : ℕ
max_data_bytes_per_app = 10000000

abbrev pub of_app : ℕ → DataRecord → Bool
of_app k r = r.app_id == k

-- `func.sum(data_bytes)` over the records of an app
unfoldable pub used_bytes : ℕ → List DataRecord → ℕ
used_bytes k [] = 0
used_bytes k (r ∷ records) = (if of_app k r then r.data_bytes else 0) + used_bytes k records

-- `func.count()` over the records of an app
unfoldable pub record_count : ℕ → List DataRecord → ℕ
record_count k [] = 0
record_count k (r ∷ records) = (if of_app k r then 1 else 0) + record_count k records

-- `_enforce_app_storage_limit`
unfoldable pub enforce_app_storage_limit : ℕ → ℕ → DataStore → AppResult (Unit {0})
enforce_app_storage_limit k added s =
    raise_if (ltb 0 added && ltb max_data_bytes_per_app (used_bytes k s.records + added)) not_valid

-- The events of the last minute.
abbrev recent : ℕ → ℕ → AppEvent → Bool
recent k now e = e.app_id == k && leb now (e.created_at + minutes 1)

abbrev by_actor : AppActor → AppEvent → Bool
by_actor actor e = elim actor.user_id [
  | none ↦ elim actor.session_id [ none ↦ false | some id ↦ id_is e.actor_session_id id ]
  | some user ↦ id_is e.actor_user_id user
]

-- `_enforce_mutation_rate_limit`
unfoldable pub enforce_mutation_rate_limit : ℕ → AppActor → ℕ → DataStore → AppResult (Unit {0})
enforce_mutation_rate_limit k actor now s = do
  raise_if (not (is_some actor.user_id) && not (is_some actor.session_id)) not_authorized
  locked ←
      or_raise (find? (λ (a : GeneratedApp). app_id_is k a && is_live a.status) s.tables.apps)
        not_found
  raise_if (leb 120 (length (select (λ e. recent k now e && by_actor actor e) s.events)))
      rate_limited
  raise_if (leb 600 (length (select (recent k now) s.events))) rate_limited

-- `_code_app`
unfoldable pub code_app : ℕ → DataStore → AppResult GeneratedApp
code_app k s = do
  app ← or_raise (find? (app_id_is k) s.tables.apps) not_found
  raise_if (not (is_live app.status && is_code app.runtime_kind)) not_found
  ok app

-- `_active_manifest`
unfoldable pub active_manifest : ℕ → DataStore → AppResult Fields
active_manifest k s = do
  app ← code_app k s
  d ← or_raise (find? (λ (d : Deployment). d.app_id == k) s.deployments) conflict
  r ← or_raise (find? (λ (r : Revision). r.id == d.active_revision_id) s.revisions) conflict
  ok r.manifest

-- `_event_by_key`; the key has been through `_text` before, which leaves it as it is.
abbrev pub has_event_key : ℕ → String → AppEvent → Bool
has_event_key k key e = e.app_id == k && str_eq e.idempotency_key key

abbrev pub event_by_key : ℕ → String → DataStore → Option AppEvent
event_by_key k key s = find? (has_event_key k key) s.events

-- `_replay_response`
unfoldable pub replay_response : AppEvent → String → String → AppResult Fields
replay_response e operation request_hash =
    if text_is e.operation operation && text_is e.request_hash request_hash
    then ok e.response
    else err conflict

module _ (py : Python) where
  -- `_idempotency_request_hash`
  unfoldable pub idempotency_request_hash : String → Fields → AppResult String
  idempotency_request_hash operation request = do
    encoded ←
        or_raise
          (py.canonical
            (object (field "operation" (text operation) (field "request" (object request) end))))
          not_valid
    ok (py.sha256 encoded)

  -- `_stored_record_from_event`
  unfoldable pub stored_record_from_event : AppEvent → String → String → AppResult StoredDataRecord
  stored_record_from_event e operation request_hash = do
    response ← replay_response e operation request_hash
    id_text ← or_raise (lookup "record_id" response) conflict
    id ← or_raise (py.parse_id (py.to_str id_text)) conflict
    entity ← or_raise (lookup "entity" response) conflict
    raw ← or_raise (lookup "data" response) conflict
    content ← or_raise (py.to_dict raw) conflict
    number ← or_raise (lookup "version" response) conflict
    version ← or_raise (py.to_int number) conflict
    created ← or_raise (lookup "created_at" response) conflict
    created_at ← or_raise (py.parse_time (py.to_str created)) conflict
    updated ← or_raise (lookup "updated_at" response) conflict
    updated_at ← or_raise (py.parse_time (py.to_str updated)) conflict
    ok (record {
      id = id;
      entity = py.to_str entity;
      content = content;
      version = version;
      created_at = created_at;
      updated_at = updated_at;
    })
