-- ===== src/Apps/Data/Writing.antt =====
-- `create_data_record` and `update_data_record` of
-- services/generated_apps_v2.py.
pub mod Creating
pub mod Repeating
pub mod Changing
pub mod Limits
pub mod Deleting
pub mod Bounded
use dot_backend.Prelude.{
  ℕ, zero, suc, ◌+◌, ◌-◌, String, Bool, true, false, not, ◌&&◌, Option, none, some, List, [], ◌∷◌,
  ◌++◌, any, leb, ◌==◌, find?, update, delete, if◌then◌else◌,
}
use dot_backend.Prelude.Json.{
  ℤ, pos, negsuc, Json, Fields, null, bool, int, text, object, end, field, put, remove,
}
use dot_backend.Apps.Records.{
  AppResult, err, ok, ◌>>=◌, ◌>>◌, raise_if, or_raise, not_found, conflict, not_valid, clean_text,
}
use dot_backend.Apps.Access.{AppActor, reauthorize_actor, require_write}
use dot_backend.Apps.Manifest.{entity_name, as_object}
use dot_backend.Apps.Entities.{validate_entity_data}
use dot_backend.Apps.Data.{
  DataRecord, AppEvent, StoredDataRecord, DataStore, Python, max_records_per_app, of_app,
  record_count, enforce_app_storage_limit, enforce_mutation_rate_limit, active_manifest,
  event_by_key, replay_response, idempotency_request_hash, stored_record_from_event,
}

-- What a call returns: the row, or the snapshot of the call that it repeats.
pub data Saved : Type 0 where
  row : DataRecord → Saved
  snapshot : StoredDataRecord → Saved

abbrev pub is_record : ℕ → ℕ → DataRecord → Bool
is_record k id r = r.id == id && of_app k r

-- `GeneratedAppDataRecord.version == expected_version`
abbrev pub at_version : ℤ → DataRecord → Bool
at_version (pos n) r = r.version == n
at_version (negsuc n) r = false

-- The data with the changes of a request: a null removes its key.
unfoldable pub merge : Fields → Fields → Fields
merge end current = current
merge (field key null rest) current = merge rest (remove key current)
merge (field key v rest) current = merge rest (put key v current)

abbrev pub added : DataRecord → AppEvent → DataStore → DataStore
added r e s = record s {
  records = s.records ++ r ∷ [];
  events = s.events ++ e ∷ [];
  next_row = suc (suc s.next_row);
}

module _ (py : Python) where
  abbrev pub response_of : DataRecord → Fields
  response_of r = field "record_id" (text (py.print_id r.id)) (
      field "entity" (text r.entity) (
        field "data" (object r.content) (
          field "version" (int (pos r.version)) (
            field "created_at" (text (py.print_time r.created_at))
              (field "updated_at" (text (py.print_time r.updated_at)) end)))))

  -- `_add_data_event`
  abbrev pub data_event :
      ℕ → DataRecord → AppActor → String → String → String → String → ℕ → ℕ → AppEvent
  data_event k r actor event_type operation hash key now fresh = record {
    id = fresh;
    app_id = k;
    record_id = some r.id;
    entity = some r.entity;
    event_type = event_type;
    actor_user_id = actor.user_id;
    actor_session_id = actor.session_id;
    idempotency_key = key;
    operation = some operation;
    request_hash = some hash;
    response = response_of r;
    payload =
        field "record_id" (text (py.print_id r.id))
          (field "version" (int (pos r.version)) (field "data" (object r.content) end));
    created_at = now;
  }

  -- `if existing is not None`
  abbrev pub replay_or :
      String
      → String
      → DataStore
      → Option AppEvent
      → AppResult (Saved × DataStore)
      → AppResult (Saved × DataStore)
  replay_or operation hash s none otherwise = otherwise
  replay_or operation hash s (some e) otherwise = do
    stored ← stored_record_from_event py e operation hash
    ok (snapshot stored, s)

  abbrev pub new_record : ℕ → AppActor → String → Fields → ℕ → ℕ → DataRecord
  new_record k actor entity content now fresh = record {
    id = fresh;
    app_id = k;
    entity = entity;
    content = content;
    data_bytes = py.encoding.json_bytes (object content);
    version = 1;
    created_by_user_id = actor.user_id;
    updated_by_user_id = actor.user_id;
    created_at = now;
    updated_at = now;
  }

  -- What follows the checks of the request in `create_data_record`.
  abbrev pub insert_record :
      ℕ
      → AppActor
      → String
      → Fields
      → String
      → String
      → ℕ
      → DataStore
      → AppResult (Saved × DataStore)
  insert_record k actor entity fs key hash now s = do
    manifest ← active_manifest k s
    content ← validate_entity_data py.encoding manifest entity fs
    raise_if (leb max_records_per_app (record_count k s.records)) not_valid
    enforce_app_storage_limit k (py.encoding.json_bytes (object content)) s
    let r = new_record k actor entity content now s.next_row in
        ok (
          row r,
          added r
              (data_event k r actor "app.data.created" "records.create" hash key now
                (suc s.next_row))
              s,
        )

  -- `create_data_record`
  unfoldable pub create_data_record :
      ℕ → AppActor → Json → Json → String → ℕ → DataStore → AppResult (Saved × DataStore)
  create_data_record k claimed_actor entity content idempotency_key now s = do
    actor ← reauthorize_actor k claimed_actor now s.tables
    require_write actor
    name ← entity_name entity
    fs ← as_object content
    key ← clean_text (text idempotency_key) 160
    hash ←
        idempotency_request_hash py "records.create"
          (field "entity" (text name) (field "data" (object fs) end))
    replay_or "records.create" hash s (event_by_key k key s) (do
      enforce_mutation_rate_limit k actor now s
      replay_or "records.create" hash s (event_by_key k key s)
          (insert_record k actor name fs key hash now s))

  abbrev pub edit : AppActor → Fields → ℕ → DataRecord → DataRecord
  edit actor content now r = record r {
    content = content;
    data_bytes = py.encoding.json_bytes (object content);
    version = suc r.version;
    updated_by_user_id = actor.user_id;
    updated_at = now;
  }

  -- The compare-and-set of `update_data_record`
  abbrev pub change_record :
      ℕ
      → ℕ
      → AppActor
      → ℤ
      → Fields
      → String
      → String
      → ℕ
      → DataStore
      → AppResult (Saved × DataStore)
  change_record k id actor expected changes key hash now s = do
    manifest ← active_manifest k s
    current ← or_raise (find? (is_record k id) s.records) not_found
    content ←
        validate_entity_data py.encoding manifest current.entity (merge changes current.content)
    enforce_app_storage_limit k (py.encoding.json_bytes (object content) - current.data_bytes) s
    changed ← or_raise (find? (λ r. is_record k id r && at_version expected r) s.records) conflict
    let r = edit actor content now changed in
        ok (
          row r,
          record s {
            records =
                update (λ x. is_record k id x && at_version expected x) (edit actor content now)
                  s.records;
            events =
                s.events
                ++ data_event k r actor "app.data.updated" "records.update" hash key now s.next_row
                  ∷ [];
            next_row = suc s.next_row;
          },
        )

  -- `update_data_record`
  unfoldable pub update_data_record :
      ℕ → ℕ → AppActor → ℤ → Json → String → ℕ → DataStore → AppResult (Saved × DataStore)
  update_data_record k id claimed_actor expected content idempotency_key now s = do
    actor ← reauthorize_actor k claimed_actor now s.tables
    require_write actor
    changes ← as_object content
    key ← clean_text (text idempotency_key) 160
    hash ← idempotency_request_hash py "records.update" (
        field "record_id" (text (py.print_id id))
          (field "expected_version" (int expected) (field "data" (object changes) end)))
    replay_or "records.update" hash s (event_by_key k key s) (do
      enforce_mutation_rate_limit k actor now s
      replay_or "records.update" hash s (event_by_key k key s)
          (change_record k id actor expected changes key hash now s))
