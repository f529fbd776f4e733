-- ===== src/Apps/Builds/Seeding.antt =====
-- The starter data of a generated app, in src/benji_api/services/generated_apps_v2.py:
-- `_seed_code_app_records`.
use dot_backend.Prelude.{ℕ, suc, String, some, List, [], ◌∷◌, ◌++◌, take, join_text}
use dot_backend.Prelude.Json.{
  Json, Fields, array, object, null, nil, get, get_or, elements, fields_of,
}
use dot_backend.Apps.Records.{AppResult, ok, ◌>>=◌, ◌>>◌}
use dot_backend.Apps.Manifest.{validate_manifest}
use dot_backend.Apps.Entities.{validate_entity_data}
use dot_backend.Apps.Data.{DataRecord, DataStore, Python, enforce_app_storage_limit}
use dot_backend.Apps.Builds.Gates.{text_or_invalid}

-- `seed_data.get(entity)`, or under the entity's name with an s.
abbrev pub candidates_of : Fields → String → Json
candidates_of seed_data entity = elim (get entity seed_data) [
  | null ↦ get (join_text entity "s") seed_data
  | v ↦ v
]

abbrev pub entities_of : Json → List Json
entities_of (array xs) = elements xs
entities_of _ = []

module _ (py : Python) where
  abbrev pub seed_record : ℕ → ℕ → String → Fields → ℕ → ℕ → DataRecord
  seed_record k user entity content now fresh = record {
    id = fresh;
    app_id = k;
    entity = entity;
    content = content;
    data_bytes = py.encoding.json_bytes (object content);
    version = 1;
    created_by_user_id = some user;
    updated_by_user_id = some user;
    created_at = now;
    updated_at = now;
  }

  -- The starter records of one entity; what is no object is passed over.
  abbrev pub seed_rows : ℕ → ℕ → Fields → String → List Json → ℕ → DataStore → AppResult DataStore
  seed_rows k user manifest entity [] now s = ok s
  seed_rows k user manifest entity (object raw ∷ rest) now s = do
    clean ← validate_entity_data py.encoding manifest entity raw
    enforce_app_storage_limit k (py.encoding.json_bytes (object clean)) s
    seed_rows k user manifest entity rest now (record s {
      records = s.records ++ seed_record k user entity clean now s.next_row ∷ [];
      next_row = suc s.next_row;
    })
  seed_rows k user manifest entity (_ ∷ rest) now s = seed_rows k user manifest entity rest now s

  abbrev pub seed_list : ℕ → ℕ → Fields → String → Json → ℕ → DataStore → AppResult DataStore
  seed_list k user manifest entity (array xs) now s =
      seed_rows k user manifest entity (take 200 (elements xs)) now s
  seed_list k user manifest entity _ now s = ok s

  -- `definition["name"]`: of a valid manifest, every entity is an object with a name.
  abbrev pub seed_entities :
      ℕ → ℕ → Fields → Fields → List Json → ℕ → DataStore → AppResult DataStore
  seed_entities k user manifest seed_data [] now s = ok s
  seed_entities k user manifest seed_data (definition ∷ rest) now s = do
    entity ← text_or_invalid (get "name" (fields_of definition))
    s' ← seed_list k user manifest entity (candidates_of seed_data entity) now s
    seed_entities k user manifest seed_data rest now s'

  -- `_seed_code_app_records`
  unfoldable pub seed_code_app_records :
      ℕ → ℕ → Fields → Fields → ℕ → DataStore → AppResult DataStore
  seed_code_app_records k user manifest seed_data now s = do
    validate_manifest py.encoding (object manifest)
    seed_entities k user manifest seed_data (entities_of (get_or "entities" (array nil) manifest))
        now s
