-- ===== src/Apps/Entities.antt =====
-- `_validate_entity_data` and `_validate_field_value` of services/generated_apps_v2.py: whether the data
-- of a record fits the schema of the app.
use dot_backend.Prelude.{
  String, Bool, true, false, not, ◌&&◌, ◌||◌, List, [], ◌∷◌, any, str_eq, is_some, if◌then◌else◌,
}
use dot_backend.Prelude.Json.{
  Json, Fields, null, bool, int, float, text, array, object, nil, end, field, get, get_or, lookup,
  elements, is_true,
}
use dot_backend.Apps.Records.{AppResult, err, ok, ◌>>=◌, ◌>>◌, raise_if, or_raise, not_valid, crash}
use dot_backend.Apps.Manifest.{
  Encoding, FieldTable, FieldKind, field_of, entity_fields, kinds, kind_in, require_json_size,
  string, text_kind, number, integer, money, currency, boolean, date, datetime, email, url, enum,
  relation, object_kind, array_kind,
}

-- `for item in value`; what cannot be iterated, or has items without `get`, raises.
abbrev iterate : Json → AppResult (List Json)
iterate (array xs) = ok (elements xs)
iterate (object end) = ok []
iterate (text String.[]) = ok []
iterate _ = err crash

abbrev named : String → Json → Bool
named entity (text s) = str_eq s entity
named entity _ = false

abbrev find_definition : String → List Json → AppResult Fields
find_definition entity [] = err not_valid
find_definition entity (object fs ∷ rest) =
    let later = find_definition entity rest in if named entity (get "name" fs) then ok fs else later
find_definition entity (_ ∷ rest) = err crash

abbrev has_unknown : FieldTable → Fields → Bool
has_unknown table end = false
has_unknown table (field name v rest) =
    not (is_some (field_of name table)) || has_unknown table rest

abbrev is_null : Json → Bool
is_null null = true
is_null _ = false

abbrev is_missing : Fields → String × Fields → Bool
is_missing record_data (name, fs) = is_true (get "required" fs) && is_null (get name record_data)

module _ (e : Encoding) where
  abbrev is_text : Json → Bool
  is_text (text s) = true
  is_text _ = false

  abbrev is_number : Json → Bool
  is_number (int n) = true
  is_number (float s is_zero) = true
  is_number _ = false

  -- The table of tests in `_validate_field_value`
  abbrev pub is_valid : FieldKind → Json → Bool
  is_valid number v = is_number v
  is_valid money v = is_number v
  is_valid integer (int n) = true
  is_valid integer _ = false
  is_valid boolean (bool b) = true
  is_valid boolean _ = false
  is_valid object_kind (object fs) = true
  is_valid object_kind _ = false
  is_valid array_kind (array xs) = true
  is_valid array_kind _ = false
  is_valid date (text s) = e.is_date s
  is_valid date _ = false
  is_valid string v = is_text v
  is_valid text_kind v = is_text v
  is_valid currency v = is_text v
  is_valid email v = is_text v
  is_valid url v = is_text v
  is_valid enum v = is_text v
  is_valid relation v = is_text v
  is_valid datetime v = is_text v

  abbrev kind_named : Json → AppResult FieldKind
  kind_named (text s) = or_raise (kind_in s kinds) crash
  kind_named _ = err crash

  -- `_validate_field_value`
  unfoldable pub validate_field_value : Json → Json → AppResult (Unit {0})
  validate_field_value kind null = ok tt
  validate_field_value kind v = do
    known ← kind_named kind
    raise_if (not (is_valid known v)) not_valid

  abbrev check_values : FieldTable → Fields → AppResult (Unit {0})
  check_values table end = ok tt
  check_values table (field name v rest) = do
    fs ← or_raise (field_of name table) crash
    kind ← or_raise (lookup "type" fs) crash
    validate_field_value kind v
    check_values table rest

  -- `_validate_entity_data`; the copy that it returns equals the data.
  unfoldable pub validate_entity_data : Fields → String → Fields → AppResult Fields
  validate_entity_data manifest entity record_data = do
    items ← iterate (get_or "entities" (array nil) manifest)
    definition ← find_definition entity items
    table ← entity_fields definition
    raise_if (has_unknown table record_data) not_valid
    raise_if (any (is_missing record_data) table) not_valid
    check_values table record_data
    require_json_size e (object record_data) 16000
    ok record_data
