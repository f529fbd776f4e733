-- ===== src/Apps/Manifest.antt =====
-- The data schema of a generated app: `_validate_manifest`, `_entity_fields` and
-- `_validate_entity_data` of src/benji_api/services/generated_apps_v2.py, and
-- src/benji_api/generated_app_contract.py.
use dot_backend.Prelude.{
  ℕ, String, Bool, true, false, not, ◌&&◌, ◌||◌, Option, none, some, List, [], ◌∷◌, length, any,
  ltb, leb, ◌==◌, str_eq, is_some, text_len, if◌then◌else◌,
}
use Prim.Native.Char.{code}
use dot_backend.Prelude.Json.{
  Json, Fields, bool, int, float, text, array, object, nil, end, field, pos, get, get_or, elements,
}
use dot_backend.Apps.Records.{AppResult, err, ok, ◌>>=◌, ◌>>◌, raise_if, or_raise, not_valid, crash}

-- What the libraries tell of a value: the length of its JSON text in bytes, whether a text matches
-- the pattern of a date, and whether a float equals one.
pub record Encoding : Type 0 where
  pub json_bytes : Json → ℕ
  pub is_date : String → Bool
  pub float_is_one : String → Bool

abbrev is_lower : ℕ → Bool
is_lower c = leb 97 c && leb c 122

abbrev is_digit : ℕ → Bool
is_digit c = leb 48 c && leb c 57

unfoldable pub all_word : String → Bool
all_word String.[] = true
all_word (String.◌∷◌ c s) = (is_lower (code c) || is_digit (code c) || code c == 95) && all_word s

-- `_IDENTIFIER.fullmatch(value)`
unfoldable pub is_identifier : String → Bool
unfolding all_word
is_identifier String.[] = false
is_identifier (String.◌∷◌ c s) = is_lower (code c) && all_word s && leb (text_len s) 63

-- `_entity`
unfoldable pub entity_name : Json → AppResult String
entity_name (text s) = if is_identifier s then ok s else err not_valid
entity_name _ = err not_valid

abbrev pub dot_reminder : String
dot_reminder = "dot.reminder.create"

abbrev as_texts : List Json → Option (List String)
as_texts [] = some []
as_texts (text s ∷ xs) = elim (as_texts xs) [ none ↦ none | some rest ↦ some (s ∷ rest) ]
as_texts (_ ∷ xs) = none

abbrev all_distinct : List String → Bool
all_distinct [] = true
all_distinct (x ∷ xs) = not (any (str_eq x) xs) && all_distinct xs

abbrev only_supported : Option (List String) → Option (List String)
only_supported none = none
only_supported (some raw) =
    if all_distinct raw && not (any (λ s. not (str_eq s dot_reminder)) raw) then some raw else none

abbrev capabilities_of : Json → Option (List String)
capabilities_of (array xs) =
    if leb (length (elements xs)) 1 then only_supported (as_texts (elements xs)) else none
capabilities_of _ = none

-- `parse_generated_app_capabilities`, `none` where it raises
unfoldable pub parse_capabilities : Fields → Option (List String)
parse_capabilities manifest = capabilities_of (get_or "capabilities" (array nil) manifest)

abbrev pub FieldTable : Type 0
FieldTable = List (String × Fields)

abbrev pub field_of : String → FieldTable → Option Fields
field_of name [] = none
field_of name ((k, fs) ∷ table) = if str_eq k name then some fs else field_of name table

-- `result[name] = value`
abbrev set_field : String → Fields → FieldTable → FieldTable
set_field name fs [] = (name, fs) ∷ []
set_field name fs ((k, old) ∷ table) =
    let rest = set_field name fs table in if str_eq k name then (k, fs) ∷ table else (k, old) ∷ rest

abbrev pub as_object : Json → AppResult Fields
as_object (object fs) = ok fs
as_object _ = err not_valid

-- The fields as a dictionary of their definitions,
abbrev fields_in_dict : Fields → FieldTable → AppResult FieldTable
fields_in_dict end table = ok table
fields_in_dict (field k v rest) table = do
  name ← entity_name (text k)
  fs ← as_object v
  fields_in_dict rest (set_field name fs table)

-- or as a list of definitions with distinct names.
abbrev fields_in_list : List Json → FieldTable → AppResult FieldTable
fields_in_list [] table = ok table
fields_in_list (v ∷ rest) table = do
  fs ← as_object v
  name ← entity_name (get "name" fs)
  raise_if (is_some (field_of name table)) not_valid
  fields_in_list rest (set_field name fs table)

abbrev fields_from : Json → AppResult FieldTable
fields_from (object fs) = fields_in_dict fs []
fields_from (array xs) = fields_in_list (elements xs) []
fields_from _ = err not_valid

-- `_entity_fields`
unfoldable pub entity_fields : Fields → AppResult FieldTable
entity_fields definition = fields_from (get_or "fields" (object end) definition)

pub data FieldKind : Type 0 where
  string text_kind number integer money currency boolean date datetime email url enum relation
        object_kind array_kind :
      FieldKind

abbrev pub kinds : List (String × FieldKind)
kinds =
    ("string", string)
    ∷ ("text", text_kind)
    ∷ ("number", number)
    ∷ ("integer", integer)
    ∷ ("money", money)
    ∷ ("currency", currency)
    ∷ ("boolean", boolean)
    ∷ ("date", date)
    ∷ ("datetime", datetime)
    ∷ ("email", email)
    ∷ ("url", url)
    ∷ ("enum", enum)
    ∷ ("relation", relation)
    ∷ ("object", object_kind)
    ∷ ("array", array_kind)
    ∷ []

abbrev pub kind_in : String → List (String × FieldKind) → Option FieldKind
kind_in s [] = none
kind_in s ((k, kind) ∷ rest) = if str_eq k s then some kind else kind_in s rest

-- `definition.get("type")` in the set of types; a list or an object cannot be looked up in a set.
unfoldable pub field_kind : Json → AppResult FieldKind
field_kind (text s) = or_raise (kind_in s kinds) not_valid
field_kind (array xs) = err crash
field_kind (object fs) = err crash
field_kind _ = err not_valid

abbrev check_kinds : FieldTable → AppResult (Unit {0})
check_kinds [] = ok tt
check_kinds ((k, fs) ∷ table) = do kind ← field_kind (get "type" fs); check_kinds table

-- The loop over the entities, with the names seen so far.
abbrev check_entities : List Json → List String → AppResult (Unit {0})
check_entities [] seen = ok tt
check_entities (v ∷ rest) seen = do
  fs ← as_object v
  name ← entity_name (get "name" fs)
  raise_if (any (str_eq name) seen) not_valid
  table ← entity_fields fs
  raise_if (ltb 64 (length table)) not_valid
  check_kinds table
  check_entities rest (name ∷ seen)

abbrev entity_list : Json → AppResult (List Json)
entity_list (array xs) = if leb (length (elements xs)) 24 then ok (elements xs) else err not_valid
entity_list _ = err not_valid

module _ (e : Encoding) where
  -- `value == 1` in Python, where True equals 1
  abbrev is_one : Json → Bool
  is_one (int (pos n)) = n == 1
  is_one (bool b) = b
  is_one (float s is_zero) = e.float_is_one s
  is_one _ = false

  -- `_require_json_size`
  abbrev pub require_json_size : Json → ℕ → AppResult (Unit {0})
  require_json_size v max_bytes = raise_if (ltb max_bytes (e.json_bytes v)) not_valid

  -- `_validate_manifest`
  unfoldable pub validate_manifest : Json → AppResult (Unit {0})
  validate_manifest (object fs) = do
    raise_if (not (is_one (get "schema_version" fs))) not_valid
    granted ← or_raise (parse_capabilities fs) not_valid
    require_json_size (object fs) 64000
    entities ← entity_list (get_or "entities" (array nil) fs)
    check_entities entities []
  validate_manifest _ = err not_valid
