-- ===== src/Apps/Tests/DataTests.antt =====
-- An app that keeps expenses: its owner adds one, adds it again, and edits it.
use dot_backend.Prelude.{
  ℕ, zero, suc, ◌≡◌, ◌≢◌, refl, ap, String, true, false, Option, none, some, [], ◌∷◌, Has, arith,
  text_len, strip, lstrip, rstrip,
}
use dot_backend.Prelude.Json.{
  ℤ, pos, Json, Fields, text, int, bool, array, object, nil, cons, end, field, get, get_or, lookup,
  elements, put, remove,
}
use dot_backend.Groups.Tests.{store}
use dot_backend.Apps.Records.{ok, clean_text, AppRole}
use dot_backend.Apps.Access.{
  AppActor, verified, reauthorize_actor, locked_code_app, locked_active_app,
  authorize_user_for_locked_app,
}
use dot_backend.Apps.Manifest.{entity_name, is_identifier, all_word, entity_fields}
use dot_backend.Apps.Entities.{validate_entity_data, validate_field_value}
use dot_backend.Apps.Data.{
  DataRecord, DataStore, Python, used_bytes, record_count, enforce_app_storage_limit,
  enforce_mutation_rate_limit, code_app, active_manifest, idempotency_request_hash, Revision,
  Deployment, ready,
}
use dot_backend.Apps.Data.Writing.{
  row, snapshot, new_record, data_event, added, edit, create_data_record, update_data_record, merge,
}
use dot_backend.Apps.Data.Writing.Repeating.{ReadsBack, snapshot_of, create_data_record-again}
use dot_backend.Apps.Data.Writing.Changing.{update_data_record-once}
use dot_backend.Apps.Data.Writing.Bounded.{IsDataStore, creates, Writes-IsDataStore}

-- A number as that many letters.
unfoldable pub print : ℕ → String
print zero = String.[]
print (suc n) = String.◌∷◌ "x" (print n)

print_length : (n : ℕ) → text_len (print n) ≡ n
unfolding print text_len
print_length zero = refl
print_length (suc n) = ap suc (print_length n)

abbrev str_of : Json → String
str_of (text s) = s
str_of _ = ""

abbrev int_of : Json → Option ℤ
int_of (int n) = some n
int_of _ = none

abbrev dict_of : Json → Option Fields
dict_of (object fs) = some fs
dict_of _ = none

abbrev pub python : Python
python = record {
  encoding = record { json_bytes = λ v. 100; is_date = λ s. true; float_is_one = λ s. false };
  canonical = λ v. some "request";
  sha256 = λ s. s;
  print_id = print;
  parse_id = λ s. some (text_len s);
  print_time = print;
  parse_time = λ s. some (text_len s);
  to_str = str_of;
  to_int = int_of;
  to_dict = dict_of;
}

python-ReadsBack : ReadsBack python
python-ReadsBack = record {
  ids = λ k. ap some (print_length k);
  times = λ t. ap some (print_length t);
  texts = λ s. refl;
  ints = λ n. refl;
  dicts = λ fs. refl;
}

abbrev manifest : Fields
manifest = field "schema_version" (int (pos 1)) (
    field "entities"
      (array (
        cons
          (object (
            field "name" (text "expense") (
              field "fields"
                (object (
                  field "amount"
                    (object (field "type" (text "number") (field "required" (bool true) end))) end))
                end)))
          nil))
      end)

abbrev pub first_revision : Revision
first_revision = record {
  id = 8;
  app_id = 5;
  revision_number = 1;
  title = "Trip";
  description = "";
  status = ready;
  manifest = manifest;
  seed_data = end;
  seed_applied_at = some 90;
  source_files = field "App.tsx" (text "app") end;
  artifact = end;
  artifact_url = "https://cdn/8";
  artifact_sha256 = "";
  sdk_version = "1";
  dependency_lock = end;
  test_results = end;
}

abbrev pub first_deployment : Deployment
first_deployment = record {
  app_id = 5;
  active_revision_id = 8;
  previous_revision_id = none;
  deployment_version = 1;
  deployed_at = 90;
}

abbrev pub empty : DataStore
empty = record {
  tables = store;
  revisions = first_revision ∷ [];
  deployments = first_deployment ∷ [];
  records = [];
  events = [];
  next_row = 40;
}

abbrev ann_as_owner : AppActor
ann_as_owner = verified AppRole.owner 10

abbrev expense : Fields
expense = field "amount" (int (pos 12)) end

abbrev expense_row : DataRecord
expense_row = new_record python 5 ann_as_owner "expense" expense 100 40

abbrev one_expense : DataStore
one_expense =
    added expense_row
      (data_event python 5 expense_row ann_as_owner "app.data.created" "records.create" "request"
        "key" 100 41)
      empty

first_call :
    create_data_record python 5 ann_as_owner (text "expense") (object expense) " key " 100 empty
    ≡ ok (row expense_row, one_expense)
unfolding create_data_record reauthorize_actor locked_code_app locked_active_app
    authorize_user_for_locked_app entity_name is_identifier all_word clean_text strip lstrip rstrip
    text_len idempotency_request_hash enforce_mutation_rate_limit active_manifest code_app
    validate_entity_data validate_field_value entity_fields get get_or lookup elements record_count
    used_bytes enforce_app_storage_limit
first_call = refl

ann_again : reauthorize_actor 5 ann_as_owner 500 one_expense.tables ≡ ok ann_as_owner
unfolding reauthorize_actor locked_code_app locked_active_app authorize_user_for_locked_app
ann_again = refl

create_data_record-again_example :
    create_data_record python 5 ann_as_owner
      (text "expense")
      (object expense)
      " key "
      500
      one_expense
    ≡ ok (snapshot (snapshot_of python python-ReadsBack expense_row), one_expense)
create_data_record-again_example =
    create_data_record-again python python-ReadsBack 5 ann_as_owner ann_as_owner ann_as_owner
      (text "expense") (object expense) " key " 100 500 empty expense_row one_expense first_call
      ann_again refl

empty-IsDataStore : IsDataStore empty
unfolding record_count used_bytes
empty-IsDataStore = record {
  keyed = tt;
  below = tt;
  counts = λ k. omega arith;
  bytes = λ k. omega arith;
}

Writes-IsDataStore_example : IsDataStore one_expense
Writes-IsDataStore_example =
    Writes-IsDataStore python empty one_expense
      (creates 5 ann_as_owner (text "expense") (object expense) " key " 100 expense_row first_call)
      empty-IsDataStore

abbrev changes : Fields
changes = field "amount" (int (pos 15)) end

abbrev edited_row : DataRecord
edited_row = edit python ann_as_owner changes 600 expense_row

abbrev edited : DataStore
edited = record one_expense {
  records = edited_row ∷ [];
  events =
      data_event python 5 expense_row ann_as_owner "app.data.created" "records.create" "request"
        "key" 100 41
      ∷ data_event python 5 edited_row ann_as_owner "app.data.updated" "records.update" "request"
          "edit" 600 42
      ∷ [];
  next_row = 43;
}

edit_call :
    update_data_record python 5 40 ann_as_owner (pos 1) (object changes) "edit" 600 one_expense
    ≡ ok (row edited_row, edited)
unfolding update_data_record reauthorize_actor locked_code_app locked_active_app
    authorize_user_for_locked_app clean_text strip lstrip rstrip text_len idempotency_request_hash
    enforce_mutation_rate_limit active_manifest code_app validate_entity_data validate_field_value
    entity_fields entity_name is_identifier all_word get get_or lookup elements put remove merge
    used_bytes enforce_app_storage_limit
edit_call = refl

update_data_record-once_example :
    ((old : DataRecord) × Has old one_expense.records
      × (pos 1 ≡ pos old.version)
      × (edited_row.version ≡ suc old.version))
    × (update_data_record python 5 40 ann_as_owner (pos 1) (object expense) "other" 700 edited
        ≢ ok (row expense_row, one_expense))
update_data_record-once_example =
    update_data_record-once python 5 40 ann_as_owner ann_as_owner (pos 1) (object changes)
      (object expense) "edit" "other" 600 700 one_expense edited_row expense_row edited one_expense
      edit_call
