-- ===== src/Apps/Builds/Gates.antt =====
-- The gates that the artifact of a revision has to pass before it may run:
-- `_validate_promotable_compiled_artifact` of src/benji_api/services/generated_apps_v2.py.
use dot_backend.Prelude.{
  String, Bool, false, not, ◌&&◌, ◌==◌, str_eq, text_len, strip, is_blank, join_text,
}
use dot_backend.Prelude.Json.{Json, Fields, text, object, get, as_text, fields_of, is_true}
use dot_backend.Apps.Records.{AppResult, err, ◌>>=◌, ◌>>◌, raise_if, or_raise, not_valid}
use dot_backend.Apps.Manifest.{as_object}
use dot_backend.Apps.Data.{Python}
use dot_backend.Apps.Builds.Queueing.{all_hex}

-- `value == "..."`
abbrev json_is : Json → String → Bool
json_is (text s) t = str_eq s t
json_is _ t = false

-- `re.fullmatch(r"[0-9a-f]{64}", value)`
abbrev pub is_digest : String → Bool
is_digest s = all_hex s && text_len s == 64

abbrev pub text_or_invalid : Json → AppResult String
text_or_invalid v = or_raise (as_text v) not_valid

-- The stage of the tests has passed.
abbrev passed : String → Fields → Bool
passed stage results = json_is (get "status" (fields_of (get stage results))) "passed"

module _ (py : Python) where
  abbrev compiled : Fields → String → AppResult (Unit {0})
  compiled artifact sdk_version = do
    bundle ← as_object (get "browser_bundle" artifact)
    raise_if (not (json_is (get "format" bundle) "iife")) not_valid
    javascript ← text_or_invalid (get "javascript" bundle)
    raise_if (is_blank (strip javascript)) not_valid
    css ← text_or_invalid (get "css" bundle)
    digest ← text_or_invalid (get "sha256" bundle)
    raise_if (not (is_digest digest)) not_valid
    static_html ← text_or_invalid (get "static_html" bundle)
    raise_if (is_blank (strip static_html)) not_valid
    raise_if (not (str_eq digest (py.sha256 (join_text javascript (join_text "\0" css))))) not_valid
    raise_if
        (not (
          json_is (get "sdk_version" bundle) sdk_version
          && json_is (get "sdk_version" artifact) sdk_version))
        not_valid
    results ← as_object (get "test_results" artifact)
    raise_if
        (not (
          passed "policy" results
          && passed "typescript_compile" results
          && passed "browser_smoke" results))
        not_valid
    browser ← as_object (get "real_browser" (fields_of (get "browser_smoke" results)))
    raise_if (not (is_true (get "ready" browser))) not_valid

  -- `_validate_promotable_compiled_artifact`
  unfoldable pub validate_promotable_compiled_artifact : Json → String → AppResult (Unit {0})
  validate_promotable_compiled_artifact (object artifact) sdk_version =
      compiled artifact sdk_version
  validate_promotable_compiled_artifact _ sdk_version = err not_valid
