-- ===== src/Apps/Builds/Telemetry.antt =====
-- `_safe_build_telemetry` of src/benji_api/services/generated_apps_v2.py: what the event of a
-- finished build tells of its model, its tokens and its cost.
use dot_backend.Prelude.{
  String, Bool, true, false, ◌||◌, Option, none, some, leb, str_eq, text_len, if◌then◌else◌,
}
use dot_backend.Prelude.Json.{
  pos, negsuc, Json, Fields, null, int, float, text, object, end, field, get, get_or, fields_of,
}
use dot_backend.Apps.Data.Writing.{merge}

-- What Python does with numbers: `float(value)`, and `value >= 0` on a float.
pub record Floats : Type 0 where
  pub to_float : Json → Json
  pub at_least_zero : String → Bool

abbrev pub or_empty : Option Fields → Fields
or_empty none = end
or_empty (some fs) = fs

abbrev merged : Fields → Json → Fields
merged provider (object explicit) = merge provider explicit
merged provider _ = provider

-- The provider's metadata, where the builder's own come last.
abbrev provider_of : Fields → Fields → Fields
provider_of artifact metadata =
    merged (fields_of (get_or "provider_metadata" (object end) artifact))
      (get_or "provider_metadata" (object end) metadata)

abbrev with_model : Json → Fields → Fields
with_model (text s) rest = if leb (text_len s) 120 then field "model" (text s) rest else rest
with_model _ rest = rest

abbrev is_token_count : String → Json → Bool
is_token_count k (int (pos n)) =
    str_eq k "input_tokens" || str_eq k "output_tokens" || str_eq k "total_tokens"
is_token_count k _ = false

abbrev safe_tokens : Fields → Fields
safe_tokens end = end
safe_tokens (field k v fs) =
    let rest = safe_tokens fs in if is_token_count k v then field k v rest else rest

abbrev tokens_field : Fields → Fields → Fields
tokens_field end rest = rest
tokens_field (field k v fs) rest = field "token_usage" (object (field k v fs)) rest

abbrev with_tokens : Json → Fields → Fields
with_tokens (object fs) rest = tokens_field (safe_tokens fs) rest
with_tokens _ rest = rest

-- `isinstance(value, (int, float)) and not isinstance(value, bool)`
abbrev is_number : Json → Bool
is_number (int n) = true
is_number (float s z) = true
is_number _ = false

abbrev metrics_cost : Json → Json
metrics_cost (object metrics) = get "cost_usd" metrics
metrics_cost _ = null

abbrev cost_of : Fields → Fields → Json
cost_of provider results =
    if is_number (get "cost_usd" provider)
    then get "cost_usd" provider
    else metrics_cost (get_or "build_metrics" (object end) results)

module _ (f : Floats) where
  abbrev is_cost : Json → Bool
  is_cost (int (pos n)) = true
  is_cost (int (negsuc n)) = false
  is_cost (float s z) = f.at_least_zero s
  is_cost _ = false

  abbrev cost_field : Json → Fields
  cost_field cost = if is_cost cost then field "cost_usd" (f.to_float cost) end else end

  -- `_safe_build_telemetry`
  unfoldable pub safe_build_telemetry : Option Fields → Option Fields → Option Fields → Fields
  safe_build_telemetry artifact test_results build_metadata =
      let provider = provider_of (or_empty artifact) (or_empty build_metadata) in
      with_model (get "model" provider) (
        with_tokens (get "token_usage" provider)
          (cost_field (cost_of provider (or_empty test_results))))
