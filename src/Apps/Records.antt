-- ===== src/Apps/Records.antt =====
-- The exceptions and the small helpers of src/benji_api/services/generated_apps_v2.py, over the rows
-- that the groups share with it.
pub use dot_backend.Prelude.Result.{raise_if-ok, require-ok, or_raise-ok, ok-inj}
pub use dot_backend.Groups.Records.{
  AppRole, AppStatus, AccessMode, RuntimeKind, GeneratedApp, AppMembership, AppSession, AppTicket,
  Grants, Conversation, Store, Result, err, ok, ◌>>=◌, ◌>>◌, bind-ok, raise_if, or_raise,
  is_app_owner, is_group, private_link, collaborative_link, legacy, code,
}
use dot_backend.Prelude.{
  arith, ◌≤◌, ℕ, min, max, String, Bool, true, false, ◌||◌, Option, none, some, ltb, strip,
  take_text, text_len, is_blank, str_eq, if◌then◌else◌,
}
use dot_backend.Prelude.Json.{ℤ, pos, negsuc, Json, text, null}

-- The exceptions of the service; `crash` is one of Python's own, which the service does not catch.
pub data AppError : Type 0 where
  not_found not_authorized conflict stale_build not_valid rate_limited crash : AppError

abbrev pub AppResult {ℓ} : Type ℓ → Type ℓ
AppResult A = Result AppError A

-- `max(low, min(value, high))` on a Python integer
abbrev pub clamp : ℕ → ℕ → ℤ → ℕ
clamp low high (pos n) = max low (min n high)
clamp low high (negsuc n) = low

pub clamp-within :
    (low high : ℕ) (value : ℤ)
    → low ≤ high
    → (low ≤ clamp low high value) × (clamp low high value ≤ high)
clamp-within low high (pos n) h = (omega arith, omega arith)
clamp-within low high (negsuc n) h = (omega arith, h)

abbrev pub is_live : AppStatus → Bool
is_live AppStatus.active = true
is_live AppStatus.archived = false

abbrev pub is_code : RuntimeKind → Bool
is_code code = true
is_code legacy = false

abbrev pub is_collaborative : AccessMode → Bool
is_collaborative collaborative_link = true
is_collaborative private_link = false

-- `GeneratedAppRole(value)`
unfoldable pub app_role : String → Option AppRole
app_role s =
    if str_eq s "owner"
    then some AppRole.owner
    else (if str_eq s "editor"
        then some AppRole.editor
        else (if str_eq s "member"
            then some AppRole.member
            else (if str_eq s "viewer" then some AppRole.viewer else none)))

abbrev bounded : ℕ → String → AppResult String
bounded max_length clean =
    if is_blank clean || ltb max_length (text_len clean) then err not_valid else ok clean

-- `_text`
unfoldable pub clean_text : Json → ℕ → AppResult String
clean_text (text s) max_length = bounded max_length (strip s)
clean_text _ max_length = err not_valid

-- `_optional_text`
unfoldable pub optional_text : Json → ℕ → AppResult String
optional_text null max_length = ok String.[]
optional_text (text s) max_length = ok (take_text max_length (strip s))
optional_text _ max_length = err not_valid

abbrev non_blank_or : String → ℕ → String → String
non_blank_or fallback max_length clean =
    if is_blank clean then fallback else take_text max_length clean

-- `_fallback_text`
unfoldable pub fallback_text : Json → String → ℕ → String
fallback_text (text s) fallback max_length = non_blank_or fallback max_length (strip s)
fallback_text _ fallback max_length = fallback
