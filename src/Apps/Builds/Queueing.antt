-- ===== src/Apps/Builds/Queueing.antt =====
-- `queue_code_app_revision` of services/generated_apps_v2.py, with its quota and its idempotency key.
pub mod Live
use dot_backend.Prelude.{
  ℕ, zero, suc, ◌+◌, String, Bool, true, false, not, ◌&&◌, ◌||◌, Option, none, some, List, [], ◌∷◌,
  ◌++◌, any, select, length, ltb, leb, ◌==◌, str_eq, text_is, text_len, is_some, is_blank, find?,
  join_text, if◌then◌else◌,
}
use Prim.Native.Char.{Char, code}
use dot_backend.Prelude.Json.{Json, Fields, object, null, text, field, end}
use dot_backend.Apps.Records.{
  AppRole, GeneratedApp, Store, AppResult, err, ok, ◌>>=◌, ◌>>◌, raise_if, or_raise, not_found,
  not_authorized, conflict, not_valid, rate_limited, is_live, is_code, clean_text,
}
use dot_backend.Apps.Access.{locked_code_app, authorize_user_for_locked_app}
use dot_backend.Apps.Manifest.{require_json_size}
use dot_backend.Apps.Data.{Deployment, Python, idempotency_request_hash}
use dot_backend.Apps.Builds.{BuildJob, BuildStore, queued, is_open}

abbrev is_hex : ℕ → Bool
is_hex c = (leb 48 c && leb c 57) || (leb 97 c && leb c 102)

unfoldable pub all_hex : String → Bool
all_hex String.[] = true
all_hex (String.◌∷◌ c s) = is_hex (code c) && all_hex s

-- `_validated_request_hash`
unfoldable pub validated_request_hash : Option String → AppResult (Option String)
validated_request_hash none = ok none
validated_request_hash (some s) =
    if all_hex s && text_len s == 64 then ok (some s) else err not_valid

-- The open jobs of an app, in `_ensure_no_live_build`
abbrev pub is_live_build : ℕ → BuildJob → Bool
is_live_build k j = j.app_id == k && is_open j.status

-- `_ensure_no_live_build`
abbrev pub ensure_no_live_build : ℕ → BuildStore → AppResult (Unit {0})
ensure_no_live_build k s = raise_if (any (is_live_build k) s.jobs) conflict

abbrev owned_by : ℕ → BuildStore → BuildJob → Bool
owned_by user s j =
    any (λ (a : GeneratedApp). a.id == j.app_id && a.user_id == user) s.app_data.tables.apps

-- `_enforce_user_app_build_quota`; `users` are the keys of the users.
unfoldable pub enforce_user_app_build_quota : List ℕ → ℕ → Bool → BuildStore → AppResult (Unit {0})
enforce_user_app_build_quota users user creating_app s = do
  raise_if (not (any (λ k. k == user) users)) not_found
  raise_if
      (creating_app
        && leb 20 (
            length (
              select
                (λ (a : GeneratedApp).
                  a.user_id == user && is_live a.status && is_code a.runtime_kind)
                s.app_data.tables.apps)))
      not_valid
  raise_if (leb 3 (length (select (λ j. owned_by user s j && is_open j.status) s.jobs)))
      rate_limited

abbrev can_revise : AppRole → Bool
can_revise AppRole.owner = true
can_revise AppRole.editor = true
can_revise AppRole.member = false
can_revise AppRole.viewer = false

abbrev pub clean_key : Option String → AppResult (Option String)
clean_key none = ok none
clean_key (some key) = clean_text (text key) 160 >>= λ clean. ok (some clean)

-- `_build_by_idempotency_key`
abbrev pub build_by_key : Option String → BuildStore → Option BuildJob
build_by_key none s = none
build_by_key (some key) s = find? (λ (j : BuildJob). text_is j.idempotency_key key) s.jobs

abbrev or_default : Option String → String → String
or_default none default = default
or_default (some url) default = if is_blank url then default else url

abbrev active_revision : ℕ → BuildStore → Option ℕ
active_revision k s = elim (find? (λ (d : Deployment). d.app_id == k) s.app_data.deployments) [
  | none ↦ none
  | some d ↦ some d.active_revision_id
]

abbrev pub new_build :
    GeneratedApp
    → Fields
    → Option String
    → Option String
    → Option String
    → String
    → ℕ
    → BuildStore
    → BuildJob
new_build app request provider app_url key hash now s = record {
  id = s.next_job_id;
  app_id = app.id;
  base_revision_id = active_revision app.id s;
  result_revision_id = none;
  status = queued;
  request = request;
  idempotency_key = key;
  request_hash = elim key [ none ↦ none | some k ↦ some hash ];
  result = end;
  delivery_provider = provider;
  app_url = or_default app_url (join_text "/a/" app.public_id);
  attempts = 0;
  claimed_by = none;
  lease_expires_at = none;
  error = none;
  created_at = now;
  started_at = none;
  completed_at = none;
  updated_at = now;
}

abbrev pub add_build : BuildJob → BuildStore → BuildStore
add_build j s = record s { jobs = s.jobs ++ j ∷ []; next_job_id = suc s.next_job_id }

abbrev text_or_null : Option String → Json
text_or_null none = null
text_or_null (some s) = text s

abbrev non_empty_object : Json → AppResult Fields
non_empty_object (object (field k v rest)) = ok (field k v rest)
non_empty_object _ = err not_valid

module _ (py : Python) where
  abbrev hash_or : Option String → Fields → AppResult String
  hash_or (some hash) request = ok hash
  hash_or none request = idempotency_request_hash py "app.revise" request

  -- `_validate_build_replay`
  abbrev pub replay_or_build :
      String
      → BuildStore
      → Option BuildJob
      → AppResult (BuildJob × BuildStore)
      → AppResult (BuildJob × BuildStore)
  replay_or_build hash s none otherwise = otherwise
  replay_or_build hash s (some j) otherwise =
      if text_is j.request_hash hash then ok (j, s) else err conflict

  -- `queue_code_app_revision`, up to its commit: in one call at a time the unique indexes never refuse
  -- the new row.
  unfoldable pub queue_code_app_revision :
      List ℕ
      → ℕ
      → ℕ
      → Json
      → Option String
      → Option String
      → Option String
      → Option String
      → ℕ
      → BuildStore
      → AppResult (BuildJob × BuildStore)
  queue_code_app_revision users user k raw_request provider app_url idempotency_key given now s = do
    request ← non_empty_object raw_request
    require_json_size py.encoding (object request) 1000000
    key ← clean_key idempotency_key
    known ← validated_request_hash given
    hash ← hash_or known (
        field "user_id" (text (py.print_id user)) (
          field "app_id" (text (py.print_id k)) (
            field "request" (object request) (
              field "delivery_provider" (text_or_null provider)
                (field "app_url" (text_or_null app_url) end)))))
    app ← locked_code_app k s.app_data.tables
    actor ← authorize_user_for_locked_app app user s.app_data.tables
    raise_if (not (can_revise actor.role)) not_authorized
    replay_or_build hash s (build_by_key key s) (do
      ensure_no_live_build k s
      enforce_user_app_build_quota users user false s
      ok (
        new_build app request provider app_url key hash now s,
        add_build (new_build app request provider app_url key hash now s) s,
      ))
