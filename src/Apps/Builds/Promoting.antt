-- ===== src/Apps/Builds/Promoting.antt =====
-- How a revision of an app becomes the one that runs: `promote_revision` of
-- src/benji_api/services/generated_apps_v2.py. Apps/Builds/Gates has the gates that its artifact has to
-- pass, and Apps/Builds/Seeding the starter data of the first deployment.
pub mod Active
pub mod Once
use dot_backend.Prelude.{
  ℕ, suc, ◌+◌, String, Bool, true, false, not, ◌&&◌, Option, none, some, List, [], ◌∷◌, ◌++◌, take,
  any, ◌==◌, str_eq, same_id, id_is, text_len, strip, is_blank, is_some, join_text, find?, update,
  if◌then◌else◌,
}
use dot_backend.Prelude.Json.{
  Json, Fields, text, array, object, null, nil, get, get_or, elements, as_text, fields_of, is_true,
}
use dot_backend.Apps.Records.{
  GeneratedApp, Store, AppResult, err, ok, ◌>>=◌, ◌>>◌, raise_if, or_raise, is_code, not_found,
  not_valid, stale_build,
}
use dot_backend.Apps.Access.{app_id_is}
use dot_backend.Apps.Manifest.{as_object, validate_manifest}
use dot_backend.Apps.Entities.{validate_entity_data}
use dot_backend.Apps.Data.{
  Revision, Deployment, DataRecord, DataStore, Python, of_app, enforce_app_storage_limit,
}
use dot_backend.Apps.Builds.Gates.{validate_promotable_compiled_artifact}
use dot_backend.Apps.Builds.Seeding.{seed_code_app_records}

abbrev pub revision_is : ℕ → Revision → Bool
revision_is k r = r.id == k

abbrev pub deployment_of : ℕ → Deployment → Bool
deployment_of k d = d.app_id == k

abbrev pub active_id : Option Deployment → Option ℕ
active_id none = none
active_id (some d) = some d.active_revision_id

-- `expected_active_revision_id` is given and is not the active revision.
abbrev pub is_stale : Option (Option ℕ) → Option Deployment → Bool
is_stale none d = false
is_stale (some expected) d = not (same_id (active_id d) expected)

abbrev pub first_deployment : ℕ → ℕ → ℕ → Deployment
first_deployment k revision now = record {
  app_id = k;
  active_revision_id = revision;
  previous_revision_id = none;
  deployment_version = 1;
  deployed_at = now;
}

abbrev pub swap : ℕ → ℕ → Deployment → Deployment
swap revision now d = record d {
  previous_revision_id = some d.active_revision_id;
  active_revision_id = revision;
  deployment_version = suc d.deployment_version;
  deployed_at = now;
}

-- `UPDATE ... WHERE app_id = ... AND active_revision_id = ...`, where an expectation is given
abbrev pub swaps : ℕ → Option (Option ℕ) → Deployment → Bool
swaps k none d = deployment_of k d
swaps k (some expected) d = deployment_of k d && id_is expected d.active_revision_id

abbrev pub deploy :
    ℕ
    → ℕ
    → Option (Option ℕ)
    → ℕ
    → List Deployment
    → Option Deployment
    → AppResult (Deployment × List Deployment)
deploy k revision expected now rows none =
    ok (first_deployment k revision now, rows ++ first_deployment k revision now ∷ [])
deploy k revision expected now rows (some d) =
    if d.active_revision_id == revision
    then ok (d, rows)
    else (if any (swaps k expected) rows
        then ok (swap revision now d, update (swaps k expected) (swap revision now) rows)
        else err stale_build)

abbrev pub show_revision : Revision → ℕ → GeneratedApp → GeneratedApp
show_revision r now app = record app {
  current_version = r.revision_number;
  title = r.title;
  description = r.description;
  updated_at = now;
}

abbrev pub with_apps : (List GeneratedApp → List GeneratedApp) → DataStore → DataStore
with_apps f s = record s { tables = record s.tables { apps = f s.tables.apps } }

abbrev pub mark_seeded : ℕ → ℕ → DataStore → DataStore
mark_seeded revision now s = record s {
  revisions =
      update (revision_is revision) (λ r. record r { seed_applied_at = some now }) s.revisions;
}

module _ (py : Python) where
  -- The starter data go to an app that runs for the first time and has no records; they are used
  -- up in any case.
  abbrev pub seed_once : GeneratedApp → Revision → Bool → ℕ → DataStore → AppResult DataStore
  seed_once app r first now s =
      if is_some r.seed_applied_at
      then ok s
      else (if first && not (any (of_app app.id) s.records)
          then (seed_code_app_records py app.id app.user_id r.manifest r.seed_data now s >>= λ s'.
              ok (mark_seeded r.id now s'))
          else ok (mark_seeded r.id now s))

  -- The revision and the app, if the revision may run.
  abbrev pub promotable :
      ℕ → ℕ → Option (Option ℕ) → DataStore → AppResult (Revision × GeneratedApp)
  promotable k revision expected s = do
    r ← or_raise (find? (revision_is revision) s.revisions) not_found
    raise_if (not (r.app_id == k)) not_found
    validate_promotable_compiled_artifact py (object r.artifact) r.sdk_version
    app ← or_raise (find? (app_id_is k) s.tables.apps) not_found
    raise_if (not (is_code app.runtime_kind)) not_found
    raise_if (is_stale expected (find? (deployment_of k) s.deployments)) stale_build
    ok (r, app)

  abbrev pub with_deployed :
      ℕ
      → Revision
      → GeneratedApp
      → ℕ
      → DataStore
      → Deployment × List Deployment
      → AppResult (Deployment × DataStore)
  with_deployed k r app now s (d, rows) =
      seed_once app r (not (is_some (find? (deployment_of k) s.deployments))) now
        (with_apps (update (app_id_is k) (show_revision r now)) (record s { deployments = rows }))
      >>= λ s'. ok (d, s')

  abbrev pub install :
      ℕ
      → Option (Option ℕ)
      → ℕ
      → DataStore
      → Revision × GeneratedApp
      → AppResult (Deployment × DataStore)
  install k expected now s (r, app) =
      deploy k r.id expected now s.deployments (find? (deployment_of k) s.deployments)
      >>= with_deployed k r app now s

  -- `promote_revision`; `expected` is the revision that is to be active before, where one is given.
  unfoldable pub promote_revision :
      ℕ → ℕ → Option (Option ℕ) → ℕ → DataStore → AppResult (Deployment × DataStore)
  promote_revision k revision expected now s =
      promotable k revision expected s >>= install k expected now s

  -- `_validate_existing_records_for_manifest`
  unfoldable pub validate_existing_records_for_manifest :
      ℕ → Fields → List DataRecord → AppResult (Unit {0})
  validate_existing_records_for_manifest k manifest [] = ok tt
  validate_existing_records_for_manifest k manifest (r ∷ records) =
      let rest = validate_existing_records_for_manifest k manifest records in
      if of_app k r
      then (validate_entity_data py.encoding manifest r.entity r.content >>= λ _. rest)
      else rest
