-- ===== src/Apps/Builds/Promoting/Active.antt =====
-- What `promote_revision` of services/generated_apps_v2.py promises: it replaces the revision that
-- its caller expected, once, and what runs has passed every gate.
use dot_backend.Prelude.{
  ℕ, ◌≡◌, sym, ap, ◌∙◌, subst, String, Bool, true, false, not, ◌&&◌, Option, some, List, [], ◌∷◌,
  take, ◌⊎◌, find?, update, any, ◌==◌, is_some, Bool-cases, inl, inr,
}
use dot_backend.Prelude.Json.{
  Json, Fields, object, array, null, bool, int, float, text, nil, elements, fields_of, get, get_or,
}
use dot_backend.Apps.Records.{
  GeneratedApp, AppResult, ok, bind-ok, raise_if, or_raise, raise_if-ok, ok-inj, require-ok,
  or_raise-ok, stale_build, not_found, is_code,
}
use dot_backend.Apps.Access.{app_id_is}
use dot_backend.Apps.Data.{
  Revision, Deployment, DataStore, Python, enforce_app_storage_limit, of_app,
}
use dot_backend.Apps.Manifest.{validate_manifest}
use dot_backend.Apps.Entities.{validate_entity_data}
use dot_backend.Apps.Builds.Promoting.{
  seed_once, mark_seeded, deploy, deployment_of, revision_is, is_stale, promote_revision,
  show_revision, with_apps, promotable, install, with_deployed,
}
use dot_backend.Apps.Builds.Gates.{validate_promotable_compiled_artifact, text_or_invalid}
use dot_backend.Apps.Builds.Seeding.{
  seed_rows, seed_list, seed_entities, seed_code_app_records, candidates_of, entities_of,
}

-- The revisions and the deployments are the same.
abbrev pub Kept : DataStore → DataStore → Type 0
Kept s s' = (s'.revisions ≡ s.revisions) × (s'.deployments ≡ s.deployments)

Kept-same : {s s' : DataStore} → Path (AppResult DataStore) (ok s) (ok s') → Kept s s'
Kept-same h = (ap (λ t. t.revisions) (sym (ok-inj h)), ap (λ t. t.deployments) (sym (ok-inj h)))

Kept-after : (s s' s'' : DataStore) → Kept s s' → Kept s' s'' → Kept s s''
Kept-after s s' s'' h k = (k.0 ∙ h.0, k.1 ∙ h.1)

module _ (py : Python) (k user : ℕ) (manifest : Fields) (now : ℕ) where
  seed_rows-Kept :
      (entity : String) (raws : List Json) (s s' : DataStore)
      → seed_rows py k user manifest entity raws now s ≡ ok s'
      → Kept s s'
  seed_rows-Kept entity [] s s' h = Kept-same h
  seed_rows-Kept entity (object raw ∷ rest) s s' h =
      let (clean, _, h1) = bind-ok (validate_entity_data py.encoding manifest entity raw) _ h in
      let (_, _, h2) =
        bind-ok (enforce_app_storage_limit k (py.encoding.json_bytes (object clean)) s) _ h1 in
      seed_rows-Kept entity rest _ s' h2
  seed_rows-Kept entity (null ∷ rest) s s' h = seed_rows-Kept entity rest s s' h
  seed_rows-Kept entity (bool b ∷ rest) s s' h = seed_rows-Kept entity rest s s' h
  seed_rows-Kept entity (int n ∷ rest) s s' h = seed_rows-Kept entity rest s s' h
  seed_rows-Kept entity (float t z ∷ rest) s s' h = seed_rows-Kept entity rest s s' h
  seed_rows-Kept entity (text t ∷ rest) s s' h = seed_rows-Kept entity rest s s' h
  seed_rows-Kept entity (array xs ∷ rest) s s' h = seed_rows-Kept entity rest s s' h

  seed_list-Kept :
      (entity : String) (v : Json) (s s' : DataStore)
      → seed_list py k user manifest entity v now s ≡ ok s'
      → Kept s s'
  seed_list-Kept entity (array xs) s s' h = seed_rows-Kept entity (take 200 (elements xs)) s s' h
  seed_list-Kept entity null s s' h = Kept-same h
  seed_list-Kept entity (bool b) s s' h = Kept-same h
  seed_list-Kept entity (int n) s s' h = Kept-same h
  seed_list-Kept entity (float t z) s s' h = Kept-same h
  seed_list-Kept entity (text t) s s' h = Kept-same h
  seed_list-Kept entity (object fs) s s' h = Kept-same h

  seed_entities-Kept :
      (seed_data : Fields) (definitions : List Json) (s s' : DataStore)
      → seed_entities py k user manifest seed_data definitions now s ≡ ok s'
      → Kept s s'
  seed_entities-Kept seed_data [] s s' h = Kept-same h
  seed_entities-Kept seed_data (definition ∷ rest) s s' h =
      let (entity, _, h1) = bind-ok (text_or_invalid (get "name" (fields_of definition))) _ h in
      let (t, first, h2) =
        bind-ok (seed_list py k user manifest entity (candidates_of seed_data entity) now s) _ h1 in
      Kept-after s t s' (seed_list-Kept entity (candidates_of seed_data entity) s t first)
        (seed_entities-Kept seed_data rest t s' h2)

  seed_code_app_records-Kept :
      (seed_data : Fields) (s s' : DataStore)
      → seed_code_app_records py k user manifest seed_data now s ≡ ok s'
      → Kept s s'
  unfolding seed_code_app_records
  seed_code_app_records-Kept seed_data s s' h =
      let (_, _, h1) = bind-ok (validate_manifest py.encoding (object manifest)) _ h in
      seed_entities-Kept seed_data (entities_of (get_or "entities" (array nil) manifest)) s s' h1

-- The revisions are the same, or one of them is marked as seeded.
abbrev Marked : Revision → ℕ → DataStore → DataStore → Type 0
Marked r now s s' =
    (s'.deployments ≡ s.deployments)
    × ((s'.revisions ≡ s.revisions) ⊎ (s'.revisions ≡ (mark_seeded r.id now s).revisions))

seed_once-Marked :
    (py : Python) (app : GeneratedApp) (r : Revision) (first : Bool) (now : ℕ) (s s' : DataStore)
    → seed_once py app r first now s ≡ ok s'
    → Marked r now s s'
seed_once-Marked py app r first now s s' h = elim (Bool-cases (is_some r.seed_applied_at)) [
  | inl e ↦
      let same : s ≡ s' = ok-inj (rw e at h) in
      (ap (λ t. t.deployments) (sym same), inl (ap (λ t. t.revisions) (sym same)))
  | inr e ↦ elim (Bool-cases (first && not (any (of_app app.id) s.records))) [
    | inl f ↦
        let made = rw (e, f) at h in
        let (t, seeded, done) =
          bind-ok (seed_code_app_records py app.id app.user_id r.manifest r.seed_data now s) _
            made in
        let kept =
          seed_code_app_records-Kept py app.id app.user_id r.manifest now r.seed_data s t seeded in
        let same = ok-inj done in
        (
          ap (λ u. u.deployments) (sym same) ∙ kept.1,
          inr (
              ap (λ u. u.revisions) (sym same)
              ∙ ap (update (revision_is r.id) (λ x. record x { seed_applied_at = some now }))
                  kept.0),
        )
    | inr f ↦
        let same = ok-inj (rw (e, f) at h) in
        (ap (λ t. t.deployments) (sym same), inr (ap (λ t. t.revisions) (sym same)))
  ]
]

abbrev pub deployed_of : ℕ → DataStore → Option Deployment
deployed_of k s = find? (deployment_of k) s.deployments

-- What a promotion that does not raise has found,
abbrev pub IsPromotable : Python → ℕ → ℕ → Option (Option ℕ) → DataStore → Revision → Type 0
IsPromotable py k revision expected s r =
    (find? (revision_is revision) s.revisions ≡ some r)
    × ((r.app_id == k) ≡ true)
    × (validate_promotable_compiled_artifact py (object r.artifact) r.sdk_version ≡ ok tt)
    × (is_stale expected (deployed_of k s) ≡ false)

promotable-IsPromotable :
    (py : Python) (k revision : ℕ) (expected : Option (Option ℕ)) (s : DataStore) (r : Revision)
    (app : GeneratedApp)
    → promotable py k revision expected s ≡ ok (r, app)
    → IsPromotable py k revision expected s r
promotable-IsPromotable py k revision expected s r app h =
    let (r', e1, h1) =
      bind-ok (or_raise (find? (revision_is revision) s.revisions) not_found) _ h in
    let (_, e2, h2) = bind-ok (raise_if (not (r'.app_id == k)) not_found) _ h1 in
    let (_, e3, h3) =
      bind-ok (validate_promotable_compiled_artifact py (object r'.artifact) r'.sdk_version) _ h2 in
    let (app', e4, h4) = bind-ok (or_raise (find? (app_id_is k) s.tables.apps) not_found) _ h3 in
    let (_, e5, h5) = bind-ok (raise_if (not (is_code app'.runtime_kind)) not_found) _ h4 in
    let (_, e6, h6) = bind-ok (raise_if (is_stale expected (deployed_of k s)) stale_build) _ h5 in
    let same : r' ≡ r = ap (λ x. x.0) (ok-inj h6) in
    subst (IsPromotable py k revision expected s) same (
      or_raise-ok (find? (revision_is revision) s.revisions) not_found e1,
      require-ok (r'.app_id == k) not_found e2,
      e3,
      raise_if-ok (is_stale expected (deployed_of k s)) stale_build e6,
    )

-- and what it has done.
abbrev pub IsInstalled :
    ℕ → Option (Option ℕ) → ℕ → DataStore → Revision → Deployment → DataStore → Type 0
IsInstalled k expected now s r d s' =
    (deploy k r.id expected now s.deployments (deployed_of k s) ≡ ok (d, s'.deployments))
    × ((s'.revisions ≡ s.revisions) ⊎ (s'.revisions ≡ (mark_seeded r.id now s).revisions))

with_deployed-IsInstalled :
    (py : Python) (k : ℕ) (expected : Option (Option ℕ)) (now : ℕ) (s : DataStore) (r : Revision)
    (app : GeneratedApp) (x : Deployment × List Deployment) (d : Deployment) (s' : DataStore)
    → deploy k r.id expected now s.deployments (deployed_of k s) ≡ ok x
    → with_deployed py k r app now s x ≡ ok (d, s')
    → IsInstalled k expected now s r d s'
with_deployed-IsInstalled py k expected now s r app (d', rows) d s' e h =
    let first : Bool = not (is_some (deployed_of k s)) in
    let t : DataStore =
      with_apps (update (app_id_is k) (show_revision r now)) (record s { deployments = rows }) in
    let (t', seeded, done) = bind-ok (seed_once py app r first now t) _ h in
    let marked = seed_once-Marked py app r first now t t' seeded in
    subst (λ (y : Deployment × DataStore). IsInstalled k expected now s r y.0 y.1) {y = (d, s')}
      (ok-inj done) (e ∙ ap (λ q. ok (d', q)) (sym marked.0), marked.1)

install-IsInstalled :
    (py : Python) (k : ℕ) (expected : Option (Option ℕ)) (now : ℕ) (s : DataStore) (r : Revision)
    (app : GeneratedApp) (d : Deployment) (s' : DataStore)
    → install py k expected now s (r, app) ≡ ok (d, s')
    → IsInstalled k expected now s r d s'
install-IsInstalled py k expected now s r app d s' h =
    let (x, e, h1) = bind-ok (deploy k r.id expected now s.deployments (deployed_of k s)) _ h in
    with_deployed-IsInstalled py k expected now s r app x d s' e h1

pub promote_revision-ok :
    (py : Python) (k revision : ℕ) (expected : Option (Option ℕ)) (now : ℕ) (s : DataStore)
    (d : Deployment) (s' : DataStore)
    → promote_revision py k revision expected now s ≡ ok (d, s')
    → (r : Revision) × IsPromotable py k revision expected s r × IsInstalled k expected now s r d s'
unfolding promote_revision
promote_revision-ok py k revision expected now s d s' h =
    let ((r, app), e, h1) = bind-ok (promotable py k revision expected s) _ h in
    (
      r,
      promotable-IsPromotable py k revision expected s r app e,
      install-IsInstalled py k expected now s r app d s' h1,
    )
