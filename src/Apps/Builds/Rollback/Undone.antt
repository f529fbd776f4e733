-- ===== src/Apps/Builds/Rollback/Undone.antt =====
-- Rolling back the app of `rollback_owned_code_app` in services/generated_apps_v2.py can be undone:
-- a second rollback brings the first revision back.
use dot_backend.Prelude.{
  ℕ, ◌≡◌, sym, ap, ◌∙◌, not, ◌&&◌, Option, none, some, List, find?, find?-holds, any, arith, ◌==◌,
  Bool-cases, inl, inr, String,
}
use dot_backend.Prelude.Json.{text, field, end}
use dot_backend.Apps.Records.{
  GeneratedApp, ok, bind-ok, raise_if, or_raise, ok-inj, or_raise-ok, conflict, not_authorized,
  is_app_owner,
}
use dot_backend.Apps.Access.{AppActor, locked_code_app, authorize_user_for_locked_app}
use dot_backend.Apps.Data.{Revision, Deployment, DataStore, Python, idempotency_request_hash}
use dot_backend.Apps.Builds.{BuildStore}
use dot_backend.Apps.Builds.Queueing.{ensure_no_live_build}
use dot_backend.Apps.Builds.Promoting.{
  deploy, swap, swaps, deployment_of, revision_is, promote_revision,
  validate_existing_records_for_manifest,
}
use dot_backend.Apps.Builds.Promoting.Active.{deployed_of, promote_revision-ok}
use dot_backend.Apps.Builds.Promoting.Once.{promote_revision-RunsNow}
use dot_backend.Apps.Builds.Rollback.{
  RollbackResult, roll_back, rollback_owned_code_app, is_ready, rollback_operation,
}

-- The app runs `active`, and ran `previous` before it.
abbrev pub Runs : ℕ → DataStore → ℕ → ℕ → Type 0
Runs k s active previous =
    (d : Deployment) × (deployed_of k s ≡ some d)
    × (d.active_revision_id ≡ active)
    × (d.previous_revision_id ≡ some previous)

deploy-previous :
    (k revision now : ℕ) (rows rows' : List Deployment) (b d : Deployment)
    → b.previous_revision_id ≡ some revision
    → deploy k revision none now rows (some b) ≡ ok (d, rows')
    → d.previous_revision_id ≡ some b.active_revision_id
deploy-previous k revision now rows rows' b d before h =
    elim (Bool-cases (b.active_revision_id == revision)) [
      | inl e ↦
          let same : b ≡ d = ap (λ x. x.0) (ok-inj (rw e at h)) in
          ap (λ (x : Deployment). x.previous_revision_id) (sym same)
          ∙ before
          ∙ ap some (ground arith)
      | inr e ↦ elim (Bool-cases (any (swaps k none) rows)) [
        | inl f ↦
            let same : swap revision now b ≡ d = ap (λ x. x.0) (ok-inj (rw (e, f) at h)) in
            ap (λ (x : Deployment). x.previous_revision_id) (sym same)
        | inr f ↦ absurd (let bad = rw (e, f) at h in cc)
      ]
    ]

-- What a rollback that does not raise has found, and that the promotion was the one that it did.
pub roll_back-promotes :
    (py : Python) (k user : ℕ) (app : GeneratedApp) (actor : AppActor) (expected : ℕ)
    (key : Option String) (hash : String) (now : ℕ) (s : BuildStore) (x : RollbackResult)
    (s' : BuildStore)
    → roll_back py k user app actor expected key hash now s ≡ ok (x, s')
    → (d : Deployment) × (target : Revision) × (done : Deployment × DataStore) × (deployed_of k
          s.app_data
        ≡ some d)
      × (d.previous_revision_id ≡ some target.id)
      × (promote_revision py k target.id none now s.app_data ≡ ok done)
      × (s'.app_data.deployments ≡ done.1.deployments)
      × (s'.app_data.revisions ≡ done.1.revisions)
roll_back-promotes py k user app actor expected key hash now s x s' h =
    let (d, e1, h1) = bind-ok (or_raise (deployed_of k s.app_data) conflict) _ h in
    let (previous, e2, h2) = bind-ok (or_raise d.previous_revision_id conflict) _ h1 in
    let (_, _, h3) = bind-ok (raise_if (not (d.active_revision_id == expected)) conflict) _ h2 in
    let (_, _, h4) = bind-ok (ensure_no_live_build k s) _ h3 in
    let (replaced, _, h5) =
      bind-ok (or_raise (find? (revision_is d.active_revision_id) s.app_data.revisions) conflict) _
        h4 in
    let (target, e6, h6) =
      bind-ok (or_raise (find? (revision_is previous) s.app_data.revisions) conflict) _ h5 in
    let (_, _, h7) =
      bind-ok (raise_if (not (target.app_id == k && is_ready target.status)) conflict) _ h6 in
    let (_, _, h8) =
      bind-ok (validate_existing_records_for_manifest py k target.manifest s.app_data.records) _
        h7 in
    let (done, e9, h9) = bind-ok (promote_revision py k target.id none now s.app_data) _ h8 in
    let found = or_raise-ok (find? (revision_is previous) s.app_data.revisions) conflict e6 in
    let named : previous ≡ target.id =
      let holds = find?-holds (revision_is previous) s.app_data.revisions target found in
      ground arith in
    let same = ap (λ (y : RollbackResult × BuildStore). y.1) {y = (x, s')} (ok-inj h9) in
    (
      d,
      target,
      done,
      or_raise-ok (deployed_of k s.app_data) conflict e1,
      or_raise-ok d.previous_revision_id conflict e2 ∙ ap some named,
      e9,
      ap (λ (t : BuildStore). t.app_data.deployments) (sym same),
      ap (λ (t : BuildStore). t.app_data.revisions) (sym same),
    )

-- A rollback exchanges the two revisions.
roll_back-Runs :
    (py : Python) (k user : ℕ) (app : GeneratedApp) (actor : AppActor) (expected : ℕ)
    (key : Option String) (hash : String) (now a p : ℕ) (s : BuildStore) (x : RollbackResult)
    (s' : BuildStore)
    → Runs k s.app_data a p
    → roll_back py k user app actor expected key hash now s ≡ ok (x, s')
    → Runs k s'.app_data p a
roll_back-Runs py k user app actor expected key hash now a p s x s' (b, found, active, previous) h =
    let (d, target, (d', t), there, before, promoted, rows, _) =
      roll_back-promotes py k user app actor expected key hash now s x s' h in
    let (r, checked, installed) =
      promote_revision-ok py k target.id none now s.app_data d' t promoted in
    let (runs, is_target) =
      promote_revision-RunsNow py k target.id none now s.app_data d' t promoted in
    let named : r.id ≡ target.id =
      let holds = find?-holds (revision_is target.id) s.app_data.revisions r checked.0 in
      ground arith in
    let same : d ≡ b = let both = sym there ∙ found in cc in
    let was : target.id ≡ p =
      let both = sym before ∙ ap (λ (y : Deployment). y.previous_revision_id) same ∙ previous in
      cc in
    let done : deploy k r.id none now s.app_data.deployments (some d) ≡ ok (d', t.deployments) =
      ap (deploy k r.id none now s.app_data.deployments) (sym there) ∙ installed.0 in
    (
      d',
      ap (find? (deployment_of k)) rows ∙ runs,
      is_target ∙ was,
      deploy-previous k r.id now s.app_data.deployments t.deployments d d'
            (before ∙ ap some (sym named)) done
          ∙ ap some (ap (λ (y : Deployment). y.active_revision_id) same ∙ active),
    )

rollback-roll_back :
    (py : Python) (user k expected now : ℕ) (s : BuildStore) (x : RollbackResult × BuildStore)
    → rollback_owned_code_app py user k expected none now s ≡ ok x
    → (app : GeneratedApp) × (actor : AppActor) × (hash : String) × (roll_back py k user app actor
          expected none hash now s
        ≡ ok x)
unfolding rollback_owned_code_app
rollback-roll_back py user k expected now s x h =
    let (app, _, h1) = bind-ok (locked_code_app k s.app_data.tables) _ h in
    let (actor, _, h2) = bind-ok (authorize_user_for_locked_app app user s.app_data.tables) _ h1 in
    let (_, _, h3) =
      bind-ok (raise_if (not (is_app_owner actor.role && app.user_id == user)) not_authorized) _
        h2 in
    let (hash, _, h4) =
      bind-ok
        (idempotency_request_hash py rollback_operation
          (field "expected_active_revision_id" (text (py.print_id expected)) end))
        _ h3 in
    (app, actor, hash, h4)

-- Where an app runs one revision and ran another before it: after two rollbacks that do not raise
-- and were not asked for under a key, the app runs the first revision again, and the other one is
-- the one before.
pub rollback_owned_code_app-undone :
    (py : Python) (k user user' expected expected' now later a p : ℕ) (s s' s'' : BuildStore)
    (x y : RollbackResult)
    → Runs k s.app_data a p
    → rollback_owned_code_app py user k expected none now s ≡ ok (x, s')
    → rollback_owned_code_app py user' k expected' none later s' ≡ ok (y, s'')
    → Runs k s''.app_data a p
rollback_owned_code_app-undone py k user user' expected expected' now later a p s s' s'' x y runs
      first second =
    let (app, actor, hash, done) = rollback-roll_back py user k expected now s (x, s') first in
    let (app', actor', hash', again) =
      rollback-roll_back py user' k expected' later s' (y, s'') second in
    roll_back-Runs py k user' app' actor' expected' none hash' later p a s' y s''
      (roll_back-Runs py k user app actor expected none hash now a p s x s' runs done) again
