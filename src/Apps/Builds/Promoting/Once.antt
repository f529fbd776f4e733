-- ===== src/Apps/Builds/Promoting/Once.antt =====
-- Which revision of an app runs after `promote_revision` of services/generated_apps_v2.py: the one
-- that was asked for, and no second caller replaces the same revision.
use dot_backend.Prelude.{
  ℕ, ◌≡◌, ◌≢◌, refl, sym, ap, ◌∙◌, subst, true, false, Option, none, some, List, [], ◌∷◌, All,
  All-append, All-update, All-weaken, Has, Has-update, find?, find?-Has, find?-holds, find?-append,
  find?-update, update, any, arith, ◌==◌, ==_refl, same_id, Bool-cases, inl, inr, if_true, if_false,
}
use dot_backend.Prelude.Json.{object}
use dot_backend.Apps.Records.{ok, ok-inj}
use dot_backend.Apps.Data.{Revision, Deployment, DataStore, Python}
use dot_backend.Apps.Builds.Promoting.{
  deploy, swap, swaps, first_deployment, deployment_of, revision_is, is_stale, active_id,
  promote_revision,
}
use dot_backend.Apps.Builds.Gates.{validate_promotable_compiled_artifact}
use dot_backend.Apps.Builds.Promoting.Active.{deployed_of, promote_revision-ok}

-- The app runs the revision.
abbrev pub RunsNow : ℕ → ℕ → Deployment → List Deployment → Type 0
RunsNow k revision d rows =
    (find? (deployment_of k) rows ≡ some d) × (d.active_revision_id ≡ revision)

fresh-swaps :
    (k : ℕ) (expected : Option (Option ℕ)) (d : Deployment)
    → deployment_of k d ≡ true
    → is_stale expected (some d) ≡ false
    → swaps k expected d ≡ true
fresh-swaps k none d own fresh = own
fresh-swaps k (some none) d own fresh = absurd (cc)
fresh-swaps k (some (some e)) d own fresh = ground arith

deploy-RunsNow :
    (k revision : ℕ) (expected : Option (Option ℕ)) (now : ℕ) (rows rows' : List Deployment)
    (before : Option Deployment) (d : Deployment)
    → find? (deployment_of k) rows ≡ before
    → is_stale expected before ≡ false
    → deploy k revision expected now rows before ≡ ok (d, rows')
    → RunsNow k revision d rows'
deploy-RunsNow k revision expected now rows rows' none d found fresh h =
    let first = first_deployment k revision now in
    subst (λ (x : Deployment × List Deployment). RunsNow k revision x.0 x.1) {y = (d, rows')}
      (ok-inj h)
      (find?-append (deployment_of k) rows (first ∷ []) found ∙ rw (==_refl k) refl, refl)
deploy-RunsNow k revision expected now rows rows' (some b) d found fresh h =
    elim (Bool-cases (b.active_revision_id == revision)) [
      | inl e ↦
          subst (λ (x : Deployment × List Deployment). RunsNow k revision x.0 x.1) {y = (d, rows')}
            (ok-inj (rw e at h)) (found, ground arith)
      | inr e ↦ elim (Bool-cases (any (swaps k expected) rows)) [
        | inl some_row ↦
            subst (λ (x : Deployment × List Deployment). RunsNow k revision x.0 x.1)
              {y = (d, rows')} (ok-inj (rw (e, some_row) at h))
              (
                find?-update (swaps k expected) (deployment_of k) (swap revision now) rows
                      (λ x. refl)
                    ∙ rw
                        (
                          found,
                          fresh-swaps k expected b (find?-holds (deployment_of k) rows b found)
                              fresh,
                        )
                        refl,
                refl,
              )
        | inr no_row ↦ absurd (let bad = rw (e, no_row) at h in cc)
      ]
    ]

-- After a promotion that does not raise, the deployment that it returns is the app's, and runs the
-- revision that was asked for.
pub promote_revision-RunsNow :
    (py : Python) (k revision : ℕ) (expected : Option (Option ℕ)) (now : ℕ) (s : DataStore)
    (d : Deployment) (s' : DataStore)
    → promote_revision py k revision expected now s ≡ ok (d, s')
    → RunsNow k revision d s'.deployments
promote_revision-RunsNow py k revision expected now s d s' h =
    let (r, checked, installed) = promote_revision-ok py k revision expected now s d s' h in
    let named : r.id ≡ revision =
      let holds = find?-holds (revision_is revision) s.revisions r checked.0 in ground arith in
    let runs =
      deploy-RunsNow k r.id expected now s.deployments s'.deployments (deployed_of k s) d refl
        checked.3 installed.0 in
    (runs.0, runs.1 ∙ named)

pub same_id-true : (a b : Option ℕ) → same_id a b ≡ true → a ≡ b
same_id-true none none h = refl
same_id-true none (some b) h = absurd (cc)
same_id-true (some a) none h = absurd (cc)
same_id-true (some a) (some b) h = ap some (ground arith)

-- Of two promotions for an app that expect the same active revision, the second one raises once the
-- first one has put another revision in its place: a stale build is not deployed.
pub promote_revision-once :
    (py : Python) (k first second : ℕ) (expected : Option ℕ) (now later : ℕ) (s : DataStore)
    (d : Deployment) (s' : DataStore) (x : Deployment × DataStore)
    → promote_revision py k first (some expected) now s ≡ ok (d, s')
    → expected ≢ some first
    → promote_revision py k second (some expected) later s' ≢ ok x
promote_revision-once py k first second expected now later s d s' x h other again =
    let (found, runs) = promote_revision-RunsNow py k first (some expected) now s d s' h in
    let (r, checked, _) = promote_revision-ok py k second (some expected) later s' x.0 x.1 again in
    let still : same_id (active_id (deployed_of k s')) expected ≡ true =
      let fresh = checked.3 in ground arith in
    let same = same_id-true (active_id (deployed_of k s')) expected still in
    other (sym same ∙ ap active_id found ∙ ap some runs)

-- The revision that runs is stored, is the app's, and has passed every gate.
abbrev pub Passed : Python → List Revision → Deployment → Type 0
Passed py revisions d =
    (r : Revision) × Has r revisions
    × (r.id ≡ d.active_revision_id)
    × (r.app_id ≡ d.app_id)
    × (validate_promotable_compiled_artifact py (object r.artifact) r.sdk_version ≡ ok tt)

-- Every app that is deployed runs such a revision.
abbrev pub IsDeployed : Python → DataStore → Type 0
IsDeployed py s = All (Passed py s.revisions) s.deployments

swaps-own :
    (k : ℕ) (expected : Option (Option ℕ)) (d : Deployment)
    → swaps k expected d ≡ true
    → d.app_id ≡ k
swaps-own k none d h = ground arith
swaps-own k (some expected) d h = ground arith

deploy-Passed :
    (py : Python) (k : ℕ) (expected : Option (Option ℕ)) (now : ℕ) (revisions : List Revision)
    (rows rows' : List Deployment) (before : Option Deployment) (r : Revision) (d : Deployment)
    → Has r revisions
    → (r.app_id == k) ≡ true
    → (validate_promotable_compiled_artifact py (object r.artifact) r.sdk_version ≡ ok tt)
    → All (Passed py revisions) rows
    → deploy k r.id expected now rows before ≡ ok (d, rows')
    → All (Passed py revisions) rows'
deploy-Passed py k expected now revisions rows rows' none r d stored owned gates ok_rows h =
    subst (λ (x : Deployment × List Deployment). All (Passed py revisions) x.1) {y = (d, rows')}
      (ok-inj h)
      (All-append (Passed py revisions) rows (first_deployment k r.id now ∷ []) ok_rows
        (((r, stored, refl, ground arith, gates)), tt))
deploy-Passed py k expected now revisions rows rows' (some b) r d stored owned gates ok_rows h =
    elim (Bool-cases (b.active_revision_id == r.id)) [
      | inl e ↦
          subst (λ (x : Deployment × List Deployment). All (Passed py revisions) x.1)
            {y = (d, rows')} (ok-inj (rw e at h)) ok_rows
      | inr e ↦ elim (Bool-cases (any (swaps k expected) rows)) [
        | inl some_row ↦
            subst (λ (x : Deployment × List Deployment). All (Passed py revisions) x.1)
              {y = (d, rows')} (ok-inj (rw (e, some_row) at h))
              (All-update (Passed py revisions) (swaps k expected) (swap r.id now) rows
                (λ x swapped _.
                  (r, stored, refl, ground (arith, swaps-own k expected x swapped), gates))
                ok_rows)
        | inr no_row ↦ absurd (let bad = rw (e, no_row) at h in cc)
      ]
    ]

mark-Passed :
    (py : Python) (k now : ℕ) (revisions : List Revision) (d : Deployment)
    → Passed py revisions d
    → Passed py
        (update
          (revision_is k)
          (λ (x : Revision). record x { seed_applied_at = some now })
          revisions)
        d
mark-Passed py k now revisions d (r, stored, named, owned, gates) =
    let mark = λ (x : Revision). record x { seed_applied_at = some now } in
    let moved = Has-update (revision_is k) mark stored in
    elim (Bool-cases (revision_is k r)) [
      | inl e ↦ (
        mark r,
        subst (λ y. Has y (update (revision_is k) mark revisions)) (if_true (mark r) r e) moved,
        named,
        owned,
        gates,
      )
      | inr e ↦ (
        r,
        subst (λ y. Has y (update (revision_is k) mark revisions)) (if_false (mark r) r e) moved,
        named,
        owned,
        gates,
      )
    ]

-- A promotion keeps it so that every deployed app runs a stored revision of its own that has passed
-- every gate.
pub promote_revision-IsDeployed :
    (py : Python) (k revision : ℕ) (expected : Option (Option ℕ)) (now : ℕ) (s : DataStore)
    (d : Deployment) (s' : DataStore)
    → IsDeployed py s
    → promote_revision py k revision expected now s ≡ ok (d, s')
    → IsDeployed py s'
promote_revision-IsDeployed py k revision expected now s d s' deployed h =
    let (r, checked, installed) = promote_revision-ok py k revision expected now s d s' h in
    let rows =
      deploy-Passed py k expected now s.revisions s.deployments s'.deployments (deployed_of k s) r d
        (find?-Has (revision_is revision) s.revisions r checked.0) checked.1 checked.2 deployed
        installed.0 in
    elim installed.1 [
      | inl same ↦ rw same rows
      | inr marked ↦ rw marked (
          All-weaken (Passed py s.revisions) _ s'.deployments (mark-Passed py r.id now s.revisions)
            rows)
    ]
