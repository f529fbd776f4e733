-- ===== src/Apps/Builds/Completing/Delivered.antt =====
-- What a build that is handed in by `complete_build` of services/generated_apps_v2.py brings about.
use dot_backend.Prelude.{
  ℕ, ◌≡◌, refl, sym, ap, ◌∙◌, subst, String, Bool, true, Option, none, some, List, All,
  All-update_any, find?, find?-holds, update, arith, ◌==◌, same_id, Bool-cases, inl, inr,
}
use dot_backend.Prelude.Json.{ℤ}
use dot_backend.Jobs.Events.{UserEvent, has_key}
use dot_backend.Jobs.Events.Outbox.{find?-enqueue}
use dot_backend.Apps.Records.{GeneratedApp, Store, ok, bind-ok, ok-inj}
use dot_backend.Apps.Access.{locked_code_app}
use dot_backend.Apps.Data.{Revision, Deployment, DataStore, Python}
use dot_backend.Apps.Builds.{BuildJob, BuildStore, Runtime, succeeded, job_is}
use dot_backend.Apps.Builds.Failing.{claimed_job}
use dot_backend.Apps.Builds.Telemetry.{Floats}
use dot_backend.Apps.Builds.Promoting.{
  revision_is, promote_revision, validate_existing_records_for_manifest, active_id,
}
use dot_backend.Apps.Builds.Promoting.Active.{deployed_of, promote_revision-ok}
use dot_backend.Apps.Builds.Promoting.Once.{promote_revision-RunsNow, same_id-true}
use dot_backend.Apps.Builds.Completing.{
  Built, acceptable, revision_of, add_revision, link_of, settle_succeeded, completed_key,
  completed_event, announce, as_stored, stored_or, complete_build,
}

-- The job is settled with the revision.
abbrev pub IsSettledWith : ℕ → ℕ → BuildJob → Type 0
IsSettledWith k revision x =
    x.id ≡ k → (x.status ≡ succeeded) × (x.result_revision_id ≡ some revision)

-- The revision that was built runs in the place of the one that it was built on, the job is settled
-- with it, and the event for the job is in the outbox.
abbrev pub IsDelivered : Runtime → BuildJob → Revision → BuildStore → BuildStore → Type 0
IsDelivered w j r s s' =
    (active_id (deployed_of j.app_id s.app_data) ≡ j.base_revision_id)
    × (active_id (deployed_of j.app_id s'.app_data) ≡ some r.id)
    × All (IsSettledWith j.id r.id) s'.jobs
    × (e : UserEvent) × (find? (has_key (completed_key w j.id)) s'.outbox ≡ some e)

stored_or-id :
    (r : Revision) (o : Option Revision)
    → ((x : Revision) → o ≡ some x → x.id ≡ r.id)
    → (stored_or r o).id ≡ r.id
stored_or-id r none h = refl
stored_or-id r (some x) h = h x refl

as_stored-id : (r : Revision) (s : DataStore) → (as_stored r s).id ≡ r.id
as_stored-id r s =
    stored_or-id r (find? (revision_is r.id) s.revisions)
      λ x e. let holds = find?-holds (revision_is r.id) s.revisions x e in ground arith

module _ (py : Python) (w : Runtime) (f : Floats) (b : Built) (raw : String) (now : ℕ) where
  settle-IsSettledWith :
      (j : BuildJob) (r : Revision) (link : String × Bool) (jobs : List BuildJob)
      → All
          (IsSettledWith j.id r.id)
          (update (job_is j.id) (settle_succeeded py w f b r link now) jobs)
  settle-IsSettledWith j r link jobs =
      All-update_any (IsSettledWith j.id r.id) (job_is j.id) _ jobs λ x.
        elim (Bool-cases (x.id == j.id)) [
          | inl e ↦ rw e (λ _. (refl, refl))
          | inr e ↦ rw e (λ same. absurd (ground arith))
        ]

  -- The steps of a call that does not raise.
  abbrev Steps : ℕ → String → ℤ → BuildStore → BuildJob → Revision → DataStore → Type 0
  Steps k worker expected s j r t =
      (claimed_job k worker expected s ≡ ok j)
      × (d : Deployment) × (promote_revision py j.app_id r.id (some j.base_revision_id) now
            (add_revision r s.app_data)
          ≡ ok (d, t))

  complete_build-Steps :
      (k : ℕ) (worker : String) (expected : ℤ) (s : BuildStore) (x : Revision × BuildStore)
      → complete_build py w f k worker expected b raw now s ≡ ok x
      → (j : BuildJob) × (app : GeneratedApp) × (r : Revision) × (t : DataStore) × (linked : (String
            × Bool)
          × Store)
        × Steps k worker expected s j r t
        × (announce py w f b j app r now s t linked ≡ ok x)
  unfolding complete_build
  complete_build-Steps k worker expected s x h =
      let (j, e1, h1) = bind-ok (claimed_job k worker expected s) _ h in
      let (_, _, h2) = bind-ok (acceptable py w f b) _ h1 in
      let (app, _, h3) = bind-ok (locked_code_app j.app_id s.app_data.tables) _ h2 in
      let (r, _, h4) = bind-ok (revision_of py w f b j app s.app_data) _ h3 in
      let (_, _, h5) =
        bind-ok (validate_existing_records_for_manifest py j.app_id b.manifest s.app_data.records) _
          h4 in
      let ((d, t), e6, h6) =
        bind-ok
          (promote_revision py j.app_id r.id (some j.base_revision_id) now
            (add_revision r s.app_data))
          _ h5 in
      let (linked, _, h7) = bind-ok (link_of py w f b j app raw now t.tables) _ h6 in
      (j, app, r, t, linked, (e1, d, e6), h7)

  announce-IsDelivered :
      (j : BuildJob) (app : GeneratedApp) (r : Revision) (s s' : BuildStore) (t : DataStore)
      (linked : (String × Bool) × Store) (r' : Revision)
      → active_id (deployed_of j.app_id s.app_data) ≡ j.base_revision_id
      → active_id (deployed_of j.app_id t) ≡ some r.id
      → announce py w f b j app r now s t linked ≡ ok (r', s')
      → IsDelivered w j r' s s'
  announce-IsDelivered j app r s s' t (link, tables) r' base active h =
      let named = as_stored-id r t in
      let event = completed_event py w f b app r j link.0 now in
      subst (λ (x : Revision × BuildStore). IsDelivered w j x.0 s x.1) {y = (r', s')} (ok-inj h)
        (
          base,
          active ∙ ap some (sym named),
          rw named (settle-IsSettledWith j r link s.jobs),
          _,
          find?-enqueue event s.next_event now s.outbox,
        )

-- A build that is handed in and accepted was built on the revision that ran until then. The new
-- revision runs in its place, the job is settled with it, and the event that tells the user is in
-- the outbox.
pub complete_build-IsDelivered :
    (py : Python) (w : Runtime) (f : Floats) (k : ℕ) (worker : String) (expected : ℤ) (b : Built)
    (raw : String) (now : ℕ) (s s' : BuildStore) (r : Revision)
    → complete_build py w f k worker expected b raw now s ≡ ok (r, s')
    → (j : BuildJob) × (claimed_job k worker expected s ≡ ok j) × IsDelivered w j r s s'
complete_build-IsDelivered py w f k worker expected b raw now s s' r h =
    let (j, app, made, t, linked, (claimed, d, promoted), done) =
      complete_build-Steps py w f b raw now k worker expected s (r, s') h in
    let store : DataStore = add_revision made s.app_data in
    let (_, checked, _) =
      promote_revision-ok py j.app_id made.id (some j.base_revision_id) now store d t promoted in
    let fresh : same_id (active_id (deployed_of j.app_id s.app_data)) j.base_revision_id ≡ true =
      let stale = checked.3 in ground arith in
    let (found, runs) =
      promote_revision-RunsNow py j.app_id made.id (some j.base_revision_id) now store d t
        promoted in
    (
      j,
      claimed,
      announce-IsDelivered py w f b raw now j app made s s' t linked r
          (same_id-true (active_id (deployed_of j.app_id s.app_data)) j.base_revision_id fresh)
          (ap active_id found ∙ ap some runs) done,
    )
