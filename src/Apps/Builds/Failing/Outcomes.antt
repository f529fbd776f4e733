-- ===== src/Apps/Builds/Failing/Outcomes.antt =====
-- What `fail_build` of services/generated_apps_v2.py does to the job and to the outbox.
use dot_backend.Prelude.{
  ℕ, zero, suc, ◌<◌, ◌≡◌, inl, inr, refl, sym, ap, ◌∙◌, subst, String, Bool, true, ◌&&◌, Option,
  some, ltb, Has, arith, ◌==◌, update, find?, find?-Has, find?-holds, if_true, if_false, Bool-cases,
}
use dot_backend.Prelude.Json.{ℤ, pos, negsuc, Fields, text}
use dot_backend.Jobs.Events.{UserEvent, has_key, enqueue_user_event}
use dot_backend.Jobs.Events.Outbox.{find?-enqueue}
use dot_backend.Apps.Records.{
  GeneratedApp, ok, ok-inj, bind-ok, or_raise, or_raise-ok, not_found, conflict, clean_text,
}
use dot_backend.Apps.Builds.{
  BuildStatus, queued, claimed, succeeded, failed, BuildJob, BuildStore, Runtime, job_is, is_open,
  safe_failure, failed_event, failed_key,
}
use dot_backend.Apps.Builds.Claiming.{max_build_attempts}
use dot_backend.Apps.Builds.Failing.{
  holds_claim, claimed_job, requeue, settle_failed, fail_build, or_bool, or_empty, url_or,
  is_claimed,
}

-- A job that `_claimed_job` finds is in the table, claimed, and on the expected attempt.
pub claimed_job-ok :
    (k : ℕ) (worker : String) (expected : ℤ) (s : BuildStore) (j : BuildJob)
    → claimed_job k worker expected s ≡ ok j
    → Has j s.jobs × (j.id ≡ k) × (is_open j.status ≡ true) × (expected ≡ pos j.attempts)
unfolding claimed_job
claimed_job-ok k worker (pos zero) s j h = absurd (cc)
claimed_job-ok k worker (negsuc n) s j h = absurd (cc)
claimed_job-ok k worker (pos (suc n)) s j h =
    let e = or_raise-ok _ conflict h in
    let p = find?-holds (holds_claim k worker (suc n)) s.jobs j e in
    (
      find?-Has _ s.jobs j e,
      ground arith,
      open_claim j.status (ground arith),
      ap pos (ground arith),
    )
  where
    open_claim : (status : BuildStatus) → is_claimed status ≡ true → is_open status ≡ true
    open_claim claimed h = refl
    open_claim queued h = cc
    open_claim succeeded h = cc
    open_claim failed h = cc

-- A failure is either put back, while there are attempts left, with the outbox as it was, or final,
-- with its event in the outbox.
pub data Reported (w : Runtime) (k : ℕ) (j : BuildJob) (s s' : BuildStore) : Type 0 where
  put_back :
      j.status ≡ queued
      → j.attempts < max_build_attempts
      → s'.outbox ≡ s.outbox
      → Reported w k j s s'
  given_up :
      (e : UserEvent)
      → j.status ≡ failed
      → find? (has_key (failed_key w k)) s'.outbox ≡ some e
      → Reported w k j s s'

-- The rows that a failure writes.
pub record Written (k : ℕ) (j : BuildJob) (s s' : BuildStore) : Type 0 where
  pub job : BuildJob
  pub f : BuildJob → BuildJob
  pub in_table : Has job s.jobs
  pub named : job.id ≡ k
  pub live : is_open job.status ≡ true
  pub keeps : (x : BuildJob) → (f x).id ≡ x.id
  pub same_app : (x : BuildJob) → (f x).app_id ≡ x.app_id
  pub counts : (x : BuildJob) → (f x).attempts ≡ x.attempts
  pub result : j ≡ f job
  pub jobs : s'.jobs ≡ update (job_is job.id) f s.jobs

module _ (w : Runtime) where
  -- A failure report that does not raise writes one open job, which keeps its key and its attempts;
  -- the job is queued again with the outbox as it was, and then has attempts left, or it is failed
  -- and the outbox holds its event.
  pub fail_build-Reported :
      (k : ℕ) (worker : String) (expected : ℤ) (error : String) (app_url : Option String)
      (metadata : Option Fields) (retryable : Bool) (now : ℕ) (s : BuildStore) (j : BuildJob)
      (s' : BuildStore)
      → fail_build w k worker expected error app_url metadata retryable now s ≡ ok (j, s')
      → Written k j s s' × Reported w k j s s'
  unfolding fail_build
  fail_build-Reported k worker expected error app_url metadata retryable now s j s' h =
      let (job, e1, h1) = bind-ok (claimed_job k worker expected s) _ h in
      let (clean, _, h2) = bind-ok (clean_text (text error) 4000) _ h1 in
      let (app, _, h3) =
        bind-ok
          (or_raise (find? (λ (a : GeneratedApp). a.id == job.app_id) s.app_data.tables.apps)
            not_found)
          _ h2 in
      let (m, named, live, _) = claimed_job-ok k worker expected s job e1 in
      let code = (safe_failure w error).0 in
      let safe = or_bool (safe_failure w error).1 retryable in
      elim (Bool-cases (safe && ltb job.attempts max_build_attempts)) [
        | inl again ↦
            subst (λ (r : BuildJob × BuildStore). Written k r.0 s r.1 × Reported w k r.0 s r.1)
              (ok-inj (sym (if_true _ _ again) ∙ h3))
              ((
                record {
                  job = job;
                  f = requeue clean (or_empty metadata) safe code now;
                  in_table = m;
                  named = named;
                  live = live;
                  keeps = λ x. refl;
                  same_app = λ x. refl;
                  counts = λ x. refl;
                  result = refl;
                  jobs = refl;
                },
                put_back refl (ground arith) refl,
              ))
        | inr final ↦
            subst (λ (r : BuildJob × BuildStore). Written k r.0 s r.1 × Reported w k r.0 s r.1)
              (ok-inj (sym (if_false _ _ final) ∙ h3))
              ((
                record {
                  job = job;
                  f = settle_failed clean (or_empty metadata) safe code now;
                  in_table = m;
                  named = named;
                  live = live;
                  keeps = λ x. refl;
                  same_app = λ x. refl;
                  counts = λ x. refl;
                  result = refl;
                  jobs = refl;
                },
                given_up _ refl (
                    subst
                      (λ i.
                        find? (has_key (failed_key w i))
                          (enqueue_user_event
                            (failed_event w app job (url_or app_url job.app_url) code safe now)
                            s.next_event now s.outbox).1
                        ≡ some
                            (enqueue_user_event
                              (failed_event w app job (url_or app_url job.app_url) code safe now)
                              s.next_event now s.outbox).0)
                      named
                      (find?-enqueue
                        (failed_event w app job (url_or app_url job.app_url) code safe now)
                        s.next_event now s.outbox)),
              ))
      ]
