-- ===== src/Apps/Builds/Failing/Fencing.antt =====
-- Any sequence of claims and failure reports in services/generated_apps_v2.py: a settled job stays as
-- it is, and a worker whose claim was taken over cannot settle the job.
use dot_backend.Prelude.{
  ℕ, zero, suc, ◌≤◌, ◌<◌, ◌≡◌, ◌≢◌, inl, inr, refl, sym, ◌∙◌, subst, String, Bool, false, Option,
  some, All-Has, All-weaken, Has, Keyed, Keyed-unique, arith, find?, Option-cases,
}
use dot_backend.Prelude.Json.{ℤ, pos, negsuc, Fields}
use dot_backend.Apps.Records.{err, ok, conflict}
use dot_backend.Apps.Builds.{BuildJob, ClaimedBuild, BuildStore, Runtime, is_open}
use dot_backend.Apps.Builds.Changes.{
  Evolves, stays, writes, Evolves-trans, Evolves-Keyed, Evolves-settled, Evolves-attempts,
}
use dot_backend.Apps.Builds.Claiming.{Claim}
use dot_backend.Apps.Builds.Claiming.Rounds.{Claims}
use dot_backend.Apps.Builds.Claiming.Holding.{Claims-Evolves, Claims-Held}
use dot_backend.Apps.Builds.Failing.{claimed_job, holds_claim, fail_build}
use dot_backend.Apps.Builds.Failing.Outcomes.{claimed_job-ok, fail_build-Reported}

-- Claims and failure reports of any workers, one after the other.
pub data Calls (w : Runtime) (s : BuildStore) : BuildStore → Type 0 where
  nothing : Calls w s s
  claims :
      {before : BuildStore} (worker : String) (lease : ℤ) (c : Claim)
      → Calls w s before
      → Claims w worker lease c before
      → Calls w s c.1
  fails :
      {before : BuildStore} (k : ℕ) (worker : String) (expected : ℤ) (error : String)
      (app_url : Option String) (metadata : Option Fields) (retryable : Bool) (now : ℕ)
      (j : BuildJob) (after : BuildStore)
      → Calls w s before
      → fail_build w k worker expected error app_url metadata retryable now before ≡ ok (j, after)
      → Calls w s after

pub Calls-Evolves : (w : Runtime) (s s' : BuildStore) → Calls w s s' → Evolves s.jobs s'.jobs
Calls-Evolves w s s' nothing = stays
Calls-Evolves w s s' (claims {before = b} worker lease c h k) =
    Evolves-trans (Calls-Evolves w s b h) (Claims-Evolves w worker lease c b k)
Calls-Evolves w s s'
      (fails {before = b} k worker expected error app_url metadata retryable now j after h done) =
    let (x, _) =
      fail_build-Reported w k worker expected error app_url metadata retryable now b j after done in
    Evolves-trans (Calls-Evolves w s b h) (
      subst (Evolves b.jobs) (sym x.jobs) (
        writes x.job x.f stays x.in_table x.live x.keeps x.same_app
          (λ y. let c = x.counts y in omega arith)))

refused_job :
    (k : ℕ) (worker : String) (expected : ℤ) (s : BuildStore)
    → ((j : BuildJob) → claimed_job k worker expected s ≢ ok j)
    → claimed_job k worker expected s ≡ err conflict
unfolding claimed_job
refused_job k worker (pos zero) s h = refl
refused_job k worker (negsuc n) s h = refl
refused_job k worker (pos (suc n)) s h =
    elim (Option-cases (find? (holds_claim k worker (suc n)) s.jobs)) [
      | inl e ↦ rw e refl
      | inr (j, e) ↦ absurd (h j (rw e refl))
    ]

fail_build-refused :
    (w : Runtime) (k : ℕ) (worker : String) (expected : ℤ) (error : String)
    (app_url : Option String) (metadata : Option Fields) (retryable : Bool) (now : ℕ)
    (s : BuildStore)
    → ((j : BuildJob) → claimed_job k worker expected s ≢ ok j)
    → fail_build w k worker expected error app_url metadata retryable now s ≡ err conflict
unfolding fail_build
fail_build-refused w k worker expected error app_url metadata retryable now s h =
    rw (refused_job k worker expected s h) refl

-- Where job keys are distinct: a job that is succeeded or failed has the same row after any claims
-- and failure reports, and a failure report for it is refused.
pub settled-final :
    (w : Runtime) (s s' : BuildStore) (j : BuildJob) (worker : String) (expected : ℤ)
    (error : String) (app_url : Option String) (metadata : Option Fields) (retryable : Bool)
    (now : ℕ)
    → Keyed (λ (x : BuildJob). x.id) s.jobs
    → Has j s.jobs
    → is_open j.status ≡ false
    → Calls w s s'
    → Has j s'.jobs
      × (fail_build w j.id worker expected error app_url metadata retryable now s' ≡ err conflict)
settled-final w s s' j worker expected error app_url metadata retryable now keyed stored settled
      calls =
    let h = Calls-Evolves w s s' calls in
    let still = Evolves-settled j h keyed stored settled in
    (
      still,
      fail_build-refused w j.id worker expected error app_url metadata retryable now s' λ x e.
          let (m, named, live, _) = claimed_job-ok j.id worker expected s' x e in
          let same =
            All-Has (λ (y : BuildJob). y.id ≡ j.id → y ≡ j) m
              (Keyed-unique (λ (y : BuildJob). y.id) s'.jobs j (Evolves-Keyed h keyed) still)
              named in
          cc,
    )

-- Where job keys are distinct: once a job has been claimed on an attempt, a failure report by an
-- earlier attempt is refused, whichever worker makes it and whatever was claimed or failed since.
pub stale_attempt-refused :
    (w : Runtime) (worker : String) (lease : ℤ) (c : Claim) (b : ClaimedBuild) (s s' : BuildStore)
    (stale : ℕ) (sender error : String) (app_url : Option String) (metadata : Option Fields)
    (retryable : Bool) (now : ℕ)
    → Keyed (λ (x : BuildJob). x.id) s.jobs
    → Claims w worker lease c s
    → c.0 ≡ some b
    → stale < b.attempt
    → Calls w c.1 s'
    → fail_build w b.job_id sender (pos stale) error app_url metadata retryable now s'
      ≡ err conflict
stale_attempt-refused w worker lease c b s s' stale sender error app_url metadata retryable now
      keyed claim got early calls =
    let held = Claims-Held w worker lease c s b claim got in
    let keyed' = Evolves-Keyed (Claims-Evolves w worker lease c s claim) keyed in
    let least = Evolves-attempts b.job_id b.attempt (Calls-Evolves w c.1 s' calls) (
      All-weaken (λ (x : BuildJob). x.id ≡ held.row.id → x ≡ held.row)
        (λ (x : BuildJob). x.id ≡ b.job_id → b.attempt ≤ x.attempts) c.1.jobs
        (λ x one same.
          let e = one (same ∙ sym held.id) in let a = held.attempt in rw e (omega arith))
        (Keyed-unique (λ (x : BuildJob). x.id) c.1.jobs held.row keyed' held.in_table)) in
    fail_build-refused w b.job_id sender (pos stale) error app_url metadata retryable now s' λ x e.
      let (m, named, _, at_attempt) = claimed_job-ok b.job_id sender (pos stale) s' x e in
      let bound =
        All-Has (λ (y : BuildJob). y.id ≡ b.job_id → b.attempt ≤ y.attempts) m least named in
      let exact : stale ≡ x.attempts = cc in omega arith
