-- ===== src/Apps/Builds/Claiming/Serving.antt =====
-- Which build `claim_next_build` of services/generated_apps_v2.py hands out, and what it does to the
-- builds that it passes over.
use dot_backend.Prelude.{
  ℕ, zero, length, leb, ◌+◌, ◌≤◌, ◌<◌, ◌≡◌, ◌≢◌, inl, inr, refl, sym, ap, ◌∙◌, subst, suc, String,
  Bool, true, false, Option, none, some, List, [], ◌∷◌, ◌++◌, All, All-weaken, All-of_Has,
  All-update_any, Has, Has-update_own, Has-update_other, arith, ◌==◌, ==_refl, find?, first_by-none,
  first_by-minimal, first_by-Has, first_by-holds, Bool-cases, Option-cases,
}
use dot_backend.Prelude.Json.{ℤ, text, get}
use dot_backend.Jobs.Clock.{seconds}
use dot_backend.Jobs.Events.{UserEvent, has_key, new_event, enqueue_user_event}
use dot_backend.Apps.Records.{GeneratedApp, ok, clean_text, clamp, clamp-within}
use dot_backend.Apps.Builds.{
  BuildStatus, queued, claimed, succeeded, failed, BuildJob, ClaimedBuild, BuildStore, Runtime,
  job_is, write_job, failed_key, failed_event,
}
use dot_backend.Apps.Builds.Claiming.{
  next_job, claimable, older, eligible_status, abandon, terminalize_exhausted_build_claim,
  start_build, claim_of, Claim, claim_loop, claim_next_build, exhausted_code, max_build_attempts,
  round,
}
use dot_backend.Apps.Builds.Claiming.Rounds.{claim_loop-enough, terminalize-jobs}

-- A build can be handed out: it is queued, or the lease of the worker that has it is over.
pub data IsDue (now : ℕ) : BuildStatus → Option ℕ → Type 0 where
  waiting : {lease : Option ℕ} → IsDue now queued lease
  expired : {t : ℕ} → t < now → IsDue now claimed (some t)

eligible-IsDue :
    (status : BuildStatus) (lease : Option ℕ) (now : ℕ)
    → eligible_status status lease now ≡ true
    → IsDue now status lease
eligible-IsDue queued lease now h = waiting
eligible-IsDue claimed none now h = absurd (cc)
eligible-IsDue claimed (some t) now h = expired (ground arith)
eligible-IsDue succeeded lease now h = absurd (cc)
eligible-IsDue failed lease now h = absurd (cc)

IsDue-eligible :
    {status : BuildStatus} {lease : Option ℕ} (now : ℕ)
    → IsDue now status lease
    → eligible_status status lease now ≡ true
IsDue-eligible now waiting = refl
IsDue-eligible now (expired h) = ground arith

module _ (busy : ℕ → Bool) (now : ℕ) where
  -- The build is due, and not locked by another transaction.
  pub record IsAvailable (j : BuildJob) : Type 0 where
    pub due : IsDue now j.status j.lease_expires_at
    pub free : busy j.id ≡ false

  -- An available build before which no other available one was requested.
  pub record IsOldest (jobs : List BuildJob) (j : BuildJob) : Type 0 where
    pub in_table : Has j jobs
    pub available : IsAvailable j
    pub first : All (λ x. IsAvailable x → j.created_at ≤ x.created_at) jobs

  IsAvailable-claimable : (x : BuildJob) → IsAvailable x → claimable busy now x ≡ true
  IsAvailable-claimable x a =
      let due = IsDue-eligible now a.due in let free = a.free in ground arith

  next_job-IsOldest :
      (jobs : List BuildJob) (j : BuildJob) → next_job busy now jobs ≡ some j → IsOldest jobs j
  next_job-IsOldest jobs j e =
      let passes = first_by-holds older (claimable busy now) jobs j e in
      record {
        in_table = first_by-Has older (claimable busy now) jobs j e;
        available = record {
          due = eligible-IsDue j.status j.lease_expires_at now (ground arith);
          free = ground arith;
        };
        first =
            All-weaken (λ x. claimable busy now x ≡ true → older x j ≡ false) _ jobs
              (λ x h a. let k = h (IsAvailable-claimable x a) in ground arith)
              (first_by-minimal older (λ x y h. ground arith) (λ x y z h k. ground arith)
                (claimable busy now) jobs j e);
      }

  next_job-none :
      (jobs : List BuildJob) → next_job busy now jobs ≡ none → All (λ x. IsAvailable x → ⊥) jobs
  next_job-none jobs e =
      All-weaken (λ x. claimable busy now x ≡ false) _ jobs
        (λ x h a. let k = IsAvailable-claimable x a in cc)
        (first_by-none older (claimable busy now) jobs e)

-- The build is handed out, and the worker holds it on its next attempt, from `now` for the lease that
-- was asked for, but at least 15 seconds and at most 15 minutes; nothing else is changed.
pub record IsTaken (worker : String) (lease : ℤ) (now : ℕ) (j : BuildJob) (s : BuildStore)
    (c : Claim) : Type 0 where
  pub build : ClaimedBuild
  pub row : BuildJob
  pub until : ℕ
  pub handed : c.0 ≡ some build
  pub job : build.job_id ≡ j.id
  pub app : build.app_id ≡ j.app_id
  pub request : build.request ≡ j.request
  pub attempt : build.attempt ≡ suc j.attempts
  pub stored : Has row c.1.jobs
  pub same : row.id ≡ j.id
  pub status : row.status ≡ claimed
  pub holder : row.claimed_by ≡ some worker
  pub counted : row.attempts ≡ suc j.attempts
  pub leased : row.lease_expires_at ≡ some until
  pub at_least : now + seconds 15 ≤ until
  pub at_most : until ≤ now + seconds 900
  pub others : All (λ x. x.id ≢ j.id → Has x c.1.jobs) s.jobs
  pub app_data : c.1.app_data ≡ s.app_data
  pub outbox : c.1.outbox ≡ s.outbox

-- The outbox holds the event of the build that failed: one that was there already, and then nothing
-- is changed, or a new one for the owner and the conversation of the build's app. It is unchanged too
-- where there is no such app.
pub data IsTold (w : Runtime) (j : BuildJob) (s s' : BuildStore) : Type 0 where
  no_app :
      find? (λ (a : GeneratedApp). a.id == j.app_id) s.app_data.tables.apps ≡ none
      → s'.outbox ≡ s.outbox
      → IsTold w j s s'
  again :
      (e : UserEvent)
      → find? (has_key (failed_key w j.id)) s.outbox ≡ some e
      → s'.outbox ≡ s.outbox
      → IsTold w j s s'
  anew :
      (app : GeneratedApp) (e : UserEvent)
      → find? (λ (a : GeneratedApp). a.id == j.app_id) s.app_data.tables.apps ≡ some app
      → s'.outbox ≡ s.outbox ++ e ∷ []
      → e.idempotency_key ≡ failed_key w j.id
      → e.user_id ≡ app.user_id
      → e.conversation_id ≡ some app.conversation_id
      → e.event_type ≡ "app.build.failed"
      → e.delivery_provider ≡ j.delivery_provider
      → get "failure_code" e.payload ≡ text "build_worker_lease_exhausted"
      → IsTold w j s s'

-- The build with the id `k` has failed for good, and nobody holds it.
abbrev pub IsFailed : ℕ → BuildJob → Type 0
IsFailed k x = x.id ≡ k → (x.status ≡ failed) × (x.claimed_by ≡ none) × (x.lease_expires_at ≡ none)

-- The build has failed for good and nobody holds it, and the outbox holds an event of that; the other
-- builds and the data of the apps are as they were.
pub record IsSettled (w : Runtime) (j : BuildJob) (s s' : BuildStore) : Type 0 where
  pub failed : All (IsFailed j.id) s'.jobs
  pub others : All (λ x. x.id ≢ j.id → Has x s'.jobs) s.jobs
  pub app_data : s'.app_data ≡ s.app_data
  pub user : IsTold w j s s'

module _ (w : Runtime) (worker : String) (lease : ℤ) where
  start_build-IsTaken :
      (now : ℕ) (j : BuildJob) (s : BuildStore)
      → Has j s.jobs
      → IsTaken worker lease now j s
          (some (claim_of j), write_job j (start_build worker lease now) s)
  start_build-IsTaken now j s m = record {
    build = claim_of j;
    row = start_build worker lease now j;
    until = now + seconds (clamp 15 900 lease);
    handed = refl;
    job = refl;
    app = refl;
    request = refl;
    attempt = refl;
    stored = Has-update_own (job_is j.id) (start_build worker lease now) (==_refl j.id) m;
    same = refl;
    status = refl;
    holder = refl;
    counted = refl;
    leased = refl;
    at_least = let k = clamp-within 15 900 lease (omega arith) in let k0 = k.0 in omega arith;
    at_most = let k = clamp-within 15 900 lease (omega arith) in let k1 = k.1 in omega arith;
    others = All-of_Has _ s.jobs λ x m ne. Has-update_other (job_is j.id) _ (ground arith) m;
    app_data = refl;
    outbox = refl;
  }

  terminalize-IsTold :
      (j : BuildJob) (now : ℕ) (s : BuildStore)
      → IsTold w j s (terminalize_exhausted_build_claim w j now s)
  unfolding terminalize_exhausted_build_claim enqueue_user_event get
  terminalize-IsTold j now s =
      elim (Option-cases (find? (λ (a : GeneratedApp). a.id == j.app_id) s.app_data.tables.apps)) [
        | inl e ↦ no_app e (rw e refl)
        | inr (app, e) ↦
            let q = failed_event w app j j.app_url (exhausted_code w) false now in
            elim (Option-cases (find? (has_key (failed_key w j.id)) s.outbox)) [
              | inl fresh ↦
                  anew app (new_event q s.next_event now) e (rw (e, fresh, enqueue_user_event) refl)
                    refl refl refl refl refl refl
              | inr (x, k) ↦ again x k (rw (e, k, enqueue_user_event) refl)
            ]
      ]

  terminalize-IsSettled :
      (j : BuildJob) (now : ℕ) (s : BuildStore)
      → IsSettled w j s (terminalize_exhausted_build_claim w j now s)
  unfolding terminalize_exhausted_build_claim
  terminalize-IsSettled j now s =
      let app = find? (λ (a : GeneratedApp). a.id == j.app_id) s.app_data.tables.apps in
      record {
        failed = subst (All (IsFailed j.id)) (sym (terminalize-jobs w worker lease j now s)) (
            All-update_any (IsFailed j.id) (job_is j.id) (abandon w now) s.jobs λ x.
              elim (Bool-cases (x.id == j.id)) [
                | inl e ↦ rw e (λ _. (refl, refl, refl))
                | inr e ↦ rw e (λ same. absurd (ground arith))
              ]);
        others =
            subst (λ jobs. All (λ x. x.id ≢ j.id → Has x jobs) s.jobs)
              (sym (terminalize-jobs w worker lease j now s))
              (All-of_Has _ s.jobs λ x m ne. Has-update_other (job_is j.id) _ (ground arith) m);
        app_data = elim (Option-cases app) [ inl e ↦ rw e refl | inr (a, e) ↦ rw e refl ];
        user = terminalize-IsTold j now s;
      }

module _ (w : Runtime) (worker : String) (lease : ℤ) (clock : ℕ → ℕ) (busy : ℕ → ℕ → Bool) where
  -- What a claim does in its rounds, of which `n` are left, by the clock and the locks of each: it
  -- finds no available build and changes nothing; or it takes the oldest available one, which was
  -- claimed less than three times before; or it settles that one as failed, after three times, and
  -- goes on.
  pub data Serves (c : Claim) : ℕ → BuildStore → Type 0 where
    finds_none :
        {n : ℕ} {s : BuildStore} (m : ℕ)
        → n ≡ suc m
        → All (λ x. IsAvailable (busy m) (clock m) x → ⊥) s.jobs
        → c ≡ (none, s)
        → Serves c n s
    hands_out :
        {n : ℕ} {s : BuildStore} (m : ℕ) (j : BuildJob)
        → n ≡ suc m
        → IsOldest (busy m) (clock m) s.jobs j
        → j.attempts < 3
        → IsTaken worker lease (clock m) j s c
        → Serves c n s
    passes_over :
        {n : ℕ} {s s' : BuildStore} (m : ℕ) (j : BuildJob)
        → n ≡ suc m
        → IsOldest (busy m) (clock m) s.jobs j
        → 3 ≤ j.attempts
        → IsSettled w j s s'
        → Serves c m s'
        → Serves c n s

  claim_loop-Serves :
      (n : ℕ) (s : BuildStore) (c : Claim)
      → claim_loop w n clock busy worker lease s ≡ some c
      → Serves c n s
  unfolding claim_loop
  claim_loop-Serves zero s c h = absurd (cc)
  claim_loop-Serves (suc n) s c h =
      let step = round w worker lease (clock n) s (claim_loop w n clock busy worker lease) in
      elim (Option-cases (next_job (busy n) (clock n) s.jobs)) [
        | inl e ↦
            finds_none n refl (next_job-none (busy n) (clock n) s.jobs e)
              (let k = sym (ap step e) ∙ h in cc)
        | inr (j, e) ↦
            let oldest = next_job-IsOldest (busy n) (clock n) s.jobs j e in
            elim (Bool-cases (leb max_build_attempts j.attempts)) [
              | inl spent ↦
                  passes_over n j refl oldest (ground arith)
                    (terminalize-IsSettled w worker lease j (clock n) s)
                    (claim_loop-Serves n _ c (let k = sym (ap step e) ∙ h in ground arith))
              | inr left ↦ hands_out n j refl oldest (ground arith) (
                  subst (IsTaken worker lease (clock n) j s)
                    (let k = sym (ap step e) ∙ h in ground arith)
                    (start_build-IsTaken w worker lease (clock n) j s oldest.in_table))
            ]
      ]

  -- Under a worker id that is not blank or too long, a claim ends, within one round more than there
  -- are builds: it settles as failed, one after the other, the oldest available builds that were
  -- claimed three times already, and hands out the oldest available one after them, if there is
  -- one.
  pub claim_next_build-Serves :
      (worker_id : String) (s : BuildStore)
      → clean_text (text worker_id) 120 ≡ ok worker
      → (c : Claim) × (claim_next_build w clock busy worker_id lease s ≡ ok (some c))
        × Serves c (suc (length s.jobs)) s
  unfolding claim_next_build
  claim_next_build-Serves worker_id s good =
      let (c, ends) = claim_loop-enough w worker lease clock busy s in
      (c, rw (good, ends) refl, claim_loop-Serves (suc (length s.jobs)) s c ends)
