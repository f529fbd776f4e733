-- ===== src/Apps/Builds/Changes.antt =====
-- What the calls of the build queue in services/generated_apps_v2.py may do to the jobs.
use dot_backend.Prelude.{
  ℕ, ◌≤◌, ◌≡◌, inl, inr, sym, ◌∙◌, subst, true, false, List, All, All-Has, Has, Has-update, Keyed,
  Keyed-unique, Keyed-update, arith, ◌==◌, update, if◌then◌else◌, All-update, Bool-cases,
}
use dot_backend.Apps.Builds.{BuildJob, is_open, job_is}

-- A sequence of writes, each to one open job, which keep its key and its app and never lower its attempts.
pub data Evolves (jobs : List BuildJob) : List BuildJob → Type 0 where
  stays : Evolves jobs jobs
  writes :
      {before : List BuildJob} (j : BuildJob) (f : BuildJob → BuildJob)
      → Evolves jobs before
      → Has j before
      → is_open j.status ≡ true
      → ((x : BuildJob) → (f x).id ≡ x.id)
      → ((x : BuildJob) → (f x).app_id ≡ x.app_id)
      → ((x : BuildJob) → x.attempts ≤ (f x).attempts)
      → Evolves jobs (update (job_is j.id) f before)

pub Evolves-trans : {a b c : List BuildJob} → Evolves a b → Evolves b c → Evolves a c
Evolves-trans h stays = h
Evolves-trans h (writes j f k stored live keeps same_app counts) =
    writes j f (Evolves-trans h k) stored live keeps same_app counts

pub Evolves-Keyed :
    {before after : List BuildJob}
    → Evolves before after
    → Keyed (λ (j : BuildJob). j.id) before
    → Keyed (λ (j : BuildJob). j.id) after
Evolves-Keyed stays k = k
Evolves-Keyed (writes {before = jobs} j f h stored live keeps same_app counts) k =
    Keyed-update (λ (x : BuildJob). x.id) (job_is j.id) f jobs keeps (Evolves-Keyed h k)

-- Where keys are distinct, a job that is settled is left as it is,
pub Evolves-settled :
    {before after : List BuildJob} (j : BuildJob)
    → Evolves before after
    → Keyed (λ (x : BuildJob). x.id) before
    → Has j before
    → is_open j.status ≡ false
    → Has j after
Evolves-settled j stays k stored settled = stored
Evolves-settled j (writes {before = jobs} r f h held live keeps same_app counts) k stored settled =
    let there_still = Evolves-settled j h k stored settled in
    let keyed = Evolves-Keyed h k in
    elim (Bool-cases (j.id == r.id)) [
      | inl e ↦ absurd (
          let same =
            All-Has (λ (x : BuildJob). x.id ≡ r.id → x ≡ r) there_still
              (Keyed-unique (λ (x : BuildJob). x.id) jobs r keyed held) (ground arith) in
          cc)
      | inr e ↦
          subst (λ b. Has (if b then f j else j) (update (job_is r.id) f jobs)) e
            (Has-update (job_is r.id) f there_still)
    ]

-- and the attempts of a job never go down.
pub Evolves-attempts :
    {before after : List BuildJob} (k least : ℕ)
    → Evolves before after
    → All (λ (x : BuildJob). x.id ≡ k → least ≤ x.attempts) before
    → All (λ (x : BuildJob). x.id ≡ k → least ≤ x.attempts) after
Evolves-attempts k least stays h = h
Evolves-attempts k least (writes {before = jobs} j f e held live keeps same_app counts) h =
    All-update (λ (x : BuildJob). x.id ≡ k → least ≤ x.attempts) (job_is j.id) f jobs
      (λ x _ old same. let c = counts x in let o = old (sym (keeps x) ∙ same) in omega arith)
      (Evolves-attempts k least e h)
