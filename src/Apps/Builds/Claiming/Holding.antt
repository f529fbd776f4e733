-- ===== src/Apps/Builds/Claiming/Holding.antt =====
-- What a claim in services/generated_apps_v2.py leaves behind: the worker holds the job that it got.
use dot_backend.Prelude.{
  ℕ, ◌+◌, ◌≤◌, ◌≡◌, refl, sym, ap, subst, String, true, some, Has, Has-update, arith, ==_refl,
  update, if◌then◌else◌,
}
use dot_backend.Prelude.Json.{ℤ}
use dot_backend.Jobs.Clock.{seconds}
use dot_backend.Apps.Records.{clamp, clamp-within}
use dot_backend.Apps.Builds.{claimed, BuildJob, ClaimedBuild, BuildStore, Runtime, is_open, job_is}
use dot_backend.Apps.Builds.Claiming.{
  max_build_attempts, abandon, terminalize_exhausted_build_claim, start_build, claim_of, Claim,
}
use dot_backend.Apps.Builds.Changes.{Evolves, stays, writes, Evolves-trans}
use dot_backend.Apps.Builds.Claiming.Rounds.{
  Claims, idle, takes, abandons, chosen, terminalize-jobs,
}

module _ (w : Runtime) (worker : String) (lease : ℤ) where
  abandon_writes :
      (j : BuildJob) (now : ℕ) (s : BuildStore)
      → Has j s.jobs
      → is_open j.status ≡ true
      → Evolves s.jobs (terminalize_exhausted_build_claim w j now s).jobs
  abandon_writes j now s m live =
      subst (Evolves s.jobs) (sym (terminalize-jobs w worker lease j now s))
        (writes j (abandon w now) stays m live (λ x. refl) (λ x. refl) (λ x. omega arith))

  pub Claims-Evolves :
      (c : Claim) (s : BuildStore) → Claims w worker lease c s → Evolves s.jobs c.1.jobs
  Claims-Evolves c s (idle now busy e same) =
      subst (λ (x : Claim). Evolves s.jobs x.1.jobs) (sym same) stays
  Claims-Evolves c s (takes now busy j e left same) =
      let (m, live) = chosen w worker lease busy now s.jobs j e in
      subst (λ (x : Claim). Evolves s.jobs x.1.jobs) (sym same)
        (writes j (start_build worker lease now) stays m live (λ x. refl) (λ x. refl)
          (λ x. omega arith))
  Claims-Evolves c s (abandons now busy j e spent rest) =
      let (m, live) = chosen w worker lease busy now s.jobs j e in
      Evolves-trans (abandon_writes j now s m live) (Claims-Evolves c _ rest)

  -- A job that a claim hands out is claimed for the worker, on its first, second or third attempt,
  -- under a lease of between 15 seconds and 15 minutes.
  pub record Held (c : ClaimedBuild) (s : BuildStore) : Type 0 where
    pub row : BuildJob
    pub now : ℕ
    pub in_table : Has row s.jobs
    pub id : row.id ≡ c.job_id
    pub status : row.status ≡ claimed
    pub holder : row.claimed_by ≡ some worker
    pub attempt : row.attempts ≡ c.attempt
    pub within : c.attempt ≤ max_build_attempts
    pub lease_end :
        (t : ℕ) × (row.lease_expires_at ≡ some t) × (now + seconds 15 ≤ t) × (t ≤ now + seconds 900)

  pub Claims-Held :
      (c : Claim) (s : BuildStore) (b : ClaimedBuild)
      → Claims w worker lease c s
      → c.0 ≡ some b
      → Held b c.1
  Claims-Held c s b (idle now busy e same) h = absurd (let k = ap (λ (x : Claim). x.0) same in cc)
  Claims-Held c s b (takes now busy j e left same) h =
      let (m, live) = chosen w worker lease busy now s.jobs j e in
      let mine : claim_of j ≡ b = (let k = ap (λ (x : Claim). x.0) same in cc) in
      subst (λ (x : Claim). Held b x.1) (sym same)
        (record {
          row = start_build worker lease now j;
          now = now;
          in_table =
              subst
                (λ t.
                  Has (if t then start_build worker lease now j else j)
                    (update (job_is j.id) (start_build worker lease now) s.jobs))
                (==_refl j.id) (Has-update (job_is j.id) (start_build worker lease now) m);
          id = ap (λ (x : ClaimedBuild). x.job_id) mine;
          status = refl;
          holder = refl;
          attempt = ap (λ (x : ClaimedBuild). x.attempt) mine;
          within = let k = ap (λ (x : ClaimedBuild). x.attempt) mine in omega arith;
          lease_end = (
            now + seconds (clamp 15 900 lease),
            refl,
            (let k = clamp-within 15 900 lease (omega arith) in let k0 = k.0 in omega arith),
            (let k = clamp-within 15 900 lease (omega arith) in let k1 = k.1 in omega arith),
          );
        })
  Claims-Held c s b (abandons now busy j e spent rest) h = Claims-Held c _ b rest h
