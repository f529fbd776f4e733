-- ===== src/Apps/Builds/Claiming/Rounds.antt =====
-- The loop of `claim_next_build` in services/generated_apps_v2.py ends, and what its rounds do.
use dot_backend.Prelude.{
  ℕ, zero, suc, ◌+◌, ◌≤◌, ◌<◌, ◌≡◌, inl, inr, refl, sym, ap, ◌∙◌, subst, String, Bool, true, false,
  Option, none, some, List, [], ◌∷◌, length, leb, Has, here, there, arith, ◌==◌, ==_refl, update,
  find?, if◌then◌else◌, first_by-Has, first_by-holds, Bool-cases, Option-cases,
}
use dot_backend.Prelude.Json.{ℤ, text}
use dot_backend.Apps.Records.{GeneratedApp, ok, clean_text}
use dot_backend.Apps.Builds.{
  BuildStatus, queued, claimed, succeeded, failed, BuildJob, BuildStore, Runtime, is_open, job_is,
  write_job,
}
use dot_backend.Apps.Builds.Claiming.{
  max_build_attempts, next_job, claimable, older, eligible_status, abandon,
  terminalize_exhausted_build_claim, start_build, claim_of, Claim, claim_loop, claim_next_build,
  round,
}

open_status :
    (status : BuildStatus) (lease : Option ℕ) (now : ℕ)
    → eligible_status status lease now ≡ true
    → is_open status ≡ true
open_status queued lease now h = refl
open_status claimed lease now h = refl
open_status succeeded lease now h = absurd (cc)
open_status failed lease now h = absurd (cc)

module _ (w : Runtime) (worker : String) (lease : ℤ) where
  -- What a claim does, round by round: no job is eligible; or the oldest eligible job is taken, if
  -- it has attempts left; or it is settled as abandoned, and the claim goes on.
  pub data Claims (c : Claim) : BuildStore → Type 0 where
    idle :
        {s : BuildStore} (now : ℕ) (busy : ℕ → Bool)
        → next_job busy now s.jobs ≡ none
        → c ≡ (none, s)
        → Claims c s
    takes :
        {s : BuildStore} (now : ℕ) (busy : ℕ → Bool) (j : BuildJob)
        → next_job busy now s.jobs ≡ some j
        → j.attempts < max_build_attempts
        → c ≡ (some (claim_of j), write_job j (start_build worker lease now) s)
        → Claims c s
    abandons :
        {s : BuildStore} (now : ℕ) (busy : ℕ → Bool) (j : BuildJob)
        → next_job busy now s.jobs ≡ some j
        → max_build_attempts ≤ j.attempts
        → Claims c (terminalize_exhausted_build_claim w j now s)
        → Claims c s

  claim_loop-Claims :
      (n : ℕ) (clock : ℕ → ℕ) (busy : ℕ → ℕ → Bool) (s : BuildStore) (c : Claim)
      → claim_loop w n clock busy worker lease s ≡ some c
      → Claims c s
  unfolding claim_loop
  claim_loop-Claims zero clock busy s c h = absurd (cc)
  claim_loop-Claims (suc n) clock busy s c h =
      let step = round w worker lease (clock n) s (claim_loop w n clock busy worker lease) in
      elim (Option-cases (next_job (busy n) (clock n) s.jobs)) [
        | inl e ↦ idle (clock n) (busy n) e (let k = sym (ap step e) ∙ h in cc)
        | inr (j, e) ↦ elim (Bool-cases (leb max_build_attempts j.attempts)) [
          | inl spent ↦
              abandons (clock n) (busy n) j e (ground arith)
                (claim_loop-Claims n clock busy _ c (let k = sym (ap step e) ∙ h in ground arith))
          | inr left ↦
              takes (clock n) (busy n) j e (ground arith)
                (let k = sym (ap step e) ∙ h in ground arith)
        ]
      ]

  open_count : List BuildJob → ℕ
  open_count [] = 0
  open_count (j ∷ js) = (if is_open j.status then 1 else 0) + open_count js

  open_count-length : (js : List BuildJob) → open_count js ≤ length js
  unfolding open_count
  open_count-length [] = omega arith
  open_count-length (j ∷ js) = let h = open_count-length js in ground arith

  open_count-abandon_le :
      (k now : ℕ) (js : List BuildJob)
      → open_count (update (job_is k) (abandon w now) js) ≤ open_count js
  unfolding open_count
  open_count-abandon_le k now [] = omega arith
  open_count-abandon_le k now (j ∷ js) = let h = open_count-abandon_le k now js in ground arith

  -- Settling an open job as abandoned leaves fewer open ones.
  open_count-abandon :
      (j : BuildJob) (now : ℕ) (js : List BuildJob)
      → Has j js
      → is_open j.status ≡ true
      → open_count (update (job_is j.id) (abandon w now) js) < open_count js
  unfolding open_count
  open_count-abandon j now [] m live = elim m [ ]
  open_count-abandon j now (x ∷ js) (here e) live =
      let h = open_count-abandon_le j.id now js in rw e (rw (live, ==_refl j.id) (omega arith))
  open_count-abandon j now (x ∷ js) (there m) live =
      let h = open_count-abandon j now js m live in ground arith

  -- The chosen job is in the table, and open.
  pub chosen :
      (busy : ℕ → Bool) (now : ℕ) (jobs : List BuildJob) (j : BuildJob)
      → next_job busy now jobs ≡ some j
      → Has j jobs × (is_open j.status ≡ true)
  chosen busy now jobs j e = (
    first_by-Has older (claimable busy now) jobs j e,
    let p = first_by-holds older (claimable busy now) jobs j e in
        open_status j.status j.lease_expires_at now (ground arith),
  )

  pub terminalize-jobs :
      (j : BuildJob) (now : ℕ) (s : BuildStore)
      → (terminalize_exhausted_build_claim w j now s).jobs
        ≡ update (job_is j.id) (abandon w now) s.jobs
  unfolding terminalize_exhausted_build_claim
  terminalize-jobs j now s =
      elim (Option-cases (find? (λ (a : GeneratedApp). a.id == j.app_id) s.app_data.tables.apps)) [
        | inl e ↦ rw e refl
        | inr (app, e) ↦ rw e refl
      ]

  round-spent :
      (now : ℕ) (s : BuildStore) (next : BuildStore → Option Claim) (j : BuildJob)
      → leb max_build_attempts j.attempts ≡ true
      → round w worker lease now s next (some j)
        ≡ next (terminalize_exhausted_build_claim w j now s)
  round-spent now s next j e = rw e refl

  round-takes :
      (now : ℕ) (s : BuildStore) (next : BuildStore → Option Claim) (j : BuildJob)
      → leb max_build_attempts j.attempts ≡ false
      → round w worker lease now s next (some j)
        ≡ some (some (claim_of j), write_job j (start_build worker lease now) s)
  round-takes now s next j e = rw e refl

  -- With more fuel than open jobs the loop ends.
  claim_loop-ends :
      (n : ℕ) (clock : ℕ → ℕ) (busy : ℕ → ℕ → Bool) (s : BuildStore)
      → open_count s.jobs < n
      → (c : Claim) × (claim_loop w n clock busy worker lease s ≡ some c)
  unfolding claim_loop
  claim_loop-ends zero clock busy s h = absurd (omega arith)
  claim_loop-ends (suc n) clock busy s h =
      let step = round w worker lease (clock n) s (claim_loop w n clock busy worker lease) in
      elim (Option-cases (next_job (busy n) (clock n) s.jobs)) [
        | inl e ↦ (_, ap step e)
        | inr (j, e) ↦ elim (Bool-cases (leb max_build_attempts j.attempts)) [
          | inl spent ↦
              let (m, live) = chosen (busy n) (clock n) s.jobs j e in
              let fewer = open_count-abandon j (clock n) s.jobs m live in
              let (c, k) =
                claim_loop-ends n clock busy (terminalize_exhausted_build_claim w j (clock n) s) (
                  subst (λ js. open_count js < n) (sym (terminalize-jobs j (clock n) s))
                    (omega arith)) in
              (
                c,
                ap step e
                    ∙ round-spent (clock n) s (claim_loop w n clock busy worker lease) j spent
                    ∙ k,
              )
          | inr left ↦ (
            _,
            ap step e ∙ round-takes (clock n) s (claim_loop w n clock busy worker lease) j left,
          )
        ]
      ]

  -- One round more than there are jobs is enough.
  pub claim_loop-enough :
      (clock : ℕ → ℕ) (busy : ℕ → ℕ → Bool) (s : BuildStore)
      → (c : Claim) × (claim_loop w (suc (length s.jobs)) clock busy worker lease s ≡ some c)
  claim_loop-enough clock busy s =
      let enough = open_count-length s.jobs in
      claim_loop-ends (suc (length s.jobs)) clock busy s (omega arith)

  -- A claim under a good worker id ends within the rounds that it has, and does what they do.
  claim_next_build-Claims :
      (clock : ℕ → ℕ) (busy : ℕ → ℕ → Bool) (worker_id : String) (s : BuildStore)
      → clean_text (text worker_id) 120 ≡ ok worker
      → (c : Claim) × (claim_next_build w clock busy worker_id lease s ≡ ok (some c)) × Claims c s
  unfolding claim_next_build
  claim_next_build-Claims clock busy worker_id s good =
      let (c, ends) = claim_loop-enough clock busy s in
      (c, rw (good, ends) refl, claim_loop-Claims (suc (length s.jobs)) clock busy s c ends)
