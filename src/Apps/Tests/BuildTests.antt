-- ===== src/Apps/Tests/BuildTests.antt =====
-- Two builds in the queue: one that a worker has abandoned three times, and a new one.
use dot_backend.Prelude.{
  ◌≡◌, refl, true, false, none, some, [], ◌∷◌, Has, here, there, Keyed, arith, first_by, strip,
  lstrip, rstrip, text_len,
}
use dot_backend.Prelude.Json.{pos, end, text}
use dot_backend.Apps.Tests.DataTests.{empty}
use dot_backend.Apps.Records.{err, ok, conflict, clean_text}
use dot_backend.Apps.Builds.{
  queued, claimed, BuildJob, BuildStore, Runtime, write_job, safe_failure,
}
use dot_backend.Apps.Builds.Claiming.{
  Claim, claim_next_build, claim_of, start_build, terminalize_exhausted_build_claim, next_job,
  abandon,
}
use dot_backend.Apps.Builds.Claiming.Rounds.{Claims, takes, abandons}
use dot_backend.Apps.Builds.Claiming.Serving.{Serves, claim_next_build-Serves}
use dot_backend.Apps.Builds.Failing.{fail_build, claimed_job, requeue}
use dot_backend.Apps.Builds.Failing.Outcomes.{Written, Reported, fail_build-Reported}
use dot_backend.Apps.Builds.Failing.Fencing.{nothing, claims, settled-final, stale_attempt-refused}

abbrev pub runtime : Runtime
runtime = record {
  dumps = λ fields. "{}";
  loads = λ source. none;
  print_id = λ k. "00000000-0000-0000-0000-000000000001";
  milliseconds = λ difference. difference;
}

abbrev fresh : BuildJob
fresh = record {
  id = 1;
  app_id = 5;
  base_revision_id = none;
  result_revision_id = none;
  status = queued;
  request = end;
  idempotency_key = none;
  request_hash = none;
  result = end;
  delivery_provider = some "linq";
  app_url = "/a/rent";
  attempts = 0;
  claimed_by = none;
  lease_expires_at = none;
  error = none;
  created_at = 20;
  started_at = none;
  completed_at = none;
  updated_at = 20;
}

abbrev abandoned : BuildJob
abandoned = record fresh {
  id = 2;
  status = claimed;
  attempts = 3;
  claimed_by = some "gone";
  lease_expires_at = some 90;
  created_at = 10;
}

abbrev queue : BuildStore
queue = record {
  jobs = fresh ∷ abandoned ∷ [];
  app_data = record empty { deployments = [] };
  outbox = [];
  next_event = 1;
  next_job_id = 3;
}

good_worker : clean_text (text " worker ") 120 ≡ ok "worker"
unfolding clean_text strip text_len lstrip rstrip
good_worker = refl

claim_next_build-Serves_example :
    (c : Claim) × (claim_next_build runtime (λ i. 100) (λ i k. false) " worker " (pos 120) queue
      ≡ ok (some c))
    × Serves runtime "worker" (pos 120) (λ i. 100) (λ i k. false) c 3 queue
claim_next_build-Serves_example =
    claim_next_build-Serves runtime "worker" (pos 120) (λ i. 100) (λ i k. false) " worker " queue
      good_worker

-- The queue after the abandoned build is settled, and the new one is claimed.
abbrev settled : BuildStore
settled = terminalize_exhausted_build_claim runtime abandoned 100 queue

abbrev taken : BuildStore
taken = write_job fresh (start_build "worker" (pos 120) 100) settled

first_choice : next_job (λ k. false) 100 queue.jobs ≡ some abandoned
unfolding first_by
first_choice = refl

second_choice : next_job (λ k. false) 100 settled.jobs ≡ some fresh
unfolding first_by terminalize_exhausted_build_claim
second_choice = refl

claimed_fresh : Claims runtime "worker" (pos 120) (some (claim_of fresh), taken) queue
claimed_fresh =
    abandons 100 (λ k. false) abandoned first_choice (omega arith)
      (takes 100 (λ k. false) fresh second_choice (omega arith) refl)

abandoned_row : Has (abandon runtime 100 abandoned) settled.jobs
unfolding terminalize_exhausted_build_claim
abandoned_row = there (here refl)

settled-Keyed : Keyed (λ (j : BuildJob). j.id) settled.jobs
unfolding terminalize_exhausted_build_claim
settled-Keyed = (((λ e. omega arith), tt), (tt, tt))

claim_after : Claims runtime "worker" (pos 120) (some (claim_of fresh), taken) settled
claim_after = takes 100 (λ k. false) fresh second_choice (omega arith) refl

settled-final_example :
    Has (abandon runtime 100 abandoned) taken.jobs
    × (fail_build runtime 2 "gone" (pos 3) "crash" none none true 300 taken ≡ err conflict)
settled-final_example =
    settled-final runtime settled taken (abandon runtime 100 abandoned) "gone" (pos 3) "crash" none
      none true 300 settled-Keyed abandoned_row refl
      (claims "worker" (pos 120) (some (claim_of fresh), taken) nothing claim_after)

-- The claim of the new build runs out, and another worker takes it over.
abbrev taken_over : BuildStore
taken_over =
    write_job (start_build "worker" (pos 120) 100 fresh) (start_build "other" (pos 120) 200000000)
      taken

over : next_job (λ k. false) 200000000 taken.jobs ≡ some (start_build "worker" (pos 120) 100 fresh)
unfolding first_by terminalize_exhausted_build_claim
over = refl

take_over :
    Claims runtime "other"
      (pos 120)
      (some (claim_of (start_build "worker" (pos 120) 100 fresh)), taken_over)
      taken
take_over =
    takes 200000000 (λ k. false) (start_build "worker" (pos 120) 100 fresh) over (omega arith) refl

taken-Keyed : Keyed (λ (j : BuildJob). j.id) taken.jobs
unfolding terminalize_exhausted_build_claim
taken-Keyed = (((λ e. omega arith), tt), (tt, tt))

stale_attempt-refused_example :
    fail_build runtime 1 "worker" (pos 1) "late" none none true 200000001 taken_over ≡ err conflict
stale_attempt-refused_example =
    stale_attempt-refused runtime "other" (pos 120)
      (some (claim_of (start_build "worker" (pos 120) 100 fresh)), taken_over)
      (claim_of (start_build "worker" (pos 120) 100 fresh)) taken taken_over 1 "worker" "late" none
      none true 200000001 taken-Keyed take_over refl (omega arith) nothing

abbrev retried : BuildJob
retried = requeue "late" end true "build_failed" 150 (start_build "worker" (pos 120) 100 fresh)

abbrev retried_store : BuildStore
retried_store =
    write_job (start_build "worker" (pos 120) 100 fresh)
      (requeue "late" end true "build_failed" 150) taken

reported :
    fail_build runtime 1 "worker" (pos 1) "late" none none true 150 taken
    ≡ ok (retried, retried_store)
unfolding fail_build claimed_job clean_text strip text_len lstrip rstrip safe_failure
    terminalize_exhausted_build_claim
reported = refl

fail_build-Reported_example :
    Written 1 retried taken retried_store × Reported runtime 1 retried taken retried_store
fail_build-Reported_example =
    fail_build-Reported runtime 1 "worker" (pos 1) "late" none none true 150 taken retried
      retried_store reported
