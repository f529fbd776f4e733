-- ===== src/Apps/Builds/Queueing/Live.antt =====
-- An app has at most one build that is queued or claimed in services/generated_apps_v2.py.
use dot_backend.Prelude.{
  ℕ, ◌+◌, ◌≤◌, ◌≡◌, ◌≢◌, ◌⊎◌, inl, inr, refl, sym, ap, ◌∙◌, subst, String, true, false, not, Option,
  none, some, List, [], ◌∷◌, ◌++◌, any, All, All-Has, All-weaken, Has, here, there, Keyed,
  Keyed-snoc, update, update-none, ◌==◌, ==_refl, arith, Bool-cases, if◌then◌else◌, if_true,
  if_false, text_is,
}
use dot_backend.Prelude.Json.{Json, object, text, field, end}
use dot_backend.Apps.Records.{
  AppResult, ok, ok-inj, bind-ok, raise_if, raise_if-ok, not_authorized, conflict, not_found,
  is_code, GeneratedApp,
}
use dot_backend.Apps.Access.{locked_code_app, authorize_user_for_locked_app, locked_active_app}
use dot_backend.Apps.Access.Owners.{locked_active_app-ok}
use dot_backend.Apps.Manifest.{require_json_size}
use dot_backend.Apps.Data.{Python}
use dot_backend.Apps.Builds.{BuildJob, BuildStore, Runtime, is_open, job_is}
use dot_backend.Apps.Builds.Changes.{Evolves, stays, writes, Evolves-Keyed}
use dot_backend.Apps.Builds.Failing.Fencing.{Calls, Calls-Evolves}
use dot_backend.Apps.Builds.Queueing.{
  is_live_build, ensure_no_live_build, enforce_user_app_build_quota, build_by_key, new_build,
  replay_or_build, queue_code_app_revision, non_empty_object, clean_key, validated_request_hash,
  hash_or, can_revise, text_or_null,
}

-- The builds of an app that are queued or claimed.
abbrev pub live_builds : ℕ → List BuildJob → ℕ
live_builds k [] = 0
live_builds k (j ∷ js) = (if is_live_build k j then 1 else 0) + live_builds k js

live_builds-append :
    (k : ℕ) (xs ys : List BuildJob) → live_builds k (xs ++ ys) ≡ live_builds k xs + live_builds k ys
live_builds-append k [] ys = omega arith
live_builds-append k (x ∷ xs) ys = let h = live_builds-append k xs ys in omega arith

live_builds-none :
    (k : ℕ) (xs : List BuildJob) → any (is_live_build k) xs ≡ false → live_builds k xs ≡ 0
live_builds-none k [] h = refl
live_builds-none k (x ∷ xs) h = ground (arith, live_builds-none k xs)

one_less :
    (k : ℕ) (j x : BuildJob) (n : ℕ)
    → is_open j.status ≡ true
    → x.app_id ≡ j.app_id
    → (if is_live_build k x then 1 else 0) + n ≤ (if is_live_build k j then 1 else 0) + n
one_less k j x n live same = ground arith

-- A write to an open job, which keeps its app, adds no live build.
live_builds-write :
    (k : ℕ) (j : BuildJob) (f : BuildJob → BuildJob) (js : List BuildJob)
    → Keyed (λ (x : BuildJob). x.id) js
    → Has j js
    → is_open j.status ≡ true
    → ((x : BuildJob) → (f x).app_id ≡ x.app_id)
    → live_builds k (update (job_is j.id) f js) ≤ live_builds k js
live_builds-write k j f [] keyed m live same = elim m [ ]
live_builds-write k j f (x ∷ js) keyed (here e) live same =
    let rest = update-none (job_is j.id) f js (
      All-weaken (λ (y : BuildJob). y.id ≢ x.id) (λ y. job_is j.id y ≡ false) js
        (λ y ne. elim (Bool-cases (job_is j.id y)) [
          | inl q ↦ absurd (ne (same_key y.id j.id q ∙ ap (λ (z : BuildJob). z.id) (sym e)))
          | inr q ↦ q
        ])
        keyed.0) in
    rw (e, rest, ==_refl j.id) (one_less k j (f j) (live_builds k js) live (same j))
  where
    same_key : (a b : ℕ) → (a == b) ≡ true → a ≡ b
    same_key a b h = ground arith
live_builds-write k j f (x ∷ js) keyed (there m) live same =
    let rest = live_builds-write k j f js keyed.1 m live same in
    let miss = All-Has (λ (y : BuildJob). y.id ≢ x.id) m keyed.0 in
    rw (other x.id j.id miss) (omega arith)
  where
    other : (a b : ℕ) → b ≢ a → (a == b) ≡ false
    other a b h = ground arith

Evolves-live :
    {before after : List BuildJob} (k : ℕ)
    → Evolves before after
    → Keyed (λ (x : BuildJob). x.id) before
    → live_builds k after ≤ live_builds k before
Evolves-live k stays keyed = omega arith
Evolves-live k (writes {before = jobs} j f h held live keeps same_app counts) keyed =
    let a = Evolves-live k h keyed in
    let b = live_builds-write k j f jobs (Evolves-Keyed h keyed) held live same_app in omega arith

-- Any claims, failure reports and requests for a revision, one after the other. The key of a row that
-- is added is fresh.
pub data History (w : Runtime) (py : Python) (s : BuildStore) : BuildStore → Type 0 where
  start : History w py s s
  works :
      {before after : BuildStore}
      → History w py s before
      → Calls w before after
      → History w py s after
  queues :
      {before after : BuildStore} (users : List ℕ) (user k : ℕ) (request : Json)
      (provider app_url key hash : Option String) (now : ℕ) (j : BuildJob)
      → History w py s before
      → All (λ (x : BuildJob). x.id ≢ before.next_job_id) before.jobs
      → queue_code_app_revision py users user k request provider app_url key hash now before
        ≡ ok (j, after)
      → History w py s after

-- Job keys are distinct, and each app has at most one live build.
pub record IsSingle (s : BuildStore) : Type 0 where
  pub keyed : Keyed (λ (x : BuildJob). x.id) s.jobs
  pub single : (k : ℕ) → live_builds k s.jobs ≤ 1

record Queued (k : ℕ) (s s' : BuildStore) : Type 0 where
  job : BuildJob
  id : job.id ≡ s.next_job_id
  app : job.app_id ≡ k
  free : any (is_live_build k) s.jobs ≡ false
  jobs : s'.jobs ≡ s.jobs ++ job ∷ []

module _ (w : Runtime) (py : Python) where
  replay-cases :
      (hash : String) (s s' : BuildStore) (o : Option BuildJob) (j : BuildJob)
      (otherwise : AppResult (BuildJob × BuildStore))
      → replay_or_build py hash s o otherwise ≡ ok (j, s')
      → (s' ≡ s) ⊎ (otherwise ≡ ok (j, s'))
  replay-cases hash s s' none j otherwise h = inr h
  replay-cases hash s s' (some x) j otherwise h = elim (Bool-cases (text_is x.request_hash hash)) [
    | inl e ↦ inl (sym (ap (λ (r : BuildJob × BuildStore). r.1) (ok-inj (sym (if_true _ _ e) ∙ h))))
    | inr e ↦ absurd (let z = sym (if_false _ _ e) ∙ h in cc)
  ]

  queue-cases :
      (users : List ℕ) (user k : ℕ) (raw : Json) (provider app_url key hash : Option String)
      (now : ℕ) (s : BuildStore) (j : BuildJob) (s' : BuildStore)
      → queue_code_app_revision py users user k raw provider app_url key hash now s ≡ ok (j, s')
      → (s' ≡ s) ⊎ Queued k s s'
  unfolding queue_code_app_revision locked_code_app
  queue-cases users user k raw provider app_url key given now s j s' h =
      let (request, _, h1) = bind-ok (non_empty_object raw) _ h in
      let (_, _, h2) = bind-ok (require_json_size py.encoding (object request) 1000000) _ h1 in
      let (clean, _, h3) = bind-ok (clean_key key) _ h2 in
      let (known, _, h4) = bind-ok (validated_request_hash given) _ h3 in
      let (hash, _, h5) =
        bind-ok
          (hash_or py known (
            field "user_id" (text (py.print_id user)) (
              field "app_id" (text (py.print_id k)) (
                field "request" (object request) (
                  field "delivery_provider" (text_or_null provider)
                    (field "app_url" (text_or_null app_url) end))))))
          _ h4 in
      let (app, e6, h6) = bind-ok (locked_code_app k s.app_data.tables) _ h5 in
      let (actor, _, h7) =
        bind-ok (authorize_user_for_locked_app app user s.app_data.tables) _ h6 in
      let (_, _, h8) = bind-ok (raise_if (not (can_revise actor.role)) not_authorized) _ h7 in
      elim (replay-cases hash s s' (build_by_key clean s) j _ h8) [
        | inl e ↦ inl e
        | inr h9 ↦
            let (_, e10, h10) = bind-ok (ensure_no_live_build k s) _ h9 in
            let (_, _, h11) = bind-ok (enforce_user_app_build_quota users user false s) _ h10 in
            let (found, e12, h12) = bind-ok (locked_active_app k s.app_data.tables) _ e6 in
            let (_, _, h13) =
              bind-ok (raise_if (not (is_code found.runtime_kind)) not_found) _ h12 in
            let (_, named, _) = locked_active_app-ok k s.app_data.tables found e12 in
            inr (record {
              job = new_build app request provider app_url clean hash now s;
              id = refl;
              app = ap (λ (a : GeneratedApp). a.id) (sym (ok-inj h13)) ∙ named;
              free = raise_if-ok _ conflict e10;
              jobs = sym (ap (λ (r : BuildJob × BuildStore). r.1.jobs) (ok-inj h11));
            })
      ]

  queue-IsSingle :
      (k : ℕ) (s s' : BuildStore)
      → All (λ (x : BuildJob). x.id ≢ s.next_job_id) s.jobs
      → Queued k s s'
      → IsSingle s
      → IsSingle s'
  queue-IsSingle k s s' fresh q inv = record {
    keyed = subst (Keyed (λ (x : BuildJob). x.id)) (sym q.jobs) (
        Keyed-snoc (λ (x : BuildJob). x.id) s.jobs q.job
          (All-weaken (λ (x : BuildJob). x.id ≢ s.next_job_id) (λ (x : BuildJob). x.id ≢ q.job.id)
            s.jobs (λ x h e. h (e ∙ q.id)) fresh)
          inv.keyed);
    single = λ i.
        subst (λ js. live_builds i js ≤ 1) (sym q.jobs)
          (subst (λ n. n ≤ 1) (sym (live_builds-append i s.jobs (q.job ∷ [])))
            (one_more i k (live_builds i s.jobs) q.job q.app (inv.single i) (λ e.
              subst (λ x. live_builds x s.jobs ≡ 0) (sym e) (live_builds-none k s.jobs q.free))));
  }
    where
      one_more :
          (i k n : ℕ) (x : BuildJob)
          → x.app_id ≡ k
          → n ≤ 1
          → (i ≡ k → n ≡ 0)
          → n + live_builds i (x ∷ []) ≤ 1
      one_more i k n x at_app within free = ground arith

  -- Where job keys are distinct and no app has two live builds, this is so after any claims, failure
  -- reports and requests for a revision, where the keys of new rows are fresh: no two builds of an
  -- app are ever queued or claimed at once.
  pub History-IsSingle : (s s' : BuildStore) → History w py s s' → IsSingle s → IsSingle s'
  History-IsSingle s s' start inv = inv
  History-IsSingle s s' (works {before = b} h calls) inv =
      let was = History-IsSingle s b h inv in
      let e = Calls-Evolves w b s' calls in
      record {
        keyed = Evolves-Keyed e was.keyed;
        single = λ k. let a = Evolves-live k e was.keyed in let c = was.single k in omega arith;
      }
  History-IsSingle s s'
        (queues {before = b} users user k request provider app_url key hash now j h fresh done)
        inv =
      let was = History-IsSingle s b h inv in
      elim (queue-cases users user k request provider app_url key hash now b j s' done) [
        | inl e ↦ subst IsSingle (sym e) was
        | inr q ↦ queue-IsSingle k b s' fresh q was
      ]
