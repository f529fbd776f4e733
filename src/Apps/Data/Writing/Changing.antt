-- ===== src/Apps/Data/Writing/Changing.antt =====
-- `update_data_record` of services/generated_apps_v2.py: an edit is written on the version that it
-- expects, and only once.
use dot_backend.Prelude.{
  ℕ, suc, ◌≡◌, ◌≢◌, inl, inr, sym, ap, subst, String, true, false, ◌&&◌, some, arith, find?, All,
  All-Has, All-update_any, Has, find?-Has, find?-holds, update, Bool-cases, ◌-◌,
}
use dot_backend.Prelude.Json.{ℤ, pos, Json, Fields, negsuc, text, int, object, end, field}
use dot_backend.Apps.Records.{
  ok, ok-inj, bind-ok, or_raise, or_raise-ok, clean_text, not_found, conflict,
}
use dot_backend.Apps.Access.{AppActor, reauthorize_actor, require_write}
use dot_backend.Apps.Manifest.{as_object}
use dot_backend.Apps.Entities.{validate_entity_data}
use dot_backend.Apps.Data.{
  DataRecord, DataStore, Python, enforce_app_storage_limit, enforce_mutation_rate_limit,
  active_manifest, event_by_key, idempotency_request_hash,
}
use dot_backend.Apps.Data.Writing.{
  Saved, row, change_record, update_data_record, edit, is_record, at_version, merge,
}
use dot_backend.Apps.Data.Writing.Creating.{replay_or-row, written_row}

module _ (py : Python) where
  -- An edit that is written: it passed the storage limit, and it was made on the row that has the
  -- version that was expected, which it counts up.
  pub record Changed (k id : ℕ) (expected : ℤ) (now : ℕ) (s : DataStore) (r : DataRecord)
      (s' : DataStore) : Type 0 where
    pub actor : AppActor
    pub clean : Fields
    pub current : DataRecord
    pub old : DataRecord
    pub is_current : find? (is_record k id) s.records ≡ some current
    pub small :
        enforce_app_storage_limit k (py.encoding.json_bytes (object clean) - current.data_bytes) s
        ≡ ok tt
    pub is_old : find? (λ x. is_record k id x && at_version expected x) s.records ≡ some old
    pub written : r ≡ edit py actor clean now old
    pub records :
        s'.records
        ≡ update
            (λ x. is_record k id x && at_version expected x)
            (edit py actor clean now)
            s.records
    pub next_row : s'.next_row ≡ suc s.next_row

  change_record-Changed :
      (k id : ℕ) (actor : AppActor) (expected : ℤ) (changes : Fields) (key hash : String) (now : ℕ)
      (s : DataStore) (r : DataRecord) (s' : DataStore)
      → change_record py k id actor expected changes key hash now s ≡ ok (row r, s')
      → Changed k id expected now s r s'
  change_record-Changed k id actor expected changes key hash now s r s' h =
      let (manifest, _, h1) = bind-ok (active_manifest k s) _ h in
      let (current, e2, h2) =
        bind-ok (or_raise (find? (is_record k id) s.records) not_found) _ h1 in
      let (clean, _, h3) =
        bind-ok
          (validate_entity_data py.encoding manifest current.entity (merge changes current.content))
          _ h2 in
      let (_, e4, h4) =
        bind-ok
          (enforce_app_storage_limit k (py.encoding.json_bytes (object clean) - current.data_bytes)
            s)
          _ h3 in
      let (old, e5, h5) =
        bind-ok
          (or_raise (find? (λ x. is_record k id x && at_version expected x) s.records) conflict) _
          h4 in
      let same = ok-inj h5 in
      record {
        actor = actor;
        clean = clean;
        current = current;
        old = old;
        is_current = or_raise-ok _ not_found e2;
        small = e4;
        is_old = or_raise-ok _ conflict e5;
        written = sym (ap (λ (p : Saved × DataStore). written_row py r p.0) same);
        records = sym (ap (λ (p : Saved × DataStore). p.1.records) same);
        next_row = sym (ap (λ (p : Saved × DataStore). p.1.next_row) same);
      }

  pub update_data_record-Changed :
      (k id : ℕ) (claimed_actor : AppActor) (expected : ℤ) (content : Json)
      (idempotency_key : String) (now : ℕ) (s : DataStore) (r : DataRecord) (s' : DataStore)
      → update_data_record py k id claimed_actor expected content idempotency_key now s
        ≡ ok (row r, s')
      → Changed k id expected now s r s'
  unfolding update_data_record
  update_data_record-Changed k id claimed_actor expected content idempotency_key now s r s' h =
      let (actor, _, h1) = bind-ok (reauthorize_actor k claimed_actor now s.tables) _ h in
      let (_, _, h2) = bind-ok (require_write actor) _ h1 in
      let (changes, _, h3) = bind-ok (as_object content) _ h2 in
      let (key, _, h4) = bind-ok (clean_text (text idempotency_key) 160) _ h3 in
      let (hash, _, h5) =
        bind-ok
          (idempotency_request_hash py "records.update" (
            field "record_id" (text (py.print_id id))
              (field "expected_version" (int expected) (field "data" (object changes) end))))
          _ h4 in
      let (_, h6) = replay_or-row py "records.update" hash s (event_by_key k key s) _ r s' h5 in
      let (_, _, h7) = bind-ok (enforce_mutation_rate_limit k actor now s) _ h6 in
      let (_, h8) = replay_or-row py "records.update" hash s (event_by_key k key s) _ r s' h7 in
      change_record-Changed k id actor expected changes key hash now s r s' h8

  counted_up :
      (k id : ℕ) (expected : ℤ) (actor : AppActor) (clean : Fields) (now : ℕ) (x : DataRecord)
      → is_record k id x && at_version expected x ≡ true
      → is_record k id (edit py actor clean now x)
          && at_version expected (edit py actor clean now x)
        ≡ false
  counted_up k id (pos n) actor clean now x h = ground arith
  counted_up k id (negsuc n) actor clean now x h = ground arith

  -- The version that was expected is gone.
  no_longer :
      (k id : ℕ) (expected : ℤ) (now : ℕ) (s : DataStore) (r : DataRecord) (s' : DataStore)
      → Changed k id expected now s r s'
      → All (λ x. is_record k id x && at_version expected x ≡ false) s'.records
  no_longer k id expected now s r s' c =
      subst (All (λ x. is_record k id x && at_version expected x ≡ false)) (sym c.records) (
        All-update_any (λ x. is_record k id x && at_version expected x ≡ false)
          (λ x. is_record k id x && at_version expected x) (edit py c.actor c.clean now) s.records
          λ x. elim (Bool-cases (is_record k id x && at_version expected x)) [
            | inl e ↦ rw e (counted_up k id expected c.actor c.clean now x e)
            | inr e ↦ rw e e
          ])

  -- An edit that is written was made on the version that it expected, and counts the version up; and
  -- a second edit, by anyone, that expects the same version is not written.
  pub update_data_record-once :
      (k id : ℕ) (first second : AppActor) (expected : ℤ) (content again : Json)
      (idempotency_key other_key : String) (now later : ℕ) (s : DataStore) (r r2 : DataRecord)
      (s' s2 : DataStore)
      → update_data_record py k id first expected content idempotency_key now s ≡ ok (row r, s')
      → ((old : DataRecord) × Has old s.records
          × (expected ≡ pos old.version)
          × (r.version ≡ suc old.version))
        × (update_data_record py k id second expected again other_key later s' ≢ ok (row r2, s2))
  update_data_record-once k id first second expected content again idempotency_key other_key now
        later s r r2 s' s2 done =
      let c =
        update_data_record-Changed k id first expected content idempotency_key now s r s' done in
      let p =
        find?-holds (λ x. is_record k id x && at_version expected x) s.records c.old c.is_old in
      (
        (
          c.old,
          find?-Has (λ x. is_record k id x && at_version expected x) s.records c.old c.is_old,
          version_is expected c.old (ground arith),
          ap (λ (x : DataRecord). x.version) c.written,
        ),
        λ twice.
            let d =
              update_data_record-Changed k id second expected again other_key later s' r2 s2
                twice in
            let q =
              find?-holds (λ x. is_record k id x && at_version expected x) s'.records d.old
                d.is_old in
            let gone =
              All-Has (λ x. is_record k id x && at_version expected x ≡ false)
                (find?-Has (λ x. is_record k id x && at_version expected x) s'.records d.old
                  d.is_old)
                (no_longer k id expected now s r s' c) in
            cc,
      )
    where
      version_is : (n : ℤ) (x : DataRecord) → at_version n x ≡ true → n ≡ pos x.version
      version_is (pos n) x h = ap pos (ground arith)
      version_is (negsuc n) x h = absurd (cc)
