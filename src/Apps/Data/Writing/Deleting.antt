-- ===== src/Apps/Data/Writing/Deleting.antt =====
-- `delete_data_record` of services/generated_apps_v2.py, and what it leaves.
use dot_backend.Prelude.{
  ℕ, suc, String, Bool, true, false, not, ◌&&◌, Option, none, some, [], ◌∷◌, ◌++◌, any, ◌==◌, find?,
  update, delete, ◌≡◌, ◌⊎◌, inl, inr, sym, ap,
}
use dot_backend.Prelude.Json.{ℤ, pos, bool, int, text, object, end, field}
use dot_backend.Apps.Records.{
  AppResult, ok, ◌>>=◌, ◌>>◌, raise_if, or_raise, not_found, conflict, clean_text, ok-inj, bind-ok,
}
use dot_backend.Apps.Access.{AppActor, reauthorize_actor, require_write}
use dot_backend.Apps.Data.{
  DataRecord, AppEvent, DataStore, Python, enforce_mutation_rate_limit, event_by_key,
  replay_response, idempotency_request_hash,
}
use dot_backend.Apps.Data.Writing.{is_record, at_version}

module _ (py : Python) where
  abbrev tombstone : ℕ → DataRecord → AppActor → String → String → ℕ → ℕ → AppEvent
  tombstone k r actor hash key now fresh = record {
    id = fresh;
    app_id = k;
    record_id = none;
    entity = some r.entity;
    event_type = "app.data.deleted";
    actor_user_id = actor.user_id;
    actor_session_id = actor.session_id;
    idempotency_key = key;
    operation = some "records.delete";
    request_hash = some hash;
    response = field "deleted" (bool true) (field "record_id" (text (py.print_id r.id)) end);
    payload = field "tombstone" (bool true) (
        field "record_id" (text (py.print_id r.id)) (
          field "entity" (text r.entity)
            (field "version" (int (pos r.version)) (field "data" (object r.content) end))));
    created_at = now;
  }

  abbrev pub replay_delete :
      String → DataStore → Option AppEvent → AppResult DataStore → AppResult DataStore
  replay_delete hash s none otherwise = otherwise
  replay_delete hash s (some e) otherwise = do
    response ← replay_response e "records.delete" hash
    ok s

  -- What a deletion does to the rows; the events that name the record lose the reference.
  abbrev pub drop_record :
      ℕ → DataRecord → ℤ → AppActor → String → String → ℕ → DataStore → AppResult DataStore
  drop_record k r expected actor hash key now s = do
    raise_if (not (any (λ x. is_record k r.id x && at_version expected x) s.records)) conflict
    ok (record s {
      records = delete (λ x. is_record k r.id x && at_version expected x) s.records;
      events =
          update (λ e. elim e.record_id [ none ↦ false | some id ↦ id == r.id ])
            (λ e. record e { record_id = none }) s.events
          ++ tombstone k r actor hash key now s.next_row ∷ [];
      next_row = suc s.next_row;
    })

  -- `delete_data_record`
  unfoldable pub delete_data_record :
      ℕ → ℕ → AppActor → ℤ → String → ℕ → DataStore → AppResult DataStore
  delete_data_record k id claimed_actor expected idempotency_key now s = do
    actor ← reauthorize_actor k claimed_actor now s.tables
    require_write actor
    key ← clean_text (text idempotency_key) 160
    hash ←
        idempotency_request_hash py "records.delete"
          (field "record_id" (text (py.print_id id)) (field "expected_version" (int expected) end))
    replay_delete hash s (event_by_key k key s) (do
      r ← or_raise (find? (is_record k id) s.records) not_found
      enforce_mutation_rate_limit k actor now s
      replay_delete hash s (event_by_key k key s) (drop_record k r expected actor hash key now s))

-- What a deletion leaves.
pub record Deleted (s s' : DataStore) : Type 0 where
  pub p : DataRecord → Bool
  pub records : s'.records ≡ delete p s.records
  pub next_row : s'.next_row ≡ suc s.next_row

module _ (py : Python) where
  replay_delete-cases :
      (hash : String) (s s' : DataStore) (o : Option AppEvent) (otherwise : AppResult DataStore)
      → replay_delete py hash s o otherwise ≡ ok s'
      → (s' ≡ s) ⊎ (otherwise ≡ ok s')
  replay_delete-cases hash s s' none otherwise h = inr h
  replay_delete-cases hash s s' (some e) otherwise h =
      let (_, _, k) = bind-ok (replay_response e "records.delete" hash) _ h in inl (sym (ok-inj k))

  drop_record-Deleted :
      (k : ℕ) (r : DataRecord) (expected : ℤ) (actor : AppActor) (hash key : String) (now : ℕ)
      (s s' : DataStore)
      → drop_record py k r expected actor hash key now s ≡ ok s'
      → Deleted s s'
  drop_record-Deleted k r expected actor hash key now s s' h =
      let (_, _, h1) =
        bind-ok
          (raise_if (not (any (λ x. is_record k r.id x && at_version expected x) s.records))
            conflict)
          _ h in
      record {
        p = λ x. is_record k r.id x && at_version expected x;
        records = sym (ap (λ (z : DataStore). z.records) (ok-inj h1));
        next_row = sym (ap (λ (z : DataStore). z.next_row) (ok-inj h1));
      }

  pub delete_data_record-cases :
      (k id : ℕ) (claimed_actor : AppActor) (expected : ℤ) (idempotency_key : String) (now : ℕ)
      (s s' : DataStore)
      → delete_data_record py k id claimed_actor expected idempotency_key now s ≡ ok s'
      → (s' ≡ s) ⊎ Deleted s s'
  unfolding delete_data_record
  delete_data_record-cases k id claimed_actor expected idempotency_key now s s' h =
      let (actor, _, h1) = bind-ok (reauthorize_actor k claimed_actor now s.tables) _ h in
      let (_, _, h2) = bind-ok (require_write actor) _ h1 in
      let (key, _, h3) = bind-ok (clean_text (text idempotency_key) 160) _ h2 in
      let (hash, _, h4) =
        bind-ok
          (idempotency_request_hash py "records.delete" (
            field "record_id" (text (py.print_id id))
              (field "expected_version" (int expected) end)))
          _ h3 in
      elim (replay_delete-cases hash s s' (event_by_key k key s) _ h4) [
        | inl e ↦ inl e
        | inr h5 ↦
            let (r, _, h6) = bind-ok (or_raise (find? (is_record k id) s.records) not_found) _ h5 in
            let (_, _, h7) = bind-ok (enforce_mutation_rate_limit k actor now s) _ h6 in
            elim (replay_delete-cases hash s s' (event_by_key k key s) _ h7) [
              | inl e ↦ inl e
              | inr h8 ↦ inr (drop_record-Deleted k r expected actor hash key now s s' h8)
            ]
      ]
