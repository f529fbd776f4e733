-- ===== src/Apps/Data/Writing/Creating.antt =====
-- `create_data_record` of services/generated_apps_v2.py: what a call that does not raise has done.
use dot_backend.Prelude.{
  ℕ, suc, ◌<◌, ◌≡◌, refl, sym, ap, ◌∙◌, String, true, false, Option, none, some, leb, arith,
}
use dot_backend.Prelude.Json.{Json, Fields, text, object, end, field}
use dot_backend.Apps.Records.{
  AppResult, ok, ok-inj, bind-ok, raise_if, raise_if-ok, clean_text, not_valid,
}
use dot_backend.Apps.Access.{AppActor, reauthorize_actor, require_write}
use dot_backend.Apps.Manifest.{entity_name, as_object}
use dot_backend.Apps.Entities.{validate_entity_data}
use dot_backend.Apps.Data.{
  DataRecord, AppEvent, DataStore, Python, max_records_per_app, record_count,
  enforce_app_storage_limit, enforce_mutation_rate_limit, active_manifest, event_by_key,
  idempotency_request_hash, stored_record_from_event,
}
use dot_backend.Apps.Data.Writing.{
  Saved, row, snapshot, replay_or, new_record, data_event, added, insert_record, create_data_record,
}

module _ (py : Python) where
  -- A call that returns a row repeats no earlier one.
  pub replay_or-row :
      (operation hash : String) (s : DataStore) (o : Option AppEvent)
      (otherwise : AppResult (Saved × DataStore)) (r : DataRecord) (s' : DataStore)
      → replay_or py operation hash s o otherwise ≡ ok (row r, s')
      → (o ≡ none) × (otherwise ≡ ok (row r, s'))
  replay_or-row operation hash s none otherwise r s' h = (refl, h)
  replay_or-row operation hash s (some e) otherwise r s' h =
      let (stored, _, k) = bind-ok (stored_record_from_event py e operation hash) _ h in
      let same = ok-inj k in
      absurd (
        let z =
          ap (λ (p : Saved × DataStore). elim p.0 [ row x ↦ false | snapshot x ↦ true ]) same in
        cc)

  abbrev pub written_row : DataRecord → Saved → DataRecord
  written_row r (row x) = x
  written_row r (snapshot x) = r

  -- What an insertion that does not raise has checked and written.
  pub record Inserted (k : ℕ) (actor : AppActor) (name hash key : String) (now : ℕ) (s : DataStore)
      (r : DataRecord) (s' : DataStore) : Type 0 where
    pub clean : Fields
    pub few : record_count k s.records < max_records_per_app
    pub small : enforce_app_storage_limit k (py.encoding.json_bytes (object clean)) s ≡ ok tt
    pub written : r ≡ new_record py k actor name clean now s.next_row
    pub result :
        s'
        ≡ added r
            (data_event py k r actor "app.data.created" "records.create" hash key now
              (suc s.next_row))
            s

  insert_record-Inserted :
      (k : ℕ) (actor : AppActor) (name : String) (fs : Fields) (key hash : String) (now : ℕ)
      (s : DataStore) (r : DataRecord) (s' : DataStore)
      → insert_record py k actor name fs key hash now s ≡ ok (row r, s')
      → Inserted k actor name hash key now s r s'
  insert_record-Inserted k actor name fs key hash now s r s' h =
      let (manifest, _, h1) = bind-ok (active_manifest k s) _ h in
      let (clean, _, h2) = bind-ok (validate_entity_data py.encoding manifest name fs) _ h1 in
      let (_, e3, h3) =
        bind-ok (raise_if (leb max_records_per_app (record_count k s.records)) not_valid) _ h2 in
      let (_, e4, h4) =
        bind-ok (enforce_app_storage_limit k (py.encoding.json_bytes (object clean)) s) _ h3 in
      let made = ap (λ (p : Saved × DataStore). written_row r p.0) (ok-inj h4) in
      record {
        clean = clean;
        few = below (record_count k s.records) (raise_if-ok _ not_valid e3);
        small = e4;
        written = sym made;
        result =
            sym (ap (λ (p : Saved × DataStore). p.1) (ok-inj h4))
            ∙ ap
                (λ x.
                  added x
                    (data_event py k x actor "app.data.created" "records.create" hash key now
                      (suc s.next_row))
                    s)
                made;
      }
    where
      below : (n : ℕ) → leb max_records_per_app n ≡ false → n < max_records_per_app
      below n e = ground arith

  -- What an accepted request was, and what it wrote.
  pub record Created (k : ℕ) (entity content : Json) (idempotency_key : String) (now : ℕ)
      (s : DataStore) (r : DataRecord) (s' : DataStore) : Type 0 where
    pub actor : AppActor
    pub name : String
    pub fs : Fields
    pub key : String
    pub hash : String
    pub named : entity_name entity ≡ ok name
    pub is_object : as_object content ≡ ok fs
    pub keyed : clean_text (text idempotency_key) 160 ≡ ok key
    pub hashed :
        idempotency_request_hash py "records.create"
          (field "entity" (text name) (field "data" (object fs) end))
        ≡ ok hash
    pub new_key : event_by_key k key s ≡ none
    pub inserted : Inserted k actor name hash key now s r s'

  pub create_data_record-Created :
      (k : ℕ) (claimed_actor : AppActor) (entity content : Json) (idempotency_key : String)
      (now : ℕ) (s : DataStore) (r : DataRecord) (s' : DataStore)
      → create_data_record py k claimed_actor entity content idempotency_key now s ≡ ok (row r, s')
      → Created k entity content idempotency_key now s r s'
  unfolding create_data_record
  create_data_record-Created k claimed_actor entity content idempotency_key now s r s' h =
      let (actor, _, h1) = bind-ok (reauthorize_actor k claimed_actor now s.tables) _ h in
      let (_, _, h2) = bind-ok (require_write actor) _ h1 in
      let (name, e3, h3) = bind-ok (entity_name entity) _ h2 in
      let (fs, e4, h4) = bind-ok (as_object content) _ h3 in
      let (key, e5, h5) = bind-ok (clean_text (text idempotency_key) 160) _ h4 in
      let (hash, e6, h6) =
        bind-ok
          (idempotency_request_hash py "records.create"
            (field "entity" (text name) (field "data" (object fs) end)))
          _ h5 in
      let (fresh, h7) = replay_or-row "records.create" hash s (event_by_key k key s) _ r s' h6 in
      let (_, _, h8) = bind-ok (enforce_mutation_rate_limit k actor now s) _ h7 in
      let (_, h9) = replay_or-row "records.create" hash s (event_by_key k key s) _ r s' h8 in
      record {
        actor = actor;
        name = name;
        fs = fs;
        key = key;
        hash = hash;
        named = e3;
        is_object = e4;
        keyed = e5;
        hashed = e6;
        new_key = fresh;
        inserted = insert_record-Inserted k actor name fs key hash now s r s' h9;
      }
