-- ===== src/Apps/Data/Writing/Repeating.antt =====
-- Repeating a `create_data_record` of services/generated_apps_v2.py: the snapshot of the first call.
use dot_backend.Prelude.{
  ℕ, suc, ◌≡◌, refl, sym, ◌∙◌, subst, String, some, [], ◌∷◌, ==_refl, eq_refl, find?-append,
}
use dot_backend.Prelude.Json.{ℤ, pos, Json, Fields, text, int, object, lookup}
use dot_backend.Apps.Records.{ok}
use dot_backend.Apps.Access.{AppActor, reauthorize_actor, require_write}
use dot_backend.Apps.Data.{
  DataRecord, StoredDataRecord, DataStore, Python, has_event_key, event_by_key, replay_response,
  stored_record_from_event,
}
use dot_backend.Apps.Data.Writing.{row, snapshot, data_event, create_data_record}
use dot_backend.Apps.Data.Writing.Creating.{Created, create_data_record-Created}

-- What is relied on of the conversions: an id and a time are read back from their texts, and `str`,
-- `int` and `dict` leave a text, an integer and a dictionary as they are.
pub record ReadsBack (py : Python) : Type 0 where
  pub ids : (k : ℕ) → py.parse_id (py.print_id k) ≡ some k
  pub times : (t : ℕ) → py.parse_time (py.print_time t) ≡ some t
  pub texts : (s : String) → py.to_str (text s) ≡ s
  pub ints : (n : ℤ) → py.to_int (int n) ≡ some n
  pub dicts : (fs : Fields) → py.to_dict (object fs) ≡ some fs

module _ (py : Python) (reads : ReadsBack py) where
  abbrev pub snapshot_of : DataRecord → StoredDataRecord
  snapshot_of r = record {
    id = r.id;
    entity = r.entity;
    content = r.content;
    version = pos r.version;
    created_at = r.created_at;
    updated_at = r.updated_at;
  }

  pub stored_record-snapshot :
      (k : ℕ) (r : DataRecord) (actor : AppActor) (event_type operation hash key : String)
      (now fresh : ℕ)
      → stored_record_from_event py
          (data_event py k r actor event_type operation hash key now fresh)
          operation
          hash
        ≡ ok (snapshot_of r)
  unfolding stored_record_from_event replay_response lookup
  stored_record-snapshot k r actor event_type operation hash key now fresh =
      rw
        (
          eq_refl operation,
          eq_refl hash,
          reads.texts (py.print_id r.id),
          reads.ids r.id,
          reads.dicts r.content,
          reads.ints (pos r.version),
          reads.texts (py.print_time r.created_at),
          reads.times r.created_at,
          reads.texts (py.print_time r.updated_at),
          reads.times r.updated_at,
          reads.texts r.entity,
        )
        refl

  event_found :
      (k : ℕ) (entity content : Json) (idempotency_key : String) (now : ℕ) (s : DataStore)
      (r : DataRecord) (s' : DataStore) (c : Created py k entity content idempotency_key now s r s')
      → event_by_key k c.key s'
        ≡ some (
            data_event py k r c.actor "app.data.created" "records.create" c.hash c.key now
              (suc s.next_row))
  event_found k entity content idempotency_key now s r s' c =
      let e =
        data_event py k r c.actor "app.data.created" "records.create" c.hash c.key now
          (suc s.next_row) in
      subst (λ (z : DataStore). event_by_key k c.key z ≡ some e) (sym c.inserted.result)
        (find?-append (has_event_key k c.key) s.events (e ∷ []) c.new_key
          ∙ rw (==_refl k, eq_refl c.key) refl)

  -- Where the conversions read back what they print: a call that created a record, made again with
  -- the same key, entity and data by an actor who may still write, returns the snapshot of that
  -- record, however much later, and leaves the tables as they are.
  pub create_data_record-again :
      (k : ℕ) (first second actor : AppActor) (entity content : Json) (idempotency_key : String)
      (now later : ℕ) (s : DataStore) (r : DataRecord) (s' : DataStore)
      → create_data_record py k first entity content idempotency_key now s ≡ ok (row r, s')
      → reauthorize_actor k second later s'.tables ≡ ok actor
      → require_write actor ≡ ok tt
      → create_data_record py k second entity content idempotency_key later s'
        ≡ ok (snapshot (snapshot_of r), s')
  unfolding create_data_record
  create_data_record-again k first second actor entity content idempotency_key now later s r s' done
        allowed writer =
      let c =
        create_data_record-Created py k first entity content idempotency_key now s r s' done in
      let found = event_found k entity content idempotency_key now s r s' c in
      let same =
        stored_record-snapshot k r c.actor "app.data.created" "records.create" c.hash c.key now
          (suc s.next_row) in
      rw (allowed, writer, c.named, c.is_object, c.keyed, c.hashed, found, same) refl
