-- ===== src/Apps/Data/Writing/Bounded.antt =====
-- The limits on the records of an app in services/generated_apps_v2.py: no call takes an app over its
-- number of records or its bytes.
use dot_backend.Prelude.{
  ℕ, suc, ◌+◌, ◌-◌, ◌≤◌, ◌<◌, ◌≡◌, ◌≢◌, inl, inr, refl, sym, ap, subst, String, Bool, ◌&&◌, [], ◌∷◌,
  All, All-Has, All-append, All-weaken, All-update, All-delete, find?-Has, find?-holds, Keyed,
  Keyed-unique, Keyed-update, Keyed-snoc, update, arith, if◌then◌else◌, Keyed-delete,
}
use dot_backend.Prelude.Json.{ℤ, Json, object}
use dot_backend.Apps.Records.{ok}
use dot_backend.Apps.Access.{AppActor}
use dot_backend.Apps.Data.{
  DataRecord, DataStore, Python, max_records_per_app, max_data_bytes_per_app, of_app, used_bytes,
  record_count,
}
use dot_backend.Apps.Data.Writing.{
  row, is_record, at_version, edit, create_data_record, update_data_record,
}
use dot_backend.Apps.Data.Writing.Deleting.{Deleted, delete_data_record, delete_data_record-cases}
use dot_backend.Apps.Data.Writing.Creating.{create_data_record-Created, Created}
use dot_backend.Apps.Data.Writing.Changing.{update_data_record-Changed, Changed}
use dot_backend.Apps.Data.Writing.Limits.{
  storage-ok, add_count, add_bytes, update-count, update-bytes, delete-count, delete-bytes,
}

-- Record keys are distinct and were given out before, and each app is within its limits.
pub record IsDataStore (s : DataStore) : Type 0 where
  pub keyed : Keyed (λ (r : DataRecord). r.id) s.records
  pub below : All (λ (r : DataRecord). r.id < s.next_row) s.records
  pub counts : (k : ℕ) → record_count k s.records ≤ max_records_per_app
  pub bytes : (k : ℕ) → used_bytes k s.records ≤ max_data_bytes_per_app

-- The calls that write a record.
pub data Writes (py : Python) (s s' : DataStore) : Type 0 where
  creates :
      (k : ℕ) (actor : AppActor) (entity content : Json) (key : String) (now : ℕ) (r : DataRecord)
      → create_data_record py k actor entity content key now s ≡ ok (row r, s')
      → Writes py s s'
  updates :
      (k id : ℕ) (actor : AppActor) (expected : ℤ) (content : Json) (key : String) (now : ℕ)
      (r : DataRecord)
      → update_data_record py k id actor expected content key now s ≡ ok (row r, s')
      → Writes py s s'
  deletes :
      (k id : ℕ) (actor : AppActor) (expected : ℤ) (key : String) (now : ℕ)
      → delete_data_record py k id actor expected key now s ≡ ok s'
      → Writes py s s'

module _ (py : Python) where
  create-IsDataStore :
      (k : ℕ) (entity content : Json) (key : String) (now : ℕ) (s : DataStore) (r : DataRecord)
      (s' : DataStore)
      → Created py k entity content key now s r s'
      → IsDataStore s
      → IsDataStore s'
  create-IsDataStore k entity content key now s r s' c inv =
      let i = c.inserted in
      let at_key : r.id ≡ s.next_row = ap (λ (x : DataRecord). x.id) i.written in
      let at_app : r.app_id ≡ k = ap (λ (x : DataRecord). x.app_id) i.written in
      let size : r.data_bytes ≡ py.encoding.json_bytes (object i.clean) =
        ap (λ (x : DataRecord). x.data_bytes) i.written in
      subst IsDataStore (sym i.result) (record {
        keyed =
            Keyed-snoc (λ (x : DataRecord). x.id) s.records r
              (All-weaken (λ (x : DataRecord). x.id < s.next_row) (λ (x : DataRecord). x.id ≢ r.id)
                s.records (λ x h e. omega arith) inv.below)
              inv.keyed;
        below =
            All-append (λ (x : DataRecord). x.id < suc (suc s.next_row)) s.records (r ∷ [])
              (All-weaken (λ (x : DataRecord). x.id < s.next_row)
                (λ (x : DataRecord). x.id < suc (suc s.next_row)) s.records (λ x h. omega arith)
                inv.below)
              ((omega arith, tt));
        counts = λ j.
            subst (λ n. n ≤ max_records_per_app) (sym (add_count j r s.records))
              (one_more j (record_count j s.records) r k at_app (inv.counts j)
                (λ e. subst (λ x. record_count x s.records < max_records_per_app) (sym e) i.few));
        bytes = λ j.
            subst (λ n. n ≤ max_data_bytes_per_app) (sym (add_bytes j r s.records))
              (more_bytes j (used_bytes j s.records) r k (py.encoding.json_bytes (object i.clean))
                at_app size (inv.bytes j)
                (λ e.
                  subst
                    (λ x.
                      used_bytes x s.records + py.encoding.json_bytes (object i.clean)
                      ≤ max_data_bytes_per_app)
                    (sym e)
                    (storage-ok k (py.encoding.json_bytes (object i.clean)) s i.small
                      (inv.bytes k))));
      })
    where
      one_more :
          (j n : ℕ) (x : DataRecord) (k : ℕ)
          → x.app_id ≡ k
          → n ≤ max_records_per_app
          → (j ≡ k → n < max_records_per_app)
          → n + (if of_app j x then 1 else 0) ≤ max_records_per_app
      one_more j n x k e within few = ground arith

      more_bytes :
          (j n : ℕ) (x : DataRecord) (k b : ℕ)
          → x.app_id ≡ k
          → x.data_bytes ≡ b
          → n ≤ max_data_bytes_per_app
          → (j ≡ k → n + b ≤ max_data_bytes_per_app)
          → n + (if of_app j x then x.data_bytes else 0) ≤ max_data_bytes_per_app
      more_bytes j n x k b e size within fits = ground arith

  update-IsDataStore :
      (k id : ℕ) (expected : ℤ) (now : ℕ) (s : DataStore) (r : DataRecord) (s' : DataStore)
      → Changed py k id expected now s r s'
      → IsDataStore s
      → IsDataStore s'
  update-IsDataStore k id expected now s r s' c inv =
      let p : DataRecord → Bool = λ x. is_record k id x && at_version expected x in
      let f = edit py c.actor c.clean now in
      let hit = find?-holds p s.records c.old c.is_old in
      let now_hit = find?-holds (is_record k id) s.records c.current c.is_current in
      let same =
        All-Has (λ (x : DataRecord). x.id ≡ c.old.id → x ≡ c.old)
          (find?-Has (is_record k id) s.records c.current c.is_current)
          (Keyed-unique (λ (x : DataRecord). x.id) s.records c.old inv.keyed
            (find?-Has p s.records c.old c.is_old))
          (ground arith) in
      let fits =
        storage-ok k (py.encoding.json_bytes (object c.clean) - c.current.data_bytes) s c.small
          (inv.bytes k) in
      record {
        keyed =
            subst (Keyed (λ (x : DataRecord). x.id)) (sym c.records)
              (Keyed-update (λ (x : DataRecord). x.id) p f s.records (λ x. refl) inv.keyed);
        below =
            subst (λ (n : ℕ). All (λ (x : DataRecord). x.id < n) s'.records) (sym c.next_row)
              (subst (All (λ (x : DataRecord). x.id < suc s.next_row)) (sym c.records) (
                All-update (λ (x : DataRecord). x.id < suc s.next_row) p f s.records (λ x _ h. h)
                  (All-weaken (λ (x : DataRecord). x.id < s.next_row)
                    (λ (x : DataRecord). x.id < suc s.next_row) s.records (λ x h. omega arith)
                    inv.below)));
        counts = λ j.
            subst (λ rs. record_count j rs ≤ max_records_per_app) (sym c.records)
              (subst (λ n. n ≤ max_records_per_app) (sym (update-count f (λ x. refl) j p s.records))
                (inv.counts j));
        bytes = λ j.
            subst (λ rs. used_bytes j rs ≤ max_data_bytes_per_app) (sym c.records)
              (changed_bytes j (used_bytes j (update p f s.records)) (used_bytes j s.records) c.old
                (py.encoding.json_bytes (object c.clean)) k (ground arith)
                (update-bytes f (λ x. refl) j p s.records c.old inv.keyed
                  (find?-Has p s.records c.old c.is_old) hit (λ x e. ground arith))
                (inv.bytes j)
                (λ e.
                  subst
                    (λ z.
                      used_bytes z s.records
                        + (py.encoding.json_bytes (object c.clean) - c.old.data_bytes)
                      ≤ max_data_bytes_per_app)
                    (sym e)
                    (subst
                      (λ (z : DataRecord).
                        used_bytes k s.records
                          + (py.encoding.json_bytes (object c.clean) - z.data_bytes)
                        ≤ max_data_bytes_per_app)
                      same fits)));
      }
    where
      changed_bytes :
          (j after before : ℕ) (old : DataRecord) (b k : ℕ)
          → old.app_id ≡ k
          → after + (if of_app j old then old.data_bytes else 0)
            ≡ before + (if of_app j old then b else 0)
          → before ≤ max_data_bytes_per_app
          → (j ≡ k → before + (b - old.data_bytes) ≤ max_data_bytes_per_app)
          → after ≤ max_data_bytes_per_app
      changed_bytes j after before old b k e total within fits = ground arith

  delete-IsDataStore : (s s' : DataStore) → Deleted s s' → IsDataStore s → IsDataStore s'
  delete-IsDataStore s s' d inv = record {
    keyed =
        subst (Keyed (λ (x : DataRecord). x.id)) (sym d.records)
          (Keyed-delete (λ (x : DataRecord). x.id) d.p s.records inv.keyed);
    below =
        subst (λ (n : ℕ). All (λ (x : DataRecord). x.id < n) s'.records) (sym d.next_row)
          (subst (All (λ (x : DataRecord). x.id < suc s.next_row)) (sym d.records) (
            All-delete (λ (x : DataRecord). x.id < s.next_row)
              (λ (x : DataRecord). x.id < suc s.next_row) d.p s.records (λ x _ h. omega arith)
              inv.below));
    counts = λ j.
        subst (λ rs. record_count j rs ≤ max_records_per_app) (sym d.records)
          (let a = delete-count j d.p s.records in let b = inv.counts j in omega arith);
    bytes = λ j.
        subst (λ rs. used_bytes j rs ≤ max_data_bytes_per_app) (sym d.records)
          (let a = delete-bytes j d.p s.records in let b = inv.bytes j in omega arith);
  }

  -- Where record keys are distinct and were given out before, and every app is within its limits, a
  -- call that creates, updates or deletes a record keeps all of that: no app gets more than 10,000
  -- records or more than 10,000,000 bytes of them.
  pub Writes-IsDataStore : (s s' : DataStore) → Writes py s s' → IsDataStore s → IsDataStore s'
  Writes-IsDataStore s s' (creates k actor entity content key now r h) inv =
      create-IsDataStore k entity content key now s r s'
        (create_data_record-Created py k actor entity content key now s r s' h) inv
  Writes-IsDataStore s s' (updates k id actor expected content key now r h) inv =
      update-IsDataStore k id expected now s r s'
        (update_data_record-Changed py k id actor expected content key now s r s' h) inv
  Writes-IsDataStore s s' (deletes k id actor expected key now h) inv =
      elim (delete_data_record-cases py k id actor expected key now s s' h) [
        | inl e ↦ subst IsDataStore (sym e) inv
        | inr d ↦ delete-IsDataStore s s' d inv
      ]
