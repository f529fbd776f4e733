-- ===== src/Apps/Data/Writing/Limits.antt =====
-- How the number of records and of bytes of an app in services/generated_apps_v2.py follow the rows.
use dot_backend.Prelude.{
  ℕ, ◌+◌, ◌≤◌, ◌≡◌, ◌≢◌, inl, inr, refl, sym, ap, ◌∙◌, Bool, true, false, ◌&&◌, List, [], ◌∷◌, ◌++◌,
  ltb, All-Has, All-weaken, Has, here, there, Keyed, update, update-none, delete, arith, Bool-cases,
  if◌then◌else◌,
}
use dot_backend.Apps.Records.{ok, raise_if-ok, not_valid}
use dot_backend.Apps.Data.{
  DataRecord, DataStore, max_data_bytes_per_app, of_app, used_bytes, record_count,
  enforce_app_storage_limit,
}

record_count-append :
    (k : ℕ) (xs ys : List DataRecord)
    → record_count k (xs ++ ys) ≡ record_count k xs + record_count k ys
unfolding record_count
record_count-append k [] ys = omega arith
record_count-append k (x ∷ xs) ys = let h = record_count-append k xs ys in omega arith

used_bytes-append :
    (k : ℕ) (xs ys : List DataRecord) → used_bytes k (xs ++ ys) ≡ used_bytes k xs + used_bytes k ys
unfolding used_bytes
used_bytes-append k [] ys = omega arith
used_bytes-append k (x ∷ xs) ys = let h = used_bytes-append k xs ys in omega arith

pub storage-ok :
    (k n : ℕ) (s : DataStore)
    → enforce_app_storage_limit k n s ≡ ok tt
    → used_bytes k s.records ≤ max_data_bytes_per_app
    → used_bytes k s.records + n ≤ max_data_bytes_per_app
unfolding enforce_app_storage_limit
storage-ok k n s h within =
    let e = raise_if-ok _ not_valid h in small (used_bytes k s.records) e within
  where
    small :
        (used : ℕ)
        → ltb 0 n && ltb max_data_bytes_per_app (used + n) ≡ false
        → used ≤ max_data_bytes_per_app
        → used + n ≤ max_data_bytes_per_app
    small used e h = ground arith

-- A row of the app `k` adds to that app alone.
pub add_count :
    (j : ℕ) (r : DataRecord) (xs : List DataRecord)
    → record_count j (xs ++ r ∷ []) ≡ record_count j xs + (if of_app j r then 1 else 0)
unfolding record_count
add_count j r xs = let h = record_count-append j xs (r ∷ []) in omega arith

pub add_bytes :
    (j : ℕ) (r : DataRecord) (xs : List DataRecord)
    → used_bytes j (xs ++ r ∷ []) ≡ used_bytes j xs + (if of_app j r then r.data_bytes else 0)
unfolding used_bytes
add_bytes j r xs = let h = used_bytes-append j xs (r ∷ []) in omega arith

module _ (f : DataRecord → DataRecord) (same_app : (x : DataRecord) → (f x).app_id ≡ x.app_id) where
  pub update-count :
      (k : ℕ) (p : DataRecord → Bool) (xs : List DataRecord)
      → record_count k (update p f xs) ≡ record_count k xs
  unfolding record_count
  update-count k p [] = refl
  update-count k p (x ∷ xs) = let h = update-count k p xs in let e = same_app x in ground arith

  -- An update of one row changes the bytes of its app by the difference of that row.
  pub update-bytes :
      (k : ℕ) (p : DataRecord → Bool) (xs : List DataRecord) (old : DataRecord)
      → Keyed (λ (r : DataRecord). r.id) xs
      → Has old xs
      → p old ≡ true
      → ((x : DataRecord) → p x ≡ true → x.id ≡ old.id)
      → used_bytes k (update p f xs) + (if of_app k old then old.data_bytes else 0)
        ≡ used_bytes k xs + (if of_app k old then (f old).data_bytes else 0)
  unfolding used_bytes
  update-bytes k p [] old keyed m hit fixes = elim m [ ]
  update-bytes k p (x ∷ xs) old keyed (here e) hit fixes =
      let rest = update-none p f xs (
        All-weaken (λ (y : DataRecord). y.id ≢ x.id) (λ y. p y ≡ false) xs
          (λ y ne. elim (Bool-cases (p y)) [
            | inl q ↦ absurd (ne (fixes y q ∙ ap (λ (z : DataRecord). z.id) (sym e)))
            | inr q ↦ q
          ])
          keyed.0) in
      rw (e, hit, rest, same_app old) (omega arith)
  update-bytes k p (x ∷ xs) old keyed (there m) hit fixes =
      let rest = update-bytes k p xs old keyed.1 m hit fixes in
      let miss = All-Has (λ (y : DataRecord). y.id ≢ x.id) m keyed.0 in
      elim (Bool-cases (p x)) [
        | inl q ↦ absurd (miss (sym (fixes x q)))
        | inr q ↦ rw q (omega arith)
      ]

pub delete-count :
    (k : ℕ) (p : DataRecord → Bool) (xs : List DataRecord)
    → record_count k (delete p xs) ≤ record_count k xs
unfolding record_count
delete-count k p [] = omega arith
delete-count k p (x ∷ xs) = let h = delete-count k p xs in ground arith

pub delete-bytes :
    (k : ℕ) (p : DataRecord → Bool) (xs : List DataRecord)
    → used_bytes k (delete p xs) ≤ used_bytes k xs
unfolding used_bytes
delete-bytes k p [] = omega arith
delete-bytes k p (x ∷ xs) = let h = delete-bytes k p xs in ground arith
