-- ===== src/Prelude/Keys.antt =====
-- Rows of a table, and tables whose rows have distinct keys.
use Prim.Native.Nat.{ℕ}
use mathlib.Core.Path.{◌≡◌, refl, sym, ap, subst, ◌∙◌}
use mathlib.Core.Logic.{◌≢◌, inl, inr}
use mathlib.Core.Bool.{Bool, true, false}
use mathlib.Core.Option.{some}
use mathlib.Core.List.{List, [], ◌∷◌, ◌++◌}
use native.Mathlib.Omega.{arith}
use dot_backend.Prelude.Tests.{◌==◌, ==_refl, Bool-cases, Option-cases, if◌then◌else◌}
use dot_backend.Prelude.Lists.{All, any, All-append, All-weaken}
use dot_backend.Prelude.Tables.{
  find?, find?-none, find?-holds, select, update, delete, All-update, All-delete, if-elim,
}
use dot_backend.Prelude.Order.{first_by}

module _ {ℓ} {A : Type ℓ} where
  -- `r` is one of the rows.
  pub data Has (r : A) : List A → Type ℓ where
    here : {x : A} {xs : List A} → x ≡ r → Has r (x ∷ xs)
    there : {x : A} {xs : List A} → Has r xs → Has r (x ∷ xs)

  pub All-Has {κ} : (P : A → Type κ) {r : A} {xs : List A} → Has r xs → All P xs → P r
  All-Has P (here e) h = subst P e h.0
  All-Has P (there m) h = All-Has P m h.1

  pub any-Has : (p : A → Bool) {r : A} {xs : List A} → Has r xs → p r ≡ true → any p xs ≡ true
  any-Has p (here same) e = rw (ap p same ∙ e) refl
  any-Has p (there {x = x} m) e = let rest = any-Has p m e in ground (arith, rest)

  pub any-none : (p : A → Bool) (xs : List A) → All (λ x. p x ≡ false) xs → any p xs ≡ false
  any-none p [] h = refl
  any-none p (x ∷ xs) h = let rest = any-none p xs h.1 in ground (arith, rest)

  pub Has-append_right : {r : A} (xs ys : List A) → Has r ys → Has r (xs ++ ys)
  Has-append_right [] ys m = m
  Has-append_right (x ∷ xs) ys m = there (Has-append_right xs ys m)

  -- A property of each row, from one that is proved of the rows one by one.
  pub All-of_Has {κ} : (P : A → Type κ) (xs : List A) → ((r : A) → Has r xs → P r) → All P xs
  All-of_Has P [] h = tt
  All-of_Has P (x ∷ xs) h = (h x (here refl), All-of_Has P xs (λ r m. h r (there m)))

  pub Has-select :
      (p : A → Bool) (r : A) (xs : List A) → Has r xs → p r ≡ true → Has r (select p xs)
  Has-select p r [] m e = elim m [ ]
  Has-select p r (x ∷ xs) (here same) e = rw (ap p same ∙ e) (here same)
  Has-select p r (x ∷ xs) (there m) e = elim (Bool-cases (p x)) [
    | inl kept ↦ rw kept (there (Has-select p r xs m e))
    | inr dropped ↦ rw dropped (Has-select p r xs m e)
  ]

  pub Has-update :
      (p : A → Bool) (f : A → A) {r : A} {xs : List A}
      → Has r xs
      → Has (if p r then f r else r) (update p f xs)
  Has-update p f (here e) = here (rw e refl)
  Has-update p f (there m) = there (Has-update p f m)

  -- A row that the test of an update fails is left as it is.
  pub Has-update_other :
      (p : A → Bool) (f : A → A) {r : A} {xs : List A}
      → p r ≡ false
      → Has r xs
      → Has r (update p f xs)
  Has-update_other p f {r} {xs} e m =
      subst (λ b. Has (if b then f r else r) (update p f xs)) e (Has-update p f m)

  pub Has-update_own :
      (p : A → Bool) (f : A → A) {r : A} {xs : List A}
      → p r ≡ true
      → Has r xs
      → Has (f r) (update p f xs)
  Has-update_own p f {r} {xs} e m =
      subst (λ b. Has (if b then f r else r) (update p f xs)) e (Has-update p f m)

  pub find?-Has : (p : A → Bool) (xs : List A) (r : A) → find? p xs ≡ some r → Has r xs
  find?-Has p [] r h = absurd (cc)
  find?-Has p (x ∷ xs) r h = elim (Bool-cases (p x)) [
    | inl e ↦ here (ground arith)
    | inr e ↦ there (find?-Has p xs r (ground arith))
  ]

  pub first_by-Has :
      (before : A → A → Bool) (p : A → Bool) (xs : List A) (r : A)
      → first_by before p xs ≡ some r
      → Has r xs
  unfolding first_by
  first_by-Has before p [] r h = absurd (cc)
  first_by-Has before p (x ∷ xs) r h = elim (Option-cases (first_by before p xs)) [
    | inl e ↦ here (ground arith)
    | inr (y, e) ↦ elim (Bool-cases (before y x)) [
      | inl earlier ↦ there (first_by-Has before p xs r (ground arith))
      | inr later ↦ elim (Bool-cases (p x)) [
        | inl passes ↦ here (ground arith)
        | inr fails ↦ there (first_by-Has before p xs r (ground arith))
      ]
    ]
  ]

module _ {ℓ κ} {A : Type ℓ} {K : Type κ} (key : A → K) where
  -- No two rows have the same key.
  abbrev pub Keyed : List A → Type κ
  Keyed [] = Unit
  Keyed (x ∷ xs) = All (λ y. key y ≢ key x) xs × Keyed xs

  pub Keyed-unique :
      (xs : List A) (r : A) → Keyed xs → Has r xs → All (λ x. key x ≡ key r → x ≡ r) xs
  Keyed-unique [] r k m = tt
  Keyed-unique (x ∷ xs) r k (here e) = (
    λ _. e,
    All-weaken (λ y. key y ≢ key x) _ xs (λ y ne same. absurd (ne (same ∙ ap key (sym e)))) k.0,
  )
  Keyed-unique (x ∷ xs) r k (there m) =
      (λ same. absurd (All-Has (λ y. key y ≢ key x) m k.0 (sym same)), Keyed-unique xs r k.1 m)

  if-key : (b : Bool) (f : A → A) (x : A) → key (f x) ≡ key x → key (if b then f x else x) ≡ key x
  if-key true f x e = e
  if-key false f x e = refl

  -- An update that leaves the keys alone keeps them distinct.
  pub Keyed-update :
      (p : A → Bool) (f : A → A) (xs : List A)
      → ((x : A) → key (f x) ≡ key x)
      → Keyed xs
      → Keyed (update p f xs)
  Keyed-update p f [] same k = tt
  Keyed-update p f (x ∷ xs) same k = (
    rw (if-key (p x) f x (same x))
        (All-update (λ y. key y ≢ key x) p f xs (λ y _ ne e. ne (sym (same y) ∙ e)) k.0),
    Keyed-update p f xs same k.1,
  )

  pub Keyed-delete : (p : A → Bool) (xs : List A) → Keyed xs → Keyed (delete p xs)
  Keyed-delete p [] k = tt
  Keyed-delete p (x ∷ xs) k = elim (Bool-cases (p x)) [
    | inl e ↦ rw e (Keyed-delete p xs k.1)
    | inr e ↦ rw e (
      All-delete (λ y. key y ≢ key x) (λ y. key y ≢ key x) p xs (λ y _ h. h) k.0,
      Keyed-delete p xs k.1,
    )
  ]

  -- A row with a new key.
  pub Keyed-snoc :
      (xs : List A) (r : A) → All (λ x. key x ≢ key r) xs → Keyed xs → Keyed (xs ++ r ∷ [])
  Keyed-snoc [] r h k = (tt, tt)
  Keyed-snoc (x ∷ xs) r h k = (
    All-append (λ y. key y ≢ key x) xs (r ∷ []) k.0 ((λ e. h.0 (sym e), tt)),
    Keyed-snoc xs r h.1 k.1,
  )

module _ {ℓ} {A : Type ℓ} (key : A → ℕ) where
  update_unique {κ} :
      (P : A → Type κ) (f : A → A) (xs : List A) (r : A)
      → P (f r)
      → All (λ x. key x ≡ key r → x ≡ r) xs
      → All P xs
      → All P (update (λ x. key x == key r) f xs)
  update_unique P f [] r hr u h = tt
  update_unique P f (x ∷ xs) r hr u h = (
    if-elim P (key x == key r) (f x) x (λ e. subst (λ y. P (f y)) (sym (u.0 (ground arith))) hr)
        (λ _. h.0),
    update_unique P f xs r hr u.1 h.1,
  )

  -- An update by key changes the row that was found, and no other.
  pub All-update_key {κ} :
      (P : A → Type κ) (f : A → A) (xs : List A) (r : A)
      → Keyed key xs
      → Has r xs
      → P (f r)
      → All P xs
      → All P (update (λ x. key x == key r) f xs)
  All-update_key P f xs r k m hr h = update_unique P f xs r hr (Keyed-unique key xs r k m) h

  -- After an update by key: the row that was found is changed, the rows with other keys are there.
  pub All-update_found {κ} :
      (P : A → Type κ) (f : A → A) (xs : List A) (r : A)
      → Keyed key xs
      → Has r xs
      → P (f r)
      → ((x : A) → key x ≢ key r → P x)
      → All P (update (λ x. key x == key r) f xs)
  All-update_found P f xs r k m hr others = branch xs (Keyed-unique key xs r k m)
    where
      branch :
          (ys : List A)
          → All (λ x. key x ≡ key r → x ≡ r) ys
          → All P (update (λ x. key x == key r) f ys)
      branch [] u = tt
      branch (y ∷ ys) u = (
        if-elim P (key y == key r) (f y) y (λ e. subst (λ z. P (f z)) (sym (u.0 (ground arith))) hr)
            (λ e. others y (ground arith)),
        branch ys u.1,
      )

  -- A query that the row passes, and that fixes the key, finds that row.
  pub find?-unique :
      (p : A → Bool) (xs : List A) (r : A)
      → Keyed key xs
      → Has r xs
      → p r ≡ true
      → ((x : A) → p x ≡ true → key x ≡ key r)
      → find? p xs ≡ some r
  find?-unique p xs r k m passes fixes = elim (Option-cases (find? p xs)) [
    | inl e ↦ absurd (let fails = All-Has _ m (find?-none p xs e) in cc)
    | inr (x, e) ↦
        e
        ∙ ap some (
            All-Has (λ y. key y ≡ key r → y ≡ r) (find?-Has p xs x e) (Keyed-unique key xs r k m)
              (fixes x (find?-holds p xs x e)))
  ]

  -- A query by the key of a row finds that row.
  pub find?-key :
      (xs : List A) (r : A) → Keyed key xs → Has r xs → find? (λ x. key x == key r) xs ≡ some r
  find?-key xs r k m =
      find?-unique (λ x. key x == key r) xs r k m (==_refl (key r)) (λ x e. ground arith)
