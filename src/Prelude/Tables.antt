-- ===== src/Prelude/Tables.antt =====
-- A table as the list of its rows, with the queries and updates that the services issue.
use mathlib.Core.Path.{◌≡◌, refl, subst}
use mathlib.Core.Bool.{Bool, true, false}
use mathlib.Core.Option.{Option, none, some}
use mathlib.Core.List.{List, [], ◌∷◌, ◌++◌}
use native.Mathlib.Omega.{arith}
use dot_backend.Prelude.Tests.{if◌then◌else◌}
use dot_backend.Prelude.Lists.{All}

module _ {ℓ} {A : Type ℓ} where
  -- The first row that passes the test.
  abbrev pub find? : (A → Bool) → List A → Option A
  find? p [] = none
  find? p (x ∷ xs) = if p x then some x else find? p xs

  -- `UPDATE ... WHERE`
  abbrev pub update : (A → Bool) → (A → A) → List A → List A
  update p f [] = []
  update p f (x ∷ xs) = (if p x then f x else x) ∷ update p f xs

  -- `SELECT ... WHERE`, in the order of the table
  abbrev pub select : (A → Bool) → List A → List A
  select p [] = []
  select p (x ∷ xs) = let rest = select p xs in if p x then x ∷ rest else rest

  -- `DELETE ... WHERE`
  abbrev pub delete : (A → Bool) → List A → List A
  delete p [] = []
  delete p (x ∷ xs) = let rest = delete p xs in if p x then rest else x ∷ rest

module _ {ℓ} {A : Type ℓ} where
  pub find?-holds : (p : A → Bool) (xs : List A) (x : A) → find? p xs ≡ some x → p x ≡ true
  find?-holds p [] x h = cc
  find?-holds p (y ∷ xs) x h = ground (arith, find?-holds p xs x)

  pub find?-none : (p : A → Bool) (xs : List A) → find? p xs ≡ none → All (λ x. p x ≡ false) xs
  find?-none p [] h = tt
  find?-none p (x ∷ xs) h = ground (arith, find?-none p xs)

  pub find?-absent : (p : A → Bool) (xs : List A) → All (λ x. p x ≡ false) xs → find? p xs ≡ none
  find?-absent p [] h = refl
  find?-absent p (x ∷ xs) h = let rest = find?-absent p xs h.1 in ground arith

  pub find?-append :
      (p : A → Bool) (xs ys : List A) → find? p xs ≡ none → find? p (xs ++ ys) ≡ find? p ys
  find?-append p [] ys h = refl
  find?-append p (x ∷ xs) ys h = ground (arith, find?-append p xs ys)

  pub find?-append_some :
      (p : A → Bool) (xs ys : List A) (x : A) → find? p xs ≡ some x → find? p (xs ++ ys) ≡ some x
  find?-append_some p [] ys x h = cc
  find?-append_some p (y ∷ xs) ys x h = ground (arith, find?-append_some p xs ys x)

  pub update-none :
      (p : A → Bool) (f : A → A) (xs : List A) → All (λ x. p x ≡ false) xs → update p f xs ≡ xs
  update-none p f [] h = refl
  update-none p f (x ∷ xs) h = let rest = update-none p f xs h.1 in rw (h.0, rest) refl

  -- A row that an update leaves in the sight of another query.
  pub find?-update :
      (p q : A → Bool) (f : A → A) (xs : List A)
      → ((x : A) → q (f x) ≡ q x)
      → find? q (update p f xs)
        ≡ elim (find? q xs) [ none ↦ none | some x ↦ some (if p x then f x else x) ]
  find?-update p q f [] keep = refl
  find?-update p q f (x ∷ xs) keep = ground (arith, keep x, find?-update p q f xs keep)

  -- The row that an update changes is found again by the query that it was found with.
  pub find?-update_found :
      (p : A → Bool) (f : A → A) (xs : List A) (x : A)
      → ((y : A) → p (f y) ≡ p y)
      → find? p xs ≡ some x
      → find? p (update p f xs) ≡ some (f x)
  find?-update_found p f xs x keep h = rw (find?-update p p f xs keep, h, find?-holds p xs x h) refl

module _ {ℓ κ} {A : Type ℓ} (P : A → Type κ) where
  pub if-elim : (b : Bool) (x y : A) → (b ≡ true → P x) → (b ≡ false → P y) → P (if b then x else y)
  if-elim true x y hx hy = hx refl
  if-elim false x y hx hy = hy refl

  pub All-update :
      (p : A → Bool) (f : A → A) (xs : List A)
      → ((x : A) → p x ≡ true → P x → P (f x))
      → All P xs
      → All P (update p f xs)
  All-update p f [] step h = tt
  All-update p f (x ∷ xs) step h =
      (if-elim (p x) (f x) x (λ e. step x e h.0) (λ _. h.0), All-update p f xs step h.1)

  pub All-find? : (q : A → Bool) (xs : List A) (x : A) → All P xs → find? q xs ≡ some x → P x
  All-find? q [] x h e = absurd (cc)
  All-find? q (y ∷ xs) x h e = branch (q y) h.0 (All-find? q xs x h.1) e
    where
      branch :
          (b : Bool)
          → P y
          → (find? q xs ≡ some x → P x)
          → (if b then some y else find? q xs) ≡ some x
          → P x
      branch true hy rest same = subst P (cc) hy
      branch false hy rest same = rest same

  -- A property that the update establishes on every row.
  pub All-update_any :
      (p : A → Bool) (f : A → A) (xs : List A)
      → ((x : A) → P (if p x then f x else x))
      → All P (update p f xs)
  All-update_any p f [] step = tt
  All-update_any p f (x ∷ xs) step = (step x, All-update_any p f xs step)

module _ {ℓ κ ι} {A : Type ℓ} (P : A → Type κ) (Q : A → Type ι) where
  -- From a property before an update to another one after it.
  pub All-update_to :
      (p : A → Bool) (f : A → A) (xs : List A)
      → ((x : A) → p x ≡ true → P x → Q (f x))
      → ((x : A) → p x ≡ false → P x → Q x)
      → All P xs
      → All Q (update p f xs)
  All-update_to p f [] changed kept h = tt
  All-update_to p f (x ∷ xs) changed kept h = (
    if-elim Q (p x) (f x) x (λ e. changed x e h.0) (λ e. kept x e h.0),
    All-update_to p f xs changed kept h.1,
  )

  -- From a property of the rows to another one of those that a deletion leaves.
  pub All-delete :
      (p : A → Bool) (xs : List A)
      → ((x : A) → p x ≡ false → P x → Q x)
      → All P xs
      → All Q (delete p xs)
  All-delete p [] kept h = tt
  All-delete p (x ∷ xs) kept h = if-All (p x) (λ e. kept x e h.0) (All-delete p xs kept h.1)
    where
      if-All :
          (b : Bool)
          → (b ≡ false → Q x)
          → All Q (delete p xs)
          → All Q (if b then delete p xs else x ∷ delete p xs)
      if-All true hx rest = rest
      if-All false hx rest = (hx refl, rest)
