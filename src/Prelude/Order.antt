-- ===== src/Prelude/Order.antt =====
-- `ORDER BY ... LIMIT 1`: the row that no other row precedes.
use mathlib.Core.Path.{◌≡◌, refl}
use mathlib.Core.Bool.{Bool, true, false, ◌&&◌, ◌||◌}
use mathlib.Core.Option.{Option, none, some}
use mathlib.Core.Logic.{inl, inr}
use mathlib.Core.List.{List, [], ◌∷◌}
use Prim.Native.Nat.{ℕ}
use native.Mathlib.Omega.{arith}
use dot_backend.Prelude.Tests.{ltb, ◌==◌, Option-cases, if◌then◌else◌}
use dot_backend.Prelude.Lists.{All, All-weaken, any}

module _ {ℓ} {A : Type ℓ} where
  abbrev better : (A → A → Bool) → A → Option A → Option A
  better before x none = some x
  better before x (some y) = if before y x then some y else some x

  -- The first row by `before` among those that pass the test; of two that tie, the earlier row.
  unfoldable pub first_by : (A → A → Bool) → (A → Bool) → List A → Option A
  first_by before p [] = none
  first_by before p (x ∷ xs) =
      let rest = first_by before p xs in if p x then better before x rest else rest

  -- What is chosen passes the test.
  pub first_by-holds :
      (before : A → A → Bool) (p : A → Bool) (xs : List A) (r : A)
      → first_by before p xs ≡ some r
      → p r ≡ true
  unfolding first_by
  first_by-holds before p [] r h = cc
  first_by-holds before p (x ∷ xs) r h = ground (arith, first_by-holds before p xs r)

  -- Nothing is chosen only when no row passes.
  pub first_by-none :
      (before : A → A → Bool) (p : A → Bool) (xs : List A)
      → first_by before p xs ≡ none
      → All (λ x. p x ≡ false) xs
  unfolding first_by
  first_by-none before p [] h = tt
  first_by-none before p (x ∷ xs) h = ground (arith, first_by-none before p xs)

module _ {ℓ} {A : Type ℓ} (before : A → A → Bool) where
  -- The row goes before the first one that it precedes.
  abbrev insert_by : A → List A → List A
  insert_by x [] = x ∷ []
  insert_by x (y ∷ ys) = if before x y then x ∷ y ∷ ys else y ∷ insert_by x ys

  -- `ORDER BY`: rows that tie keep the order of the table.
  abbrev pub sort_by : List A → List A
  sort_by [] = []
  sort_by (x ∷ xs) = insert_by x (sort_by xs)

  any-insert_by : (p : A → Bool) (x : A) (xs : List A) → any p (insert_by x xs) ≡ p x || any p xs
  any-insert_by p x [] = refl
  any-insert_by p x (y ∷ ys) = let rest = any-insert_by p x ys in ground arith

  -- Sorting keeps what the rows satisfy.
  pub any-sort_by : (p : A → Bool) (xs : List A) → any p (sort_by xs) ≡ any p xs
  any-sort_by p [] = refl
  any-sort_by p (x ∷ xs) =
      let rest = any-sort_by p xs in ground (arith, any-insert_by p x (sort_by xs))

module _ {ℓ} {A : Type ℓ} (before : A → A → Bool)
    (asym : (x y : A) → before x y ≡ true → before y x ≡ false)
    (trans : (x y z : A) → before x y ≡ false → before y z ≡ false → before x z ≡ false) where
  -- No row that passes comes strictly before the chosen one.
  pub first_by-minimal :
      (p : A → Bool) (xs : List A) (r : A)
      → first_by before p xs ≡ some r
      → All (λ x. p x ≡ true → before x r ≡ false) xs
  unfolding first_by
  first_by-minimal p [] r h = tt
  first_by-minimal p (x ∷ xs) r h = elim (Option-cases (first_by before p xs)) [
    | inl none_left ↦ (
      (λ t. let a = asym x x in ground arith),
      All-weaken (λ z. p z ≡ false) _ xs (λ z e t. cc) (first_by-none before p xs none_left),
    )
    | inr (y, e) ↦ (
      (λ t. let a = asym x x in let b = asym y x in ground arith),
      All-weaken (λ z. p z ≡ true → before z y ≡ false) _ xs
          (λ z k t. let c = trans z y r (k t) in let b = k t in ground arith)
          (first_by-minimal p xs y e),
    )
  ]

-- `ORDER BY due, created_at`
module _ {ℓ} {A : Type ℓ} (due created_at : A → ℕ) where
  abbrev pub precedes : A → A → Bool
  precedes a b = ltb (due a) (due b) || (due a == due b && ltb (created_at a) (created_at b))

  precedes_trans : (x y z : A) → precedes x y ≡ false → precedes y z ≡ false → precedes x z ≡ false
  precedes_trans x y z h k = ground arith

  -- No row that passes comes strictly before the chosen one.
  pub first_by-least :
      (p : A → Bool) (xs : List A) (r : A)
      → first_by precedes p xs ≡ some r
      → All (λ x. p x ≡ true → precedes x r ≡ false) xs
  first_by-least = first_by-minimal precedes (λ x y h. ground arith) precedes_trans
