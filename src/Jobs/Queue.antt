-- ===== src/Jobs/Queue.antt =====
-- What the three queues have in common: a row is eligible at a time, a claim takes the first
-- eligible row by its due time, marks it as processing and counts the attempt.
pub mod Claims
use dot_backend.Prelude.{
  ℕ, suc, ◌+◌, ◌≤◌, ◌≡◌, Bool, true, false, not, ◌&&◌, Option, none, some, List, ltb, ◌==◌,
  first_by, precedes, update,
}

-- The columns that a claim reads and writes.
pub record Queue (R : Type 0) : Type 0 where
  pub id : R → ℕ
  pub due : R → ℕ
  pub created_at : R → ℕ
  pub attempts : R → ℕ
  pub eligible : ℕ → R → Bool
  pub mark : ℕ → R → R

-- What a queue promises: a claim keeps the key and counts one attempt, and the row that it marks
-- is not eligible again before the lease has run out.
pub record IsLeased {R : Type 0} (q : Queue R) (lease : ℕ) : Type 0 where
  pub id-mark : (now : ℕ) (r : R) → q.id (q.mark now r) ≡ q.id r
  pub attempts-mark : (now : ℕ) (r : R) → q.attempts (q.mark now r) ≡ suc (q.attempts r)
  pub held : (now t : ℕ) (r : R) → q.eligible t (q.mark now r) ≡ true → now + lease ≤ t

-- `WHERE id = ...`, where an id is given
abbrev pub wanted : Option ℕ → ℕ → Bool
wanted none _ = true
wanted (some k) id = id == k

module _ {R : Type 0} (q : Queue R) where
  -- The `WHERE` clause; `busy` are the rows that another transaction has locked, which
  -- `skip_locked` passes over.
  abbrev pub claimable : (ℕ → Bool) → ℕ → Option ℕ → ℕ → R → Bool
  claimable busy max_attempts only now r =
      q.eligible now r
      && ltb (q.attempts r) max_attempts
      && not (busy (q.id r))
      && wanted only (q.id r)

  abbrev taken : ℕ → List R → Option R → Option R × List R
  taken now rows none = (none, rows)
  taken now rows (some r) = (some (q.mark now r), update (λ x. q.id x == q.id r) (q.mark now) rows)

  unfoldable pub claim : (ℕ → Bool) → ℕ → Option ℕ → ℕ → List R → Option R × List R
  claim busy max_attempts only now rows =
      taken now rows
        (first_by (precedes q.due q.created_at) (claimable busy max_attempts only now) rows)
