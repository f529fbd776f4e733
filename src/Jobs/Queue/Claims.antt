-- ===== src/Jobs/Queue/Claims.antt =====
-- What a claim takes, and that a row under a lease is not taken again.
use dot_backend.Prelude.{
  ℕ, ◌+◌, ◌≤◌, ◌<◌, ◌≡◌, ◌≢◌, inl, inr, Bool, false, ◌&&◌, ltb, Option, none, some, List, All,
  arith, ◌==◌, first_by, first_by-holds, first_by-least, true, Has, Has-update_other, precedes,
  update, All-update, Option-cases, Bool-cases, All-update_any, subst, All-Has, first_by-Has, Keyed,
  Keyed-update, All-update_key, ap, sym, ◌∙◌, find?, find?-key, find?-update_found,
}
use dot_backend.Jobs.Queue.{Queue, IsLeased, claim, claimable}

module _ {R : Type 0} (q : Queue R) where
  -- Until the time `until`, no row with the key `k` is eligible.
  abbrev pub Held : ℕ → ℕ → List R → Type 0
  Held k until = All (λ x. q.id x ≡ k → (t : ℕ) → t < until → q.eligible t x ≡ false)

  abbrev pub Bounded : ℕ → List R → Type 0
  Bounded limit = All (λ x. q.attempts x ≤ limit)

  abbrev pub choice : (ℕ → Bool) → ℕ → Option ℕ → ℕ → List R → Option R
  choice busy limit only now rows =
      first_by (precedes q.due q.created_at) (claimable q busy limit only now) rows

  -- A claim that finds a row marks the first one in the order of due times; else it changes nothing.
  pub claim_cases {ℓ} :
      (P : Option R × List R → Type ℓ) (busy : ℕ → Bool) (limit : ℕ) (only : Option ℕ) (now : ℕ)
      (rows : List R)
      → (choice busy limit only now rows ≡ none → P (none, rows))
      → ((r : R)
          → choice busy limit only now rows ≡ some r
          → P (some (q.mark now r), update (λ x. q.id x == q.id r) (q.mark now) rows))
      → P (claim q busy limit only now rows)
  unfolding claim
  claim_cases P busy limit only now rows idle found =
      elim (Option-cases (choice busy limit only now rows)) [
        | inl e ↦ rw (e, claim) (idle e)
        | inr (r, e) ↦ rw (e, claim) (found r e)
      ]

  -- What a claim hands out is the row that is due first among those that it may take, marked.
  pub claim-first :
      (busy : ℕ → Bool) (limit : ℕ) (only : Option ℕ) (now : ℕ) (rows : List R) (x : R)
      → (claim q busy limit only now rows).0 ≡ some x
      → (r : R) × Has r rows
        × (x ≡ q.mark now r)
        × (claimable q busy limit only now r ≡ true)
        × All
            (λ y.
              claimable q busy limit only now y ≡ true → precedes q.due q.created_at y r ≡ false)
            rows
  claim-first busy limit only now rows x =
      claim_cases
        (λ c.
          c.0 ≡ some x
          → (r : R) × Has r rows
            × (x ≡ q.mark now r)
            × (claimable q busy limit only now r ≡ true)
            × All
                (λ y.
                  claimable q busy limit only now y ≡ true
                  → precedes q.due q.created_at y r ≡ false)
                rows)
        busy limit only now rows (λ _ e. absurd (cc))
        λ r chosen e. (
          r,
          first_by-Has _ _ rows r chosen,
          cc,
          first_by-holds _ _ rows r chosen,
          first_by-least q.due q.created_at (claimable q busy limit only now) rows r chosen,
        )

  -- No row with the key `k` passes the `WHERE` clause of any claim.
  abbrev pub Refused : ℕ → ℕ → List R → Type 0
  Refused limit k =
      All (λ x. q.id x ≡ k → (t : ℕ) → q.eligible t x && ltb (q.attempts x) limit ≡ false)

  pub choice-Refused :
      (busy : ℕ → Bool) (limit : ℕ) (only : Option ℕ) (now k : ℕ) (rows : List R) (r : R)
      → Refused limit k rows
      → choice busy limit only now rows ≡ some r
      → q.id r ≢ k
  choice-Refused busy limit only now k rows r refused chosen same =
      let h =
        All-Has (λ x. q.id x ≡ k → (t : ℕ) → q.eligible t x && ltb (q.attempts x) limit ≡ false)
          (first_by-Has _ _ rows r chosen) refused same now in
      let p = first_by-holds _ _ rows r chosen in ground arith

module _ {R : Type 0} (q : Queue R) {lease : ℕ} (leased : IsLeased q lease) where
  -- A claim leaves the rows alone whose keys are not that of the row that it takes.
  pub claim-others :
      (busy : ℕ → Bool) (limit : ℕ) (only : Option ℕ) (now : ℕ) (rows : List R) (x y : R)
      → (claim q busy limit only now rows).0 ≡ some x
      → q.id y ≢ q.id x
      → Has y rows
      → Has y (claim q busy limit only now rows).1
  claim-others busy limit only now rows x y =
      claim_cases q (λ c. c.0 ≡ some x → q.id y ≢ q.id x → Has y rows → Has y c.1) busy limit only
        now rows (λ _ e. absurd (cc))
        λ r chosen e ne m.
          let same : q.mark now r ≡ x = cc in
          let key : q.id x ≡ q.id r = ap q.id (sym same) ∙ leased.id-mark now r in
          Has-update_other (λ z. q.id z == q.id r) (q.mark now) (ground arith) m

  not_eligible : (now t : ℕ) (x : R) → t < now + lease → q.eligible t (q.mark now x) ≡ false
  not_eligible now t x h = elim (Bool-cases (q.eligible t (q.mark now x))) [
    | inl e ↦ absurd (omega (arith, leased.held now t x e))
    | inr e ↦ e
  ]

  mark-Held :
      (now : ℕ) (k : ℕ) (rows : List R)
      → Held q k (now + lease) (update (λ x. q.id x == k) (q.mark now) rows)
  mark-Held now k rows =
      All-update_any (λ x. q.id x ≡ k → (t : ℕ) → t < now + lease → q.eligible t x ≡ false)
        (λ x. q.id x == k) (q.mark now) rows
        λ x. elim (Bool-cases (q.id x == k)) [
          | inl e ↦ rw e (λ same t h. not_eligible now t x h)
          | inr e ↦ rw e (λ same t h. absurd (ground arith))
        ]

  -- A claim starts the lease of the row that it takes.
  pub claim-Held :
      (busy : ℕ → Bool) (limit : ℕ) (only : Option ℕ) (now : ℕ) (rows : List R) (r : R)
      → (claim q busy limit only now rows).0 ≡ some r
      → Held q (q.id r) (now + lease) (claim q busy limit only now rows).1
  claim-Held busy limit only now rows r =
      claim_cases q (λ c. c.0 ≡ some r → Held q (q.id r) (now + lease) c.1) busy limit only now rows
        (λ _ e. absurd (cc))
        λ x _ e.
          subst (λ k. Held q k (now + lease) (update (λ y. q.id y == q.id x) (q.mark now) rows))
            (cc (leased.id-mark now x)) (mark-Held now (q.id x) rows)

  -- The `WHERE` clause passes over a row under a lease.
  choice-ne :
      (busy : ℕ → Bool) (limit : ℕ) (only : Option ℕ) (now k until : ℕ) (rows : List R) (x : R)
      → Held q k until rows
      → now < until
      → choice q busy limit only now rows ≡ some x
      → q.id x ≢ k
  choice-ne busy limit only now k until rows x held early chosen same =
      let h =
        All-Has (λ y. q.id y ≡ k → (t : ℕ) → t < until → q.eligible t y ≡ false)
          (first_by-Has _ _ rows x chosen) held same now early in
      let p = first_by-holds _ _ rows x chosen in ground arith

  -- While the lease of `k` runs, no claim takes `k`,
  pub claim-ne :
      (busy : ℕ → Bool) (limit : ℕ) (only : Option ℕ) (now k until : ℕ) (rows : List R) (r : R)
      → Held q k until rows
      → now < until
      → (claim q busy limit only now rows).0 ≡ some r
      → q.id r ≢ k
  claim-ne busy limit only now k until rows r held early =
      claim_cases q (λ c. c.0 ≡ some r → q.id r ≢ k) busy limit only now rows (λ _ e. absurd (cc))
        λ x chosen e same.
          choice-ne busy limit only now k until rows x held early chosen (cc (leased.id-mark now x))

  -- and what a claim does to other rows leaves that lease as it is.
  pub claim-keeps-Held :
      (busy : ℕ → Bool) (limit : ℕ) (only : Option ℕ) (now k until : ℕ) (rows : List R)
      → Held q k until rows
      → now < until
      → Held q k until (claim q busy limit only now rows).1
  claim-keeps-Held busy limit only now k until rows held early =
      claim_cases q (λ c. Held q k until c.1) busy limit only now rows (λ _. held)
        λ r chosen.
          let ne = choice-ne busy limit only now k until rows r held early chosen in
          All-update (λ x. q.id x ≡ k → (t : ℕ) → t < until → q.eligible t x ≡ false)
            (λ x. q.id x == q.id r) (q.mark now) rows
            (λ x e _ same t _. absurd (ne (ground (arith, leased.id-mark now x)))) held

  pub claim-Refused :
      (busy : ℕ → Bool) (limit : ℕ) (only : Option ℕ) (now k : ℕ) (rows : List R)
      → Refused q limit k rows
      → Refused q limit k (claim q busy limit only now rows).1
  claim-Refused busy limit only now k rows refused =
      claim_cases q (λ c. Refused q limit k c.1) busy limit only now rows (λ _. refused)
        λ r chosen.
          let ne = choice-Refused q busy limit only now k rows r refused chosen in
          All-update
            (λ x. q.id x ≡ k → (t : ℕ) → q.eligible t x && ltb (q.attempts x) limit ≡ false)
            (λ x. q.id x == q.id r) (q.mark now) rows
            (λ x e _ same t. absurd (ne (ground (arith, leased.id-mark now x)))) refused

  pub claim-Refused_ne :
      (busy : ℕ → Bool) (limit : ℕ) (only : Option ℕ) (now k : ℕ) (rows : List R) (r : R)
      → Refused q limit k rows
      → (claim q busy limit only now rows).0 ≡ some r
      → q.id r ≢ k
  claim-Refused_ne busy limit only now k rows r refused =
      claim_cases q (λ c. c.0 ≡ some r → q.id r ≢ k) busy limit only now rows (λ _ e. absurd (cc))
        λ x chosen e same.
          choice-Refused q busy limit only now k rows x refused chosen (cc (leased.id-mark now x))

  -- No row is attempted more often than the limit allows.
  pub claim-Bounded :
      (busy : ℕ → Bool) (limit : ℕ) (only : Option ℕ) (now : ℕ) (rows : List R)
      → Keyed q.id rows
      → Bounded q limit rows
      → Bounded q limit (claim q busy limit only now rows).1
  claim-Bounded busy limit only now rows keyed bounded =
      claim_cases q (λ c. Bounded q limit c.1) busy limit only now rows (λ _. bounded)
        λ r chosen.
          let p = first_by-holds _ _ rows r chosen in
          All-update_key q.id (λ x. q.attempts x ≤ limit) (q.mark now) rows r keyed
            (first_by-Has _ _ rows r chosen) (ground (arith, leased.attempts-mark now r)) bounded

  pub claim-Keyed :
      (busy : ℕ → Bool) (limit : ℕ) (only : Option ℕ) (now : ℕ) (rows : List R)
      → Keyed q.id rows
      → Keyed q.id (claim q busy limit only now rows).1
  claim-Keyed busy limit only now rows keyed =
      claim_cases q (λ c. Keyed q.id c.1) busy limit only now rows (λ _. keyed)
        λ r _. Keyed-update q.id _ (q.mark now) rows (leased.id-mark now) keyed

  -- Where keys are distinct, a query by the key of the claimed row finds the row as it was handed
  -- out.
  pub claim-find? :
      (busy : ℕ → Bool) (limit : ℕ) (only : Option ℕ) (now : ℕ) (rows : List R) (x : R)
      → Keyed q.id rows
      → (claim q busy limit only now rows).0 ≡ some x
      → find? (λ y. q.id y == q.id x) (claim q busy limit only now rows).1 ≡ some x
  claim-find? busy limit only now rows x keyed =
      claim_cases q (λ c. c.0 ≡ some x → find? (λ y. q.id y == q.id x) c.1 ≡ some x) busy limit only
        now rows (λ _ e. absurd (cc))
        λ r chosen e.
          let same : q.mark now r ≡ x = cc in
          let key : q.id x ≡ q.id r = ap q.id (sym same) ∙ leased.id-mark now r in
          let there = find?-key q.id rows r keyed (first_by-Has _ _ rows r chosen) in
          let by_key =
            find?-update_found (λ y. q.id y == q.id r) (q.mark now) rows r
              (λ y. ap (λ k. k == q.id r) (leased.id-mark now y)) there in
          rw (key, by_key) e
