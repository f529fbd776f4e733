-- ===== src/Jobs/Schedules/Recurring.antt =====
-- `_next_recurring_run` of src/benji_api/services/schedules.py: the next run of a daily or weekly
-- task, at the same wall-clock time in the task's time zone.
use dot_backend.Prelude.{
  ℕ, zero, suc, ◌+◌, ◌*◌, ◌%◌, ◌≤◌, ◌<◌, ◌≡◌, ◌⊎◌, inl, inr, refl, ap, ◌∙◌, String, Bool, Option,
  none, some, leb, str_eq, arith, Bool-cases, if◌then◌else◌,
}
use dot_backend.Jobs.Clock.{seconds}

pub data Recurrence : Type 0 where
  once daily weekly : Recurrence

-- `ScheduledTaskRecurrence(recurrence)`
unfoldable pub parse_recurrence : String → Option Recurrence
parse_recurrence s =
    if str_eq s "once"
    then some once
    else (if str_eq s "daily"
        then some daily
        else (if str_eq s "weekly" then some weekly else none))

-- The value of the enumeration.
unfoldable pub recurrence_text : Recurrence → String
recurrence_text once = "once"
recurrence_text daily = "daily"
recurrence_text weekly = "weekly"

-- A reading of a local clock, in microseconds, with the `fold` of a repeated hour.
pub record Wall : Type 0 where
  pub reading : ℕ
  pub fold : Bool

-- A time zone: what `astimezone` gives in each direction.
pub record Zone : Type 0 where
  pub to_wall : ℕ → Wall
  pub to_utc : Wall → ℕ

abbrev pub day : ℕ
day = seconds 86400

-- `timedelta(days=1 if ... else 7)`
abbrev pub step_of : Recurrence → ℕ
step_of daily = day
step_of once = 7 * day
step_of weekly = 7 * day

-- The loop: datetimes of one zone are compared by their wall readings. A round adds at least a
-- day, so `after + 1` rounds are more than it can take.
unfoldable advance : ℕ → ℕ → ℕ → ℕ → ℕ
advance zero step candidate after = candidate
advance (suc fuel) step candidate after =
    let rest = advance fuel step (candidate + step) after in
    if leb candidate after then rest else candidate

unfoldable pub next_wall : Recurrence → ℕ → ℕ → ℕ
unfolding advance
next_wall recurrence candidate after = advance (suc after) (step_of recurrence) candidate after

-- `_next_recurring_run`
unfoldable pub next_recurring_run : Zone → Recurrence → ℕ → ℕ → ℕ
next_recurring_run zone recurrence scheduled_for after =
    let start = zone.to_wall scheduled_for in
    zone.to_utc
      (record start { reading = next_wall recurrence start.reading (zone.to_wall after).reading })

-- `next` is the first of `candidate`, `candidate + step`, ... that lies after `after`.
pub record IsNext (step candidate after next : ℕ) : Type 0 where
  pub later : after < next
  pub rounds : ℕ
  pub on_grid : next ≡ candidate + rounds * step
  pub first : (rounds ≡ 0) ⊎ (next ≤ after + step)

one_more :
    {step candidate after next : ℕ}
    → candidate ≤ after
    → IsNext step (candidate + step) after next
    → IsNext step candidate after next
one_more {step} {candidate} h n = record {
  later = n.later;
  rounds = suc n.rounds;
  on_grid = omega (arith, n.on_grid);
  first = inr (elim n.first [
    | inl none_added ↦
        let gone = ap (λ k. k * step) none_added in let grid = n.on_grid in omega arith
    | inr h' ↦ h'
  ]);
}

advance-IsNext :
    (fuel step candidate after : ℕ)
    → 0 < step
    → after < candidate + fuel
    → IsNext step candidate after (advance fuel step candidate after)
unfolding advance
advance-IsNext zero step candidate after pos enough = record {
  later = omega arith;
  rounds = 0;
  on_grid = omega arith;
  first = inl refl;
}
advance-IsNext (suc fuel) step candidate after pos enough =
    elim (Bool-cases (leb candidate after)) [
      | inl e ↦ rw e (
          one_more (ground arith)
            (advance-IsNext fuel step (candidate + step) after pos (omega arith)))
      | inr e ↦
          rw e
            (record { later = ground arith; rounds = 0; on_grid = omega arith; first = inl refl })
    ]

step_pos : (r : Recurrence) → 0 < step_of r
step_pos once = omega arith
step_pos daily = omega arith
step_pos weekly = omega arith

-- The loop ends, and finds the first time of the series that lies after `after`.
pub next_wall-IsNext :
    (r : Recurrence) (candidate after : ℕ)
    → IsNext (step_of r) candidate after (next_wall r candidate after)
unfolding next_wall
next_wall-IsNext r candidate after =
    advance-IsNext (suc after) (step_of r) candidate after (step_pos r) (omega arith)

on_grid_day :
    (r : Recurrence) (candidate n : ℕ) → (candidate + n * step_of r) % day ≡ candidate % day
on_grid_day once candidate n = omega arith
on_grid_day daily candidate n = omega arith
on_grid_day weekly candidate n = omega arith

-- The wall clock shows the same time of day as at the run before.
pub next_wall-time_of_day :
    (r : Recurrence) (candidate after : ℕ) → next_wall r candidate after % day ≡ candidate % day
next_wall-time_of_day r candidate after =
    let n = next_wall-IsNext r candidate after in
    ap (λ w. w % day) n.on_grid ∙ on_grid_day r candidate n.rounds
