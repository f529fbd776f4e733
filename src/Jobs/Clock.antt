-- ===== src/Jobs/Clock.antt =====
-- Time and the retry delay that the queues share. A time is a number of microseconds.
use native.Mathlib.Nat.{pow-suc}
use dot_backend.Prelude.{ℕ, zero, suc, ◌*◌, ◌^◌, ◌≤◌, min, max, arith}

abbrev pub seconds : ℕ → ℕ
seconds n = n * 1000000

abbrev pub minutes : ℕ → ℕ
minutes n = seconds (n * 60)

-- `min(2 ** max(attempts, 1), 300)`, in seconds
unfoldable pub delay_seconds : ℕ → ℕ
delay_seconds attempts = min (2 ^ max attempts 1) 300

pub delay_seconds_le : (n : ℕ) → delay_seconds n ≤ 300
unfolding delay_seconds
delay_seconds_le n = omega arith

one-le-pow : (n : ℕ) → 1 ≤ 2 ^ n
one-le-pow zero = omega arith
one-le-pow (suc n) = rw pow-suc (omega (arith, one-le-pow n))

pow-ge-two : (n : ℕ) → 1 ≤ n → 2 ≤ 2 ^ n
pow-ge-two zero h = absurd (omega arith)
pow-ge-two (suc n) h = rw pow-suc (omega (arith, one-le-pow n))

pub delay_seconds_pos : (n : ℕ) → 2 ≤ delay_seconds n
unfolding delay_seconds
delay_seconds_pos n = omega (arith, pow-ge-two (max n 1))
