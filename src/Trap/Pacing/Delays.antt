-- ===== src/Trap/Pacing/Delays.antt =====
-- How long a client waits.
use native.Mathlib.Nat.{mul-le-mul_left}
use ran.Base.{ℕ, ◌-◌, ◌*◌, ◌≤◌, none, some, ◌==◌, ◌||◌, ◌≡◌, refl, arith, inl, inr, Bool-cases}
use ran.Trap.Pacing.{
  accept_panic_backoff_min, accept_panic_backoff_max, next_backoff, multiplier, is_negative,
  auth_sleep_until,
}

-- The back-off of the accept loop stays between 10 ms and 1 s.
next_backoff_bounded :
    (backoff : ℕ)
    → accept_panic_backoff_min ≤ backoff
    → (accept_panic_backoff_min ≤ next_backoff backoff)
      × (next_backoff backoff ≤ accept_panic_backoff_max)
unfolding next_backoff
next_backoff_bounded backoff h = ground arith

-- The delay after an attempt never takes a session past its deadline.
auth_sleep_until_le_deadline :
    (d now base_delay attempt : ℕ) → (auth_sleep_until (some d) now base_delay attempt).0 ≤ d - now
unfolding auth_sleep_until
auth_sleep_until_le_deadline d now base_delay attempt = ground arith

multiplier_le : (attempt : ℕ) → multiplier attempt ≤ 4
unfolding multiplier
multiplier_le attempt = ground arith

-- Without a deadline, the delay is at most four times the base delay, whatever the attempt.
auth_sleep_until_le_four :
    (now base_delay attempt : ℕ) → (auth_sleep_until none now base_delay attempt).0 ≤ base_delay * 4
unfolding auth_sleep_until
auth_sleep_until_le_four now base_delay attempt =
    elim (Bool-cases (base_delay == 0 || is_negative base_delay attempt)) [
      | inl at_once ↦ rw at_once (omega arith)
      | inr waits ↦ rw waits (mul-le-mul_left base_delay (multiplier_le attempt))
    ]

multiplier_late : (attempt : ℕ) → 63 ≤ attempt → multiplier attempt ≡ 0
unfolding multiplier
multiplier_late attempt late = ground (arith, late)

-- From the attempt with number 63 on, there is no delay.
auth_sleep_until_late :
    (now base_delay attempt : ℕ)
    → 63 ≤ attempt
    → (auth_sleep_until none now base_delay attempt).0 ≡ 0
unfolding auth_sleep_until
auth_sleep_until_late now base_delay attempt late =
    elim (Bool-cases (base_delay == 0 || is_negative base_delay attempt)) [
      | inl at_once ↦ rw at_once refl
      | inr waits ↦ rw (waits, multiplier_late attempt late) (omega arith)
    ]
