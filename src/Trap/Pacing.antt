-- ===== src/Trap/Pacing.antt =====
-- internal/trap/trap.go, what paces a trap: the rejection log, the back-off of the accept loop and the
-- delay of an authentication attempt.
pub mod Rejections
pub mod Delays
use ran.Base.{
  ℕ, ◌+◌, ◌-◌, ◌*◌, ◌%◌, ◌^◌, min, Bool, true, false, ◌&&◌, ◌||◌, Option, none, some, List, [], ◌∷◌,
  Bytes, bytes_Eq, lookup, insert, erase, ltb, leb, ◌==◌, if◌then◌else◌,
}

abbrev pub millisecond : ℕ
millisecond = 1_000_000

abbrev pub reject_log_interval : ℕ
reject_log_interval = 10_000 * millisecond

pub record RejectLimiter : Type 0 where
  pub last : List (Bytes × ℕ)
  pub suppressed : List (Bytes × ℕ)

abbrev pub new_reject_limiter : RejectLimiter
new_reject_limiter = record { last = []; suppressed = [] }

-- `r.suppressed[protocol]`, 0 where the key is missing
unfoldable pub left_out : Bytes → RejectLimiter → ℕ
left_out protocol r = elim (lookup protocol r.suppressed) [ none ↦ 0 | some n ↦ n ]

abbrev pub is_soon : ℕ → Option ℕ → Bool
is_soon now none = false
is_soon now (some last) = ltb now (last + reject_log_interval)

-- `allow`: the number of rejections left out before the warning, if it may be logged
unfoldable pub allow : Bytes → ℕ → RejectLimiter → RejectLimiter × Option ℕ
allow protocol now r =
    if is_soon now (lookup protocol r.last)
    then (record r { suppressed = insert protocol (left_out protocol r + 1) r.suppressed }, none)
    else (
      record { last = insert protocol now r.last; suppressed = erase protocol r.suppressed },
      some (left_out protocol r),
    )

abbrev pub accept_panic_backoff_min : ℕ
accept_panic_backoff_min = 10 * millisecond

abbrev pub accept_panic_backoff_max : ℕ
accept_panic_backoff_max = 1000 * millisecond

-- the back-off after one that was waited
unfoldable pub next_backoff : ℕ → ℕ
next_backoff backoff =
    if ltb accept_panic_backoff_max (backoff * 2) then accept_panic_backoff_max else backoff * 2

-- `1 << attempt` as an int of 64 bits, and at most 4, where that is not negative: it is 0 from 64 on
unfoldable pub multiplier : ℕ → ℕ
multiplier attempt = if ltb attempt 63 then min (2 ^ attempt) 4 else 0

-- With the number 63 it is the least int, and so is its product with an odd delay; with an even delay
-- the product wraps to 0.
abbrev pub is_negative : ℕ → ℕ → Bool
is_negative base_delay attempt = attempt == 63 && base_delay % 2 == 1

-- `authSleepUntil`: the time that it waits, if nothing cancels it, and whether it reports
-- `context.DeadlineExceeded`; four times the base delay is a duration
unfoldable pub auth_sleep_until : Option ℕ → ℕ → ℕ → ℕ → ℕ × Bool
auth_sleep_until deadline now base_delay attempt =
    let delay = base_delay * multiplier attempt in
    if base_delay == 0 || is_negative base_delay attempt then (0, false) else elim deadline [
      | none ↦ (delay, false)
      | some d ↦ if ltb d (now + delay) then (d - now, true) else (delay, false)
    ]
