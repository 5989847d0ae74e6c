-- ===== src/Alert/Offenders.antt =====
-- internal/alert/offenders.go: the table behind the repeat cooldown and the shun window. Times
-- and durations are natural numbers of nanoseconds, the zero time is 0, and the clock's reading
-- is an argument. An offender's pointer is the number of its list element. The summaries that
-- the code collects under its lock and logs after it are returned.
pub mod Entry
pub mod Table
pub mod Operations
pub mod Upkeep
pub mod Bounds
pub mod Room
pub mod Accept
pub mod Shun
pub mod Revert
