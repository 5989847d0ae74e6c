-- ===== src/Alert/Offenders/Entry.antt =====
-- One offender, its counters, and the summary of its shun window.
use ran.Alert.Class.{Class, rank}
use ran.Base.{
  ℕ, zero, suc, ◌-◌, ◌/◌, Bool, false, ◌&&◌, Option, none, some, List, [], ◌∷◌, Bytes, ltb, ◌==◌,
  if◌then◌else◌,
}

-- `counts [3]int`
pub record Counts : Type 0 where
  pub probes : ℕ
  pub attacks : ℕ
  pub scans : ℕ

abbrev pub no_counts : Counts
no_counts = record { probes = 0; attacks = 0; scans = 0 }

abbrev pub count_at : ℕ → Counts → ℕ
count_at zero c = c.probes
count_at (suc zero) c = c.attacks
count_at (suc (suc _)) c = c.scans

abbrev pub set_count : ℕ → ℕ → Counts → Counts
set_count zero n c = record c { probes = n }
set_count (suc zero) n c = record c { attacks = n }
set_count (suc (suc _)) n c = record c { scans = n }

-- `e.counts == [3]int{}`
abbrev pub is_zero : Counts → Bool
is_zero c = c.probes == 0 && c.attacks == 0 && c.scans == 0

pub record Offender : Type 0 where
  pub ip : Bytes
  pub counts : Counts
  pub last : ℕ
  pub shun_start : ℕ
  pub shun_until : ℕ
  pub win_id : ℕ
  pub suppressed : ℕ
  pub protos : List Bytes
  pub active : Bool

-- `&offender{ip: key}`
abbrev pub new_offender : Bytes → Offender
new_offender key = record {
  ip = key;
  counts = no_counts;
  last = 0;
  shun_start = 0;
  shun_until = 0;
  win_id = 0;
  suppressed = 0;
  protos = [];
  active = false;
}

-- `none` stands for -1.
unfoldable pub class_index : Class → Option ℕ
unfolding rank
class_index c = let r = rank c in if ltb 0 r then some (r - 1) else none

-- the integers over the native numbers
pub data ℤ : Type 0 where
  pos : ℕ → ℤ
  negsuc : ℕ → ℤ

pub record ShunSummary : Type 0 where
  pub ip : Bytes
  pub count : ℕ
  pub protos : List Bytes
  pub seconds : ℤ

-- `int(end.Sub(start).Seconds())`, which is cut towards 0, also where the clock went back
abbrev pub seconds_between : ℕ → ℕ → ℤ
seconds_between start end =
    if ltb end start
    then minus ((start - end) / 1_000_000_000)
    else pos ((end - start) / 1_000_000_000)
  where
    minus : ℕ → ℤ
    minus zero = pos 0
    minus (suc n) = negsuc n

-- the first half of `endWindow`; the log line sorts the protocols
unfoldable pub window_summary : Offender → ℕ → List ShunSummary
window_summary e now =
    if ltb 0 e.suppressed
    then (let end = if ltb now e.shun_until then now else e.shun_until in
        record {
          ip = e.ip;
          count = e.suppressed;
          protos = e.protos;
          seconds = seconds_between e.shun_start end;
        }
        ∷ [])
    else []

-- the assignments of `endWindow`
abbrev pub close_window : Offender → Offender
close_window e = record e {
  suppressed = 0;
  protos = [];
  shun_start = 0;
  shun_until = 0;
  active = false;
}
