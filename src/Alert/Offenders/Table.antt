-- ===== src/Alert/Offenders/Table.antt =====
-- The table and its operations.
use ran.Alert.Offenders.Entry.{Offender, ShunSummary, window_summary, close_window}
use ran.Base.{
  ℕ, zero, suc, ◌+◌, ◌-◌, ◌^◌, Bool, true, false, not, ◌&&◌, none, some, List, [], ◌∷◌, ◌++◌,
  length, ltb, leb, ◌==◌, if◌then◌else◌, ◌*◌, ◌/◌,
}
use ran.Fifo
use ran.Fifo.{Fifo}

-- `offenderConfig`, without the clock, the logger and the metrics
pub record OffenderConfig : Type 0 where
  pub shun : Bool
  pub repeat_after : ℕ
  pub repeat_cooldown : ℕ
  pub max_entries : ℕ
  pub reset : ℕ

pub record OffenderTable : Type 0 where
  pub entries : Fifo Offender
  pub active : List ℕ
  pub next_win : ℕ
  pub shun : Bool
  pub repeat_after : ℕ
  pub repeat : ℕ
  pub max : ℕ
  pub reset : ℕ

abbrev pub default_offender_reset : ℕ
default_offender_reset = 7 * 24 * 3_600_000_000_000

-- `defaultMaxTracked` of internal/alert/crowdsec.go
abbrev pub default_max_tracked : ℕ
default_max_tracked = 20000

-- `math.MaxInt64`
abbrev pub max_int64 : ℕ
max_int64 = 2 ^ 63 - 1

-- the silence after which a source is forgotten, as `newOffenderTable` sets it
unfoldable pub reset_period : ℕ → ℕ → ℕ
reset_period reset repeat =
    if 0 == reset
    then (if ltb (default_offender_reset / 2) repeat
        then (if ltb (max_int64 / 2) repeat then max_int64 else 2 * repeat)
        else default_offender_reset)
    else reset

unfoldable pub new_offender_table : OffenderConfig → OffenderTable
unfolding reset_period
new_offender_table cfg = record {
  entries = Fifo.empty;
  active = [];
  next_win = 0;
  shun = cfg.shun;
  repeat_after = if ltb cfg.repeat_after 1 then 5 else cfg.repeat_after;
  repeat = cfg.repeat_cooldown;
  max = if 0 == cfg.max_entries then default_max_tracked else cfg.max_entries;
  reset = reset_period cfg.reset cfg.repeat_cooldown;
}

-- The table, and the summaries collected so far.
pub record Work : Type 0 where
  pub table : OffenderTable
  pub sums : List ShunSummary

-- `delete(o.active, e)`
unfoldable pub without : ℕ → List ℕ → List ℕ
without i [] = []
without i (j ∷ l) = if j == i then without i l else j ∷ without i l

-- `o.active[e] = struct{}{}`
unfoldable pub including : ℕ → List ℕ → List ℕ
including i [] = i ∷ []
including i (j ∷ l) = if j == i then j ∷ l else j ∷ including i l

abbrev pub put : ℕ → Offender → OffenderTable → OffenderTable
put i e t = record t { entries = Fifo.assign i e t.entries }

unfoldable pub expired : OffenderTable → Offender → ℕ → Bool
expired t e now = leb (e.last + t.reset) now && not (ltb now e.shun_until)

unfoldable pub end_window : ℕ → Offender → ℕ → Work → Work
unfolding without window_summary
end_window i e now w = record {
  table = record w.table {
    entries = Fifo.assign i (close_window e) w.table.entries;
    active = without i w.table.active;
  };
  sums = w.sums ++ window_summary e now;
}

-- `remove`
unfoldable pub drop_entry : ℕ → Offender → ℕ → Work → Work
unfolding end_window
drop_entry i e now w =
    let w' = if e.active then end_window i e now w else w in
    record w' { table = record w'.table { entries = Fifo.remove e.ip i w'.table.entries } }

-- the loop of `sweepFront`, on fuel: each round takes the front element away
unfoldable pub sweep_front : ℕ → ℕ → Work → Work
unfolding expired drop_entry
sweep_front zero now w = w
sweep_front (suc fuel) now w = elim (Fifo.front w.table.entries) [
  | none ↦ w
  | some (i, e) ↦ elim (expired w.table e now) [
    | true ↦ sweep_front fuel now (drop_entry i e now w)
    | false ↦ w
  ]
]

abbrev pub evict_scan : ℕ
evict_scan = 64

-- the scan of `makeRoom` for an element with no window, among the first `n`
unfoldable pub oldest_inactive : ℕ → ℕ × Offender → List (ℕ × Offender) → ℕ × Offender
oldest_inactive zero victim l = victim
oldest_inactive (suc n) victim [] = victim
oldest_inactive (suc n) victim ((i, e) ∷ l) =
    let rest = oldest_inactive n victim l in if e.active then rest else (i, e)

unfoldable pub make_room : ℕ → Work → Work
unfolding sweep_front oldest_inactive drop_entry
make_room now w =
    let w' = sweep_front (Fifo.size w.table.entries) now w in
    if ltb (Fifo.size w'.table.entries) w'.table.max
    then w'
    else elim (Fifo.front w'.table.entries) [
      | none ↦ w'
      | some (i, e) ↦
          let victim : ℕ × Offender =
            (if ltb (length w'.table.active) (Fifo.size w'.table.entries)
              then oldest_inactive evict_scan (i, e) w'.table.entries.order
              else (i, e)) in
          drop_entry victim.0 victim.1 now w'
    ]
