-- ===== src/Alert/Scan.antt =====
-- internal/alert/scan.go: sources that touch several protocols or ports in a short time.
pub mod Entry
pub mod Bounds
use ran.Alert.Scan.Entry.{ScanEntry, new_entry, touch_entry, verdict}
use ran.Base.{
  ℕ, zero, suc, ◌+◌, Bool, true, false, Option, none, some, List, [], ◌∷◌, Bytes, ltb, leb,
  if◌then◌else◌, ◌*◌,
}
use ran.Fifo
use ran.Fifo.{Fifo}

pub record ScanTracker : Type 0 where
  pub entries : Fifo ScanEntry
  pub window : ℕ
  pub threshold : ℕ
  pub port_limit : ℕ
  pub max_entries : ℕ

abbrev pub scan_protocols : ℕ
scan_protocols = 3

abbrev pub scan_ports : ℕ
scan_ports = 5

-- ten minutes, in nanoseconds
abbrev pub scan_window : ℕ
scan_window = 10 * 60_000_000_000

abbrev pub new_scan_tracker : ℕ → ℕ → ℕ → ScanTracker
new_scan_tracker window threshold max_entries = record {
  entries = Fifo.empty;
  window = window;
  threshold = threshold;
  port_limit = scan_ports;
  max_entries = max_entries;
}

-- `remove`
unfoldable pub drop_entry : ℕ → ScanEntry → ScanTracker → ScanTracker
drop_entry i e s = record s { entries = Fifo.remove e.ip i s.entries }

-- the loop of `sweepFront`, on fuel: each round takes the front element away
unfoldable pub sweep_front : ℕ → ℕ → ScanTracker → ScanTracker
unfolding drop_entry
sweep_front zero now s = s
sweep_front (suc fuel) now s = elim (Fifo.front s.entries) [
  | none ↦ s
  | some (i, e) ↦ elim (ltb now (e.last + s.window)) [
    | true ↦ s
    | false ↦ sweep_front fuel now (drop_entry i e s)
  ]
]

-- the room that `TouchPort` makes for a new source in a full table
unfoldable pub make_room : ℕ → ScanTracker → ScanTracker
unfolding sweep_front drop_entry
make_room now s =
    let s' = sweep_front (Fifo.size s.entries) now s in
    if leb s'.max_entries (Fifo.size s'.entries)
    then elim (Fifo.front s'.entries) [ none ↦ s' | some (i, e) ↦ drop_entry i e s' ]
    else s'

unfoldable pub with_room : ℕ → ScanTracker → ScanTracker
unfolding make_room
with_room now s = if leb s.max_entries (Fifo.size s.entries) then make_room now s else s

-- the source's element, made if there is none
unfoldable pub entry_for :
    Bytes → ℕ → Option (ℕ × ScanEntry) → ScanTracker → ScanTracker × ℕ × ScanEntry
unfolding with_room
entry_for ip now (some (i, e)) s = (s, i, e)
entry_for ip now none s =
    let s' = with_room now s in
    (
      record s' { entries = Fifo.push_back ip (new_entry ip) s'.entries },
      s'.entries.next,
      new_entry ip,
    )

unfoldable pub touch_port : Bytes → Bytes → ℕ → ℕ → ScanTracker → ScanTracker × Bool
unfolding entry_for touch_entry verdict
touch_port ip protocol port now s =
    let (s', i, e) = entry_for ip now (Fifo.find ip s.entries) s in
    let e' = touch_entry s'.window protocol port now e in
    (
      record s' { entries = Fifo.move_to_back i e' (Fifo.assign i e' s'.entries) },
      verdict s'.threshold s'.port_limit e',
    )

-- `Touch`
unfoldable pub touch : Bytes → Bytes → ℕ → ScanTracker → ScanTracker × Bool
unfolding touch_port
touch ip protocol = touch_port ip protocol 0

unfoldable pub cleanup : ℕ → ScanTracker → ScanTracker
unfolding sweep_front
cleanup now s = sweep_front (Fifo.size s.entries) now s
