-- ===== src/Examples/Tables.antt =====
-- The cooldown filter, the offender table, the scan tracker and the probe log on small data.
use ran.Alert.Class.{unset, probe, attack, scan, rank}
use ran.Alert.Cooldown as Cooldown
use ran.Alert.Cooldown.{CooldownFilter, Slot, entry_key}
use ran.Alert.Cooldown.Bounds as CooldownBounds
use ran.Alert.Cooldown.Gate as Gate
use ran.Alert.Netip.{normalize_ip}
use ran.Alert.Offenders.Accept as Accept
use ran.Alert.Offenders.Bounds.{offender_key}
use ran.Alert.Offenders.Operations as Operations
use ran.Alert.Offenders.Operations.{AcceptMark}
use ran.Alert.Offenders.Shun as Shun
use ran.Alert.Offenders.Table as Table
use ran.Alert.Offenders.Table.{OffenderTable, default_offender_reset}
use ran.Alert.Probes as Probes
use ran.Alert.Probes.{ProbeLog, new_probe_log}
use ran.Alert.Probes.Conserve as Conserve
use ran.Alert.Scan.{ScanTracker, new_scan_tracker}
use ran.Alert.Scan.Bounds as ScanBounds
use ran.Alert.Scan.Entry as ScanEntry
use ran.Base.{
  ◌+◌, true, none, some, List, [], ◌∷◌, codes, lookup, insert, erase, bytes_Eq, ◌≡◌, ◌≢◌, refl,
  arith,
}
use ran.Examples.{net, visitor, other}
use ran.Fifo
use ran.Fifo.Wf.{empty-Wf}

abbrev pub cool : CooldownFilter
cool = record { seen = Fifo.empty; next_slot = 0; window = 60; max_entries = 4 }

pub cool-IsValid : CooldownBounds.IsValid cool
cool-IsValid = record { wf = empty-Wf entry_key; bounded = omega arith; positive = omega arith }

abbrev pub table : OffenderTable
table = record {
  entries = Fifo.empty;
  active = [];
  next_win = 0;
  shun = true;
  repeat_after = 2;
  repeat = 600;
  max = 4;
  reset = default_offender_reset;
}

pub table-IsValid : Accept.IsValid table
unfolding lookup
table-IsValid = record {
  good = record { wf = empty-Wf offender_key; flagged = λ i e p q. absurd (ground arith) };
  bounded = omega arith;
  positive = omega arith;
}

abbrev pub tracker : ScanTracker
tracker = new_scan_tracker 60 2 4

pub tracker-IsValid : ScanBounds.IsValid tracker
tracker-IsValid = ScanBounds.new_scan_tracker-IsValid 60 2 4 (omega arith)

abbrev pub probes : ProbeLog
probes = new_probe_log 60 4

pub probes-IsValid : Conserve.IsValid probes
probes-IsValid = record {
  wf = empty-Wf Conserve.probe_entry_key;
  bounded = omega arith;
  positive = omega arith;
}

-- An attack of the visitor at 10 passes the empty filter.
abbrev cooled : CooldownFilter
cooled = (Cooldown.allow net visitor attack 10 none cool).0

abbrev taken : Slot
taken = record { key = Cooldown.cooldown_key visitor attack; slot = 1; win = 60 }

passed : Cooldown.allow net visitor attack 10 none cool ≡ (cooled, some taken)
unfolding Cooldown.allow lookup insert erase Cooldown.cooldown_key Cooldown.take_slot Fifo.push_back
    rank
passed = refl

attack-ne-unset : attack ≢ unset
attack-ne-unset = ground arith

attack-ne-probe : attack ≢ probe
attack-ne-probe = ground arith

-- A probe of the visitor at 50 is suppressed.
allow-suppresses_example : Cooldown.allow net visitor probe 50 none cooled ≡ (cooled, none)
unfolding rank
allow-suppresses_example =
    Gate.allow-suppresses net visitor attack 10 none cool cooled taken cool-IsValid (ground arith)
      passed probe 50 none attack-ne-unset (omega arith) (omega arith)

abbrev calls : List Gate.Call
calls =
    Gate.allowing visitor attack 10 none
    ∷ Gate.allowing other scan 11 none
    ∷ Gate.releasing (Cooldown.cooldown_key visitor attack) 1
    ∷ Gate.cleaning 100
    ∷ []

run-IsValid_example :
    CooldownBounds.IsValid (Gate.run net calls (Cooldown.new_cooldown_filter 60 1))
run-IsValid_example = Gate.run-IsValid net 60 1 calls (omega arith)

visitor_known : normalize_ip net visitor ≡ some visitor
unfolding normalize_ip
visitor_known = refl

accepted-shuns_example :
    (Operations.shunned net visitor 50 (Operations.accepted net visitor attack 60 10 table).0).2
    ≡ true
accepted-shuns_example =
    Shun.accepted-shuns net visitor visitor attack 60 10 50 table table-IsValid refl visitor_known
      attack-ne-unset attack-ne-probe (ground arith) (omega arith)

accepted-IsValid_example : Accept.IsValid (Operations.accepted net visitor attack 60 10 table).0
accepted-IsValid_example = Shun.accepted-IsValid net visitor attack 60 10 table table-IsValid

abbrev mark : AcceptMark
mark = record { key = visitor; idx = 1; win = 1 }

abbrev touched : ScanEntry.ScanEntry
touched = record { ip = visitor; last = 5; touched = (codes "ftp", 5) ∷ []; ports = [] }

ftp_at : lookup (codes "ftp") touched.touched ≡ some 5
unfolding lookup
ftp_at = refl

record_probe-counts-IsValid :
    Conserve.IsValid (Probes.record_probe net visitor (codes "ssh") 10 probes).0
record_probe-counts-IsValid =
    (Conserve.record_probe-counts net visitor (codes "ssh") 10 probes probes-IsValid refl).0

record_probe-counts_example :
    Conserve.IsValid (Probes.record_probe net visitor (codes "ssh") 10 probes).0
    × (Conserve.total (Probes.record_probe net visitor (codes "ssh") 10 probes).0
        ≡ Conserve.total probes + 1)
    × ((Probes.record_probe net visitor (codes "ssh") 10 probes).1 ≡ true)
record_probe-counts_example =
    Conserve.record_probe-counts net visitor (codes "ssh") 10 probes probes-IsValid refl

-- the log with one session of the visitor
abbrev one : ProbeLog
one = (Probes.record_probe net visitor (codes "ssh") 10 probes).0

-- the table with the visitor, whose week of silence is over at the sweep
abbrev silent : Table.Work
silent = record { table = (Operations.accepted net visitor attack 60 10 table).0; sums = [] }
