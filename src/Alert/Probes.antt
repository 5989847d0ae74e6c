-- ===== src/Alert/Probes.antt =====
-- internal/alert/sensor.go, `probeLog`: probe sessions summed up for each source and window. The
-- log lines written so far are part of the state, the last one first.
pub mod Conserve
use ran.Alert.Netip.{Netip}
use ran.Base.{
  ℕ, zero, suc, ◌+◌, ◌-◌, ◌/◌, Bool, true, false, ◌&&◌, Option, none, some, List, [], ◌∷◌, Bytes,
  bytes_Eq, lookup, insert, ltb, leb, if◌then◌else◌,
}
use ran.Fifo
use ran.Fifo.{Fifo}

pub record ProbeEntry : Type 0 where
  pub ip : Bytes
  pub start : ℕ
  pub sessions : ℕ
  pub protos : List (Bytes × ℕ)

-- a "probe summary" log line
pub record ProbeSummary : Type 0 where
  pub source_ip : Bytes
  pub window_seconds : ℕ
  pub sessions : ℕ
  pub protocols : List (Bytes × ℕ)

pub record ProbeLog : Type 0 where
  pub entries : Fifo ProbeEntry
  pub window : ℕ
  pub max_entries : ℕ
  pub closed : Bool
  pub written : List ProbeSummary

abbrev pub new_probe_log : ℕ → ℕ → ProbeLog
new_probe_log window max_entries = record {
  entries = Fifo.empty;
  window = window;
  max_entries = max_entries;
  closed = false;
  written = [];
}

abbrev pub summary : ℕ → ℕ → ProbeEntry → ProbeSummary
summary window now e =
    let elapsed = now - e.start in
    record {
      source_ip = e.ip;
      window_seconds = (if ltb window elapsed then window else elapsed) / 1_000_000_000;
      sessions = e.sessions;
      protocols = e.protos;
    }

unfoldable pub emit : ℕ → ProbeEntry → ℕ → ProbeLog → ProbeLog
emit i e now p = record p {
  entries = Fifo.remove e.ip i p.entries;
  written = summary p.window now e ∷ p.written;
}

-- `m[protocol]++`
unfoldable pub count_up : Bytes → List (Bytes × ℕ) → List (Bytes × ℕ)
count_up protocol m = elim (lookup protocol m) [
  | none ↦ insert protocol 1 m
  | some n ↦ insert protocol (n + 1) m
]

abbrev pub counted : Bytes → ProbeEntry → ProbeEntry
counted protocol e = record e { sessions = e.sessions + 1; protos = count_up protocol e.protos }

-- the source's element if its window still runs; one whose window is over is written out
unfoldable pub running : Bytes → ℕ → ProbeLog → ProbeLog × Option (ℕ × ProbeEntry)
unfolding emit
running ip now p = elim (Fifo.find ip p.entries) [
  | none ↦ (p, none)
  | some (i, e) ↦ if leb (e.start + p.window) now then (emit i e now p, none) else (p, some (i, e))
]

-- the oldest entry of a full log is written out
unfoldable pub with_room : ℕ → ProbeLog → ProbeLog
unfolding emit
with_room now p =
    if leb p.max_entries (Fifo.size p.entries)
    then elim (Fifo.front p.entries) [ none ↦ p | some (i, e) ↦ emit i e now p ]
    else p

abbrev pub new_entry : Bytes → ℕ → ProbeEntry
new_entry ip now = record { ip = ip; start = now; sessions = 0; protos = [] }

unfoldable pub entry_for :
    Bytes → ℕ → Option (ℕ × ProbeEntry) → ProbeLog → ProbeLog × ℕ × ProbeEntry
unfolding with_room
entry_for ip now (some (i, e)) p = (p, i, e)
entry_for ip now none p =
    let p' = with_room now p in
    let e = new_entry ip now in
    (record p' { entries = Fifo.push_back ip e p'.entries }, p'.entries.next, e)

-- `Record` for the normalized source, with the log open
unfoldable pub record_for : Bytes → Bytes → ℕ → ProbeLog → ProbeLog
unfolding running entry_for count_up
record_for ip protocol now p =
    let (p₁, found) = running ip now p in
    let (p₂, i, e) = entry_for ip now found p₁ in
    record p₂ { entries = Fifo.assign i (counted protocol e) p₂.entries }

module _ (net : Netip) where
  open net use {parse_addr, unmap, to_string}

  -- the key of a source: plain and mapped forms of an address share one
  unfoldable pub probe_key : Bytes → Bytes
  probe_key raw_ip = elim (parse_addr raw_ip) [ none ↦ raw_ip | some addr ↦ to_string (unmap addr) ]

  -- `Record`
  unfoldable pub record_probe : Bytes → Bytes → ℕ → ProbeLog → ProbeLog × Bool
  unfolding record_for probe_key
  record_probe raw_ip protocol now p =
      if p.closed then (p, false) else (record_for (probe_key raw_ip) protocol now p, true)

-- the loop of `flushDue`, on fuel
unfoldable pub flush_due_from : ℕ → ℕ → ProbeLog → ProbeLog
unfolding emit
flush_due_from zero now p = p
flush_due_from (suc fuel) now p = elim (Fifo.front p.entries) [
  | none ↦ p
  | some (i, e) ↦ elim (ltb now (e.start + p.window)) [
    | true ↦ p
    | false ↦ flush_due_from fuel now (emit i e now p)
  ]
]

abbrev pub flush_due : ℕ → ProbeLog → ProbeLog
flush_due now p = flush_due_from (Fifo.size p.entries) now p

-- the loop of `flushAll`, on fuel
unfoldable pub flush_all_from : ℕ → ℕ → ProbeLog → ProbeLog
unfolding emit
flush_all_from zero now p = p
flush_all_from (suc fuel) now p = elim (Fifo.front p.entries) [
  | none ↦ p
  | some (i, e) ↦ flush_all_from fuel now (emit i e now p)
]

abbrev pub flush_all : ℕ → ProbeLog → ProbeLog
flush_all now p = flush_all_from (Fifo.size p.entries) now p

unfoldable pub close_and_flush : ℕ → ProbeLog → ProbeLog
unfolding flush_all_from
close_and_flush now p = flush_all now (record p { closed = true })
