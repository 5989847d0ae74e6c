-- ===== src/Alert/Sensor.antt =====
-- internal/alert/sensor.go: the sensor classifies sessions and hands events to the sink. The
-- events that the sink receives are returned; the shun table of the sink is `gate`.
pub mod Rules
use ran.Alert.Class.{
  Class, unset, probe, attack, scan, rank, classify, SessionInfo, Transport, tcp, udp,
}
use ran.Alert.Netip.{Netip, matches_prefixes, parse_bannable_ip}
use ran.Alert.Offenders.Operations.{is_probe}
use ran.Alert.Offenders.Operations as Operations
use ran.Alert.Offenders.Entry.{ShunSummary}
use ran.Alert.Offenders.Table.{OffenderTable}
use ran.Alert.Probes.{ProbeLog, record_probe}
use ran.Alert.Scan.{ScanTracker, touch_port}
use ran.Base.{
  ℕ, Bool, true, false, not, ◌&&◌, ◌||◌, Option, none, some, List, [], ◌∷◌, Bytes, ltb,
  if◌then◌else◌,
}

pub record Event : Type 0 where
  pub class : Class
  pub info : SessionInfo
  pub meta : List (Bytes × Bytes)

abbrev pub is_tcp : Transport → Bool
is_tcp tcp = true
is_tcp udp = false

module _ (net : Netip) where
  open net use {Prefix, to_string}

  pub record Sensor : Type 0 where
    pub scan : ScanTracker
    pub probes : ProbeLog
    pub ignore : List Prefix
    pub non_global : List Prefix
    pub gate : Option OffenderTable

  unfoldable pub ignored : Sensor → Bytes → Bool
  ignored s ip = matches_prefixes net s.ignore ip

  unfoldable pub touch_scan : SessionInfo → ℕ → Sensor → Sensor × Bool
  touch_scan info now s =
      if not (is_tcp info.transport) || ignored s info.source_ip
      then (s, false)
      else elim (parse_bannable_ip net s.non_global info.source_ip) [
        | none ↦ (s, false)
        | some addr ↦
            let (t, hit) = touch_port (to_string addr) info.protocol info.dest_port now s.scan in
            (record s { scan = t }, hit)
      ]

  unfoldable pub classify_session : SessionInfo → ℕ → Sensor → Sensor × Class
  classify_session info now s =
      let (s', hit) = touch_scan info now s in (s', if hit then Class.scan else classify info)

  -- `Alert`: the sensor, the events submitted, and the class
  unfoldable pub alert :
      SessionInfo → List (Bytes × Bytes) → ℕ → Sensor → Sensor × List Event × Class
  alert info meta now s =
      if not (is_tcp info.transport)
      then (s, [], unset)
      else if ignored s info.source_ip
      then (s, [], unset)
      else (let (s', class) = classify_session info now s in
          (s', record { class = class; info = info; meta = meta } ∷ [], class))

  -- `SessionEnd`: the sensor, the events submitted, and whether the log line was aggregated
  unfoldable pub session_end : SessionInfo → ℕ → Sensor → Sensor × List Event × Bool
  session_end info now s =
      if not (is_tcp info.transport) || ignored s info.source_ip
      then (s, [], false)
      else (let (s', class) = classify_session info now s in
          let events =
            (if ltb (rank info.alerted_class) (rank class)
              then record { class = class; info = info; meta = [] } ∷ []
              else []) in
          if is_probe (classify info) && ltb 0 s'.probes.window
          then (let (p, done) = record_probe net info.source_ip info.protocol now s'.probes in
              (record s' { probes = p }, events, done))
          else (s', events, false))

  -- `Shunned`: the sensor, the summaries to log, and the answer
  unfoldable pub shunned : Bytes → ℕ → Sensor → Sensor × List ShunSummary × Bool
  shunned ip now s = elim s.gate [
    | none ↦ (s, [], false)
    | some t ↦
        if not t.shun || ignored s ip
        then (s, [], false)
        else (let (t', sums, hit) = Operations.shunned net ip now t in
            (record s { gate = some t' }, sums, hit))
  ]
