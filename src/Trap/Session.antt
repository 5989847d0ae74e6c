-- ===== src/Trap/Session.antt =====
-- internal/trap/trap.go: the session of a connection, with its log lines, its counters and what it
-- reports to the sensor. The sensor is the interface `Reporter`. The attributes that `With` adds to
-- each line are the session's own fields; only `ignored` is kept with the line. Sizes are not
-- negative.
mod Measure
pub mod Order
pub mod Counters
pub mod Secrets
pub mod Report
use ran.Alert.Class.{Class, unset, attack, SessionInfo, Transport, max_class, rank}
use ran.Alert.Meta.{Meta}
use ran.Alert.Sensor.{is_tcp}
use ran.Base.{
  ℕ, zero, suc, ◌+◌, ◌-◌, ◌/◌, ◌^◌, min, max, Bool, true, false, not, ◌&&◌, ◌||◌, Option, none,
  some, List, [], ◌∷◌, ◌++◌, Bytes, codes, length, take, drop, ltb, leb, ◌==◌, bytes_eq,
  if◌then◌else◌,
}
use ran.Text.{Unicode, trim_space}
unfoldable pub use Measure.{string_bytes, saturated, first_word, rune_start, command_name}
pub use Measure.*
use ran.Trap.Redact.{PasswordMode, Value, string, int, Attr, to_string, auth_attrs, redact_command}

-- `Reporter`, with `ignoreChecker`
pub record Reporter : Type 1 where
  pub State : Type 0
  pub alert : SessionInfo → Meta → State → State × Class
  pub session_end : SessionInfo → State → State × Bool
  pub ignored : State → Bytes → Bool

-- a log line: the attribute `action`, the message and the other attributes
pub record Line : Type 0 where
  pub action : Bytes
  pub msg : Bytes
  pub attrs : List Attr
  pub ignored : Bool

-- an error of an I/O operation: a network timeout, `bufio.ErrTooLong`, or another one
pub data IoError : Type 0 where
  timed_out too_long failed : IoError

-- neither a timeout nor `bufio.ErrTooLong`
abbrev pub is_other : Option IoError → Bool
is_other none = true
is_other (some failed) = true
is_other (some timed_out) = false
is_other (some too_long) = false

module _ (rep : Reporter) where
  open rep use {State}

  pub record Session : Type 0 where
    pub protocol : Bytes
    pub transport : Transport
    pub source_ip : Bytes
    pub dest_port : ℕ
    pub start : ℕ
    pub outcome : Bytes
    pub sensor : Option State
    pub auth_attempts : ℕ
    pub commands : ℕ
    pub payloads : ℕ
    pub payload_bytes : ℕ
    pub alerted_class : Class
    pub connect_pending : Bool
    pub ignored : Bool
    -- what was logged, and the credentials that were counted
    pub log : List Line
    pub credentials : ℕ

  unfoldable pub new_session : Bytes → Transport → Bytes → ℕ → ℕ → Session
  new_session protocol transport source_ip dest_port now = record {
    protocol = protocol;
    transport = transport;
    source_ip = source_ip;
    dest_port = dest_port;
    start = now;
    outcome = codes "completed";
    sensor = none;
    auth_attempts = 0;
    commands = 0;
    payloads = 0;
    payload_bytes = 0;
    alerted_class = unset;
    connect_pending = false;
    ignored = false;
    log = [];
    credentials = 0;
  }

  -- `UseSensor` and `markIgnored`
  unfoldable pub use_sensor : State → Session → Session
  use_sensor r s = record s {
    sensor = some r;
    ignored = if rep.ignored r s.source_ip then true else s.ignored;
  }

  unfoldable pub info : Session → SessionInfo
  info s = record {
    source_ip = s.source_ip;
    protocol = s.protocol;
    transport = s.transport;
    dest_port = s.dest_port;
    auth_attempts = s.auth_attempts;
    commands = s.commands;
    payload_bytes = s.payload_bytes;
    alerted_class = s.alerted_class;
  }

  -- `Alert` with the session's sensor
  unfoldable pub alert_with : Meta → Option State → Session → Session
  alert_with meta none s = s
  alert_with meta (some r) s =
      let (r', class) = rep.alert (info s) meta r in
      record s { sensor = some r'; alerted_class = max_class s.alerted_class class }

  abbrev pub alert : Meta → Session → Session
  alert meta s = alert_with meta s.sensor s

  unfoldable pub say : Bytes → Bytes → List Attr → Session → Session
  say action msg attrs s = record s {
    log = s.log ++ record { action = action; msg = msg; attrs = attrs; ignored = s.ignored } ∷ [];
  }

  abbrev pub connect_line : Session → Session
  connect_line s = say (codes "connect") (codes "session started") [] s

  abbrev pub is_watched : Session → Bool
  is_watched s = elim s.sensor [ none ↦ false | some r ↦ is_tcp s.transport ]

  unfoldable pub log_connect : Session → Session
  log_connect s = if is_watched s then record s { connect_pending = true } else connect_line s

  unfoldable pub flush_connect : Session → Session
  flush_connect s =
      if s.connect_pending then connect_line (record s { connect_pending = false }) else s

  unfoldable pub log_auth_attempt : PasswordMode → List Attr → Session → Session
  log_auth_attempt mode attrs s =
      let s' = flush_connect (record s { auth_attempts = s.auth_attempts + 1 }) in
      say (codes "auth_attempt") (codes "credentials captured") (auth_attrs mode attrs) s'

  unfoldable pub log_command : Unicode → PasswordMode → Bytes → List Attr → Session → Session
  log_command unicode mode command attrs s =
      let s' = flush_connect (record s { commands = s.commands + 1 }) in
      say (codes "command") (codes "command received")
        ((codes "command", string (redact_command unicode mode command)) ∷ attrs) s'

  -- `Log`
  unfoldable pub log_event : Bytes → List Attr → Session → Session
  log_event msg attrs s = say (codes "probe") msg attrs (flush_connect s)

  unfoldable pub log_payload_size : Bytes → ℕ → List Attr → Session → Session
  log_payload_size payload_type size attrs s =
      let s' =
        flush_connect (record s {
          payloads = s.payloads + 1;
          payload_bytes = saturated s.payload_bytes size;
        }) in
      say (codes "payload") (codes "payload received")
        ((codes "payload_type", string payload_type) ∷ attrs) s'

  abbrev pub log_payload : Bytes → List Attr → Session → Session
  log_payload payload_type attrs s = log_payload_size payload_type (string_bytes attrs) attrs s

  -- `LogError`, which leaves a connect line that is held back
  unfoldable pub log_error : Bytes → Bytes → Session → Session
  log_error error_type err s =
      say (codes "error") (codes "internal error")
        ((codes "error_type", string error_type) ∷ (codes "error", string err) ∷ []) s

  -- the line of `LogDisconnect`
  unfoldable pub disconnect_line : ℕ → Session → Session
  disconnect_line now s =
      say (codes "disconnect") (codes "session ended")
        ((codes "outcome", string s.outcome)
          ∷ (codes "duration_ms", int ((now - s.start) / 1_000_000))
          ∷ (codes "auth_attempts", int s.auth_attempts)
          ∷ (codes "commands", int s.commands)
          ∷ (codes "payloads", int s.payloads)
          ∷ [])
        (flush_connect s)

  -- `LogDisconnect` with the session's sensor, and whether the sensor summarizes the session
  unfoldable pub end_with : ℕ → Option State → Session → Session × Bool
  end_with now none s = (disconnect_line now s, false)
  end_with now (some r) s =
      if is_tcp s.transport
      then (let (r', aggregated) = rep.session_end (info s) r in
          let s' = record s { sensor = some r' } in
          if aggregated then (s', true) else (disconnect_line now s', false))
      else (disconnect_line now s, false)

  abbrev pub log_disconnect : ℕ → Session → Session × Bool
  log_disconnect now s = end_with now s.sensor s

  -- `AlertCommand`
  unfoldable pub alert_command : Bytes → Session → Session
  alert_command line s =
      if rank (max_class s.alerted_class attack) == rank s.alerted_class
      then s
      else alert ((codes "command", command_name line) ∷ []) s

  unfoldable pub cred : PasswordMode → Bytes → Bytes → List Attr → Session → Session
  cred mode username password extra s =
      let attrs =
        (codes "username", string username) ∷ (codes "password", string password) ∷ extra in
      let s' = log_auth_attempt mode attrs s in
      alert ((codes "username", username) ∷ (codes "password", password) ∷ [])
        (record s' { credentials = s'.credentials + 1 })

  -- `SetOutcome`
  unfoldable pub with_outcome : Bytes → Session → Session
  with_outcome outcome s = record s { outcome = outcome }

  -- `setOutcome`
  unfoldable pub set_outcome : Option IoError → Session → Session
  set_outcome none s = s
  set_outcome (some timed_out) s = record s { outcome = codes "timeout" }
  set_outcome (some too_long) s = record s { outcome = codes "too_long" }
  set_outcome (some failed) s = record s { outcome = codes "error" }

  unfoldable pub set_read_outcome : Option IoError → Session → Session
  set_read_outcome err s = if is_other err && ltb 0 s.auth_attempts then s else set_outcome err s
