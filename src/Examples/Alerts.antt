-- ===== src/Examples/Alerts.antt =====
-- The sensor and the alerter on the tables of the other examples.
use ran.Alert.Class.{unset, attack, rank, SessionInfo, tcp}
use ran.Alert.Pipeline.{Alerter, AlertMsg}
use ran.Alert.Pipeline.Rules as PipelineRules
use ran.Alert.Scan.Entry as ScanEntry
use ran.Alert.Sensor.{Event, Sensor, session_end, ignored}
use ran.Alert.Sensor.Rules as SensorRules
use ran.Base.{
  ◌<◌, true, false, none, some, [], ◌∷◌, codes, lookup, bytes_Eq, nat_eq, All, ◌≡◌, refl, arith,
}
use ran.Examples.{net, visitor, other}
use ran.Examples.Tables.{cool, cool-IsValid, table, table-IsValid, tracker, probes}

abbrev pub session : SessionInfo
session = record {
  source_ip = visitor;
  protocol = codes "ssh";
  transport = tcp;
  dest_port = 22;
  auth_attempts = 1;
  commands = 0;
  payload_bytes = 0;
  alerted_class = unset;
}

abbrev pub event : Event
event = record { class = attack; info = session; meta = [] }

abbrev pub alerter : Alerter net
alerter = record {
  cooldown = cool;
  offenders = table;
  queue = [];
  capacity = 1;
  closed = false;
  ban_on = λ c. true;
  non_global = other ∷ [];
}

pub alerter-IsValid : PipelineRules.IsValid net alerter
alerter-IsValid = record {
  cooldown_valid = cool-IsValid;
  offenders_valid = table-IsValid;
  queue_bounded = omega arith;
}

abbrev pub message : AlertMsg
message = record {
  ip = visitor;
  protocol = codes "ssh";
  class = attack;
  meta = [];
  cooldown_key = codes "9.8.7.6|attack";
  slot = 1;
  mark = some (record { key = visitor; idx = 1; win = 1 });
}

abbrev pub station : Sensor net
station = record {
  scan = tracker;
  probes = probes;
  ignore = other ∷ [];
  non_global = [];
  gate = some table;
}

session_end-escalates_example :
    All
      (λ (e : Event).
        (session.transport ≡ tcp)
        × (ignored net station visitor ≡ false)
        × (e.info ≡ session)
        × (rank unset < rank e.class))
      (session_end net session 10 station).1
session_end-escalates_example = SensorRules.session_end-escalates net session 10 station

abbrev full : ScanEntry.ScanEntry
full = record {
  ip = visitor;
  last = 5;
  touched = [];
  ports =
      (1, 5)
      ∷ (2, 5)
      ∷ (3, 5)
      ∷ (4, 5)
      ∷ (5, 5)
      ∷ (6, 5)
      ∷ (7, 5)
      ∷ (8, 5)
      ∷ (9, 5)
      ∷ (10, 5)
      ∷ (11, 5)
      ∷ (12, 5)
      ∷ (13, 5)
      ∷ (14, 5)
      ∷ (15, 5)
      ∷ (16, 5)
      ∷ [];
}

port_unrecorded : lookup 17 (ScanEntry.touch_entry 60 (codes "ssh") 17 10 full).ports ≡ none
unfolding lookup ScanEntry.touch_entry
port_unrecorded = refl

touch_entry-skipped_example :
    ScanEntry.verdict 3 10 (ScanEntry.touch_entry 60 (codes "ssh") 17 10 full) ≡ true
touch_entry-skipped_example =
    ScanEntry.touch_entry-skipped 60 (codes "ssh") 17 10 3 10 full (omega arith) (omega arith)
      port_unrecorded
