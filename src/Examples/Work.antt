-- ===== src/Examples/Work.antt =====
-- The batch worker and the meta of an alert on concrete alerts.
use mathlib.Core.List.{Perm}
use ran.Alert.Class.{text}
use ran.Alert.Meta.{Meta, bound_meta, event_meta, is_sensor_key, max_meta_keys}
use ran.Alert.Meta.Bounds as MetaBounds
use ran.Alert.Meta.Count as Count
use ran.Alert.Meta.Spoof as Spoof
use ran.Alert.Sensor.{Event}
use ran.Alert.Worker.{Lapi, Pending, Worker, status}
use ran.Alert.Worker.Account as Account
use ran.Alert.Worker.Batch.{Config, Batch, collect, received, ticked, batch_worker, taken}
use ran.Alert.Worker.Batch as Batches
use ran.Base.{
  ℕ, suc, ◌≤◌, true, false, none, some, List, [], ◌∷◌, ◌++◌, codes, length, lookup, bytes_Eq, ltb,
  All, if◌then◌else◌, ◌≡◌, refl, arith, inl,
}
use ran.Examples.{net}
use ran.Examples.Alerts.{alerter, event, message}
use ran.Text.{Unicode}

-- An interface that is down for the first post and up from the second on.
abbrev lapi : Lapi
lapi = record {
  World = ℕ;
  now = λ w. w;
  drain_by = λ w. 0;
  marshal = λ t m. some (codes "{}");
  post = λ deadline body w. (suc w, status (if ltb 0 w then 200 else 503));
  login = λ deadline w. (suc w, true);
  pause = λ d w. (suc w, true);
}

abbrev cfg : Config
cfg = record { batch_size = 2; batch_interval = 10 }

abbrev events : List Batches.Event
events = received message ∷ ticked ∷ received message ∷ received message ∷ []

abbrev worker : Worker net lapi
worker = record {
  world = 0;
  alerter = alerter;
  warnings = record { last = none; suppressed = 0; logged = [] };
  abandon = false;
  final_tried = false;
  sent = [];
  failed = [];
}

batch_worker-Perm_example :
    Perm
      ((batch_worker net lapi cfg events worker).sent
        ++ (batch_worker net lapi cfg events worker).failed)
      (([] ++ []) ++ taken events)
batch_worker-Perm_example = Account.batch_worker-Perm net lapi cfg events worker

abbrev pending : Pending
pending = record { msg = message; raw = some (codes "{}") }

abbrev tables : Unicode
tables = record { to_upper = λ r. r; to_lower = λ r. r; fold = λ r. r; is_format = λ r. false }

abbrev spoof : Meta
spoof = (codes "class", codes "probe") ∷ (codes "user", codes "root") ∷ []

bound_meta-IsBounded_example :
    (length (bound_meta tables spoof) ≤ max_meta_keys)
    × All MetaBounds.IsBounded (bound_meta tables spoof)
bound_meta-IsBounded_example = Count.bound_meta-IsBounded tables spoof

abbrev spoofed : Event
spoofed = record event { meta = spoof }

event_meta-lookup_example :
    lookup (codes "class") (event_meta tables spoofed)
    ≡ Spoof.cleaned tables (some (text spoofed.class))
unfolding is_sensor_key lookup
event_meta-lookup_example = Spoof.event_meta-lookup tables spoofed (codes "class") refl

-- A key that is a secret only once it is sanitized is kept by the first run of `boundMeta`, and
-- dropped by the second.
abbrev hidden_secret : Meta
hidden_secret = (112 ∷ 97 ∷ 115 ∷ 115 ∷ 1 ∷ [], codes "x") ∷ []

bound_once : bound_meta tables hidden_secret ≡ (codes "pass ", codes "x") ∷ []
unfolding bound_meta ran.Alert.Meta.add_keys ran.Alert.Meta.sort_out is_sensor_key
    ran.Alert.Meta.is_dropped ran.Alert.Meta.is_secret_key ran.Text.lower ran.Text.map_runes
    ran.Text.chunks_from ran.Text.trim_space ran.Text.raw_of ran.Text.trim_left ran.Text.trim_right
    ran.Text.decode ran.Text.is_space ran.Text.encode ran.Alert.Meta.insert_sorted
    ran.Alert.Meta.add_key ran.Alert.Meta.before ran.Alert.Meta.clean ran.Alert.Meta.sanitize_from
    ran.Alert.Meta.sanitize_meta ran.Base.insert lookup ran.Text.is_control
bound_once = refl

bound_twice : bound_meta tables (bound_meta tables hidden_secret) ≡ []
unfolding bound_meta ran.Alert.Meta.add_keys ran.Alert.Meta.sort_out is_sensor_key
    ran.Alert.Meta.is_dropped ran.Alert.Meta.is_secret_key ran.Text.lower ran.Text.map_runes
    ran.Text.chunks_from ran.Text.trim_space ran.Text.raw_of ran.Text.trim_left ran.Text.trim_right
    ran.Text.decode ran.Text.is_space ran.Text.encode ran.Alert.Meta.insert_sorted
    ran.Alert.Meta.add_key ran.Alert.Meta.before ran.Alert.Meta.clean ran.Alert.Meta.sanitize_from
    ran.Alert.Meta.sanitize_meta ran.Base.insert lookup ran.Text.is_control
bound_twice = refl
