-- ===== src/Trap/Session/Report.antt =====
-- What a session reports to the sensor of internal/alert: a flood of commands makes one event.
use ran.Alert.Class.{Class, attack, classify, rank, max_class, max_class_upper, SessionInfo}
use ran.Alert.Meta.{Meta}
use ran.Alert.Netip.{Netip}
use ran.Alert.Sensor.{Sensor, Event, classify_session, ignored, touch_scan}
use ran.Alert.Sensor as Sensors
use ran.Base.{
  ℕ, ◌+◌, ◌≤◌, ◌<◌, ◌==◌, false, not, Option, none, some, List, [], ◌∷◌, ◌++◌, Bytes, codes, length,
  length-append, ltb, if◌then◌else◌, ◌≡◌, refl, arith, ◌⊎◌, inl, inr, Bool-cases,
}
use ran.Text.{Unicode}
use ran.Trap.Redact.{PasswordMode, Attr}
use ran.Trap.Session.{
  Reporter, Session, alert_with, info, flush_connect, log_command, alert_command, command_name, say,
}
use ran.Trap.Session.Order.{Op, command, report_command, perform, run}

-- The clock gives a reading for each call of the sensor, in order.
module _ (net : Netip) (clock : ℕ → ℕ) where
  -- the sensor as a reporter, with the events that it has submitted, and how often it was called
  abbrev pub sensor_reporter : Reporter
  sensor_reporter = record {
    State = Sensor net × List Event × ℕ;
    alert = λ info meta st.
        let (s, out, class) = Sensors.alert net info meta (clock st.2) st.0 in
        ((s, st.1 ++ out, st.2 + 1), class);
    session_end = λ info st.
        let (s, out, done) = Sensors.session_end net info (clock st.2) st.0 in
        ((s, st.1 ++ out, st.2 + 1), done);
    ignored = λ st ip. ignored net st.0 ip;
  }

  -- a client that sends these lines, each logged and reported
  abbrev pub flood : List (Bytes × List Attr) → List Op
  flood [] = []
  flood ((line, attrs) ∷ lines) = command line attrs ∷ report_command line ∷ flood lines

  abbrev pub events_of : Option (Sensor net × List Event × ℕ) → ℕ
  events_of none = 0
  events_of (some st) = length st.1

  -- An alert submits an event with a class of attack or more, or nothing.
  IsOne : Sensor net × List Event × Class → Type 0
  IsOne (s, out, class) = (length out ≡ 0) ⊎ ((length out ≡ 1) × (2 ≤ rank class))

  alert-IsOne :
      (i : SessionInfo) (meta : Meta) (now : ℕ) (s : Sensor net)
      → 0 < i.commands
      → IsOne (Sensors.alert net i meta now s)
  unfolding IsOne Sensors.alert classify_session classify rank
  alert-IsOne i meta now s active = elim (Bool-cases (not (Sensors.is_tcp i.transport))) [
    | inl udp ↦ rw udp (inl refl)
    | inr tcp ↦ rw tcp (elim (Bool-cases (ignored net s i.source_ip)) [
      | inl skipped ↦ rw skipped (inl refl)
      | inr seen ↦ rw seen (elim (Bool-cases (touch_scan net i now s).1) [
        | inl hit ↦ rw hit (inr (refl, omega arith))
        | inr miss ↦ rw miss (inr (refl, ground (arith, active)))
      ])
    ])
  ]

  abbrev one_if : Class → ℕ
  one_if class = if ltb (rank class) 2 then 1 else 0

  below : (a b : Class) → rank a < 2 → one_if (max_class a b) ≤ one_if a
  below a b h = ground arith

  reached : (a b : Class) → 2 ≤ rank b → one_if (max_class a b) ≡ 0
  reached a b h = ground (arith, max_class_upper a b)

  to_report : (a : Class) → rank a < 2 → one_if a ≡ 1
  to_report a h = ground arith

  abbrev Watched : Type 0
  Watched = Session sensor_reporter

  -- an event for each session that is still to be reported
  abbrev to_come : Watched → ℕ
  to_come s = one_if s.alerted_class

  -- the events of a session so far, and the one to come
  abbrev pub budget : Watched → ℕ
  budget s = events_of s.sensor + to_come s

  alert_with-budget :
      (meta : Meta) (sensor : Option (Sensor net × List Event × ℕ)) (s : Watched)
      → s.sensor ≡ sensor
      → 0 < s.commands
      → rank s.alerted_class < 2
      → budget (alert_with sensor_reporter meta sensor s) ≤ budget s
  unfolding alert_with IsOne info
  alert_with-budget meta none s e active fresh = omega arith
  alert_with-budget meta (some (st, evs, calls)) s e active fresh = rw e (
      by_case (Sensors.alert net (info sensor_reporter s) meta (clock calls) st)
        (alert-IsOne (info sensor_reporter s) meta (clock calls) st active))
    where
      by_case :
          (r : Sensor net × List Event × Class)
          → IsOne r
          → length (evs ++ r.1) + one_if (max_class s.alerted_class r.2) ≤ length evs + to_come s
      by_case (st', out, class) (inl nothing) =
          omega (arith, length-append evs out, nothing, below s.alerted_class class fresh)
      by_case (st', out, class) (inr (one, high)) = omega (
        arith,
        length-append evs out,
        one,
        reached s.alerted_class class high,
        to_report s.alerted_class fresh,
      )

  alert_command-budget :
      (line : Bytes) (s : Watched)
      → 0 < s.commands
      → budget (alert_command sensor_reporter line s) ≤ budget s
  unfolding alert_command max_class rank
  alert_command-budget line s active =
      elim (Bool-cases (rank (max_class s.alerted_class attack) == rank s.alerted_class)) [
        | inl reported ↦ rw reported (omega arith)
        | inr new ↦ rw new (
            alert_with-budget ((codes "command", command_name line) ∷ []) s.sensor s refl active
              (unreported s.alerted_class new))
      ]
    where
      unreported : (c : Class) → (rank (max_class c attack) == rank c) ≡ false → rank c < 2
      unreported Class.unset h = omega arith
      unreported Class.probe h = omega arith
      unreported Class.attack h = absurd (ground arith)
      unreported Class.scan h = absurd (ground arith)

  log_command-budget :
      (unicode : Unicode) (mode : PasswordMode) (line : Bytes) (attrs : List Attr) (s : Watched)
      → (budget (log_command sensor_reporter unicode mode line attrs s) ≡ budget s)
        × (0 < (log_command sensor_reporter unicode mode line attrs s).commands)
  unfolding log_command say flush_connect
  log_command-budget unicode mode line attrs s = elim (Bool-cases s.connect_pending) [
    | inl held ↦ rw held (refl, omega arith)
    | inr begun ↦ rw begun (refl, omega arith)
  ]

  -- For any readings of the clock, any password log mode, any session that reports to the sensor, and any sequence of command
  -- lines, each logged and reported: the number of events submitted, plus one if the session was not
  -- yet reported as attack or scan, does not grow. So they submit one event at most, and none if the
  -- session was reported so before.
  pub flood-budget :
      (unicode : Unicode) (mode : PasswordMode) (lines : List (Bytes × List Attr)) (s : Watched)
      → budget (run sensor_reporter unicode mode (flood lines) s) ≤ budget s
  unfolding run perform
  flood-budget unicode mode [] s = omega arith
  flood-budget unicode mode ((line, attrs) ∷ lines) s =
      let logged = log_command sensor_reporter unicode mode line attrs s in
      let (same, active) = log_command-budget unicode mode line attrs s in
      omega (
        arith,
        same,
        alert_command-budget line logged active,
        flood-budget unicode mode lines (alert_command sensor_reporter line logged),
      )
