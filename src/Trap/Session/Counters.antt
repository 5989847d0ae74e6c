-- ===== src/Trap/Session/Counters.antt =====
-- The counters of a session, and the class that they give it.
use ran.Alert.Class.{attack, classify, rank, max_class}
use ran.Alert.Meta.{Meta}
use ran.Base.{
  ℕ, ◌+◌, ◌≤◌, ◌==◌, min, max, Bool, false, ◌||◌, ◌&&◌, Option, none, some, List, [], ◌∷◌, ltb,
  codes, if◌then◌else◌, ◌≡◌, refl, ◌∙◌, arith, inl, inr, Bool-cases,
}
use ran.Text.{Unicode}
use ran.Trap.Redact.{PasswordMode, Attr, string}
use ran.Trap.Session.{
  Reporter, IoError, Session, alert, alert_with, say, info, flush_connect, string_bytes, saturated,
  max_payload_bytes, log_auth_attempt, log_command, log_event, log_payload_size, alert_command,
  command_name, cred, log_error, with_outcome, set_outcome, set_read_outcome, is_other,
}
use ran.Trap.Session.Order.{
  Op, auth_attempt, command, event, payload, payload_size, report, report_command, credentials,
  io_error, read_error, internal_error, ended_as, perform, run,
}

-- what an operation adds to the counters: attempts, commands and bytes of payload
abbrev pub attempts_of : Op → ℕ
attempts_of (auth_attempt attrs) = 1
attempts_of (credentials user password extra) = 1
attempts_of _ = 0

abbrev pub commands_of : Op → ℕ
commands_of (command line attrs) = 1
commands_of _ = 0

abbrev pub bytes_of : Op → ℕ
bytes_of (payload kind attrs) = max (string_bytes attrs) 1
bytes_of (payload_size kind n attrs) = max n 1
bytes_of _ = 0

abbrev pub total : (Op → ℕ) → List Op → ℕ
total f [] = 0
total f (op ∷ ops) = f op + total f ops

-- The counter of payload bytes, as one that saturates.
saturated_lem :
    (bytes size : ℕ)
    → bytes ≤ max_payload_bytes
    → saturated bytes size ≡ min (bytes + max size 1) max_payload_bytes
unfolding saturated
saturated_lem bytes size h = ground (arith, h)

module _ (rep : Reporter) where
  -- A session with these counts.
  abbrev pub Counts : ℕ → ℕ → ℕ → Session rep → Type 0
  Counts attempts commands bytes s =
      (s.auth_attempts ≡ attempts) × (s.commands ≡ commands) × (s.payload_bytes ≡ bytes)

  -- Two sessions with equal counters.
  abbrev pub Same : Session rep → Session rep → Type 0
  Same s t =
      (s.auth_attempts ≡ t.auth_attempts)
      × (s.commands ≡ t.commands)
      × (s.payload_bytes ≡ t.payload_bytes)

  Counts-of :
      {attempts commands bytes : ℕ} (s t : Session rep)
      → Same s t
      → t.auth_attempts ≡ attempts
      → t.commands ≡ commands
      → t.payload_bytes ≡ bytes
      → Counts attempts commands bytes s
  Counts-of s t (a, c, b) e f g = (a ∙ e, c ∙ f, b ∙ g)

  kept-Counts :
      (s t : Session rep)
      → Same s t
      → t.payload_bytes ≤ max_payload_bytes
      → Counts
          (t.auth_attempts + 0)
          (t.commands + 0)
          (min (t.payload_bytes + 0) max_payload_bytes)
          s
  kept-Counts s t same h = Counts-of s t same (omega arith) (omega arith) (omega (arith, h))

  pub flush_connect-Same : (s : Session rep) → Same (flush_connect rep s) s
  unfolding flush_connect say
  flush_connect-Same s = elim (Bool-cases s.connect_pending) [
    | inl held ↦ rw held (refl, refl, refl)
    | inr begun ↦ rw begun (refl, refl, refl)
  ]

  flush_connect-Counts :
      {attempts commands bytes : ℕ} (t : Session rep)
      → t.auth_attempts ≡ attempts
      → t.commands ≡ commands
      → t.payload_bytes ≡ bytes
      → Counts attempts commands bytes (flush_connect rep t)
  flush_connect-Counts t e f g = Counts-of (flush_connect rep t) t (flush_connect-Same t) e f g

  alert-Same : (meta : Meta) (s : Session rep) → Same (alert rep meta s) s
  unfolding alert_with
  alert-Same meta s = alert_with-Same s.sensor
    where
      alert_with-Same : (sensor : Option rep.State) → Same (alert_with rep meta sensor s) s
      alert_with-Same none = (refl, refl, refl)
      alert_with-Same (some r) = (refl, refl, refl)

  set_outcome-Same : (err : Option IoError) (s : Session rep) → Same (set_outcome rep err s) s
  unfolding set_outcome
  set_outcome-Same none s = (refl, refl, refl)
  set_outcome-Same (some IoError.timed_out) s = (refl, refl, refl)
  set_outcome-Same (some IoError.too_long) s = (refl, refl, refl)
  set_outcome-Same (some IoError.failed) s = (refl, refl, refl)

  module _ (unicode : Unicode) (mode : PasswordMode) where
    auth-Counts :
        (attrs : List Attr) (s : Session rep)
        → s.payload_bytes ≤ max_payload_bytes
        → Counts
            (s.auth_attempts + 1)
            (s.commands + 0)
            (min (s.payload_bytes + 0) max_payload_bytes)
            (log_auth_attempt rep mode attrs s)
    unfolding log_auth_attempt say
    auth-Counts attrs s h =
        flush_connect-Counts (record s { auth_attempts = s.auth_attempts + 1 }) refl (omega arith)
          (omega (arith, h))

    perform-Counts :
        (op : Op) (s : Session rep)
        → s.payload_bytes ≤ max_payload_bytes
        → Counts
            (s.auth_attempts + attempts_of op)
            (s.commands + commands_of op)
            (min (s.payload_bytes + bytes_of op) max_payload_bytes)
            (perform rep unicode mode op s)
    unfolding perform log_auth_attempt log_command log_event log_payload_size alert_command cred
        set_read_outcome log_error with_outcome say
    perform-Counts (auth_attempt attrs) s h = auth-Counts attrs s h
    perform-Counts (command line attrs) s h =
        flush_connect-Counts (record s { commands = s.commands + 1 }) (omega arith) refl
          (omega (arith, h))
    perform-Counts (event msg attrs) s h =
        flush_connect-Counts s (omega arith) (omega arith) (omega (arith, h))
    perform-Counts (payload kind attrs) s h =
        flush_connect-Counts
          (record s {
            payloads = s.payloads + 1;
            payload_bytes = saturated s.payload_bytes (string_bytes attrs);
          })
          (omega arith) (omega arith) (saturated_lem s.payload_bytes (string_bytes attrs) h)
    perform-Counts (payload_size kind n attrs) s h =
        flush_connect-Counts
          (record s { payloads = s.payloads + 1; payload_bytes = saturated s.payload_bytes n })
          (omega arith) (omega arith) (saturated_lem s.payload_bytes n h)
    perform-Counts (report meta) s h = kept-Counts (alert rep meta s) s (alert-Same meta s) h
    perform-Counts (report_command line) s h =
        elim (Bool-cases (rank (max_class s.alerted_class attack) == rank s.alerted_class)) [
          | inl reported ↦ rw reported (kept-Counts s s (refl, refl, refl) h)
          | inr new ↦ rw new (
              kept-Counts (alert rep ((codes "command", command_name line) ∷ []) s) s
                (alert-Same ((codes "command", command_name line) ∷ []) s) h)
        ]
    perform-Counts (credentials user password extra) s h =
        let said =
          log_auth_attempt rep mode
            ((codes "username", string user) ∷ (codes "password", string password) ∷ extra) s in
        let counted = record said { credentials = said.credentials + 1 } in
        let (a, c, b) =
          auth-Counts
            ((codes "username", string user) ∷ (codes "password", string password) ∷ extra) s h in
        Counts-of (cred rep mode user password extra s) counted
          (alert-Same ((codes "username", user) ∷ (codes "password", password) ∷ []) counted) a c b
    perform-Counts (io_error err) s h =
        kept-Counts (set_outcome rep err s) s (set_outcome-Same err s) h
    perform-Counts (read_error err) s h =
        elim (Bool-cases (is_other err && ltb 0 s.auth_attempts)) [
          | inl kept ↦ rw kept (kept-Counts s s (refl, refl, refl) h)
          | inr set ↦ rw set (kept-Counts (set_outcome rep err s) s (set_outcome-Same err s) h)
        ]
    perform-Counts (internal_error error_type err) s h =
        kept-Counts (log_error rep error_type err s) s (refl, refl, refl) h
    perform-Counts (ended_as outcome) s h =
        kept-Counts (with_outcome rep outcome s) s (refl, refl, refl) h

    -- For a session with at most 2^31 - 1 payload bytes, and any sequence of operations: the counters
    -- of attempts and commands grow by the numbers of those operations, and the payload bytes by the
    -- sizes received (at least 1 for each payload), held at 2^31 - 1.
    pub run-Counts :
        (ops : List Op) (s : Session rep)
        → s.payload_bytes ≤ max_payload_bytes
        → Counts
            (s.auth_attempts + total attempts_of ops)
            (s.commands + total commands_of ops)
            (min (s.payload_bytes + total bytes_of ops) max_payload_bytes)
            (run rep unicode mode ops s)
    unfolding run
    run-Counts [] s h = kept-Counts s s (refl, refl, refl) h
    run-Counts (op ∷ ops) s h =
        let (a, c, b) = perform-Counts op s h in
        let (a', c', b') = run-Counts ops (perform rep unicode mode op s) (omega (arith, b)) in
        (omega (arith, a, a'), omega (arith, c, c'), omega (arith, b, b'))

    -- whether an operation counts as activity
    abbrev is_active : Op → Bool
    is_active op = ltb 0 (attempts_of op) || ltb 0 (commands_of op) || ltb 0 (bytes_of op)

    abbrev any_active : List Op → Bool
    any_active [] = false
    any_active (op ∷ ops) = is_active op || any_active ops

    any_active_lem :
        (ops : List Op)
        → any_active ops ≡ (
            ltb 0 (total attempts_of ops)
            || ltb 0 (total commands_of ops)
            || ltb 0 (total bytes_of ops))
    any_active_lem [] = refl
    any_active_lem (op ∷ ops) = rw (any_active_lem ops) (ground arith)

    -- For a session with at most 2^31 - 1 payload bytes, and any sequence of operations: the session
    -- classifies as attack if one of them is an attempt, a command or a payload, and as before if not,
    -- whatever it logs or reports besides.
    pub classify-run :
        (ops : List Op) (s : Session rep)
        → s.payload_bytes ≤ max_payload_bytes
        → classify (info rep (run rep unicode mode ops s))
          ≡ (if any_active ops then attack else classify (info rep s))
    unfolding classify info
    classify-run ops s h =
        let (a, c, b) = run-Counts ops s h in rw (a, c, b, any_active_lem ops) (ground (arith, h))
