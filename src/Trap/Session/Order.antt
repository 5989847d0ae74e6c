-- ===== src/Trap/Session/Order.antt =====
-- The connect line of a session comes first and once, and the disconnect line last, but for the lines
-- of `LogError`.
use mathlib.Core.Path.{subst}
use ran.Alert.Class.{Transport, attack, max_class, rank}
use ran.Alert.Meta.{Meta}
use ran.Alert.Sensor.{is_tcp}
use ran.Base.{
  ℕ, ltb, ◌==◌, Bool, true, false, ◌&&◌, Option, none, some, List, [], ◌∷◌, ◌++◌, Bytes, codes,
  bytes_eq, ◌≡◌, refl, ◌∙◌, ap, ◌+◌, arith, ◌⊎◌, inl, inr, Bool-cases, All, All-append,
  if◌then◌else◌,
}
use ran.Text.{Unicode}
use ran.Trap.Redact.{PasswordMode, Attr}
use ran.Trap.Session.{
  Reporter, Line, IoError, Session, alert, alert_with, say, log_connect, flush_connect,
  log_auth_attempt, log_command, log_event, log_payload, log_payload_size, log_error,
  disconnect_line, end_with, log_disconnect, alert_command, cred, with_outcome, set_outcome,
  set_read_outcome, is_other, is_watched, new_session, use_sensor, info,
}

-- what a handler does with its session between the connect line and the end
pub data Op : Type 0 where
  auth_attempt : List Attr → Op
  command : Bytes → List Attr → Op
  event : Bytes → List Attr → Op
  payload : Bytes → List Attr → Op
  payload_size : Bytes → ℕ → List Attr → Op
  report : Meta → Op
  report_command : Bytes → Op
  credentials : Bytes → Bytes → List Attr → Op
  io_error : Option IoError → Op
  read_error : Option IoError → Op
  internal_error : Bytes → Bytes → Op
  ended_as : Bytes → Op

-- Neither a connect line nor a disconnect line.
abbrev pub IsMiddle : Line → Type 0
IsMiddle l =
    (bytes_eq l.action (codes "connect") ≡ false) × (bytes_eq l.action (codes "disconnect") ≡ false)

module _ (rep : Reporter) (unicode : Unicode) (mode : PasswordMode) where
  unfoldable pub perform : Op → Session rep → Session rep
  perform (auth_attempt attrs) s = log_auth_attempt rep mode attrs s
  perform (command line attrs) s = log_command rep unicode mode line attrs s
  perform (event msg attrs) s = log_event rep msg attrs s
  perform (payload kind attrs) s = log_payload rep kind attrs s
  perform (payload_size kind n attrs) s = log_payload_size rep kind n attrs s
  perform (report meta) s = alert rep meta s
  perform (report_command line) s = alert_command rep line s
  perform (credentials user password extra) s = cred rep mode user password extra s
  perform (io_error err) s = set_outcome rep err s
  perform (read_error err) s = set_read_outcome rep err s
  perform (internal_error error_type err) s = log_error rep error_type err s
  perform (ended_as outcome) s = with_outcome rep outcome s

  unfoldable pub run : List Op → Session rep → Session rep
  run [] s = s
  run (op ∷ ops) s = run ops (perform op s)

-- a line of `LogError`
abbrev pub is_error : Line → Bool
is_error l = bytes_eq l.action (codes "error")

-- a log without those lines, and their number
unfoldable pub less_errors : List Line → List Line
less_errors [] = []
less_errors (l ∷ log) = let rest = less_errors log in if is_error l then rest else l ∷ rest

unfoldable pub error_lines : List Line → ℕ
error_lines [] = 0
error_lines (l ∷ log) = let rest = error_lines log in if is_error l then rest + 1 else rest

less_errors-append :
    (log : List Line) (l : Line)
    → less_errors (log ++ l ∷ [])
      ≡ (if is_error l then less_errors log else less_errors log ++ l ∷ [])
unfolding less_errors
less_errors-append [] l = refl
less_errors-append (x ∷ log) l = ground (arith, less_errors-append log l)

error_lines-append :
    (log : List Line) (l : Line)
    → error_lines (log ++ l ∷ []) ≡ (if is_error l then error_lines log + 1 else error_lines log)
unfolding error_lines
error_lines-append [] l = refl
error_lines-append (x ∷ log) l = ground (arith, error_lines-append log l)

-- A log without such lines is left as it is.
less_errors-none : (log : List Line) → error_lines log ≡ 0 → less_errors log ≡ log
unfolding less_errors error_lines
less_errors-none [] h = refl
less_errors-none (l ∷ log) h = ground (arith, less_errors-none log)

-- how often `LogError` is called
abbrev pub count_error : Op → ℕ → ℕ
count_error (internal_error error_type err) n = n + 1
count_error _ n = n

abbrev pub errors_from : ℕ → List Op → ℕ
errors_from n [] = n
errors_from n (op ∷ ops) = errors_from (count_error op n) ops

-- The connect line, and middle lines after it.
abbrev pub IsBegun : List Line → Type 0
IsBegun [] = ⊥
IsBegun (l ∷ rest) = (l.action ≡ codes "connect") × All IsMiddle rest

-- A log for which the connect line is held back, or written.
abbrev pub IsOrdered : Bool → List Line → Type 0
IsOrdered true log = log ≡ []
IsOrdered false log = IsBegun log

-- The log of a session that has ended, and whether it was summarized.
abbrev pub IsPaired : Bool → List Line → Type 0
IsPaired true log = (log ≡ []) ⊎ IsBegun log
IsPaired false log =
    (begun : List Line) × (last : Line) × (log ≡ begun ++ last ∷ [])
    × IsBegun begun
    × (last.action ≡ codes "disconnect")

good-cases : (pending : Bool) (log : List Line) → IsOrdered pending log → (log ≡ []) ⊎ IsBegun log
good-cases true log h = inl h
good-cases false log h = inr h

IsBegun-append : (log : List Line) (l : Line) → IsBegun log → IsMiddle l → IsBegun (log ++ l ∷ [])
IsBegun-append [] l h middle = absurd h
IsBegun-append (first ∷ rest) l h middle = (h.0, All-append IsMiddle rest (l ∷ []) h.1 (middle, tt))

module _ (rep : Reporter) where
  open rep use {State, session_end}

  -- a log in order, with so many lines of `LogError`
  abbrev IsGood : ℕ → Session rep → Type 0
  IsGood n s = IsOrdered s.connect_pending (less_errors s.log) × (error_lines s.log ≡ n)

  -- A log that has begun, with so many lines of `LogError`.
  abbrev HasBegun : ℕ → List Line → Type 0
  HasBegun n log = IsBegun (less_errors log) × (error_lines log ≡ n)

  -- A line that is not of `LogError`.
  say-others :
      (action msg : Bytes) (attrs : List Attr) (s : Session rep)
      → bytes_eq action (codes "error") ≡ false
      → (l : Line) × (l.action ≡ action)
        × (less_errors (say rep action msg attrs s).log ≡ less_errors s.log ++ l ∷ [])
        × (error_lines (say rep action msg attrs s).log ≡ error_lines s.log)
  unfolding say
  say-others action msg attrs s other =
      let l : Line = record { action = action; msg = msg; attrs = attrs; ignored = s.ignored } in
      (
        l,
        refl,
        less_errors-append s.log l ∙ rw other refl,
        error_lines-append s.log l ∙ rw other refl,
      )

  flush_connect-pending : (s : Session rep) → (flush_connect rep s).connect_pending ≡ false
  unfolding flush_connect say
  flush_connect-pending s = ground arith

  flush_connect-HasBegun :
      {n : ℕ} (s : Session rep) → IsGood n s → HasBegun n (flush_connect rep s).log
  unfolding flush_connect
  flush_connect-HasBegun s (h, e) = elim (Bool-cases s.connect_pending) [
    | inl held ↦
        let (l, first, lines, errors) =
          say-others (codes "connect") (codes "session started") []
            (record s { connect_pending = false }) refl in
        rw held (rw (lines, simp held at h) (first, tt), errors ∙ e)
    | inr begun ↦ rw begun (simp begun at h, e)
  ]

  say-pending :
      (action msg : Bytes) (attrs : List Attr) (t : Session rep)
      → (say rep action msg attrs t).connect_pending ≡ t.connect_pending
  unfolding say
  say-pending action msg attrs t = refl

  say-IsGood :
      {n : ℕ} (action msg : Bytes) (attrs : List Attr) (s : Session rep)
      → (bytes_eq action (codes "connect") ≡ false)
        × (bytes_eq action (codes "disconnect") ≡ false)
        × (bytes_eq action (codes "error") ≡ false)
      → IsGood n s
      → IsGood n (say rep action msg attrs (flush_connect rep s))
  say-IsGood action msg attrs s (connect, disconnect, other) h =
      let s' = flush_connect rep s in
      let (l, named, lines, errors) = say-others action msg attrs s' other in
      let (begun, e) = flush_connect-HasBegun s h in
      let middle : IsMiddle l = rw named (connect, disconnect) in
      let pending : (say rep action msg attrs s').connect_pending ≡ false =
        say-pending action msg attrs s' ∙ flush_connect-pending s in
      (rw (pending, lines) (IsBegun-append (less_errors s'.log) l begun middle), errors ∙ e)

  log_error-IsGood :
      {n : ℕ} (error_type err : Bytes) (s : Session rep)
      → IsGood n s
      → IsGood (n + 1) (log_error rep error_type err s)
  unfolding log_error say
  log_error-IsGood error_type err s (h, e) =
      (rw less_errors-append h, rw error_lines-append (ap (λ k. k + 1) e))

  alert_with-IsGood :
      {n : ℕ} (meta : Meta) (sensor : Option State) (s : Session rep)
      → IsGood n s
      → IsGood n (alert_with rep meta sensor s)
  unfolding alert_with
  alert_with-IsGood meta none s h = h
  alert_with-IsGood meta (some r) s h = h

  alert-IsGood : {n : ℕ} (meta : Meta) (s : Session rep) → IsGood n s → IsGood n (alert rep meta s)
  alert-IsGood meta s h = alert_with-IsGood meta s.sensor s h

  set_outcome-IsGood :
      {n : ℕ} (err : Option IoError) (s : Session rep)
      → IsGood n s
      → IsGood n (set_outcome rep err s)
  unfolding set_outcome
  set_outcome-IsGood none s h = h
  set_outcome-IsGood (some IoError.timed_out) s h = h
  set_outcome-IsGood (some IoError.too_long) s h = h
  set_outcome-IsGood (some IoError.failed) s h = h

  module _ (unicode : Unicode) (mode : PasswordMode) where
    perform-IsGood :
        {n : ℕ} (op : Op) (s : Session rep)
        → IsGood n s
        → IsGood (count_error op n) (perform rep unicode mode op s)
    unfolding perform with_outcome log_auth_attempt log_command log_event log_payload_size
        alert_command cred set_read_outcome
    perform-IsGood (auth_attempt attrs) s h = say-IsGood _ _ _ _ (refl, refl, refl) h
    perform-IsGood (command line attrs) s h = say-IsGood _ _ _ _ (refl, refl, refl) h
    perform-IsGood (event msg attrs) s h = say-IsGood _ _ _ _ (refl, refl, refl) h
    perform-IsGood (payload kind attrs) s h = say-IsGood _ _ _ _ (refl, refl, refl) h
    perform-IsGood (payload_size kind n attrs) s h = say-IsGood _ _ _ _ (refl, refl, refl) h
    perform-IsGood (report meta) s h = alert-IsGood meta s h
    perform-IsGood (report_command line) s h =
        elim (Bool-cases (rank (max_class s.alerted_class attack) == rank s.alerted_class)) [
          | inl reported ↦ rw reported h
          | inr new ↦ rw new (alert-IsGood _ s h)
        ]
    perform-IsGood (credentials user password extra) s h =
        alert-IsGood _ _ (say-IsGood _ _ _ _ (refl, refl, refl) h)
    perform-IsGood (io_error err) s h = set_outcome-IsGood err s h
    perform-IsGood (read_error err) s h =
        elim (Bool-cases (is_other err && ltb 0 s.auth_attempts)) [
          | inl kept ↦ rw kept h
          | inr set ↦ rw set (set_outcome-IsGood err s h)
        ]
    perform-IsGood (internal_error error_type err) s h = log_error-IsGood error_type err s h
    perform-IsGood (ended_as outcome) s h = h

    run-IsGood :
        (ops : List Op) (n : ℕ) (s : Session rep)
        → IsGood n s
        → IsGood (errors_from n ops) (run rep unicode mode ops s)
    unfolding run
    run-IsGood [] n s h = h
    run-IsGood (op ∷ ops) n s h =
        run-IsGood ops (count_error op n) (perform rep unicode mode op s) (perform-IsGood op s h)

    -- a session from its first log line to its last, as the handlers make it
    unfoldable pub serve : State → List Op → ℕ → Session rep → Session rep × Bool
    serve r ops now s =
        log_disconnect rep now (run rep unicode mode ops (log_connect rep (use_sensor rep r s)))

    log_connect-IsGood :
        (s : Session rep) → s.connect_pending ≡ false → s.log ≡ [] → IsGood 0 (log_connect rep s)
    unfolding log_connect say less_errors error_lines
    log_connect-IsGood s idle empty = elim (Bool-cases (is_watched rep s)) [
      | inl watched ↦ rw (watched, empty) (refl, refl)
      | inr other ↦ rw (other, idle, empty) ((refl, tt), refl)
    ]

    -- Paired lines but for those of `LogError`, and so many of these.
    abbrev IsEnded : Bool → ℕ → Session rep → Type 0
    IsEnded aggregated n s = IsPaired aggregated (less_errors s.log) × (error_lines s.log ≡ n)

    disconnect_line-IsEnded :
        {n : ℕ} (now : ℕ) (s : Session rep)
        → IsGood n s
        → IsEnded false n (disconnect_line rep now s)
    unfolding disconnect_line
    disconnect_line-IsEnded now s h =
        let s' = flush_connect rep s in
        let (l, named, lines, errors) = say-others (codes "disconnect") _ _ s' refl in
        let (begun, e) = flush_connect-HasBegun s h in
        ((less_errors s'.log, l, lines, begun, named), errors ∙ e)

    end_with-IsEnded :
        {n : ℕ} (now : ℕ) (sensor : Option State) (s : Session rep)
        → IsGood n s
        → IsEnded (end_with rep now sensor s).1 n (end_with rep now sensor s).0
    unfolding end_with
    end_with-IsEnded now none s h = disconnect_line-IsEnded now s h
    end_with-IsEnded now (some r) s h = elim (Bool-cases (is_tcp s.transport)) [
      | inl over_tcp ↦ rw over_tcp (elim (Bool-cases (session_end (info rep s) r).1) [
        | inl aggregated ↦ rw aggregated (good-cases s.connect_pending (less_errors s.log) h.0, h.1)
        | inr logged ↦ rw logged (
            disconnect_line-IsEnded now (record s { sensor = some (session_end (info rep s) r).0 })
              h)
      ])
      | inr over_udp ↦ rw over_udp (disconnect_line-IsEnded now s h)
    ]

    -- For any sensor, and any sequence of operations on a new session that has the sensor: the log
    -- has a line of LogError for each call of it, wherever these stand, and the other lines start with
    -- the connect line, which stands nowhere else; if the sensor does not summarize the session, they
    -- end with the disconnect line, which stands nowhere else; if it does, there is no disconnect
    -- line, and there may be no other lines.
    pub serve-IsPaired :
        (r : State) (ops : List Op) (now : ℕ) (protocol : Bytes) (transport : Transport)
        (source_ip : Bytes) (dest_port start : ℕ)
        → IsPaired
            (serve r ops now (new_session rep protocol transport source_ip dest_port start)).1
            (less_errors
              (serve r ops now
                (new_session rep protocol transport source_ip dest_port start)).0.log)
          × (error_lines
                (serve r ops now
                  (new_session rep protocol transport source_ip dest_port start)).0.log
              ≡ errors_from 0 ops)
    unfolding serve use_sensor new_session
    serve-IsPaired r ops now protocol transport source_ip dest_port start =
        end_with-IsEnded now _ _ (run-IsGood ops 0 _ (log_connect-IsGood _ refl refl))

    -- Without calls of LogError the log itself is so.
    serve-IsPaired_quiet :
        (r : State) (ops : List Op) (now : ℕ) (protocol : Bytes) (transport : Transport)
        (source_ip : Bytes) (dest_port start : ℕ)
        → errors_from 0 ops ≡ 0
        → IsPaired
            (serve r ops now (new_session rep protocol transport source_ip dest_port start)).1
            (serve r ops now (new_session rep protocol transport source_ip dest_port start)).0.log
    serve-IsPaired_quiet r ops now protocol transport source_ip dest_port start quiet =
        let (s, summarized) =
          serve r ops now (new_session rep protocol transport source_ip dest_port start) in
        let (paired, errors) =
          serve-IsPaired r ops now protocol transport source_ip dest_port start in
        subst (IsPaired summarized) (less_errors-none s.log (errors ∙ quiet)) paired
