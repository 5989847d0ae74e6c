-- ===== src/Alert/Worker.antt =====
-- internal/alert/crowdsec.go, the batch worker: from the queue of `Submit` to the LAPI, with the
-- retries, the pause after a failure and the drain after `Close`. The LAPI, the clock and the
-- channels of `Close` are a parameter.
pub mod Batch
pub mod Settle
pub mod Account
pub mod Bounds
use ran.Alert.Netip.{Netip}
use ran.Alert.Pipeline.{AlertMsg, Alerter, fail_batch}
use ran.Base.{
  ℕ, ◌+◌, ◌*◌, min, max, Bool, true, false, not, ◌&&◌, Option, none, some, List, [], ◌∷◌, ◌++◌,
  Bytes, codes, length, ltb, leb, ◌==◌, if◌then◌else◌, ◌>>=◌,
}

-- `doPost`: a transport error, or the status of the answer
pub data Reply : Type 0 where
  unreachable : Reply
  status : ℕ → Reply

-- What the worker relies on: the clock, the marshalling of an alert, a post and a login that end by
-- the deadline, a pause of `hold` that ends early when `Close` comes, and the drain deadline that
-- `Close` has stored (0 before).
pub record Lapi : Type 1 where
  pub World : Type 0
  pub now : World → ℕ
  pub drain_by : World → ℕ
  pub marshal : ℕ → AlertMsg → Option Bytes
  pub post : ℕ → Bytes → World → World × Reply
  pub login : ℕ → World → World × Bool
  pub pause : ℕ → World → World × Bool

abbrev pub second : ℕ
second = 1_000_000_000

abbrev pub flush_timeout : ℕ
flush_timeout = 5 * second

abbrev pub final_flush_timeout : ℕ
final_flush_timeout = 2 * second

abbrev pub fail_hold_min : ℕ
fail_hold_min = second

abbrev pub fail_log_interval : ℕ
fail_log_interval = 10 * second

abbrev pub max_batch_bytes : ℕ
max_batch_bytes = 512 * 1024

-- an alert on its way, with its encoding once that is made
pub record Pending : Type 0 where
  pub msg : AlertMsg
  pub raw : Option Bytes

abbrev pub messages : List Pending → List AlertMsg
messages [] = []
messages (p ∷ ps) = p.msg ∷ messages ps

-- `len(msg.raw)`
abbrev pub size : Pending → ℕ
size p = elim p.raw [ none ↦ 0 | some raw ↦ length raw ]

-- the state of `warnLimited`: the last warning, those left out since, and what was logged, each
-- line with the number of warnings left out before it
pub record Warnings : Type 0 where
  pub last : Option ℕ
  pub suppressed : ℕ
  pub logged : List ℕ

abbrev pub is_recent : ℕ → Option ℕ → Bool
is_recent now none = false
is_recent now (some last) = ltb now (last + fail_log_interval)

unfoldable pub warn_limited : ℕ → Warnings → Warnings
warn_limited now s =
    if is_recent now s.last
    then record s { suppressed = s.suppressed + 1 }
    else record { last = some now; suppressed = 0; logged = s.suppressed ∷ s.logged }

abbrev pub is_accepted : Reply → Bool
is_accepted unreachable = false
is_accepted (status code) = leb 200 code && ltb code 300

abbrev pub is_unauthorized : Reply → Bool
is_unauthorized unreachable = false
is_unauthorized (status code) = code == 401

module _ (net : Netip) (lapi : Lapi) where
  open lapi use {World, now, drain_by, marshal, post, login, pause}

  pub record Worker : Type 0 where
    pub world : World
    pub alerter : Alerter net
    pub warnings : Warnings
    pub abandon : Bool
    pub final_tried : Bool
    -- the alerts logged as sent, and those given up
    pub sent : List AlertMsg
    pub failed : List AlertMsg

  -- `failBatch`
  unfoldable pub give_up : List Pending → Worker → Worker
  give_up batch w = record w {
    alerter = fail_batch net (messages batch) (now w.world) w.alerter;
    failed = w.failed ++ messages batch;
  }

  unfoldable pub warn : Worker → Worker
  warn w = record w { warnings = warn_limited (now w.world) w.warnings }

  unfoldable pub encode : ℕ → Pending → Option Pending
  encode t p = elim p.raw [
    | some raw ↦ some p
    | none ↦ do raw ← marshal t p.msg; some (record p { raw = some raw })
  ]

  -- the loop of `flushWithin` over the batch, from the comma before the next alert on
  unfoldable pub join : ℕ → Bytes → List Pending → Option Bytes
  join t comma [] = some []
  join t comma (p ∷ ps) = do
    q ← encode t p
    raw ← q.raw
    rest ← join t (codes ",") ps
    some (comma ++ raw ++ rest)

  unfoldable pub body_of : ℕ → List Pending → Option Bytes
  body_of t batch = do inner ← join t [] batch; some (codes "[" ++ inner ++ codes "]")

  -- the end of `flushWithin`, with the last answer
  unfoldable pub settle : List Pending → Reply → Worker → Worker × Bool
  settle batch reply w =
      if is_accepted reply
      then (record w { sent = w.sent ++ messages batch }, true)
      else (give_up batch (warn w), false)

  -- after a login that followed a 401
  unfoldable pub post_again : ℕ → Bytes → List Pending → Bool → Worker → Worker × Bool
  post_again deadline body batch logged_in w =
      if logged_in
      then (let (world, reply) = post deadline body w.world in
          settle batch reply (record w { world = world }))
      else (give_up batch (warn w), false)

  -- after the first answer
  unfoldable pub on_reply : ℕ → Bytes → List Pending → Reply → Worker → Worker × Bool
  on_reply deadline body batch reply w =
      if is_unauthorized reply
      then (let (world, logged_in) = login deadline w.world in
          post_again deadline body batch logged_in (record w { world = world }))
      else settle batch reply w

  -- the timeout from now on, but no later than the drain deadline
  unfoldable pub deadline_of : ℕ → World → ℕ
  deadline_of timeout world =
      if drain_by world == 0
      then now world + timeout
      else min (drain_by world) (now world + timeout)

  unfoldable pub flush_within : ℕ → List Pending → Worker → Worker × Bool
  flush_within timeout [] w = (w, true)
  flush_within timeout (p ∷ ps) w = elim (body_of (now w.world) (p ∷ ps)) [
    | none ↦ (give_up (p ∷ ps) w, false)
    | some body ↦
        let deadline = deadline_of timeout w.world in
        let (world, reply) = post deadline body w.world in
        on_reply deadline body (p ∷ ps) reply (record w { world = world })
  ]

  abbrev pub flush : List Pending → Worker → Worker × Bool
  flush batch w = flush_within flush_timeout batch w

  -- `hold`: the worker, and whether the pause ended before `Close`
  unfoldable pub hold : ℕ → Worker → Worker × Bool
  hold interval w =
      let (world, over) = pause (max interval fail_hold_min) w.world in
      (record w { world = world }, over)

  -- `send` while the worker has not given up: a failure holds the worker, and `Close` in the pause
  -- makes it give up
  unfoldable pub send_live : ℕ → List Pending → Worker → Worker
  send_live interval batch w =
      let (w₁, ok) = flush batch w in
      let (w₂, over) = hold interval w₁ in
      if ok then w₁ else if over then w₂ else record w₂ { abandon = true }

  -- `send` after that: one last attempt, which may bring the worker back
  unfoldable pub send_last : List Pending → Worker → Worker
  send_last batch w =
      if not w.final_tried
      then (let (w', ok) =
            flush_within final_flush_timeout batch (record w { final_tried = true }) in
          if ok then record w' { abandon = false } else w')
      else give_up batch w

  unfoldable pub send : ℕ → List Pending → Worker → Worker
  send interval [] w = w
  send interval (p ∷ ps) w =
      if w.abandon then send_last (p ∷ ps) w else send_live interval (p ∷ ps) w
