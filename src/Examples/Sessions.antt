-- ===== src/Examples/Sessions.antt =====
-- Sessions, PROXY headers, lines and servers on concrete connections.
use ran.Alert.Class.{attack, tcp, classify}
use ran.Base.{
  ℕ, ◌+◌, ◌≤◌, List, false, none, some, [], ◌∷◌, ◌++◌, Bytes, codes, lookup, insert, bytes_Eq, ◌≡◌,
  refl, arith, inr, All,
}
use ran.Examples.{net, visitor}
use ran.Examples.Alerts.{station}
use ran.Text.{Unicode, fields}
use ran.Trap.LineReader.{read_line_partial}
use ran.Trap.LineReader.Chunks as Chunks
use ran.Trap.Limiter.{new_limiter, acquire, held}
use ran.Trap.Limiter.Counts.{count}
use ran.Trap.Proxy.{new_proxy_conn, join_host_port}
use ran.Trap.Proxy.Source as Source
use ran.Trap.Redact.{mask, off, redact_command, is_set_user, hidden_from}
use ran.Trap.Redact.Hides as Hides
use ran.Trap.Server as Server
use ran.Trap.Server.Shared as Shared
use ran.Trap.Server.Shared.Drain as SharedDrain
use ran.Trap.Server.Slots as Slots
use ran.Trap.S7comm as S7comm
use ran.Trap.S7comm.Frames as S7Frames
use ran.Trap.S7comm.Reply as S7Reply
use ran.Trap.Session.{Reporter, Session, new_session, info, use_sensor}
use ran.Trap.Session.Counters as Counters
use ran.Trap.Session.Order as Order
use ran.Trap.Session.Report as Report

abbrev pub ascii : Unicode
ascii = record { to_upper = λ r. r; to_lower = λ r. r; fold = λ r. r; is_format = λ r. false }

-- A sensor that answers attack, and summarizes no session.
abbrev rep : Reporter
rep = record {
  State = ℕ;
  alert = λ i meta n. (n, attack);
  session_end = λ i n. (n, false);
  ignored = λ n ip. false;
}

abbrev fresh_session : Session rep
fresh_session = new_session rep (codes "redis") tcp visitor 6379 0

abbrev ops : List Order.Op
ops =
    Order.internal_error (codes "handshake_failed") (codes "EOF")
    ∷ Order.event (codes "hello") []
    ∷ Order.credentials (codes "root") (codes "1234") []
    ∷ Order.payload_size (codes "blob") 5_000_000_000 []
    ∷ []

serve-IsPaired_example :
    Order.IsPaired
      (Order.serve rep ascii off 0 ops 9 fresh_session).1
      (Order.less_errors (Order.serve rep ascii off 0 ops 9 fresh_session).0.log)
    × (Order.error_lines (Order.serve rep ascii off 0 ops 9 fresh_session).0.log ≡ 1)
serve-IsPaired_example =
    Order.serve-IsPaired rep ascii off 0 ops 9 (codes "redis") tcp visitor 6379 0

classify-run_example : classify (info rep (Order.run rep ascii off ops fresh_session)) ≡ attack
unfolding new_session
classify-run_example = Counters.classify-run rep ascii off ops fresh_session (omega arith)

redact_command-hides_example :
    redact_command ascii mask (codes "AUTH hunter2")
    ≡ redact_command ascii mask (codes "AUTH letmein")
unfolding fields ran.Text.join ran.Text.fields_from ran.Text.chunks_from ran.Text.is_space
    ran.Text.decode is_set_user hidden_from ran.Trap.Redact.secret_from ran.Trap.Redact.is_sensitive
    ran.Text.upper ran.Text.map_runes ran.Text.trim_prefix ran.Text.encode
redact_command-hides_example =
    Hides.redact_command-hides ascii (codes "hunter2") (codes "letmein") [] [] mask
      (codes "AUTH hunter2") (codes "AUTH letmein") (codes "AUTH" ∷ []) (inr (refl, refl)) refl refl
      refl refl

abbrev watched : Session (Report.sensor_reporter net (λ n. n))
watched =
    use_sensor (Report.sensor_reporter net (λ n. n)) (station, [], 0)
      (new_session (Report.sensor_reporter net (λ n. n)) (codes "redis") tcp visitor 6379 0)

flood-budget_example :
    Report.budget net
      (λ n. n)
      (Order.run
        (Report.sensor_reporter net (λ n. n))
        ascii
        off
        (Report.flood net (λ n. n) ((codes "PING", []) ∷ (codes "INFO", []) ∷ []))
        watched)
    ≤ Report.budget net (λ n. n) watched
flood-budget_example =
    Report.flood-budget net (λ n. n) ascii off ((codes "PING", []) ∷ (codes "INFO", []) ∷ [])
      watched

read_line_partial_lem_example :
    read_line_partial 4 20 (codes "quit now\nnext")
    ≡ some (Chunks.bounded_line 20 (codes "quit now\nnext"))
read_line_partial_lem_example =
    Chunks.read_line_partial_lem 4 20 (codes "quit now\nnext") (omega arith)

new_proxy_conn-tcp4_example :
    new_proxy_conn net
      (λ b. b)
      (Source.v2_header 17 (Source.tcp4 9 8 7 6 1 2 3 4 4000 22 []) ++ codes "SSH")
    ≡ some (some (join_host_port (9 ∷ 8 ∷ 7 ∷ 6 ∷ []) (codes "4000")), codes "SSH")
unfolding ran.Text.digits
new_proxy_conn-tcp4_example =
    Source.new_proxy_conn-tcp4 net (λ b. b) 9 8 7 6 1 2 3 4 4000 22 [] (codes "SSH") (omega arith)
      (omega arith)

-- A server that takes a connection, stops while it is served, and lets it end.
abbrev new : Server.Server
new = Server.new_server (new_limiter 3 2)

abbrev serving : Server.Server
serving = Server.register (Server.admit visitor new).admitted (Server.admit visitor new)

abbrev ended : Server.Server
ended =
    Server.leave (Server.free_slot visitor (Server.stop serving)).leaving
      (Server.free_slot visitor (Server.stop serving))

serving-Reach : Server.Reach new serving
serving-Reach = Server.next (Server.next Server.here (Server.admits visitor refl)) Server.registers

ended-Reach : Server.Reach new ended
unfolding Server.register Server.admit acquire held lookup insert Server.stop count
ended-Reach =
    Server.next
      (Server.next (Server.next serving-Reach Server.stops) (Server.frees visitor (omega arith)))
      Server.leaves

Reach-Refines_example : Slots.Refines 3 2 ended
Reach-Refines_example = Slots.Reach-Refines 3 2 ended-Reach

-- A connection request and a setup request.
abbrev s7_setup : Bytes
s7_setup =
    2 ∷ 240 ∷ 128 ∷ 50 ∷ 1 ∷ 0 ∷ 0 ∷ 0 ∷ 7 ∷ 0 ∷ 8 ∷ 0 ∷ 0 ∷ 240 ∷ 0 ∷ 0 ∷ 1 ∷ 0 ∷ 1 ∷ 1 ∷ 224 ∷ []

s7_response-parse_s7_example :
    (req : S7comm.S7Request) × (S7comm.parse_s7 s7_setup ≡ some req)
    × S7Frames.IsAnswer (S7Reply.s7_response req)
s7_response-parse_s7_example = S7Frames.s7_response-parse_s7 s7_setup

-- Two traps: the first takes a connection, and another user of the limiter a slot.
abbrev traps : Shared.Traps
traps = Shared.new_traps 2 3 2

abbrev one_served : Shared.Traps
one_served = record { limiter = serving.limiter; servers = serving ∷ new ∷ []; others = [] }

abbrev busy : Shared.Traps
busy = Shared.take_slot (codes "9.8.7.5") one_served

busy-Moves : Shared.Moves traps busy
unfolding Shared.new_servers
busy-Moves =
    Shared.next
      (Shared.next
        (Shared.next Shared.here (Shared.turns (Shared.first (Server.admits visitor refl))))
        (Shared.turns (Shared.first Server.registers)))
      (Shared.takes (codes "9.8.7.5"))

Moves-drains_example :
    (busy.limiter.global ≡ 2)
    × ((ip : Bytes)
        → held ip busy.limiter ≡ SharedDrain.held_for ip busy.servers + count ip busy.others)
    × ((u : Shared.Traps) × Shared.Moves busy u
        × All SharedDrain.IsIdle u.servers
        × (u.others ≡ [])
        × (u.limiter.global ≡ 0)
        × ((ip : Bytes) → lookup ip u.limiter.per_ip ≡ none))
unfolding Server.register Server.admit acquire held lookup insert Shared.take_slot
Moves-drains_example = SharedDrain.Moves-drains 2 3 2 busy-Moves
