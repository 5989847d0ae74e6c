-- ===== src/Trap/S7comm/Handler.antt =====
-- internal/trap/s7comm.go: the session of the S7 trap. What `sniffProtocol` makes of the bytes that are
-- buffered, the read error of the connection and the write error of each answer are parameters.
pub mod Answers
use ran.Alert.Meta.{Meta}
use ran.Base.{
  ℕ, zero, suc, ◌+◌, ◌/◌, ◌%◌, Bool, true, false, Option, none, some, List, [], ◌∷◌, ◌++◌, Bytes,
  codes, length, ltb, ◌==◌, if◌then◌else◌,
}
use ran.Text.{hex, itoa}
use ran.Trap.Redact.{Attr, string, int}
use ran.Trap.S7comm.{
  TpktError, Tpkt, refused, packet, io_error, not_tpkt, malformed, too_long, read_tpkt, Kind,
  no_kind, setup, identify, write, control, unknown, S7Request, parse_s7,
}
use ran.Trap.S7comm.Reply.{s7_response}
use ran.Trap.Session.{Reporter, Session, IoError, alert, log_event, log_payload_size, set_outcome}
use ran.Trap.Session as Sessions

abbrev pub kind_name : Kind → Bytes
kind_name no_kind = []
kind_name setup = codes "setup"
kind_name identify = codes "identify"
kind_name write = codes "write"
kind_name control = codes "control"
kind_name unknown = codes "unknown"

abbrev pub is_fingerprint : Kind → Bool
is_fingerprint setup = true
is_fingerprint identify = true
is_fingerprint _ = false

abbrev pub function_attr : Option ℕ → List Attr
function_attr none = []
function_attr (some f) = (codes "function_code", int f) ∷ []

abbrev pub function_meta : Option ℕ → Meta
function_meta none = []
function_meta (some f) = (codes "function_code", itoa f) ∷ []

module _ (rep : Reporter) (sniffed : Bytes) (read_error : IoError)
    (write_error : ℕ → Option IoError) where
  unfoldable pub alert_kind : Kind → Session rep → Session rep
  alert_kind kind s = alert rep ((codes "kind", kind_name kind) ∷ []) s

  -- the session's `record`
  unfoldable pub record_request : S7Request → ℕ → Session rep → Session rep
  record_request req size s =
      let attrs = (codes "kind", string (kind_name req.kind)) ∷ function_attr req.function in
      if is_fingerprint req.kind
      then log_event rep (codes "s7comm_request") attrs s
      else alert rep ((codes "kind", kind_name req.kind) ∷ function_meta req.function)
          (log_payload_size rep (codes "s7comm_request") size attrs s)

  -- an error of `readTPKT`, at the first packet or later
  unfoldable pub on_refused : ℕ → TpktError → Bytes → Session rep → Session rep
  on_refused i error hdr s =
      let garbage = alert_kind unknown (
        log_payload_size rep (codes "s7comm_unknown") 4 ((codes "raw", string (hex hdr)) ∷ []) s) in
      let noise =
        log_event rep (codes "s7comm_request")
          ((codes "kind", string (codes "noise"))
            ∷ (codes "sniffed_protocol", string sniffed)
            ∷ (codes "raw", string (hex hdr))
            ∷ [])
          s in
      elim error [
        | not_tpkt ↦ if i == 0 then record noise { outcome = codes "probe" } else garbage
        | malformed ↦ garbage
        | too_long ↦ set_outcome rep (some Sessions.too_long) s
        | io_error ↦ set_outcome rep (some read_error) s
      ]

  -- what is logged of a packet, by the COTP type
  unfoldable pub log_packet : S7Request → ℕ → Session rep → Session rep
  log_packet req size s =
      if req.cotp == 224
      then log_event rep (codes "s7comm_request") ((codes "kind", string (codes "connect")) ∷ []) s
      else if req.cotp == 240
      then record_request req size s
      else alert_kind unknown (
          log_payload_size rep (codes "s7comm_cotp") size ((codes "cotp_type", int req.cotp) ∷ [])
            s)

  -- the session and the answers sent after it
  abbrev pub also : Bytes → Session rep × List Bytes → Session rep × List Bytes
  also resp (s, out) = (s, resp ∷ out)

  -- a write that failed, or did not, and the rest of the session
  unfoldable pub after_write :
      Option IoError
      → Bytes
      → Session rep
      → (Session rep → Session rep × List Bytes)
      → Session rep × List Bytes
  after_write (some err) resp s rest = (set_outcome rep (some err) s, [])
  after_write none resp s rest = also resp (rest s)

  -- the answer to a packet, and the rest of the session
  unfoldable pub answer :
      ℕ
      → Option Bytes
      → Session rep
      → (Session rep → Session rep × List Bytes)
      → Session rep × List Bytes
  answer i none s rest = rest s
  answer i (some resp) s rest = after_write (write_error i) resp s rest

  -- a packet that is read; a run-time panic ends the session
  unfoldable pub on_packet :
      ℕ
      → Option S7Request
      → ℕ
      → Session rep
      → (Session rep → Session rep × List Bytes)
      → Session rep × List Bytes
  on_packet i none size s rest = (s, [])
  on_packet i (some req) size s rest =
      if req.cotp == 128 then (s, []) else answer i (s7_response req) (log_packet req size s) rest

  unfoldable pub on_tpkt :
      ℕ
      → Tpkt
      → Session rep
      → (Bytes → Session rep → Session rep × List Bytes)
      → Session rep × List Bytes
  on_tpkt i (refused error hdr) s rest = (on_refused i error hdr s, [])
  on_tpkt i (packet payload more) s rest =
      on_packet i (parse_s7 payload) (length payload) s (λ s'. rest more s')

  -- the loop of `handle` with so many packets left: the session and the answers sent
  unfoldable pub serve_packets : ℕ → ℕ → Bytes → Session rep → Session rep × List Bytes
  serve_packets zero i input s = (s, [])
  serve_packets (suc n) i input s =
      on_tpkt i (read_tpkt input) s (λ more s'. serve_packets n (i + 1) more s')

  abbrev pub handle : Bytes → Session rep → Session rep × List Bytes
  handle input s = serve_packets 64 0 input s
