-- ===== src/Trap/S7comm/Handler/Answers.antt =====
-- The answers of an S7 session.
use ran.Base.{
  ℕ, zero, suc, ◌+◌, ◌≤◌, Option, none, some, List, Bytes, length, ◌==◌, arith, inl, inr,
  Bool-cases, All,
}
use ran.Trap.S7comm.{Tpkt, refused, packet, read_tpkt}
use ran.Trap.S7comm.Reply.{s7_response}
use ran.Trap.S7comm.Frames.{IsFrame, IsAnswer, s7_response-parse_s7}
use ran.Trap.S7comm.Handler.{after_write, answer, on_packet, on_tpkt, serve_packets, handle}
use ran.Trap.Session.{Reporter, Session, IoError}

module _ (rep : Reporter) (sniffed : Bytes) (read_error : IoError)
    (write_error : ℕ → Option IoError) where
  -- At most so many answers, each a frame.
  abbrev pub AreAnswers : ℕ → List Bytes → Type 0
  AreAnswers n out = (length out ≤ n) × All IsFrame out

  -- What is left of a session makes at most so many answers.
  abbrev Rest : ℕ → (Session rep → Session rep × List Bytes) → Type 0
  Rest n rest = (s : Session rep) → AreAnswers n (rest s).1

  after_write-AreAnswers :
      (n : ℕ) (err : Option IoError) (resp : Bytes) (s : Session rep)
      (rest : Session rep → Session rep × List Bytes)
      → IsFrame resp
      → Rest n rest
      → AreAnswers (suc n) (after_write rep sniffed read_error write_error err resp s rest).1
  unfolding after_write
  after_write-AreAnswers n (some err) resp s rest h k = (omega arith, tt)
  after_write-AreAnswers n none resp s rest h k = (omega (arith, (k s).0), (h, (k s).1))

  answer-AreAnswers :
      (i n : ℕ) (resp : Option Bytes) (s : Session rep)
      (rest : Session rep → Session rep × List Bytes)
      → IsAnswer resp
      → Rest n rest
      → AreAnswers (suc n) (answer rep sniffed read_error write_error i resp s rest).1
  unfolding answer
  answer-AreAnswers i n none s rest h k = (omega (arith, (k s).0), (k s).1)
  answer-AreAnswers i n (some resp) s rest h k =
      after_write-AreAnswers n (write_error i) resp s rest h.0 k

  on_tpkt-AreAnswers :
      (i n : ℕ) (t : Tpkt) (s : Session rep) (rest : Bytes → Session rep → Session rep × List Bytes)
      → ((more : Bytes) → Rest n (rest more))
      → AreAnswers (suc n) (on_tpkt rep sniffed read_error write_error i t s rest).1
  unfolding on_tpkt on_packet
  on_tpkt-AreAnswers i n (refused error hdr) s rest k = (omega arith, tt)
  on_tpkt-AreAnswers i n (packet payload more) s rest k =
      let (req, e, frame) = s7_response-parse_s7 payload in
      rw e (elim (Bool-cases (req.cotp == 128)) [
        | inl disconnect ↦ simp disconnect (omega arith, tt)
        | inr other ↦
            simp other (
              answer-AreAnswers i n (s7_response req) _ (λ s'. rest more s') frame
                (λ s'. k more s'))
      ])

  serve_packets-AreAnswers :
      (n i : ℕ) (input : Bytes) (s : Session rep)
      → AreAnswers n (serve_packets rep sniffed read_error write_error n i input s).1
  unfolding serve_packets
  serve_packets-AreAnswers zero i input s = (omega arith, tt)
  serve_packets-AreAnswers (suc n) i input s =
      on_tpkt-AreAnswers i n (read_tpkt input) s _
        (λ more s'. serve_packets-AreAnswers n (i + 1) more s')

  -- Whatever a connection sends and however reads and writes fail: the S7 handler sends at most 64
  -- answers, and each is one TPKT frame of at most 1024 bytes.
  pub handle-AreAnswers :
      (input : Bytes) (s : Session rep)
      → AreAnswers 64 (handle rep sniffed read_error write_error input s).1
  handle-AreAnswers input s = serve_packets-AreAnswers 64 0 input s
