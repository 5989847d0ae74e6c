-- ===== src/Trap/Smtp/Denied.antt =====
-- No SMTP client is ever let in.
use ran.Base.{
  false, Option, none, some, List, [], ◌∷◌, ◌++◌, Bytes, codes, ◌≡◌, refl, inl, inr, All, if-both,
  Option-cases,
}
use ran.Text.{Unicode, trim_space}
use ran.Text.Prefix.{has_prefix, split_n}
use ran.Trap.Dialog.{Act, op, write, record_credentials, Turn, outcome}
use ran.Trap.Dialog.Trace.{AllTurn, scan-All}
use ran.Trap.Session.{IoError}
use ran.Trap.Smtp.{
  Stage, ready, user_wanted, password_wanted, smtp_command, smtp_turn, smtp_handle, auth_user,
  auth_password, handle_auth_plain, plain_attempt, plain_payload,
}

-- A write that is not the reply 235, "authentication succeeded".
abbrev pub IsDenial : Act → Type 0
IsDenial (write b) = has_prefix b (codes "235") ≡ false
IsDenial (op o) = Unit
IsDenial record_credentials = Unit

module _ (unicode : Unicode) (decode64 : Bytes → Option Bytes) (greeting host : Bytes) where
  abbrev turn : Bytes → Stage → Option (Turn Stage)
  turn line s = smtp_turn unicode decode64 greeting host line s

  abbrev Denies : Turn Stage → Type 0
  Denies t = AllTurn turn none IsDenial t

  plain_attempt-Denies :
      (fields : List Bytes) → Denies (plain_attempt unicode decode64 greeting host fields)
  unfolding plain_attempt has_prefix
  plain_attempt-Denies (a ∷ b ∷ c ∷ fields) = (tt, (refl, tt))
  plain_attempt-Denies (a ∷ b ∷ []) = (tt, (refl, tt))
  plain_attempt-Denies (a ∷ []) = (tt, (refl, tt))
  plain_attempt-Denies [] = (tt, (refl, tt))

  auth-Denies :
      (o : Option Bytes) (u : Bytes)
      → Denies (auth_user unicode decode64 greeting host o)
        × Denies (auth_password unicode decode64 greeting host u o)
  unfolding auth_user auth_password has_prefix
  auth-Denies none u = ((refl, tt), (refl, tt))
  auth-Denies (some p) u = ((refl, tt), (tt, (refl, tt)))

  handle_auth_plain-Denies :
      (line : Bytes) → Denies (handle_auth_plain unicode decode64 greeting host line)
  unfolding handle_auth_plain has_prefix
  handle_auth_plain-Denies line =
      let payload = plain_payload unicode decode64 greeting host (split_n 32 2 [] line) in
      elim (Option-cases (decode64 payload)) [
        | inl bad ↦ rw (bad, handle_auth_plain) (refl, tt)
        | inr (decoded, good) ↦
            rw (good, handle_auth_plain) (plain_attempt-Denies (split_n 0 2 [] decoded))
      ]

  smtp_command-Denies :
      (line cmd : Bytes) → Denies (smtp_command unicode decode64 greeting host line cmd)
  unfolding smtp_command has_prefix
  smtp_command-Denies line cmd =
      if-both Denies (has_prefix cmd (codes "EHLO")) (refl, tt)
        (if-both Denies (has_prefix cmd (codes "HELO")) (refl, tt)
          (if-both Denies (has_prefix cmd (codes "AUTH LOGIN")) (refl, tt)
            (if-both Denies (has_prefix cmd (codes "AUTH PLAIN")) (handle_auth_plain-Denies line) (
              if-both Denies (has_prefix cmd (codes "MAIL FROM")) (refl, tt)
                (if-both Denies (has_prefix cmd (codes "QUIT")) (refl, tt)
                  (if-both Denies (has_prefix cmd (codes "NOOP")) (refl, tt)
                    (if-both Denies (has_prefix cmd (codes "RSET")) (refl, tt) (refl, tt))))))))

  turn-Denies : (line : Bytes) (s : Stage) → (t : Turn Stage) × (turn line s ≡ some t) × Denies t
  unfolding smtp_turn
  turn-Denies line ready = (_, refl, smtp_command-Denies line _)
  turn-Denies line user_wanted = (_, refl, (auth-Denies (decode64 (trim_space line)) []).0)
  turn-Denies line (password_wanted u) = (_, refl, (auth-Denies (decode64 (trim_space line)) u).1)

  outcome-IsDenial : (err : Option IoError) → All IsDenial (outcome err)
  outcome-IsDenial none = tt
  outcome-IsDenial (some err) = (tt, tt)

  -- If the greeting is sent, for all lines that a client sends, and whatever the error behind them and
  -- whatever base64 decodes to: the SMTP handler ends without a panic, and none of the writes behind
  -- the greeting is the reply 235 of a login that succeeded.
  pub smtp_handle-denies :
      (lines : List Bytes) (err : Option IoError)
      → (acts : List Act) × (smtp_handle unicode decode64 greeting host none lines err
          ≡ some (write (greeting ++ codes "\r\n") ∷ acts))
        × All IsDenial acts
  unfolding smtp_handle
  smtp_handle-denies lines err =
      let (acts, e, h) =
        scan-All turn err IsDenial turn-Denies (outcome-IsDenial err) lines ready in
      (acts, rw e refl, h)
