-- ===== src/Trap/Smtp.antt =====
-- internal/trap/smtp.go: the SMTP trap. The greeting and the host come from the fingerprint profile;
-- the decoding of encoding/base64 is a parameter. The calls of the scanner inside AUTH LOGIN are
-- states of the loop: when the lines end there, the loop's own call of the scanner ends too.
pub mod Denied
use ran.Base.{
  ℕ, Bool, Option, none, some, List, [], ◌∷◌, ◌++◌, Bytes, codes, bytes_eq, if◌then◌else◌,
}
use ran.Text.{Unicode, upper, trim_space}
use ran.Text.Prefix.{has_prefix, split_n}
use ran.Trap.Dialog.{Act, write, op, Turn, stop, go, scan, greet}
use ran.Trap.Session.{IoError}
use ran.Trap.Session.Order.{credentials}

-- what the next line is: a command, the user name of AUTH LOGIN, or its password
pub data Stage : Type 0 where
  ready : Stage
  user_wanted : Stage
  password_wanted : Bytes → Stage

abbrev pub invalid_base64 : Act
invalid_base64 = write (codes "501 5.5.4 Invalid base64\r\n")

-- the end of both ways to authenticate
abbrev pub attempt : Bytes → Bytes → Turn Stage
attempt username password =
    go
      (op (credentials username password [])
        ∷ write (codes "535 5.7.8 Authentication failed\r\n")
        ∷ [])
      ready

module _ (unicode : Unicode) (decode64 : Bytes → Option Bytes) (greeting host : Bytes) where
  -- the payload of AUTH PLAIN in a line
  unfoldable pub plain_payload : List Bytes → Bytes
  plain_payload (_ ∷ _ ∷ payload ∷ _) = trim_space payload
  plain_payload _ = []

  -- the fields of a decoded payload
  unfoldable pub plain_attempt : List Bytes → Turn Stage
  plain_attempt (_ ∷ username ∷ password ∷ _) = attempt username password
  plain_attempt _ = attempt [] []

  -- `handleAuthPlain`
  unfoldable pub handle_auth_plain : Bytes → Turn Stage
  handle_auth_plain line = elim (decode64 (plain_payload (split_n 32 2 [] line))) [
    | none ↦ go (invalid_base64 ∷ []) ready
    | some decoded ↦ plain_attempt (split_n 0 2 [] decoded)
  ]

  unfoldable pub smtp_command : Bytes → Bytes → Turn Stage
  smtp_command line cmd =
      if has_prefix cmd (codes "EHLO")
      then go (write (codes "250-" ++ host ++ codes "\r\n250-AUTH LOGIN PLAIN\r\n250 OK\r\n") ∷ [])
          ready
      else if has_prefix cmd (codes "HELO")
      then go (write (codes "250 OK\r\n") ∷ []) ready
      else if has_prefix cmd (codes "AUTH LOGIN")
      then go (write (codes "334 VXNlcm5hbWU6\r\n") ∷ []) user_wanted
      else if has_prefix cmd (codes "AUTH PLAIN")
      then handle_auth_plain line
      else if has_prefix cmd (codes "MAIL FROM")
      then go (write (codes "530 5.7.1 Authentication required\r\n") ∷ []) ready
      else if has_prefix cmd (codes "QUIT")
      then stop (write (codes "221 Bye\r\n") ∷ [])
      else if has_prefix cmd (codes "NOOP")
      then go (write (codes "250 OK\r\n") ∷ []) ready
      else if has_prefix cmd (codes "RSET")
      then go (write (codes "250 OK\r\n") ∷ []) ready
      else go (write (codes "502 5.5.2 Command not recognized\r\n") ∷ []) ready

  -- the two answers of `handleAuthLogin`
  unfoldable pub auth_user : Option Bytes → Turn Stage
  auth_user none = go (invalid_base64 ∷ []) ready
  auth_user (some username) =
      go (write (codes "334 UGFzc3dvcmQ6\r\n") ∷ []) (password_wanted username)

  unfoldable pub auth_password : Bytes → Option Bytes → Turn Stage
  auth_password username none = go (invalid_base64 ∷ []) ready
  auth_password username (some password) = attempt username password

  unfoldable pub smtp_turn : Bytes → Stage → Option (Turn Stage)
  smtp_turn line ready = some (smtp_command line (upper unicode (trim_space line)))
  smtp_turn line user_wanted = some (auth_user (decode64 (trim_space line)))
  smtp_turn line (password_wanted username) =
      some (auth_password username (decode64 (trim_space line)))

  -- the method `handle` of `SMTPTrap`
  unfoldable pub smtp_handle : Option IoError → List Bytes → Option IoError → Option (List Act)
  smtp_handle greeting_error lines err =
      greet (greeting ++ codes "\r\n") greeting_error
        (scan (λ line s. smtp_turn line s) err lines ready)
