-- ===== src/Trap/Login.antt =====
-- internal/trap/ftp.go and internal/trap/pop3.go: the traps with the commands USER and PASS, which
-- differ in what they say and in the buffer of the scanner.
pub mod Captured
use ran.Base.{
  ℕ, Bool, Option, none, some, List, [], ◌∷◌, Bytes, codes, length, slice, if◌then◌else◌, ◌>>=◌,
}
use ran.Text.{Unicode, upper, trim_space}
use ran.Text.Prefix.{has_prefix, trim_right_byte}
use ran.Trap.Dialog.{Act, write, op, Turn, stop, go, scan, greet}
use ran.Trap.Session.{IoError}
use ran.Trap.Session.Order.{credentials}

pub record Replies : Type 0 where
  pub greeting : Bytes
  pub user : Bytes
  pub pass : Bytes
  pub quit : Bytes
  pub other : Bytes

abbrev pub ftp_replies : Replies
ftp_replies = record {
  greeting = codes "220 FTP Server ready.\r\n";
  user = codes "331 Password required.\r\n";
  pass = codes "530 Login incorrect.\r\n";
  quit = codes "221 Goodbye.\r\n";
  other = codes "530 Please login with USER and PASS.\r\n";
}

abbrev pub pop3_replies : Replies
pop3_replies = record {
  greeting = codes "+OK POP3 server ready\r\n";
  user = codes "+OK\r\n";
  pass = codes "-ERR [AUTH] Authentication failed\r\n";
  quit = codes "+OK Bye\r\n";
  other = codes "-ERR Unknown command\r\n";
}

module _ (unicode : Unicode) (replies : Replies) where
  open replies use {greeting, user, pass, quit, other}

  -- `strings.TrimRight(scanner.Text(), "\r")`
  abbrev pub line_of : Bytes → Bytes
  line_of text = trim_right_byte 13 text

  -- whether a line has a command, in upper or lower case
  abbrev pub is_command : Bytes → Bytes → Bool
  is_command command text = has_prefix (upper unicode (line_of text)) command

  -- `strings.TrimSpace(line[5:])`
  unfoldable pub argument : Bytes → Option Bytes
  argument text = slice (line_of text) 5 (length (line_of text)) >>= λ rest. some (trim_space rest)

  -- the body of the loop, with the user name
  unfoldable pub login_turn : Bytes → Bytes → Option (Turn Bytes)
  login_turn text username =
      if is_command (codes "USER ") text
      then (argument text >>= λ name. some (go (write user ∷ []) name))
      else if is_command (codes "PASS ") text
      then (argument text >>= λ password.
          some (go (op (credentials username password []) ∷ write pass ∷ []) username))
      else if is_command (codes "QUIT") text
      then some (stop (write quit ∷ []))
      else some (go (write other ∷ []) username)

  -- `handle`: the error of the greeting, the lines of the scanner and its error
  unfoldable pub login_handle : Option IoError → List Bytes → Option IoError → Option (List Act)
  login_handle greeting_error lines err =
      greet greeting greeting_error (scan (λ text username. login_turn text username) err lines [])

module _ (unicode : Unicode) where
  -- the method `handle` of `FTPTrap`
  unfoldable pub ftp_handle : Option IoError → List Bytes → Option IoError → Option (List Act)
  ftp_handle = login_handle unicode ftp_replies

  -- the method `handle` of `POP3Trap`
  unfoldable pub pop3_handle : Option IoError → List Bytes → Option IoError → Option (List Act)
  pop3_handle = login_handle unicode pop3_replies
