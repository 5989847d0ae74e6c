-- ===== src/Trap/Irc.antt =====
-- internal/trap/irc.go: the IRC trap, which welcomes a client once.
pub mod Welcome
use ran.Base.{
  ℕ, Bool, true, false, not, Option, none, some, List, [], ◌∷◌, ◌++◌, Bytes, codes, bytes_eq,
  if◌then◌else◌,
}
use ran.Text.{Unicode, upper, trim_prefix}
use ran.Text.Prefix.{trim_right_byte, split_n}
use ran.Trap.Dialog.{Act, write, op, Turn, stop, go, scan}
use ran.Trap.Session.{IoError}
use ran.Trap.Session.Order.{Op, credentials, command, report_command}

-- the variables of the loop
pub record Client : Type 0 where
  pub nick : Bytes
  pub registered : Bool

abbrev pub is_empty : Bytes → Bool
is_empty [] = true
is_empty (x ∷ xs) = false

abbrev pub welcome : Bytes → Bytes
welcome nick = codes ":server 001 " ++ nick ++ codes " :Welcome to the IRC Network\r\n"

-- the nick name at the registration
abbrev pub nick_or_star : Bytes → Bytes
nick_or_star nick = if is_empty nick then codes "*" else nick

module _ (unicode : Unicode) (host : Bytes) where
  -- a command with its parameters
  unfoldable pub irc_command : Bytes → Bytes → Bytes → Client → Turn Client
  irc_command line cmd params c =
      if bytes_eq cmd (codes "PASS")
      then go (op (credentials c.nick (trim_prefix 58 params) []) ∷ []) c
      else if bytes_eq cmd (codes "NICK")
      then go [] (record c { nick = trim_prefix 58 params })
      else if bytes_eq cmd (codes "USER")
      then (if c.registered
          then go [] c
          else (let nick = nick_or_star c.nick in
              go (write (welcome nick) ∷ []) (record { nick = nick; registered = true })))
      else if bytes_eq cmd (codes "QUIT")
      then stop (write (codes "ERROR :Closing Link: " ++ host ++ codes " (Quit)\r\n") ∷ [])
      else if bytes_eq cmd (codes "PING")
      then go (write (codes "PONG " ++ params ++ codes "\r\n") ∷ []) c
      else go (op (command line []) ∷ op (report_command line) ∷ []) c

  -- the line in at most two parts
  unfoldable pub irc_parts : Bytes → List Bytes → Client → Turn Client
  irc_parts line (cmd ∷ params ∷ _) c = irc_command line (upper unicode cmd) params c
  irc_parts line (cmd ∷ []) c = irc_command line (upper unicode cmd) [] c
  irc_parts line [] c = go [] c

  unfoldable pub irc_turn : Bytes → Client → Option (Turn Client)
  irc_turn text c =
      let line = trim_right_byte 13 text in
      if is_empty line then some (go [] c) else some (irc_parts line (split_n 32 1 [] line) c)

  -- the method `handle` of `IRCTrap`
  unfoldable pub irc_handle : List Bytes → Option IoError → Option (List Act)
  irc_handle lines err =
      scan (λ text c. irc_turn text c) err lines (record { nick = []; registered = false })
