-- ===== src/Trap/Imap.antt =====
-- internal/trap/imap.go and internal/trap/memcached.go: two loops over lines without a state.
use ran.Base.{Option, some, List, [], ◌∷◌, ◌++◌, Bytes, codes, bytes_eq, if◌then◌else◌}
use ran.Text.{Unicode, upper, lower, trim_space}
use ran.Text.Prefix.{trim_right_byte, trim_byte, split_n}
use ran.Trap.Dialog.{Act, write, op, Turn, stop, go, scan, greet}
use ran.Trap.Session.{IoError}
use ran.Trap.Session.Order.{credentials, command, report_command}

module _ (unicode : Unicode) where
  -- `fields[0]` and `fields[1]` without quotes, where they are there
  abbrev pub user_of : List Bytes → Bytes
  user_of [] = []
  user_of (f ∷ _) = trim_byte 34 f

  abbrev pub password_of : List Bytes → Bytes
  password_of (_ ∷ f ∷ _) = trim_byte 34 f
  password_of _ = []

  -- a command with its tag and what stands behind it
  unfoldable pub imap_command : Bytes → Bytes → Bytes → Bytes → Turn (Unit {0})
  imap_command line tag cmd rest =
      let fields = split_n 32 1 [] rest in
      if bytes_eq cmd (codes "LOGIN")
      then go
          (op (credentials (user_of fields) (password_of fields) [])
            ∷ write (tag ++ codes " NO [AUTHENTICATIONFAILED] Invalid credentials\r\n")
            ∷ [])
          tt
      else if bytes_eq cmd (codes "CAPABILITY")
      then go
          (write (
              codes "* CAPABILITY IMAP4rev1 AUTH=PLAIN LOGIN STARTTLS\r\n"
              ++ tag
              ++ codes " OK CAPABILITY completed\r\n")
            ∷ [])
          tt
      else if bytes_eq cmd (codes "LOGOUT")
      then stop (
          write (
            codes "* BYE IMAP4rev1 Server logging out\r\n"
            ++ tag
            ++ codes " OK LOGOUT completed\r\n")
          ∷ [])
      else if bytes_eq cmd (codes "NOOP")
      then go (write (tag ++ codes " OK NOOP completed\r\n") ∷ []) tt
      else go
          (op (command line [])
            ∷ op (report_command cmd)
            ∷ write (tag ++ codes " BAD Unknown command\r\n")
            ∷ [])
          tt

  -- the line in at most three parts
  unfoldable pub imap_parts : Bytes → List Bytes → Turn (Unit {0})
  imap_parts line (tag ∷ cmd ∷ rest ∷ _) = imap_command line tag (upper unicode cmd) rest
  imap_parts line (tag ∷ cmd ∷ []) = imap_command line tag (upper unicode cmd) []
  imap_parts line _ = go [] tt

  unfoldable pub imap_turn : Bytes → Unit {0} → Option (Turn (Unit {0}))
  imap_turn text _ =
      let line = trim_right_byte 13 text in some (imap_parts line (split_n 32 2 [] line))

  -- the method `handle` of `IMAPTrap`
  unfoldable pub imap_handle : Option IoError → List Bytes → Option IoError → Option (List Act)
  imap_handle greeting_error lines err =
      greet (codes "* OK IMAP4rev1 Server Ready\r\n") greeting_error
        (scan (λ text s. imap_turn text s) err lines tt)

  unfoldable pub memcached_turn : Bytes → Unit {0} → Option (Turn (Unit {0}))
  memcached_turn text _ =
      let line = trim_right_byte 13 text in
      if bytes_eq (lower unicode (trim_space line)) (codes "quit")
      then some (stop [])
      else some
          (go (op (command line []) ∷ op (report_command line) ∷ write (codes "ERROR\r\n") ∷ []) tt)

  -- the method `handle` of `MemcachedTrap`
  unfoldable pub memcached_handle : List Bytes → Option IoError → Option (List Act)
  memcached_handle lines err = scan (λ text s. memcached_turn text s) err lines tt
