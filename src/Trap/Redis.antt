-- ===== src/Trap/Redis.antt =====
-- internal/trap/redis.go: the reader of commands of the Redis trap, in RESP or on one line, and its
-- handler. The bytes are all that the client sends, and an error stands behind them.
pub mod Decimal
pub mod RoundTrip
pub mod Total
use ran.Base.{
  ℕ, zero, suc, ◌+◌, ◌-◌, ◌*◌, ◌^◌, Bool, true, false, not, ◌&&◌, ◌||◌, Option, none, some, List,
  [], ◌∷◌, ◌++◌, Bytes, codes, length, take, drop, ltb, leb, ◌==◌, bytes_eq, if◌then◌else◌,
}
use ran.Alert.Meta.{Meta}
use ran.Text.{Unicode, upper, fields, join}
use ran.Trap.Dialog.{Act, write, op, record_credentials, outcome}
use ran.Trap.LineReader.{ReadLine, line, too_long, cut, max_line_len, read_line_partial}
use ran.Trap.Proxy.{read_full, trim_newline}
use ran.Trap.Redact.{string}
use ran.Trap.Session.{IoError}
use ran.Trap.Session as Sessions
use ran.Trap.Session.Order.{auth_attempt, command, report, report_command}

abbrev pub max_resp_args : ℕ
max_resp_args = 128

abbrev pub max_resp_bulk : ℕ
max_resp_bulk = 4096

-- the buffer of `handle`
abbrev pub reader_size : ℕ
reader_size = 4096

-- what a reader gives: a value and the bytes behind it, an error, or a run-time panic
pub data Read {ℓ} (A : Type ℓ) : Type ℓ where
  got : A → Bytes → Read A
  refused : IoError → Read A
  panicked : Read A

infixl 5 ◌>>=◌
abbrev pub ◌>>=◌ {ℓ κ} : {A : Type ℓ} {B : Type κ} → Read A → (A → Bytes → Read B) → Read B
got a rest >>= f = f a rest
refused err >>= f = refused err
panicked >>= f = panicked

-- the decimal digits of a number below 2^63, with the value of those before
unfoldable pub decimal : ℕ → Bytes → Option ℕ
decimal n [] = some n
decimal n (x ∷ xs) =
    let rest = decimal (n * 10 + (x - 48)) xs in
    if leb 48 x && leb x 57 && ltb (n * 10 + (x - 48)) (2 ^ 63) then rest else none

-- a number with at least one digit
unfoldable pub digits_of : Bytes → Option ℕ
digits_of [] = none
digits_of (x ∷ xs) = decimal 0 (x ∷ xs)

abbrev pub zero_only : Option ℕ → Option ℕ
zero_only (some zero) = some 0
zero_only _ = none

-- `strconv.Atoi`, with `none` for an error and for a number below 0
unfoldable pub atoi : Bytes → Option ℕ
atoi [] = none
atoi (x ∷ xs) =
    if x == b'+'
    then digits_of xs
    else if x == b'-'
    then zero_only (digits_of xs)
    else digits_of (x ∷ xs)

-- `data[1:]`
abbrev pub tail_of : Bytes → Option Bytes
tail_of [] = none
tail_of (x ∷ xs) = some xs

-- the first byte of a text is the one wanted
abbrev pub starts_with : ℕ → Bytes → Bool
starts_with c [] = false
starts_with c (x ∷ xs) = x == c

module _ (read_error : IoError) where
  -- the outcome of `readLineLimited`, less the end of the line
  unfoldable pub of_line : Option ReadLine → Read Bytes
  of_line none = panicked
  of_line (some (line text rest)) = got (trim_newline text) rest
  of_line (some too_long) = refused Sessions.too_long
  of_line (some (cut text)) = refused read_error

  unfoldable pub read_line : Bytes → Read Bytes
  read_line s = of_line (read_line_partial reader_size max_line_len s)

  -- `io.ReadFull` of a bulk string and its end, less the end
  unfoldable pub read_bulk : ℕ → Bytes → Read Bytes
  read_bulk size s = elim (read_full (size + 2) s) [
    | none ↦ refused read_error
    | some (bulk, rest) ↦ got (take size bulk) rest
  ]

  -- the length of a bulk string
  unfoldable pub bulk_of : Option ℕ → Bytes → Read Bytes
  bulk_of none s = refused Sessions.failed
  bulk_of (some size) s =
      if ltb max_resp_bulk size then refused Sessions.failed else read_bulk size s

  -- the header of a bulk string, and the string
  unfoldable pub read_header : Bytes → Bytes → Read Bytes
  read_header header s =
      if starts_with b'$' header then bulk_of (atoi (drop 1 header)) s else refused Sessions.failed

  abbrev pub read_arg : Bytes → Read Bytes
  read_arg s = read_line s >>= read_header

  -- the loop over the arguments
  unfoldable pub read_args : ℕ → Bytes → Read (List Bytes)
  read_args zero s = got [] s
  read_args (suc n) s =
      read_arg s >>= λ arg rest. read_args n rest >>= λ args rest'. got (arg ∷ args) rest'

  -- the count of the arguments
  unfoldable pub counted : Option ℕ → Bytes → Read (List Bytes)
  counted none s = refused Sessions.failed
  counted (some count) s =
      if ltb max_resp_args count then refused Sessions.failed else read_args count s

  -- `line[1:]`, which panics on an empty line
  unfoldable pub array_of : Bytes → Bytes → Read (List Bytes)
  array_of [] s = panicked
  array_of (x ∷ digits) s = counted (atoi digits) s

  -- `readRESPArray`
  unfoldable pub read_resp_array : Bytes → Read (List Bytes)
  read_resp_array s = read_line s >>= array_of

  unfoldable pub inline_of : Bytes → Bytes → Read (List Bytes)
  inline_of [] s = got [] s
  inline_of (x ∷ text) s = got (fields (x ∷ text)) s

  -- `readInlineCommand`
  unfoldable pub read_inline_command : Bytes → Read (List Bytes)
  read_inline_command s = read_line s >>= inline_of

  -- `readRedisCommand`
  unfoldable pub read_redis_command : Bytes → Read (List Bytes)
  read_redis_command [] = refused read_error
  read_redis_command (x ∷ s) =
      if x == b'*' then read_resp_array (x ∷ s) else read_inline_command (x ∷ s)

-- the user name and the password of AUTH
unfoldable pub auth_of : List Bytes → Bytes × Bytes
auth_of (_ ∷ username ∷ password ∷ _) = (username, password)
auth_of (_ ∷ password ∷ []) = ([], password)
auth_of _ = ([], [])

abbrev pub auth_meta : Bytes → Meta
auth_meta [] = []
auth_meta (x ∷ username) = (codes "username", x ∷ username) ∷ []

abbrev pub auth_acts : Bytes × Bytes → List Act
auth_acts (username, password) =
    op (
      auth_attempt ((codes "username", string username) ∷ (codes "password", string password) ∷ []))
    ∷ record_credentials
    ∷ op (report (auth_meta username))
    ∷ write (codes "-ERR invalid password\r\n")
    ∷ []

abbrev pub command_acts : Bytes → List Act
command_acts text =
    op (command text [])
    ∷ op (report_command text)
    ∷ write (codes "-NOAUTH Authentication required.\r\n")
    ∷ []

module _ (unicode : Unicode) (read_error : IoError) where
  -- a command, and the rest of the loop
  unfoldable pub on_command : List Bytes → Option (List Act) → Option (List Act)
  on_command [] rest = rest
  on_command (name ∷ args) rest =
      let cmd = upper unicode name in
      if bytes_eq cmd (codes "AUTH")
      then (elim rest [
        | none ↦ none
        | some acts ↦ some (auth_acts (auth_of (name ∷ args)) ++ acts)
      ])
      else if bytes_eq cmd (codes "QUIT")
      then some (write (codes "+OK\r\n") ∷ [])
      else elim rest [
        | none ↦ none
        | some acts ↦ some (command_acts (join (codes " ") (name ∷ args)) ++ acts)
      ]

  -- what a read gave, and the loop
  unfoldable pub on_read : Read (List Bytes) → (Bytes → Option (List Act)) → Option (List Act)
  on_read (got args rest) next = on_command args (next rest)
  on_read (refused err) next = some (outcome (some err))
  on_read panicked next = none

  -- the loop of `handle`: each turn takes bytes away, and `none` is a panic, or out of fuel
  unfoldable pub serve : ℕ → Bytes → Option (List Act)
  serve zero s = none
  serve (suc fuel) s = on_read (read_redis_command read_error s) (λ rest. serve fuel rest)

  abbrev pub redis_handle : Bytes → Option (List Act)
  redis_handle s = serve (length s + 1) s
