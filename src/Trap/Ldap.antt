-- ===== src/Trap/Ldap.antt =====
-- internal/trap/ldap.go: the BER of the LDAP trap and its handler. An int64 is its word of 64 bits.
-- The bytes are all that the client sends, and an error stands behind them.
pub mod Ident
pub mod Bind
pub mod Total
use ran.Base.{
  ℕ, zero, suc, ◌+◌, ◌-◌, ◌*◌, ◌/◌, ◌%◌, ◌^◌, Bool, true, false, not, ◌&&◌, ◌||◌, Option, none,
  some, List, [], ◌∷◌, ◌++◌, Bytes, codes, length, take, drop, ltb, leb, ◌==◌, if◌then◌else◌, ◌>>=◌,
}
use ran.Trap.Ber.{ber_length, ber_octet_string, ber_sequence}
use ran.Trap.Dialog.{Act, write, op, outcome}
use ran.Trap.Proxy.{read_full}
use ran.Trap.Session.{IoError, failed}
use ran.Trap.Socks5.{attempt_acts}

abbrev pub max_ber_len : ℕ
max_ber_len = 65_536

abbrev pub word : ℕ
word = 2 ^ 64

-- `v >> 8` of an int64, which keeps the sign
unfoldable pub shift8 : ℕ → ℕ
shift8 v = v / 256 + (if leb (2 ^ 63) v then 255 * 2 ^ 56 else 0)

-- whether the loop of `berInteger` ends: what is left is the sign of the last byte
abbrev pub is_sign : ℕ → ℕ → Bool
is_sign v b = (v == 0 && ltb b 128) || (v == word - 1 && leb 128 b)

-- the loop, with the bytes found so far; eight turns are enough for an int64
unfoldable pub int64_bytes : ℕ → ℕ → Bytes → Bytes
int64_bytes zero v found = found
int64_bytes (suc turns) v found =
    let more = int64_bytes turns (shift8 v) ((v % 256) ∷ found) in
    if is_sign (shift8 v) (v % 256) then (v % 256) ∷ found else more

-- `berInteger`
unfoldable pub ber_int64 : ℕ → ℕ → Bytes
ber_int64 tag v = let content = int64_bytes 8 v [] in tag ∷ ber_length (length content) ++ content

-- the number of bytes, most significant first, behind others
abbrev pub uint : ℕ → Bytes → ℕ
uint n [] = n
uint n (x ∷ xs) = uint (n * 256 + x) xs

-- the same in a word of 64 bits
unfoldable pub add_bytes : ℕ → Bytes → ℕ
add_bytes n [] = n
add_bytes n (x ∷ xs) = add_bytes ((n * 256 + x) % word) xs

-- the sign of the first byte
abbrev pub sign_of : Bytes → ℕ
sign_of [] = 0
sign_of (x ∷ _) = if leb 128 x then word - 1 else 0

-- `berReadInteger`: the value and what stands behind it, or an error
unfoldable pub ber_read_integer : Bytes → Option (ℕ × Bytes)
ber_read_integer (tag ∷ n ∷ rest) =
    if not (tag == 2)
    then none
    else if n == 0 || ltb 8 n
    then none
    else if ltb (length rest) n
    then none
    else some (add_bytes (sign_of (take n rest)) (take n rest), drop n rest)
ber_read_integer _ = none

-- `berReadOctetString`
unfoldable pub ber_read_octet_string : Bytes → Option (Bytes × Bytes)
ber_read_octet_string (tag ∷ n ∷ rest) =
    if not (tag == 4)
    then none
    else if ltb (length rest) n
    then none
    else some (take n rest, drop n rest)
ber_read_octet_string _ = none

-- `berReadTLV` of at least one byte, behind its tag: the value
unfoldable pub ber_read_tlv : Bytes → Option Bytes
ber_read_tlv (tag ∷ n ∷ rest) =
    if ltb n 128
    then (if ltb (length rest) n then none else some (take n rest))
    else if ltb 4 (n - 128)
    then none
    else if ltb (length rest) (n - 128)
    then none
    else (let size = uint 0 (take (n - 128) rest) in
        let value = drop (n - 128) rest in
        if ltb (length value) size then none else some (take size value))
ber_read_tlv _ = none

-- an error of `berReadElement`: of the connection, or of the encoding
pub data Element : Type 0 where
  element : ℕ → Bytes → Bytes → Element
  refused : IoError → Element

module _ (read_error : IoError) where
  -- so many bytes of a value
  unfoldable pub read_value : ℕ → ℕ → Bytes → Element
  read_value tag size s = elim (read_full size s) [
    | none ↦ refused read_error
    | some (value, rest) ↦ element tag value rest
  ]

  -- a length in so many bytes
  unfoldable pub long_length : ℕ → Option (Bytes × Bytes) → Element
  long_length tag none = refused read_error
  long_length tag (some (digits, rest)) =
      if ltb max_ber_len (uint 0 digits)
      then refused failed
      else read_value tag (uint 0 digits) rest

  -- `berReadLength`, and the value behind it
  unfoldable pub read_length : ℕ → Bytes → Element
  read_length tag [] = refused read_error
  read_length tag (b ∷ s) =
      if ltb b 128
      then read_value tag b s
      else if b == 128 || ltb 132 b
      then refused failed
      else long_length tag (read_full (b - 128) s)

  -- `berReadElement`: the tag, the value and the bytes behind it
  unfoldable pub ber_read_element : Bytes → Element
  ber_read_element [] = refused read_error
  ber_read_element (tag ∷ s) = read_length tag s

-- `berBuildBindResponse` and `berBuildSearchDone`
unfoldable pub ber_build_bind_response : ℕ → ℕ → Bytes → Bytes → Bytes
ber_build_bind_response msg_id code matched diagnostic = ber_sequence 0x30 (
    ber_int64 2 msg_id
    ∷ ber_sequence 0x61
        (ber_int64 10 code ∷ ber_octet_string 4 matched ∷ ber_octet_string 4 diagnostic ∷ [])
    ∷ [])

unfoldable pub ber_build_search_done : ℕ → ℕ → Bytes
ber_build_search_done msg_id code = ber_sequence 0x30 (
    ber_int64 2 msg_id
    ∷ ber_sequence 0x65 (ber_int64 10 code ∷ ber_octet_string 4 [] ∷ ber_octet_string 4 [] ∷ [])
    ∷ [])

abbrev pub or_empty : Option Bytes → Bytes
or_empty none = []
or_empty (some b) = b

-- the password of simple authentication, or none
unfoldable pub password_of : Bytes → Bytes
password_of [] = []
password_of (tag ∷ rest) = if tag / 64 == 2 then or_empty (ber_read_tlv (tag ∷ rest)) else []

unfoldable pub bind_acts : ℕ → Option (Bytes × Bytes) → List Act
bind_acts msg_id none = []
bind_acts msg_id (some (name, rest)) =
    attempt_acts name (password_of rest)
    ++ write (ber_build_bind_response msg_id 49 [] (codes "Invalid credentials")) ∷ []

-- `handleBind`
unfoldable pub handle_bind : ℕ → Bytes → List Act
handle_bind msg_id body = elim (ber_read_integer body) [
  | none ↦ []
  | some (version, rest) ↦ bind_acts msg_id (ber_read_octet_string rest)
]

-- `handleSearch`
abbrev pub handle_search : ℕ → List Act
handle_search msg_id = write (ber_build_search_done msg_id 50) ∷ []

-- the operation of a message, and the rest of the loop
unfoldable pub on_operation : ℕ → ℕ → Option Bytes → Option (List Act) → Option (List Act)
on_operation msg_id tag none next = some (outcome (some failed))
on_operation msg_id tag (some body) next =
    if tag % 32 == 0
    then (next >>= λ more. some (handle_bind msg_id body ++ more))
    else if tag % 32 == 3
    then (next >>= λ more. some (handle_search msg_id ++ more))
    else some []

-- the message behind its identifier
unfoldable pub on_message : Option (ℕ × Bytes) → Option (List Act) → Option (List Act)
on_message none next = some (outcome (some failed))
on_message (some (msg_id, [])) next = some (outcome (some failed))
on_message (some (msg_id, tag ∷ rest)) next =
    on_operation msg_id tag (ber_read_tlv (tag ∷ rest)) next

module _ (read_error : IoError) where
  unfoldable pub on_element : Element → (Bytes → Option (List Act)) → Option (List Act)
  on_element (refused err) next = some (outcome (some err))
  on_element (element tag value rest) next =
      if tag == 48
      then on_message (ber_read_integer value) (next rest)
      else some (outcome (some failed))

  -- the loop of `handle`; `none` is out of fuel
  unfoldable pub serve : ℕ → Bytes → Option (List Act)
  serve zero s = none
  serve (suc fuel) s = on_element (ber_read_element read_error s) (λ rest. serve fuel rest)

  abbrev pub ldap_handle : Bytes → Option (List Act)
  ldap_handle s = serve (length s + 1) s
