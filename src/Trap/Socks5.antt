-- ===== src/Trap/Socks5.antt =====
-- internal/trap/socks5.go, internal/trap/vnc.go and internal/trap/rdp.go: handlers that read a fixed
-- dialogue. The bytes are all that the client sends, and an error stands behind them. The printing of
-- an IP address (net.IP) and the random challenge are parameters.
pub mod Capture
use ran.Base.{
  ℕ, ◌+◌, ◌-◌, ◌*◌, ◌/◌, ◌%◌, Bool, true, false, not, ◌&&◌, ◌||◌, Option, none, some, List, [], ◌∷◌,
  ◌++◌, Bytes, codes, length, drop, get_elem?, slice, put_uint16, zeros, ltb, ◌==◌, if◌then◌else◌,
  ◌>>=◌,
}
use ran.Text.{itoa, hex, trim_space}
use ran.Text.Prefix.{has_prefix}
use ran.Trap.Dialog.{Act, write, op, record_credentials, outcome}
use ran.Trap.Proxy.{read_full}
use ran.Trap.Redact.{string}
use ran.Trap.Session.{IoError, failed}
use ran.Trap.Session.Order.{auth_attempt, payload, report}

-- the first element of an array that was read
abbrev pub first : Bytes → ℕ
first [] = 0
first (x ∷ _) = x

abbrev pub number : ℕ → Bytes → ℕ
number n [] = n
number n (x ∷ xs) = number (n * 256 + x) xs

unfoldable pub any_eq : ℕ → Bytes → Bool
any_eq m [] = false
any_eq m (x ∷ xs) = x == m || any_eq m xs

-- `LogAuthAttempt`, `RecordCredentials` and `Alert` for a user name and a password
abbrev pub attempt_acts : Bytes → Bytes → List Act
attempt_acts username password =
    op (
      auth_attempt ((codes "username", string username) ∷ (codes "password", string password) ∷ []))
    ∷ record_credentials
    ∷ op (report ((codes "username", username) ∷ (codes "password", password) ∷ []))
    ∷ []

module _ (read_error : IoError) where
  -- `io.ReadFull`, and what follows where it gives no error
  unfoldable pub with_bytes : ℕ → Bytes → (Bytes → Bytes → List Act) → List Act
  with_bytes n s next = elim (read_full n s) [
    | none ↦ outcome (some read_error)
    | some (b, rest) ↦ next b rest
  ]

  -- a byte with a length, and so many bytes
  abbrev pub with_field : Bytes → (Bytes → Bytes → List Act) → List Act
  with_field s next = with_bytes 1 s (λ size rest. with_bytes (first size) rest next)

  -- `handleUserPassAuth`
  unfoldable pub handle_user_pass_auth : Bytes → List Act
  handle_user_pass_auth s = with_bytes 1 s (λ version s₁. with_field s₁ (λ username s₂.
      with_field s₂ (λ password s₃. attempt_acts username password ++ write (1 ∷ 1 ∷ []) ∷ [])))

  -- the request for an address, and its port behind it
  abbrev pub connect_acts : Bytes → Bytes → List Act
  connect_acts address s = with_bytes 2 s (λ port rest.
      let target = address ++ codes ":" ++ itoa (number 0 port) in
      op (payload (codes "connect_request") ((codes "target", string target) ∷ []))
      ∷ op (report ((codes "target", target) ∷ []))
      ∷ write (5 ∷ 5 ∷ 0 ∷ 1 ∷ 0 ∷ 0 ∷ 0 ∷ 0 ∷ 0 ∷ 0 ∷ [])
      ∷ [])

  module _ (ip_string : Bytes → Bytes) where
    -- by the address type
    unfoldable pub handle_address : ℕ → Bytes → List Act
    handle_address type s =
        if type == 1
        then with_bytes 4 s (λ ip rest. connect_acts (ip_string ip) rest)
        else if type == 3
        then with_field s (λ domain rest. connect_acts domain rest)
        else if type == 4
        then with_bytes 16 s (λ ip rest. connect_acts (ip_string ip) rest)
        else []

    abbrev pub last : Bytes → ℕ
    last (_ ∷ _ ∷ _ ∷ type ∷ _) = type
    last _ = 0

    -- `handleNoAuth`
    unfoldable pub handle_no_auth : Bytes → List Act
    handle_no_auth s =
        with_bytes 4 s (λ hdr rest. if first hdr == 5 then handle_address (last hdr) rest else [])

    -- the method that is chosen
    unfoldable pub choose_method : Bytes → Bytes → List Act
    choose_method methods s =
        if any_eq 2 methods
        then write (5 ∷ 2 ∷ []) ∷ handle_user_pass_auth s
        else if any_eq 0 methods
        then write (5 ∷ 0 ∷ []) ∷ handle_no_auth s
        else write (5 ∷ 255 ∷ []) ∷ []

    -- the method `handle` of `SOCKS5Trap`
    unfoldable pub socks5_handle : Bytes → List Act
    socks5_handle s = with_bytes 1 s (λ version s₁.
        if first version == 5
        then with_field s₁ (λ methods s₂. choose_method methods s₂)
        else outcome (some failed))

  -- the method `handle` of `VNCTrap`, with the challenge and the errors of its reading and of the
  -- first three writes
  unfoldable pub vnc_result : Bytes → Bytes → List Act
  vnc_result challenge response =
      op (
        auth_attempt (
          (codes "challenge", string (hex challenge))
          ∷ (codes "response", string (hex response))
          ∷ []))
      ∷ record_credentials
      ∷ op (report ((codes "kind", codes "auth_response") ∷ []))
      ∷ write (0 ∷ 0 ∷ 0 ∷ 1 ∷ [])
      ∷ write (0 ∷ 0 ∷ 0 ∷ 21 ∷ [])
      ∷ write (codes "Authentication failed")
      ∷ []

  -- a write whose error ends the handler
  abbrev pub checked : Option IoError → Bytes → List Act → List Act
  checked none b rest = write b ∷ rest
  checked (some err) b rest = write b ∷ outcome (some err)

  unfoldable pub vnc_handle : Option Bytes → (ℕ → Option IoError) → Bytes → List Act
  vnc_handle random write_error s = checked (write_error 0) (codes "RFB 003.008\n") (
      with_bytes 12 s (λ client_version s₁. checked (write_error 1) (1 ∷ 2 ∷ []) (
        with_bytes 1 s₁ (λ sec_type s₂. elim random [
          | none ↦ outcome (some failed)
          | some challenge ↦
              checked (write_error 2) challenge
                (with_bytes 16 s₂ (λ response s₃. vnc_result challenge response))
        ]))))

-- `bytes.Index`, as the bytes before and behind the first occurrence
unfoldable pub cut_at : Bytes → Bytes → Option (Bytes × Bytes)
cut_at sep [] = none
cut_at sep (x ∷ s) =
    let rest = cut_at sep s in
    if has_prefix (x ∷ s) sep
    then some ([], drop (length sep) (x ∷ s))
    else elim rest [ none ↦ none | some p ↦ some (x ∷ p.0, p.1) ]

-- the user name of the cookie
unfoldable pub cookie_user : Bytes → Bytes
cookie_user cookie = elim (cut_at (codes "Cookie: mstshash=") cookie) [
  | none ↦ []
  | some (_, rest) ↦ elim (cut_at (13 ∷ 10 ∷ []) rest) [
    | none ↦ []
    | some (name, _) ↦ trim_space name
  ]
]

-- `buildRDPNegFailure`
unfoldable pub build_rdp_neg_failure : Bytes
build_rdp_neg_failure =
    3 ∷ 0 ∷ put_uint16 19 ++ 14 ∷ 208 ∷ zeros 5 ++ 3 ∷ 0 ∷ put_uint16 8 ++ 2 ∷ 0 ∷ 0 ∷ 0 ∷ []

abbrev pub rdp_acts : Bytes → List Act
rdp_acts username =
    op (auth_attempt ((codes "username", string username) ∷ []))
    ∷ record_credentials
    ∷ op (report ((codes "username", username) ∷ (codes "kind", codes "connection_request") ∷ []))
    ∷ write build_rdp_neg_failure
    ∷ []

-- the payload of the request; `none` is a run-time panic
unfoldable pub rdp_payload : Bytes → Option (List Act)
rdp_payload body =
    if ltb (length body) 7
    then some []
    else (get_elem? body 1 >>= λ type.
        if type == 224
        then (slice body 6 (length body) >>= λ cookie. some (rdp_acts (cookie_user cookie)))
        else some [])

-- from the header on
unfoldable pub rdp_header : IoError → ℕ → ℕ → ℕ → Bytes → Option (List Act)
rdp_header read_error version reserved size s =
    if not (version == 3) || not (reserved == 0)
    then some []
    else if ltb size 11 || ltb 1024 size
    then some []
    else elim (read_full (size - 4) s) [
      | none ↦ some (outcome (some read_error))
      | some (body, rest) ↦ rdp_payload body
    ]

-- the method `handle` of `RDPTrap`
unfoldable pub rdp_handle : IoError → Bytes → Option (List Act)
rdp_handle read_error (v ∷ r ∷ hi ∷ lo ∷ s) = rdp_header read_error v r (hi * 256 + lo) s
rdp_handle read_error _ = some (outcome (some read_error))
