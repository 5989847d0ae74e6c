-- ===== src/Trap/Socks5/Capture.antt =====
-- What a SOCKS client sends to log in is captured, whatever its bytes.
use ran.Base.{ℕ, true, List, [], ◌∷◌, ◌++◌, Bytes, length, ◌≡◌, refl, ◌∙◌}
use ran.Trap.Dialog.{Act, write}
use ran.Trap.Proxy.Source.{read_full-append}
use ran.Trap.Session.{IoError}
use ran.Trap.Socks5.{
  any_eq, attempt_acts, with_bytes, with_field, handle_user_pass_auth, choose_method, socks5_handle,
}

-- a field as it is sent, with its length before it
abbrev pub field : Bytes → Bytes → Bytes
field b rest = length b ∷ b ++ rest

module _ (read_error : IoError) where
  with_bytes-append :
      (b rest : Bytes) (next : Bytes → Bytes → List Act)
      → with_bytes read_error (length b) (b ++ rest) next ≡ next b rest
  unfolding with_bytes
  with_bytes-append b rest next = rw (with_bytes, read_full-append b rest) refl

  with_byte :
      (x : ℕ) (rest : Bytes) (next : Bytes → Bytes → List Act)
      → with_bytes read_error 1 (x ∷ rest) next ≡ next (x ∷ []) rest
  with_byte x rest next = with_bytes-append (x ∷ []) rest next

  with_field-append :
      (b rest : Bytes) (next : Bytes → Bytes → List Act)
      → with_field read_error (field b rest) next ≡ next b rest
  with_field-append b rest next = with_byte (length b) (b ++ rest) _ ∙ with_bytes-append b rest next

  -- For any methods among which is the one with user name and password, any user name, any password
  -- and any bytes behind: the SOCKS5 handler chooses that method, captures exactly the two, and
  -- refuses the client.
  pub socks5_handle-captures :
      (ip_string : Bytes → Bytes) (methods : Bytes) (version : ℕ) (username password rest : Bytes)
      → any_eq 2 methods ≡ true
      → socks5_handle read_error ip_string
          (5 ∷ field methods (version ∷ field username (field password rest)))
        ≡ write (5 ∷ 2 ∷ []) ∷ attempt_acts username password ++ write (1 ∷ 1 ∷ []) ∷ []
  unfolding socks5_handle choose_method handle_user_pass_auth
  socks5_handle-captures ip_string methods version username password rest h =
      simp (with_byte, with_bytes-append, h) refl
