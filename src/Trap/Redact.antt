-- ===== src/Trap/Redact.antt =====
-- internal/trap/trap.go: how passwords appear in the log (RAN_LOG_PASSWORDS), in the credentials of
-- an attempt and in a command line.
pub mod Hides
use ran.Base.{
  ℕ, ◌+◌, Bool, true, false, not, ◌&&◌, ◌||◌, Option, none, some, List, [], ◌∷◌, ◌++◌, Bytes, codes,
  length, take, drop, leb, bytes_eq, if◌then◌else◌,
}
use ran.Text.{Unicode, fields, upper, equal_fold, trim_prefix, itoa}
use ran.Text as Text

pub data PasswordMode : Type 0 where
  off mask on : PasswordMode

-- `SetPasswordLogMode`: what it stores
unfoldable pub password_mode : Bytes → PasswordMode
password_mode mode =
    if bytes_eq mode (codes "mask") then mask else if bytes_eq mode (codes "on") then on else off

-- the value of an attribute of a log line: a string, or a value of another kind
pub data Value : Type 0 where
  string : Bytes → Value
  int : ℕ → Value

abbrev pub Attr : Type 0
Attr = Bytes × Value

-- `a.Value.String()`
abbrev pub to_string : Value → Bytes
to_string (string b) = b
to_string (int n) = itoa n

abbrev pub masked : Bytes → Bytes
masked secret = codes "*** (" ++ itoa (length secret) ++ codes ")"

unfoldable pub apply_password_mode : PasswordMode → Attr → Option Attr
apply_password_mode on a = some a
apply_password_mode mask a = some (codes "password", string (masked (to_string a.1)))
apply_password_mode off a = none

-- the loop of `LogAuthAttempt` over the attributes
unfoldable pub auth_attrs : PasswordMode → List Attr → List Attr
auth_attrs mode [] = []
auth_attrs mode (a ∷ attrs) =
    let rest = auth_attrs mode attrs in
    if bytes_eq a.0 (codes "password")
    then elim (apply_password_mode mode a) [ none ↦ rest | some b ↦ b ∷ rest ]
    else a ∷ rest

abbrev pub is_one_of : List Bytes → Bytes → Bool
is_one_of [] k = false
is_one_of (j ∷ js) k = if bytes_eq j k then true else is_one_of js k

-- `sensitiveVerbs` and `sensitiveMarkers`
abbrev pub is_verb : Bytes → Bool
is_verb = is_one_of (codes "LOGIN" ∷ codes "PASS" ∷ codes "OPER" ∷ codes "AUTHENTICATE" ∷ [])

abbrev pub is_marker : Bytes → Bool
is_marker = is_one_of (
    codes "AUTH"
    ∷ codes "AUTH2"
    ∷ codes "IDENTIFY"
    ∷ codes "REQUIREPASS"
    ∷ codes "MASTERAUTH"
    ∷ codes "MASTERUSER"
    ∷ [])

-- `redactTail`; `PasswordMode.on` does not reach it
unfoldable pub redact_tail : PasswordMode → List Bytes → ℕ → Bytes
redact_tail mode fs from =
    let secret = Text.join (codes " ") (drop from fs) in
    let kept = Text.join (codes " ") (take from fs) in
    elim mode [ mask ↦ kept ++ codes " " ++ masked secret | _ ↦ kept ]

module _ (unicode : Unicode) where
  -- ACL SETUSER <name> <rules...>
  unfoldable pub is_set_user : List Bytes → Bool
  is_set_user (f ∷ g ∷ _ ∷ _ ∷ _) =
      equal_fold unicode f (codes "ACL") && equal_fold unicode g (codes "SETUSER")
  is_set_user _ = false

  -- whether the field at an index carries a secret behind it
  unfoldable pub is_sensitive : ℕ → Bytes → Bool
  is_sensitive i f =
      let w = upper unicode (trim_prefix 58 f) in is_marker w || (leb i 1 && is_verb w)

  -- the loop of `redactCommand` from the field at an index on: where the secret begins
  unfoldable pub secret_from : ℕ → List Bytes → Option ℕ
  secret_from i [] = none
  secret_from i (f ∷ fs) =
      let rest = secret_from (i + 1) fs in
      if is_sensitive i f then elim fs [ [] ↦ none | _ ∷ _ ↦ some (i + 1) ] else rest

  unfoldable pub hidden_from : List Bytes → Option ℕ
  hidden_from fs = if is_set_user fs then some 3 else secret_from 0 fs

  unfoldable pub redact_command : PasswordMode → Bytes → Bytes
  redact_command on line = line
  redact_command mode line = elim (hidden_from (fields line)) [
    | none ↦ line
    | some from ↦ redact_tail mode (fields line) from
  ]
