-- ===== src/Trap/Session/Secrets.antt =====
-- The password of an attempt stays out of the log.
use ran.Base.{false, List, [], ◌∷◌, codes, bytes_eq, ◌≡◌, inl, inr, Bool-cases, All}
use ran.Trap.Redact.{off, Attr, auth_attrs, apply_password_mode}

abbrev pub IsPublic : Attr → Type 0
IsPublic a = bytes_eq a.0 (codes "password") ≡ false

-- With the mode "off", no attribute of a logged attempt is a password, whatever attributes the
-- handler gives.
auth_attrs-All : (attrs : List Attr) → All IsPublic (auth_attrs off attrs)
unfolding auth_attrs apply_password_mode
auth_attrs-All [] = tt
auth_attrs-All (a ∷ attrs) = elim (Bool-cases (bytes_eq a.0 (codes "password"))) [
  | inl secret ↦ rw secret (auth_attrs-All attrs)
  | inr shown ↦ rw shown (shown, auth_attrs-All attrs)
]
