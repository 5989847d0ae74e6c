-- ===== src/Trap/Ldap/Bind.antt =====
-- A simple bind request is captured and refused, and the answer carries its identifier.
use ran.Base.{ℕ, ◌∷◌, ◌++◌, Bytes, length}
use ran.Trap.Ldap.{ber_int64}

-- an element with a length of one byte
abbrev pub short : ℕ → Bytes → Bytes
short tag content = tag ∷ length content ∷ content

-- the body of a simple bind request of version 3
abbrev pub bind_body : Bytes → Bytes → Bytes
bind_body name password = 2 ∷ 1 ∷ 3 ∷ 4 ∷ length name ∷ name ++ short 128 password

-- the message
abbrev pub bind_content : ℕ → Bytes → Bytes → Bytes
bind_content id name password = ber_int64 2 id ++ short 96 (bind_body name password)

abbrev pub bind_request : ℕ → Bytes → Bytes → Bytes
bind_request id name password = short 48 (bind_content id name password)
