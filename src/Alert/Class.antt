-- ===== src/Alert/Class.antt =====
-- internal/alert/alerter.go: severity classes and the classification of a session.
use ran.Base.{ℕ, ◌≤◌, ◌||◌, List, [], ◌∷◌, Bytes, codes, ltb, if◌then◌else◌, arith}

-- `Class` is a string type; the program makes the three constants and the zero value only.
pub data Class : Type 0 where
  unset probe attack scan : Class

-- `string(c)`
unfoldable pub text : Class → Bytes
text unset = []
text probe = codes "probe"
text attack = codes "attack"
text scan = codes "scan"

unfoldable pub rank : Class → ℕ
rank probe = 1
rank attack = 2
rank scan = 3
rank unset = 0

abbrev pub classes : List Class
classes = probe ∷ attack ∷ scan ∷ []

pub data Transport : Type 0 where
  tcp udp : Transport

pub record SessionInfo : Type 0 where
  pub source_ip : Bytes
  pub protocol : Bytes
  pub transport : Transport
  pub dest_port : ℕ
  pub auth_attempts : ℕ
  pub commands : ℕ
  pub payload_bytes : ℕ
  pub alerted_class : Class

unfoldable pub classify : SessionInfo → Class
classify info =
    if ltb 0 info.auth_attempts || ltb 0 info.commands || ltb 0 info.payload_bytes
    then attack
    else probe

unfoldable pub max_class : Class → Class → Class
unfolding rank
max_class a b = if ltb (rank a) (rank b) then b else a

-- `MaxClass` is an upper bound of its arguments, and one of them.
pub max_class_upper :
    (a b : Class) → (rank a ≤ rank (max_class a b)) × (rank b ≤ rank (max_class a b))
unfolding max_class
max_class_upper a b = ground arith
