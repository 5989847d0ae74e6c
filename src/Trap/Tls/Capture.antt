-- ===== src/Trap/Tls/Capture.antt =====
-- internal/trap/tlsfp.go: how the first TLS record of a connection is captured, read by read.
pub mod Whole
use ran.Base.{
  ℕ, ◌+◌, ◌-◌, ◌*◌, Bool, true, false, not, ◌||◌, List, [], ◌∷◌, ◌++◌, Bytes, length, take, ltb,
  leb, ◌==◌, if◌then◌else◌,
}

abbrev pub max_hello_record : ℕ
max_hello_record = 5 + 16_384

-- the part of `helloConn` that `capture` changes
pub record HelloConn : Type 0 where
  pub buf : Bytes
  pub done : Bool

abbrev pub new_conn : HelloConn
new_conn = record { buf = []; done = false }

-- the length of the record that the header declares, the header included
unfoldable pub needed : Bytes → ℕ
needed (_ ∷ _ ∷ _ ∷ hi ∷ lo ∷ _) = 5 + (hi * 256 + lo)
needed _ = 0

abbrev pub is_handshake : Bytes → Bool
is_handshake [] = false
is_handshake (x ∷ _) = x == 22

-- `capture`, from the buffer that the bytes were added to
unfoldable pub settle : Bytes → HelloConn
settle buf =
    if ltb (length buf) 5
    then record { buf = buf; done = false }
    else if not (is_handshake buf) || ltb max_hello_record (needed buf)
    then record { buf = []; done = true }
    else if leb (needed buf) (length buf)
    then record { buf = take (needed buf) buf; done = true }
    else record { buf = buf; done = false }

-- `capture`
unfoldable pub capture : Bytes → HelloConn → HelloConn
capture p c =
    let room = max_hello_record - length c.buf in
    settle (c.buf ++ (if ltb room (length p) then take room p else p))

-- `Read`, of the bytes that the connection gave
unfoldable pub read : Bytes → HelloConn → HelloConn
read [] c = c
read (x ∷ p) c = if c.done then c else capture (x ∷ p) c

-- several reads
unfoldable pub read_all : List Bytes → HelloConn → HelloConn
read_all [] c = c
read_all (p ∷ ps) c = read_all ps (read p c)
