-- ===== src/Trap/Ber.antt =====
-- internal/trap/ber.go, and `readTLV` of internal/trap/snmp.go: BER lengths, strings, sequences
-- and integers, and the reader of a tag, a length and a value. `none` is a run-time panic.
pub mod RoundTrip
use ran.Base.{
  ℕ, zero, suc, ◌+◌, ◌-◌, ◌*◌, ◌/◌, ◌%◌, ◌^◌, Bool, true, false, ◌&&◌, Option, none, some, List, [],
  ◌∷◌, ◌++◌, Bytes, length, get_elem?, slice, ltb, leb, ◌==◌, if◌then◌else◌, ◌>>=◌,
}

-- the loop that skips leading zero bytes, at most `n` of them
unfoldable pub skip_zeros : ℕ → Bytes → Bytes
skip_zeros zero b = b
skip_zeros (suc n) [] = []
skip_zeros (suc n) (x ∷ xs) = let rest = skip_zeros n xs in if x == 0 then rest else x ∷ xs

-- `binary.BigEndian.PutUint32` of `uint32(v)`
abbrev pub put_uint32 : ℕ → Bytes
put_uint32 v = (v / 2 ^ 24 % 256) ∷ (v / 2 ^ 16 % 256) ∷ (v / 2 ^ 8 % 256) ∷ (v % 256) ∷ []

unfoldable pub ber_length : ℕ → Bytes
unfolding skip_zeros
ber_length n =
    if ltb n 0x80
    then n ∷ []
    else (let digits = skip_zeros 3 (put_uint32 n) in (0x80 + length digits) ∷ digits)

unfoldable pub ber_octet_string : ℕ → Bytes → Bytes
ber_octet_string tag content = tag ∷ (ber_length (length content) ++ content)

unfoldable pub concat : List Bytes → Bytes
concat [] = []
concat (c ∷ cs) = c ++ concat cs

unfoldable pub ber_sequence : ℕ → List Bytes → Bytes
ber_sequence tag children =
    let payload = concat children in tag ∷ (ber_length (length payload) ++ payload)

-- the loop of `berInteger` for a value that is not negative, on fuel: the bytes found so far
unfoldable pub integer_bytes : ℕ → ℕ → Bytes → Bytes
integer_bytes zero v found = found
integer_bytes (suc fuel) v found =
    let found' = (v % 256) ∷ found in
    let more = integer_bytes fuel (v / 256) found' in
    if v / 256 == 0 && ltb (v % 256) 0x80 then found' else more

-- an int64 has at most eight bytes, and a ninth that is zero
unfoldable pub ber_integer : ℕ → ℕ → Bytes
unfolding integer_bytes ber_length
ber_integer tag v =
    let content = integer_bytes 9 v [] in tag ∷ (ber_length (length content) ++ content)

pub record Tlv : Type 0 where
  pub tag : ℕ
  pub length : ℕ
  pub value : Bytes
  pub next : ℕ

-- `none` for `ok == false`
abbrev pub Read : Type 0
Read = Option Tlv

-- the length octets from the offset: `bad`, or the length and the offset behind them
unfoldable pub read_length : Bytes → ℕ → ℕ → Option (Option (ℕ × ℕ))
read_length input b offset =
    if ltb b 0x80
    then some (some (b, offset))
    else if b == 0x81
    then (if leb (length input) offset
        then some none
        else (do n ← get_elem? input offset; some (some (n, offset + 1))))
    else if b == 0x82
    then (if leb (length input) (offset + 1) then some none else (do
      hi ← get_elem? input offset
      lo ← get_elem? input (offset + 1)
      some (some (hi * 256 + lo, offset + 2))))
    else some none

-- the value between the offset and the length
unfoldable pub read_value : Bytes → ℕ → Option (ℕ × ℕ) → Option Read
read_value input tag none = some none
read_value input tag (some (n, offset)) = if ltb (length input) (offset + n) then some none else (do
  value ← slice input offset (offset + n)
  some (some (record { tag = tag; length = n; value = value; next = offset + n })))

-- from the first length octet on
unfoldable pub read_rest : Bytes → ℕ → ℕ → Option Read
unfolding read_length read_value
read_rest input tag offset = if leb (length input) (offset + 1) then some none else (do
  b ← get_elem? input (offset + 1)
  size ← read_length input b (offset + 2)
  read_value input tag size)

unfoldable pub read_tlv : Bytes → ℕ → Option Read
unfolding read_rest
read_tlv input offset =
    if leb (length input) offset
    then some none
    else (do tag ← get_elem? input offset; read_rest input tag offset)
