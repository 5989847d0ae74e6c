-- ===== src/Trap/Minecraft.antt =====
-- internal/trap/minecraft.go: variable-length integers, strings and packets. `none` is a run-time
-- panic. An int32 is its 32 bits, a number below `2 ^ 32`.
pub mod RoundTrip
use ran.Base.{
  ℕ, zero, suc, ◌+◌, ◌-◌, ◌*◌, ◌/◌, ◌%◌, ◌^◌, Bool, true, false, ◌&&◌, ◌||◌, Option, none, some,
  List, [], ◌∷◌, ◌++◌, Bytes, length, take, drop, slice, ltb, leb, ◌==◌, if◌then◌else◌, ◌>>=◌,
}

-- the loop of `mcReadVarint`, with the bytes that may still come: seven bits of each byte, at
-- `scale`, which is `2 ^ (7 * i)`; the bits do not overlap, and those above 32 are lost
unfoldable pub read_from : ℕ → ℕ → ℕ → ℕ → Bytes → Option (ℕ × ℕ)
read_from zero i scale result input = none
read_from (suc n) i scale result [] = none
read_from (suc n) i scale result (b ∷ input) =
    let result' = (result + b % 128 * scale) % 2 ^ 32 in
    let rest = read_from n (i + 1) (scale * 128) result' input in
    if ltb b 0x80 then some (result', i + 1) else rest

-- `none` for the pair of zeros: no byte ended the integer
unfoldable pub mc_read_varint : Bytes → Option (ℕ × ℕ)
unfolding read_from
mc_read_varint input = read_from 5 0 1 0 input

-- the same loop over what a connection sends until it closes: the integer and the rest
unfoldable pub read_sent : ℕ → ℕ → ℕ → Bytes → Option (ℕ × Bytes)
read_sent zero scale result sent = none
read_sent (suc n) scale result [] = none
read_sent (suc n) scale result (b ∷ sent) =
    let result' = (result + b % 128 * scale) % 2 ^ 32 in
    let rest = read_sent n (scale * 128) result' sent in
    if ltb b 0x80 then some (result', sent) else rest

unfoldable pub mc_read_varint_from_reader : Bytes → Option (ℕ × Bytes)
unfolding read_sent
mc_read_varint_from_reader sent = read_sent 5 1 0 sent

-- the payload of the declared length, from 1 to 32767 (a negative one has its top bit set), and
-- what follows it
unfoldable pub read_payload : Option (ℕ × Bytes) → Option (Bytes × Bytes)
read_payload none = none
read_payload (some (size, sent)) =
    if ltb size 1 || ltb 32767 size || ltb (length sent) size
    then none
    else some (take size sent, drop size sent)

unfoldable pub mc_read_packet : Bytes → Option (Bytes × Bytes)
unfolding read_payload
mc_read_packet sent = read_payload (mc_read_varint_from_reader sent)

-- the loop of `mcWriteVarint` for a value that is not negative, on fuel
unfoldable pub write_from : ℕ → ℕ → Bytes
write_from zero val = []
write_from (suc fuel) val =
    let rest = write_from fuel (val / 128) in
    if val / 128 == 0 then (val % 128) ∷ [] else (val % 128 + 128) ∷ rest

-- an int32 that is not negative has 31 bits, which five bytes hold
unfoldable pub mc_write_varint : ℕ → Bytes
unfolding write_from
mc_write_varint val = write_from 5 val

-- `none` inside for the size 0: no string. A length with its top bit set is negative.
unfoldable pub string_of : Bytes → Option (ℕ × ℕ) → Option (Option (Bytes × ℕ))
string_of input none = some none
string_of input (some (size, l_size)) =
    if leb (2 ^ 31) size || ltb (length input) (l_size + size)
    then some none
    else (do text ← slice input l_size (l_size + size); some (some (text, l_size + size)))

unfoldable pub mc_read_string : Bytes → Option (Option (Bytes × ℕ))
unfolding string_of
mc_read_string input = string_of input (mc_read_varint input)

unfoldable pub mc_write_string : Bytes → Bytes
unfolding mc_write_varint
mc_write_string s = mc_write_varint (length s) ++ s

unfoldable pub mc_write_packet : ℕ → Bytes → Bytes
unfolding mc_write_varint
mc_write_packet packet_id payload =
    let inner = packet_id ∷ payload in mc_write_varint (length inner) ++ inner
