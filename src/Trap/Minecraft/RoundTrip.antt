-- ===== src/Trap/Minecraft/RoundTrip.antt =====
-- What the Minecraft writers produce, the readers read back.
use ran.Base.{
  ℕ, zero, suc, ◌+◌, ◌*◌, ◌/◌, ◌%◌, ◌^◌, ◌<◌, true, false, ◌||◌, some, ◌∷◌, ◌++◌, Bytes, length,
  ltb, ◌==◌, ◌≡◌, refl, arith, Bool-cases, inl, inr, take-append, drop-append, append_assoc,
  length-append, ap, ◌∙◌,
}
use native.Mathlib.Nat.{pow-suc}
use ran.Trap.Minecraft.{
  read_sent, mc_read_varint_from_reader, read_payload, mc_read_packet, write_from, mc_write_varint,
  mc_write_packet,
}

-- A value at a scale is its upper digits at the next scale, and its lowest digit.
scale_split : (val scale : ℕ) → val * scale ≡ val / 128 * (scale * 128) + val % 128 * scale
scale_split val scale =
    let p : val ≡ val / 128 * 128 + val % 128 = omega arith in ap (λ v. v * scale) p ∙ omega arith

-- A sum below the bound is not cut.
not_cut : (a b c : ℕ) → a + b + c < 2 ^ 32 → (c + a) % 2 ^ 32 ≡ c + a
not_cut a b c h = omega arith

-- The last byte of a value is read.
read_last :
    (fuel val scale result : ℕ) (rest : Bytes)
    → (val / 128 == 0) ≡ true
    → val * scale + result < 2 ^ 32
    → read_sent (suc fuel) scale result (write_from (suc fuel) val ++ rest)
      ≡ some (result + val * scale, rest)
unfolding read_sent write_from
read_last fuel val scale result rest last k =
    let same : val % 128 ≡ val = ground arith in
    let again : ltb val 0x80 ≡ true = ground arith in
    let sum = not_cut (val * scale) 0 result (omega arith) in rw last (simp (same, again, sum))

-- A byte before the last is read, where the rest of the value is.
read_more :
    (fuel val scale result : ℕ) (rest : Bytes)
    → (val / 128 == 0) ≡ false
    → val * scale + result < 2 ^ 32
    → read_sent fuel
        (scale * 128)
        (result + val % 128 * scale)
        (write_from fuel (val / 128) ++ rest)
      ≡ some (result + val % 128 * scale + val / 128 * (scale * 128), rest)
    → read_sent (suc fuel) scale result (write_from (suc fuel) val ++ rest)
      ≡ some (result + val * scale, rest)
unfolding read_sent write_from
read_more fuel val scale result rest more k next =
    let digit : (val % 128 + 128) % 128 ≡ val % 128 = omega arith in
    let go : ltb (val % 128 + 128) 0x80 ≡ false = ground arith in
    let split = scale_split val scale in
    let sum =
      not_cut (val % 128 * scale) (val / 128 * (scale * 128)) result (omega (arith, split)) in
    let total : result + val % 128 * scale + val / 128 * (scale * 128) ≡ result + val * scale =
      omega (arith, split) in
    rw more (simp (digit, go, sum, next, total))

-- What the loop of the writer writes with enough fuel, the loop of the reader reads: the value at
-- the scale that was reached, added to what was read before.
read_sent-write_from :
    (fuel val scale result : ℕ) (rest : Bytes)
    → val < 128 ^ suc fuel
    → val * scale + result < 2 ^ 32
    → read_sent (suc fuel) scale result (write_from (suc fuel) val ++ rest)
      ≡ some (result + val * scale, rest)
read_sent-write_from zero val scale result rest h k =
    read_last zero val scale result rest (ground arith) k
read_sent-write_from (suc fuel) val scale result rest h k = elim (Bool-cases (val / 128 == 0)) [
  | inl last ↦ read_last (suc fuel) val scale result rest last k
  | inr more ↦
      let split = scale_split val scale in
      let top : 128 ^ suc (suc fuel) ≡ 128 ^ suc fuel * 128 = pow-suc 128 (suc fuel) in
      let below : val / 128 < 128 ^ suc fuel = omega (arith, top) in
      let next =
        read_sent-write_from fuel (val / 128) (scale * 128) (result + val % 128 * scale) rest below
          (omega (arith, split)) in
      read_more (suc fuel) val scale result rest more k next
]

-- `mcReadVarintFromReader` reads back what `mcWriteVarint` wrote, whatever follows it, for an
-- int32 that is not negative.
pub mc_read_varint_from_reader-mc_write_varint :
    (val : ℕ) (rest : Bytes)
    → val < 2 ^ 31
    → mc_read_varint_from_reader (mc_write_varint val ++ rest) ≡ some (val, rest)
unfolding mc_read_varint_from_reader mc_write_varint
mc_read_varint_from_reader-mc_write_varint val rest h =
    let one : 0 + val * 1 ≡ val = omega arith in
    read_sent-write_from 4 val 1 0 rest (omega arith) (omega arith) ∙ rw one refl

-- `mcReadPacket` reads back what `mcWritePacket` wrote, whatever follows it: the identifier and
-- the payload, where these are at most 32767 bytes.
pub mc_read_packet-mc_write_packet :
    (packet_id : ℕ) (payload rest : Bytes)
    → length payload < 32767
    → mc_read_packet (mc_write_packet packet_id payload ++ rest) ≡ some (packet_id ∷ payload, rest)
unfolding mc_read_packet mc_write_packet read_payload
mc_read_packet-mc_write_packet packet_id payload rest h =
    let inner : Bytes = packet_id ∷ payload in
    let size : length inner < 32768 = omega arith in
    let assoc = append_assoc (mc_write_varint (length inner)) inner rest in
    let read =
      mc_read_varint_from_reader-mc_write_varint (length inner) (inner ++ rest)
        (omega (arith, size)) in
    let fits : (ltb (length inner) 1
          || ltb 32767 (length inner)
          || ltb (length (inner ++ rest)) (length inner))
        ≡ false =
      ground (arith, length-append inner rest) in
    rw assoc (rw read (rw fits (rw (take-append inner rest, drop-append inner rest) refl)))
