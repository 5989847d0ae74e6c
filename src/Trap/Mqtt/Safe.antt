-- ===== src/Trap/Mqtt/Safe.antt =====
-- The readers of an MQTT CONNECT never panic, whatever the payload.
use ran.Base.{
  get_elem?, ℕ, ◌-◌, if◌then◌else◌, ◌+◌, Bool, true, false, not, ◌&&◌, Option, none, some, Bytes,
  codes, length, bytes_eq, ltb, leb, ◌==◌, ◌≡◌, refl, arith, Bool-cases, inl, inr, get_elem?-lt,
  slice_total, uint16_total,
}
use ran.Trap.Mqtt.{
  Outcome, unread, refused, answered, reply, handle_of, handle, read_mqtt_packet,
  build_mqtt_connack, read_mqtt_string, Connect, Parsed, with_password, username_of, with_username,
  client_of, read_client, skip_properties, read_body, read_level, read_protocol, parse_mqtt_connect,
  decode_mqtt_var_int_from_bytes,
}

-- A string is read, or refused, without a panic; the position behind it is within the input.
read_mqtt_string_safe :
    (input : Bytes) (pos : ℕ) → (r : Option (Bytes × ℕ)) × (read_mqtt_string input pos ≡ some r)
unfolding read_mqtt_string
read_mqtt_string_safe input pos = elim (Bool-cases (ltb (length input) (pos + 2))) [
  | inl cut ↦ (none, rw cut refl)
  | inr room ↦
      let (s, e, l) = slice_total input pos (length input) (ground arith) (omega arith) in
      let (n, f) = uint16_total s (ground (arith, l)) in
      elim (Bool-cases (ltb (length input) (pos + 2 + n))) [
        | inl cut ↦ (none, rw room (rw e (rw f (rw cut refl))))
        | inr fits ↦
            let (t, g, _) =
              slice_total input (pos + 2) (pos + 2 + n) (omega arith) (ground arith) in
            (some (t, pos + 2 + n), rw room (rw e (rw f (rw fits (rw g refl)))))
      ]
]

with_password_safe :
    (input : Bytes) (b : Bool) (c : Connect) (pos : ℕ)
    → (r : Parsed) × (with_password input b c pos ≡ some r)
unfolding with_password
with_password_safe input false c pos = (some c, refl)
with_password_safe input true c pos = let (r, e) = read_mqtt_string_safe input pos in rw e (_, refl)

username_of_safe :
    (input : Bytes) (b : Bool) (c : Connect) (r : Option (Bytes × ℕ))
    → (p : Parsed) × (username_of input b c r ≡ some p)
unfolding username_of
username_of_safe input b c none = (some c, refl)
username_of_safe input b c (some (username, pos)) =
    with_password_safe input b (record c { username = username }) pos

with_username_safe :
    (input : Bytes) (a b : Bool) (c : Connect) (pos : ℕ)
    → (r : Parsed) × (with_username input a b c pos ≡ some r)
unfolding with_username
with_username_safe input false b c pos = with_password_safe input b c pos
with_username_safe input true b c pos =
    let (r, e) = read_mqtt_string_safe input pos in rw e (username_of_safe input b c r)

client_of_safe :
    (input : Bytes) (level flags : ℕ) (r : Option (Bytes × ℕ))
    → (p : Parsed) × (client_of input level flags r ≡ some p)
unfolding client_of
client_of_safe input level flags none = (none, refl)
client_of_safe input level flags (some (client_id, pos)) = with_username_safe input _ _ _ pos

read_client_safe :
    (input : Bytes) (level flags pos : ℕ)
    → (p : Parsed) × (read_client input level flags pos ≡ some p)
unfolding read_client
read_client_safe input level flags pos =
    let (r, e) = read_mqtt_string_safe input pos in rw e (client_of_safe input level flags r)

skip_properties_safe :
    (input : Bytes) (level flags pos : ℕ) (r : Option (ℕ × ℕ))
    → (p : Parsed) × (skip_properties input level flags pos r ≡ some p)
unfolding skip_properties
skip_properties_safe input level flags pos none = (none, refl)
skip_properties_safe input level flags pos (some (n, k)) =
    read_client_safe input level flags (pos + (k + n))

read_body_safe :
    (input : Bytes) (level flags pos : ℕ)
    → (p : Parsed) × (read_body input level flags pos ≡ some p)
unfolding read_body
read_body_safe input level flags pos = elim (Bool-cases (level == 5)) [
  | inr old ↦ rw old (read_client_safe input level flags pos)
  | inl new ↦ elim (Bool-cases (leb (length input) pos)) [
    | inl cut ↦ (none, rw new (rw cut refl))
    | inr room ↦
        let (props, e, _) = slice_total input pos (length input) (ground arith) (omega arith) in
        rw new (
          rw room (
            rw e
              (skip_properties_safe input level flags pos (decode_mqtt_var_int_from_bytes props))))
  ]
]

read_level_safe : (input : Bytes) (pos : ℕ) → (p : Parsed) × (read_level input pos ≡ some p)
unfolding read_level
read_level_safe input pos = elim (Bool-cases (ltb (length input) (pos + 4))) [
  | inl cut ↦ (none, rw cut refl)
  | inr room ↦
      let (level, e) = get_elem?-lt input pos (ground arith) in
      let (flags, f) = get_elem?-lt input (pos + 1) (ground arith) in
      rw room (rw e (rw f (read_body_safe input level flags (pos + 4))))
]

read_protocol_safe : (input : Bytes) (size : ℕ) → (p : Parsed) × (read_protocol input size ≡ some p)
unfolding read_protocol
read_protocol_safe input size = elim (Bool-cases (ltb (length input) (2 + size))) [
  | inl cut ↦ (none, rw cut refl)
  | inr room ↦
      let (name, e, _) = slice_total input 2 (2 + size) (omega arith) (ground arith) in
      elim (Bool-cases
        (not (bytes_eq name (codes "MQTT")) && not (bytes_eq name (codes "MQIsdp")))) [
          | inl other ↦ (none, rw room (rw e (rw other refl)))
          | inr known ↦ rw room (rw e (rw known (read_level_safe input (2 + size))))
        ]
]

-- `parseMQTTConnect` comes to an error or to a client on every payload: none of its reads is out
-- of range, also where the declared properties reach past the end.
pub parse_mqtt_connect_total : (input : Bytes) → (p : Parsed) × (parse_mqtt_connect input ≡ some p)
unfolding parse_mqtt_connect
parse_mqtt_connect_total input = elim (Bool-cases (ltb (length input) 10)) [
  | inl cut ↦ (none, rw cut refl)
  | inr room ↦
      let (size, e) = uint16_total input (ground arith) in
      rw room (rw e (read_protocol_safe input size))
]

-- An answer is a CONNACK, the length of what follows its second byte, and the code for a bad user
-- name or password: 134 for a client of version 5, and 4 for any other.
abbrev pub Denies : Outcome → Type 0
Denies unread = Unit
Denies refused = Unit
Denies (answered c frame) =
    (get_elem? frame 0 ≡ some 0x20)
    × (get_elem? frame 1 ≡ some (length frame - 2))
    × (get_elem? frame 3 ≡ some (if c.protocol_level == 5 then 0x86 else 4))

reply-Denies : (p : Parsed) → Denies (reply p)
unfolding reply build_mqtt_connack
reply-Denies none = tt
reply-Denies (some c) = elim (Bool-cases (c.protocol_level == 5)) [
  | inl five ↦ rw five (refl, refl, refl)
  | inr other ↦ rw other (refl, refl, refl)
]

handle_of-Denies :
    (r : Option (ℕ × Bytes × Bytes)) → (o : Outcome) × (handle_of r ≡ some o) × Denies o
unfolding handle_of
handle_of-Denies none = (unread, refl, tt)
handle_of-Denies (some (packet_type, payload, left)) = elim (Bool-cases (not (packet_type == 1))) [
  | inl other ↦ rw other (refused, refl, tt)
  | inr connect ↦
      let (p, e) = parse_mqtt_connect_total payload in
      rw connect (rw e (reply p, refl, reply-Denies p))
]

-- The MQTT handler comes to an outcome whatever the connection sends, without a read out of range,
-- and an answer that it sends is a CONNACK whose second byte is the length of what follows, and which
-- denies the client: its code is 134 for a client of version 5, and 4 for any other.
pub handle-Denies : (sent : Bytes) → (o : Outcome) × (handle sent ≡ some o) × Denies o
unfolding handle
handle-Denies sent = handle_of-Denies (read_mqtt_packet sent)
