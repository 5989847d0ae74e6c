-- ===== src/Trap/Mqtt.antt =====
-- internal/trap/mqtt.go: the reader of a packet and of a CONNECT. `none` is a run-time panic; an
-- error of the source is `none` inside.
pub mod Safe
use ran.Base.{
  ℕ, zero, suc, ◌+◌, ◌-◌, ◌*◌, ◌/◌, ◌%◌, ◌^◌, Bool, true, false, not, ◌&&◌, ◌||◌, Option, none,
  some, List, [], ◌∷◌, ◌++◌, Bytes, codes, length, get_elem?, take, drop, slice, uint16, bytes_eq,
  ltb, leb, ◌==◌, if◌then◌else◌, ◌>>=◌,
}

-- the loop of `readMQTTVarInt` over what the connection sends, with the bytes that may still come:
-- the value and the rest
unfoldable pub read_var_int_from : ℕ → ℕ → ℕ → Bytes → Option (ℕ × Bytes)
read_var_int_from zero value multiplier sent = none
read_var_int_from (suc n) value multiplier [] = none
read_var_int_from (suc n) value multiplier (b ∷ sent) =
    let value' = value + b % 128 * multiplier in
    let rest = read_var_int_from n value' (multiplier * 128) sent in
    if ltb b 0x80 then some (value', sent) else rest

unfoldable pub read_mqtt_var_int : Bytes → Option (ℕ × Bytes)
unfolding read_var_int_from
read_mqtt_var_int sent = read_var_int_from 4 0 1 sent

-- the payload of the declared length, and what follows it
unfoldable pub read_payload : ℕ → Option (ℕ × Bytes) → Option (ℕ × Bytes × Bytes)
read_payload packet_type none = none
read_payload packet_type (some (size, sent)) =
    if ltb (2 ^ 20) size || ltb (length sent) size
    then none
    else some (packet_type, take size sent, drop size sent)

-- `readMQTTPacket` on what the connection sends until it closes: the type, the payload, the rest
unfoldable pub read_mqtt_packet : Bytes → Option (ℕ × Bytes × Bytes)
unfolding read_payload
read_mqtt_packet [] = none
read_mqtt_packet (header ∷ sent) = read_payload (header / 16) (read_mqtt_var_int sent)

-- the loop of `decodeMQTTVarIntFromBytes`: the value, and the position behind it
unfoldable pub decode_from : ℕ → ℕ → ℕ → ℕ → Bytes → Option (ℕ × ℕ)
decode_from zero i value multiplier input = none
decode_from (suc n) i value multiplier [] = none
decode_from (suc n) i value multiplier (b ∷ input) =
    let value' = value + b % 128 * multiplier in
    let rest = decode_from n (i + 1) value' (multiplier * 128) input in
    if ltb b 0x80 then some (value', i + 1) else rest

unfoldable pub decode_mqtt_var_int_from_bytes : Bytes → Option (ℕ × ℕ)
unfolding decode_from
decode_mqtt_var_int_from_bytes input = decode_from 4 0 0 1 input

-- the string at the position, and the position behind it
unfoldable pub read_mqtt_string : Bytes → ℕ → Option (Option (Bytes × ℕ))
read_mqtt_string input pos = if ltb (length input) (pos + 2) then some none else (do
  tail ← slice input pos (length input)
  size ← uint16 tail
  if ltb (length input) (pos + 2 + size)
      then some none
      else (do text ← slice input (pos + 2) (pos + 2 + size); some (some (text, pos + 2 + size))))

pub record Connect : Type 0 where
  pub client_id : Bytes
  pub username : Bytes
  pub password : Bytes
  pub protocol_level : ℕ

abbrev pub Parsed : Type 0
Parsed = Option Connect

-- the password at the position, where the client has one: a malformed one is no error
unfoldable pub password_of : Connect → Option (Bytes × ℕ) → Parsed
password_of c none = some c
password_of c (some (password, pos)) = some (record c { password = password })

unfoldable pub with_password : Bytes → Bool → Connect → ℕ → Option Parsed
with_password input false c pos = some (some c)
with_password input true c pos = do found ← read_mqtt_string input pos; some (password_of c found)

-- a malformed user name is no error, and no password is read behind it
unfoldable pub username_of : Bytes → Bool → Connect → Option (Bytes × ℕ) → Option Parsed
username_of input has_password c none = some (some c)
username_of input has_password c (some (username, pos)) =
    with_password input has_password (record c { username = username }) pos

unfoldable pub with_username : Bytes → Bool → Bool → Connect → ℕ → Option Parsed
with_username input false has_password c pos = with_password input has_password c pos
with_username input true has_password c pos = do
  found ← read_mqtt_string input pos
  username_of input has_password c found

unfoldable pub client_of : Bytes → ℕ → ℕ → Option (Bytes × ℕ) → Option Parsed
client_of input level flags none = some none
client_of input level flags (some (client_id, pos)) =
    with_username input (leb 0x80 flags) (leb 0x40 (flags % 0x80))
      (record { client_id = client_id; username = []; password = []; protocol_level = level }) pos

-- from the client identifier on
unfoldable pub read_client : Bytes → ℕ → ℕ → ℕ → Option Parsed
read_client input level flags pos = do
  found ← read_mqtt_string input pos
  client_of input level flags found

unfoldable pub skip_properties : Bytes → ℕ → ℕ → ℕ → Option (ℕ × ℕ) → Option Parsed
skip_properties input level flags pos none = some none
skip_properties input level flags pos (some (props_len, n)) =
    read_client input level flags (pos + (n + props_len))

-- from the flags on: the keep-alive is skipped, and the properties of version 5
unfoldable pub read_body : Bytes → ℕ → ℕ → ℕ → Option Parsed
read_body input level flags pos =
    if level == 5
    then (if leb (length input) pos then some none else (do
      props ← slice input pos (length input)
      skip_properties input level flags pos (decode_mqtt_var_int_from_bytes props)))
    else read_client input level flags pos

-- from the protocol level on
unfoldable pub read_level : Bytes → ℕ → Option Parsed
read_level input pos = if ltb (length input) (pos + 4) then some none else (do
  level ← get_elem? input pos
  flags ← get_elem? input (pos + 1)
  read_body input level flags (pos + 4))

-- the protocol's name of the declared length
unfoldable pub read_protocol : Bytes → ℕ → Option Parsed
read_protocol input size = if ltb (length input) (2 + size) then some none else (do
  name ← slice input 2 (2 + size)
  if not (bytes_eq name (codes "MQTT")) && not (bytes_eq name (codes "MQIsdp"))
      then some none
      else read_level input (2 + size))

unfoldable pub parse_mqtt_connect : Bytes → Option Parsed
parse_mqtt_connect input =
    if ltb (length input) 10 then some none else (do size ← uint16 input; read_protocol input size)

unfoldable pub build_mqtt_connack : ℕ → Bytes
build_mqtt_connack level =
    if level == 5 then 0x20 ∷ 3 ∷ 0 ∷ 0x86 ∷ 0 ∷ [] else 0x20 ∷ 2 ∷ 0 ∷ 4 ∷ []

-- how `handle` ends: the error of the reader, the outcome "error", or the logged and alerted
-- client with the answer
pub data Outcome : Type 0 where
  unread : Outcome
  refused : Outcome
  answered : Connect → Bytes → Outcome

unfoldable pub reply : Parsed → Outcome
unfolding build_mqtt_connack
reply none = refused
reply (some c) = answered c (build_mqtt_connack c.protocol_level)

unfoldable pub handle_of : Option (ℕ × Bytes × Bytes) → Option Outcome
unfolding reply
handle_of none = some unread
handle_of (some (packet_type, payload, left)) =
    if not (packet_type == 1)
    then some refused
    else (do parsed ← parse_mqtt_connect payload; some (reply parsed))

-- `handle` on what the connection sends until it closes
unfoldable pub handle : Bytes → Option Outcome
unfolding handle_of
handle sent = handle_of (read_mqtt_packet sent)
