-- ===== src/Examples/Traps.antt =====
-- The limiter and the protocols' parsers on small inputs.
use ran.Base.{
  ℕ, true, false, some, [], ◌∷◌, ◌++◌, Bytes, codes, lookup, insert, length, ◌≡◌, refl, arith,
}
use ran.Trap.Ber.{ber_octet_string, read_tlv}
use ran.Trap.Ber.RoundTrip as Ber
use ran.Trap.Limiter.{Limiter, new_limiter, acquire}
use ran.Trap.Limiter.Counts.{here, next, enters, refused, IsExact, Reach-IsExact}
use ran.Trap.Minecraft as Minecraft
use ran.Trap.Minecraft.RoundTrip as MinecraftRoundTrip
use ran.Trap.Modbus as Modbus
use ran.Trap.Modbus.Session as Session
use ran.Trap.Mqtt as Mqtt
use ran.Trap.Mqtt.Safe as MqttSafe
use ran.Trap.Telnet.{parse_telnet_iac}
use ran.Trap.Telnet.Literal as TelnetLiteral

abbrev lan : Bytes
lan = codes "10.0.0.1"

abbrev started : Limiter
started = new_limiter 2 1

abbrev entered : Limiter
entered = (acquire lan started).0

first_enters : acquire lan started ≡ (entered, true)
unfolding acquire lookup
first_enters = refl

second_refused : acquire lan entered ≡ (entered, false)
unfolding acquire lookup insert
second_refused = refl

Reach-IsExact_example : IsExact entered (lan ∷ [])
Reach-IsExact_example =
    Reach-IsExact 2 1 (next (next here (enters lan first_enters)) (refused lan second_refused))

parse_telnet_iac-escaped_example :
    parse_telnet_iac (TelnetLiteral.escaped (65 ∷ 255 ∷ []))
    ≡ record { clean = 65 ∷ 255 ∷ []; replies = []; ttype = [] }
parse_telnet_iac-escaped_example = TelnetLiteral.parse_telnet_iac-escaped (65 ∷ 255 ∷ [])

read_tlv-ber_octet_string_example :
    (next : ℕ) × (read_tlv (ber_octet_string 4 (codes "public") ++ 1 ∷ []) 0
      ≡ some (some (record { tag = 4; length = 6; value = codes "public"; next = next })))
    × (next ≡ length (ber_octet_string 4 (codes "public")))
read_tlv-ber_octet_string_example =
    Ber.read_tlv-ber_octet_string 4 (codes "public") (1 ∷ []) (omega arith)

-- a query for the type A of `a`
abbrev query : Bytes
query = 1 ∷ 2 ∷ 1 ∷ 0 ∷ 0 ∷ 1 ∷ 0 ∷ 0 ∷ 0 ∷ 0 ∷ 0 ∷ 0 ∷ 1 ∷ 97 ∷ 0 ∷ 0 ∷ 1 ∷ 0 ∷ 1 ∷ []

abbrev request : Bytes
request = 0 ∷ 1 ∷ 0 ∷ 0 ∷ 0 ∷ 6 ∷ 1 ∷ 3 ∷ 0 ∷ 1 ∷ 0 ∷ 2 ∷ []

abbrev connect : Bytes
connect = 0 ∷ 4 ∷ (codes "MQTT" ++ 5 ∷ 2 ∷ 0 ∷ 60 ∷ 0 ∷ 0 ∷ 1 ∷ 97 ∷ [])

mc_read_packet-mc_write_packet_example :
    Minecraft.mc_read_packet (Minecraft.mc_write_packet 0 (codes "hi") ++ 7 ∷ [])
    ≡ some (0 ∷ codes "hi", 7 ∷ [])
mc_read_packet-mc_write_packet_example =
    MinecraftRoundTrip.mc_read_packet-mc_write_packet 0 (codes "hi") (7 ∷ []) (omega arith)

-- a CONNECT of version 5 as a packet
abbrev packet : Bytes
packet = 16 ∷ 14 ∷ connect

handle-Denies_example : (o : Mqtt.Outcome) × (Mqtt.handle packet ≡ some o) × MqttSafe.Denies o
handle-Denies_example = MqttSafe.handle-Denies packet

abbrev client : Mqtt.Connect
client = record { client_id = codes "a"; username = []; password = []; protocol_level = 5 }

-- The handler answers it.
packet_answered : Mqtt.handle packet ≡ some (Mqtt.answered client (32 ∷ 3 ∷ 0 ∷ 134 ∷ 0 ∷ []))
unfolding Mqtt.handle Mqtt.read_mqtt_packet Mqtt.read_mqtt_var_int Mqtt.parse_mqtt_connect
    Mqtt.read_protocol Mqtt.read_level Mqtt.read_body Mqtt.skip_properties
    Mqtt.decode_mqtt_var_int_from_bytes Mqtt.read_client Mqtt.read_mqtt_string Mqtt.client_of
    Mqtt.with_username Mqtt.with_password
packet_answered = refl
