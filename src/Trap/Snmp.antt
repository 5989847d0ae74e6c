-- ===== src/Trap/Snmp.antt =====
-- internal/trap/snmp.go: the SNMP handler. It reads version, community and PDU of a request and
-- answers with an empty response of error status 2. `none` is a run-time panic.
pub mod Safe
use ran.Base.{
  ℕ, zero, suc, Bool, true, false, ◌&&◌, not, Option, none, some, List, [], ◌∷◌, ◌++◌, Bytes,
  length, get_elem?, leb, ◌==◌, if◌then◌else◌, ◌>>=◌,
}
use ran.Trap.Ber.{Tlv, Read, read_tlv, ber_length, ber_octet_string, ber_sequence, ber_integer}

-- what the handler does: nothing, a logged parse failure, or the logged request with the answer,
-- where the request identifier can be read
pub data Outcome : Type 0 where
  parse_failed : Outcome
  unanswered : Bytes → ℕ → Outcome
  answered : Bytes → ℕ → Bytes → Outcome

unfoldable pub build_response : Bytes → ℕ → Bytes → Bytes
build_response community version request_id_value =
    let varbind_list = ber_sequence 0x30 [] in
    let error_index = ber_integer 0x02 0 in
    let error_status = ber_integer 0x02 2 in
    let request_id = 0x02 ∷ (ber_length (length request_id_value) ++ request_id_value) in
    let pdu_contents = request_id ++ error_status ++ error_index ++ varbind_list in
    let get_response = 0xA2 ∷ (ber_length (length pdu_contents) ++ pdu_contents) in
    let community_bytes = ber_octet_string 0x04 community in
    let version_bytes = ber_integer 0x02 version in
    ber_sequence 0x30 ((version_bytes ++ community_bytes ++ get_response) ∷ [])

-- the field that was read, where it has the tag
unfoldable pub tagged : ℕ → Read → Option Tlv
tagged tag none = none
tagged tag (some t) = if t.tag == tag then some t else none

-- the request identifier of a PDU
unfoldable pub answer : Bytes → ℕ → Bytes → Option Outcome
unfolding tagged
answer community version pdu = do
  field ← read_tlv pdu 0
  some (elim (tagged 0x02 field) [
    | none ↦ unanswered community version
    | some id ↦ answered community version (build_response community version id.value)
  ])

-- the PDU that was read, a GetRequest or a GetNextRequest
unfoldable pub read_pdu_of : Bytes → ℕ → Read → Option Outcome
read_pdu_of community version none = some parse_failed
read_pdu_of community version (some t) =
    if t.tag == 0xA0
    then answer community version t.value
    else if t.tag == 0xA1
    then answer community version t.value
    else some parse_failed

unfoldable pub read_pdu : Bytes → Bytes → ℕ → ℕ → Option Outcome
read_pdu seq community version next = do
  field ← read_tlv seq next
  read_pdu_of community version field

unfoldable pub read_community_of : Bytes → ℕ → Read → Option Outcome
read_community_of seq version none = some parse_failed
read_community_of seq version (some t) = read_pdu seq t.value version t.next

-- the community at the offset
unfoldable pub read_community : Bytes → ℕ → ℕ → Option Outcome
read_community seq version next = do
  field ← read_tlv seq next
  read_community_of seq version (tagged 0x04 field)

-- the version that was read: version 3 and above are refused
unfoldable pub read_version_of : Bytes → Read → Option Outcome
read_version_of seq none = some parse_failed
read_version_of seq (some t) = if length t.value == 0 then some parse_failed else (do
  version ← get_elem? t.value 0
  if leb 3 version then some parse_failed else read_community seq version t.next)

-- the fields of the sequence
unfoldable pub read_version : Bytes → Option Outcome
read_version seq = do field ← read_tlv seq 0; read_version_of seq (tagged 0x02 field)

unfoldable pub handle_packet_of : Read → Option Outcome
handle_packet_of none = some parse_failed
handle_packet_of (some t) = read_version t.value

unfoldable pub handle_packet : Bytes → Option Outcome
handle_packet input = do field ← read_tlv input 0; handle_packet_of (tagged 0x30 field)
