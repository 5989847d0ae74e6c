-- ===== src/Trap/Snmp/Safe.antt =====
-- The SNMP handler never panics, whatever the datagram.
use ran.Base.{
  ℕ, Option, none, some, Bytes, length, leb, ◌==◌, ◌≡◌, refl, arith, Bool-cases, inl, inr,
  get_elem?-lt,
}
use ran.Trap.Ber.{Read, read_tlv}
use ran.Trap.Ber.RoundTrip.{Safe, read_tlv-Safe}
use ran.Trap.Snmp.{
  read_pdu_of, read_community_of, read_version_of, handle_packet_of, Outcome, parse_failed, tagged,
  answer, read_pdu, read_community, read_version, handle_packet,
}

total :
    (input : Bytes) (offset : ℕ) (r : Option Read) → Safe input offset r → (t : Read) × (r ≡ some t)
total input offset none h = absurd h
total input offset (some t) h = (t, refl)

-- A read gives an answer, though it may be that there is no field.
read_tlv_total : (input : Bytes) (offset : ℕ) → (r : Read) × (read_tlv input offset ≡ some r)
read_tlv_total input offset =
    total input offset (read_tlv input offset) (read_tlv-Safe input offset)

answer_total :
    (community : Bytes) (version : ℕ) (pdu : Bytes)
    → (o : Outcome) × (answer community version pdu ≡ some o)
unfolding answer
answer_total community version pdu = let (r, e) = read_tlv_total pdu 0 in rw e (_, refl)

pdu_of :
    (community : Bytes) (version : ℕ) (r : Read)
    → (o : Outcome) × (read_pdu_of community version r ≡ some o)
unfolding read_pdu_of
pdu_of community version none = (parse_failed, refl)
pdu_of community version (some t) = elim (Bool-cases (t.tag == 0xA0)) [
  | inl h ↦ rw h (answer_total community version t.value)
  | inr h ↦ elim (Bool-cases (t.tag == 0xA1)) [
    | inl k ↦ rw h (rw k (answer_total community version t.value))
    | inr k ↦ rw h (rw k (parse_failed, refl))
  ]
]

read_pdu_total :
    (seq community : Bytes) (version next : ℕ)
    → (o : Outcome) × (read_pdu seq community version next ≡ some o)
unfolding read_pdu
read_pdu_total seq community version next =
    let (r, e) = read_tlv_total seq next in rw e (pdu_of community version r)

community_of :
    (seq : Bytes) (version : ℕ) (r : Read)
    → (o : Outcome) × (read_community_of seq version r ≡ some o)
unfolding read_community_of
community_of seq version none = (parse_failed, refl)
community_of seq version (some t) = read_pdu_total seq t.value version t.next

read_community_total :
    (seq : Bytes) (version next : ℕ) → (o : Outcome) × (read_community seq version next ≡ some o)
unfolding read_community
read_community_total seq version next =
    let (r, e) = read_tlv_total seq next in rw e (community_of seq version (tagged 0x04 r))

version_of : (seq : Bytes) (r : Read) → (o : Outcome) × (read_version_of seq r ≡ some o)
unfolding read_version_of
version_of seq none = (parse_failed, refl)
version_of seq (some t) = elim (Bool-cases (length t.value == 0)) [
  | inl h ↦ rw h (parse_failed, refl)
  | inr h ↦
      let (v, e) = get_elem?-lt t.value 0 (ground arith) in
      elim (Bool-cases (leb 3 v)) [
        | inl k ↦ rw h (rw e (rw k (parse_failed, refl)))
        | inr k ↦ rw h (rw e (rw k (read_community_total seq v t.next)))
      ]
]

read_version_total : (seq : Bytes) → (o : Outcome) × (read_version seq ≡ some o)
unfolding read_version
read_version_total seq = let (r, e) = read_tlv_total seq 0 in rw e (version_of seq (tagged 0x02 r))

packet_of : (r : Read) → (o : Outcome) × (handle_packet_of r ≡ some o)
unfolding handle_packet_of
packet_of none = (parse_failed, refl)
packet_of (some t) = read_version_total t.value

-- The SNMP handler comes to one of its outcomes on every datagram: none of its reads is out of
-- range.
pub handle_packet_total : (input : Bytes) → (o : Outcome) × (handle_packet input ≡ some o)
unfolding handle_packet
handle_packet_total input = let (r, e) = read_tlv_total input 0 in rw e (packet_of (tagged 0x30 r))
