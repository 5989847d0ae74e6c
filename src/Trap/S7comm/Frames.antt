-- ===== src/Trap/S7comm/Frames.antt =====
-- What the S7 trap sends is a frame that its own reader takes.
use ran.Base.{
  ℕ, zero, suc, ◌+◌, ◌-◌, ◌*◌, ◌/◌, ◌%◌, ◌≤◌, false, Option, none, some, [], ◌∷◌, ◌++◌, Bytes,
  length, length-append, ltb, ◌==◌, ◌≡◌, refl, arith, inl, inr, Bool-cases,
}
use ran.Trap.Proxy.Source.{read_full-append}
use ran.Trap.S7comm.{
  packet, s7_max_tpkt, read_payload, read_tpkt, S7Request, Kind, no_kind, setup, identify, write,
  control, unknown, parse_s7,
}
use ran.Trap.S7comm.Reply.{
  tpkt, s7_connect_confirm, s7_wrap, s7_ack_error, s7_setup_ack, pad_to, s7_szl_records,
  s7_userdata_response, szl_response, identify_response, data_response, s7_response,
}
use ran.Trap.S7comm.Total.{parse_s7-IsDecoded}

abbrev pub IsFrame : Bytes → Type 0
IsFrame r = (payload : Bytes) × (r ≡ tpkt payload) × (2 ≤ length payload) × (length payload ≤ 1020)

-- A frame reads as its payload, whatever follows it.
read_tpkt-tpkt :
    (payload rest : Bytes)
    → 2 ≤ length payload
    → length payload ≤ 1020
    → read_tpkt (tpkt payload ++ rest) ≡ packet payload rest
unfolding tpkt read_tpkt read_payload
read_tpkt-tpkt payload rest low high =
    rw
      (
        word (length payload) high,
        within (length payload) high,
        long (length payload) low,
        four (length payload),
        read_full-append payload rest,
      )
      refl
  where
    within : (n : ℕ) → n ≤ 1020 → ltb s7_max_tpkt (4 + n) ≡ false
    within n h = ground arith

    long : (n : ℕ) → 2 ≤ n → ltb (4 + n) 6 ≡ false
    long n h = ground arith

    four : (n : ℕ) → 4 + n - 4 ≡ n
    four n = omega arith

    word : (n : ℕ) → n ≤ 1020 → (4 + n) % 65_536 / 256 % 256 * 256 + (4 + n) % 65_536 % 256 ≡ 4 + n
    word n h = omega arith

s7_wrap-IsFrame : (pdu : Bytes) → length pdu ≤ 1000 → IsFrame (s7_wrap pdu)
unfolding s7_wrap
s7_wrap-IsFrame pdu h = (2 ∷ 240 ∷ 128 ∷ pdu, refl, omega arith, omega arith)

length-pad_to : (s : Bytes) (n : ℕ) → length (pad_to s n) ≡ n
unfolding pad_to
length-pad_to s zero = refl
length-pad_to [] (suc n) = omega (arith, length-pad_to [] n)
length-pad_to (x ∷ s) (suc n) = omega (arith, length-pad_to s n)

userdata-IsFrame :
    (req : S7Request) (body : Bytes) (err_code : ℕ)
    → length body ≤ 900
    → IsFrame (s7_userdata_response req body err_code)
unfolding s7_userdata_response
userdata-IsFrame req body err_code h = s7_wrap-IsFrame _ (omega (arith, h))

-- The records of every SZL id are short.
AreShort : Option (Bytes × ℕ) → Type 0
AreShort none = Unit
AreShort (some (records, size)) = length records ≤ 170

s7_szl_records-AreShort : (id : ℕ) → AreShort (s7_szl_records id)
unfolding s7_szl_records pad_to AreShort
s7_szl_records-AreShort id = elim (Bool-cases (id == 17)) [
  | inl one ↦ rw one (omega arith)
  | inr other ↦
      rw other
        (elim (Bool-cases (id == 28)) [ inl two ↦ rw two (omega arith) | inr rest ↦ rw rest tt ])
]

szl_response-IsFrame :
    (req : S7Request) (id : ℕ) (r : Option (Bytes × ℕ))
    → AreShort r
    → IsFrame (szl_response req id r)
unfolding szl_response AreShort
szl_response-IsFrame req id none h = userdata-IsFrame req _ 0 (omega arith)
szl_response-IsFrame req id (some (records, size)) h = userdata-IsFrame req _ 0 (omega (arith, h))

s7_ack_error-IsFrame : (pdu_ref : ℕ) → IsFrame (s7_ack_error pdu_ref)
unfolding s7_ack_error
s7_ack_error-IsFrame pdu_ref = s7_wrap-IsFrame _ (omega arith)

identify_response-IsFrame :
    (req : S7Request) (id function : Option ℕ) → IsFrame (identify_response req id function)
unfolding identify_response
identify_response-IsFrame req (some id) function =
    szl_response-IsFrame req id (s7_szl_records id) (s7_szl_records-AreShort id)
identify_response-IsFrame req none none = userdata-IsFrame req _ 33_028 (omega arith)
identify_response-IsFrame req none (some f) = s7_ack_error-IsFrame req.pdu_ref

data_response-IsFrame : (kind : Kind) (req : S7Request) → IsFrame (data_response kind req)
unfolding data_response s7_setup_ack
data_response-IsFrame setup req = s7_wrap-IsFrame _ (omega arith)
data_response-IsFrame identify req = identify_response-IsFrame req req.szl_id req.function
data_response-IsFrame no_kind req = s7_ack_error-IsFrame req.pdu_ref
data_response-IsFrame write req = s7_ack_error-IsFrame req.pdu_ref
data_response-IsFrame control req = s7_ack_error-IsFrame req.pdu_ref
data_response-IsFrame unknown req = s7_ack_error-IsFrame req.pdu_ref

-- A response that is sent is a frame.
abbrev pub IsAnswer : Option Bytes → Type 0
IsAnswer none = Unit
IsAnswer (some r) =
    IsFrame r × ((rest : Bytes) → (p : Bytes) × (read_tpkt (r ++ rest) ≡ packet p rest))

IsFrame-IsAnswer : (r : Bytes) → IsFrame r → IsAnswer (some r)
IsFrame-IsAnswer r (p, e, low, high) =
    ((p, e, low, high), λ rest. (p, rw e (read_tpkt-tpkt p rest low high)))

s7_response-IsAnswer : (req : S7Request) → length req.src_ref ≡ 2 → IsAnswer (s7_response req)
unfolding s7_response s7_connect_confirm
s7_response-IsAnswer req two = elim (Bool-cases (req.cotp == 224)) [
  | inl cr ↦ simp cr (
      IsFrame-IsAnswer _ (
        _,
        refl,
        omega arith,
        omega (
          arith,
          two,
          length-append req.src_ref
              (0 ∷ 1 ∷ 0 ∷ 192 ∷ 1 ∷ 10 ∷ 193 ∷ 2 ∷ 1 ∷ 0 ∷ 194 ∷ 2 ∷ 1 ∷ 2 ∷ []),
        ),
      ))
  | inr other ↦ simp other (elim (Bool-cases (req.cotp == 240)) [
    | inl dt ↦ simp dt (IsFrame-IsAnswer _ (data_response-IsFrame req.kind req))
    | inr rest ↦ simp rest tt
  ])
]

-- For every payload of a packet: `parseS7` decodes it without a read out of range, and the answer that
-- `s7Response` makes of it, if any, is one TPKT frame of at most 1024 bytes, which `readTPKT` takes
-- off the connection whole, whatever follows.
pub s7_response-parse_s7 :
    (p : Bytes) → (req : S7Request) × (parse_s7 p ≡ some req) × IsAnswer (s7_response req)
s7_response-parse_s7 p =
    let (req, e, two) = parse_s7-IsDecoded p in (req, e, s7_response-IsAnswer req two)
