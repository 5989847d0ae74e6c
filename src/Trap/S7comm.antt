-- ===== src/Trap/S7comm.antt =====
-- internal/trap/s7comm.go: the frames and the decoding of a request of the S7 trap. A
-- code of -1 in the source, for "none", is `none`; the outer `none` is a run-time panic.
pub mod Reply
pub mod Frames
pub mod Total
pub mod Handler
use ran.Base.{
  ℕ, zero, suc, ◌+◌, ◌-◌, ◌*◌, ◌/◌, ◌%◌, Bool, true, false, not, ◌&&◌, ◌||◌, Option, none, some,
  List, [], ◌∷◌, ◌++◌, Bytes, codes, length, take, drop, get_elem?, slice, uint16, put_uint16,
  zeros, ltb, leb, ◌==◌, if◌then◌else◌, ◌>>=◌,
}
use ran.Trap.Proxy.{read_full}

abbrev pub s7_max_tpkt : ℕ
s7_max_tpkt = 1024

abbrev pub s7_max_packets : ℕ
s7_max_packets = 64

-- the error of `readTPKT`: of the connection, a header that is not TPKT, one that declares more
-- than the cap, or less than a header
pub data TpktError : Type 0 where
  io_error not_tpkt too_long malformed : TpktError

pub data Tpkt : Type 0 where
  refused : TpktError → Bytes → Tpkt
  packet : Bytes → Bytes → Tpkt

-- the header of four bytes, with what follows it
unfoldable pub read_payload : Bytes → ℕ → Bytes → Tpkt
read_payload hdr total rest =
    if ltb s7_max_tpkt total
    then refused too_long hdr
    else if ltb total 6
    then refused malformed hdr
    else elim (read_full (total - 4) rest) [ none ↦ refused io_error hdr | some p ↦ packet p.0 p.1 ]

-- `readTPKT`: the payload and the bytes behind it
unfoldable pub read_tpkt : Bytes → Tpkt
read_tpkt (v ∷ r ∷ hi ∷ lo ∷ rest) =
    let hdr = v ∷ r ∷ hi ∷ lo ∷ [] in
    if v == 3 && r == 0 then read_payload hdr (hi * 256 + lo) rest else refused not_tpkt hdr
read_tpkt s = refused io_error s

-- `req.kind`; `no_kind` is the empty string
pub data Kind : Type 0 where
  no_kind setup identify write control unknown : Kind

pub record S7Request : Type 0 where
  pub cotp : ℕ
  pub src_ref : Bytes
  pub kind : Kind
  pub function : Option ℕ
  pub pdu_ref : ℕ
  pub szl_id : Option ℕ
  pub user_group : ℕ
  pub user_sub : ℕ
  pub user_seq : ℕ

abbrev pub no_request : S7Request
no_request = record {
  cotp = 0;
  src_ref = zeros 2;
  kind = no_kind;
  function = none;
  pdu_ref = 0;
  szl_id = none;
  user_group = 0;
  user_sub = 0;
  user_seq = 0;
}

unfoldable pub job_kind : ℕ → Kind
job_kind f =
    if f == 240
    then setup
    else if f == 4
    then identify
    else if f == 5
    then write
    else if (leb 26 f && leb f 31) || f == 40 || f == 41
    then control
    else unknown

-- the SZL id of a read, from the data behind the parameters
unfoldable pub read_szl : Bytes → S7Request → Option S7Request
read_szl d req = if ltb (length d) 8 then some req else (do
  first ← get_elem? d 0
  id ← slice d 4 6 >>= uint16
  some (if first == 255 then record req { szl_id = some id } else req))

-- the parameters of a userdata request that has eight of them
unfoldable pub read_userdata : Bytes → Bytes → S7Request → Option S7Request
read_userdata param d req = do
  group ← get_elem? param 5
  sub ← get_elem? param 6
  seq ← get_elem? param 7
  let req' = record req { user_group = group % 16; user_sub = sub; user_seq = seq } in
      if group % 16 == 4 && sub == 1
      then read_szl d (record req' { kind = identify })
      else if group % 16 == 3 || (group % 16 == 7 && (sub == 1 || sub == 3))
      then some (record req' { kind = identify })
      else some req'

abbrev pub starts_userdata : Bytes → Bool
starts_userdata (a ∷ b ∷ c ∷ _) = a == 0 && b == 1 && c == 18
starts_userdata _ = false

-- by `rosctr`
unfoldable pub read_params : ℕ → Bytes → Bytes → S7Request → Option S7Request
read_params rosctr param d req =
    if rosctr == 1
    then (do f ← get_elem? param 0; some (record req { function = some f; kind = job_kind f }))
    else if rosctr == 7 && leb 8 (length param) && starts_userdata param
    then read_userdata param d (record req { kind = unknown })
    else some (record req { kind = unknown })

-- the S7 PDU, which has ten bytes
unfoldable pub read_pdu : Bytes → S7Request → Option S7Request
read_pdu s req = do
  rosctr ← get_elem? s 1
  pdu_ref ← slice s 4 6 >>= uint16
  plen ← slice s 6 8 >>= uint16
  if ltb (length s - 10) plen || plen == 0
      then some (record req { pdu_ref = pdu_ref; kind = unknown })
      else (do
        param ← slice s 10 (10 + plen)
        d ← slice s (10 + plen) (length s)
        read_params rosctr param d (record req { pdu_ref = pdu_ref }))

abbrev pub starts_pdu : Bytes → Bool
starts_pdu [] = false
starts_pdu (x ∷ _) = x == 50

-- a COTP data unit with a header of `1 + li` bytes
unfoldable pub read_data : Bytes → ℕ → S7Request → Option S7Request
read_data p li req = if ltb (length p) (1 + li) then some (record req { kind = unknown }) else (do
  s ← slice p (1 + li) (length p)
  if ltb (length s) 10 || not (starts_pdu s)
      then some (record req { kind = unknown })
      else read_pdu s req)

unfoldable pub read_cotp : Bytes → ℕ → ℕ → Option S7Request
read_cotp p li cotp =
    let req = record no_request { cotp = cotp } in
    if cotp == 224
    then (if ltb (length p) 6
        then some req
        else (do ref ← slice p 4 6; some (record req { src_ref = ref })))
    else if cotp == 240
    then read_data p li req
    else some req

-- `parseS7`
unfoldable pub parse_s7 : Bytes → Option S7Request
parse_s7 p =
    if ltb (length p) 2
    then some no_request
    else (do li ← get_elem? p 0; type ← get_elem? p 1; read_cotp p li (type / 16 * 16))
