-- ===== src/Trap/S7comm/Reply.antt =====
-- internal/trap/s7comm.go: the answers of the S7 trap, with its fixed identity.
use ran.Base.{
  ℕ, zero, suc, ◌+◌, ◌/◌, ◌%◌, Option, none, some, [], ◌∷◌, ◌++◌, Bytes, codes, length, put_uint16,
  zeros, ◌==◌, if◌then◌else◌,
}
use ran.Trap.S7comm.{Kind, setup, identify, S7Request}

unfoldable pub tpkt : Bytes → Bytes
tpkt payload = 3 ∷ 0 ∷ put_uint16 ((4 + length payload) % 65_536) ++ payload

-- `s7ConnectConfirm`, `s7Wrap`, `s7AckError` and `s7SetupAck`
unfoldable pub s7_connect_confirm : Bytes → Bytes
s7_connect_confirm src_ref =
    tpkt (17 ∷ 208 ∷ src_ref ++ 0 ∷ 1 ∷ 0 ∷ 192 ∷ 1 ∷ 10 ∷ 193 ∷ 2 ∷ 1 ∷ 0 ∷ 194 ∷ 2 ∷ 1 ∷ 2 ∷ [])

unfoldable pub s7_wrap : Bytes → Bytes
s7_wrap pdu = tpkt (2 ∷ 240 ∷ 128 ∷ pdu)

unfoldable pub s7_ack_error : ℕ → Bytes
s7_ack_error pdu_ref = s7_wrap (50 ∷ 3 ∷ 0 ∷ 0 ∷ put_uint16 pdu_ref ++ 0 ∷ 0 ∷ 0 ∷ 0 ∷ 129 ∷ 4 ∷ [])

unfoldable pub s7_setup_ack : ℕ → Bytes
s7_setup_ack pdu_ref = s7_wrap (
    50 ∷ 3 ∷ 0 ∷ 0 ∷ put_uint16 pdu_ref
    ++ 0 ∷ 8 ∷ 0 ∷ 0 ∷ 0 ∷ 0 ∷ 240 ∷ 0 ∷ 0 ∷ 1 ∷ 0 ∷ 1 ∷ 1 ∷ 224 ∷ [])

unfoldable pub pad_to : Bytes → ℕ → Bytes
pad_to s zero = []
pad_to [] (suc n) = 0 ∷ pad_to [] n
pad_to (x ∷ s) (suc n) = x ∷ pad_to s n

abbrev pub module_record : ℕ → ℕ → Bytes
module_record idx version =
    put_uint16 idx ++ pad_to (codes "6ES7 315-2EH14-0AB0 ") 20 ++ zeros 4 ++ put_uint16 version

abbrev pub component_record : ℕ → Bytes → Bytes
component_record idx s = put_uint16 idx ++ pad_to s 32

-- `s7SZLRecords`: the records and their size
unfoldable pub s7_szl_records : ℕ → Option (Bytes × ℕ)
s7_szl_records id =
    if id == 17
    then some (module_record 1 1 ++ module_record 6 1 ++ module_record 7 8193, 28)
    else if id == 28
    then some (
      component_record 1 (codes "SIMATIC 300(1)")
          ++ component_record 2 (codes "CPU 315-2 PN/DP")
          ++ component_record 4 (codes "Original Siemens Equipment")
          ++ component_record 5 (codes "S C-F5U412342021")
          ++ component_record 7 (codes "CPU 315-2 PN/DP"),
      34,
    )
    else none

unfoldable pub s7_userdata_response : S7Request → Bytes → ℕ → Bytes
s7_userdata_response req data_ err_code =
    let param =
      0
      ∷ 1
      ∷ 18
      ∷ 8
      ∷ 18
      ∷ (128 + req.user_group)
      ∷ req.user_sub
      ∷ req.user_seq
      ∷ 0
      ∷ 0
      ∷ put_uint16 err_code in
    s7_wrap (
      50 ∷ 7 ∷ 0 ∷ 0 ∷ put_uint16 req.pdu_ref
      ++ put_uint16 (length param)
      ++ put_uint16 (length data_)
      ++ param
      ++ data_)

-- `s7SZLResponse`, for the id of the request and its records
unfoldable pub szl_response : S7Request → ℕ → Option (Bytes × ℕ) → Bytes
szl_response req id none = s7_userdata_response req (10 ∷ 0 ∷ 0 ∷ 0 ∷ []) 0
szl_response req id (some (records, size)) =
    let body =
      put_uint16 id
      ++ put_uint16 0
      ++ put_uint16 size
      ++ put_uint16 (length records / size)
      ++ records in
    s7_userdata_response req (255 ∷ 9 ∷ put_uint16 (length body) ++ body) 0

-- the answer to an identification, by its SZL id and its function
unfoldable pub identify_response : S7Request → Option ℕ → Option ℕ → Bytes
identify_response req (some id) _ = szl_response req id (s7_szl_records id)
identify_response req none none = s7_userdata_response req (10 ∷ 0 ∷ 0 ∷ 0 ∷ []) 33_028
identify_response req none (some f) = s7_ack_error req.pdu_ref

-- the answer of `s7Response` to a data unit
unfoldable pub data_response : Kind → S7Request → Bytes
data_response setup req = s7_setup_ack req.pdu_ref
data_response identify req = identify_response req req.szl_id req.function
data_response _ req = s7_ack_error req.pdu_ref

-- `s7Response`; `none` sends nothing
unfoldable pub s7_response : S7Request → Option Bytes
s7_response req =
    if req.cotp == 224
    then some (s7_connect_confirm req.src_ref)
    else if req.cotp == 240
    then some (data_response req.kind req)
    else none
