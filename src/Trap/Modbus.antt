-- ===== src/Trap/Modbus.antt =====
-- internal/trap/modbus.go: the reader of a request, the kinds of function codes, the logged
-- attributes of a request and the exception that answers it. `none` is a run-time panic.
pub mod Caps
pub mod Session
use ran.Base.{
  ℕ, zero, suc, ◌+◌, ◌-◌, ◌*◌, ◌/◌, ◌%◌, min, Bool, true, false, not, ◌&&◌, ◌||◌, Option, none,
  some, List, [], ◌∷◌, ◌++◌, Bytes, codes, length, get_elem?, take, drop, slice, uint16, put_uint16,
  ltb, leb, ◌==◌, if◌then◌else◌, ◌>>=◌,
}

pub record Request : Type 0 where
  pub transaction_id : ℕ
  pub unit_id : ℕ
  pub fc : ℕ
  pub pdu_data : Bytes
  -- what the connection holds after the request
  pub left : Bytes

-- `io.ReadFull` of `n` bytes from what a connection sends until it closes: the bytes and the rest,
-- `none` for its error
unfoldable pub read_full : ℕ → Bytes → Option (Bytes × Bytes)
read_full n sent = if leb n (length sent) then some (take n sent, drop n sent) else none

-- the PDU behind a header: no function code, no request
unfoldable pub split_pdu : ℕ → ℕ → Option (Bytes × Bytes) → Option Request
split_pdu transaction_id unit_id none = none
split_pdu transaction_id unit_id (some ([], left)) = none
split_pdu transaction_id unit_id (some (fc ∷ pdu_data, left)) = some (record {
  transaction_id = transaction_id;
  unit_id = unit_id;
  fc = fc;
  pdu_data = pdu_data;
  left = left;
})

-- a header of seven bytes, and what follows it
unfoldable pub read_header : Bytes → Bytes → Option (Option Request)
unfolding split_pdu read_full
read_header header left = do
  a ← slice header 0 2
  transaction_id ← uint16 a
  b ← slice header 2 4
  protocol_id ← uint16 b
  c ← slice header 4 6
  size ← uint16 c
  unit_id ← get_elem? header 6
  if not (protocol_id == 0)
      then some none
      else if ltb size 1 || ltb 255 size
      then some none
      else some (split_pdu transaction_id unit_id (read_full (size - 1) left))

unfoldable pub read_from : Option (Bytes × Bytes) → Option (Option Request)
unfolding read_header
read_from none = some none
read_from (some (header, left)) = read_header header left

unfoldable pub read_modbus_request : Bytes → Option (Option Request)
unfolding read_from read_full
read_modbus_request sent = read_from (read_full 7 sent)

pub data ModbusKind : Type 0 where
  modbus_read : ModbusKind
  modbus_write : ModbusKind
  modbus_unknown : ModbusKind

unfoldable pub modbus_kind_of : ℕ → ModbusKind
modbus_kind_of fc =
    if fc == 1 || fc == 2 || fc == 3 || fc == 4 || fc == 43
    then modbus_read
    else if fc == 5 || fc == 6 || fc == 15 || fc == 16 || fc == 22 || fc == 23
    then modbus_write
    else modbus_unknown

abbrev pub modbus_max_read_bits : ℕ
modbus_max_read_bits = 2000

abbrev pub modbus_max_read_regs : ℕ
modbus_max_read_regs = 125

abbrev pub modbus_max_write_bits : ℕ
modbus_max_write_bits = 1968

abbrev pub modbus_max_write_regs : ℕ
modbus_max_write_regs = 123

abbrev pub modbus_max_write_regs2 : ℕ
modbus_max_write_regs2 = 121

unfoldable pub cap_quantity : ℕ → ℕ → ℕ
cap_quantity qty limit = min qty limit

abbrev pub Attrs : Type 0
Attrs = List (Bytes × ℕ)

-- `u16(off)`
unfoldable pub field : Bytes → ℕ → Option ℕ
field input off = do bytes ← slice input off (off + 2); uint16 bytes

-- an address and a quantity, held to its maximum
unfoldable pub range_attrs : Bytes → Bytes → ℕ → Option Attrs
unfolding field cap_quantity
range_attrs name input limit = do
  start ← field input 0
  qty ← field input 2
  some ((name, start) ∷ (codes "quantity", cap_quantity qty limit) ∷ [])

unfoldable pub value_attrs : Bytes → Option Attrs
unfolding field
value_attrs input = do
  address ← field input 0
  value ← field input 2
  some ((codes "address", address) ∷ (codes "value", value) ∷ [])

unfoldable pub mask_attrs : Bytes → Option Attrs
unfolding field
mask_attrs input = do
  address ← field input 0
  and_mask ← field input 2
  or_mask ← field input 4
  some ((codes "address", address) ∷ (codes "and_mask", and_mask) ∷ (codes "or_mask", or_mask) ∷ [])

unfoldable pub read_write_attrs : Bytes → Option Attrs
unfolding field cap_quantity
read_write_attrs input = do
  start ← field input 0
  qty ← field input 2
  address ← field input 4
  write_qty ← field input 6
  some (
      (codes "starting_address", start)
      ∷ (codes "quantity", cap_quantity qty modbus_max_read_regs)
      ∷ (codes "address", address)
      ∷ (codes "write_quantity", cap_quantity write_qty modbus_max_write_regs2)
      ∷ [])

unfoldable pub mei_attrs : Bytes → Option Attrs
mei_attrs input = do mei ← get_elem? input 0; some ((codes "mei_type", mei) ∷ [])

-- the attributes behind the function code, case by case in the order of the `switch`
unfoldable pub request_attrs : ℕ → Bytes → Option Attrs
unfolding range_attrs value_attrs mask_attrs read_write_attrs mei_attrs
request_attrs fc input =
    let n = length input in
    if (fc == 1 || fc == 2) && leb 4 n
    then range_attrs (codes "starting_address") input modbus_max_read_bits
    else if (fc == 3 || fc == 4) && leb 4 n
    then range_attrs (codes "starting_address") input modbus_max_read_regs
    else if (fc == 5 || fc == 6) && leb 4 n
    then value_attrs input
    else if fc == 15 && leb 4 n
    then range_attrs (codes "address") input modbus_max_write_bits
    else if fc == 16 && leb 4 n
    then range_attrs (codes "address") input modbus_max_write_regs
    else if fc == 22 && leb 6 n
    then mask_attrs input
    else if fc == 23 && leb 8 n
    then read_write_attrs input
    else if fc == 43 && leb 1 n
    then mei_attrs input
    else some []

unfoldable pub parse_modbus_pdu : ℕ → Bytes → Option Attrs
unfolding request_attrs
parse_modbus_pdu fc input = do
  attrs ← request_attrs fc input
  some ((codes "function_code", fc) ∷ attrs)

-- `fc | 0x80` of a byte
unfoldable pub build_modbus_exception : ℕ → ℕ → ℕ → ℕ → Bytes
build_modbus_exception transaction_id unit_id fc exception_code =
    put_uint16 transaction_id
    ++ put_uint16 0
    ++ put_uint16 3
    ++ unit_id ∷ (fc % 128 + 128) ∷ exception_code ∷ []

-- what the loop of `handle` does, one after another
pub data Action : Type 0 where
  -- `sess.Log` and `sess.LogPayload` of a request
  logged : Attrs → Action
  logged_payload : Attrs → Action
  -- `sess.Alert` with the meta of the attributes and whether the function code is unknown
  alerted : Attrs → Bool → Action
  wrote : Bytes → Action
  -- `setOutcome` of the error that ends the session
  ended : Action

-- the actions for a request of the kind, before the answer
unfoldable pub report : ModbusKind → Attrs → List Action
report modbus_read attrs = logged attrs ∷ []
report modbus_write attrs = logged_payload attrs ∷ alerted attrs false ∷ []
report modbus_unknown attrs = logged_payload attrs ∷ alerted attrs true ∷ []

-- the actions for one request, up to the answer
unfoldable pub serve : Request → Option (List Action)
unfolding modbus_kind_of build_modbus_exception
serve r = do
  attrs ← parse_modbus_pdu r.fc r.pdu_data
  some (
      report (modbus_kind_of r.fc) attrs
      ++ wrote (build_modbus_exception r.transaction_id r.unit_id r.fc 1) ∷ [])

-- The loop of `handle` on what the connection sends until it closes. `fails n` says whether the
-- write of the `n`-th answer returns an error. `none` is a panic, and the end of the fuel.
unfoldable pub handle : ℕ → (ℕ → Bool) → ℕ → Bytes → Option (List Action)
handle zero fails n sent = none
handle (suc fuel) fails n sent = do
  request ← read_modbus_request sent
  elim request [
    | none ↦ some (ended ∷ [])
    | some r ↦ do
      actions ← serve r
      if fails n
          then some (actions ++ ended ∷ [])
          else (do rest ← handle fuel fails (n + 1) r.left; some (actions ++ rest))
  ]
