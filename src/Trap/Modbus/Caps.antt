-- ===== src/Trap/Modbus/Caps.antt =====
-- The Modbus reader and the logged attributes: no panic, and quantities within the maxima.
use ran.Base.{
  ℕ, ◌+◌, ◌-◌, ◌≤◌, ◌<◌, Bool, not, ◌&&◌, ◌||◌, Option, none, some, [], ◌∷◌, Bytes, codes, length,
  take, drop, ltb, leb, ◌==◌, if◌then◌else◌, ◌≡◌, refl, arith, Bool-cases, inl, inr, get_elem?-lt,
  slice_total, uint16_total, bytes_eq, All, length-take, length-drop,
}
use ran.Trap.Modbus.{
  Request, read_full, split_pdu, read_header, read_from, read_modbus_request, cap_quantity, Attrs,
  field, range_attrs, value_attrs, mask_attrs, read_write_attrs, mei_attrs, request_attrs,
  parse_modbus_pdu,
}

field_total :
    (input : Bytes) (off : ℕ) → off + 2 ≤ length input → (n : ℕ) × (field input off ≡ some n)
unfolding field
field_total input off h =
    let (s, e, l) = slice_total input off (off + 2) (omega arith) h in
    let (n, f) = uint16_total s (omega (arith, l)) in (n, rw e f)

-- A quantity is at most the largest of the maxima; other attributes are not held.
abbrev pub IsCapped : Bytes × ℕ → Type 0
IsCapped (name, value) =
    if bytes_eq name (codes "quantity") || bytes_eq name (codes "write_quantity")
    then value ≤ 2000
    else Unit

-- The attributes are found without a panic, and are capped.
abbrev Fine : Option Attrs → Type 0
Fine r = (attrs : Attrs) × (r ≡ some attrs) × All IsCapped attrs

range_attrs-Fine :
    (name input : Bytes) (limit : ℕ)
    → ((n : ℕ) → IsCapped (name, n))
    → limit ≤ 2000
    → 4 ≤ length input
    → Fine (range_attrs name input limit)
unfolding range_attrs cap_quantity
range_attrs-Fine name input limit free small h =
    let (start, e) = field_total input 0 (omega arith) in
    let (qty, f) = field_total input 2 (omega arith) in
    rw e (rw f (_, refl, (free start, (omega arith, tt))))

value_attrs-Fine : (input : Bytes) → 4 ≤ length input → Fine (value_attrs input)
unfolding value_attrs
value_attrs-Fine input h =
    let (a, e) = field_total input 0 (omega arith) in
    let (b, f) = field_total input 2 (omega arith) in rw e (rw f (_, refl, (tt, (tt, tt))))

mask_attrs-Fine : (input : Bytes) → 6 ≤ length input → Fine (mask_attrs input)
unfolding mask_attrs
mask_attrs-Fine input h =
    let (a, e) = field_total input 0 (omega arith) in
    let (b, f) = field_total input 2 (omega arith) in
    let (c, g) = field_total input 4 (omega arith) in
    rw e (rw f (rw g (_, refl, (tt, (tt, (tt, tt))))))

read_write_attrs-Fine : (input : Bytes) → 8 ≤ length input → Fine (read_write_attrs input)
unfolding read_write_attrs cap_quantity
read_write_attrs-Fine input h =
    let (a, e) = field_total input 0 (omega arith) in
    let (b, f) = field_total input 2 (omega arith) in
    let (c, g) = field_total input 4 (omega arith) in
    let (d, k) = field_total input 6 (omega arith) in
    rw e (rw f (rw g (rw k (_, refl, (tt, (omega arith, (tt, (omega arith, tt))))))))

mei_attrs-Fine : (input : Bytes) → 1 ≤ length input → Fine (mei_attrs input)
unfolding mei_attrs
mei_attrs-Fine input h = let (a, e) = get_elem?-lt input 0 (omega arith) in rw e (_, refl, (tt, tt))

-- one case of the `switch`
on_case :
    (test : Bool) (n : ℕ) (input : Bytes) (r s : Option Attrs)
    → (n ≤ length input → Fine r)
    → Fine s
    → Fine (if test && leb n (length input) then r else s)
on_case test n input r s f g = elim (Bool-cases (test && leb n (length input))) [
  | inl h ↦ rw h (f (ground arith))
  | inr h ↦ rw h g
]

request_attrs-Fine : (fc : ℕ) (input : Bytes) → Fine (request_attrs fc input)
unfolding request_attrs
request_attrs-Fine fc input =
    let start = codes "starting_address" in
    let address = codes "address" in
    on_case _ 4 input _ _ (range_attrs-Fine start input 2000 (λ n. tt) (omega arith)) (
      on_case _ 4 input _ _ (range_attrs-Fine start input 125 (λ n. tt) (omega arith)) (
        on_case _ 4 input _ _ (value_attrs-Fine input) (
          on_case _ 4 input _ _ (range_attrs-Fine address input 1968 (λ n. tt) (omega arith)) (
            on_case _ 4 input _ _ (range_attrs-Fine address input 123 (λ n. tt) (omega arith)) (
              on_case _ 6 input _ _ (mask_attrs-Fine input) (
                on_case _ 8 input _ _ (read_write_attrs-Fine input)
                  (on_case _ 1 input _ _ (mei_attrs-Fine input) ([], refl, tt))))))))

-- `parseModbusPDU` gives its attributes for every function code and every data, without a read out
-- of range, and no quantity among them is above 2000, however large the declared one.
pub parse_modbus_pdu-All :
    (fc : ℕ) (input : Bytes)
    → (attrs : Attrs) × (parse_modbus_pdu fc input ≡ some attrs) × All IsCapped attrs
unfolding parse_modbus_pdu
parse_modbus_pdu-All fc input =
    let (attrs, e, h) = request_attrs-Fine fc input in rw e (_, refl, (tt, h))

-- A request that is read has less than 254 bytes behind its function code, and leaves at least seven
-- bytes fewer than the bound on the connection.
abbrev pub IsSmall : ℕ → Option Request → Type 0
IsSmall k none = Unit
IsSmall k (some r) = (length r.pdu_data < 254) × (length r.left + 7 ≤ k)

split_pdu-IsSmall :
    (transaction_id unit_id k : ℕ) (pdu left : Bytes)
    → length pdu < 255
    → length left + 7 ≤ k
    → IsSmall k (split_pdu transaction_id unit_id (some (pdu, left)))
unfolding split_pdu
split_pdu-IsSmall transaction_id unit_id k [] left h l = tt
split_pdu-IsSmall transaction_id unit_id k (fc ∷ pdu_data) left h l = (omega (arith, h), l)

read_pdu-IsSmall :
    (transaction_id unit_id n : ℕ) (sent : Bytes)
    → n < 255
    → IsSmall (length sent + 7) (split_pdu transaction_id unit_id (read_full n sent))
unfolding split_pdu read_full
read_pdu-IsSmall transaction_id unit_id n sent h = elim (Bool-cases (leb n (length sent))) [
  | inr short ↦ rw short tt
  | inl long ↦ rw long (
      split_pdu-IsSmall transaction_id unit_id (length sent + 7) (take n sent) (drop n sent)
        (ground (arith, length-take n sent)) (omega (arith, length-drop n sent)))
]

read_header_total :
    (header left : Bytes)
    → length header ≡ 7
    → (r : Option Request) × (read_header header left ≡ some r) × IsSmall (length left + 7) r
unfolding read_header
read_header_total header left h =
    let (a, e, l) = slice_total header 0 2 (omega arith) (omega (arith, h)) in
    let (id, f) = uint16_total a (omega (arith, l)) in
    let (b, g, m) = slice_total header 2 4 (omega arith) (omega (arith, h)) in
    let (protocol_id, k) = uint16_total b (omega (arith, m)) in
    let (c, o, p) = slice_total header 4 6 (omega arith) (omega (arith, h)) in
    let (size, q) = uint16_total c (omega (arith, p)) in
    let (unit_id, u) = get_elem?-lt header 6 (omega (arith, h)) in
    rw e (
      rw f (
        rw g (
          rw k (
            rw o (
              rw q (
                rw u (elim (Bool-cases (not (protocol_id == 0))) [
                  | inl bad ↦ (none, rw bad refl, tt)
                  | inr ok ↦ elim (Bool-cases (ltb size 1 || ltb 255 size)) [
                    | inl out ↦ (none, rw ok (rw out refl), tt)
                    | inr fits ↦ (
                      _,
                      rw ok (rw fits refl),
                      read_pdu-IsSmall id unit_id (size - 1) left (ground arith),
                    )
                  ]
                ])))))))

-- `readModbusRequest` gives a request or an error, whatever the connection sends: it reads nothing
-- out of range, and a request that it reads has less than 254 bytes behind its function code and
-- has taken its header of seven bytes off the connection.
pub read_modbus_request_total :
    (sent : Bytes)
    → (r : Option Request) × (read_modbus_request sent ≡ some r) × IsSmall (length sent) r
unfolding read_modbus_request read_from read_full
read_modbus_request_total sent = elim (Bool-cases (leb 7 (length sent))) [
  | inr short ↦ (none, rw short refl, tt)
  | inl long ↦
      let all : length (take 7 sent) ≡ 7 = ground (arith, length-take 7 sent) in
      let (r, e, small) = read_header_total (take 7 sent) (drop 7 sent) all in
      (r, rw long e, bound r (ground arith) small)
]
  where
    bound :
        (r : Option Request)
        → 7 ≤ length sent
        → IsSmall (length (drop 7 sent) + 7) r
        → IsSmall (length sent) r
    bound none long h = tt
    bound (some r) long (a, b) = (a, omega (arith, b, length-drop 7 sent))
