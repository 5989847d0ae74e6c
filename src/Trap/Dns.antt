-- ===== src/Trap/Dns.antt =====
-- internal/trap/dns.go: the DNS handler, the reader of a name and the names of the query types.
-- `none` is a run-time panic, also where the fuel of the reader would not last.
pub mod Answer
use ran.Base.{
  ℕ, zero, suc, ◌+◌, ◌-◌, ◌/◌, ◌%◌, Bool, true, false, ◌||◌, Option, none, some, List, [], ◌∷◌,
  ◌++◌, Bytes, codes, length, get_elem?, slice, uint16, put_uint16, zeros, ltb, leb, ◌==◌,
  if◌then◌else◌, ◌>>=◌, drop,
}

unfoldable pub join_from : Bytes → List Bytes → Bytes
join_from result [] = result
join_from result (l ∷ ls) = join_from (result ++ codes "." ++ l) ls

unfoldable pub join_labels : List Bytes → Bytes
unfolding join_from
join_labels [] = []
join_labels (l ∷ ls) = join_from l ls

-- the loop over the labels, on fuel: the labels found before, and the position
unfoldable pub parse_labels : ℕ → Bytes → List Bytes → ℕ → Option (Option (List Bytes × ℕ))
parse_labels zero input labels pos = none
parse_labels (suc fuel) input labels pos = if leb (length input) pos then some none else (do
  size ← get_elem? input pos
  if size == 0
      then some (some (labels, pos + 1))
      else if ltb (length input) (pos + 1 + size)
      then some none
      else (do
        label ← slice input (pos + 1) (pos + 1 + size)
        parse_labels fuel input (labels ++ label ∷ []) (pos + 1 + size)))

unfoldable pub named : Option (List Bytes × ℕ) → Option (Bytes × ℕ)
named none = none
named (some (labels, pos)) = some (join_labels labels, pos)

-- each label takes a byte of the input, so one more than its length is enough fuel
unfoldable pub parse_dns_name : Bytes → ℕ → Option (Option (Bytes × ℕ))
parse_dns_name input offset = do
  found ← parse_labels (suc (length input)) input [] offset
  some (named found)

-- the decimal digits of a number below 100000, before those found so far
abbrev pub digits : ℕ → ℕ → Bytes → Bytes
digits zero n found = found
digits (suc fuel) n found =
    let found' = (0x30 + n % 10) ∷ found in
    let more = digits fuel (n / 10) found' in if n / 10 == 0 then found' else more

unfoldable pub dns_type_name : ℕ → Bytes
dns_type_name qtype =
    if qtype == 1
    then codes "A"
    else if qtype == 2
    then codes "NS"
    else if qtype == 5
    then codes "CNAME"
    else if qtype == 6
    then codes "SOA"
    else if qtype == 15
    then codes "MX"
    else if qtype == 16
    then codes "TXT"
    else if qtype == 28
    then codes "AAAA"
    else if qtype == 255
    then codes "ANY"
    else digits 5 qtype []

-- what the handler does: a logged parse failure, or the logged domain and type with the answer
pub data Outcome : Type 0 where
  parse_failed : Outcome
  answered : Bytes → Bytes → Bytes → Outcome

-- the answer: the header with REFUSED, and the question as it came
unfoldable pub response : Bytes → ℕ → ℕ → Option Bytes
response input id q_end = do
  question ← slice input 12 (q_end + 4)
  some (put_uint16 id ++ put_uint16 0x8005 ++ put_uint16 1 ++ zeros 6 ++ question)

unfoldable pub answer : Bytes → ℕ → Option (Bytes × ℕ) → Option Outcome
answer input id none = some parse_failed
answer input id (some (domain, q_end)) =
    if ltb (length input) (q_end + 4) then some parse_failed else (do
      bytes ← slice input q_end (q_end + 2)
      qtype ← uint16 bytes
      resp ← response input id q_end
      some (answered domain (dns_type_name qtype) resp))

-- from the header on
unfoldable pub read_query : Bytes → ℕ → ℕ → Option Outcome
read_query input id qdcount =
    if qdcount == 0
    then some parse_failed
    else (do name ← parse_dns_name input 12; answer input id name)

unfoldable pub handle_packet : Bytes → Option Outcome
handle_packet input = if ltb (length input) 12 then some parse_failed else (do
  a ← slice input 0 2
  id ← uint16 a
  b ← slice input 4 6
  qdcount ← uint16 b
  read_query input id qdcount)
