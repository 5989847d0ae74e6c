-- ===== src/Trap/Dns/Answer.antt =====
-- The DNS handler never panics, and its answer is never longer than the query.
use ran.Base.{
  ℕ, zero, suc, ◌+◌, ◌≤◌, ◌<◌, Option, none, some, List, [], ◌∷◌, ◌++◌, Bytes, length, ltb, leb,
  ◌==◌, ◌≡◌, refl, arith, Bool-cases, inl, inr, get_elem?-lt, slice_total, uint16_total,
}
use ran.Trap.Dns.{
  parse_labels, named, parse_dns_name, dns_type_name, Outcome, parse_failed, answered, response,
  answer, read_query, handle_packet,
}

-- What was read ends behind the offset.
abbrev pub Behind {ℓ} : {A : Type ℓ} → ℕ → Option (A × ℕ) → Type 0
Behind offset none = Unit
Behind offset (some (_, pos)) = offset < pos

Behind-of {ℓ} : {A : Type ℓ} → (a b : ℕ) (r : Option (A × ℕ)) → a ≤ b → Behind b r → Behind a r
Behind-of a b none h k = tt
Behind-of a b (some (x, pos)) h k = omega arith

-- With more fuel than the input has left, the reader of labels neither panics nor runs out.
parse_labels_total :
    (fuel : ℕ) (input : Bytes) (labels : List Bytes) (pos : ℕ)
    → length input < fuel + pos
    → 1 ≤ fuel
    → (r : Option (List Bytes × ℕ)) × (parse_labels fuel input labels pos ≡ some r) × Behind pos r
unfolding parse_labels
parse_labels_total zero input labels pos h k = absurd (omega arith)
parse_labels_total (suc fuel) input labels pos h k = elim (Bool-cases (leb (length input) pos)) [
  | inl cut ↦ (none, rw cut refl, tt)
  | inr room ↦
      let (size, e) = get_elem?-lt input pos (ground arith) in
      elim (Bool-cases (size == 0)) [
        | inl end ↦ (some (labels, pos + 1), rw room (rw e (rw end refl)), omega arith)
        | inr more ↦ elim (Bool-cases (ltb (length input) (pos + 1 + size))) [
          | inl short ↦ (none, rw room (rw e (rw more (rw short refl))), tt)
          | inr fits ↦
              let (label, f, _) =
                slice_total input (pos + 1) (pos + 1 + size) (omega arith) (ground arith) in
              let (r, g, behind) =
                parse_labels_total fuel input (labels ++ label ∷ []) (pos + 1 + size) (ground arith)
                  (ground arith) in
              (
                r,
                rw room (rw e (rw more (rw fits (rw f g)))),
                Behind-of pos (pos + 1 + size) r (omega arith) behind,
              )
        ]
      ]
]

named-Behind :
    (offset : ℕ) (r : Option (List Bytes × ℕ)) → Behind offset r → Behind offset (named r)
unfolding named
named-Behind offset none h = tt
named-Behind offset (some (labels, pos)) h = h

-- `parseDNSName` reads or refuses the name at any offset of any datagram: the fuel of one more
-- than the input's length lasts, nothing is read out of range, and a name that is read ends
-- behind the offset.
pub parse_dns_name_total :
    (input : Bytes) (offset : ℕ)
    → (r : Option (Bytes × ℕ)) × (parse_dns_name input offset ≡ some r) × Behind offset r
unfolding parse_dns_name
parse_dns_name_total input offset =
    let (r, e, h) =
      parse_labels_total (suc (length input)) input [] offset (omega arith) (omega arith) in
    (named r, rw e refl, named-Behind offset r h)

-- No answer is longer than the query.
abbrev pub Within : Bytes → Outcome → Type 0
Within input parse_failed = Unit
Within input (answered domain qtype resp) = length resp ≤ length input

response_total :
    (input : Bytes) (id q_end : ℕ)
    → 12 ≤ q_end
    → q_end + 4 ≤ length input
    → (r : Bytes) × (response input id q_end ≡ some r) × (length r ≡ q_end + 4)
unfolding response
response_total input id q_end h k =
    let (question, e, l) = slice_total input 12 (q_end + 4) (omega arith) k in
    rw e (_, refl, omega (arith, l))

answer_total :
    (input : Bytes) (id : ℕ) (r : Option (Bytes × ℕ))
    → Behind 12 r
    → (o : Outcome) × (answer input id r ≡ some o) × Within input o
unfolding answer
answer_total input id none h = (parse_failed, refl, tt)
answer_total input id (some (domain, q_end)) h =
    elim (Bool-cases (ltb (length input) (q_end + 4))) [
      | inl cut ↦ (parse_failed, rw cut refl, tt)
      | inr room ↦
          let (bytes, e, l) = slice_total input q_end (q_end + 2) (omega arith) (ground arith) in
          let (qtype, f) = uint16_total bytes (omega (arith, l)) in
          let (resp, g, m) = response_total input id q_end (omega arith) (ground arith) in
          (
            answered domain (dns_type_name qtype) resp,
            rw room (rw e (rw f (rw g refl))),
            ground (arith, m),
          )
    ]

read_query_total :
    (input : Bytes) (id qdcount : ℕ)
    → (o : Outcome) × (read_query input id qdcount ≡ some o) × Within input o
unfolding read_query
read_query_total input id qdcount = elim (Bool-cases (qdcount == 0)) [
  | inl h ↦ (parse_failed, rw h refl, tt)
  | inr h ↦
      let (r, e, behind) = parse_dns_name_total input 12 in
      rw h (rw e (answer_total input id r behind))
]

-- The DNS handler comes to one of its outcomes on every datagram, without a read out of range,
-- and its answer is never longer than the datagram: it amplifies nothing.
pub handle_packet-Within :
    (input : Bytes) → (o : Outcome) × (handle_packet input ≡ some o) × Within input o
unfolding handle_packet
handle_packet-Within input = elim (Bool-cases (ltb (length input) 12)) [
  | inl cut ↦ (parse_failed, rw cut refl, tt)
  | inr room ↦
      let (a, e, l) = slice_total input 0 2 (omega arith) (ground arith) in
      let (id, f) = uint16_total a (omega (arith, l)) in
      let (b, g, m) = slice_total input 4 6 (omega arith) (ground arith) in
      let (qdcount, k) = uint16_total b (omega (arith, m)) in
      rw room (rw e (rw f (rw g (rw k (read_query_total input id qdcount)))))
]
