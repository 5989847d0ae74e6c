-- ===== src/Trap/Telnet/Literal.antt =====
-- Data survives: a client that doubles its 0xFF bytes is read back as it was.
use ran.Base.{
  ap, ==_iff, ℕ, zero, suc, ◌≤◌, ◌<◌, false, [], ◌∷◌, ◌++◌, Bytes, length, ◌==◌, if◌then◌else◌, ◌≡◌,
  refl, ◌∙◌, arith, append_assoc, append-nil, Bool-cases, inl, inr, some,
}
use ran.Trap.Telnet.{Parsed, round, parse_from, parse_telnet_iac, telnet_iac}

-- the client's side of RFC 854: a data byte 0xFF is sent twice
unfoldable pub escaped : Bytes → Bytes
escaped [] = []
escaped (c ∷ cs) = let rest = escaped cs in if c == telnet_iac then c ∷ c ∷ rest else c ∷ rest

round_literal :
    (rest : Bytes) (p : Parsed)
    → round (telnet_iac ∷ telnet_iac ∷ rest) p
      ≡ (record p { clean = p.clean ++ telnet_iac ∷ [] }, some rest)
unfolding round
round_literal rest p = refl

round_plain :
    (c : ℕ) (rest : Bytes) (p : Parsed)
    → c == telnet_iac ≡ false
    → round (c ∷ rest) p ≡ (record p { clean = p.clean ++ c ∷ [] }, some rest)
unfolding round
round_plain c [] p h = simp h
round_plain c (x ∷ rest) p h = simp h

parse_from_step :
    (fuel : ℕ) (input rest : Bytes) (p q : Parsed)
    → round input p ≡ (q, some rest)
    → parse_from (suc fuel) input p ≡ parse_from fuel rest q
unfolding parse_from
parse_from_step fuel input rest p q h = rw (ap (λ r. r.1) h, parse_from) (rw (ap (λ r. r.0) h))

round-escaped :
    (c : ℕ) (cs : Bytes) (p : Parsed)
    → round (escaped (c ∷ cs)) p ≡ (record p { clean = p.clean ++ c ∷ [] }, some (escaped cs))
unfolding escaped
round-escaped c cs p = elim (Bool-cases (c == telnet_iac)) [
  | inl iac ↦ rw iac (rw ((==_iff c telnet_iac).0 iac) (round_literal (escaped cs) p))
  | inr plain ↦ rw plain (round_plain c (escaped cs) p plain)
]

parse_from-escaped :
    (fuel : ℕ) (cs : Bytes) (p : Parsed)
    → length cs < fuel
    → parse_from fuel (escaped cs) p ≡ record p { clean = p.clean ++ cs }
parse_from-escaped zero cs p h = elim h [ ]
parse_from-escaped (suc fuel) [] p h = unfold parse_from round escaped in simp append-nil
parse_from-escaped (suc fuel) (c ∷ cs) p h =
    let q = record p { clean = p.clean ++ c ∷ [] } in
    parse_from_step fuel (escaped (c ∷ cs)) (escaped cs) p q (round-escaped c cs p)
    ∙ parse_from-escaped fuel cs q (omega arith)
    ∙ simp append_assoc

length-escaped : (cs : Bytes) → length cs ≤ length (escaped cs)
unfolding escaped
length-escaped [] = omega arith
length-escaped (c ∷ cs) = ground (arith, length-escaped cs)

-- Whatever data a client escapes, the parser returns it unchanged, answers nothing and reports no
-- terminal type.
pub parse_telnet_iac-escaped :
    (cs : Bytes) → parse_telnet_iac (escaped cs) ≡ record { clean = cs; replies = []; ttype = [] }
unfolding parse_telnet_iac
parse_telnet_iac-escaped cs =
    parse_from-escaped (suc (length (escaped cs))) cs
      (record { clean = []; replies = []; ttype = [] }) (omega (arith, length-escaped cs))
