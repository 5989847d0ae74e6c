-- ===== src/Trap/Telnet/Bounds.antt =====
-- The results are bounded by the input, and every round consumes some of it.
use native.Mathlib.Nat.{suc-add}
use ran.Base.{
  ℕ, zero, suc, ◌+◌, ◌≤◌, ◌<◌, Option, none, some, [], ◌∷◌, Bytes, length, ◌≡◌, inl, inr, refl,
  arith, Option-cases, length-append,
}
use ran.Trap.Telnet.{
  Parsed, printable_bounded, answer, find_end, terminal_type, round, parse_from, parse_telnet_iac,
  max_telnet_ttype, max_telnet_reply_bytes, telnet_iac,
}

length-printable_bounded : (cs : Bytes) (room : ℕ) → length (printable_bounded cs room) ≤ room
unfolding printable_bounded
length-printable_bounded [] room = omega arith
length-printable_bounded (c ∷ cs) zero = omega arith
length-printable_bounded (c ∷ cs) (suc room) =
    ground (arith, length-printable_bounded cs room, length-printable_bounded cs (suc room))

length-terminal_type :
    (body ttype : Bytes)
    → length ttype ≤ max_telnet_ttype
    → length (terminal_type body ttype) ≤ max_telnet_ttype
unfolding terminal_type
length-terminal_type (opt ∷ is_ ∷ name) ttype h =
    ground (arith, length-printable_bounded name max_telnet_ttype)
length-terminal_type _ ttype h = h

length-answer :
    (cmd opt : ℕ) (replies : Bytes)
    → (length (answer cmd opt replies) ≤ length replies + 3)
      × (length replies ≤ max_telnet_reply_bytes
          → length (answer cmd opt replies) ≤ max_telnet_reply_bytes)
unfolding answer
length-answer cmd opt replies =
    let wont = length-append replies (255 ∷ 252 ∷ opt ∷ []) in
    let dont = length-append replies (255 ∷ 254 ∷ opt ∷ []) in
    (ground (arith, wont, dont), λ h. ground (arith, wont, dont))

find_end_nil : find_end [] ≡ none
unfolding find_end
find_end_nil = refl

length-find_end :
    (input body after : Bytes)
    → find_end input ≡ some (body, after)
    → length body + length after + 2 ≡ length input
unfolding find_end
length-find_end [] body after h = absurd (ground arith)
length-find_end (x ∷ []) body after h = absurd (ground arith)
length-find_end (x ∷ y ∷ rest) body after h = elim (Option-cases (find_end (y ∷ rest))) [
  | inl e ↦ ground arith
  | inr ((b, a), e) ↦ ground (arith, length-find_end (y ∷ rest) b a e)
]

-- What a round makes of the results and of the input.
record Bounded (n : ℕ) (p q : Parsed) (left : ℕ) : Type 0 where
  clean : length q.clean + left ≤ length p.clean + n
  replies : length q.replies + left ≤ length p.replies + n
  ttype : length p.ttype ≤ max_telnet_ttype → length q.ttype ≤ max_telnet_ttype
  few_replies :
      length p.replies ≤ max_telnet_reply_bytes → length q.replies ≤ max_telnet_reply_bytes

abbrev left_of : Option Bytes → ℕ
left_of none = 0
left_of (some rest) = length rest

round-Bounded :
    (input : Bytes) (p : Parsed)
    → Bounded (length input) p (round input p).0 (left_of (round input p).1)
unfolding round
round-Bounded [] p = ground arith
round-Bounded (b ∷ []) p = ground (arith, length-append p.clean (b ∷ []))
round-Bounded (b ∷ cmd ∷ []) p =
    ground
      (arith, length-append p.clean (b ∷ []), length-append p.clean (telnet_iac ∷ []), find_end_nil)
round-Bounded (b ∷ cmd ∷ opt ∷ rest) p =
    let one = length-append p.clean (b ∷ []) in
    let iac = length-append p.clean (telnet_iac ∷ []) in
    let ans = length-answer cmd opt p.replies in
    elim (Option-cases (find_end (opt ∷ rest))) [
      | inl e ↦ ground (arith, one, iac, ans)
      | inr ((body, after), e) ↦ ground (
        arith,
        one,
        iac,
        ans,
        length-find_end (opt ∷ rest) body after e,
        length-terminal_type body p.ttype,
      )
    ]

-- The input that is left after a round is shorter.
round_shrinks :
    (input rest : Bytes) (p : Parsed) → (round input p).1 ≡ some rest → length rest < length input
unfolding round
round_shrinks [] rest p h = absurd (ground arith)
round_shrinks (b ∷ []) rest p h = ground arith
round_shrinks (b ∷ cmd ∷ []) rest p h = ground (arith, find_end_nil)
round_shrinks (b ∷ cmd ∷ opt ∷ more) rest p h = elim (Option-cases (find_end (opt ∷ more))) [
  | inl e ↦ ground arith
  | inr ((body, after), e) ↦ ground (arith, length-find_end (opt ∷ more) body after e)
]

parse_from-Bounded :
    (fuel : ℕ) (input : Bytes) (p : Parsed) → Bounded (length input) p (parse_from fuel input p) 0
unfolding parse_from
parse_from-Bounded zero input p = ground arith
parse_from-Bounded (suc fuel) input p =
    let b = round-Bounded input p in
    let q = (round input p).0 in
    elim (Option-cases (round input p).1) [
      | inl e ↦ rw (e, parse_from) (ground (arith, b))
      | inr (rest, e) ↦
          let c = parse_from-Bounded fuel rest q in rw (e, parse_from) (ground (arith, b, c))
    ]

-- The application data and the answers are never longer than the input, the answers never
-- exceed 192 bytes, and the terminal type never exceeds 64.
pub parse_telnet_iac-bounded :
    (input : Bytes)
    → let p = parse_telnet_iac input in
      (length p.clean ≤ length input)
      × (length p.replies ≤ length input)
      × (length p.replies ≤ max_telnet_reply_bytes)
      × (length p.ttype ≤ max_telnet_ttype)
unfolding parse_telnet_iac
parse_telnet_iac-bounded input =
    let start : Parsed = record { clean = []; replies = []; ttype = [] } in
    let b = parse_from-Bounded (suc (length input)) input start in
    (
      omega (arith, b.clean),
      omega (arith, b.replies),
      b.few_replies (omega arith),
      b.ttype (omega arith),
    )

-- More fuel than the input is long changes nothing: the loop has ended by itself.
pub parse_from_enough :
    (fuel more : ℕ) (input : Bytes) (p : Parsed)
    → length input < fuel
    → parse_from (fuel + more) input p ≡ parse_from fuel input p
unfolding parse_from
parse_from_enough zero more input p h = elim h [ ]
parse_from_enough (suc fuel) more input p h =
    rw (suc-add, parse_from)
      (elim (Option-cases (round input p).1) [
        | inl e ↦ rw (e, parse_from)
        | inr (rest, e) ↦
            rw (e, parse_from)
              (parse_from_enough fuel more rest (round input p).0
                (omega (arith, round_shrinks input rest p e)))
      ])
