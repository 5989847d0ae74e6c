-- ===== src/Trap/Telnet.antt =====
-- internal/trap/telnetiac.go: telnet negotiation taken out of the input. The cursor `i` is the
-- input that is left, and the loop runs on fuel: every round consumes a byte.
pub mod Bounds
pub mod Literal
use ran.Base.{
  ℕ, zero, suc, ◌+◌, ◌≤◌, Bool, true, false, ◌&&◌, ◌||◌, Option, none, some, List, [], ◌∷◌, ◌++◌,
  Bytes, length, ltb, leb, ◌==◌, if◌then◌else◌,
}

abbrev pub telnet_iac : ℕ
telnet_iac = 255

abbrev pub telnet_dont : ℕ
telnet_dont = 254

abbrev pub telnet_do : ℕ
telnet_do = 253

abbrev pub telnet_wont : ℕ
telnet_wont = 252

abbrev pub telnet_will : ℕ
telnet_will = 251

abbrev pub telnet_sb : ℕ
telnet_sb = 250

abbrev pub telnet_se : ℕ
telnet_se = 240

abbrev pub telnet_opt_ttype : ℕ
telnet_opt_ttype = 24

abbrev pub telnet_ttype_is : ℕ
telnet_ttype_is = 0

abbrev pub max_telnet_ttype : ℕ
max_telnet_ttype = 64

abbrev pub max_telnet_reply_bytes : ℕ
max_telnet_reply_bytes = 192

-- the named results of `parseTelnetIAC`
pub record Parsed : Type 0 where
  pub clean : Bytes
  pub replies : Bytes
  pub ttype : Bytes

-- the loop of `printableBounded`, with `room` bytes left under the limit
unfoldable pub printable_bounded : Bytes → ℕ → Bytes
printable_bounded [] room = []
printable_bounded (c ∷ cs) zero = []
printable_bounded (c ∷ cs) (suc room) =
    let keep = c ∷ printable_bounded cs room in
    let skip = printable_bounded cs (suc room) in if leb 0x20 c && ltb c 0x7f then keep else skip

-- the answer to an option, if the replies have room for it
unfoldable pub answer : ℕ → ℕ → Bytes → Bytes
answer cmd opt replies =
    if leb (length replies + 3) max_telnet_reply_bytes
    then (if cmd == telnet_do
        then replies ++ telnet_iac ∷ telnet_wont ∷ opt ∷ []
        else if cmd == telnet_will
        then replies ++ telnet_iac ∷ telnet_dont ∷ opt ∷ []
        else replies)
    else replies

-- the search for IAC SE: the body before it, and what follows it
unfoldable pub find_end : Bytes → Option (Bytes × Bytes)
find_end [] = none
find_end (x ∷ []) = none
find_end (x ∷ y ∷ rest) =
    let later : Option (Bytes × Bytes) = (elim (find_end (y ∷ rest)) [
      | none ↦ none
      | some (body, after) ↦ some (x ∷ body, after)
    ]) in
    if x == telnet_iac && y == telnet_se then some ([], rest) else later

-- the terminal type of a subnegotiation, if it is one
unfoldable pub terminal_type : Bytes → Bytes → Bytes
unfolding printable_bounded
terminal_type (opt ∷ is_ ∷ name) ttype =
    if opt == telnet_opt_ttype && is_ == telnet_ttype_is
    then printable_bounded name max_telnet_ttype
    else ttype
terminal_type _ ttype = ttype

unfoldable pub is_option : ℕ → Bool
is_option cmd = cmd == telnet_do || cmd == telnet_dont || cmd == telnet_will || cmd == telnet_wont

-- a round of the loop: the results so far, and the input that is left, `none` where it returns
unfoldable pub round : Bytes → Parsed → Parsed × Option Bytes
round [] p = (p, none)
round (b ∷ []) p =
    if b == telnet_iac then (p, none) else (record p { clean = p.clean ++ b ∷ [] }, some [])
round (b ∷ cmd ∷ rest) p =
    if b == telnet_iac
    then (if cmd == telnet_iac
        then (record p { clean = p.clean ++ telnet_iac ∷ [] }, some rest)
        else if is_option cmd
        then elim rest [
          | [] ↦ (p, none)
          | opt ∷ rest' ↦ (record p { replies = answer cmd opt p.replies }, some rest')
        ]
        else if cmd == telnet_sb
        then elim (find_end rest) [
          | none ↦ (p, none)
          | some (body, after) ↦ (record p { ttype = terminal_type body p.ttype }, some after)
        ]
        else (p, some rest))
    else (record p { clean = p.clean ++ b ∷ [] }, some (cmd ∷ rest))

unfoldable pub parse_from : ℕ → Bytes → Parsed → Parsed
unfolding round
parse_from zero input p = p
parse_from (suc fuel) input p = elim (round input p).1 [
  | none ↦ (round input p).0
  | some rest ↦ parse_from fuel rest (round input p).0
]

unfoldable pub parse_telnet_iac : Bytes → Parsed
unfolding parse_from
parse_telnet_iac input =
    parse_from (suc (length input)) input (record { clean = []; replies = []; ttype = [] })
