-- ===== src/Trap/Ntp.antt =====
-- internal/trap/ntp.go: the NTP handler, which answers a client's request with the kiss code DENY.
-- `none` is a run-time panic.
pub mod Answer
use ran.Base.{
  ℕ, zero, suc, ◌+◌, ◌*◌, ◌/◌, ◌%◌, Bool, true, false, not, Option, none, some, List, [], ◌∷◌, ◌++◌,
  Bytes, codes, length, get_elem?, slice, zeros, ltb, ◌==◌, if◌then◌else◌, ◌>>=◌,
}

-- what the handler does: a logged failure, or the logged version and mode with the answer
pub data Outcome : Type 0 where
  parse_failed : Outcome
  answered : ℕ → ℕ → Bytes → Outcome

-- leap indicator 3, the client's version, mode 4, stratum 0; `DENY` at byte 12, the client's
-- transmit time at byte 24
unfoldable pub response : ℕ → Bytes → Bytes
response version transmit =
    (192 + version * 8 + 4) ∷ (zeros 11 ++ codes "DENY" ++ zeros 8 ++ transmit ++ zeros 16)

unfoldable pub handle_packet : Bytes → Option Outcome
handle_packet input = if ltb (length input) 48 then some parse_failed else (do
  first ← get_elem? input 0
  if first % 8 == 7
      then some parse_failed
      else if not (first % 8 == 3)
      then some parse_failed
      else (do
        transmit ← slice input 40 48
        some (answered (first / 8 % 8) (first % 8) (response (first / 8 % 8) transmit))))
