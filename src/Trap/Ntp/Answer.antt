-- ===== src/Trap/Ntp/Answer.antt =====
-- The NTP handler never panics, and answers 48 bytes at most once.
use ran.Base.{
  ◌/◌, ◌%◌, ◌≤◌, ◌<◌, not, some, Bytes, length, zeros, ltb, ◌==◌, ◌≡◌, refl, arith, Bool-cases, inl,
  inr, get_elem?-lt, slice_total, length-append,
}
use ran.Trap.Ntp.{Outcome, parse_failed, answered, response, handle_packet}

-- The answer is 48 bytes, no more than the datagram, to a client's request (mode 3) only; it
-- begins with a byte: leap indicator 3, the request's version, and mode 4.
abbrev pub Within : Bytes → Outcome → Type 0
Within input parse_failed = Unit
Within input (answered version mode resp) =
    (mode ≡ 3) × (length resp ≡ 48) × (48 ≤ length input) × (version < 8)

-- The NTP handler comes to one of its outcomes on every datagram, without a read out of range. It
-- answers only requests of mode 3 (so never a monlist request of mode 7), with 48 bytes, which is
-- no more than it was sent.
pub handle_packet-answers :
    (input : Bytes) → (o : Outcome) × (handle_packet input ≡ some o) × Within input o
unfolding handle_packet response
handle_packet-answers input = elim (Bool-cases (ltb (length input) 48)) [
  | inl cut ↦ (parse_failed, rw cut refl, tt)
  | inr room ↦
      let (b, e) = get_elem?-lt input 0 (ground arith) in
      elim (Bool-cases (b % 8 == 7)) [
        | inl seven ↦ (parse_failed, rw room (rw e (rw seven refl)), tt)
        | inr other ↦ elim (Bool-cases (not (b % 8 == 3))) [
          | inl bad ↦ (parse_failed, rw room (rw e (rw other (rw bad refl))), tt)
          | inr three ↦
              let (t, f, l) = slice_total input 40 48 (omega arith) (ground arith) in
              (
                answered (b / 8 % 8) (b % 8) (response (b / 8 % 8) t),
                rw room (rw e (rw other (rw three (rw f refl)))),
                (
                  ground arith,
                  omega (arith, l, length-append t (zeros 16)),
                  ground arith,
                  omega arith,
                ),
              )
        ]
      ]
]
