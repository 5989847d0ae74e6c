-- ===== src/Trap/Pacing/Rejections.antt =====
-- Every rejection is logged, or counted with a later warning.
use ran.Base.{
  ℕ, ◌+◌, Option, none, some, List, [], ◌∷◌, Bytes, bytes_Eq, bytes_eq, bytes_eq_iff, lookup,
  lookup-insert, lookup-erase, if◌then◌else◌, ◌≡◌, refl, arith, inl, inr, Bool-cases,
}
use ran.Trap.Pacing.{RejectLimiter, left_out, is_soon, allow}

-- rejections of protocols, each at a time: the limiter after them
unfoldable pub after : List (Bytes × ℕ) → RejectLimiter → RejectLimiter
after [] r = r
after ((protocol, now) ∷ rest) r = after rest (allow protocol now r).0

-- the rejections of a protocol that the answer of `allow` accounts for
abbrev pub reported : Option ℕ → ℕ
reported none = 0
reported (some n) = n + 1

-- the rejections of a protocol that were reported
unfoldable pub reported_for : Bytes → List (Bytes × ℕ) → RejectLimiter → ℕ
reported_for p [] r = 0
reported_for p ((protocol, now) ∷ rest) r =
    (if bytes_eq protocol p then reported (allow protocol now r).1 else 0)
    + reported_for p rest (allow protocol now r).0

unfoldable pub rejections_of : Bytes → List (Bytes × ℕ) → ℕ
rejections_of p [] = 0
rejections_of p ((protocol, now) ∷ rest) =
    (if bytes_eq protocol p then 1 else 0) + rejections_of p rest

allow-counts :
    (p protocol : Bytes) (now : ℕ) (r : RejectLimiter)
    → left_out p (allow protocol now r).0
        + (if bytes_eq protocol p then reported (allow protocol now r).1 else 0)
      ≡ left_out p r + (if bytes_eq protocol p then 1 else 0)
unfolding allow left_out
allow-counts p protocol now r = elim (Bool-cases (is_soon now (lookup protocol r.last))) [
  | inl soon ↦ rw soon (
      ground (
        arith,
        lookup-insert protocol p (left_out protocol r + 1) r.suppressed,
        bytes_eq_iff protocol p,
      ))
  | inr later ↦
      rw later (ground (arith, lookup-erase protocol p r.suppressed, bytes_eq_iff protocol p))
]

-- For any rejections of any protocols: those of a protocol are the ones reported with its warnings,
-- each warning for itself and those left out before it, and the ones still left out.
pub after-counts :
    (p : Bytes) (es : List (Bytes × ℕ)) (r : RejectLimiter)
    → left_out p (after es r) + reported_for p es r ≡ left_out p r + rejections_of p es
unfolding after reported_for rejections_of
after-counts p [] r = refl
after-counts p ((protocol, now) ∷ rest) r =
    omega (arith, allow-counts p protocol now r, after-counts p rest (allow protocol now r).0)
