-- ===== src/Trap/Redis/Decimal.antt =====
-- Decimal numbers are read as they are written.
use ran.Base.{
  ℕ, zero, suc, ◌+◌, ◌-◌, ◌*◌, ◌/◌, ◌%◌, ◌^◌, ◌≤◌, ◌<◌, Bool, ◌&&◌, Option, none, some, [], ◌∷◌,
  ◌++◌, Bytes, length, ltb, leb, ◌≡◌, ap, arith, inl, inr, Bool-cases, length-append, All,
  All-append,
}
use ran.Text.{digits, itoa}
use ran.Trap.Redis.{decimal, digits_of, atoi}

abbrev takes : ℕ → ℕ → Bool
takes n x = leb 48 x && leb x 57 && ltb (n * 10 + (x - 48)) (2 ^ 63)

some-inj : {a b : ℕ} → some a ≡ some b → a ≡ b
some-inj h = cc

none-ne-some : {a : ℕ} → ◌≡◌ {A = Option ℕ} none (some a) → ⊥
none-ne-some h = cc

decimal-append :
    (n : ℕ) (xs ys : Bytes) {m : ℕ} → decimal n xs ≡ some m → decimal n (xs ++ ys) ≡ decimal m ys
unfolding decimal
decimal-append n [] ys {m} h = ap (λ k. decimal k ys) (some-inj h)
decimal-append n (x ∷ xs) ys {m} h = elim (Bool-cases (takes n x)) [
  | inl digit ↦ rw digit (decimal-append (n * 10 + (x - 48)) xs ys (rw digit at h))
  | inr other ↦ absurd (none-ne-some (rw other at h))
]

-- The digits of a number.
abbrev pub IsDigit : ℕ → Type 0
IsDigit x = (48 ≤ x) × (x < 58)

digits-All : (fuel n : ℕ) → All IsDigit (digits fuel n)
unfolding digits
digits-All zero n = tt
digits-All (suc fuel) n = elim (Bool-cases (ltb n 10)) [
  | inl small ↦ rw small (ground (arith, small), tt)
  | inr large ↦ rw large (
      All-append IsDigit (digits fuel (n / 10)) ((48 + n % 10) ∷ []) (digits-All fuel (n / 10))
        (omega arith, tt))
]

one_digit : (n d m : ℕ) → n * 10 + d ≡ m → d < 10 → m < 2 ^ 63 → decimal n ((48 + d) ∷ []) ≡ some m
unfolding decimal
one_digit n d m h k l = ground (arith, h, k, l)

decimal-digits : (fuel n : ℕ) → n < fuel → n < 2 ^ 63 → decimal 0 (digits fuel n) ≡ some n
unfolding digits
decimal-digits zero n h k = absurd (omega arith)
decimal-digits (suc fuel) n h k = elim (Bool-cases (ltb n 10)) [
  | inl small ↦ rw small (one_digit 0 n n (omega arith) (ground (arith, small)) k)
  | inr large ↦
      rw
        (
          large,
          decimal-append 0 (digits fuel (n / 10)) ((48 + n % 10) ∷ [])
              (decimal-digits fuel (n / 10) (ground (arith, large, h)) (omega (arith, k))),
        )
        (one_digit (n / 10) (n % 10) n (omega arith) (omega arith) k)
]

length-digits : (fuel n : ℕ) → 1 ≤ length (digits (suc fuel) n)
unfolding digits
length-digits fuel n = elim (Bool-cases (ltb n 10)) [
  | inl small ↦ rw small (omega arith)
  | inr large ↦ rw large (omega (arith, length-append (digits fuel (n / 10)) ((48 + n % 10) ∷ [])))
]

atoi_digits :
    (xs : Bytes) {n : ℕ} → All IsDigit xs → 1 ≤ length xs → decimal 0 xs ≡ some n → atoi xs ≡ some n
unfolding atoi digits_of
atoi_digits [] a l h = absurd (omega arith)
atoi_digits (x ∷ xs) a l h = ground (arith, a.0, h)

itoa-IsLong : (n : ℕ) → 1 ≤ length (itoa n)
itoa-IsLong n = let e : n + 1 ≡ suc n = omega arith in rw e (length-digits n n)

length-digits-le : (fuel n : ℕ) → length (digits fuel n) ≤ 1 + n / 10
unfolding digits
length-digits-le zero n = omega arith
length-digits-le (suc fuel) n = elim (Bool-cases (ltb n 10)) [
  | inl small ↦ rw small (omega arith)
  | inr large ↦ rw large (
      ground (
        arith,
        large,
        length-append (digits fuel (n / 10)) ((48 + n % 10) ∷ []),
        length-digits-le fuel (n / 10),
      ))
]

pub length-itoa-le : (n : ℕ) → length (itoa n) ≤ 1 + n / 10
length-itoa-le n = length-digits-le (n + 1) n

-- Atoi reads what Itoa wrote.
pub atoi-itoa : (n : ℕ) → n < 2 ^ 63 → atoi (itoa n) ≡ some n
atoi-itoa n h =
    atoi_digits (itoa n) (digits-All (n + 1) n) (itoa-IsLong n)
      (decimal-digits (n + 1) n (omega arith) h)

pub itoa-All : (n : ℕ) → All IsDigit (itoa n)
itoa-All n = digits-All (n + 1) n
