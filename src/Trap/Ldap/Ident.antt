-- ===== src/Trap/Ldap/Ident.antt =====
-- An int64 is read back as it was written, negative ones too.
use ran.Base.{
  ℕ, zero, suc, ◌+◌, ◌*◌, ◌%◌, ◌^◌, ◌≤◌, ◌<◌, true, false, ◌||◌, some, [], ◌∷◌, ◌++◌, Bytes, length,
  take-append, drop-append, length-append, ltb, ◌==◌, ◌≡◌, refl, ap, ◌∙◌, ◌⊎◌, inl, inr, Bool-cases,
  arith,
}
use ran.Trap.Ber.{ber_length}
use ran.Trap.Ldap.{
  word, shift8, is_sign, int64_bytes, ber_int64, add_bytes, sign_of, ber_read_integer,
}

-- The byte that is shifted out, put back.
unshift : (v : ℕ) → v < word → (shift8 v * 256 + v % 256) % word ≡ v
unfolding shift8
unshift v h = ground (arith, h)

shift8-lt : (v : ℕ) → v < word → shift8 v < word
unfolding shift8
shift8-lt v h = ground (arith, h)

-- A number, or a negative one, of at most so many.
abbrev Within : ℕ → ℕ → Type 0
Within q v = (v < q) ⊎ (word ≤ v + q)

abbrev bound : ℕ → ℕ
bound zero = 128
bound (suc t) = 256 * bound t

shift8-Within : (q v : ℕ) → v < word → 256 * q ≤ 2 ^ 63 → Within (256 * q) v → Within q (shift8 v)
unfolding shift8
shift8-Within q v l k (inl h) = inl (ground (arith, h, l, k))
shift8-Within q v l k (inr h) = inr (ground (arith, h, l, k))

is_sign_last : (v : ℕ) → v < word → Within 128 v → is_sign (shift8 v) (v % 256) ≡ true
unfolding shift8
is_sign_last v l (inl h) = ground (arith, l, h)
is_sign_last v l (inr h) = ground (arith, l, h)

sign_of_lem : (v b : ℕ) (found : Bytes) → is_sign v b ≡ true → sign_of (b ∷ found) ≡ v
sign_of_lem v b found h = ground (arith, h)

-- Bytes that stand for a value in front of others, and how many there are.
record IsWritten (t v : ℕ) (found r : Bytes) : Type 0 where
  value : add_bytes (sign_of r) r ≡ add_bytes v found
  some_ : 1 ≤ length r
  few : length r ≤ length found + suc t

module _ (v : ℕ) (found : Bytes) (l : v < word) where
  abbrev put_back : add_bytes ((shift8 v * 256 + v % 256) % word) found ≡ add_bytes v found
  put_back = ap (λ n. add_bytes n found) (unshift v l)

  last-IsWritten :
      (t : ℕ) → is_sign (shift8 v) (v % 256) ≡ true → IsWritten t v found ((v % 256) ∷ found)
  unfolding add_bytes
  last-IsWritten t last = record {
    value = rw (sign_of_lem (shift8 v) (v % 256) found last) put_back;
    some_ = omega arith;
    few = omega arith;
  }

  more-IsWritten :
      (t : ℕ) (r : Bytes)
      → IsWritten t (shift8 v) ((v % 256) ∷ found) r
      → IsWritten (suc t) v found r
  unfolding add_bytes
  more-IsWritten t r h = record {
    value = h.value ∙ put_back;
    some_ = h.some_;
    few = omega (arith, h.few);
  }

int64_bytes-IsWritten :
    (t v : ℕ) (found : Bytes)
    → v < word
    → bound t ≤ 2 ^ 63
    → Within (bound t) v
    → IsWritten t v found (int64_bytes (suc t) v found)
unfolding int64_bytes
int64_bytes-IsWritten zero v found l k w =
    let last = is_sign_last v l w in rw last (last-IsWritten v found l zero last)
int64_bytes-IsWritten (suc t) v found l k w = elim (Bool-cases (is_sign (shift8 v) (v % 256))) [
  | inl last ↦ rw last (last-IsWritten v found l (suc t) last)
  | inr more ↦ rw more (
      more-IsWritten v found l t _ (
        int64_bytes-IsWritten t (shift8 v) ((v % 256) ∷ found) (shift8-lt v l) (omega (arith, k))
          (shift8-Within (bound t) v l k w)))
]

small_length : (n : ℕ) → n ≤ 8 → ber_length n ≡ n ∷ []
unfolding ber_length
small_length n h = ground (arith, h)

in_range : (v : ℕ) → v < word → Within (bound 7) v
in_range v l = elim (Bool-cases (ltb v (2 ^ 63))) [
  | inl small ↦ inl (ground (arith, small))
  | inr large ↦ inr (ground (arith, large))
]

-- For every int64, by its word: berReadInteger reads back what berInteger wrote with the tag of an
-- INTEGER, whatever follows it.
pub ber_read_integer-ber_int64 :
    (v : ℕ) (rest : Bytes) → v < word → ber_read_integer (ber_int64 2 v ++ rest) ≡ some (v, rest)
unfolding ber_int64 ber_read_integer add_bytes
ber_read_integer-ber_int64 v rest l =
    let content = int64_bytes 8 v [] in
    let w = int64_bytes-IsWritten 7 v [] l (omega arith) (in_range v l) in
    let fits : ltb (length (content ++ rest)) (length content) ≡ false =
      ground (arith, length-append content rest) in
    let some_ : (length content == 0 || ltb 8 (length content)) ≡ false =
      ground (arith, w.some_, w.few) in
    rw
      (
        small_length (length content) w.few,
        some_,
        fits,
        take-append content rest,
        drop-append content rest,
        w.value,
      )
      refl
