-- ===== src/Trap/Ber/RoundTrip.antt =====
-- The reader never panics, stays within its input, and reads back what the encoder wrote.
use ran.Base.{
  ℕ, ◌+◌, ◌-◌, ◌*◌, ◌/◌, ◌%◌, ◌^◌, ◌≤◌, ◌<◌, true, false, Option, none, some, [], ◌∷◌, ◌++◌, Bytes,
  length, drop, ltb, leb, ◌==◌, ◌>>=◌, ◌≡◌, refl, arith, Bool-cases, inl, inr, ◌⊎◌, get_elem?-lt,
  slice_lem, length-take-drop, length-append, take-append,
}
use ran.Trap.Ber.{
  skip_zeros, ber_length, ber_octet_string, Read, read_length, read_value, read_rest, read_tlv,
}

-- No panic; and a value that is read lies within the input, behind the offset, and has the length
-- that was declared.
abbrev pub Safe : Bytes → ℕ → Option Read → Type 0
Safe input offset none = ⊥
Safe input offset (some none) = Unit
Safe input offset (some (some t)) =
    (offset + 2 ≤ t.next) × (t.next ≤ length input) × (length t.value ≡ t.length)

read_length_cases :
    (input : Bytes) (b offset : ℕ)
    → (read_length input b offset ≡ some none)
      ⊎ ((n : ℕ) × (at : ℕ) × (read_length input b offset ≡ some (some (n, at))) × (offset ≤ at))
unfolding read_length
read_length_cases input b offset = elim (Bool-cases (ltb b 0x80)) [
  | inl short ↦ inr (b, offset, simp short, omega arith)
  | inr long ↦ elim (Bool-cases (b == 0x81)) [
    | inl one ↦ elim (Bool-cases (leb (length input) offset)) [
      | inl cut ↦ inl (simp (long, one, cut))
      | inr room ↦
          let (n, e) = get_elem?-lt input offset (ground arith) in
          inr (n, offset + 1, simp (long, one, room, e), omega arith)
    ]
    | inr more ↦ elim (Bool-cases (b == 0x82)) [
      | inr bad ↦ inl (simp (long, more, bad))
      | inl two ↦ elim (Bool-cases (leb (length input) (offset + 1))) [
        | inl cut ↦ inl (simp (long, more, two, cut))
        | inr room ↦
            let (hi, e) = get_elem?-lt input offset (ground arith) in
            let (lo, f) = get_elem?-lt input (offset + 1) (ground arith) in
            inr (hi * 256 + lo, offset + 2, simp (long, more, two, room, e, f), omega arith)
      ]
    ]
  ]
]

read_value-Safe :
    (input : Bytes) (tag n offset at : ℕ)
    → offset + 2 ≤ at
    → Safe input offset (read_value input tag (some (n, at)))
unfolding read_value
read_value-Safe input tag n offset at h = elim (Bool-cases (ltb (length input) (at + n))) [
  | inl cut ↦ rw cut tt
  | inr room ↦
      let fits : at + n ≤ length input = ground arith in
      let sub : at + n - at ≡ n = omega arith in
      rw room (
        rw (slice_lem input at (at + n) (omega arith) fits)
          (omega arith, fits, rw sub (length-take-drop input at n fits)))
]

read_rest-Safe : (input : Bytes) (tag offset : ℕ) → Safe input offset (read_rest input tag offset)
unfolding read_rest
read_rest-Safe input tag offset = elim (Bool-cases (leb (length input) (offset + 1))) [
  | inl cut ↦ rw cut tt
  | inr room ↦
      let (b, e) = get_elem?-lt input (offset + 1) (ground arith) in
      elim (read_length_cases input b (offset + 2)) [
        | inl bad ↦ rw room (rw (e, bad) tt)
        | inr (n, at, good, le) ↦ rw room (rw (e, good) (read_value-Safe input tag n offset at le))
      ]
]

-- At any offset of any input `readTLV` does not panic. Where it reads a value, that lies within
-- the input behind the offset, and has the length that was declared.
pub read_tlv-Safe : (input : Bytes) (offset : ℕ) → Safe input offset (read_tlv input offset)
unfolding read_tlv
read_tlv-Safe input offset = elim (Bool-cases (leb (length input) offset)) [
  | inl cut ↦ rw cut tt
  | inr room ↦
      let (tag, e) = get_elem?-lt input offset (ground arith) in
      rw room (rw e (read_rest-Safe input tag offset))
]

-- What `berLength` writes for a length of at most two bytes.
ber_length_cases :
    (n : ℕ)
    → n < 65536
    → ((n < 128) × (ber_length n ≡ n ∷ []))
      ⊎ ((128 ≤ n) × (n < 256) × (ber_length n ≡ 0x81 ∷ n ∷ []))
      ⊎ ((256 ≤ n) × (ber_length n ≡ 0x82 ∷ (n / 256) ∷ (n % 256) ∷ []))
unfolding ber_length skip_zeros
ber_length_cases n h =
    let a : n / 2 ^ 24 % 256 ≡ 0 = omega arith in
    let b : n / 2 ^ 16 % 256 ≡ 0 = omega arith in
    elim (Bool-cases (ltb n 128)) [
      | inl short ↦ inl (ground arith, simp short)
      | inr long ↦ elim (Bool-cases (ltb n 256)) [
        | inl one ↦
            let c : n / 2 ^ 8 % 256 ≡ 0 = ground arith in
            let d : n % 256 ≡ n = ground arith in
            let e : (n == 0) ≡ false = ground arith in
            inr (inl (ground arith, ground arith, simp (long, a, b, c, d)))
        | inr two ↦
            let c : n / 2 ^ 8 % 256 ≡ n / 256 = omega arith in
            let e : (n / 256 == 0) ≡ false = ground arith in
            inr (inr (ground arith, simp (long, a, b, c, e)))
      ]
    ]

-- A value that stands at the offset is read.
read_value_at :
    (input : Bytes) (tag at : ℕ) (d rest : Bytes)
    → drop at input ≡ d ++ rest
    → at + length d ≤ length input
    → read_value input tag (some (length d, at))
      ≡ some (some (record { tag = tag; length = length d; value = d; next = at + length d }))
unfolding read_value
read_value_at input tag at d rest h k =
    let room : ltb (length input) (at + length d) ≡ false = ground arith in
    let sub : at + length d - at ≡ length d = omega arith in
    rw room (
      rw (slice_lem input at (at + length d) (omega arith) k)
        (rw (sub, h, take-append d rest) refl))

-- The reader at the start of an input of at least two bytes.
read_tlv_start :
    (tag b : ℕ) (xs : Bytes)
    → read_tlv (tag ∷ b ∷ xs) 0
      ≡ (read_length (tag ∷ b ∷ xs) b 2 >>= λ size. read_value (tag ∷ b ∷ xs) tag size)
unfolding read_tlv read_rest
read_tlv_start tag b xs =
    let p : leb (length (tag ∷ b ∷ xs)) 0 ≡ false = ground arith in
    let q : leb (length (tag ∷ b ∷ xs)) 1 ≡ false = ground arith in rw p (rw q refl)

length_short :
    (input : Bytes) (n : ℕ) → ltb n 0x80 ≡ true → read_length input n 2 ≡ some (some (n, 2))
unfolding read_length
length_short input n h = rw h refl

length_one :
    (tag n : ℕ) (xs : Bytes) → read_length (tag ∷ 0x81 ∷ n ∷ xs) 0x81 2 ≡ some (some (n, 3))
unfolding read_length
length_one tag n xs =
    let p : leb (length (tag ∷ 0x81 ∷ n ∷ xs)) 2 ≡ false = ground arith in rw p refl

length_two :
    (tag hi lo : ℕ) (xs : Bytes)
    → read_length (tag ∷ 0x82 ∷ hi ∷ lo ∷ xs) 0x82 2 ≡ some (some (hi * 256 + lo, 4))
unfolding read_length
length_two tag hi lo xs =
    let p : leb (length (tag ∷ 0x82 ∷ hi ∷ lo ∷ xs)) 3 ≡ false = ground arith in rw p refl

-- `readTLV` reads back what `berOctetString` wrote, whatever follows it, for a value of less than
-- 65536 bytes; the next offset is the end of what was written.
pub read_tlv-ber_octet_string :
    (tag : ℕ) (d rest : Bytes)
    → length d < 65536
    → (next : ℕ) × (read_tlv (ber_octet_string tag d ++ rest) 0
        ≡ some (some (record { tag = tag; length = length d; value = d; next = next })))
      × (next ≡ length (ber_octet_string tag d))
unfolding ber_octet_string
read_tlv-ber_octet_string tag d rest h = elim (ber_length_cases (length d) h) [
  | inl (short, e) ↦
      let input = tag ∷ length d ∷ (d ++ rest) in
      let v = read_value_at input tag 2 d rest refl (omega (arith, length-append d rest)) in
      let l = length_short input (length d) (ground arith) in
      (
        2 + length d,
        rw e (rw (read_tlv_start tag (length d) (d ++ rest)) (rw (l, v) refl)),
        rw e (omega arith),
      )
  | inr (inl (lo, hi, e)) ↦
      let input = tag ∷ 0x81 ∷ length d ∷ (d ++ rest) in
      let v = read_value_at input tag 3 d rest refl (omega (arith, length-append d rest)) in
      let l = length_one tag (length d) (d ++ rest) in
      let s = read_tlv_start tag 0x81 (length d ∷ (d ++ rest)) in
      (3 + length d, rw e (rw s (rw (l, v) refl)), rw e (omega arith))
  | inr (inr (lo, e)) ↦
      let n = length d in
      let split : n / 256 * 256 + n % 256 ≡ n = omega arith in
      let input = tag ∷ 0x82 ∷ (n / 256) ∷ (n % 256) ∷ (d ++ rest) in
      let v = read_value_at input tag 4 d rest refl (omega (arith, length-append d rest)) in
      let l = length_two tag (n / 256) (n % 256) (d ++ rest) in
      let s = read_tlv_start tag 0x82 ((n / 256) ∷ (n % 256) ∷ (d ++ rest)) in
      (4 + length d, rw e (rw s (rw l (rw (split, v) refl))), rw e (omega arith))
]
