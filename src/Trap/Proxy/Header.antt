-- ===== src/Trap/Proxy/Header.antt =====
-- A PROXY header is bounded, and what comes behind it is left to the trap.
use ran.Alert.Netip.{Netip}
use ran.Base.{
  ℕ, ◌+◌, ◌/◌, ◌%◌, ◌≤◌, Bool, true, false, Option, none, some, [], ◌∷◌, ◌++◌, Bytes, codes, length,
  take, get_elem?, slice, uint16, ltb, leb, ◌==◌, bytes_eq, if◌then◌else◌, ◌>>=◌, guard, ◌≡◌, refl,
  sym, ap, arith, inl, inr, Bool-cases, length-append, length-take, take-drop, append_assoc,
}
use ran.Trap.LineReader.{Slice, found, full, ended, push, line_of, read_line_limited}
use ran.Trap.LineReader.Chunks.{whole_line, judge, read_line_partial_lem}
use ran.Trap.Proxy.{
  max_proxy_v1_len, max_proxy_v2_addr_len, reader_size, v2_signature, trim_newline, split_from,
  read_full, source_v1, source_v2, parse_v1, parse_v2, new_proxy_conn,
}

-- A property of a result, if there is one.
abbrev pub Holds {ℓ} : {A : Type ℓ} → (A → Type 0) → Option A → Type 0
Holds P none = Unit
Holds P (some a) = P a

Holds-bind {ℓ κ} :
    {A : Type ℓ} {B : Type κ} (P : A → Type 0) (Q : B → Type 0) (m : Option A) (f : A → Option B)
    → Holds P m
    → ((a : A) → P a → Holds Q (f a))
    → Holds Q (m >>= f)
Holds-bind P Q none f h k = tt
Holds-bind P Q (some a) f h k = k a h

Holds-if {ℓ} :
    {A : Type ℓ} (P : A → Type 0) (b : Bool) (m n : Option A)
    → Holds P m
    → Holds P n
    → Holds P (if b then m else n)
Holds-if P true m n h k = h
Holds-if P false m n h k = k

Holds-any {ℓ} : {A : Type ℓ} (m : Option A) → Holds (λ a. Unit) m
Holds-any none = tt
Holds-any (some a) = tt

-- The bytes are a header of at most so many bytes, and the rest.
abbrev pub IsBehind : ℕ → Bytes → Bytes → Type 0
IsBehind max s rest = (header : Bytes) × (s ≡ header ++ rest) × (length header ≤ max)

abbrev pub Behind {ℓ} : {A : Type ℓ} → ℕ → Bytes → A × Bytes → Type 0
Behind max s p = IsBehind max s p.1

IsLine : Bytes → Slice → Type 0
IsLine s (found c r) = s ≡ c ++ r
IsLine s _ = Unit

push-IsLine : (x : ℕ) (xs : Bytes) (w : Slice) → IsLine xs w → IsLine (x ∷ xs) (push x w)
unfolding IsLine
push-IsLine x xs (found c r) h = ap (◌∷◌ x) h
push-IsLine x xs (full c r) h = tt
push-IsLine x xs (ended c) h = tt

whole_line-IsLine : (s : Bytes) → IsLine s (whole_line s)
unfolding IsLine
whole_line-IsLine [] = tt
whole_line-IsLine (x ∷ xs) = elim (Bool-cases (x == 10)) [
  | inl newline ↦ rw newline refl
  | inr other ↦ rw other (push-IsLine x xs (whole_line xs) (whole_line-IsLine xs))
]

-- the line that a whole line gives, if it is within the bound
judge-Behind :
    (max : ℕ) (s : Bytes) (w : Slice) → IsLine s w → Holds (Behind max s) (line_of (judge max [] w))
unfolding IsLine
judge-Behind max s (found c r) h = elim (Bool-cases (ltb max (0 + length c))) [
  | inl over ↦ rw over tt
  | inr fits ↦ rw fits (c, h, ground (arith, fits))
]
judge-Behind max s (full c r) h = tt
judge-Behind max s (ended c) h = elim (Bool-cases (ltb max (0 + length c))) [
  | inl over ↦ rw over tt
  | inr fits ↦ rw fits tt
]

read_line_limited-Behind :
    (size max : ℕ) (s : Bytes) → 1 ≤ size → Holds (Behind max s) (read_line_limited size max s)
unfolding read_line_limited
read_line_limited-Behind size max s positive =
    rw (read_line_partial_lem size max s positive)
      (judge-Behind max s (whole_line s) (whole_line-IsLine s))

read_full-Behind : (n : ℕ) (s : Bytes) → Holds (Behind n s) (read_full n s)
unfolding read_full
read_full-Behind n s = elim (Bool-cases (leb n (length s))) [
  | inl long ↦ rw long (take n s, sym (take-drop n s), omega (arith, length-take n s))
  | inr short ↦ rw short tt
]

IsBehind-trans : (m n : ℕ) (s t u : Bytes) → IsBehind m s t → IsBehind n t u → IsBehind (m + n) s u
IsBehind-trans m n s t u (a, e, h) (b, f, k) =
    (a ++ b, rw (e, f, append_assoc a b u) refl, omega (arith, length-append a b, h, k))

IsBehind-wider : (m n : ℕ) (s t : Bytes) → m ≤ n → IsBehind m s t → IsBehind n s t
IsBehind-wider m n s t le (a, e, h) = (a, e, omega (arith, le, h))

module _ (net : Netip) (ip_string : Bytes → Bytes) where
  parse_v1-Behind : (s : Bytes) → Holds (Behind max_proxy_v1_len s) (parse_v1 net ip_string s)
  unfolding parse_v1
  parse_v1-Behind s =
      Holds-bind (Behind max_proxy_v1_len s) (Behind max_proxy_v1_len s)
        (read_line_limited reader_size max_proxy_v1_len s) _
        (read_line_limited-Behind reader_size max_proxy_v1_len s (omega arith))
        (λ (text, rest) behind.
          Holds-bind (λ a. Unit) (Behind max_proxy_v1_len s)
            (source_v1 net ip_string (split_from [] (trim_newline text))) _
            (Holds-any (source_v1 net ip_string (split_from [] (trim_newline text))))
            (λ src _. behind))

  -- a step whose result does not matter
  skip {ℓ κ} :
      {A : Type ℓ} {B : Type κ} (Q : B → Type 0) (m : Option A) (f : A → Option B)
      → ((a : A) → Holds Q (f a))
      → Holds Q (m >>= f)
  skip Q none f k = tt
  skip Q (some a) f k = k a

  parse_v2-Behind :
      (s : Bytes) → Holds (Behind (16 + max_proxy_v2_addr_len) s) (parse_v2 net ip_string s)
  unfolding parse_v2
  parse_v2-Behind s =
      Holds-bind (Behind 16 s) Q (read_full 16 s) _ (read_full-Behind 16 s) (λ (hdr, s₁) behind.
        skip Q (get_elem? hdr 12) _ (λ ver_cmd. skip Q (get_elem? hdr 13) _ (λ family.
          skip Q (slice hdr 14 16 >>= uint16) _ (λ addr_len.
            skip Q (guard (ver_cmd / 16 == 2)) _ (λ _.
              Holds-bind (λ u. addr_len ≤ max_proxy_v2_addr_len) Q
                (guard (leb addr_len max_proxy_v2_addr_len)) _
                (guard-leb addr_len max_proxy_v2_addr_len)
                (λ _ short.
                  Holds-bind (Behind addr_len s₁) Q (read_full addr_len s₁) _
                    (read_full-Behind addr_len s₁)
                    (λ (addr, s₂) behind₂. skip Q (command ver_cmd family addr) _ (λ src.
                      IsBehind-wider (16 + addr_len) (16 + max_proxy_v2_addr_len) s s₂
                        (omega (arith, short))
                        (IsBehind-trans 16 addr_len s s₁ s₂ behind behind₂)))))))))
    where
      Q : Option Bytes × Bytes → Type 0
      Q = Behind (16 + max_proxy_v2_addr_len) s

      command : ℕ → ℕ → Bytes → Option (Option Bytes)
      command ver_cmd family addr =
          if ver_cmd % 16 == 0
          then some none
          else if ver_cmd % 16 == 1
          then source_v2 net ip_string family addr
          else none

      guard-leb : (a b : ℕ) → Holds (λ u. a ≤ b) (guard (leb a b))
      guard-leb a b = elim (Bool-cases (leb a b)) [
        | inl within ↦ rw within (ground arith)
        | inr over ↦ rw over tt
      ]

  -- For any parameters and any bytes: if `newProxyConn` takes a connection, then its bytes are a header
  -- of at most 552 bytes and, unchanged, the bytes that the trap reads.
  pub new_proxy_conn-Behind :
      (s : Bytes) → Holds (Behind (16 + max_proxy_v2_addr_len) s) (new_proxy_conn net ip_string s)
  unfolding new_proxy_conn
  new_proxy_conn-Behind s = skip Q (read_full 12 s) _ (λ (peek, _).
      Holds-if Q (bytes_eq peek v2_signature) _ _ (parse_v2-Behind s) (
        Holds-if Q (bytes_eq (take 6 peek) (codes "PROXY ")) _ none
          (wider (parse_v1 net ip_string s) (parse_v1-Behind s)) tt))
    where
      Q : Option Bytes × Bytes → Type 0
      Q = Behind (16 + max_proxy_v2_addr_len) s

      wider : (m : Option (Option Bytes × Bytes)) → Holds (Behind max_proxy_v1_len s) m → Holds Q m
      wider none h = tt
      wider (some (src, rest)) h =
          IsBehind-wider max_proxy_v1_len (16 + max_proxy_v2_addr_len) s rest (omega arith) h
