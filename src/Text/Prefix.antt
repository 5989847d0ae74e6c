-- ===== src/Text/Prefix.antt =====
-- Prefixes, trimming and splitting of strings, and what a prefix says of the length.
use ran.Base.{
  ℕ, zero, suc, ◌≤◌, ◌<◌, Bool, true, false, ◌&&◌, List, [], ◌∷◌, ◌++◌, Bytes, length, ◌==◌,
  if◌then◌else◌, ◌≡◌, arith, All,
}
use ran.Text.{Unicode, Chunk, decode, chunks_from, chunks, map_runes, encode, upper}

-- `strings.HasPrefix(s, p)`
unfoldable pub has_prefix : Bytes → Bytes → Bool
has_prefix s [] = true
has_prefix [] (x ∷ p) = false
has_prefix (y ∷ s) (x ∷ p) = y == x && has_prefix s p

-- `strings.TrimRight(s, c)` with a cutset of one byte
unfoldable pub trim_right_byte : ℕ → Bytes → Bytes
trim_right_byte c [] = []
trim_right_byte c (x ∷ s) = elim (trim_right_byte c s) [
  | [] ↦ if x == c then [] else x ∷ []
  | y ∷ ys ↦ x ∷ y ∷ ys
]

unfoldable pub trim_left_byte : ℕ → Bytes → Bytes
trim_left_byte c [] = []
trim_left_byte c (x ∷ s) = if x == c then trim_left_byte c s else x ∷ s

-- `strings.Trim(s, c)` with a cutset of one byte
unfoldable pub trim_byte : ℕ → Bytes → Bytes
trim_byte c s = trim_left_byte c (trim_right_byte c s)

-- `strings.SplitN(s, c, n + 1)` with a separator of one byte and the part that has begun: at most so
-- many parts besides the last
unfoldable pub split_n : ℕ → ℕ → Bytes → Bytes → List Bytes
split_n c zero begun s = (begun ++ s) ∷ []
split_n c (suc n) begun [] = begun ∷ []
split_n c (suc n) begun (x ∷ s) =
    let next = split_n c n [] s in
    let longer = split_n c (suc n) (begun ++ x ∷ []) s in if x == c then begun ∷ next else longer

-- A prefix of ASCII bytes.
abbrev pub IsAscii : Bytes → Type 0
IsAscii = All (λ b. b < 128)

length-chunks_from : (skip : ℕ) (s : Bytes) → length (chunks_from skip s) ≤ length s
unfolding chunks_from
length-chunks_from skip [] = omega arith
length-chunks_from (suc skip) (x ∷ s) = omega (arith, length-chunks_from skip s)
length-chunks_from zero (x ∷ s) = omega (arith, length-chunks_from (decode x s).1 s)

-- What encodes a rune begins with an ASCII byte only if it is one byte.
has_prefix-encode :
    (r a : ℕ) (s p : Bytes)
    → a < 128
    → has_prefix (encode r ++ s) (a ∷ p) ≡ true
    → has_prefix s p ≡ true
unfolding encode has_prefix
has_prefix-encode r a s p h k = ground (arith, h, k)

prefix_of_nil : (a : ℕ) (p : Bytes) → has_prefix [] (a ∷ p) ≡ true → ⊥
unfolding has_prefix
prefix_of_nil a p k = cc

-- A mapped string with an ASCII prefix has a rune for each byte of the prefix.
has_prefix-map_runes :
    (f : ℕ → ℕ) (cs : List Chunk) (p : Bytes)
    → IsAscii p
    → has_prefix (map_runes f cs) p ≡ true
    → length p ≤ length cs
unfolding map_runes
has_prefix-map_runes f cs [] h k = omega arith
has_prefix-map_runes f [] (a ∷ p) h k = absurd (prefix_of_nil a p k)
has_prefix-map_runes f (c ∷ cs) (a ∷ p) h k = omega (
  arith,
  has_prefix-map_runes f cs p h.1 (has_prefix-encode (f c.rune) a (map_runes f cs) p h.0 k),
)

-- A string whose upper case has an ASCII prefix is no shorter than the prefix.
pub has_prefix-upper :
    (unicode : Unicode) (s p : Bytes)
    → IsAscii p
    → has_prefix (upper unicode s) p ≡ true
    → length p ≤ length s
unfolding upper
has_prefix-upper unicode s p h k =
    omega (arith, has_prefix-map_runes unicode.to_upper (chunks s) p h k, length-chunks_from 0 s)
