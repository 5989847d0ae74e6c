-- ===== src/Text.antt =====
-- Go strings as text: the UTF-8 decoding of unicode/utf8 and the functions of package strings that
-- the program uses. A string is the list of its bytes; the tables of package unicode that are more
-- than a few ranges are a parameter.
pub mod Sizes
pub mod Prefix
use ran.Base.{
  ℕ, zero, suc, ◌+◌, ◌-◌, ◌*◌, ◌/◌, ◌%◌, Bool, true, false, not, ◌&&◌, ◌||◌, List, [], ◌∷◌, ◌++◌,
  Bytes, length, take, ltb, leb, ◌==◌, bytes_eq, if◌then◌else◌,
}

-- What the program relies on of package unicode: `ToUpper`, `ToLower`, the least rune of the orbit
-- of `SimpleFold`, and the table `Cf` of format characters.
pub record Unicode : Type 0 where
  pub to_upper : ℕ → ℕ
  pub to_lower : ℕ → ℕ
  pub fold : ℕ → ℕ
  pub is_format : ℕ → Bool

-- `utf8.RuneError`
abbrev pub rune_error : ℕ
rune_error = 65533

abbrev pub within : ℕ → ℕ → ℕ → Bool
within lo hi b = leb lo b && leb b hi

abbrev pub invalid : ℕ × ℕ
invalid = (rune_error, 0)

abbrev pub decode_two : ℕ → Bytes → ℕ × ℕ
decode_two a (b ∷ _) = if within 128 191 b then (a % 32 * 64 + b % 64, 1) else invalid
decode_two a _ = invalid

abbrev pub decode_three : ℕ → Bytes → ℕ × ℕ
decode_three a (b ∷ c ∷ _) =
    if within (if a == 224 then 160 else 128) (if a == 237 then 159 else 191) b && within 128 191 c
    then ((a % 16 * 64 + b % 64) * 64 + c % 64, 2)
    else invalid
decode_three a _ = invalid

abbrev pub decode_four : ℕ → Bytes → ℕ × ℕ
decode_four a (b ∷ c ∷ d ∷ _) =
    if within (if a == 240 then 144 else 128) (if a == 244 then 143 else 191) b
      && within 128 191 c
      && within 128 191 d
    then (((a % 8 * 64 + b % 64) * 64 + c % 64) * 64 + d % 64, 3)
    else invalid
decode_four a _ = invalid

-- `utf8.DecodeRuneInString`: the rune, and the bytes that it has after the first
unfoldable pub decode : ℕ → Bytes → ℕ × ℕ
decode a xs =
    if ltb a 128
    then (a, 0)
    else if ltb a 194
    then invalid
    else if ltb a 224
    then decode_two a xs
    else if ltb a 240
    then decode_three a xs
    else if ltb a 245
    then decode_four a xs
    else invalid

-- a rune with the bytes that it stands for
pub record Chunk : Type 0 where
  pub rune : ℕ
  pub raw : Bytes

-- the runes of a string, after so many bytes of the rune before
unfoldable pub chunks_from : ℕ → Bytes → List Chunk
chunks_from skip [] = []
chunks_from (suc skip) (x ∷ xs) = chunks_from skip xs
chunks_from zero (x ∷ xs) =
    record { rune = (decode x xs).0; raw = x ∷ take (decode x xs).1 xs }
    ∷ chunks_from (decode x xs).1 xs

abbrev pub chunks : Bytes → List Chunk
chunks = chunks_from 0

-- an invalid byte: `r == utf8.RuneError && size <= 1`
abbrev pub is_invalid : Chunk → Bool
is_invalid c = c.rune == rune_error && leb (length c.raw) 1

-- `utf8.RuneLen` of a rune that decoding gives (no surrogate, nothing past U+10FFFF)
abbrev pub rune_len : ℕ → ℕ
rune_len r = if ltb r 128 then 1 else if ltb r 2048 then 2 else if ltb r 65_536 then 3 else 4

-- `WriteRune`
unfoldable pub encode : ℕ → Bytes
encode r =
    if ltb r 128
    then r ∷ []
    else if ltb r 2048
    then (192 + r / 64) ∷ (128 + r % 64) ∷ []
    else if ltb r 65_536
    then (224 + r / 4096) ∷ (128 + r / 64 % 64) ∷ (128 + r % 64) ∷ []
    else (240 + r / 262_144) ∷ (128 + r / 4096 % 64) ∷ (128 + r / 64 % 64) ∷ (128 + r % 64) ∷ []

-- `strings.Map`
unfoldable pub map_runes : (ℕ → ℕ) → List Chunk → Bytes
map_runes f [] = []
map_runes f (c ∷ cs) = encode (f c.rune) ++ map_runes f cs

-- `unicode.IsSpace`
unfoldable pub is_space : ℕ → Bool
is_space r =
    within 9 13 r
    || r == 32
    || r == 133
    || r == 160
    || r == 5760
    || within 8192 8202 r
    || r == 8232
    || r == 8233
    || r == 8239
    || r == 8287
    || r == 12_288

-- `unicode.IsControl`
unfoldable pub is_control : ℕ → Bool
is_control r = ltb r 32 || within 127 159 r

unfoldable pub trim_left : List Chunk → List Chunk
trim_left [] = []
trim_left (c ∷ cs) = if is_space c.rune then trim_left cs else c ∷ cs

-- the chunks, less the spaces at the end
unfoldable pub trim_right : List Chunk → List Chunk
trim_right [] = []
trim_right (c ∷ cs) = elim (trim_right cs) [
  | [] ↦ if is_space c.rune then [] else c ∷ []
  | d ∷ ds ↦ c ∷ d ∷ ds
]

unfoldable pub raw_of : List Chunk → Bytes
raw_of [] = []
raw_of (c ∷ cs) = c.raw ++ raw_of cs

-- `strings.TrimSpace`
unfoldable pub trim_space : Bytes → Bytes
trim_space s = raw_of (trim_left (trim_right (chunks s)))

abbrev pub flush_field : Bytes → List Bytes
flush_field [] = []
flush_field (x ∷ xs) = (x ∷ xs) ∷ []

-- the fields from here on, with the bytes of the field that has begun
unfoldable pub fields_from : Bytes → List Chunk → List Bytes
fields_from begun [] = flush_field begun
fields_from begun (c ∷ cs) =
    let ended = fields_from [] cs in
    let longer = fields_from (begun ++ c.raw) cs in
    if is_space c.rune then flush_field begun ++ ended else longer

-- `strings.Fields`
unfoldable pub fields : Bytes → List Bytes
fields s = fields_from [] (chunks s)

-- `strings.Join`
unfoldable pub join : Bytes → List Bytes → Bytes
join sep [] = []
join sep (x ∷ []) = x
join sep (x ∷ y ∷ ys) = x ++ sep ++ join sep (y ∷ ys)

abbrev pub fold_runes : (ℕ → ℕ) → List Chunk → List ℕ
fold_runes f [] = []
fold_runes f (c ∷ cs) = f c.rune ∷ fold_runes f cs

module _ (unicode : Unicode) where
  open unicode use {to_upper, to_lower, fold}

  -- `strings.ToUpper` and `strings.ToLower`
  unfoldable pub upper : Bytes → Bytes
  upper s = map_runes to_upper (chunks s)

  unfoldable pub lower : Bytes → Bytes
  lower s = map_runes to_lower (chunks s)

  -- `strings.EqualFold`
  unfoldable pub equal_fold : Bytes → Bytes → Bool
  equal_fold s t = bytes_eq (fold_runes fold (chunks s)) (fold_runes fold (chunks t))

-- `strings.TrimPrefix` with a prefix of one byte
unfoldable pub trim_prefix : ℕ → Bytes → Bytes
trim_prefix p [] = []
trim_prefix p (x ∷ xs) = if x == p then xs else x ∷ xs

-- `strconv.Itoa` of a natural number, with enough fuel for its digits: the number itself
unfoldable pub digits : ℕ → ℕ → Bytes
digits zero n = []
digits (suc fuel) n =
    let front = digits fuel (n / 10) in
    if ltb n 10 then (48 + n) ∷ [] else front ++ (48 + n % 10) ∷ []

abbrev pub itoa : ℕ → Bytes
itoa n = digits (n + 1) n

abbrev pub hex_digit : ℕ → ℕ
hex_digit d = if ltb d 10 then 48 + d else 87 + d

-- `hex.EncodeToString`
abbrev pub hex : Bytes → Bytes
hex [] = []
hex (b ∷ bs) = hex_digit (b / 16) ∷ hex_digit (b % 16) ∷ hex bs
