-- ===== src/Trap/LineReader.antt =====
-- internal/trap/linereader.go: lines of bounded length from a `bufio.Reader`, whose buffer holds
-- `size` bytes. What the reader delivers is a list of bytes, and an error behind it.
pub mod Chunks
use ran.Base.{
  ℕ, zero, suc, ◌+◌, Option, none, some, List, [], ◌∷◌, ◌++◌, Bytes, length, ltb, ◌==◌,
  if◌then◌else◌, ◌>>=◌,
}

abbrev pub max_line_len : ℕ
max_line_len = 4096

-- what `ReadSlice` returns: the bytes through the newline, a full buffer, or the bytes before an
-- error, each with the bytes that are still to come
pub data Slice : Type 0 where
  found : Bytes → Bytes → Slice
  full : Bytes → Bytes → Slice
  ended : Bytes → Slice

abbrev pub push : ℕ → Slice → Slice
push x (found chunk rest) = found (x ∷ chunk) rest
push x (full chunk rest) = full (x ∷ chunk) rest
push x (ended chunk) = ended (x ∷ chunk)

-- `ReadSlice('\n')` with so many bytes of buffer left
unfoldable pub read_slice : ℕ → Bytes → Slice
read_slice size [] = ended []
read_slice zero (x ∷ xs) = full [] (x ∷ xs)
read_slice (suc size) (x ∷ xs) =
    let rest = read_slice size xs in if x == 10 then found (x ∷ []) xs else push x rest

-- the outcome of `readLinePartial`: the line with the bytes behind it, `bufio.ErrTooLong`, or a read
-- error with the bytes before it
pub data ReadLine : Type 0 where
  line : Bytes → Bytes → ReadLine
  too_long : ReadLine
  cut : Bytes → ReadLine

-- the body of the loop of `readLinePartial` for what `ReadSlice` returned, with the bytes collected
-- and the next turn
unfoldable pub take_slice : ℕ → Bytes → (Bytes → Bytes → Option ReadLine) → Slice → Option ReadLine
take_slice max buf again (found chunk rest) =
    if ltb max (length buf + length chunk) then some too_long else some (line (buf ++ chunk) rest)
take_slice max buf again (full chunk rest) =
    if ltb max (length buf + length chunk) then some too_long else again (buf ++ chunk) rest
take_slice max buf again (ended chunk) =
    if ltb max (length buf + length chunk) then some too_long else some (cut (buf ++ chunk))

-- the loop, with the bytes collected; `none` is out of fuel
unfoldable pub read_loop : ℕ → ℕ → ℕ → Bytes → Bytes → Option ReadLine
read_loop size max zero buf s = none
read_loop size max (suc fuel) buf s =
    take_slice max buf (λ buf' s'. read_loop size max fuel buf' s') (read_slice size s)

-- a byte of fuel for each byte that comes, and one for the end
abbrev pub read_line_partial : ℕ → ℕ → Bytes → Option ReadLine
read_line_partial size max s = read_loop size max (length s + 1) [] s

abbrev pub line_of : ReadLine → Option (Bytes × Bytes)
line_of (line text rest) = some (text, rest)
line_of too_long = none
line_of (cut text) = none

-- `readLineLimited`: the line and the bytes behind it, or an error
unfoldable pub read_line_limited : ℕ → ℕ → Bytes → Option (Bytes × Bytes)
read_line_limited size max s = read_line_partial size max s >>= line_of
