-- ===== src/Trap/LineReader/Chunks.antt =====
-- The chunks in which a reader delivers a line do not matter.
use ran.Base.{
  ℕ, zero, suc, ◌+◌, ◌≤◌, ◌<◌, false, Option, some, [], ◌∷◌, ◌++◌, Bytes, length, ltb, ◌==◌,
  if◌then◌else◌, ◌≡◌, refl, ap, arith, inl, inr, Bool-cases, length-append, append_assoc,
}
use ran.Trap.LineReader.{
  Slice, found, full, ended, push, read_slice, take_slice, ReadLine, line, too_long, cut, read_loop,
  read_line_partial,
}

-- the bytes through the first newline, without a buffer
abbrev pub whole_line : Bytes → Slice
whole_line [] = ended []
whole_line (x ∷ xs) = if x == 10 then found (x ∷ []) xs else push x (whole_line xs)

-- the outcome for a line that comes in one piece, behind the bytes collected
abbrev pub judge : ℕ → Bytes → Slice → ReadLine
judge max buf (found chunk rest) =
    if ltb max (length buf + length chunk) then too_long else line (buf ++ chunk) rest
judge max buf (full chunk rest) = too_long
judge max buf (ended chunk) =
    if ltb max (length buf + length chunk) then too_long else cut (buf ++ chunk)

abbrev pub bounded_line : ℕ → Bytes → ReadLine
bounded_line max s = judge max [] (whole_line s)

push_all : Bytes → Slice → Slice
push_all [] s = s
push_all (x ∷ xs) s = push x (push_all xs s)

-- What a slice of the buffer says of the line.
IsSliceOf : ℕ → Bytes → Slice → Type 0
IsSliceOf size s (found chunk rest) = whole_line s ≡ found chunk rest
IsSliceOf size s (full chunk rest) =
    (whole_line s ≡ push_all chunk (whole_line rest)) × (length s ≡ size + length rest)
IsSliceOf size s (ended chunk) = whole_line s ≡ ended chunk

push-IsSliceOf :
    (size x : ℕ) (xs : Bytes) (r : Slice)
    → x == 10 ≡ false
    → IsSliceOf size xs r
    → IsSliceOf (suc size) (x ∷ xs) (push x r)
unfolding IsSliceOf push_all
push-IsSliceOf size x xs (found chunk rest) other h = rw (other, h) refl
push-IsSliceOf size x xs (full chunk rest) other (h, k) = rw (other, h) (refl, omega (arith, k))
push-IsSliceOf size x xs (ended chunk) other h = rw (other, h) refl

read_slice-IsSliceOf : (size : ℕ) (s : Bytes) → IsSliceOf size s (read_slice size s)
unfolding IsSliceOf read_slice push_all
read_slice-IsSliceOf zero [] = refl
read_slice-IsSliceOf (suc size) [] = refl
read_slice-IsSliceOf zero (x ∷ xs) = (refl, omega arith)
read_slice-IsSliceOf (suc size) (x ∷ xs) = elim (Bool-cases (x == 10)) [
  | inl newline ↦ rw newline (rw newline refl)
  | inr other ↦
      rw other (push-IsSliceOf size x xs (read_slice size xs) other (read_slice-IsSliceOf size xs))
]

push_all-found : (xs c rest : Bytes) → push_all xs (found c rest) ≡ found (xs ++ c) rest
unfolding push_all
push_all-found [] c rest = refl
push_all-found (x ∷ xs) c rest = ap (push x) (push_all-found xs c rest)

push_all-ended : (xs c : Bytes) → push_all xs (ended c) ≡ ended (xs ++ c)
unfolding push_all
push_all-ended [] c = refl
push_all-ended (x ∷ xs) c = ap (push x) (push_all-ended xs c)

push_all-full : (xs c rest : Bytes) → push_all xs (full c rest) ≡ full (xs ++ c) rest
unfolding push_all
push_all-full [] c rest = refl
push_all-full (x ∷ xs) c rest = ap (push x) (push_all-full xs c rest)

-- Collecting a chunk, and judging the rest behind it.
judge-push_all :
    (max : ℕ) (buf chunk : Bytes) (r : Slice)
    → judge max buf (push_all chunk r)
      ≡ (if ltb max (length buf + length chunk) then too_long else judge max (buf ++ chunk) r)
judge-push_all max buf chunk (found c rest) =
    rw (push_all-found chunk c rest, append_assoc buf chunk c)
      (ground (arith, length-append chunk c, length-append buf chunk))
judge-push_all max buf chunk (full c rest) = rw (push_all-full chunk c rest) (ground arith)
judge-push_all max buf chunk (ended c) =
    rw (push_all-ended chunk c, append_assoc buf chunk c)
      (ground (arith, length-append chunk c, length-append buf chunk))

read_loop_lem :
    (size max fuel : ℕ) (buf s : Bytes)
    → 1 ≤ size
    → length s < fuel
    → read_loop size max fuel buf s ≡ some (judge max buf (whole_line s))
unfolding read_loop take_slice IsSliceOf
read_loop_lem size max zero buf s positive enough = absurd (omega arith)
read_loop_lem size max (suc fuel) buf s positive enough =
    by_slice (λ buf' s'. read_loop size max fuel buf' s')
      (λ buf' s' less. read_loop_lem size max fuel buf' s' positive less) (read_slice size s)
      (read_slice-IsSliceOf size s)
  where
    by_slice :
        (again : Bytes → Bytes → Option ReadLine)
        → ((buf' s' : Bytes)
            → length s' < fuel
            → again buf' s' ≡ some (judge max buf' (whole_line s')))
        → (r : Slice) → IsSliceOf size s r
        → take_slice max buf again r ≡ some (judge max buf (whole_line s))
    by_slice again ih (found chunk rest) h = rw h (ground arith)
    by_slice again ih (full chunk rest) (h, k) =
        rw (h, judge-push_all max buf chunk (whole_line rest))
          (elim (Bool-cases (ltb max (length buf + length chunk))) [
            | inl over ↦ rw over refl
            | inr fits ↦ rw fits (ih (buf ++ chunk) rest (omega (arith, k, enough, positive)))
          ])
    by_slice again ih (ended chunk) h = rw h (ground arith)

-- For a buffer of at least one byte, any bound and any bytes: `readLinePartial`, which collects a
-- line from as many chunks as the buffer makes of it, ends, and gives what a reader of whole lines
-- gives: the line if it is within the bound, else `bufio.ErrTooLong`, and the bytes before a read
-- error if there is no newline.
pub read_line_partial_lem :
    (size max : ℕ) (s : Bytes) → 1 ≤ size → read_line_partial size max s ≡ some (bounded_line max s)
read_line_partial_lem size max s positive =
    read_loop_lem size max (length s + 1) [] s positive (omega arith)
