-- ===== src/Trap/Redis/Total.antt =====
-- The Redis handler ends on everything that a client sends.
use ran.Base.{
  ℕ, zero, suc, ◌+◌, ◌≤◌, true, false, ◌||◌, Option, none, some, List, [], ◌∷◌, Bytes, codes,
  bytes_eq, length, drop, length-drop, ltb, leb, ◌==◌, if◌then◌else◌, if-both, ◌≡◌, refl, arith,
  inl, inr, Bool-cases,
}
use ran.Text.{Unicode, upper}
use ran.Trap.Dialog.{Act}
use ran.Trap.LineReader.{push, Slice, found, full, ended, max_line_len}
use ran.Trap.LineReader.Chunks.{whole_line, judge, read_line_partial_lem}
use ran.Trap.Proxy.{read_full, trim_newline}
use ran.Trap.Redis.{
  Read, got, refused, panicked, ◌>>=◌, reader_size, of_line, read_line, read_bulk, bulk_of,
  read_header, read_arg, read_args, counted, array_of, read_resp_array, inline_of,
  read_inline_command, read_redis_command, on_command, on_read, serve, redis_handle, atoi,
  starts_with, max_resp_args, max_resp_bulk,
}
use ran.Trap.Session.{IoError}

add_one : (n : ℕ) → n + 1 ≡ suc n
add_one n = omega arith

-- No panic, and at most so many bytes behind what was read.
abbrev Fits {ℓ} : {A : Type ℓ} → ℕ → Read A → Type 0
Fits n (got a rest) = length rest ≤ n
Fits n (refused err) = Unit
Fits n panicked = ⊥

then-Fits {ℓ κ} :
    {A : Type ℓ} {B : Type κ} (n : ℕ) (m : Read A) (f : A → Bytes → Read B)
    → Fits n m
    → ((a : A) (rest : Bytes) → length rest ≤ n → Fits n (f a rest))
    → Fits n (m >>= f)
then-Fits n (got a rest) f h k = k a rest h
then-Fits n (refused err) f h k = tt
then-Fits n panicked f h k = h

-- A whole line takes bytes away.
abbrev IsCut : ℕ → Slice → Type 0
IsCut n (found chunk rest) = suc (length rest) ≤ n
IsCut n (full chunk rest) = Unit
IsCut n (ended chunk) = Unit

push-IsCut : (n x : ℕ) (r : Slice) → IsCut n r → IsCut (suc n) (push x r)
push-IsCut n x (found chunk rest) h = omega (arith, h)
push-IsCut n x (full chunk rest) h = tt
push-IsCut n x (ended chunk) h = tt

whole_line-IsCut : (s : Bytes) → IsCut (length s) (whole_line s)
whole_line-IsCut [] = tt
whole_line-IsCut (x ∷ s) = elim (Bool-cases (x == 10)) [
  | inl newline ↦ rw newline (omega arith)
  | inr other ↦ rw other (push-IsCut (length s) x (whole_line s) (whole_line-IsCut s))
]

IsCut-le : (m n : ℕ) (r : Slice) → m ≤ n → IsCut m r → IsCut n r
IsCut-le m n (found chunk rest) h k = omega (arith, h, k)
IsCut-le m n (full chunk rest) h k = tt
IsCut-le m n (ended chunk) h k = tt

-- A first byte that is no part of the end of the line stays.
trim_newline-keeps :
    (x : ℕ) (s : Bytes) → x == 13 || x == 10 ≡ false → (t : Bytes) × (trim_newline (x ∷ s) ≡ x ∷ t)
unfolding trim_newline
trim_newline-keeps x s h = kept x (trim_newline s) h
  where
    kept :
        (x : ℕ) (r : Bytes)
        → x == 13 || x == 10 ≡ false
        → (t : Bytes) × ((elim r as (λ _. Bytes) [
          | [] ↦ if x == 13 || x == 10 then [] else x ∷ []
          | y ∷ ys ↦ x ∷ y ∷ ys
        ])
            ≡ x ∷ t)
    kept x [] h = ([], rw h refl)
    kept x (y ∷ ys) h = (y ∷ ys, refl)

module _ (read_error : IoError) where
  of_slice-Fits :
      (n : ℕ) (r : Slice)
      → IsCut (suc n) r
      → Fits n (of_line read_error (some (judge max_line_len [] r)))
  unfolding of_line
  of_slice-Fits n (found chunk rest) h = elim (Bool-cases (ltb max_line_len (0 + length chunk))) [
    | inl long ↦ rw long tt
    | inr fits ↦ rw fits (omega (arith, h))
  ]
  of_slice-Fits n (full chunk rest) h = tt
  of_slice-Fits n (ended chunk) h = elim (Bool-cases (ltb max_line_len (0 + length chunk))) [
    | inl long ↦ rw long tt
    | inr fits ↦ rw fits tt
  ]

  read_line-Fits : (n : ℕ) (s : Bytes) → length s ≤ suc n → Fits n (read_line read_error s)
  unfolding read_line
  read_line-Fits n s h = rw (read_line_partial_lem reader_size max_line_len s (omega arith)) (
      of_slice-Fits n (whole_line s)
        (IsCut-le (length s) (suc n) (whole_line s) h (whole_line-IsCut s)))

  read_bulk-Fits : (n size : ℕ) (s : Bytes) → length s ≤ n → Fits n (read_bulk read_error size s)
  unfolding read_bulk read_full
  read_bulk-Fits n size s h = elim (Bool-cases (leb (size + 2) (length s))) [
    | inl there ↦ rw (Fits, there) (omega (arith, h, length-drop (size + 2) s))
    | inr cut_ ↦ rw (Fits, cut_) tt
  ]

  bulk_of-Fits : (n : ℕ) (o : Option ℕ) (s : Bytes) → length s ≤ n → Fits n (bulk_of read_error o s)
  unfolding bulk_of
  bulk_of-Fits n none s h = tt
  bulk_of-Fits n (some size) s h =
      if-both (Fits n) (ltb max_resp_bulk size) tt (read_bulk-Fits n size s h)

  read_header-Fits :
      (n : ℕ) (header s : Bytes) → length s ≤ n → Fits n (read_header read_error header s)
  unfolding read_header
  read_header-Fits n header s h =
      if-both (Fits n) (starts_with b'$' header) (bulk_of-Fits n (atoi (drop 1 header)) s h) tt

  read_args-Fits : (count n : ℕ) (s : Bytes) → length s ≤ n → Fits n (read_args read_error count s)
  unfolding read_args
  read_args-Fits zero n s h = h
  read_args-Fits (suc count) n s h =
      then-Fits n (read_arg read_error s) _
        (then-Fits n (read_line read_error s) _ (read_line-Fits n s (omega (arith, h)))
          (λ header rest k. read_header-Fits n header rest k))
        (λ arg rest k.
          then-Fits n (read_args read_error count rest) _ (read_args-Fits count n rest k)
            (λ args rest' l. l))

  counted-Fits : (n : ℕ) (o : Option ℕ) (s : Bytes) → length s ≤ n → Fits n (counted read_error o s)
  unfolding counted
  counted-Fits n none s h = tt
  counted-Fits n (some count) s h =
      if-both (Fits n) (ltb max_resp_args count) tt (read_args-Fits count n s h)

  -- A line that starts with a plain byte is not empty.
  array-Fits :
      (n x : ℕ) (r : Slice)
      → x == 13 || x == 10 ≡ false
      → IsCut n r
      → Fits n
          (of_line read_error (some (judge max_line_len [] (push x r))) >>= array_of read_error)
  unfolding of_line array_of
  array-Fits n x (found chunk rest) p h =
      elim (Bool-cases (ltb max_line_len (0 + suc (length chunk)))) [
        | inl long ↦ rw long tt
        | inr fits ↦
            let (t, e) = trim_newline-keeps x chunk p in
            rw (fits, e) (counted-Fits n (atoi t) rest (omega (arith, h)))
      ]
  array-Fits n x (full chunk rest) p h = tt
  array-Fits n x (ended chunk) p h = elim (Bool-cases (ltb max_line_len (0 + suc (length chunk)))) [
    | inl long ↦ rw long tt
    | inr fits ↦ rw fits tt
  ]

  inline-Fits : (n : ℕ) (text s : Bytes) → length s ≤ n → Fits n (inline_of read_error text s)
  unfolding inline_of
  inline-Fits n [] s h = h
  inline-Fits n (x ∷ text) s h = h

  read_resp_array-Fits :
      (n x : ℕ) (s : Bytes)
      → x == b'*' ≡ true
      → length s ≤ n
      → Fits n (read_resp_array read_error (x ∷ s))
  unfolding read_resp_array read_line
  read_resp_array-Fits n x s h k =
      let newline : x == 10 ≡ false = ground (arith, h) in
      let plain : x == 13 || x == 10 ≡ false = ground (arith, h) in
      rw (read_line_partial_lem reader_size max_line_len (x ∷ s) (omega arith), newline)
        (array-Fits n x (whole_line s) plain
          (IsCut-le (length s) n (whole_line s) k (whole_line-IsCut s)))

  read_inline_command-Fits :
      (n : ℕ) (s : Bytes) → length s ≤ suc n → Fits n (read_inline_command read_error s)
  unfolding read_inline_command
  read_inline_command-Fits n s h =
      then-Fits n (read_line read_error s) _ (read_line-Fits n s h)
        (λ text rest k. inline-Fits n text rest k)

  -- A command takes bytes away.
  read_redis_command-Fits :
      (n : ℕ) (s : Bytes) → length s ≤ suc n → Fits n (read_redis_command read_error s)
  unfolding read_redis_command
  read_redis_command-Fits n [] h = tt
  read_redis_command-Fits n (x ∷ s) h = elim (Bool-cases (x == b'*')) [
    | inl array ↦ rw array (read_resp_array-Fits n x s array (omega (arith, h)))
    | inr text ↦ rw text (read_inline_command-Fits n (x ∷ s) h)
  ]

  module _ (unicode : Unicode) where
    abbrev Ends : Option (List Act) → Type 0
    Ends o = (acts : List Act) × (o ≡ some acts)

    on_command-Ends :
        (args : List Bytes) (o : Option (List Act))
        → Ends o
        → Ends (on_command unicode read_error args o)
    unfolding on_command
    on_command-Ends [] o h = h
    on_command-Ends (name ∷ args) o (acts, e) =
        let cmd = upper unicode name in
        rw e (
          if-both Ends (bytes_eq cmd (codes "AUTH")) (_, refl)
            (if-both Ends (bytes_eq cmd (codes "QUIT")) (_, refl) (_, refl)))

    on_read-Ends :
        (n : ℕ) (r : Read (List Bytes)) (next : Bytes → Option (List Act))
        → Fits n r
        → ((rest : Bytes) → length rest ≤ n → Ends (next rest))
        → Ends (on_read unicode read_error r next)
    unfolding on_read
    on_read-Ends n (got args rest) next h k = on_command-Ends args (next rest) (k rest h)
    on_read-Ends n (refused err) next h k = (_, refl)
    on_read-Ends n panicked next h k = absurd h

    serve-Ends :
        (fuel : ℕ) (s : Bytes) → length s ≤ fuel → Ends (serve unicode read_error (suc fuel) s)
    unfolding serve read_redis_command on_read
    serve-Ends zero [] h = (_, refl)
    serve-Ends zero (x ∷ s) h = absurd (omega arith)
    serve-Ends (suc fuel) s h =
        on_read-Ends fuel (read_redis_command read_error s) _ (read_redis_command-Fits fuel s h)
          (λ rest k. serve-Ends fuel rest k)

    -- The Redis handler comes to its actions on everything that a client sends: its loop ends, with
    -- a turn for each byte and one more, and no read is out of range.
    pub redis_handle-Ends :
        (s : Bytes) → (acts : List Act) × (redis_handle unicode read_error s ≡ some acts)
    redis_handle-Ends s = rw (add_one (length s)) (serve-Ends (length s) s (omega arith))
