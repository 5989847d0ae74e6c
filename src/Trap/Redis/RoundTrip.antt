-- ===== src/Trap/Redis/RoundTrip.antt =====
-- A command that a client writes in RESP is read back.
use ran.Base.{
  ℕ, ◌+◌, ◌≤◌, false, some, List, [], ◌∷◌, ◌++◌, Bytes, length, length-append, take-append,
  append_assoc, ltb, ◌==◌, ◌≡◌, refl, sym, ap, ◌∙◌, arith, All,
}
use ran.Text.{itoa}
use ran.Trap.LineReader.{found, max_line_len}
use ran.Trap.LineReader.Chunks.{whole_line, read_line_partial_lem}
use ran.Trap.Proxy.{read_full, trim_newline}
use ran.Trap.Proxy.Source.{read_full-append}
use ran.Trap.Redis.{
  max_resp_args, max_resp_bulk, reader_size, got, of_line, read_line, read_bulk, bulk_of,
  read_header, read_arg, read_args, counted, array_of, read_resp_array, read_redis_command,
}
use ran.Trap.Redis.Decimal.{IsDigit, atoi-itoa, itoa-All, length-itoa-le}
use ran.Trap.Session.{IoError}

abbrev crlf : Bytes → Bytes
crlf rest = 13 ∷ 10 ∷ rest

-- what a client writes for an argument and for a command, before more bytes
abbrev pub write_arg : Bytes → Bytes → Bytes
write_arg arg rest = b'$' ∷ itoa (length arg) ++ crlf (arg ++ crlf rest)

abbrev pub write_args : List Bytes → Bytes → Bytes
write_args [] rest = rest
write_args (arg ∷ args) rest = write_arg arg (write_args args rest)

abbrev pub write_command : List Bytes → Bytes → Bytes
write_command args rest = b'*' ∷ itoa (length args) ++ crlf (write_args args rest)

-- No part of a line's end.
abbrev IsPlain : ℕ → Type 0
IsPlain x = (x == 13 ≡ false) × (x == 10 ≡ false)

All-IsPlain : (xs : Bytes) → All IsDigit xs → All IsPlain xs
All-IsPlain [] h = tt
All-IsPlain (x ∷ xs) h = ((ground (arith, h.0), ground (arith, h.0)), All-IsPlain xs h.1)

whole_line-crlf :
    (text rest : Bytes)
    → All IsPlain text
    → whole_line (text ++ crlf rest) ≡ found (text ++ crlf []) rest
whole_line-crlf [] rest h = refl
whole_line-crlf (x ∷ text) rest h = rw (h.0.1, whole_line-crlf text rest h.1) refl

trim_newline-cons :
    (x y : ℕ) (xs ys : Bytes) → trim_newline xs ≡ y ∷ ys → trim_newline (x ∷ xs) ≡ x ∷ y ∷ ys
unfolding trim_newline
trim_newline-cons x y xs ys h = rw (trim_newline, h) refl

trim_newline-crlf : (text : Bytes) → All IsPlain text → trim_newline (text ++ crlf []) ≡ text
unfolding trim_newline
trim_newline-crlf [] h = refl
trim_newline-crlf (x ∷ []) h = rw (h.0.0, h.0.1) refl
trim_newline-crlf (x ∷ y ∷ text) h =
    trim_newline-cons x y (y ∷ text ++ crlf []) text (trim_newline-crlf (y ∷ text) h.1)

read_full-crlf :
    (arg rest : Bytes) → read_full (length arg + 2) (arg ++ crlf rest) ≡ some (arg ++ crlf [], rest)
read_full-crlf arg rest =
    ap (read_full (length arg + 2)) (sym (append_assoc arg (crlf []) rest))
    ∙ ap (λ n. read_full n ((arg ++ crlf []) ++ rest)) (sym (length-append arg (crlf [])))
    ∙ read_full-append (arg ++ crlf []) rest

module _ (read_error : IoError) where
  read_line-crlf :
      (text rest : Bytes)
      → All IsPlain text
      → length text + 2 ≤ max_line_len
      → read_line read_error (text ++ crlf rest) ≡ got text rest
  unfolding read_line of_line
  read_line-crlf text rest h l =
      let fits : ltb max_line_len (0 + length (text ++ crlf [])) ≡ false =
        ground (arith, l, length-append text (crlf [])) in
      rw
        (
          read_line_partial_lem reader_size max_line_len (text ++ crlf rest) (omega arith),
          whole_line-crlf text rest h,
          fits,
          trim_newline-crlf text h,
        )
        refl

  read_bulk-crlf :
      (arg rest : Bytes) → read_bulk read_error (length arg) (arg ++ crlf rest) ≡ got arg rest
  unfolding read_bulk
  read_bulk-crlf arg rest = rw (read_full-crlf arg rest, read_bulk, take-append arg (crlf [])) refl

  read_arg-write_arg :
      (arg rest : Bytes)
      → length arg ≤ max_resp_bulk
      → read_arg read_error (write_arg arg rest) ≡ got arg rest
  unfolding read_header bulk_of
  read_arg-write_arg arg rest h =
      let size : ltb max_resp_bulk (length arg) ≡ false = ground (arith, h) in
      rw
        (
          read_line-crlf (b'$' ∷ itoa (length arg)) (arg ++ crlf rest)
              ((refl, refl), All-IsPlain _ (itoa-All (length arg)))
              (omega (arith, h, length-itoa-le (length arg))),
          atoi-itoa (length arg) (omega (arith, h)),
          size,
        )
        (read_bulk-crlf arg rest)

  read_args-write_args :
      (args : List Bytes) (rest : Bytes)
      → All (λ arg. length arg ≤ max_resp_bulk) args
      → read_args read_error (length args) (write_args args rest) ≡ got args rest
  unfolding read_args
  read_args-write_args [] rest h = refl
  read_args-write_args (arg ∷ args) rest h =
      rw (read_arg-write_arg arg (write_args args rest) h.0, read_args-write_args args rest h.1)
        refl

  -- For at most 128 arguments of at most 4096 bytes each: readRedisCommand reads back the arguments
  -- that a client writes as an array of bulk strings, whatever the error of the connection and
  -- whatever bytes they hold, and leaves what follows.
  pub read_redis_command-write_command :
      (args : List Bytes) (rest : Bytes)
      → length args ≤ max_resp_args
      → All (λ arg. length arg ≤ max_resp_bulk) args
      → read_redis_command read_error (write_command args rest) ≡ got args rest
  unfolding read_redis_command read_resp_array array_of counted
  read_redis_command-write_command args rest l h =
      let few : ltb max_resp_args (length args) ≡ false = ground (arith, l) in
      rw
        (
          read_line-crlf (b'*' ∷ itoa (length args)) (write_args args rest)
              ((refl, refl), All-IsPlain _ (itoa-All (length args)))
              (omega (arith, l, length-itoa-le (length args))),
          atoi-itoa (length args) (omega (arith, l)),
          few,
        )
        (read_args-write_args args rest h)
