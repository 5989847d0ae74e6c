-- ===== src/Trap/Tls/Capture/Whole.antt =====
-- What is captured does not depend on how the bytes were cut into reads.
use ran.Base.{
  ℕ, zero, suc, ◌-◌, ◌≤◌, true, false, List, [], ◌∷◌, ◌++◌, Bytes, length, take, length-append,
  length-take, ltb, leb, if◌then◌else◌, ◌≡◌, refl, ap, sym, ◌∙◌, arith, inl, inr, Bool-cases,
  append_assoc, append-nil, drop, take-drop, leb→le, take_all, length-take_eq,
}
use ran.Trap.Tls.Capture.{
  max_hello_record, new_conn, needed, is_handshake, settle, capture, read, read_all,
}

abbrev pub joined : List Bytes → Bytes
joined [] = []
joined (p ∷ ps) = p ++ joined ps

needed-append : (s t : Bytes) → 5 ≤ length s → needed (s ++ t) ≡ needed s
unfolding needed
needed-append (a ∷ b ∷ c ∷ d ∷ e ∷ s) t h = refl
needed-append (a ∷ b ∷ c ∷ d ∷ []) t h = absurd (omega arith)
needed-append (a ∷ b ∷ c ∷ []) t h = absurd (omega arith)
needed-append (a ∷ b ∷ []) t h = absurd (omega arith)
needed-append (a ∷ []) t h = absurd (omega arith)
needed-append [] t h = absurd (omega arith)

is_handshake-append : (s t : Bytes) → 5 ≤ length s → is_handshake (s ++ t) ≡ is_handshake s
is_handshake-append (a ∷ s) t h = refl
is_handshake-append [] t h = absurd (omega arith)

-- The first bytes are the same, however many more there are.
take-append_le : (n : ℕ) (s t : Bytes) → n ≤ length s → take n (s ++ t) ≡ take n s
take-append_le zero s t h = refl
take-append_le (suc n) [] t h = absurd (omega arith)
take-append_le (suc n) (x ∷ s) t h = ap (◌∷◌ x) (take-append_le n s t (omega arith))

-- The decision falls within the longest record, so that what lies behind does not matter.
settle-done : (s t : Bytes) → (settle s).done ≡ true → settle (s ++ t) ≡ settle s
unfolding settle
settle-done s t h = elim (Bool-cases (ltb (length s) 5)) [
  | inl short ↦ absurd (ground (arith, short, h))
  | inr long ↦
      let five : 5 ≤ length s = ground (arith, long) in
      rw (needed-append s t five, is_handshake-append s t five)
        (ground (arith, h, five, length-append s t, take-append_le (needed s) s t))
]

settle-open : (s : Bytes) → (settle s).done ≡ false → (settle s).buf ≡ s
unfolding settle
settle-open s h = ground (arith, h)

-- While the decision is open, there is room for more.
settle-room : (s : Bytes) → (settle s).done ≡ false → length s ≤ max_hello_record
unfolding settle
settle-room s h = ground (arith, h)

settle-buf : (s : Bytes) → length (settle s).buf ≤ max_hello_record
unfolding settle
settle-buf s = ground (arith, length-take (needed s) s)

settle-full : (s : Bytes) → length s ≡ max_hello_record → (settle s).done ≡ true
unfolding settle
settle-full s h = ground (arith, h)

not_leb→le : (a b : ℕ) → leb a b ≡ false → b ≤ a
not_leb→le a b h = ground (arith, h)

-- The bytes behind the room change nothing.
settle-take : (s : Bytes) → settle (take max_hello_record s) ≡ settle s
settle-take s = elim (Bool-cases (leb (length s) max_hello_record)) [
  | inl fits ↦ ap settle (take_all max_hello_record s (leb→le _ _ fits))
  | inr longer ↦
      let front = take max_hello_record s in
      let full : length front ≡ max_hello_record =
        length-take_eq max_hello_record s (not_leb→le _ _ longer) in
      sym (settle-done front (drop max_hello_record s) (settle-full front full))
      ∙ ap settle (take-drop max_hello_record s)
]

sub_zero : (n : ℕ) → n ≡ n - 0
sub_zero n = omega arith

sub_suc : (n m : ℕ) → n - m ≡ suc n - suc m
sub_suc n m = omega arith

take-append_room :
    (n : ℕ) (s p : Bytes) → length s ≤ n → take n (s ++ p) ≡ s ++ take (n - length s) p
take-append_room n [] p h = ap (λ k. take k p) (sub_zero n)
take-append_room zero (x ∷ s) p h = absurd (omega arith)
take-append_room (suc n) (x ∷ s) p h =
    ap (◌∷◌ x) (take-append_room n s p (omega arith))
    ∙ ap (λ k. x ∷ s ++ take k p) (sub_suc n (length s))

fitted : (room : ℕ) (p : Bytes) → (if ltb room (length p) then take room p else p) ≡ take room p
fitted room p = elim (Bool-cases (ltb room (length p))) [
  | inl cut ↦ rw cut refl
  | inr fits ↦ rw fits (sym (take_all room p (ground (arith, fits))))
]

capture-settle : (s p : Bytes) → (settle s).done ≡ false → capture p (settle s) ≡ settle (s ++ p)
unfolding capture
capture-settle s p h =
    rw (settle-open s h, fitted (max_hello_record - length s) p)
      (ap settle (sym (take-append_room max_hello_record s p (settle-room s h)))
        ∙ settle-take (s ++ p))

read-settle : (s p : Bytes) → read p (settle s) ≡ settle (s ++ p)
unfolding read
read-settle s [] = ap settle (sym (append-nil s))
read-settle s (x ∷ p) = elim (Bool-cases (settle s).done) [
  | inl done ↦ simp done (sym (settle-done s (x ∷ p) done))
  | inr open_ ↦ simp open_ (capture-settle s (x ∷ p) open_)
]

read_all-settle : (ps : List Bytes) (s : Bytes) → read_all ps (settle s) ≡ settle (s ++ joined ps)
unfolding read_all
read_all-settle [] s = ap settle (sym (append-nil s))
read_all-settle (p ∷ ps) s =
    ap (read_all ps) (read-settle s p)
    ∙ read_all-settle ps (s ++ p)
    ∙ ap settle (append_assoc s p (joined ps))

new_conn-settle : new_conn ≡ settle []
unfolding settle
new_conn-settle = refl

-- However a connection cuts its bytes into reads: the record that is captured, and whether the
-- capture is done, are as if all the bytes came in one read, and never are more than 16389 bytes
-- held.
pub read_all-one :
    (ps : List Bytes)
    → (read_all ps new_conn ≡ read (joined ps) new_conn)
      × (length (read_all ps new_conn).buf ≤ max_hello_record)
read_all-one ps =
    let whole = ap (read_all ps) new_conn-settle ∙ read_all-settle ps [] in
    (
      whole ∙ sym (ap (read (joined ps)) new_conn-settle ∙ read-settle [] (joined ps)),
      rw whole (settle-buf (joined ps)),
    )
