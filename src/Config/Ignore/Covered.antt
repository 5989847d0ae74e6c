-- ===== src/Config/Ignore/Covered.antt =====
-- The list of ignored sources is bounded, has no range twice, and every entry takes effect.
use ran.Alert.Netip.{Netip, any_contains, matches_prefixes}
use ran.Base.{
  ℕ, zero, suc, get_elem?, ◌≤◌, Bool, true, false, ◌||◌, Option, none, some, List, [], ◌∷◌, ◌++◌,
  Bytes, length, length-append, leb, if◌then◌else◌, ◌>>=◌, ◌≡◌, refl, sym, ◌∙◌, arith, inl, inr,
  Bool-cases, All,
}
use ran.Config.Ignore.{
  Prefixes, max_ignore_entries, parse_ignore_entry, seen, add_range, add_entry, add_entries,
  parse_ignore_list, is_ignored,
}
use ran.Config.Listen.{split_commas}
use ran.Text.{trim_space}

not_either : (b r : Bool) → (if b then true else r) ≡ false → (b ≡ false) × (r ≡ false)
not_either true r h = cc
not_either false r h = (refl, h)

none_seen : (a b : Bool) → a ≡ false → b ≡ false → (a || b) ≡ false
none_seen a b h k = ground (arith, h, k)

some-inj {ℓ} : {A : Type ℓ} {a b : A} → some a ≡ some b → a ≡ b
some-inj h = cc

refused {ℓ} : {A : Type ℓ} {a : A} → ◌≡◌ {A = Option A} none (some a) → ⊥
refused h = cc

-- What two steps that both succeed come to.
some-of-bind {ℓ κ} :
    {A : Type ℓ} {B : Type κ} (m : Option A) (f : A → Option B) {b : B}
    → (m >>= f) ≡ some b
    → (a : A) × (m ≡ some a) × (f a ≡ some b)
some-of-bind none f h = cc
some-of-bind (some a) f h = (a, refl, h)

module _ (net : Netip) (prefixes : Prefixes net) where
  open net use {Addr, Prefix, parse_addr, contains, unmap, without_zone}

  abbrev is_seen : Prefix → List Prefix → Bool
  is_seen p out = seen net prefixes p out

  -- No range stands twice.
  abbrev pub AreDistinct : List Prefix → Type 0
  AreDistinct [] = Unit
  AreDistinct (p ∷ ps) = (is_seen p ps ≡ false) × AreDistinct ps

  seen-append :
      (p : Prefix) (xs ys : List Prefix) → is_seen p (xs ++ ys) ≡ (is_seen p xs || is_seen p ys)
  unfolding seen
  seen-append p [] ys = refl
  seen-append p (x ∷ xs) ys = ground (arith, seen-append p xs ys)

  seen_self : (p : Prefix) → is_seen p (p ∷ []) ≡ true
  unfolding seen
  seen_self p = rw ((prefixes.eq_iff p p).1 refl) refl

  eq_sym : (p q : Prefix) → prefixes.eq p q ≡ false → prefixes.eq q p ≡ false
  eq_sym p q h = ground (arith, h, prefixes.eq_iff p q, prefixes.eq_iff q p)

  append-AreDistinct :
      (xs : List Prefix) (p : Prefix)
      → AreDistinct xs
      → is_seen p xs ≡ false
      → AreDistinct (xs ++ p ∷ [])
  unfolding seen
  append-AreDistinct [] p h k = (refl, tt)
  append-AreDistinct (x ∷ xs) p h k =
      let (x_p, p_xs) = not_either (prefixes.eq x p) (is_seen p xs) k in
      (
        seen-append x xs (p ∷ []) ∙ none_seen (is_seen x xs) _ h.0 (rw (eq_sym x p x_p) refl),
        append-AreDistinct xs p h.1 p_xs,
      )

  -- A list within the bound and without a range twice.
  abbrev IsList : List Prefix → Type 0
  IsList out = (length out ≤ max_ignore_entries) × AreDistinct out

  -- A range that was added is there, and those before stay.
  abbrev Grows : List Prefix → List Prefix → Type 0
  Grows out out' =
      (IsList out → IsList out') × ((q : Prefix) → is_seen q out ≡ true → is_seen q out' ≡ true)

  add_range-Grows :
      (out : List Prefix) (p : Prefix) {out' : List Prefix}
      → add_range net prefixes out p ≡ some out'
      → Grows out out' × (is_seen p out' ≡ true)
  unfolding add_range
  add_range-Grows out p {out'} h = elim (Bool-cases (is_seen p out)) [
    | inl old ↦ let e : out ≡ out' = some-inj (rw old at h) in rw (← e) ((λ l. l, λ q k. k), old)
    | inr new ↦ elim (Bool-cases (leb max_ignore_entries (length out))) [
      | inl full ↦ absurd (refused (rw (new, full) at h))
      | inr room ↦
          let e : out ++ p ∷ [] ≡ out' = some-inj (rw (new, room) at h) in
          rw (← e) (
            (
              λ l. (
                ground (arith, room, length-append out (p ∷ [])),
                append-AreDistinct out p l.1 new,
              ),
              λ q k. seen-append q out (p ∷ []) ∙ rw k refl,
            ),
            seen-append p out (p ∷ []) ∙ rw (new, seen_self p) refl,
          )
    ]
  ]

  -- An entry that is not empty is read, and its range is in the list.
  abbrev IsIn : List Prefix → Bytes → Type 0
  IsIn out [] = Unit
  IsIn out (x ∷ s) =
      (q : Prefix) × (parse_ignore_entry net prefixes (x ∷ s) ≡ some q) × (is_seen q out ≡ true)

  add_entry-Grows :
      (s : Bytes) (out : List Prefix) {out' : List Prefix}
      → add_entry net prefixes s out ≡ some out'
      → Grows out out' × IsIn out' s
  unfolding add_entry
  add_entry-Grows [] out h = let e : out ≡ _ = some-inj h in rw (← e) ((λ l. l, λ q k. k), tt)
  add_entry-Grows (x ∷ s) out h =
      let (q, e, f) = some-of-bind (parse_ignore_entry net prefixes (x ∷ s)) _ h in
      let (grows, there) = add_range-Grows out q f in (grows, (q, e, there))

  IsIn-Grows : (out out' : List Prefix) (s : Bytes) → Grows out out' → IsIn out s → IsIn out' s
  IsIn-Grows out out' [] g h = tt
  IsIn-Grows out out' (x ∷ s) g (q, e, there) = (q, e, g.1 q there)

  add_entries-Grows :
      (parts : List Bytes) (out : List Prefix) {out' : List Prefix}
      → add_entries net prefixes parts out ≡ some out'
      → Grows out out' × All (λ part. IsIn out' (trim_space part)) parts
  unfolding add_entries
  add_entries-Grows [] out h = let e : out ≡ _ = some-inj h in rw (← e) ((λ l. l, λ q k. k), tt)
  add_entries-Grows (part ∷ parts) out {out'} h =
      let (next, e, f) = some-of-bind (add_entry net prefixes (trim_space part) out) _ h in
      let (g, there) = add_entry-Grows (trim_space part) out e in
      let (g', rest) = add_entries-Grows parts next f in
      (
        (λ l. g'.0 (g.0 l), λ q k. g'.1 q (g.1 q k)),
        (IsIn-Grows next out' (trim_space part) g' there, rest),
      )

  -- If ParseIgnoreList gives a list, it has at most 1024 ranges, and none twice.
  pub parse_ignore_list-AreDistinct :
      (raw : Bytes) {out : List Prefix}
      → parse_ignore_list net prefixes raw ≡ some out
      → (length out ≤ max_ignore_entries) × AreDistinct out
  unfolding parse_ignore_list
  parse_ignore_list-AreDistinct raw h =
      (add_entries-Grows (split_commas [] raw) [] h).0.0 (omega arith, tt)

  any_contains-seen :
      (q : Prefix) (out : List Prefix) (a : Addr)
      → is_seen q out ≡ true
      → contains q a ≡ true
      → any_contains net out a ≡ true
  unfolding seen any_contains
  any_contains-seen q [] a h k = cc
  any_contains-seen q (p ∷ out) a h k = elim (Bool-cases (prefixes.eq p q)) [
    | inl same ↦ let e = (prefixes.eq_iff p q).0 same in rw (e, k) refl
    | inr other ↦ rw (any_contains-seen q out a (rw other at h) k) (either (contains p a))
  ]
    where
      either : (b : Bool) → (if b then true else true) ≡ true
      either true = refl
      either false = refl

  matches_prefixes-seen :
      (q : Prefix) (out : List Prefix) (ip : Bytes) (a : Addr)
      → is_seen q out ≡ true
      → parse_addr ip ≡ some a
      → contains q (unmap (without_zone a)) ≡ true
      → matches_prefixes net out ip ≡ true
  unfolding matches_prefixes seen
  matches_prefixes-seen q [] ip a h e k = cc
  matches_prefixes-seen q (p ∷ out) ip a h e k =
      rw (matches_prefixes, e) (any_contains-seen q (p ∷ out) (unmap (without_zone a)) h k)

  nth_IsIn :
      (out : List Prefix) (parts : List Bytes) (i : ℕ) {part : Bytes}
      → All (λ p. IsIn out (trim_space p)) parts
      → get_elem? parts i ≡ some part
      → IsIn out (trim_space part)
  nth_IsIn out [] i h e = cc
  nth_IsIn out (p ∷ parts) zero h e = let same : p ≡ _ = some-inj e in rw (← same) h.0
  nth_IsIn out (p ∷ parts) (suc i) h e = nth_IsIn out parts i h.1 e

  range_seen :
      (out : List Prefix) (x : ℕ) (s : Bytes) (q : Prefix)
      → IsIn out (x ∷ s)
      → parse_ignore_entry net prefixes (x ∷ s) ≡ some q
      → is_seen q out ≡ true
  range_seen out x s q (r, e, there) f = let same : r ≡ q = some-inj (sym e ∙ f) in rw same at there

  -- If ParseIgnoreList gives a list, every entry takes effect: a source whose address, without a zone
  -- and unmapped, lies in the range of an entry is ignored.
  pub is_ignored-parse_ignore_list :
      (raw : Bytes) {out : List Prefix} (i x : ℕ) (part s ip : Bytes) (q : Prefix) (a : Addr)
      → parse_ignore_list net prefixes raw ≡ some out
      → get_elem? (split_commas [] raw) i ≡ some part
      → trim_space part ≡ x ∷ s
      → parse_ignore_entry net prefixes (x ∷ s) ≡ some q
      → parse_addr ip ≡ some a
      → contains q (unmap (without_zone a)) ≡ true
      → is_ignored net prefixes out ip ≡ true
  unfolding parse_ignore_list
  is_ignored-parse_ignore_list raw {out} i x part s ip q a h e t f g k =
      let all = (add_entries-Grows (split_commas [] raw) [] h).1 in
      let there = nth_IsIn out (split_commas [] raw) i all e in
      matches_prefixes-seen q out ip a (range_seen out x s q (rw t at there) f) g k
