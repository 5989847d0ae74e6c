-- ===== src/Trap/Redact/Hides.antt =====
-- A command line that is logged does not depend on the secret in it.
use ran.Base.{
  ℕ, ◌+◌, ◌≤◌, some, List, [], ◌∷◌, ◌++◌, Bytes, codes, length, ◌≡◌, refl, sym, ◌∙◌, ap, arith, ◌⊎◌,
  inl, inr, Bool-cases, take-append, drop-append,
}
use ran.Text.{Unicode, fields}
use ran.Text as Text
use ran.Trap.Redact.{
  PasswordMode, off, mask, redact_tail, is_set_user, is_sensitive, secret_from, hidden_from,
  redact_command,
}

abbrev pub spaced : List Bytes → Bytes
spaced = Text.join (codes " ")

module _ (unicode : Unicode) (x y : Bytes) (xs ys : List Bytes) where
  secret_from-ge : (i n : ℕ) (fs : List Bytes) → secret_from unicode i fs ≡ some n → i + 1 ≤ n
  unfolding secret_from
  secret_from-ge i n [] h = absurd (cc h)
  secret_from-ge i n (f ∷ []) h = elim (Bool-cases (is_sensitive unicode i f)) [
    | inl found ↦ absurd (ground (arith, h, found))
    | inr other ↦ absurd (ground (arith, h, other))
  ]
  secret_from-ge i n (f ∷ g ∷ fs) h = elim (Bool-cases (is_sensitive unicode i f)) [
    | inl found ↦ ground (arith, h, found)
    | inr other ↦ omega (arith, secret_from-ge (i + 1) n (g ∷ fs) (ground (arith, h, other)))
  ]

  -- The search stops at the same field.
  secret_from-agree :
      (i n : ℕ) (kept : List Bytes)
      → n ≡ i + length kept
      → secret_from unicode i (kept ++ x ∷ xs) ≡ some n
      → secret_from unicode i (kept ++ y ∷ ys) ≡ some n
  unfolding secret_from
  secret_from-agree i n [] e h = absurd (omega (arith, e, secret_from-ge i n (x ∷ xs) h))
  secret_from-agree i n (f ∷ []) e h = elim (Bool-cases (is_sensitive unicode i f)) [
    | inl found ↦ rw found (ap some (omega (arith, e)))
    | inr other ↦
        absurd (omega (arith, e, secret_from-ge (i + 1) n (x ∷ xs) (ground (arith, h, other))))
  ]
  secret_from-agree i n (f ∷ g ∷ kept) e h = elim (Bool-cases (is_sensitive unicode i f)) [
    | inl found ↦ absurd (ground (arith, e, h, found))
    | inr other ↦
        rw other (secret_from-agree (i + 1) n (g ∷ kept) (omega (arith, e)) (simp other at h))
  ]

  hidden_from-agree :
      (kept : List Bytes)
      → is_set_user unicode (kept ++ x ∷ xs) ≡ is_set_user unicode (kept ++ y ∷ ys)
      → hidden_from unicode (kept ++ x ∷ xs) ≡ some (length kept)
      → hidden_from unicode (kept ++ y ∷ ys) ≡ some (length kept)
  unfolding hidden_from
  hidden_from-agree kept e h = elim (Bool-cases (is_set_user unicode (kept ++ x ∷ xs))) [
    | inl acl ↦ rw (sym e, acl) (simp acl at h)
    | inr not_acl ↦
        rw (sym e, not_acl)
          (secret_from-agree 0 (length kept) kept (omega arith) (simp not_acl at h))
  ]

  redact_tail-agree :
      (mode : PasswordMode) (kept : List Bytes)
      → (mode ≡ off) ⊎ ((mode ≡ mask) × (length (spaced (x ∷ xs)) ≡ length (spaced (y ∷ ys))))
      → redact_tail mode (kept ++ x ∷ xs) (length kept)
        ≡ redact_tail mode (kept ++ y ∷ ys) (length kept)
  unfolding redact_tail
  redact_tail-agree mode kept (inl is_off) =
      rw (is_off, take-append kept (x ∷ xs), take-append kept (y ∷ ys)) refl
  redact_tail-agree mode kept (inr (is_mask, equal)) =
      rw
        (
          is_mask,
          take-append kept (x ∷ xs),
          take-append kept (y ∷ ys),
          drop-append kept (x ∷ xs),
          drop-append kept (y ∷ ys),
          equal,
        )
        refl

  redact_command-found :
      (mode : PasswordMode) (line : Bytes) (kept : List Bytes) (z : Bytes) (zs : List Bytes)
      → (mode ≡ off) ⊎ ((mode ≡ mask) × (length (spaced (x ∷ xs)) ≡ length (spaced (y ∷ ys))))
      → fields line ≡ kept ++ z ∷ zs
      → hidden_from unicode (kept ++ z ∷ zs) ≡ some (length kept)
      → redact_command unicode mode line ≡ redact_tail mode (kept ++ z ∷ zs) (length kept)
  unfolding redact_command
  redact_command-found mode line kept z zs (inl is_off) split begun =
      rw (is_off, redact_command, split, begun) (ap (λ fs. redact_tail off fs (length kept)) split)
  redact_command-found mode line kept z zs (inr (is_mask, equal)) split begun =
      rw (is_mask, redact_command, split, begun)
        (ap (λ fs. redact_tail mask fs (length kept)) split)

  -- For a password log mode other than "on", and two command lines whose fields agree up to the
  -- first field that is redacted in one of them, both or neither of them `ACL SETUSER` commands: the
  -- text logged is the same, if the secrets, joined by spaces, are equally long or the mode is "off".
  pub redact_command-hides :
      (mode : PasswordMode) (a b : Bytes) (kept : List Bytes)
      → (mode ≡ off) ⊎ ((mode ≡ mask) × (length (spaced (x ∷ xs)) ≡ length (spaced (y ∷ ys))))
      → fields a ≡ kept ++ x ∷ xs
      → fields b ≡ kept ++ y ∷ ys
      → is_set_user unicode (fields a) ≡ is_set_user unicode (fields b)
      → hidden_from unicode (fields a) ≡ some (length kept)
      → redact_command unicode mode a ≡ redact_command unicode mode b
  redact_command-hides mode a b kept hidden fa fb same found =
      let agreed = hidden_from-agree kept (cc (same, fa, fb)) (cc (found, fa)) in
      redact_command-found mode a kept x xs hidden fa (cc (found, fa))
      ∙ redact_tail-agree mode kept hidden
      ∙ sym (redact_command-found mode b kept y ys hidden fb agreed)
