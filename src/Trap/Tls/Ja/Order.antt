-- ===== src/Trap/Tls/Ja/Order.antt =====
-- JA3 and JA4 do not see GREASE, and JA4 does not see the order of cipher suites and extensions.
use mathlib.Core.List.{Perm, Permᴰ}
use mathlib.Core.List.Permᴰ
use mathlib.Core.Logic.{∥∥₁_elim}
use native.Mathlib.Nat.{ℕ_set}
use ran.Base.{
  ℕ, suc, not, ◌&&◌, Bool, true, false, List, [], ◌∷◌, length, ltb, ◌==◌, ◌||◌, if◌then◌else◌, ◌≡◌,
  refl, sym, ap, ◌∙◌, arith, inl, inr, Bool-cases,
}
use ran.Trap.Tls.{ClientHello, is_grease}
use ran.Trap.Tls.Ja.{
  Digests, real, sink, sort_from, sort_u16, backwards, hashed, ja4, ja4_head, best_version,
  ja4_version,
}

sink-sink : (x y : ℕ) (l : List ℕ) → sink x (sink y l) ≡ sink y (sink x l)
unfolding sink
sink-sink x y [] = ground arith
sink-sink x y (z ∷ l) = ground (arith, sink-sink x y l)

-- The numbers without those that a test leaves out, and their sorting.
sort_from-perm : {xs ys : List ℕ} → Permᴰ xs ys → (l : List ℕ) → sort_from l xs ≡ sort_from l ys
unfolding sort_from
sort_from-perm Permᴰ.nil l = refl
sort_from-perm (Permᴰ.cons {a} {b} e p) l = rw e (sort_from-perm p (sink b l))
sort_from-perm (Permᴰ.swap {a} {b} {a'} {b'} {l = r} e f) l =
    rw (e, f) (ap (λ s. sort_from s r) (sink-sink a' b' l))
sort_from-perm (Permᴰ.trans p q) l = sort_from-perm p l ∙ sort_from-perm q l

swap-perm :
    (p q : Bool) (a b : ℕ) (r : List ℕ)
    → Permᴰ
        (if p then (if q then r else b ∷ r) else a ∷ (if q then r else b ∷ r))
        (if q then (if p then r else a ∷ r) else b ∷ (if p then r else a ∷ r))
swap-perm true true a b r = Permᴰ.refl r
swap-perm true false a b r = Permᴰ.refl (b ∷ r)
swap-perm false true a b r = Permᴰ.refl (a ∷ r)
swap-perm false false a b r = Permᴰ.swap refl refl

hashed-perm : {xs ys : List ℕ} → Permᴰ xs ys → Permᴰ (hashed xs) (hashed ys)
unfolding hashed
hashed-perm Permᴰ.nil = Permᴰ.nil
hashed-perm (Permᴰ.cons {a} {b} e p) = rw e (elim (Bool-cases (b == 0 || b == 16)) [
  | inl out ↦ rw out (hashed-perm p)
  | inr kept ↦ rw kept (Permᴰ.cons refl (hashed-perm p))
])
hashed-perm (Permᴰ.swap {a} {b} {a'} {b'} {l = r} e f) =
    rw (e, f) (swap-perm (b' == 0 || b' == 16) (a' == 0 || a' == 16) b' a' (hashed r))
hashed-perm (Permᴰ.trans p q) = Permᴰ.trans (hashed-perm p) (hashed-perm q)

length-perm : {xs ys : List ℕ} → Permᴰ xs ys → length xs ≡ length ys
length-perm Permᴰ.nil = refl
length-perm (Permᴰ.cons e p) = ap suc (length-perm p)
length-perm (Permᴰ.swap e f) = refl
length-perm (Permᴰ.trans p q) = length-perm p ∙ length-perm q

best_version-real : (best : ℕ) (vs : List ℕ) → best_version best vs ≡ best_version best (real vs)
unfolding best_version real
best_version-real best [] = refl
best_version-real best (v ∷ vs) = elim (Bool-cases (is_grease v)) [
  | inl grease ↦ rw grease (best_version-real best vs)
  | inr plain ↦ rw plain (
      best_version-real (if ltb best v then v else best) vs
      ∙ ap (λ b. best_version (if (not b && ltb best v) then v else best) (real vs)) (sym plain))
]

-- Two hellos of one client: the same but for GREASE, and for the order of suites and extensions.
pub record SameClient (h h' : ClientHello) : Type 0 where
  pub version : h.version ≡ h'.version
  pub versions : real h.versions ≡ real h'.versions
  pub ciphers : Perm (real h.ciphers) (real h'.ciphers)
  pub extensions : Perm (real h.extensions) (real h'.extensions)
  pub sig_algs : real h.sig_algs ≡ real h'.sig_algs
  pub alpn : h.alpn ≡ h'.alpn
  pub has_sni : h.has_sni ≡ h'.has_sni

sort_u16-perm : {xs ys : List ℕ} → Permᴰ xs ys → sort_u16 xs ≡ sort_u16 ys
unfolding sort_u16
sort_u16-perm p = ap (backwards []) (sort_from-perm p [])

ℕ_list-IsSet : IsSet (List ℕ)
ℕ_list-IsSet = hlevel

-- Sorting gives one list for all orders of its numbers.
Perm-sort_u16 : {xs ys : List ℕ} → Perm xs ys → sort_u16 xs ≡ sort_u16 ys
Perm-sort_u16 p = ∥∥₁_elim p (ℕ_list-IsSet _ _) sort_u16-perm

Perm-sort_u16-hashed : {xs ys : List ℕ} → Perm xs ys → sort_u16 (hashed xs) ≡ sort_u16 (hashed ys)
Perm-sort_u16-hashed p = ∥∥₁_elim p (ℕ_list-IsSet _ _) (λ q. sort_u16-perm (hashed-perm q))

Perm-length : {xs ys : List ℕ} → Perm xs ys → length xs ≡ length ys
Perm-length p = ∥∥₁_elim p (ℕ_set _ _) length-perm

module _ (digests : Digests) where
  -- For any digests: two hellos that differ only in GREASE values, and in the order of the cipher
  -- suites and of the extensions, have the same JA4.
  pub ja4-SameClient : (h h' : ClientHello) → SameClient h h' → ja4 digests h ≡ ja4 digests h'
  unfolding ja4 ja4_head ja4_version
  ja4-SameClient h h' same =
      rw
        (
          best_version-real 0 h.versions,
          best_version-real 0 h'.versions,
          same.version,
          same.versions,
          same.has_sni,
          same.alpn,
          same.sig_algs,
          Perm-length same.ciphers,
          Perm-length same.extensions,
          Perm-sort_u16 same.ciphers,
          Perm-sort_u16-hashed same.extensions,
        )
        refl
