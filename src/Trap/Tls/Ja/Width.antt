-- ===== src/Trap/Tls/Ja/Width.antt =====
-- The width of a JA4.
use ran.Base.{
  ℕ, ◌*◌, Bool, true, false, List, [], ◌∷◌, Bytes, codes, length, length-append, length-take,
  if◌then◌else◌, ◌≡◌, refl, arith,
}
use ran.Text.{hex}
use ran.Trap.Tls.{ClientHello}
use ran.Trap.Tls.Ja.{
  Digests, hex12, version_code, ja4_version, ja4_alpn, alpn_code, count2, ja4_head, ja4,
}

length-version_code : (v : ℕ) → length (version_code v) ≡ 2
unfolding version_code
length-version_code v = ground arith

length-ja4_alpn : (alpn : List Bytes) → length (ja4_alpn alpn) ≡ 2
unfolding ja4_alpn alpn_code
length-ja4_alpn [] = refl
length-ja4_alpn ([] ∷ ps) = refl
length-ja4_alpn ((x ∷ xs) ∷ ps) = ground arith

length-sni : (b : Bool) → length (if b then codes "d" else codes "i") ≡ 1
length-sni true = refl
length-sni false = refl

length-hex : (s : Bytes) → length (hex s) ≡ 2 * length s
length-hex [] = refl
length-hex (b ∷ s) = omega (arith, length-hex s)

length-ja4_head : (h : ClientHello) → length (ja4_head h) ≡ 10
unfolding ja4_head ja4_version count2
length-ja4_head h =
    let v = ja4_version h in
    simp (length-append, length-version_code, length-ja4_alpn, length-sni h.has_sni) refl

module _ (digests : Digests) where
  length-hex12 : (s : Bytes) → length (hex12 digests s) ≡ 12
  unfolding hex12
  length-hex12 [] = refl
  length-hex12 (x ∷ xs) = omega (
    arith,
    length-take 12 (hex (digests.sha256 (x ∷ xs))),
    length-hex (digests.sha256 (x ∷ xs)),
    digests.length-sha256 (x ∷ xs),
  )

  -- A JA4 has 36 bytes, whatever the hello.
  pub length-ja4 : (h : ClientHello) → length (ja4 digests h) ≡ 36
  unfolding ja4
  length-ja4 h = simp (length-append, length-hex12, length-ja4_head) refl
