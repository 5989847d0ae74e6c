-- ===== src/Trap/Tls/Ja.antt =====
-- internal/trap/tlsfp.go: the fingerprints JA3 and JA4 of a ClientHello. The digests of crypto/md5
-- and crypto/sha256 are a parameter.
pub mod Order
pub mod Width
use ran.Base.{
  ℕ, zero, suc, ◌+◌, ◌-◌, ◌*◌, ◌/◌, ◌%◌, Bool, true, false, not, ◌&&◌, ◌||◌, List, [], ◌∷◌, ◌++◌,
  Bytes, codes, length, take, ltb, leb, ◌==◌, if◌then◌else◌, ◌≡◌,
}
use ran.Text.{join, itoa, hex_digit, hex}
use ran.Trap.Tls.{ClientHello, is_grease}

-- the values that are not GREASE
unfoldable pub real : List ℕ → List ℕ
real [] = []
real (v ∷ vs) = if is_grease v then real vs else v ∷ real vs

unfoldable pub each : (ℕ → Bytes) → List ℕ → List Bytes
each f [] = []
each f (v ∷ vs) = f v ∷ each f vs

-- `joinU16`
unfoldable pub join_u16 : List ℕ → (ℕ → Bytes) → Bytes
join_u16 vals f = join (codes "-") (each f (real vals))

unfoldable pub hex4 : ℕ → Bytes
hex4 v =
    hex_digit (v / 4096)
    ∷ hex_digit (v / 256 % 16)
    ∷ hex_digit (v / 16 % 16)
    ∷ hex_digit (v % 16)
    ∷ []

-- the greatest of the versions that are not GREASE, and at least the one given
unfoldable pub best_version : ℕ → List ℕ → ℕ
best_version best [] = best
best_version best (v ∷ vs) = best_version (if not (is_grease v) && ltb best v then v else best) vs

unfoldable pub version_code : ℕ → Bytes
version_code v =
    if v == 0x0304
    then codes "13"
    else if v == 0x0303
    then codes "12"
    else if v == 0x0302
    then codes "11"
    else if v == 0x0301
    then codes "10"
    else if v == 0x0300
    then codes "s3"
    else if v == 0x0002
    then codes "s2"
    else codes "00"

-- `ja4Version`
unfoldable pub ja4_version : ClientHello → Bytes
ja4_version h =
    let best = best_version 0 h.versions in version_code (if best == 0 then h.version else best)

unfoldable pub is_alnum : ℕ → Bool
is_alnum b = (leb b'0' b && leb b b'9') || (leb b'a' b && leb b b'z') || (leb b'A' b && leb b b'Z')

abbrev pub last_byte : ℕ → Bytes → ℕ
last_byte x [] = x
last_byte x (y ∷ ys) = last_byte y ys

unfoldable pub alpn_code : ℕ → ℕ → Bytes
alpn_code first last =
    if is_alnum first && is_alnum last
    then first ∷ last ∷ []
    else hex_digit (first / 16) ∷ hex_digit (last % 16) ∷ []

-- `ja4ALPN`
unfoldable pub ja4_alpn : List Bytes → Bytes
ja4_alpn [] = codes "00"
ja4_alpn ([] ∷ _) = codes "00"
ja4_alpn ((x ∷ xs) ∷ _) = alpn_code x (last_byte x xs)

unfoldable pub count2 : ℕ → Bytes
count2 n = let m = if ltb 99 n then 99 else n in (b'0' + m / 10) ∷ (b'0' + m % 10) ∷ []

-- the inner loop of `sortU16`, on the sorted part of the slice, its last element first
unfoldable pub sink : ℕ → List ℕ → List ℕ
sink v [] = v ∷ []
sink v (w ∷ ws) = if ltb v w then w ∷ sink v ws else v ∷ w ∷ ws

-- the outer loop, with the sorted part
unfoldable pub sort_from : List ℕ → List ℕ → List ℕ
sort_from sorted [] = sorted
sort_from sorted (v ∷ vs) = sort_from (sink v sorted) vs

abbrev pub backwards : List ℕ → List ℕ → List ℕ
backwards out [] = out
backwards out (v ∷ vs) = backwards (v ∷ out) vs

-- `sortU16`
unfoldable pub sort_u16 : List ℕ → List ℕ
sort_u16 vs = backwards [] (sort_from [] vs)

-- the extensions that are hashed: not server_name and not ALPN
unfoldable pub hashed : List ℕ → List ℕ
hashed [] = []
hashed (e ∷ es) = if e == 0 || e == 16 then hashed es else e ∷ hashed es

-- `extPart`, of the hashed extensions and of the signature algorithms
unfoldable pub ext_part : List Bytes → List Bytes → Bytes
ext_part [] sa = []
ext_part (e ∷ es) [] = join (codes ",") (e ∷ es)
ext_part (e ∷ es) (s ∷ sa) = join (codes ",") (e ∷ es) ++ codes "_" ++ join (codes ",") (s ∷ sa)

-- the part of the method `ja4` before the digests
unfoldable pub ja4_head : ClientHello → Bytes
ja4_head h =
    codes "t"
    ++ ja4_version h
    ++ (if h.has_sni then codes "d" else codes "i")
    ++ count2 (length (real h.ciphers))
    ++ count2 (length (real h.extensions))
    ++ ja4_alpn h.alpn

-- the digests, of 16 and of 32 bytes
pub record Digests : Type 0 where
  pub md5 : Bytes → Bytes
  pub sha256 : Bytes → Bytes
  pub length-sha256 : (s : Bytes) → length (sha256 s) ≡ 32

module _ (digests : Digests) where
  open digests use {md5, sha256}

  -- the method `ja3`
  unfoldable pub ja3 : ClientHello → Bytes
  ja3 h = hex (
      md5 (
        join (codes ",") (
          itoa h.version
          ∷ join_u16 h.ciphers (λ v. itoa v)
          ∷ join_u16 h.extensions (λ v. itoa v)
          ∷ join_u16 h.curves (λ v. itoa v)
          ∷ join (codes "-") (each (λ v. itoa v) h.points)
          ∷ [])))

  unfoldable pub hex12 : Bytes → Bytes
  hex12 [] = codes "000000000000"
  hex12 (x ∷ xs) = take 12 (hex (sha256 (x ∷ xs)))

  -- the method `ja4`
  unfoldable pub ja4 : ClientHello → Bytes
  ja4 h =
      let ciphers = each hex4 (sort_u16 (real h.ciphers)) in
      let exts = each hex4 (sort_u16 (hashed (real h.extensions))) in
      ja4_head h
      ++ codes "_"
      ++ hex12 (join (codes ",") ciphers)
      ++ codes "_"
      ++ hex12 (ext_part exts (each hex4 (real h.sig_algs)))
