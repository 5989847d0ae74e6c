-- ===== src/Trap/Tls/Caps.antt =====
-- The lists of a ClientHello are capped, whatever the client sends, and the loop over names does
-- not run out of turns.
use ran.Base.{
  ℕ, zero, suc, ap, IfSome, if-IfSome, ◌+◌, ◌-◌, ◌≤◌, true, false, ◌||◌, not, none, List, [], ◌∷◌,
  ◌++◌, Bytes, length, take, length-append, length-take, length-drop, ◌==◌, if◌then◌else◌, ◌≡◌,
  refl, arith, inl, inr, Bool-cases,
}
use ran.Trap.Tls.{
  ClientHello, HelloReader, reader, take_from, u8, take24, take16, take8, u16_list, add_u16,
  read_protocols, read_name, read_names, parse_extension, read_extensions, parse_rest, hello,
  parse_body, parse_record, parse_client_hello, is_empty, max_hello_ciphers, max_hello_extensions,
  max_hello_curves, max_hello_points, max_hello_sig_algs, max_hello_versions, max_hello_alpn, u16,
}

-- No list of the hello is longer than its cap.
pub record IsCapped (h : ClientHello) : Type 0 where
  pub ciphers : length h.ciphers ≤ max_hello_ciphers
  pub extensions : length h.extensions ≤ max_hello_extensions
  pub curves : length h.curves ≤ max_hello_curves
  pub points : length h.points ≤ max_hello_points
  pub sig_algs : length h.sig_algs ≤ max_hello_sig_algs
  pub versions : length h.versions ≤ max_hello_versions
  pub alpn : length h.alpn ≤ max_hello_alpn

length-u16_list : (room : ℕ) (list : Bytes) → length (u16_list room list) ≤ room
unfolding u16_list
length-u16_list zero list = omega arith
length-u16_list (suc room) [] = omega arith
length-u16_list (suc room) (x ∷ []) = omega arith
length-u16_list (suc room) (hi ∷ lo ∷ list) = omega (arith, length-u16_list room list)

length-add_u16 :
    (max : ℕ) (old : List ℕ) (list : Bytes) → length old ≤ max → length (add_u16 max old list) ≤ max
unfolding add_u16
length-add_u16 max old list h =
    let new = u16_list (max - length old) list in
    omega (arith, length-append old new, length-u16_list (max - length old) list)

length-read_protocols : (room : ℕ) (list : HelloReader) → length (read_protocols room list) ≤ room
unfolding read_protocols
length-read_protocols zero list = omega arith
length-read_protocols (suc room) list =
    let list' = (take8 list).1 in
    elim (Bool-cases (is_empty list.b || list.bad)) [
      | inl done ↦ rw done (omega arith)
      | inr more ↦ elim (Bool-cases list'.bad) [
        | inl cut ↦ rw (more, cut) (omega arith)
        | inr kept ↦ rw (more, kept) (omega (arith, length-read_protocols room list'))
      ]
    ]

parse_extension-IsCapped :
    (typ : ℕ) (body : Bytes) {h : ClientHello} → IsCapped h → IsCapped (parse_extension typ body h)
unfolding parse_extension
parse_extension-IsCapped typ body {h} c =
    let short = (take8 (reader body)).0 in
    let long = (take16 (reader body)).0 in
    let room = max_hello_alpn - length h.alpn in
    ground (
      arith,
      length-add_u16 max_hello_curves h.curves long c.curves,
      length-add_u16 max_hello_sig_algs h.sig_algs long c.sig_algs,
      length-add_u16 max_hello_versions h.versions short c.versions,
      length-append h.points (take (max_hello_points - length h.points) short),
      length-take (max_hello_points - length h.points) short,
      length-append h.alpn (read_protocols room (reader long)),
      length-read_protocols room (reader long),
    )

parse_extension-extensions :
    (typ : ℕ) (body : Bytes) (h : ClientHello)
    → (parse_extension typ body h).extensions ≡ h.extensions
unfolding parse_extension
parse_extension-extensions typ body h = ground arith

-- a hello that an extension type is added to
abbrev with_type : ℕ → ClientHello → ClientHello
with_type typ h = record h { extensions = h.extensions ++ typ ∷ [] }

with_type-IsCapped :
    (typ : ℕ) {h : ClientHello}
    → IsCapped h
    → suc (length h.extensions) ≤ max_hello_extensions
    → IsCapped (with_type typ h)
with_type-IsCapped typ {h} c k = ground (arith, length-append h.extensions (typ ∷ []))

read_extensions-IsCapped :
    (room : ℕ) (r : HelloReader) {h : ClientHello}
    → IsCapped h
    → room + length h.extensions ≤ max_hello_extensions
    → IfSome IsCapped (read_extensions room r h)
unfolding read_extensions
read_extensions-IsCapped zero r c k = c
read_extensions-IsCapped (suc room) r {h} c k =
    let (typ, r₁) = u16 r in
    let (body, r₂) = take16 r₁ in
    let next = parse_extension typ body (with_type typ h) in
    let same = parse_extension-extensions typ body (with_type typ h) in
    let long = length-append h.extensions (typ ∷ []) in
    if-IfSome IsCapped (is_empty r.b) _ _ c (
      if-IfSome IsCapped r₂.bad none _ tt (
        read_extensions-IsCapped room r₂ {h = next}
          (parse_extension-IsCapped typ body (with_type-IsCapped typ c (omega arith)))
          (omega (arith, ap length same, long))))

hello-IsCapped : (version : ℕ) (ciphers : Bytes) → IsCapped (hello version ciphers)
hello-IsCapped version ciphers = ground (arith, length-u16_list max_hello_ciphers ciphers)

parse_rest-IsCapped :
    (r : HelloReader) {h : ClientHello}
    → IsCapped h
    → length h.extensions ≡ 0
    → IfSome IsCapped (parse_rest r h)
unfolding parse_rest
parse_rest-IsCapped r {h} c k =
    let (exts, r') = take16 r in
    if-IfSome IsCapped (is_empty r.b) _ _ c (
      if-IfSome IsCapped r'.bad none _ tt
        (read_extensions-IsCapped max_hello_extensions (reader exts) c (omega arith)))

parse_body-IsCapped : (body : Bytes) → IfSome IsCapped (parse_body body)
unfolding parse_body
parse_body-IsCapped body =
    let (version, r₁) = u16 (reader body) in
    let (ciphers, r₄) = take16 (take8 (take_from 32 r₁).1).1 in
    let r₅ = (take8 r₄).1 in
    if-IfSome IsCapped r₅.bad none (parse_rest r₅ (hello version ciphers)) tt
      (parse_rest-IsCapped r₅ (hello-IsCapped version ciphers) refl)

parse_record-IsCapped : (rec : Bytes) → IfSome IsCapped (parse_record rec)
unfolding parse_record
parse_record-IsCapped rec =
    let (kind, r₁) = u8 (reader rec) in
    let (body, r₂) = take24 r₁ in
    if-IfSome IsCapped (not (kind == 1)) none (if r₂.bad then none else parse_body body) tt
      (if-IfSome IsCapped r₂.bad none (parse_body body) tt (parse_body-IsCapped body))

-- For everything that a client sends: a ClientHello that parseClientHello reads has at most 256
-- cipher suites, 128 extensions, 64 curves, 16 point formats, 128 signature algorithms, 32 versions
-- and 16 application protocols.
pub parse_client_hello-IsCapped : (input : Bytes) → IfSome IsCapped (parse_client_hello input)
unfolding parse_client_hello
parse_client_hello-IsCapped input =
    let (content, r₁) = u8 (reader input) in
    let (major, r₂) = u8 r₁ in
    let (rec, r₄) = take16 (u8 r₂).1 in
    if-IfSome IsCapped (not (content == 22) || not (major == 3)) none
      (if r₄.bad then none else parse_record rec) tt
      (if-IfSome IsCapped r₄.bad none (parse_record rec) tt (parse_record-IsCapped rec))

length-take_from : (n : ℕ) (r : HelloReader) → length (take_from n r).1.b ≤ length r.b
unfolding take_from
length-take_from n r = ground (arith, length-drop n r.b)

take_from-one :
    (r : HelloReader)
    → is_empty r.b ≡ false
    → r.bad ≡ false
    → suc (length (take_from 1 r).1.b) ≤ length r.b
unfolding take_from
take_from-one r h k = ground (arith, length-drop 1 r.b)

-- A turn of the loop over names takes bytes away.
read_name-shorter :
    (list : HelloReader) (sni : Bytes)
    → is_empty list.b ≡ false
    → list.bad ≡ false
    → suc (length (read_name list sni).1.b) ≤ length list.b
unfolding read_name u8 u16 take16
read_name-shorter list sni h k =
    let r₁ = (take_from 1 list).1 in
    let r₂ = (take_from 2 r₁).1 in
    let n = (u16 r₁).0 in
    omega (arith, take_from-one list h k, length-take_from 2 r₁, length-take_from n r₂)

short_is_empty : (b : Bytes) → length b ≤ 0 → is_empty b ≡ true
short_is_empty [] h = refl
short_is_empty (x ∷ xs) h = absurd (omega arith)

-- As many turns as there are bytes suffice: with more the loop over names gives the same.
pub read_names-enough :
    (f g : ℕ) (list : HelloReader) (sni : Bytes)
    → length list.b ≤ f
    → length list.b ≤ g
    → read_names f list sni ≡ read_names g list sni
unfolding read_names
read_names-enough zero zero list sni h k = refl
read_names-enough zero (suc g) list sni h k = rw (short_is_empty list.b h) refl
read_names-enough (suc f) zero list sni h k = rw (short_is_empty list.b k) refl
read_names-enough (suc f) (suc g) list sni h k = elim (Bool-cases (is_empty list.b || list.bad)) [
  | inl done ↦ rw done refl
  | inr more ↦ rw more (
      read_names-enough f g (read_name list sni).1 (read_name list sni).0
        (ground (arith, more, read_name-shorter list sni, h))
        (ground (arith, more, read_name-shorter list sni, k)))
]
