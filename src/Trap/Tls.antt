-- ===== src/Trap/Tls.antt =====
-- internal/trap/tlsfp.go: the reader of a TLS ClientHello. A reader that has failed once fails on
-- every later read; none of its reads can be out of range.
pub mod Caps
pub mod Ja
pub mod Capture
use ran.Base.{
  ℕ, zero, suc, ◌+◌, ◌-◌, ◌*◌, ◌/◌, ◌%◌, Bool, true, false, not, ◌&&◌, ◌||◌, Option, none, some,
  List, [], ◌∷◌, ◌++◌, Bytes, length, take, drop, ltb, ◌==◌, bytes_eq, if◌then◌else◌,
}

abbrev pub max_hello_ciphers : ℕ
max_hello_ciphers = 256

abbrev pub max_hello_extensions : ℕ
max_hello_extensions = 128

abbrev pub max_hello_curves : ℕ
max_hello_curves = 64

abbrev pub max_hello_points : ℕ
max_hello_points = 16

abbrev pub max_hello_sig_algs : ℕ
max_hello_sig_algs = 128

abbrev pub max_hello_versions : ℕ
max_hello_versions = 32

abbrev pub max_hello_alpn : ℕ
max_hello_alpn = 16

pub record ClientHello : Type 0 where
  pub version : ℕ
  pub ciphers : List ℕ
  pub extensions : List ℕ
  pub curves : List ℕ
  pub points : List ℕ
  pub sig_algs : List ℕ
  pub versions : List ℕ
  pub alpn : List Bytes
  pub sni : Bytes
  pub has_sni : Bool

-- `isGREASE`, of a number of 16 bits
unfoldable pub is_grease : ℕ → Bool
is_grease v = v % 16 == 10 && v / 256 % 16 == 10 && v / 256 == v % 256

pub record HelloReader : Type 0 where
  pub b : Bytes
  pub bad : Bool

abbrev pub reader : Bytes → HelloReader
reader b = record { b = b; bad = false }

-- the method `take`
unfoldable pub take_from : ℕ → HelloReader → Bytes × HelloReader
take_from n r =
    if r.bad || ltb (length r.b) n
    then ([], record r { bad = true })
    else (take n r.b, record r { b = drop n r.b })

abbrev pub number : ℕ → Bytes → ℕ
number n [] = n
number n (x ∷ xs) = number (n * 256 + x) xs

unfoldable pub u8 : HelloReader → ℕ × HelloReader
u8 r = let (v, r') = take_from 1 r in (number 0 v, r')

unfoldable pub u16 : HelloReader → ℕ × HelloReader
u16 r = let (v, r') = take_from 2 r in (number 0 v, r')

unfoldable pub u24 : HelloReader → ℕ × HelloReader
u24 r = let (v, r') = take_from 3 r in (number 0 v, r')

-- `r.take(r.u8())`, `r.take(r.u16())` and `r.take(r.u24())`
unfoldable pub take8 : HelloReader → Bytes × HelloReader
take8 r = let (n, r') = u8 r in take_from n r'

unfoldable pub take16 : HelloReader → Bytes × HelloReader
take16 r = let (n, r') = u16 r in take_from n r'

unfoldable pub take24 : HelloReader → Bytes × HelloReader
take24 r = let (n, r') = u24 r in take_from n r'

-- the loops over pairs of bytes, for as many numbers as a list has room for
unfoldable pub u16_list : ℕ → Bytes → List ℕ
u16_list zero list = []
u16_list (suc room) [] = []
u16_list (suc room) (x ∷ []) = []
u16_list (suc room) (hi ∷ lo ∷ list) = (hi * 256 + lo) ∷ u16_list room list

-- a list with the numbers that it has room for
unfoldable pub add_u16 : ℕ → List ℕ → Bytes → List ℕ
add_u16 max old list = old ++ u16_list (max - length old) list

abbrev pub is_empty : Bytes → Bool
is_empty [] = true
is_empty (x ∷ xs) = false

-- one turn of the loop over names: the name found, and the rest of the list
unfoldable pub read_name : HelloReader → Bytes → Bytes × HelloReader
read_name list sni =
    let (name_type, list₁) = u8 list in
    let (name, list₂) = take16 list₁ in
    (if not list₂.bad && name_type == 0 && is_empty sni then name else sni, list₂)

-- the loop over names: each turn takes bytes away, so that as many turns as there are bytes suffice
unfoldable pub read_names : ℕ → HelloReader → Bytes → Bytes
read_names zero list sni = sni
read_names (suc fuel) list sni =
    let (sni', list') = read_name list sni in
    let rest = read_names fuel list' sni' in if is_empty list.b || list.bad then sni else rest

-- the loop over protocols, for as many as there is room for
unfoldable pub read_protocols : ℕ → HelloReader → List Bytes
read_protocols zero list = []
read_protocols (suc room) list =
    let (p, list') = take8 list in
    let rest = read_protocols room list' in
    if is_empty list.b || list.bad then [] else if list'.bad then [] else p ∷ rest

-- `parseExtension`
unfoldable pub parse_extension : ℕ → Bytes → ClientHello → ClientHello
parse_extension typ body h =
    let short = (take8 (reader body)).0 in
    let long = (take16 (reader body)).0 in
    if typ == 0
    then record h { has_sni = true; sni = read_names (length long) (reader long) h.sni }
    else if typ == 10
    then record h { curves = add_u16 max_hello_curves h.curves long }
    else if typ == 11
    then record h { points = h.points ++ take (max_hello_points - length h.points) short }
    else if typ == 13
    then record h { sig_algs = add_u16 max_hello_sig_algs h.sig_algs long }
    else if typ == 16
    then record h { alpn = h.alpn ++ read_protocols (max_hello_alpn - length h.alpn) (reader long) }
    else if typ == 43
    then record h { versions = add_u16 max_hello_versions h.versions short }
    else h

-- the loop over extensions, for as many as there is room for
unfoldable pub read_extensions : ℕ → HelloReader → ClientHello → Option ClientHello
read_extensions zero r h = some h
read_extensions (suc room) r h =
    let (typ, r₁) = u16 r in
    let (body, r₂) = take16 r₁ in
    let rest =
      read_extensions room r₂
        (parse_extension typ body (record h { extensions = h.extensions ++ typ ∷ [] })) in
    if is_empty r.b then some h else if r₂.bad then none else rest

-- from the extensions on
unfoldable pub parse_rest : HelloReader → ClientHello → Option ClientHello
parse_rest r h =
    let (exts, r') = take16 r in
    if is_empty r.b
    then some h
    else if r'.bad
    then none
    else read_extensions max_hello_extensions (reader exts) h

-- a hello of a version with these cipher suites
abbrev pub hello : ℕ → Bytes → ClientHello
hello version ciphers = record {
  version = version;
  ciphers = u16_list max_hello_ciphers ciphers;
  extensions = [];
  curves = [];
  points = [];
  sig_algs = [];
  versions = [];
  alpn = [];
  sni = [];
  has_sni = false;
}

-- the body of the handshake message
unfoldable pub parse_body : Bytes → Option ClientHello
parse_body body =
    let (version, r₁) = u16 (reader body) in
    let (random, r₂) = take_from 32 r₁ in
    let (session, r₃) = take8 r₂ in
    let (ciphers, r₄) = take16 r₃ in
    let (compression, r₅) = take8 r₄ in
    if r₅.bad then none else parse_rest r₅ (hello version ciphers)

-- the record, which holds the handshake message
unfoldable pub parse_record : Bytes → Option ClientHello
parse_record rec =
    let (kind, r₁) = u8 (reader rec) in
    let (body, r₂) = take24 r₁ in
    if not (kind == 1) then none else if r₂.bad then none else parse_body body

-- `parseClientHello`
unfoldable pub parse_client_hello : Bytes → Option ClientHello
parse_client_hello input =
    let (content, r₁) = u8 (reader input) in
    let (major, r₂) = u8 r₁ in
    let (minor, r₃) = u8 r₂ in
    let (rec, r₄) = take16 r₃ in
    if not (content == 22) || not (major == 3)
    then none
    else if r₄.bad
    then none
    else parse_record rec
