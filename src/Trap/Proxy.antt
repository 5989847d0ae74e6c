-- ===== src/Trap/Proxy.antt =====
-- internal/trap/proxyproto.go: the PROXY protocol header, versions 1 and 2, in front of a
-- connection's own bytes. The printing of an IP address (net.IP) is a parameter beside net/netip;
-- an error is `none`, for the connection is dropped whatever it says.
pub mod Header
pub mod Source
use ran.Alert.Netip.{Netip}
use ran.Base.{
  ℕ, ◌+◌, ◌*◌, ◌/◌, ◌%◌, ◌-◌, Bool, true, false, not, ◌&&◌, ◌||◌, Option, none, some, List, [], ◌∷◌,
  ◌++◌, Bytes, codes, length, take, drop, get_elem?, slice, uint16, ltb, leb, ◌==◌, bytes_eq,
  if◌then◌else◌, ◌>>=◌, ◌>>◌, guard,
}
use ran.Text.{itoa}
use ran.Trap.LineReader.{read_line_limited}

abbrev pub max_proxy_v1_len : ℕ
max_proxy_v1_len = 108

abbrev pub max_proxy_v2_addr_len : ℕ
max_proxy_v2_addr_len = 536

-- the buffer of `newProxyConn`
abbrev pub reader_size : ℕ
reader_size = 536

abbrev pub v2_signature : Bytes
v2_signature = 13 ∷ 10 ∷ 13 ∷ 10 ∷ 0 ∷ 13 ∷ 10 ∷ 81 ∷ 85 ∷ 73 ∷ 84 ∷ 10 ∷ []

abbrev pub contains_byte : ℕ → Bytes → Bool
contains_byte c [] = false
contains_byte c (x ∷ xs) = x == c || contains_byte c xs

-- `net.JoinHostPort`
unfoldable pub join_host_port : Bytes → Bytes → Bytes
join_host_port host port =
    if contains_byte 58 host || contains_byte 37 host
    then codes "[" ++ host ++ codes "]:" ++ port
    else host ++ codes ":" ++ port

-- `strings.TrimRight(line, "\r\n")`
unfoldable pub trim_newline : Bytes → Bytes
trim_newline [] = []
trim_newline (x ∷ xs) = elim (trim_newline xs) [
  | [] ↦ if x == 13 || x == 10 then [] else x ∷ []
  | y ∷ ys ↦ x ∷ y ∷ ys
]

-- `strings.Split(line, " ")`, with the part that has begun
unfoldable pub split_from : Bytes → Bytes → List Bytes
split_from begun [] = begun ∷ []
split_from begun (x ∷ xs) =
    let next = split_from [] xs in
    let longer = split_from (begun ++ x ∷ []) xs in if x == 32 then begun ∷ next else longer

-- `strconv.ParseUint(s, 10, 16)`, with the value of the digits before
unfoldable pub parse_digits : ℕ → Bytes → Option ℕ
parse_digits n [] = some n
parse_digits n (x ∷ xs) =
    let rest = parse_digits (n * 10 + (x - 48)) xs in
    if leb 48 x && leb x 57 then (if leb (n * 10 + (x - 48)) 65_535 then rest else none) else none

unfoldable pub parse_uint16 : Bytes → Option ℕ
parse_uint16 [] = none
parse_uint16 (x ∷ xs) = parse_digits 0 (x ∷ xs)

-- `io.ReadFull` of so many bytes, and the bytes behind them
unfoldable pub read_full : ℕ → Bytes → Option (Bytes × Bytes)
read_full n s = if leb n (length s) then some (take n s, drop n s) else none

module _ (net : Netip) (ip_string : Bytes → Bytes) where
  open net use {parse_addr, zone, to_string}

  -- the source address of a version 1 line, or none for UNKNOWN
  unfoldable pub source_v1 : List Bytes → Option (Option Bytes)
  source_v1 (_ ∷ family ∷ rest) =
      if bytes_eq family (codes "UNKNOWN") then some none else source_fields rest
    where
      source_fields : List Bytes → Option (Option Bytes)
      source_fields (src ∷ dst ∷ src_port ∷ dst_port ∷ []) = do
        addr ← parse_addr src
        guard (bytes_eq (zone addr) [])
        port ← parse_uint16 src_port
        some (some (join_host_port (to_string addr) (itoa port)))
      source_fields _ = none
  source_v1 _ = none

  -- `parseV1`: the source, and the bytes behind the header
  unfoldable pub parse_v1 : Bytes → Option (Option Bytes × Bytes)
  parse_v1 s = do
    (line, rest) ← read_line_limited reader_size max_proxy_v1_len s
    src ← source_v1 (split_from [] (trim_newline line))
    some (src, rest)

  -- the source of a version 2 address block, by family; other families have none
  unfoldable pub source_v2 : ℕ → Bytes → Option (Option Bytes)
  source_v2 family addr_data =
      if family == 17
      then (do
        guard (leb 12 (length addr_data))
        ip ← slice addr_data 0 4
        port ← slice addr_data 8 10 >>= uint16
        some (some (join_host_port (ip_string ip) (itoa port))))
      else if family == 33
      then (do
        guard (leb 36 (length addr_data))
        ip ← slice addr_data 0 16
        port ← slice addr_data 32 34 >>= uint16
        some (some (join_host_port (ip_string ip) (itoa port))))
      else some none

  unfoldable pub parse_v2 : Bytes → Option (Option Bytes × Bytes)
  parse_v2 s = do
    (hdr, s₁) ← read_full 16 s
    ver_cmd ← get_elem? hdr 12
    family ← get_elem? hdr 13
    addr_len ← slice hdr 14 16 >>= uint16
    guard (ver_cmd / 16 == 2)
    guard (leb addr_len max_proxy_v2_addr_len)
    (addr_data, s₂) ← read_full addr_len s₁
    src ←
        (if ver_cmd % 16 == 0
          then some none
          else if ver_cmd % 16 == 1
          then source_v2 family addr_data
          else none)
    some (src, s₂)

  -- `newProxyConn`: the source that the header names, and the bytes that the trap reads
  unfoldable pub new_proxy_conn : Bytes → Option (Option Bytes × Bytes)
  new_proxy_conn s = do
    (peek, _) ← read_full 12 s
    if bytes_eq peek v2_signature
        then parse_v2 s
        else if bytes_eq (take 6 peek) (codes "PROXY ")
        then parse_v1 s
        else none
