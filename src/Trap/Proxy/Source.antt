-- ===== src/Trap/Proxy/Source.antt =====
-- The source address that a PROXY header names.
use ran.Alert.Netip.{Netip}
use ran.Base.{
  ℕ, ◌+◌, ◌*◌, ◌/◌, ◌%◌, ◌≤◌, ◌<◌, some, [], ◌∷◌, ◌++◌, Bytes, length, slice_lem, put_uint16, ◌>>=◌,
  ◌≡◌, refl, ◌∙◌, le→leb, arith, length-append, take-append, drop-append,
}
use ran.Text.{itoa}
use ran.Trap.Proxy.{v2_signature, join_host_port, read_full, source_v2, parse_v2, new_proxy_conn}

-- A version 2 header for a proxied connection of a family, with its address block.
abbrev pub v2_header : ℕ → Bytes → Bytes
v2_header family addr = v2_signature ++ (33 ∷ family ∷ put_uint16 (length addr)) ++ addr

-- The address block of TCP over IPv4, with what may follow it in the header.
abbrev pub tcp4 : (a b c d w x y z src_port dst_port : ℕ) → Bytes → Bytes
tcp4 a b c d w x y z src_port dst_port tlvs =
    (a ∷ b ∷ c ∷ d ∷ w ∷ x ∷ y ∷ z ∷ []) ++ put_uint16 src_port ++ put_uint16 dst_port ++ tlvs

pub read_full-append : (xs ys : Bytes) → read_full (length xs) (xs ++ ys) ≡ some (xs, ys)
unfolding read_full
read_full-append xs ys =
    rw (take-append xs ys, drop-append xs ys) (ground (arith, length-append xs ys))

word : (n : ℕ) → n < 65536 → n / 256 % 256 * 256 + n % 256 ≡ n
word n h = omega arith

module _ (net : Netip) (ip_string : Bytes → Bytes) where
  -- A header of version 2 reads as its address block.
  new_proxy_conn-v2_header :
      (family : ℕ) (addr rest : Bytes)
      → length addr ≤ 536
      → new_proxy_conn net ip_string (v2_header family addr ++ rest)
        ≡ (source_v2 net ip_string family addr >>= λ src. some (src, rest))
  unfolding new_proxy_conn parse_v2
  new_proxy_conn-v2_header family addr rest h =
      rw
        (
          read_full-append v2_signature ((33 ∷ family ∷ put_uint16 (length addr)) ++ addr ++ rest),
          read_full-append (v2_signature ++ (33 ∷ family ∷ put_uint16 (length addr)))
              (addr ++ rest),
          word (length addr) (omega (arith, h)),
          le→leb (length addr) 536 h,
          read_full-append addr rest,
        )
        refl

  -- For any parameters, an IPv4 source a.b.c.d with any port, any destination w.x.y.z, further data
  -- that fits the header, and any bytes behind it: `newProxyConn` takes the source address and port
  -- from the version 2 header that carries them, and leaves the bytes behind it.
  pub new_proxy_conn-tcp4 :
      (a b c d w x y z src_port dst_port : ℕ) (tlvs rest : Bytes)
      → src_port < 65536
      → length tlvs ≤ 524
      → new_proxy_conn net ip_string
          (v2_header 17 (tcp4 a b c d w x y z src_port dst_port tlvs) ++ rest)
        ≡ some (some (join_host_port (ip_string (a ∷ b ∷ c ∷ d ∷ [])) (itoa src_port)), rest)
  unfolding source_v2
  new_proxy_conn-tcp4 a b c d w x y z src_port dst_port tlvs rest small short =
      let addr = tcp4 a b c d w x y z src_port dst_port tlvs in
      new_proxy_conn-v2_header 17 addr rest (omega (arith, short))
      ∙ rw
          (
            le→leb 12 (length addr) (omega arith),
            slice_lem addr 0 4 (omega arith) (omega arith),
            slice_lem addr 8 10 (omega arith) (omega arith),
            word src_port small,
          )
          refl
