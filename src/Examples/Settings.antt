-- ===== src/Examples/Settings.antt =====
-- TLS hellos, the rate limiter and the configuration on concrete data.
use mathlib.Core.List.{Permᴰ}
use ran.Base.{
  ℕ, zero, suc, ◌+◌, ◌-◌, ◌*◌, ◌≤◌, false, true, Option, some, List, [], ◌∷◌, ◌++◌, Bytes, codes,
  length, bytes_eq, bytes_Eq, ◌≡◌, refl, arith,
}
use ran.Config.Ignore as Ignore
use ran.Config.Ignore.Covered as Covered
use ran.Config.Listen as Listen
use ran.Config.Listen.Refusal as Refusal
use ran.Examples.{net, visitor}
use ran.Trap.RateLimit as RateLimit
use ran.Trap.RateLimit.Budget as Budget
use ran.Trap.Tls as Tls
use ran.Trap.Tls.Caps as Caps
use ran.Trap.Tls.Capture as Capture
use ran.Trap.Tls.Capture.Whole as Whole
use ran.Trap.Tls.Ja as Ja
use ran.Trap.Tls.Ja.Order as JaOrder

abbrev zeros : ℕ → Bytes
zeros zero = []
zeros (suc n) = 0 ∷ zeros n

abbrev digests : Ja.Digests
digests = record { md5 = λ s. s; sha256 = λ s. zeros 32; length-sha256 = λ s. refl }

abbrev client : List ℕ → List ℕ → Tls.ClientHello
client suites extensions = record {
  version = 0x0303;
  ciphers = suites;
  extensions = extensions;
  curves = [];
  points = [];
  sig_algs = 0x0403 ∷ [];
  versions = 0x0304 ∷ [];
  alpn = codes "h2" ∷ [];
  sni = [];
  has_sni = false;
}

abbrev older : Tls.ClientHello
older = client (0x1301 ∷ 0x1302 ∷ []) (10 ∷ 11 ∷ 0x0a0a ∷ [])

abbrev newer : Tls.ClientHello
newer = client (0x1a1a ∷ 0x1302 ∷ 0x1301 ∷ []) (11 ∷ 10 ∷ [])

same_client : JaOrder.SameClient older newer
unfolding Ja.real Tls.is_grease
same_client = record {
  version = refl;
  versions = refl;
  ciphers = ∣ Permᴰ.swap refl refl ∣₁;
  extensions = ∣ Permᴰ.swap refl refl ∣₁;
  sig_algs = refl;
  alpn = refl;
  has_sni = refl;
}

ja4-SameClient_example : Ja.ja4 digests older ≡ Ja.ja4 digests newer
ja4-SameClient_example = JaOrder.ja4-SameClient digests older newer same_client

-- A hello of version 1.2 with one cipher suite, which offers version 1.3 in an extension.
abbrev hello_record : Bytes
hello_record =
    22 ∷ 3 ∷ 1 ∷ 0 ∷ 54 ∷ 1 ∷ 0 ∷ 0 ∷ 50 ∷ 3 ∷ 3 ∷ zeros 32
    ++ 0 ∷ 0 ∷ 2 ∷ 19 ∷ 1 ∷ 1 ∷ 0 ∷ 0 ∷ 7 ∷ 0 ∷ 43 ∷ 0 ∷ 3 ∷ 2 ∷ 3 ∷ 4 ∷ []

-- what the parser reads
abbrev hello_read : Tls.ClientHello
hello_read = record {
  version = 0x0303;
  ciphers = 0x1301 ∷ [];
  extensions = 43 ∷ [];
  curves = [];
  points = [];
  sig_algs = [];
  versions = 0x0304 ∷ [];
  alpn = [];
  sni = [];
  has_sni = false;
}

parse_client_hello-IsCapped_example : Caps.IsCapped hello_read
unfolding Tls.parse_client_hello Tls.u8 Tls.u16 Tls.u24 Tls.take8 Tls.take16 Tls.take24
    Tls.take_from Tls.parse_record Tls.parse_body Tls.parse_rest Tls.read_extensions
    Tls.parse_extension Tls.u16_list Tls.add_u16
parse_client_hello-IsCapped_example = Caps.parse_client_hello-IsCapped hello_record

abbrev pieces : List Bytes
pieces = (22 ∷ 3 ∷ []) ∷ (1 ∷ 0 ∷ 4 ∷ 1 ∷ []) ∷ (0 ∷ 0 ∷ 0 ∷ 9 ∷ []) ∷ []

read_all-one_example :
    (Capture.read_all pieces Capture.new_conn ≡ Capture.read (Whole.joined pieces) Capture.new_conn)
    × (length (Capture.read_all pieces Capture.new_conn).buf ≤ Capture.max_hello_record)
read_all-one_example = Whole.read_all-one pieces

abbrev packets : List RateLimit.Packet
packets = record { source = visitor; time = 10 } ∷ record { source = visitor; time = 12 } ∷ []

allow_all-budget_example :
    ((RateLimit.allow_all packets (RateLimit.new_udp_rate_limiter 0 0 0 5)).1 * RateLimit.unit
      ≤ RateLimit.or_default 0 2000 * RateLimit.unit + (12 - 5) * RateLimit.or_default 0 2000)
    × (length (RateLimit.allow_all packets (RateLimit.new_udp_rate_limiter 0 0 0 5)).0.sources
        ≤ RateLimit.max_rate_sources)
allow_all-budget_example = Budget.allow_all-budget 0 0 0 5 packets (omega arith, (omega arith, tt))

abbrev split_port : Bytes → Option (Bytes × Bytes)
split_port b = some ([], b)

abbrev listening : Listen.Config
listening = record {
  traps = codes "ssh" ∷ codes "ftp" ∷ [];
  addrs = (codes "ssh", codes "22") ∷ (codes "ftp", codes "22") ∷ [];
  banner_services = [];
}

abbrev prefixes : Ignore.Prefixes net
prefixes = record {
  parse_prefix = λ b. some b;
  addr = λ p. p;
  bits = λ p. 32;
  is_4in6 = λ a. false;
  bit_len = λ a. 32;
  prefix_from = λ a n. a;
  masked = λ p. p;
  eq = bytes_eq;
  eq_iff = λ p q. bytes_Eq.beq_iff p q;
}

abbrev raw_list : Bytes
raw_list = codes "9.8.7.6, 1.1.1.1,9.8.7.6"

parse_ignore_list-AreDistinct_example :
    (length (visitor ∷ codes "1.1.1.1" ∷ []) ≤ Ignore.max_ignore_entries)
    × Covered.AreDistinct net prefixes (visitor ∷ codes "1.1.1.1" ∷ [])
unfolding Ignore.parse_ignore_list Ignore.add_entries Listen.split_commas Ignore.add_entry
    Ignore.parse_ignore_entry Ignore.single_of Ignore.add_range Ignore.seen ran.Text.trim_space
    ran.Text.raw_of ran.Text.trim_left ran.Text.trim_right ran.Text.chunks_from ran.Text.decode
    ran.Text.is_space
parse_ignore_list-AreDistinct_example =
    Covered.parse_ignore_list-AreDistinct net prefixes raw_list refl

is_ignored-parse_ignore_list_example :
    Ignore.is_ignored net prefixes (visitor ∷ codes "1.1.1.1" ∷ []) visitor ≡ true
unfolding Ignore.parse_ignore_list Ignore.add_entries Listen.split_commas Ignore.add_entry
    Ignore.parse_ignore_entry Ignore.single_of Ignore.add_range Ignore.seen ran.Text.trim_space
    ran.Text.raw_of ran.Text.trim_left ran.Text.trim_right ran.Text.chunks_from ran.Text.decode
    ran.Text.is_space
is_ignored-parse_ignore_list_example =
    Covered.is_ignored-parse_ignore_list net prefixes raw_list 0 57 visitor (codes ".8.7.6") visitor
      visitor visitor refl refl refl refl refl refl
