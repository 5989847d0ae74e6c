-- ===== src/Alert/Netip.antt =====
-- The part of Go's net/netip that the program relies on, as a parameter: addresses and prefixes
-- with parsing, zones, unmapping, printing and membership. On it stand the helpers of the source.
use ran.Base.{Bool, true, false, Bytes, Option, none, some, List, [], ◌∷◌, bytes_eq, if◌then◌else◌}

pub record Netip : Type 1 where
  pub Addr : Type 0
  pub Prefix : Type 0
  pub parse_addr : Bytes → Option Addr
  pub zone : Addr → Bytes
  pub without_zone : Addr → Addr
  pub unmap : Addr → Addr
  pub to_string : Addr → Bytes
  pub contains : Prefix → Addr → Bool

module _ (net : Netip) where
  open net use {Addr, Prefix, parse_addr, zone, without_zone, unmap, to_string, contains}

  -- `normalizeIP` of internal/alert/offenders.go
  unfoldable pub normalize_ip : Bytes → Option Bytes
  normalize_ip ip = elim (parse_addr ip) [
    | none ↦ none
    | some addr ↦ if bytes_eq (zone addr) [] then some (to_string (unmap addr)) else none
  ]

  -- the loop over prefixes of `parseBannableIP` and `MatchesPrefixes`
  unfoldable pub any_contains : List Prefix → Addr → Bool
  any_contains [] addr = false
  any_contains (p ∷ ps) addr = if contains p addr then true else any_contains ps addr

  -- `MatchesPrefixes` of internal/config/config.go
  unfoldable pub matches_prefixes : List Prefix → Bytes → Bool
  unfolding any_contains
  matches_prefixes [] ip = false
  matches_prefixes (p ∷ ps) ip = elim (parse_addr ip) [
    | none ↦ false
    | some addr ↦ any_contains (p ∷ ps) (unmap (without_zone addr))
  ]

  -- `parseBannableIP` of internal/alert/crowdsec.go, over the parsed list of prefixes
  unfoldable pub parse_bannable_ip : List Prefix → Bytes → Option Addr
  unfolding any_contains
  parse_bannable_ip non_global ip = elim (parse_addr ip) [
    | none ↦ none
    | some addr ↦
        if bytes_eq (zone addr) []
        then (if any_contains non_global (unmap addr) then none else some (unmap addr))
        else none
  ]
