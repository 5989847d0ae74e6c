-- ===== src/Config/Listen.antt =====
-- internal/config/config.go: `checkListenConflicts`, and the addresses on which a trap listens. The
-- function SplitHostPort of package net is a parameter.
pub mod Disjoint
pub mod Refusal
use ran.Base.{
  ℕ, Bool, true, false, not, ◌&&◌, Option, none, some, List, [], ◌∷◌, ◌++◌, Bytes, codes, bytes_eq,
  bytes_Eq, lookup, insert, if◌then◌else◌, ◌>>=◌,
}
use ran.Text.{itoa, trim_space}
use ran.Trap.Proxy.{join_host_port}

-- the part of `Config` that names what is listened on: the services of the banner trap are their ports
pub record Config : Type 0 where
  pub traps : List Bytes
  pub addrs : List (Bytes × Bytes)
  pub banner_services : List ℕ

-- `UDPTraps`
abbrev pub is_udp : Bytes → Bool
is_udp trap = any trap (codes "dns" ∷ codes "snmp" ∷ codes "sip" ∷ codes "ntp" ∷ [])
  where
    any : Bytes → List Bytes → Bool
    any t [] = false
    any t (x ∷ xs) = if bytes_eq x t then true else any t xs

-- what a call of `claim` is given
pub record Claim : Type 0 where
  pub trap : Bytes
  pub host : Bytes
  pub port : Bytes

abbrev pub transport : Bytes → Bytes
transport trap = if is_udp trap then codes "UDP" else codes "TCP"

unfoldable pub key : Claim → Bytes
key c = transport c.trap ++ codes " " ++ join_host_port c.host c.port

abbrev pub Owners : Type 0
Owners = List (Bytes × Bytes)

-- `claim`; `none` is the error
unfoldable pub claim_for : Option Bytes → Claim → Owners → Option Owners
claim_for none c owner = some (insert (key c) c.trap owner)
claim_for (some prev) c owner =
    if not (bytes_eq prev c.trap) then none else some (insert (key c) c.trap owner)

abbrev pub claim : Claim → Owners → Option Owners
claim c owner = claim_for (lookup (key c) owner) c owner

-- the claims, one after the other
unfoldable pub claim_all : List Claim → Owners → Option Owners
claim_all [] owner = some owner
claim_all (c ∷ cs) owner = claim c owner >>= λ owner'. claim_all cs owner'

-- `strings.Split(s, ",")`, with the part that has begun
unfoldable pub split_commas : Bytes → Bytes → List Bytes
split_commas begun [] = begun ∷ []
split_commas begun (x ∷ xs) =
    let next = split_commas [] xs in
    let longer = split_commas (begun ++ x ∷ []) xs in
    if bytes_eq (x ∷ []) (codes ",") then begun ∷ next else longer

-- the parts of a list of addresses, trimmed, without the empty ones: `TrapAddrs`
unfoldable pub parts_of : List Bytes → List Bytes
parts_of [] = []
parts_of (p ∷ ps) = elim (trim_space p) [ [] ↦ parts_of ps | x ∷ s ↦ (x ∷ s) ∷ parts_of ps ]

abbrev pub or_empty : Option Bytes → Bytes
or_empty none = []
or_empty (some b) = b

module _ (split_host_port : Bytes → Option (Bytes × Bytes)) where
  -- the claims of a trap for its addresses; one that does not parse claims nothing
  unfoldable pub claims_for : Bytes → List Bytes → List Claim
  claims_for trap [] = []
  claims_for trap (p ∷ ps) = elim (split_host_port p) [
    | none ↦ claims_for trap ps
    | some (host, port) ↦ record { trap = trap; host = host; port = port } ∷ claims_for trap ps
  ]

  -- the claims of the banner trap
  unfoldable pub banner_claims : Bytes → List ℕ → List Claim
  banner_claims trap [] = []
  banner_claims trap (port ∷ ports) =
      record { trap = trap; host = []; port = itoa port } ∷ banner_claims trap ports

  unfoldable pub claims_of : Config → Bytes → List Claim
  claims_of c name =
      if bytes_eq name (codes "banner")
      then banner_claims name c.banner_services
      else claims_for name (parts_of (split_commas [] (or_empty (lookup name c.addrs))))

  unfoldable pub all_claims : Config → List Bytes → List Claim
  all_claims c [] = []
  all_claims c (name ∷ names) = claims_of c name ++ all_claims c names

  -- `checkListenConflicts`: the owners, or an error
  unfoldable pub check_listen_conflicts : Config → Option Owners
  check_listen_conflicts c = claim_all (all_claims c c.traps) []
