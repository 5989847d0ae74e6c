-- ===== src/Config/Ignore.antt =====
-- internal/config/config.go: the list of ignored sources, and `IsIgnored`. What the program uses of
-- the prefixes of net/netip is a parameter beside `Netip`.
pub mod Covered
use ran.Alert.Netip.{Netip, matches_prefixes}
use ran.Base.{
  ℕ, ◌-◌, Bool, true, false, not, ◌||◌, ◌↔◌, Option, none, some, List, [], ◌∷◌, ◌++◌, Bytes, codes,
  bytes_eq, length, ltb, leb, if◌then◌else◌, ◌>>=◌, ◌≡◌,
}
use ran.Config.Listen.{split_commas}
use ran.Text.{trim_space}

pub record Prefixes (net : Netip) : Type 0 where
  pub parse_prefix : Bytes → Option net.Prefix
  pub addr : net.Prefix → net.Addr
  pub bits : net.Prefix → ℕ
  pub is_4in6 : net.Addr → Bool
  pub bit_len : net.Addr → ℕ
  pub prefix_from : net.Addr → ℕ → net.Prefix
  pub masked : net.Prefix → net.Prefix
  -- `==`
  pub eq : net.Prefix → net.Prefix → Bool
  pub eq_iff : (p q : net.Prefix) → (eq p q ≡ true) ↔ (p ≡ q)

abbrev pub max_ignore_entries : ℕ
max_ignore_entries = 1024

-- `strings.Contains(s, "/")`
abbrev pub has_slash : Bytes → Bool
has_slash [] = false
has_slash (x ∷ xs) = bytes_eq (x ∷ []) (codes "/") || has_slash xs

module _ (net : Netip) (prefixes : Prefixes net) where
  open net use {Addr, Prefix, parse_addr, zone, unmap}
  open prefixes use {parse_prefix, addr, bits, is_4in6, bit_len, prefix_from, masked, eq}

  -- the range of a prefix, where its address has no zone
  unfoldable pub range_of : Prefix → Option Prefix
  range_of p =
      if not (bytes_eq (zone (addr p)) [])
      then none
      else if is_4in6 (addr p)
      then (if ltb (bits p) 96
          then none
          else some (masked (prefix_from (unmap (addr p)) (bits p - 96))))
      else some (masked (prefix_from (addr p) (bits p)))

  -- the range of a single address
  unfoldable pub single_of : Addr → Option Prefix
  single_of a =
      if not (bytes_eq (zone a) []) then none else some (prefix_from (unmap a) (bit_len (unmap a)))

  -- `parseIgnoreEntry`
  unfoldable pub parse_ignore_entry : Bytes → Option Prefix
  parse_ignore_entry s =
      if has_slash s then parse_prefix s >>= range_of else parse_addr s >>= single_of

  -- `seen[p]`: the map has the ranges of the list
  unfoldable pub seen : Prefix → List Prefix → Bool
  seen p [] = false
  seen p (q ∷ qs) = if eq q p then true else seen p qs

  -- a range at the end of the list, unless it is there or the list is full
  unfoldable pub add_range : List Prefix → Prefix → Option (List Prefix)
  add_range out p =
      if seen p out
      then some out
      else if leb max_ignore_entries (length out)
      then none
      else some (out ++ p ∷ [])

  -- an entry, which is trimmed
  unfoldable pub add_entry : Bytes → List Prefix → Option (List Prefix)
  add_entry [] out = some out
  add_entry (x ∷ s) out = parse_ignore_entry (x ∷ s) >>= add_range out

  -- the loop of `ParseIgnoreList`
  unfoldable pub add_entries : List Bytes → List Prefix → Option (List Prefix)
  add_entries [] out = some out
  add_entries (p ∷ ps) out = add_entry (trim_space p) out >>= add_entries ps

  -- `ParseIgnoreList`; `none` is an error
  unfoldable pub parse_ignore_list : Bytes → Option (List Prefix)
  parse_ignore_list raw = add_entries (split_commas [] raw) []

  -- `WideIgnoreRanges`
  unfoldable pub wide_ignore_ranges : List Prefix → List Prefix
  wide_ignore_ranges [] = []
  wide_ignore_ranges (p ∷ ps) =
      if ltb (bits p) 8 then p ∷ wide_ignore_ranges ps else wide_ignore_ranges ps

  -- `IsIgnored`, of the list of the configuration
  abbrev pub is_ignored : List Prefix → Bytes → Bool
  is_ignored ignore_ips ip = matches_prefixes net ignore_ips ip
