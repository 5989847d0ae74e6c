-- ===== src/Config/Listen/Refusal.antt =====
-- The check refuses a configuration exactly if it has two traps on one address.
use ran.Base.{ℕ, get_elem?, some, List, Bytes, bytes_Eq, lookup, ◌≡◌}
use ran.Config.Listen.{Config, Claim, key, Owners}

module _ (all : List Claim) where
  -- a claim of the list
  abbrev Made : Claim → Type 0
  Made c = (i : ℕ) × (get_elem? all i ≡ some c)

  -- two claims of different traps for one key
  abbrev pub Conflict : Type 0
  Conflict = (c : Claim) × (d : Claim) × Made c × Made d × (key c ≡ key d) × ¬ (c.trap ≡ d.trap)

  -- Each entry of the map comes from a claim.
  abbrev AreMade : Owners → Type 0
  AreMade owner =
      (k t : Bytes) → lookup k owner ≡ some t → (d : Claim) × Made d × (key d ≡ k) × (d.trap ≡ t)
