-- ===== src/Config/Listen/Disjoint.antt =====
-- Traps that pass the check listen on different addresses.
use mathlib.Core.Path.{subst}
use ran.Base.{
  ℕ, zero, suc, get_elem?, Option, none, some, List, [], ◌∷◌, Bytes, bytes_eq, bytes_eq_iff, ap,
  ◌⊎◌, bytes_Eq, lookup, insert, lookup-insert, lookup-insert_self, ◌>>=◌, ◌≡◌, refl, ◌∙◌, inl, inr,
  Bool-cases, All,
}
use ran.Config.Listen.{
  Config, Claim, key, Owners, claim_for, claim, claim_all, all_claims, check_listen_conflicts,
}

some-inj : {x y : Owners} → some x ≡ some y → x ≡ y
some-inj h = cc

-- The map names the trap of a claim.
abbrev Owned : Owners → Claim → Type 0
Owned owner c = lookup (key c) owner ≡ some c.trap

-- A claim is granted if its key is free, or owned by the same trap.
granted :
    (c : Claim) (owner : Owners) {owner' : Owners} (o : Option Bytes)
    → claim_for o c owner ≡ some owner'
    → (owner' ≡ insert (key c) c.trap owner) × ((o ≡ none) ⊎ (o ≡ some c.trap))
unfolding claim_for
granted c owner none h = (cc, inl refl)
granted c owner {owner'} (some prev) h = elim (Bool-cases (bytes_eq prev c.trap)) [
  | inl same ↦
      let g : some (insert (key c) c.trap owner) ≡ some owner' = rw same at h in
      (cc, inr (ap some ((bytes_eq_iff prev c.trap).0 same)))
  | inr other ↦ absurd (refused (rw other at h))
]
  where
    refused : {x : Owners} → ◌≡◌ {A = Option Owners} none (some x) → ⊥
    refused e = cc

insert-Owned :
    (c d : Claim) (owner : Owners)
    → (lookup (key c) owner ≡ none) ⊎ (lookup (key c) owner ≡ some c.trap)
    → Owned owner d
    → Owned (insert (key c) c.trap owner) d
insert-Owned c d owner free k =
    lookup-insert (key c) (key d) c.trap owner ∙ elim (Bool-cases (bytes_eq (key c) (key d))) [
      | inl same ↦
          let e = (bytes_eq_iff (key c) (key d)).0 same in rw same (now free (rw (← e) at k))
      | inr other ↦ rw other k
    ]
  where
    now :
        {o : Option Bytes} {t u : Bytes} → (o ≡ none) ⊎ (o ≡ some t) → o ≡ some u → some t ≡ some u
    now (inl e) h = cc
    now (inr e) h = cc

claim-Owned :
    (c d : Claim) (owner : Owners) {owner' : Owners}
    → claim c owner ≡ some owner'
    → Owned owner d
    → Owned owner' d
claim-Owned c d owner h k =
    let (e, free) = granted c owner (lookup (key c) owner) h in rw e (insert-Owned c d owner free k)

claim-owns :
    (c : Claim) (owner : Owners) {owner' : Owners} → claim c owner ≡ some owner' → Owned owner' c
claim-owns c owner h =
    let (e, free) = granted c owner (lookup (key c) owner) h in
    rw e (lookup-insert_self (key c) c.trap owner)

some-of-bind :
    (m : Option Owners) (f : Owners → Option Owners) {o : Owners}
    → (m >>= f) ≡ some o
    → (a : Owners) × (m ≡ some a) × (f a ≡ some o)
some-of-bind none f h = cc
some-of-bind (some a) f h = (a, refl, h)

claim_all-keeps :
    (cs : List Claim) (d : Claim) (owner : Owners) {owner' : Owners}
    → claim_all cs owner ≡ some owner'
    → Owned owner d
    → Owned owner' d
unfolding claim_all
claim_all-keeps [] d owner h k = let e : owner ≡ _ = some-inj h in rw (← e) k
claim_all-keeps (c ∷ cs) d owner h k =
    let (next, e, f) = some-of-bind (claim c owner) _ h in
    claim_all-keeps cs d next f (claim-Owned c d owner e k)

-- After claims that are all granted the map names the trap of each.
claim_all-Owned :
    (cs : List Claim) (owner : Owners) {owner' : Owners}
    → claim_all cs owner ≡ some owner'
    → All (Owned owner') cs
unfolding claim_all
claim_all-Owned [] owner h = tt
claim_all-Owned (c ∷ cs) owner h =
    let (next, e, f) = some-of-bind (claim c owner) _ h in
    (claim_all-keeps cs c next f (claim-owns c owner e), claim_all-Owned cs next f)

one_trap :
    (c d : Claim) (owner : Owners) → Owned owner c → Owned owner d → key c ≡ key d → c.trap ≡ d.trap
one_trap c d owner h k e = let k' = rw (← e) at k in cc

some-inj_claim : {x y : Claim} → some x ≡ some y → x ≡ y
some-inj_claim h = cc

nth_Owned :
    (owner : Owners) (cs : List Claim) (i : ℕ) {c : Claim}
    → All (Owned owner) cs
    → get_elem? cs i ≡ some c
    → Owned owner c
nth_Owned owner [] i h e = cc
nth_Owned owner (x ∷ cs) zero h e =
    let same : x ≡ _ = some-inj_claim e in subst (Owned owner) same h.0
nth_Owned owner (x ∷ cs) (suc i) h e = nth_Owned owner cs i h.1 e

-- If checkListenConflicts gives no error: claims with the same transport, host and port, written
-- alike, are claims of one trap, the ports of the banner trap included.
pub check_listen_conflicts-one_trap :
    (split_host_port : Bytes → Option (Bytes × Bytes)) (config : Config) (i j : ℕ) {owner : Owners}
    {c d : Claim}
    → check_listen_conflicts split_host_port config ≡ some owner
    → get_elem? (all_claims split_host_port config config.traps) i ≡ some c
    → get_elem? (all_claims split_host_port config config.traps) j ≡ some d
    → key c ≡ key d
    → c.trap ≡ d.trap
unfolding check_listen_conflicts
check_listen_conflicts-one_trap split_host_port config i j {owner} {c} {d} h e f same =
    let cs = all_claims split_host_port config config.traps in
    let owned = claim_all-Owned cs [] h in
    one_trap c d owner (nth_Owned owner cs i owned e) (nth_Owned owner cs j owned f) same
