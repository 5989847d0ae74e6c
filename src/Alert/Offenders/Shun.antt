-- ===== src/Alert/Offenders/Shun.antt =====
-- An accepted alert opens a shun window, and the accept path sees it.
use ran.Alert.Class.{Class, unset, probe, attack, scan}
use ran.Alert.Netip.{Netip, normalize_ip}
use ran.Alert.Offenders.Accept.{
  IsValid, Holds, Open, shrunk, put-Holds, entry_for-Holds_old, entry_for-Holds_new,
  open_window-Open,
}
use ran.Alert.Offenders.Bounds.{offender_key, length-pos_of_has, drop_entry-Shrinks}
use ran.Alert.Offenders.Entry.{Offender, set_count, count_at, class_index}
use ran.Alert.Offenders.Operations.{
  is_probe, open_window, entry_for, live_entry, accept_locked, accepted, shunned,
}
use ran.Alert.Offenders.Table.{OffenderTable, Work, put, expired, drop_entry}
use ran.Base.{
  ℕ, ◌+◌, ◌<◌, ◌≢◌, true, false, not, ◌||◌, Option, none, some, [], Bytes, ◌≡◌, refl, ◌∙◌, arith,
  Bool-cases, Option-cases, inl, inr, ◌==◌, bytes_Eq, nat_eq, if◌then◌else◌, lt→ltb,
}
use ran.Fifo
use ran.Fifo.Find
use ran.Fifo.Wf.{find-some, find-none}

-- The live entry of the key, or no entry at all.
record Live (key : Bytes) (t : OffenderTable) (r : Work × Option (ℕ × Offender)) : Type 0 where
  valid : IsValid r.0.table
  same_max : r.0.table.max ≡ t.max
  same_shun : r.0.table.shun ≡ t.shun
  found : Fifo.find key r.0.table.entries ≡ r.1

dropped-find :
    (i : ℕ) (e : Offender) (now : ℕ) (w : Work)
    → Fifo.find e.ip (drop_entry i e now w).table.entries ≡ none
unfolding drop_entry
dropped-find i e now w = elim (Bool-cases e.active) [
  | inl a ↦ rw a (Find.find-remove_self _ e.ip i)
  | inr a ↦ rw a (Find.find-remove_self w.table.entries e.ip i)
]

live_entry-Live :
    (key : Bytes) (now : ℕ) (w : Work) → IsValid w.table → Live key w.table (live_entry key now w)
unfolding live_entry
live_entry-Live key now w v = elim (Option-cases (Fifo.find key w.table.entries)) [
  | inl e ↦ rw (e, live_entry) (record { valid = v; same_max = refl; same_shun = refl; found = e })
  | inr ((i, e), at) ↦ elim (Bool-cases (expired w.table e now)) [
    | inr live ↦
        rw (at, live_entry)
          (rw live (record { valid = v; same_max = refl; same_shun = refl; found = at }))
    | inl dead ↦
        let (x, k, ix) = find-some offender_key w.table.entries key i e v.good.wf at in
        let s = (drop_entry-Shrinks i e now w v.good x).0 in
        rw (at, live_entry)
          (rw dead (record {
            valid = shrunk w.table (drop_entry i e now w).table v s;
            same_max = s.same_max;
            same_shun = s.same_shun;
            found = rw (← k) (dropped-find i e now w);
          }))
  ]
]

entry_for-Holds :
    (key : Bytes) (now : ℕ) (found : Option (ℕ × Offender)) (w : Work)
    → IsValid w.table
    → Fifo.find key w.table.entries ≡ found
    → Holds key w.table
        (entry_for key now found w).0.table
        (entry_for key now found w).1
        (entry_for key now found w).2
unfolding entry_for
entry_for-Holds key now none w v h =
    entry_for-Holds_new key now w v (find-none offender_key w.table.entries key v.good.wf h)
entry_for-Holds key now (some (i, e)) w v h = entry_for-Holds_old key now i e w v h

-- the entry counted and dated, before any window is opened
counted : Bytes → ℕ → ℕ → Work → Work × ℕ × Offender
unfolding live_entry entry_for
counted key idx now w =
    let (w₁, found) = live_entry key now w in
    let (w₂, i, e) = entry_for key now found w₁ in
    let e' = record e { counts = set_count idx (count_at idx e.counts + 1) e.counts; last = now } in
    (record w₂ { table = put i e' w₂.table }, i, e')

counted-Holds :
    (key : Bytes) (idx now : ℕ) (w : Work)
    → IsValid w.table
    → Holds key w.table
        (counted key idx now w).0.table
        (counted key idx now w).1
        (counted key idx now w).2
unfolding counted
counted-Holds key idx now w v =
    let l = live_entry-Live key now w v in
    let w₁ = (live_entry key now w).0 in
    let found = (live_entry key now w).1 in
    let h = entry_for-Holds key now found w₁ l.valid l.found in
    let t₂ = (entry_for key now found w₁).0.table in
    let i = (entry_for key now found w₁).1 in
    let e = (entry_for key now found w₁).2 in
    let h' : Holds key w.table t₂ i e = record {
      valid = h.valid;
      at = h.at;
      ix = h.ix;
      ip = h.ip;
      same_max = h.same_max ∙ l.same_max;
      same_shun = h.same_shun ∙ l.same_shun;
    } in
    put-Holds key w.table t₂ i e
      (record e { counts = set_count idx (count_at idx e.counts + 1) e.counts; last = now }) h' refl
      (λ a. h.valid.good.flagged i e h.at a)

-- `accept_locked` counts the alert, then opens a window if it has to.
accept_locked_lem :
    (key : Bytes) (idx : ℕ) (class : Class) (window now : ℕ) (w : Work)
    → accept_locked key idx class window now w ≡ (
        if not (counted key idx now w).0.table.shun || is_probe class || 0 == window
        then ((counted key idx now w).0, 0)
        else open_window
            (counted key idx now w).1
            (counted key idx now w).2
            window
            now
            (counted key idx now w).0)
unfolding accept_locked counted
accept_locked_lem key idx class window now w = refl

accept_locked-IsValid :
    (key : Bytes) (idx : ℕ) (class : Class) (window now : ℕ) (w : Work)
    → IsValid w.table
    → IsValid (accept_locked key idx class window now w).0.table
accept_locked-IsValid key idx class window now w v =
    let (w', i, e) = counted key idx now w in
    let h = counted-Holds key idx now w v in
    rw accept_locked_lem (elim (Bool-cases (not w'.table.shun || is_probe class || 0 == window)) [
      | inl stays ↦ rw stays h.valid
      | inr opens ↦ rw opens (open_window-Open key i window now e w.table w' h).holds.valid
    ])

accept_locked-Open :
    (key : Bytes) (idx : ℕ) (class : Class) (window now : ℕ) (w : Work)
    → IsValid w.table
    → w.table.shun ≡ true
    → is_probe class ≡ false
    → window ≢ 0
    → Open key (now + window) w.table (accept_locked key idx class window now w).0.table
accept_locked-Open key idx class window now w v on high pos =
    let (w', i, e) = counted key idx now w in
    let h = counted-Holds key idx now w v in
    let opens : (not w'.table.shun || is_probe class || 0 == window) ≡ false =
      rw (h.same_shun, on, high) (ground arith) in
    rw (accept_locked_lem, opens) (open_window-Open key i window now e w.table w' h)

known_index : (class : Class) → class ≢ unset → (idx : ℕ) × (class_index class ≡ some idx)
unfolding class_index
known_index unset ne = absurd (ne refl)
known_index probe ne = (0, refl)
known_index attack ne = (1, refl)
known_index scan ne = (2, refl)

not_probe : (class : Class) → class ≢ probe → is_probe class ≡ false
unfolding is_probe
not_probe probe ne = absurd (ne refl)
not_probe _ ne = refl

module _ (net : Netip) (ip : Bytes) where
  -- Whatever alert is accepted at whatever time, a valid table stays valid: the map and the list
  -- agree, open windows are in the active set, and no more sources are held than the bound.
  pub accepted-IsValid :
      (class : Class) (window now : ℕ) (t : OffenderTable)
      → IsValid t
      → IsValid (accepted net ip class window now t).0
  unfolding accepted
  accepted-IsValid class window now t v = elim (Option-cases (normalize_ip net ip)) [
    | inl bad ↦ rw (bad, accepted) v
    | inr (key, good) ↦ elim (Option-cases (class_index class)) [
      | inl unknown ↦ rw (good, accepted) (rw (unknown, accepted) v)
      | inr (idx, known) ↦
          rw (good, accepted)
            (rw (known, accepted)
              (accept_locked-IsValid key idx class window now (record { table = t; sums = [] }) v))
    ]
  ]

  Open-shunned :
      (key : Bytes) (until now' : ℕ) (t t' : OffenderTable)
      → normalize_ip net ip ≡ some key
      → Open key until t t'
      → t'.shun ≡ true
      → now' < until
      → (shunned net ip now' t').2 ≡ true
  unfolding shunned
  Open-shunned key until now' t t' good o on inside =
      let some_ =
        length-pos_of_has o.element t'.active
          (o.holds.valid.good.flagged o.element o.entry o.holds.at o.active) in
      let found = Find.find_lem t'.entries key o.element o.entry o.holds.ix o.holds.at in
      let live = lt→ltb now' o.entry.shun_until (omega (arith, o.lasts)) in
      rw (on, some_) (rw (good, shunned) (rw (found, shunned) (rw o.active (rw live))))

  -- In a valid table with shunning on, an accepted alert of the class attack or scan, for a source
  -- whose address can be read and with a positive window, makes the accept path refuse the source
  -- at every moment before the window's end.
  pub accepted-shuns :
      (key : Bytes) (class : Class) (window now now' : ℕ) (t : OffenderTable)
      → IsValid t
      → t.shun ≡ true
      → normalize_ip net ip ≡ some key
      → class ≢ unset
      → class ≢ probe
      → window ≢ 0
      → now' < now + window
      → (shunned net ip now' (accepted net ip class window now t).0).2 ≡ true
  accepted-shuns key class window now now' t v on good real high pos inside =
      let (idx, known) = known_index class real in
      let w : Work = record { table = t; sums = [] } in
      let o = accept_locked-Open key idx class window now w v on (not_probe class high) pos in
      let step : (accepted net ip class window now t).0
          ≡ (accept_locked key idx class window now w).0.table =
        unfold accepted in rw (good, accepted) (rw (known, accepted)) in
      rw step (Open-shunned key (now + window) now' t _ good o (o.holds.same_shun ∙ on) inside)
