-- ===== src/Alert/Cooldown/Gate.antt =====
-- What `Allow`, `Release` and the cleanup promise together.
use ran.Alert.Class.{Class, unset, probe, attack, scan, rank, classes}
use ran.Alert.Cooldown.Bounds.{
  IsValid, Shrinks, Armed, drop_entry-Shrinks, sweep_front-Shrinks, take_slot-Armed,
}
use ran.Alert.Cooldown.{
  CooldownEntry, entry_key, CooldownFilter, Slot, new_cooldown_filter, cooldown_key, is_live,
  holds_back, suppressed, drop_entry, take_slot, applied_window, allow, release, cleanup,
}
use ran.Alert.Netip.{Netip}
use ran.Alert.Offenders.Table.{OffenderTable}
use ran.Base.{
  ℕ, ◌+◌, ◌≤◌, ◌<◌, true, false, Option, none, some, List, [], ◌∷◌, Bytes, ◌≡◌, ◌≢◌, refl, arith,
  Bool-cases, Option-cases, inl, inr, ◌==◌, bytes_eq, bytes_Eq, nat_eq, lt→ltb,
}
use ran.Fifo
use ran.Fifo.Find
use ran.Fifo.Wf.{empty-Wf, find-some}

shrunk : (d d' : CooldownFilter) → IsValid d → Shrinks d d' → IsValid d'
shrunk d d' v s = record {
  wf = s.wf;
  bounded = omega (arith, s.smaller, s.same_max, v.bounded);
  positive = omega (arith, v.positive, s.same_max);
}

module _ (net : Netip) (ip : Bytes) (class : Class) (now : ℕ) (o : Option OffenderTable) where
  -- An alert that passes with a cooldown on arms the entry of its source and class.
  allow-Armed :
      (d d' : CooldownFilter) (s : Slot)
      → IsValid d
      → d.window ≢ 0
      → allow net ip class now o d ≡ (d', some s)
      → Armed (cooldown_key ip class) (applied_window net ip class d.window now o) now d d' s
  unfolding allow
  allow-Armed d d' s v on h =
      let win = applied_window net ip class d.window now o in
      let key = cooldown_key ip class in
      elim (Bool-cases (0 == d.window)) [
        | inl off ↦ absurd (on (ground arith))
        | inr _ ↦ elim (Bool-cases (suppressed ip class now d.seen classes)) [
          | inl held ↦ absurd (ground arith)
          | inr free ↦
              let p : (take_slot key win now d).0 ≡ d' = ground arith in
              let q : (take_slot key win now d).1 ≡ s = ground arith in
              rw (← p, ← q) (take_slot-Armed key win now d v)
        ]
      ]

  pub allow-IsValid : (d : CooldownFilter) → IsValid d → IsValid (allow net ip class now o d).0
  unfolding allow
  allow-IsValid d v =
      let win = applied_window net ip class d.window now o in
      let a = take_slot-Armed (cooldown_key ip class) win now d v in
      elim (Bool-cases (0 == d.window)) [
        | inl off ↦ rw off v
        | inr on ↦ rw on (elim (Bool-cases (suppressed ip class now d.seen classes)) [
          | inl held ↦ rw held v
          | inr free ↦ rw free a.valid
        ])
      ]

pub release-IsValid :
    (key : Bytes) (slot : ℕ) (d : CooldownFilter) → IsValid d → IsValid (release key slot d)
unfolding release
release-IsValid key slot d v = elim (Bool-cases (bytes_eq key [])) [
  | inl e ↦ rw e v
  | inr ne ↦ rw ne (elim (Option-cases (Fifo.find key d.seen)) [
    | inl e ↦ rw e v
    | inr ((i, e), at) ↦ rw at (elim (Bool-cases (e.slot == slot)) [
      | inl same ↦
          let (x, k, ix) = find-some entry_key d.seen key i e v.wf at in
          rw same (shrunk d (drop_entry i e d) v (drop_entry-Shrinks d i e v.wf x).0)
      | inr other ↦ rw other v
    ])
  ])
]

pub cleanup-IsValid : (now : ℕ) (d : CooldownFilter) → IsValid d → IsValid (cleanup now d)
unfolding cleanup
cleanup-IsValid now d v = elim (Bool-cases (0 == d.window)) [
  | inl off ↦ rw off v
  | inr on ↦ rw on (shrunk d _ v (sweep_front-Shrinks (Fifo.size d.seen) now d v.wf))
]

-- The calls that the alerter makes, each with the clock's reading.
pub data Call : Type 0 where
  allowing : Bytes → Class → ℕ → Option OffenderTable → Call
  releasing : Bytes → ℕ → Call
  cleaning : ℕ → Call

unfoldable pub run : Netip → List Call → CooldownFilter → CooldownFilter
run net [] d = d
run net (allowing ip class now o ∷ cs) d = run net cs (allow net ip class now o d).0
run net (releasing key slot ∷ cs) d = run net cs (release key slot d)
run net (cleaning now ∷ cs) d = run net cs (cleanup now d)

run_from : (net : Netip) (cs : List Call) (d : CooldownFilter) → IsValid d → IsValid (run net cs d)
unfolding run
run_from net [] d v = v
run_from net (allowing ip class now o ∷ cs) d v =
    run_from net cs _ (allow-IsValid net ip class now o d v)
run_from net (releasing key slot ∷ cs) d v = run_from net cs _ (release-IsValid key slot d v)
run_from net (cleaning now ∷ cs) d v = run_from net cs _ (cleanup-IsValid now d v)

-- From a new filter with a positive bound, whatever sequence of `allow`, `Release` and `cleanup`
-- calls is made: the map and the list agree, and no more entries are held than the bound.
pub run-IsValid :
    (net : Netip) (window max : ℕ) (cs : List Call)
    → 0 < max
    → IsValid (run net cs (new_cooldown_filter window max))
unfolding new_cooldown_filter
run-IsValid net window max cs h =
    run_from net cs
      (record { seen = Fifo.empty; next_slot = 0; window = window; max_entries = max })
      (record { wf = empty-Wf entry_key; bounded = omega arith; positive = h })

-- A live entry holds back every class that ranks no higher.
holds_back_live :
    (ip : Bytes) (class c : Class) (now i : ℕ) (e : CooldownEntry) (d : CooldownFilter)
    → rank class ≤ rank c
    → Fifo.find (cooldown_key ip c) d.seen ≡ some (i, e)
    → is_live now e ≡ true
    → holds_back ip class now d.seen c ≡ true
unfolding holds_back
holds_back_live ip class c now i e d r f l = rw f (rw l (ground arith))

suppressed_lem :
    (ip : Bytes) (class c : Class) (now : ℕ) (d : CooldownFilter)
    → c ≢ unset
    → holds_back ip class now d.seen c ≡ true
    → suppressed ip class now d.seen classes ≡ true
unfolding suppressed
suppressed_lem ip class unset now d ne h = absurd (ne refl)
suppressed_lem ip class probe now d ne h = rw h
suppressed_lem ip class attack now d ne h = ground arith
suppressed_lem ip class scan now d ne h = ground arith

module _ (net : Netip) (ip : Bytes) (class : Class) (now : ℕ) (o : Option OffenderTable)
    (d d' : CooldownFilter) (s : Slot) (v : IsValid d) (on : d.window ≢ 0)
    (passed : allow net ip class now o d ≡ (d', some s)) where
  -- An alert for a class that is not the zero value passed a valid filter with cooldowns on. Until
  -- the window of its slot ends, every alert for the same source and a class that ranks no higher
  -- is suppressed, and the filter is left as it is, whatever the offender table says then.
  pub allow-suppresses :
      (class' : Class) (now' : ℕ) (o' : Option OffenderTable)
      → class ≢ unset
      → rank class' ≤ rank class
      → now' < now + s.win
      → allow net ip class' now' o' d' ≡ (d', none)
  unfolding allow is_live
  allow-suppresses class' now' o' real lower inside =
      let a = allow-Armed net ip class now o d d' s v on passed in
      let live =
        lt→ltb now' (a.entry.at + a.entry.win)
          (omega (arith, a.entry_at, a.entry_win, a.slot_win, inside)) in
      let held = holds_back_live ip class' class now' a.element a.entry d' lower a.armed live in
      let off : 0 == d'.window ≡ false = ground (arith, a.same_window, on) in
      rw off (rw (suppressed_lem ip class' class now' d' real held))

  cooldown_key-ne-nil : bytes_eq (cooldown_key ip class) [] ≡ false
  unfolding cooldown_key
  cooldown_key-ne-nil = key_ne ip
    where
      key_ne : (i : Bytes) → bytes_eq (cooldown_key i class) [] ≡ false
      key_ne [] = refl
      key_ne (x ∷ xs) = refl

  -- Releasing the slot of an alert that passed a valid filter with cooldowns on frees its entry:
  -- the source and class have no entry any more, so at no time does the class hold back a retry.
  pub release-frees :
      (class' : Class) (now' : ℕ)
      → (Fifo.find (cooldown_key ip class) (release s.key s.slot d').seen ≡ none)
        × (holds_back ip class' now' (release s.key s.slot d').seen class ≡ false)
  unfolding release drop_entry holds_back
  release-frees class' now' =
      let a = allow-Armed net ip class now o d d' s v on passed in
      let key = cooldown_key ip class in
      let (x, k, ix) = find-some entry_key d'.seen key a.element a.entry a.valid.wf a.armed in
      let same : (a.entry.slot == s.slot) ≡ true = ground (arith, a.entry_slot) in
      let gone : Fifo.find key (release s.key s.slot d').seen ≡ none = rw a.slot_key (
        rw cooldown_key-ne-nil
          (rw a.armed (rw same (rw k (Fifo.Find.find-remove_self d'.seen key a.element))))) in
      (gone, rw gone (ground arith))
