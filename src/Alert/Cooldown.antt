-- ===== src/Alert/Cooldown.antt =====
-- internal/alert/cooldown.go: at most one alert for a source and class within a window. The
-- clock's reading and the offender table are arguments; the table may be absent.
pub mod Bounds
pub mod Gate
use ran.Alert.Class.{Class, rank, text, classes}
use ran.Alert.Netip.{Netip}
use ran.Alert.Offenders.Operations.{window_for}
use ran.Alert.Offenders.Table.{OffenderTable}
use ran.Base.{
  ℕ, zero, suc, ◌+◌, ◌%◌, ◌^◌, Bool, true, false, ◌&&◌, ◌||◌, not, Option, none, some, List, [],
  ◌∷◌, ◌++◌, Bytes, codes, bytes_eq, ltb, leb, ◌==◌, if◌then◌else◌, ◌>>=◌,
}
use ran.Fifo
use ran.Fifo.{Fifo}

pub record CooldownEntry : Type 0 where
  pub key : Bytes
  pub at : ℕ
  pub win : ℕ
  pub slot : ℕ

abbrev pub entry_key : CooldownEntry → Bytes
entry_key e = e.key

pub record CooldownFilter : Type 0 where
  pub seen : Fifo CooldownEntry
  pub next_slot : ℕ
  pub window : ℕ
  pub max_entries : ℕ

unfoldable pub new_cooldown_filter : ℕ → ℕ → CooldownFilter
new_cooldown_filter window max_entries = record {
  seen = Fifo.empty;
  next_slot = 0;
  window = window;
  max_entries = max_entries;
}

unfoldable pub cooldown_key : Bytes → Class → Bytes
cooldown_key ip c = ip ++ (b'|' ∷ text c)

-- `now.Sub(e.at) < e.win`: the entry is still in its window
unfoldable pub is_live : ℕ → CooldownEntry → Bool
is_live now e = ltb now (e.at + e.win)

-- the key, the slot and the window that `allow` returns with `true`
pub record Slot : Type 0 where
  pub key : Bytes
  pub slot : ℕ
  pub win : ℕ

-- the test of one class in the loop of `allow`
unfoldable pub holds_back : Bytes → Class → ℕ → Fifo CooldownEntry → Class → Bool
unfolding rank is_live cooldown_key
holds_back ip class now seen c =
    not (ltb (rank c) (rank class))
    && (elim (Fifo.find (cooldown_key ip c) seen) [ none ↦ false | some (_, e) ↦ is_live now e ])

-- the loop of `allow`
unfoldable pub suppressed : Bytes → Class → ℕ → Fifo CooldownEntry → List Class → Bool
unfolding holds_back
suppressed ip class now seen [] = false
suppressed ip class now seen (c ∷ cs) =
    holds_back ip class now seen c || suppressed ip class now seen cs

abbrev pub with_seen : CooldownFilter → Fifo CooldownEntry → CooldownFilter
with_seen d f = record d { seen = f }

-- `remove`
unfoldable pub drop_entry : ℕ → CooldownEntry → CooldownFilter → CooldownFilter
drop_entry i e d = with_seen d (Fifo.remove e.key i d.seen)

-- the loop of `sweepFront`, on fuel: each round takes the front element away
unfoldable pub sweep_front : ℕ → ℕ → CooldownFilter → CooldownFilter
unfolding drop_entry is_live
sweep_front zero now d = d
sweep_front (suc fuel) now d = elim (Fifo.front d.seen) [
  | none ↦ d
  | some (i, e) ↦ elim (is_live now e) [
    | true ↦ d
    | false ↦ sweep_front fuel now (drop_entry i e d)
  ]
]

unfoldable pub make_room : ℕ → CooldownFilter → CooldownFilter
unfolding sweep_front drop_entry
make_room now d =
    let d' = sweep_front (Fifo.size d.seen) now d in
    if leb d'.max_entries (Fifo.size d'.seen)
    then elim (Fifo.front d'.seen) [ none ↦ d' | some (i, e) ↦ drop_entry i e d' ]
    else d'

-- the slot taken by `allow` for the key, whose entry is re-armed or made
unfoldable pub take_slot : Bytes → ℕ → ℕ → CooldownFilter → CooldownFilter × Slot
unfolding make_room
take_slot key win now d =
    let slot = (d.next_slot + 1) % 2 ^ 64 in
    elim (Fifo.find key d.seen) [
      | some (i, old) ↦
          let e = record old { at = now; win = win; slot = slot } in
          (
            record d { next_slot = slot; seen = Fifo.move_to_back i e (Fifo.assign i e d.seen) },
            record { key = key; slot = slot; win = win },
          )
      | none ↦
          let e : CooldownEntry = record { key = key; at = now; win = win; slot = slot } in
          let d' = (if leb d.max_entries (Fifo.size d.seen) then make_room now d else d) in
          (
            record d' { next_slot = slot; seen = Fifo.push_back key e d'.seen },
            record { key = key; slot = slot; win = win },
          )
    ]

module _ (net : Netip) where
  -- `d.offenders.windowFor`, where a nil table leaves the window as it is
  unfoldable pub applied_window : Bytes → Class → ℕ → ℕ → Option OffenderTable → ℕ
  unfolding window_for
  applied_window ip class base now none = base
  applied_window ip class base now (some t) = window_for net ip class base now t

  -- `none` is a suppressed alert.
  unfoldable pub allow :
      Bytes → Class → ℕ → Option OffenderTable → CooldownFilter → CooldownFilter × Option Slot
  unfolding suppressed applied_window take_slot cooldown_key
  allow ip class now offenders d =
      if 0 == d.window
      then (d, some (record { key = []; slot = 0; win = 0 }))
      else if suppressed ip class now d.seen classes
      then (d, none)
      else (let win = applied_window ip class d.window now offenders in
          let (d', s) = take_slot (cooldown_key ip class) win now d in (d', some s))

unfoldable pub release : Bytes → ℕ → CooldownFilter → CooldownFilter
unfolding drop_entry
release key slot d = if bytes_eq key [] then d else elim (Fifo.find key d.seen) [
  | none ↦ d
  | some (i, e) ↦ if e.slot == slot then drop_entry i e d else d
]

unfoldable pub cleanup : ℕ → CooldownFilter → CooldownFilter
unfolding sweep_front
cleanup now d = if 0 == d.window then d else sweep_front (Fifo.size d.seen) now d
