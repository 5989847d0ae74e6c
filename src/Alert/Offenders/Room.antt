-- ===== src/Alert/Offenders/Room.antt =====
-- Making room: sweeping silent entries and evicting one.
use ran.Alert.Offenders.Bounds.{
  offender_key, IsGood, Shrinks, Shrinks-refl, Shrinks-trans, drop_entry-Shrinks,
}
use ran.Alert.Offenders.Entry.{Offender}
use ran.Alert.Offenders.Table.{
  OffenderTable, Work, expired, drop_entry, sweep_front, oldest_inactive, make_room, evict_scan,
}
use ran.Base.{
  ℕ, zero, suc, ◌≤◌, ◌<◌, false, Option, none, some, List, [], ◌∷◌, ◌≡◌, refl, arith, Bool-cases,
  Option-cases, inl, inr, ◌⊎◌, ltb, lookup, nat_eq, length, if◌then◌else◌,
}
use ran.Fifo
use ran.Fifo.Wf.Assoc.{IsMap}
use ran.Fifo.Wf.{front-some, front-none}

pub sweep_front-Shrinks :
    (fuel now : ℕ) (w : Work) → IsGood w.table → Shrinks w.table (sweep_front fuel now w).table
unfolding sweep_front
sweep_front-Shrinks zero now w g = Shrinks-refl w.table g
sweep_front-Shrinks (suc fuel) now w g = elim (Option-cases (Fifo.front w.table.entries)) [
  | inl e ↦ rw (e, sweep_front) (Shrinks-refl w.table g)
  | inr ((i, e), at) ↦ elim (Bool-cases (expired w.table e now)) [
    | inr live ↦ rw (at, sweep_front) (rw live (Shrinks-refl w.table g))
    | inl dead ↦
        let s =
          (drop_entry-Shrinks i e now w g (front-some offender_key w.table.entries i e at)).0 in
        rw (at, sweep_front)
          (rw dead (Shrinks-trans s (sweep_front-Shrinks fuel now (drop_entry i e now w) s.good)))
  ]
]

-- The front of the list is a live entry, or there is none.
abbrev pub HasLiveFront : ℕ → Work → Type 0
HasLiveFront now w =
    (i : ℕ) (e : Offender)
    → Fifo.front w.table.entries ≡ some (i, e)
    → expired w.table e now ≡ false

-- With as much fuel as there are entries the loop ends by its test: the front is live.
pub sweep_front_total :
    (fuel now : ℕ) (w : Work)
    → IsGood w.table
    → Fifo.size w.table.entries ≤ fuel
    → HasLiveFront now (sweep_front fuel now w)
unfolding sweep_front
sweep_front_total zero now w g small =
    λ i e at. absurd (omega (arith, g.wf.same_size, front-lt-length w.table.entries.order i e at))
  where
    front-lt-length :
        (o : List (ℕ × Offender)) (i : ℕ) (e : Offender) → Fifo.first o ≡ some (i, e) → 0 < length o
    front-lt-length [] i e h = absurd (ground arith)
    front-lt-length (x ∷ o) i e h = omega arith
sweep_front_total (suc fuel) now w g small = elim (Option-cases (Fifo.front w.table.entries)) [
  | inl e ↦ rw (e, sweep_front) (λ i u at. absurd (ground arith))
  | inr ((j, u), front) ↦ elim (Bool-cases (expired w.table u now)) [
    | inr live ↦ rw (front, sweep_front) (rw live (λ i e at. ground arith))
    | inl dead ↦
        let (s, n) =
          drop_entry-Shrinks j u now w g (front-some offender_key w.table.entries j u front) in
        rw (front, sweep_front)
          (rw dead (sweep_front_total fuel now (drop_entry j u now w) s.good (omega arith)))
  ]
]

-- The victim is the first candidate, or an element of the list.
oldest_inactive-mem :
    (n : ℕ) (victim : ℕ × Offender) (l : List (ℕ × Offender))
    → IsMap l
    → (oldest_inactive n victim l ≡ victim)
      ⊎ (lookup (oldest_inactive n victim l).0 l ≡ some (oldest_inactive n victim l).1)
unfolding oldest_inactive lookup
oldest_inactive-mem zero victim l m = inl refl
oldest_inactive-mem (suc n) victim [] m = inl refl
oldest_inactive-mem (suc n) victim ((i, e) ∷ l) m =
    ground (arith, oldest_inactive-mem n victim l m.1)

abbrev victim_of : ℕ → Offender → OffenderTable → ℕ × Offender
victim_of i e t =
    if ltb (length t.active) (Fifo.size t.entries)
    then oldest_inactive evict_scan (i, e) t.entries.order
    else (i, e)

victim-mem :
    (i : ℕ) (e : Offender) (t : OffenderTable)
    → IsGood t
    → lookup i t.entries.order ≡ some e
    → lookup (victim_of i e t).0 t.entries.order ≡ some (victim_of i e t).1
victim-mem i e t g at = elim (Bool-cases (ltb (length t.active) (Fifo.size t.entries))) [
  | inr all ↦ rw all at
  | inl some_ ↦
      rw some_ (elim (oldest_inactive-mem evict_scan (i, e) t.entries.order g.wf.order_map) [
        | inl same ↦ rw same at
        | inr found ↦ found
      ])
]

-- Making room leaves the table well formed, and below its bound.
pub make_room-Shrinks :
    (now : ℕ) (w : Work)
    → IsGood w.table
    → Fifo.size w.table.entries ≤ w.table.max
    → 0 < w.table.max
    → Shrinks w.table (make_room now w).table
      × (Fifo.size (make_room now w).table.entries < w.table.max)
unfolding make_room
make_room-Shrinks now w g small pos =
    let s = sweep_front-Shrinks (Fifo.size w.table.entries) now w g in
    let w' = sweep_front (Fifo.size w.table.entries) now w in
    elim (Bool-cases (ltb (Fifo.size w'.table.entries) w'.table.max)) [
      | inl below ↦ rw below (s, ground (arith, s.same_max))
      | inr full ↦ rw full (elim (Option-cases (Fifo.front w'.table.entries)) [
        | inl e ↦
            absurd (
              ground (arith, front-none offender_key w'.table.entries s.good.wf e, s.same_max, pos))
        | inr ((i, e), at) ↦
            let v = victim_of i e w'.table in
            let (t, one) =
              drop_entry-Shrinks v.0 v.1 now w' s.good (
                victim-mem i e w'.table s.good (front-some offender_key w'.table.entries i e at)) in
            rw at (Shrinks-trans s t, omega (arith, one, s.smaller, small))
      ])
    ]

-- The front of a table is an entry that is not expired, or the table is empty.
abbrev pub IsLive : ℕ → OffenderTable → Option (ℕ × Offender) → Type 0
IsLive now t none = Unit
IsLive now t (some (i, e)) = expired t e now ≡ false

-- The loop of `sweepFront` ends by its own test: with as much fuel as there are entries, what it
-- leaves of a good table is empty, or has a front that is not expired.
pub sweep_front-IsLive :
    (fuel now : ℕ) (w : Work)
    → IsGood w.table
    → Fifo.size w.table.entries ≤ fuel
    → IsLive now (sweep_front fuel now w).table (Fifo.front (sweep_front fuel now w).table.entries)
sweep_front-IsLive fuel now w g small =
    elim (Option-cases (Fifo.front (sweep_front fuel now w).table.entries)) [
      | inl empty ↦ rw empty tt
      | inr ((i, e), at) ↦ rw at (sweep_front_total fuel now w g small i e at)
    ]
