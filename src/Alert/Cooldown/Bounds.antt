-- ===== src/Alert/Cooldown/Bounds.antt =====
-- The cooldown table stays well formed and within its bound.
use ran.Alert.Cooldown.{
  CooldownEntry, entry_key, CooldownFilter, Slot, is_live, drop_entry, sweep_front, make_room,
  take_slot,
}
use ran.Base.{
  ℕ, zero, suc, ◌+◌, ◌≤◌, ◌<◌, ◌%◌, ◌^◌, none, some, Bytes, ◌≡◌, refl, arith, Bool-cases,
  Option-cases, inl, inr, leb, lookup, bytes_Eq, nat_eq,
}
use ran.Fifo
use ran.Fifo.{Fifo}
use ran.Fifo.Wf.{
  Wf, absent-remove, find-some, find-none, assign-Wf, lookup-assign, move_to_back-Wf, push_back-Wf,
  size-push_back, size-assign, size-move_to_back, front-some, front-none, remove-Wf, size-remove,
}

pub record IsValid (d : CooldownFilter) : Type 0 where
  pub wf : Wf entry_key d.seen
  pub bounded : Fifo.size d.seen ≤ d.max_entries
  pub positive : 0 < d.max_entries

-- What sweeping and eviction leave alone, beside a well-formed table that is no larger.
pub record Shrinks (d d' : CooldownFilter) : Type 0 where
  pub wf : Wf entry_key d'.seen
  pub smaller : Fifo.size d'.seen ≤ Fifo.size d.seen
  pub same_max : d'.max_entries ≡ d.max_entries
  pub same_slot : d'.next_slot ≡ d.next_slot
  pub same_window : d'.window ≡ d.window
  pub no_new : (k : Bytes) → lookup k d.seen.index ≡ none → lookup k d'.seen.index ≡ none

pub drop_entry-Shrinks :
    (d : CooldownFilter) (i : ℕ) (e : CooldownEntry)
    → Wf entry_key d.seen
    → lookup i d.seen.order ≡ some e
    → Shrinks d (drop_entry i e d) × (suc (Fifo.size (drop_entry i e d).seen) ≡ Fifo.size d.seen)
unfolding drop_entry
drop_entry-Shrinks d i e w h =
    let s = size-remove entry_key d.seen w i e h in
    (
      record {
        wf = remove-Wf entry_key d.seen w i e h;
        smaller = omega (arith, s);
        same_max = refl;
        same_slot = refl;
        same_window = refl;
        no_new = λ k a. absent-remove k e.key i d.seen a;
      },
      s,
    )

Shrinks-refl : (d : CooldownFilter) → Wf entry_key d.seen → Shrinks d d
Shrinks-refl d w = record {
  wf = w;
  smaller = omega arith;
  same_max = refl;
  same_slot = refl;
  same_window = refl;
  no_new = λ k a. a;
}

Shrinks-trans : {d d' d'' : CooldownFilter} → Shrinks d d' → Shrinks d' d'' → Shrinks d d''
Shrinks-trans s t = record {
  wf = t.wf;
  smaller = omega arith;
  same_max = omega arith;
  same_slot = omega arith;
  same_window = omega arith;
  no_new = λ k a. t.no_new k (s.no_new k a);
}

pub sweep_front-Shrinks :
    (fuel now : ℕ) (d : CooldownFilter) → Wf entry_key d.seen → Shrinks d (sweep_front fuel now d)
unfolding sweep_front
sweep_front-Shrinks zero now d w = Shrinks-refl d w
sweep_front-Shrinks (suc fuel) now d w = elim (Option-cases (Fifo.front d.seen)) [
  | inl e ↦ rw (e, sweep_front) (Shrinks-refl d w)
  | inr ((i, e), at) ↦ elim (Bool-cases (is_live now e)) [
    | inl live ↦ rw (at, sweep_front) (rw live (Shrinks-refl d w))
    | inr dead ↦
        let s = (drop_entry-Shrinks d i e w (front-some entry_key d.seen i e at)).0 in
        rw (at, sweep_front)
          (rw dead (Shrinks-trans s (sweep_front-Shrinks fuel now (drop_entry i e d) s.wf)))
  ]
]

-- Making room leaves the table well formed, and below its bound.
make_room-Shrinks :
    (now : ℕ) (d : CooldownFilter)
    → IsValid d
    → Shrinks d (make_room now d) × (Fifo.size (make_room now d).seen < d.max_entries)
unfolding make_room
make_room-Shrinks now d v =
    let s = sweep_front-Shrinks (Fifo.size d.seen) now d v.wf in
    let d' = sweep_front (Fifo.size d.seen) now d in
    elim (Bool-cases (leb d'.max_entries (Fifo.size d'.seen))) [
      | inr below ↦ rw below (s, ground (arith, s.smaller, s.same_max))
      | inl full ↦ rw full (elim (Option-cases (Fifo.front d'.seen)) [
        | inl e ↦
            absurd (ground (arith, front-none entry_key d'.seen s.wf e, s.same_max, v.positive))
        | inr ((i, e), at) ↦
            let (t, one) = drop_entry-Shrinks d' i e s.wf (front-some entry_key d'.seen i e at) in
            rw at (Shrinks-trans s t, omega (arith, one, s.smaller, v.bounded))
      ])
    ]

-- The table after `take_slot`: valid, its window the same, and the key's entry armed.
pub record Armed (key : Bytes) (win now : ℕ) (d d' : CooldownFilter) (s : Slot) : Type 0 where
  pub valid : IsValid d'
  pub same_window : d'.window ≡ d.window
  pub element : ℕ
  pub entry : CooldownEntry
  pub armed : Fifo.find key d'.seen ≡ some (element, entry)
  pub entry_at : entry.at ≡ now
  pub entry_win : entry.win ≡ win
  pub entry_slot : entry.slot ≡ s.slot
  pub slot_key : s.key ≡ key
  pub slot_win : s.win ≡ win

take_slot-Armed_old :
    (key : Bytes) (win now : ℕ) (d : CooldownFilter) (i : ℕ) (old : CooldownEntry)
    → IsValid d
    → Fifo.find key d.seen ≡ some (i, old)
    → Armed key win now d (take_slot key win now d).0 (take_slot key win now d).1
unfolding take_slot
take_slot-Armed_old key win now d i old v h =
    let e : CooldownEntry = record old { at = now; win = win; slot = (d.next_slot + 1) % 2 ^ 64 } in
    let (at, k, ix) = find-some entry_key d.seen key i old v.wf h in
    let w₁ = assign-Wf entry_key d.seen v.wf i old e at refl in
    let f₁ = Fifo.assign i e d.seen in
    let w₂ = move_to_back-Wf entry_key f₁ w₁ i e (lookup-assign entry_key d.seen v.wf i e) in
    rw (h, take_slot)
      (record {
        valid = record {
          wf = w₂;
          bounded = omega (
            arith,
            size-move_to_back entry_key f₁ w₁ i e,
            size-assign entry_key d.seen v.wf i e,
            v.bounded,
          );
          positive = v.positive;
        };
        same_window = refl;
        element = i;
        entry = e;
        armed = Fifo.Find.find-move_to_back d.seen key i e ix;
        entry_at = refl;
        entry_win = refl;
        entry_slot = refl;
        slot_key = refl;
        slot_win = refl;
      })

-- a new element behind those that were kept
push-Armed :
    (e : CooldownEntry) (d d' : CooldownFilter)
    → IsValid d
    → Shrinks d d'
    → Fifo.size d'.seen < d.max_entries
    → lookup e.key d.seen.index ≡ none
    → Armed e.key e.win e.at d
        (record d' { next_slot = e.slot; seen = Fifo.push_back e.key e d'.seen })
        (record { key = e.key; slot = e.slot; win = e.win })
push-Armed e d d' v s below absent =
    let new = s.no_new e.key absent in
    record {
      valid = record {
        wf = push_back-Wf entry_key d'.seen s.wf e new;
        bounded = omega (arith, size-push_back entry_key d'.seen s.wf e new, s.same_max);
        positive = omega (arith, v.positive, s.same_max);
      };
      same_window = s.same_window;
      element = d'.seen.next;
      entry = e;
      armed = Fifo.Find.find-push_back entry_key d'.seen s.wf e.key e;
      entry_at = refl;
      entry_win = refl;
      entry_slot = refl;
      slot_key = refl;
      slot_win = refl;
    }

take_slot-Armed_new :
    (key : Bytes) (win now : ℕ) (d : CooldownFilter)
    → IsValid d
    → Fifo.find key d.seen ≡ none
    → Armed key win now d (take_slot key win now d).0 (take_slot key win now d).1
unfolding take_slot
take_slot-Armed_new key win now d v h =
    let absent = find-none entry_key d.seen key v.wf h in
    let e : CooldownEntry = record {
      key = key;
      at = now;
      win = win;
      slot = (d.next_slot + 1) % 2 ^ 64;
    } in
    elim (Bool-cases (leb d.max_entries (Fifo.size d.seen))) [
      | inl full ↦
          let (s, below) = make_room-Shrinks now d v in
          rw (h, take_slot) (rw full (push-Armed e d (make_room now d) v s below absent))
      | inr room ↦
          rw (h, take_slot)
            (rw room (push-Armed e d d v (Shrinks-refl d v.wf) (ground arith) absent))
    ]

pub take_slot-Armed :
    (key : Bytes) (win now : ℕ) (d : CooldownFilter)
    → IsValid d
    → Armed key win now d (take_slot key win now d).0 (take_slot key win now d).1
take_slot-Armed key win now d v = elim (Option-cases (Fifo.find key d.seen)) [
  | inl h ↦ take_slot-Armed_new key win now d v h
  | inr ((i, old), h) ↦ take_slot-Armed_old key win now d i old v h
]
