-- ===== src/Alert/Scan/Bounds.antt =====
-- The scan tracker stays well formed and within its bounds.
use ran.Alert.Scan.Entry.{ScanEntry, new_entry, touch_entry, IsBounded, touch_entry-IsBounded}
use ran.Alert.Scan.{
  ScanTracker, new_scan_tracker, drop_entry, sweep_front, make_room, with_room, entry_for,
  touch_port, cleanup,
}
use ran.Base.{
  ℕ, zero, suc, ◌+◌, ◌≤◌, ◌<◌, Option, none, some, Bytes, ◌≡◌, refl, arith, Bool-cases,
  Option-cases, inl, inr, leb, ltb, lookup, bytes_Eq, nat_eq,
}
use ran.Fifo
use ran.Fifo.Find
use ran.Fifo.Wf.Assoc.{lookup-erase_inv, lookup-insert_inv}
use ran.Fifo.Wf.{
  Wf, empty-Wf, find-some, find-none, front-some, front-none, absent-remove, remove-Wf, size-remove,
  assign-Wf, lookup-assign, move_to_back-Wf, push_back-Wf, size-push_back,
}

abbrev pub scan_key : ScanEntry → Bytes
scan_key e = e.ip

-- The map and the list agree, and every source's sets are within bounds.
pub record IsGood (s : ScanTracker) : Type 0 where
  pub wf : Wf scan_key s.entries
  pub bounded_sets : (i : ℕ) (e : ScanEntry) → lookup i s.entries.order ≡ some e → IsBounded e

pub record IsValid (s : ScanTracker) : Type 0 where
  pub good : IsGood s
  pub bounded : Fifo.size s.entries ≤ s.max_entries
  pub positive : 0 < s.max_entries

record Shrinks (s s' : ScanTracker) : Type 0 where
  good : IsGood s'
  smaller : Fifo.size s'.entries ≤ Fifo.size s.entries
  same_max : s'.max_entries ≡ s.max_entries
  no_new : (k : Bytes) → lookup k s.entries.index ≡ none → lookup k s'.entries.index ≡ none

Shrinks-refl : (s : ScanTracker) → IsGood s → Shrinks s s
Shrinks-refl s g = record { good = g; smaller = omega arith; same_max = refl; no_new = λ k a. a }

Shrinks-trans : {s s' s'' : ScanTracker} → Shrinks s s' → Shrinks s' s'' → Shrinks s s''
Shrinks-trans a b = record {
  good = b.good;
  smaller = omega arith;
  same_max = omega arith;
  no_new = λ k x. b.no_new k (a.no_new k x);
}

shrunk : (s s' : ScanTracker) → IsValid s → Shrinks s s' → IsValid s'
shrunk s s' v r = record {
  good = r.good;
  bounded = omega (arith, r.smaller, r.same_max, v.bounded);
  positive = omega (arith, v.positive, r.same_max);
}

drop_entry-Shrinks :
    (i : ℕ) (e : ScanEntry) (s : ScanTracker)
    → IsGood s
    → lookup i s.entries.order ≡ some e
    → Shrinks s (drop_entry i e s)
      × (suc (Fifo.size (drop_entry i e s).entries) ≡ Fifo.size s.entries)
unfolding drop_entry Fifo.remove
drop_entry-Shrinks i e s g at =
    let n = size-remove scan_key s.entries g.wf i e at in
    (
      record {
        good = record {
          wf = remove-Wf scan_key s.entries g.wf i e at;
          bounded_sets = λ j u h. g.bounded_sets j u (lookup-erase_inv i j u s.entries.order h).1;
        };
        smaller = omega (arith, n);
        same_max = refl;
        no_new = λ k a. absent-remove k e.ip i s.entries a;
      },
      n,
    )

sweep_front-Shrinks :
    (fuel now : ℕ) (s : ScanTracker) → IsGood s → Shrinks s (sweep_front fuel now s)
unfolding sweep_front
sweep_front-Shrinks zero now s g = Shrinks-refl s g
sweep_front-Shrinks (suc fuel) now s g = elim (Option-cases (Fifo.front s.entries)) [
  | inl e ↦ rw (e, sweep_front) (Shrinks-refl s g)
  | inr ((i, e), at) ↦ elim (Bool-cases (ltb now (e.last + s.window))) [
    | inl live ↦ rw (at, sweep_front) (rw live (Shrinks-refl s g))
    | inr dead ↦
        let r = (drop_entry-Shrinks i e s g (front-some scan_key s.entries i e at)).0 in
        rw (at, sweep_front)
          (rw dead (Shrinks-trans r (sweep_front-Shrinks fuel now (drop_entry i e s) r.good)))
  ]
]

make_room-Shrinks :
    (now : ℕ) (s : ScanTracker)
    → IsValid s
    → Shrinks s (make_room now s) × (Fifo.size (make_room now s).entries < s.max_entries)
unfolding make_room
make_room-Shrinks now s v =
    let r = sweep_front-Shrinks (Fifo.size s.entries) now s v.good in
    let s' = sweep_front (Fifo.size s.entries) now s in
    elim (Bool-cases (leb s'.max_entries (Fifo.size s'.entries))) [
      | inr below ↦ rw below (r, ground (arith, r.same_max))
      | inl full ↦ rw full (elim (Option-cases (Fifo.front s'.entries)) [
        | inl e ↦
            absurd
              (ground (arith, front-none scan_key s'.entries r.good.wf e, r.same_max, v.positive))
        | inr ((i, e), at) ↦
            let (t, one) =
              drop_entry-Shrinks i e s' r.good (front-some scan_key s'.entries i e at) in
            rw at (Shrinks-trans r t, omega (arith, one, r.smaller, v.bounded))
      ])
    ]

with_room-Shrinks :
    (now : ℕ) (s : ScanTracker)
    → IsValid s
    → Shrinks s (with_room now s) × (Fifo.size (with_room now s).entries < s.max_entries)
unfolding with_room
with_room-Shrinks now s v = elim (Bool-cases (leb s.max_entries (Fifo.size s.entries))) [
  | inl full ↦ rw full (make_room-Shrinks now s v)
  | inr room ↦ rw room (Shrinks-refl s v.good, ground arith)
]

-- The tracker is valid and holds the source's entry at the element.
record Holds (s : ScanTracker) (i : ℕ) (e : ScanEntry) : Type 0 where
  valid : IsValid s
  at : lookup i s.entries.order ≡ some e

entry_for-Holds :
    (ip : Bytes) (now : ℕ) (found : Option (ℕ × ScanEntry)) (s : ScanTracker)
    → IsValid s
    → Fifo.find ip s.entries ≡ found
    → Holds (entry_for ip now found s).0 (entry_for ip now found s).1 (entry_for ip now found s).2
unfolding entry_for Fifo.push_back
entry_for-Holds ip now (some (i, e)) s v h = record {
  valid = v;
  at = (find-some scan_key s.entries ip i e v.good.wf h).0;
}
entry_for-Holds ip now none s v h =
    let (r, below) = with_room-Shrinks now s v in
    let f = (with_room now s).entries in
    let absent = r.no_new ip (find-none scan_key s.entries ip v.good.wf h) in
    let e = new_entry ip in
    record {
      valid = record {
        good = record {
          wf = push_back-Wf scan_key f r.good.wf e absent;
          bounded_sets = λ j u p. elim (Find.lookup-push_back_inv scan_key f r.good.wf ip j e u p) [
            | inl (q, x) ↦
                rw (← x) (record { touched_map = tt; ports_map = tt; few_ports = omega arith })
            | inr q ↦ r.good.bounded_sets j u q
          ];
        };
        bounded = omega (arith, size-push_back scan_key f r.good.wf e absent, r.same_max);
        positive = omega (arith, v.positive, r.same_max);
      };
      at = Find.lookup-push_back_self scan_key f r.good.wf ip e;
    }

-- Recording a touch keeps a valid tracker valid: the map and the list agree, no more sources are held
-- than the bound, and no source holds more than sixteen ports.
pub touch_port-IsValid :
    (ip protocol : Bytes) (port now : ℕ) (s : ScanTracker)
    → IsValid s
    → IsValid (touch_port ip protocol port now s).0
unfolding touch_port Fifo.move_to_back Fifo.assign
touch_port-IsValid ip protocol port now s v =
    let h = entry_for-Holds ip now (Fifo.find ip s.entries) s v refl in
    let (s', i, e) = entry_for ip now (Fifo.find ip s.entries) s in
    let e' = touch_entry s'.window protocol port now e in
    let b =
      touch_entry-IsBounded s'.window protocol port now e (h.valid.good.bounded_sets i e h.at) in
    let same : e'.ip ≡ e.ip = unfold touch_entry in refl in
    let f = s'.entries in
    let w = assign-Wf scan_key f h.valid.good.wf i e e' h.at same in
    let f₁ = Fifo.assign i e' f in
    record {
      good = record {
        wf = move_to_back-Wf scan_key f₁ w i e' (lookup-assign scan_key f h.valid.good.wf i e');
        bounded_sets = λ j u p. elim (Find.lookup-move_to_back_inv f₁ i j e' u p) [
          | inl (q, x) ↦ rw (← x) b
          | inr q ↦ elim (lookup-insert_inv i j e' u f.order q) [
            | inl (y, x) ↦ rw (← x) b
            | inr (ne, x) ↦ h.valid.good.bounded_sets j u x
          ]
        ];
      };
      bounded = h.valid.bounded;
      positive = h.valid.positive;
    }

pub cleanup-IsValid : (now : ℕ) (s : ScanTracker) → IsValid s → IsValid (cleanup now s)
unfolding cleanup
cleanup-IsValid now s v = shrunk s _ v (sweep_front-Shrinks (Fifo.size s.entries) now s v.good)

pub new_scan_tracker-IsValid :
    (window threshold max : ℕ) → 0 < max → IsValid (new_scan_tracker window threshold max)
unfolding lookup
new_scan_tracker-IsValid window threshold max h = record {
  good = record { wf = empty-Wf scan_key; bounded_sets = λ i e p. absurd (ground arith) };
  bounded = omega arith;
  positive = h;
}
