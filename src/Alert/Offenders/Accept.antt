-- ===== src/Alert/Offenders/Accept.antt =====
-- What `accepted` does to the table.
use ran.Alert.Offenders.Bounds.{
  offender_key, has, has-including, has-including_self, IsGood, Shrinks, Shrinks-refl,
  end_window-Shrinks, end_window-closed,
}
use ran.Alert.Offenders.Entry.{Offender, new_offender, close_window}
use ran.Alert.Offenders.Operations.{open_window, entry_for, with_room}
use ran.Alert.Offenders.Room.{make_room-Shrinks}
use ran.Alert.Offenders.Table.{OffenderTable, Work, including, put, end_window}
use ran.Base.{
  ℕ, ◌+◌, ◌≤◌, ◌<◌, true, ◌&&◌, none, some, List, Bytes, ◌≡◌, refl, ◌∙◌, arith, Bool-cases, inl,
  inr, leb, ltb, lookup, bytes_Eq, nat_eq,
}
use ran.Fifo
use ran.Fifo.{Fifo}
use ran.Fifo.Find
use ran.Fifo.Wf.Assoc.{lookup-insert_inv}
use ran.Fifo.Wf.{find-some, assign-Wf, lookup-assign, move_to_back-Wf, push_back-Wf, size-push_back}

pub record IsValid (t : OffenderTable) : Type 0 where
  pub good : IsGood t
  pub bounded : Fifo.size t.entries ≤ t.max
  pub positive : 0 < t.max

-- The table is valid and holds the entry of the key at the element.
pub record Holds (key : Bytes) (t t' : OffenderTable) (i : ℕ) (e : Offender) : Type 0 where
  pub valid : IsValid t'
  pub at : lookup i t'.entries.order ≡ some e
  pub ix : lookup key t'.entries.index ≡ some i
  pub ip : e.ip ≡ key
  pub same_max : t'.max ≡ t.max
  pub same_shun : t'.shun ≡ t.shun

pub shrunk : (t t' : OffenderTable) → IsValid t → Shrinks t t' → IsValid t'
shrunk t t' v s = record {
  good = s.good;
  bounded = omega (arith, s.smaller, s.same_max, v.bounded);
  positive = omega (arith, v.positive, s.same_max);
}

-- A write of an entry with the same key, whose open window is in the active set.
pub put-Holds :
    (key : Bytes) (t t' : OffenderTable) (i : ℕ) (e u : Offender)
    → Holds key t t' i e
    → u.ip ≡ e.ip
    → (u.active ≡ true → has i t'.active ≡ true)
    → Holds key t (put i u t') i u
unfolding Fifo.assign
put-Holds key t t' i e u h same flag = record {
  valid = record {
    good = record {
      wf = assign-Wf offender_key t'.entries h.valid.good.wf i e u h.at same;
      flagged = λ j x p a. elim (lookup-insert_inv i j u x t'.entries.order p) [
        | inl (q, r) ↦ rw (← q) (flag (ground arith))
        | inr (q, r) ↦ h.valid.good.flagged j x r a
      ];
    };
    bounded = h.valid.bounded;
    positive = h.valid.positive;
  };
  at = lookup-assign offender_key t'.entries h.valid.good.wf i u;
  ix = h.ix;
  ip = same ∙ h.ip;
  same_max = h.same_max;
  same_shun = h.same_shun;
}

-- An entry that was found moves to the back.
pub entry_for-Holds_old :
    (key : Bytes) (now i : ℕ) (e : Offender) (w : Work)
    → IsValid w.table
    → Fifo.find key w.table.entries ≡ some (i, e)
    → Holds key w.table (entry_for key now (some (i, e)) w).0.table i e
unfolding entry_for Fifo.move_to_back
entry_for-Holds_old key now i e w v h =
    let f = w.table.entries in
    let (at, k, ix) = find-some offender_key f key i e v.good.wf h in
    record {
      valid = record {
        good = record {
          wf = move_to_back-Wf offender_key f v.good.wf i e at;
          flagged = λ j u p a.
              v.good.flagged j u
                (elim (Find.lookup-move_to_back_inv f i j e u p) [
                  | inl (q, r) ↦ rw (← q, ← r) at
                  | inr q ↦ q
                ])
                a;
        };
        bounded = v.bounded;
        positive = v.positive;
      };
      at = Find.lookup-move_to_back_self f i e;
      ix = ix;
      ip = k;
      same_max = refl;
      same_shun = refl;
    }

push_back-Holds :
    (key : Bytes) (t t' : OffenderTable)
    → 0 < t.max
    → Shrinks t t'
    → Fifo.size t'.entries < t.max
    → lookup key t.entries.index ≡ none
    → Holds key t
        (record t' { entries = Fifo.push_back key (new_offender key) t'.entries })
        t'.entries.next
        (new_offender key)
unfolding Fifo.push_back
push_back-Holds key t t' pos s below absent =
    let f = t'.entries in
    let e = new_offender key in
    let new = s.no_new key absent in
    record {
      valid = record {
        good = record {
          wf = push_back-Wf offender_key f s.good.wf e new;
          flagged = λ j u p a.
              elim (Find.lookup-push_back_inv offender_key f s.good.wf key j e u p) [
                | inl (q, r) ↦ absurd (ground arith)
                | inr q ↦ s.good.flagged j u q a
              ];
        };
        bounded = omega (arith, size-push_back offender_key f s.good.wf e new, s.same_max);
        positive = omega (arith, s.same_max);
      };
      at = Find.lookup-push_back_self offender_key f s.good.wf key e;
      ix = Find.index-push_back_self f key e;
      ip = refl;
      same_max = s.same_max;
      same_shun = s.same_shun;
    }

with_room-Shrinks :
    (now : ℕ) (w : Work)
    → IsValid w.table
    → Shrinks w.table (with_room now w).table
      × (Fifo.size (with_room now w).table.entries < w.table.max)
unfolding with_room
with_room-Shrinks now w v = elim (Bool-cases (leb w.table.max (Fifo.size w.table.entries))) [
  | inl full ↦ rw full (make_room-Shrinks now w v.good v.bounded v.positive)
  | inr room ↦ rw room (Shrinks-refl w.table v.good, ground arith)
]

pub entry_for-Holds_new :
    (key : Bytes) (now : ℕ) (w : Work)
    → IsValid w.table
    → lookup key w.table.entries.index ≡ none
    → Holds key w.table
        (entry_for key now none w).0.table
        (entry_for key now none w).1
        (entry_for key now none w).2
unfolding entry_for
entry_for-Holds_new key now w v absent =
    let (s, below) = with_room-Shrinks now w v in
    push_back-Holds key w.table (with_room now w).table v.positive s below absent

-- The active set may grow.
pub with_active :
    (key : Bytes) (t t' : OffenderTable) (i n : ℕ) (e : Offender) (l : List ℕ)
    → Holds key t t' i e
    → ((j : ℕ) → has j t'.active ≡ true → has j l ≡ true)
    → Holds key t (record t' { next_win = n; active = l }) i e
with_active key t t' i n e l h grows = record {
  valid = record {
    good = record {
      wf = h.valid.good.wf;
      flagged = λ j x p a. grows j (h.valid.good.flagged j x p a);
    };
    bounded = h.valid.bounded;
    positive = h.valid.positive;
  };
  at = h.at;
  ix = h.ix;
  ip = h.ip;
  same_max = h.same_max;
  same_shun = h.same_shun;
}

pub end_window-Holds :
    (key : Bytes) (i now : ℕ) (e : Offender) (t : OffenderTable) (w : Work)
    → Holds key t w.table i e
    → Holds key t (end_window i e now w).table i (close_window e)
end_window-Holds key i now e t w h =
    let s = end_window-Shrinks i e now w h.valid.good h.at in
    record {
      valid = shrunk w.table (end_window i e now w).table h.valid s;
      at = end_window-closed i e now w h.valid.good h.at;
      ix = unfold end_window Fifo.assign in h.ix;
      ip = h.ip;
      same_max = s.same_max ∙ h.same_max;
      same_shun = s.same_shun ∙ h.same_shun;
    }

-- Opening or extending the window keeps the table valid, and the entry is then active until the
-- end of the new window at least.
pub record Open (key : Bytes) (until : ℕ) (t t' : OffenderTable) : Type 0 where
  pub element : ℕ
  pub entry : Offender
  pub holds : Holds key t t' element entry
  pub active : entry.active ≡ true
  pub lasts : until ≤ entry.shun_until

-- A window that starts now, for an entry whose table has none.
fresh-Open :
    (key : Bytes) (i n : ℕ) (e u : Offender) (t t' : OffenderTable)
    → Holds key t t' i e
    → u.ip ≡ e.ip
    → u.active ≡ true
    → Open key u.shun_until t (record (put i u t') { next_win = n; active = including i t'.active })
fresh-Open key i n e u t t' h same act =
    let grown =
      with_active key t t' i n e (including i t'.active) h (λ j p. has-including i j t'.active p) in
    record {
      element = i;
      entry = u;
      holds =
          put-Holds key t (record t' { next_win = n; active = including i t'.active }) i e u grown
            same (λ _. has-including_self i t'.active);
      active = act;
      lasts = omega arith;
    }

pub open_window-Open :
    (key : Bytes) (i window now : ℕ) (e : Offender) (t : OffenderTable) (w : Work)
    → Holds key t w.table i e
    → Open key (now + window) t (open_window i e window now w).0.table
unfolding open_window
open_window-Open key i window now e t w h = elim (Bool-cases (e.active && ltb now e.shun_until)) [
  | inl running ↦ elim (Bool-cases (ltb e.shun_until (now + window))) [
    | inl longer ↦
        let id = w.table.next_win + 1 in
        let u = record e { shun_until = now + window; win_id = id } in
        let flag : has i w.table.active ≡ true = h.valid.good.flagged i e h.at (ground arith) in
        rw running (
          rw longer (record {
            element = i;
            entry = u;
            holds =
                with_active key t (put i u w.table) i id u w.table.active
                  (put-Holds key t w.table i e u h refl (λ _. flag)) (λ j p. p);
            active = ground arith;
            lasts = omega arith;
          }))
    | inr within ↦ rw running (
        rw within (record {
          element = i;
          entry = e;
          holds = h;
          active = ground arith;
          lasts = ground arith;
        }))
  ]
  | inr over ↦ elim (Bool-cases e.active) [
    | inl ended ↦ rw over (
        rw ended (
          fresh-Open key i _ (close_window e) _ t (end_window i e now w).table
            (end_window-Holds key i now e t w h) refl refl))
    | inr idle ↦ rw over (rw idle (fresh-Open key i _ e _ t w.table h refl refl))
  ]
]
