-- ===== src/Alert/Offenders/Bounds.antt =====
-- The table stays well formed while entries are closed and removed to make room.
use ran.Alert.Offenders.Entry.{Offender, close_window}
use ran.Alert.Offenders.Table.{OffenderTable, Work, without, including, end_window, drop_entry}
use ran.Base.{
  ℕ, suc, ◌≤◌, ◌≢◌, Bool, true, false, none, some, List, [], ◌∷◌, Bytes, ◌≡◌, refl, ◌∙◌, arith,
  Bool-cases, inl, inr, ◌==◌, lookup, bytes_Eq, nat_eq, length, if◌then◌else◌,
}
use ran.Fifo
use ran.Fifo.{Fifo}
use ran.Fifo.Wf.Assoc.{lookup-insert_inv, lookup-erase_inv}
use ran.Fifo.Wf.{Wf, absent-remove, remove-Wf, assign-Wf, size-remove, lookup-assign}

abbrev pub offender_key : Offender → Bytes
offender_key e = e.ip

unfoldable pub has : ℕ → List ℕ → Bool
has i [] = false
has i (j ∷ l) = if j == i then true else has i l

pub has-without_ne : (i j : ℕ) (l : List ℕ) → i ≢ j → has j (without i l) ≡ has j l
unfolding has without
has-without_ne i j [] ne = refl
has-without_ne i j (k ∷ l) ne = ground (arith, has-without_ne i j l ne)

pub has-including : (i j : ℕ) (l : List ℕ) → has j l ≡ true → has j (including i l) ≡ true
unfolding has including
has-including i j [] h = absurd (ground arith)
has-including i j (k ∷ l) h = ground (arith, has-including i j l)

pub has-including_self : (i : ℕ) (l : List ℕ) → has i (including i l) ≡ true
unfolding has including
has-including_self i [] = ground arith
has-including_self i (k ∷ l) = ground (arith, has-including_self i l)

pub length-pos_of_has : (i : ℕ) (l : List ℕ) → has i l ≡ true → (length l == 0) ≡ false
unfolding has
length-pos_of_has i [] h = absurd (ground arith)
length-pos_of_has i (j ∷ l) h = ground arith

-- The map and the list agree, and every entry with an open window is in the active set.
pub record IsGood (t : OffenderTable) : Type 0 where
  pub wf : Wf offender_key t.entries
  pub flagged :
      (i : ℕ) (e : Offender)
      → lookup i t.entries.order ≡ some e
      → e.active ≡ true
      → has i t.active ≡ true

-- What closing a window and removing an entry leave alone.
pub record Shrinks (t t' : OffenderTable) : Type 0 where
  pub good : IsGood t'
  pub smaller : Fifo.size t'.entries ≤ Fifo.size t.entries
  pub same_max : t'.max ≡ t.max
  pub same_shun : t'.shun ≡ t.shun
  pub no_new : (k : Bytes) → lookup k t.entries.index ≡ none → lookup k t'.entries.index ≡ none

pub Shrinks-refl : (t : OffenderTable) → IsGood t → Shrinks t t
Shrinks-refl t g = record {
  good = g;
  smaller = omega arith;
  same_max = refl;
  same_shun = refl;
  no_new = λ k a. a;
}

pub Shrinks-trans : {t t' t'' : OffenderTable} → Shrinks t t' → Shrinks t' t'' → Shrinks t t''
Shrinks-trans s r = record {
  good = r.good;
  smaller = omega arith;
  same_max = omega arith;
  same_shun = r.same_shun ∙ s.same_shun;
  no_new = λ k a. r.no_new k (s.no_new k a);
}

module _ (i : ℕ) (e : Offender) (now : ℕ) (w : Work) (g : IsGood w.table)
    (at : lookup i w.table.entries.order ≡ some e) where
  pub end_window-Shrinks : Shrinks w.table (end_window i e now w).table
  unfolding end_window Fifo.assign
  end_window-Shrinks = record {
    good = record {
      wf = assign-Wf offender_key w.table.entries g.wf i e (close_window e) at refl;
      flagged = λ j u h a. elim (lookup-insert_inv i j (close_window e) u w.table.entries.order h) [
        | inl (p, q) ↦ absurd (ground arith)
        | inr (p, q) ↦ has-without_ne i j w.table.active p ∙ g.flagged j u q a
      ];
    };
    smaller = omega arith;
    same_max = refl;
    same_shun = refl;
    no_new = λ k a. a;
  }

  pub end_window-closed :
      lookup i (end_window i e now w).table.entries.order ≡ some (close_window e)
  unfolding end_window
  end_window-closed = lookup-assign offender_key w.table.entries g.wf i (close_window e)

remove-Shrinks :
    (i : ℕ) (e : Offender) (t : OffenderTable)
    → IsGood t
    → lookup i t.entries.order ≡ some e
    → Shrinks t (record t { entries = Fifo.remove e.ip i t.entries })
      × (suc (Fifo.size (Fifo.remove e.ip i t.entries)) ≡ Fifo.size t.entries)
unfolding Fifo.remove
remove-Shrinks i e t g at =
    let s = size-remove offender_key t.entries g.wf i e at in
    (
      record {
        good = record {
          wf = remove-Wf offender_key t.entries g.wf i e at;
          flagged = λ j u h a. g.flagged j u (lookup-erase_inv i j u t.entries.order h).1 a;
        };
        smaller = omega (arith, s);
        same_max = refl;
        same_shun = refl;
        no_new = λ k a. absent-remove k e.ip i t.entries a;
      },
      s,
    )

pub drop_entry-Shrinks :
    (i : ℕ) (e : Offender) (now : ℕ) (w : Work)
    → IsGood w.table
    → lookup i w.table.entries.order ≡ some e
    → Shrinks w.table (drop_entry i e now w).table
      × (suc (Fifo.size (drop_entry i e now w).table.entries) ≡ Fifo.size w.table.entries)
unfolding drop_entry
drop_entry-Shrinks i e now w g at = elim (Bool-cases e.active) [
  | inr idle ↦ rw idle (remove-Shrinks i e w.table g at)
  | inl open_ ↦ rw open_ (
      let s = end_window-Shrinks i e now w g at in
      let (r, n) =
        remove-Shrinks i (close_window e) (end_window i e now w).table s.good
          (end_window-closed i e now w g at) in
      (Shrinks-trans s r, unfold end_window Fifo.assign in n))
]
