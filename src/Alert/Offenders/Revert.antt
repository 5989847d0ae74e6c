-- ===== src/Alert/Offenders/Revert.antt =====
-- Undoing an accepted alert keeps the table valid.
use ran.Alert.Offenders.Accept.{IsValid, Holds, shrunk, put-Holds, end_window-Holds}
use ran.Alert.Offenders.Bounds.{offender_key, drop_entry-Shrinks}
use ran.Alert.Offenders.Entry.{Offender, count_at, set_count, is_zero, close_window}
use ran.Alert.Offenders.Operations.{AcceptMark}
use ran.Alert.Offenders.Table.{OffenderTable, Work, put, end_window, drop_entry}
use ran.Alert.Offenders.Upkeep.{revert_entry, revert}
use ran.Base.{
  ℕ, ◌-◌, not, ◌&&◌, Option, none, some, [], Bytes, refl, Bool-cases, Option-cases, inl, inr, ◌==◌,
}
use ran.Fifo
use ran.Fifo.Wf.{find-some}

dropped-IsValid :
    (key : Bytes) (i now : ℕ) (e : Offender) (t : OffenderTable) (w : Work)
    → Holds key t w.table i e
    → IsValid (drop_entry i e now w).table
dropped-IsValid key i now e t w h =
    shrunk w.table (drop_entry i e now w).table h.valid
      (drop_entry-Shrinks i e now w h.valid.good h.at).0

revert_entry-IsValid :
    (m : AcceptMark) (i : ℕ) (e : Offender) (now : ℕ) (w : Work)
    → Holds m.key w.table w.table i e
    → IsValid (revert_entry m i e now w).table
unfolding revert_entry
revert_entry-IsValid m i e now w h =
    let e₁ = record e { counts = set_count m.idx (count_at m.idx e.counts - 1) e.counts } in
    let w₁ = record w { table = put i e₁ w.table } in
    let h₁ = put-Holds m.key w.table w.table i e e₁ h refl (λ a. h.valid.good.flagged i e h.at a) in
    elim (Bool-cases (not (m.win == 0) && e₁.active && e₁.win_id == m.win)) [
      | inl closes ↦
          let h₂ = end_window-Holds m.key i now e₁ w.table w₁ h₁ in
          elim (Bool-cases (is_zero e₁.counts)) [
            | inl z ↦ rw closes (
                rw z (
                  dropped-IsValid m.key i now (close_window e₁) w.table (end_window i e₁ now w₁)
                    h₂))
            | inr z ↦ rw closes (rw z h₂.valid)
          ]
      | inr stays ↦ elim (Bool-cases (not e₁.active && is_zero e₁.counts)) [
        | inl z ↦ rw stays (rw z (dropped-IsValid m.key i now e₁ w.table w₁ h₁))
        | inr z ↦ rw stays (rw z h₁.valid)
      ]
    ]

-- Reverting any mark at any time keeps a valid table valid.
pub revert-IsValid :
    (m : Option AcceptMark) (now : ℕ) (t : OffenderTable) → IsValid t → IsValid (revert m now t).0
unfolding revert
revert-IsValid none now t v = v
revert-IsValid (some m) now t v = elim (Option-cases (Fifo.find m.key t.entries)) [
  | inl e ↦ rw (e, revert) v
  | inr ((i, e), at) ↦
      let (x, k, ix) = find-some offender_key t.entries m.key i e v.good.wf at in
      rw (at, revert)
        (revert_entry-IsValid m i e now (record { table = t; sums = [] })
          (record { valid = v; at = x; ix = ix; ip = k; same_max = refl; same_shun = refl }))
]
