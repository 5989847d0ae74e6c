-- ===== src/Alert/Offenders/Upkeep.antt =====
-- `revert`, `rejected`, `sweep` and `flush`.
use ran.Alert.Netip.{Netip, normalize_ip}
use ran.Alert.Offenders.Entry.{count_at, set_count, is_zero, Offender, ShunSummary, close_window}
use ran.Alert.Offenders.Operations.{AcceptMark}
use ran.Alert.Offenders.Table.{
  OffenderTable, Work, including, put, end_window, drop_entry, sweep_front,
}
use ran.Base.{
  ℕ, ◌+◌, ◌-◌, Bool, true, false, not, ◌&&◌, Option, none, some, List, [], ◌∷◌, Bytes, length,
  bytes_eq, ltb, ◌==◌, if◌then◌else◌,
}
use ran.Fifo

-- `revert` with the entry at hand: the counter, then the window, then the entry
unfoldable pub revert_entry : AcceptMark → ℕ → Offender → ℕ → Work → Work
unfolding end_window drop_entry
revert_entry m i e now w =
    let n = count_at m.idx e.counts in
    let e₁ = record e { counts = set_count m.idx (n - 1) e.counts } in
    let w₁ = record w { table = put i e₁ w.table } in
    let closes = not (m.win == 0) && e₁.active && e₁.win_id == m.win in
    let e₂ = if closes then close_window e₁ else e₁ in
    let w₂ = if closes then end_window i e₁ now w₁ else w₁ in
    if not e₂.active && is_zero e₂.counts then drop_entry i e₂ now w₂ else w₂

unfoldable pub revert : Option AcceptMark → ℕ → OffenderTable → OffenderTable × List ShunSummary
unfolding revert_entry
revert none now t = (t, [])
revert (some m) now t = elim (Fifo.find m.key t.entries) [
  | none ↦ (t, [])
  | some (i, e) ↦
      let w = revert_entry m i e now (record { table = t; sums = [] }) in (w.table, w.sums)
]

abbrev pub max_shun_protocols : ℕ
max_shun_protocols = 8

unfoldable pub seen : Bytes → List Bytes → Bool
seen p [] = false
seen p (q ∷ l) = if bytes_eq q p then true else seen p l

-- the counters of one refused connection
abbrev pub count_rejected : Bytes → Offender → Offender
count_rejected protocol e = record e {
  suppressed = e.suppressed + 1;
  protos =
      if not (seen protocol e.protos) && ltb (length e.protos) max_shun_protocols
      then protocol ∷ e.protos
      else e.protos;
}

module _ (net : Netip) where
  unfoldable pub rejected : Bytes → Bytes → OffenderTable → OffenderTable
  unfolding normalize_ip seen
  rejected ip protocol t = elim (normalize_ip net ip) [
    | none ↦ t
    | some key ↦ elim (Fifo.find key t.entries) [
      | none ↦ t
      | some (i, e) ↦ if not e.active then t else put i (count_rejected protocol e) t
    ]
  ]

-- the loop of `sweep` over the active windows; the map's order is the list's
unfoldable pub end_due : List ℕ → ℕ → Work → Work
unfolding end_window
end_due [] now w = w
end_due (i ∷ l) now w = end_due l now (elim (Fifo.value i w.table.entries) [
  | none ↦ w
  | some e ↦ if not (ltb now e.shun_until) then end_window i e now w else w
])

unfoldable pub sweep : ℕ → OffenderTable → OffenderTable × List ShunSummary
unfolding end_due sweep_front
sweep now t =
    let w = end_due t.active now (record { table = t; sums = [] }) in
    let w' = sweep_front (Fifo.size w.table.entries) now w in (w'.table, w'.sums)

unfoldable pub end_window_keep : ℕ → Offender → ℕ → Work → Work
unfolding end_window including
end_window_keep i e now w =
    let until = e.shun_until in
    let w' = end_window i e now w in
    let e' = record (close_window e) { shun_start = now; shun_until = until; active = true } in
    record w' { table = record (put i e' w'.table) { active = including i w'.table.active } }

-- the loop of `flush`
unfoldable pub flush_open : List ℕ → ℕ → Work → Work
unfolding end_window_keep
flush_open [] now w = w
flush_open (i ∷ l) now w = flush_open l now (elim (Fifo.value i w.table.entries) [
  | none ↦ w
  | some e ↦ if ltb 0 e.suppressed then end_window_keep i e now w else w
])

unfoldable pub flush : ℕ → OffenderTable → OffenderTable × List ShunSummary
unfolding flush_open
flush now t = let w = flush_open t.active now (record { table = t; sums = [] }) in (w.table, w.sums)
