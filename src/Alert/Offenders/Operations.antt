-- ===== src/Alert/Offenders/Operations.antt =====
-- What the alerter and the accept path call: `windowFor`,
-- `accepted` and `shunned`.
use ran.Alert.Class.{Class, probe}
use ran.Alert.Netip.{Netip, normalize_ip}
use ran.Alert.Offenders.Entry.{
  count_at, set_count, Offender, new_offender, class_index, ShunSummary,
}
use ran.Alert.Offenders.Table.{
  OffenderTable, Work, including, put, expired, end_window, drop_entry, make_room,
}
use ran.Base.{
  ℕ, ◌+◌, Bool, true, false, not, ◌&&◌, ◌||◌, Option, none, some, List, [], Bytes, length, ltb, leb,
  ◌==◌, if◌then◌else◌,
}
use ran.Fifo
use ran.Fifo.{Fifo}

-- `class == ClassProbe`
unfoldable pub is_probe : Class → Bool
is_probe probe = true
is_probe _ = false

-- `acceptMark`; a mark that reverts nothing is `none`, and `win` is 0 if no window was opened.
pub record AcceptMark : Type 0 where
  pub key : Bytes
  pub idx : ℕ
  pub win : ℕ

-- Work on the table with the id of the window that was opened, 0 for none.
abbrev Opened : Type 0
Opened = Work × ℕ

-- the end of `acceptLocked`, from `until := now.Add(window)`
unfoldable pub open_window : ℕ → Offender → ℕ → ℕ → Work → Opened
unfolding end_window including
open_window i e window now w =
    let until = now + window in
    if e.active && ltb now e.shun_until
    then (if ltb e.shun_until until
        then (let id = w.table.next_win + 1 in
            (
              record w {
                table = record (put i (record e { shun_until = until; win_id = id }) w.table) {
                  next_win = id;
                };
              },
              0,
            ))
        else (w, 0))
    else (let w' = if e.active then end_window i e now w else w in
        let id = w'.table.next_win + 1 in
        let e' = record e {
          shun_start = now;
          shun_until = until;
          win_id = id;
          active = true;
          suppressed = if e.active then 0 else e.suppressed;
          protos = if e.active then [] else e.protos;
        } in
        (
          record w' {
            table = record (put i e' w'.table) {
              next_win = id;
              active = including i w'.table.active;
            };
          },
          id,
        ))

-- the table with room for one more entry
unfoldable pub with_room : ℕ → Work → Work
unfolding make_room
with_room now w = if leb w.table.max (Fifo.size w.table.entries) then make_room now w else w

-- the middle of `acceptLocked`: the entry's number and value, made or moved to the back
unfoldable pub entry_for : Bytes → ℕ → Option (ℕ × Offender) → Work → Work × ℕ × Offender
unfolding with_room
entry_for key now (some (i, e)) w =
    (record w { table = record w.table { entries = Fifo.move_to_back i e w.table.entries } }, i, e)
entry_for key now none w =
    let w' = with_room now w in
    let e = new_offender key in
    (
      record w' { table = record w'.table { entries = Fifo.push_back key e w'.table.entries } },
      w'.table.entries.next,
      e,
    )

-- the head of `acceptLocked`: the live entry of the key, an expired one removed
unfoldable pub live_entry : Bytes → ℕ → Work → Work × Option (ℕ × Offender)
unfolding expired drop_entry
live_entry key now w = elim (Fifo.find key w.table.entries) [
  | none ↦ (w, none)
  | some (i, e) ↦ if expired w.table e now then (drop_entry i e now w, none) else (w, some (i, e))
]

unfoldable pub accept_locked : Bytes → ℕ → Class → ℕ → ℕ → Work → Opened
unfolding live_entry entry_for open_window is_probe
accept_locked key idx class window now w =
    let (w₁, found) = live_entry key now w in
    let (w₂, i, e) = entry_for key now found w₁ in
    let e' = record e { counts = set_count idx (count_at idx e.counts + 1) e.counts; last = now } in
    let w₃ = record w₂ { table = put i e' w₂.table } in
    if not w₃.table.shun || is_probe class || 0 == window
    then (w₃, 0)
    else open_window i e' window now w₃

module _ (net : Netip) where
  -- the table, the summaries to log, and the mark
  unfoldable pub accepted :
      Bytes → Class → ℕ → ℕ → OffenderTable → OffenderTable × List ShunSummary × Option AcceptMark
  unfolding normalize_ip class_index accept_locked
  accepted ip class window now t = elim (normalize_ip net ip) [
    | none ↦ (t, [], none)
    | some key ↦ elim (class_index class) [
      | none ↦ (t, [], none)
      | some idx ↦
          let (w, id) = accept_locked key idx class window now (record { table = t; sums = [] }) in
          (w.table, w.sums, some (record { key = key; idx = idx; win = id }))
    ]
  ]

  -- `windowFor`
  unfoldable pub window_for : Bytes → Class → ℕ → ℕ → OffenderTable → ℕ
  unfolding normalize_ip class_index expired
  window_for ip class base now t =
      if 0 == base || 0 == t.repeat then base else elim (normalize_ip net ip) [
        | none ↦ base
        | some key ↦ elim (class_index class) [
          | none ↦ base
          | some idx ↦
              let count : ℕ = elim (Fifo.find key t.entries) [
                | none ↦ 0
                | some (_, e) ↦ if expired t e now then 0 else count_at idx e.counts
              ] in
              if leb t.repeat_after (count + 1) then t.repeat else base
        ]
      ]

  unfoldable pub shunned : Bytes → ℕ → OffenderTable → OffenderTable × List ShunSummary × Bool
  unfolding normalize_ip end_window
  shunned ip now t =
      if not t.shun || length t.active == 0 then (t, [], false) else elim (normalize_ip net ip) [
        | none ↦ (t, [], false)
        | some key ↦ elim (Fifo.find key t.entries) [
          | none ↦ (t, [], false)
          | some (i, e) ↦
              if not e.active
              then (t, [], false)
              else if ltb now e.shun_until
              then (t, [], true)
              else (let w = end_window i e now (record { table = t; sums = [] }) in
                  (w.table, w.sums, false))
        ]
      ]
