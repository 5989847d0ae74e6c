-- ===== src/Alert/Pipeline.antt =====
-- internal/alert/crowdsec.go, `Submit` and `failBatch`: from an event to the queue of the batch
-- worker, through the ban filter, the cooldown and the offender table. The channel is a list
-- with a capacity; the metrics and the log are left out.
pub mod Rules
use ran.Alert.Class.{Class, probe, attack, scan, classify, SessionInfo}
use ran.Alert.Cooldown as Cooldown
use ran.Alert.Cooldown.{CooldownFilter}
use ran.Alert.Netip.{Netip, parse_bannable_ip}
use ran.Alert.Offenders.Operations as Operations
use ran.Alert.Offenders.Operations.{AcceptMark}
use ran.Alert.Offenders.Table.{OffenderTable}
use ran.Alert.Offenders.Upkeep as Upkeep
use ran.Alert.Sensor.{Event}
use ran.Base.{
  ℕ, Bool, true, false, not, Option, none, some, List, [], ◌∷◌, ◌++◌, Bytes, ltb, length,
  if◌then◌else◌, bytes_eq,
}

-- `alertMsg`, without its encoding
pub record AlertMsg : Type 0 where
  pub ip : Bytes
  pub protocol : Bytes
  pub class : Class
  pub meta : List (Bytes × Bytes)
  pub cooldown_key : Bytes
  pub slot : ℕ
  pub mark : Option AcceptMark

-- `banOn` and the class sets
abbrev pub is_scan : Class → Bool
is_scan Class.scan = true
is_scan _ = false

pub data Stage : Type 0 where
  invalid closed filtered cooldown queued dropped : Stage

module _ (net : Netip) where
  open net use {Prefix, to_string}

  pub record Alerter : Type 0 where
    pub cooldown : CooldownFilter
    pub offenders : OffenderTable
    pub queue : List AlertMsg
    pub capacity : ℕ
    pub closed : Bool
    pub ban_on : Class → Bool
    pub non_global : List Prefix

  -- the class that is reported, from the session's own if scans are not
  unfoldable pub reported_class : Alerter → Event → Class
  reported_class a ev =
      if is_scan ev.class
      then (if not (a.ban_on Class.scan) then classify ev.info else ev.class)
      else ev.class

  -- `a.cooldown.Release(key, slot); a.offenders.revert(mark)`
  unfoldable pub undo : Bytes → ℕ → Option AcceptMark → ℕ → Alerter → Alerter
  undo key slot mark now a = record a {
    cooldown = Cooldown.release key slot a.cooldown;
    offenders = (Upkeep.revert mark now a.offenders).0;
  }

  -- the end of `Submit`, with the slot taken
  unfoldable pub enqueue :
      Bytes → Class → Event → List (Bytes × Bytes) → ℕ → Cooldown.Slot → Alerter → Alerter × Stage
  enqueue ip class ev meta now s a =
      let (t, _, mark) = Operations.accepted net ip class s.win now a.offenders in
      let a' = record a { offenders = t } in
      if ltb (length a'.queue) a'.capacity
      then (let msg : AlertMsg = record {
        ip = ip;
        protocol = ev.info.protocol;
        class = class;
        meta = meta;
        cooldown_key = s.key;
        slot = s.slot;
        mark = mark;
      } in
          (record a' { queue = a'.queue ++ msg ∷ [] }, queued))
      else (undo s.key s.slot mark now a', dropped)

  -- `Submit` of an event whose merged meta is `meta`
  unfoldable pub submit : Event → List (Bytes × Bytes) → ℕ → Alerter → Alerter × Stage
  submit ev meta now a = elim (parse_bannable_ip net a.non_global ev.info.source_ip) [
    | none ↦ (a, invalid)
    | some addr ↦
        let ip = to_string addr in
        let class = reported_class a ev in
        if a.closed
        then (a, Stage.closed)
        else if not (a.ban_on class)
        then (a, filtered)
        else (let (d, taken) = Cooldown.allow net ip class now (some a.offenders) a.cooldown in
            elim taken [
              | none ↦ (record a { cooldown = d }, Stage.cooldown)
              | some s ↦ enqueue ip class ev meta now s (record a { cooldown = d })
            ])
  ]

  -- `failBatch`
  unfoldable pub fail_batch : List AlertMsg → ℕ → Alerter → Alerter
  fail_batch [] now a = a
  fail_batch (m ∷ ms) now a =
      let t = (Upkeep.revert m.mark now a.offenders).0 in
      fail_batch ms now (record a {
        offenders = t;
        cooldown =
            if bytes_eq m.cooldown_key []
            then a.cooldown
            else Cooldown.release m.cooldown_key m.slot a.cooldown;
      })
