-- ===== src/Alert/Pipeline/Rules.antt =====
-- The alerter's tables and queue stay within their bounds on every path of `Submit`.
use ran.Alert.Class.{Class}
use ran.Alert.Cooldown as Cooldown
use ran.Alert.Cooldown.Bounds as CooldownBounds
use ran.Alert.Cooldown.Gate.{allow-IsValid, release-IsValid}
use ran.Alert.Netip.{Netip, parse_bannable_ip}
use ran.Alert.Offenders.Accept as Accept
use ran.Alert.Offenders.Operations as Operations
use ran.Alert.Offenders.Operations.{AcceptMark}
use ran.Alert.Offenders.Revert.{revert-IsValid}
use ran.Alert.Offenders.Shun.{accepted-IsValid}
use ran.Alert.Pipeline.{AlertMsg, Alerter, reported_class, undo, enqueue, submit, fail_batch}
use ran.Alert.Sensor.{Event}
use ran.Base.{
  ℕ, ◌≤◌, Option, some, List, [], ◌∷◌, Bytes, ltb, length, Bool-cases, Option-cases, inl, inr,
  arith, length-append, bytes_eq, if◌then◌else◌,
}

module _ (net : Netip) where
  open net use {to_string}

  -- Both tables are valid, and the queue holds no more than its capacity.
  pub record IsValid (a : Alerter net) : Type 0 where
    pub cooldown_valid : CooldownBounds.IsValid a.cooldown
    pub offenders_valid : Accept.IsValid a.offenders
    pub queue_bounded : length a.queue ≤ a.capacity

  undo-IsValid :
      (key : Bytes) (slot : ℕ) (mark : Option AcceptMark) (now : ℕ) (a : Alerter net)
      → IsValid a
      → IsValid (undo net key slot mark now a)
  unfolding undo
  undo-IsValid key slot mark now a v = record {
    cooldown_valid = release-IsValid key slot a.cooldown v.cooldown_valid;
    offenders_valid = revert-IsValid mark now a.offenders v.offenders_valid;
    queue_bounded = v.queue_bounded;
  }

  enqueue-IsValid :
      (ip : Bytes) (class : Class) (ev : Event) (meta : List (Bytes × Bytes)) (now : ℕ)
      (s : Cooldown.Slot) (a : Alerter net)
      → IsValid a
      → IsValid (enqueue net ip class ev meta now s a).0
  unfolding enqueue
  enqueue-IsValid ip class ev meta now s a v =
      let (t, _, mark) = Operations.accepted net ip class s.win now a.offenders in
      let a' = record a { offenders = t } in
      let v' : IsValid a' = record {
        cooldown_valid = v.cooldown_valid;
        offenders_valid = accepted-IsValid net ip class s.win now a.offenders v.offenders_valid;
        queue_bounded = v.queue_bounded;
      } in
      elim (Bool-cases (ltb (length a.queue) a.capacity)) [
        | inl room ↦ rw room (record {
          cooldown_valid = v'.cooldown_valid;
          offenders_valid = v'.offenders_valid;
          queue_bounded = ground (
            arith,
            length-append a.queue (
                record {
                  ip = ip;
                  protocol = ev.info.protocol;
                  class = class;
                  meta = meta;
                  cooldown_key = s.key;
                  slot = s.slot;
                  mark = mark;
                }
                ∷ []),
          );
        })
        | inr full ↦ rw full (undo-IsValid s.key s.slot mark now a' v')
      ]

  -- On every path of `Submit`, dropped and filtered events included, a cooldown filter and an
  -- offender table that are valid stay so, and a queue within its capacity stays within it.
  pub submit-IsValid :
      (ev : Event) (meta : List (Bytes × Bytes)) (now : ℕ) (a : Alerter net)
      → IsValid a
      → IsValid (submit net ev meta now a).0
  unfolding submit
  submit-IsValid ev meta now a v =
      elim (Option-cases (parse_bannable_ip net a.non_global ev.info.source_ip)) [
        | inl bad ↦ rw (bad, submit) v
        | inr (addr, good) ↦ elim (Bool-cases a.closed) [
          | inl c ↦ rw (good, submit) (simp c v)
          | inr c ↦ elim (Bool-cases (a.ban_on (reported_class net a ev))) [
            | inr off ↦ rw (good, submit) (simp (c, off) v)
            | inl on ↦
                let ip = to_string addr in
                let class = reported_class net a ev in
                let r = Cooldown.allow net ip class now (some a.offenders) a.cooldown in
                let w : IsValid (record a { cooldown = r.0 }) = record {
                  cooldown_valid =
                      allow-IsValid net ip class now (some a.offenders) a.cooldown v.cooldown_valid;
                  offenders_valid = v.offenders_valid;
                  queue_bounded = v.queue_bounded;
                } in
                elim (Option-cases r.1) [
                  | inl held ↦ rw (good, submit) (simp (c, on) (rw (held, submit) w))
                  | inr (s, free) ↦
                      rw (good, submit)
                        (simp (c, on)
                          (rw (free, submit)
                            (enqueue-IsValid ip class ev meta now s (record a { cooldown = r.0 })
                              w)))
                ]
          ]
        ]
      ]

  -- Undoing a failed batch of any messages keeps both tables valid and the queue within its
  -- capacity, where they were so before.
  pub fail_batch-IsValid :
      (ms : List AlertMsg) (now : ℕ) (a : Alerter net)
      → IsValid a
      → IsValid (fail_batch net ms now a)
  unfolding fail_batch
  fail_batch-IsValid [] now a v = v
  fail_batch-IsValid (m ∷ ms) now a v = fail_batch-IsValid ms now _ (record {
    cooldown_valid = released m;
    offenders_valid = revert-IsValid m.mark now a.offenders v.offenders_valid;
    queue_bounded = v.queue_bounded;
  })
    where
      released :
          (m : AlertMsg)
          → CooldownBounds.IsValid (
              if bytes_eq m.cooldown_key []
              then a.cooldown
              else Cooldown.release m.cooldown_key m.slot a.cooldown)
      released m = elim (Bool-cases (bytes_eq m.cooldown_key [])) [
        | inl e ↦ rw e v.cooldown_valid
        | inr e ↦ rw e (release-IsValid m.cooldown_key m.slot a.cooldown v.cooldown_valid)
      ]
