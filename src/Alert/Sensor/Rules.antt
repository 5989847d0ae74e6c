-- ===== src/Alert/Sensor/Rules.antt =====
-- Who is reported, and as what; and that the sensor's tables stay valid.
use ran.Alert.Class.{Class, unset, rank, classify, SessionInfo, Transport, tcp, udp}
use ran.Alert.Netip.{Netip, parse_bannable_ip}
use ran.Alert.Offenders.Operations.{is_probe}
use ran.Alert.Probes.Conserve
use ran.Alert.Probes.Conserve.{record_probe-IsValid}
use ran.Alert.Scan.Bounds as ScanBounds
use ran.Alert.Scan.Bounds.{touch_port-IsValid}
use ran.Alert.Sensor.{
  Event, is_tcp, Sensor, ignored, touch_scan, classify_session, alert, session_end,
}
use ran.Base.{
  ℕ, ◌<◌, true, false, not, ◌&&◌, ◌||◌, List, [], ◌∷◌, Bytes, ltb, ◌≡◌, ◌⊎◌, refl, inl, inr,
  Bool-cases, Option-cases, All, ltb→lt,
}

module _ (net : Netip) where
  open net use {to_string}

  classify_session-cases :
      (info : SessionInfo) (now : ℕ) (s : Sensor net)
      → ((classify_session net info now s).1 ≡ Class.scan)
        ⊎ ((classify_session net info now s).1 ≡ classify info)
  unfolding classify_session
  classify_session-cases info now s = elim (Bool-cases (touch_scan net info now s).1) [
    | inl hit ↦ inl (rw hit)
    | inr miss ↦ inr (rw miss)
  ]

  is_tcp_cases :
      (t : Transport) → ((t ≡ tcp) × (is_tcp t ≡ true)) ⊎ ((t ≡ udp) × (is_tcp t ≡ false))
  is_tcp_cases tcp = inl (refl, refl)
  is_tcp_cases udp = inr (refl, refl)

  -- An alert of a TCP session from a source that is not ignored submits exactly one event. Its
  -- class is the one returned: scan, or what the session did itself. Any other alert submits
  -- nothing, returns no class and leaves the sensor as it is.
  pub alert-reports :
      (info : SessionInfo) (meta : List (Bytes × Bytes)) (now : ℕ) (s : Sensor net)
      → let r = alert net info meta now s in
        ((info.transport ≡ tcp)
          × (ignored net s info.source_ip ≡ false)
          × (r.1 ≡ record { class = r.2; info = info; meta = meta } ∷ [])
          × ((r.2 ≡ Class.scan) ⊎ (r.2 ≡ classify info)))
        ⊎ (((info.transport ≡ udp) ⊎ (ignored net s info.source_ip ≡ true)) × (r ≡ (s, [], unset)))
  unfolding alert
  alert-reports info meta now s = elim (is_tcp_cases info.transport) [
    | inr (u, no_tcp) ↦ inr (inl u, simp no_tcp)
    | inl (t, yes_tcp) ↦ elim (Bool-cases (ignored net s info.source_ip)) [
      | inl skip ↦ inr (inr skip, simp (yes_tcp, skip))
      | inr heard ↦
          let step : alert net info meta now s ≡ (
            (classify_session net info now s).0,
            record { class = (classify_session net info now s).1; info = info; meta = meta } ∷ [],
            (classify_session net info now s).1,
          ) =
            simp (yes_tcp, heard) in
          rw step (inl (t, heard, refl, classify_session-cases info now s))
    ]
  ]

  -- At the end of a session an event is submitted only for a TCP session from a source that is
  -- not ignored, about that session, and of a class that outranks the one already reported.
  pub session_end-escalates :
      (info : SessionInfo) (now : ℕ) (s : Sensor net)
      → All
          (λ (e : Event).
            (info.transport ≡ tcp)
            × (ignored net s info.source_ip ≡ false)
            × (e.info ≡ info)
            × (rank info.alerted_class < rank e.class))
          (session_end net info now s).1
  unfolding session_end
  session_end-escalates info now s = elim (is_tcp_cases info.transport) [
    | inr (u, no_tcp) ↦ simp no_tcp tt
    | inl (t, yes_tcp) ↦ elim (Bool-cases (ignored net s info.source_ip)) [
      | inl skip ↦ simp (yes_tcp, skip) tt
      | inr heard ↦
          let c = (classify_session net info now s).1 in
          let agg =
            is_probe (classify info) && ltb 0 (classify_session net info now s).0.probes.window in
          elim (Bool-cases (ltb (rank info.alerted_class) (rank c))) [
            | inl up ↦
                let lt = ltb→lt (rank info.alerted_class) (rank c) up in
                elim (Bool-cases agg) [
                  | inl a ↦ simp (yes_tcp, heard, a, up) ((t, refl, refl, lt), tt)
                  | inr a ↦ simp (yes_tcp, heard, a, up) ((t, refl, refl, lt), tt)
                ]
            | inr same ↦ elim (Bool-cases agg) [
              | inl a ↦ simp (yes_tcp, heard, a, same) tt
              | inr a ↦ simp (yes_tcp, heard, a, same) tt
            ]
          ]
    ]
  ]

  -- The scan tracker and the probe log of the sensor are valid.
  pub record IsValid (s : Sensor net) : Type 0 where
    pub scan_valid : ScanBounds.IsValid s.scan
    pub probes_valid : Conserve.IsValid s.probes

  touch_scan-IsValid :
      (info : SessionInfo) (now : ℕ) (s : Sensor net)
      → IsValid s
      → IsValid (touch_scan net info now s).0
  unfolding touch_scan
  touch_scan-IsValid info now s v =
      elim (Bool-cases (not (is_tcp info.transport) || ignored net s info.source_ip)) [
        | inl skip ↦ rw skip v
        | inr go ↦ elim (Option-cases (parse_bannable_ip net s.non_global info.source_ip)) [
          | inl bad ↦ rw go (rw (bad, touch_scan) v)
          | inr (addr, good) ↦ rw go (
              rw (good, touch_scan)
                (record {
                  scan_valid =
                      touch_port-IsValid (to_string addr) info.protocol info.dest_port now s.scan
                        v.scan_valid;
                  probes_valid = v.probes_valid;
                }))
        ]
      ]

  classify_session-IsValid :
      (info : SessionInfo) (now : ℕ) (s : Sensor net)
      → IsValid s
      → IsValid (classify_session net info now s).0
  unfolding classify_session
  classify_session-IsValid info now s v = touch_scan-IsValid info now s v

  alert-IsValid :
      (info : SessionInfo) (meta : List (Bytes × Bytes)) (now : ℕ) (s : Sensor net)
      → IsValid s
      → IsValid (alert net info meta now s).0
  unfolding alert
  alert-IsValid info meta now s v = elim (Bool-cases (not (is_tcp info.transport))) [
    | inl u ↦ simp u v
    | inr t ↦ elim (Bool-cases (ignored net s info.source_ip)) [
      | inl skip ↦ simp (t, skip) v
      | inr heard ↦ simp (t, heard) (classify_session-IsValid info now s v)
    ]
  ]

  session_end-IsValid :
      (info : SessionInfo) (now : ℕ) (s : Sensor net)
      → IsValid s
      → IsValid (session_end net info now s).0
  unfolding session_end
  session_end-IsValid info now s v =
      let s' = (classify_session net info now s).0 in
      let w = classify_session-IsValid info now s v in
      elim (Bool-cases (not (is_tcp info.transport) || ignored net s info.source_ip)) [
        | inl skip ↦ simp skip v
        | inr heard ↦ elim (Bool-cases (is_probe (classify info) && ltb 0 s'.probes.window)) [
          | inr plain ↦ simp (heard, plain) w
          | inl agg ↦
              simp (heard, agg)
                (record {
                  scan_valid = w.scan_valid;
                  probes_valid =
                      record_probe-IsValid net info.source_ip info.protocol now s'.probes
                        w.probes_valid;
                })
        ]
      ]

  -- Alerts and session ends keep a scan tracker and a probe log that are valid so, whoever they
  -- come from.
  pub sensor-IsValid :
      (info : SessionInfo) (meta : List (Bytes × Bytes)) (now : ℕ) (s : Sensor net)
      → IsValid s
      → IsValid (alert net info meta now s).0 × IsValid (session_end net info now s).0
  sensor-IsValid info meta now s v =
      (alert-IsValid info meta now s v, session_end-IsValid info now s v)
