-- ===== src/Alert/Meta/Spoof.antt =====
-- What a trap reports cannot stand for what the sensor reports.
use ran.Alert.Meta.{
  Meta, sensor_keys, is_sensor_key, sensor_meta, set_all, is_dropped, sanitize_meta, sanitize_value,
  sort_out, add_key, add_keys, bound_meta, event_meta, max_meta_keys, max_meta_key_bytes,
}
use ran.Alert.Meta.Bounds.{is_one_of-All}
use ran.Alert.Sensor.{Event}
use ran.Base.{
  true, false, ◌||◌, Option, none, some, List, [], ◌∷◌, Bytes, bytes_Eq, length, leb, bytes_eq,
  bytes_eq_iff, ◌≡◌, refl, sym, ◌∙◌, ap, arith, inl, inr, Bool-cases, lookup, insert, lookup-insert,
  All,
}
use ran.Text.{Unicode}
use mathlib.Core.Path.{subst}

abbrev pub cleaned : Unicode → Option Bytes → Option Bytes
cleaned unicode none = none
cleaned unicode (some v) = some (sanitize_value unicode v)

module _ (unicode : Unicode) (k : Bytes) (sensor : is_sensor_key k ≡ true) where
  lookup-insert_other :
      (j v : Bytes) (m : Meta) → is_sensor_key j ≡ false → lookup k (insert j v m) ≡ lookup k m
  lookup-insert_other j v m h = elim (Bool-cases (bytes_eq j k)) [
    | inl same ↦ absurd (cc (h, sensor, (bytes_eq_iff j k).0 same))
    | inr other ↦ rw (lookup-insert j k v m, other) refl
  ]

  lookup-sort_out : (m : Meta) → lookup k (sort_out unicode m).0 ≡ cleaned unicode (lookup k m)
  unfolding sort_out lookup
  lookup-sort_out [] = refl
  lookup-sort_out ((j, v) ∷ m) = elim (Bool-cases (bytes_eq j k)) [
    | inl same ↦
        rw
          (
            subst (λ x. is_sensor_key x ≡ true) (sym ((bytes_eq_iff j k).0 same)) sensor,
            lookup-insert j k (sanitize_value unicode v) (sort_out unicode m).0,
            same,
          )
          refl
    | inr other ↦ elim (Bool-cases (is_sensor_key j)) [
      | inl kept ↦
          rw (kept, lookup-insert j k (sanitize_value unicode v) (sort_out unicode m).0, other)
            (lookup-sort_out m)
      | inr trap ↦ elim (Bool-cases (is_dropped unicode j)) [
        | inl dropped ↦ rw (trap, dropped, other) (lookup-sort_out m)
        | inr sorted ↦ rw (trap, sorted, other) (lookup-sort_out m)
      ]
    ]
  ]

  lookup-add_key :
      (m : Meta) (j : Bytes) (out : Meta) → lookup k (add_key unicode m j out) ≡ lookup k out
  unfolding add_key
  lookup-add_key m j out =
      elim (Bool-cases (
        bytes_eq (sanitize_meta unicode j max_meta_key_bytes) []
        || is_sensor_key (sanitize_meta unicode j max_meta_key_bytes))) [
          | inl skipped ↦ rw skipped refl
          | inr set ↦ rw set (lookup-insert_other _ _ out (ground (arith, set)))
        ]

  lookup-add_keys :
      (m : Meta) (js : List Bytes) (out : Meta)
      → lookup k (add_keys unicode m js out) ≡ lookup k out
  unfolding add_keys
  lookup-add_keys m [] out = refl
  lookup-add_keys m (j ∷ js) out = elim (Bool-cases (leb max_meta_keys (length out))) [
    | inl full ↦ rw full refl
    | inr room ↦ rw room (lookup-add_keys m js (add_key unicode m j out) ∙ lookup-add_key m j out)
  ]

  lookup-bound_meta : (m : Meta) → lookup k (bound_meta unicode m) ≡ cleaned unicode (lookup k m)
  unfolding bound_meta
  lookup-bound_meta m =
      lookup-add_keys m (sort_out unicode m).1 (sort_out unicode m).0 ∙ lookup-sort_out m

-- the value that `eventMeta` sets for a key of the sensor
abbrev pub own_value : Event → Bytes → Option Bytes
own_value ev k = lookup k (sensor_meta ev)

own_values :
    (ev : Event)
    → All (λ k. lookup k (set_all (sensor_meta ev) ev.meta) ≡ own_value ev k) sensor_keys
unfolding set_all lookup
own_values ev = (
  simp lookup-insert,
  (
    simp lookup-insert,
    (simp lookup-insert, (simp lookup-insert, (simp lookup-insert, (simp lookup-insert, tt)))),
  ),
)

-- Whatever meta a trap reports: under each of the six sensor keys (class, protocol, dest_port,
-- auth_attempts, commands, payload_bytes) the meta of the alert has the event's own value,
-- sanitized.
pub event_meta-lookup :
    (unicode : Unicode) (ev : Event) (k : Bytes)
    → is_sensor_key k ≡ true
    → lookup k (event_meta unicode ev) ≡ cleaned unicode (own_value ev k)
unfolding event_meta is_sensor_key
event_meta-lookup unicode ev k sensor =
    lookup-bound_meta unicode k sensor (set_all (sensor_meta ev) ev.meta)
    ∙ ap (cleaned unicode) (
        is_one_of-All (λ j. lookup j (set_all (sensor_meta ev) ev.meta) ≡ own_value ev j)
          sensor_keys k (own_values ev) sensor)
