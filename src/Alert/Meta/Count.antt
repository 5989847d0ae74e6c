-- ===== src/Alert/Meta/Count.antt =====
-- The number of meta keys of an alert: at most one for each sensor key, then trap keys up to the cap.
use ran.Alert.Meta.{
  Meta, max_meta_key_bytes, max_meta_keys, sensor_keys, is_one_of, is_sensor_key, is_dropped,
  sanitize_meta, sanitize_value, sort_out, add_key, add_keys, bound_meta,
}
use ran.Alert.Meta.Bounds.{IsBounded, bound_meta-All}
use ran.Base.{
  ℕ, ◌+◌, ◌≤◌, true, ◌||◌, Option, none, some, List, [], ◌∷◌, Bytes, bytes_Eq, length, leb,
  bytes_eq, bytes_eq_iff, bytes_eq_refl, ◌≡◌, refl, arith, inl, inr, Bool-cases, Option-cases,
  lookup, insert, lookup-insert, length-insert-le, All,
}
use ran.Text.{Unicode}

abbrev one_if : Option Bytes → ℕ
one_if none = 0
one_if (some v) = 1

-- how many of the keys a meta has
unfoldable present : List Bytes → Meta → ℕ
present [] m = 0
present (j ∷ js) m = one_if (lookup j m) + present js m

present-le : (js : List Bytes) (m : Meta) → present js m ≤ length js
unfolding present
present-le [] m = omega arith
present-le (j ∷ js) m = elim (Option-cases (lookup j m)) [
  | inl missing ↦ rw missing (omega (arith, present-le js m))
  | inr (v, found) ↦ rw found (omega (arith, present-le js m))
]

length-insert_found :
    (k v w : Bytes) (m : Meta) → lookup k m ≡ some w → length (insert k v m) ≡ length m
unfolding lookup insert
length-insert_found k v w [] h = absurd (cc h)
length-insert_found k v w ((j, u) ∷ m) h = elim (Bool-cases (bytes_eq j k)) [
  | inl same ↦ rw same refl
  | inr other ↦ rw other (omega (arith, length-insert_found k v w m (ground (arith, h, other))))
]

module _ (k v : Bytes) (m : Meta) where
  one_if-insert : (j : Bytes) → one_if (lookup j m) ≤ one_if (lookup j (insert k v m))
  one_if-insert j = rw (lookup-insert k j v m) (elim (Bool-cases (bytes_eq k j)) [
    | inl same ↦ rw same (elim (Option-cases (lookup j m)) [
      | inl missing ↦ rw missing (omega arith)
      | inr (w, found) ↦ rw found (omega arith)
    ])
    | inr other ↦ rw other (omega arith)
  ])

  present-insert : (js : List Bytes) → present js m ≤ present js (insert k v m)
  unfolding present
  present-insert [] = omega arith
  present-insert (j ∷ js) = omega (arith, one_if-insert j, present-insert js)

  present-insert_new :
      (js : List Bytes)
      → is_one_of js k ≡ true
      → lookup k m ≡ none
      → present js m + 1 ≤ present js (insert k v m)
  unfolding present
  present-insert_new [] h missing = absurd (cc h)
  present-insert_new (j ∷ js) h missing = elim (Bool-cases (bytes_eq j k)) [
    | inl same ↦
        rw (lookup-insert k j v m, (bytes_eq_iff j k).0 same, bytes_eq_refl k, missing)
          (omega (arith, present-insert js))
    | inr other ↦
        omega (arith, present-insert_new js (ground (arith, h, other)) missing, one_if-insert j)
  ]

module _ (unicode : Unicode) where
  sort_out-present :
      (m : Meta) → length (sort_out unicode m).0 ≤ present sensor_keys (sort_out unicode m).0
  unfolding sort_out is_sensor_key
  sort_out-present [] = omega arith
  sort_out-present ((k, v) ∷ m) = elim (Bool-cases (is_sensor_key k)) [
    | inl sensor ↦ rw sensor (elim (Option-cases (lookup k (sort_out unicode m).0)) [
      | inl missing ↦ omega (
        arith,
        length-insert-le k (sanitize_value unicode v) (sort_out unicode m).0,
        present-insert_new k (sanitize_value unicode v) (sort_out unicode m).0 sensor_keys sensor
            missing,
        sort_out-present m,
      )
      | inr (w, found) ↦ omega (
        arith,
        length-insert_found k (sanitize_value unicode v) w (sort_out unicode m).0 found,
        present-insert k (sanitize_value unicode v) (sort_out unicode m).0 sensor_keys,
        sort_out-present m,
      )
    ])
    | inr trap ↦ rw trap (elim (Bool-cases (is_dropped unicode k)) [
      | inl dropped ↦ rw dropped (sort_out-present m)
      | inr kept ↦ rw kept (sort_out-present m)
    ])
  ]

  length-add_key :
      (m : Meta) (k : Bytes) (out : Meta) → length (add_key unicode m k out) ≤ length out + 1
  unfolding add_key
  length-add_key m k out =
      elim (Bool-cases (
        bytes_eq (sanitize_meta unicode k max_meta_key_bytes) []
        || is_sensor_key (sanitize_meta unicode k max_meta_key_bytes))) [
          | inl skipped ↦ rw skipped (omega arith)
          | inr set ↦ rw set (length-insert-le _ _ out)
        ]

  length-add_keys :
      (m : Meta) (ks : List Bytes) (out : Meta)
      → length out ≤ max_meta_keys
      → length (add_keys unicode m ks out) ≤ max_meta_keys
  unfolding add_keys
  length-add_keys m [] out h = h
  length-add_keys m (k ∷ ks) out h = elim (Bool-cases (leb max_meta_keys (length out))) [
    | inl full ↦ rw full h
    | inr room ↦ rw room (
        length-add_keys m ks (add_key unicode m k out)
          (ground (arith, room, length-add_key m k out)))
  ]

  -- For any meta that a trap reports, `boundMeta` keeps at most 32 keys, none longer than 64 bytes,
  -- each with a value of at most 256 bytes.
  pub bound_meta-IsBounded :
      (m : Meta)
      → (length (bound_meta unicode m) ≤ max_meta_keys) × All IsBounded (bound_meta unicode m)
  unfolding bound_meta
  bound_meta-IsBounded m = (
    length-add_keys m (sort_out unicode m).1 (sort_out unicode m).0
        (omega (arith, sort_out-present m, present-le sensor_keys (sort_out unicode m).0)),
    bound_meta-All unicode m,
  )
