-- ===== src/Alert/Meta/Bounds.antt =====
-- The sizes of the meta of an alert.
use ran.Alert.Meta.{
  Meta, max_meta_value_bytes, max_meta_key_bytes, max_meta_keys, is_one_of, sensor_keys,
  is_sensor_key, is_dropped, sanitize_from, sanitize_meta, sanitize_value, sort_out, add_key,
  add_keys, bound_meta, clean,
}
use ran.Base.{
  ℕ, ◌+◌, ◌≤◌, true, ◌||◌, List, [], ◌∷◌, Bytes, bytes_Eq, length, ltb, leb, bytes_eq, bytes_eq_iff,
  ◌≡◌, arith, inl, inr, Bool-cases, length-append, insert, All,
}
use ran.Text.{Unicode, Chunk, chunks, encode, rune_len}
use ran.Text.Sizes.{length-encode}
use mathlib.Core.Path.{subst}

abbrev pub IsBounded : Bytes × Bytes → Type 0
IsBounded kv = (length kv.0 ≤ max_meta_key_bytes) × (length kv.1 ≤ max_meta_value_bytes)

pub is_one_of-All :
    (P : Bytes → Type 0) (js : List Bytes) (k : Bytes) → All P js → is_one_of js k ≡ true → P k
is_one_of-All P [] k all h = absurd (ground arith)
is_one_of-All P (j ∷ js) k all h = elim (Bool-cases (bytes_eq j k)) [
  | inl same ↦ subst P ((bytes_eq_iff j k).0 same) all.0
  | inr other ↦ is_one_of-All P js k all.1 (ground (arith, h, other))
]

is_sensor_key-short : (k : Bytes) → is_sensor_key k ≡ true → length k ≤ max_meta_key_bytes
unfolding is_sensor_key
is_sensor_key-short k h =
    is_one_of-All (λ j. length j ≤ max_meta_key_bytes) sensor_keys k
      (omega arith, (omega arith, (omega arith, (omega arith, (omega arith, (omega arith, tt)))))) h

insert-All :
    (k v : Bytes) (m : Meta) → IsBounded (k, v) → All IsBounded m → All IsBounded (insert k v m)
unfolding insert
insert-All k v [] h all = (h, tt)
insert-All k v ((j, w) ∷ m) h all = elim (Bool-cases (bytes_eq j k)) [
  | inl same ↦ rw same (h, all.1)
  | inr other ↦ rw other (all.0, insert-All k v m h all.1)
]

module _ (unicode : Unicode) where
  length-sanitize_from :
      (max written : ℕ) (cs : List Chunk)
      → written ≤ max
      → length (sanitize_from unicode max written cs) + written ≤ max
  unfolding sanitize_from
  length-sanitize_from max written [] h = omega (arith, h)
  length-sanitize_from max written (c ∷ cs) h =
      elim (Bool-cases (ltb max (written + rune_len (clean unicode c)))) [
        | inl over ↦ rw over (omega (arith, h))
        | inr fits ↦ rw fits (
            omega (
              arith,
              length-append (encode (clean unicode c))
                  (sanitize_from unicode max (written + rune_len (clean unicode c)) cs),
              length-encode (clean unicode c),
              length-sanitize_from max (written + rune_len (clean unicode c)) cs
                  (ground (arith, fits)),
            ))
      ]

  length-sanitize_meta : (s : Bytes) (max : ℕ) → length (sanitize_meta unicode s max) ≤ max
  unfolding sanitize_meta
  length-sanitize_meta s max = omega (arith, length-sanitize_from max 0 (chunks s) (omega arith))

  sort_out-All : (m : Meta) → All IsBounded (sort_out unicode m).0
  unfolding sort_out
  sort_out-All [] = tt
  sort_out-All ((k, v) ∷ m) = elim (Bool-cases (is_sensor_key k)) [
    | inl sensor ↦ rw sensor (
        insert-All k (sanitize_value unicode v) (sort_out unicode m).0
          (is_sensor_key-short k sensor, length-sanitize_meta v max_meta_value_bytes)
          (sort_out-All m))
    | inr trap ↦ rw trap (elim (Bool-cases (is_dropped unicode k)) [
      | inl dropped ↦ rw dropped (sort_out-All m)
      | inr kept ↦ rw kept (sort_out-All m)
    ])
  ]

  add_key-All :
      (m : Meta) (k : Bytes) (out : Meta)
      → All IsBounded out
      → All IsBounded (add_key unicode m k out)
  unfolding add_key
  add_key-All m k out all =
      elim (Bool-cases (
        bytes_eq (sanitize_meta unicode k max_meta_key_bytes) []
        || is_sensor_key (sanitize_meta unicode k max_meta_key_bytes))) [
          | inl skipped ↦ rw skipped all
          | inr set ↦ rw set (
              insert-All _ _ out
                (
                  length-sanitize_meta k max_meta_key_bytes,
                  length-sanitize_meta _ max_meta_value_bytes,
                )
                all)
        ]

  add_keys-All :
      (m : Meta) (ks : List Bytes) (out : Meta)
      → All IsBounded out
      → All IsBounded (add_keys unicode m ks out)
  unfolding add_keys
  add_keys-All m [] out all = all
  add_keys-All m (k ∷ ks) out all = elim (Bool-cases (leb max_meta_keys (length out))) [
    | inl full ↦ rw full all
    | inr room ↦ rw room (add_keys-All m ks (add_key unicode m k out) (add_key-All m k out all))
  ]

  pub bound_meta-All : (m : Meta) → All IsBounded (bound_meta unicode m)
  unfolding bound_meta
  bound_meta-All m = add_keys-All m (sort_out unicode m).1 (sort_out unicode m).0 (sort_out-All m)
