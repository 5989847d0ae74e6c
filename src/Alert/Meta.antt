-- ===== src/Alert/Meta.antt =====
-- internal/alert/crowdsec.go, the meta of an event: `eventMeta`, `sanitizeMeta` and `boundMeta`. A
-- Go map is an association list; `range` may go over it in any order, and the model goes over it
-- from the back, so that the first entry of a key is the one that counts.
pub mod Bounds
pub mod Count
pub mod Spoof
use ran.Alert.Class.{SessionInfo, text}
use ran.Alert.Sensor.{Event}
use ran.Base.{
  ℕ, ◌+◌, Bool, true, false, not, ◌&&◌, ◌||◌, Option, none, some, List, [], ◌∷◌, ◌++◌, Bytes,
  bytes_Eq, codes, length, ltb, leb, ◌==◌, bytes_eq, if◌then◌else◌, lookup, insert,
}
use ran.Text.{
  Unicode, Chunk, chunks, is_invalid, is_control, rune_len, encode, lower, trim_space, itoa,
}

abbrev pub Meta : Type 0
Meta = List (Bytes × Bytes)

abbrev pub max_meta_value_bytes : ℕ
max_meta_value_bytes = 256

abbrev pub max_meta_key_bytes : ℕ
max_meta_key_bytes = 64

abbrev pub max_meta_keys : ℕ
max_meta_keys = 32

abbrev pub is_one_of : List Bytes → Bytes → Bool
is_one_of [] k = false
is_one_of (j ∷ js) k = if bytes_eq j k then true else is_one_of js k

-- `sensorMetaKeys`
abbrev pub sensor_keys : List Bytes
sensor_keys =
    codes "class"
    ∷ codes "protocol"
    ∷ codes "dest_port"
    ∷ codes "auth_attempts"
    ∷ codes "commands"
    ∷ codes "payload_bytes"
    ∷ []

unfoldable pub is_sensor_key : Bytes → Bool
is_sensor_key = is_one_of sensor_keys

-- `secretMetaKeys`
unfoldable pub is_secret_key : Bytes → Bool
is_secret_key = is_one_of (
    codes "password"
    ∷ codes "pass"
    ∷ codes "passwd"
    ∷ codes "secret"
    ∷ codes "token"
    ∷ codes "authorization"
    ∷ [])

-- the order of `sort.Strings`
unfoldable pub before : Bytes → Bytes → Bool
before [] ys = true
before (x ∷ xs) [] = false
before (x ∷ xs) (y ∷ ys) = let rest = before xs ys in if ltb x y then true else x == y && rest

unfoldable pub insert_sorted : Bytes → List Bytes → List Bytes
insert_sorted k [] = k ∷ []
insert_sorted k (j ∷ js) = if before k j then k ∷ j ∷ js else j ∷ insert_sorted k js

-- `out[k] = v` for the sensor's own values, as `eventMeta` sets them
abbrev pub sensor_meta : Event → Meta
sensor_meta ev =
    (codes "class", text ev.class)
    ∷ (codes "protocol", ev.info.protocol)
    ∷ (codes "dest_port", itoa ev.info.dest_port)
    ∷ (codes "auth_attempts", itoa ev.info.auth_attempts)
    ∷ (codes "commands", itoa ev.info.commands)
    ∷ (codes "payload_bytes", itoa ev.info.payload_bytes)
    ∷ []

unfoldable pub set_all : Meta → Meta → Meta
set_all [] m = m
set_all ((k, v) ∷ kvs) m = set_all kvs (insert k v m)

module _ (unicode : Unicode) where
  open unicode use {is_format}

  -- the rune that `sanitizeMeta` writes for one that it read
  unfoldable pub clean : Chunk → ℕ
  clean c =
      if is_invalid c
      then 63
      else if is_control c.rune || is_format c.rune || c.rune == 8232 || c.rune == 8233
      then 32
      else c.rune

  -- the loop of `sanitizeMeta`, with the bytes written so far
  unfoldable pub sanitize_from : ℕ → ℕ → List Chunk → Bytes
  sanitize_from max written [] = []
  sanitize_from max written (c ∷ cs) =
      let r = clean c in
      let rest = sanitize_from max (written + rune_len r) cs in
      if ltb max (written + rune_len r) then [] else encode r ++ rest

  unfoldable pub sanitize_meta : Bytes → ℕ → Bytes
  sanitize_meta s max = sanitize_from max 0 (chunks s)

  -- `SanitizeValue`
  abbrev pub sanitize_value : Bytes → Bytes
  sanitize_value s = sanitize_meta s max_meta_value_bytes

  unfoldable pub is_dropped : Bytes → Bool
  is_dropped k = bytes_eq k [] || is_secret_key (lower unicode (trim_space k))

  -- the first loop of `boundMeta`: the entries kept, and the other keys, sorted
  unfoldable pub sort_out : Meta → Meta × List Bytes
  sort_out [] = ([], [])
  sort_out ((k, v) ∷ m) =
      let (out, keys) = sort_out m in
      if is_sensor_key k
      then (insert k (sanitize_value v) out, keys)
      else if is_dropped k
      then (out, keys)
      else (out, insert_sorted k keys)

  -- one key of the second loop
  unfoldable pub add_key : Meta → Bytes → Meta → Meta
  add_key m k out =
      let sk = sanitize_meta k max_meta_key_bytes in
      if bytes_eq sk [] || is_sensor_key sk
      then out
      else insert sk (sanitize_value (elim (lookup k m) [ none ↦ [] | some v ↦ v ])) out

  unfoldable pub add_keys : Meta → List Bytes → Meta → Meta
  add_keys m [] out = out
  add_keys m (k ∷ ks) out =
      let rest = add_keys m ks (add_key m k out) in
      if leb max_meta_keys (length out) then out else rest

  unfoldable pub bound_meta : Meta → Meta
  bound_meta m = let (out, keys) = sort_out m in add_keys m keys out

  unfoldable pub event_meta : Event → Meta
  event_meta ev = bound_meta (set_all (sensor_meta ev) ev.meta)
