-- ===== src/Config/Env.antt =====
-- internal/config/config.go: `envReader` and the settings that `Load` reads with it. The environment,
-- strings.ToLower's tables and time.ParseDuration are parameters; an error is the name of its variable.
use ran.Base.{
  ℕ, ◌*◌, Bool, true, false, not, Option, none, some, List, [], ◌∷◌, ◌++◌, Bytes, codes, bytes_eq,
  ltb, ◌==◌, if◌then◌else◌,
}
use ran.Config.Listen.{split_commas}
use ran.Text.{Unicode, lower, trim_space}
use ran.Trap.Redis.{atoi}

-- a duration in nanoseconds: a number, or a negative one
pub data Duration : Type 0 where
  pos : ℕ → Duration
  negsuc : ℕ → Duration

abbrev pub second : ℕ
second = 1_000_000_000

abbrev pub hour : ℕ
hour = 3600 * second

abbrev pub max_cooldown : ℕ
max_cooldown = 8760 * hour

-- the variable of the first error
pub record EnvReader : Type 0 where
  pub err : Option Bytes

abbrev pub keep_first : Option Bytes → Bytes → Option Bytes
keep_first none name = some name
keep_first (some first) name = some first

-- `setErr`
unfoldable pub set_err : Bytes → EnvReader → EnvReader
set_err name e = record { err = keep_first e.err name }

-- a reader of a variable: the value, and what it leaves
abbrev pub Reads : Type 0 → Type 0
Reads A = EnvReader → A × EnvReader

infixl 5 ◌>>=◌
abbrev pub ◌>>=◌ : {A B : Type 0} → Reads A → (A → Reads B) → Reads B
◌>>=◌ m f e = let (a, e') = m e in f a e'

abbrev pub return : {A : Type 0} → A → Reads A
return a e = (a, e)

-- the default, with an error
abbrev pub fail : {A : Type 0} → Bytes → A → Reads A
fail name def e = (def, set_err name e)

abbrev pub is_empty : Bytes → Bool
is_empty [] = true
is_empty (x ∷ xs) = false

module _ (unicode : Unicode) (parse_duration : Bytes → Option Duration)
    (getenv : Bytes → Bytes) where
  -- `str`
  unfoldable pub str : Bytes → Bytes → Reads Bytes
  str name def = return (if is_empty (getenv name) then def else getenv name)

  -- a number that was read, at least the minimum; the source's numbers below 0 are errors too
  unfoldable pub at_least : Bytes → ℕ → ℕ → Option ℕ → Reads ℕ
  at_least name def min none = fail name def
  at_least name def min (some n) = if ltb n min then fail name def else return n

  -- `intMin`
  unfoldable pub int_min : Bytes → ℕ → ℕ → Reads ℕ
  int_min name def min =
      let v = trim_space (getenv name) in
      if is_empty v then return def else at_least name def min (atoi v)

  unfoldable pub parsed : Bytes → ℕ → Option Duration → Reads Duration
  parsed name def none = fail name (pos def)
  parsed name def (some d) = return d

  -- `duration`
  unfoldable pub duration : Bytes → ℕ → Reads Duration
  duration name def =
      let v = trim_space (getenv name) in
      if is_empty v then return (pos def) else parsed name def (parse_duration v)

  unfoldable pub not_negative : Bytes → ℕ → Duration → Reads ℕ
  not_negative name def (pos d) = return d
  not_negative name def (negsuc d) = fail name def

  -- `durationMin0`
  unfoldable pub duration_min0 : Bytes → ℕ → Reads ℕ
  duration_min0 name def = duration name def >>= not_negative name def

  unfoldable pub positive : Bytes → ℕ → Duration → Reads ℕ
  positive name def (pos d) = if d == 0 then fail name def else return d
  positive name def (negsuc d) = fail name def

  -- `durationPositive`
  unfoldable pub duration_positive : Bytes → ℕ → Reads ℕ
  duration_positive name def = duration name def >>= positive name def

  unfoldable pub at_most : Bytes → ℕ → ℕ → ℕ → Reads ℕ
  at_most name def max d = if ltb max d then fail name def else return d

  -- `durationRange`
  unfoldable pub duration_range : Bytes → ℕ → ℕ → Reads ℕ
  duration_range name def max = duration_min0 name def >>= at_most name def max

  -- `durationPositiveOrUnsetMax`
  unfoldable pub duration_positive_or_unset_max : Bytes → ℕ → Reads ℕ
  duration_positive_or_unset_max name max =
      if is_empty (trim_space (getenv name))
      then return 0
      else (duration_positive name 0 >>= at_most name 0 max)

  abbrev pub is_one_of : Bytes → List Bytes → Bool
  is_one_of v [] = false
  is_one_of v (x ∷ xs) = if bytes_eq x v then true else is_one_of v xs

  -- `boolean`
  unfoldable pub boolean : Bytes → Bool → Reads Bool
  boolean name def =
      let v = lower unicode (trim_space (getenv name)) in
      if is_empty v
      then return def
      else if is_one_of v (codes "on" ∷ codes "true" ∷ codes "yes" ∷ codes "1" ∷ [])
      then return true
      else if is_one_of v (codes "off" ∷ codes "false" ∷ codes "no" ∷ codes "0" ∷ [])
      then return false
      else fail name def

  -- `ValidClasses`
  abbrev pub valid_classes : List Bytes
  valid_classes = codes "probe" ∷ codes "attack" ∷ codes "scan" ∷ []

  -- the loop of `classes`; `none` is an invalid class
  unfoldable pub classes_of : List Bytes → List Bytes → Option (List Bytes)
  classes_of [] out = some out
  classes_of (part ∷ parts) out =
      let c = lower unicode (trim_space part) in
      let skipped = classes_of parts out in
      let added = classes_of parts (out ++ c ∷ []) in
      if is_empty c
      then skipped
      else if not (is_one_of c valid_classes)
      then none
      else if is_one_of c out
      then skipped
      else added

  unfoldable pub some_class : Bytes → List Bytes → Option (List Bytes) → Reads (List Bytes)
  some_class name def none = fail name def
  some_class name def (some []) = fail name def
  some_class name def (some (c ∷ cs)) = return (c ∷ cs)

  -- `classes`
  unfoldable pub classes : Bytes → List Bytes → Reads (List Bytes)
  classes name def =
      let v = trim_space (getenv name) in
      if is_empty v then return def else some_class name def (classes_of (split_commas [] v) [])

  -- the readers of one word among several
  unfoldable pub one_of : Bytes → Bytes → List Bytes → Reads Bytes
  one_of name def words =
      let v = lower unicode (trim_space (getenv name)) in
      if is_empty v then return def else if is_one_of v words then return v else fail name def

  -- `logFormat`, `logPasswords` and `fingerprintMode`
  abbrev pub log_format : Bytes → Bytes → Reads Bytes
  log_format name def = one_of name def (codes "json" ∷ codes "text" ∷ [])

  abbrev pub log_passwords : Bytes → Bytes → Reads Bytes
  log_passwords name def = one_of name def (codes "off" ∷ codes "mask" ∷ codes "on" ∷ [])

  abbrev pub fingerprint_mode : Bytes → Bytes → Reads Bytes
  fingerprint_mode name def = one_of name def (codes "seeded" ∷ codes "fixed" ∷ [])
