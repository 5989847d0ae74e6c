-- ===== src/Base/Slices.antt =====
-- Go's byte slices and strings as lists of numbers, with the run-time checks of indexing and
-- slicing written out: `none` is a run-time panic. A string is the list of its bytes.
use Prim.Native.Char.{code}
use Prim.Native.Nat.{ℕ, zero, suc, ◌+◌, ◌-◌, ◌*◌, ◌/◌, ◌%◌, ◌≤◌, ◌<◌}
use Prim.Native.String.{String}
use mathlib.Core.Bool.{Bool, true, false, ◌&&◌}
use mathlib.Core.List.{List, [], ◌∷◌}
use mathlib.Core.Logic.{◌↔◌}
use mathlib.Core.Option.{Option, none, some}
use mathlib.Core.Path.{◌≡◌, refl, ap, ◌∙◌}
use native.Mathlib.Omega.{arith}
use ran.Base.Lists.{length, take, drop, All, length-take, length-drop, take_all}
use ran.Base.Tests.{leb, ◌==◌, if◌then◌else◌}

abbrev pub Bytes : Type 0
Bytes = List ℕ

-- The bytes of a literal, which is ASCII throughout.
abbrev pub codes : String → Bytes
codes String.[] = []
codes (String.◌∷◌ c s) = code c ∷ codes s

abbrev pub IsByte : ℕ → Type 0
IsByte b = b < 256

abbrev pub AreBytes : Bytes → Type 0
AreBytes = All IsByte

-- `b[lo:hi]`, held to the length (Go checks `hi` against the capacity, which is no less).
abbrev pub slice : Bytes → ℕ → ℕ → Option Bytes
slice b lo hi = if leb lo hi && leb hi (length b) then some (take (hi - lo) (drop lo b)) else none

-- `binary.BigEndian.Uint16(b)`, which panics on fewer than two bytes
abbrev pub uint16 : Bytes → Option ℕ
uint16 (hi ∷ lo ∷ _) = some (hi * 256 + lo)
uint16 _ = none

-- `binary.BigEndian.PutUint16` and `AppendUint16`, as the two bytes written
abbrev pub put_uint16 : ℕ → Bytes
put_uint16 v = (v / 256 % 256) ∷ (v % 256) ∷ []

abbrev pub bytes_eq : Bytes → Bytes → Bool
bytes_eq [] [] = true
bytes_eq (x ∷ xs) (y ∷ ys) = x == y && bytes_eq xs ys
bytes_eq _ _ = false

pub bytes_eq_iff : (a b : Bytes) → (bytes_eq a b ≡ true) ↔ (a ≡ b)
bytes_eq_iff (x ∷ a) (y ∷ b) = ground (arith, bytes_eq_iff a b)
bytes_eq_iff _ _ = ground arith

pub bytes_eq_refl : (a : Bytes) → bytes_eq a a ≡ true
bytes_eq_refl a = (bytes_eq_iff a a).1 refl

-- `make([]byte, n)`
abbrev pub zeros : ℕ → Bytes
zeros zero = []
zeros (suc n) = 0 ∷ zeros n

pub length-zeros : (n : ℕ) → length (zeros n) ≡ n
length-zeros zero = refl
length-zeros (suc n) = ap suc (length-zeros n)

-- A slice within the bounds is the bytes between them.
pub slice_lem :
    (b : Bytes) (lo hi : ℕ)
    → lo ≤ hi
    → hi ≤ length b
    → slice b lo hi ≡ some (take (hi - lo) (drop lo b))
slice_lem b lo hi h k = ground arith

pub length-take-drop : (b : Bytes) (lo n : ℕ) → lo + n ≤ length b → length (take n (drop lo b)) ≡ n
length-take-drop b lo n h = omega (arith, length-take n (drop lo b), length-drop lo b)

-- A slice within the bounds does not panic, and has the length between them.
pub slice_total :
    (b : Bytes) (lo hi : ℕ)
    → lo ≤ hi
    → hi ≤ length b
    → (s : Bytes) × (slice b lo hi ≡ some s) × (length s ≡ hi - lo)
slice_total b lo hi h k = (
  take (hi - lo) (drop lo b),
  slice_lem b lo hi h k,
  length-take-drop b lo (hi - lo) (omega arith),
)

pub uint16_total : (b : Bytes) → 2 ≤ length b → (n : ℕ) × (uint16 b ≡ some n)
uint16_total [] h = absurd (ground arith)
uint16_total (x ∷ []) h = absurd (ground arith)
uint16_total (x ∷ y ∷ b) h = (_, refl)

-- `b[lo:]` within the bounds is the bytes from there on.
pub slice_from : (b : Bytes) (lo : ℕ) → lo ≤ length b → slice b lo (length b) ≡ some (drop lo b)
slice_from b lo h =
    slice_lem b lo (length b) h (omega arith)
    ∙ ap some (take_all (length b - lo) (drop lo b) (omega (arith, length-drop lo b)))
