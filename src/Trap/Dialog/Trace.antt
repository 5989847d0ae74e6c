-- ===== src/Trap/Dialog/Trace.antt =====
-- The traces of loops over lines, put together.
use ran.Base.{Option, some, Bytes, List, [], ◌∷◌, ◌++◌, ◌≡◌, refl, ap, All, All-append}
use ran.Trap.Dialog.{
  Act, write, op, record_credentials, ops_of, writes_of, Turn, stop, go, scan, then_on, outcome,
}
use ran.Trap.Session.{IoError}

pub ops_of-append : (xs ys : List Act) → ops_of (xs ++ ys) ≡ ops_of xs ++ ops_of ys
ops_of-append [] ys = refl
ops_of-append (op o ∷ xs) ys = ap (◌∷◌ o) (ops_of-append xs ys)
ops_of-append (write b ∷ xs) ys = ops_of-append xs ys
ops_of-append (record_credentials ∷ xs) ys = ops_of-append xs ys

pub writes_of-append : (xs ys : List Act) → writes_of (xs ++ ys) ≡ writes_of xs ++ writes_of ys
writes_of-append [] ys = refl
writes_of-append (op o ∷ xs) ys = writes_of-append xs ys
writes_of-append (write b ∷ xs) ys = ap (◌∷◌ b) (writes_of-append xs ys)
writes_of-append (record_credentials ∷ xs) ys = writes_of-append xs ys

module _ {S : Type 0} (step : Bytes → S → Option (Turn S)) (err : Option IoError) where
  -- A turn that goes on, and what comes behind it.
  pub scan-go :
      (line : Bytes) (lines : List Bytes) (s s' : S) (acts : List Act) {more : List Act}
      → step line s ≡ some (go acts s')
      → scan step err lines s' ≡ some more
      → scan step err (line ∷ lines) s ≡ some (acts ++ more)
  unfolding scan then_on
  scan-go line lines s s' acts h k = rw h (rw k refl)

  pub scan-stop :
      (line : Bytes) (lines : List Bytes) (s : S) {acts : List Act}
      → step line s ≡ some (stop acts)
      → scan step err (line ∷ lines) s ≡ some acts
  unfolding scan then_on
  scan-stop line lines s h = rw h refl

  -- What holds of the actions of a turn.
  abbrev pub AllTurn : (Act → Type 0) → Turn S → Type 0
  AllTurn P (stop acts) = All P acts
  AllTurn P (go acts s) = All P acts

  on_turn :
      (P : Act → Type 0) (line : Bytes) (lines : List Bytes) (s : S)
      → (t : Turn S) × (step line s ≡ some t) × AllTurn P t
      → ((s' : S) → (acts : List Act) × (scan step err lines s' ≡ some acts) × All P acts)
      → (acts : List Act) × (scan step err (line ∷ lines) s ≡ some acts) × All P acts
  on_turn P line lines s (stop acts, e, h) rest = (acts, scan-stop line lines s e, h)
  on_turn P line lines s (go acts s', e, h) rest =
      let (more, f, k) = rest s' in
      (acts ++ more, scan-go line lines s s' acts e f, All-append P acts more h k)

  -- If every turn comes to actions of a kind, without a panic, then so does the loop.
  pub scan-All :
      (P : Act → Type 0)
      → ((line : Bytes) (s : S) → (t : Turn S) × (step line s ≡ some t) × AllTurn P t)
      → All P (outcome err)
      → (lines : List Bytes) (s : S)
      → (acts : List Act) × (scan step err lines s ≡ some acts) × All P acts
  unfolding scan then_on
  scan-All P turns last [] s = (outcome err, refl, last)
  scan-All P turns last (line ∷ lines) s =
      on_turn P line lines s (turns line s) (λ s'. scan-All P turns last lines s')
