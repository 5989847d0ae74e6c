-- ===== src/Trap/Irc/Welcome.antt =====
-- An IRC client is welcomed at most once.
use ran.Base.{
  ℕ, ◌+◌, ◌≤◌, false, Option, none, some, List, [], ◌∷◌, ◌++◌, Bytes, codes, if◌then◌else◌, ◌≡◌,
  refl, arith, inl, inr, Bool-cases,
}
use ran.Text.{Unicode}
use ran.Text.Prefix.{has_prefix, trim_right_byte, split_n}
use ran.Trap.Dialog.{Act, op, write, record_credentials, Turn, stop, go, scan, outcome}
use ran.Trap.Dialog.Trace.{scan-go, scan-stop}
use ran.Trap.Irc.{Client, is_empty, irc_command, irc_parts, irc_turn, irc_handle}
use ran.Trap.Session.{IoError}

-- the writes of numeric 001 among the actions
abbrev pub welcomes : List Act → ℕ
welcomes [] = 0
welcomes (write b ∷ acts) = (if has_prefix b (codes ":server 001 ") then 1 else 0) + welcomes acts
welcomes (op o ∷ acts) = welcomes acts
welcomes (record_credentials ∷ acts) = welcomes acts

welcomes-append : (xs ys : List Act) → welcomes (xs ++ ys) ≡ welcomes xs + welcomes ys
welcomes-append [] ys = omega arith
welcomes-append (write b ∷ xs) ys = omega (arith, welcomes-append xs ys)
welcomes-append (op o ∷ xs) ys = welcomes-append xs ys
welcomes-append (record_credentials ∷ xs) ys = welcomes-append xs ys

-- how often a client may still be welcomed
abbrev pub left : Client → ℕ
left c = if c.registered then 0 else 1

abbrev Spends : Turn Client → Client → Type 0
Spends (stop acts) c = welcomes acts ≤ left c
Spends (go acts c') c = welcomes acts + left c' ≤ left c

module _ (unicode : Unicode) (host : Bytes) where
  irc_command-Spends :
      (line cmd params : Bytes) (c : Client) → Spends (irc_command unicode host line cmd params c) c
  unfolding irc_command has_prefix
  irc_command-Spends line cmd params c = ground arith

  irc_parts-Spends :
      (line : Bytes) (parts : List Bytes) (c : Client)
      → Spends (irc_parts unicode host line parts c) c
  unfolding irc_parts
  irc_parts-Spends line [] c = omega arith
  irc_parts-Spends line (cmd ∷ []) c = irc_command-Spends line _ [] c
  irc_parts-Spends line (cmd ∷ params ∷ more) c = irc_command-Spends line _ params c

  on_turn :
      (err : Option IoError) (text : Bytes) (lines : List Bytes) (c : Client)
      → (t : Turn Client) × (irc_turn unicode host text c ≡ some t) × Spends t c
      → ((c' : Client)
          → (acts : List Act) × (scan (λ text' s. irc_turn unicode host text' s) err lines c'
              ≡ some acts)
            × (welcomes acts ≤ left c'))
      → (acts : List Act) × (scan (λ text' s. irc_turn unicode host text' s) err (text ∷ lines) c
          ≡ some acts)
        × (welcomes acts ≤ left c)
  on_turn err text lines c (stop acts, e, h) rest = (acts, scan-stop _ err text lines c e, h)
  on_turn err text lines c (go acts c', e, h) rest =
      let (more, f, k) = rest c' in
      (
        acts ++ more,
        scan-go _ err text lines c c' acts e f,
        omega (arith, welcomes-append acts more, h, k),
      )

  irc_turn-Spends :
      (text : Bytes) (c : Client)
      → (t : Turn Client) × (irc_turn unicode host text c ≡ some t) × Spends t c
  unfolding irc_turn
  irc_turn-Spends text c =
      let line = trim_right_byte 13 text in
      elim (Bool-cases (is_empty line)) [
        | inl blank ↦ (go [] c, rw blank refl, omega arith)
        | inr full ↦ (
          irc_parts unicode host line (split_n 32 1 [] line) c,
          rw full refl,
          irc_parts-Spends line (split_n 32 1 [] line) c,
        )
      ]

  scan-welcomes :
      (err : Option IoError) (lines : List Bytes) (c : Client)
      → (acts : List Act) × (scan (λ text c'. irc_turn unicode host text c') err lines c
          ≡ some acts)
        × (welcomes acts ≤ left c)
  unfolding scan
  scan-welcomes none [] c = ([], refl, omega arith)
  scan-welcomes (some err) [] c = (outcome (some err), refl, omega arith)
  scan-welcomes err (text ∷ lines) c =
      on_turn err text lines c (irc_turn-Spends text c) (λ c'. scan-welcomes err lines c')

  -- For all lines that a client sends, and whatever the error behind them: the IRC handler ends
  -- without a panic, and welcomes the client at most once.
  pub irc_handle-welcomes :
      (lines : List Bytes) (err : Option IoError)
      → (acts : List Act) × (irc_handle unicode host lines err ≡ some acts) × (welcomes acts ≤ 1)
  unfolding irc_handle
  irc_handle-welcomes lines err = scan-welcomes err lines (record { nick = []; registered = false })
