-- ===== src/Trap/Login/Captured.antt =====
-- Each password that a client sends is captured, with the user name that came last before it.
use ran.Base.{
  Bool, true, false, Option, none, some, List, [], ◌∷◌, ◌++◌, Bytes, codes, length, drop,
  slice_from, if◌then◌else◌, ◌≡◌, refl, ap, arith, inl, inr, Bool-cases,
}
use ran.Text.{Unicode, trim_space}
use ran.Text.Prefix.{has_prefix, has_prefix-upper, IsAscii}
use ran.Trap.Dialog.{Act, op, write, Turn, scan, outcome, ops_of}
use ran.Trap.Dialog.Trace.{scan-go, scan-stop}
use ran.Trap.Login.{Replies, line_of, is_command, argument, login_turn, login_handle}
use ran.Trap.Session.{IoError}
use ran.Trap.Session.Order.{Op, credentials}

exclusive :
    (s : Bytes)
    → has_prefix s (codes "USER ") ≡ true
    → (has_prefix s (codes "PASS ") ≡ false) × (has_prefix s (codes "QUIT") ≡ false)
unfolding has_prefix
exclusive [] h = cc
exclusive (x ∷ s) h = ground (arith, h)

exclusive_pass :
    (s : Bytes) → has_prefix s (codes "PASS ") ≡ true → has_prefix s (codes "QUIT") ≡ false
unfolding has_prefix
exclusive_pass [] h = cc
exclusive_pass (x ∷ s) h = ground (arith, h)

module _ (unicode : Unicode) (replies : Replies) where
  abbrev pub is_user : Bytes → Bool
  is_user text = is_command unicode replies (codes "USER ") text

  abbrev pub is_pass : Bytes → Bool
  is_pass text = is_command unicode replies (codes "PASS ") text

  abbrev pub is_quit : Bytes → Bool
  is_quit text = is_command unicode replies (codes "QUIT") text

  -- what stands behind the command
  abbrev pub argument_of : Bytes → Bytes
  argument_of text = trim_space (drop 5 (line_of unicode replies text))

  -- the argument of the latest USER line, of lines with the latest first
  abbrev pub latest_user : List Bytes → Bytes
  latest_user [] = []
  latest_user (text ∷ before) = if is_user text then argument_of text else latest_user before

  -- the attempts on lines up to the first QUIT, behind lines with the latest first
  abbrev pub attempts : List Bytes → List Bytes → List Op
  attempts before [] = []
  attempts before (text ∷ lines) =
      let rest = attempts (text ∷ before) lines in
      if is_quit text
      then []
      else if is_pass text
      then credentials (latest_user before) (argument_of text) [] ∷ rest
      else rest

  -- whether a line is QUIT
  abbrev pub quits : List Bytes → Bool
  quits [] = false
  quits (text ∷ lines) = if is_quit text then true else quits lines

  argument_total :
      (command text : Bytes)
      → IsAscii command
      → length command ≡ 5
      → is_command unicode replies command text ≡ true
      → argument unicode replies text ≡ some (argument_of text)
  unfolding argument
  argument_total command text a l h =
      let long = has_prefix-upper unicode (line_of unicode replies text) command a h in
      rw (slice_from (line_of unicode replies text) 5 (omega (arith, long, l))) refl

  -- what a run of the loop comes to
  abbrev Traced : Option (List Act) → List Op → Type 0
  Traced o ops = (acts : List Act) × (o ≡ some acts) × (ops_of acts ≡ ops)

  abbrev expected : List Bytes → List Bytes → Option IoError → List Op
  expected before lines err =
      attempts before lines ++ (if quits lines then [] else ops_of (outcome err))

  abbrev turn : Bytes → Bytes → Option (Turn Bytes)
  turn text username = login_turn unicode replies text username

  module _ (err : Option IoError) (text : Bytes) (lines before : List Bytes)
      (rest : Traced
        (scan turn err lines (latest_user (text ∷ before)))
        (expected (text ∷ before) lines err)) where
    abbrev Whole : Type 0
    Whole =
        Traced (scan turn err (text ∷ lines) (latest_user before))
          (expected before (text ∷ lines) err)

    on_user : is_user text ≡ true → Whole
    unfolding login_turn
    on_user user =
        let (acts, e, f) = rest in
        let (p, q) = exclusive _ user in
        let a = argument_total (codes "USER ") text (omega arith) refl user in
        (
          write replies.user ∷ acts,
          scan-go turn err text lines (latest_user before) (argument_of text)
              (write replies.user ∷ []) (rw (user, a) refl) (rw user at e),
          rw (q, p) f,
        )

    on_pass : is_user text ≡ false → is_pass text ≡ true → Whole
    unfolding login_turn
    on_pass other pass =
        let (acts, e, f) = rest in
        let q = exclusive_pass _ pass in
        let a = argument_total (codes "PASS ") text (omega arith) refl pass in
        let attempt = credentials (latest_user before) (argument_of text) [] in
        (
          op attempt ∷ write replies.pass ∷ acts,
          scan-go turn err text lines (latest_user before) (latest_user before)
              (op attempt ∷ write replies.pass ∷ []) (rw (other, pass, a) refl) (rw other at e),
          rw (q, pass) (ap (◌∷◌ attempt) f),
        )

    on_other : is_user text ≡ false → is_pass text ≡ false → Whole
    unfolding login_turn
    on_other other another = elim (Bool-cases (is_quit text)) [
      | inl quit ↦ (
        write replies.quit ∷ [],
        scan-stop turn err text lines (latest_user before) (rw (other, another, quit) refl),
        rw quit refl,
      )
      | inr rest_ ↦
          let (acts, e, f) = rest in
          (
            write replies.other ∷ acts,
            scan-go turn err text lines (latest_user before) (latest_user before)
                (write replies.other ∷ []) (rw (other, another, rest_) refl) (rw other at e),
            rw (rest_, another) f,
          )
    ]

  scan-Traced :
      (err : Option IoError) (lines before : List Bytes)
      → Traced (scan turn err lines (latest_user before)) (expected before lines err)
  unfolding scan
  scan-Traced err [] before = (outcome err, refl, refl)
  scan-Traced err (text ∷ lines) before =
      let rest = scan-Traced err lines (text ∷ before) in
      elim (Bool-cases (is_user text)) [
        | inl user ↦ on_user err text lines before rest user
        | inr other ↦ elim (Bool-cases (is_pass text)) [
          | inl pass ↦ on_pass err text lines before rest other pass
          | inr another ↦ on_other err text lines before rest other another
        ]
      ]

  -- For all lines that a client sends, and whatever the error behind them: if the greeting is sent,
  -- the FTP and the POP3 handler end without a panic, and what they do to the session is exactly one
  -- attempt for each PASS line before the first QUIT, in order, with the argument of the last USER
  -- line before it (or no name), and the outcome for the error if there was no QUIT.
  pub login_handle-captures :
      (lines : List Bytes) (err : Option IoError)
      → (acts : List Act) × (login_handle unicode replies none lines err ≡ some acts)
        × (ops_of acts ≡ attempts [] lines ++ (if quits lines then [] else ops_of (outcome err)))
  unfolding login_handle
  login_handle-captures lines err =
      let (acts, e, f) = scan-Traced err lines [] in (write replies.greeting ∷ acts, rw e refl, f)
