-- ===== src/Alert/Worker/Settle.antt =====
-- Every alert that the worker takes is sent or given up, exactly once, and the tables stay valid.
use mathlib.Core.List.{Perm, perm_middle}
use mathlib.Core.List.Perm
use ran.Alert.Netip.{Netip}
use ran.Alert.Pipeline.{AlertMsg}
use ran.Alert.Pipeline.Rules as Rules
use ran.Alert.Pipeline.Rules.{fail_batch-IsValid}
use ran.Alert.Worker.{
  Lapi, Pending, Reply, messages, Worker, give_up, warn, body_of, settle, post_again, on_reply,
  flush_within, hold, send_live, send_last, send, is_accepted, is_unauthorized, flush_timeout,
  final_flush_timeout,
}
use ran.Base.{
  ℕ, Bool, true, false, not, Bytes, List, [], ◌∷◌, ◌++◌, ◌≡◌, refl, ap, Bool-cases, Option-cases,
  inl, inr, append_assoc, append-nil,
}

pub messages-append : (xs ys : List Pending) → messages (xs ++ ys) ≡ messages xs ++ messages ys
messages-append [] ys = refl
messages-append (x ∷ xs) ys = ap (◌∷◌ x.msg) (messages-append xs ys)

pub perm_append_comm {ℓ} : {A : Type ℓ} (xs ys : List A) → Perm (xs ++ ys) (ys ++ xs)
perm_append_comm [] ys = rw (append-nil ys) (Perm.refl ys)
perm_append_comm (x ∷ xs) ys =
    Perm.trans (Perm.cons x (perm_append_comm xs ys)) (Perm.symm (perm_middle ys xs))

module _ (net : Netip) (lapi : Lapi) where
  -- the alerts that are decided
  abbrev pub decided : Worker net lapi → List AlertMsg
  decided w = w.sent ++ w.failed

  -- The alerts of the list are decided in addition, and a valid alerter stays valid.
  abbrev pub Settles : List AlertMsg → Worker net lapi → Worker net lapi → Type 0
  Settles ms w w' =
      Perm (decided w') (decided w ++ ms)
      × (Rules.IsValid net w.alerter → Rules.IsValid net w'.alerter)

  pub Settles-nil : (w : Worker net lapi) → Settles [] w w
  Settles-nil w = (rw (append-nil (decided w)) (Perm.refl _), λ v. v)

  pub Settles-trans :
      (ms ns : List AlertMsg) (w w' w'' : Worker net lapi)
      → Settles ms w w'
      → Settles ns w' w''
      → Settles (ms ++ ns) w w''
  Settles-trans ms ns w w' w'' (p, v) (q, u) =
      (Perm.trans q (rw (← append_assoc (decided w) ms ns) (Perm.append_right ns p)), λ x. u (v x))

  pub Settles-give_up :
      (batch : List Pending) (w : Worker net lapi)
      → Settles (messages batch) w (give_up net lapi batch w)
  unfolding give_up
  Settles-give_up batch w = (
    rw (append_assoc w.sent w.failed (messages batch)) (Perm.refl _),
    λ v. fail_batch-IsValid net (messages batch) _ w.alerter v,
  )

  Settles-sent :
      (batch : List Pending) (w : Worker net lapi)
      → Settles (messages batch) w (record w { sent = w.sent ++ messages batch })
  Settles-sent batch w = (
    rw
        (
          append_assoc w.sent (messages batch) w.failed,
          append_assoc w.sent w.failed (messages batch),
        )
        (Perm.append_left w.sent (perm_append_comm (messages batch) w.failed)),
    λ v. v,
  )

  settle-Settles :
      (batch : List Pending) (reply : Reply) (w : Worker net lapi)
      → Settles (messages batch) w (settle net lapi batch reply w).0
  unfolding settle warn
  settle-Settles batch reply w = elim (Bool-cases (is_accepted reply)) [
    | inl yes_ ↦ rw yes_ (Settles-sent batch w)
    | inr no_ ↦ rw no_ (Settles-give_up batch (warn net lapi w))
  ]

  post_again-Settles :
      (deadline : ℕ) (body : Bytes) (batch : List Pending) (ok : Bool) (w : Worker net lapi)
      → Settles (messages batch) w (post_again net lapi deadline body batch ok w).0
  unfolding post_again warn
  post_again-Settles deadline body batch true w = settle-Settles batch _ _
  post_again-Settles deadline body batch false w = Settles-give_up batch (warn net lapi w)

  on_reply-Settles :
      (deadline : ℕ) (body : Bytes) (batch : List Pending) (reply : Reply) (w : Worker net lapi)
      → Settles (messages batch) w (on_reply net lapi deadline body batch reply w).0
  unfolding on_reply
  on_reply-Settles deadline body batch reply w = elim (Bool-cases (is_unauthorized reply)) [
    | inl yes_ ↦ rw yes_ (post_again-Settles deadline body batch _ _)
    | inr no_ ↦ rw no_ (settle-Settles batch reply w)
  ]

  flush_within-Settles :
      (timeout : ℕ) (batch : List Pending) (w : Worker net lapi)
      → Settles (messages batch) w (flush_within net lapi timeout batch w).0
  unfolding flush_within
  flush_within-Settles timeout [] w = Settles-nil w
  flush_within-Settles timeout (p ∷ ps) w =
      elim (Option-cases (body_of net lapi (lapi.now w.world) (p ∷ ps))) [
        | inl bad ↦ rw (bad, flush_within) (Settles-give_up (p ∷ ps) w)
        | inr (body, good) ↦ rw (good, flush_within) (on_reply-Settles _ body (p ∷ ps) _ _)
      ]

  send_live-Settles :
      (interval : ℕ) (batch : List Pending) (w : Worker net lapi)
      → Settles (messages batch) w (send_live net lapi interval batch w)
  unfolding send_live hold
  send_live-Settles interval batch w =
      let s = flush_within-Settles flush_timeout batch w in
      let r = flush_within net lapi flush_timeout batch w in
      elim (Bool-cases r.1) [
        | inl ok ↦ rw ok s
        | inr failed_ ↦ elim (Bool-cases (hold net lapi interval r.0).1) [
          | inl over ↦ rw failed_ (rw over s)
          | inr cut ↦ rw failed_ (rw cut s)
        ]
      ]

  send_last-Settles :
      (batch : List Pending) (w : Worker net lapi)
      → Settles (messages batch) w (send_last net lapi batch w)
  unfolding send_last
  send_last-Settles batch w = elim (Bool-cases (not w.final_tried)) [
    | inr tried ↦ simp tried (Settles-give_up batch w)
    | inl first ↦
        let w₁ : Worker net lapi = record w { final_tried = true } in
        let s = flush_within-Settles final_flush_timeout batch w₁ in
        elim (Bool-cases (flush_within net lapi final_flush_timeout batch w₁).1) [
          | inl ok ↦ simp first (rw ok s)
          | inr failed_ ↦ simp first (rw failed_ s)
        ]
  ]

  pub send-Settles :
      (interval : ℕ) (batch : List Pending) (w : Worker net lapi)
      → Settles (messages batch) w (send net lapi interval batch w)
  unfolding send
  send-Settles interval [] w = Settles-nil w
  send-Settles interval (p ∷ ps) w = elim (Bool-cases w.abandon) [
    | inl gone ↦ simp gone (send_last-Settles (p ∷ ps) w)
    | inr live ↦ simp live (send_live-Settles interval (p ∷ ps) w)
  ]
