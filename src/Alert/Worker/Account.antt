-- ===== src/Alert/Worker/Account.antt =====
-- The loops of the worker: every alert taken from the queue is decided exactly once.
use mathlib.Core.List.{Perm}
use mathlib.Core.List.Perm
use ran.Alert.Netip.{Netip}
use ran.Alert.Pipeline.{AlertMsg}
use ran.Alert.Pipeline.Rules as Rules
use ran.Alert.Pipeline.Rules.{fail_batch-IsValid}
use ran.Alert.Worker.{Lapi, Pending, messages, Worker, encode, send, size, max_batch_bytes}
use ran.Alert.Worker.Batch.{
  Config, Batch, no_batch, is_empty, make_way, put, collect, Event, received, ticked, fresh,
  send_all, take_in, on_event, batch_loop, single_loop, batch_worker, taken,
}
use ran.Alert.Worker.Settle.{
  messages-append, perm_append_comm, decided, Settles, Settles-nil, Settles-trans, Settles-give_up,
  send-Settles,
}
use mathlib.Core.Path.{subst}
use ran.Base.{
  arith, ℕ, ◌+◌, ◌&&◌, not, Option, none, some, List, [], ◌∷◌, ◌++◌, length, ltb, leb, ◌==◌, ◌≡◌,
  refl, sym, ap, ◌∙◌, Bool-cases, inl, inr, append_assoc, append-nil,
}

abbrev batched : List (List Pending) → List AlertMsg
batched [] = []
batched (b ∷ bs) = messages b ++ batched bs

batched-append : (xs ys : List (List Pending)) → batched (xs ++ ys) ≡ batched xs ++ batched ys
batched-append [] ys = refl
batched-append (x ∷ xs) ys =
    ap (◌++◌ (messages x)) (batched-append xs ys)
    ∙ sym (append_assoc (messages x) (batched xs) (batched ys))

make_way-batched :
    (p : Pending) (b : Batch)
    → batched (make_way p b).0 ++ messages (make_way p b).1.items ≡ messages b.items
unfolding make_way
make_way-batched p b =
    elim (Bool-cases (not (is_empty b.items) && ltb max_batch_bytes (b.bytes + size p))) [
      | inl early ↦ rw early (append-nil _ ∙ append-nil _)
      | inr fits ↦ rw fits refl
    ]

put-batched :
    (n : ℕ) (p : Pending) (b : Batch)
    → batched (put n p b).0 ++ messages (put n p b).1.items ≡ messages b.items ++ p.msg ∷ []
unfolding put
put-batched n p b = elim (Bool-cases (leb n (length (b.items ++ p ∷ [])))) [
  | inl full ↦ rw full (append-nil _ ∙ append-nil _ ∙ messages-append b.items (p ∷ []))
  | inr room ↦ rw room (messages-append b.items (p ∷ []))
]

-- The batches to send and the batch that is left are the batch and the alert, in order.
pub collect-batched :
    (n : ℕ) (p : Pending) (b : Batch)
    → batched (collect n p b).0 ++ messages (collect n p b).1.items ≡ messages b.items ++ p.msg ∷ []
unfolding collect
collect-batched n p b =
    let (early, b₁) = make_way p b in
    rw
      (
        batched-append early (put n p b₁).0,
        append_assoc (batched early) (batched (put n p b₁).0) (messages (put n p b₁).1.items),
        put-batched n p b₁,
      )
      (sym (append_assoc (batched early) (messages b₁.items) (p.msg ∷ []))
        ∙ ap (λ l. l ++ p.msg ∷ []) (make_way-batched p b))

module _ (net : Netip) (lapi : Lapi) (cfg : Config) where
  send_all-Settles :
      (bs : List (List Pending)) (w : Worker net lapi)
      → Settles net lapi (batched bs) w (send_all net lapi cfg bs w)
  unfolding send_all
  send_all-Settles [] w = Settles-nil net lapi w
  send_all-Settles (b ∷ bs) w =
      Settles-trans net lapi (messages b) (batched bs) w (send net lapi cfg.batch_interval b w)
        (send_all net lapi cfg (b ∷ bs) w) (send-Settles net lapi cfg.batch_interval b w)
        (send_all-Settles bs (send net lapi cfg.batch_interval b w))

  encode-msg : (t : ℕ) (p q : Pending) → encode net lapi t p ≡ some q → q.msg ≡ p.msg
  unfolding encode
  encode-msg t p q h = ground arith

  -- The alerts are decided or in the batch in addition, and a valid alerter stays valid.
  abbrev Keeps : List AlertMsg → Batch → Worker net lapi → Batch → Worker net lapi → Type 0
  Keeps ms b w b' w' =
      Perm (decided net lapi w' ++ messages b'.items)
        ((decided net lapi w ++ messages b.items) ++ ms)
      × (Rules.IsValid net w.alerter → Rules.IsValid net w'.alerter)

  take_in-Keeps :
      (m : AlertMsg) (o : Option Pending) (b : Batch) (w : Worker net lapi)
      → ((p : Pending) → o ≡ some p → p.msg ≡ m)
      → let r = take_in net lapi cfg m o b w in Keeps (m ∷ []) b w r.1 r.0
  unfolding take_in
  take_in-Keeps m none b w h =
      let (q, v) = Settles-give_up net lapi (fresh m ∷ []) w in
      let d = decided net lapi w in
      (
        Perm.trans (Perm.append_right (messages b.items) q) (
            rw
              (
                append_assoc d (m ∷ []) (messages b.items),
                append_assoc d (messages b.items) (m ∷ []),
              )
              (Perm.append_left d (perm_append_comm (m ∷ []) (messages b.items)))),
        v,
      )
  take_in-Keeps m (some p) b w h =
      let (out, b') = collect cfg.batch_size p b in
      let (q, v) = send_all-Settles out w in
      let d = decided net lapi w in
      (
        Perm.trans (Perm.append_right (messages b'.items) q) (
            rw
              (
                append_assoc d (batched out) (messages b'.items),
                collect-batched cfg.batch_size p b,
                h p refl,
                append_assoc d (messages b.items) (m ∷ []),
              )
              (Perm.refl _)),
        v,
      )

  on_event-Keeps :
      (e : Event) (b : Batch) (w : Worker net lapi)
      → let r = on_event net lapi cfg e b w in Keeps (taken (e ∷ [])) b w r.1 r.0
  unfolding on_event taken
  on_event-Keeps (received m) b w =
      take_in-Keeps m _ b w (λ p h. encode-msg (lapi.now w.world) (fresh m) p h)
  on_event-Keeps ticked b w = elim (Bool-cases (is_empty b.items)) [
    | inl none_ ↦
        rw none_ (rw (append-nil (decided net lapi w ++ messages b.items)) (Perm.refl _), λ v. v)
    | inr some_ ↦
        let w' = send net lapi cfg.batch_interval b.items w in
        let (q, v) = send-Settles net lapi cfg.batch_interval b.items w in
        rw some_ (
          rw (append-nil (decided net lapi w'), append-nil (decided net lapi w ++ messages b.items))
              q,
          v,
        )
  ]

  taken-cons : (e : Event) (es : List Event) → taken (e ∷ es) ≡ taken (e ∷ []) ++ taken es
  unfolding taken
  taken-cons (received m) es = refl
  taken-cons ticked es = refl

  batch_loop-Keeps :
      (es : List Event) (b : Batch) (w : Worker net lapi)
      → let w' = batch_loop net lapi cfg es b w in
        Perm (decided net lapi w') ((decided net lapi w ++ messages b.items) ++ taken es)
        × (Rules.IsValid net w.alerter → Rules.IsValid net w'.alerter)
  unfolding batch_loop taken
  batch_loop-Keeps [] b w =
      let (q, v) = send-Settles net lapi cfg.batch_interval b.items w in
      (rw (append-nil (decided net lapi w ++ messages b.items)) q, v)
  batch_loop-Keeps (e ∷ es) b w =
      let (p, v) = on_event-Keeps e b w in
      let r = on_event net lapi cfg e b w in
      let (q, u) = batch_loop-Keeps es r.1 r.0 in
      (
        Perm.trans q (
            rw
              (
                taken-cons e es,
                ← append_assoc (decided net lapi w ++ messages b.items) (taken (e ∷ [])) (taken es),
              )
              (Perm.append_right (taken es) p)),
        λ x. u (v x),
      )

  single_loop-Keeps :
      (es : List Event) (w : Worker net lapi)
      → Settles net lapi (taken es) w (single_loop net lapi cfg es w)
  unfolding single_loop taken
  single_loop-Keeps [] w = Settles-nil net lapi w
  single_loop-Keeps (received m ∷ es) w =
      let w' = send net lapi cfg.batch_interval (fresh m ∷ []) w in
      Settles-trans net lapi (m ∷ []) (taken es) w w' (single_loop net lapi cfg es w')
        (send-Settles net lapi cfg.batch_interval (fresh m ∷ []) w) (single_loop-Keeps es w')
  single_loop-Keeps (ticked ∷ es) w = single_loop-Keeps es w

  batch_worker-Settles :
      (es : List Event) (w : Worker net lapi)
      → Settles net lapi (taken es) w (batch_worker net lapi cfg es w)
  unfolding batch_worker
  batch_worker-Settles es w = elim (Bool-cases (cfg.batch_interval == 0)) [
    | inl off ↦ rw off (single_loop-Keeps es w)
    | inr on ↦
        let (p, v) = batch_loop-Keeps es no_batch w in
        rw on (
          subst
              (λ l. Perm (decided net lapi (batch_loop net lapi cfg es no_batch w)) (l ++ taken es))
              (append-nil (decided net lapi w)) p,
          v,
        )
  ]

  -- When the queue is closed and the worker ends, whatever the LAPI answered and in whatever order
  -- alerts, ticks and the pauses came, each alert that was taken from the queue is decided exactly
  -- once: the alerts sent and those given up are the ones decided before and those taken, each as
  -- often.
  pub batch_worker-Perm :
      (es : List Event) (w : Worker net lapi)
      → Perm
          ((batch_worker net lapi cfg es w).sent ++ (batch_worker net lapi cfg es w).failed)
          ((w.sent ++ w.failed) ++ taken es)
  batch_worker-Perm es w = (batch_worker-Settles es w).0

  -- Whatever the worker took and the LAPI answered, tables and a queue that were valid are so when
  -- it ends.
  pub batch_worker-IsValid :
      (es : List Event) (w : Worker net lapi)
      → Rules.IsValid net w.alerter
      → Rules.IsValid net (batch_worker net lapi cfg es w).alerter
  batch_worker-IsValid es w v = (batch_worker-Settles es w).1 v
