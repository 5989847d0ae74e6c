-- ===== src/Trap/Server/Drain.antt =====
-- Every connection can come to its end.
use ran.Base.{
  ℕ, ◌<◌, Bool, ◌||◌, none, List, [], ◌∷◌, Bytes, bytes_Eq, bytes_eq_refl, length, lookup, ◌≡◌,
  refl, ap, ◌∙◌, arith, inl, inr, Bool-cases,
}
use ran.Trap.Limiter.{new_limiter}
use ran.Trap.Limiter.Counts.{count, close_one}
use ran.Trap.Server.{
  Server, new_server, register, dispatch, free_slot, leave, admits, registers, frees, leaves, Reach,
  here, next,
}
use ran.Trap.Server.Slots.{Reach-Refines}
use ran.Trap.Server.Stop.{Reach-drained}

-- Steps after steps.
Reach-trans : {s t u : Server} → Reach s t → Reach t u → Reach s u
Reach-trans r here = r
Reach-trans r (next q step) = next (Reach-trans r q) step

register-admitted :
    (host : Bytes) (rest : List Bytes) (s : Server) → (register (host ∷ rest) s).admitted ≡ rest
unfolding register
register-admitted host rest s = elim (Bool-cases s.stopping) [
  | inl stopped ↦ rw stopped refl
  | inr running ↦ rw running refl
]

drain_admitted :
    (waiting : List Bytes) (s : Server)
    → s.admitted ≡ waiting
    → (t : Server) × Reach s t × (t.admitted ≡ [])
drain_admitted [] s e = (s, here, e)
drain_admitted (host ∷ rest) s e =
    let fewer = ap (λ w. (register w s).admitted) e ∙ register-admitted host rest s in
    let (t, r, done) = drain_admitted rest (register s.admitted s) fewer in
    (t, Reach-trans (next here registers) r, done)

pub count-head : (host : Bytes) (rest : List Bytes) → 0 < count host (host ∷ rest)
unfolding count
count-head host rest = ground (arith, bytes_eq_refl host)

pub close_one-head : (host : Bytes) (rest : List Bytes) → close_one host (host ∷ rest) ≡ rest
unfolding close_one
close_one-head host rest = rw (bytes_eq_refl host) refl

drain_serving :
    (live : List Bytes) (s : Server)
    → s.serving ≡ live
    → s.admitted ≡ []
    → (t : Server) × Reach s t × (t.admitted ≡ []) × (t.serving ≡ [])
unfolding free_slot
drain_serving [] s e empty = (s, here, empty, e)
drain_serving (host ∷ rest) s e empty =
    let held : 0 < count host s.serving = rw e (count-head host rest) in
    let fewer = ap (close_one host) e ∙ close_one-head host rest in
    let (t, r, none_waits, none_served) = drain_serving rest (free_slot host s) fewer empty in
    (t, Reach-trans (next here (frees host held)) r, none_waits, none_served)

leave-leaving :
    (host : Bytes) (rest : List Bytes) (s : Server) → (leave (host ∷ rest) s).leaving ≡ rest
unfolding leave
leave-leaving host rest s = refl

leave-admitted : (gone : List Bytes) (s : Server) → (leave gone s).admitted ≡ s.admitted
unfolding leave
leave-admitted [] s = refl
leave-admitted (host ∷ rest) s = refl

leave-serving : (gone : List Bytes) (s : Server) → (leave gone s).serving ≡ s.serving
unfolding leave
leave-serving [] s = refl
leave-serving (host ∷ rest) s = refl

-- A server without connections.
abbrev pub IsEmpty : Server → Type 0
IsEmpty s = (s.admitted ≡ []) × (s.serving ≡ []) × (s.leaving ≡ [])

drain_leaving :
    (gone : List Bytes) (s : Server)
    → s.leaving ≡ gone
    → s.admitted ≡ []
    → s.serving ≡ []
    → (t : Server) × Reach s t × IsEmpty t
drain_leaving [] s e none_waits none_served = (s, here, (none_waits, none_served, e))
drain_leaving (host ∷ rest) s e none_waits none_served =
    let fewer = ap (λ w. (leave w s).leaving) e ∙ leave-leaving host rest s in
    let (t, r, empty) =
      drain_leaving rest (leave s.leaving s) fewer (leave-admitted s.leaving s ∙ none_waits)
        (leave-serving s.leaving s ∙ none_served) in
    (t, Reach-trans (next here leaves) r, empty)

pub drain : (s : Server) → (t : Server) × Reach s t × IsEmpty t
drain s =
    let (s₁, r₁, none_waits) = drain_admitted s.admitted s refl in
    let (s₂, r₂, still_none, none_served) = drain_serving s₁.serving s₁ refl none_waits in
    let (s₃, r₃, empty) = drain_leaving s₂.leaving s₂ refl still_none none_served in
    (s₃, Reach-trans r₁ (Reach-trans r₂ r₃), empty)

-- From every state that a new server reaches, stopping or not, steps lead on to a state without
-- connections, in which the wait group is at zero and the limiter has every slot back, in all and for
-- each source.
pub Reach-drains :
    (max_global max_per_ip : ℕ) {s : Server}
    → Reach (new_server (new_limiter max_global max_per_ip)) s
    → (t : Server) × Reach s t
      × (t.workers ≡ 0)
      × (t.limiter.global ≡ 0)
      × ((ip : Bytes) → lookup ip t.limiter.per_ip ≡ none)
Reach-drains g p {s} r =
    let (t, q, (none_waits, none_served, none_leaves)) = drain s in
    let reached = Reach-trans r q in
    let (opened, reach, each, all, group) = Reach-Refines g p reached in
    let done : t.workers ≡ 0 =
      omega (arith, group, ap (λ w. length w) none_served, ap (λ w. length w) none_leaves) in
    let (global, slots) = Reach-drained g p reached none_waits done in (t, q, done, global, slots)

-- A connection that `dispatch` takes undisturbed goes through the steps.
dispatch-Reach :
    (start : Server) (cancelled shunned : Bool) (host : Bytes) (s : Server)
    → s.admitted ≡ []
    → Reach start s
    → Reach start (dispatch cancelled shunned host s)
unfolding dispatch
dispatch-Reach start cancelled shunned host s alone r = elim (Bool-cases (cancelled || shunned)) [
  | inl closed ↦ rw closed r
  | inr taken ↦ rw taken (next (next r (admits host alone)) registers)
]
