-- ===== src/Trap/Server/Stop.antt =====
-- What holds after `Stop`.
use ran.Base.{
  ℕ, ◌==◌, ◌≤◌, true, none, some, List, [], ◌∷◌, Bytes, bytes_Eq, lookup, length, if◌then◌else◌,
  ◌≡◌, refl, ap, ◌∙◌, arith, inl, inr, Bool-cases,
}
use ran.Trap.Limiter.{new_limiter, acquire}
use ran.Trap.Limiter.Counts.{count, length-close_one, Reach-IsExact}
use ran.Trap.Server.{
  Server, new_server, admit, register, free_slot, leave, stop, Step, admits, registers, frees,
  leaves, stops, Reach, here, next,
}
use ran.Trap.Server.Slots.{Reach-Refines}

-- A server that is stopping and serves no more than so many connections.
abbrev pub IsWindingDown : ℕ → Server → Type 0
IsWindingDown n s = (s.stopping ≡ true) × (length s.serving ≤ n)

Step-IsWindingDown : (n : ℕ) {s s' : Server} → Step s s' → IsWindingDown n s → IsWindingDown n s'
unfolding admit register free_slot leave stop
Step-IsWindingDown n (admits {s} host alone) h = elim (Bool-cases (acquire host s.limiter).1) [
  | inl let_in ↦ rw let_in h
  | inr refused ↦ rw refused h
]
Step-IsWindingDown n (registers {s}) h = registered s.admitted
  where
    registered : (waiting : List Bytes) → IsWindingDown n (register waiting s)
    registered [] = h
    registered (host ∷ rest) = rw h.0 (refl, h.1)
Step-IsWindingDown n (frees {s} host live) (stopped, few) =
    (stopped, omega (arith, length-close_one host s.serving live, few))
Step-IsWindingDown n (leaves {s}) h = left s.leaving
  where
    left : (gone : List Bytes) → IsWindingDown n (leave gone s)
    left [] = h
    left (host ∷ rest) = h
Step-IsWindingDown n (stops {s}) (stopped, few) = (refl, few)

-- After `Stop`, whatever happens: the server goes on stopping, and the connections that it serves do
-- not become more.
pub Reach-IsWindingDown :
    {s s' : Server} → s.stopping ≡ true → Reach s s' → IsWindingDown (length s.serving) s'
Reach-IsWindingDown stopped here = (stopped, omega arith)
Reach-IsWindingDown {s} stopped (next r step) =
    Step-IsWindingDown (length s.serving) step (Reach-IsWindingDown stopped r)

pub length-nil : (xs : List Bytes) → length xs ≡ 0 → xs ≡ []
length-nil [] h = refl
length-nil (x ∷ xs) h = absurd (ground (arith, h))

-- In every state that a new server reaches: once no connection waits for registration and the wait
-- group is at zero, as it is when `Stop` returns, the limiter has every slot back, in all and for each
-- source.
pub Reach-drained :
    (max_global max_per_ip : ℕ) {s : Server}
    → Reach (new_server (new_limiter max_global max_per_ip)) s
    → s.admitted ≡ []
    → s.workers ≡ 0
    → (s.limiter.global ≡ 0) × ((ip : Bytes) → lookup ip s.limiter.per_ip ≡ none)
unfolding count
Reach-drained g p {s} r empty done =
    let (opened, reach, each, all, group) = Reach-Refines g p r in
    let exact = Reach-IsExact g p reach in
    let none_open = length-nil opened (omega (arith, all, group, done, ap (λ w. length w) empty)) in
    (
      omega (arith, exact.all, ap (λ w. length w) none_open),
      λ ip. exact.each ip ∙ ap (λ w. if count ip w == 0 then none else some (count ip w)) none_open,
    )
