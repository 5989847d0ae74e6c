-- ===== src/Trap/Server/Shared/Drain.antt =====
-- Every connection of every trap can come to its end, and then the shared limiter has every slot back.
use mathlib.Core.Path.{subst}
use ran.Base.{
  ℕ, zero, suc, ◌+◌, ◌<◌, ◌==◌, none, some, List, [], ◌∷◌, Bytes, bytes_Eq, bytes_eq_iff, length,
  lookup, if◌then◌else◌, ◌≡◌, refl, sym, ap, ◌∙◌, arith, inl, inr, Bool-cases, All,
}
use ran.Trap.Limiter.{Limiter, new_limiter, held, acquire}
use ran.Trap.Limiter.Counts.{
  count, close_one, length-close_one, count-close_one, held-count, Reach-IsExact,
}
use ran.Trap.Limiter.Counts as Limits
use ran.Trap.Server.{Server, new_server}
use ran.Trap.Server as Server
use ran.Trap.Server.Drain.{IsEmpty, drain, count-head, close_one-head}
use ran.Trap.Server.Shared.{
  Traps, see, new_servers, new_traps, Turn, first, later, take_slot, give_back, Move, turns, takes,
  gives, Moves, here, next,
}
use ran.Trap.Server.Stop.{length-nil}
use ran.Trap.Server.Slots.{same_count, Step-RefinesBeside}

-- how many slots servers hold, for a source and in all
abbrev pub held_for : Bytes → List Server → ℕ
held_for ip [] = 0
held_for ip (s ∷ rest) = count ip s.admitted + count ip s.serving + held_for ip rest

abbrev pub held_in_all : List Server → ℕ
held_in_all [] = 0
held_in_all (s ∷ rest) = length s.admitted + length s.serving + held_in_all rest

-- The wait group counts the connections that are registered.
abbrev IsGrouped : Server → Type 0
IsGrouped s = s.workers ≡ length s.serving + length s.leaving

module _ (max_global max_per_ip : ℕ) where
  abbrev fresh : Limiter
  fresh = new_limiter max_global max_per_ip

  -- The limiter was used by connections that enter and end, and the open ones are those that hold a
  -- slot of a server, or elsewhere.
  abbrev Shares : (Bytes → ℕ) → ℕ → Limiter → List Server → Type 0
  Shares elsewhere n l servers =
      (opened : List Bytes) × Limits.Reach fresh l opened
      × ((ip : Bytes) → count ip opened ≡ held_for ip servers + elsewhere ip)
      × (length opened ≡ held_in_all servers + n)
      × All IsGrouped servers

  Turn-Shares :
      {l l' : Limiter} {servers servers' : List Server}
      → Turn l servers l' servers'
      → (elsewhere : Bytes → ℕ) (n : ℕ) → Shares elsewhere n l servers
      → Shares elsewhere n l' servers'
  Turn-Shares (first {l} {s} {s'} {rest} step) elsewhere n (opened, reach, each, all, grouped) =
      let (opened', reach', each', all', group') =
        Step-RefinesBeside max_global max_per_ip (λ ip. held_for ip rest + elsewhere ip)
          (held_in_all rest + n) step
          (opened, reach, λ ip. omega (arith, each ip), omega (arith, all), grouped.0) in
      (opened', reach', λ ip. omega (arith, each' ip), omega (arith, all'), (group', grouped.1))
  Turn-Shares (later {l} {l'} {s} {rest} {rest'} turn) elsewhere n
        (opened, reach, each, all, grouped) =
      let (opened', reach', each', all', grouped') =
        Turn-Shares turn (λ ip. count ip s.admitted + count ip s.serving + elsewhere ip)
          (length s.admitted + length s.serving + n)
          (opened, reach, λ ip. omega (arith, each ip), omega (arith, all), grouped.1) in
      (opened', reach', λ ip. omega (arith, each' ip), omega (arith, all'), (grouped.0, grouped'))

  abbrev AreExact : Traps → Type 0
  AreExact t = Shares (λ ip. count ip t.others) (length t.others) t.limiter t.servers

  take_slot-AreExact : (host : Bytes) (t : Traps) → AreExact t → AreExact (take_slot host t)
  unfolding take_slot count
  take_slot-AreExact host t (opened, reach, each, all, grouped) =
      elim (Bool-cases (acquire host t.limiter).1) [
        | inl let_in ↦ rw let_in (
          host ∷ opened,
          Limits.next reach (Limits.enters host (ap (λ b. ((acquire host t.limiter).0, b)) let_in)),
          λ ip. ground (arith, each ip),
          omega (arith, all),
          grouped,
        )
        | inr refused ↦ rw refused (
          opened,
          Limits.next reach
              (Limits.refused host (ap (λ b. ((acquire host t.limiter).0, b)) refused)),
          each,
          all,
          grouped,
        )
      ]

  give_back-AreExact :
      (host : Bytes) (t : Traps)
      → 0 < count host t.others
      → AreExact t
      → AreExact (give_back host t)
  unfolding give_back
  give_back-AreExact host t live (opened, reach, each, all, grouped) = (
    close_one host opened,
    Limits.next reach (Limits.ends host (omega (arith, each host, live)) refl refl),
    λ ip. ground (
      arith,
      count-close_one host ip opened,
      count-close_one host ip t.others,
      each ip,
      bytes_eq_iff host ip,
      same_count host ip t.others,
      live,
    ),
    omega (
      arith,
      length-close_one host opened (omega (arith, each host, live)),
      length-close_one host t.others live,
      all,
    ),
    grouped,
  )

  Move-AreExact : {t u : Traps} → Move t u → AreExact t → AreExact u
  Move-AreExact (turns {t} turn) h = Turn-Shares turn (λ ip. count ip t.others) (length t.others) h
  Move-AreExact (takes {t} host) h = take_slot-AreExact host t h
  Move-AreExact (gives {t} host live) h = give_back-AreExact host t live h

  new_servers-Shares : (n : ℕ) → Shares (λ ip. 0) 0 fresh (new_servers n fresh)
  unfolding new_servers count
  new_servers-Shares zero = ([], Limits.here, λ ip. refl, refl, tt)
  new_servers-Shares (suc n) =
      let (opened, reach, each, all, grouped) = new_servers-Shares n in
      (opened, reach, λ ip. omega (arith, each ip), omega (arith, all), (refl, grouped))

  Moves-AreExact : (n : ℕ) {t : Traps} → Moves (new_traps n max_global max_per_ip) t → AreExact t
  unfolding count
  Moves-AreExact n here = new_servers-Shares n
  Moves-AreExact n (next r move) = Move-AreExact move (Moves-AreExact n r)

-- turns after turns
data Turns (l : Limiter) (servers : List Server) : Limiter → List Server → Type 0 where
  done : Turns l servers l servers
  more :
      {l' l'' : Limiter} {servers' servers'' : List Server}
      → Turns l servers l' servers'
      → Turn l' servers' l'' servers''
      → Turns l servers l'' servers''

Turns-trans :
    {l l' : Limiter} {ss ss' : List Server} {l'' : Limiter} {ss'' : List Server}
    → Turns l ss l' ss'
    → Turns l' ss' l'' ss''
    → Turns l ss l'' ss''
Turns-trans p done = p
Turns-trans p (more q turn) = more (Turns-trans p q) turn

Turns-later :
    {l : Limiter} {rest : List Server} {l' : Limiter} {rest' : List Server} (s : Server)
    → Turns l rest l' rest'
    → Turns l (s ∷ rest) l' (s ∷ rest')
Turns-later s done = done
Turns-later s (more p turn) = more (Turns-later s p) (later turn)

-- What the first server reaches, it reaches in turns, but for what it thinks the limiter is.
Turns-first :
    {l : Limiter} {s t : Server} (rest : List Server)
    → Server.Reach (see l s) t
    → (s' : Server) × Turns l (s ∷ rest) t.limiter (s' ∷ rest) × (see t.limiter s' ≡ t)
Turns-first {l} {s} rest Server.here = (s, done, refl)
Turns-first {l} {s} rest (Server.next {s = t} {s' = t'} r step) =
    let (s', p, same) = Turns-first rest r in
    (t', more p (first (subst (λ x. Server.Step x t') (sym same) step)), refl)

drain-All :
    (servers : List Server) (l : Limiter)
    → (l' : Limiter) × (servers' : List Server) × Turns l servers l' servers' × All IsEmpty servers'
drain-All [] l = (l, [], done, tt)
drain-All (s ∷ rest) l =
    let (t, r, empty) = drain (see l s) in
    let (s', p, same) = Turns-first rest r in
    let (l', rest', q, are_empty) = drain-All rest t.limiter in
    (l', s' ∷ rest', Turns-trans p (Turns-later s' q), (subst IsEmpty (sym same) empty, are_empty))

Moves-trans : {t u v : Traps} → Moves t u → Moves u v → Moves t v
Moves-trans p here = p
Moves-trans p (next q move) = next (Moves-trans p q) move

Turns-Moves :
    (t : Traps) {l : Limiter} {servers : List Server}
    → Turns t.limiter t.servers l servers
    → Moves t (record t { limiter = l; servers = servers })
Turns-Moves t done = here
Turns-Moves t (more p turn) = next (Turns-Moves t p) (turns turn)

give_back_all :
    (held : List Bytes) (t : Traps)
    → t.others ≡ held
    → (u : Traps) × Moves t u × (u.others ≡ []) × (u.servers ≡ t.servers)
unfolding give_back
give_back_all [] t e = (t, here, e, refl)
give_back_all (host ∷ rest) t e =
    let live : 0 < count host t.others = rw e (count-head host rest) in
    let fewer = ap (close_one host) e ∙ close_one-head host rest in
    let (u, p, none_held, same) = give_back_all rest (give_back host t) fewer in
    (u, Moves-trans (next here (gives host live)) p, none_held, same)

-- A server without connections, whose wait group is at zero.
abbrev pub IsIdle : Server → Type 0
IsIdle s = IsEmpty s × (s.workers ≡ 0)

IsIdle-All :
    (servers : List Server) → All IsEmpty servers → All IsGrouped servers → All IsIdle servers
IsIdle-All [] h g = tt
IsIdle-All (s ∷ rest) ((admitted, serving, leaving), h) (group, g) = (
  (
    (admitted, serving, leaving),
    omega (arith, group, ap (λ w. length w) serving, ap (λ w. length w) leaving),
  ),
  IsIdle-All rest h g,
)

held_in_all-empty : (servers : List Server) → All IsEmpty servers → held_in_all servers ≡ 0
held_in_all-empty [] h = refl
held_in_all-empty (s ∷ rest) ((admitted, serving, leaving), h) =
    omega (arith, ap (λ w. length w) admitted, ap (λ w. length w) serving, held_in_all-empty rest h)

-- Every connection and every slot held elsewhere can come to its end.
drains :
    (n max_global max_per_ip : ℕ) {t : Traps}
    → Moves (new_traps n max_global max_per_ip) t
    → (u : Traps) × Moves t u
      × All IsIdle u.servers
      × (u.others ≡ [])
      × (u.limiter.global ≡ 0)
      × ((ip : Bytes) → lookup ip u.limiter.per_ip ≡ none)
unfolding count
drains n g p {t} r =
    let (l, servers, ts, are_empty) = drain-All t.servers t.limiter in
    let (u, q, none_held, same) =
      give_back_all t.others (record t { limiter = l; servers = servers }) refl in
    let on = Moves-trans (Turns-Moves t ts) q in
    let (opened, reach, each, all, grouped) = Moves-AreExact g p n (Moves-trans r on) in
    let empty = subst (λ ss. All IsEmpty ss) (sym same) are_empty in
    let exact = Reach-IsExact g p reach in
    let none_open =
      length-nil opened
        (omega (arith, all, held_in_all-empty u.servers empty, ap (λ w. length w) none_held)) in
    (
      u,
      on,
      IsIdle-All u.servers empty grouped,
      none_held,
      omega (arith, exact.all, ap (λ w. length w) none_open),
      λ ip. exact.each ip ∙ ap (λ w. if count ip w == 0 then none else some (count ip w)) none_open,
    )

-- In every state that new traps with one limiter reach, by the steps of their servers and by slots
-- that its other users take and give back, in any order and whichever servers are stopping: the limiter
-- counts the slots that are held, in all and for each source. From there such steps lead on to a state
-- in which no server has a connection, every wait group is at zero, no other user holds a slot, and the
-- limiter has every slot back, in all and for each source.
pub Moves-drains :
    (n max_global max_per_ip : ℕ) {t : Traps}
    → Moves (new_traps n max_global max_per_ip) t
    → (t.limiter.global ≡ held_in_all t.servers + length t.others)
      × ((ip : Bytes) → held ip t.limiter ≡ held_for ip t.servers + count ip t.others)
      × ((u : Traps) × Moves t u
          × All IsIdle u.servers
          × (u.others ≡ [])
          × (u.limiter.global ≡ 0)
          × ((ip : Bytes) → lookup ip u.limiter.per_ip ≡ none))
unfolding count
Moves-drains n g p {t} r =
    let (opened, reach, each, all, grouped) = Moves-AreExact g p n r in
    let exact = Reach-IsExact g p reach in
    (exact.all ∙ all, λ ip. held-count ip t.limiter opened exact ∙ each ip, drains n g p r)
