-- ===== src/Trap/Server/Slots.antt =====
-- The server's connections use the limiter as it is meant to be used: a slot for each connection, and
-- each slot returned once.
use ran.Base.{
  ℕ, ◌+◌, ◌<◌, true, List, [], ◌∷◌, Bytes, bytes_eq, bytes_eq_iff, bytes_eq_refl, length, ◌≡◌, refl,
  sym, ap, ◌∙◌, arith, inl, inr, Bool-cases,
}
use ran.Trap.Limiter.{Limiter, new_limiter, acquire}
use ran.Trap.Limiter.Counts.{
  count, close_one, length-close_one, count-close_one, refused-same, IsExact, Reach-IsExact,
}
use ran.Trap.Limiter.Counts as Limits
use ran.Trap.Server.{
  Server, new_server, admit, register, free_slot, leave, stop, Step, admits, registers, frees,
  leaves, stops, Reach, here, next,
}

pub same_count :
    (host ip : Bytes) (xs : List Bytes) → bytes_eq host ip ≡ true → count ip xs ≡ count host xs
same_count host ip xs h = ap (λ k. count k xs) (sym ((bytes_eq_iff host ip).0 h))

module _ (max_global max_per_ip : ℕ) where
  abbrev fresh : Limiter
  fresh = new_limiter max_global max_per_ip

  -- The limiter was used by connections that enter and end, the open ones are those that are admitted
  -- or served, and the wait group counts those that are registered.
  abbrev pub Refines : Server → Type 0
  Refines s =
      (opened : List Bytes) × Limits.Reach fresh s.limiter opened
      × ((ip : Bytes) → count ip opened ≡ count ip s.admitted + count ip s.serving)
      × (length opened ≡ length s.admitted + length s.serving)
      × (s.workers ≡ length s.serving + length s.leaving)

  -- the same, for a limiter of which so many slots, in all and for each source, are held elsewhere
  module _ (elsewhere : Bytes → ℕ) (n : ℕ) where
    abbrev pub RefinesBeside : Server → Type 0
    RefinesBeside s =
        (opened : List Bytes) × Limits.Reach fresh s.limiter opened
        × ((ip : Bytes) → count ip opened ≡ count ip s.admitted + count ip s.serving + elsewhere ip)
        × (length opened ≡ length s.admitted + length s.serving + n)
        × (s.workers ≡ length s.serving + length s.leaving)

    admit-RefinesBeside :
        (host : Bytes) (s : Server) → RefinesBeside s → RefinesBeside (admit host s)
    unfolding admit count
    admit-RefinesBeside host s (opened, reach, each, all, group) =
        elim (Bool-cases (acquire host s.limiter).1) [
          | inl let_in ↦ rw let_in (
            host ∷ opened,
            Limits.next reach
                (Limits.enters host (ap (λ b. ((acquire host s.limiter).0, b)) let_in)),
            λ ip. ground (arith, each ip),
            omega (arith, all),
            group,
          )
          | inr refused ↦ rw refused (
            opened,
            Limits.next reach
                (Limits.refused host (ap (λ b. ((acquire host s.limiter).0, b)) refused)),
            each,
            all,
            group,
          )
        ]

    register-RefinesBeside :
        (waiting : List Bytes) (s : Server)
        → s.admitted ≡ waiting
        → RefinesBeside s
        → RefinesBeside (register waiting s)
    unfolding register count
    register-RefinesBeside [] s e r = r
    register-RefinesBeside (host ∷ rest) s e (opened, reach, each, all, group) =
        elim (Bool-cases s.stopping) [
          | inl stopped ↦ rw stopped (
            close_one host opened,
            Limits.next reach (Limits.ends host live refl refl),
            λ ip. ground (arith, count-close_one host ip opened, split ip, bytes_eq_iff host ip),
            omega (arith, length-close_one host opened live, sizes),
            group,
          )
          | inr running ↦ rw running (
            opened,
            reach,
            λ ip. ground (arith, split ip),
            omega (arith, sizes),
            omega (arith, group),
          )
        ]
      where
        split :
            (ip : Bytes)
            → count ip opened ≡ count ip (host ∷ rest) + count ip s.serving + elsewhere ip
        split ip = each ip ∙ ap (λ w. count ip w + count ip s.serving + elsewhere ip) e

        sizes : length opened ≡ length (host ∷ rest) + length s.serving + n
        sizes = all ∙ ap (λ w. length w + length s.serving + n) e

        live : 0 < count host opened
        live = ground (arith, split host, bytes_eq_refl host)

    free_slot-RefinesBeside :
        (host : Bytes) (s : Server)
        → 0 < count host s.serving
        → RefinesBeside s
        → RefinesBeside (free_slot host s)
    unfolding free_slot
    free_slot-RefinesBeside host s live (opened, reach, each, all, group) = (
      close_one host opened,
      Limits.next reach (Limits.ends host (omega (arith, each host, live)) refl refl),
      λ ip. ground (
        arith,
        count-close_one host ip opened,
        count-close_one host ip s.serving,
        each ip,
        bytes_eq_iff host ip,
        same_count host ip s.serving,
        live,
      ),
      omega (
        arith,
        length-close_one host opened (omega (arith, each host, live)),
        length-close_one host s.serving live,
        all,
      ),
      omega (arith, length-close_one host s.serving live, group),
    )

    leave-RefinesBeside :
        (gone : List Bytes) (s : Server)
        → s.leaving ≡ gone
        → RefinesBeside s
        → RefinesBeside (leave gone s)
    unfolding leave
    leave-RefinesBeside [] s e r = r
    leave-RefinesBeside (host ∷ rest) s e (opened, reach, each, all, group) =
        (opened, reach, each, all, omega (arith, group, ap (λ w. length w) e))

    pub Step-RefinesBeside : {s s' : Server} → Step s s' → RefinesBeside s → RefinesBeside s'
    unfolding stop
    Step-RefinesBeside (admits {s} host alone) r = admit-RefinesBeside host s r
    Step-RefinesBeside (registers {s}) r = register-RefinesBeside s.admitted s refl r
    Step-RefinesBeside (frees {s} host live) r = free_slot-RefinesBeside host s live r
    Step-RefinesBeside (leaves {s}) r = leave-RefinesBeside s.leaving s refl r
    Step-RefinesBeside (stops {s}) r = r

  -- In every state that a new server reaches, by connections that are admitted, registered, served
  -- and ended and by `Stop`, in any order: the limiter is in a state that connections reach that enter
  -- and end, each once, the open ones being those that hold a slot, admitted or served; and the wait
  -- group counts those that are registered.
  pub Reach-Refines : {s : Server} → Reach (new_server fresh) s → Refines s
  unfolding count
  Reach-Refines here = ([], Limits.here, λ ip. refl, refl, refl)
  Reach-Refines (next r step) =
      let (opened, reach, each, all, group) = Reach-Refines r in
      let (opened', reach', each', all', group') =
        Step-RefinesBeside (λ ip. 0) 0 step
          (opened, reach, λ ip. omega (arith, each ip), omega (arith, all), group) in
      (opened', reach', λ ip. omega (arith, each' ip), omega (arith, all'), group')
