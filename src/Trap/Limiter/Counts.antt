-- ===== src/Trap/Limiter/Counts.antt =====
-- The limiter's counters are exactly the connections that are open.
use ran.Base.{
  ap, ◌==◌, ℕ, suc, ◌+◌, ◌-◌, ◌≤◌, ◌<◌, true, false, none, some, List, [], ◌∷◌, Bytes, bytes_Eq,
  bytes_eq, bytes_eq_iff, lookup, if◌then◌else◌, length, ◌≡◌, refl, arith, lookup-insert,
  lookup-erase,
}
use ran.Trap.Limiter.{Limiter, new_limiter, held, acquire, release}

-- how many of the open connections are from the source
unfoldable pub count : Bytes → List Bytes → ℕ
count ip [] = 0
count ip (x ∷ xs) = if bytes_eq x ip then suc (count ip xs) else count ip xs

-- one open connection of the source is closed
unfoldable pub close_one : Bytes → List Bytes → List Bytes
close_one ip [] = []
close_one ip (x ∷ xs) = if bytes_eq x ip then xs else x ∷ close_one ip xs

-- A connection is let in or turned away; one that was let in ends, at most once.
pub data Step : Limiter → List Bytes → Limiter → List Bytes → Type 0 where
  enters :
      {l l' : Limiter} {opened : List Bytes} (ip : Bytes)
      → acquire ip l ≡ (l', true)
      → Step l opened l' (ip ∷ opened)
  refused :
      {l l' : Limiter} {opened : List Bytes} (ip : Bytes)
      → acquire ip l ≡ (l', false)
      → Step l opened l' opened
  ends :
      {l l' : Limiter} {opened rest : List Bytes} (ip : Bytes)
      → 0 < count ip opened
      → release ip l ≡ l'
      → close_one ip opened ≡ rest
      → Step l opened l' rest

pub data Reach (start : Limiter) : Limiter → List Bytes → Type 0 where
  here : Reach start start []
  next :
      {l l' : Limiter} {opened opened' : List Bytes}
      → Reach start l opened
      → Step l opened l' opened'
      → Reach start l' opened'

-- The counters are the numbers of open connections, a source with none has no entry, and both
-- limits hold.
pub record IsExact (l : Limiter) (opened : List Bytes) : Type 0 where
  pub all : l.global ≡ length opened
  pub each :
      (ip : Bytes)
      → lookup ip l.per_ip ≡ (if count ip opened == 0 then none else some (count ip opened))
  pub global_limit : l.global ≤ l.max_global
  pub ip_limit : (ip : Bytes) → count ip opened ≤ l.max_per_ip

pub length-close_one :
    (ip : Bytes) (xs : List Bytes) → 0 < count ip xs → suc (length (close_one ip xs)) ≡ length xs
unfolding count close_one
length-close_one ip [] h = absurd (omega arith)
length-close_one ip (x ∷ xs) h = ground (arith, length-close_one ip xs)

pub count-close_one :
    (ip j : Bytes) (xs : List Bytes)
    → count j (close_one ip xs) ≡ (if bytes_eq ip j then count j xs - 1 else count j xs)
unfolding count close_one
count-close_one ip j [] = ground arith
count-close_one ip j (x ∷ xs) =
    ground (arith, bytes_eq_iff ip j, bytes_eq_iff x ip, bytes_eq_iff x j, count-close_one ip j xs)

pub held-count :
    (ip : Bytes) (l : Limiter) (opened : List Bytes)
    → IsExact l opened
    → held ip l ≡ count ip opened
unfolding held
held-count ip l opened e = ground (arith, e.each ip)

enters-IsExact :
    (ip : Bytes) (l : Limiter) (opened : List Bytes)
    → IsExact l opened
    → (acquire ip l).1 ≡ true
    → IsExact (acquire ip l).0 (ip ∷ opened)
unfolding acquire count
enters-IsExact ip l opened e h =
    let c = held-count ip l opened e in
    record {
      all = ground (arith, e.all);
      each = λ j.
          ground
            (arith, c, e.each j, bytes_eq_iff ip j, lookup-insert ip j (held ip l + 1) l.per_ip);
      global_limit = ground (arith, e.global_limit);
      ip_limit = λ j. ground (arith, c, e.ip_limit j, bytes_eq_iff ip j);
    }

pub refused-same : (ip : Bytes) (l : Limiter) → (acquire ip l).1 ≡ false → (acquire ip l).0 ≡ l
unfolding acquire
refused-same ip l h = ground arith

ends-IsExact :
    (ip : Bytes) (l : Limiter) (opened : List Bytes)
    → IsExact l opened
    → 0 < count ip opened
    → IsExact (release ip l) (close_one ip opened)
unfolding release
ends-IsExact ip l opened e h =
    let c = held-count ip l opened e in
    record {
      all = omega (arith, e.all, length-close_one ip opened h);
      each = λ j. ground (
        arith,
        c,
        e.each j,
        bytes_eq_iff ip j,
        count-close_one ip j opened,
        lookup-insert ip j (held ip l - 1) l.per_ip,
        lookup-erase ip j l.per_ip,
      );
      global_limit = omega (arith, e.global_limit);
      ip_limit = λ j. ground (arith, count-close_one ip j opened, e.ip_limit j);
    }

Step-IsExact :
    {l l' : Limiter} {opened opened' : List Bytes}
    → Step l opened l' opened'
    → IsExact l opened
    → IsExact l' opened'
Step-IsExact (enters {l} {l'} {opened} ip h) e =
    rw (← ap (λ r. r.0) h) (enters-IsExact ip l opened e (ap (λ r. r.1) h))
Step-IsExact (refused {l} {l'} {opened} ip h) e =
    rw (← ap (λ r. r.0) h, refused-same ip l (ap (λ r. r.1) h)) e
Step-IsExact (ends {l} {l'} {opened} {rest} ip open_ h k) e =
    rw (← h, ← k) (ends-IsExact ip l opened e open_)

-- In every state reached from a new limiter, by connections that are let in, turned away and
-- ended in any order: the counters are exactly the open connections, in all and for each source,
-- a source with none open has no entry left, and neither limit is exceeded.
pub Reach-IsExact :
    (max_global max_per_ip : ℕ) {l : Limiter} {opened : List Bytes}
    → Reach (new_limiter max_global max_per_ip) l opened
    → IsExact l opened
unfolding lookup count
Reach-IsExact g p here = record {
  all = refl;
  each = λ ip. refl;
  global_limit = omega arith;
  ip_limit = λ ip. omega arith;
}
Reach-IsExact g p (next r s) = Step-IsExact s (Reach-IsExact g p r)
