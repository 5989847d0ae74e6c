-- ===== src/Trap/RateLimit/Budget.antt =====
-- What the buckets let through, and how many sources they remember.
use native.Mathlib.Nat.{mul-le-mul_right, add-mul}
use ran.Base.{
  ℕ, ◌+◌, ◌-◌, ◌*◌, ◌/◌, ◌≤◌, Bool, true, false, List, [], ◌∷◌, Bytes, bytes_Eq, length, lookup,
  insert, length-insert-le, ltb, if◌then◌else◌, ◌≡◌, refl, arith, inl, inr, Bool-cases,
  Option-cases, length-insert_old,
}
use ran.Trap.RateLimit.{
  unit, Bucket, refill, take_token, UdpRateLimiter, new_udp_rate_limiter, sweep, swept, has_room,
  make_room, with_bucket, take_global, take_both, allow_new, allow_found, allow, Packet, allow_all,
  or_default, max_rate_sources,
}

abbrev one_if : Bool → ℕ
one_if true = 1
one_if false = 0

-- A bucket gives no more than it held and what the time since brought.
take_token-within :
    (now rate burst : ℕ) (b : Bucket)
    → b.last ≤ now
    → (one_if (take_token now rate burst b).1 * unit + (take_token now rate burst b).0.tokens
        ≤ b.tokens + (now - b.last) * rate)
      × ((take_token now rate burst b).0.last ≡ now)
unfolding take_token refill
take_token-within now rate burst b h = ground (arith, h)

-- What a packet at a time does: the rates stay, the sources stay within their bound, and the global
-- bucket pays for the packet if it is allowed.
record IsFair (now : ℕ) (l l' : UdpRateLimiter) (ok : Bool) : Type 0 where
  global : l'.global ≡ l.global
  max_sources : l'.max_sources ≡ l.max_sources
  sources : length l'.sources ≤ l.max_sources
  last : l'.global_bucket.last ≤ now
  paid :
      one_if ok * unit + l'.global_bucket.tokens + l.global_bucket.last * l.global
      ≤ l.global_bucket.tokens + l'.global_bucket.last * l.global

module _ (now : ℕ) where
  -- The limiter with other buckets for its sources.
  abbrev Kept : UdpRateLimiter → UdpRateLimiter → Type 0
  Kept l l' =
      (l'.global ≡ l.global)
      × (l'.max_sources ≡ l.max_sources)
      × (l'.global_bucket ≡ l.global_bucket)
      × (length l'.sources ≤ l.max_sources)

  refused-IsFair :
      (l l' : UdpRateLimiter) → l.global_bucket.last ≤ now → Kept l l' → IsFair now l l' false
  refused-IsFair l l' h k = ground (arith, h)

  take_global-IsFair :
      (l l' : UdpRateLimiter)
      → l.global_bucket.last ≤ now
      → Kept l l'
      → IsFair now l (take_global now l').0 (take_global now l').1
  unfolding take_global
  take_global-IsFair l l' h k =
      let (a, b) = take_token-within now l.global l.global l.global_bucket h in
      record {
        global = k.0;
        max_sources = k.1;
        sources = k.3;
        last = rw (k.0, k.2) (omega (arith, b));
        paid = rw (k.0, k.2, b) (grind (arith, a, h));
      }

  take_both-IsFair :
      (source : Bytes) (b : Bucket) (l l' : UdpRateLimiter)
      → l.global_bucket.last ≤ now
      → Kept l l'
      → ((c : Bucket) → length (insert source c l'.sources) ≤ l.max_sources)
      → IsFair now l (take_both source now b l').0 (take_both source now b l').1
  unfolding take_both
  take_both-IsFair source b l l' h k grow =
      let (c, ok) = take_token now l'.per_source l'.burst b in
      let next = with_bucket source c l' in
      elim (Bool-cases ok) [
        | inl some_ ↦ rw some_ (take_global-IsFair l next h (k.0, k.1, k.2, grow c))
        | inr none_ ↦ rw none_ (refused-IsFair l next h (k.0, k.1, k.2, grow c))
      ]

length-sweep :
    (now idle : ℕ) (sources : List (Bytes × Bucket))
    → length (sweep now idle sources) ≤ length sources
unfolding sweep
length-sweep now idle [] = omega arith
length-sweep now idle ((k, b) ∷ sources) = ground (arith, length-sweep now idle sources)

-- If there is room, there is: one source more is within the bound.
make_room-Kept :
    (now : ℕ) (l : UdpRateLimiter)
    → length l.sources ≤ l.max_sources
    → Kept now l (make_room now l).0
      × ((make_room now l).1 ≡ true → length (make_room now l).0.sources + 1 ≤ l.max_sources)
unfolding make_room swept
make_room-Kept now l h = elim (Bool-cases (has_room l)) [
  | inl room ↦ simp room ((refl, refl, refl, h), λ e. ground (arith, room))
  | inr full ↦ elim (Bool-cases (ltb now (l.last_sweep + unit))) [
    | inl soon ↦ simp (full, soon) ((refl, refl, refl, h), λ e. cc)
    | inr late ↦
        let fewer = length-sweep now (l.burst * unit / l.per_source) l.sources in
        simp (full, late) ((refl, refl, refl, omega (arith, fewer)), λ e. ground (arith, e))
  ]
]

allow-IsFair :
    (source : Bytes) (now : ℕ) (l : UdpRateLimiter)
    → l.global_bucket.last ≤ now
    → length l.sources ≤ l.max_sources
    → IsFair now l (allow source now l).0 (allow source now l).1
unfolding allow allow_found allow_new
allow-IsFair source now l h k = elim (Option-cases (lookup source l.sources)) [
  | inr (b, found) ↦ rw found (
      take_both-IsFair now source b l l h (refl, refl, refl, k)
        (λ c. omega (arith, length-insert_old source c l.sources found, k)))
  | inl new ↦ rw new (
      let (l', room) = make_room now l in
      let (kept, more) = make_room-Kept now l k in
      elim (Bool-cases room) [
        | inl yes_ ↦ rw yes_ (
            take_both-IsFair now source (record { tokens = l'.burst * unit; last = now }) l l' h
              kept (λ c. omega (arith, length-insert-le source c l'.sources, more yes_)))
        | inr no_ ↦ rw no_ (take_global-IsFair now l l' h kept)
      ])
]

-- Packets in the order of time, none before a moment.
abbrev pub Ascending : ℕ → List Packet → Type 0
Ascending from [] = Unit
Ascending from (p ∷ ps) = (from ≤ p.time) × Ascending p.time ps

-- the time of the last packet
abbrev pub last_time : ℕ → List Packet → ℕ
last_time from [] = from
last_time from (p ∷ ps) = last_time p.time ps

one_if_lem : (b : Bool) (n : ℕ) → (if b then n + 1 else n) ≡ one_if b + n
one_if_lem true n = omega arith
one_if_lem false n = omega arith

-- What was paid by a moment, with the tokens left out.
in_time :
    (rate start last until n left : ℕ)
    → last ≤ until
    → n * unit + left + start * rate ≤ rate * unit + last * rate
    → n * unit ≤ rate * unit + (until - start) * rate
in_time rate start last until n left h k =
    let within : last ≤ start + (until - start) = omega (arith, h) in
    omega (arith, mul-le-mul_right rate within, add-mul start (until - start) rate, k)

-- What packets in order take from the global bucket, and what is left.
record IsPaid (l l' : UdpRateLimiter) (until n : ℕ) : Type 0 where
  last : l'.global_bucket.last ≤ until
  sources : length l'.sources ≤ l.max_sources
  paid :
      n * unit + l'.global_bucket.tokens + l.global_bucket.last * l.global
      ≤ l.global_bucket.tokens + l'.global_bucket.last * l.global

allow_all-IsPaid :
    (ps : List Packet) (from : ℕ) (l : UdpRateLimiter)
    → l.global_bucket.last ≤ from
    → length l.sources ≤ l.max_sources
    → Ascending from ps
    → IsPaid l (allow_all ps l).0 (last_time from ps) (allow_all ps l).1
unfolding allow_all
allow_all-IsPaid [] from l h k a = record { last = h; sources = k; paid = omega arith }
allow_all-IsPaid (p ∷ ps) from l h k a =
    let (l₁, ok) = allow p.source p.time l in
    let fair = allow-IsFair p.source p.time l (omega (arith, h, a.0)) k in
    let rest =
      allow_all-IsPaid ps p.time l₁ fair.last (omega (arith, fair.sources, fair.max_sources)) a.1 in
    let paid = rw fair.global at rest.paid in
    record {
      last = rest.last;
      sources = omega (arith, rest.sources, fair.max_sources);
      paid = rw (one_if_lem ok (allow_all ps l₁).1) (omega (arith, fair.paid, paid));
    }

-- From a new limiter, for packets in the order of their times: those allowed, whatever their sources,
-- are no more than the global burst and what the global rate brings in the time up to the last
-- packet, and never are more than 100000 sources remembered.
pub allow_all-budget :
    (per_source burst global start : ℕ) (ps : List Packet)
    → Ascending start ps
    → ((allow_all ps (new_udp_rate_limiter per_source burst global start)).1 * unit
        ≤ or_default global 2000 * unit + (last_time start ps - start) * or_default global 2000)
      × (length (allow_all ps (new_udp_rate_limiter per_source burst global start)).0.sources
          ≤ max_rate_sources)
unfolding new_udp_rate_limiter
allow_all-budget per_source burst global start ps a =
    let l = new_udp_rate_limiter per_source burst global start in
    let all = allow_all-IsPaid ps start l (omega arith) (omega arith) a in
    (
      in_time (or_default global 2000) start _ (last_time start ps) _ _ all.last all.paid,
      all.sources,
    )
