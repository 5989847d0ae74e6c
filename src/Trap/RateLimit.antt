-- ===== src/Trap/RateLimit.antt =====
-- internal/trap/ratelimit.go: the token buckets of the UDP traps. Tokens, a float64 in the source,
-- are counted in parts of 10^-9, and times in nanoseconds, so that a refill is the product of the
-- time that has passed and the rate, exact; the rounding of floats is not modelled.
pub mod Budget
use ran.Base.{
  ℕ, ◌+◌, ◌-◌, ◌*◌, ◌/◌, Bool, true, false, not, ◌&&◌, ◌||◌, Option, none, some, List, [], ◌∷◌,
  Bytes, bytes_Eq, length, lookup, insert, ltb, leb, ◌==◌, if◌then◌else◌,
}

-- one token, and one second
abbrev pub unit : ℕ
unit = 1_000_000_000

abbrev pub max_rate_sources : ℕ
max_rate_sources = 100_000

pub record Bucket : Type 0 where
  pub tokens : ℕ
  pub last : ℕ

-- the tokens after the refill, at most the burst
unfoldable pub refill : ℕ → ℕ → ℕ → Bucket → ℕ
refill now rate burst b =
    let tokens = b.tokens + (now - b.last) * rate in
    if ltb b.last now
    then (if ltb (burst * unit) tokens then burst * unit else tokens)
    else b.tokens

-- the method `take` of a bucket
unfoldable pub take_token : ℕ → ℕ → ℕ → Bucket → Bucket × Bool
take_token now rate burst b =
    let tokens = refill now rate burst b in
    if ltb tokens unit
    then (record { tokens = tokens; last = now }, false)
    else (record { tokens = tokens - unit; last = now }, true)

pub record UdpRateLimiter : Type 0 where
  pub per_source : ℕ
  pub burst : ℕ
  pub global : ℕ
  pub max_sources : ℕ
  pub sources : List (Bytes × Bucket)
  pub global_bucket : Bucket
  pub last_sweep : ℕ

-- `orDefault`, of values that are not negative
unfoldable pub or_default : ℕ → ℕ → ℕ
or_default v def = if v == 0 then def else v

-- `newUDPRateLimiter`, of the settings for one source, the burst and all sources
unfoldable pub new_udp_rate_limiter : ℕ → ℕ → ℕ → ℕ → UdpRateLimiter
new_udp_rate_limiter per_source burst global now = record {
  per_source = or_default per_source 20;
  burst = or_default burst 40;
  global = or_default global 2000;
  max_sources = max_rate_sources;
  sources = [];
  global_bucket = record { tokens = or_default global 2000 * unit; last = now };
  last_sweep = now;
}

-- the loop of `makeRoom` that deletes the idle sources
unfoldable pub sweep : ℕ → ℕ → List (Bytes × Bucket) → List (Bytes × Bucket)
sweep now idle [] = []
sweep now idle ((k, b) ∷ sources) =
    if leb (b.last + idle) now then sweep now idle sources else (k, b) ∷ sweep now idle sources

unfoldable pub swept : ℕ → UdpRateLimiter → UdpRateLimiter
swept now l = record l {
  last_sweep = now;
  sources = sweep now (l.burst * unit / l.per_source) l.sources;
}

abbrev pub has_room : UdpRateLimiter → Bool
has_room l = ltb (length l.sources) l.max_sources

-- `makeRoom`
unfoldable pub make_room : ℕ → UdpRateLimiter → UdpRateLimiter × Bool
make_room now l =
    if has_room l
    then (l, true)
    else if ltb now (l.last_sweep + unit)
    then (l, false)
    else (swept now l, has_room (swept now l))

-- the bucket of a source, put back
abbrev pub with_bucket : Bytes → Bucket → UdpRateLimiter → UdpRateLimiter
with_bucket source b l = record l { sources = insert source b l.sources }

-- a packet against the global bucket
unfoldable pub take_global : ℕ → UdpRateLimiter → UdpRateLimiter × Bool
take_global now l =
    let (b, ok) = take_token now l.global l.global l.global_bucket in
    (record l { global_bucket = b }, ok)

-- a packet against the bucket of its source, and then the global one
unfoldable pub take_both : Bytes → ℕ → Bucket → UdpRateLimiter → UdpRateLimiter × Bool
take_both source now b l =
    let (b', ok) = take_token now l.per_source l.burst b in
    let l' = with_bucket source b' l in if ok then take_global now l' else (l', false)

-- a source that has no bucket yet, after `makeRoom`
unfoldable pub allow_new : Bytes → ℕ → UdpRateLimiter → Bool → UdpRateLimiter × Bool
allow_new source now l room =
    if room
    then take_both source now (record { tokens = l.burst * unit; last = now }) l
    else take_global now l

unfoldable pub allow_found : Bytes → ℕ → Option Bucket → UdpRateLimiter → UdpRateLimiter × Bool
allow_found source now none l = let (l', room) = make_room now l in allow_new source now l' room
allow_found source now (some b) l = take_both source now b l

-- `Allow`
unfoldable pub allow : Bytes → ℕ → UdpRateLimiter → UdpRateLimiter × Bool
allow source now l = allow_found source now (lookup source l.sources) l

-- a packet, by its source and the time at which it comes
pub record Packet : Type 0 where
  pub source : Bytes
  pub time : ℕ

-- the limiter after packets, and the number of those that it allows
unfoldable pub allow_all : List Packet → UdpRateLimiter → UdpRateLimiter × ℕ
allow_all [] l = (l, 0)
allow_all (p ∷ ps) l =
    let (l₁, ok) = allow p.source p.time l in
    let (l₂, n) = allow_all ps l₁ in (l₂, if ok then n + 1 else n)
