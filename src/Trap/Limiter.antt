-- ===== src/Trap/Limiter.antt =====
-- internal/trap/limiter.go: connections in all and from each source. The counters of Go are
-- signed; `Release` follows a successful `Acquire`, and the steps say so.
pub mod Counts
use ran.Base.{
  ℕ, ◌+◌, ◌-◌, Bool, true, false, Option, none, some, List, [], ◌∷◌, Bytes, bytes_Eq, bytes_eq,
  lookup, insert, erase, ltb, leb, if◌then◌else◌,
}

pub record Limiter : Type 0 where
  pub max_global : ℕ
  pub max_per_ip : ℕ
  pub global : ℕ
  pub per_ip : List (Bytes × ℕ)

abbrev pub new_limiter : ℕ → ℕ → Limiter
new_limiter max_global max_per_ip = record {
  max_global = max_global;
  max_per_ip = max_per_ip;
  global = 0;
  per_ip = [];
}

-- `l.perIP[ip]`, 0 where the key is missing
unfoldable pub held : Bytes → Limiter → ℕ
held ip l = elim (lookup ip l.per_ip) [ none ↦ 0 | some n ↦ n ]

unfoldable pub acquire : Bytes → Limiter → Limiter × Bool
unfolding held
acquire ip l =
    if leb l.max_global l.global
    then (l, false)
    else if leb l.max_per_ip (held ip l)
    then (l, false)
    else (record l { global = l.global + 1; per_ip = insert ip (held ip l + 1) l.per_ip }, true)

unfoldable pub release : Bytes → Limiter → Limiter
unfolding held
release ip l =
    let n = held ip l - 1 in
    record l {
      global = l.global - 1;
      per_ip = if leb n 0 then erase ip l.per_ip else insert ip n l.per_ip;
    }
