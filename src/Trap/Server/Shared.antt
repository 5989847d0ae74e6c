-- ===== src/Trap/Server/Shared.antt =====
-- cmd/ran/run.go makes one limiter for all traps: the servers of internal/trap/tcpserver.go take turns
-- at it, with its other users, the UDP and HTTP traps, of which it is taken that they release each
-- slot that they acquire once.
pub mod Drain
use ran.Base.{ℕ, ◌+◌, ◌<◌, zero, suc, List, [], ◌∷◌, Bytes, if◌then◌else◌}
use ran.Trap.Limiter.{Limiter, new_limiter, acquire, release}
use ran.Trap.Limiter.Counts.{count, close_one}
use ran.Trap.Server.{Server, new_server, Step}

-- the limiter, to which each server has a pointer, and the slots that its other users hold
pub record Traps : Type 0 where
  pub limiter : Limiter
  pub servers : List Server
  pub others : List Bytes

-- what a server sees through its pointer
abbrev pub see : Limiter → Server → Server
see l s = record s { limiter = l }

unfoldable pub new_servers : ℕ → Limiter → List Server
new_servers zero l = []
new_servers (suc n) l = new_server l ∷ new_servers n l

abbrev pub new_traps : ℕ → ℕ → ℕ → Traps
new_traps n max_global max_per_ip = record {
  limiter = new_limiter max_global max_per_ip;
  servers = new_servers n (new_limiter max_global max_per_ip);
  others = [];
}

-- a step of one of the servers, which sees the limiter as it is and leaves it changed
pub data Turn : Limiter → List Server → Limiter → List Server → Type 0 where
  first :
      {l : Limiter} {s s' : Server} {rest : List Server}
      → Step (see l s) s'
      → Turn l (s ∷ rest) s'.limiter (s' ∷ rest)
  later :
      {l l' : Limiter} {s : Server} {rest rest' : List Server}
      → Turn l rest l' rest'
      → Turn l (s ∷ rest) l' (s ∷ rest')

-- `Acquire` and `Release` of another user
unfoldable pub take_slot : Bytes → Traps → Traps
take_slot host t =
    let (l, ok) = acquire host t.limiter in
    if ok then record t { limiter = l; others = host ∷ t.others } else record t { limiter = l }

unfoldable pub give_back : Bytes → Traps → Traps
give_back host t = record t { limiter = release host t.limiter; others = close_one host t.others }

pub data Move : Traps → Traps → Type 0 where
  turns :
      {t : Traps} {l : Limiter} {servers : List Server}
      → Turn t.limiter t.servers l servers
      → Move t (record t { limiter = l; servers = servers })
  takes : {t : Traps} (host : Bytes) → Move t (take_slot host t)
  gives : {t : Traps} (host : Bytes) → 0 < count host t.others → Move t (give_back host t)

pub data Moves (start : Traps) : Traps → Type 0 where
  here : Moves start start
  next : {t u : Traps} → Moves start t → Move t u → Moves start u
