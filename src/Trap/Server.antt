-- ===== src/Trap/Server.antt =====
-- internal/trap/tcpserver.go: admission of connections, their end and the stop of a trap's server.
-- The steps are those that the limiter's and the server's mutex make indivisible: `dispatch` takes a
-- slot, then registers the connection under the mutex that `Stop` uses; the deferred calls of `serve`
-- return the slot, then forget the connection. Here a server has the limiter to itself; Shared has the
-- servers of all traps at one limiter.
pub mod Slots
pub mod Stop
pub mod Drain
pub mod Shared
use ran.Base.{ℕ, ◌+◌, ◌-◌, ◌<◌, Bool, true, false, ◌||◌, List, [], ◌∷◌, Bytes, if◌then◌else◌, ◌≡◌}
use ran.Trap.Limiter.{Limiter, new_limiter, acquire, release}
use ran.Trap.Limiter.Counts.{count, close_one}

pub record Server : Type 0 where
  pub limiter : Limiter
  -- sources of the connections that `dispatch` has a slot for and has not registered
  pub admitted : List Bytes
  -- of those registered, with and without their slot
  pub serving : List Bytes
  pub leaving : List Bytes
  -- the wait group
  pub workers : ℕ
  pub stopping : Bool
  -- calls of `LogRejected`
  pub rejected : ℕ

abbrev pub new_server : Limiter → Server
new_server l = record {
  limiter = l;
  admitted = [];
  serving = [];
  leaving = [];
  workers = 0;
  stopping = false;
  rejected = 0;
}

-- `dispatch` up to the slot
unfoldable pub admit : Bytes → Server → Server
admit host s =
    let (l, ok) = acquire host s.limiter in
    if ok
    then record s { limiter = l; admitted = host ∷ s.admitted }
    else record s { limiter = l; rejected = s.rejected + 1 }

-- the rest of `dispatch`, under the mutex, for the connection that has a slot
unfoldable pub register : List Bytes → Server → Server
register [] s = s
register (host ∷ rest) s =
    if s.stopping
    then record s { limiter = release host s.limiter; admitted = rest }
    else record s { admitted = rest; serving = host ∷ s.serving; workers = s.workers + 1 }

-- `dispatch`, undisturbed
unfoldable pub dispatch : Bool → Bool → Bytes → Server → Server
dispatch cancelled shunned host s =
    if cancelled || shunned then s else (let s' = admit host s in register s'.admitted s')

-- the deferred `Release` of `serve`
unfoldable pub free_slot : Bytes → Server → Server
free_slot host s = record s {
  limiter = release host s.limiter;
  serving = close_one host s.serving;
  leaving = host ∷ s.leaving;
}

-- the deferred `delete` and `Done` of `serve`
unfoldable pub leave : List Bytes → Server → Server
leave [] s = s
leave (host ∷ rest) s = record s { leaving = rest; workers = s.workers - 1 }

-- `Stop` sets the flag; it then closes the connections and waits for the workers
unfoldable pub stop : Server → Server
stop s = record s { stopping = true }

pub data Step : Server → Server → Type 0 where
  admits : {s : Server} (host : Bytes) → s.admitted ≡ [] → Step s (admit host s)
  registers : {s : Server} → Step s (register s.admitted s)
  frees : {s : Server} (host : Bytes) → 0 < count host s.serving → Step s (free_slot host s)
  leaves : {s : Server} → Step s (leave s.leaving s)
  stops : {s : Server} → Step s (stop s)

pub data Reach (start : Server) : Server → Type 0 where
  here : Reach start start
  next : {s s' : Server} → Reach start s → Step s s' → Reach start s'
