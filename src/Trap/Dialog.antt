-- ===== src/Trap/Dialog.antt =====
-- The handlers of traps whose course depends on what the connection sends only: the writes to the
-- connection and the operations on the session, in the order in which they are made. The errors of
-- such writes are ignored by the source. `none` is a run-time panic. The scanner of package bufio is
-- a parameter: the lines that it delivers, and the error behind them, if any.
pub mod Trace
use ran.Base.{ℕ, Bool, Option, none, some, List, [], ◌∷◌, ◌++◌, Bytes, ◌>>=◌}
use ran.Trap.Session.{IoError}
use ran.Trap.Session.Order.{Op, io_error}

-- a write, an operation on the session, or the count of credentials in the metrics
pub data Act : Type 0 where
  write : Bytes → Act
  op : Op → Act
  record_credentials : Act

-- `setOutcome`, where there is an error
abbrev pub outcome : Option IoError → List Act
outcome none = []
outcome (some err) = op (io_error (some err)) ∷ []

-- a turn of a loop over lines: the handler returns, or goes on with a new state of its variables
pub data Turn (S : Type 0) : Type 0 where
  stop : List Act → Turn S
  go : List Act → S → Turn S

-- the loop over the lines of a scanner, and its error at the end
module _ {S : Type 0} (step : Bytes → S → Option (Turn S)) (err : Option IoError) where
  -- what comes after a turn
  unfoldable pub then_on : Turn S → (S → Option (List Act)) → Option (List Act)
  then_on (stop acts) rest = some acts
  then_on (go acts s) rest = rest s >>= λ more. some (acts ++ more)

  unfoldable pub scan : List Bytes → S → Option (List Act)
  scan [] s = some (outcome err)
  scan (line ∷ lines) s = step line s >>= λ t. then_on t (λ s'. scan lines s')

-- a greeting, which may fail, and the rest of the handler
abbrev pub greet : Bytes → Option IoError → Option (List Act) → Option (List Act)
greet greeting (some err) rest = some (write greeting ∷ outcome (some err))
greet greeting none rest = rest >>= λ acts. some (write greeting ∷ acts)

abbrev pub ops_of : List Act → List Op
ops_of [] = []
ops_of (op o ∷ acts) = o ∷ ops_of acts
ops_of (write b ∷ acts) = ops_of acts
ops_of (record_credentials ∷ acts) = ops_of acts

abbrev pub writes_of : List Act → List Bytes
writes_of [] = []
writes_of (op o ∷ acts) = writes_of acts
writes_of (write b ∷ acts) = b ∷ writes_of acts
writes_of (record_credentials ∷ acts) = writes_of acts
