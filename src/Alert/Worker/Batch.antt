-- ===== src/Alert/Worker/Batch.antt =====
-- `batchWorker` of internal/alert/crowdsec.go: collecting alerts into batches, and the loop over
-- what its two channels deliver, in the order in which `select` takes it.
use ran.Alert.Netip.{Netip}
use ran.Alert.Pipeline.{AlertMsg}
use ran.Alert.Worker.{Lapi, Pending, size, max_batch_bytes, Worker, give_up, encode, send}
use ran.Base.{
  ℕ, ◌+◌, Bool, true, false, ◌&&◌, not, Option, none, some, List, [], ◌∷◌, ◌++◌, length, ltb, leb,
  ◌==◌, if◌then◌else◌,
}

pub record Config : Type 0 where
  pub batch_size : ℕ
  pub batch_interval : ℕ

-- `batch` and `batchBytes`
pub record Batch : Type 0 where
  pub items : List Pending
  pub bytes : ℕ

abbrev pub no_batch : Batch
no_batch = record { items = []; bytes = 0 }

abbrev pub is_empty : List Pending → Bool
is_empty [] = true
is_empty (p ∷ ps) = false

-- the batch that is sent early, if the alert does not fit behind it, and the batch to go on with
unfoldable pub make_way : Pending → Batch → List (List Pending) × Batch
make_way p b =
    if not (is_empty b.items) && ltb max_batch_bytes (b.bytes + size p)
    then (b.items ∷ [], no_batch)
    else ([], b)

-- the batch with the alert, sent if it is full
unfoldable pub put : ℕ → Pending → Batch → List (List Pending) × Batch
put batch_size p b =
    let items = b.items ++ p ∷ [] in
    if leb batch_size (length items)
    then (items ∷ [], no_batch)
    else ([], record { items = items; bytes = b.bytes + size p })

-- the batches that an encoded alert makes the worker send, and the batch that is left
unfoldable pub collect : ℕ → Pending → Batch → List (List Pending) × Batch
collect batch_size p b =
    let (early, b₁) = make_way p b in let (full, b₂) = put batch_size p b₁ in (early ++ full, b₂)

-- what `select` takes: an alert from the queue, or the tick of the interval
pub data Event : Type 0 where
  received : AlertMsg → Event
  ticked : Event

abbrev pub fresh : AlertMsg → Pending
fresh m = record { msg = m; raw = none }

module _ (net : Netip) (lapi : Lapi) (cfg : Config) where
  open lapi use {World, now}

  unfoldable pub send_all : List (List Pending) → Worker net lapi → Worker net lapi
  send_all [] w = w
  send_all (b ∷ bs) w = send_all bs (send net lapi cfg.batch_interval b w)

  -- the case of an alert, with its encoding
  unfoldable pub take_in :
      AlertMsg → Option Pending → Batch → Worker net lapi → Worker net lapi × Batch
  take_in m none b w = (give_up net lapi (fresh m ∷ []) w, b)
  take_in m (some p) b w = let (out, b') = collect cfg.batch_size p b in (send_all out w, b')

  unfoldable pub on_event : Event → Batch → Worker net lapi → Worker net lapi × Batch
  on_event (received m) b w = take_in m (encode net lapi (now w.world) (fresh m)) b w
  on_event ticked b w =
      if is_empty b.items then (w, b) else (send net lapi cfg.batch_interval b.items w, no_batch)

  -- the loop of `batchWorker` with a batch interval, until the queue is closed: the last batch is
  -- sent then
  unfoldable pub batch_loop : List Event → Batch → Worker net lapi → Worker net lapi
  batch_loop [] b w = send net lapi cfg.batch_interval b.items w
  batch_loop (e ∷ es) b w = let (w', b') = on_event e b w in batch_loop es b' w'

  -- the loop without one: each alert is sent by itself, and there are no ticks
  unfoldable pub single_loop : List Event → Worker net lapi → Worker net lapi
  single_loop [] w = w
  single_loop (received m ∷ es) w =
      single_loop es (send net lapi cfg.batch_interval (fresh m ∷ []) w)
  single_loop (ticked ∷ es) w = single_loop es w

  unfoldable pub batch_worker : List Event → Worker net lapi → Worker net lapi
  batch_worker es w = if cfg.batch_interval == 0 then single_loop es w else batch_loop es no_batch w

-- the alerts that were taken from the queue
unfoldable pub taken : List Event → List AlertMsg
taken [] = []
taken (received m ∷ es) = m ∷ taken es
taken (ticked ∷ es) = taken es
