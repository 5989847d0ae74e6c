-- ===== src/Alert/Scan/Entry.antt =====
-- One source of the scan tracker: its protocols and ports with the times of their last touch.
use ran.Base.{
  ℕ, ◌+◌, ◌≤◌, ◌<◌, Bool, true, false, ◌&&◌, ◌||◌, none, some, List, [], ◌∷◌, Bytes, Eq, nat_eq,
  bytes_Eq, lookup, insert, length, ltb, leb, if◌then◌else◌, ◌≡◌, refl, ◌∙◌, arith,
  lookup-insert_self, inl, inr, length-insert-le, Option-cases, ◌≢◌,
}
use ran.Fifo.Wf.Assoc.{IsMap, insert-IsMap, lookup-insert_ne, length-insert_old}

pub record ScanEntry : Type 0 where
  pub ip : Bytes
  pub last : ℕ
  pub touched : List (Bytes × ℕ)
  pub ports : List (ℕ × ℕ)

abbrev pub max_scan_ports : ℕ
max_scan_ports = 16

abbrev pub new_entry : Bytes → ScanEntry
new_entry ip = record { ip = ip; last = 0; touched = []; ports = [] }

-- `now.Sub(at) >= s.window`
abbrev pub is_past : ℕ → ℕ → ℕ → Bool
is_past window now at = leb (at + window) now

-- a loop of `TouchPort` that deletes the touches that are past
unfoldable pub expire {ℓ} : {K : Type ℓ} → ℕ → ℕ → List (K × ℕ) → List (K × ℕ)
expire window now [] = []
expire window now ((k, at) ∷ m) =
    let rest = expire window now m in if is_past window now at then rest else (k, at) ∷ rest

abbrev pub known : ℕ → List (ℕ × ℕ) → Bool
known port m = elim (lookup port m) [ none ↦ false | some _ ↦ true ]

unfoldable pub add_port : ℕ → ℕ → List (ℕ × ℕ) → List (ℕ × ℕ)
add_port port now m =
    if ltb 0 port && (known port m || ltb (length m) max_scan_ports) then insert port now m else m

unfoldable pub touch_entry : ℕ → Bytes → ℕ → ℕ → ScanEntry → ScanEntry
unfolding expire add_port
touch_entry window protocol port now e = record e {
  last = now;
  touched = expire window now (insert protocol now e.touched);
  ports = add_port port now (expire window now e.ports);
}

-- `live >= s.threshold || len(e.ports) >= s.portLimit`
unfoldable pub verdict : ℕ → ℕ → ScanEntry → Bool
verdict threshold port_limit e = leb threshold (length e.touched) || leb port_limit (length e.ports)

module _ {ℓ} {K : Type ℓ} ⦃eq : Eq K⦄ where
  expire-absent :
      (window now : ℕ) (k : K) (m : List (K × ℕ))
      → lookup k m ≡ none
      → lookup k (expire window now m) ≡ none
  unfolding expire lookup
  expire-absent window now k [] h = refl
  expire-absent window now k ((j, at) ∷ m) h = ground (arith, expire-absent window now k m)

  -- A touch is kept exactly while it is not past.
  pub lookup-expire :
      (window now : ℕ) (k : K) (at : ℕ) (m : List (K × ℕ))
      → IsMap m
      → lookup k m ≡ some at
      → lookup k (expire window now m) ≡ (if is_past window now at then none else some at)
  unfolding expire lookup
  lookup-expire window now k at [] w h = absurd (ground arith)
  lookup-expire window now k at ((j, t) ∷ m) w h =
      ground
        (arith, eq.beq_iff j k, lookup-expire window now k at m w.1, expire-absent window now k m)

  pub expire-IsMap : (window now : ℕ) (m : List (K × ℕ)) → IsMap m → IsMap (expire window now m)
  unfolding expire
  expire-IsMap window now [] w = tt
  expire-IsMap window now ((j, t) ∷ m) w =
      ground (arith, expire-IsMap window now m w.1, expire-absent window now j m)

  pub length-expire-le :
      (window now : ℕ) (m : List (K × ℕ)) → length (expire window now m) ≤ length m
  unfolding expire
  length-expire-le window now [] = omega arith
  length-expire-le window now ((j, t) ∷ m) = ground (arith, length-expire-le window now m)

-- The maps hold each key once, and there are no more ports than the bound.
pub record IsBounded (e : ScanEntry) : Type 0 where
  pub touched_map : IsMap e.touched
  pub ports_map : IsMap e.ports
  pub few_ports : length e.ports ≤ max_scan_ports

add_port_lem :
    (port now : ℕ) (m : List (ℕ × ℕ))
    → IsMap m
    → length m ≤ max_scan_ports
    → IsMap (add_port port now m) × (length (add_port port now m) ≤ max_scan_ports)
unfolding add_port
add_port_lem port now m w h = elim (Option-cases (lookup port m)) [
  | inl new ↦ ground (arith, insert-IsMap port now m w, length-insert-le port now m)
  | inr (at, old) ↦ ground (arith, insert-IsMap port now m w, length-insert_old port now at m old)
]

pub touch_entry-IsBounded :
    (window : ℕ) (protocol : Bytes) (port now : ℕ) (e : ScanEntry)
    → IsBounded e
    → IsBounded (touch_entry window protocol port now e)
unfolding touch_entry
touch_entry-IsBounded window protocol port now e b =
    let fresh = expire-IsMap window now e.ports b.ports_map in
    let few : length (expire window now e.ports) ≤ max_scan_ports =
      omega (arith, length-expire-le window now e.ports, b.few_ports) in
    let (m, f) = add_port_lem port now (expire window now e.ports) fresh few in
    record {
      touched_map =
          expire-IsMap window now (insert protocol now e.touched)
            (insert-IsMap protocol now e.touched b.touched_map);
      ports_map = m;
      few_ports = f;
    }

-- After a touch of a bounded entry with a positive window the protocol is recorded with the time of
-- the touch, and any other protocol that was recorded keeps the time it had exactly if that is
-- still in the window.
pub touch_entry-touched :
    (window : ℕ) (protocol p : Bytes) (port now at : ℕ) (e : ScanEntry)
    → IsBounded e
    → 0 < window
    → p ≢ protocol
    → lookup p e.touched ≡ some at
    → (lookup protocol (touch_entry window protocol port now e).touched ≡ some now)
      × (lookup p (touch_entry window protocol port now e).touched
          ≡ (if is_past window now at then none else some at))
unfolding touch_entry
touch_entry-touched window protocol p port now at e b pos ne h =
    let m = insert protocol now e.touched in
    let w = insert-IsMap protocol now e.touched b.touched_map in
    (
      lookup-expire window now protocol now m w (lookup-insert_self protocol now e.touched)
          ∙ ground arith,
      lookup-expire window now p at m w
          (lookup-insert_ne protocol p now e.touched (λ q. ne (ground arith)) ∙ h),
    )

-- A positive port that a touch leaves unrecorded cannot hide a scan: with a limit of at most
-- sixteen ports, the source is a scanner already.
pub touch_entry-skipped :
    (window : ℕ) (protocol : Bytes) (port now threshold port_limit : ℕ) (e : ScanEntry)
    → 0 < port
    → port_limit ≤ max_scan_ports
    → lookup port (touch_entry window protocol port now e).ports ≡ none
    → verdict threshold port_limit (touch_entry window protocol port now e) ≡ true
unfolding touch_entry verdict add_port
touch_entry-skipped window protocol port now threshold port_limit e pos small h =
    ground (arith, lookup-insert_self port now (expire window now e.ports))
