-- ===== src/Alert/Worker/Bounds.antt =====
-- Batches are never empty, never longer than the batch size, and never larger than the request
-- limit unless they are one alert.
use ran.Alert.Worker.{Pending, size, max_batch_bytes}
use ran.Alert.Worker.Batch.{Batch, is_empty, make_way, put, collect}
use ran.Base.{
  ℕ, ◌+◌, ◌≤◌, ◌<◌, false, ◌&&◌, not, List, [], ◌∷◌, ◌++◌, length, ltb, leb, ◌≡◌, refl, arith, ◌⊎◌,
  Bool-cases, inl, inr, length-append, All, All-append,
}

-- the encoded size of a batch
abbrev pub total : List Pending → ℕ
total [] = 0
total (p ∷ ps) = size p + total ps

total-append : (xs ys : List Pending) → total (xs ++ ys) ≡ total xs + total ys
total-append [] ys = omega arith
total-append (x ∷ xs) ys = omega (arith, total-append xs ys)

-- A list that one post may hold.
abbrev pub IsSmall : List Pending → Type 0
IsSmall l = (total l ≤ max_batch_bytes) ⊎ (length l ≤ 1)

-- A batch that is sent.
abbrev pub IsSendable : ℕ → List Pending → Type 0
IsSendable n l = (1 ≤ length l) × (length l ≤ n) × IsSmall l

-- A batch that is being filled: its bytes are counted, and there is room for an alert.
abbrev pub IsOpen : ℕ → Batch → Type 0
IsOpen n b = (b.bytes ≡ total b.items) × (length b.items < n) × IsSmall b.items

make_way-IsOpen :
    (n : ℕ) (p : Pending) (b : Batch)
    → IsOpen n b
    → All (IsSendable n) (make_way p b).0
      × IsOpen n (make_way p b).1
      × ((length (make_way p b).1.items ≡ 0) ⊎ ((make_way p b).1.bytes + size p ≤ max_batch_bytes))
unfolding make_way
make_way-IsOpen n p b (counted, room, small) =
    elim (Bool-cases (not (is_empty b.items) && ltb max_batch_bytes (b.bytes + size p))) [
      | inl early ↦ rw early (
        ((nonempty b.items (ground arith), omega (arith, room), small), tt),
        (refl, omega (arith, room), inr (omega arith)),
        inl refl,
      )
      | inr fits ↦ rw fits (tt, (counted, room, small), fitting b.items (b.bytes + size p) fits)
    ]
  where
    nonempty : (l : List Pending) → is_empty l ≡ false → 1 ≤ length l
    nonempty [] h = absurd (ground arith)
    nonempty (x ∷ l) h = omega arith

    fitting :
        (l : List Pending) (s : ℕ)
        → (not (is_empty l) && ltb max_batch_bytes s) ≡ false
        → (length l ≡ 0) ⊎ (s ≤ max_batch_bytes)
    fitting [] s h = inl refl
    fitting (x ∷ l) s h = inr (ground arith)

put-IsOpen :
    (n : ℕ) (p : Pending) (b : Batch)
    → 1 ≤ n
    → IsOpen n b
    → (length b.items ≡ 0) ⊎ (b.bytes + size p ≤ max_batch_bytes)
    → All (IsSendable n) (put n p b).0 × IsOpen n (put n p b).1
unfolding put
put-IsOpen n p b positive (counted, room, small) fits =
    elim (Bool-cases (leb n (length (b.items ++ p ∷ [])))) [
      | inl full ↦ rw full (
        ((omega (arith, longer), omega (arith, longer, room), grown), tt),
        (refl, omega (arith, positive), inr (omega arith)),
      )
      | inr open_ ↦ rw open_ (tt, (counted_after, ground (arith, longer), grown))
    ]
  where
    longer : length (b.items ++ p ∷ []) ≡ length b.items + 1
    longer = length-append b.items (p ∷ [])

    heavier : total (b.items ++ p ∷ []) ≡ total b.items + size p
    heavier = omega (arith, total-append b.items (p ∷ []))

    counted_after : b.bytes + size p ≡ total (b.items ++ p ∷ [])
    counted_after = omega (arith, heavier, counted)

    grown : IsSmall (b.items ++ p ∷ [])
    grown = elim fits [
      | inl none_yet ↦ inr (omega (arith, longer, none_yet))
      | inr within ↦ inl (omega (arith, heavier, counted, within))
    ]

-- For a batch size of at least 1, and a batch that is open (its bytes are counted, it has room for
-- an alert, and it is within the request limit or at most one alert): what `collect` makes of the
-- batch and an alert is again an open batch, and every batch that it sends is not empty, not longer
-- than the batch size, and within the request limit unless it is a single alert.
pub collect-All :
    (n : ℕ) (p : Pending) (b : Batch)
    → 1 ≤ n
    → IsOpen n b
    → All (IsSendable n) (collect n p b).0 × IsOpen n (collect n p b).1
unfolding collect
collect-All n p b positive open_ =
    let (early, made, fits) = make_way-IsOpen n p b open_ in
    let (full, left) = put-IsOpen n p (make_way p b).1 positive made fits in
    (All-append (IsSendable n) (make_way p b).0 (put n p (make_way p b).1).0 early full, left)
