-- ===== src/Fifo/Find.antt =====
-- What a lookup in the map finds after an operation.
use ran.Base.{
  ℕ, ◌≢◌, none, some, Bytes, nat_eq, bytes_Eq, lookup, erase, ◌≡◌, ◌∙◌, arith, lookup-insert_self,
  Option-cases, inl, inr, ◌⊎◌,
}
use ran.Fifo.{Fifo, find, push_back, remove, assign, move_to_back}
use ran.Fifo.Wf.{Wf}
use ran.Fifo.Wf.Assoc.{
  lookup-append_self, lookup-append_ne, lookup-append_inv, lookup-erase_inv, lookup-erase_self,
  lookup-insert_ne,
}

module _ {ℓ} {V : Type ℓ} where
  -- Both steps of a lookup.
  pub find_lem :
      (f : Fifo V) (k : Bytes) (i : ℕ) (v : V)
      → lookup k f.index ≡ some i
      → lookup i f.order ≡ some v
      → find k f ≡ some (i, v)
  find_lem f k i v p q = rw (p, q)

  pub find_absent : (f : Fifo V) (k : Bytes) → lookup k f.index ≡ none → find k f ≡ none
  find_absent f k p = rw p

  pub find-remove_self : (f : Fifo V) (k : Bytes) (i : ℕ) → find k (remove k i f) ≡ none
  unfolding remove
  find-remove_self f k i = find_absent (remove k i f) k (lookup-erase_self k f.index)

  pub find-move_to_back :
      (f : Fifo V) (k : Bytes) (i : ℕ) (v : V)
      → lookup k f.index ≡ some i
      → find k (move_to_back i v (assign i v f)) ≡ some (i, v)
  unfolding move_to_back assign
  find-move_to_back f k i v p =
      let o = (assign i v f).order in
      find_lem (move_to_back i v (assign i v f)) k i v p
        (lookup-append_self i v (erase i o) (lookup-erase_self i o))

  pub find-assign :
      (f : Fifo V) (k : Bytes) (i : ℕ) (v : V)
      → lookup k f.index ≡ some i
      → find k (assign i v f) ≡ some (i, v)
  unfolding assign
  find-assign f k i v p = find_lem (assign i v f) k i v p (lookup-insert_self i v f.order)

  pub lookup-move_to_back_self :
      (f : Fifo V) (i : ℕ) (v : V) → lookup i (move_to_back i v f).order ≡ some v
  unfolding move_to_back
  lookup-move_to_back_self f i v =
      lookup-append_self i v (erase i f.order) (lookup-erase_self i f.order)

  pub lookup-move_to_back_inv :
      (f : Fifo V) (i j : ℕ) (v u : V)
      → lookup j (move_to_back i v f).order ≡ some u
      → ((i ≡ j) × (v ≡ u)) ⊎ (lookup j f.order ≡ some u)
  unfolding move_to_back
  lookup-move_to_back_inv f i j v u h =
      elim (lookup-append_inv i j v u (erase i f.order) (lookup-erase_self i f.order) h) [
        | inl p ↦ inl p
        | inr (ne, q) ↦ inr (lookup-erase_inv i j u f.order q).1
      ]

  pub index-push_back_self :
      (f : Fifo V) (k : Bytes) (v : V) → lookup k (push_back k v f).index ≡ some f.next
  unfolding push_back
  index-push_back_self f k v = lookup-insert_self k f.next f.index

  module _ (key : V → Bytes) (f : Fifo V) (w : Wf key f) where
    absent_next : lookup f.next f.order ≡ none
    absent_next = elim (Option-cases (lookup f.next f.order)) [
      | inl e ↦ e
      | inr (v, e) ↦ absurd (omega (arith, w.fresh f.next v e))
    ]

    pub find-push_back : (k : Bytes) (v : V) → find k (push_back k v f) ≡ some (f.next, v)
    unfolding push_back
    find-push_back k v =
        find_lem (push_back k v f) k f.next v (lookup-insert_self k f.next f.index)
          (lookup-append_self f.next v f.order absent_next)

    -- Another key finds what it found.
    pub find-push_back_ne : (k j : Bytes) (v : V) → k ≢ j → find j (push_back k v f) ≡ find j f
    unfolding push_back
    find-push_back_ne k j v ne = elim (Option-cases (lookup j f.index)) [
      | inl e ↦ find_absent (push_back k v f) j (lookup-insert_ne k j f.next f.index ne ∙ e) ∙ rw e
      | inr (i, e) ↦
          let (u, at, ku) = w.indexed j i e in
          find_lem (push_back k v f) j i u (lookup-insert_ne k j f.next f.index ne ∙ e) (
            lookup-append_ne f.next i v f.order absent_next (λ p. ground (arith, w.fresh i u at))
            ∙ at)
          ∙ rw (e, at)
    ]

    pub lookup-push_back_self : (k : Bytes) (v : V) → lookup f.next (push_back k v f).order ≡ some v
    unfolding push_back
    lookup-push_back_self k v = lookup-append_self f.next v f.order absent_next

    pub lookup-push_back_inv :
        (k : Bytes) (j : ℕ) (v u : V)
        → lookup j (push_back k v f).order ≡ some u
        → ((f.next ≡ j) × (v ≡ u)) ⊎ (lookup j f.order ≡ some u)
    unfolding push_back
    lookup-push_back_inv k j v u h = elim (lookup-append_inv f.next j v u f.order absent_next h) [
      | inl p ↦ inl p
      | inr (ne, q) ↦ inr q
    ]
