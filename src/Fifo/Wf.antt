-- ===== src/Fifo/Wf.antt =====
-- The map and the list of a tracking table agree, and every operation keeps them so.
pub mod Assoc
use native.Mathlib.Decide.{ℕ_discrete}
use ran.Base.{
  List, lookup-insert_self, ◌∙◌, ℕ, suc, ◌+◌, ◌<◌, ◌≤◌, [], ◌∷◌, ◌++◌, none, some, Bytes, length,
  nat_eq, bytes_Eq, lookup, erase, ◌≡◌, refl, ap, ◌⊎◌, inl, inr, arith, lookup-insert, lookup-erase,
  bytes_eq_iff, ==_iff, length-append, Bool-cases, bytes_eq, ◌==◌, Option-cases,
}
use ran.Fifo.{Fifo, empty, size, first, value, find, front, push_back, remove, assign, move_to_back}
use Assoc.{
  IsMap, insert-IsMap, erase-IsMap, append-IsMap, lookup-append, length-erase, length-insert_new,
  length-insert_old, lookup-insert_inv, lookup-erase_inv, lookup-append_inv, lookup-erase_ne,
  lookup-erase_self, lookup-insert_ne, lookup-append_self, lookup-append_ne,
}

first-some {ℓ} :
    {V : Type ℓ} (o : List (ℕ × V)) (i : ℕ) (v : V) → first o ≡ some (i, v) → lookup i o ≡ some v
unfolding lookup
first-some [] i v h = absurd (ground arith)
first-some ((j, u) ∷ o) i v h = ground arith

first-none {ℓ} : {V : Type ℓ} (o : List (ℕ × V)) → first o ≡ none → length o ≡ 0
first-none [] h = refl
first-none (x ∷ o) h = absurd (ground arith)

-- A key that is not in the map does not come into it when an element is taken away.
pub absent-remove {ℓ} :
    {V : Type ℓ} (k j : Bytes) (i : ℕ) (f : Fifo V)
    → lookup k f.index ≡ none
    → lookup k (remove j i f).index ≡ none
unfolding remove
absent-remove k j i f h = ground (arith, lookup-erase j k f.index)

module _ {ℓ} {V : Type ℓ} (key : V → Bytes) where
  -- Each key leads to the element that carries it, each element is led to by its key, and an
  -- element that is still to be made is not in the list.
  pub record Wf (f : Fifo V) : Type ℓ where
    pub index_map : IsMap f.index
    pub order_map : IsMap f.order
    pub indexed :
        (k : Bytes) (i : ℕ)
        → lookup k f.index ≡ some i
        → (v : V) × (lookup i f.order ≡ some v) × (key v ≡ k)
    pub listed : (i : ℕ) (v : V) → lookup i f.order ≡ some v → lookup (key v) f.index ≡ some i
    pub fresh : (i : ℕ) (v : V) → lookup i f.order ≡ some v → i < f.next
    pub same_size : length f.index ≡ length f.order

  pub empty-Wf : Wf empty
  unfolding lookup
  empty-Wf = record {
    index_map = tt;
    order_map = tt;
    indexed = λ k i h. absurd (ground arith);
    listed = λ i v h. absurd (ground arith);
    fresh = λ i v h. absurd (ground arith);
    same_size = refl;
  }

  -- What a lookup in the map finds.
  pub find-some :
      (f : Fifo V) (k : Bytes) (i : ℕ) (v : V)
      → Wf f
      → find k f ≡ some (i, v)
      → (lookup i f.order ≡ some v) × (key v ≡ k) × (lookup k f.index ≡ some i)
  find-some f k i v w h = elim (Option-cases (lookup k f.index)) [
    | inl e ↦ absurd (ground arith)
    | inr (j, e) ↦ let (u, at, ku) = w.indexed k j e in (ground arith, ground arith, ground arith)
  ]

  pub find-none : (f : Fifo V) (k : Bytes) → Wf f → find k f ≡ none → lookup k f.index ≡ none
  find-none f k w h = elim (Option-cases (lookup k f.index)) [
    | inl e ↦ e
    | inr (j, e) ↦ let (u, at, ku) = w.indexed k j e in absurd (ground arith)
  ]

  pub front-some : (f : Fifo V) (i : ℕ) (v : V) → front f ≡ some (i, v) → lookup i f.order ≡ some v
  front-some f i v h = first-some f.order i v h

  -- A table whose list has no front is empty.
  pub front-none : (f : Fifo V) → Wf f → front f ≡ none → size f ≡ 0
  front-none f w h = w.same_size ∙ first-none f.order h

  module _ (f : Fifo V) (w : Wf f) where
    absent_next : lookup f.next f.order ≡ none
    absent_next = elim (Option-cases (lookup f.next f.order)) [
      | inl e ↦ e
      | inr (v, e) ↦ absurd (omega (arith, w.fresh f.next v e))
    ]

    pub push_back-Wf : (v : V) → lookup (key v) f.index ≡ none → Wf (push_back (key v) v f)
    unfolding push_back
    push_back-Wf v h = record {
      index_map = insert-IsMap (key v) f.next f.index w.index_map;
      order_map = append-IsMap f.next v f.order absent_next w.order_map;
      indexed = λ k i e. elim (lookup-insert_inv (key v) k f.next i f.index e) [
        | inl (p, q) ↦ (v, rw (← q) (lookup-append_self f.next v f.order absent_next), p)
        | inr (p, q) ↦
            let (u, at, ku) = w.indexed k i q in
            (
              u,
              lookup-append_ne f.next i v f.order absent_next (ground (arith, w.fresh i u at)) ∙ at,
              ku,
            )
      ];
      listed = λ i u e. elim (lookup-append_inv f.next i v u f.order absent_next e) [
        | inl (p, q) ↦ rw (← q, ← p) (lookup-insert_self (key v) f.next f.index)
        | inr (p, q) ↦
            lookup-insert_ne (key v) (key u) f.next f.index (λ x. ground (arith, w.listed i u q))
            ∙ w.listed i u q
      ];
      fresh = λ i u e. elim (lookup-append_inv f.next i v u f.order absent_next e) [
        | inl (p, q) ↦ omega arith
        | inr (p, q) ↦ omega (arith, w.fresh i u q)
      ];
      same_size = omega (
        arith,
        w.same_size,
        length-insert_new (key v) f.next f.index h,
        length-append f.order ((f.next, v) ∷ []),
      );
    }

    pub remove-Wf : (i : ℕ) (v : V) → lookup i f.order ≡ some v → Wf (remove (key v) i f)
    unfolding remove
    remove-Wf i v h = record {
      index_map = erase-IsMap (key v) f.index w.index_map;
      order_map = erase-IsMap i f.order w.order_map;
      indexed = λ k j e.
          let (ne, e') = lookup-erase_inv (key v) k j f.index e in
          let (u, at, ku) = w.indexed k j e' in
          (u, lookup-erase_ne i j f.order (λ p. ne (ground arith)) ∙ at, ku);
      listed = λ j u e.
          let (ne, e') = lookup-erase_inv i j u f.order e in
          lookup-erase_ne (key v) (key u) f.index
            (λ p. ne (ground (arith, w.listed i v h, w.listed j u e')))
          ∙ w.listed j u e';
      fresh = λ j u e. w.fresh j u (lookup-erase_inv i j u f.order e).1;
      same_size = omega (
        arith,
        w.same_size,
        length-erase (key v) i f.index w.index_map (w.listed i v h),
        length-erase i v f.order w.order_map h,
      );
    }

    pub assign-Wf :
        (i : ℕ) (v u : V) → lookup i f.order ≡ some v → key u ≡ key v → Wf (assign i u f)
    unfolding assign
    assign-Wf i v u h same = record {
      index_map = w.index_map;
      order_map = insert-IsMap i u f.order w.order_map;
      indexed = λ k j e.
          let (x, at, kx) = w.indexed k j e in
          elim (ℕ_discrete i j) [
            | yes p ↦ (u, rw (← p) (lookup-insert_self i u f.order), ground arith)
            | no ne ↦ (x, lookup-insert_ne i j u f.order ne ∙ at, kx)
          ];
      listed = λ j x e. elim (lookup-insert_inv i j u x f.order e) [
        | inl (p, q) ↦ rw (← p, ← q, same) (w.listed i v h)
        | inr (p, q) ↦ w.listed j x q
      ];
      fresh = λ j x e. elim (lookup-insert_inv i j u x f.order e) [
        | inl (p, q) ↦ omega (arith, w.fresh i v h)
        | inr (p, q) ↦ w.fresh j x q
      ];
      same_size = omega (arith, w.same_size, length-insert_old i u v f.order h);
    }

    pub move_to_back-Wf : (i : ℕ) (v : V) → lookup i f.order ≡ some v → Wf (move_to_back i v f)
    unfolding move_to_back
    move_to_back-Wf i v h =
        let gone = lookup-erase_self i f.order in
        record {
          index_map = w.index_map;
          order_map = append-IsMap i v (erase i f.order) gone (erase-IsMap i f.order w.order_map);
          indexed = λ k j e.
              let (x, at, kx) = w.indexed k j e in
              elim (ℕ_discrete i j) [
                | yes p ↦
                    (v, rw (← p) (lookup-append_self i v (erase i f.order) gone), ground arith)
                | no ne ↦ (
                  x,
                  lookup-append_ne i j v (erase i f.order) gone ne
                      ∙ lookup-erase_ne i j f.order ne
                      ∙ at,
                  kx,
                )
              ];
          listed = λ j x e. elim (lookup-append_inv i j v x (erase i f.order) gone e) [
            | inl (p, q) ↦ rw (← p, ← q) (w.listed i v h)
            | inr (p, q) ↦ w.listed j x (lookup-erase_inv i j x f.order q).1
          ];
          fresh = λ j x e. elim (lookup-append_inv i j v x (erase i f.order) gone e) [
            | inl (p, q) ↦ omega (arith, w.fresh i v h)
            | inr (p, q) ↦ w.fresh j x (lookup-erase_inv i j x f.order q).1
          ];
          same_size = omega (
            arith,
            w.same_size,
            length-append (erase i f.order) ((i, v) ∷ []),
            length-erase i v f.order w.order_map h,
          );
        }

    -- The sizes after each operation.
    pub size-remove :
        (i : ℕ) (v : V) → lookup i f.order ≡ some v → suc (size (remove (key v) i f)) ≡ size f
    unfolding remove
    size-remove i v h = length-erase (key v) i f.index w.index_map (w.listed i v h)

    pub size-push_back :
        (v : V) → lookup (key v) f.index ≡ none → size (push_back (key v) v f) ≡ size f + 1
    unfolding push_back
    size-push_back v h = length-insert_new (key v) f.next f.index h

    pub size-assign : (i : ℕ) (v : V) → size (assign i v f) ≡ size f
    unfolding assign
    size-assign i v = refl

    pub size-move_to_back : (i : ℕ) (v : V) → size (move_to_back i v f) ≡ size f
    unfolding move_to_back
    size-move_to_back i v = refl

    pub lookup-assign : (i : ℕ) (v : V) → lookup i (assign i v f).order ≡ some v
    unfolding assign
    lookup-assign i v = lookup-insert_self i v f.order
