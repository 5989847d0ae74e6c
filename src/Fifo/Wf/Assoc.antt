-- ===== src/Fifo/Wf/Assoc.antt =====
-- Association lists that hold each key once: Go's maps, and lists of distinct elements.
use ran.Base.{
  ◌≢◌, ◌⊎◌, ◌≤◌, suc, ◌+◌, List, [], ◌∷◌, ◌++◌, none, some, Eq, length, lookup, insert, erase, ◌≡◌,
  refl, arith, lookup-insert, lookup-erase, if◌then◌else◌,
}

module _ {ℓ κ} {K : Type ℓ} {V : Type κ} ⦃e : Eq K⦄ where
  -- No key occurs twice.
  abbrev pub IsMap : List (K × V) → Type κ
  IsMap [] = Unit
  IsMap ((k, v) ∷ m) = (lookup k m ≡ none) × IsMap m

  pub insert-IsMap : (k : K) (v : V) (m : List (K × V)) → IsMap m → IsMap (insert k v m)
  unfolding lookup insert erase
  insert-IsMap k v [] h = (refl, tt)
  insert-IsMap k v ((j, w) ∷ m) h =
      ground (arith, e.beq_iff j k, e.beq_iff k j, insert-IsMap k v m h.1, lookup-insert k j v m)

  pub erase-IsMap : (k : K) (m : List (K × V)) → IsMap m → IsMap (erase k m)
  unfolding lookup insert erase
  erase-IsMap k [] h = tt
  erase-IsMap k ((j, w) ∷ m) h = ground (arith, erase-IsMap k m h.1, lookup-erase k j m)

  pub lookup-append :
      (j k : K) (v : V) (m : List (K × V))
      → lookup k m ≡ none
      → lookup j (m ++ (k, v) ∷ []) ≡ (if e.beq k j then some v else lookup j m)
  unfolding lookup insert erase
  lookup-append j k v [] h = refl
  lookup-append j k v ((i, w) ∷ m) h =
      ground (arith, e.beq_iff k j, e.beq_iff i k, e.beq_iff i j, lookup-append j k v m)

  pub append-IsMap :
      (k : K) (v : V) (m : List (K × V)) → lookup k m ≡ none → IsMap m → IsMap (m ++ (k, v) ∷ [])
  unfolding lookup insert erase
  append-IsMap k v [] h w = (refl, tt)
  append-IsMap k v ((i, x) ∷ m) h w =
      ground (arith, e.beq_iff i k, e.beq_iff k i, append-IsMap k v m, lookup-append i k v m)

  erase_absent : (k : K) (m : List (K × V)) → lookup k m ≡ none → erase k m ≡ m
  unfolding lookup insert erase
  erase_absent k [] h = refl
  erase_absent k ((j, w) ∷ m) h = ground (arith, erase_absent k m)

  pub length-erase :
      (k : K) (v : V) (m : List (K × V))
      → IsMap m
      → lookup k m ≡ some v
      → suc (length (erase k m)) ≡ length m
  unfolding lookup insert erase
  length-erase k v [] h l = absurd (ground arith)
  length-erase k v ((j, w) ∷ m) h l =
      ground (arith, e.beq_iff j k, erase_absent k m, length-erase k v m h.1)

  pub length-erase-le : (k : K) (m : List (K × V)) → length (erase k m) ≤ length m
  unfolding lookup insert erase
  length-erase-le k [] = omega arith
  length-erase-le k ((j, w) ∷ m) = ground (arith, length-erase-le k m)

  pub length-insert_new :
      (k : K) (v : V) (m : List (K × V)) → lookup k m ≡ none → length (insert k v m) ≡ length m + 1
  unfolding lookup insert erase
  length-insert_new k v [] h = omega arith
  length-insert_new k v ((j, w) ∷ m) h = ground (arith, length-insert_new k v m)

  pub length-insert_old :
      (k : K) (v w : V) (m : List (K × V)) → lookup k m ≡ some w → length (insert k v m) ≡ length m
  unfolding lookup insert erase
  length-insert_old k v w [] h = absurd (ground arith)
  length-insert_old k v w ((j, x) ∷ m) h = ground (arith, length-insert_old k v w m)

  pub lookup-insert_inv :
      (k j : K) (v x : V) (m : List (K × V))
      → lookup j (insert k v m) ≡ some x
      → ((k ≡ j) × (v ≡ x)) ⊎ ((k ≢ j) × (lookup j m ≡ some x))
  lookup-insert_inv k j v x m h = ground (arith, e.beq_iff k j, lookup-insert k j v m)

  pub lookup-erase_inv :
      (k j : K) (x : V) (m : List (K × V))
      → lookup j (erase k m) ≡ some x
      → (k ≢ j) × (lookup j m ≡ some x)
  lookup-erase_inv k j x m h = ground (arith, e.beq_iff k j, lookup-erase k j m)

  pub lookup-append_inv :
      (k j : K) (v x : V) (m : List (K × V))
      → lookup k m ≡ none
      → lookup j (m ++ (k, v) ∷ []) ≡ some x
      → ((k ≡ j) × (v ≡ x)) ⊎ ((k ≢ j) × (lookup j m ≡ some x))
  lookup-append_inv k j v x m a h = ground (arith, e.beq_iff k j, lookup-append j k v m a)

  pub lookup-erase_ne : (k j : K) (m : List (K × V)) → k ≢ j → lookup j (erase k m) ≡ lookup j m
  lookup-erase_ne k j m h = ground (arith, e.beq_iff k j, lookup-erase k j m)

  pub lookup-erase_self : (k : K) (m : List (K × V)) → lookup k (erase k m) ≡ none
  lookup-erase_self k m = ground (arith, e.beq_iff k k, lookup-erase k k m)

  pub lookup-insert_ne :
      (k j : K) (v : V) (m : List (K × V)) → k ≢ j → lookup j (insert k v m) ≡ lookup j m
  lookup-insert_ne k j v m h = ground (arith, e.beq_iff k j, lookup-insert k j v m)

  pub lookup-append_self :
      (k : K) (v : V) (m : List (K × V)) → lookup k m ≡ none → lookup k (m ++ (k, v) ∷ []) ≡ some v
  lookup-append_self k v m h = ground (arith, e.beq_iff k k, lookup-append k k v m h)

  pub lookup-append_ne :
      (k j : K) (v : V) (m : List (K × V))
      → lookup k m ≡ none
      → k ≢ j
      → lookup j (m ++ (k, v) ∷ []) ≡ lookup j m
  lookup-append_ne k j v m h ne = ground (arith, e.beq_iff k j, lookup-append j k v m h)
