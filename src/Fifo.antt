-- ===== src/Fifo.antt =====
-- The bounded tracking maps of internal/alert: a Go map from a key to an element of a
-- `container/list`, whose values carry their key. A pointer `*list.Element` is a number, the
-- map holds these numbers, and the list holds each element's value under its number, oldest first.
-- `next` is the number of the next element that is made.
pub mod Wf
pub mod Find
use ran.Base.{
  ℕ, ◌+◌, List, [], ◌∷◌, ◌++◌, Option, none, some, Bytes, length, nat_eq, bytes_Eq, lookup, insert,
  erase, ◌>>=◌,
}

pub record Fifo {ℓ} (V : Type ℓ) : Type ℓ where
  pub index : List (Bytes × ℕ)
  pub order : List (ℕ × V)
  pub next : ℕ

-- `make(map[string]*list.Element)` and `list.New()`
abbrev pub empty {ℓ} : {V : Type ℓ} → Fifo V
empty = record { index = []; order = []; next = 0 }

module _ {ℓ} {V : Type ℓ} where
  -- `len(m)`
  abbrev pub size : Fifo V → ℕ
  size f = length f.index

  -- `el.Value`
  abbrev pub value : ℕ → Fifo V → Option V
  value i f = lookup i f.order

  -- `el, ok := m[key]`, with the element's value
  abbrev pub find : Bytes → Fifo V → Option (ℕ × V)
  find k f = do i ← lookup k f.index; v ← value i f; some (i, v)

  -- `l.Front()`, with its value
  abbrev pub first : List (ℕ × V) → Option (ℕ × V)
  first [] = none
  first (x ∷ _) = some x

  abbrev pub front : Fifo V → Option (ℕ × V)
  front f = first f.order

  -- `m[key] = l.PushBack(v)`
  unfoldable pub push_back : Bytes → V → Fifo V → Fifo V
  push_back k v f = record {
    index = insert k f.next f.index;
    order = f.order ++ (f.next, v) ∷ [];
    next = f.next + 1;
  }

  -- `delete(m, key)` and `l.Remove(el)`
  unfoldable pub remove : Bytes → ℕ → Fifo V → Fifo V
  remove k i f = record f { index = erase k f.index; order = erase i f.order }

  -- an assignment to the fields of `el.Value`
  unfoldable pub assign : ℕ → V → Fifo V → Fifo V
  assign i v f = record f { order = insert i v f.order }

  -- `l.MoveToBack(el)`
  unfoldable pub move_to_back : ℕ → V → Fifo V → Fifo V
  move_to_back i v f = record f { order = erase i f.order ++ (i, v) ∷ [] }
