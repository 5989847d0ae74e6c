-- ===== src/Trap/Ldap/Total.antt =====
-- The LDAP handler ends on everything that a client sends.
use ran.Base.{
  ℕ, zero, suc, ◌+◌, ◌-◌, ◌≤◌, ◌||◌, Option, none, some, List, [], ◌∷◌, Bytes, length, length-drop,
  ltb, leb, ◌==◌, ◌%◌, if-both, ◌≡◌, refl, arith,
}
use ran.Trap.Dialog.{Act}
use ran.Trap.Ldap.{
  Element, element, refused, read_value, long_length, read_length, ber_read_element, on_operation,
  on_message, on_element, serve, ldap_handle, ber_read_integer, ber_read_tlv, max_ber_len, uint,
}
use ran.Trap.Proxy.{read_full}
use ran.Trap.Session.{IoError}

add_one : (n : ℕ) → n + 1 ≡ suc n
add_one n = omega arith

-- At most so many bytes are left behind an element.
abbrev Leaves : ℕ → Element → Type 0
Leaves n (element tag value rest) = length rest ≤ n
Leaves n (refused err) = Unit

abbrev Left : ℕ → Option (Bytes × Bytes) → Type 0
Left n none = Unit
Left n (some (b, rest)) = length rest ≤ n

read_full-Left : (n size : ℕ) (s : Bytes) → length s ≤ n → Left n (read_full size s)
unfolding read_full
read_full-Left n size s h =
    if-both (Left n) (leb size (length s)) (omega (arith, h, length-drop size s)) tt

abbrev Ends : Option (List Act) → Type 0
Ends o = (acts : List Act) × (o ≡ some acts)

on_operation-Ends :
    (id tag : ℕ) (body : Option Bytes) (next : Option (List Act))
    → Ends next
    → Ends (on_operation id tag body next)
unfolding on_operation
on_operation-Ends id tag none next h = (_, refl)
on_operation-Ends id tag (some body) next (acts, e) =
    rw e (if-both Ends (tag % 32 == 0) (_, refl) (if-both Ends (tag % 32 == 3) (_, refl) (_, refl)))

on_message-Ends :
    (m : Option (ℕ × Bytes)) (next : Option (List Act)) → Ends next → Ends (on_message m next)
unfolding on_message
on_message-Ends none next h = (_, refl)
on_message-Ends (some (id, [])) next h = (_, refl)
on_message-Ends (some (id, tag ∷ rest)) next h =
    on_operation-Ends id tag (ber_read_tlv (tag ∷ rest)) next h

module _ (read_error : IoError) where
  of_read :
      (n tag size : ℕ) (s : Bytes) → length s ≤ n → Leaves n (read_value read_error tag size s)
  unfolding read_value
  of_read n tag size s h = of_full (read_full size s) (read_full-Left n size s h)
    where
      of_full :
          (o : Option (Bytes × Bytes))
          → Left n o
          → Leaves n (elim o as (λ _. Element) [
            | none ↦ refused read_error
            | some (value, rest) ↦ element tag value rest
          ])
      of_full none h' = tt
      of_full (some (value, rest)) h' = h'

  long_length-Leaves :
      (n tag : ℕ) (o : Option (Bytes × Bytes)) → Left n o → Leaves n (long_length read_error tag o)
  unfolding long_length
  long_length-Leaves n tag none h = tt
  long_length-Leaves n tag (some (digits, rest)) h =
      if-both (Leaves n) (ltb max_ber_len (uint 0 digits)) tt (of_read n tag (uint 0 digits) rest h)

  -- An element takes bytes away.
  ber_read_element-Leaves :
      (n : ℕ) (s : Bytes) → length s ≤ suc n → Leaves n (ber_read_element read_error s)
  unfolding ber_read_element read_length
  ber_read_element-Leaves n [] h = tt
  ber_read_element-Leaves n (tag ∷ []) h = tt
  ber_read_element-Leaves n (tag ∷ b ∷ s) h =
      if-both (Leaves n) (ltb b 128) (of_read n tag b s (omega (arith, h))) (
        if-both (Leaves n) (b == 128 || ltb 132 b) tt (
          long_length-Leaves n tag (read_full (b - 128) s)
            (read_full-Left n (b - 128) s (omega (arith, h)))))

  on_element-Ends :
      (n : ℕ) (e : Element) (next : Bytes → Option (List Act))
      → Leaves n e
      → ((rest : Bytes) → length rest ≤ n → Ends (next rest))
      → Ends (on_element read_error e next)
  unfolding on_element
  on_element-Ends n (refused err) next h k = (_, refl)
  on_element-Ends n (element tag value rest) next h k =
      if-both Ends (tag == 48) (on_message-Ends (ber_read_integer value) (next rest) (k rest h))
        (_, refl)

  serve-Ends : (fuel : ℕ) (s : Bytes) → length s ≤ fuel → Ends (serve read_error (suc fuel) s)
  unfolding serve ber_read_element on_element
  serve-Ends zero [] h = (_, refl)
  serve-Ends zero (x ∷ s) h = absurd (omega arith)
  serve-Ends (suc fuel) s h =
      on_element-Ends fuel (ber_read_element read_error s) _ (ber_read_element-Leaves fuel s h)
        (λ rest k. serve-Ends fuel rest k)

  -- The LDAP handler comes to its actions on everything that a client sends: a turn of its loop for
  -- each byte and one more are enough.
  pub ldap_handle-Ends : (s : Bytes) → (acts : List Act) × (ldap_handle read_error s ≡ some acts)
  ldap_handle-Ends s = rw (add_one (length s)) (serve-Ends (length s) s (omega arith))
