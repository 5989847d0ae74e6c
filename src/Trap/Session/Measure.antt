-- ===== src/Trap/Session/Measure.antt =====
-- internal/trap/trap.go: the sizes that a session counts, and the name of a command.
use ran.Base.{
  ℕ, zero, suc, ◌+◌, ◌-◌, ◌^◌, min, max, Bool, true, not, ◌&&◌, ◌||◌, List, [], ◌∷◌, Bytes, length,
  take, drop, ltb, leb, ◌==◌, if◌then◌else◌,
}
use ran.Text.{trim_space}
use ran.Trap.Redact.{string, int, Attr}

abbrev pub max_payload_bytes : ℕ
max_payload_bytes = 2 ^ 31 - 1

-- the bytes of the string attributes
unfoldable pub string_bytes : List Attr → ℕ
string_bytes [] = 0
string_bytes ((k, string b) ∷ attrs) = length b + string_bytes attrs
string_bytes ((k, int n) ∷ attrs) = string_bytes attrs

-- the counter after `LogPayloadSize`
unfoldable pub saturated : ℕ → ℕ → ℕ
saturated bytes size =
    let n = min (max size 1) max_payload_bytes in
    if ltb (max_payload_bytes - n) bytes then max_payload_bytes else bytes + n

abbrev pub max_command_name_bytes : ℕ
max_command_name_bytes = 32

-- the line before the first of " \t\r\n"
unfoldable pub first_word : Bytes → Bytes
first_word [] = []
first_word (b ∷ line) = if b == 32 || b == 9 || b == 13 || b == 10 then [] else b ∷ first_word line

abbrev pub starts_rune : Bytes → Bool
starts_rune [] = true
starts_rune (b ∷ _) = not (leb 128 b && ltb b 192)

-- the loop of `commandName`: from an index down to the first byte of a rune
unfoldable pub rune_start : ℕ → Bytes → ℕ
rune_start zero line = zero
rune_start (suc n) line =
    let rest = rune_start n line in if starts_rune (drop (suc n) line) then suc n else rest

unfoldable pub command_name : Bytes → Bytes
command_name line =
    let word = first_word (trim_space line) in
    if ltb max_command_name_bytes (length word)
    then take (rune_start max_command_name_bytes word) word
    else word
