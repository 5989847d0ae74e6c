-- ===== src/Text/Sizes.antt =====
-- The sizes of encoded and decoded runes.
use ran.Base.{ℕ, length, ◌≡◌, arith}
use ran.Text.{encode, rune_len}

pub length-encode : (r : ℕ) → length (encode r) ≡ rune_len r
unfolding encode
length-encode r = ground arith
