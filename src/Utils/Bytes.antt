-- ===== src/Utils/Bytes.antt =====
-- utils/utils.go: uint64 numbers as bytes, the lowest first. A number shifted by 8 ends in zeros,
-- so that `|` with a byte is `+`.
use wqs.Common.{ℕ, ◌+◌, ◌*◌, ◌/◌, ◌%◌, ◌^◌, ◌<◌, ◌≡◌, [], ◌∷◌, Bytes, arith}
use mathlib.Core.List.{reverse}

-- `byte(u >> (8 * k))`
abbrev byte : ℕ → ℕ → ℕ
byte u k = u / 256 ^ k % 256

unfoldable pub uint64_to_bytes : ℕ → Bytes
uint64_to_bytes u =
    byte u 0 ∷ byte u 1 ∷ byte u 2 ∷ byte u 3 ∷ byte u 4 ∷ byte u 5 ∷ byte u 6 ∷ byte u 7 ∷ []

-- `u<<8 | b`
abbrev push_byte : ℕ → ℕ → ℕ
push_byte u b = u * 256 % 2 ^ 64 + b

-- The loop, over the bytes from the last to the first.
abbrev push_bytes : ℕ → Bytes → ℕ
push_bytes u [] = u
push_bytes u (b ∷ bytes) = push_bytes (push_byte u b) bytes

abbrev from_last : Bytes → ℕ
from_last [] = 0
from_last (last ∷ bytes) = push_bytes last (last ∷ bytes)

unfoldable pub bytes_to_uint64 : Bytes → ℕ
bytes_to_uint64 bytes = from_last (reverse bytes)

-- The bytes of a uint64 are read back.
pub bytes_to_uint64-uint64_to_bytes : (u : ℕ) → u < 2 ^ 64 → bytes_to_uint64 (uint64_to_bytes u) ≡ u
unfolding bytes_to_uint64 uint64_to_bytes
bytes_to_uint64-uint64_to_bytes u h = omega arith
