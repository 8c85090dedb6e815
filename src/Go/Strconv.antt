-- ===== src/Go/Strconv.antt =====
-- Package strconv, and the verbs %x and %d of package fmt: numbers in a base.
pub mod Hex
use wqs.Common.{
  ℕ, zero, suc, ◌+◌, ◌-◌, ◌*◌, ◌/◌, ◌%◌, ◌^◌, ◌<◌, ◌≤◌, ◌≡◌, refl, Bool, true, false, ◌&&◌, not,
  Option, none, some, List, [], ◌∷◌, ◌++◌, Bytes, arith, ltb, leb, ◌==◌, if◌then◌else◌, codes,
}
use wqs.Common.Int.{ℤ, pos, negsuc, sub_ℕ}

pub data NumError : Type 0 where
  syntax out_of_range : NumError

-- A value and `err`: the value is meaningful beside a range error too.
abbrev pub Parsed : Type 0 → Type 0
Parsed A = A × Option NumError

abbrev pub digit_char : ℕ → ℕ
digit_char d = if ltb d 10 then d + b'0' else d - 10 + b'a'

abbrev pub digit_value : ℕ → Option ℕ
digit_value c =
    if leb b'0' c && leb c b'9'
    then some (c - b'0')
    else if leb b'a' c && leb c b'z'
    then some (c - b'a' + 10)
    else if leb b'A' c && leb c b'Z'
    then some (c - b'A' + 10)
    else none

-- The digits of a number, the highest first; 64 rounds are enough for 64 bits in any base.
unfoldable pub digits : ℕ → ℕ → ℕ → Bytes
digits base zero n = []
digits base (suc fuel) n =
    let rest = digits base fuel (n / base) ++ digit_char (n % base) ∷ [] in
    if ltb n base then digit_char n ∷ [] else rest

unfoldable pub format_uint : ℕ → ℕ → Bytes
format_uint base n = digits base 64 n

unfoldable pub format_int : ℕ → ℤ → Bytes
format_int base (pos n) = format_uint base n
format_int base (negsuc n) = b'-' ∷ format_uint base (suc n)

-- One digit after the digits that make `n`.
abbrev pub next_digit : ℕ → ℕ → ℕ → Option ℕ → Parsed ℕ
next_digit base limit n none = (0, some syntax)
next_digit base limit n (some d) =
    if leb base d
    then (0, some syntax)
    else if ltb limit (n * base + d)
    then (limit, some out_of_range)
    else (n * base + d, none)

abbrev pub and_then : {A B : Type 0} → Parsed A → (A → Parsed B) → (A → B) → Parsed B
and_then (a, none) f g = f a
and_then (a, some e) f g = (g a, some e)

unfoldable pub scan : ℕ → ℕ → Bytes → ℕ → Parsed ℕ
scan base limit [] n = (n, none)
scan base limit (c ∷ s) n =
    and_then (next_digit base limit n (digit_value c)) (λ m. scan base limit s m) (λ m. m)

-- `strconv.ParseUint(s, base, bits)`
unfoldable pub parse_uint : ℕ → ℕ → Bytes → Parsed ℕ
parse_uint base bits [] = (0, some syntax)
parse_uint base bits (c ∷ s) = scan base (2 ^ bits - 1) (c ∷ s) 0

abbrev pub with_sign : ℕ → Bool → Parsed ℕ → Parsed ℤ
with_sign bits negative (n, some syntax) = (pos 0, some syntax)
with_sign bits true (n, err) =
    if ltb (2 ^ (bits - 1)) n
    then (sub_ℕ 0 (2 ^ (bits - 1)), some out_of_range)
    else (sub_ℕ 0 n, none)
with_sign bits false (n, err) =
    if leb (2 ^ (bits - 1)) n then (pos (2 ^ (bits - 1) - 1), some out_of_range) else (pos n, none)

-- `strconv.ParseInt(s, base, bits)`
unfoldable pub parse_int : ℕ → ℕ → Bytes → Parsed ℤ
parse_int base bits [] = (pos 0, some syntax)
parse_int base bits (c ∷ s) =
    if c == b'-'
    then with_sign bits true (parse_uint base bits s)
    else if c == b'+'
    then with_sign bits false (parse_uint base bits s)
    else with_sign bits false (parse_uint base bits (c ∷ s))

strconv_tests :
    (format_int 16 (negsuc 30) ≡ codes "-1f")
    × (parse_int 16 32 (codes "-1f") ≡ (negsuc 30, none))
    × (parse_int 16 32 (codes "80000000") ≡ (pos (2 ^ 31 - 1), some out_of_range))
    × (parse_uint 10 32 (codes "4294967295") ≡ (4294967295, none))
    × (parse_uint 10 32 (codes "-1") ≡ (0, some syntax))
unfolding format_int format_uint digits parse_int parse_uint scan
strconv_tests = (refl, refl, refl, refl, refl)
