-- ===== src/Go/Strconv/Hex.antt =====
-- What %x prints, `ParseInt` and `ParseUint` with base 16 read back.
use native.Mathlib.Nat.{pow-suc}
use mathlib.Core.Path.{fun_ext}
use wqs.Common.{
  ltb→lt, lt→ltb, ℕ, zero, suc, ◌+◌, ◌-◌, ◌*◌, ◌/◌, ◌%◌, ◌^◌, ◌<◌, ◌≤◌, ◌≡◌, ◌≢◌, refl, sym, ap,
  ◌∙◌, Bool-cases, true, false, none, some, inl, inr, [], ◌∷◌, ◌++◌, Bytes, All-append, arith, ltb,
}
use wqs.Common.Int.{ℤ, pos, negsuc, InInt32, InInt64}
use wqs.Go.Strings.{Free}
use wqs.Go.Strconv.{
  Parsed, digits, digit_char, digit_value, format_uint, format_int, scan, parse_uint, parse_int,
  with_sign, and_then, next_digit,
}

and_then_assoc :
    (r : Parsed ℕ) (f g : ℕ → Parsed ℕ)
    → and_then r (λ m. and_then (f m) g (λ k. k)) (λ k. k)
      ≡ and_then (and_then r f (λ k. k)) g (λ k. k)
and_then_assoc (n, none) f g = refl
and_then_assoc (n, some e) f g = refl

scan-append :
    (base limit : ℕ) (s t : Bytes) (n : ℕ)
    → scan base limit (s ++ t) n
      ≡ and_then (scan base limit s n) (λ m. scan base limit t m) (λ m. m)
unfolding scan
scan-append base limit [] t n = refl
scan-append base limit (c ∷ s) t n =
    ap (λ (k : ℕ → Parsed ℕ). and_then (next_digit base limit n (digit_value c)) k (λ m. m))
      (fun_ext (λ m. scan-append base limit s t m))
    ∙ and_then_assoc (next_digit base limit n (digit_value c)) (λ m. scan base limit s m)
        (λ m. scan base limit t m)

scan_digit :
    (limit n d : ℕ)
    → d < 16
    → n * 16 + d ≤ limit
    → scan 16 limit (digit_char d ∷ []) n ≡ (n * 16 + d, none)
unfolding scan
scan_digit limit n d h fits = ground arith

scan_first : (limit n : ℕ) → n < 16 → n ≤ limit → scan 16 limit (digit_char n ∷ []) 0 ≡ (n, none)
scan_first limit n h fits =
    let start : 0 * 16 + n ≡ n = omega arith in
    scan_digit limit 0 n h (omega (arith, start)) ∙ ap (λ (k : ℕ). (k, none)) start

scan-digits :
    (limit fuel n : ℕ)
    → n < 16 ^ suc fuel
    → n ≤ limit
    → scan 16 limit (digits 16 (suc fuel) n) 0 ≡ (n, none)
unfolding digits
scan-digits limit zero n h fits =
    let small : ltb n 16 ≡ true = lt→ltb n 16 h in rw small (scan_first limit n h fits)
scan-digits limit (suc fuel) n h fits = elim (Bool-cases (ltb n 16)) [
  | inl small ↦ rw small (scan_first limit n (ltb→lt n 16 small) fits)
  | inr large ↦
      let power : 16 ^ suc (suc fuel) ≡ 16 ^ suc fuel * 16 = pow-suc 16 (suc fuel) in
      let below : n / 16 < 16 ^ suc fuel = omega (arith, power) in
      rw
        (
          large,
          scan-append 16 limit (digits 16 (suc fuel) (n / 16)) (digit_char (n % 16) ∷ []) 0,
          scan-digits limit fuel (n / 16) below (omega arith),
        )
        (scan_digit limit (n / 16) (n % 16) (omega arith) (omega arith)
          ∙ ap (λ (k : ℕ). (k, none)) (omega arith))
]

-- No digit is taken for a sign.
digit_char-sign : (d : ℕ) → (digit_char d ≢ b'-') × (digit_char d ≢ b'+')
digit_char-sign d = ((λ e. ground arith), (λ e. ground arith))

abbrev Opens : Bytes → Type 0
Opens t = (c : ℕ) × (s : Bytes) × (t ≡ c ∷ s) × (c ≢ b'-') × (c ≢ b'+')

Opens-append : (t u : Bytes) → Opens t → Opens (t ++ u)
Opens-append t u (c, s, e, minus, plus) = (c, s ++ u, (rw e refl), minus, plus)

Opens-digit : (d : ℕ) → Opens (digit_char d ∷ [])
Opens-digit d = (digit_char d, [], refl, (digit_char-sign d).0, (digit_char-sign d).1)

first_digit : (fuel n : ℕ) → Opens (digits 16 (suc fuel) n)
unfolding digits
first_digit zero n = elim (Bool-cases (ltb n 16)) [
  | inl small ↦ rw small (Opens-digit n)
  | inr large ↦ rw large (Opens-digit (n % 16))
]
first_digit (suc fuel) n = elim (Bool-cases (ltb n 16)) [
  | inl small ↦ rw small (Opens-digit n)
  | inr large ↦ rw large (
      Opens-append (digits 16 (suc fuel) (n / 16)) (digit_char (n % 16) ∷ [])
        (first_digit fuel (n / 16)))
]

-- A number of 64 bits at most is read back, wherever the limit leaves room for it.
pub parse_uint-format_uint :
    (bits n : ℕ) → n < 2 ^ 64 → n ≤ 2 ^ bits - 1 → parse_uint 16 bits (format_uint 16 n) ≡ (n, none)
unfolding parse_uint format_uint
parse_uint-format_uint bits n h fits =
    let (c, s, e, minus, plus) = first_digit 63 n in
    let read : scan 16 (2 ^ bits - 1) (digits 16 64 n) 0 ≡ (n, none) =
      scan-digits (2 ^ bits - 1) 63 n (omega arith) fits in
    rw (e) (rw (sym e) read)

parse_int_unsigned :
    (bits : ℕ) (t : Bytes)
    → Opens t
    → parse_int 16 bits t ≡ with_sign bits false (parse_uint 16 bits t)
unfolding parse_int
parse_int_unsigned bits t (c, s, e, minus, plus) = rw e (ground arith)

pub parse_int-format_pos :
    (bits n : ℕ)
    → n < 2 ^ 64
    → n < 2 ^ (bits - 1)
    → n ≤ 2 ^ bits - 1
    → parse_int 16 bits (format_int 16 (pos n)) ≡ (pos n, none)
unfolding format_int format_uint
parse_int-format_pos bits n h fits fits' =
    rw
      (
        parse_int_unsigned bits (digits 16 64 n) (first_digit 63 n),
        parse_uint-format_uint bits n h fits',
      )
      (ground arith)

pub parse_int-format_neg :
    (bits n : ℕ)
    → suc n < 2 ^ 64
    → suc n ≤ 2 ^ (bits - 1)
    → suc n ≤ 2 ^ bits - 1
    → parse_int 16 bits (format_int 16 (negsuc n)) ≡ (negsuc n, none)
unfolding format_int parse_int
parse_int-format_neg bits n h fits fits' =
    rw (parse_uint-format_uint bits (suc n) h fits') (ground arith)

pub parse_int-format_int32 : (z : ℤ) → InInt32 z → parse_int 16 32 (format_int 16 z) ≡ (z, none)
parse_int-format_int32 (pos n) h =
    parse_int-format_pos 32 n (omega arith) (omega arith) (omega arith)
parse_int-format_int32 (negsuc n) h =
    parse_int-format_neg 32 n (omega arith) (omega arith) (omega arith)

pub parse_int-format_int64 : (z : ℤ) → InInt64 z → parse_int 16 64 (format_int 16 z) ≡ (z, none)
parse_int-format_int64 (pos n) h =
    parse_int-format_pos 64 n (omega arith) (omega arith) (omega arith)
parse_int-format_int64 (negsuc n) h =
    parse_int-format_neg 64 n (omega arith) (omega arith) (omega arith)

digit_char-Free : (d : ℕ) → digit_char d ≢ b':'
digit_char-Free d = λ e. ground arith

digits-Free : (fuel n : ℕ) → Free b':' (digits 16 fuel n)
unfolding digits
digits-Free zero n = tt
digits-Free (suc fuel) n = elim (Bool-cases (ltb n 16)) [
  | inl small ↦ rw small (digit_char-Free n, tt)
  | inr large ↦ rw large (
      All-append (λ c. c ≢ b':') (digits 16 fuel (n / 16)) (digit_char (n % 16) ∷ [])
        (digits-Free fuel (n / 16)) (digit_char-Free (n % 16), tt))
]

-- No number holds a colon.
pub format_uint-Free : (n : ℕ) → Free b':' (format_uint 16 n)
unfolding format_uint
format_uint-Free n = digits-Free 64 n

pub format_int-Free : (z : ℤ) → Free b':' (format_int 16 z)
unfolding format_int
format_int-Free (pos n) = format_uint-Free n
format_int-Free (negsuc n) = ((λ e. ground arith), format_uint-Free (suc n))
