-- ===== src/Log/Numbers.antt =====
use Prim.Native.Nat.{max}
use native.Mathlib.Nat.{pow-succ'}
use native.Mathlib.Decide.{dec_lt}
use mathlib.Core.List.{append_assoc}
-- log/log.go: the numbers that itoa writes.
use wqs.Common.{
  ◌≡◌, refl, ap, sym, ◌∙◌, ℕ, zero, suc, ◌+◌, ◌-◌, ◌*◌, ◌/◌, ◌%◌, ◌^◌, ◌<◌, ◌≤◌, ◌||◌, ◌⊎◌,
  length-append, All-append, true, Option, none, some, [], ◌∷◌, ◌++◌, Bytes, ltb, leb, arith,
  Bool-cases, inl, inr, All, length,
}
use wqs.Log.{itoa, itoa_loop}

-- The number that decimal digits stand for, read from the left.
unfoldable pub decimal : ℕ → Bytes → ℕ
decimal n [] = n
decimal n (c ∷ s) = decimal (n * 10 + (c - b'0')) s

abbrev pub IsDigit : ℕ → Type 0
IsDigit c = (b'0' ≤ c) × (c ≤ b'9')

-- What stands before the tail, its digits and its width.
pub record Writes (i wid room : ℕ) (tail out : Bytes) : Type 0 where
  pub body : Bytes
  pub split : out ≡ body ++ tail
  pub value : decimal 0 body ≡ i
  pub digits : All IsDigit body
  pub wide : wid ≤ length body
  pub narrow : length body ≤ room
  pub tight : i < 10 ^ wid → length body ≤ max wid 1

abbrev pub Written : ℕ → ℕ → ℕ → Bytes → Option Bytes → Type 0
Written i wid room tail none = ⊥
Written i wid room tail (some out) = Writes i wid room tail out

decimal-append :
    (n : ℕ) (s : Bytes) (c : ℕ) → decimal n (s ++ c ∷ []) ≡ decimal n s * 10 + (c - b'0')
unfolding decimal
decimal-append n [] c = refl
decimal-append n (d ∷ s) c = decimal-append (n * 10 + (d - b'0')) s c

power_pred : (n : ℕ) → 1 < n → 10 ^ n ≡ 10 * 10 ^ (n - 1)
power_pred zero h = absurd (omega arith)
power_pred (suc n) h = pow-succ' 10 n ∙ ap (λ k. 10 * 10 ^ k) (omega arith)

stops :
    (i wid room : ℕ) (tail : Bytes)
    → i < 10
    → wid ≤ 1
    → 0 < room
    → Writes i wid room tail ((b'0' + i) ∷ tail)
unfolding decimal
stops i wid room tail h w r = record {
  body = (b'0' + i) ∷ [];
  split = refl;
  value = omega arith;
  digits = omega arith;
  wide = omega arith;
  narrow = omega arith;
  tight = λ _. omega arith;
}

small_power : (n : ℕ) → n ≤ 1 → 10 ^ n ≤ 10
small_power zero h = omega arith
small_power (suc zero) h = omega arith
small_power (suc (suc n)) h = absurd (omega arith)

goes_on_tight :
    (i wid n m : ℕ)
    → (i / 10 < 10 ^ (wid - 1) → n ≤ max (wid - 1) 1)
    → m ≡ n + 1
    → (10 ≤ i) ⊎ (1 < wid)
    → i < 10 ^ wid
    → m ≤ max wid 1
goes_on_tight i wid n m ih e more small = elim (dec_lt 1 wid) [
  | yes p ↦
      let s : i < 10 * 10 ^ (wid - 1) = rw (← power_pred wid p) small in
      omega (arith, ih (omega arith))
  | no p ↦ absurd (omega (arith, small_power wid))
]

goes_on :
    (i wid room : ℕ) (tail out : Bytes)
    → (10 ≤ i) ⊎ (1 < wid)
    → Writes (i / 10) (wid - 1) room ((b'0' + i % 10) ∷ tail) out
    → Writes i wid (suc room) tail out
goes_on i wid room tail out more w = record {
  body = w.body ++ (b'0' + i % 10) ∷ [];
  split = w.split ∙ sym (append_assoc w.body ((b'0' + i % 10) ∷ []) tail);
  value = rw (decimal-append 0 w.body (b'0' + i % 10), w.value) (omega arith);
  digits = All-append IsDigit w.body _ w.digits (omega arith);
  wide = rw (length-append w.body ((b'0' + i % 10) ∷ [])) (omega (arith, w.wide));
  narrow = rw (length-append w.body ((b'0' + i % 10) ∷ [])) (omega (arith, w.narrow));
  tight = λ small.
      goes_on_tight i wid _ _ w.tight (length-append w.body ((b'0' + i % 10) ∷ [])) more small;
}

goes_on-Written :
    (i wid room : ℕ) (tail : Bytes) (o : Option Bytes)
    → (10 ≤ i) ⊎ (1 < wid)
    → Written (i / 10) (wid - 1) room ((b'0' + i % 10) ∷ tail) o
    → Written i wid (suc room) tail o
goes_on-Written i wid room tail none more w = w
goes_on-Written i wid room tail (some out) more w = goes_on i wid room tail out more w

some_room : (i wid room : ℕ) → i < 10 ^ suc room → wid ≤ suc room → (10 ≤ i) ⊎ (1 < wid) → 0 < room
some_room i wid zero h w more = absurd (omega arith)
some_room i wid (suc room) h w more = omega arith

digits_left : (i room : ℕ) → i < 10 ^ suc room → i / 10 < 10 ^ room
digits_left i room h = let s : i < 10 * 10 ^ room = rw (← pow-succ' 10 room) h in omega arith

more_to_do : (i wid : ℕ) → leb 10 i || ltb 1 wid ≡ true → (10 ≤ i) ⊎ (1 < wid)
more_to_do i wid h = elim (dec_lt 1 wid) [ yes p ↦ inr p | no p ↦ inl (ground arith) ]

itoa_loop-Written :
    (room i wid : ℕ) (tail : Bytes)
    → i < 10 ^ room
    → wid ≤ room
    → 0 < room
    → Written i wid room tail (itoa_loop room i wid tail)
unfolding itoa_loop
itoa_loop-Written zero i wid tail h w r = absurd (omega arith)
itoa_loop-Written (suc room) i wid tail h w r = elim (Bool-cases (leb 10 i || ltb 1 wid)) [
  | inl more ↦
      let cause : (10 ≤ i) ⊎ (1 < wid) = more_to_do i wid more in
      rw more (
        goes_on-Written i wid room tail _ cause (
          itoa_loop-Written room (i / 10) (wid - 1) ((b'0' + i % 10) ∷ tail) (digits_left i room h)
            (omega arith) (some_room i wid room h w cause)))
  | inr done ↦ rw done (stops i wid (suc room) tail (ground arith) (ground arith) r)
]

-- Of a number below 10^20 and a width of at most 20, itoa does not panic; it appends decimal
-- digits that stand for the number, at least as many as the width, and no more than the width (or
-- than one) if the number has no more.
pub itoa-Written : (i wid : ℕ) → i < 10 ^ 20 → wid ≤ 20 → Written i wid 20 [] (itoa i wid)
unfolding itoa
itoa-Written i wid h w = itoa_loop-Written 20 i wid [] h w (omega arith)
