-- ===== src/Common/Int.antt =====
-- Signed integers over the native numbers, under the library's names, and Go's int32 and int64:
-- every operation on them wraps around by `int32` or `int64`.
use Prim.Native.Nat.{ℕ, suc, ◌+◌, ◌-◌, ◌%◌, ◌^◌, ◌≤◌, ◌<◌}
use mathlib.Core.Path.{◌≡◌, refl}
use mathlib.Core.Logic.{◌↔◌}
use mathlib.Core.Bool.{Bool, true, ◌&&◌}
use native.Mathlib.Omega.{arith}
use wqs.Common.Tests.{ltb, leb, ◌==◌, if◌then◌else◌}

-- `negsuc n` is -(n + 1).
pub data ℤ : Type 0 where
  pos : ℕ → ℤ
  negsuc : ℕ → ℤ

abbrev pub pos_part : ℤ → ℕ
pos_part (pos n) = n
pos_part (negsuc n) = 0

abbrev pub neg_part : ℤ → ℕ
neg_part (pos n) = 0
neg_part (negsuc n) = suc n

-- a - b, as an integer.
abbrev pub sub_ℕ : ℕ → ℕ → ℤ
sub_ℕ a b = if leb b a then pos (a - b) else negsuc (b - a - 1)

infixl 65 ◌+ℤ◌ ◌-ℤ◌
infix 50 ◌≤ℤ◌ ◌<ℤ◌
abbrev pub ◌+ℤ◌ : ℤ → ℤ → ℤ
a +ℤ b = sub_ℕ (pos_part a + pos_part b) (neg_part a + neg_part b)

abbrev pub ◌-ℤ◌ : ℤ → ℤ → ℤ
a -ℤ b = sub_ℕ (pos_part a + neg_part b) (neg_part a + pos_part b)

abbrev pub ◌≤ℤ◌ : ℤ → ℤ → Type 0
a ≤ℤ b = pos_part a + neg_part b ≤ pos_part b + neg_part a

abbrev pub ◌<ℤ◌ : ℤ → ℤ → Type 0
a <ℤ b = pos_part a + neg_part b < pos_part b + neg_part a

abbrev pub ltb_ℤ : ℤ → ℤ → Bool
ltb_ℤ a b = ltb (pos_part a + neg_part b) (pos_part b + neg_part a)

unfoldable pub eq_ℤ : ℤ → ℤ → Bool
eq_ℤ a b = (pos_part a == pos_part b) && (neg_part a == neg_part b)

pub eq_ℤ_iff : (a b : ℤ) → (eq_ℤ a b ≡ true) ↔ (a ≡ b)
unfolding eq_ℤ
eq_ℤ_iff a b = (λ h. ground arith, λ h. ground arith)

-- The signed reading of a w-bit pattern, `half` being 2 ^ (w - 1).
abbrev signed : ℕ → ℕ → ℤ
signed half u = if ltb u half then pos u else negsuc (half + half - 1 - u)

abbrev wrap : ℕ → ℤ → ℤ
wrap half (pos n) = signed half (n % (half + half))
wrap half (negsuc n) = signed half (half + half - 1 - n % (half + half))

abbrev pub half32 : ℕ
half32 = 2 ^ 31

abbrev pub half64 : ℕ
half64 = 2 ^ 63

unfoldable pub int32 : ℤ → ℤ
int32 = wrap half32

unfoldable pub int64 : ℤ → ℤ
int64 = wrap half64

abbrev pub InInt32 : ℤ → Type 0
InInt32 z = (pos_part z < 2 ^ 31) × (neg_part z ≤ 2 ^ 31)

abbrev pub InInt64 : ℤ → Type 0
InInt64 z = (pos_part z < 2 ^ 63) × (neg_part z ≤ 2 ^ 63)

pub int32_of_range : (z : ℤ) → InInt32 z → int32 z ≡ z
unfolding int32
int32_of_range (pos n) h = ground arith
int32_of_range (negsuc n) h = ground arith

pub int64_of_range : (z : ℤ) → InInt64 z → int64 z ≡ z
unfolding int64
int64_of_range (pos n) h = ground arith
int64_of_range (negsuc n) h = ground arith

int32_wraps : int32 (pos (2 ^ 31)) ≡ negsuc (2 ^ 31 - 1)
unfolding int32
int32_wraps = refl

pub int32-suc : (n : ℕ) → suc n < 2 ^ 31 → int32 (pos n +ℤ pos 1) ≡ pos (suc n)
unfolding int32
int32-suc n h = ground arith

pub int32-pred : (n : ℕ) → suc n < 2 ^ 31 → int32 (pos (suc n) -ℤ pos 1) ≡ pos n
unfolding int32
int32-pred n h = ground arith

pub int32-add : (a b : ℕ) → a + b < 2 ^ 31 → int32 (pos a +ℤ pos b) ≡ pos (a + b)
unfolding int32
int32-add a b h = ground arith

pub int64-add : (a b : ℕ) → a + b < 2 ^ 63 → int64 (pos a +ℤ pos b) ≡ pos (a + b)
unfolding int64
int64-add a b h = ground arith
