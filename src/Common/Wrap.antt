-- ===== src/Common/Wrap.antt =====
-- Sums of signed numbers, and that wrapping around may wait until the end of a sum.
use mathlib.Core.Path.{◌≡◌, ap, sym, ◌∙◌}
use mathlib.Core.List.{List, [], ◌∷◌}
use native.Mathlib.Omega.{arith}
use wqs.Common.Int.{ℤ, pos, negsuc, ◌+ℤ◌, ◌-ℤ◌, int64, int64_of_range}

pub int64-add_left : (x y : ℤ) → int64 (int64 x +ℤ y) ≡ int64 (x +ℤ y)
unfolding int64
int64-add_left (pos a) (pos b) = ground arith
int64-add_left (pos a) (negsuc b) = ground arith
int64-add_left (negsuc a) (pos b) = ground arith
int64-add_left (negsuc a) (negsuc b) = ground arith

pub int64-sub_left : (x y : ℤ) → int64 (int64 x -ℤ y) ≡ int64 (x -ℤ y)
unfolding int64
int64-sub_left (pos a) (pos b) = ground arith
int64-sub_left (pos a) (negsuc b) = ground arith
int64-sub_left (negsuc a) (pos b) = ground arith
int64-sub_left (negsuc a) (negsuc b) = ground arith

pub add-sub : (p t : ℤ) → (p +ℤ t) -ℤ p ≡ t
add-sub (pos p) (pos t) = ground arith
add-sub (pos p) (negsuc t) = ground arith
add-sub (negsuc p) (pos t) = ground arith
add-sub (negsuc p) (negsuc t) = ground arith

pub add_assoc_int : (a b c : ℤ) → (a +ℤ b) +ℤ c ≡ a +ℤ (b +ℤ c)
add_assoc_int (pos a) b c = ground arith
add_assoc_int (negsuc a) b c = ground arith

pub add_zero : (a : ℤ) → a +ℤ pos 0 ≡ a
add_zero (pos a) = ground arith
add_zero (negsuc a) = ground arith

-- The exact sum.
unfoldable pub total : List ℤ → ℤ
total [] = pos 0
total (d ∷ ds) = d +ℤ total ds

-- The wrapped sum.
unfoldable pub wrapped : ℤ → List ℤ → ℤ
wrapped n [] = n
wrapped n (d ∷ ds) = wrapped (int64 (n +ℤ d)) ds

pub wrapped-total : (p : ℤ) (ds : List ℤ) → wrapped (int64 p) ds ≡ int64 (p +ℤ total ds)
unfolding wrapped total
wrapped-total p [] = ap int64 (sym (add_zero p))
wrapped-total p (d ∷ ds) =
    ap (λ n. wrapped n ds) (int64-add_left p d)
    ∙ wrapped-total (p +ℤ d) ds
    ∙ ap int64 (add_assoc_int p d (total ds))

pub zero-add_int : (a : ℤ) → pos 0 +ℤ a ≡ a
zero-add_int (pos a) = ground arith
zero-add_int (negsuc a) = ground arith

pub wrapped-zero : (ds : List ℤ) → wrapped (pos 0) ds ≡ int64 (total ds)
wrapped-zero ds =
    ap (λ n. wrapped n ds) zero_in_range
    ∙ wrapped-total (pos 0) ds
    ∙ ap int64 (zero-add_int (total ds))
  where
    zero_in_range : pos 0 ≡ int64 (pos 0)
    zero_in_range = sym (int64_of_range (pos 0) (omega arith))
