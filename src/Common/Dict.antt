-- ===== src/Common/Dict.antt =====
-- Go's `map` as an association list. A `range` loop visits its entries in an order that Go leaves
-- open: a loop whose order can be seen takes that order as an argument.
use Prim.Native.Nat.{ℕ, ◌+◌}
use mathlib.Core.Path.{◌≡◌, refl}
use mathlib.Core.Logic.{inl, inr, ◌≢◌}
use mathlib.Core.Option.{Option, none, some}
use mathlib.Core.List.{List, [], ◌∷◌}
use native.Mathlib.Omega.{arith}
use wqs.Common.Tests.{if◌then◌else◌}
use wqs.Common.Eq.{Eq, beq_self, beq-cases}

abbrev pub Dict {ℓ} : Type ℓ → Type ℓ → Type ℓ
Dict K V = List (K × V)

module _ {ℓ} {K V : Type ℓ} ⦃e : Eq K⦄ where
  -- `v, ok := m[k]`
  unfoldable pub lookup : Dict K V → K → Option V
  lookup [] k = none
  lookup ((j, v) ∷ m) k = if e.beq j k then some v else lookup m k

  -- `m[k] = v`
  unfoldable pub insert : Dict K V → K → V → Dict K V
  insert [] k v = (k, v) ∷ []
  insert ((j, w) ∷ m) k v = if e.beq j k then (j, v) ∷ m else (j, w) ∷ insert m k v

  -- `delete(m, k)`
  unfoldable pub erase : Dict K V → K → Dict K V
  erase [] k = []
  erase ((j, w) ∷ m) k = let rest = erase m k in if e.beq j k then rest else (j, w) ∷ rest

  pub lookup-insert :
      (m : Dict K V) (k j : K) (v : V)
      → lookup (insert m k v) j ≡ (if e.beq k j then some v else lookup m j)
  unfolding lookup insert
  lookup-insert [] k j v = refl
  lookup-insert ((i, w) ∷ m) k j v =
      ground (arith, lookup-insert m k j v, e.beq_iff i k, e.beq_iff i j, e.beq_iff k j)

  pub lookup-erase :
      (m : Dict K V) (k j : K) → lookup (erase m k) j ≡ (if e.beq k j then none else lookup m j)
  unfolding lookup erase
  lookup-erase [] k j = ground arith
  lookup-erase ((i, w) ∷ m) k j =
      ground (arith, lookup-erase m k j, e.beq_iff i k, e.beq_iff i j, e.beq_iff k j)

  pub lookup-insert_self : (m : Dict K V) (k : K) (v : V) → lookup (insert m k v) k ≡ some v
  lookup-insert_self m k v = rw (lookup-insert m k k v, beq_self k)

  -- Writing the value that is there changes nothing.
  pub insert-lookup : (m : Dict K V) (k : K) (v : V) → lookup m k ≡ some v → insert m k v ≡ m
  unfolding lookup insert
  insert-lookup [] k v found = absurd (cc)
  insert-lookup ((i, w) ∷ m) k v found = ground (arith, insert-lookup m k v, e.beq_iff i k)

  pub lookup-insert_ne :
      (m : Dict K V) (k j : K) (v : V) → k ≢ j → lookup (insert m k v) j ≡ lookup m j
  lookup-insert_ne m k j v h = elim (beq-cases k j) [
    | inl p ↦ absurd (h p)
    | inr (p, _) ↦ rw (lookup-insert m k j v, p)
  ]

pub ruleset dict_laws = (lookup-insert, lookup-erase)

abbrev pub at_option {ℓ} : {V : Type ℓ} → (V → ℕ) → Option V → ℕ
at_option f none = 0
at_option f (some v) = f v

-- The sum of a measure of the values.
unfoldable pub sum {ℓ} : {K V : Type ℓ} → (V → ℕ) → Dict K V → ℕ
sum f [] = 0
sum f ((j, v) ∷ m) = f v + sum f m

module _ {ℓ} {K V : Type ℓ} ⦃e : Eq K⦄ (f : V → ℕ) where
  pub sum-insert :
      (m : Dict K V) (k : K) (v : V)
      → sum f (insert m k v) + at_option f (lookup m k) ≡ sum f m + f v
  unfolding lookup insert sum
  sum-insert [] k v = omega arith
  sum-insert ((j, w) ∷ m) k v = ground (arith, sum-insert m k v)
