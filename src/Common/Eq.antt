-- ===== src/Common/Eq.antt =====
-- Equality of map keys as an interface, with the instances that the program uses.
use mathlib.Core.Path.{◌≡◌, refl}
use mathlib.Core.Logic.{◌↔◌, ◌⊎◌, inl, inr, ◌≢◌}
use mathlib.Core.Bool.{Bool, true, false, ◌&&◌}
use mathlib.Core.List.{[], ◌∷◌}
use Prim.Native.Nat.{ℕ}
use native.Mathlib.Omega.{arith}
use wqs.Common.Tests.{◌==◌, ==_iff}
use wqs.Common.Lists.{Bytes}
use wqs.Common.Int.{ℤ, eq_ℤ, eq_ℤ_iff}

pub record Eq {ℓ} (A : Type ℓ) : Type ℓ where
  pub beq : A → A → Bool
  pub beq_iff : (a b : A) → (beq a b ≡ true) ↔ (a ≡ b)

-- Go's `==` on strings.
unfoldable pub bytes_eq : Bytes → Bytes → Bool
bytes_eq [] [] = true
bytes_eq [] (_ ∷ _) = false
bytes_eq (_ ∷ _) [] = false
bytes_eq (a ∷ s) (b ∷ t) = (a == b) && bytes_eq s t

pub bytes_eq-to-eq : (s t : Bytes) → bytes_eq s t ≡ true → s ≡ t
unfolding bytes_eq
bytes_eq-to-eq [] [] h = refl
bytes_eq-to-eq [] (_ ∷ _) h = cc
bytes_eq-to-eq (_ ∷ _) [] h = cc
bytes_eq-to-eq (a ∷ s) (b ∷ t) h = ground (arith, bytes_eq-to-eq s t)

pub bytes_eq_self : (s : Bytes) → bytes_eq s s ≡ true
unfolding bytes_eq
bytes_eq_self [] = refl
bytes_eq_self (a ∷ s) = ground (arith, bytes_eq_self s)

pub bytes_eq_iff : (s t : Bytes) → (bytes_eq s t ≡ true) ↔ (s ≡ t)
bytes_eq_iff s t = (bytes_eq-to-eq s t, λ e. rw e (bytes_eq_self t))

instance abbrev pub bytes_key : Eq Bytes
bytes_key = record { beq = bytes_eq; beq_iff = bytes_eq_iff }

instance abbrev pub int_key : Eq ℤ
int_key = record { beq = eq_ℤ; beq_iff = eq_ℤ_iff }

instance abbrev pub nat_key : Eq ℕ
nat_key = record { beq = ◌==◌; beq_iff = ==_iff }

module _ {ℓ} {A : Type ℓ} ⦃e : Eq A⦄ where
  pub beq_self : (a : A) → e.beq a a ≡ true
  beq_self a = (e.beq_iff a a).1 refl

  pub beq-cases : (a b : A) → (a ≡ b) ⊎ ((e.beq a b ≡ false) × (a ≢ b))
  beq-cases a b = go (e.beq a b) refl
    where
      go : (t : Bool) → e.beq a b ≡ t → (a ≡ b) ⊎ ((e.beq a b ≡ false) × (a ≢ b))
      go true p = inl ((e.beq_iff a b).0 p)
      go false p = inr (p, λ q. cc (p, (e.beq_iff a b).1 q))
