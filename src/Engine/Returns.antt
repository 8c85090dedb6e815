-- ===== src/Engine/Returns.antt =====
-- engine/: what an operation ensures of its result, along a chain of operations.
use wqs.Common.{◌≡◌, refl, ap, Bool, true, false, Option, none, some, arith}
use mathlib.Core.Path.{subst}
use wqs.Engine.{Error, Result, ok, Io, ◌>>=◌, pure, throw_if, or_throw, >>=-eq-ok}

-- What an operation returns, if it returns without an error.
abbrev pub Ensures : {W A : Type 0} → Io W A → (A → Type 0) → Type 0
Ensures {W} {A} f P = (w w' : W) (a : A) → f w ≡ (w', ok a) → P a

pub ensures_then :
    {W A B : Type 0} {Q : A → Type 0} {P : B → Type 0} (m : Io W A) (f : A → Io W B)
    → Ensures m Q
    → ((a : A) → Q a → Ensures (f a) P)
    → Ensures (m >>= f) P
ensures_then m f first rest w w' b e =
    let (t, a, h, e') = >>=-eq-ok m f w w' b e in rest a (first w t a h) t w' b e'

pub ensures_after :
    {W A B : Type 0} {P : B → Type 0} (m : Io W A) (f : A → Io W B)
    → ((a : A) → Ensures (f a) P)
    → Ensures (m >>= f) P
ensures_after m f rest w w' b e = let (t, a, h, e') = >>=-eq-ok m f w w' b e in rest a t w' b e'

pub ensures_pure : {W A : Type 0} (P : A → Type 0) (a : A) → P a → Ensures {W = W} (pure a) P
ensures_pure P a p w w' b e = let same : a ≡ b = ground (arith, e) in subst P same p

pub ensures_result : {W A : Type 0} (r : Result A) → Ensures {W = W} (λ w. (w, r)) (λ a. r ≡ ok a)
ensures_result r w w' a e = ap (λ p. p.1) e

pub ensures_some :
    {W A : Type 0} (x : Error) (o : Option A) → Ensures {W = W} (or_throw x o) (λ a. o ≡ some a)
ensures_some x none w w' a e = absurd cc
ensures_some x (some b) w w' a e = ground (arith, e)

pub ensures_not :
    {W : Type 0} (b : Bool) (x : Error) → Ensures {W = W} (throw_if b x) (λ _. b ≡ false)
ensures_not true x w w' a e = absurd cc
ensures_not false x w w' a e = refl
