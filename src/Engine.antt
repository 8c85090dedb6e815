-- ===== src/Engine.antt =====
-- engine/: what its packages share. A call that may fail maps the state of the world to the state
-- afterwards and a result; what was written before an error stays written. An error is told apart
-- by its cause: errors.Trace and errors.Annotatef keep it.
pub mod Returns
use wqs.Common.Int.{ℤ}
use wqs.Common.{◌≡◌, refl, ap, ◌∙◌, Bool, true, false, Option, none, some, List, [], ◌∷◌}

pub data Error : Type 0 where
  -- github.com/juju/errors
  not_found already_exists not_valid not_supported plain : Error
  -- github.com/samuel/go-zookeeper/zk
  no_node node_exists not_empty : Error
  -- any other error of a client, by its code
  client : ℤ → Error
  incomplete_response : Error
  -- a recursion that does not end, and a run-time panic
  diverged panicked : Error

pub data Result (A : Type 0) : Type 0 where
  ok : A → Result A
  err : Error → Result A

abbrev pub Io : Type 0 → Type 0 → Type 0
Io S A = S → S × Result A

abbrev pub Done : Type 0 → Type 0
Done S = Io S (Unit {0})

module _ {S : Type 0} where
  abbrev pub pure : {A : Type 0} → A → Io S A
  pure a s = (s, ok a)

  abbrev pub throw : {A : Type 0} → Error → Io S A
  throw e s = (s, err e)

  abbrev pub continue : {A B : Type 0} → (A → Io S B) → S × Result A → S × Result B
  continue f (s, ok a) = f a s
  continue f (s, err e) = (s, err e)

  infixl 5 ◌>>=◌ ◌>>◌
  abbrev pub ◌>>=◌ : {A B : Type 0} → Io S A → (A → Io S B) → Io S B
  ◌>>=◌ m f s = continue f (m s)

  abbrev pub ◌>>◌ : {B : Type 0} → Done S → Io S B → Io S B
  m >> k = m >>= λ _. k

  abbrev pub throw_if : Bool → Error → Done S
  throw_if true e = throw e
  throw_if false e = pure tt

  abbrev pub or_throw : {A : Type 0} → Error → Option A → Io S A
  or_throw e none = throw e
  or_throw e (some a) = pure a

  -- A `range` loop that returns at the first error.
  unfoldable pub for_each : {A : Type 0} → (A → Done S) → List A → Done S
  for_each f [] = pure tt
  for_each f (a ∷ rest) = f a >> for_each f rest

  -- A chain whose first part failed, and one whose first part succeeded.
  pub stop :
      {A B : Type 0} (m : Io S A) (f : A → Io S B) (s t : S) (e : Error)
      → m s ≡ (t, err e)
      → (m >>= f) s ≡ (t, err e)
  stop m f s t e h = ap (continue f) h

  pub go_on :
      {A B : Type 0} (m : Io S A) (f : A → Io S B) (s t : S) (a : A) (r : S × Result B)
      → m s ≡ (t, ok a)
      → f a t ≡ r
      → (m >>= f) s ≡ r
  go_on m f s t a r h e = ap (continue f) h ∙ e

  -- The parts of a chain that succeeded.
  pub >>=-eq-ok :
      {A B : Type 0} (m : Io S A) (f : A → Io S B) (s s' : S) (b : B)
      → (m >>= f) s ≡ (s', ok b)
      → (t : S) × (a : A) × (m s ≡ (t, ok a)) × (f a t ≡ (s', ok b))
  >>=-eq-ok {A} {B} m f s s' b e = split (m s) refl e
    where
      split :
          (r : S × Result A)
          → m s ≡ r
          → continue f r ≡ (s', ok b)
          → (t : S) × (a : A) × (m s ≡ (t, ok a)) × (f a t ≡ (s', ok b))
      split (t, ok a) h e = (t, a, h, e)
      split (t, err x) h e = absurd (cc)
