-- ===== src/Prelude/Runs.antt =====
-- What a statement keeps, and what its result is where it does not raise.
use mathlib.Core.List.{List, [], ◌∷◌}
use ec2_wrappers.Prelude.Monad.{Exec, Result, ok, raised, lift, ◌>>=◌, for_each}
use ec2_wrappers.Prelude.Lists.{All}

-- A statement about the result of a call that does not raise.
abbrev pub Holds {ℓ} : {A : Type ℓ} → (A → Type 0) → Result A → Type 0
Holds Q (ok a) = Q a
Holds Q (raised e) = Unit

abbrev pub Anything : {A : Type 0} → A → Type 0
Anything a = Unit

pub Holds-Anything : {A : Type 0} (r : Result A) → Holds Anything r
Holds-Anything (ok a) = tt
Holds-Anything (raised e) = tt

module _ {S : Type 0} (Inv : S → Type 0) where
  -- From a state with the invariant a statement comes to one, and its result is as stated.
  unfoldable pub Runs : {A : Type 0} → Exec S A → (A → Type 0) → Type 0
  Runs m Q = (s : S) → Inv s → Inv (m s).1 × Holds Q (m s).0

  Runs-rest :
      {A B : Type 0} (Q : A → Type 0) (R : B → Type 0) (q : Result A × S) (f : A → Exec S B)
      → Inv q.1 × Holds Q q.0
      → ((a : A) → Q a → Runs (f a) R)
      → Inv (((λ s. q) >>= f) q.1).1 × Holds R (((λ s. q) >>= f) q.1).0
  unfolding Runs
  Runs-rest Q R (ok a, s) f (i, h) k = k a h s i
  Runs-rest Q R (raised e, s) f (i, h) k = (i, tt)

  pub Runs-bind :
      {A B : Type 0} (Q : A → Type 0) (R : B → Type 0) (m : Exec S A) (f : A → Exec S B)
      → Runs m Q
      → ((a : A) → Q a → Runs (f a) R)
      → Runs (m >>= f) R
  unfolding Runs
  Runs-bind Q R m f h k s i = Runs-rest Q R (m s) f (h s i) k

  pub Runs-lift : {A : Type 0} (Q : A → Type 0) (r : Result A) → Holds Q r → Runs (lift r) Q
  unfolding Runs
  Runs-lift Q r h s i = (i, h)

  pub Runs-for_each :
      {A : Type 0} (Q : A → Type 0) (xs : List A) (f : A → Exec S (Unit {0}))
      → All Q xs
      → ((x : A) → Q x → Runs (f x) Anything)
      → Runs (for_each xs f) Anything
  unfolding Runs
  Runs-for_each Q [] f h k s i = (i, tt)
  Runs-for_each Q (x ∷ xs) f (h, hs) k s i =
      Runs-bind Anything Anything (f x) (λ _. for_each xs f) (k x h)
        (λ _ _. Runs-for_each Q xs f hs k) s i
