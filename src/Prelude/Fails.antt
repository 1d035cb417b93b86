-- ===== src/Prelude/Fails.antt =====
-- Calls that raise.
use mathlib.Core.Path.{◌≡◌, refl, subst}
use ec2_wrappers.Prelude.Monad.{Exec, Result, ok, raised, lift, ◌>>=◌}

-- A call that raises.
abbrev pub Fails : {A : Type 0} → Result A → Type 0
Fails (ok a) = ⊥
Fails (raised e) = Unit

pub Fails-elim :
    {A B : Type 0} (r : Result A) (f : A → Result B)
    → ((a : A) → Fails (f a))
    → Fails (elim r [ raised e ↦ raised e | ok a ↦ f a ])
Fails-elim (ok a) f h = h a
Fails-elim (raised e) f h = tt

-- A statement that raises in every state.
unfoldable pub AlwaysFails : {S A : Type 0} → Exec S A → Type 0
AlwaysFails {S} m = (s : S) → Fails (m s).0

Fails-bind :
    {S A B : Type 0} (q : Result A × S) (f : A → Exec S B)
    → ((a : A) (s : S) → q.0 ≡ ok a → Fails (f a s).0)
    → Fails (((λ s. q) >>= f) q.1).0
Fails-bind (ok a, s) f h = h a s refl
Fails-bind (raised e, s) f h = tt

pub AlwaysFails-after :
    {S A B : Type 0} (m : Exec S A) (f : A → Exec S B)
    → ((a : A) → AlwaysFails (f a))
    → AlwaysFails (m >>= f)
unfolding AlwaysFails
AlwaysFails-after m f h s = Fails-bind (m s) f (λ a s' _. h a s')

pub AlwaysFails-at :
    {S A B : Type 0} (m : Exec S A) (f : A → Exec S B) → AlwaysFails m → AlwaysFails (m >>= f)
unfolding AlwaysFails
AlwaysFails-at m f h s = Fails-bind (m s) f (λ a s' e. absurd (subst Fails e (h s)))

pub AlwaysFails-lift :
    (S : Type 0) {A B : Type 0} (r : Result A) (f : A → Exec S B)
    → ((a : A) → r ≡ ok a → AlwaysFails (f a))
    → AlwaysFails (lift r >>= f)
unfolding AlwaysFails
AlwaysFails-lift S (ok a) f h s = h a refl s
AlwaysFails-lift S (raised e) f h s = tt
