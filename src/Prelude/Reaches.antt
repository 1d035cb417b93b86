-- ===== src/Prelude/Reaches.antt =====
-- The states in which a statement ends that does not raise.
use mathlib.Core.Path.{◌≡◌, refl}
use ec2_wrappers.Prelude.Monad.{Exec, Result, ok, raised, ◌>>=◌}

-- A statement about the state after a call that does not raise.
abbrev pub After {ℓ} : {S : Type ℓ} {A : Type 0} → (S → Type 0) → Result A × S → Type 0
After P (ok a, s) = P s
After P (raised e, s) = Unit

-- Wherever a statement starts, it ends in such a state or raises.
unfoldable pub Reaches : {S A : Type 0} → (S → Type 0) → Exec S A → Type 0
Reaches {S} P m = (s : S) → After P (m s)

After-bind :
    {S A B : Type 0} (P : S → Type 0) (q : Result A × S) (f : A → Exec S B)
    → ((a : A) (s : S) → After P (f a s))
    → After P (((λ s. q) >>= f) q.1)
After-bind P (ok a, s) f h = h a s
After-bind P (raised e, s) f h = tt

pub After-step :
    {S A B : Type 0} (P : S → Type 0) (q : Result A × S) (f : A → Exec S B)
    → ((a : A) (s : S) → q ≡ (ok a, s) → After P (f a s))
    → After P (((λ s. q) >>= f) q.1)
After-step P (ok a, s) f h = h a s refl
After-step P (raised e, s) f h = tt

pub Reaches-after :
    {S A B : Type 0} (P : S → Type 0) (m : Exec S A) (f : A → Exec S B)
    → ((a : A) → Reaches P (f a))
    → Reaches P (m >>= f)
unfolding Reaches
Reaches-after P m f h s = After-bind P (m s) f h

-- A statement about the result and the state of a call that does not raise.
abbrev pub AfterResult {ℓ κ} : {S : Type ℓ} {A : Type κ} → (A → S → Type 0) → Result A × S → Type 0
AfterResult Q (ok a, s) = Q a s
AfterResult Q (raised e, s) = Unit

-- From every state of the first kind a statement comes to a result and a state of the second, or
-- raises.
unfoldable pub Leads : {S A : Type 0} → (S → Type 0) → Exec S A → (A → S → Type 0) → Type 0
Leads {S} P m Q = (s : S) → P s → AfterResult Q (m s)

AfterResult-bind :
    {S A B : Type 0} (Q : A → S → Type 0) (R : B → S → Type 0) (q : Result A × S) (f : A → Exec S B)
    → AfterResult Q q
    → ((a : A) → Leads (Q a) (f a) R)
    → AfterResult R (((λ s. q) >>= f) q.1)
unfolding Leads
AfterResult-bind Q R (ok a, s) f h k = k a s h
AfterResult-bind Q R (raised e, s) f h k = tt

pub Leads-bind :
    {S A B : Type 0} (P : S → Type 0) (Q : A → S → Type 0) (R : B → S → Type 0) (m : Exec S A)
    (f : A → Exec S B)
    → Leads P m Q
    → ((a : A) → Leads (Q a) (f a) R)
    → Leads P (m >>= f) R
unfolding Leads
Leads-bind P Q R m f h k s p = AfterResult-bind Q R (m s) f (h s p) k

-- A fact that no state matters to.
pub Leads-assuming :
    {S A : Type 0} (L : Type 0) (P : S → Type 0) (m : Exec S A) (Q : A → S → Type 0)
    → (L → Leads P m Q)
    → Leads (λ s. L × P s) m Q
unfolding Leads
Leads-assuming L P m Q h s (l, p) = h l s p

pub Leads-at :
    {S A : Type 0} (P : S → Type 0) (m : Exec S A) (Q : A → S → Type 0)
    → Leads P m Q
    → (s : S) → P s
    → AfterResult Q (m s)
unfolding Leads
Leads-at P m Q h = h
