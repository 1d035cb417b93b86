-- ===== src/Prelude/Monad.antt =====
-- Statements that change a state and may raise. What was written before a raise stays written.
use Prim.Native.Nat.{ℕ}
use Prim.Native.String.{String}
use mathlib.Core.Path.{◌≡◌, refl, ap}
use mathlib.Core.Logic.{◌⊎◌, inl, inr}
use mathlib.Core.Bool.{Bool, true, false}
use mathlib.Core.Option.{Option, none, some}
use mathlib.Core.List.{List, [], ◌∷◌}

-- The exceptions of the program: Python's own, those of the libraries that it calls, and those
-- that it raises itself.
pub data Exn : Type 0 where
  key_error : String → Exn
  value_error index_error type_error attribute_error : Exn
  name_error : String → Exn
  -- a module that is not there
  import_error : Exn
  os_error : ℕ → Exn
  io_error url_error : Exn
  -- sqlite3.OperationalError: a statement that SQLite cannot parse
  operational_error : Exn
  -- sqlite3.IntegrityError
  integrity_error : Exn
  ec2_error : Exn
  -- `raise Exception(message)`
  exception : String → Exn
  role_syntax : String → Exn
  timeout : Exn
  -- the user ends a wait
  keyboard_interrupt : Exn
  -- `sys.exit(status)`
  system_exit : ℕ → Exn

pub data Result {ℓ} (A : Type ℓ) : Type ℓ where
  ok : A → Result A
  raised : Exn → Result A

abbrev pub Exec : Type 0 → Type 0 → Type 0
Exec S A = S → Result A × S

module _ {S A : Type 0} where
  abbrev pub return : A → Exec S A
  return a s = (ok a, s)

  abbrev pub raise : Exn → Exec S A
  raise e s = (raised e, s)

  abbrev pub gets : (S → A) → Exec S A
  gets f s = (ok (f s), s)

  abbrev pub lift : Result A → Exec S A
  lift r s = (r, s)

  -- `d[k]`
  abbrev pub or_raise : Option A → Exn → Exec S A
  or_raise none e = raise e
  or_raise (some a) e = return a

abbrev pub modify : {S : Type 0} → (S → S) → Exec S (Unit {0})
modify f s = (ok tt, f s)

abbrev pub raise_if : {S : Type 0} → Bool → Exn → Exec S (Unit {0})
raise_if true e = raise e
raise_if false e = return tt

infixl 5 ◌>>=◌ ◌>>◌
abbrev pub ◌>>=◌ : {S A B : Type 0} → Exec S A → (A → Exec S B) → Exec S B
◌>>=◌ m f s = let (r, s') = m s in elim r [ ok a ↦ f a s' | raised e ↦ raise e s' ]

abbrev pub ◌>>◌ : {S A B : Type 0} → Exec S A → Exec S B → Exec S B
m >> k = m >>= λ _. k

-- `for x in xs: body`
abbrev pub for_each : {S A : Type 0} → List A → (A → Exec S (Unit {0})) → Exec S (Unit {0})
for_each [] f = return tt
for_each (x ∷ xs) f = f x >>= λ _. for_each xs f

-- The state that a statement leaves, however it ends.
abbrev pub state_after : {S A : Type 0} → Exec S A → S → S
state_after m s = (m s).1

pub Result-cases {ℓ} :
    {A : Type ℓ} (r : Result A) → ((a : A) × (r ≡ ok a)) ⊎ ((e : Exn) × (r ≡ raised e))
Result-cases (ok a) = inl (a, refl)
Result-cases (raised e) = inr (e, refl)

-- `if b: m`
abbrev pub when : {S : Type 0} → Bool → Exec S (Unit {0}) → Exec S (Unit {0})
when true m = m
when false m = return tt

-- What comes after a statement that does not raise.
pub bind_ok :
    {S A B : Type 0} (m : Exec S A) (f : A → Exec S B) (s s' : S) (a : A)
    → m s ≡ (ok a, s')
    → (m >>= f) s ≡ f a s'
bind_ok {S} {A} {B} m f s s' a h =
    ap
      (λ (q : Result A × S). elim q.0 as (λ x. Result B × S) [
        | ok b ↦ f b q.1
        | raised e ↦ (raised e, q.1)
      ])
      h
