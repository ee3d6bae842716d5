-- ===== src/Prelude/Results.antt =====
-- A computation that may fail: Go's `(value, error)` where the error is not nil exactly on failure.
use mathlib.Core.Path.{◌≡◌, refl, subst}
use mathlib.Core.Logic.{◌⊎◌, inl, inr}
use mathlib.Core.Bool.{Bool, true, false}
use musecat_backend_core.Prelude.Tests.{if◌then◌else◌}

pub data Result (E A : Type 0) : Type 0 where
  ok : A → Result E A
  err : E → Result E A

-- Go's `if err != nil { return err }` after a call.
infixl 5 ◌>>=◌
abbrev pub ◌>>=◌ : {E X Y : Type 0} → Result E X → (X → Result E Y) → Result E Y
err why >>= next = err why
ok x >>= next = next x

-- a chain that succeeds has a first step that does
pub >>=-eq-ok :
    {E X Y : Type 0} (first : Result E X) (next : X → Result E Y) {y : Y}
    → first >>= next ≡ ok y
    → (x : X) × (first ≡ ok x) × (next x ≡ ok y)
>>=-eq-ok (err why) next done = cc
>>=-eq-ok (ok x) next done = (x, refl, done)

pub Result-cases :
    {E A : Type 0} (r : Result E A) → ((a : A) × (r ≡ ok a)) ⊎ ((e : E) × (r ≡ err e))
Result-cases (ok a) = inl (a, refl)
Result-cases (err e) = inr (e, refl)

-- what a computation that succeeds ensures of its result
abbrev pub Ensures {κ} : {E A : Type 0} → (A → Type κ) → Result E A → Type κ
Ensures holds (err why) = Unit
Ensures holds (ok a) = holds a

pub >>=-Ensures {κ} :
    {E X Y : Type 0} (holds : Y → Type κ) (first : Result E X) (next : X → Result E Y)
    → ((x : X) → first ≡ ok x → Ensures holds (next x))
    → Ensures holds (first >>= next)
>>=-Ensures holds (err why) next step = tt
>>=-Ensures holds (ok x) next step = step x refl

pub of_Ensures {κ} :
    {E A : Type 0} (holds : A → Type κ) (r : Result E A) {a : A}
    → Ensures holds r
    → r ≡ ok a
    → holds a
of_Ensures holds r {a} ensured done = subst (Ensures holds) done ensured

pub if-Ensures {κ} :
    {E A : Type 0} (holds : A → Type κ) (b : Bool) (r r' : Result E A)
    → Ensures holds r
    → Ensures holds r'
    → Ensures holds (if b then r else r')
if-Ensures holds true r r' left right = left
if-Ensures holds false r r' left right = right

pub Ensures-map {κ κ'} :
    {E A : Type 0} (holds : A → Type κ) (holds' : A → Type κ') (r : Result E A)
    → ((a : A) → holds a → holds' a)
    → Ensures holds r
    → Ensures holds' r
Ensures-map holds holds' (err why) step ensured = tt
Ensures-map holds holds' (ok a) step ensured = step a ensured
