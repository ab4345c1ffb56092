-- ===== src/Common/Result.antt =====
-- Exceptions as values: a call returns or raises, and a method of an object keeps what it had
-- written to the object when it raises.
use mathlib.Core.Bool.{Bool, true, false}
use mathlib.Core.Path.{◌≡◌, refl, subst}
use taskforge_platform.Common.Tests.{if◌then◌else◌}
use mathlib.Core.List.{List, [], ◌∷◌}

pub data Result {ℓ κ} (E : Type ℓ) (A : Type κ) : Type (ℓ ⊔ κ) where
  ok : A → Result E A
  err : E → Result E A

-- What a call returns that returns None.
abbrev pub ⊤ : Type 0
⊤ = Unit

-- A call inside a chain of calls that may raise.
module _ {E : Type 0} where
  infixl 5 ◌>>=◌ ◌>>◌
  abbrev pub ◌>>=◌ : {A B : Type 0} → Result E A → (A → Result E B) → Result E B
  err x >>= f = err x
  ok a >>= f = f a

  abbrev pub ◌>>◌ : {B : Type 0} → Result E ⊤ → Result E B → Result E B
  x >> k = x >>= λ _. k

-- `if bad: raise e`
abbrev pub raise_if : {E : Type 0} → Bool → E → Result E (⊤)
raise_if true e = err e
raise_if false e = ok tt

-- `[f(x) for x in xs]`
unfoldable pub traverse : {E A B : Type 0} → (A → Result E B) → List A → Result E (List B)
traverse f [] = ok []
traverse f (x ∷ xs) = f x >>= λ y. traverse f xs >>= λ ys. ok (y ∷ ys)

abbrev pub is_ok : {E A : Type 0} → Result E A → Bool
is_ok (ok a) = true
is_ok (err e) = false

-- Inversion of a bind that returns.
pub >>=-eq-ok :
    {E A B : Type 0} (x : Result E A) (k : A → Result E B) {y : B}
    → (x >>= k) ≡ ok y
    → (a : A) × (x ≡ ok a) × (k a ≡ ok y)
>>=-eq-ok (err x) f h = cc
>>=-eq-ok (ok a) f h = (a, refl, h)

-- What holds of the value if the call returns, with a rule for a bind and one for a test.
abbrev pub OnOk : {E A : Type 0} → (A → Type 0) → Result E A → Type 0
OnOk P (ok a) = P a
OnOk P (err e) = Unit

pub OnOk-bind :
    {E A B : Type 0} (P : B → Type 0) (m : Result E A) (f : A → Result E B)
    → ((a : A) → m ≡ ok a → OnOk P (f a))
    → OnOk P (m >>= f)
OnOk-bind P (ok a) f h = h a refl
OnOk-bind P (err e) f h = tt

pub OnOk-if :
    {E A : Type 0} (P : A → Type 0) (b : Bool) (x y : Result E A)
    → (b ≡ true → OnOk P x)
    → (b ≡ false → OnOk P y)
    → OnOk P (if b then x else y)
OnOk-if P true x y h k = h refl
OnOk-if P false x y h k = k refl

pub OnOk-use : {E A : Type 0} (P : A → Type 0) {r : Result E A} {a : A} → r ≡ ok a → OnOk P r → P a
OnOk-use P e h = subst (OnOk P) e h
