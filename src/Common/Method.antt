-- ===== src/Common/Method.antt =====
-- Methods that change an object and may raise. What was written before a raise stays written, so
-- the object comes back beside the exception too.
use taskforge_platform.Common.{Bool, true, false, ◌≡◌, refl, Option, none, some}
use taskforge_platform.Common.Result.{⊤, Result, ok, err}

abbrev pub Method : Type 0 → Type 0 → Type 0 → Type 0
Method S E A = S → Result E A × S

module _ {S E A : Type 0} where
  abbrev pub pure : A → Method S E A
  pure a s = (ok a, s)

  abbrev pub raise : E → Method S E A
  raise e s = (err e, s)

  -- A call that touches no state.
  abbrev pub lift : Result E A → Method S E A
  lift r s = (r, s)

  abbrev pub gets : (S → A) → Method S E A
  gets f s = (ok (f s), s)

abbrev pub modify : {S E : Type 0} → (S → S) → Method S E ⊤
modify f s = (ok tt, f s)

module _ {S E A B : Type 0} where
  abbrev pub continue : Result E A → (A → Method S E B) → Method S E B
  continue (ok a) f s = f a s
  continue (err e) f s = (err e, s)

  infixl 5 ◌>>=◌ ◌>>◌
  abbrev pub ◌>>=◌ : Method S E A → (A → Method S E B) → Method S E B
  ◌>>=◌ m f s = let (r, s') = m s in continue r f s'

  abbrev pub ◌>>◌ : Method S E A → Method S E B → Method S E B
  m >> k = m >>= λ _. k

-- `if o is not None: f(o)`
abbrev pub for_some : {S E A : Type 0} → Option A → (A → Method S E ⊤) → Method S E ⊤
for_some none f = pure tt
for_some (some a) f = f a

abbrev pub when : {S E : Type 0} → Bool → Method S E ⊤ → Method S E ⊤
when true m = m
when false m = pure tt

-- Inversion of a step of a block that returns.
pub >>=-eq-ok :
    {S E A B : Type 0} (m : Method S E A) (f : A → Method S E B) (s : S) {b : B} {u : S}
    → (m >>= f) s ≡ (ok b, u)
    → (a : A) × (t : S) × (m s ≡ (ok a, t)) × (f a t ≡ (ok b, u))
>>=-eq-ok {S} {E} {A} {B} m f s {b} {u} h = go (m s).0 (m s).1 h
  where
    go :
        (r : Result E A) (t : S)
        → continue r f t ≡ (ok b, u)
        → (a : A) × (t' : S) × (Path (Result E A × S) (r, t) (ok a, t')) × (f a t' ≡ (ok b, u))
    go (ok a) t e = (a, t, refl, e)
    go (err x) t e = cc
