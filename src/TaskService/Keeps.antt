-- ===== src/TaskService/Keeps.antt =====
-- What holds of the methods of the service behind a call: of the state, when the call returns, and of
-- the flag `_running`, also when it raises.
use taskforge_platform.Common.{◌≡◌, refl, ◌∙◌, Bool, true, false, Option, none, some}
use taskforge_platform.Common.Result.{⊤, Result, ok, err}
use taskforge_platform.Common.Method.{Method, continue, when, for_some, ◌>>◌}
use taskforge_platform.TaskService.{TaskServiceApp}

-- What holds when a method returns.
abbrev pub Post :
    {W X : Type 0} → (TaskServiceApp W → Type 0) → Result X ⊤ × TaskServiceApp W → Type 0
Post Q (ok _, a) = Q a
Post Q (err x, a) = Unit

module _ {X W : Type 0} where
  -- A method that returns from any state does so in one with `Q`.
  abbrev pub Ensures : Method (TaskServiceApp W) X ⊤ → (TaskServiceApp W → Type 0) → Type 0
  Ensures m Q = (a : TaskServiceApp W) → Post Q (m a)

  pub Ensures->> :
      (m k : Method (TaskServiceApp W) X ⊤) (P Q : TaskServiceApp W → Type 0)
      → Ensures m P
      → ((a : TaskServiceApp W) → P a → Post Q (k a))
      → Ensures (m >> k) Q
  Ensures->> m k P Q h g a = go (m a).0 (m a).1 (h a)
    where
      go : (r : Result X ⊤) (b : TaskServiceApp W) → Post P (r, b) → Post Q (continue r (λ _. k) b)
      go (ok _) b p = g b p
      go (err x) b p = tt

  -- A method that leaves the flag `_running` alone.
  abbrev pub Keeps : Method (TaskServiceApp W) X ⊤ → Type 0
  Keeps m = (a : TaskServiceApp W) → (m a).1.is_running ≡ a.is_running

  pub Keeps->> : (m k : Method (TaskServiceApp W) X ⊤) → Keeps m → Keeps k → Keeps (m >> k)
  Keeps->> m k h g a = go (m a).0 (m a).1 (h a)
    where
      go :
          (r : Result X ⊤) (b : TaskServiceApp W)
          → b.is_running ≡ a.is_running
          → (continue r (λ _. k) b).1.is_running ≡ a.is_running
      go (ok _) b e = g b ∙ e
      go (err x) b e = e

  pub Keeps-when : (b : Bool) (m : Method (TaskServiceApp W) X ⊤) → Keeps m → Keeps (when b m)
  Keeps-when true m h = h
  Keeps-when false m h = λ a. refl

  pub Keeps-for_some :
      {A : Type 0} (o : Option A) (f : A → Method (TaskServiceApp W) X ⊤)
      → ((x : A) → Keeps (f x))
      → Keeps (for_some o f)
  Keeps-for_some none f h = λ a. refl
  Keeps-for_some (some x) f h = h x
