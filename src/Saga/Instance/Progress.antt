-- ===== src/Saga/Instance/Progress.antt =====
-- How far the loop over the steps of a saga gets.
use taskforge_platform.Common.{
  ℕ, ◌+◌, ◌<◌, ◌≡◌, refl, sym, ap, ◌∙◌, arith, ◌⊎◌, inr, List, [], ◌∷◌, ◌++◌, length, length-append,
  append_assoc, append-nil,
}
use taskforge_platform.Common.Result.{⊤, Result, ok, err}
use taskforge_platform.Saga.Step.{Context, Failure, Run, SagaStep, execute}
use taskforge_platform.Saga.Instance.{SagaInstance, enter, leave, run_steps}
use taskforge_platform.Saga.Instance.Trace.{undone, faults, SameUndone, SameUndone-execute}

module _ {W : Type 0} where
  -- The definition, and what the trace shows of compensation, are left alone.
  abbrev pub Kept : SagaInstance W → SagaInstance W → Type 0
  Kept i j =
      (j.definition ≡ i.definition)
      × (undone j.run.trace ≡ undone i.run.trace)
      × (faults j.run.trace ≡ faults i.run.trace)

  Kept-trans : (i j k : SagaInstance W) → Kept i j → Kept j k → Kept i k
  Kept-trans i j k h l = (l.0 ∙ h.0, l.1 ∙ h.1, l.2 ∙ h.2)

  -- `current_step_index` names a completed step, if there is one.
  abbrev pub InRange : SagaInstance W → Type 0
  InRange i = (i.completed_steps ≡ []) ⊎ (i.current_step_index < length i.completed_steps)

  -- The loop ends behind the last step, or at the step that raised.
  abbrev pub Progress :
      SagaInstance W → List (SagaStep W) → Result Failure ⊤ × SagaInstance W → Type 0
  Progress i steps (ok _, j) =
      Kept i j × (j.completed_steps ≡ i.completed_steps ++ steps) × InRange j
  Progress i steps (err e, j) =
      Kept i j
      × (s : SagaStep W) × (rest : List (SagaStep W)) × (i.completed_steps ++ steps
          ≡ j.completed_steps ++ s ∷ rest)
      × (j.current_step_index ≡ length j.completed_steps)

  Progress-step :
      (i i' : SagaInstance W) (s : SagaStep W) (rest : List (SagaStep W))
      (p : Result Failure ⊤ × SagaInstance W)
      → Kept i i'
      → i'.completed_steps ≡ i.completed_steps ++ s ∷ []
      → Progress i' rest p
      → Progress i (s ∷ rest) p
  Progress-step i i' s rest (ok _, j) kept longer (k, all, range) = (
    Kept-trans i i' j kept k,
    all ∙ (ap (λ l. l ++ rest) longer ∙ append_assoc i.completed_steps _ _),
    range,
  )
  Progress-step i i' s rest (err e, j) kept longer (k, t, left, split, at) = (
    Kept-trans i i' j kept k,
    t,
    left,
    sym (ap (λ l. l ++ rest) longer ∙ append_assoc i.completed_steps _ _) ∙ split,
    at,
  )

module _ {W : Type 0} (sleep : ℕ → W → W) where
  pub run_steps-Progress :
      (k : ℕ) (steps : List (SagaStep W)) (i : SagaInstance W)
      → k ≡ length i.completed_steps
      → InRange i
      → Progress i steps (run_steps sleep k steps i)
  unfolding run_steps enter leave
  run_steps-Progress k [] i at range =
      ((refl, refl, refl), sym (append-nil i.completed_steps), range)
  run_steps-Progress k (s ∷ rest) i at range =
      go (execute sleep s (enter k s i).run).0 (execute sleep s (enter k s i).run).1
        (SameUndone-execute sleep s (enter k s i).run)
        (λ c r.
          run_steps-Progress (k + 1) rest (leave s c r (enter k s i))
            (omega (arith, at, length-append i.completed_steps (s ∷ [])))
            (inr (omega (arith, at, length-append i.completed_steps (s ∷ [])))))
    where
      go :
          (x : Result Failure Context) (r : Run W)
          → SameUndone i.run r
          → ((c : Context) (r : Run W)
              → Progress
                  (leave s c r (enter k s i))
                  rest
                  (run_steps sleep (k + 1) rest (leave s c r (enter k s i))))
          → Progress i (s ∷ rest) (elim x as (λ _. Result Failure ⊤ × SagaInstance W) [
            | ok c ↦ run_steps sleep (k + 1) rest (leave s c r (enter k s i))
            | err e ↦ (err e, record (enter k s i) { run = r })
          ])
      go (ok c) r same ih =
          Progress-step i (leave s c r (enter k s i)) s rest _ (refl, same.0, same.1) refl (ih c r)
      go (err e) r same ih = ((refl, same.0, same.1), s, rest, refl, at)
