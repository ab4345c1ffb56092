-- ===== src/Saga/Instance/Compensation.antt =====
-- How a saga ends: all its steps done, or those done compensated in reverse order.
use taskforge_platform.Common.{
  ℕ, ◌+◌, ◌<◌, ◌≡◌, refl, sym, ap, ◌∙◌, arith, ◌⊎◌, inl, inr, String, Option, none, some, List, [],
  ◌∷◌, ◌++◌, map, reverse, is_nil, length, append-nil, get_elem?, get_elem?-bound, get_elem?-length,
  subst, if◌then◌else◌,
}
use taskforge_platform.Common.Result.{⊤, Result, ok, err}
use taskforge_platform.Saga.Step.{Failure, index_error, Handler, SagaStep}
use taskforge_platform.Saga.Instance.{
  SagaStatus, running, completed, failed, compensated, SagaInstance, call, run_steps,
  compensate_all, unwind, notify, compensate_saga, fail_at, fail, conclude, succeed, finish,
  attempt_saga, execute_saga,
}
use taskforge_platform.Saga.Instance.Trace.{undone, faults, trace-compensate_all}
use taskforge_platform.Saga.Instance.Progress.{Kept, InRange, Progress, run_steps-Progress}

ended_status :
    (errors : List String) (before after : ℕ)
    → length errors + before ≡ after
    → let s = if is_nil errors then compensated else failed in
      (s ≡ compensated) × (after ≡ before) ⊎ (s ≡ failed) × (before < after)
ended_status [] before after h = inl (refl, omega arith)
ended_status (e ∷ errors) before after h = inr (refl, omega arith)

module _ {W : Type 0} where
  -- The names of the steps that were done, in the order in which they are undone.
  abbrev pub backwards : List (SagaStep W) → List String
  backwards l = map (λ s. s.name) (reverse l)

  -- The end of a saga that was compensated.
  abbrev Undone : SagaInstance W → SagaInstance W → Type 0
  Undone i j =
      (j.completed_steps ≡ i.completed_steps)
      × (undone j.run.trace ≡ undone i.run.trace ++ backwards i.completed_steps)
      × ((j.status ≡ compensated) × (faults j.run.trace ≡ faults i.run.trace)
          ⊎ (j.status ≡ failed) × (faults i.run.trace < faults j.run.trace))

  unwind-Undone : (i : SagaInstance W) → Undone i (unwind i)
  unfolding unwind
  unwind-Undone i =
      let c = trace-compensate_all (reverse i.completed_steps) [] i.run in
      (
        refl,
        c.0,
        ended_status (compensate_all (reverse i.completed_steps) [] i.run).0 _ _
            (omega (arith, c.1)),
      )

  notify-Undone :
      (o : Option (Handler W)) (i j : SagaInstance W) → Undone i j → Undone i (notify o j)
  unfolding notify
  notify-Undone none i j u = u
  notify-Undone (some h) i j u = u

  compensate_saga-Undone : (i : SagaInstance W) → Undone i (compensate_saga i)
  unfolding compensate_saga
  compensate_saga-Undone i = notify-Undone i.definition.on_failure i (unwind i) (unwind-Undone i)

  -- How the `try` statement ends, for an instance that starts with the steps `steps`.
  abbrev Ended : SagaInstance W → List (SagaStep W) → Result Failure ⊤ × SagaInstance W → Type 0
  Ended i steps (ok _, j) =
      ((j.status ≡ completed)
        × (j.completed_steps ≡ steps)
        × (undone j.run.trace ≡ undone i.run.trace))
      ⊎ ((rest : List (SagaStep W)) × (steps ≡ j.completed_steps ++ rest)
          × (undone j.run.trace ≡ undone i.run.trace ++ backwards j.completed_steps)
          × ((j.status ≡ compensated) × (faults j.run.trace ≡ faults i.run.trace)
              ⊎ (j.status ≡ failed) × (faults i.run.trace < faults j.run.trace)))
  Ended i steps (err e, j) = (e ≡ index_error) × (steps ≡ [])

  -- The `except` block at a step that exists.
  fail_at-Ended :
      (e : Failure) (i j : SagaInstance W) (steps rest : List (SagaStep W)) (s : SagaStep W)
      → Kept i j
      → steps ≡ j.completed_steps ++ rest
      → Ended i steps (fail_at (some s) e j)
  unfolding fail_at
  fail_at-Ended e i j steps rest s kept split =
      let (same, names, ends) =
        compensate_saga-Undone (record j { error = some e; failed_step = some s }) in
      inr (
        rest,
        split ∙ ap (λ l. l ++ rest) (sym same),
        names
            ∙ (ap (λ l. l ++ backwards j.completed_steps) kept.1
                ∙ ap (λ l. undone i.run.trace ++ backwards l) (sym same)),
        rw (← kept.2) ends,
      )

  -- The `except` block after the loop has ended: without a step, the lookup raises.
  fail-Ended :
      (e : Failure) (i j : SagaInstance W)
      → Kept i j
      → j.completed_steps ≡ i.definition.steps
      → InRange j
      → Ended i i.definition.steps (fail e j)
  unfolding fail fail_at
  fail-Ended e i j kept all range = go (get_elem? j.definition.steps j.current_step_index) refl
    where
      go :
          (o : Option (SagaStep W))
          → get_elem? j.definition.steps j.current_step_index ≡ o
          → Ended i i.definition.steps (fail_at o e j)
      go none h = (
        refl,
        elim range [
          | inl empty ↦ sym all ∙ empty
          | inr lt ↦
              let (s, found) = get_elem?-bound j.definition.steps j.current_step_index (
                subst (λ l. j.current_step_index < length l) (all ∙ ap (λ d. d.steps) (sym kept.0))
                  lt) in
              cc (h, found)
        ],
      )
      go (some s) h =
          fail_at-Ended e i j i.definition.steps [] s kept (sym all ∙ sym (append-nil _))

  conclude-Ended :
      (o : Option (Handler W)) (i j : SagaInstance W)
      → Kept i j
      → j.status ≡ completed
      → j.completed_steps ≡ i.definition.steps
      → InRange j
      → Ended i i.definition.steps (conclude o j)
  unfolding conclude
  conclude-Ended none i j kept done all range = inl (done, all, kept.1)
  conclude-Ended (some h) i j kept done all range = go (call h j).0
    where
      go :
          (x : Option Failure)
          → Ended i i.definition.steps (elim x as (λ _. Result Failure ⊤ × SagaInstance W) [
            | none ↦ (ok tt, (call h j).1)
            | some e ↦ fail e (call h j).1
          ])
      go none = inl (done, all, kept.1)
      go (some e) = fail-Ended e i (call h j).1 kept all range

  -- The ends of a saga that was at `i`, with what `execute` answers.
  abbrev pub Ends : SagaInstance W → Result Failure SagaStatus × SagaInstance W → Type 0
  Ends i (ok x, j) = (x ≡ j.status) × Ended i i.definition.steps (ok tt, j)
  Ends i (err e, j) = (e ≡ index_error) × (i.definition.steps ≡ [])

module _ {W : Type 0} (sleep : ℕ → W → W) (now : W → ℕ) where
  attempt_saga-Ended :
      (i : SagaInstance W)
      → i.completed_steps ≡ []
      → Ended i i.definition.steps (attempt_saga sleep now i)
  unfolding attempt_saga succeed fail
  attempt_saga-Ended i fresh =
      go (run_steps sleep 0 i.definition.steps i).0 (run_steps sleep 0 i.definition.steps i).1
        (run_steps-Progress sleep 0 i.definition.steps i (rw fresh refl) (inl fresh))
    where
      go :
          (x : Result Failure ⊤) (j : SagaInstance W)
          → Progress i i.definition.steps (x, j)
          → Ended i i.definition.steps (elim x as (λ _. Result Failure ⊤ × SagaInstance W) [
            | ok _ ↦ succeed j
            | err e ↦ fail e j
          ])
      go (ok _) j (kept, all, range) =
          conclude-Ended j.definition.on_success i (record j { status = completed }) kept refl
            (rw fresh at all) range
      go (err e) j (kept, s, rest, split, at) =
          let here : i.definition.steps ≡ j.completed_steps ++ s ∷ rest = rw fresh at split in
          let found : get_elem? j.definition.steps j.current_step_index ≡ some s =
            rw (kept.0, here, at) (get_elem?-length j.completed_steps rest s) in
          rw found (fail_at-Ended e i j i.definition.steps (s ∷ rest) s kept here)

  -- A saga of which no step is done yet ends in one of three ways, whatever its steps do. It is
  -- COMPLETED, all its steps are done in order, and the trace gains no call of `compensate`. Or the
  -- steps done are a prefix of its steps, the trace gains one call of `compensate` for each of
  -- them, the last one first, and it is COMPENSATED if no compensation raised and FAILED if one
  -- did. Or `execute` raises IndexError, and it has no steps. Unless it raises, `execute` answers
  -- the status that the instance is left with.
  pub execute_saga-Ends :
      (i : SagaInstance W) → i.completed_steps ≡ [] → Ends i (execute_saga sleep now i)
  unfolding execute_saga finish
  execute_saga-Ends i fresh =
      let begun = record i { status = running; started_at = some (now i.run.world) } in
      go (attempt_saga sleep now begun).0 (attempt_saga sleep now begun).1
        (attempt_saga-Ended begun fresh)
    where
      go :
          (x : Result Failure ⊤) (j : SagaInstance W)
          → Ended i i.definition.steps (x, j)
          → Ends i (
              let k = finish sleep now (now i.run.world) j in
              elim x as (λ _. Result Failure SagaStatus × SagaInstance W) [
                | ok _ ↦ (ok k.status, k)
                | err e ↦ (err e, k)
              ])
      go (ok _) j h = (refl, h)
      go (err e) j h = h
