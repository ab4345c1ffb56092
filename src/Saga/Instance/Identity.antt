-- ===== src/Saga/Instance/Identity.antt =====
-- A run never changes the id of its instance.
use taskforge_platform.Common.{ℕ, ◌+◌, ◌≡◌, refl, ◌∙◌, Option, none, some, List, [], ◌∷◌, get_elem?}
use taskforge_platform.Common.Result.{⊤, Result, ok, err}
use taskforge_platform.Saga.Step.{Context, Failure, Handler, Run, SagaStep, execute}
use taskforge_platform.Saga.Instance.{
  SagaInstance, SagaStatus, running, call, enter, leave, run_steps, unwind, notify, compensate_saga,
  fail_at, fail, conclude, succeed, attempt_saga, finish, execute_saga,
}

module _ {W : Type 0} where
  notify-instance_id :
      (o : Option (Handler W)) (i : SagaInstance W) → (notify o i).instance_id ≡ i.instance_id
  unfolding notify
  notify-instance_id none i = refl
  notify-instance_id (some h) i = refl

  compensate_saga-instance_id :
      (i : SagaInstance W) → (compensate_saga i).instance_id ≡ i.instance_id
  unfolding compensate_saga unwind
  compensate_saga-instance_id i = notify-instance_id i.definition.on_failure (unwind i)

  fail_at-instance_id :
      (o : Option (SagaStep W)) (e : Failure) (i : SagaInstance W)
      → (fail_at o e i).1.instance_id ≡ i.instance_id
  unfolding fail_at
  fail_at-instance_id none e i = refl
  fail_at-instance_id (some s) e i =
      compensate_saga-instance_id (record i { error = some e; failed_step = some s })

  fail-instance_id : (e : Failure) (i : SagaInstance W) → (fail e i).1.instance_id ≡ i.instance_id
  unfolding fail
  fail-instance_id e i = fail_at-instance_id (get_elem? i.definition.steps i.current_step_index) e i

  conclude-instance_id :
      (o : Option (Handler W)) (i : SagaInstance W) → (conclude o i).1.instance_id ≡ i.instance_id
  unfolding conclude
  conclude-instance_id none i = refl
  conclude-instance_id (some h) i = go (call h i).0
    where
      go :
          (x : Option Failure)
          → (elim x as (λ _. Result Failure ⊤ × SagaInstance W) [
            | none ↦ (ok tt, (call h i).1)
            | some e ↦ fail e (call h i).1
          ]).1.instance_id
            ≡ i.instance_id
      go none = refl
      go (some e) = fail-instance_id e (call h i).1

module _ {W : Type 0} (sleep : ℕ → W → W) where
  run_steps-instance_id :
      (k : ℕ) (steps : List (SagaStep W)) (i : SagaInstance W)
      → (run_steps sleep k steps i).1.instance_id ≡ i.instance_id
  unfolding run_steps enter leave
  run_steps-instance_id k [] i = refl
  run_steps-instance_id k (s ∷ rest) i =
      go (execute sleep s (enter k s i).run).0 (execute sleep s (enter k s i).run).1
        (λ c r. run_steps-instance_id (k + 1) rest (leave s c r (enter k s i)))
    where
      go :
          (x : Result Failure Context) (r : Run W)
          → ((c : Context) (r : Run W)
              → (run_steps sleep (k + 1) rest (leave s c r (enter k s i))).1.instance_id
                ≡ i.instance_id)
          → (elim x as (λ _. Result Failure ⊤ × SagaInstance W) [
            | ok c ↦ run_steps sleep (k + 1) rest (leave s c r (enter k s i))
            | err e ↦ (err e, record (enter k s i) { run = r })
          ]).1.instance_id
            ≡ i.instance_id
      go (ok c) r ih = ih c r
      go (err e) r ih = refl

  module _ (now : W → ℕ) where
    attempt_saga-instance_id :
        (i : SagaInstance W) → (attempt_saga sleep now i).1.instance_id ≡ i.instance_id
    unfolding attempt_saga succeed
    attempt_saga-instance_id i =
        go (run_steps sleep 0 i.definition.steps i).0 (run_steps sleep 0 i.definition.steps i).1
        ∙ run_steps-instance_id 0 i.definition.steps i
      where
        go :
            (x : Result Failure ⊤) (j : SagaInstance W)
            → (elim x as (λ _. Result Failure ⊤ × SagaInstance W) [
              | ok _ ↦ succeed j
              | err e ↦ fail e j
            ]).1.instance_id
              ≡ j.instance_id
        go (ok _) j = conclude-instance_id j.definition.on_success _
        go (err e) j = fail-instance_id e j

    pub execute_saga-instance_id :
        (i : SagaInstance W) → (execute_saga sleep now i).1.instance_id ≡ i.instance_id
    unfolding execute_saga finish
    execute_saga-instance_id i =
        go (attempt_saga sleep now begun).0 (attempt_saga sleep now begun).1
        ∙ attempt_saga-instance_id begun
      where
        begun : SagaInstance W
        begun = record i { status = running; started_at = some (now i.run.world) }

        go :
            (x : Result Failure ⊤) (j : SagaInstance W)
            → (let k = finish sleep now (now i.run.world) j in
                elim x as (λ _. Result Failure SagaStatus × SagaInstance W) [
                  | ok _ ↦ (ok k.status, k)
                  | err e ↦ (err e, k)
                ]).1.instance_id
              ≡ j.instance_id
        go (ok _) j = refl
        go (err e) j = refl
