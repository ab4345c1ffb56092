-- ===== src/Saga/Instance.antt =====
-- `SagaDefinition` and `SagaInstance` of libs/saga_framework/saga.py. An instance that nobody else
-- touches while it runs; the world supplies the time.
pub mod Trace
pub mod Progress
pub mod Compensation
pub mod Runs
pub mod Identity
pub mod View
use taskforge_platform.Common.{
  ℕ, ◌+◌, ◌-◌, String, Option, none, some, List, [], ◌∷◌, ◌++◌, reverse, is_nil, get_elem?,
  if◌then◌else◌,
}
use taskforge_platform.Common.Dict.{insert, update}
use taskforge_platform.Common.Value.{str, number}
use taskforge_platform.Common.Result.{⊤, Result, ok, err}
use taskforge_platform.Saga.Step.{
  Context, Failure, index_error, Run, Handler, SagaStep, resume, execute, compensate,
}

pub data SagaStatus : Type 0 where
  pending running completed failed compensating compensated cancelled : SagaStatus

pub record SagaDefinition (W : Type 0) : Type 0 where
  pub saga_id : String
  pub name : String
  pub steps : List (SagaStep W)
  pub on_success : Option (Handler W)
  pub on_failure : Option (Handler W)

-- `SagaDefinition.add_step`
unfoldable pub add_step : {W : Type 0} → SagaStep W → SagaDefinition W → SagaDefinition W
add_step s d = record d { steps = d.steps ++ s ∷ [] }

pub record SagaInstance (W : Type 0) : Type 0 where
  pub instance_id : String
  pub definition : SagaDefinition W
  pub status : SagaStatus
  pub current_step_index : ℕ
  pub completed_steps : List (SagaStep W)
  pub failed_step : Option (SagaStep W)
  pub started_at : Option ℕ
  pub completed_at : Option ℕ
  pub error : Option Failure
  pub run : Run W

-- `SagaInstance(definition, initial_context)` with its new UUID.
unfoldable pub new_instance :
    {W : Type 0} → String → SagaDefinition W → Option Context → W → SagaInstance W
unfolding insert
new_instance id d c w = record {
  instance_id = id;
  definition = d;
  status = pending;
  current_step_index = 0;
  completed_steps = [];
  failed_step = none;
  started_at = none;
  completed_at = none;
  error = none;
  run = record {
    context = insert "saga_instance_id" (str id) (elim c [ none ↦ [] | some c ↦ c ]);
    world = w;
    trace = [];
  };
}

abbrev pub set_context : {W : Type 0} → (Context → Context) → SagaInstance W → SagaInstance W
set_context f i = record i { run = record i.run { context = f i.run.context } }

abbrev pub call : {W : Type 0} → Handler W → SagaInstance W → Option Failure × SagaInstance W
call h i =
    let (x, c, w) = h i.run.context i.run.world in (x, record i { run = resume (c, w) i.run })

module _ {W : Type 0} where
  -- What the loop does before a step.
  unfoldable pub enter : ℕ → SagaStep W → SagaInstance W → SagaInstance W
  unfolding insert
  enter k s i = record (set_context (insert "current_step" (str s.name)) i) {
    current_step_index = k;
  }

  -- What the loop does when a step has returned.
  unfoldable pub leave : SagaStep W → Context → Run W → SagaInstance W → SagaInstance W
  unfolding update
  leave s c r i =
      set_context (λ old. update old c)
        (record i { run = r; completed_steps = i.completed_steps ++ s ∷ [] })

module _ {W : Type 0} (sleep : ℕ → W → W) where
  -- `for i, step in enumerate(self.definition.steps)`, from step `k` on.
  unfoldable pub run_steps :
      ℕ → List (SagaStep W) → SagaInstance W → Result Failure ⊤ × SagaInstance W
  unfolding enter leave execute
  run_steps k [] i = (ok tt, i)
  run_steps k (s ∷ rest) i =
      let (x, r) = execute sleep s (enter k s i).run in
      elim x [
        | ok c ↦ run_steps (k + 1) rest (leave s c r (enter k s i))
        | err e ↦ (err e, record (enter k s i) { run = r })
      ]

module _ {W : Type 0} where
  -- The loop of `_compensate`, with `compensation_errors` by the names of the steps.
  unfoldable pub compensate_all : List (SagaStep W) → List String → Run W → List String × Run W
  unfolding compensate
  compensate_all [] errors r = (errors, r)
  compensate_all (s ∷ rest) errors r =
      let (x, r') = compensate s r in
      compensate_all rest (elim x [ ok _ ↦ errors | err e ↦ errors ++ s.name ∷ [] ]) r'

  -- `_compensate` up to its handler, without the status COMPENSATING, which nothing reads before
  -- the end.
  unfoldable pub unwind : SagaInstance W → SagaInstance W
  unfolding compensate_all
  unwind i =
      let (errors, r) = compensate_all (reverse i.completed_steps) [] i.run in
      record i { run = r; status = if is_nil errors then compensated else failed }

  -- `on_failure`, if there is one; its exception is logged and dropped.
  unfoldable pub notify : Option (Handler W) → SagaInstance W → SagaInstance W
  notify none i = i
  notify (some h) i = (call h i).1

  -- `_compensate`
  unfoldable pub compensate_saga : SagaInstance W → SagaInstance W
  unfolding unwind notify
  compensate_saga i = notify i.definition.on_failure (unwind i)

  -- The `except` block of `execute`; the step at the index is looked up in the list.
  unfoldable pub fail_at :
      Option (SagaStep W) → Failure → SagaInstance W → Result Failure ⊤ × SagaInstance W
  unfolding compensate_saga
  fail_at none e i = (err index_error, record i { error = some e })
  fail_at (some s) e i =
      (ok tt, compensate_saga (record i { error = some e; failed_step = some s }))

  unfoldable pub fail : Failure → SagaInstance W → Result Failure ⊤ × SagaInstance W
  unfolding fail_at
  fail e i = fail_at (get_elem? i.definition.steps i.current_step_index) e i

  -- `on_success`, if there is one; its exception leads to the `except` block.
  unfoldable pub conclude : Option (Handler W) → SagaInstance W → Result Failure ⊤ × SagaInstance W
  unfolding fail
  conclude none i = (ok tt, i)
  conclude (some h) i = let (x, j) = call h i in elim x [ none ↦ (ok tt, j) | some e ↦ fail e j ]

  -- The `try` block after the loop.
  unfoldable pub succeed : SagaInstance W → Result Failure ⊤ × SagaInstance W
  unfolding conclude
  succeed i = conclude i.definition.on_success (record i { status = completed })

module _ {W : Type 0} (sleep : ℕ → W → W) (now : W → ℕ) where
  -- The `finally` block.
  unfoldable pub finish : ℕ → SagaInstance W → SagaInstance W
  unfolding insert
  finish started i =
      let ended = now i.run.world in
      record (set_context (insert "saga_duration_seconds" (number (ended - started))) i) {
        completed_at = some ended;
      }

  -- The `try` statement, after `status = RUNNING` and `started_at = …`.
  unfoldable pub attempt_saga : SagaInstance W → Result Failure ⊤ × SagaInstance W
  unfolding run_steps succeed fail
  attempt_saga i =
      let (x, j) = run_steps sleep 0 i.definition.steps i in
      elim x [ ok _ ↦ succeed j | err e ↦ fail e j ]

  -- `SagaInstance.execute`
  unfoldable pub execute_saga : SagaInstance W → Result Failure SagaStatus × SagaInstance W
  unfolding attempt_saga finish
  execute_saga i =
      let started = now i.run.world in
      let (x, j) = attempt_saga (record i { status = running; started_at = some started }) in
      let k = finish started j in elim x [ ok _ ↦ (ok k.status, k) | err e ↦ (err e, k) ]
