-- ===== src/Saga/Kinds.antt =====
-- The kinds of step of libs/saga_framework/step.py that are built from other callables: their
-- constructors put an action and a compensation together. The timeout of a step that contains
-- steps is taken not to run out before those of its parts.
pub mod Clients
use taskforge_platform.Common.{
  ℕ, Bool, true, false, ◌&&◌, not, String, Option, none, some, List, [], ◌∷◌, ◌++◌, map, is_nil,
  if◌then◌else◌,
}
use taskforge_platform.Common.Dict.{Dict, get_or, update}
use taskforge_platform.Common.Value.{Value, null}
use taskforge_platform.Common.Result.{⊤, Result, ok, err}
use taskforge_platform.Saga.Step.{
  Context, Failure, timeout, exception, parallel_failed, Attempt, returned, ran_out, raised, Action,
  Handler, SagaStep, Run, execute, compensate,
}

-- The defaults of the dataclass, with the UUID of the step.
unfoldable pub new_step : {W : Type 0} → String → String → Action W → SagaStep W
new_step id name action = record {
  step_id = id;
  name = name;
  action = action;
  compensation = none;
  retry_count = 3;
  retry_delay = 1000;
  timeout_seconds = 30;
  is_compensatable = true;
}

-- What an event factory gives: a dict, or the coroutine object of an `async` function.
pub data Produced : Type 0 where
  event : Dict Value → Produced
  coroutine : Produced

abbrev pub Publisher : Type 0 → Type 0
Publisher W = String → Produced → W → Option Failure × W

abbrev pub no_attribute : Failure
no_attribute = exception "AttributeError"

-- Behind `await event_publisher.publish(…)`.
abbrev pub published : Produced → Option Failure → Attempt
published e (some x) = raised x
published coroutine none = raised no_attribute
published (event d) none = returned (some (("published_event", get_or "event_id" null d) ∷ []))

module _ {W : Type 0} where
  -- The action behind `event = event_factory(context)`.
  unfoldable pub publish_to :
      Option (Publisher W) → String → Result Failure Produced → Context → W → Attempt × Context × W
  publish_to publisher topic (err x) c w = (raised x, c, w)
  publish_to none topic (ok e) c w = (raised no_attribute, c, w)
  publish_to (some publish) topic (ok e) c w =
      let (x, w') = publish topic e w in (published e x, c, w')

  -- `KafkaPublishStep(name, topic, event_factory, event_publisher)`
  unfoldable pub kafka_publish_step :
      String
      → String
      → String
      → (Context → Result Failure Produced)
      → Option (Publisher W)
      → SagaStep W
  unfolding new_step publish_to get_or
  kafka_publish_step id name topic factory publisher =
      record (new_step id name (λ c w. publish_to publisher topic (factory c) c w)) {
        is_compensatable = false;
      }

-- How an awaited `execute` of another step ends; its TimeoutError is the one that the caller
-- handles as a time-out.
abbrev pub attempt_of : Result Failure Context → Attempt
attempt_of (ok c) = returned (some c)
attempt_of (err (timeout name)) = ran_out
attempt_of (err x) = raised x

module _ {W : Type 0} (sleep : ℕ → W → W) where
  -- `await step.execute(context)`, without the log of the step.
  unfoldable pub inner : SagaStep W → Action W
  unfolding execute
  inner s c w =
      let (x, r) = execute sleep s (record { context = c; world = w; trace = [] }) in
      (attempt_of x, r.context, r.world)

  abbrev pub otherwise : Option (SagaStep W) → Action W
  otherwise none c w = (returned (some []), c, w)
  otherwise (some s) c w = inner s c w

  -- `ConditionalStep(name, condition, step, else_step)`
  unfoldable pub conditional_step :
      String → String → (Context → Bool) → SagaStep W → Option (SagaStep W) → SagaStep W
  unfolding new_step inner
  conditional_step id name condition s else_step =
      record (new_step id name
        (λ c w. if condition c then inner s c w else otherwise else_step c w)) {
          compensation = if s.is_compensatable then s.compensation else none;
        }

  -- One of the awaitables of a `ParallelStep`: a step on a copy of the context.
  abbrev pub on_copy : Context → SagaStep W → W → Result Failure Context × W
  unfolding execute
  on_copy c s w =
      let (x, r) = execute sleep s (record { context = c; world = w; trace = [] }) in (x, r.world)

-- The loop over the results: the names of the steps that raised, and the results of the others.
unfoldable pub combine :
    {W : Type 0}
    → List (SagaStep W)
    → List (Result Failure Context)
    → List String × Context
    → List String × Context
unfolding update
combine (s ∷ ss) (ok c ∷ rs) (errors, all) = combine ss rs (errors, update all c)
combine (s ∷ ss) (err x ∷ rs) (errors, all) = combine ss rs (errors ++ s.name ∷ [], all)
combine ss rs sofar = sofar

abbrev pub combined : List String × Context → Attempt
combined (errors, all) =
    if is_nil errors then returned (some all) else raised (parallel_failed errors)

abbrev pub has_compensation : {W : Type 0} → SagaStep W → Bool
has_compensation s = s.is_compensatable && elim s.compensation [ none ↦ false | some _ ↦ true ]

-- `[x for x in l if p(x)]`
abbrev pub keep_if : {A : Type 0} → (A → Bool) → List A → List A
keep_if p [] = []
keep_if p (x ∷ l) = let rest = keep_if p l in if p x then x ∷ rest else rest

-- `asyncio.gather(…, return_exceptions=True)`: the ends of the awaitables, in their order.
abbrev pub Gather : Type 0 → Type 0 → Type 0
Gather W A = List (W → A × W) → W → List A × W

module _ {W : Type 0} (sleep : ℕ → W → W) (gather : Gather W (Result Failure Context)) where
  -- The action of a `ParallelStep`.
  unfoldable pub parallel_action : List (SagaStep W) → Action W
  unfolding combine execute
  parallel_action steps c w =
      let (results, w') = gather (map (λ s. on_copy sleep c s) steps) w in
      (combined (combine steps results ([], [])), c, w')

  abbrev pub compensate_on_copy : Context → SagaStep W → W → Result Failure ⊤ × W
  unfolding compensate
  compensate_on_copy c s w =
      let (x, r) = compensate s (record { context = c; world = w; trace = [] }) in (x, r.world)

  -- The compensation of a `ParallelStep`, which reads no result.
  unfoldable pub parallel_compensation : Gather W (Result Failure ⊤) → List (SagaStep W) → Handler W
  unfolding compensate
  parallel_compensation gather_all steps c w =
      let tasks = map (λ s. compensate_on_copy c s) (keep_if has_compensation steps) in
      let (_, w') = gather_all tasks w in (none, c, if is_nil tasks then w else w')

  -- `ParallelStep(name, steps)`
  unfoldable pub parallel_step :
      Gather W (Result Failure ⊤) → String → String → List (SagaStep W) → SagaStep W
  unfolding new_step parallel_action parallel_compensation
  parallel_step gather_all id name steps = record (new_step id name (parallel_action steps)) {
    compensation = some (parallel_compensation gather_all steps);
  }
