-- ===== src/Saga/Tests.antt =====
-- Sagas of two steps, one of which fails, and the theorems about them at these sagas.
use taskforge_platform.Common.{ℕ, ◌+◌, ◌*◌, ◌^◌, ◌≤◌, ◌≡◌, refl, true, none, some, [], ◌∷◌}
use taskforge_platform.Common.Value.{str}
use taskforge_platform.Common.Result.{ok}
use taskforge_platform.Saga.Step.{
  exception, Run, returned, raised, Action, Handler, SagaStep, log, executing, try_once, execute,
  pause,
}
use taskforge_platform.Saga.Step.Retries.{
  attempts, time_slept, Fails, Decides, execute_bounds, execute_outcome,
}
use taskforge_platform.Common.Dict.{lookup}
use taskforge_platform.Saga.Orchestrator.{new_orchestrator, start_saga, cancel_saga}
use taskforge_platform.Saga.Orchestrator.Registry.{
  fresh, next, starts, cancels, IsDisjoint, Reachable-IsDisjoint, execute_saga_cancelled,
}
use taskforge_platform.Saga.Instance.{
  cancelled, compensated, completed, SagaDefinition, SagaInstance, add_step, new_instance,
  execute_saga,
}
use taskforge_platform.Saga.Instance.Trace.{undone}
use taskforge_platform.Saga.Instance.Compensation.{Ends, execute_saga-Ends}

-- The world is a clock.
abbrev sleep : ℕ → ℕ → ℕ
sleep d t = t + d

abbrev now : ℕ → ℕ
now t = t

abbrev undo : Handler ℕ
undo c t = (none, c, t + 1)

abbrev with_action : Action ℕ → SagaStep ℕ
with_action a = record {
  step_id = "s";
  name = "charge";
  action = a;
  compensation = some undo;
  retry_count = 2;
  retry_delay = 100;
  timeout_seconds = 30;
  is_compensatable = true;
}

abbrev book : SagaStep ℕ
book = record (with_action (λ c t. (returned (some (("seat", str "7a") ∷ [])), c, t + 1))) {
  name = "book";
}

abbrev charge : SagaStep ℕ
charge = with_action (λ c t. (raised (exception "declined"), c, t + 1))

abbrev begin : Run ℕ
begin = record { context = []; world = 0; trace = [] }

abbrev no_steps : SagaDefinition ℕ
no_steps = record { saga_id = "t"; name = "trip"; steps = []; on_success = none; on_failure = none }

unfoldable trip : SagaDefinition ℕ
unfolding add_step
trip = add_step charge (add_step book no_steps)

unfoldable journey : SagaInstance ℕ
unfolding new_instance trip
journey = new_instance "i" trip none 0

-- The charge fails three times, with pauses of 100 and 200, and the booking is undone.
journey_status : (execute_saga sleep now journey).0 ≡ ok compensated
unfolding execute_saga journey trip
journey_status = refl

journey-undone : undone (execute_saga sleep now journey).1.run.trace ≡ "book" ∷ []
unfolding execute_saga journey trip pause
journey-undone = refl

charge_slept : time_slept (execute sleep charge begin).1.trace ≡ 300
unfolding execute pause
charge_slept = refl

book_answer :
    (execute_saga sleep now (record journey { definition = record trip { steps = book ∷ [] } })).0
    ≡ ok completed
unfolding execute_saga journey trip
book_answer = refl

execute_bounds_example :
    (attempts (execute sleep charge begin).1.trace ≤ attempts begin.trace + charge.retry_count + 1)
    × (time_slept (execute sleep charge begin).1.trace + charge.retry_delay
        ≤ time_slept begin.trace + charge.retry_delay * 2 ^ charge.retry_count)
execute_bounds_example = execute_bounds sleep charge begin

execute_outcome_example :
    (j : ℕ) × (u : Run ℕ) × Fails sleep charge (log (executing "charge") begin) j u
    × (try_once sleep charge j u ≡ execute sleep charge begin)
    × Decides sleep charge j 2 (execute sleep charge begin).0
execute_outcome_example = execute_outcome sleep charge begin

execute_saga-Ends_example : Ends journey (execute_saga sleep now journey)
unfolding journey
execute_saga-Ends_example = execute_saga-Ends sleep now journey refl

execute_saga_cancelled_example :
    let (i, o') = start_saga "i" trip none 0 new_orchestrator in
    let (answer, o'') = cancel_saga "i" o' in
    (answer ≡ true)
    × (lookup "i" o''.running_instances ≡ some (record i { status = cancelled }))
    × (execute_saga sleep now (record i { status = cancelled }) ≡ execute_saga sleep now i)
execute_saga_cancelled_example = execute_saga_cancelled sleep now "i" trip none 0 new_orchestrator

Reachable-IsDisjoint_example :
    IsDisjoint (cancel_saga "i" (start_saga "i" trip none 0 new_orchestrator).1).1
unfolding new_orchestrator lookup
Reachable-IsDisjoint_example = Reachable-IsDisjoint (
    next (next fresh (starts "i" trip none 0 new_orchestrator refl))
      (cancels "i" (start_saga "i" trip none 0 new_orchestrator).1))
