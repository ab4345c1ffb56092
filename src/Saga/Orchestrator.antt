-- ===== src/Saga/Orchestrator.antt =====
-- `SagaOrchestrator` of libs/saga_framework/saga.py: the instances that run and those that are done,
-- by their ids. The background task of an instance is a sequence of steps: what `execute` changes
-- of the instance (`advance`), and the move behind it (`cleanup`).
pub mod Registry
use taskforge_platform.Common.{
  ℕ, zero, suc, ◌-◌, Bool, true, false, String, Option, none, some, List, [], ◌∷◌, map, length,
  drop, if◌then◌else◌,
}
use taskforge_platform.Common.Dict.{Dict, lookup, insert, erase, values}
use taskforge_platform.Common.Value.{Value}
use taskforge_platform.Common.Result.{Result}
use taskforge_platform.Saga.Step.{Context, Failure}
use taskforge_platform.Saga.Instance.{
  SagaDefinition, SagaInstance, SagaStatus, cancelled, new_instance, execute_saga,
}
use taskforge_platform.Saga.Instance.View.{to_dict}

pub record SagaOrchestrator (W : Type 0) : Type 0 where
  pub running_instances : Dict (SagaInstance W)
  pub completed_instances : Dict (SagaInstance W)

module _ {W : Type 0} where
  unfoldable pub new_orchestrator : SagaOrchestrator W
  new_orchestrator = record { running_instances = []; completed_instances = [] }

  -- An instance among those that run, by its id.
  unfoldable pub put_running : SagaInstance W → SagaOrchestrator W → SagaOrchestrator W
  unfolding insert
  put_running i o = record o { running_instances = insert i.instance_id i o.running_instances }

  -- `start_saga`, with the UUID of the new instance.
  unfoldable pub start_saga :
      String
      → SagaDefinition W
      → Option Context
      → W
      → SagaOrchestrator W
      → SagaInstance W × SagaOrchestrator W
  unfolding new_instance put_running
  start_saga id d c w o = let i = new_instance id d c w in (i, put_running i o)

  -- The `finally` block of `_execute_and_cleanup`.
  unfoldable pub cleanup : SagaInstance W → SagaOrchestrator W → SagaOrchestrator W
  unfolding insert erase
  cleanup i o = record {
    running_instances = erase i.instance_id o.running_instances;
    completed_instances = insert i.instance_id i o.completed_instances;
  }

  abbrev pub or_else : Option (SagaInstance W) → Option (SagaInstance W) → Option (SagaInstance W)
  or_else (some i) o = some i
  or_else none o = o

  unfoldable pub get_instance : String → SagaOrchestrator W → Option (SagaInstance W)
  unfolding lookup
  get_instance id o = or_else (lookup id o.running_instances) (lookup id o.completed_instances)

  -- `cancel_saga` with what the registry has.
  unfoldable pub cancel_found :
      String → Option (SagaInstance W) → SagaOrchestrator W → Bool × SagaOrchestrator W
  unfolding insert
  cancel_found id none o = (false, o)
  cancel_found id (some i) o = (
    true,
    record o {
      running_instances = insert id (record i { status = cancelled }) o.running_instances;
    },
  )

  unfoldable pub cancel_saga : String → SagaOrchestrator W → Bool × SagaOrchestrator W
  unfolding cancel_found lookup
  cancel_saga id o = cancel_found id (lookup id o.running_instances) o

-- `_execute_and_cleanup` from its start to its end, with what `execute` returns or raises.
module _ {W : Type 0} (sleep : ℕ → W → W) (now : W → ℕ) where
  unfoldable pub execute_and_cleanup :
      SagaInstance W → SagaOrchestrator W → Result Failure SagaStatus × SagaOrchestrator W
  unfolding execute_saga cleanup
  execute_and_cleanup i o = let (x, j) = execute_saga sleep now i in (x, cleanup j o)

-- `l[-limit:]`: with `limit` 0 this is `l[0:]`.
unfoldable pub last : {A : Type 0} → ℕ → List A → List A
last zero l = l
last (suc n) l = drop (length l - suc n) l

module _ {W : Type 0} (isoformat : ℕ → String) (show : Failure → String) where
  unfoldable pub get_active_sagas : SagaOrchestrator W → List (Dict Value)
  unfolding to_dict values
  get_active_sagas o = map (to_dict isoformat show) (values o.running_instances)

  -- `get_saga_history`, for a limit that is not negative.
  unfoldable pub get_saga_history : ℕ → SagaOrchestrator W → List (Dict Value)
  unfolding to_dict values last
  get_saga_history limit o =
      map (to_dict isoformat show) (last limit (values o.completed_instances))
