-- ===== src/Service/Refusals.antt =====
-- `CreateTask` never answers a task: the block that saves it raises.
use taskforge_platform.Common.{
  ℕ, ◌+◌, length, ◌≡◌, ◌≢◌, refl, Bool, String, Option, none, [], Runtime,
}
use taskforge_platform.Common.Integer.{ℤ}
use taskforge_platform.Common.Dict.{Dict}
use taskforge_platform.Common.Value.{Value}
use taskforge_platform.Common.Result.{⊤, Result, ok, err}
use taskforge_platform.EventSourcing.Replay.{Numbered, raise_event_inv}
use taskforge_platform.Task.Errors.{
  Error, value_error, domain, frozen_instance, type_error, runtime_error, aborted_transaction,
  ill_typed, integrity_error, kafka_error,
}
use taskforge_platform.Task.Events.{event_type}
use taskforge_platform.Task.Aggregate.{TaskAggregate, new_aggregate, apply_event}
use taskforge_platform.Task.Aggregate.View.{to_dict}
use taskforge_platform.Task.Aggregate.Methods.{Fresh, new_event, created_event, create, emit}
use taskforge_platform.Task.Aggregate.Methods.Sourced.{create_inv, create-IsSourced}
use taskforge_platform.Persistence.Repository.Saves.{save_in_unit-Raises}
use taskforge_platform.Persistence.Tasks.{TaskRepository}
use taskforge_platform.Service.{
  Reply, abort, StatusCode, Details, CreateTaskRequest, create_command, abort_create, saved,
  save_task, answer, store_created, create_task,
}

abbrev pub IsError : {A : Type 0} → Result Error A → Type 0
IsError y = (x : Error) × (y ≡ err x)

saved-IsError :
    (a : TaskAggregate) (y : Result Error ⊤) (r : TaskRepository)
    → IsError y
    → IsError (saved a y r).0
unfolding saved
saved-IsError a (err x) r h = (x, refl)
saved-IsError a (ok _) r h = absurd (cc h.1)

-- Saving a task with something to save always raises.
pub save_task-IsError :
    (n : ℕ) (a : TaskAggregate) (expected : Option ℤ) (r : TaskRepository)
    → a.uncommitted ≢ []
    → Numbered a.aggregate_id n a.uncommitted
    → a.version ≡ n + length a.uncommitted
    → IsError (save_task a expected r).0
unfolding save_task
save_task-IsError n a expected r ne num v =
    let (x, fails, _, _) = save_in_unit-Raises (λ e. event_type e.body) a n expected r ne num v in
    saved-IsError a _ _ (x, fails)

-- An abort of the call.
abbrev pub IsAbort : {A : Type 0} → Reply A → Type 0
IsAbort y = (code : StatusCode) × (details : Details) × (y ≡ abort code details)

abort_create-IsAbort : (x : Error) → IsAbort (abort_create {A = Dict Value} x)
unfolding abort_create
abort_create-IsAbort (value_error ms) = (_, _, refl)
abort_create-IsAbort (domain y) = (_, _, refl)
abort_create-IsAbort frozen_instance = (_, _, refl)
abort_create-IsAbort type_error = (_, _, refl)
abort_create-IsAbort (runtime_error s) = (_, _, refl)
abort_create-IsAbort aborted_transaction = (_, _, refl)
abort_create-IsAbort ill_typed = (_, _, refl)
abort_create-IsAbort integrity_error = (_, _, refl)
abort_create-IsAbort kafka_error = (_, _, refl)

module _ ⦃rt : Runtime⦄ (frozen : Bool) (f : Fresh) where
  create-nonempty :
      (id : String) (q : CreateTaskRequest) (a : TaskAggregate)
      → create frozen f id (create_command q) ≡ ok a
      → a.uncommitted ≢ []
  unfolding emit new_aggregate
  create-nonempty id q a h e =
      let (_, _, one, _) =
        raise_event_inv apply_event frozen frozen_instance
          (new_event f (new_aggregate id).aggregate_id (created_event frozen f (create_command q)))
          (new_aggregate id) a (create_inv frozen f id (create_command q) a h) in
      absurd (cc (one, e))

  store_created-IsError :
      (id : String) (q : CreateTaskRequest) (x : Result Error TaskAggregate) (r : TaskRepository)
      → create frozen f id (create_command q) ≡ x
      → IsError (store_created frozen f x r).0
  unfolding store_created
  store_created-IsError id q (err x) r h = (x, refl)
  store_created-IsError id q (ok a) r h =
      let s = create-IsSourced frozen f id (create_command q) a h in
      save_task-IsError _ a none r (create-nonempty id q a h) (rw s.same_id s.numbered) s.counted

  answer-IsAbort :
      (y : Result Error TaskAggregate) → IsError y → IsAbort (answer to_dict abort_create y)
  answer-IsAbort (err x) h = abort_create-IsAbort x
  answer-IsAbort (ok a) h = absurd (cc h.1)

  -- Whatever the request, the repository, the new id and the freezing of the event classes,
  -- `CreateTask` aborts.
  pub create_task-IsAbort :
      (id : String) (q : CreateTaskRequest) (r : TaskRepository)
      → IsAbort (create_task frozen f id q r).0
  unfolding create_task
  create_task-IsAbort id q r =
      answer-IsAbort _ (store_created-IsError id q (create frozen f id (create_command q)) r refl)
