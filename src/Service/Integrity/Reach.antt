-- ===== src/Service/Integrity/Reach.antt =====
-- The repository of the servicer over any sequence of requests.
use taskforge_platform.Common.{
  ℕ, ◌≡◌, subst, Bool, String, some, List, [], ◌∷◌, Bool-cases, inl, inr, Runtime, Datetime,
}
use taskforge_platform.Common.Integer.{ℤ}
use taskforge_platform.Common.Dict.{lookup}
use taskforge_platform.Common.Result.{ok}
use taskforge_platform.Task.Aggregate.{TaskAggregate}
use taskforge_platform.Task.Aggregate.Methods.{Fresh}
use taskforge_platform.Task.Aggregate.Methods.Commands.{
  Command, to_update, to_assign, to_delete, execute,
}
use taskforge_platform.Persistence.Reads.{get_events}
use taskforge_platform.Persistence.Tasks.{TaskRepository}
use taskforge_platform.Persistence.Integrity.{IsGapless}
use taskforge_platform.Service.{
  CreateTaskRequest, UpdateTaskRequest, AssignTaskRequest, DeleteTaskRequest, update_command,
  assign_command, delete_command, create_task, update_task, assign_task, delete_task, get_task,
  get_task_history, on_task,
}
use taskforge_platform.Service.Integrity.{IsSound}
use taskforge_platform.Service.Integrity.Requests.{
  get_by_id-Loaded, on_task-Served, create_task-IsSound,
}

-- A request to one of the six handlers; a task that is created gets the id given here.
pub data Request : Type 0 where
  to_create : String → CreateTaskRequest → Request
  to_update_task : UpdateTaskRequest → Request
  to_assign_task : AssignTaskRequest → Request
  to_delete_task : DeleteTaskRequest → Request
  to_get to_get_history : String → Request

-- A request with the ids and times that are drawn while it is served.
pub record Arrival : Type 0 where
  pub request : Request
  pub fresh : Fresh
  pub clock : ℕ → Datetime

module _ ⦃rt : Runtime⦄ (frozen : Bool) where
  unfoldable pub serve : Request → Fresh → (ℕ → Datetime) → TaskRepository → TaskRepository
  unfolding create_task update_task assign_task delete_task get_task get_task_history
  serve (to_create id q) f clock r = (create_task frozen f id q r).1
  serve (to_update_task q) f clock r = (update_task clock frozen f q r).1
  serve (to_assign_task q) f clock r = (assign_task clock frozen f q r).1
  serve (to_delete_task q) f clock r = (delete_task clock frozen f q r).1
  serve (to_get id) f clock r = (get_task clock id r).1
  serve (to_get_history id) f clock r = (get_task_history clock id r).1

  unfoldable pub serve_all : List Arrival → TaskRepository → TaskRepository
  unfolding serve
  serve_all [] r = r
  serve_all (c ∷ cs) r = serve_all cs (serve c.request c.fresh c.clock r)

  module _ (iso : (d : Datetime) → rt.fromisoformat (rt.isoformat d) ≡ some d) where
    get_task_history-IsSound :
        (clock : ℕ → Datetime) (id : String) (r : TaskRepository)
        → IsSound r
        → IsSound (get_task_history clock id r).1
    unfolding get_task_history get_events
    get_task_history-IsSound clock id r h = elim (Bool-cases r.session.aborted) [
      | inl gone ↦ simp gone h
      | inr sound ↦ simp sound h
    ]

    serve-IsSound :
        (q : Request) (f : Fresh) (clock : ℕ → Datetime) (r : TaskRepository)
        → IsSound r
        → IsSound (serve q f clock r)
    unfolding serve update_task assign_task delete_task get_task execute
    serve-IsSound (to_create id q) f clock r h = create_task-IsSound frozen f id q r h
    serve-IsSound (to_update_task q) f clock r h =
        (on_task-Served iso clock q.task_id frozen f (to_update (update_command q))
          q.expected_version r h).sound
    serve-IsSound (to_assign_task q) f clock r h =
        (on_task-Served iso clock q.task_id frozen f (to_assign (assign_command q))
          q.expected_version r h).sound
    serve-IsSound (to_delete_task q) f clock r h =
        (on_task-Served iso clock q.task_id frozen f (to_delete (delete_command q))
          q.expected_version r h).sound
    serve-IsSound (to_get id) f clock r h = (get_by_id-Loaded iso clock id r h).sound
    serve-IsSound (to_get_history id) f clock r h = get_task_history-IsSound clock id r h

    serve_all-IsSound :
        (cs : List Arrival) (r : TaskRepository) → IsSound r → IsSound (serve_all cs r)
    unfolding serve_all
    serve_all-IsSound [] r h = h
    serve_all-IsSound (c ∷ cs) r h =
        serve_all-IsSound cs _ (serve-IsSound c.request c.fresh c.clock r h)

    begun-IsSound : (r : TaskRepository) → r.cache ≡ [] → IsGapless r.session.rows → IsSound r
    unfolding lookup
    begun-IsSound r empty g = record {
      gapless = g;
      cached = λ id a e. absurd (cc (subst (λ c. lookup id c ≡ some a) empty e));
    }

    -- If `fromisoformat` reads what `isoformat` writes: whatever requests a servicer serves, and
    -- whether or not they are refused, from a table in which the events of every aggregate are its
    -- own and numbered from 1 without a gap, and an empty cache, it leaves such a table.
    pub serve_all-IsGapless :
        (cs : List Arrival) (r : TaskRepository)
        → r.cache ≡ []
        → IsGapless r.session.rows
        → IsGapless (serve_all cs r).session.rows
    serve_all-IsGapless cs r empty g = (serve_all-IsSound cs r (begun-IsSound r empty g)).gapless

    -- If `fromisoformat` reads what `isoformat` writes: after whatever requests, from such a table
    -- and an empty cache, a handler that changes a task by a command and answers the task has not
    -- written to the table.
    pub on_task-idle :
        (cs : List Arrival) (r : TaskRepository) (clock : ℕ → Datetime) (id : String) (f : Fresh)
        (c : Command) (z : ℤ) (b : TaskAggregate)
        → r.cache ≡ []
        → IsGapless r.session.rows
        → (on_task clock id (execute frozen f c) z (serve_all cs r)).0 ≡ ok b
        → (on_task clock id (execute frozen f c) z (serve_all cs r)).1.session
          ≡ (serve_all cs r).session
    on_task-idle cs r clock id f c z b empty g answers =
        (on_task-Served iso clock id frozen f c z (serve_all cs r)
            (serve_all-IsSound cs r (begun-IsSound r empty g))).idle
          b answers
