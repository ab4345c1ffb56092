-- ===== src/Persistence/UnitOfWork.antt =====
-- `UnitOfWork` of libs/common/unit_of_work.py over the event store. The asyncio tasks that `commit`
-- creates to publish are kept as a list, each with its topic and event: `commit` waits for them for
-- ten seconds and cancels those that have not ended, but reads no result of theirs.
pub mod Commits
pub mod Publishing
use text.Mathlib.Text.{starts_with}
use taskforge_platform.Common.{
  ℕ, zero, suc, ◌+◌, ◌^◌, Bool, true, false, ◌||◌, not, String, Option, none, some, List, [], ◌∷◌,
  ◌++◌, map, length, ltb, if◌then◌else◌,
}
use taskforge_platform.Common.Integer.{minus}
use taskforge_platform.Common.Dict.{Dict, insert}
use taskforge_platform.Common.Result.{⊤, Result, ok, err}
use taskforge_platform.Common.Method.{Method, pure, ◌>>=◌, ◌>>◌}
use taskforge_platform.EventSourcing.{
  DomainEvent, AggregateRoot, get_uncommitted_events, mark_events_committed,
}
use taskforge_platform.Task.Errors.{Error, runtime_error}
use taskforge_platform.Persistence.Store.{Session, save_events}

pub record UnitOfWork (S B : Type 0) : Type 0 where
  pub session : Session B  -- that of `event_store`
  pub tracked_aggregates : Dict (AggregateRoot S B)
  pub events_to_publish : List (DomainEvent B)
  pub tasks : List (String × DomainEvent B)
  pub committed : Bool
  pub rolled_back : Bool

-- `_get_topic_for_event`, on the type of the event.
unfoldable pub topic_for : String → String
topic_for t =
    if starts_with t "task."
    then "task.events"
    else if starts_with t "workflow."
    then "workflow.events"
    else if starts_with t "notification."
    then "notifications"
    else "default.events"

module _ {S B : Type 0} where
  unfoldable pub new_unit : Session B → UnitOfWork S B
  new_unit s = record {
    session = s;
    tracked_aggregates = [];
    events_to_publish = [];
    tasks = [];
    committed = false;
    rolled_back = false;
  }

  unfoldable pub track_aggregate : AggregateRoot S B → UnitOfWork S B → UnitOfWork S B
  unfolding insert
  track_aggregate a u = record u {
    tracked_aggregates = insert a.aggregate_id a u.tracked_aggregates;
  }

  unfoldable pub rollback : UnitOfWork S B → UnitOfWork S B
  rollback u = record u { tracked_aggregates = []; events_to_publish = []; rolled_back = true }

  -- What follows the call of `save_events` in the loop of `commit`.
  unfoldable pub note_saved :
      List (DomainEvent B) → Result Error ⊤ × Session B → Method (UnitOfWork S B) Error ⊤
  note_saved events (ok _, s) u =
      (ok tt, record u { session = s; events_to_publish = u.events_to_publish ++ events })
  note_saved events (err x, s) u = (err x, record u { session = s })

  -- The body of that loop, on the events of one aggregate.
  unfoldable pub save_pending : String → ℕ → List (DomainEvent B) → Method (UnitOfWork S B) Error ⊤
  unfolding note_saved save_events minus
  save_pending id version [] u = (ok tt, u)
  save_pending id version (e ∷ es) u =
      let events = e ∷ es in
      note_saved events (save_events id events (minus version (length events)) u.session) u

  -- The loop of `commit`.
  unfoldable pub save_tracked : Dict (AggregateRoot S B) → Method (UnitOfWork S B) Error ⊤
  unfolding save_pending get_uncommitted_events
  save_tracked [] = pure tt
  save_tracked ((id, a) ∷ rest) =
      save_pending id a.version (get_uncommitted_events a) >> save_tracked rest

  module _ (event_type : DomainEvent B → String) where
    -- What follows the loop, and the `except` block.
    unfoldable pub conclude : Result Error ⊤ → Method (UnitOfWork S B) Error ⊤
    unfolding topic_for mark_events_committed rollback
    conclude (ok _) u = (
      ok tt,
      record u {
        tasks = map (λ e. (topic_for (event_type e), e)) u.events_to_publish;
        tracked_aggregates = map (λ p. (p.0, mark_events_committed p.1)) u.tracked_aggregates;
        committed = true;
      },
    )
    conclude (err x) u = (err x, rollback u)

    unfoldable pub commit : Method (UnitOfWork S B) Error ⊤
    unfolding conclude save_tracked
    commit u =
        if u.committed || u.rolled_back
        then (err (runtime_error "Unit of Work already completed"), u)
        else (let (r, v) = save_tracked u.tracked_aggregates u in conclude r v)

    -- `__aexit__`, with the exception of the body; returning None, it lets the exception pass.
    unfoldable pub exit : Option Error → Method (UnitOfWork S B) Error ⊤
    unfolding commit rollback
    exit (some x) u = (err x, rollback u)
    exit none u = if u.committed || u.rolled_back then (ok tt, u) else commit u

-- The tasks that `asyncio.wait` leaves pending after ten seconds, which `commit` cancels. When a task
-- ends is an argument: its milliseconds from the start of the wait, or never.
unfoldable pub cancelled_tasks :
    {B : Type 0}
    → (String × DomainEvent B → Option ℕ)
    → List (String × DomainEvent B)
    → List (String × DomainEvent B)
cancelled_tasks ends [] = []
cancelled_tasks ends (t ∷ ts) =
    let rest = cancelled_tasks ends ts in
    if elim (ends t) [ none ↦ true | some at ↦ ltb 10000 at ] then t ∷ rest else rest

-- `commit` with the tasks that it has cancelled when it returns.
unfoldable pub commit_awaited :
    {S B : Type 0}
    → (String × DomainEvent B → Option ℕ)
    → (DomainEvent B → String)
    → UnitOfWork S B
    → Result Error (List (String × DomainEvent B)) × UnitOfWork S B
unfolding commit cancelled_tasks
commit_awaited ends event_type u =
    let (r, v) = commit event_type u in
    (elim r [ ok _ ↦ ok (cancelled_tasks ends v.tasks) | err x ↦ err x ], v)

-- `_publish_with_retry`: the bus may raise, and the world goes on while the task sleeps.
module _ {B W X : Type 0} (publish : String → DomainEvent B → W → Option X × W)
    (sleep : ℕ → W → W) where
  unfoldable pub publish_from : String → DomainEvent B → ℕ → ℕ → W → Option X × W
  publish_from topic e attempt zero w = (none, w)
  publish_from topic e attempt (suc zero) w = publish topic e w
  publish_from topic e attempt (suc (suc left)) w =
      let (x, v) = publish topic e w in
      elim x [
        | none ↦ (none, v)
        | some _ ↦ publish_from topic e (attempt + 1) (suc left) (sleep (2 ^ attempt) v)
      ]

  unfoldable pub publish_with_retry : String → DomainEvent B → ℕ → W → Option X × W
  unfolding publish_from
  publish_with_retry topic e max_retries = publish_from topic e 0 max_retries
