-- ===== src/Persistence/Repository.antt =====
-- `TaskRepository.save` and `invalidate_cache` of
-- services/task_service/infrastructure/repository.py, and the block in which the handlers of
-- services/task_service/infrastructure/grpc_server.py save a task: the repository and the unit of
-- work share one event store.
pub mod Saves
use taskforge_platform.Common.{
  ℕ, Bool, true, false, String, Option, none, some, List, [], ◌∷◌, length, is_empty, if◌then◌else◌,
}
use taskforge_platform.Common.Integer.{ℤ, minus}
use taskforge_platform.Common.Dict.{Dict, insert, erase}
use taskforge_platform.Common.Result.{⊤, Result, ok, err}
use taskforge_platform.Common.Method.{Method}
use taskforge_platform.EventSourcing.{DomainEvent, AggregateRoot, get_uncommitted_events}
use taskforge_platform.Task.Errors.{
  Error, value_error, domain, task_version_conflict, version_conflict,
}
use taskforge_platform.Persistence.Store.{Session, save_events}
use taskforge_platform.Persistence.UnitOfWork.{UnitOfWork, new_unit, track_aggregate, exit}

pub record Repository (S B : Type 0) : Type 0 where
  pub session : Session B  -- that of `event_store`
  pub cache : Dict (AggregateRoot S B)

-- The `except ValueError` block, with `actual` the expected version too.
unfoldable pub translate : String → ℤ → Error → Error
translate id expected (value_error (version_conflict _ _ _ ∷ _)) =
    domain (task_version_conflict id expected expected)
translate id expected x = x

-- The exception of a body that ended so.
abbrev pub raised : Result Error ⊤ → Option Error
raised (ok _) = none
raised (err x) = some x

module _ {S B : Type 0} where
  unfoldable pub expected_or : AggregateRoot S B → List (DomainEvent B) → Option ℤ → ℤ
  unfolding minus
  expected_or a events none = minus a.version (length events)
  expected_or a events (some v) = v

  -- What follows the call of `save_events`.
  unfoldable pub stored : AggregateRoot S B → ℤ → Result Error ⊤ → Method (Repository S B) Error ⊤
  unfolding translate insert
  stored a expected (ok _) r = (ok tt, record r { cache = insert a.aggregate_id a r.cache })
  stored a expected (err x) r = (err (translate a.aggregate_id expected x), r)

  unfoldable pub save_uncommitted :
      AggregateRoot S B → List (DomainEvent B) → Option ℤ → Method (Repository S B) Error ⊤
  unfolding expected_or stored save_events
  save_uncommitted a [] expected r = (ok tt, r)
  save_uncommitted a (e ∷ es) expected r =
      let version = expected_or a (e ∷ es) expected in
      let (x, s) = save_events a.aggregate_id (e ∷ es) version r.session in
      stored a version x (record r { session = s })

  -- `save`
  unfoldable pub save : AggregateRoot S B → Option ℤ → Method (Repository S B) Error ⊤
  unfolding save_uncommitted get_uncommitted_events
  save a expected = save_uncommitted a (get_uncommitted_events a) expected

  -- `invalidate_cache`; an empty id counts as none.
  unfoldable pub invalidate_cache : Option String → Repository S B → Repository S B
  unfolding erase
  invalidate_cache none r = record r { cache = [] }
  invalidate_cache (some id) r =
      if is_empty id then record r { cache = [] } else record r { cache = erase id r.cache }

  -- `async with UnitOfWork(…) as uow: uow.track_aggregate(task); await repository.save(task, …)`
  unfoldable pub save_in_unit :
      (DomainEvent B → String)
      → AggregateRoot S B
      → Option ℤ
      → Repository S B
      → Result Error ⊤ × Repository S B × UnitOfWork S B
  unfolding save exit new_unit track_aggregate
  save_in_unit event_type a expected r =
      let (x, r') = save a expected r in
      let (y, u) =
        exit event_type (raised x)
          (record (track_aggregate a (new_unit r.session)) { session = r'.session }) in
      (y, record r' { session = u.session }, u)
