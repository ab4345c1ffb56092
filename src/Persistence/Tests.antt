-- ===== src/Persistence/Tests.antt =====
-- One task with one event against an empty table, and the theorems about it.
use taskforge_platform.Common.{
  ℕ, ◌+◌, ◌*◌, ◌≡◌, refl, true, false, String, none, some, [], ◌∷◌, ◌++◌, map, length,
}
use taskforge_platform.Common.Integer.{pos}
use taskforge_platform.Common.Result.{ok, err}
use taskforge_platform.EventSourcing.{DomainEvent, AggregateRoot}
use taskforge_platform.Task.Errors.{raise_value, version_conflict}
use taskforge_platform.Persistence.Store.{Session, max_version, save_events}
use taskforge_platform.Persistence.Store.Writes.{
  rows_of, save_events_appends, save_events_version, save_events_again,
}
use taskforge_platform.Persistence.UnitOfWork.{
  UnitOfWork, topic_for, new_unit, track_aggregate, commit, publish_with_retry,
}
use taskforge_platform.Persistence.UnitOfWork.Commits.{pending_events, pending_rows, commit_stores}
use taskforge_platform.Persistence.Repository.{Repository, save_in_unit}
use taskforge_platform.Persistence.Repository.Saves.{Raises, save_in_unit-Raises}

abbrev created : DomainEvent String
created = record {
  event_id = "e1";
  aggregate_id = "t1";
  version = 1;
  occurred_at = record { micros = 5; tzinfo = none };
  metadata = [];
  user_id = "ann";
  body = "task.created";
}

abbrev task : AggregateRoot ℕ String
task = record { aggregate_id = "t1"; uncommitted = created ∷ []; version = 1; state = 7 }

abbrev empty : Session String
empty = record { rows = []; aborted = false }

abbrev full : Session String
full = record { rows = rows_of "t1" (created ∷ []); aborted = false }

abbrev repository : Repository ℕ String
repository = record { session = empty; cache = [] }

first_save : save_events "t1" (created ∷ []) (pos 0) empty ≡ (ok tt, full)
unfolding save_events
first_save = refl

topic_example : topic_for "task.created" ≡ "task.events"
unfolding topic_for
topic_example = refl

-- A bus that is down: three attempts, with pauses of one and two seconds.
bus_down :
    publish_with_retry
      (λ t e (n : ℕ). (some (raise_value (version_conflict t (pos 0) 0)), n + 1))
      (λ d n. n + d * 100)
      "task.events"
      created
      3
      0
    ≡ (some (raise_value (version_conflict "task.events" (pos 0) 0)), 303)
unfolding publish_with_retry
bus_down = refl

save_events_appends_example :
    (pos 0 ≡ pos (max_version "t1" empty.rows))
    × (full.rows ≡ empty.rows ++ rows_of "t1" (created ∷ []))
    × (full.aborted ≡ false)
save_events_appends_example =
    save_events_appends "t1" (created ∷ []) (pos 0) empty full (λ e. cc) first_save

save_events_version_example :
    max_version "t1" full.rows ≡ max_version "t1" empty.rows + length (created ∷ [])
unfolding max_version
save_events_version_example =
    save_events_version "t1" (created ∷ []) (pos 0) empty full (λ e. cc) (refl, refl, tt) first_save

save_events_again_example :
    save_events "t1" (created ∷ []) (pos 0) full
    ≡ (err (raise_value (version_conflict "t1" (pos 0) (max_version "t1" full.rows))), full)
save_events_again_example =
    save_events_again "t1" (created ∷ []) 0 (pos 0) empty full (λ e. cc) (refl, refl, tt) first_save

save_in_unit-Raises_example :
    Raises task 0 none repository (save_in_unit (λ e. e.body) task none repository)
save_in_unit-Raises_example =
    save_in_unit-Raises (λ e. e.body) task 0 none repository (λ e. cc) (refl, refl, tt) refl

-- The block of CreateTask with this task: its row is written, and the conflict is raised.
save_in_unit-conflict :
    (save_in_unit (λ e. e.body) task none repository).0
    ≡ err (raise_value (version_conflict "t1" (pos 0) 1))
unfolding save_in_unit
save_in_unit-conflict = refl

unit_before : UnitOfWork ℕ String
unfolding new_unit track_aggregate
unit_before = track_aggregate task (new_unit empty)

unit_after : UnitOfWork ℕ String
unfolding commit unit_before
unit_after = (commit (λ e. e.body) unit_before).1

commit-unit_before : commit (λ e. e.body) unit_before ≡ (ok tt, unit_after)
unfolding commit unit_before unit_after
commit-unit_before = refl

commit_stores_example :
    (unit_after.session.rows
      ≡ unit_before.session.rows ++ pending_rows unit_before.tracked_aggregates)
    × (unit_after.tasks
        ≡ map (λ e. (topic_for e.body, e)) (pending_events unit_before.tracked_aggregates))
    × (pending_events unit_after.tracked_aggregates ≡ [])
    × (unit_after.committed ≡ true)
unfolding unit_before
commit_stores_example = commit_stores (λ e. e.body) unit_before unit_after refl commit-unit_before
