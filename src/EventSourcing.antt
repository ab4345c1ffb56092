-- ===== src/EventSourcing.antt =====
-- `DomainEvent` of libs/common/event_bus.py and `AggregateRoot` of libs/common/unit_of_work.py,
-- for any type of event data and any state, with the loop that rebuilds an aggregate
-- (services/task_service/domain/aggregates.py).
-- The fields that the concrete event classes add are the `body`; an aggregate's own fields are its
-- `state`. `frozen` is the argument of the decorator of the event classes: on an instance of a
-- frozen dataclass an assignment to a field raises, and `raise_event` begins with two of them.
pub mod Replay
use taskforge_platform.Common.{
  ℕ, ◌+◌, Bool, true, false, String, List, [], ◌∷◌, ◌++◌, leb, if◌then◌else◌, Datetime,
}
use taskforge_platform.Common.Dict.{Dict}
use taskforge_platform.Common.Result.{⊤, Result, ok, err}
use taskforge_platform.Common.Method.{Method}

pub record DomainEvent (B : Type 0) : Type 0 where
  pub event_id : String
  pub aggregate_id : String
  pub version : ℕ
  pub occurred_at : Datetime
  pub metadata : Dict String
  pub user_id : String
  pub body : B

pub record AggregateRoot (S B : Type 0) : Type 0 where
  pub aggregate_id : String
  pub uncommitted : List (DomainEvent B)
  pub version : ℕ
  pub state : S

-- `@dataclass(frozen=True)`, on `DomainEvent` and on every event class.
unfoldable pub events_frozen : Bool
events_frozen = true

module _ {S B : Type 0} where
  unfoldable pub get_uncommitted_events : AggregateRoot S B → List (DomainEvent B)
  get_uncommitted_events a = a.uncommitted

  unfoldable pub mark_events_committed : AggregateRoot S B → AggregateRoot S B
  mark_events_committed a = record a { uncommitted = [] }

-- The event with the two fields that `raise_event` assigns.
abbrev pub stamped : {S B : Type 0} → AggregateRoot S B → DomainEvent B → DomainEvent B
stamped a e = record e { aggregate_id = a.aggregate_id; version = a.version + 1 }

module _ {S B E : Type 0} (apply_event : DomainEvent B → Method S E ⊤) where
  -- The end of `raise_event`: the version moves on only if `apply_event` returned.
  abbrev pub applied : AggregateRoot S B → Result E ⊤ × S → Result E ⊤ × AggregateRoot S B
  applied a (ok _, s) = (ok tt, record a { state = s; version = a.version + 1 })
  applied a (err x, s) = (err x, record a { state = s })

  unfoldable pub raise_event : Bool → E → DomainEvent B → Method (AggregateRoot S B) E ⊤
  raise_event frozen frozen_error e a =
      if frozen
      then (err frozen_error, a)
      else applied (record a { uncommitted = a.uncommitted ++ stamped a e ∷ [] })
          (apply_event (stamped a e) a.state)

  -- The body of the loop of `from_events`, and the loop.
  unfoldable pub replay : List (DomainEvent B) → Method (AggregateRoot S B) E ⊤
  replay [] a = (ok tt, a)
  replay (e ∷ es) a =
      let (r, s) = apply_event e a.state in
      elim r [
        | ok _ ↦ replay es (record a { state = s; version = e.version })
        | err x ↦ (err x, record a { state = s })
      ]

module _ {B : Type 0} where
  unfoldable pub insert_by_version : DomainEvent B → List (DomainEvent B) → List (DomainEvent B)
  insert_by_version e [] = e ∷ []
  insert_by_version e (f ∷ fs) =
      if leb e.version f.version then e ∷ f ∷ fs else f ∷ insert_by_version e fs

  -- `sorted(events, key=lambda e: e.version)`, which is stable.
  unfoldable pub sort_by_version : List (DomainEvent B) → List (DomainEvent B)
  unfolding insert_by_version
  sort_by_version [] = []
  sort_by_version (e ∷ es) = insert_by_version e (sort_by_version es)
