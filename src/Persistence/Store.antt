-- ===== src/Persistence/Store.antt =====
-- `PostgresEventStore.save_events` of services/task_service/infrastructure/event_store.py and the
-- table it writes, as the one session sees it. A statement is refused inside a transaction that
-- has failed, and a row that a unique index refuses leaves the table as it is and the transaction
-- failed. The columns of a row are those of its event, beside the id it is stored under. What the
-- types of the columns refuse (an id that is no UUID, a version beyond INTEGER, a name beyond
-- VARCHAR(100)) and failures of the database are left out.
pub mod Writes
use taskforge_platform.Common.{
  ℕ, zero, suc, ◌+◌, Bool, true, false, ◌&&◌, ◌||◌, String, List, [], ◌∷◌, ◌++◌, leb, nat_beq, ◌==◌,
  str_eq, is_nil, if◌then◌else◌, not,
}
use taskforge_platform.Common.Integer.{ℤ, is_pos}
use taskforge_platform.Common.Result.{⊤, Result, ok, err}
use taskforge_platform.Common.Method.{Method, ◌>>=◌, ◌>>◌, pure, raise, when}
use taskforge_platform.EventSourcing.{DomainEvent}
use taskforge_platform.Task.Errors.{
  Error, raise_value, version_conflict, integrity_error, aborted_transaction,
}

pub record Row (B : Type 0) : Type 0 where
  pub stored_under : String  -- the column aggregate_id
  pub event : DomainEvent B

pub record Session (B : Type 0) : Type 0 where
  pub rows : List (Row B)
  pub aborted : Bool

module _ {B : Type 0} where
  -- `COALESCE(MAX(version), 0) … WHERE aggregate_id = :aggregate_id`
  unfoldable pub max_version : String → List (Row B) → ℕ
  max_version id [] = 0
  max_version id (r ∷ rs) =
      let rest = max_version id rs in
      if (r.stored_under == id) && leb rest r.event.version then r.event.version else rest

  -- The unique index of aggregate_id with version, and `event_id UUID NOT NULL UNIQUE`, of which
  -- only UNIQUE is modelled.
  unfoldable pub is_taken : String → DomainEvent B → List (Row B) → Bool
  is_taken id e [] = false
  is_taken id e (r ∷ rs) =
      (r.event.event_id == e.event_id)
      || (r.stored_under == id) && nat_beq r.event.version e.version
      || is_taken id e rs

  -- `_get_current_version`
  unfoldable pub get_current_version : String → Method (Session B) Error ℕ
  unfolding max_version
  get_current_version id s =
      if s.aborted then (err aborted_transaction, s) else (ok (max_version id s.rows), s)

  -- `_insert_event`
  unfoldable pub insert_event : String → DomainEvent B → Method (Session B) Error ⊤
  unfolding is_taken
  insert_event id e s =
      if s.aborted
      then (err aborted_transaction, s)
      else if is_taken id e s.rows
      then (err integrity_error, record s { aborted = true })
      else (ok tt, record s { rows = s.rows ++ (record { stored_under = id; event = e }) ∷ [] })

  unfoldable pub insert_events : String → List (DomainEvent B) → Method (Session B) Error ⊤
  unfolding insert_event
  insert_events id [] = pure tt
  insert_events id (e ∷ es) = insert_event id e >> insert_events id es

  -- `save_events` on events, after the test for none.
  unfoldable pub save_some : String → List (DomainEvent B) → ℤ → Method (Session B) Error ⊤
  unfolding get_current_version insert_events is_pos
  save_some id es expected = do
    current ← get_current_version id
    when (not (is_pos current expected))
        (raise (raise_value (version_conflict id expected current)))
    insert_events id es

  -- `save_events`
  unfoldable pub save_events : String → List (DomainEvent B) → ℤ → Method (Session B) Error ⊤
  unfolding save_some
  save_events id [] expected = pure tt
  save_events id (e ∷ es) expected = save_some id (e ∷ es) expected
