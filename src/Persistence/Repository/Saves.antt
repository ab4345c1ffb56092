-- ===== src/Persistence/Repository/Saves.antt =====
-- How the block ends that saves a task through the repository inside a unit of work.
use taskforge_platform.Common.{
  ℕ, ◌+◌, ◌≡◌, ◌≢◌, refl, sym, ap, ◌∙◌, arith, ◌⊎◌, inl, inr, true, false, String, Option, none,
  List, [], ◌∷◌, ◌++◌, length,
}
use taskforge_platform.Common.Integer.{ℤ, pos, minus, minus_total}
use taskforge_platform.Common.Dict.{insert}
use taskforge_platform.Common.Result.{⊤, Result, ok, err}
use taskforge_platform.Common.Method.{continue, pure}
use taskforge_platform.EventSourcing.{DomainEvent, AggregateRoot, get_uncommitted_events}
use taskforge_platform.EventSourcing.Replay.{Numbered}
use taskforge_platform.Task.Errors.{Error, raise_value, version_conflict}
use taskforge_platform.Persistence.Store.{Session, max_version, save_events}
use taskforge_platform.Persistence.Store.Writes.{rows_of, save_events_appends, save_events_again}
use taskforge_platform.Persistence.UnitOfWork.{
  UnitOfWork, new_unit, track_aggregate, note_saved, save_pending, save_tracked, conclude, commit,
  exit, rollback,
}
use taskforge_platform.Persistence.Repository.{
  Repository, expected_or, stored, save_uncommitted, save, raised, save_in_unit,
}

module _ {S B : Type 0} where
  pub save_inv :
      (a : AggregateRoot S B) (expected : Option ℤ) (r r' : Repository S B)
      → a.uncommitted ≢ []
      → save a expected r ≡ (ok tt, r')
      → (z : ℤ) × (save_events a.aggregate_id a.uncommitted z r.session ≡ (ok tt, r'.session))
  unfolding save save_uncommitted get_uncommitted_events stored
  save_inv a expected r r' ne h = go a.uncommitted ne h
    where
      go :
          (es : List (DomainEvent B))
          → es ≢ []
          → save_uncommitted a es expected r ≡ (ok tt, r')
          → (z : ℤ) × (save_events a.aggregate_id es z r.session ≡ (ok tt, r'.session))
      go [] ne h = absurd (ne refl)
      go (e ∷ es) ne h = (expected_or a (e ∷ es) expected, ground (arith))

  save_pending_conflict :
      (id : String) (v n : ℕ) (es : List (DomainEvent B)) (u : UnitOfWork S B) (x : Error)
      → es ≢ []
      → v ≡ n + length es
      → save_events id es (pos n) u.session ≡ (err x, u.session)
      → save_pending id v es u ≡ (err x, u)
  unfolding save_pending note_saved
  save_pending_conflict id v n [] u x ne e h = absurd (ne refl)
  save_pending_conflict id v n (f ∷ es) u x ne e h =
      ap (λ p. note_saved (f ∷ es) p u)
        (ap (λ z. save_events id (f ∷ es) z u.session)
            (ap (λ w. minus w (length (f ∷ es))) e ∙ minus_total n (length (f ∷ es)))
          ∙ h)

  -- The ways in which the block can end.
  abbrev pub Raises :
      AggregateRoot S B
      → ℕ
      → Option ℤ
      → Repository S B
      → Result Error ⊤ × Repository S B × UnitOfWork S B
      → Type 0
  Raises a n expected r (y, r', u) =
      (x : Error) × (y ≡ err x)
      × (u.rolled_back ≡ true)
      × (((save a expected r).0 ≡ err x)
          ⊎ (x
              ≡ raise_value (
                  version_conflict a.aggregate_id (pos n)
                    (max_version a.aggregate_id r'.session.rows)))
            × (r'.session.rows ≡ r.session.rows ++ rows_of a.aggregate_id a.uncommitted))

module _ {S B : Type 0} (event_type : DomainEvent B → String) where
  -- The unit of work of the block, when `save` has left the session `s`.
  abbrev at_exit : AggregateRoot S B → Session B → UnitOfWork S B
  at_exit a s = record {
    session = s;
    tracked_aggregates = (a.aggregate_id, a) ∷ [];
    events_to_publish = [];
    tasks = [];
    committed = false;
    rolled_back = false;
  }

  exit_conflict :
      (a : AggregateRoot S B) (n : ℕ) (s : Session B) (x : Error)
      → a.uncommitted ≢ []
      → a.version ≡ n + length a.uncommitted
      → save_events a.aggregate_id a.uncommitted (pos n) s ≡ (err x, s)
      → exit event_type none (at_exit a s) ≡ (err x, rollback (at_exit a s))
  unfolding exit commit save_tracked get_uncommitted_events conclude
  exit_conflict a n s x ne v h =
      ap (λ p. let q = continue p.0 (λ _. pure tt) p.1 in conclude event_type q.0 q.1)
        (save_pending_conflict a.aggregate_id a.version n a.uncommitted (at_exit a s) x ne v h)

  -- If the events that a task has not committed are numbered without a gap up to its version, and
  -- there is one, a block that saves the task always raises, whatever version the request expects,
  -- and rolls its unit of work back. Either `save` raised, and the block raises the same; or `save`
  -- returned and its rows are in the table, and the commit raises a version conflict over them.
  pub save_in_unit-Raises :
      (a : AggregateRoot S B) (n : ℕ) (expected : Option ℤ) (r : Repository S B)
      → a.uncommitted ≢ []
      → Numbered a.aggregate_id n a.uncommitted
      → a.version ≡ n + length a.uncommitted
      → Raises a n expected r (save_in_unit event_type a expected r)
  unfolding save_in_unit new_unit track_aggregate insert rollback exit
  save_in_unit-Raises a n expected r ne num v = go (save a expected r).0 (save a expected r).1 refl
    where
      go :
          (x : Result Error ⊤) (r' : Repository S B)
          → save a expected r ≡ (x, r')
          → Raises a n expected r (
              let (y, u) =
                exit event_type
                  (raised x)
                  (record (track_aggregate a (new_unit r.session)) { session = r'.session }) in
              (y, record r' { session = u.session }, u))
      go (err x) r' e = (x, refl, refl, inl (ap (λ p. p.0) e))
      go (ok _) r' e =
          let (z, saved) = save_inv a expected r r' ne e in
          let ended = exit_conflict a n r'.session _ ne v (
            save_events_again a.aggregate_id a.uncommitted n z r.session r'.session ne num saved) in
          let (_, rows, _) =
            save_events_appends a.aggregate_id a.uncommitted z r.session r'.session ne saved in
          (
            _,
            ap (λ p. p.0) ended,
            ap (λ p. p.1.rolled_back) ended,
            inr (
              ap
                  (λ p. raise_value (
                    version_conflict a.aggregate_id (pos n)
                      (max_version a.aggregate_id p.1.session.rows)))
                  (sym ended),
              ap (λ p. p.1.session.rows) ended ∙ rows,
            ),
          )
