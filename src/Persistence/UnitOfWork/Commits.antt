-- ===== src/Persistence/UnitOfWork/Commits.antt =====
-- What a unit of work that commits has done.
use taskforge_platform.Common.{
  ℕ, ◌≡◌, refl, sym, ap, ◌∙◌, true, String, List, [], ◌∷◌, ◌++◌, map, append-nil, append_assoc,
  length, ◌||◌, inl, inr, Bool-cases,
}
use taskforge_platform.Common.Integer.{minus}
use taskforge_platform.Common.Dict.{Dict}
use taskforge_platform.Common.Result.{⊤, Result, ok, err}
use taskforge_platform.Common.Method.{>>=-eq-ok}
use taskforge_platform.EventSourcing.{
  DomainEvent, AggregateRoot, get_uncommitted_events, mark_events_committed,
}
use taskforge_platform.Task.Errors.{Error}
use taskforge_platform.Persistence.Store.{Row, Session, save_events}
use taskforge_platform.Persistence.Store.Writes.{rows_of, save_events_appends}
use taskforge_platform.Persistence.UnitOfWork.{
  UnitOfWork, topic_for, note_saved, save_pending, save_tracked, conclude, commit,
}

module _ {S B : Type 0} where
  -- The events of the aggregates that are not committed, and their rows.
  abbrev pub pending_events : Dict (AggregateRoot S B) → List (DomainEvent B)
  pending_events [] = []
  pending_events ((id, a) ∷ d) = a.uncommitted ++ pending_events d

  abbrev pub pending_rows : Dict (AggregateRoot S B) → List (Row B)
  pending_rows [] = []
  pending_rows ((id, a) ∷ d) = rows_of id a.uncommitted ++ pending_rows d

  -- The unit has saved these rows of these events, and tracks what it did.
  abbrev Saved : List (Row B) → List (DomainEvent B) → UnitOfWork S B → UnitOfWork S B → Type 0
  Saved rows events u v =
      (v.session.rows ≡ u.session.rows ++ rows)
      × (v.events_to_publish ≡ u.events_to_publish ++ events)
      × (v.tracked_aggregates ≡ u.tracked_aggregates)

  save_pending-Saved :
      (id : String) (version : ℕ) (es : List (DomainEvent B)) (u v : UnitOfWork S B)
      → save_pending id version es u ≡ (ok tt, v)
      → Saved (rows_of id es) es u v
  unfolding save_pending note_saved
  save_pending-Saved id version [] u v h =
      let same = ap (λ p. p.1) h in
      (
        ap (λ w. w.session.rows) (sym same) ∙ sym (append-nil _),
        ap (λ w. w.events_to_publish) (sym same) ∙ sym (append-nil _),
        ap (λ w. w.tracked_aggregates) (sym same),
      )
  save_pending-Saved id version (e ∷ es) u v h =
      go (save_events id (e ∷ es) (minus version (length (e ∷ es))) u.session).0
        (save_events id (e ∷ es) (minus version (length (e ∷ es))) u.session).1 refl h
    where
      go :
          (r : Result Error ⊤) (s : Session B)
          → save_events id (e ∷ es) (minus version (length (e ∷ es))) u.session ≡ (r, s)
          → note_saved (e ∷ es) (r, s) u ≡ (ok tt, v)
          → Saved (rows_of id (e ∷ es)) (e ∷ es) u v
      go (err x) s k h = cc
      go (ok _) s k h =
          let same = ap (λ p. p.1) h in
          let (_, rows, _) = save_events_appends id (e ∷ es) _ u.session s (λ x. cc) k in
          (
            ap (λ w. w.session.rows) (sym same) ∙ rows,
            ap (λ w. w.events_to_publish) (sym same),
            ap (λ w. w.tracked_aggregates) (sym same),
          )

  save_tracked-Saved :
      (d : Dict (AggregateRoot S B)) (u v : UnitOfWork S B)
      → save_tracked d u ≡ (ok tt, v)
      → Saved (pending_rows d) (pending_events d) u v
  unfolding save_tracked get_uncommitted_events
  save_tracked-Saved [] u v h =
      let same = ap (λ p. p.1) h in
      (
        ap (λ w. w.session.rows) (sym same) ∙ sym (append-nil _),
        ap (λ w. w.events_to_publish) (sym same) ∙ sym (append-nil _),
        ap (λ w. w.tracked_aggregates) (sym same),
      )
  save_tracked-Saved ((id, a) ∷ d) u v h =
      let (_, w, one, rest) =
        >>=-eq-ok (save_pending id a.version a.uncommitted) (λ _. save_tracked d) u h in
      let (rows, events, kept) = save_pending-Saved id a.version a.uncommitted u w one in
      let (rows', events', kept') = save_tracked-Saved d w v rest in
      (
        rows' ∙ (ap (λ l. l ++ pending_rows d) rows ∙ append_assoc u.session.rows _ _),
        events' ∙ (ap (λ l. l ++ pending_events d) events ∙ append_assoc u.events_to_publish _ _),
        kept' ∙ kept,
      )

module _ {S B : Type 0} (event_type : DomainEvent B → String) where
  conclude_inv :
      (r : Result Error ⊤) (w v : UnitOfWork S B)
      → conclude event_type r w ≡ (ok tt, v)
      → (r ≡ ok tt) × ((conclude event_type (ok tt) w).1 ≡ v)
  unfolding conclude
  conclude_inv (ok _) w v h = (refl, ap (λ p. p.1) h)
  conclude_inv (err x) w v h = cc

  commit_inv :
      (u v : UnitOfWork S B)
      → commit event_type u ≡ (ok tt, v)
      → conclude event_type
          (save_tracked u.tracked_aggregates u).0
          (save_tracked u.tracked_aggregates u).1
        ≡ (ok tt, v)
  unfolding commit
  commit_inv u v h = elim (Bool-cases (u.committed || u.rolled_back)) [
    | inl done ↦ absurd (let e = rw done at h in cc)
    | inr active ↦ rw active at h
  ]

  pending-marked :
      (d : Dict (AggregateRoot S B))
      → pending_events (map (λ p. (p.0, mark_events_committed p.1)) d) ≡ []
  unfolding mark_events_committed
  pending-marked [] = refl
  pending-marked ((id, a) ∷ d) = pending-marked d

  -- If a unit with no event to publish yet commits and `commit` returns, it has put a row for each
  -- event that was not committed behind the rows of the table, aggregate by aggregate in the order
  -- in which they were tracked, and created one task for each, in the same order, with the topic of
  -- its type; no aggregate that it tracks has an event left to commit, and the unit counts as
  -- committed.
  pub commit_stores :
      (u v : UnitOfWork S B)
      → u.events_to_publish ≡ []
      → commit event_type u ≡ (ok tt, v)
      → (v.session.rows ≡ u.session.rows ++ pending_rows u.tracked_aggregates)
        × (v.tasks ≡ map (λ e. (topic_for (event_type e), e)) (pending_events u.tracked_aggregates))
        × (pending_events v.tracked_aggregates ≡ [])
        × (v.committed ≡ true)
  unfolding conclude
  commit_stores u v fresh h =
      let (saved, ended) = conclude_inv _ _ v (commit_inv u v h) in
      let w = (save_tracked u.tracked_aggregates u).1 in
      let (rows, events, kept) =
        save_tracked-Saved u.tracked_aggregates u w
          (ap (λ r. (r, (save_tracked u.tracked_aggregates u).1)) saved) in
      (
        ap (λ x. x.session.rows) (sym ended) ∙ rows,
        ap (λ x. x.tasks) (sym ended)
            ∙ ap (map (λ e. (topic_for (event_type e), e)))
                (events ∙ ap (λ l. l ++ pending_events u.tracked_aggregates) fresh),
        ap (λ x. pending_events x.tracked_aggregates) (sym ended)
            ∙ pending-marked w.tracked_aggregates,
        ap (λ x. x.committed) (sym ended),
      )
