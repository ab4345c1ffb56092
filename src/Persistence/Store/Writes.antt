-- ===== src/Persistence/Store/Writes.antt =====
-- What `save_events` leaves in the table.
use taskforge_platform.Common.{
  ℕ, ◌+◌, ◌≤◌, ◌<◌, ◌≡◌, ◌≢◌, refl, ap, ◌∙◌, arith, true, false, String, List, [], ◌∷◌, ◌++◌, map,
  append-nil, append_assoc, length, eq_iff,
}
use taskforge_platform.Common.Integer.{ℤ, pos, negsuc, is_pos}
use taskforge_platform.Common.Result.{ok, err}
use taskforge_platform.Common.Method.{>>=-eq-ok}
use taskforge_platform.EventSourcing.{DomainEvent}
use taskforge_platform.EventSourcing.Replay.{Numbered}
use taskforge_platform.Task.Errors.{raise_value, version_conflict}
use taskforge_platform.Persistence.Store.{
  Row, Session, max_version, get_current_version, insert_event, insert_events, save_some,
  save_events,
}

is_pos_inv : (n : ℕ) (z : ℤ) → is_pos n z ≡ true → z ≡ pos n
unfolding is_pos
is_pos_inv n (pos m) h = ap pos (ground arith)
is_pos_inv n (negsuc m) h = cc

is_pos_other : (n m : ℕ) → n ≢ m → is_pos n (pos m) ≡ false
unfolding is_pos
is_pos_other n m h = ground arith

module _ {B : Type 0} (id : String) where
  abbrev pub rows_of : List (DomainEvent B) → List (Row B)
  rows_of es = map (λ e. record { stored_under = id; event = e }) es

  insert_event_inv :
      (e : DomainEvent B) (s s' : Session B)
      → insert_event id e s ≡ (ok tt, s')
      → (s'.rows ≡ s.rows ++ rows_of (e ∷ [])) × (s'.aborted ≡ false) × (s.aborted ≡ false)
  unfolding insert_event
  insert_event_inv e s s' h = ground arith

  insert_events_inv :
      (es : List (DomainEvent B)) (s s' : Session B)
      → s.aborted ≡ false
      → insert_events id es s ≡ (ok tt, s')
      → (s'.rows ≡ s.rows ++ rows_of es) × (s'.aborted ≡ false)
  unfolding insert_events
  insert_events_inv [] s s' a h = (ground (arith, append-nil s.rows), ground arith)
  insert_events_inv (e ∷ es) s s' a h =
      let (_, t, now, later) = >>=-eq-ok (insert_event id e) (λ _. insert_events id es) s h in
      let (gained, sound, _) = insert_event_inv e s t now in
      let (rest, sound') = insert_events_inv es t s' sound later in
      (rest ∙ (ap (λ l. l ++ rows_of es) gained ∙ append_assoc s.rows _ _), sound')

  pub max_version_join :
      (rs ss : List (Row B)) (m : ℕ)
      → max_version id rs ≤ m
      → max_version id ss ≡ m
      → max_version id (rs ++ ss) ≡ m
  unfolding max_version
  max_version_join [] ss m a h = h
  max_version_join (r ∷ rs) ss m a h = ground (arith, max_version_join rs ss m)

  pub max_version-rows_of :
      (n : ℕ) (es : List (DomainEvent B))
      → Numbered id n es
      → es ≢ []
      → max_version id (rows_of es) ≡ n + length es
  unfolding max_version
  max_version-rows_of n [] h ne = absurd (ne refl)
  max_version-rows_of n (e ∷ []) h ne = ground (arith, eq_iff id id, h.0)
  max_version-rows_of n (e ∷ f ∷ es) h ne =
      ground (arith, eq_iff id id, h.0, max_version-rows_of (n + 1) (f ∷ es) h.2 (λ x. cc))

  save_some_inv :
      (es : List (DomainEvent B)) (expected : ℤ) (s s' : Session B)
      → save_some id es expected s ≡ (ok tt, s')
      → (s.aborted ≡ false)
        × (is_pos (max_version id s.rows) expected ≡ true)
        × (insert_events id es s ≡ (ok tt, s'))
  unfolding save_some get_current_version
  save_some_inv es expected s s' h = ground arith

  -- If there are events to save, a `save_events` that returns has found the expected version, and
  -- has put the events behind the rows of the table, in order and each once, under the id, and
  -- changed no other row.
  pub save_events_appends :
      (es : List (DomainEvent B)) (expected : ℤ) (s s' : Session B)
      → es ≢ []
      → save_events id es expected s ≡ (ok tt, s')
      → (expected ≡ pos (max_version id s.rows))
        × (s'.rows ≡ s.rows ++ rows_of es)
        × (s'.aborted ≡ false)
  unfolding save_events
  save_events_appends [] expected s s' ne h = absurd (ne refl)
  save_events_appends (e ∷ es) expected s s' ne h =
      let (sound, at, done) = save_some_inv (e ∷ es) expected s s' h in
      let (rows, sound') = insert_events_inv (e ∷ es) s s' sound done in
      (is_pos_inv _ expected at, rows, sound')

  -- If there are events, numbered on from the version of the aggregate, a `save_events` that returns
  -- moves that version on by their number.
  pub save_events_version :
      (es : List (DomainEvent B)) (expected : ℤ) (s s' : Session B)
      → es ≢ []
      → Numbered id (max_version id s.rows) es
      → save_events id es expected s ≡ (ok tt, s')
      → max_version id s'.rows ≡ max_version id s.rows + length es
  save_events_version es expected s s' ne num h =
      let (_, rows, _) = save_events_appends es expected s s' ne h in
      rw rows
        (max_version_join s.rows (rows_of es) _ (omega arith) (max_version-rows_of _ es num ne))

  save_some_conflict :
      (es : List (DomainEvent B)) (expected : ℤ) (s : Session B)
      → s.aborted ≡ false
      → is_pos (max_version id s.rows) expected ≡ false
      → save_some id es expected s
        ≡ (err (raise_value (version_conflict id expected (max_version id s.rows))), s)
  unfolding save_some get_current_version
  save_some_conflict es expected s a h = ground arith

  max_version_right : (rs ss : List (Row B)) → max_version id ss ≤ max_version id (rs ++ ss)
  unfolding max_version
  max_version_right [] ss = omega arith
  max_version_right (r ∷ rs) ss = ground (arith, max_version_right rs ss)

  -- Events, at least one, that were saved, whatever version was expected, and that are numbered from
  -- `n + 1` on, are refused when they are saved once more with `n` expected: a version conflict,
  -- which leaves the table as the first `save_events` left it.
  pub save_events_again :
      (es : List (DomainEvent B)) (n : ℕ) (z : ℤ) (s s' : Session B)
      → es ≢ []
      → Numbered id n es
      → save_events id es z s ≡ (ok tt, s')
      → save_events id es (pos n) s'
        ≡ (err (raise_value (version_conflict id (pos n) (max_version id s'.rows))), s')
  unfolding save_events
  save_events_again [] n z s s' ne num h = absurd (ne refl)
  save_events_again (e ∷ es) n z s s' ne num h =
      let (_, rows, sound) = save_events_appends (e ∷ es) z s s' ne h in
      let last = max_version-rows_of n (e ∷ es) num ne in
      let grown : n < max_version id s'.rows =
        rw rows (omega (arith, last, max_version_right s.rows (rows_of (e ∷ es)))) in
      save_some_conflict (e ∷ es) (pos n) s' sound
        (is_pos_other (max_version id s'.rows) n (λ x. omega arith))
