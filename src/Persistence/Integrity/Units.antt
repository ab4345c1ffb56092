-- ===== src/Persistence/Integrity/Units.antt =====
-- What the block that saves a task in a unit of work does to the table.
use taskforge_platform.Common.{
  ℕ, ◌≤◌, ◌≡◌, refl, subst, arith, ◌⊎◌, inl, inr, String, Option, List, [], ◌∷◌, length,
}
use taskforge_platform.Common.Integer.{ℤ, minus}
use taskforge_platform.Common.Dict.{insert}
use taskforge_platform.Common.Result.{⊤, Result, ok, err}
use taskforge_platform.Common.Method.{continue, pure}
use taskforge_platform.EventSourcing.{DomainEvent, AggregateRoot, get_uncommitted_events}
use taskforge_platform.Task.Errors.{Error}
use taskforge_platform.Persistence.Store.{Session, save_events}
use taskforge_platform.Persistence.Reads.Streams.{stream}
use taskforge_platform.Persistence.UnitOfWork.{
  UnitOfWork, new_unit, track_aggregate, note_saved, save_pending, save_tracked, conclude, rollback,
  commit, exit,
}
use taskforge_platform.Persistence.Repository.{
  Repository, expected_or, stored, save_uncommitted, save, raised, save_in_unit,
}
use taskforge_platform.Persistence.Integrity.{
  IsGapless, Climbs, Kept, Kept-refl, Kept-trans, save_events-Kept, save_events_next,
}

-- The version that the events climb to.
abbrev pub last_version : {B : Type 0} → ℕ → List (DomainEvent B) → ℕ
last_version n [] = n
last_version n (e ∷ es) = last_version e.version es

module _ {S B : Type 0} where
  -- The events that a task has not committed climb from a version that its stream has reached, and
  -- its own version is no further.
  pub record IsQueued (a : AggregateRoot S B) (s : Session B) : Type 0 where
    pub from : ℕ
    pub within : from ≤ length (stream a.aggregate_id s.rows)
    pub climbs : Climbs a.aggregate_id from a.uncommitted
    pub reached : a.version ≤ last_version from a.uncommitted

  -- The table is kept, the cache is as it was or has the task, and the block returns only if there
  -- was nothing to save, and then it changed neither.
  pub record Saving (a : AggregateRoot S B) (r : Repository S B)
      (p : Result Error ⊤ × Repository S B × UnitOfWork S B) : Type 0 where
    pub kept : Kept r.session p.1.session
    pub cached : (p.1.cache ≡ r.cache) ⊎ (p.1.cache ≡ insert a.aggregate_id a r.cache)
    pub returns : (p.0 ≡ ok tt) → (a.uncommitted ≡ []) × (p.1 ≡ r)

module _ {S B : Type 0} (event_type : DomainEvent B → String) where
  module _ (id : String) (e : DomainEvent B) (es : List (DomainEvent B)) (v : ℕ) (t : S) where
    abbrev pending : AggregateRoot S B
    pending = record { aggregate_id = id; uncommitted = e ∷ es; version = v; state = t }

    -- The block behind the commit's call of `save_events`.
    abbrev recommitted :
        Repository S B
        → Session B
        → Result Error ⊤ × Session B
        → Result Error ⊤ × Repository S B × UnitOfWork S B
    unfolding note_saved conclude new_unit track_aggregate insert
    recommitted r s p =
        let u = record (track_aggregate pending (new_unit r.session)) { session = s } in
        let (x, u') = note_saved (e ∷ es) p u in
        let (x', v') = continue x (λ _. pure tt) u' in
        let (y, w) = conclude event_type x' v' in
        (y, record r { session = w.session; cache = insert id pending r.cache }, w)

    recommitted-Saving :
        (r : Repository S B) (s : Session B) (n : ℕ) (z : ℤ) (x : Result Error ⊤) (s' : Session B)
        → Kept r.session s
        → n ≤ length (stream id s.rows)
        → Climbs id n (e ∷ es)
        → e.version ≤ length (stream id s.rows)
        → save_events id (e ∷ es) z s ≡ (x, s')
        → Saving pending r (recommitted r s (x, s'))
    unfolding recommitted note_saved conclude rollback
    recommitted-Saving r s n z (err x) s' k within c there h = record {
      kept =
          Kept-trans r.session s s' k
            (subst (λ p. Kept s p.1) h (save_events-Kept id n (e ∷ es) z s k.gapless within c));
      cached = inr refl;
      returns = λ q. absurd (cc q);
    }
    recommitted-Saving r s n z (ok _) s' k within c there h =
        absurd (omega (arith, there, (save_events_next id n e es z s s' k.gapless within c h).0))

    -- The block behind the repository's call of `save_events`.
    abbrev resaved :
        ℤ
        → Repository S B
        → Result Error ⊤ × Session B
        → Result Error ⊤ × Repository S B × UnitOfWork S B
    unfolding exit new_unit track_aggregate insert stored
    resaved z r p =
        let (x, r') = stored pending z p.0 (record r { session = p.1 }) in
        let (y, u) =
          exit event_type (raised x)
            (record (track_aggregate pending (new_unit r.session)) { session = r'.session }) in
        (y, record r' { session = u.session }, u)

    resaved-Saving :
        (r : Repository S B) (n : ℕ) (z : ℤ) (x : Result Error ⊤) (s : Session B)
        → IsGapless r.session.rows
        → n ≤ length (stream id r.session.rows)
        → Climbs id n (e ∷ es)
        → save_events id (e ∷ es) z r.session ≡ (x, s)
        → Saving pending r (resaved z r (x, s))
    unfolding resaved exit commit save_tracked save_pending stored recommitted insert
        get_uncommitted_events new_unit track_aggregate rollback
    resaved-Saving r n z (err x) s g within c h = record {
      kept =
          subst (λ p. Kept r.session p.1) h (save_events-Kept id n (e ∷ es) z r.session g within c);
      cached = inl refl;
      returns = λ q. absurd (cc q);
    }
    resaved-Saving r n z (ok _) s g within c h =
        let k : Kept r.session s =
          subst (λ p. Kept r.session p.1) h
            (save_events-Kept id n (e ∷ es) z r.session g within c) in
        let (first, longer) = save_events_next id n e es z r.session s g within c h in
        recommitted-Saving r s n (minus v (length (e ∷ es))) _ _ k
          (omega (arith, within, k.grown id)) c (omega (arith, first, longer)) refl

  -- The block that saves a task keeps the table gapless, if the events of the task that are not
  -- committed climb from a version that its stream has reached; and it returns only if there are
  -- none.
  pub save_in_unit-Saving :
      (a : AggregateRoot S B) (expected : Option ℤ) (r : Repository S B)
      → IsGapless r.session.rows
      → IsQueued a r.session
      → Saving a r (save_in_unit event_type a expected r)
  unfolding save_in_unit save save_uncommitted resaved get_uncommitted_events
  save_in_unit-Saving a expected r g q = go a.uncommitted q
    where
      with_events : List (DomainEvent B) → AggregateRoot S B
      with_events es = record a { uncommitted = es }

      go :
          (es : List (DomainEvent B))
          → IsQueued (with_events es) r.session
          → Saving (with_events es) r (save_in_unit event_type (with_events es) expected r)
      go [] q = record {
        kept = Kept-refl r.session g;
        cached = inl refl;
        returns = λ _. (refl, refl);
      }
      go (e ∷ es) q =
          resaved-Saving a.aggregate_id e es a.version a.state r q.from
            (expected_or (with_events (e ∷ es)) (e ∷ es) expected) _ _ g q.within q.climbs refl
