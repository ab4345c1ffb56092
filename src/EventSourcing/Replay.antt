-- ===== src/EventSourcing/Replay.antt =====
-- The events that an aggregate has raised rebuild it.
use taskforge_platform.Common.{
  ℕ, ◌+◌, ◌≤◌, Bool, ◌≡◌, refl, String, List, [], ◌∷◌, ◌++◌, arith, length, length-append, ◌∙◌,
}
use taskforge_platform.Common.Result.{⊤, ok}
use taskforge_platform.Common.Method.{Method}
use taskforge_platform.EventSourcing.{
  DomainEvent, AggregateRoot, stamped, raise_event, replay, insert_by_version, sort_by_version,
}

-- The events carry the id and the versions from `n + 1` on, without a gap.
abbrev pub Numbered : {B : Type 0} → String → ℕ → List (DomainEvent B) → Type 0
Numbered id n [] = Unit
Numbered id n (e ∷ es) = (e.version ≡ n + 1) × (e.aggregate_id ≡ id) × Numbered id (n + 1) es

module _ {B : Type 0} where
  pub Numbered-append :
      (id : String) (n : ℕ) (es : List (DomainEvent B)) (e : DomainEvent B)
      → Numbered id n es
      → e.version ≡ n + length es + 1
      → e.aggregate_id ≡ id
      → Numbered id n (es ++ e ∷ [])
  Numbered-append id n [] e h v i = (omega (arith, v), i, tt)
  Numbered-append id n (f ∷ es) e h v i =
      (h.0, h.1, Numbered-append id (n + 1) es e h.2 (omega arith) i)

  pub Numbered-join :
      (id : String) (n m : ℕ) (es fs : List (DomainEvent B))
      → m ≡ n + length es
      → Numbered id n es
      → Numbered id m fs
      → Numbered id n (es ++ fs)
  Numbered-join id n m [] fs e h k = let p : m ≡ n = omega arith in rw p at k
  Numbered-join id n m (f ∷ es) fs e h k =
      (h.0, h.1, Numbered-join id (n + 1) m es fs (omega arith) h.2 k)

  insert-Numbered :
      (id : String) (n : ℕ) (e : DomainEvent B) (es : List (DomainEvent B))
      → e.version ≤ n + 1
      → Numbered id n es
      → insert_by_version e es ≡ e ∷ es
  unfolding insert_by_version
  insert-Numbered id n e [] v h = refl
  insert-Numbered id n e (f ∷ es) v h = ground arith

  -- Sorting leaves such a stream as it is.
  pub sort-Numbered :
      (id : String) (n : ℕ) (es : List (DomainEvent B)) → Numbered id n es → sort_by_version es ≡ es
  unfolding sort_by_version
  sort-Numbered id n [] h = refl
  sort-Numbered id n (e ∷ es) h =
      rw (sort-Numbered id (n + 1) es h.2) (insert-Numbered id (n + 1) e es (omega arith) h.2)

module _ {S B E : Type 0} (apply_event : DomainEvent B → Method S E ⊤) where
  -- Replaying in two parts.
  pub replay-append :
      (es fs : List (DomainEvent B)) (a b : AggregateRoot S B)
      → replay apply_event es a ≡ (ok tt, b)
      → replay apply_event (es ++ fs) a ≡ replay apply_event fs b
  unfolding replay
  replay-append [] fs a b h = ground arith
  replay-append (e ∷ es) fs a b h = ground (
    arith,
    replay-append es fs (record a { state = (apply_event e a.state).1; version = e.version }) b,
  )

  -- A replayed stream without gaps leaves the version of its last event, and the id alone.
  pub replay-version :
      (id : String) (n : ℕ) (es : List (DomainEvent B)) (a b : AggregateRoot S B)
      → Numbered id n es
      → a.version ≡ n
      → replay apply_event es a ≡ (ok tt, b)
      → (b.version ≡ n + length es) × (b.aggregate_id ≡ a.aggregate_id)
  unfolding replay
  replay-version id n [] a b h v r = ground arith
  replay-version id n (e ∷ es) a b h v r = ground (
    arith,
    h.0,
    replay-version id (n + 1) es
        (record a { state = (apply_event e a.state).1; version = e.version }) b h.2,
  )

  -- `a` is what `start` becomes by the events that `a` has not committed.
  pub record IsSourced (start a : AggregateRoot S B) : Type 0 where
    pub same_id : a.aggregate_id ≡ start.aggregate_id
    pub counted : a.version ≡ start.version + length a.uncommitted
    pub numbered : Numbered start.aggregate_id start.version a.uncommitted
    pub rebuilt : replay apply_event a.uncommitted start ≡ (ok tt, record a { uncommitted = [] })

  -- With nothing raised yet an aggregate is its own start.
  pub IsSourced-refl : (a : AggregateRoot S B) → a.uncommitted ≡ [] → IsSourced a a
  unfolding replay
  IsSourced-refl a e = record {
    same_id = refl;
    counted = rw e (omega arith);
    numbered = rw e tt;
    rebuilt = rw e (ground arith);
  }

  -- What a `raise_event` that returns has done.
  pub raise_event_inv :
      (frozen : Bool) (x : E) (e : DomainEvent B) (a a' : AggregateRoot S B)
      → raise_event apply_event frozen x e a ≡ (ok tt, a')
      → (a'.aggregate_id ≡ a.aggregate_id)
        × (a'.version ≡ a.version + 1)
        × (a'.uncommitted ≡ a.uncommitted ++ stamped a e ∷ [])
        × (apply_event (stamped a e) a.state ≡ (ok tt, a'.state))
  unfolding raise_event
  raise_event_inv frozen x e a a' h = ground arith

  replay-one :
      (e : DomainEvent B) (a : AggregateRoot S B) (s : S)
      → apply_event e a.state ≡ (ok tt, s)
      → replay apply_event (e ∷ []) a ≡ (ok tt, record a { state = s; version = e.version })
  unfolding replay
  replay-one e a s h = ground arith

  -- If `raise_event` returns, the events raised so far still rebuild the aggregate.
  pub raise_event-IsSourced :
      (frozen : Bool) (x : E) (e : DomainEvent B) (start a a' : AggregateRoot S B)
      → IsSourced start a
      → raise_event apply_event frozen x e a ≡ (ok tt, a')
      → IsSourced start a'
  raise_event-IsSourced frozen x e start a a' s h =
      let (id, v, u, done) = raise_event_inv frozen x e a a' h in
      record {
        same_id = id ∙ s.same_id;
        counted =
            rw u (omega (arith, v, s.counted, length-append a.uncommitted (stamped a e ∷ [])));
        numbered = rw u (
            Numbered-append _ _ a.uncommitted (stamped a e) s.numbered (omega (arith, s.counted))
              s.same_id);
        rebuilt = rw u (
            replay-append a.uncommitted (stamped a e ∷ []) start _ s.rebuilt
            ∙ replay-one (stamped a e) _ a'.state done
            ∙ ground (arith, id, v));
      }
