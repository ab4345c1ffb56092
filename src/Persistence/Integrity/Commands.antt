-- ===== src/Persistence/Integrity/Commands.antt =====
-- Commands and loads leave a task whose pending events can follow its stream.
use taskforge_platform.Common.{
  ℕ, ◌+◌, ◌≤◌, ◌<◌, ◌≡◌, refl, sym, ap, ◌∙◌, subst, arith, Bool, true, false, inl, inr, String,
  List, [], ◌∷◌, ◌++◌, length, Runtime,
}
use taskforge_platform.Common.Result.{⊤, Result, ok, err}
use taskforge_platform.Common.Method.{Method}
use taskforge_platform.EventSourcing.{
  DomainEvent, AggregateRoot, stamped, applied, raise_event, replay,
}
use taskforge_platform.EventSourcing.Replay.{Numbered, sort-Numbered, replay-version}
use taskforge_platform.Task.Errors.{frozen_instance}
use taskforge_platform.Task.Commands.{CreateTaskCommand}
use taskforge_platform.Task.Events.{TaskEventData, TaskEvent}
use taskforge_platform.Task.Aggregate.{TaskAggregate, new_aggregate, apply_event}
use taskforge_platform.Task.Aggregate.Methods.{
  Fresh, new_event, created_event, emit, create, rebuild, from_events,
}
use taskforge_platform.Task.Aggregate.Methods.Commands.{Command, execute, execute-Emits}
use taskforge_platform.Task.Aggregate.Methods.Sourced.{create_inv}
use taskforge_platform.Persistence.Store.{Session}
use taskforge_platform.Persistence.Reads.Streams.{stream}
use taskforge_platform.Persistence.Integrity.{Climbs, Kept}
use taskforge_platform.Persistence.Integrity.Units.{last_version, IsQueued}

module _ {B : Type 0} where
  Climbs-append :
      (id : String) (n : ℕ) (es : List (DomainEvent B)) (e : DomainEvent B)
      → Climbs id n es
      → 0 < e.version
      → e.version ≤ last_version n es + 1
      → e.aggregate_id ≡ id
      → Climbs id n (es ++ e ∷ [])
  Climbs-append id n [] e c low high own = (low, high, own, tt)
  Climbs-append id n (f ∷ es) e c low high own =
      (c.0, c.1, c.2, Climbs-append id f.version es e c.3 low high own)

  last_version-append :
      (n : ℕ) (es : List (DomainEvent B)) (e : DomainEvent B)
      → last_version n (es ++ e ∷ []) ≡ e.version
  last_version-append n [] e = refl
  last_version-append n (f ∷ es) e = last_version-append f.version es e

module _ {S B : Type 0} where
  pub Kept-IsQueued :
      (a : AggregateRoot S B) (s t : Session B) → Kept s t → IsQueued a s → IsQueued a t
  Kept-IsQueued a s t k q = record {
    from = q.from;
    within = omega (arith, q.within, k.grown a.aggregate_id);
    climbs = q.climbs;
    reached = q.reached;
  }

  -- A task with nothing pending, at a version that its stream has reached.
  pub settled-IsQueued :
      (a : AggregateRoot S B) (s : Session B)
      → a.uncommitted ≡ []
      → a.version ≤ length (stream a.aggregate_id s.rows)
      → IsQueued a s
  settled-IsQueued a s none_left v = record {
    from = a.version;
    within = v;
    climbs = rw none_left tt;
    reached = rw none_left (omega arith);
  }

  pub marked-IsQueued :
      (a : AggregateRoot S B) (s : Session B)
      → a.uncommitted ≡ []
      → IsQueued a s
      → IsQueued (record a { uncommitted = [] }) s
  marked-IsQueued a s none_left q =
      settled-IsQueued (record a { uncommitted = [] }) s refl
        (omega
          (arith, q.within, subst (λ l. a.version ≤ last_version q.from l) none_left q.reached))

module _ {S B E : Type 0} (apply_event : DomainEvent B → Method S E ⊤) where
  -- Whether or not the event is applied, it is pending behind the others.
  raise_event-IsQueued :
      (frozen : Bool) (x : E) (e : DomainEvent B) (a : AggregateRoot S B) (s : Session B)
      → IsQueued a s
      → IsQueued (raise_event apply_event frozen x e a).1 s
  unfolding raise_event
  raise_event-IsQueued true x e a s q = q
  raise_event-IsQueued false x e a s q =
      go (apply_event (stamped a e) a.state).0 (apply_event (stamped a e) a.state).1
    where
      grown : Climbs a.aggregate_id q.from (a.uncommitted ++ stamped a e ∷ [])
      grown =
          Climbs-append a.aggregate_id q.from a.uncommitted (stamped a e) q.climbs (omega arith)
            (omega (arith, q.reached)) refl

      go :
          (r : Result E ⊤) (t : S)
          → IsQueued
              (applied apply_event
                (record a { uncommitted = a.uncommitted ++ stamped a e ∷ [] })
                (r, t)).1
              s
      go (ok _) t = record {
        from = q.from;
        within = q.within;
        climbs = grown;
        reached = omega (arith, last_version-append q.from a.uncommitted (stamped a e));
      }
      go (err y) t = record {
        from = q.from;
        within = q.within;
        climbs = grown;
        reached = omega (arith, last_version-append q.from a.uncommitted (stamped a e));
      }

  replay-uncommitted :
      (es : List (DomainEvent B)) (a b : AggregateRoot S B)
      → replay apply_event es a ≡ (ok tt, b)
      → b.uncommitted ≡ a.uncommitted
  unfolding replay
  replay-uncommitted [] a b h = ground arith
  replay-uncommitted (e ∷ es) a b h = ground (
    arith,
    replay-uncommitted es (record a { state = (apply_event e a.state).1; version = e.version }) b,
  )

module _ ⦃rt : Runtime⦄ where
  pub execute-IsQueued :
      (frozen : Bool) (f : Fresh) (c : Command) (a : TaskAggregate) (s : Session TaskEventData)
      → IsQueued a s
      → IsQueued (execute frozen f c a).1 s
  unfolding emit
  execute-IsQueued frozen f c a s q = elim (execute-Emits frozen f c a) [
    | inl same ↦ subst (λ b. IsQueued b s) (sym same) q
    | inr (b, _, e) ↦
        subst (λ p. IsQueued p.1 s) (sym e)
          (raise_event-IsQueued apply_event frozen frozen_instance (new_event f a.aggregate_id b) a
            s q)
  ]

  pub create-IsQueued :
      (frozen : Bool) (f : Fresh) (id : String) (c : CreateTaskCommand) (a : TaskAggregate)
      (s : Session TaskEventData)
      → create frozen f id c ≡ ok a
      → IsQueued a s
  unfolding emit new_aggregate
  create-IsQueued frozen f id c a s h =
      let begun = settled-IsQueued (new_aggregate id) s refl (omega arith) in
      subst (λ p. IsQueued p.1 s) (create_inv frozen f id c a h)
        (raise_event-IsQueued apply_event frozen frozen_instance
          (new_event f (new_aggregate id).aggregate_id (created_event frozen f c))
          (new_aggregate id) s begun)

  rebuild_inv :
      (es : List TaskEvent) (a b : TaskAggregate)
      → rebuild es a ≡ ok b
      → replay apply_event es a ≡ (ok tt, b)
  unfolding rebuild
  rebuild_inv es a b h = ground arith

  -- A task that `from_events` gives from its whole stream has nothing pending.
  pub from_events_settled :
      (id : String) (e : TaskEvent) (es : List TaskEvent) (a : TaskAggregate)
      → Numbered id 0 (e ∷ es)
      → from_events (e ∷ es) ≡ ok a
      → (a.aggregate_id ≡ id) × (a.version ≡ length (e ∷ es)) × (a.uncommitted ≡ [])
  unfolding from_events new_aggregate
  from_events_settled id e es a num h =
      let run = rebuild_inv (e ∷ es) (new_aggregate e.aggregate_id) a (
        ap (λ l. rebuild l (new_aggregate e.aggregate_id)) (sym (sort-Numbered id 0 (e ∷ es) num))
        ∙ h) in
      let (v, i) =
        replay-version apply_event id 0 (e ∷ es) (new_aggregate e.aggregate_id) a num refl run in
      (
        i ∙ num.1,
        omega (arith, v),
        replay-uncommitted apply_event (e ∷ es) (new_aggregate e.aggregate_id) a run,
      )
