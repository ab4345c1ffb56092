-- ===== src/Task/Aggregate/Methods/Reloaded.antt =====
-- Rebuilding a task from events that are dated otherwise.
use taskforge_platform.Common.{
  ◌≡◌, refl, Bool, true, false, List, [], ◌∷◌, leb, if◌then◌else◌, Runtime,
}
use taskforge_platform.Common.Result.{⊤, Result, ok, err, ◌>>◌}
use taskforge_platform.EventSourcing.{replay, insert_by_version, sort_by_version}
use taskforge_platform.Task.Errors.{Error}
use taskforge_platform.Task.Events.{TaskEvent}
use taskforge_platform.Task.Aggregate.{Task, TaskAggregate, new_aggregate, apply_event}
use taskforge_platform.Task.Aggregate.Times.{timeless, IsBlind, apply_event-IsBlind}
use taskforge_platform.Task.Aggregate.Methods.{rebuild, from_events}

-- The same events, but for their times, metadata and users.
pub data SameData : List TaskEvent → List TaskEvent → Type 0 where
  nil : SameData [] []
  cons :
      {e f : TaskEvent} {es fs : List TaskEvent}
      → e.version ≡ f.version
      → e.aggregate_id ≡ f.aggregate_id
      → e.body ≡ f.body
      → SameData es fs
      → SameData (e ∷ es) (f ∷ fs)

-- The same task, but for its two times.
abbrev pub SameTask : TaskAggregate → TaskAggregate → Type 0
SameTask a b =
    (a.aggregate_id ≡ b.aggregate_id)
    × (a.version ≡ b.version)
    × (a.uncommitted ≡ b.uncommitted)
    × (timeless a.state ≡ timeless b.state)

-- The same exception, or the same task but for its times.
abbrev pub SameEnd : Result Error TaskAggregate → Result Error TaskAggregate → Type 0
SameEnd (ok a) (ok b) = SameTask a b
SameEnd (err x) (err y) = x ≡ y
SameEnd r s = ⊥

insert-SameData :
    (e f : TaskEvent) {es fs : List TaskEvent}
    → e.version ≡ f.version
    → e.aggregate_id ≡ f.aggregate_id
    → e.body ≡ f.body
    → SameData es fs
    → SameData (insert_by_version e es) (insert_by_version f fs)
unfolding insert_by_version
insert-SameData e f v i b nil = cons v i b nil
insert-SameData e f v i b (cons {e = x} {f = y} w j c h) =
    go (leb e.version x.version) (leb f.version y.version) (rw (v, w) refl)
      (cons v i b (cons w j c h)) (cons w j c (insert-SameData e f v i b h))
  where
    go :
        (p q : Bool) {es fs es' fs' : List TaskEvent}
        → p ≡ q
        → SameData es fs
        → SameData es' fs'
        → SameData (if p then es else es') (if q then fs else fs')
    go true true same h h' = h
    go false false same h h' = h'
    go true false same h h' = absurd (cc same)
    go false true same h h' = absurd (cc same)

sort-SameData :
    {es fs : List TaskEvent} → SameData es fs → SameData (sort_by_version es) (sort_by_version fs)
unfolding sort_by_version
sort-SameData nil = nil
sort-SameData (cons {e} {f} v i b h) = insert-SameData e f v i b (sort-SameData h)

-- The end of `rebuild`.
abbrev ended : Result Error ⊤ × TaskAggregate → Result Error TaskAggregate
ended p = p.0 >> ok p.1

module _ ⦃rt : Runtime⦄ where
  replay-SameEnd :
      {es fs : List TaskEvent} (a b : TaskAggregate)
      → SameData es fs
      → SameTask a b
      → SameEnd (ended (replay apply_event es a)) (ended (replay apply_event fs b))
  unfolding replay
  replay-SameEnd a b nil s = s
  replay-SameEnd a b (cons {e} {f} {es} {fs} v i c h) s =
      go (apply_event e a.state).0 (apply_event f b.state).0 (apply_event e a.state).1
        (apply_event f b.state).1 (blind.same_result a.state b.state s.3)
        (blind.same_task a.state b.state s.3) (λ a b. replay-SameEnd a b h)
    where
      blind : IsBlind ⊤ (apply_event e) (apply_event f)
      blind = apply_event-IsBlind e f c

      go :
          (r r' : Result Error ⊤) (t t' : Task)
          → r ≡ r'
          → timeless t ≡ timeless t'
          → ((a b : TaskAggregate)
              → SameTask a b
              → SameEnd (ended (replay apply_event es a)) (ended (replay apply_event fs b)))
          → SameEnd
              (ended (elim r as (λ _. Result Error ⊤ × TaskAggregate) [
                | ok _ ↦ replay apply_event es (record a { state = t; version = e.version })
                | err x ↦ (err x, record a { state = t })
              ]))
              (ended (elim r' as (λ _. Result Error ⊤ × TaskAggregate) [
                | ok _ ↦ replay apply_event fs (record b { state = t'; version = f.version })
                | err x ↦ (err x, record b { state = t' })
              ]))
      go (ok _) (ok _) t t' same close ih = ih _ _ (s.0, v, s.2, close)
      go (err x) (err y) t t' same close ih = cc same
      go (ok _) (err y) t t' same close ih = absurd (cc same)
      go (err x) (ok _) t t' same close ih = absurd (cc same)

  -- `from_events` on events that agree but for their times, metadata and users raises the same
  -- exception, or gives tasks that agree but for `created_at` and `updated_at`.
  pub from_events-SameEnd :
      {es fs : List TaskEvent} → SameData es fs → SameEnd (from_events es) (from_events fs)
  unfolding from_events rebuild new_aggregate
  from_events-SameEnd nil = refl
  from_events-SameEnd (cons {e} {f} {es} {fs} v i c h) =
      replay-SameEnd (new_aggregate e.aggregate_id) (new_aggregate f.aggregate_id)
        (sort-SameData (cons v i c h)) (i, refl, refl, refl)
