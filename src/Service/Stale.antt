-- ===== src/Service/Stale.antt =====
-- A change that a handler refuses stays in the cache, and is what readers see.
use taskforge_platform.Common.{
  ℕ, ◌+◌, length, ◌≡◌, ◌≢◌, refl, sym, ap, ◌∙◌, subst, Bool, true, false, Option, none, some, List,
  [], ◌∷◌, str_eq, if◌then◌else◌, Runtime, Datetime,
}
use taskforge_platform.Common.Integer.{ℤ}
use taskforge_platform.Common.Dict.{lookup, contains, insert, lookup-insert_self}
use taskforge_platform.Common.Result.{⊤, Result, ok, err}
use taskforge_platform.EventSourcing.{get_uncommitted_events}
use taskforge_platform.EventSourcing.Replay.{Numbered, IsSourced}
use taskforge_platform.Task.Errors.{Error}
use taskforge_platform.Task.Events.{TaskEvent, event_type}
use taskforge_platform.Task.Aggregate.{TaskAggregate, apply_event}
use taskforge_platform.Task.Aggregate.View.{to_dict}
use taskforge_platform.Task.Aggregate.Methods.{Fresh}
use taskforge_platform.Task.Aggregate.Methods.Commands.{Command, execute}
use taskforge_platform.Task.Aggregate.Methods.Sourced.{execute-IsSourced}
use taskforge_platform.Persistence.Repository.{stored, save_uncommitted, save, save_in_unit}
use taskforge_platform.Persistence.Repository.Saves.{save_in_unit-Raises}
use taskforge_platform.Persistence.Tasks.{TaskRepository, get_cached, get_by_id}
use taskforge_platform.Service.{
  reply, share, saved, save_task, after_call, on_found, on_task, found, get_task,
}

-- The cache answers the task for its id.
abbrev pub IsCached : TaskAggregate → TaskRepository → Type 0
IsCached a r = lookup a.aggregate_id r.cache ≡ some a

share-IsCached :
    (a b : TaskAggregate) (r : TaskRepository)
    → lookup b.aggregate_id r.cache ≡ some a
    → IsCached b (share b r)
unfolding share contains
share-IsCached a b r h =
    subst
      (λ o. IsCached b (
        if (elim o as (λ _. Bool) [ none ↦ false | some _ ↦ true ])
        then record r { cache = insert b.aggregate_id b r.cache }
        else r))
      (sym h) (lookup-insert_self b.aggregate_id b r.cache)

stored-IsCached :
    (a : TaskAggregate) (z : ℤ) (x : Result Error ⊤) (r : TaskRepository)
    → IsCached a r
    → IsCached a (stored a z x r).1
unfolding stored
stored-IsCached a z (ok _) r h = lookup-insert_self a.aggregate_id a r.cache
stored-IsCached a z (err x) r h = h

save_uncommitted-IsCached :
    (a : TaskAggregate) (es : List TaskEvent) (expected : Option ℤ) (r : TaskRepository)
    → IsCached a r
    → IsCached a (save_uncommitted a es expected r).1
unfolding save_uncommitted
save_uncommitted-IsCached a [] expected r h = h
save_uncommitted-IsCached a (e ∷ es) expected r h = stored-IsCached a _ _ _ h

-- An error, behind which the cache has the task.
abbrev pub IsRefused : TaskAggregate → Result Error TaskAggregate × TaskRepository → Type 0
IsRefused b (y, r) = ((x : Error) × (y ≡ err x)) × IsCached b r

saved-IsRefused :
    (b : TaskAggregate) (y : Result Error ⊤) (r : TaskRepository) (x : Error)
    → y ≡ err x
    → IsCached b r
    → IsRefused b (saved b y r)
unfolding saved
saved-IsRefused b (err z) r x e h = ((z, refl), h)
saved-IsRefused b (ok _) r x e h = absurd (cc e)

save_task-IsRefused :
    (n : ℕ) (b : TaskAggregate) (expected : Option ℤ) (r : TaskRepository)
    → IsCached b r
    → b.uncommitted ≢ []
    → Numbered b.aggregate_id n b.uncommitted
    → b.version ≡ n + length b.uncommitted
    → IsRefused b (save_task b expected r)
unfolding save_task save_in_unit save get_uncommitted_events
save_task-IsRefused n b expected r h ne num v =
    let (x, fails, _, _) = save_in_unit-Raises (λ e. event_type e.body) b n expected r ne num v in
    saved-IsRefused b _ _ x fails (save_uncommitted-IsCached b b.uncommitted expected r h)

module _ ⦃rt : Runtime⦄ (clock : ℕ → Datetime) where
  get_by_id-IsCached :
      (a : TaskAggregate) (r : TaskRepository)
      → IsCached a r
      → get_by_id clock a.aggregate_id r ≡ (ok (some a), r)
  unfolding get_by_id get_cached
  get_by_id-IsCached a r h = ap (λ o. get_cached clock a.aggregate_id o r) h

  on_task-IsRefused :
      (frozen : Bool) (f : Fresh) (c : Command) (start a b : TaskAggregate) (expected : ℤ)
      (r : TaskRepository)
      → IsCached a r
      → IsSourced apply_event start a
      → execute frozen f c a ≡ (ok tt, b)
      → b.uncommitted ≢ []
      → IsRefused b (on_task clock a.aggregate_id (execute frozen f c) expected r)
  unfolding on_task on_found after_call
  on_task-IsRefused frozen f c start a b expected r h s done ne =
      let t = execute-IsSourced frozen f c start a b s done in
      let same_id : b.aggregate_id ≡ a.aggregate_id = t.same_id ∙ sym s.same_id in
      let path : on_task clock a.aggregate_id (execute frozen f c) expected r
          ≡ save_task b (some expected) (share b r) =
        ap (λ p. on_found clock a.aggregate_id (execute frozen f c) expected p.0 p.1)
          (get_by_id-IsCached a r h)
        ∙ ap (λ p. after_call clock expected p.0 p.1 r) done in
      subst (IsRefused b) (sym path) (
        save_task-IsRefused start.version b (some expected) (share b r)
          (share-IsCached a b r (rw same_id h)) ne (rw t.same_id t.numbered) t.counted)

  -- Take a cached task, and a command that returns on it and leaves a task with something to save,
  -- where the events of the cached task that are not committed, if any, are numbered up from some
  -- earlier task. The body of the handler raises whatever version the request expects, and
  -- `GetTask` then answers the changed task.
  pub get_task-on_task :
      (frozen : Bool) (f : Fresh) (c : Command) (start a b : TaskAggregate) (expected : ℤ)
      (r : TaskRepository)
      → IsCached a r
      → IsSourced apply_event start a
      → execute frozen f c a ≡ (ok tt, b)
      → b.uncommitted ≢ []
      → let (y, r') = on_task clock a.aggregate_id (execute frozen f c) expected r in
        ((x : Error) × (y ≡ err x)) × (get_task clock a.aggregate_id r' ≡ (reply (to_dict b), r'))
  unfolding get_task found
  get_task-on_task frozen f c start a b expected r h s done ne =
      let (raises, cached) = on_task-IsRefused frozen f c start a b expected r h s done ne in
      let t = execute-IsSourced frozen f c start a b s done in
      let same_id : b.aggregate_id ≡ a.aggregate_id = t.same_id ∙ sym s.same_id in
      let r' = (on_task clock a.aggregate_id (execute frozen f c) expected r).1 in
      (
        raises,
        subst (λ id. get_task clock id r' ≡ (reply (to_dict b), r')) same_id
            (ap (λ p. (found clock b.aggregate_id p.0, p.1)) (get_by_id-IsCached b r' cached)),
      )
