-- ===== src/Service/Integrity.antt =====
-- What the handlers keep of the table and the cache, whatever the requests are.
pub mod Requests
pub mod Reach
use taskforge_platform.Common.{
  ℕ, ◌+◌, ◌≤◌, ◌≡◌, refl, sym, ap, ◌∙◌, subst, arith, Bool, true, false, ◌⊎◌, inl, inr, String,
  Option, none, some, List, [], ◌∷◌, length, ◌==◌, str_eq, eq_iff, Bool-cases, if◌then◌else◌,
  Runtime, Datetime,
}
use taskforge_platform.Common.Integer.{ℤ}
use taskforge_platform.Common.Dict.{lookup, contains, insert, lookup-insert}
use taskforge_platform.Common.Result.{⊤, Result, ok, err}
use taskforge_platform.EventSourcing.{mark_events_committed}
use taskforge_platform.EventSourcing.Replay.{Numbered}
use taskforge_platform.Task.Errors.{Error}
use taskforge_platform.Task.Events.{TaskEventData, TaskEvent, event_type}
use taskforge_platform.Task.Aggregate.{TaskAggregate}
use taskforge_platform.Task.Aggregate.Methods.{from_events}
use taskforge_platform.Persistence.Store.{Session}
use taskforge_platform.Persistence.Reads.{get_events}
use taskforge_platform.Persistence.Reads.Streams.{stream, reload, get_events-stream}
use taskforge_platform.Persistence.Repository.{save_in_unit}
use taskforge_platform.Persistence.Tasks.{TaskRepository, cache_task, load, get_cached, get_by_id}
use taskforge_platform.Persistence.Integrity.{IsGapless, Kept, Kept-refl}
use taskforge_platform.Persistence.Integrity.Units.{IsQueued, Saving, save_in_unit-Saving}
use taskforge_platform.Persistence.Integrity.Commands.{
  Kept-IsQueued, settled-IsQueued, marked-IsQueued, from_events_settled,
}
use taskforge_platform.Service.{share, saved, save_task}

-- A cached task stands under its id, and its pending events can follow its stream.
abbrev pub Fits : String → TaskAggregate → TaskRepository → Type 0
Fits id a r = (a.aggregate_id ≡ id) × IsQueued a r.session

pub record IsSound (r : TaskRepository) : Type 0 where
  pub gapless : IsGapless r.session.rows
  pub cached : (id : String) (a : TaskAggregate) → lookup id r.cache ≡ some a → Fits id a r

Fits-Kept :
    (id : String) (a : TaskAggregate) (r t : TaskRepository)
    → Kept r.session t.session
    → Fits id a r
    → Fits id a t
Fits-Kept id a r t k f = (f.0, Kept-IsQueued a r.session t.session k f.1)

pub insert-IsSound :
    (a : TaskAggregate) (r : TaskRepository)
    → IsQueued a r.session
    → IsSound r
    → IsSound (record r { cache = insert a.aggregate_id a r.cache })
insert-IsSound a r q h = record {
  gapless = h.gapless;
  cached = λ id b e. elim (Bool-cases (a.aggregate_id == id)) [
    | inl same ↦
        let found = rw same at (sym (lookup-insert a.aggregate_id id a r.cache) ∙ e) in
        let a_is : a ≡ b =
          ap (λ o. elim o as (λ _. TaskAggregate) [ none ↦ a | some c ↦ c ]) found in
        subst (λ c. Fits id c r) a_is ((eq_iff a.aggregate_id id).0 same, q)
    | inr other ↦ h.cached id b (rw other at (sym (lookup-insert a.aggregate_id id a r.cache) ∙ e))
  ];
}

-- A change of the table alone.
Kept-IsSound :
    (r t : TaskRepository) → Kept r.session t.session → t.cache ≡ r.cache → IsSound r → IsSound t
Kept-IsSound r t k same h = record {
  gapless = k.gapless;
  cached = λ id a e. Fits-Kept id a r t k (h.cached id a (ap (λ c. lookup id c) (sym same) ∙ e));
}

pub share-IsSound :
    (a : TaskAggregate) (r : TaskRepository)
    → IsQueued a r.session
    → IsSound r
    → IsSound (share a r)
unfolding share
share-IsSound a r q h = elim (Bool-cases (contains a.aggregate_id r.cache)) [
  | inl there ↦ simp there (insert-IsSound a r q h)
  | inr away ↦ simp away h
]

-- What saving a task leaves, and what it means that it returned: nothing was pending, and the table
-- is as it was.
pub record Saved (a : TaskAggregate) (r : TaskRepository)
    (p : Result Error TaskAggregate × TaskRepository) : Type 0 where
  pub sound : IsSound p.1
  pub kept : Kept r.session p.1.session
  pub idle : (b : TaskAggregate) → p.0 ≡ ok b → (a.uncommitted ≡ []) × (p.1.session ≡ r.session)

share-session : (a : TaskAggregate) (r : TaskRepository) → (share a r).session ≡ r.session
unfolding share
share-session a r = elim (Bool-cases (contains a.aggregate_id r.cache)) [
  | inl there ↦ simp there
  | inr away ↦ simp away
]

saved_block :
    (a : TaskAggregate) (r : TaskRepository) (y : Result Error ⊤) (t : TaskRepository)
    → IsSound t
    → IsQueued a t.session
    → Kept r.session t.session
    → (y ≡ ok tt → (a.uncommitted ≡ []) × (t ≡ r))
    → Saved a r (saved a y t)
unfolding saved mark_events_committed
saved_block a r (err x) t h q k ends = record { sound = h; kept = k; idle = λ b e. absurd (cc e) }
saved_block a r (ok _) t h q k ends =
    let b = mark_events_committed a in
    let (none_left, same) = ends refl in
    record {
      sound = share-IsSound b t (marked-IsQueued a t.session none_left q) h;
      kept = subst (λ s. Kept r.session s) (sym (share-session b t)) k;
      idle = λ c e. (none_left, share-session b t ∙ ap (λ u. u.session) same);
    }

pub save_task-Saved :
    (a : TaskAggregate) (expected : Option ℤ) (r : TaskRepository)
    → IsSound r
    → IsQueued a r.session
    → Saved a r (save_task a expected r)
unfolding save_task
save_task-Saved a expected r h q =
    let (y, t, u) = save_in_unit (λ e. event_type e.body) a expected r in
    let done = save_in_unit-Saving (λ e. event_type e.body) a expected r h.gapless q in
    saved_block a r y t (sound t done.kept done.cached)
      (Kept-IsQueued a r.session t.session done.kept q) done.kept done.returns
  where
    sound :
        (t : TaskRepository)
        → Kept r.session t.session
        → (t.cache ≡ r.cache) ⊎ (t.cache ≡ insert a.aggregate_id a r.cache)
        → IsSound t
    sound t k (inl same) = Kept-IsSound r t k same h
    sound t k (inr put) =
        Kept-IsSound (record r { cache = insert a.aggregate_id a r.cache }) t k put
          (insert-IsSound a r q h)

-- What `get_by_id` answers and leaves.
pub record Loaded (id : String) (r : TaskRepository)
    (p : Result Error (Option TaskAggregate) × TaskRepository) : Type 0 where
  pub sound : IsSound p.1
  pub same : p.1.session ≡ r.session
  pub fits : (a : TaskAggregate) → p.0 ≡ ok (some a) → Fits id a p.1
