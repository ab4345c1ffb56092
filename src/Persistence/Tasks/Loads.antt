-- ===== src/Persistence/Tasks/Loads.antt =====
-- A task saved by one repository and loaded by another.
use taskforge_platform.Common.{
  ℕ, ◌+◌, ◌≡◌, ◌≢◌, refl, sym, ap, ◌∙◌, subst, Bool, true, false, String, Option, none, some, List,
  [], ◌∷◌, ◌++◌, str_eq, if◌then◌else◌, Runtime, Datetime,
}
use taskforge_platform.Common.Dict.{lookup, insert}
use taskforge_platform.Common.Result.{Result, ok, err}
use taskforge_platform.Common.Method.{continue}
use taskforge_platform.EventSourcing.{replay}
use taskforge_platform.EventSourcing.Replay.{Numbered, Numbered-join, IsSourced, replay-version}
use taskforge_platform.Task.Errors.{Error}
use taskforge_platform.Task.Events.{TaskEvent}
use taskforge_platform.Task.Aggregate.{TaskAggregate, new_aggregate, apply_event}
use taskforge_platform.Task.Aggregate.Methods.{from_events}
use taskforge_platform.Task.Aggregate.Methods.Sourced.{committed, from_events-history}
use taskforge_platform.Task.Aggregate.Methods.Reloaded.{
  SameData, nil, cons, SameTask, SameEnd, from_events-SameEnd,
}
use taskforge_platform.Persistence.Store.Writes.{rows_of, save_events_appends}
use taskforge_platform.Persistence.Reads.Streams.{
  stream, stream-append, stream-rows_of, reload, get_events-stream,
}
use taskforge_platform.Persistence.Repository.{save}
use taskforge_platform.Persistence.Repository.Saves.{save_inv}
use taskforge_platform.Persistence.Tasks.{TaskRepository, cache_task, load, get_cached, get_by_id}

append_ne_nil : {A : Type 0} (xs ys : List A) → ys ≢ [] → xs ++ ys ≢ []
append_ne_nil [] ys ne = ne
append_ne_nil (x ∷ xs) ys ne = λ e. cc

module _ ⦃rt : Runtime⦄ (iso : (d : Datetime) → rt.fromisoformat (rt.isoformat d) ≡ some d)
    (clock : ℕ → Datetime) where
  SameData-reload : (n : ℕ) (es : List TaskEvent) → SameData (reload iso clock n es) es
  SameData-reload n [] = nil
  SameData-reload n (e ∷ es) = cons refl refl refl (SameData-reload (n + 1) es)

  -- What `get_by_id` answers from what `from_events` makes of the stored events.
  abbrev pub SameLoad : Result Error TaskAggregate → Result Error (Option TaskAggregate) → Type 0
  SameLoad (err x) (err y) = x ≡ y
  SameLoad (ok b) (ok none) = b.state.is_deleted ≡ true
  SameLoad (ok b) (ok (some a)) = SameTask a b × (a.state.is_deleted ≡ false)
  SameLoad r s = ⊥

  cache_task-SameLoad :
      (id : String) (x y : Result Error TaskAggregate) (r : TaskRepository)
      → SameEnd x y
      → SameLoad y (cache_task id x r).0
  unfolding cache_task
  cache_task-SameLoad id (err x) (err y) r h = sym h
  cache_task-SameLoad id (ok a) (err y) r h = elim h [ ]
  cache_task-SameLoad id (err x) (ok b) r h = elim h [ ]
  cache_task-SameLoad id (ok a) (ok b) r h = go a.state.is_deleted refl
    where
      go :
          (d : Bool)
          → a.state.is_deleted ≡ d
          → SameLoad (ok b) (
              let p : Result Error (Option TaskAggregate) × TaskRepository =
                if d
                then (ok none, r)
                else (ok (some a), record r { cache = insert id a r.cache }) in
              p.0)
      go true gone = sym (ap (λ t. t.is_deleted) h.3) ∙ gone
      go false there = (h, there)

  load-SameLoad :
      (id : String) {es fs : List TaskEvent} (r : TaskRepository)
      → fs ≢ []
      → SameData es fs
      → SameLoad (from_events fs) (load id es r).0
  unfolding load
  load-SameLoad id r ne nil = absurd (ne refl)
  load-SameLoad id r ne (cons {e} {f} {es} {fs} v i b h) =
      cache_task-SameLoad id (from_events (e ∷ es)) (from_events (f ∷ fs)) r
        (from_events-SameEnd (cons v i b h))

  -- A task that is not cached, and whose stored events, at least one, are numbered from 1 without a
  -- gap: if the transaction has not failed and `fromisoformat` reads what `isoformat` writes,
  -- `get_by_id` raises what `from_events` raises on these events, answers None if it gives a deleted
  -- task, and otherwise answers the task that it gives, but for `created_at` and `updated_at`.
  pub get_by_id_loads :
      (id : String) (r : TaskRepository)
      → lookup id r.cache ≡ none
      → r.session.aborted ≡ false
      → stream id r.session.rows ≢ []
      → Numbered id 0 (stream id r.session.rows)
      → SameLoad (from_events (stream id r.session.rows)) (get_by_id clock id r).0
  unfolding get_by_id get_cached
  get_by_id_loads id r missing sound ne num =
      let path =
        ap (λ o. get_cached clock id o r) missing
        ∙ ap (λ p. continue p.0 (load id) (record r { session = p.1 }))
            (get_events-stream iso clock id r.session sound num) in
      subst (λ p. SameLoad (from_events (stream id r.session.rows)) p.0) (sym path)
        (load-SameLoad id r ne (SameData-reload 0 (stream id r.session.rows)))

  loaded_inv :
      (b : TaskAggregate) (y : Result Error (Option TaskAggregate))
      → b.state.is_deleted ≡ false
      → SameLoad (ok b) y
      → (a : TaskAggregate) × (y ≡ ok (some a)) × SameTask a b
  loaded_inv b (ok (some a)) live h = (a, refl, h.0)
  loaded_inv b (ok none) live h = absurd (cc (h, live))
  loaded_inv b (err x) live h = elim h [ ]

  -- Take a task that its stored events, numbered from 1 without a gap, rebuild, and what commands
  -- that returned have made of it, with at least one new event and not deleted. If `save` returns,
  -- with no version expected, and `fromisoformat` reads what `isoformat` writes, a repository with
  -- nothing in its cache then answers this task for its id, all its events committed, but for
  -- `created_at` and `updated_at`.
  pub get_by_id-save :
      (id : String) (start a : TaskAggregate) (r r' : TaskRepository)
      → Numbered id 0 (stream id r.session.rows)
      → replay apply_event (stream id r.session.rows) (new_aggregate id) ≡ (ok tt, start)
      → IsSourced apply_event start a
      → a.uncommitted ≢ []
      → a.state.is_deleted ≡ false
      → save a none r ≡ (ok tt, r')
      → (b : TaskAggregate) × ((get_by_id clock id (record r' { cache = [] })).0 ≡ ok (some b))
        × SameTask b (committed a)
  get_by_id-save id start a r r' num rep s ne live h =
      let old = stream id r.session.rows in
      let (v, i) =
        replay-version apply_event id 0 old (new_aggregate id) start num
          (unfold new_aggregate in refl) rep in
      let from_id : start.aggregate_id ≡ id = i ∙ (unfold new_aggregate in refl) in
      let same_id : a.aggregate_id ≡ id = s.same_id ∙ from_id in
      let (z, saved) = save_inv a none r r' ne h in
      let (_, rows, sound) = save_events_appends a.aggregate_id a.uncommitted z _ _ ne saved in
      let grown : stream id r'.session.rows ≡ old ++ a.uncommitted =
        ap (stream id) (rows ∙ ap (λ j. r.session.rows ++ rows_of j a.uncommitted) same_id)
        ∙ (stream-append id r.session.rows (rows_of id a.uncommitted)
            ∙ ap (λ l. old ++ l) (stream-rows_of id a.uncommitted)) in
      let whole : Numbered id 0 (old ++ a.uncommitted) =
        Numbered-join id 0 start.version old a.uncommitted v num (rw from_id at s.numbered) in
      let some_left : old ++ a.uncommitted ≢ [] = append_ne_nil old a.uncommitted ne in
      let loaded =
        get_by_id_loads id (record r' { cache = [] }) (unfold lookup in refl) sound
          (rw grown some_left) (rw grown whole) in
      loaded_inv (committed a) _ live (
        subst (λ x. SameLoad x (get_by_id clock id (record r' { cache = [] })).0)
          (ap from_events grown ∙ from_events-history id old start a num rep s some_left) loaded)
