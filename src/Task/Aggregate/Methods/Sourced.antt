-- ===== src/Task/Aggregate/Methods/Sourced.antt =====
-- A task is what its events say: what the commands raise, replayed by `from_events`, gives the
-- task back.
use taskforge_platform.Common.{
  Bool, String, ◌≡◌, ◌≢◌, refl, sym, ◌∙◌, inl, inr, arith, List, [], ◌∷◌, ◌++◌, subst, ap, Runtime,
}
use taskforge_platform.Common.Result.{ok}
use taskforge_platform.EventSourcing.{events_frozen, raise_event, replay}
use taskforge_platform.EventSourcing.Replay.{
  Numbered, Numbered-join, sort-Numbered, replay-append, replay-version, IsSourced, IsSourced-refl,
  raise_event-IsSourced,
}
use taskforge_platform.Task.Errors.{frozen_instance}
use taskforge_platform.Task.Commands.{CreateTaskCommand}
use taskforge_platform.Task.Events.{TaskEvent, TaskEventData}
use taskforge_platform.Task.Aggregate.{TaskAggregate, new_aggregate, apply_event}
use taskforge_platform.Task.Aggregate.Methods.{
  Fresh, new_event, emit, create, created_event, rebuild, from_events,
}
use taskforge_platform.Task.Aggregate.Methods.Commands.{Command, execute, execute-Emits}

-- The aggregate with its events written to the store.
abbrev pub committed : TaskAggregate → TaskAggregate
committed a = record a { uncommitted = [] }

module _ ⦃rt : Runtime⦄ where
  emit-IsSourced :
      (frozen : Bool) (f : Fresh) (b : TaskEventData) (start a a' : TaskAggregate)
      → IsSourced apply_event start a
      → emit frozen f b a ≡ (ok tt, a')
      → IsSourced apply_event start a'
  unfolding emit
  emit-IsSourced frozen f b start a a' s h =
      raise_event-IsSourced apply_event frozen frozen_instance (new_event f a.aggregate_id b) start
        a a' s h

  emit_frozen :
      (f : Fresh) (b : TaskEventData) (a : TaskAggregate) → (emit events_frozen f b a).1 ≡ a
  unfolding emit raise_event events_frozen
  emit_frozen f b a = refl

  -- If the uncommitted events of a task carry the id and the versions that follow those of a start,
  -- without a gap, and replayed on the start they give the task, then so it is after a command that
  -- returns.
  pub execute-IsSourced :
      (frozen : Bool) (f : Fresh) (c : Command) (start a a' : TaskAggregate)
      → IsSourced apply_event start a
      → execute frozen f c a ≡ (ok tt, a')
      → IsSourced apply_event start a'
  execute-IsSourced frozen f c start a a' s h = elim (execute-Emits frozen f c a) [
    | inl same ↦ subst (IsSourced apply_event start) (sym same ∙ ap (λ r. r.1) h) s
    | inr (b, _, e) ↦ emit-IsSourced frozen f b start a a' s (sym e ∙ h)
  ]

  pub create_inv :
      (frozen : Bool) (f : Fresh) (id : String) (c : CreateTaskCommand) (a : TaskAggregate)
      → create frozen f id c ≡ ok a
      → emit frozen f (created_event frozen f c) (new_aggregate id) ≡ (ok tt, a)
  unfolding create
  create_inv frozen f id c a h = ground arith

  -- The events of a task that `create` returns carry its id and are numbered from 1 without a gap up
  -- to its version, and replayed on the empty task they give it.
  pub create-IsSourced :
      (frozen : Bool) (f : Fresh) (id : String) (c : CreateTaskCommand) (a : TaskAggregate)
      → create frozen f id c ≡ ok a
      → IsSourced apply_event (new_aggregate id) a
  create-IsSourced frozen f id c a h =
      emit-IsSourced frozen f (created_event frozen f c) (new_aggregate id) (new_aggregate id) a
        (IsSourced-refl apply_event (new_aggregate id) (unfold new_aggregate in refl))
        (create_inv frozen f id c a h)

  rebuild-replay :
      (es : List TaskEvent) (a b : TaskAggregate)
      → replay apply_event es a ≡ (ok tt, b)
      → rebuild es a ≡ ok b
  unfolding rebuild
  rebuild-replay es a b h = ground arith

  from_events-Numbered :
      (id : String) (e : TaskEvent) (es : List TaskEvent)
      → Numbered id 0 (e ∷ es)
      → from_events (e ∷ es) ≡ rebuild (e ∷ es) (new_aggregate id)
  unfolding from_events
  from_events-Numbered id e es h = rw (sort-Numbered id 0 (e ∷ es) h, h.1) refl

  from_stream :
      (id : String) (es : List TaskEvent) (b : TaskAggregate)
      → es ≢ []
      → Numbered id 0 es
      → replay apply_event es (new_aggregate id) ≡ (ok tt, b)
      → from_events es ≡ ok b
  from_stream id [] b ne n r = absurd (ne refl)
  from_stream id (e ∷ es) b ne n r =
      from_events-Numbered id e es n ∙ rebuild-replay (e ∷ es) (new_aggregate id) b r

  -- Take events `h` of the store, numbered from 1 without a gap, that rebuild a task, and a task
  -- whose uncommitted events, numbered on, take that task to it. With these behind `h`, at least one
  -- event in all, `from_events` gives this task again, all its events committed.
  pub from_events-history :
      (id : String) (h : List TaskEvent) (start a : TaskAggregate)
      → Numbered id 0 h
      → replay apply_event h (new_aggregate id) ≡ (ok tt, start)
      → IsSourced apply_event start a
      → h ++ a.uncommitted ≢ []
      → from_events (h ++ a.uncommitted) ≡ ok (committed a)
  from_events-history id h start a n r s ne =
      let (v, i) =
        replay-version apply_event id 0 h (new_aggregate id) start n (unfold new_aggregate in refl)
          r in
      let from_id : start.aggregate_id ≡ id = i ∙ (unfold new_aggregate in refl) in
      from_stream id (h ++ a.uncommitted) (committed a) ne
        (Numbered-join id 0 start.version h a.uncommitted v n (rw from_id at s.numbered))
        (replay-append apply_event h a.uncommitted (new_aggregate id) start r ∙ s.rebuilt)

  -- With the decorator as it is in the source, frozen events, no command changes a task.
  pub execute_frozen :
      (f : Fresh) (c : Command) (a : TaskAggregate) → (execute events_frozen f c a).1 ≡ a
  execute_frozen f c a = elim (execute-Emits events_frozen f c a) [
    | inl same ↦ same
    | inr (b, _, e) ↦ rw e (emit_frozen f b a)
  ]
