-- ===== src/Persistence/Reads/Streams.antt =====
-- What `get_events` answers on the stream of one aggregate.
use taskforge_platform.Common.{
  ℕ, ◌+◌, ◌≡◌, refl, ap, ◌∙◌, arith, false, String, some, List, [], ◌∷◌, ◌++◌, ◌==◌, str_eq, eq_iff,
  if◌then◌else◌, Bool-cases, inl, inr, Runtime, Datetime,
}
use taskforge_platform.Common.Result.{ok}
use taskforge_platform.EventSourcing.{DomainEvent}
use taskforge_platform.EventSourcing.Replay.{Numbered, sort-Numbered}
use taskforge_platform.Task.Events.{
  TaskEventData, created, updated, assigned, status_changed, priority_changed, deleted, TaskEvent,
  event_type,
}
use taskforge_platform.Task.Events.Serial.{class_of}
use taskforge_platform.Task.Events.Serial.Reload.{reloaded, from_dict-to_dict}
use taskforge_platform.Persistence.Store.Writes.{rows_of}
use taskforge_platform.Persistence.Store.{Row, Session}
use taskforge_platform.Persistence.Reads.{
  registry, select_events, ok_or_none, deserialize_as, deserialize_event, deserialize_all,
  get_events,
}

-- The events of an aggregate, in the order of the table.
abbrev pub stream : {B : Type 0} → String → List (Row B) → List (DomainEvent B)
stream id [] = []
stream id (r ∷ rs) =
    let rest = stream id rs in if r.stored_under == id then r.event ∷ rest else rest

module _ {B : Type 0} (id : String) where
  pub stream-append : (rs ss : List (Row B)) → stream id (rs ++ ss) ≡ stream id rs ++ stream id ss
  stream-append [] ss = refl
  stream-append (r ∷ rs) ss = elim (Bool-cases (r.stored_under == id)) [
    | inl mine ↦ rw (mine, stream-append rs ss) refl
    | inr other ↦ rw (other, stream-append rs ss) refl
  ]

  pub stream-rows_of : (es : List (DomainEvent B)) → stream id (rows_of id es) ≡ es
  stream-rows_of [] = refl
  stream-rows_of (e ∷ es) = rw ((eq_iff id id).1 refl, stream-rows_of es) refl

registry-event_type : (b : TaskEventData) → registry (event_type b) ≡ some (class_of b)
unfolding registry event_type
registry-event_type (created e) = refl
registry-event_type (updated e) = refl
registry-event_type (assigned e) = refl
registry-event_type (status_changed e) = refl
registry-event_type (priority_changed e) = refl
registry-event_type (deleted e) = refl

select_events-stream :
    (id : String) (n : ℕ) (rs : List (Row TaskEventData))
    → Numbered id n (stream id rs)
    → select_events id 0 rs ≡ stream id rs
unfolding select_events
select_events-stream id n [] h = refl
select_events-stream id n (r ∷ rs) h = elim (Bool-cases (r.stored_under == id)) [
  | inl mine ↦
      let num = rw mine at h in
      rw (mine, select_events-stream id (n + 1) rs num.2) (ground (arith, num.0))
  | inr other ↦ rw other (select_events-stream id n rs (rw other at h))
]

module _ ⦃rt : Runtime⦄ (iso : (d : Datetime) → rt.fromisoformat (rt.isoformat d) ≡ some d)
    (clock : ℕ → Datetime) where
  deserialize_event-reloaded :
      (now : Datetime) (e : TaskEvent) → deserialize_event now e ≡ some (reloaded now e)
  unfolding deserialize_event deserialize_as
  deserialize_event-reloaded now e =
      ap (λ o. deserialize_as o now e) (registry-event_type e.body)
      ∙ ap ok_or_none (from_dict-to_dict iso now e)

  -- The events as the query reads them back, from its n-th row on.
  abbrev pub reload : ℕ → List TaskEvent → List TaskEvent
  reload n [] = []
  reload n (e ∷ es) = reloaded (clock n) e ∷ reload (n + 1) es

  deserialize_all-reload : (n : ℕ) (es : List TaskEvent) → deserialize_all clock n es ≡ reload n es
  unfolding deserialize_all
  deserialize_all-reload n [] = refl
  deserialize_all-reload n (e ∷ es) =
      rw (deserialize_event-reloaded (clock n) e, deserialize_all-reload (n + 1) es) refl

  -- If `fromisoformat` reads what `isoformat` writes, the stored events of an aggregate are numbered
  -- from 1 without a gap and the transaction has not failed, `get_events` answers all of them, none
  -- of another aggregate, in order, each as it is read back, and leaves the session alone.
  pub get_events-stream :
      (id : String) (s : Session TaskEventData)
      → s.aborted ≡ false
      → Numbered id 0 (stream id s.rows)
      → get_events clock id 0 s ≡ (ok (reload 0 (stream id s.rows)), s)
  unfolding get_events
  get_events-stream id s sound num =
      rw
        (
          sound,
          select_events-stream id 0 s.rows num,
          sort-Numbered id 0 (stream id s.rows) num,
          deserialize_all-reload 0 (stream id s.rows),
        )
        refl
