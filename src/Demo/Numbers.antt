-- ===== src/Demo/Numbers.antt =====
-- The uncommitted events of a task of the demo program are numbered on from its version.
use taskforge_platform.Common.{
  ℕ, ◌+◌, ◌≡◌, refl, sym, ap, ◌∙◌, subst, arith, Bool, true, false, String, Option, none, some,
  List, [], ◌∷◌, ◌++◌, length, length-append, if◌then◌else◌,
}
use taskforge_platform.Common.Result.{⊤, Result, ok, err}
use taskforge_platform.Common.Method.{Method, continue, pure, ◌>>◌}
use taskforge_platform.Task.Status.{TaskStatus, parse}
use taskforge_platform.Task.Status.Priority.{TaskPriority}
use taskforge_platform.Task.Status.Priority
use taskforge_platform.Demo.{
  ValueError, EventData, created, assigned, status_changed, DomainEvent, TaskAggregate,
  with_priority, apply_event, raise_event, create, assign, same_assignee, change_to, change_status,
  can_transition_to,
}

-- One call of a method that may add an event.
pub data Command : Type 0 where
  create_task : String → String → Command
  assign_task : Option String → Command
  change_task : String → Command

unfoldable pub perform : Command → Method TaskAggregate ValueError ⊤
unfolding create assign change_status
perform (create_task title priority) = create title priority
perform (assign_task new) = assign new
perform (change_task text) = change_status text

-- Calls one after the other, up to one that raises.
unfoldable pub perform_all : List Command → Method TaskAggregate ValueError ⊤
unfolding perform
perform_all [] = pure tt
perform_all (c ∷ cs) = perform c >> perform_all cs

-- Events of one task, numbered from `n + 1`.
abbrev pub Numbered : String → ℕ → List DomainEvent → Type 0
Numbered id n [] = Unit
Numbered id n (e ∷ es) = (e.aggregate_id ≡ id) × (e.version ≡ n + 1) × Numbered id (n + 1) es

Numbered-append :
    (id : String) (n : ℕ) (es : List DomainEvent) (e : DomainEvent)
    → Numbered id n es
    → e.aggregate_id ≡ id
    → e.version ≡ n + length es + 1
    → Numbered id n (es ++ e ∷ [])
Numbered-append id n [] e h i v = (i, omega (arith, v), tt)
Numbered-append id n (f ∷ es) e (h, k, hs) i v =
    (h, k, Numbered-append id (n + 1) es e hs i (omega (arith, v)))

-- The uncommitted events of a task that was at version `n`.
abbrev pub IsLog : String → ℕ → TaskAggregate → Type 0
IsLog id n a =
    (a.aggregate_id ≡ id) × Numbered id n a.uncommitted × (a.version ≡ n + length a.uncommitted)

-- `_apply` changes no event and no id, and moves the version if it returns.
abbrev Applied : DomainEvent → TaskAggregate → Result ValueError ⊤ × TaskAggregate → Type 0
Applied e a (ok _, b) =
    (b.aggregate_id ≡ a.aggregate_id) × (b.uncommitted ≡ a.uncommitted) × (b.version ≡ e.version)
Applied e a (err x, b) =
    (b.aggregate_id ≡ a.aggregate_id) × (b.uncommitted ≡ a.uncommitted) × (b.version ≡ a.version)

with_priority-Applied :
    (e : DomainEvent) (text title : String) (o : Option TaskPriority) (a : TaskAggregate)
    → Applied e a (with_priority text e.version o (record a { title = title }))
with_priority-Applied e text title none a = (refl, refl, refl)
with_priority-Applied e text title (some p) a = (refl, refl, refl)

apply_event-Applied :
    (d : EventData) (id : String) (n : ℕ) (a : TaskAggregate)
    → let e : DomainEvent = record { aggregate_id = id; version = n; body = d } in
      Applied e a (apply_event e a)
unfolding apply_event
apply_event-Applied (created title priority) id n a =
    with_priority-Applied (record { aggregate_id = id; version = n; body = created title priority })
      priority title (Priority.parse priority) a
apply_event-Applied (assigned new) id n a = (refl, refl, refl)
apply_event-Applied (status_changed s) id n a = (refl, refl, refl)

raise_event-IsLog :
    (d : EventData) (id : String) (n : ℕ) (a : TaskAggregate)
    → IsLog id n a
    → IsLog id n (raise_event d a).1
unfolding raise_event
raise_event-IsLog d id n a (i, l, v) =
    go (apply_event e a).0 (apply_event e a).1
      (apply_event-Applied d a.aggregate_id (a.version + 1) a)
  where
    e : DomainEvent
    e = record { aggregate_id = a.aggregate_id; version = a.version + 1; body = d }

    go :
        (r : Result ValueError ⊤) (b : TaskAggregate)
        → Applied e a (r, b)
        → IsLog id n (elim r as (λ _. TaskAggregate) [
          | ok _ ↦ record b { uncommitted = b.uncommitted ++ e ∷ [] }
          | err x ↦ b
        ])
    go (ok _) b (same, kept, moved) =
        let grown : length (a.uncommitted ++ e ∷ []) ≡ length a.uncommitted + 1 =
          length-append a.uncommitted (e ∷ []) in
        (
          same ∙ i,
          subst (λ l. Numbered id n (l ++ e ∷ [])) (sym kept)
              (Numbered-append id n a.uncommitted e l i (omega (arith, v))),
          moved
              ∙ (ap (λ k. k + 1) v
                  ∙ (omega (arith, grown) ∙ ap (λ l. n + length (l ++ e ∷ [])) (sym kept))),
        )
    go (err x) b (same, kept, moved) = (
      same ∙ i,
      subst (Numbered id n) (sym kept) l,
      moved ∙ (v ∙ ap (λ l. n + length l) (sym kept)),
    )

IsLog-if :
    (id : String) (n : ℕ) (b : Bool) (p q : Result ValueError ⊤ × TaskAggregate)
    → IsLog id n p.1
    → IsLog id n q.1
    → IsLog id n (if b then p else q).1
IsLog-if id n true p q h k = h
IsLog-if id n false p q h k = k

change_to-IsLog :
    (id : String) (n : ℕ) (text : String) (o : Option TaskStatus) (a : TaskAggregate)
    → IsLog id n a
    → IsLog id n (change_to text o a).1
unfolding change_to
change_to-IsLog id n text none a h = h
change_to-IsLog id n text (some target) a h =
    IsLog-if id n (can_transition_to a.status target) (raise_event (status_changed target) a) _
      (raise_event-IsLog (status_changed target) id n a h) h

perform-IsLog :
    (c : Command) (id : String) (n : ℕ) (a : TaskAggregate)
    → IsLog id n a
    → IsLog id n (perform c a).1
unfolding perform create assign change_status
perform-IsLog (create_task title priority) id n a h =
    raise_event-IsLog (created title priority) id n a h
perform-IsLog (assign_task new) id n a h =
    IsLog-if id n (same_assignee a.assignee_id new) (ok tt, a) (raise_event (assigned new) a) h
      (raise_event-IsLog (assigned new) id n a h)
perform-IsLog (change_task text) id n a h = change_to-IsLog id n text (parse text) a h

pub perform_all-IsLog :
    (cs : List Command) (id : String) (n : ℕ) (a : TaskAggregate)
    → IsLog id n a
    → IsLog id n (perform_all cs a).1
unfolding perform_all
perform_all-IsLog [] id n a h = h
perform_all-IsLog (c ∷ cs) id n a h =
    go (perform c a).0 (perform c a).1 (perform-IsLog c id n a h) (λ b. perform_all-IsLog cs id n b)
  where
    go :
        (r : Result ValueError ⊤) (b : TaskAggregate)
        → IsLog id n b
        → ((x : TaskAggregate) → IsLog id n x → IsLog id n (perform_all cs x).1)
        → IsLog id n (continue r (λ _. perform_all cs) b).1
    go (ok _) b k ih = ih b k
    go (err x) b k ih = k
