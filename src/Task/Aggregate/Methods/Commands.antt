-- ===== src/Task/Aggregate/Methods/Commands.antt =====
-- The five commands on an existing task as one function, and what they have in common: a command
-- leaves the aggregate as it was, or it is one call of `raise_event`.
use taskforge_platform.Common.{
  Bool, true, false, not, String, Option, ◌≡◌, refl, ◌⊎◌, inl, inr, is_nil, Bool-cases, Runtime,
}
use taskforge_platform.Common.Result.{Result, ok, err, OnOk-use}
use taskforge_platform.Common.Method.{lift, when, ◌>>=◌, ◌>>◌}
use taskforge_platform.Task.Errors.{Error}
use taskforge_platform.Task.Status.{TaskStatus, status_eq, can_transition_to}
use taskforge_platform.Task.Status.Priority.{TaskPriority, priority_eq}
use taskforge_platform.Task.Commands.{
  UpdateTaskCommand, AssignTaskCommand, DeleteTaskCommand, validate_update, validate_assign,
  validate_delete,
}
use taskforge_platform.Task.Events.{
  TaskEventData, created, updated, assigned, status_changed, priority_changed, deleted,
}
use taskforge_platform.Task.Aggregate.Methods.Changes.{
  AllowedChange, collect_changes_allowed, transition_allowed,
}
use taskforge_platform.Task.Status
use taskforge_platform.Task.Aggregate.{TaskAggregate}
use taskforge_platform.Task.Aggregate.Methods.{
  Fresh, Call, validate_not_deleted, validate_status_transition, collect_changes, emit, update,
  assign, change_status, change_priority, delete,
}

pub data Command : Type 0 where
  to_update : UpdateTaskCommand → Command
  to_assign : AssignTaskCommand → Command
  to_change_status : TaskStatus → String → Option String → Command
  to_change_priority : TaskPriority → String → Command
  to_delete : DeleteTaskCommand → Command

-- What the commands see to when they build an event for a task in status `s`: a change of status is
-- an allowed transition, and no second `task.created` is raised.
abbrev pub IsLawful : TaskStatus → TaskEventData → Type 0
IsLawful s (created e) = ⊥
IsLawful s (updated e) = AllowedChange s e.field_changes
IsLawful s (assigned e) = Unit
IsLawful s (status_changed e) =
    (t : TaskStatus) × (e.new_status ≡ Status.value t) × (can_transition_to s t ≡ true)
IsLawful s (priority_changed e) = Unit
IsLawful s (deleted e) = Unit

module _ ⦃rt : Runtime⦄ (frozen : Bool) (f : Fresh) where
  unfoldable pub execute : Command → Call
  execute (to_update c) = update frozen f c
  execute (to_assign c) = assign frozen f c
  execute (to_change_status s by reason) = change_status frozen f s by reason
  execute (to_change_priority p by) = change_priority frozen f p by
  execute (to_delete c) = delete frozen f c

  -- The call at `a` changes nothing, or is the call of `raise_event` with some lawful event.
  abbrev pub Emits : Call → TaskAggregate → Type 0
  Emits m a =
      ((m a).1 ≡ a) ⊎ ((b : TaskEventData) × IsLawful a.state.status b × (m a ≡ emit frozen f b a))

  Emits-lift :
      {A : Type 0} (r : Result Error A) (k : A → Call) (a : TaskAggregate)
      → ((x : A) → r ≡ ok x → Emits (k x) a)
      → Emits (lift r >>= k) a
  Emits-lift (ok x) k a h = h x refl
  Emits-lift (err e) k a h = inl refl

  Emits-check : (k : Call) (a : TaskAggregate) → Emits k a → Emits (validate_not_deleted >> k) a
  unfolding validate_not_deleted
  Emits-check k a h = elim (Bool-cases a.state.is_deleted) [
    | inl d ↦ inl (simp d)
    | inr d ↦ simp d h
  ]

  Emits-when :
      (t : Bool) (b : TaskEventData) (a : TaskAggregate)
      → IsLawful a.state.status b
      → Emits (when t (emit frozen f b)) a
  Emits-when true b a l = inr (b, l, refl)
  Emits-when false b a l = inl refl

  -- Every command leaves the aggregate as it was or is one call of `raise_event`.
  pub execute-Emits : (c : Command) (a : TaskAggregate) → Emits (execute c) a
  unfolding execute update assign change_status change_priority delete
  execute-Emits (to_update c) a = Emits-lift (validate_update c) _ a (λ _ _. Emits-check _ a (
      Emits-lift (collect_changes a.state c) _ a
        (λ d e. Emits-when (not (is_nil d)) _ a (collect_changes_allowed a.state c d e))))
  execute-Emits (to_assign c) a =
      Emits-lift (validate_assign c) _ a (λ _ _. Emits-check _ a (Emits-when _ _ a tt))
  execute-Emits (to_change_status s by reason) a = Emits-check _ a (
      Emits-lift (validate_status_transition a.state.status s) _ a
        (λ _ e. Emits-when _ _ a (s, refl, OnOk-use _ e (transition_allowed a.state.status s))))
  execute-Emits (to_change_priority p by) a = Emits-check _ a (Emits-when _ _ a tt)
  execute-Emits (to_delete c) a =
      Emits-lift (validate_delete c) _ a (λ _ _. Emits-check _ a (inr (_, tt, refl)))
