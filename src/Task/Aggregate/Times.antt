-- ===== src/Task/Aggregate/Times.antt =====
-- The state of a task depends on the times of its events only in `created_at` and `updated_at`.
use taskforge_platform.Common.{
  ◌≡◌, refl, sym, ap, ◌∙◌, subst, true, false, Option, none, some, Runtime, Datetime,
}
use taskforge_platform.Common.Dict.{lookup}
use taskforge_platform.Common.Result.{⊤, Result, ok, err, traverse}
use taskforge_platform.Common.Method.{Method, continue, lift, modify, for_some, ◌>>=◌}
use taskforge_platform.Task.Errors.{Error}
use taskforge_platform.Task.Status.{backlog}
use taskforge_platform.Task.Values.{
  label, task_title, task_description, increment_priority_changes, increment_assignee_changes,
}
use taskforge_platform.Task.Events.{
  TaskCreated, TaskUpdated, TaskEventData, created, updated, assigned, status_changed,
  priority_changed, deleted, TaskEvent,
}
use taskforge_platform.Task.Aggregate.{
  Task, user_if, new_text, new_list, to_status, to_priority, to_due_date, apply_created,
  apply_updated, update_title, update_description, update_status, update_priority, update_labels,
  apply_assigned, apply_status_changed, apply_priority_changed, apply_deleted, apply_data,
  apply_event,
}

-- A task without its two times.
abbrev pub timeless : Task → Task
timeless t = record t { created_at = none; updated_at = none }

-- Run on tasks that agree but for the times, two methods end alike and leave such tasks.
pub record IsBlind (A : Type 0) (m m' : Method Task Error A) : Type 0 where
  pub same_result : (t u : Task) → timeless t ≡ timeless u → (m t).0 ≡ (m' u).0
  pub same_task : (t u : Task) → timeless t ≡ timeless u → timeless (m t).1 ≡ timeless (m' u).1

IsBlind-lift : {A : Type 0} (r : Result Error A) → IsBlind A (lift r) (lift r)
IsBlind-lift r = record { same_result = λ t u h. refl; same_task = λ t u h. h }

-- Two updates that come to the same update `g` of the rest of the task.
IsBlind-modify :
    (f f' g : Task → Task)
    → ((t : Task) → timeless (f t) ≡ g (timeless t))
    → ((t : Task) → timeless (f' t) ≡ g (timeless t))
    → IsBlind ⊤ (modify f) (modify f')
IsBlind-modify f f' g p q = record {
  same_result = λ t u h. refl;
  same_task = λ t u h. p t ∙ (ap g h ∙ sym (q u));
}

IsBlind-keep :
    (f : Task → Task)
    → ((t : Task) → timeless (f t) ≡ f (timeless t))
    → IsBlind ⊤ (modify f) (modify f)
IsBlind-keep f p = IsBlind-modify f f f p p

module _ {A B : Type 0} where
  continue_same :
      (k k' : A → Method Task Error B) (r r' : Result Error A) (t u : Task)
      → ((a : A) → IsBlind B (k a) (k' a))
      → r ≡ r'
      → timeless t ≡ timeless u
      → ((continue r k t).0 ≡ (continue r' k' u).0)
        × (timeless (continue r k t).1 ≡ timeless (continue r' k' u).1)
  continue_same k k' (ok a) r' t u b e h = rw (← e) ((b a).same_result t u h, (b a).same_task t u h)
  continue_same k k' (err x) r' t u b e h = rw (← e) (refl, h)

  IsBlind-bind :
      {m m' : Method Task Error A} {k k' : A → Method Task Error B}
      → IsBlind A m m'
      → ((a : A) → IsBlind B (k a) (k' a))
      → IsBlind B (m >>= k) (m' >>= k')
  IsBlind-bind {m} {m'} {k} {k'} b c = record {
    same_result = λ t u h.
        (continue_same k k' (m t).0 (m' u).0 (m t).1 (m' u).1 c (b.same_result t u h)
          (b.same_task t u h)).0;
    same_task = λ t u h.
        (continue_same k k' (m t).0 (m' u).0 (m t).1 (m' u).1 c (b.same_result t u h)
          (b.same_task t u h)).1;
  }

IsBlind-for_some :
    {A : Type 0} (o : Option A) (k : A → Method Task Error ⊤)
    → ((a : A) → IsBlind ⊤ (k a) (k a))
    → IsBlind ⊤ (for_some o k) (for_some o k)
IsBlind-for_some none k b = record { same_result = λ t u h. refl; same_task = λ t u h. h }
IsBlind-for_some (some a) k b = b a

-- A value that may be missing, and a field that takes it.
IsBlind-set :
    {A : Type 0} (r : Result Error A) (f : A → Task → Task)
    → ((a : A) (t : Task) → timeless (f a t) ≡ f a (timeless t))
    → IsBlind ⊤ (lift r >>= λ a. modify (f a)) (lift r >>= λ a. modify (f a))
IsBlind-set r f p = IsBlind-bind (IsBlind-lift r) (λ a. IsBlind-keep (f a) (p a))

module _ ⦃rt : Runtime⦄ (at at' : Datetime) where
  apply_created-IsBlind : (e : TaskCreated) → IsBlind ⊤ (apply_created at e) (apply_created at' e)
  unfolding apply_created
  apply_created-IsBlind e = IsBlind-bind (IsBlind-lift (task_title e.title)) λ title.
      IsBlind-bind (IsBlind-keep (λ t. record t { title = title }) (λ t. refl)) λ _.
        IsBlind-bind (IsBlind-lift (task_description e.description)) λ description.
          IsBlind-bind (IsBlind-keep (λ t. record t { description = description }) (λ t. refl)) λ _.
            IsBlind-bind (IsBlind-lift (to_priority e.priority)) λ priority.
              IsBlind-bind
                (IsBlind-keep
                  (λ t. record t {
                    priority = priority;
                    status = backlog;
                    assignee_id = user_if e.assignee_id;
                    created_by = some (record { value = e.created_by });
                  })
                  (λ t. refl))
                λ _. IsBlind-bind (IsBlind-lift (traverse label e.labels)) λ labels.
                  IsBlind-bind (IsBlind-keep (λ t. record t { labels = labels }) (λ t. refl)) λ _.
                    IsBlind-bind (IsBlind-lift (to_due_date e.due_date)) λ due.
                      IsBlind-modify
                        (λ t. record t {
                          due = due;
                          created_at = some at;
                          updated_at = some at;
                          is_deleted = false;
                        })
                        (λ t. record t {
                          due = due;
                          created_at = some at';
                          updated_at = some at';
                          is_deleted = false;
                        })
                        (λ t. record t { due = due; is_deleted = false }) (λ t. refl) (λ t. refl)

  touch-IsBlind :
      IsBlind ⊤
        (modify (λ t. record t { updated_at = some at }))
        (modify (λ t. record t { updated_at = some at' }))
  touch-IsBlind =
      IsBlind-modify (λ t. record t { updated_at = some at })
        (λ t. record t { updated_at = some at' }) (λ t. t) (λ t. refl) (λ t. refl)

  apply_updated-IsBlind : (e : TaskUpdated) → IsBlind ⊤ (apply_updated at e) (apply_updated at' e)
  unfolding apply_updated update_title update_description update_status update_priority
      update_labels
  apply_updated-IsBlind e =
      IsBlind-bind
        (IsBlind-for_some (lookup "title" e.field_changes) _ λ c.
          IsBlind-bind (IsBlind-lift (new_text c))
            λ s. IsBlind-set (task_title s) (λ a t. record t { title = a }) (λ a t. refl))
        λ _.
          IsBlind-bind
            (IsBlind-for_some (lookup "description" e.field_changes) _ λ c.
              IsBlind-bind (IsBlind-lift (new_text c)) λ s.
                IsBlind-set (task_description s) (λ a t. record t { description = a })
                  (λ a t. refl))
            λ _.
              IsBlind-bind
                (IsBlind-for_some (lookup "status" e.field_changes) _ λ c.
                  IsBlind-bind (IsBlind-lift (new_text c))
                    λ s. IsBlind-set (to_status s) (λ a t. record t { status = a }) (λ a t. refl))
                λ _.
                  IsBlind-bind
                    (IsBlind-for_some (lookup "priority" e.field_changes) _ λ c.
                      IsBlind-bind (IsBlind-lift (new_text c)) λ s.
                        IsBlind-set (to_priority s)
                          (λ a t. record t {
                            priority = a;
                            metadata = increment_priority_changes t.metadata;
                          })
                          (λ a t. refl))
                    λ _.
                      IsBlind-bind
                        (IsBlind-for_some (lookup "labels" e.field_changes) _ λ c.
                          IsBlind-set (traverse label (new_list c)) (λ a t. record t { labels = a })
                            (λ a t. refl))
                        λ _. touch-IsBlind

  apply_data-IsBlind : (b : TaskEventData) → IsBlind ⊤ (apply_data at b) (apply_data at' b)
  unfolding apply_data apply_assigned apply_status_changed apply_priority_changed apply_deleted
  apply_data-IsBlind (created e) = apply_created-IsBlind e
  apply_data-IsBlind (updated e) = apply_updated-IsBlind e
  apply_data-IsBlind (assigned e) =
      IsBlind-modify
        (λ t. record t {
          assignee_id = some (record { value = e.new_assignee_id });
          metadata = increment_assignee_changes t.metadata;
          updated_at = some at;
        })
        (λ t. record t {
          assignee_id = some (record { value = e.new_assignee_id });
          metadata = increment_assignee_changes t.metadata;
          updated_at = some at';
        })
        (λ t. record t {
          assignee_id = some (record { value = e.new_assignee_id });
          metadata = increment_assignee_changes t.metadata;
        })
        (λ t. refl) (λ t. refl)
  apply_data-IsBlind (status_changed e) = IsBlind-bind (IsBlind-lift (to_status e.new_status)) λ s.
      IsBlind-modify (λ t. record t { status = s; updated_at = some at })
        (λ t. record t { status = s; updated_at = some at' }) (λ t. record t { status = s })
        (λ t. refl) (λ t. refl)
  apply_data-IsBlind (priority_changed e) =
      IsBlind-bind (IsBlind-lift (to_priority e.new_priority)) λ p.
        IsBlind-modify
          (λ t. record t {
            priority = p;
            metadata = increment_priority_changes t.metadata;
            updated_at = some at;
          })
          (λ t. record t {
            priority = p;
            metadata = increment_priority_changes t.metadata;
            updated_at = some at';
          })
          (λ t. record t { priority = p; metadata = increment_priority_changes t.metadata })
          (λ t. refl) (λ t. refl)
  apply_data-IsBlind (deleted e) =
      IsBlind-modify (λ t. record t { is_deleted = true; updated_at = some at })
        (λ t. record t { is_deleted = true; updated_at = some at' })
        (λ t. record t { is_deleted = true }) (λ t. refl) (λ t. refl)

-- So it is with events of the same data.
pub apply_event-IsBlind :
    ⦃rt : Runtime⦄ (e f : TaskEvent) → e.body ≡ f.body → IsBlind ⊤ (apply_event e) (apply_event f)
unfolding apply_event
apply_event-IsBlind e f same =
    subst (λ b. IsBlind ⊤ (apply_data e.occurred_at e.body) (apply_data f.occurred_at b)) same
      (apply_data-IsBlind e.occurred_at f.occurred_at e.body)
