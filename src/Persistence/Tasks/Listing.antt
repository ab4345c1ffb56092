-- ===== src/Persistence/Tasks/Listing.antt =====
-- What `list_tasks` answers.
use taskforge_platform.Common.{
  ℕ, ◌+◌, ◌*◌, ◌≤◌, ◌<◌, ◌≡◌, refl, subst, arith, Bool, true, false, not, ◌&&◌, ◌||◌, ◌⊎◌, ◌==◌,
  str_eq, eq_iff, is_empty, String, Option, none, some, List, [], ◌∷◌, leb, ltb, length,
  length-append, All, All-append, Bool-cases, inl, inr, if◌then◌else◌, Runtime, Datetime,
}
use taskforge_platform.Common.Dict.{values}
use taskforge_platform.Common.Result.{Result, ok, err}
use taskforge_platform.Common.Method.{pure, >>=-eq-ok}
use taskforge_platform.Task.Errors.{Error}
use taskforge_platform.Task.Status
use taskforge_platform.Task.Values.{UserId}
use taskforge_platform.Task.Events.{TaskEvent}
use taskforge_platform.Task.Aggregate.{TaskAggregate}
use taskforge_platform.Task.Aggregate.Methods.{from_events}
use taskforge_platform.Persistence.Reads.{get_all_events}
use taskforge_platform.Persistence.Tasks.{
  TaskRepository, stored_call, wanted, is_assignee, passes, group_events, add_listed, collect_tasks,
  list_tasks,
}

and_inv : (b c : Bool) → (b && c) ≡ true → (b ≡ true) × (c ≡ true)
and_inv b c h = ground arith

or_inv : (b c : Bool) → (b || c) ≡ true → (b ≡ true) ⊎ (c ≡ true)
or_inv true c h = inl refl
or_inv false c h = inr h

not_inv : (b : Bool) → not b ≡ true → b ≡ false
not_inv b h = ground arith

-- The task has the status asked for; an empty text asks for none.
abbrev pub HasStatus : Option String → TaskAggregate → Type 0
HasStatus none a = Unit
HasStatus (some s) a = (s ≡ "") ⊎ (Status.value a.state.status ≡ s)

-- The task has an assignee with the id asked for; an empty text asks for none.
abbrev pub HasAssignee : Option String → TaskAggregate → Type 0
HasAssignee none a = Unit
HasAssignee (some s) a = (s ≡ "") ⊎ ((u : UserId) × (a.state.assignee_id ≡ some u) × (u.value ≡ s))

-- What a listed task was asked for.
abbrev pub Passes : Option String → Option String → TaskAggregate → Type 0
Passes status assignee a =
    (a.state.is_deleted ≡ false) × HasStatus status a × HasAssignee assignee a

is_empty_inv : (s : String) → is_empty s ≡ true → s ≡ ""
is_empty_inv String.[] h = refl
is_empty_inv (String.◌∷◌ c s) h = cc h

passes-HasStatus :
    (o : Option String) (a : TaskAggregate)
    → wanted o (λ s. Status.value a.state.status == s) ≡ true
    → HasStatus o a
passes-HasStatus none a h = tt
passes-HasStatus (some s) a h = elim (or_inv (is_empty s) _ h) [
  | inl empty ↦ inl (is_empty_inv s empty)
  | inr same ↦ inr ((eq_iff (Status.value a.state.status) s).0 same)
]

is_assignee_inv :
    (o : Option UserId) (s : String)
    → is_assignee o s ≡ true
    → (u : UserId) × (o ≡ some u) × (u.value ≡ s)
is_assignee_inv none s h = cc h
is_assignee_inv (some u) s h = (u, refl, (eq_iff u.value s).0 h)

passes-HasAssignee :
    (o : Option String) (a : TaskAggregate)
    → wanted o (λ s. is_assignee a.state.assignee_id s) ≡ true
    → HasAssignee o a
passes-HasAssignee none a h = tt
passes-HasAssignee (some s) a h = elim (or_inv (is_empty s) _ h) [
  | inl empty ↦ inl (is_empty_inv s empty)
  | inr same ↦ inr (is_assignee_inv a.state.assignee_id s same)
]

passes-Passes :
    (status assignee : Option String) (a : TaskAggregate)
    → passes status assignee a ≡ true
    → Passes status assignee a
unfolding passes
passes-Passes status assignee a h =
    let (live, rest) = and_inv (not a.state.is_deleted) _ h in
    let (s, u) = and_inv (wanted status (λ s. Status.value a.state.status == s)) _ rest in
    (not_inv a.state.is_deleted live, passes-HasStatus status a s, passes-HasAssignee assignee a u)

module _ ⦃rt : Runtime⦄ (status assignee : Option String) where
  add_listed-Passes :
      (x : Result Error TaskAggregate) (tasks : List TaskAggregate)
      → All (Passes status assignee) tasks
      → All (Passes status assignee) (add_listed status assignee x tasks)
  unfolding add_listed
  add_listed-Passes (err x) tasks h = h
  add_listed-Passes (ok a) tasks h = elim (Bool-cases (passes status assignee a)) [
    | inl yes_ ↦ simp yes_ (
        All-append (Passes status assignee) tasks (a ∷ []) h
          (passes-Passes status assignee a yes_, tt))
    | inr no_ ↦ simp no_ h
  ]

  length-add_listed :
      (x : Result Error TaskAggregate) (tasks : List TaskAggregate)
      → length (add_listed status assignee x tasks) ≤ length tasks + 1
  unfolding add_listed
  length-add_listed (err x) tasks = omega arith
  length-add_listed (ok a) tasks = ground (arith, length-append tasks (a ∷ []))

  -- What the loop needs of a bound on its result.
  abbrev Within : ℕ → ℕ → List TaskAggregate → Type 0
  Within limit m tasks = All (Passes status assignee) tasks × (length tasks ≤ m)

  collect_tasks-Within :
      (limit m : ℕ) (groups : List (List TaskEvent)) (tasks : List TaskAggregate)
      → limit ≤ m
      → All (Passes status assignee) tasks
      → length tasks < m
      → Within limit m (collect_tasks status assignee limit groups tasks)
  unfolding collect_tasks
  collect_tasks-Within limit m [] tasks l h b = (h, omega arith)
  collect_tasks-Within limit m (es ∷ groups) tasks l h b =
      go (ltb (length tasks) (length tasks') && leb limit (length tasks')) refl
        (collect_tasks-Within limit m groups tasks' l passing)
    where
      tasks' : List TaskAggregate
      tasks' = add_listed status assignee (from_events es) tasks

      passing : All (Passes status assignee) tasks'
      passing = add_listed-Passes (from_events es) tasks h

      go :
          (p : Bool)
          → (ltb (length tasks) (length tasks') && leb limit (length tasks')) ≡ p
          → (length tasks' < m → Within limit m (collect_tasks status assignee limit groups tasks'))
          → Within limit m (if p then tasks' else collect_tasks status assignee limit groups tasks')
      go true stop ih = (passing, omega (arith, length-add_listed (from_events es) tasks))
      go false on ih = ih (ground (arith, length-add_listed (from_events es) tasks, l, b))

  -- If `list_tasks` returns, every task that it lists is not deleted, has the status asked for
  -- unless that is None or empty, and has an assignee whose id is the one asked for unless that is
  -- None or empty; and it lists at most `limit` tasks, or one if the limit is 0.
  pub list_tasks-Passes :
      (row_id : ℕ → ℕ) (clock : ℕ → Datetime) (limit m offset : ℕ) (r r' : TaskRepository)
      (tasks : List TaskAggregate)
      → limit ≤ m
      → 0 < m
      → list_tasks row_id clock status assignee limit offset r ≡ (ok tasks, r')
      → All (Passes status assignee) tasks × (length tasks ≤ m)
  unfolding list_tasks
  list_tasks-Passes row_id clock limit m offset r r' tasks l b h =
      let (events, t, _, done) =
        >>=-eq-ok (stored_call (get_all_events clock row_id offset (limit * 10)))
          (λ events.
            pure (collect_tasks status assignee limit (values (group_events events [])) []))
          r h in
      let found : collect_tasks status assignee limit (values (group_events events [])) [] ≡ tasks =
        cc done in
      subst (Within limit m) found
        (collect_tasks-Within limit m (values (group_events events [])) [] l tt b)
