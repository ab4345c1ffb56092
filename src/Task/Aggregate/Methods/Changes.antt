-- ===== src/Task/Aggregate/Methods/Changes.antt =====
-- What `update` puts into `field_changes`: at most one entry for each field, under its name.
use taskforge_platform.Common.{
  Bool, true, false, String, Option, none, some, ◌≡◌, refl, ◌∙◌, ◌⊎◌, inl, inr, List, [], ◌∷◌, ◌++◌,
  ◌==◌, str_eq, not, Runtime,
}
use taskforge_platform.Common.Dict.{Dict, lookup}
use taskforge_platform.Common.Result.{ok, traverse, >>=-eq-ok, OnOk, OnOk-bind, OnOk-if, OnOk-use}
use taskforge_platform.Task.Status.{TaskStatus, status_eq, can_transition_to}
use taskforge_platform.Task.Status
use taskforge_platform.Task.Status.Priority.{priority_eq}
use taskforge_platform.Task.Values.{label, task_title, title_str, task_description}
use taskforge_platform.Task.Commands.{UpdateTaskCommand}
use taskforge_platform.Task.Events.{Change, texts}
use taskforge_platform.Task.Aggregate.{Task, to_status, to_priority}
use taskforge_platform.Task.Aggregate.Methods.{
  title_change, description_change, status_change, priority_change, labels_change, collect_changes,
  validate_status_transition,
}

true_of_negated : (b : Bool) → not b ≡ false → b ≡ true
true_of_negated true e = refl
true_of_negated false e = cc

-- Every key of the dictionary is `k`.
abbrev pub OnlyKey : String → Dict Change → Type 0
OnlyKey k [] = Unit
OnlyKey k ((j, c) ∷ d) = (j ≡ k) × OnlyKey k d

pub lookup-OnlyKey :
    (k j : String) (d r : Dict Change)
    → (k == j) ≡ false
    → OnlyKey k d
    → lookup j (d ++ r) ≡ lookup j r
unfolding lookup
lookup-OnlyKey k j [] r ne h = refl
lookup-OnlyKey k j ((i, c) ∷ d) r ne h = rw (h.0, ne) (lookup-OnlyKey k j d r ne h.1)

lookup_absent :
    (k j : String) (d : Dict Change) → (k == j) ≡ false → OnlyKey k d → lookup j d ≡ none
unfolding lookup
lookup_absent k j [] ne h = refl
lookup_absent k j ((i, c) ∷ d) ne h = rw (h.0, ne) (lookup_absent k j d ne h.1)

-- The entry of the status, if there is one, names a status one allowed transition away.
abbrev pub AllowedChange : TaskStatus → Dict Change → Type 0
AllowedChange s d =
    (lookup "status" d ≡ none)
    ⊎ ((t : TaskStatus) × (lookup "status" d ≡ some (texts (Status.value s) (Status.value t)))
        × (can_transition_to s t ≡ true))

pub transition_allowed :
    (s t : TaskStatus) → OnOk (λ _. can_transition_to s t ≡ true) (validate_status_transition s t)
unfolding validate_status_transition
transition_allowed s t =
    OnOk-if _ (not (can_transition_to s t)) _ _ (λ _. tt) (λ e. true_of_negated _ e)

module _ ⦃rt : Runtime⦄ where
  pub title_change-OnlyKey :
      (t : Task) (o : Option String) → OnOk (OnlyKey "title") (title_change t o)
  unfolding title_change
  title_change-OnlyKey t none = tt
  title_change-OnlyKey t (some s) =
      OnOk-if _ (s == title_str t.title) _ _ (λ _. tt)
        (λ _. OnOk-bind _ (task_title s) _ (λ a _. (refl, tt)))

  pub description_change-OnlyKey :
      (t : Task) (o : Option String) → OnOk (OnlyKey "description") (description_change t o)
  unfolding description_change
  description_change-OnlyKey t none = tt
  description_change-OnlyKey t (some s) =
      OnOk-if _ (s == t.description.text_of) _ _ (λ _. tt)
        (λ _. OnOk-bind _ (task_description s) _ (λ a _. (refl, tt)))

  pub priority_change-OnlyKey :
      (t : Task) (o : Option String) → OnOk (OnlyKey "priority") (priority_change t o)
  unfolding priority_change
  priority_change-OnlyKey t none = tt
  priority_change-OnlyKey t (some s) =
      OnOk-bind _ (to_priority s) _
        (λ p _. OnOk-if _ (p == t.priority) _ _ (λ _. tt) (λ _. (refl, tt)))

  pub labels_change-OnlyKey :
      (t : Task) (o : Option (List String)) → OnOk (OnlyKey "labels") (labels_change t o)
  unfolding labels_change
  labels_change-OnlyKey t none = tt
  labels_change-OnlyKey t (some ls) = OnOk-bind _ (traverse label ls) _ (λ a _. (refl, tt))

  pub status_change_allowed :
      (t : Task) (o : Option String) (r : Dict Change)
      → lookup "status" r ≡ none
      → OnOk (λ d. AllowedChange t.status (d ++ r)) (status_change t o)
  unfolding status_change lookup
  status_change_allowed t none r e = inl e
  status_change_allowed t (some s) r e = OnOk-bind _ (to_status s) _ (λ n _.
      OnOk-if _ (n == t.status) _ _ (λ _. inl e)
        (λ _.
          OnOk-bind _ (validate_status_transition t.status n) _
            (λ _ v. inr (n, refl, OnOk-use _ v (transition_allowed t.status n)))))

  -- The five parts of what `collect_changes` returns.
  pub record Parts (t : Task) (c : UpdateTaskCommand) (d : Dict Change) : Type 0 where
    pub of_title : Dict Change
    pub of_description : Dict Change
    pub of_status : Dict Change
    pub of_priority : Dict Change
    pub of_labels : Dict Change
    pub joined : d ≡ of_title ++ (of_description ++ (of_status ++ (of_priority ++ of_labels)))
    pub title_part : title_change t c.title ≡ ok of_title
    pub description_part : description_change t c.description ≡ ok of_description
    pub status_part : status_change t c.status ≡ ok of_status
    pub priority_part : priority_change t c.priority ≡ ok of_priority
    pub labels_part : labels_change t c.labels ≡ ok of_labels

  pub collect_changes-Parts :
      (t : Task) (c : UpdateTaskCommand) (d : Dict Change)
      → collect_changes t c ≡ ok d
      → Parts t c d
  unfolding collect_changes
  collect_changes-Parts t c d h =
      let (a, ea, ha) = >>=-eq-ok (title_change t c.title) _ h in
      let (b, eb, hb) = >>=-eq-ok (description_change t c.description) _ ha in
      let (s, es, hs) = >>=-eq-ok (status_change t c.status) _ hb in
      let (p, ep, hp) = >>=-eq-ok (priority_change t c.priority) _ hs in
      let (l, el, hl) = >>=-eq-ok (labels_change t c.labels) _ hp in
      record {
        of_title = a;
        of_description = b;
        of_status = s;
        of_priority = p;
        of_labels = l;
        joined = cc;
        title_part = ea;
        description_part = eb;
        status_part = es;
        priority_part = ep;
        labels_part = el;
      }

  -- Of the five parts only that of the status has its key.
  pub collect_changes_allowed :
      (t : Task) (c : UpdateTaskCommand) (d : Dict Change)
      → collect_changes t c ≡ ok d
      → AllowedChange t.status d
  collect_changes_allowed t c d h =
      let p = collect_changes-Parts t c d h in
      let rest_none : lookup "status" (p.of_priority ++ p.of_labels) ≡ none =
        lookup-OnlyKey "priority" "status" p.of_priority p.of_labels refl
          (OnOk-use _ p.priority_part (priority_change-OnlyKey t c.priority))
        ∙ lookup_absent "labels" "status" p.of_labels refl
            (OnOk-use _ p.labels_part (labels_change-OnlyKey t c.labels)) in
      let skip =
        lookup-OnlyKey "title" "status" p.of_title
          (p.of_description ++ (p.of_status ++ (p.of_priority ++ p.of_labels))) refl
          (OnOk-use _ p.title_part (title_change-OnlyKey t c.title))
        ∙ lookup-OnlyKey "description" "status" p.of_description
            (p.of_status ++ (p.of_priority ++ p.of_labels)) refl
            (OnOk-use _ p.description_part (description_change-OnlyKey t c.description)) in
      let here = OnOk-use _ p.status_part (status_change_allowed t c.status _ rest_none) in
      rw (p.joined, skip) here
