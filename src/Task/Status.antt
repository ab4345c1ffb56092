-- ===== src/Task/Status.antt =====
-- The two enumerations of services/task_service/domain/value_objects.py: `TaskPriority` with its
-- comparisons and `TaskStatus` with its table of transitions. `value` is the text of a member and
-- `parse` is the call of the class on a text, `none` where that raises ValueError.
pub mod Priority
pub mod Graph
use taskforge_platform.Common.{
  String, Bool, true, false, ◌≡◌, ◌↔◌, refl, Option, none, some, List, [], ◌∷◌, ◌||◌, arith, ◌==◌,
  str_eq, Eq, eq_iff, if◌then◌else◌,
}

pub data TaskStatus : Type 0 where
  backlog todo in_progress in_review done archived : TaskStatus

unfoldable pub value : TaskStatus → String
value backlog = "backlog"
value todo = "todo"
value in_progress = "in_progress"
value in_review = "in_review"
value done = "done"
value archived = "archived"

-- `TaskStatus(text)`
unfoldable pub parse : String → Option TaskStatus
parse s =
    if s == "backlog"
    then some backlog
    else if s == "todo"
    then some todo
    else if s == "in_progress"
    then some in_progress
    else if s == "in_review"
    then some in_review
    else if s == "done"
    then some done
    else if s == "archived"
    then some archived
    else none

abbrev pub status_beq : TaskStatus → TaskStatus → Bool
status_beq backlog backlog = true
status_beq todo todo = true
status_beq in_progress in_progress = true
status_beq in_review in_review = true
status_beq done done = true
status_beq archived archived = true
status_beq s t = false

pub status_beq_iff : (s t : TaskStatus) → (status_beq s t ≡ true) ↔ (s ≡ t)
status_beq_iff s t = ground arith

instance abbrev pub status_eq : Eq TaskStatus
status_eq = record { same = status_beq; same_iff = status_beq_iff }

-- `valid_transitions[self]`
unfoldable pub valid_transitions : TaskStatus → List TaskStatus
valid_transitions backlog = todo ∷ archived ∷ []
valid_transitions todo = in_progress ∷ backlog ∷ archived ∷ []
valid_transitions in_progress = in_review ∷ todo ∷ done ∷ []
valid_transitions in_review = done ∷ in_progress ∷ todo ∷ []
valid_transitions done = archived ∷ todo ∷ []
valid_transitions archived = backlog ∷ []

-- `target in …`
unfoldable pub is_member : TaskStatus → List TaskStatus → Bool
is_member t [] = false
is_member t (s ∷ l) = t == s || is_member t l

unfoldable pub can_transition_to : TaskStatus → TaskStatus → Bool
unfolding valid_transitions is_member
can_transition_to s target = is_member target (valid_transitions s)

parse-value : (s : TaskStatus) → parse (value s) ≡ some s
unfolding parse value
parse-value backlog = refl
parse-value todo = refl
parse-value in_progress = refl
parse-value in_review = refl
parse-value done = refl
parse-value archived = refl

parse_inv : (s : TaskStatus) (t : String) → parse t ≡ some s → t ≡ value s
unfolding parse value
parse_inv backlog t h = ground (arith, eq_iff t "backlog")
parse_inv todo t h = ground (arith, eq_iff t "todo")
parse_inv in_progress t h = ground (arith, eq_iff t "in_progress")
parse_inv in_review t h = ground (arith, eq_iff t "in_review")
parse_inv done t h = ground (arith, eq_iff t "done")
parse_inv archived t h = ground (arith, eq_iff t "archived")

-- For every member and every text, `TaskStatus(text)` is that member exactly when the text is the
-- member's value.
pub parse-value_iff : (s : TaskStatus) (t : String) → (parse t ≡ some s) ↔ (t ≡ value s)
parse-value_iff s t = (parse_inv s t, λ e. rw e (parse-value s))
