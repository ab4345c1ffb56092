-- ===== src/Task/Status/Graph.antt =====
-- The diagram of the statuses: which can be reached from which.
use taskforge_platform.Common.{true, false, ◌≡◌, ◌↔◌, refl, arith}
use taskforge_platform.Task.Status.{
  TaskStatus, backlog, todo, in_progress, in_review, done, archived, can_transition_to,
}

-- A path of allowed transitions.
pub data Reaches : TaskStatus → TaskStatus → Type 0 where
  here : {s : TaskStatus} → Reaches s s
  step : {s t u : TaskStatus} → can_transition_to s t ≡ true → Reaches t u → Reaches s u

to_backlog : (s : TaskStatus) → Reaches s backlog
unfolding can_transition_to
to_backlog backlog = here
to_backlog todo = step {t = backlog} refl here
to_backlog in_progress = step {t = todo} refl (step {t = backlog} refl here)
to_backlog in_review = step {t = todo} refl (step {t = backlog} refl here)
to_backlog done = step {t = todo} refl (step {t = backlog} refl here)
to_backlog archived = step {t = backlog} refl here

from_backlog : (s : TaskStatus) → Reaches backlog s
unfolding can_transition_to
from_backlog backlog = here
from_backlog todo = step {t = todo} refl here
from_backlog in_progress = step {t = todo} refl (step {t = in_progress} refl here)
from_backlog in_review =
    step {t = todo} refl (step {t = in_progress} refl (step {t = in_review} refl here))
from_backlog done = step {t = todo} refl (step {t = in_progress} refl (step {t = done} refl here))
from_backlog archived = step {t = archived} refl here

Reaches-trans : {s t u : TaskStatus} → Reaches s t → Reaches t u → Reaches s u
Reaches-trans here r = r
Reaches-trans (step e q) r = step e (Reaches-trans q r)

-- From every status every status can be reached by allowed transitions, so no status is a dead
-- end; no transition leads from a status to itself.
pub Reaches-all : (s t : TaskStatus) → Reaches s t × (can_transition_to s s ≡ false)
unfolding can_transition_to
Reaches-all s t = (Reaches-trans (to_backlog s) (from_backlog t), ground arith)

-- A task that is done or archived gets to review only through `in_progress`: the one transition
-- into `in_review` starts there.
pub to_in_review_iff : (s : TaskStatus) → (can_transition_to s in_review ≡ true) ↔ (s ≡ in_progress)
unfolding can_transition_to
to_in_review_iff s = ground arith
