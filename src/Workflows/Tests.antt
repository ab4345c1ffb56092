-- ===== src/Workflows/Tests.antt =====
-- The workflows on one context each, and the theorems about them there.
use taskforge_platform.Common.{ℕ, ◌+◌, ◌≡◌, refl, false, String, some, [], ◌∷◌, if◌then◌else◌}
use taskforge_platform.Common.Dict.{update}
use taskforge_platform.Common.Result.{ok}
use taskforge_platform.Common.Value.{Value, truth, str}
use taskforge_platform.Saga.Step.{Context}
use taskforge_platform.Saga.Instance.{new_instance, execute_saga}
use taskforge_platform.Workflows.Approval.{approves, approval_saga, Decided, approval_saga_lem}
use taskforge_platform.Workflows.Bulk.{results_of, summary, generate_summary}
use taskforge_platform.Workflows.Bulk.Summary.{task_results, AllNew, counts, generate_summary_lem}
use taskforge_platform.Workflows.Onboarding.{onboarding_saga}
use taskforge_platform.Workflows.Onboarding.Ends.{Undone, onboarding_saga-Undone}

-- The world is a clock.
abbrev sleep : ℕ → ℕ → ℕ
sleep d t = t + d

abbrev now : ℕ → ℕ
now t = t

abbrev uuid : ℕ → String
uuid n = "u"

abbrev headline : Value → String
headline v = "New task assigned"

abbrev manual : Context
manual = ("task_id", str "t1") ∷ ("auto_approve", truth false) ∷ []

approves-manual : approves manual ≡ false
unfolding approves
approves-manual = refl

approval_saga_lem_example :
    Decided manual (execute_saga sleep now (new_instance "i" (approval_saga uuid) (some manual) 0))
approval_saga_lem_example = approval_saga_lem sleep now uuid "i" manual 0

abbrev request : Context
request = ("title", str "write tests") ∷ ("assignee_id", str "ann") ∷ []

onboarding_saga-Undone_example :
    Undone
      (execute_saga sleep now (new_instance "i" (onboarding_saga headline uuid) (some request) 0))
onboarding_saga-Undone_example = onboarding_saga-Undone headline sleep now uuid "i" request 0

-- Two tasks are given to someone else.
generate_summary_lem_example :
    generate_summary (update manual (task_results "reassign" manual ("t1" ∷ "t2" ∷ [])))
    ≡ ok (summary 2 (if counts "reassign" then 2 else 0))
unfolding results_of task_results AllNew
generate_summary_lem_example =
    generate_summary_lem "reassign" manual manual ("t1" ∷ "t2" ∷ []) refl (refl, (refl, tt))
