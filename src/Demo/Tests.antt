-- ===== src/Demo/Tests.antt =====
-- The two parts of the demo program, and two writers of one stream.
use taskforge_platform.Common.{◌≡◌, refl, some, List, [], ◌∷◌}
use taskforge_platform.Common.Result.{ok}
use taskforge_platform.Demo.{
  version_conflict, new_aggregate, get_uncommitted, save_events, demo_1, demo_2,
}
use taskforge_platform.Demo.Numbers.{create_task, change_task, Command, perform_all}
use taskforge_platform.Demo.Writers.{stream, SavedOnce, save_events-SavedOnce}

first_part :
    (demo_1 "t" []).0
    ≡ ok (record {
      title = "Implement OAuth2";
      status = "in_review";
      priority = "high";
      assignee_id = some "bob";
      version = 5;
      events =
          (1, "task.created")
          ∷ (2, "task.assigned")
          ∷ (3, "task.status_changed")
          ∷ (4, "task.status_changed")
          ∷ (5, "task.status_changed")
          ∷ [];
    })
unfolding demo_1
first_part = refl

second_part : (demo_2 "c" []).0 ≡ ok (some (version_conflict 1 2))
unfolding demo_2
second_part = refl

abbrev calls : List Command
calls = create_task "Setup CI/CD" "medium" ∷ change_task "todo" ∷ change_task "done" ∷ []

save_events-SavedOnce_example :
    SavedOnce []
      (new_aggregate "c")
      (perform_all calls (new_aggregate "c")).1
      (save_events "c" (get_uncommitted (perform_all calls (new_aggregate "c")).1) 0 [])
unfolding new_aggregate stream
save_events-SavedOnce_example = save_events-SavedOnce calls (new_aggregate "c") [] refl refl
