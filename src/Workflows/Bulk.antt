-- ===== src/Workflows/Bulk.antt =====
-- `TaskBulkOperationWorkflow`: one step for each task inside a `ParallelStep`, and a summary.
pub mod Summary
use Prim.Native.Char.{code}
use taskforge_platform.Common.{
  ℕ, ◌+◌, Bool, true, false, ◌&&◌, ◌||◌, String, Option, none, some, List, [], ◌∷◌, ◌==◌, str_eq,
  nat_beq, length, if◌then◌else◌,
}
use taskforge_platform.Common.Dict.{Dict, get_or}
use taskforge_platform.Common.Value.{Value, null, truth, number, str, dict, truthy, object, entries}
use taskforge_platform.Common.Result.{⊤, Result, ok, err, ◌>>=◌}
use taskforge_platform.Saga.Step.{Context, Failure, SagaStep}
use taskforge_platform.Saga.Kinds.{no_attribute, new_step, Gather, parallel_step}
use taskforge_platform.Saga.Instance.{SagaDefinition, add_step}
use taskforge_platform.Workflows.{from_context}

-- `s + t` and `t.startswith(s)`
abbrev pub str_append : String → String → String
str_append String.[] t = t
str_append (String.◌∷◌ c s) t = String.◌∷◌ c (str_append s t)

abbrev pub is_prefix : String → String → Bool
is_prefix String.[] t = true
is_prefix (String.◌∷◌ c s) String.[] = false
is_prefix (String.◌∷◌ c s) (String.◌∷◌ d t) = nat_beq (code c) (code d) && is_prefix s t

-- The result of one task.
unfoldable pub task_result : String → Context → String → Dict Value
unfolding get_or
task_result operation c task_id =
    if operation == "archive"
    then ("task_id", str task_id) ∷ ("archived", truth true) ∷ []
    else if operation == "delete"
    then ("task_id", str task_id) ∷ ("deleted", truth true) ∷ []
    else if operation == "reassign"
    then ("task_id", str task_id)
      ∷ ("reassigned", truth true)
      ∷ ("new_assignee", get_or "new_assignee_id" null c)
      ∷ []
    else ("task_id", str task_id) ∷ ("processed", truth true) ∷ []

unfoldable pub process_task : String → String → Context → Result Failure Context
unfolding task_result
process_task task_id operation c =
    ok ((str_append "result_" task_id, object (task_result operation c task_id)) ∷ [])

-- `{k: v for k, v in context.items() if k.startswith("result_")}`
unfoldable pub results_of : Context → Dict Value
results_of [] = []
results_of ((k, v) ∷ c) =
    let rest = results_of c in if is_prefix "result_" k then (k, v) ∷ rest else rest

-- The condition of the sum: `.get` of a value that is no dict raises AttributeError.
unfoldable pub succeeded : Value → Result Failure Bool
unfolding get_or
succeeded (dict fs) =
    let r = entries fs in
    ok (
      truthy (get_or "processed" (truth false) r)
      || (truthy (get_or "archived" (truth false) r) || truthy (get_or "deleted" (truth false) r)))
succeeded v = err no_attribute

unfoldable pub count_succeeded : Dict Value → Result Failure ℕ
unfolding succeeded
count_succeeded [] = ok 0
count_succeeded ((k, v) ∷ rs) =
    succeeded v >>= λ b. count_succeeded rs >>= λ n. ok ((if b then 1 else 0) + n)

abbrev pub summary : ℕ → ℕ → Context
summary total good =
    (
      "batch_summary",
      object (
          ("total_processed", number total)
          ∷ ("succeeded", number good)
          ∷ ("failed", number 0)
          ∷ []),
    )
    ∷ []

unfoldable pub generate_summary : Context → Result Failure Context
unfolding results_of count_succeeded
generate_summary c =
    count_succeeded (results_of c) >>= λ good. ok (summary (length (results_of c)) good)

module _ {W : Type 0} (sleep : ℕ → W → W) (gather : Gather W (Result Failure Context))
    (gather_all : Gather W (Result Failure ⊤)) where
  -- The steps of the tasks, the n-th one with the n-th UUID.
  unfoldable pub task_steps : (ℕ → String) → ℕ → String → List String → List (SagaStep W)
  unfolding new_step process_task
  task_steps uuid n operation [] = []
  task_steps uuid n operation (task_id ∷ ids) =
      record (new_step (uuid n) (str_append "process_" task_id)
        (from_context (process_task task_id operation))) { retry_count = 2 }
      ∷ task_steps uuid (n + 1) operation ids

  -- `create(task_ids, operation)`, with the UUIDs of the saga, its two steps and those of the tasks.
  unfoldable pub bulk_saga : (ℕ → String) → List String → String → SagaDefinition W
  unfolding add_step new_step parallel_step task_steps generate_summary
  bulk_saga uuid task_ids operation =
      add_step
        (record (new_step (uuid 2) "generate_summary" (from_context generate_summary)) {
          retry_count = 1;
          timeout_seconds = 10;
        })
        (add_step
          (parallel_step sleep gather gather_all (uuid 1) (str_append "bulk_" operation)
            (task_steps uuid 3 operation task_ids))
          (record {
            saga_id = uuid 0;
            name = str_append "task_bulk_" operation;
            steps = [];
            on_success = none;
            on_failure = none;
          }))
