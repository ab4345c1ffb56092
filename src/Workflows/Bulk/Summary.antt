-- ===== src/Workflows/Bulk/Summary.antt =====
-- What the summary says of the tasks of a bulk operation.
use taskforge_platform.Common.{
  ℕ, suc, ◌+◌, ◌≡◌, refl, sym, ap, ◌∙◌, arith, Bool, true, false, not, ◌||◌, String, none, List, [],
  ◌∷◌, ◌++◌, ◌==◌, str_eq, Bool-cases, inl, inr, length, append_assoc, append-nil, if◌then◌else◌,
}
use taskforge_platform.Common.Dict.{Dict, lookup, insert, update}
use taskforge_platform.Common.Value.{object}
use taskforge_platform.Common.Result.{ok, ◌>>=◌}
use taskforge_platform.Saga.Step.{Context}
use taskforge_platform.Workflows.Bulk.{
  str_append, is_prefix, task_result, results_of, succeeded, count_succeeded, summary,
  generate_summary,
}

-- What the steps of the tasks put into the context `c`.
unfoldable pub task_results : String → Context → List String → Context
unfolding task_result
task_results operation c [] = []
task_results operation c (id ∷ ids) =
    (str_append "result_" id, object (task_result operation c id)) ∷ task_results operation c ids

-- The keys of `e` are new to `d` and to each other.
unfoldable pub AllNew : {V : Type 0} → Dict V → Dict V → Type 0
unfolding lookup
AllNew d [] = Unit
AllNew d ((k, v) ∷ e) = (lookup k d ≡ none) × AllNew (d ++ (k, v) ∷ []) e

insert-new :
    {V : Type 0} (k : String) (v : V) (d : Dict V)
    → lookup k d ≡ none
    → insert k v d ≡ d ++ (k, v) ∷ []
unfolding lookup insert
insert-new k v [] h = refl
insert-new k v ((j, w) ∷ d) h = elim (Bool-cases (j == k)) [
  | inl same ↦ let none_left = rw same at h in absurd (cc none_left)
  | inr other ↦ let left = rw other at h in rw (other, insert-new k v d left) refl
]

update-new : {V : Type 0} (d e : Dict V) → AllNew d e → update d e ≡ d ++ e
unfolding update AllNew
update-new d [] h = sym (append-nil d)
update-new d ((k, v) ∷ e) h =
    rw (insert-new k v d h.0) (update-new (d ++ (k, v) ∷ []) e h.1 ∙ append_assoc d ((k, v) ∷ []) e)

results_of-append : (c d : Context) → results_of (c ++ d) ≡ results_of c ++ results_of d
unfolding results_of
results_of-append [] d = refl
results_of-append ((k, v) ∷ c) d = elim (Bool-cases (is_prefix "result_" k)) [
  | inl yes_ ↦ rw (yes_, results_of-append c d) refl
  | inr no_ ↦ rw (no_, results_of-append c d) refl
]

-- Whether the summary counts a task of the operation.
unfoldable pub counts : String → Bool
counts operation =
    operation == "archive" || (operation == "delete" || not (operation == "reassign"))

one_more :
    (b : Bool) (n : ℕ) → (if b then 1 else 0) + (if b then n else 0) ≡ (if b then suc n else 0)
one_more true n = omega arith
one_more false n = refl

module _ (operation : String) (c : Context) where
  results_of-task_results :
      (ids : List String) → results_of (task_results operation c ids) ≡ task_results operation c ids
  unfolding results_of task_results
  results_of-task_results [] = refl
  results_of-task_results (id ∷ ids) =
      ap (λ l. (str_append "result_" id, object (task_result operation c id)) ∷ l)
        (results_of-task_results ids)

  succeeded-task_result :
      (id : String) → succeeded (object (task_result operation c id)) ≡ ok (counts operation)
  unfolding succeeded task_result counts
  succeeded-task_result id = elim (Bool-cases (operation == "archive")) [
    | inl a ↦ rw a refl
    | inr a ↦ elim (Bool-cases (operation == "delete")) [
      | inl d ↦ rw (a, d) refl
      | inr d ↦ elim (Bool-cases (operation == "reassign")) [
        | inl r ↦ rw (a, d, r) refl
        | inr r ↦ rw (a, d, r) refl
      ]
    ]
  ]

  count_succeeded-task_results :
      (ids : List String)
      → count_succeeded (task_results operation c ids)
        ≡ ok (if counts operation then length ids else 0)
  unfolding count_succeeded task_results
  count_succeeded-task_results [] = elim (Bool-cases (counts operation)) [
    | inl yes_ ↦ rw yes_ refl
    | inr no_ ↦ rw no_ refl
  ]
  count_succeeded-task_results (id ∷ ids) =
      let rest = count_succeeded (task_results operation c ids) in
      ap (λ x. x >>= λ b. rest >>= λ n. ok ((if b then 1 else 0) + n)) (succeeded-task_result id)
      ∙ (ap (λ y. y >>= λ n. ok ((if counts operation then 1 else 0) + n))
            (count_succeeded-task_results ids)
          ∙ ap ok (one_more (counts operation) (length ids)))

  length-task_results : (ids : List String) → length (task_results operation c ids) ≡ length ids
  unfolding task_results
  length-task_results [] = refl
  length-task_results (id ∷ ids) = omega (arith, length-task_results ids)

  -- Take a context without results, and the results of the tasks `ids`, under keys that are new to
  -- the context and to each other. The summary of the context with these results counts every task
  -- as processed and none as failed, and all of them as succeeded, or none if the operation is
  -- "reassign".
  pub generate_summary_lem :
      (d : Context) (ids : List String)
      → results_of d ≡ []
      → AllNew d (task_results operation c ids)
      → generate_summary (update d (task_results operation c ids))
        ≡ ok (summary (length ids) (if counts operation then length ids else 0))
  unfolding generate_summary
  generate_summary_lem d ids none_yet new =
      let found : results_of (update d (task_results operation c ids))
          ≡ task_results operation c ids =
        ap results_of (update-new d (task_results operation c ids) new)
        ∙ (results_of-append d (task_results operation c ids)
            ∙ (ap (λ l. l ++ results_of (task_results operation c ids)) none_yet
                ∙ results_of-task_results ids)) in
      ap (λ l. count_succeeded l >>= λ good. ok (summary (length l) good)) found
      ∙ (ap (λ r. r >>= λ good. ok (summary (length (task_results operation c ids)) good))
            (count_succeeded-task_results ids)
          ∙ ap (λ n. ok (summary n (if counts operation then length ids else 0)))
              (length-task_results ids))
