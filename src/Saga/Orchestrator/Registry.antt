-- ===== src/Saga/Orchestrator/Registry.antt =====
-- The registry of the orchestrator through any sequence of calls and background steps, and what a
-- cancellation does to a run.
use taskforge_platform.Common.{
  ℕ, ◌≡◌, refl, sym, ap, ◌∙◌, true, ◌⊎◌, inl, inr, String, Option, none, some, ◌==◌, str_eq, eq_iff,
  Bool-cases,
}
use taskforge_platform.Common.Dict.{lookup, insert, lookup-insert, lookup-insert_self, lookup-erase}
use taskforge_platform.Saga.Step.{Context}
use taskforge_platform.Saga.Instance.{
  SagaDefinition, SagaInstance, cancelled, new_instance, execute_saga,
}
use taskforge_platform.Saga.Orchestrator.{
  SagaOrchestrator, new_orchestrator, put_running, start_saga, cleanup, cancel_found, cancel_saga,
}

module _ {W : Type 0} where
  -- Only a fresh id is given to a new instance, and only an instance that runs advances or ends.
  pub data Step : SagaOrchestrator W → SagaOrchestrator W → Type 0 where
    starts :
        (id : String) (d : SagaDefinition W) (c : Option Context) (w : W) (o : SagaOrchestrator W)
        → lookup id o.completed_instances ≡ none
        → Step o (start_saga id d c w o).1
    advances :
        (i j : SagaInstance W) (o : SagaOrchestrator W)
        → lookup j.instance_id o.running_instances ≡ some i
        → Step o (put_running j o)
    ends :
        (i j : SagaInstance W) (o : SagaOrchestrator W)
        → lookup j.instance_id o.running_instances ≡ some i
        → Step o (cleanup j o)
    cancels : (id : String) (o : SagaOrchestrator W) → Step o (cancel_saga id o).1

  pub data Reachable : SagaOrchestrator W → Type 0 where
    fresh : Reachable new_orchestrator
    next : {o p : SagaOrchestrator W} → Reachable o → Step o p → Reachable p

  -- No instance is in both registries.
  abbrev pub IsDisjoint : SagaOrchestrator W → Type 0
  IsDisjoint o =
      (id : String)
      → (lookup id o.running_instances ≡ none) ⊎ (lookup id o.completed_instances ≡ none)

  insert-absent :
      (i : SagaInstance W) (k : String) (o : SagaOrchestrator W)
      → lookup k o.completed_instances ≡ none
      → IsDisjoint o
      → IsDisjoint (record o { running_instances = insert k i o.running_instances })
  insert-absent i k o h d id = elim (Bool-cases (k == id)) [
    | inl same ↦ inr (ap (λ j. lookup j o.completed_instances) (sym ((eq_iff k id).0 same)) ∙ h)
    | inr other ↦ elim (d id) [
      | inl gone ↦ inl (lookup-insert k id i o.running_instances ∙ (rw other gone))
      | inr gone ↦ inr gone
    ]
  ]

  running-absent :
      (k : String) (i : SagaInstance W) (o : SagaOrchestrator W)
      → lookup k o.running_instances ≡ some i
      → IsDisjoint o
      → lookup k o.completed_instances ≡ none
  running-absent k i o h d = elim (d k) [ inl gone ↦ absurd (cc (h, gone)) | inr gone ↦ gone ]

  cleanup-IsDisjoint :
      (j : SagaInstance W) (o : SagaOrchestrator W) → IsDisjoint o → IsDisjoint (cleanup j o)
  unfolding cleanup
  cleanup-IsDisjoint j o d id = elim (Bool-cases (j.instance_id == id)) [
    | inl same ↦ inl (lookup-erase j.instance_id id o.running_instances ∙ rw same refl)
    | inr other ↦ elim (d id) [
      | inl gone ↦ inl (lookup-erase j.instance_id id o.running_instances ∙ rw other gone)
      | inr gone ↦ inr (lookup-insert j.instance_id id j o.completed_instances ∙ rw other gone)
    ]
  ]

  cancel_found-IsDisjoint :
      (id : String) (x : Option (SagaInstance W)) (o : SagaOrchestrator W)
      → lookup id o.running_instances ≡ x
      → IsDisjoint o
      → IsDisjoint (cancel_found id x o).1
  unfolding cancel_found
  cancel_found-IsDisjoint id none o h d = d
  cancel_found-IsDisjoint id (some i) o h d =
      insert-absent (record i { status = cancelled }) id o (running-absent id i o h d) d

  Step-IsDisjoint : {o p : SagaOrchestrator W} → Step o p → IsDisjoint o → IsDisjoint p
  unfolding start_saga put_running cancel_saga new_instance
  Step-IsDisjoint (starts id e c w o h) d = insert-absent (new_instance id e c w) id o h d
  Step-IsDisjoint (advances i j o h) d =
      insert-absent j j.instance_id o (running-absent j.instance_id i o h d) d
  Step-IsDisjoint (ends i j o h) d = cleanup-IsDisjoint j o d
  Step-IsDisjoint (cancels id o) d = cancel_found-IsDisjoint id _ o refl d

  -- In every state that calls and background steps reach, where the id of a new instance is not one
  -- of a completed instance, no id is both that of a running and that of a completed instance.
  pub Reachable-IsDisjoint : {o : SagaOrchestrator W} → Reachable o → IsDisjoint o
  unfolding new_orchestrator lookup
  Reachable-IsDisjoint fresh = λ id. inl refl
  Reachable-IsDisjoint (next r s) = Step-IsDisjoint s (Reachable-IsDisjoint r)

  -- A saga that is cancelled as soon as it is started: `cancel_saga` answers true and marks the
  -- instance in the registry, and the instance then runs exactly as it would have without this.
  pub execute_saga_cancelled :
      (sleep : ℕ → W → W) (now : W → ℕ) (id : String) (d : SagaDefinition W) (c : Option Context)
      (w : W) (o : SagaOrchestrator W)
      → let (i, o') = start_saga id d c w o in
        let (answer, o'') = cancel_saga id o' in
        (answer ≡ true)
        × (lookup id o''.running_instances ≡ some (record i { status = cancelled }))
        × (execute_saga sleep now (record i { status = cancelled }) ≡ execute_saga sleep now i)
  unfolding execute_saga start_saga cancel_saga cancel_found put_running new_instance
  execute_saga_cancelled sleep now id d c w o =
      let i = new_instance id d c w in
      let o' = put_running i o in
      let there : lookup id o'.running_instances ≡ some i =
        lookup-insert_self id i o.running_instances in
      (
        ap (λ x. (cancel_found id x o').0) there,
        ap (λ x. lookup id (cancel_found id x o').1.running_instances) there
            ∙ lookup-insert_self id (record i { status = cancelled }) o'.running_instances,
        refl,
      )
