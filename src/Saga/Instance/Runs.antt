-- ===== src/Saga/Instance/Runs.antt =====
-- Runs of a saga one step at a time, where it is known what the action of a step does.
use taskforge_platform.Common.{ℕ, zero, suc, ◌+◌, ◌*◌, ◌^◌, ◌≡◌, ap, ◌∙◌, some, List, ◌∷◌}
use taskforge_platform.Common.Result.{⊤, Result, ok, err}
use taskforge_platform.Saga.Step.{
  Context, Failure, Attempt, returned, raised, SagaStep, Run, log, resume, executing, completed,
  failed, settle, pause, try_once, attempts_from, execute,
}
use taskforge_platform.Saga.Instance.{
  SagaStatus, running, SagaInstance, enter, leave, run_steps, fail, succeed, attempt_saga, finish,
  execute_saga,
}

module _ {W : Type 0} (sleep : ℕ → W → W) where
  -- What a first attempt makes of the end of the action.
  abbrev settled : SagaStep W → ℕ → Run W → Attempt × Context × W → Result Failure Context × Run W
  unfolding settle
  settled s n r (a, d, v) = settle sleep s n a (resume (d, v) r)

  -- The attempts after one.
  abbrev retried :
      SagaStep W → ℕ → ℕ → Result Failure Context × Run W → Result Failure Context × Run W
  unfolding attempts_from pause
  retried s attempt left p =
      let (x, u) = p in
      elim x as (λ _. Result Failure Context × Run W) [
        | ok d ↦ (ok d, u)
        | err e ↦
            attempts_from sleep s (attempt + 1) left (pause sleep (s.retry_delay * 2 ^ attempt) u)
      ]

  -- A first attempt that returns is all that `execute` does.
  pub execute-returned :
      (s : SagaStep W) (r : Run W) (c c' : Context) (w : W)
      → s.action r.context r.world ≡ (returned (some c), c', w)
      → execute sleep s r
        ≡ (ok c, log (completed s.name 1) (resume (c', w) (log (executing s.name) r)))
  unfolding execute attempts_from try_once settle settled retried
  execute-returned s r c c' w h = go s.retry_count
    where
      begun : Run W
      begun = log (executing s.name) r

      go :
          (n : ℕ)
          → attempts_from sleep s 0 n begun
            ≡ (ok c, log (completed s.name 1) (resume (c', w) begun))
      go zero = ap (settled s 0 begun) h
      go (suc n) = ap (λ p. retried s 0 n (settled s 0 begun p)) h

  -- What the attempts leave if each of them raises and does nothing else.
  unfoldable pub give_up : SagaStep W → ℕ → ℕ → Run W → Run W
  unfolding pause
  give_up s attempt zero r = log (failed s.name (attempt + 1)) r
  give_up s attempt (suc left) r =
      give_up s (attempt + 1) left
        (pause sleep (s.retry_delay * 2 ^ attempt) (log (failed s.name (attempt + 1)) r))

  attempts_from-raised :
      (s : SagaStep W) (e : Failure) (attempt left : ℕ) (r : Run W)
      → ((w : W) → s.action r.context w ≡ (raised e, r.context, w))
      → attempts_from sleep s attempt left r ≡ (err e, give_up s attempt left r)
  unfolding attempts_from try_once settle pause settled retried give_up
  attempts_from-raised s e attempt zero r h = ap (settled s attempt r) (h r.world)
  attempts_from-raised s e attempt (suc left) r h =
      ap (λ p. retried s attempt left (settled s attempt r p)) (h r.world)
      ∙ attempts_from-raised s e (attempt + 1) left
          (pause sleep (s.retry_delay * 2 ^ attempt) (log (failed s.name (attempt + 1)) r)) h

  pub execute-raised :
      (s : SagaStep W) (e : Failure) (r : Run W)
      → ((w : W) → s.action r.context w ≡ (raised e, r.context, w))
      → execute sleep s r ≡ (err e, give_up s 0 s.retry_count (log (executing s.name) r))
  unfolding execute
  execute-raised s e r h = attempts_from-raised s e 0 s.retry_count (log (executing s.name) r) h

  -- What the loop makes of the end of a step.
  abbrev stepped :
      ℕ
      → SagaStep W
      → List (SagaStep W)
      → SagaInstance W
      → Result Failure Context × Run W
      → Result Failure ⊤ × SagaInstance W
  unfolding run_steps leave enter
  stepped k s rest i p =
      let (x, r) = p in
      elim x as (λ _. Result Failure ⊤ × SagaInstance W) [
        | ok c ↦ run_steps sleep (k + 1) rest (leave s c r (enter k s i))
        | err e ↦ (err e, record (enter k s i) { run = r })
      ]

  pub run_steps-returned :
      (k : ℕ) (s : SagaStep W) (rest : List (SagaStep W)) (i : SagaInstance W) (c c' : Context)
      (w : W)
      → s.action (enter k s i).run.context i.run.world ≡ (returned (some c), c', w)
      → run_steps sleep k (s ∷ rest) i
        ≡ run_steps sleep (k + 1) rest (
            leave s c
              (log (completed s.name 1) (resume (c', w) (log (executing s.name) (enter k s i).run)))
              (enter k s i))
  unfolding run_steps enter stepped
  run_steps-returned k s rest i c c' w h =
      ap (stepped k s rest i) (execute-returned s (enter k s i).run c c' w h)

  pub run_steps-raised :
      (k : ℕ) (s : SagaStep W) (rest : List (SagaStep W)) (i : SagaInstance W) (e : Failure)
      → ((w : W) → s.action (enter k s i).run.context w ≡ (raised e, (enter k s i).run.context, w))
      → run_steps sleep k (s ∷ rest) i ≡ (
        err e,
        record (enter k s i) {
          run = give_up s 0 s.retry_count (log (executing s.name) (enter k s i).run);
        },
      )
  unfolding run_steps stepped
  run_steps-raised k s rest i e h = ap (stepped k s rest i) (execute-raised s e (enter k s i).run h)

module _ {W : Type 0} (sleep : ℕ → W → W) (now : W → ℕ) where
  -- What `execute` does behind the loop.
  unfoldable pub closed :
      ℕ → Result Failure ⊤ × SagaInstance W → Result Failure SagaStatus × SagaInstance W
  unfolding finish succeed fail
  closed started (x, j) =
      let (y, l) = elim x as (λ _. Result Failure ⊤ × SagaInstance W) [
        | ok _ ↦ succeed j
        | err e ↦ fail e j
      ] in
      let k = finish sleep now started l in elim y [ ok _ ↦ (ok k.status, k) | err e ↦ (err e, k) ]

  pub execute_saga-closed :
      (i : SagaInstance W) (p : Result Failure ⊤ × SagaInstance W)
      → run_steps sleep 0 i.definition.steps
          (record i { status = running; started_at = some (now i.run.world) })
        ≡ p
      → execute_saga sleep now i ≡ closed (now i.run.world) p
  unfolding execute_saga attempt_saga closed
  execute_saga-closed i p h = ap (closed (now i.run.world)) h
