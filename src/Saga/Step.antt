-- ===== src/Saga/Step.antt =====
-- `SagaStep` of libs/saga_framework/saga.py. The callables of a step are code that a saga's author
-- supplies: they take the saga's context, which they may change, and the world outside, and end
-- under `asyncio.wait_for` with a result, a time-out or an exception. Delays are in milliseconds.
-- The trace holds one entry for each call of the logger and for each sleep.
pub mod Retries
use taskforge_platform.Common.{
  ℕ, zero, suc, ◌+◌, ◌*◌, ◌^◌, Bool, true, false, not, String, Option, none, some, List, [], ◌∷◌,
  ◌++◌, if◌then◌else◌,
}
use taskforge_platform.Common.Dict.{Dict}
use taskforge_platform.Common.Value.{Value}
use taskforge_platform.Common.Result.{⊤, Result, ok, err}

abbrev pub Context : Type 0
Context = Dict Value

pub data Failure : Type 0 where
  timeout : String → Failure  -- TimeoutError(f"Step '{name}' timed out")
  exception : String → Failure
  index_error : Failure
  -- RuntimeError of a `ParallelStep`: the names of the steps that raised.
  parallel_failed : List String → Failure

pub data Entry : Type 0 where
  executing : String → Entry
  completed timed_out failed : String → ℕ → Entry
  slept : ℕ → Entry
  no_compensation compensating compensated compensation_failed : String → Entry

-- What the steps of a saga work on: its context, the world and the trace.
pub record Run (W : Type 0) : Type 0 where
  pub context : Context
  pub world : W
  pub trace : List Entry

-- How one awaited action ends. `none` is a result that is None.
pub data Attempt : Type 0 where
  returned : Option Context → Attempt
  ran_out : Attempt
  raised : Failure → Attempt

abbrev pub Action : Type 0 → Type 0
Action W = Context → W → Attempt × Context × W

-- A callable whose result is not read: it may raise.
abbrev pub Handler : Type 0 → Type 0
Handler W = Context → W → Option Failure × Context × W

pub record SagaStep (W : Type 0) : Type 0 where
  pub step_id : String
  pub name : String
  pub action : Action W
  pub compensation : Option (Handler W)
  pub retry_count : ℕ
  pub retry_delay : ℕ
  pub timeout_seconds : ℕ
  pub is_compensatable : Bool

abbrev pub log : {W : Type 0} → Entry → Run W → Run W
log e r = record r { trace = r.trace ++ e ∷ [] }

-- A callable run on the context and the world.
abbrev pub resume : {W : Type 0} → Context × W → Run W → Run W
resume (c, w) r = record r { context = c; world = w }

-- `asyncio.sleep`: what passes in the world meanwhile.
module _ {W : Type 0} (sleep : ℕ → W → W) where
  unfoldable pub pause : ℕ → Run W → Run W
  pause delay r = record r { world = sleep delay r.world; trace = r.trace ++ slept delay ∷ [] }

  -- What the body of the `try` and its handlers make of one attempt: a result or `last_error`.
  unfoldable pub settle : SagaStep W → ℕ → Attempt → Run W → Result Failure Context × Run W
  settle s attempt (returned none) r = (ok [], log (completed s.name (attempt + 1)) r)
  settle s attempt (returned (some c)) r = (ok c, log (completed s.name (attempt + 1)) r)
  settle s attempt ran_out r = (err (timeout s.name), log (timed_out s.name (attempt + 1)) r)
  settle s attempt (raised e) r = (err e, log (failed s.name (attempt + 1)) r)

  unfoldable pub try_once : SagaStep W → ℕ → Run W → Result Failure Context × Run W
  unfolding settle
  try_once s attempt r =
      let (a, c, w) = s.action r.context r.world in settle s attempt a (resume (c, w) r)

  -- The `for` loop from `attempt` on, with `left` attempts after it.
  unfoldable pub attempts_from : SagaStep W → ℕ → ℕ → Run W → Result Failure Context × Run W
  unfolding try_once
  attempts_from s attempt zero r = try_once s attempt r
  attempts_from s attempt (suc left) r =
      let (x, r') = try_once s attempt r in
      elim x [
        | ok c ↦ (ok c, r')
        | err e ↦ attempts_from s (attempt + 1) left (pause (s.retry_delay * 2 ^ attempt) r')
      ]

  -- `SagaStep.execute`
  unfoldable pub execute : SagaStep W → Run W → Result Failure Context × Run W
  unfolding attempts_from
  execute s r = attempts_from s 0 s.retry_count (log (executing s.name) r)

module _ {W : Type 0} where
  unfoldable pub settle_compensation : String → Option Failure → Run W → Result Failure ⊤ × Run W
  settle_compensation name none r = (ok tt, log (compensated name) r)
  settle_compensation name (some e) r = (err e, log (compensation_failed name) r)

  unfoldable pub run_compensation : String → Handler W → Run W → Result Failure ⊤ × Run W
  unfolding settle_compensation
  run_compensation name h r =
      let (x, c, w) = h r.context r.world in
      settle_compensation name x (resume (c, w) (log (compensating name) r))

  -- The test `not self.compensation or not self.is_compensatable`, by cases.
  unfoldable pub compensate_with :
      String → Option (Handler W) → Bool → Run W → Result Failure ⊤ × Run W
  unfolding run_compensation
  compensate_with name none compensatable r = (ok tt, log (no_compensation name) r)
  compensate_with name (some h) false r = (ok tt, log (no_compensation name) r)
  compensate_with name (some h) true r = run_compensation name h r

  -- `SagaStep.compensate`
  unfoldable pub compensate : SagaStep W → Run W → Result Failure ⊤ × Run W
  unfolding compensate_with
  compensate s = compensate_with s.name s.compensation s.is_compensatable
