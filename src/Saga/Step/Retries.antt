-- ===== src/Saga/Step/Retries.antt =====
-- How often a step is tried, how long it sleeps between, and which attempt decides.
use native.Mathlib.Nat.{pow-suc}
use taskforge_platform.Common.{
  ℕ, zero, suc, ◌+◌, ◌*◌, ◌^◌, ◌≤◌, ◌≡◌, refl, ap, arith, none, some, List, [], ◌∷◌, ◌++◌,
}
use taskforge_platform.Common.Result.{Result, ok, err}
use taskforge_platform.Saga.Step.{
  Context, Failure, Entry, executing, completed, timed_out, failed, slept, Run, Attempt, returned,
  ran_out, raised, SagaStep, log, pause, settle, try_once, attempts_from, execute,
}

-- The attempts that a trace shows, and the time slept.
abbrev pub attempts : List Entry → ℕ
attempts [] = 0
attempts (completed n k ∷ t) = attempts t + 1
attempts (timed_out n k ∷ t) = attempts t + 1
attempts (failed n k ∷ t) = attempts t + 1
attempts (e ∷ t) = attempts t

abbrev pub time_slept : List Entry → ℕ
time_slept [] = 0
time_slept (slept d ∷ t) = time_slept t + d
time_slept (e ∷ t) = time_slept t

attempts-append : (t u : List Entry) → attempts (t ++ u) ≡ attempts t + attempts u
attempts-append [] u = omega arith
attempts-append (completed n k ∷ t) u = omega (arith, attempts-append t u)
attempts-append (timed_out n k ∷ t) u = omega (arith, attempts-append t u)
attempts-append (failed n k ∷ t) u = omega (arith, attempts-append t u)
attempts-append (e ∷ t) u = attempts-append t u

time_slept-append : (t u : List Entry) → time_slept (t ++ u) ≡ time_slept t + time_slept u
time_slept-append [] u = omega arith
time_slept-append (slept d ∷ t) u = omega (arith, time_slept-append t u)
time_slept-append (e ∷ t) u = time_slept-append t u

double_pow : (d k : ℕ) → d * 2 ^ (k + 1) ≡ d * 2 ^ k + d * 2 ^ k
double_pow d k = let e : k + 1 ≡ suc k = omega arith in rw (e, pow-suc) (omega arith)

pow_grows : (d k n : ℕ) → d * 2 ^ k ≤ d * 2 ^ (k + n)
pow_grows d k zero = let e : k + 0 ≡ k = omega arith in rw e (omega arith)
pow_grows d k (suc n) =
    let e : k + suc n ≡ k + n + 1 = omega arith in
    rw e (omega (arith, pow_grows d k n, double_pow d (k + n)))

module _ {W : Type 0} (sleep : ℕ → W → W) (s : SagaStep W) where
  attempts-settle :
      (k : ℕ) (a : Attempt) (r : Run W)
      → (attempts (settle sleep s k a r).1.trace ≡ attempts r.trace + 1)
        × (time_slept (settle sleep s k a r).1.trace ≡ time_slept r.trace)
  unfolding settle
  attempts-settle k (returned none) r = (
    attempts-append r.trace _,
    omega (arith, time_slept-append r.trace (completed s.name (k + 1) ∷ [])),
  )
  attempts-settle k (returned (some c)) r = (
    attempts-append r.trace _,
    omega (arith, time_slept-append r.trace (completed s.name (k + 1) ∷ [])),
  )
  attempts-settle k ran_out r = (
    attempts-append r.trace _,
    omega (arith, time_slept-append r.trace (timed_out s.name (k + 1) ∷ [])),
  )
  attempts-settle k (raised e) r = (
    attempts-append r.trace _,
    omega (arith, time_slept-append r.trace (failed s.name (k + 1) ∷ [])),
  )

  -- `k` attempts in a row fail, each with the pause behind it.
  pub data Fails (r : Run W) : ℕ → Run W → Type 0 where
    start : Fails r 0 r
    again :
        {k : ℕ} {u v : Run W} {e : Failure}
        → Fails r k u
        → try_once sleep s k u ≡ (err e, v)
        → Fails r (k + 1) (pause sleep (s.retry_delay * 2 ^ k) v)

  attempts-try_once :
      (k : ℕ) (r : Run W)
      → (attempts (try_once sleep s k r).1.trace ≡ attempts r.trace + 1)
        × (time_slept (try_once sleep s k r).1.trace ≡ time_slept r.trace)
  unfolding try_once
  attempts-try_once k r =
      let (a, c, w) = s.action r.context r.world in
      attempts-settle k a (record r { context = c; world = w })

  abbrev Bounded : ℕ → ℕ → Run W → Run W → Type 0
  Bounded k left r u =
      (attempts u.trace ≤ attempts r.trace + left + 1)
      × (time_slept u.trace + s.retry_delay * 2 ^ k
          ≤ time_slept r.trace + s.retry_delay * 2 ^ (k + left))

  Bounded-pause :
      (k left : ℕ) (r v u : Run W)
      → (attempts v.trace ≡ attempts r.trace + 1) × (time_slept v.trace ≡ time_slept r.trace)
      → Bounded (k + 1) left (pause sleep (s.retry_delay * 2 ^ k) v) u
      → Bounded k (suc left) r u
  unfolding pause
  Bounded-pause k left r v u h b =
      let delay = s.retry_delay * 2 ^ k in
      let same : k + 1 + left ≡ k + suc left = omega arith in
      let spent = ap (λ (n : ℕ). s.retry_delay * 2 ^ n) same in
      (
        omega (arith, h.0, b.0, attempts-append v.trace (slept delay ∷ [])),
        omega (
          arith,
          h.1,
          b.1,
          time_slept-append v.trace (slept delay ∷ []),
          spent,
          double_pow s.retry_delay k,
        ),
      )

  attempts_from-Bounded :
      (k left : ℕ) (r : Run W) → Bounded k left r (attempts_from sleep s k left r).1
  unfolding attempts_from
  attempts_from-Bounded k zero r =
      let same : k + 0 ≡ k = omega arith in
      (omega (arith, attempts-try_once k r), rw same (omega (arith, attempts-try_once k r)))
  attempts_from-Bounded k (suc left) r =
      go (try_once sleep s k r).0 (try_once sleep s k r).1 (attempts-try_once k r)
        (λ v. attempts_from-Bounded (k + 1) left (pause sleep (s.retry_delay * 2 ^ k) v))
    where
      go :
          (x : Result Failure Context) (v : Run W)
          → (attempts v.trace ≡ attempts r.trace + 1) × (time_slept v.trace ≡ time_slept r.trace)
          → ((v : Run W)
              → Bounded
                  (k + 1)
                  left
                  (pause sleep (s.retry_delay * 2 ^ k) v)
                  (attempts_from sleep s (k + 1) left (pause sleep (s.retry_delay * 2 ^ k) v)).1)
          → Bounded k
              (suc left)
              r
              (elim x as (λ _. Result Failure Context × Run W) [
                | ok c ↦ (ok c, v)
                | err e ↦ attempts_from sleep s (k + 1) left (pause sleep (s.retry_delay * 2 ^ k) v)
              ]).1
      go (ok c) v h ih =
          (omega (arith, h.0), omega (arith, h.1, pow_grows s.retry_delay k (suc left)))
      go (err e) v h ih =
          Bounded-pause k left r v
            (attempts_from sleep s (k + 1) left (pause sleep (s.retry_delay * 2 ^ k) v)).1 h (ih v)

  -- A step is tried at most `retry_count + 1` times, and sleeps at most
  -- `retry_delay * (2 ^ retry_count - 1)` in all, whatever its action does.
  pub execute_bounds :
      (r : Run W)
      → (attempts (execute sleep s r).1.trace ≤ attempts r.trace + s.retry_count + 1)
        × (time_slept (execute sleep s r).1.trace + s.retry_delay
            ≤ time_slept r.trace + s.retry_delay * 2 ^ s.retry_count)
  unfolding execute
  execute_bounds r =
      let b = attempts_from-Bounded 0 s.retry_count (log (executing s.name) r) in
      let same : 0 + s.retry_count ≡ s.retry_count = omega arith in
      let bound = ap (λ (n : ℕ). s.retry_delay * 2 ^ n) same in
      (
        omega (arith, b.0, attempts-append r.trace (executing s.name ∷ [])),
        omega (arith, b.1, bound, time_slept-append r.trace (executing s.name ∷ [])),
      )

  abbrev pub Decides : ℕ → ℕ → Result Failure Context → Type 0
  Decides j last (ok c) = j ≤ last
  Decides j last (err e) = j ≡ last

  Decides-last : (k : ℕ) (x : Result Failure Context) → Decides k k x
  Decides-last k (ok c) = omega arith
  Decides-last k (err e) = refl

  abbrev Outcome : Run W → ℕ → Result Failure Context × Run W → Type 0
  Outcome r last (x, v) =
      (j : ℕ) × (u : Run W) × Fails r j u × (try_once sleep s j u ≡ (x, v)) × Decides j last x

  attempts_from-Outcome :
      (k left : ℕ) (r₀ r : Run W)
      → Fails r₀ k r
      → Outcome r₀ (k + left) (attempts_from sleep s k left r)
  unfolding attempts_from
  attempts_from-Outcome k zero r₀ r f =
      let same : k + 0 ≡ k = omega arith in (k, r, f, refl, rw same (Decides-last k _))
  attempts_from-Outcome k (suc left) r₀ r f =
      go (try_once sleep s k r).0 (try_once sleep s k r).1 refl
        (λ v. attempts_from-Outcome (k + 1) left r₀ (pause sleep (s.retry_delay * 2 ^ k) v))
    where
      go :
          (x : Result Failure Context) (v : Run W)
          → try_once sleep s k r ≡ (x, v)
          → ((v : Run W)
              → Fails r₀ (k + 1) (pause sleep (s.retry_delay * 2 ^ k) v)
              → Outcome r₀
                  (k + 1 + left)
                  (attempts_from sleep s (k + 1) left (pause sleep (s.retry_delay * 2 ^ k) v)))
          → Outcome r₀ (k + suc left) (elim x as (λ _. Result Failure Context × Run W) [
            | ok c ↦ (ok c, v)
            | err e ↦ attempts_from sleep s (k + 1) left (pause sleep (s.retry_delay * 2 ^ k) v)
          ])
      go (ok c) v e ih = (k, r, f, e, omega arith)
      go (err x) v e ih =
          let same : k + suc left ≡ k + 1 + left = omega arith in rw same (ih v (again f e))

  -- What `execute` answers is what one attempt answered, after attempts that all failed, each with
  -- its pause of `retry_delay * 2 ^ attempt`: a result comes from the first attempt that returns,
  -- among the first `retry_count + 1`, and an exception is that of attempt `retry_count`.
  pub execute_outcome :
      (r : Run W)
      → (j : ℕ) × (u : Run W) × Fails (log (executing s.name) r) j u
        × (try_once sleep s j u ≡ execute sleep s r)
        × Decides j s.retry_count (execute sleep s r).0
  unfolding execute
  execute_outcome r =
      let same : 0 + s.retry_count ≡ s.retry_count = omega arith in
      rw same at (attempts_from-Outcome 0 s.retry_count _ (log (executing s.name) r) start)
