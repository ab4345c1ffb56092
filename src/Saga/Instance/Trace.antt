-- ===== src/Saga/Instance/Trace.antt =====
-- What the trace of a saga shows of its compensation: which steps `compensate` was called on, in
-- order, and how many compensations raised.
use taskforge_platform.Common.{
  ℕ, ◌+◌, ◌*◌, ◌^◌, ◌≡◌, refl, sym, ap, ◌∙◌, arith, String, Option, none, some, List, [], ◌∷◌, ◌++◌,
  map, Bool, true, false, length, length-append, append_assoc, append-nil, subst,
}
use taskforge_platform.Common.Result.{⊤, Result, ok, err}
use taskforge_platform.Saga.Step.{
  Failure, Entry, executing, completed, timed_out, failed, slept, no_compensation, compensating,
  compensated, compensation_failed, Run, Attempt, returned, ran_out, raised, Handler, SagaStep, log,
  pause, settle, try_once, execute, compensate, compensate_with, run_compensation,
  settle_compensation,
}
use taskforge_platform.Saga.Step.Retries.{Fails, start, again, execute_outcome}
use taskforge_platform.Saga.Instance.{compensate_all}

abbrev pub undone : List Entry → List String
undone [] = []
undone (no_compensation n ∷ t) = n ∷ undone t
undone (compensating n ∷ t) = n ∷ undone t
undone (e ∷ t) = undone t

abbrev pub faults : List Entry → ℕ
faults [] = 0
faults (compensation_failed n ∷ t) = faults t + 1
faults (e ∷ t) = faults t

pub undone-append : (t u : List Entry) → undone (t ++ u) ≡ undone t ++ undone u
undone-append [] u = refl
undone-append (no_compensation n ∷ t) u = ap (λ l. n ∷ l) (undone-append t u)
undone-append (compensating n ∷ t) u = ap (λ l. n ∷ l) (undone-append t u)
undone-append (e ∷ t) u = undone-append t u

pub faults-append : (t u : List Entry) → faults (t ++ u) ≡ faults t + faults u
faults-append [] u = omega arith
faults-append (compensation_failed n ∷ t) u = omega (arith, faults-append t u)
faults-append (e ∷ t) u = faults-append t u

-- Two runs show the same of the compensation.
abbrev pub SameUndone : {W : Type 0} → Run W → Run W → Type 0
SameUndone r u = (undone u.trace ≡ undone r.trace) × (faults u.trace ≡ faults r.trace)

-- An entry that is not about compensation.
abbrev pub IsForward : Entry → Type 0
IsForward e = (undone (e ∷ []) ≡ []) × (faults (e ∷ []) ≡ 0)

module _ {W : Type 0} where
  pub forward_entry :
      (r u : Run W) (e : Entry) → IsForward e → u.trace ≡ r.trace ++ e ∷ [] → SameUndone r u
  forward_entry r u e f h = (
    rw h (undone-append r.trace (e ∷ []) ∙ (ap (λ l. undone r.trace ++ l) f.0 ∙ append-nil _)),
    rw h (omega (arith, f.1, faults-append r.trace (e ∷ []))),
  )

  SameUndone-log : (r : Run W) (e : Entry) → IsForward e → SameUndone r (log e r)
  SameUndone-log r e f = forward_entry r (log e r) e f refl

  SameUndone-trans : (r u v : Run W) → SameUndone r u → SameUndone u v → SameUndone r v
  SameUndone-trans r u v h k = (k.0 ∙ h.0, k.1 ∙ h.1)

module _ {W : Type 0} (sleep : ℕ → W → W) (s : SagaStep W) where
  SameUndone-settle : (k : ℕ) (a : Attempt) (r : Run W) → SameUndone r (settle sleep s k a r).1
  unfolding settle
  SameUndone-settle k (returned none) r = SameUndone-log r (completed s.name (k + 1)) (refl, refl)
  SameUndone-settle k (returned (some c)) r =
      SameUndone-log r (completed s.name (k + 1)) (refl, refl)
  SameUndone-settle k ran_out r = SameUndone-log r (timed_out s.name (k + 1)) (refl, refl)
  SameUndone-settle k (raised e) r = SameUndone-log r (failed s.name (k + 1)) (refl, refl)

  SameUndone-try_once : (k : ℕ) (r : Run W) → SameUndone r (try_once sleep s k r).1
  unfolding try_once
  SameUndone-try_once k r =
      let (a, c, w) = s.action r.context r.world in
      SameUndone-settle k a (record r { context = c; world = w })

  SameUndone-pause : (d : ℕ) (r : Run W) → SameUndone r (pause sleep d r)
  unfolding pause
  SameUndone-pause d r = forward_entry r (pause sleep d r) (slept d) (refl, refl) refl

  SameUndone-Fails : {r : Run W} {k : ℕ} {u : Run W} → Fails sleep s r k u → SameUndone r u
  SameUndone-Fails start = (refl, refl)
  SameUndone-Fails {r} (again {k} {u} {v} f e) =
      let d = s.retry_delay * 2 ^ k in
      SameUndone-trans r u (pause sleep d v) (SameUndone-Fails f) (
        SameUndone-trans u v (pause sleep d v)
          (subst (λ p. SameUndone u p.1) e (SameUndone-try_once k u)) (SameUndone-pause d v))

  pub SameUndone-execute : (r : Run W) → SameUndone r (execute sleep s r).1
  SameUndone-execute r =
      let (j, u, f, e, _) = execute_outcome sleep s r in
      let begun = log (executing s.name) r in
      let ended = (execute sleep s r).1 in
      SameUndone-trans r begun ended (SameUndone-log r (executing s.name) (refl, refl)) (
        SameUndone-trans begun u ended (SameUndone-Fails f)
          (subst (λ p. SameUndone u p.1) e (SameUndone-try_once j u)))

-- One call of `compensate` shows its step, and a fault exactly if it raises.
abbrev pub is_fault : {A : Type 0} → Result Failure A → ℕ
is_fault (ok a) = 0
is_fault (err e) = 1

count_fault :
    (x : Result Failure ⊤) (errors : List String) (n : String)
    → length (elim x as (λ _. List String) [ ok _ ↦ errors | err e ↦ errors ++ n ∷ [] ])
      ≡ length errors + is_fault x
count_fault (ok _) errors n = omega arith
count_fault (err e) errors n = length-append errors (n ∷ [])

module _ {W : Type 0} where
  trace-settle_compensation :
      (n : String) (x : Option Failure) (r : Run W)
      → let (y, u) = settle_compensation n x r in
        (undone u.trace ≡ undone r.trace) × (faults u.trace ≡ faults r.trace + is_fault y)
  unfolding settle_compensation
  trace-settle_compensation n none r = (
    undone-append r.trace (compensated n ∷ []) ∙ append-nil _,
    omega (arith, faults-append r.trace (compensated n ∷ [])),
  )
  trace-settle_compensation n (some e) r = (
    undone-append r.trace (compensation_failed n ∷ []) ∙ append-nil _,
    omega (arith, faults-append r.trace (compensation_failed n ∷ [])),
  )

  trace-run_compensation :
      (n : String) (h : Handler W) (r : Run W)
      → let (y, u) = run_compensation n h r in
        (undone u.trace ≡ undone r.trace ++ n ∷ []) × (faults u.trace ≡ faults r.trace + is_fault y)
  unfolding run_compensation
  trace-run_compensation n h r =
      let (x, c, w) = h r.context r.world in
      let t =
        trace-settle_compensation n x
          (record r { context = c; world = w; trace = r.trace ++ compensating n ∷ [] }) in
      (
        t.0 ∙ undone-append r.trace (compensating n ∷ []),
        omega (arith, t.1, faults-append r.trace (compensating n ∷ [])),
      )

  trace-no_compensation :
      (n : String) (r : Run W)
      → let u = log (no_compensation n) r in
        (undone u.trace ≡ undone r.trace ++ n ∷ []) × (faults u.trace ≡ faults r.trace + 0)
  trace-no_compensation n r = (
    undone-append r.trace (no_compensation n ∷ []),
    faults-append r.trace (no_compensation n ∷ []),
  )

  trace-compensate_with :
      (n : String) (o : Option (Handler W)) (b : Bool) (r : Run W)
      → let (y, u) = compensate_with n o b r in
        (undone u.trace ≡ undone r.trace ++ n ∷ []) × (faults u.trace ≡ faults r.trace + is_fault y)
  unfolding compensate_with
  trace-compensate_with n none b r = trace-no_compensation n r
  trace-compensate_with n (some h) false r = trace-no_compensation n r
  trace-compensate_with n (some h) true r = trace-run_compensation n h r

  pub trace-compensate :
      (s : SagaStep W) (r : Run W)
      → let (y, u) = compensate s r in
        (undone u.trace ≡ undone r.trace ++ s.name ∷ [])
        × (faults u.trace ≡ faults r.trace + is_fault y)
  unfolding compensate
  trace-compensate s r = trace-compensate_with s.name s.compensation s.is_compensatable r

  -- The loop calls `compensate` once on each step, in the order given, whether or not an earlier
  -- one raised, and `compensation_errors` grows by the number of those that raised.
  pub trace-compensate_all :
      (steps : List (SagaStep W)) (errors : List String) (r : Run W)
      → let (errors', u) = compensate_all steps errors r in
        (undone u.trace ≡ undone r.trace ++ map (λ s. s.name) steps)
        × (length errors' + faults r.trace ≡ length errors + faults u.trace)
  unfolding compensate_all
  trace-compensate_all [] errors r = (sym (append-nil _), refl)
  trace-compensate_all (s ∷ rest) errors r =
      let (x, u) = compensate s r in
      let c = trace-compensate s r in
      let ih =
        trace-compensate_all rest
          (elim x as (λ _. List String) [ ok _ ↦ errors | err e ↦ errors ++ s.name ∷ [] ]) u in
      (
        ih.0 ∙ (ap (λ l. l ++ map (λ t. t.name) rest) c.0 ∙ append_assoc (undone r.trace) _ _),
        omega (arith, ih.1, c.1, count_fault x errors s.name),
      )
