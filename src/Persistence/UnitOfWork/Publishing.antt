-- ===== src/Persistence/UnitOfWork/Publishing.antt =====
-- `_publish_with_retry` of the unit of work with the publisher of the event bus behind it: both
-- retry, three times each. What is said here is of a run to its end: `commit` cancels its tasks after
-- ten seconds (`cancelled_tasks`), and a cancelled task stops where it waits.
use taskforge_platform.Common.{
  ℕ, zero, suc, ◌+◌, ◌*◌, ◌^◌, sym, ◌∙◌, subst, arith, String, Option, none, some, [],
}
use taskforge_platform.Common.Result.{⊤, Result, ok, err}
use taskforge_platform.EventSourcing.{DomainEvent}
use taskforge_platform.EventBus.Publisher.{Failure, Outside, EventPublisher, Event, Body, publish}
use taskforge_platform.EventBus.Publisher.Counts.{Retried, Counts, publish-Counts}
use taskforge_platform.Persistence.UnitOfWork.{publish_from, publish_with_retry}

-- The exception of a call, as an option.
abbrev pub raised_by : {X : Type 0} → Result X ⊤ → Option X
raised_by (ok _) = none
raised_by (err x) = some x

abbrev pub ended : {X : Type 0} → Option X → Result X ⊤
ended none = ok tt
ended (some x) = err x

module _ {X W : Type 0} where
  Counts-ended :
      (n : ℕ) (p : EventPublisher W) (r : Result (Failure X) ⊤) (q : EventPublisher W)
      → Counts n p (r, q)
      → Counts n p (ended (raised_by r), q)
  Counts-ended n p (ok _) q h = h
  Counts-ended n p (err x) q h = h

  -- Attempts that failed, and then more.
  Counts-then :
      (m n : ℕ) (x : Failure X) (w : W) (p q : EventPublisher W) (r : Result (Failure X) ⊤)
      (t : EventPublisher W)
      → Counts m p (err x, q)
      → Counts n (record q { world = w }) (r, t)
      → Counts (m + n) p (r, t)
  Counts-then m n x w p q (ok _) t (e, a, b, c, d) (a', b', c', d') =
      (sym a ∙ a', omega (arith, b, b'), omega (arith, c, c'), omega (arith, d, d'))
  Counts-then m n x w p q (err y) t (e, a, b, c, d) (e', a', b', c', d') =
      (e', a' ∙ a, omega (arith, b, b'), omega (arith, c, c'), omega (arith, d, d'))

module _ {B X W : Type 0} (out : Outside X W) (retry : ℕ → Body X W → Body X W)
    (read : DomainEvent B → Event) (sleep : ℕ → W → W) where
  -- `self.event_publisher.publish(topic=topic, event=event)`
  abbrev pub on_bus :
      String → DomainEvent B → EventPublisher W → Option (Failure X) × EventPublisher W
  unfolding publish
  on_bus topic e p = let (r, q) = publish out retry topic (read e) none [] p in (raised_by r, q)

  -- A pause of the task, while the publisher is not used.
  abbrev pub rest : ℕ → EventPublisher W → EventPublisher W
  rest seconds p = record p { world = sleep seconds p.world }

  module _
      (documented : (n : ℕ) (body : Body X W) (p : EventPublisher W)
        → Retried body (suc n) p (retry (suc n) body p)) where
    on_bus-Counts :
        (topic : String) (e : DomainEvent B) (p : EventPublisher W)
        → Counts 3 p (ended (on_bus topic e p).0, (on_bus topic e p).1)
    unfolding on_bus
    on_bus-Counts topic e p =
        let a = publish out retry topic (read e) none [] p in
        Counts-ended 3 p a.0 a.1 (publish-Counts out retry documented topic (read e) none [] p)

    publish_from-Counts :
        (topic : String) (e : DomainEvent B) (attempt left : ℕ) (p : EventPublisher W)
        → let (x, q) = publish_from on_bus rest topic e attempt (suc left) p in
          Counts (3 * suc left) p (ended x, q)
    unfolding publish_from
    publish_from-Counts topic e attempt zero p = on_bus-Counts topic e p
    publish_from-Counts topic e attempt (suc left) p =
        go (λ w q. publish_from-Counts topic e (attempt + 1) left (record q { world = w }))
          (on_bus topic e p).0 (on_bus topic e p).1 (on_bus-Counts topic e p)
      where
        later : EventPublisher W → Option (Failure X) × EventPublisher W
        later q = publish_from on_bus rest topic e (attempt + 1) (suc left) q

        go :
            ((w : W) (q : EventPublisher W)
              → let a = later (record q { world = w }) in
                Counts (3 * suc left) (record q { world = w }) (ended a.0, a.1))
            → (x : Option (Failure X)) (q : EventPublisher W) → Counts 3 p (ended x, q)
            → let r = elim x as (λ _. Option (Failure X) × EventPublisher W) [
              | none ↦ (none, q)
              | some _ ↦ later (rest (2 ^ attempt) q)
            ] in
              Counts (3 * suc (suc left)) p (ended r.0, r.1)
        go ih none q (a, b, c, d) = (a, b, c, omega (arith, d))
        go ih (some y) q h =
            let w = sleep (2 ^ attempt) q.world in
            let r = later (record q { world = w }) in
            subst (λ n. Counts n p (ended r.0, r.1)) (omega arith)
              (Counts-then 3 (3 * suc left) y w p q (ended r.0) r.1 h (ih w q))

    -- If `@retry` is as documented, nobody else uses the publisher meanwhile, and the task is not
    -- cancelled: a run of `_publish_with_retry` with its three attempts either returns, from a
    -- publisher that was started, and the metrics count one more event published and at most eight
    -- more errors; or it raises RetryError, and they count no event and at most nine more errors.
    pub publish_with_retry-Counts :
        (topic : String) (e : DomainEvent B) (p : EventPublisher W)
        → let (x, q) = publish_with_retry on_bus rest topic e 3 p in Counts 9 p (ended x, q)
    unfolding publish_with_retry
    publish_with_retry-Counts topic e p = publish_from-Counts topic e 0 2 p
