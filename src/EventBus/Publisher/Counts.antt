-- ===== src/EventBus/Publisher/Counts.antt =====
-- What the metrics of a publisher say of one call of `publish`.
use taskforge_platform.Common.{
  ℕ, suc, ◌+◌, ◌≤◌, ◌<◌, ◌≡◌, refl, sym, ◌∙◌, subst, arith, Bool, true, false, String, Option, List,
  if◌then◌else◌,
}
use taskforge_platform.Common.Result.{⊤, Result, ok, err}
use taskforge_platform.EventBus.Publisher.{
  Failure, not_started, raised, retry_error, Outside, EventPublisher, Event, message_of,
  settle_publish, publish_once, Body, publish,
}

module _ {X W : Type 0} where
  -- What tenacity documents of `@retry`: it calls the body until it returns, at most so many times,
  -- waits in between, and raises RetryError behind the last exception.
  pub data Retried (body : Body X W)
      : ℕ → EventPublisher W → Result (Failure X) ⊤ × EventPublisher W → Type 0 where
    returns :
        (n : ℕ) (p q : EventPublisher W) → body p ≡ (ok tt, q) → Retried body (suc n) p (ok tt, q)
    gives_up :
        (x : Failure X) (p q : EventPublisher W)
        → body p ≡ (err x, q)
        → Retried body 1 p (err retry_error, q)
    again :
        (n : ℕ) (x : Failure X) (w : W) (p q : EventPublisher W)
        {r : Result (Failure X) ⊤ × EventPublisher W}
        → body p ≡ (err x, q)
        → Retried body (suc n) (record q { world = w }) r
        → Retried body (suc (suc n)) p r

  -- What one attempt leaves.
  abbrev Once : EventPublisher W → Result (Failure X) ⊤ × EventPublisher W → Type 0
  Once p (ok _, q) =
      (p.has_producer ≡ true)
      × (q.has_producer ≡ true)
      × (q.events_published ≡ p.events_published + 1)
      × (q.publish_errors ≡ p.publish_errors)
  Once p (err x, q) =
      (q.has_producer ≡ p.has_producer)
      × (q.events_published ≡ p.events_published)
      × (p.publish_errors ≤ q.publish_errors)
      × (q.publish_errors ≤ p.publish_errors + 1)

  -- What at most `n` attempts leave.
  abbrev pub Counts : ℕ → EventPublisher W → Result (Failure X) ⊤ × EventPublisher W → Type 0
  Counts n p (ok _, q) =
      (p.has_producer ≡ true)
      × (q.events_published ≡ p.events_published + 1)
      × (p.publish_errors ≤ q.publish_errors)
      × (q.publish_errors < p.publish_errors + n)
  Counts n p (err x, q) =
      (x ≡ retry_error)
      × (q.has_producer ≡ p.has_producer)
      × (q.events_published ≡ p.events_published)
      × (p.publish_errors ≤ q.publish_errors)
      × (q.publish_errors ≤ p.publish_errors + n)

  Counts-again :
      (n : ℕ) (x : Failure X) (w : W) (p q : EventPublisher W)
      (r : Result (Failure X) ⊤ × EventPublisher W)
      → Once p (err x, q)
      → Counts (suc n) (record q { world = w }) r
      → Counts (suc (suc n)) p r
  Counts-again n x w p q (ok _, t) (a, b, c, d) (a', b', c', d') =
      (sym a ∙ a', omega (arith, b, b'), omega (arith, c, c'), omega (arith, d, d'))
  Counts-again n x w p q (err y, t) (a, b, c, d) (e', a', b', c', d') =
      (e', a' ∙ a, omega (arith, b, b'), omega (arith, c, c'), omega (arith, d, d'))

  module _ (body : Body X W) (once : (p : EventPublisher W) → Once p (body p)) where
    Counts-Retried :
        {n : ℕ} {p : EventPublisher W} {r : Result (Failure X) ⊤ × EventPublisher W}
        → Retried body n p r
        → Counts n p r
    Counts-Retried (returns n p q h) =
        let (a, b, c, d) = subst (Once p) h (once p) in (a, c, omega (arith, d), omega (arith, d))
    Counts-Retried (gives_up x p q h) =
        let (a, b, c, d) = subst (Once p) h (once p) in (refl, a, b, c, d)
    Counts-Retried (again n x w p q {r} h t) =
        Counts-again n x w p q r (subst (Once p) h (once p)) (Counts-Retried t)

module _ {X W : Type 0} (out : Outside X W) where
  settle_publish-Once :
      (r : Result X ⊤) (p : EventPublisher W)
      → p.has_producer ≡ true
      → Once p (settle_publish out r p)
  unfolding settle_publish
  settle_publish-Once (ok _) p h = (h, h, refl, refl)
  settle_publish-Once (err x) p h = go (out.is_kafka_error x)
    where
      go :
          (b : Bool)
          → Once p
              (err (raised x), if b then record p { publish_errors = p.publish_errors + 1 } else p)
      go true = (refl, refl, omega arith, omega arith)
      go false = (refl, refl, omega arith, omega arith)

  publish_once-Once :
      (topic : String) (e : Event) (key : Option String) (headers : List (String × String))
      (p : EventPublisher W)
      → Once p (publish_once out topic e key headers p)
  unfolding publish_once
  publish_once-Once topic e key headers p = go p.has_producer refl
    where
      w : W
      w = (out.new_uuid p.world).1

      sent : Result X ⊤ × W
      sent = out.send (message_of topic e key headers (out.new_uuid p.world).0) w

      go :
          (b : Bool)
          → p.has_producer ≡ b
          → Once p (
              if b
              then settle_publish out sent.0 (record p { world = sent.1 })
              else (err not_started, p))
      go true h = settle_publish-Once sent.0 (record p { world = sent.1 }) h
      go false h = (refl, refl, omega arith, omega arith)

  -- If `@retry` is as documented, `publish` makes at most three attempts that count an error.
  pub publish-Counts :
      (retry : ℕ → Body X W → Body X W)
      → ((n : ℕ) (body : Body X W) (p : EventPublisher W)
          → Retried body (suc n) p (retry (suc n) body p))
      → (topic : String) (e : Event) (key : Option String) (headers : List (String × String))
        (p : EventPublisher W)
      → Counts 3 p (publish out retry topic e key headers p)
  unfolding publish
  publish-Counts retry documented topic e key headers p =
      Counts-Retried (publish_once out topic e key headers) (publish_once-Once topic e key headers)
        (documented 2 (publish_once out topic e key headers) p)
