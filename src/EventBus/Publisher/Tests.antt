-- ===== src/EventBus/Publisher/Tests.antt =====
-- A publisher whose broker refuses the first message.
use taskforge_platform.Common.{
  ℕ, zero, suc, ◌+◌, ◌≡◌, refl, true, String, none, some, [], nat_beq, if◌then◌else◌,
}
use taskforge_platform.Common.Result.{⊤, Result, ok, err}
use taskforge_platform.EventBus.Publisher.{
  Failure, retry_error, Outside, EventPublisher, Event, new_publisher, Body, start, publish,
}
use taskforge_platform.EventBus.Publisher.Counts.{Retried, returns, gives_up, again, Counts}
use taskforge_platform.EventSourcing.{DomainEvent}
use taskforge_platform.Persistence.UnitOfWork.{publish_with_retry}
use taskforge_platform.Persistence.UnitOfWork.Publishing.{
  ended, on_bus, rest, publish_with_retry-Counts,
}

-- Retries without waiting.
abbrev followed :
    {X W : Type 0}
    → Result (Failure X) ⊤
    → EventPublisher W
    → Body X W
    → Result (Failure X) ⊤ × EventPublisher W
followed (ok _) q next = (ok tt, q)
followed (err x) q next = next q

abbrev given_up :
    {X W : Type 0}
    → Result (Failure X) ⊤
    → EventPublisher W
    → Result (Failure X) ⊤ × EventPublisher W
given_up (ok _) q = (ok tt, q)
given_up (err x) q = (err retry_error, q)

abbrev retry : {X W : Type 0} → ℕ → Body X W → Body X W
retry zero body p = (err retry_error, p)
retry (suc zero) body p = let (r, q) = body p in given_up r q
retry (suc (suc n)) body p = let (r, q) = body p in followed r q (retry (suc n) body)

module _ {X W : Type 0} where
  retry-Retried :
      (n : ℕ) (body : Body X W) (p : EventPublisher W)
      → Retried body (suc n) p (retry (suc n) body p)
  retry-Retried zero body p = go (body p).0 (body p).1 refl
    where
      go :
          (r : Result (Failure X) ⊤) (q : EventPublisher W)
          → body p ≡ (r, q)
          → Retried body 1 p (given_up r q)
      go (ok _) q h = returns 0 p q h
      go (err x) q h = gives_up x p q h
  retry-Retried (suc n) body p = go (λ q. retry-Retried n body q) (body p).0 (body p).1 refl
    where
      go :
          ((q : EventPublisher W) → Retried body (suc n) q (retry (suc n) body q))
          → (r : Result (Failure X) ⊤) (q : EventPublisher W) → body p ≡ (r, q)
          → Retried body (suc (suc n)) p (followed r q (retry (suc n) body))
      go ih (ok _) q h = returns (suc n) p q h
      go ih (err x) q h = again n x q.world p q h (ih q)

-- The world counts the messages.
abbrev outside : Outside String ℕ
outside = record {
  start_producer = λ w. (ok tt, w);
  stop_producer = λ w. (ok tt, w);
  send = λ m w. (if nat_beq w 0 then err "no leader" else ok tt, w + 1);
  is_kafka_error = λ x. true;
  new_uuid = λ w. ("c", w);
  utcnow = λ w. w;
}

abbrev created : Event
created = record {
  aggregate_id = "t1";
  event_type = "task.created";
  version_text = "1";
  written = [];
}

abbrev started : EventPublisher ℕ
unfolding start new_publisher
started = (start outside (new_publisher 0)).1

second_attempt : (publish outside retry "task.events" created none [] started).1 ≡ record {
  has_producer = true;
  events_published = 1;
  publish_errors = 1;
  last_publish_time = some 2;
  world = 2;
}
unfolding publish started
second_attempt = refl

not_started_yet :
    publish outside retry "task.events" created none [] (new_publisher 0)
    ≡ (err retry_error, new_publisher 0)
unfolding publish new_publisher
not_started_yet = refl

abbrev stored : DomainEvent ℕ
stored = record {
  event_id = "e1";
  aggregate_id = "t1";
  version = 1;
  occurred_at = record { micros = 0; tzinfo = none };
  metadata = [];
  user_id = "ann";
  body = 0;
}

abbrev read : DomainEvent ℕ → Event
read e = created

abbrev sleep : ℕ → ℕ → ℕ
sleep d w = w + d

publish_with_retry-Counts_example :
    let (x, q) =
      publish_with_retry
        (on_bus outside retry read sleep)
        (rest outside retry read sleep)
        "task.events"
        stored
        3
        started in
    Counts 9 started (ended x, q)
publish_with_retry-Counts_example =
    publish_with_retry-Counts outside retry read sleep retry-Retried "task.events" stored started
