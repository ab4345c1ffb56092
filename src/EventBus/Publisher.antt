-- ===== src/EventBus/Publisher.antt =====
-- `EventPublisher` of libs/common/event_bus.py. The Kafka producer is a client library: what its
-- calls end with is an argument, as is the time.
pub mod Counts
mod Tests
use taskforge_platform.Common.{
  ℕ, zero, suc, ◌+◌, ◌*◌, ◌-◌, ◌^◌, ◌≤◌, ◌<◌, ◌≡◌, refl, sym, ◌∙◌, subst, ◌⊎◌, inl, inr, arith,
  Bool, true, false, String, Option, none, some, List, [], ◌∷◌, ◌++◌, map, is_empty, is_nil,
  if◌then◌else◌,
}
use taskforge_platform.Common.Dict.{Dict}
use taskforge_platform.Common.Value.{Value}
use taskforge_platform.Common.Result.{⊤, Result, ok, err}

-- A message as it is handed to `send`; the texts of the headers are encoded by the call.
pub record Message : Type 0 where
  pub topic : String
  pub value : Dict Value
  pub key : String
  pub headers : List (String × String)

pub data Failure (X : Type 0) : Type 0 where
  not_started : Failure X  -- RuntimeError
  raised : X → Failure X
  retry_error : Failure X  -- tenacity's RetryError

-- The producer and the world around it. `send` is the call of `send` with its confirmation.
pub record Outside (X W : Type 0) : Type 0 where
  pub start_producer : W → Result X ⊤ × W
  pub stop_producer : W → Result X ⊤ × W
  pub send : Message → W → Result X ⊤ × W
  pub is_kafka_error : X → Bool
  pub new_uuid : W → String × W
  pub utcnow : W → ℕ

pub record EventPublisher (W : Type 0) : Type 0 where
  pub has_producer : Bool  -- `_producer is not None`
  pub events_published : ℕ
  pub publish_errors : ℕ
  pub last_publish_time : Option ℕ
  pub world : W

-- What `publish` reads of an event.
pub record Event : Type 0 where
  pub aggregate_id : String
  pub event_type : String
  pub version_text : String  -- str(event.version)
  pub written : Dict Value  -- event.to_dict()

unfoldable pub new_publisher : {W : Type 0} → W → EventPublisher W
new_publisher w = record {
  has_producer = false;
  events_published = 0;
  publish_errors = 0;
  last_publish_time = none;
  world = w;
}

-- `key or event.aggregate_id`
abbrev key_of : Option String → Event → String
key_of none e = e.aggregate_id
key_of (some k) e = if is_empty k then e.aggregate_id else k

unfoldable pub message_of :
    String → Event → Option String → List (String × String) → String → Message
message_of topic e key headers correlation = record {
  topic = topic;
  value = e.written;
  key = key_of key e;
  headers =
      (("event_type", e.event_type)
        ∷ ("event_version", e.version_text)
        ∷ ("correlation_id", correlation)
        ∷ [])
      ++ headers;
}

-- The body that `@retry` is put on.
abbrev pub Body : Type 0 → Type 0 → Type 0
Body X W = EventPublisher W → Result (Failure X) ⊤ × EventPublisher W

module _ {X W : Type 0} (out : Outside X W) where
  -- `start`: the producer is kept also if starting it raises.
  unfoldable pub start : EventPublisher W → Result X ⊤ × EventPublisher W
  start p =
      let (r, w) = out.start_producer p.world in
      if p.has_producer then (ok tt, p) else (r, record p { has_producer = true; world = w })

  -- `stop` behind the call of the producer.
  abbrev pub stopped : Result X ⊤ → EventPublisher W → Result X ⊤ × EventPublisher W
  stopped (ok _) p = (ok tt, record p { has_producer = false })
  stopped (err x) p = (err x, p)

  unfoldable pub stop : EventPublisher W → Result X ⊤ × EventPublisher W
  stop p =
      let (r, w) = out.stop_producer p.world in
      if p.has_producer then stopped r (record p { world = w }) else (ok tt, p)

  -- The rest of the `try` statement behind the confirmation.
  unfoldable pub settle_publish :
      Result X ⊤ → EventPublisher W → Result (Failure X) ⊤ × EventPublisher W
  settle_publish (ok _) p = (
    ok tt,
    record p {
      events_published = p.events_published + 1;
      last_publish_time = some (out.utcnow p.world);
    },
  )
  settle_publish (err x) p = (
    err (raised x),
    if out.is_kafka_error x then record p { publish_errors = p.publish_errors + 1 } else p,
  )

  -- One attempt of `publish`: the body that the decorator repeats.
  unfoldable pub publish_once :
      String
      → Event
      → Option String
      → List (String × String)
      → EventPublisher W
      → Result (Failure X) ⊤ × EventPublisher W
  unfolding settle_publish message_of
  publish_once topic e key headers p =
      let (correlation, w) = out.new_uuid p.world in
      let (r, w') = out.send (message_of topic e key headers correlation) w in
      if p.has_producer then settle_publish r (record p { world = w' }) else (err not_started, p)

  -- `publish`, where `retry` is the decorator of tenacity with `stop_after_attempt` at a number.
  unfoldable pub publish :
      (ℕ → Body X W → Body X W)
      → String
      → Event
      → Option String
      → List (String × String)
      → EventPublisher W
      → Result (Failure X) ⊤ × EventPublisher W
  unfolding publish_once
  publish retry topic e key headers = retry 3 (publish_once topic e key headers)
