-- ===== src/EventBus/Clients.antt =====
-- The two Kafka clients of `EventSubscriber` in libs/common/event_bus.py: how they are started and
-- stopped, and the guard of `consume`.
use taskforge_platform.Common.{Bool, true, false, List, if◌then◌else◌}
use taskforge_platform.Common.Result.{⊤, Result, ok, err}
use taskforge_platform.Common.Method.{Method, modify, when, ◌>>◌}
use taskforge_platform.EventBus.{Outside, EventSubscriber, consume}

-- What starting and stopping the consumer and the producer end with.
pub record Kafka (X W : Type 0) : Type 0 where
  pub start_consumer : W → Result X ⊤ × W
  pub start_producer : W → Result X ⊤ × W
  pub stop_consumer : W → Result X ⊤ × W
  pub stop_producer : W → Result X ⊤ × W

pub record Clients (W : Type 0) : Type 0 where
  pub has_consumer : Bool  -- `_consumer is not None`
  pub has_dlq_producer : Bool  -- `_dlq_producer is not None`
  pub is_running : Bool
  pub world : W

unfoldable pub new_clients : {W : Type 0} → W → Clients W
new_clients w = record {
  has_consumer = false;
  has_dlq_producer = false;
  is_running = false;
  world = w;
}

module _ {X W : Type 0} (kafka : Kafka X W) where
  abbrev pub ask : (W → Result X ⊤ × W) → Method (Clients W) X ⊤
  ask f c = let (r, w) = f c.world in (r, record c { world = w })

  -- `start`: both clients are kept before they are started.
  unfoldable pub start : Method (Clients W) X ⊤
  start =
      modify (λ c. record c { has_consumer = true; has_dlq_producer = true })
      >> ask kafka.start_consumer
      >> ask kafka.start_producer
      >> modify (λ c. record c { is_running = true })

  -- `stop`
  unfoldable pub stop : Method (Clients W) X ⊤
  stop =
      modify (λ c. record c { is_running = false })
      >> (λ c. when c.has_consumer (ask kafka.stop_consumer) c)
      >> (λ c. when c.has_dlq_producer (ask kafka.stop_producer) c)

-- `consume` with its guard: `not_started` is the RuntimeError.
unfoldable pub consume_started :
    {M E X W : Type 0} → Outside M E X W → X → Bool → List M → Method (EventSubscriber W) X ⊤
unfolding consume
consume_started out not_started has_consumer ms s =
    if has_consumer then (ok tt, consume out ms s) else (err not_started, s)
