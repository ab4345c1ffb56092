-- ===== src/EventBus/Metrics.antt =====
-- What the metrics of a subscriber say of the messages that it has taken.
use taskforge_platform.Common.{ℕ, ◌+◌, ◌≤◌, ◌≡◌, false, ◌⊎◌, List, length}
use taskforge_platform.Common.Result.{⊤, Result, err}
use taskforge_platform.EventBus.{Outside, EventSubscriber}

-- `n` messages were taken from `s` to `t`: each was handled or counted as an error, or both, and
-- not every error needs to have reached the dead letter queue.
pub record Accounts {W : Type 0} (n : ℕ) (s t : EventSubscriber W) : Type 0 where
  pub counted : n + s.events_consumed + s.handler_errors ≤ t.events_consumed + t.handler_errors
  pub no_more_consumed : t.events_consumed ≤ s.events_consumed + n
  pub no_more_errors : t.handler_errors ≤ s.handler_errors + n
  pub grows : s.dlq_events ≤ t.dlq_events
  pub no_more_dead : t.dlq_events + s.handler_errors ≤ s.dlq_events + t.handler_errors

module _ {X W : Type 0} where
  -- Before the `except` block.
  abbrev Tried : EventSubscriber W → Result X ⊤ × EventSubscriber W → Type 0
  Tried s (r, t) =
      (t.events_consumed ≤ s.events_consumed + 1)
      × (s.events_consumed ≤ t.events_consumed)
      × (t.handler_errors ≡ s.handler_errors)
      × (t.dlq_events ≡ s.dlq_events)
      × ((t.events_consumed ≡ s.events_consumed + 1) ⊎ ((x : X) × (r ≡ err x)))

module _ {M E X W : Type 0} (out : Outside M E X W) where
  -- How many messages the loop took: all of them, or the flag is cleared at the end.
  abbrev pub Took : List M → EventSubscriber W → EventSubscriber W → Type 0
  Took ms s t =
      (n : ℕ) × (n ≤ length ms)
      × Accounts n s t
      × ((n ≡ length ms) ⊎ (out.is_running t.world ≡ false))
