-- ===== src/EventBus.antt =====
-- `EventSubscriber` of libs/common/event_bus.py: its loop over the messages of a topic, its metrics
-- and its dead letter queue. The Kafka clients, the handler and the flag `_running`, which others
-- clear, belong to a world; the exceptions are of any type.
pub mod Metrics
pub mod Publisher
pub mod Clients
mod Tests
use taskforge_platform.Common.{
  ℕ, ◌+◌, Bool, true, false, String, Option, none, some, List, [], ◌∷◌, if◌then◌else◌,
}
use taskforge_platform.Common.Result.{⊤, Result, ok, err}

-- What is sent to the dead letter queue, without its time.
pub record DlqEvent (M X : Type 0) : Type 0 where
  pub original_event : M
  pub error : X
  pub topic : String
  pub consumer_group : String

-- What the subscriber calls: `from_dict` of its event class, its handler, the offset commit of its
-- consumer, `send` of its producer, and the flag.
pub record Outside (M E X W : Type 0) : Type 0 where
  pub from_dict : M → Result X E
  pub handler : E → W → Result X ⊤ × W
  pub commit : W → Result X ⊤ × W
  pub send : String → DlqEvent M X → W → Result X ⊤ × W
  pub is_running : W → Bool

pub record EventSubscriber (W : Type 0) : Type 0 where
  pub topic : String
  pub dlq_topic : String  -- f"{self.topic}.dlq"
  pub group_id : String
  pub enable_auto_commit : Bool
  pub events_consumed : ℕ
  pub handler_errors : ℕ
  pub dlq_events : ℕ
  pub world : W

module _ {M E X W : Type 0} (out : Outside M E X W) where
  -- `_send_to_dlq` behind the call of `send`: its exception is logged.
  unfoldable pub sent : Result X ⊤ → EventSubscriber W → EventSubscriber W
  sent (ok _) s = record s { dlq_events = s.dlq_events + 1 }
  sent (err x) s = s

  -- `_send_to_dlq`
  unfoldable pub send_to_dlq : M → X → EventSubscriber W → EventSubscriber W
  unfolding sent
  send_to_dlq m x s =
      let (r, w) =
        out.send s.dlq_topic
          (record { original_event = m; error = x; topic = s.topic; consumer_group = s.group_id })
          s.world in
      sent r (record s { world = w })

  -- `if not self.enable_auto_commit: await self._consumer.commit()`
  unfoldable pub commit_offset : Bool → EventSubscriber W → Result X ⊤ × EventSubscriber W
  commit_offset true s = (ok tt, s)
  commit_offset false s = let (r, w) = out.commit s.world in (r, record s { world = w })

  -- The `try` block behind the call of the handler.
  unfoldable pub handled : Result X ⊤ → EventSubscriber W → Result X ⊤ × EventSubscriber W
  unfolding commit_offset
  handled (err x) s = (err x, s)
  handled (ok _) s =
      commit_offset s.enable_auto_commit (record s { events_consumed = s.events_consumed + 1 })

  -- The `try` block behind `from_dict`.
  unfoldable pub deliver : Result X E → EventSubscriber W → Result X ⊤ × EventSubscriber W
  unfolding handled
  deliver (err x) s = (err x, s)
  deliver (ok e) s = let (r, w) = out.handler e s.world in handled r (record s { world = w })

  -- The `except` block.
  unfoldable pub settle : M → Result X ⊤ → EventSubscriber W → EventSubscriber W
  unfolding send_to_dlq
  settle m (ok _) s = s
  settle m (err x) s = send_to_dlq m x (record s { handler_errors = s.handler_errors + 1 })

  -- The body of the loop, behind the test of the flag.
  unfoldable pub consume_one : M → EventSubscriber W → EventSubscriber W
  unfolding deliver settle
  consume_one m s = let (r, s') = deliver (out.from_dict m) s in settle m r s'

  -- `consume`, over the messages that the consumer yields.
  unfoldable pub consume : List M → EventSubscriber W → EventSubscriber W
  unfolding consume_one
  consume [] s = s
  consume (m ∷ ms) s =
      let rest = consume ms (consume_one m s) in if out.is_running s.world then rest else s
