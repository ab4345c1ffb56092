-- ===== src/EventBus/Tests.antt =====
-- A subscriber on four messages, one of which it cannot read and one that its handler refuses.
use taskforge_platform.Common.{
  ℕ, ◌+◌, ◌≡◌, refl, true, false, String, [], ◌∷◌, nat_beq, if◌then◌else◌,
}
use taskforge_platform.Common.Result.{ok, err}
use taskforge_platform.EventBus.{Outside, EventSubscriber, consume}

-- The world counts the calls.
abbrev outside : Outside ℕ ℕ String ℕ
outside = record {
  from_dict = λ m. if nat_beq m 0 then err "unreadable" else ok m;
  handler = λ e w. (if nat_beq e 1 then err "refused" else ok tt, w + 1);
  commit = λ w. (ok tt, w + 1);
  send = λ t d w. (ok tt, w + 1);
  is_running = λ w. true;
}

abbrev idle : EventSubscriber ℕ
idle = record {
  topic = "task.events";
  dlq_topic = "task.events.dlq";
  group_id = "workflows";
  enable_auto_commit = false;
  events_consumed = 0;
  handler_errors = 0;
  dlq_events = 0;
  world = 0;
}

consumed_two : (consume outside (2 ∷ 0 ∷ 1 ∷ 3 ∷ []) idle).events_consumed ≡ 2
unfolding consume
consumed_two = refl

dead_two : (consume outside (2 ∷ 0 ∷ 1 ∷ 3 ∷ []) idle).dlq_events ≡ 2
unfolding consume
dead_two = refl
