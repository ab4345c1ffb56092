-- ===== src/TaskService/Tests.antt =====
-- The service with libraries that do what they are asked, and one whose database is not there.
use taskforge_platform.Common.{ℕ, ◌+◌, ◌≡◌, refl, true, false, String, none, [], ◌∷◌}
use taskforge_platform.Common.Result.{⊤, Result, ok, err}
use taskforge_platform.EventBus.Publisher
use taskforge_platform.Observability.{new_manager}
use taskforge_platform.TaskService.{
  Outside, terminated, TaskServiceApp, new_app, initialize, start, shutdown, start_server,
  stop_grpc, waited,
}
use taskforge_platform.TaskService.Signals.{
  serving, at_publisher, skipped, System, passes_guard, returns, starts_server, stops_server,
  server_ends, turn, signal, Reachable, begun, later,
}
use taskforge_platform.TaskService.Signals.Orderly.{IsOrderly, Reachable-IsOrderly}
use taskforge_platform.TaskService.Lifecycle.{Ran, start_lem}

-- The world counts the calls.
abbrev counting : ℕ → Result String ⊤ × ℕ
counting w = (ok tt, w + 1)

abbrev kafka : Publisher.Outside String ℕ
kafka = record {
  start_producer = counting;
  stop_producer = counting;
  send = λ m w. (ok tt, w + 1);
  is_kafka_error = λ x. true;
  new_uuid = λ w. ("c", w);
  utcnow = λ w. w;
}

abbrev libraries : Outside String ℕ
libraries = record {
  getenv = λ name. none;
  bus = kafka;
  create_engine = counting;
  create_schema = counting;
  start_server = counting;
  stop_server = counting;
  wait_for_termination = λ w. (terminated, w);
  dispose_engine = counting;
}

abbrev no_database : Outside String ℕ
no_database = record libraries { create_schema = λ w. (err "connection refused", w) }

abbrev idle : TaskServiceApp ℕ
unfolding new_app new_manager
idle = new_app new_manager 0

-- The engine is made, and no call disposes of it.
engine_left : (shutdown no_database (start no_database idle).1).1.has_engine ≡ true
unfolding start shutdown idle
engine_left = refl

calls_of_a_run : (start libraries idle).1.world ≡ 7
unfolding start idle
calls_of_a_run = refl

start_lem_example : Ran libraries (initialize libraries idle) (start libraries idle)
unfolding idle new_app
start_lem_example = start_lem libraries idle refl

-- A signal comes while the server runs; its task goes through the guard and stops the server, and
-- `start` behind the server returns at the guard: the publisher still has its producer.
abbrev left : TaskServiceApp ℕ
unfolding initialize idle new_app
left = (initialize libraries idle).1

abbrev returned_early : System ℕ
unfolding start_server stop_grpc left
returned_early = record {
  app =
      (stop_grpc libraries (record (start_server libraries (record left { is_running = true })).1 {
        is_running = false;
      })).1;
  tasks = skipped ∷ at_publisher ∷ [];
}

returned_early-Reachable : Reachable libraries left returned_early
unfolding start_server stop_grpc left returned_early waited
returned_early-Reachable =
    later
      (later
        (later
          (later (later (later begun (turn [] [] refl starts_server)) signal)
            (turn (serving ∷ []) [] refl (passes_guard refl)))
          (turn (serving ∷ []) [] refl stops_server))
        (turn [] (at_publisher ∷ []) refl (server_ends terminated)))
      (turn [] (at_publisher ∷ []) refl (returns refl))

Reachable-IsOrderly_example : IsOrderly returned_early
unfolding left
Reachable-IsOrderly_example = Reachable-IsOrderly libraries left refl returned_early-Reachable
