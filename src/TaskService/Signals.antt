-- ===== src/TaskService/Signals.antt =====
-- `start` behind `initialize` with the signal handlers of services/task_service/main.py: each signal
-- makes a task that runs `shutdown`, `start` awaits none of them, and the tasks take turns in any
-- order. A task gives up its turn only where it awaits; here it may between any two parts of
-- `shutdown`, which allows for more runs, and a part that it awaits has its effect in one turn.
pub mod Orderly
use taskforge_platform.Common.{
  ℕ, ◌+◌, ◌≤◌, ◌≡◌, refl, sym, ap, ◌∙◌, subst, arith, Bool, true, false, ◌⊎◌, inl, inr, Option,
  none, some, List, [], ◌∷◌, ◌++◌,
}
use taskforge_platform.Common.Result.{⊤, Result, ok, err}
use taskforge_platform.Common.Method.{when, for_some}
use taskforge_platform.EventBus.Publisher.{EventPublisher}
use taskforge_platform.EventBus.Publisher
use taskforge_platform.Observability
use taskforge_platform.TaskService.{
  Waited, terminated, was_cancelled, broken, Outside, TaskGrpcServer, TaskServiceApp, ask,
  on_publisher, stop_server, stop_grpc, stop_publisher, dispose, stop_telemetry, start_server,
  waited,
}

-- Where a task stands.
pub data Place : Type 0 where
  starting : Place  -- `await grpc_task`, in front of the server's own start
  serving : Place  -- `await grpc_task`, in `wait_for_termination`
  guard : Place  -- the begin of `shutdown`
  at_server at_publisher at_engine at_telemetry : Place  -- in front of a part of `shutdown`
  skipped : Place  -- returned at the guard
  stopped : Place  -- returned behind the last part
  failed : Place  -- raised by a part

-- Awaiting a part of `shutdown`.
abbrev pub awaits : Place → Bool
awaits at_server = true
awaits at_publisher = true
awaits at_engine = true
awaits at_telemetry = true
awaits p = false

-- Behind the server's start.
abbrev pub served : {X : Type 0} → Result X ⊤ → Place
served (ok _) = serving
served (err x) = guard

-- Behind a part that has returned or raised.
abbrev pub next : {X : Type 0} → Result X ⊤ → Place → Place
next (ok _) p = p
next (err x) p = failed

-- The service and its tasks: that of `start`, and then those of the signals, in their order.
pub record System (W : Type 0) : Type 0 where
  pub app : TaskServiceApp W
  pub tasks : List Place

module _ {X W : Type 0} (out : Outside X W) where
  -- One turn of a task.
  pub data Move (a : TaskServiceApp W) : Place → TaskServiceApp W → Place → Type 0 where
    starts_server : Move a starting (start_server out a).1 (served (start_server out a).0)
    server_ends : (x : Waited X) → Move a serving (waited out x a).1 guard
    passes_guard : a.is_running ≡ true → Move a guard (record a { is_running = false }) at_server
    returns : a.is_running ≡ false → Move a guard a skipped
    stops_server : Move a at_server (stop_grpc out a).1 (next (stop_grpc out a).0 at_publisher)
    stops_publisher :
        Move a at_publisher (stop_publisher out a).1 (next (stop_publisher out a).0 at_engine)
    disposes : Move a at_engine (dispose out a).1 (next (dispose out a).0 at_telemetry)
    -- `asyncio.run` cancels the tasks that are left when `start` has returned.
    is_cancelled : (p : Place) → awaits p ≡ true → Move a p a failed
    shuts_telemetry : Move a at_telemetry (stop_telemetry out a).1 stopped

  pub data Step (s : System W) : System W → Type 0 where
    -- Something else happens: the server works, a library answers.
    happens : (w : W) → Step s (record s { app = record s.app { world = w } })
    signal : Step s (record s { tasks = s.tasks ++ guard ∷ [] })
    turn :
        (front back : List Place) {p q : Place} {b : TaskServiceApp W}
        → s.tasks ≡ front ++ p ∷ back
        → Move s.app p b q
        → Step s (record { app = b; tasks = front ++ q ∷ back })

  -- From `start` behind `initialize`, `a` being what `initialize` has left.
  pub data Reachable (a : TaskServiceApp W) : System W → Type 0 where
    begun : Reachable a (record { app = record a { is_running = true }; tasks = starting ∷ [] })
    later : {s t : System W} → Reachable a s → Step s t → Reachable a t
