-- ===== src/TaskService.antt =====
-- services/task_service/main.py: `TaskServiceApp`, and `TaskGrpcServer` of
-- services/task_service/infrastructure/grpc_server.py: how the parts of the service are started and
-- stopped. SQLAlchemy, the gRPC server and Kafka are an argument. `start` as a whole is modelled here
-- for a run in which no signal comes; TaskService/Signals has the tasks that signal handlers make.
pub mod Keeps
pub mod Stops
pub mod Lifecycle
pub mod Signals
mod Tests
use taskforge_platform.Common.{ℕ, Bool, true, false, String, Option, none, some, if◌then◌else◌}
use taskforge_platform.Common.Result.{⊤, Result, ok, err}
use taskforge_platform.Common.Method.{Method, pure, modify, when, for_some, ◌>>=◌, ◌>>◌}
use taskforge_platform.EventBus.Publisher.{EventPublisher, new_publisher}
use taskforge_platform.EventBus.Publisher
use taskforge_platform.Observability.{ObservabilityManager}
use taskforge_platform.Observability

-- How `wait_for_termination` ends.
pub data Waited (X : Type 0) : Type 0 where
  terminated : Waited X  -- the server has stopped
  was_cancelled : Waited X  -- CancelledError
  broken : X → Waited X

pub record Outside (X W : Type 0) : Type 0 where
  pub getenv : String → Option String
  pub bus : Publisher.Outside X W
  pub create_engine : W → Result X ⊤ × W
  pub create_schema : W → Result X ⊤ × W
  pub start_server : W → Result X ⊤ × W  -- `aio.server`, `add_insecure_port` and `start`
  pub stop_server : W → Result X ⊤ × W
  pub wait_for_termination : W → Waited X × W
  pub dispose_engine : W → Result X ⊤ × W

pub record TaskGrpcServer : Type 0 where
  pub has_server : Bool  -- `_server is not None`

pub record TaskServiceApp (W : Type 0) : Type 0 where
  pub has_engine : Bool
  pub event_publisher : Option (EventPublisher W)
  pub grpc_server : Option TaskGrpcServer
  pub is_running : Bool
  pub manager : ObservabilityManager
  pub world : W

unfoldable pub new_app : {W : Type 0} → ObservabilityManager → W → TaskServiceApp W
new_app m w = record {
  has_engine = false;
  event_publisher = none;
  grpc_server = none;
  is_running = false;
  manager = m;
  world = w;
}

module _ {X W : Type 0} (out : Outside X W) where
  -- A method of the service: it leaves the service as it is when it raises, too.
  abbrev pub Action : Type 0
  Action = Method (TaskServiceApp W) X ⊤

  abbrev pub ask : (W → Result X ⊤ × W) → Action
  ask f a = let (r, w) = f a.world in (r, record a { world = w })

  -- A method of the publisher, which shares the world.
  abbrev pub on_publisher :
      (EventPublisher W → Result X ⊤ × EventPublisher W) → EventPublisher W → Action
  on_publisher f p a =
      let (r, q) = f (record p { world = a.world }) in
      (r, record a { event_publisher = some q; world = q.world })

  -- `TaskGrpcServer.start` keeps the server before it is started.
  unfoldable pub start_server : Action
  start_server =
      modify (λ a. record a { grpc_server = some (record { has_server = true }) })
      >> ask out.start_server

  -- `TaskGrpcServer.stop`
  unfoldable pub stop_server : TaskGrpcServer → Action
  stop_server s = when s.has_server (ask out.stop_server)

  -- The parts of `initialize`. The session that is opened for the event store is left out.
  unfoldable pub set_up_telemetry : Action
  unfolding Observability.initialize
  set_up_telemetry = modify (λ a. record a {
    manager = Observability.initialize out.getenv "task-service" none a.manager;
  })

  unfoldable pub make_engine : Action
  make_engine = ask out.create_engine >> modify (λ a. record a { has_engine = true })

  unfoldable pub start_publisher : Action
  unfolding Publisher.start new_publisher
  start_publisher a = on_publisher (Publisher.start out.bus) (new_publisher a.world) a

  unfoldable pub make_server : Action
  make_server = modify (λ a. record a { grpc_server = some (record { has_server = false }) })

  -- `TaskServiceApp.initialize`
  unfoldable pub initialize : Action
  unfolding set_up_telemetry make_engine start_publisher make_server
  initialize =
      set_up_telemetry >> make_engine >> ask out.create_schema >> start_publisher >> make_server

  -- The four parts of `shutdown`.
  unfoldable pub stop_grpc : Action
  unfolding stop_server
  stop_grpc a = for_some a.grpc_server stop_server a

  unfoldable pub stop_publisher : Action
  unfolding Publisher.stop
  stop_publisher a = for_some a.event_publisher (on_publisher (Publisher.stop out.bus)) a

  unfoldable pub dispose : Action
  dispose a = when a.has_engine (ask out.dispose_engine) a

  unfoldable pub stop_telemetry : Action
  unfolding Observability.shutdown
  stop_telemetry = modify (λ a. record a { manager = Observability.shutdown a.manager })

  -- `shutdown` behind its guard.
  unfoldable pub stop_all : Action
  unfolding stop_grpc stop_publisher dispose stop_telemetry
  stop_all a =
      (stop_grpc >> stop_publisher >> dispose >> stop_telemetry) (record a { is_running = false })

  -- `TaskServiceApp.shutdown`
  unfoldable pub shutdown : Action
  unfolding stop_all
  shutdown a = if a.is_running then stop_all a else (ok tt, a)

  -- `serve_forever` behind the end of `wait_for_termination`.
  unfoldable pub waited : Waited X → Action
  unfolding stop_server
  waited terminated a = (ok tt, a)
  waited was_cancelled a = for_some a.grpc_server stop_server a
  waited (broken x) a = (err x, a)

  -- `TaskGrpcServer.serve_forever`
  unfoldable pub serve_forever : Action
  unfolding start_server waited
  serve_forever = start_server >> λ a.
      let (x, w) = out.wait_for_termination a.world in waited x (record a { world = w })

  -- `finally: await self.shutdown()`, where an exception of `shutdown` replaces the other one.
  abbrev pub finally_shutdown : Result X ⊤ → Action
  unfolding shutdown
  finally_shutdown r a = let (r', b) = shutdown a in (elim r' [ ok _ ↦ r | err x ↦ err x ], b)

  -- `TaskServiceApp.start` behind `initialize`.
  unfoldable pub serve : Action
  unfolding serve_forever finally_shutdown
  serve a = let (r, b) = serve_forever (record a { is_running = true }) in finally_shutdown r b

  -- `TaskServiceApp.start`
  unfoldable pub start : Action
  unfolding initialize serve
  start = initialize >> serve
