-- ===== src/Lib.antt =====
-- A model of the task orchestration platform: the event-sourced task domain of the task service with
-- its persistence, the saga framework and the workflows of the workflow service, the event bus, and
-- how the two services are started and stopped.
--
-- The task service keeps a task as the events that happened to it. A command object is validated, a
-- method of the aggregate turns it into an event, `raise_event` numbers the event, appends it to
-- the uncommitted ones and applies it, and `from_events` rebuilds a task from a stored stream. The
-- saga framework runs the steps of a definition one after the other, retries each with an
-- exponential back-off, and on an exception compensates the completed steps in reverse order. The
-- handlers of the task service save a task through the repository, which appends its events to the
-- event store under optimistic concurrency control, inside a unit of work, which saves the events
-- of every aggregate it tracks and publishes them.
--
-- Files and code:
--   Common           helpers of all modules: Boolean tests, lists over native numbers, dicts in
--                    insertion order, exceptions as values, methods as state functions
--   EventSourcing    src/libs/common/event_bus.py (DomainEvent), src/libs/common/unit_of_work.py
--                    (AggregateRoot), and the loop and the sort of `TaskAggregate.from_events`;
--                    EventSourcing/Replay has the lemmas on numbered streams
--   Task/Status      src/services/task_service/domain/value_objects.py: TaskStatus, TaskPriority
--   Task/Values      the same file: the validating value objects and TaskMetadata
--   Task/Errors      src/services/task_service/domain/exceptions.py and Python's exceptions
--   Task/Commands    src/services/task_service/domain/commands.py
--   Task/Events      src/services/task_service/domain/events.py
--   Task/Events/Serial  the same file, and to_dict of src/libs/common/event_bus.py: the dict that
--                    an event is written as, and from_dict
--   Task/Aggregate   src/services/task_service/domain/aggregates.py: state and event handlers;
--                    Task/Aggregate/Methods has its methods, with `execute` for any one command;
--                    Task/Aggregate/View has to_dict
--   Persistence/Store       src/services/task_service/infrastructure/event_store.py: save_events
--   Persistence/Reads       the same file: get_events, get_all_events, _deserialize_event
--   Persistence/UnitOfWork  src/libs/common/unit_of_work.py: UnitOfWork;
--                           Persistence/UnitOfWork/Publishing puts the publisher behind it
--   Persistence/Repository  src/services/task_service/infrastructure/repository.py: save and
--                           invalidate_cache, and the block of grpc_server.py that saves a task
--   Persistence/Tasks       the same file: get_by_id and list_tasks
--   Persistence/Integrity   what save_events and a unit of work keep of the table
--   Service          src/services/task_service/infrastructure/grpc_server.py: the six handlers of
--                    TaskServiceServicer; Service/Integrity has what they keep of the table and the
--                    cache, and `serve_all` for any sequence of requests
--   Saga/Step        src/libs/saga_framework/saga.py: SagaStep
--   Saga/Instance    the same file: SagaDefinition and SagaInstance
--   Saga/Kinds       src/libs/saga_framework/step.py: KafkaPublishStep, ConditionalStep,
--                    ParallelStep; Saga/Kinds/Clients has GrpcStep and HttpStep
--   Saga/Orchestrator  src/libs/saga_framework/saga.py: SagaOrchestrator, its background tasks as steps
--   Workflows        src/services/workflow_service/saga/workflows.py: the onboarding, the approval and
--                    the bulk workflow
--   EventBus         src/libs/common/event_bus.py: EventSubscriber; EventBus/Clients has
--                    its start and stop, EventBus/Publisher EventPublisher
--   Observability    src/libs/common/observability.py
--   WorkflowService  src/services/workflow_service/main.py: the calls of WorkflowServiceApp;
--                    WorkflowService/Lifecycle has its start and shutdown
--   TaskService      src/services/task_service/main.py, and TaskGrpcServer of
--                    src/services/task_service/infrastructure/grpc_server.py, in a run without a
--                    signal; TaskService/Signals has the tasks that signal handlers make, as steps
--   Demo             src/main.py
--
-- Conventions. A method is a function from its object to a result and the object it leaves, also
-- when it raises. Event classes are declared frozen in the source, where an assignment to a field
-- raises; the methods that raise events take this as the argument `frozen`, so that the theorems
-- speak both of the code as it is, `events_frozen`, and of the code with plain dataclasses. What
-- Python's library decides (classes of characters, lower case, the text form of dates) is the
-- instance argument `Runtime`. The ids and times that a method draws are its argument `Fresh`. The
-- callables of a saga are arguments: functions of the context and of a world that they may change;
-- `asyncio.sleep` and the clock are functions of that world. Delays are whole milliseconds. Client
-- libraries (Kafka, gRPC, HTTP, SQLAlchemy) are functions of a world that answer or raise. There is
-- no fuel: every loop runs over a list or counts attempts down.
--
-- The table of the event store is the list of its rows in the order of their ids, as the one
-- session of the service sees it, with the state of a transaction that has failed, and versions
-- that may be negative in the source are integers (Common/Integer). The unique indexes of the schema
-- are modelled; its column types, which refuse other rows (an id that is no UUID), are not. One request runs at a time.
--
-- JSON texts are kept as the values that they are read as, and a row is read as it was written. The
-- cache of the repository holds task objects that the handlers change: `share` in Service puts the
-- changed task back under its id. A time that a default takes while rows are read is a function
-- `clock` of the position of the row.
--
-- A publishing task is modelled as it runs to its end; `commit` cancels the tasks that are not done
-- after ten seconds, which Persistence/UnitOfWork lists (`cancelled_tasks`).
--
-- Not modelled: failures of the database and the column types of the schema; the loop in which the workflow service waits for a signal and its demo command, which
-- wait while background tasks run; the command lines of the services; and what logging prints.
pub mod Common
pub mod EventSourcing
pub mod Task
pub mod Persistence
pub mod Service
pub mod Saga
pub mod Workflows
pub mod EventBus
pub mod Observability
pub mod WorkflowService
pub mod TaskService
pub mod Demo
