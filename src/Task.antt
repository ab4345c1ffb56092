-- ===== src/Task.antt =====
-- The domain of the task service, services/task_service/domain: value objects, commands, events
-- and the aggregate.
pub mod Status
pub mod Errors
pub mod Values
pub mod Commands
pub mod Events
pub mod Aggregate
pub mod Tests
